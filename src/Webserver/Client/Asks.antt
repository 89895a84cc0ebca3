-- ===== src/Webserver/Client/Asks.antt =====
-- A request from `client_send` of webserver/client.c to `request_init` of webserver/request.c.
use ece344lab.Common.{
  ℕ, ◌+◌, ◌<◌, ◌≡◌, refl, sym, ap, subst, ◌∙◌, inl, inr, true, false, List, [], ◌∷◌, ◌++◌, Option,
  none, some, ltb, ◌==◌, if◌then◌else◌, Bool-cases, arith, length,
}
use ece344lab.Common.Action.{Outcome, ok, err, abort, exited, fault}
use ece344lab.Common.Text.{same_text, until_zero, isspace}
use ece344lab.Webserver.Rio.{Reply, Rio, rio_init, Accepts, Sink, rio_write, or_exit}
use ece344lab.Webserver.Rio.Lines.{
  all_bytes, Unfailing, contents, assoc, length-append, length-take,
}
use ece344lab.Webserver.Rio.Whole.{Writes, rio_write-Writes}
use ece344lab.Webserver.Text.{codes, skip_space, first_word, after_word, same_letters}
use ece344lab.Webserver.Request.{
  Unwritten, new_request, crlf, line_or, read_headers, request_parse_uri, named, parse_request,
  after_first_line, request_init,
}
use ece344lab.Webserver.Request.Headers.{
  IsLine, next_line, AllHeaders, concat, Skipped, read_headers-Skipped,
}
use ece344lab.Webserver.Client.{request_line, host_line, request_text, client_send}

-- Characters of a name that a request can carry.
abbrev pub IsName : List ℕ → Type 0
IsName [] = Unit
IsName (c ∷ l) = (isspace c ≡ false) × ((c == 0) ≡ false) × IsName l

-- No character is '\n'.
abbrev pub OneLine : List ℕ → Type 0
OneLine [] = Unit
OneLine (c ∷ l) = ((c == b'\n') ≡ false) × OneLine l

pub name-OneLine : (l : List ℕ) → IsName l → OneLine l
name-OneLine [] n = tt
name-OneLine (c ∷ l) (space, z, n) = (ground arith, name-OneLine l n)

pub IsLine-append : (l m : List ℕ) → OneLine l → IsLine m → IsLine (l ++ m)
IsLine-append [] m one is = is
IsLine-append (c ∷ l) m (other, one) is =
    subst (λ b. if b then l ++ m ≡ [] else IsLine (l ++ m)) (sym other) (IsLine-append l m one is)

first_word-name : (l tail : List ℕ) → IsName l → first_word (l ++ (32 ∷ tail)) ≡ l
unfolding first_word
first_word-name [] tail n = refl
first_word-name (c ∷ l) tail (space, z, n) = rw space (ap (λ r. c ∷ r) (first_word-name l tail n))

pub until_zero-name :
    (l tail : List ℕ) → IsName l → until_zero tail ≡ tail → until_zero (l ++ tail) ≡ l ++ tail
unfolding until_zero
until_zero-name [] tail n e = e
until_zero-name (c ∷ l) tail (space, z, n) e = rw z (ap (λ r. c ∷ r) (until_zero-name l tail n e))

skip_space-name : (c : ℕ) (l : List ℕ) → isspace c ≡ false → skip_space (c ∷ l) ≡ c ∷ l
unfolding skip_space
skip_space-name c l space = rw space refl

version : List ℕ
unfolding crlf
version = codes "HTTP/1.0" ++ crlf

request_line-until_zero :
    (filename : List ℕ)
    → IsName filename
    → until_zero (request_line filename) ≡ request_line filename
unfolding request_line until_zero crlf version
request_line-until_zero filename n =
    ap (λ r. codes "GET " ++ r) (until_zero-name filename (32 ∷ version) n refl)

parse-request_line :
    (calls : ℕ) (old : Unwritten) (fd : Sink) (c : ℕ) (l : List ℕ) (rp : Rio)
    → IsName (c ∷ l)
    → parse_request calls old fd (request_line (c ∷ l)) rp
      ≡ named fd (c ∷ l) (read_headers calls old.header rp)
unfolding parse_request request_line skip_space first_word after_word same_letters crlf version
parse-request_line calls old fd c l rp n =
    ap
      (λ s.
        named fd (elim (first_word s) [ [] ↦ old.uri | a ∷ w ↦ a ∷ w ])
          (read_headers calls old.header rp))
      (skip_space-name c (l ++ (32 ∷ version)) n.0)
    ∙ ap
        (λ w. named fd (elim w [ [] ↦ old.uri | a ∷ v ↦ a ∷ v ]) (read_headers calls old.header rp))
        (first_word-name (c ∷ l) version n)

named-Skipped :
    (fd : Sink) (uri body : List ℕ) (o : Option (Outcome Rio (Unit {0})))
    → Skipped body o
    → named fd uri o ≡ some (ok true (new_request fd (request_parse_uri uri)))
unfolding named
named-Skipped fd uri body none s = absurd s
named-Skipped fd uri body (some (ok _ t)) s = refl
named-Skipped fd uri body (some (err e t)) s = absurd s
named-Skipped fd uri body (some abort) s = absurd s
named-Skipped fd uri body (some exited) s = absurd s
named-Skipped fd uri body (some fault) s = absurd s

length-request_line : (filename : List ℕ) → length (request_line filename) ≡ length filename + 15
unfolding request_line crlf version
length-request_line filename = omega (arith, length-append filename (32 ∷ version))

length-host_line : (host : List ℕ) → length (host_line host) ≡ length host + 8
unfolding host_line crlf
length-host_line host = omega (arith, length-append host crlf)

length-request_text :
    (host filename : List ℕ)
    → length (request_text host filename) ≡ length filename + length host + 25
unfolding request_text crlf
length-request_text host filename = omega (
  arith,
  length-append (request_line filename) (host_line host ++ crlf),
  length-append (host_line host) crlf,
  length-request_line filename,
  length-host_line host,
)

-- What a successful call has sent.
wrote_all :
    (usrbuf before : List ℕ) (t : Sink) (r : Outcome Sink (Unit {0}))
    → or_exit r ≡ ok tt t
    → Writes usrbuf before r
    → t.sent ≡ before ++ usrbuf
wrote_all usrbuf before t (ok _ s) e w = let same : s ≡ t = cc e in ap (λ k. k.sent) (sym same) ∙ w
wrote_all usrbuf before t (err x s) e w = absurd (ground (arith, e))
wrote_all usrbuf before t abort e w = absurd w
wrote_all usrbuf before t exited e w = absurd w
wrote_all usrbuf before t fault e w = absurd w

client_send-sent :
    (host filename : List ℕ) (s t : Sink)
    → client_send host filename s ≡ ok tt t
    → (t.sent ≡ s.sent ++ request_text host filename) × (length (request_text host filename) < 8192)
unfolding client_send
client_send-sent host filename s t e =
    elim (Bool-cases (ltb (length (request_text host filename)) 8192)) [
      | inl fits ↦ (
        wrote_all (request_text host filename) s.sent t (rio_write (request_text host filename) s)
            (subst
              (λ b.
                (if b then or_exit (rio_write (request_text host filename) s) else fault) ≡ ok tt t)
              fits e)
            (rio_write-Writes (request_text host filename) s),
        ground arith,
      )
      | inr long ↦ absurd (ground (arith, e, long))
    ]

-- The header lines of the request, and its end.
host_line-IsHeader :
    (host : List ℕ) → OneLine host → length host < 8170 → AllHeaders (host_line host ∷ [])
unfolding host_line crlf same_text until_zero
host_line-IsHeader host one short =
    ((IsLine-append host crlf one refl, omega (arith, length-append host crlf, short), refl), tt)

request_line-IsLine : (filename : List ℕ) → OneLine filename → IsLine (request_line filename)
unfolding request_line crlf version
request_line-IsLine filename one = IsLine-append filename (32 ∷ version) one refl

line_or-request_line :
    (buf filename : List ℕ)
    → IsName filename
    → line_or buf (request_line filename) ≡ request_line filename
unfolding request_line
line_or-request_line buf filename n = request_line-until_zero filename n

request_parse_uri-short :
    (uri : List ℕ) → length uri < 8170 → request_parse_uri uri ≡ b'.' ∷ (b'/' ∷ uri)
unfolding request_parse_uri
request_parse_uri-short uri short = length-take 8191 (b'.' ∷ (b'/' ∷ uri)) (omega (arith, short))

-- From the bytes of a request to the name.
module _ (host : List ℕ) (c : ℕ) (l : List ℕ) (old : Unwritten) (fd : Sink) (n : IsName (c ∷ l))
    (one : OneLine host) (short : length (request_text host (c ∷ l)) < 8192) where
  headers-Skipped :
      (t : Rio)
      → Unfailing t.replies
      → contents t ≡ host_line host ++ crlf
      → Skipped [] (read_headers 2 old.header t)
  unfolding concat crlf
  headers-Skipped t u rest =
      read_headers-Skipped (host_line host ∷ []) [] old.header t
        (host_line-IsHeader host one (omega (arith, short, length-request_text host (c ∷ l)))) u
        (rest ∙ sym (assoc (host_line host) [] crlf))

  request_init-text :
      (replies : List Reply)
      → Unfailing replies
      → all_bytes replies ≡ request_text host (c ∷ l)
      → request_init 2 old fd replies ≡ some (ok true (new_request fd (b'.' ∷ (b'/' ∷ (c ∷ l)))))
  unfolding request_init request_text
  request_init-text replies u all =
      let size : length (c ∷ l) + length host + 25 < 8192 =
        omega (arith, short, length-request_text host (c ∷ l)) in
      let (t, e, rest, v) =
        next_line (request_line (c ∷ l)) (host_line host ++ crlf) (rio_init replies)
          (request_line-IsLine (c ∷ l) (name-OneLine (c ∷ l) n))
          (omega (arith, size, length-request_line (c ∷ l))) all u in
      ap (λ o. after_first_line 2 old fd (or_exit o)) e
      ∙ ap (λ line. parse_request 2 old fd line t) (line_or-request_line old.buf (c ∷ l) n)
      ∙ parse-request_line 2 old fd c l t n
      ∙ named-Skipped fd (c ∷ l) [] (read_headers 2 old.header t) (headers-Skipped t v rest)
      ∙ ap (λ name. some (ok true (new_request fd name)))
          (request_parse_uri-short (c ∷ l) (omega (arith, size)))

-- A request that `client_send` has written, for a name of at least one character, none of them white
-- space, and a host without '\n': however it is cut on the way, where no read(2) fails,
-- `request_init` finds the end of its headers and returns a request for the name with "./" before it.
pub request_init-client_send :
    (host : List ℕ) (c : ℕ) (l : List ℕ) (results : List Accepts) (t : Sink) (old : Unwritten)
    (fd : Sink) (replies : List Reply)
    → IsName (c ∷ l)
    → OneLine host
    → client_send host (c ∷ l) (record { sent = []; accepted = results }) ≡ ok tt t
    → Unfailing replies
    → all_bytes replies ≡ t.sent
    → request_init 2 old fd replies ≡ some (ok true (new_request fd (b'.' ∷ (b'/' ∷ (c ∷ l)))))
request_init-client_send host c l results t old fd replies n one e u all =
    let (gone, short) =
      client_send-sent host (c ∷ l) (record { sent = []; accepted = results }) t e in
    request_init-text host c l old fd n one short replies u (all ∙ gone)
