-- ===== src/Webserver/Client/Print/Checks.antt =====
-- From `do_server_request` of webserver/server_thread.c to `client_print` of webserver/client.c.
use ece344lab.Common.{
  ℕ, zero, suc, ◌+◌, ◌^◌, ◌%◌, ◌<◌, ◌≡◌, refl, sym, ap, ap₂, subst, ◌∙◌, inl, inr, true, false,
  List, [], ◌∷◌, ◌++◌, Option, some, ◌||◌, ◌==◌, Bool-cases, arith, length,
}
use ece344lab.Common.Action.{Outcome, ok}
use ece344lab.Common.Int.{pos}
use ece344lab.Common.Text.{until_zero}
use ece344lab.Webserver.Rio.{Reply, Rio, rio_init, or_exit}
use ece344lab.Webserver.Rio.Lines.{all_bytes, contents, Unfailing, first_line, assoc, length-append}
use ece344lab.Webserver.Text.{codes, strstr, strrchr}
use ece344lab.Webserver.Request.{Request, max_line, crlf, checksum, request_get_file_type}
use ece344lab.Webserver.Request.Files.{Disk, is_source, is_absolute, serve_uncached}
use ece344lab.Webserver.Request.Headers.{rio_readlineb-HasLine, next_line, past_end}
use ece344lab.Webserver.Request.Served.{file_response, Answers, serve_uncached-Answers}
use ece344lab.Webserver.Client.Print.{
  Announced, Received, after_body, read_body, checked, then_check, then_body, after_status,
  client_print,
}
use ece344lab.Webserver.Client.Print.Header.{after_type, header_read}
use ece344lab.Webserver.Client.Print.Answers.{
  status_200, server_line, type_line, length_line, csum_line, header_lines, ok_header-lines,
  file_type-Short, type_line-Shown,
}

-- No line of a text, from any place of it, is as long as the array.
abbrev pub ShortLines : List ℕ → Type 0
ShortLines s = (a b : List ℕ) → s ≡ a ++ b → length (first_line b) < 8192

first_line-cons : (c : ℕ) (l : List ℕ) → (m : List ℕ) × (first_line (c ∷ l) ≡ c ∷ m)
unfolding first_line
first_line-cons c l = elim (Bool-cases (c == b'\n')) [
  | inl ends ↦ ([], rw ends refl)
  | inr other ↦ (first_line l, rw other refl)
]

checksum-append : (a : ℕ) (l m : List ℕ) → checksum a (l ++ m) ≡ checksum (checksum a l) m
unfolding checksum
checksum-append a [] m = refl
checksum-append a (c ∷ l) m = checksum-append ((a + c) % 2 ^ 32) l m

abbrev ReadsBody : List ℕ → Received → Option (Outcome Rio Received) → Type 0
ReadsBody s got o =
    (t : Rio) × (o
      ≡ some (ok (record { count = got.count + length s; sum = checksum got.sum s }) t))

read_body-ReadsBody :
    (rounds : ℕ) (s : List ℕ) (got : Received) (rp : Rio)
    → ShortLines s
    → length s < rounds
    → contents rp ≡ s
    → Unfailing rp.replies
    → ReadsBody s got (read_body rounds got rp)
unfolding read_body after_body max_line checksum
read_body-ReadsBody zero s got rp lines h all u = absurd (omega (arith, h))
read_body-ReadsBody (suc rounds) [] got rp lines h all u =
    let (t, e, rest, v) = past_end rp u all in
    let same : got.count ≡ got.count + 0 = omega arith in
    (
      t,
      ap (λ o. after_body (λ g r. read_body rounds g r) got (or_exit o)) e
          ∙ ap (λ n. some (ok (record { count = n; sum = got.sum }) t)) same,
    )
read_body-ReadsBody (suc rounds) (c ∷ l) got rp lines h all u =
    let (m, first) = first_line-cons c l in
    let line : first_line (contents rp) ≡ c ∷ m = ap first_line all ∙ first in
    let (t, e, split, v) =
      rio_readlineb-HasLine 8192 rp u
        (subst (λ k. length (first_line k) < 8192) (sym all) (lines [] (c ∷ l) refl)) in
    let parts : c ∷ l ≡ (c ∷ m) ++ contents t = sym all ∙ split ∙ ap (λ k. k ++ contents t) line in
    let sizes : length (c ∷ l) ≡ length (c ∷ m) + length (contents t) =
      ap length parts ∙ length-append (c ∷ m) (contents t) in
    let seen : Received = record {
      count = got.count + length (c ∷ m);
      sum = checksum got.sum (c ∷ m);
    } in
    let (s, f) =
      read_body-ReadsBody rounds (contents t) seen t
        (λ a b same.
          lines ((c ∷ m) ++ a) b (parts ∙ ap (λ k. (c ∷ m) ++ k) same ∙ sym (assoc (c ∷ m) a b)))
        (omega (arith, h, sizes)) refl v in
    (
      s,
      ap (λ o. after_body (λ g r. read_body rounds g r) got (or_exit o)) (e ∙ ap (λ k. ok k t) line)
          ∙ f
          ∙ ap₂ (λ n k. some (ok (record { count = n; sum = k }) s)) (omega (arith, sizes))
              (sym (
                ap (λ k. checksum got.sum k) parts ∙ checksum-append got.sum (c ∷ m) (contents t))),
    )

checksum-lt : (a : ℕ) (l : List ℕ) → a < 2 ^ 32 → checksum a l < 2 ^ 32
unfolding checksum
checksum-lt a [] h = h
checksum-lt a (c ∷ l) h = checksum-lt ((a + c) % 2 ^ 32) l (omega arith)

passes :
    (csum n : ℕ) (rp : Rio)
    → checked csum
        (pos n)
        (record { size = pos n; csum = csum })
        (record { count = n; sum = csum })
        rp
      ≡ ok tt rp
passes csum n rp = ground arith

-- The client reads the whole of an answer.
abbrev pub Accepted : Option (Outcome Rio (Unit {0})) → Type 0
Accepted o = (t : Rio) × (o ≡ some (ok tt t))

client_print-file_response :
    (name content buf : List ℕ) (k : ℕ) (replies : List Reply)
    → ShortLines content
    → length content < 2 ^ 31
    → length content < k
    → Unfailing replies
    → all_bytes replies ≡ file_response name content
    → Accepted (
        client_print
          (suc (suc (suc (suc (suc (suc k))))))
          buf
          (checksum 0 content)
          (pos (length content))
          replies)
unfolding client_print after_status then_body file_response header_lines status_200 until_zero
    after_type
client_print-file_response name content buf k replies lines small enough u all =
    let filetype : List ℕ = request_get_file_type name in
    let n : ℕ = length content in
    let csum : ℕ = checksum 0 content in
    let rounds : ℕ = suc (suc (suc (suc (suc (suc k))))) in
    let announced : Announced = record { size = pos n; csum = csum } in
    let same : 0 + n ≡ n = omega arith in
    let (t, e, rest, v) =
      next_line status_200
        (server_line
          ++ (type_line filetype ++ (length_line n ++ (csum_line csum ++ (crlf ++ content)))))
        (rio_init replies) refl (omega arith) (all ∙ ok_header-lines name n csum content) u in
    let (t1, e1, rest1, v1) =
      header_read filetype n csum content k t (type_line-Shown filetype (file_type-Short name))
        small (checksum-lt 0 content (omega arith)) rest v in
    let (t2, e2) =
      read_body-ReadsBody rounds content (record { count = 0; sum = 0 }) t1 lines
        (omega (arith, enough)) rest1 v1 in
    (
      t2,
      ap (λ o. after_status rounds csum (pos n) buf (or_exit o)) e
          ∙ ap (λ o. then_body rounds csum (pos n) o) e1
          ∙ ap (λ o. then_check csum (pos n) announced o) e2
          ∙ ap (λ c. some (checked csum (pos n) announced (record { count = c; sum = csum }) t2))
              same
          ∙ ap some (passes csum n t2),
    )

-- A server without a cache and a client, for a file that the server may serve and can read, of fewer
-- than 2 ^ 31 bytes and with no line as long as the client's array: where no write has ended the
-- server, and the bytes that it has sent reach the client, cut in whatever pieces and read without
-- an error, `client_print` with the file's checksum and length returns, and its four assertions hold.
pub client_print-serve_uncached :
    (disk : Disk) (rq : Request) (t : Request) (file replies : List Reply) (buf : List ℕ) (k : ℕ)
    → rq.fd.sent ≡ []
    → (is_absolute rq.file.file_name
        || (strstr rq.file.file_name (codes "..") || is_source (strrchr rq.file.file_name b'.')))
      ≡ false
    → disk.stat rq.file.file_name
      ≡ some (record { regular = true; readable = true; st_size = length (all_bytes file) })
    → disk.opened rq.file.file_name ≡ some file
    → Unfailing file
    → length (all_bytes file) < 2 ^ 31
    → ShortLines (all_bytes file)
    → serve_uncached disk rq ≡ ok tt t
    → Unfailing replies
    → all_bytes replies ≡ t.fd.sent
    → length (all_bytes file) < k
    → Accepted (
        client_print
          (suc (suc (suc (suc (suc (suc k))))))
          buf
          (checksum 0 (all_bytes file))
          (pos (length (all_bytes file)))
          replies)
client_print-serve_uncached disk rq t file replies buf k new allowed exists found whole small lines
      served u all enough =
    let name = rq.file.file_name in
    let answer : List ℕ = file_response name (all_bytes file) in
    let gone : t.fd.sent ≡ rq.fd.sent ++ answer =
      subst (λ o. Answers answer rq o) served
        (serve_uncached-Answers disk rq file allowed exists small found whole) in
    client_print-file_response name (all_bytes file) buf k replies lines small enough u
      (all ∙ gone ∙ ap (λ l. l ++ answer) new)
