-- ===== src/Webserver/Request/Refused.antt =====
-- Names that `request_readfile` of webserver/request.c does not serve, and what `do_server_request`
-- of webserver/server_thread.c sends then.
use ece344lab.Common.{
  ℕ, ◌+◌, ◌≤◌, ◌<◌, ◌≡◌, refl, sym, ap, subst, ◌∙◌, inl, inr, Bool, true, false, ◌||◌, List, ◌++◌,
  ltb, Bool-cases, arith, length,
}
use ece344lab.Common.Action.{Outcome, ok, err, abort, exited, fault, pure, continue}
use ece344lab.Common.Int.{pos}
use ece344lab.Webserver.Rio.Lines.{assoc, length-append}
use ece344lab.Webserver.Rio.Whole.{Fails}
use ece344lab.Webserver.Text.{codes, strstr, strrchr}
use ece344lab.Webserver.Request.{Request, crlf, checksum, error_body, status_line, request_error}
use ece344lab.Webserver.Request.Responses.{
  Sends, say-Sends, error_response, request_error-Sends, request_error-overruns,
}
use ece344lab.Webserver.Request.Files.{
  Disk, refuse, not_found, is_source, is_absolute, request_readfile, ok_header, send_file,
  request_sendfile, serve_uncached,
}

-- A name that starts with '/', has ".." in it, or ends in ".c" or ".h".
abbrev pub Forbidden : List ℕ → Type 0
Forbidden name =
    (is_absolute name || (strstr name (codes "..") || is_source (strrchr name b'.'))) ≡ true

-- An answer 404 and no file, or an exit where a write(2) fails, or an overrun by a long name.
abbrev pub Refuses : Request → Outcome Request Bool → Type 0
Refuses rq (ok served t) =
    (served ≡ false)
    × (t.file ≡ rq.file)
    × (Fails t.fd.accepted → Fails rq.fd.accepted)
    × (rest : List ℕ) × (t.fd.sent ≡ rq.fd.sent ++ (codes "HTTP/1.0 404 Not found\r\n" ++ rest))
Refuses rq (err e t) = ⊥
Refuses rq abort = ⊥
Refuses rq exited = Fails rq.fd.accepted
Refuses rq fault = 8000 ≤ length rq.file.file_name

length-error_body :
    (cause errnum shortmsg longmsg : List ℕ)
    → length (error_body cause errnum shortmsg longmsg)
      ≡ length cause + length errnum + length shortmsg + length longmsg + 100
unfolding error_body
length-error_body cause errnum shortmsg longmsg =
    let end : List ℕ = codes "</p>\r\n</body></html>\r\n" in
    let tail : List ℕ = codes "</p>\r\n<p>" ++ (longmsg ++ (codes ": " ++ (cause ++ end))) in
    omega (
      arith,
      length-append errnum (codes ": " ++ (shortmsg ++ tail)),
      length-append shortmsg tail,
      length-append longmsg (codes ": " ++ (cause ++ end)),
      length-append cause end,
    )

answered :
    (longmsg : List ℕ) (rq : Request) (r : Outcome Request (Unit {0}))
    → Sends (error_response rq.file.file_name (codes "404") (codes "Not found") longmsg) rq r
    → Refuses rq (continue (λ _. pure false) r)
unfolding error_response status_line crlf
answered longmsg rq (ok _ t) (gone, same, fails) = (refl, same, fails, _, gone)
answered longmsg rq (err e t) w = w
answered longmsg rq abort w = w
answered longmsg rq exited w = w
answered longmsg rq fault w = absurd w

-- The answer to a request, with any message of at most so many characters.
not_found-Refuses :
    (longmsg : List ℕ) (rq : Request) → length longmsg < 60 → Refuses rq (not_found longmsg rq)
unfolding refuse
not_found-Refuses longmsg rq short =
    let cause = rq.file.file_name in
    let size = length-error_body cause (codes "404") (codes "Not found") longmsg in
    elim (Bool-cases
      (ltb (length (error_body cause (codes "404") (codes "Not found") longmsg)) 8192)) [
        | inl fits ↦
            answered longmsg rq (request_error cause (codes "404") (codes "Not found") longmsg rq)
              (request_error-Sends cause (codes "404") (codes "Not found") longmsg rq fits)
        | inr long ↦
            rw (request_error-overruns cause (codes "404") (codes "Not found") longmsg rq long)
              (ground (arith, long, size, short))
      ]

-- Whatever the file system holds, a name that starts with '/', has ".." in it, or ends in ".c" or
-- ".h" is refused: `request_readfile` gives the same on every file system, so it asks nothing of it;
-- it returns 0, leaves the data as it was, and its answer is a 404. The program ends
-- only where some write(2) to the connection fails, and only a name of 8000 characters or more may
-- overrun the array of the answer.
pub request_readfile-Refuses :
    (disk other : Disk) (rq : Request)
    → Forbidden rq.file.file_name
    → (request_readfile disk rq ≡ request_readfile other rq) × Refuses rq (request_readfile disk rq)
unfolding request_readfile
request_readfile-Refuses disk other rq h = elim (Bool-cases (is_absolute rq.file.file_name)) [
  | inl root ↦ rw root (
    refl,
    not_found-Refuses (codes "OS Web Server doesn't serve files with absolute paths") rq
        (omega arith),
  )
  | inr inside ↦ (elim (Bool-cases (strstr rq.file.file_name (codes ".."))) [
    | inl up ↦
        rw (inside, up)
          (
            refl,
            not_found-Refuses (codes "OS Web Server doesn't serve files with .. in the path") rq
                (omega arith),
          )
    | inr down ↦
        let source : is_source (strrchr rq.file.file_name b'.') ≡ true =
          ground (arith, h, inside, down) in
        rw (inside, down, source)
          (
            refl,
            not_found-Refuses (codes "OS Web Server doesn't serve C or header files ") rq
                (omega arith),
          )
  ])
]

-- What `do_server_request` has sent for a refused name, or an exit where a write(2) fails.
abbrev pub AnswersTwice : Request → Outcome Request (Unit {0}) → Type 0
AnswersTwice rq (ok _ t) =
    (rest : List ℕ) × (t.fd.sent
      ≡ rq.fd.sent
        ++ ((codes "HTTP/1.0 404 Not found\r\n" ++ rest) ++ ok_header rq.file.file_name (pos 0) 0))
AnswersTwice rq (err e t) = ⊥
AnswersTwice rq abort = ⊥
AnswersTwice rq exited = Fails rq.fd.accepted
AnswersTwice rq fault = 8000 ≤ length rq.file.file_name

sent_empty :
    (rq t : Request)
    → rq.file.file_size ≡ pos 0
    → t.file ≡ rq.file
    → Sends (ok_header rq.file.file_name (pos 0) 0) t (request_sendfile t)
unfolding request_sendfile checksum
sent_empty rq t empty same =
    let size : t.file.file_size ≡ pos 0 = ap (λ f. f.file_size) same ∙ empty in
    subst
      (λ n. Sends (ok_header rq.file.file_name (pos 0) 0) t (send_file t.file n t.file.file_buf t))
      (sym size)
      (subst
        (λ f.
          Sends (ok_header f.file_name (pos 0) 0) t (send_file t.file (pos 0) t.file.file_buf t))
        same (say-Sends (ok_header t.file.file_name (pos 0) 0) t))

then_sendfile :
    (rq : Request) (r : Outcome Request Bool)
    → rq.file.file_size ≡ pos 0
    → Refuses rq r
    → AnswersTwice rq (continue (λ _. request_sendfile) r)
then_sendfile rq (ok served t) empty (refused, same, fails, rest, gone) =
    followed (request_sendfile t) (sent_empty rq t empty same)
  where
    followed :
        (r : Outcome Request (Unit {0}))
        → Sends (ok_header rq.file.file_name (pos 0) 0) t r
        → AnswersTwice rq r
    followed (ok _ s) (more, kept, later) = (
      rest,
      more
          ∙ ap (λ l. l ++ ok_header rq.file.file_name (pos 0) 0) gone
          ∙ assoc rq.fd.sent (codes "HTTP/1.0 404 Not found\r\n" ++ rest)
              (ok_header rq.file.file_name (pos 0) 0),
    )
    followed (err e s) w = w
    followed abort w = w
    followed exited w = fails w
    followed fault w = absurd w
then_sendfile rq (err e t) empty w = w
then_sendfile rq abort empty w = w
then_sendfile rq exited empty w = w
then_sendfile rq fault empty w = w

-- Without a cache, for a name that starts with '/', has ".." in it, or ends in ".c" or ".h", and with
-- the size 0 that the data of a request starts with, `do_server_request` sends two answers one after
-- the other: the 404 and then "200 OK" with a length of 0. The program ends only
-- where some write(2) to the connection fails, and only a name of 8000 characters or more may overrun
-- an array.
pub serve_uncached-AnswersTwice :
    (disk : Disk) (rq : Request)
    → rq.file.file_size ≡ pos 0
    → Forbidden rq.file.file_name
    → AnswersTwice rq (serve_uncached disk rq)
unfolding serve_uncached send_file
serve_uncached-AnswersTwice disk rq empty h =
    then_sendfile rq (request_readfile disk rq) empty (request_readfile-Refuses disk disk rq h).1
