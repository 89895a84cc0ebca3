-- ===== src/Webserver/Request/Responses.antt =====
-- What the error responses and the header of webserver/request.c write to a connection, and when an
-- error response overruns its array.
use ece344lab.Common.{ℕ, ◌≡◌, refl, ap, ◌∙◌, true, false, List, ◌++◌, ltb, length}
use ece344lab.Common.Action.{
  Outcome, Action, ok, err, abort, exited, fault, continue, put_back, ◌>>◌,
}
use ece344lab.Webserver.Rio.{Sink, rio_write, or_exit}
use ece344lab.Webserver.Rio.Lines.{assoc}
use ece344lab.Webserver.Rio.Whole.{Writes, rio_write-Writes, Fails, OnFailure, rio_write-OnFailure}
use ece344lab.Webserver.Text.{codes, decimal}
use ece344lab.Webserver.Request.{
  Request, crlf, say, checksum, error_body, status_line, request_error,
}

module _ {A : Type 0} where
  -- A part of the program that writes some text and changes nothing else of the request, or exits
  -- where a write(2) fails.
  abbrev pub Sends : List ℕ → Request → Outcome Request A → Type 0
  Sends text rq (ok _ t) =
      (t.fd.sent ≡ rq.fd.sent ++ text)
      × (t.file ≡ rq.file)
      × (Fails t.fd.accepted → Fails rq.fd.accepted)
  Sends text rq (err e t) = ⊥
  Sends text rq abort = ⊥
  Sends text rq exited = Fails rq.fd.accepted
  Sends text rq fault = ⊥

-- One part after another.
pub Sends-continue :
    {A B : Type 0} (a b : List ℕ) (rq : Request) (r : Outcome Request B) (k : B → Action Request A)
    → Sends a rq r
    → ((x : B) (t : Request) → t.file ≡ rq.file → Sends b t (k x t))
    → Sends (a ++ b) rq (continue k r)
Sends-continue {A = A} a b rq (ok x t) k (gone, same, fails) next = after (k x t) (next x t same)
  where
    after : (r : Outcome Request A) → Sends b t r → Sends (a ++ b) rq r
    after (ok y s) (more, kept, later) =
        (more ∙ ap (λ l. l ++ b) gone ∙ assoc rq.fd.sent a b, kept ∙ same, λ h. fails (later h))
    after (err e s) w = w
    after abort w = w
    after exited w = fails w
    after fault w = w
Sends-continue a b rq (err e t) k w next = absurd w
Sends-continue a b rq abort k w next = absurd w
Sends-continue a b rq exited k w next = w
Sends-continue a b rq fault k w next = absurd w

pub say-Sends : (text : List ℕ) (rq : Request) → Sends text rq (say text rq)
unfolding say
say-Sends text rq =
    sent (rio_write text rq.fd) (rio_write-Writes text rq.fd) (rio_write-OnFailure text rq.fd)
  where
    sent :
        (r : Outcome Sink (Unit {0}))
        → Writes text rq.fd.sent r
        → OnFailure (Fails rq.fd.accepted) r
        → Sends text rq (put_back (λ fd. record rq { fd = fd }) (or_exit r))
    sent (ok _ t) w f = (w, refl, f)
    sent (err e t) w f = f
    sent abort w f = absurd w
    sent exited w f = absurd w
    sent fault w f = absurd w

-- Two texts, one after the other.
pub say-then :
    {A : Type 0} (a b : List ℕ) (rq : Request) (k : Action Request A)
    → ((t : Request) → t.file ≡ rq.file → Sends b t (k t))
    → Sends (a ++ b) rq ((say a >> k) rq)
say-then a b rq k next = Sends-continue a b rq (say a rq) (λ _. k) (say-Sends a rq) (λ _. next)

say-five :
    (a b c d e : List ℕ) (rq : Request)
    → Sends (a ++ (b ++ (c ++ (d ++ e)))) rq ((say a >> (say b >> (say c >> (say d >> say e)))) rq)
say-five a b c d e rq =
    say-then {A = Unit {0}} a (b ++ (c ++ (d ++ e))) rq (say b >> (say c >> (say d >> say e)))
      λ t1 _. say-then {A = Unit {0}} b (c ++ (d ++ e)) t1 (say c >> (say d >> say e)) λ t2 _.
        say-then {A = Unit {0}} c (d ++ e) t2 (say d >> say e)
          λ t3 _. say-then {A = Unit {0}} d e t3 (say e) λ t4 _. say-Sends e t4

-- The whole of an error response.
unfoldable pub error_response : List ℕ → List ℕ → List ℕ → List ℕ → List ℕ
error_response cause errnum shortmsg longmsg =
    let body = error_body cause errnum shortmsg longmsg in
    status_line errnum shortmsg
    ++ (codes "Content-Type: text/html\r\n"
        ++ ((codes "Content-Length: " ++ (decimal (length body) ++ crlf))
            ++ ((codes "Content-Csum: " ++ (decimal (checksum 0 body) ++ codes "\r\n\r\n"))
                ++ body)))

-- With a body that fits in its array.
pub request_error-Sends :
    (cause errnum shortmsg longmsg : List ℕ) (rq : Request)
    → ltb (length (error_body cause errnum shortmsg longmsg)) 8192 ≡ true
    → Sends
        (error_response cause errnum shortmsg longmsg)
        rq
        (request_error cause errnum shortmsg longmsg rq)
unfolding request_error error_response
request_error-Sends cause errnum shortmsg longmsg rq fits = rw fits (
    say-five (status_line errnum shortmsg) (codes "Content-Type: text/html\r\n")
      (codes "Content-Length: "
        ++ (decimal (length (error_body cause errnum shortmsg longmsg)) ++ crlf))
      (codes "Content-Csum: "
        ++ (decimal (checksum 0 (error_body cause errnum shortmsg longmsg)) ++ codes "\r\n\r\n"))
      (error_body cause errnum shortmsg longmsg) rq)

pub request_error-overruns :
    (cause errnum shortmsg longmsg : List ℕ) (rq : Request)
    → ltb (length (error_body cause errnum shortmsg longmsg)) 8192 ≡ false
    → request_error cause errnum shortmsg longmsg rq ≡ fault
unfolding request_error
request_error-overruns cause errnum shortmsg longmsg rq long = rw long refl
