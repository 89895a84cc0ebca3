-- ===== src/Webserver/Client/Print.antt =====
-- `client_print` of webserver/client.c: it reads an answer and checks its length and checksum. What it
-- prints is left out. C leaves open what `sscanf` stores for a number that is too large for its
-- variable; here it wraps.
pub mod Numbers
pub mod Answers
pub mod Header
pub mod Checks
use ece344lab.Common.{
  ℕ, zero, suc, ◌+◌, ◌-◌, ◌*◌, ◌%◌, ◌^◌, Bool, true, false, not, List, [], ◌∷◌, ◌++◌, ◌&&◌, ◌||◌,
  Option, none, some, ltb, leb, ◌==◌, if◌then◌else◌, length,
}
use ece344lab.Common.Action.{Outcome, Action, ok, err, abort, exited, fault}
use ece344lab.Common.Int.{ℤ, pos, negsuc, to_s32, to_u32, sub_ℕ}
use ece344lab.Common.Text.{same_text}
use ece344lab.Webserver.Rio.{Reply, Rio, rio_init, rio_readlineb, or_exit, drop_bytes}
use ece344lab.Webserver.Text.{codes, starts_with, skip_space}
use ece344lab.Webserver.Request.{max_line, crlf, line_or, checksum}

abbrev pub isdigit : ℕ → Bool
isdigit c = leb b'0' c && leb c b'9'

-- The number whose digits follow those of another.
unfoldable pub scan_digits : ℕ → List ℕ → ℕ
scan_digits n [] = n
scan_digits n (c ∷ l) =
    let rest = scan_digits (n * 10 + (c - 48)) l in if isdigit c then rest else n

unfoldable pub scan_natural : List ℕ → Option ℕ
unfolding scan_digits
scan_natural [] = none
scan_natural (c ∷ l) = if isdigit c then some (scan_digits 0 (c ∷ l)) else none

abbrev pub positive : Option ℕ → Option ℤ
positive none = none
positive (some n) = some (pos n)

abbrev pub negative : Option ℕ → Option ℤ
negative none = none
negative (some n) = some (sub_ℕ (pos 0) n)

-- `%d` and `%u` of `sscanf`, after white space
unfoldable pub scan_number : List ℕ → Option ℤ
unfolding scan_natural
scan_number [] = none
scan_number (c ∷ l) =
    if c == b'-'
    then negative (scan_natural l)
    else if c == b'+'
    then positive (scan_natural l)
    else positive (scan_natural (c ∷ l))

-- A literal of `sscanf`, then a number.
unfoldable pub scan_tag : List ℕ → List ℕ → Option ℤ
unfolding starts_with scan_number skip_space drop_bytes
scan_tag tag buf =
    if starts_with tag buf then scan_number (skip_space (drop_bytes (length tag) buf)) else none

-- The variables `length` and `csum`.
pub record Announced : Type 0 where
  pub size : ℤ
  pub csum : ℕ

abbrev pub set_size : Option ℤ → Announced → Announced
set_size none seen = seen
set_size (some z) seen = record seen { size = to_s32 (to_u32 z) }

abbrev pub set_csum : Option ℤ → Announced → Announced
set_csum none seen = seen
set_csum (some z) seen = record seen { csum = to_u32 z }

-- The two calls of `sscanf`
unfoldable pub scan_header : List ℕ → Announced → Announced
unfolding scan_tag
scan_header buf seen =
    set_csum (scan_tag (codes "Content-Csum:") buf)
      (set_size (scan_tag (codes "Content-Length:") buf) seen)

-- `n > 0`
abbrev pub nonempty : List ℕ → Bool
nonempty [] = false
nonempty (c ∷ l) = true

-- After a call in the loop over the header: `n` is the length of the line.
unfoldable pub after_line :
    (Announced → List ℕ → List ℕ → Rio → Option (Outcome Rio Announced))
    → Announced
    → List ℕ
    → Outcome Rio (List ℕ)
    → Option (Outcome Rio Announced)
unfolding scan_header
after_line again seen buf (ok line rp) =
    again (scan_header (line_or buf line) seen) (line_or buf line) line rp
after_line again seen buf (err e rp) = some (err e rp)
after_line again seen buf abort = some abort
after_line again seen buf exited = some exited
after_line again seen buf fault = some fault

-- The loop over the header, from its test on, in so many rounds.
unfoldable pub read_answer : ℕ → Announced → List ℕ → List ℕ → Rio → Option (Outcome Rio Announced)
unfolding rio_readlineb max_line after_line same_text crlf
read_answer zero seen buf line rp = none
read_answer (suc rounds) seen buf line rp =
    if not (same_text buf crlf) && nonempty line
    then after_line (λ s b l t. read_answer rounds s b l t) seen buf
        (or_exit (rio_readlineb max_line rp))
    else some (ok seen rp)

-- The variables `length_received` and `csum_received`, and the loop over the body.
pub record Received : Type 0 where
  pub count : ℕ
  pub sum : ℕ

unfoldable pub after_body :
    (Received → Rio → Option (Outcome Rio Received))
    → Received
    → Outcome Rio (List ℕ)
    → Option (Outcome Rio Received)
unfolding checksum
after_body again got (ok [] rp) = some (ok got rp)
after_body again got (ok (c ∷ l) rp) =
    again (record { count = got.count + length (c ∷ l); sum = checksum got.sum (c ∷ l) }) rp
after_body again got (err e rp) = some (err e rp)
after_body again got abort = some abort
after_body again got exited = some exited
after_body again got fault = some fault

unfoldable pub read_body : ℕ → Received → Rio → Option (Outcome Rio Received)
unfolding rio_readlineb max_line after_body
read_body zero got rp = none
read_body (suc rounds) got rp =
    after_body (λ g t. read_body rounds g t) got (or_exit (rio_readlineb max_line rp))

abbrev pub same_int : ℤ → ℤ → Bool
same_int (pos m) (pos n) = m == n
same_int (pos m) (negsuc n) = false
same_int (negsuc m) (pos n) = false
same_int (negsuc m) (negsuc n) = m == n

-- The four calls of `assert`
abbrev pub checked : ℕ → ℤ → Announced → Received → Rio → Outcome Rio (Unit {0})
checked orig_csum orig_length seen got rp =
    if orig_csum == seen.csum
      && (same_int orig_length seen.size
          && (same_int seen.size (pos got.count) && seen.csum == got.sum))
    then ok tt rp
    else abort

abbrev pub then_check :
    ℕ → ℤ → Announced → Option (Outcome Rio Received) → Option (Outcome Rio (Unit {0}))
then_check orig_csum orig_length seen none = none
then_check orig_csum orig_length seen (some (ok got rp)) =
    some (checked orig_csum orig_length seen got rp)
then_check orig_csum orig_length seen (some (err e rp)) = some exited
then_check orig_csum orig_length seen (some abort) = some abort
then_check orig_csum orig_length seen (some exited) = some exited
then_check orig_csum orig_length seen (some fault) = some fault

unfoldable pub then_body :
    ℕ → ℕ → ℤ → Option (Outcome Rio Announced) → Option (Outcome Rio (Unit {0}))
unfolding read_body
then_body rounds orig_csum orig_length none = none
then_body rounds orig_csum orig_length (some (ok seen rp)) =
    then_check orig_csum orig_length seen (read_body rounds (record { count = 0; sum = 0 }) rp)
then_body rounds orig_csum orig_length (some (err e rp)) = some exited
then_body rounds orig_csum orig_length (some abort) = some abort
then_body rounds orig_csum orig_length (some exited) = some exited
then_body rounds orig_csum orig_length (some fault) = some fault

abbrev pub nothing_announced : Announced
nothing_announced = record { size = pos 0; csum = 0 }

-- From the first call on; it is not scanned.
unfoldable pub after_status :
    ℕ → ℕ → ℤ → List ℕ → Outcome Rio (List ℕ) → Option (Outcome Rio (Unit {0}))
unfolding read_answer then_body
after_status rounds orig_csum orig_length buf (ok line rp) =
    then_body rounds orig_csum orig_length
      (read_answer rounds nothing_announced (line_or buf line) line rp)
after_status rounds orig_csum orig_length buf (err e rp) = some exited
after_status rounds orig_csum orig_length buf abort = some abort
after_status rounds orig_csum orig_length buf exited = some exited
after_status rounds orig_csum orig_length buf fault = some fault

-- `client_print`, with so many rounds for each loop: `none` where it has not returned. `buf` is what
-- the array holds before it is written.
unfoldable pub client_print : ℕ → List ℕ → ℕ → ℤ → List Reply → Option (Outcome Rio (Unit {0}))
unfolding after_status rio_readlineb max_line
client_print rounds buf orig_csum orig_length replies =
    after_status rounds orig_csum orig_length buf
      (or_exit (rio_readlineb max_line (rio_init replies)))
