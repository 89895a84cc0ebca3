-- ===== src/Webserver/Request/Headers.antt =====
-- `request_read_headers` of webserver/request.c: it returns where an empty line follows, and runs for
-- good where the client closes the connection before one.
use ece344lab.Common.{
  ℕ, zero, suc, ◌<◌, ◌≡◌, refl, sym, ap, subst, ◌∙◌, inl, inr, false, List, [], ◌∷◌, ◌++◌, Option,
  none, some, ◌==◌, if◌then◌else◌, Bool-cases, arith, length,
}
use ece344lab.Common.Action.{Outcome, ok, err, abort, exited, fault}
use ece344lab.Common.Text.{same_text, until_zero}
use ece344lab.Webserver.Rio.{Rio, rio_readlineb, or_exit}
use ece344lab.Webserver.Rio.Lines.{
  Unfailing, contents, first_line, assoc, ReadsLine, rio_readlineb-ReadsLine,
}
use ece344lab.Webserver.Request.{max_line, crlf, line_or, after_header, read_headers}

abbrev pub HasLine : ℕ → Rio → Type 0
HasLine maxlen rp =
    (t : Rio) × (rio_readlineb maxlen rp ≡ ok (first_line (contents rp)) t)
    × (contents rp ≡ first_line (contents rp) ++ contents t)
    × Unfailing t.replies

line_of :
    (maxlen : ℕ) (rp : Rio) (r : Outcome Rio (List ℕ))
    → rio_readlineb maxlen rp ≡ r
    → length (first_line (contents rp)) < maxlen
    → ReadsLine maxlen (contents rp) r
    → HasLine maxlen rp
line_of maxlen rp (ok l t) e short (line, inside, all, u) =
    (t, e ∙ ap (λ r. ok r t) line, all ∙ ap (λ r. r ++ contents t) line, u)
line_of maxlen rp (err x t) e short w = absurd w
line_of maxlen rp abort e short w = absurd w
line_of maxlen rp exited e short w = absurd w
line_of maxlen rp fault e short w = absurd (omega (arith, short, w))

-- A line that fits is returned.
pub rio_readlineb-HasLine :
    (maxlen : ℕ) (rp : Rio)
    → Unfailing rp.replies
    → length (first_line (contents rp)) < maxlen
    → HasLine maxlen rp
rio_readlineb-HasLine maxlen rp u short =
    line_of maxlen rp (rio_readlineb maxlen rp) refl short (rio_readlineb-ReadsLine maxlen rp u)

-- One line, with its '\n' last and nowhere before.
abbrev pub IsLine : List ℕ → Type 0
IsLine [] = ⊥
IsLine (c ∷ l) = if c == b'\n' then l ≡ [] else IsLine l

pub first_line-IsLine : (l m : List ℕ) → IsLine l → first_line (l ++ m) ≡ l
unfolding first_line
first_line-IsLine [] m is = absurd is
first_line-IsLine (c ∷ l) m is = elim (Bool-cases (c == b'\n')) [
  | inl ends ↦
      let last : l ≡ [] = subst (λ b. if b then l ≡ [] else IsLine l) ends is in
      rw ends (ap (λ r. c ∷ r) (sym last))
  | inr other ↦
      let more : IsLine l = subst (λ b. if b then l ≡ [] else IsLine l) other is in
      rw other (ap (λ r. c ∷ r) (first_line-IsLine l m more))
]

-- A line that the loop goes on after.
abbrev pub IsHeader : List ℕ → Type 0
IsHeader l = IsLine l × (length l < 8192) × (same_text (line_or [] l) crlf ≡ false)

abbrev pub AllHeaders : List (List ℕ) → Type 0
AllHeaders [] = Unit
AllHeaders (l ∷ ls) = IsHeader l × AllHeaders ls

unfoldable pub concat : List (List ℕ) → List ℕ
concat [] = []
concat (l ∷ ls) = l ++ concat ls

pub line_or-IsLine : (buf l : List ℕ) → IsLine l → line_or buf l ≡ line_or [] l
line_or-IsLine buf [] is = absurd is
line_or-IsLine buf (c ∷ l) is = refl

pub append_cancel : (a b c : List ℕ) → a ++ b ≡ a ++ c → b ≡ c
append_cancel [] b c e = e
append_cancel (x ∷ a) b c e = append_cancel a b c (cc e)

-- A line at the front of the bytes to come is read by the next call.
abbrev pub NextLine : List ℕ → List ℕ → Rio → Type 0
NextLine l rest rp =
    (t : Rio) × (rio_readlineb max_line rp ≡ ok l t) × (contents t ≡ rest) × Unfailing t.replies

pub next_line :
    (l rest : List ℕ) (rp : Rio)
    → IsLine l
    → length l < 8192
    → contents rp ≡ l ++ rest
    → Unfailing rp.replies
    → NextLine l rest rp
unfolding max_line
next_line l rest rp is short all u =
    let first : first_line (contents rp) ≡ l = ap first_line all ∙ first_line-IsLine l rest is in
    let (t, e, split, v) =
      rio_readlineb-HasLine 8192 rp u (subst (λ k. length k < 8192) (sym first) short) in
    (
      t,
      e ∙ ap (λ k. ok k t) first,
      append_cancel l (contents t) rest (sym (sym all ∙ split ∙ ap (λ k. k ++ contents t) first)),
      v,
    )

-- One call of the loop.
read_headers-line :
    (calls : ℕ) (buf l : List ℕ) (rp t : Rio)
    → IsLine l
    → rio_readlineb max_line rp ≡ ok l t
    → read_headers (suc calls) buf rp ≡ (
        if same_text (line_or [] l) crlf
        then some (ok tt t)
        else read_headers calls (line_or buf l) t)
unfolding read_headers after_header
read_headers-line calls buf l rp t is e =
    ap (λ o. after_header (λ b s. read_headers calls b s) buf (or_exit o)) e
    ∙ ap (λ k. if same_text k crlf then some (ok tt t) else read_headers calls (line_or buf l) t)
        (line_or-IsLine buf l is)

abbrev pub Skipped : List ℕ → Option (Outcome Rio (Unit {0})) → Type 0
Skipped body none = ⊥
Skipped body (some (ok _ t)) = (contents t ≡ body) × Unfailing t.replies
Skipped body (some (err e t)) = ⊥
Skipped body (some abort) = ⊥
Skipped body (some exited) = ⊥
Skipped body (some fault) = ⊥

-- Where no read(2) fails and the bytes to come are header lines, each shorter than the array, an
-- empty line and a body: `request_read_headers` returns after one call for each line, at the body,
-- however the bytes are cut and whatever the array held.
pub read_headers-Skipped :
    (ls : List (List ℕ)) (body buf : List ℕ) (rp : Rio)
    → AllHeaders ls
    → Unfailing rp.replies
    → contents rp ≡ concat ls ++ (crlf ++ body)
    → Skipped body (read_headers (suc (length ls)) buf rp)
unfolding concat crlf same_text until_zero
read_headers-Skipped [] body buf rp every u all =
    let (t, e, rest, v) = next_line crlf body rp refl (omega arith) all u in
    rw (read_headers-line 0 buf crlf rp t refl e) (rest, v)
read_headers-Skipped (l ∷ ls) body buf rp ((is, short, other), every) u all =
    let (t, e, rest, v) =
      next_line l (concat ls ++ (crlf ++ body)) rp is short
        (all ∙ assoc l (concat ls) (crlf ++ body)) u in
    rw (read_headers-line (suc (length ls)) buf l rp t is e, other)
      (read_headers-Skipped ls body (line_or buf l) t every v rest)

-- At the end of the bytes the call returns nothing, and so does the next.
pub past_end :
    (rp : Rio)
    → Unfailing rp.replies
    → contents rp ≡ []
    → (t : Rio) × (rio_readlineb max_line rp ≡ ok [] t) × (contents t ≡ []) × Unfailing t.replies
unfolding max_line first_line
past_end rp u empty =
    let first : first_line (contents rp) ≡ [] = ap first_line empty in
    let (t, e, split, v) =
      rio_readlineb-HasLine 8192 rp u (subst (λ k. length k < 8192) (sym first) (omega arith)) in
    (t, e ∙ ap (λ k. ok k t) first, sym (sym empty ∙ split ∙ ap (λ k. k ++ contents t) first), v)

ended_hangs :
    (calls : ℕ) (buf : List ℕ) (rp : Rio)
    → same_text buf crlf ≡ false
    → Unfailing rp.replies
    → contents rp ≡ []
    → read_headers calls buf rp ≡ none
unfolding read_headers after_header
ended_hangs zero buf rp other u all = refl
ended_hangs (suc calls) buf rp other u all =
    let (t, e, rest, v) = past_end rp u all in
    ap (λ o. after_header (λ b s. read_headers calls b s) buf (or_exit o)) e
    ∙ rw other (ended_hangs calls buf t other v rest)

-- Where no read(2) fails and the bytes to come are header lines, each shorter than the array, with
-- no empty line after them, and the array did not hold one: `request_read_headers` never returns, in
-- however many calls.
pub read_headers_hangs :
    (ls : List (List ℕ)) (calls : ℕ) (buf : List ℕ) (rp : Rio)
    → AllHeaders ls
    → same_text buf crlf ≡ false
    → Unfailing rp.replies
    → contents rp ≡ concat ls
    → read_headers calls buf rp ≡ none
unfolding concat read_headers
read_headers_hangs [] calls buf rp every other u all = ended_hangs calls buf rp other u all
read_headers_hangs (l ∷ ls) zero buf rp every other u all = refl
read_headers_hangs (l ∷ ls) (suc calls) buf rp ((is, short, differs), every) other u all =
    let (t, e, rest, v) = next_line l (concat ls) rp is short all u in
    let kept : same_text (line_or buf l) crlf ≡ false =
      ap (λ k. same_text k crlf) (line_or-IsLine buf l is) ∙ differs in
    rw (read_headers-line calls buf l rp t is e, differs)
      (read_headers_hangs ls calls (line_or buf l) t every kept v rest)
