-- ===== src/Webserver/Rio/Lines.antt =====
-- `rio_readlineb` of webserver/common.c against the first line of the bytes to come, however the
-- calls of read(2) cut them into pieces.
use ece344lab.Common.{
  ℕ, zero, suc, ◌+◌, ◌≤◌, ◌<◌, ◌≡◌, refl, sym, ap, subst, ◌∙◌, ◌⊎◌, inl, inr, true, false, List, [],
  ◌∷◌, ◌++◌, ltb, ◌==◌, if◌then◌else◌, Bool-cases, arith, length,
}
use ece344lab.Common.Action.{Outcome, ok, err, abort, exited, fault, continue}
use ece344lab.Webserver.Rio.{
  Reply, bytes, interrupted, failed, take_bytes, drop_bytes, left_over, Rio, rio_init, refill,
  after_refill, rio_readb, get_line, terminated, rio_readlineb,
}

-- The bytes to come, where no call fails.
unfoldable pub all_bytes : List Reply → List ℕ
all_bytes [] = []
all_bytes (bytes c l ∷ replies) = (c ∷ l) ++ all_bytes replies
all_bytes (interrupted ∷ replies) = all_bytes replies
all_bytes (failed ∷ replies) = all_bytes replies

abbrev pub Unfailing : List Reply → Type 0
Unfailing [] = Unit
Unfailing (bytes c l ∷ replies) = Unfailing replies
Unfailing (interrupted ∷ replies) = Unfailing replies
Unfailing (failed ∷ replies) = ⊥

abbrev pub contents : Rio → List ℕ
contents rp = rp.unread ++ all_bytes rp.replies

-- The bytes up to the first '\n', it included.
unfoldable pub first_line : List ℕ → List ℕ
first_line [] = []
first_line (c ∷ l) = let rest = first_line l in if c == b'\n' then c ∷ [] else c ∷ rest

pub take-drop : (n : ℕ) (l : List ℕ) → take_bytes n l ++ drop_bytes n l ≡ l
unfolding take_bytes drop_bytes
take-drop zero l = refl
take-drop (suc n) [] = refl
take-drop (suc n) (c ∷ l) = ap (λ r. c ∷ r) (take-drop n l)

pub assoc : (a b c : List ℕ) → (a ++ b) ++ c ≡ a ++ (b ++ c)
assoc [] b c = refl
assoc (x ∷ a) b c = ap (λ r. x ∷ r) (assoc a b c)

pub length-append : (l m : List ℕ) → length (l ++ m) ≡ length l + length m
length-append [] m = omega arith
length-append (c ∷ l) m = omega (arith, length-append l m)

pub all_bytes-left_over :
    (l : List ℕ) (replies : List Reply) → all_bytes (left_over l replies) ≡ l ++ all_bytes replies
unfolding all_bytes
all_bytes-left_over [] replies = refl
all_bytes-left_over (c ∷ l) replies = refl

pub left_over-Unfailing :
    (l : List ℕ) (replies : List Reply) → Unfailing replies → Unfailing (left_over l replies)
left_over-Unfailing [] replies u = u
left_over-Unfailing (c ∷ l) replies u = u

-- Either no byte is left, or the buffer has one.
abbrev Filled : List Reply → Type 0
Filled replies =
    ((all_bytes replies ≡ []) × (refill replies ≡ ok false (rio_init [])))
    ⊎ ((c : ℕ) × (l : List ℕ) × (more : List Reply) × (refill replies
          ≡ ok true (record { unread = c ∷ l; replies = more }))
        × (all_bytes replies ≡ c ∷ (l ++ all_bytes more))
        × Unfailing more)

refill-Filled : (replies : List Reply) → Unfailing replies → Filled replies
unfolding refill all_bytes take_bytes drop_bytes
refill-Filled [] u = inl (refl, refl)
refill-Filled (bytes c l ∷ replies) u = inr (
  c,
  take_bytes 8191 l,
  left_over (drop_bytes 8191 l) replies,
  refl,
  ap (λ r. c ∷ r)
      (sym (
        ap (λ r. take_bytes 8191 l ++ r) (all_bytes-left_over (drop_bytes 8191 l) replies)
        ∙ sym (assoc (take_bytes 8191 l) (drop_bytes 8191 l) (all_bytes replies))
        ∙ ap (λ r. r ++ all_bytes replies) (take-drop 8191 l))),
  left_over-Unfailing (drop_bytes 8191 l) replies u,
)
refill-Filled (interrupted ∷ replies) u = refill-Filled replies u
refill-Filled (failed ∷ replies) u = absurd u

-- One byte by `rio_readb`, or the end.
abbrev OneByte : Rio → Type 0
OneByte rp =
    ((contents rp ≡ []) × (rio_readb 1 rp ≡ ok [] (rio_init [])))
    ⊎ ((c : ℕ) × (t : Rio) × (rio_readb 1 rp ≡ ok (c ∷ []) t)
        × (contents rp ≡ c ∷ contents t)
        × Unfailing t.replies)

readb-OneByte :
    (unread : List ℕ) (replies : List Reply)
    → Unfailing replies
    → OneByte (record { unread = unread; replies = replies })
unfolding rio_readb take_bytes drop_bytes
readb-OneByte (c ∷ l) replies u = inr (c, record { unread = l; replies = replies }, refl, refl, u)
readb-OneByte [] replies u = elim (refill-Filled replies u) [
  | inl (none, e) ↦ inl (none, ap (continue (after_refill 1)) e)
  | inr (c, l, more, e, all, v) ↦
      inr (c, record { unread = l; replies = more }, ap (continue (after_refill 1)) e, all, v)
]

abbrev Got : ℕ → Rio → Type 0
Got left rp =
    (l : List ℕ) × (t : Rio) × (get_line left rp ≡ ok l t)
    × (l ≡ take_bytes left (first_line (contents rp)))
    × (contents rp ≡ l ++ contents t)
    × Unfailing t.replies

-- The line that ends with this byte or goes on after it.
take-first_line :
    (left c : ℕ) (l : List ℕ)
    → (c == b'\n') ≡ false
    → take_bytes (suc left) (first_line (c ∷ l)) ≡ c ∷ take_bytes left (first_line l)
unfolding take_bytes first_line
take-first_line left c l other = rw other refl

take-newline :
    (left c : ℕ) (l : List ℕ)
    → (c == b'\n') ≡ true
    → take_bytes (suc left) (first_line (c ∷ l)) ≡ c ∷ []
unfolding take_bytes first_line
take-newline zero c l ends = rw ends refl
take-newline (suc left) c l ends = rw ends refl

get_line-Got : (left : ℕ) (rp : Rio) → Unfailing rp.replies → Got left rp
unfolding get_line take_bytes first_line all_bytes
get_line-Got zero rp u = ([], rp, refl, refl, refl, u)
get_line-Got (suc left) rp u = elim (readb-OneByte rp.unread rp.replies u) [
  | inl (none, e) ↦ ([], rio_init [], rw e refl, rw none refl, none, tt)
  | inr (c, t, e, all, v) ↦ (elim (Bool-cases (c == b'\n')) [
    | inl ends ↦ (
      c ∷ [],
      t,
      rw (e, ends) refl,
      sym (
          ap (λ s. take_bytes (suc left) (first_line s)) all
          ∙ take-newline left c (contents t) ends),
      all,
      v,
    )
    | inr other ↦
        (let (l, s, f, line, more, w) = get_line-Got left t v in
          (
            c ∷ l,
            s,
            rw (e, other, f) refl,
            ap (λ r. c ∷ r) line
                ∙ sym (
                    ap (λ s. take_bytes (suc left) (first_line s)) all
                    ∙ take-first_line left c (contents t) other),
            all ∙ ap (λ r. c ∷ r) more,
            w,
          ))
  ])
]

pub length-take : (n : ℕ) (l : List ℕ) → length l ≤ n → take_bytes n l ≡ l
unfolding take_bytes
length-take zero [] h = refl
length-take zero (c ∷ l) h = absurd (omega (arith, h))
length-take (suc n) [] h = refl
length-take (suc n) (c ∷ l) h = ap (λ r. c ∷ r) (length-take n l (omega (arith, h)))

length-take_full : (n : ℕ) (l : List ℕ) → n ≤ length l → length (take_bytes n l) ≡ n
unfolding take_bytes
length-take_full zero l h = refl
length-take_full (suc n) [] h = absurd (omega (arith, h))
length-take_full (suc n) (c ∷ l) h = ap suc (length-take_full n l (omega (arith, h)))

-- A call of `rio_readlineb` returns the first line and leaves the rest, or writes past `usrbuf`.
abbrev pub ReadsLine : ℕ → List ℕ → Outcome Rio (List ℕ) → Type 0
ReadsLine maxlen s (ok line t) =
    (line ≡ first_line s) × (length line < maxlen) × (s ≡ line ++ contents t) × Unfailing t.replies
ReadsLine maxlen s (err e t) = ⊥
ReadsLine maxlen s abort = ⊥
ReadsLine maxlen s exited = ⊥
ReadsLine maxlen s fault = maxlen ≤ length (first_line s)

terminated-ReadsLine :
    (maxlen : ℕ) (s l : List ℕ) (t : Rio)
    → l ≡ take_bytes maxlen (first_line s)
    → s ≡ l ++ contents t
    → Unfailing t.replies
    → ReadsLine maxlen s (terminated maxlen l t)
terminated-ReadsLine maxlen s l t line all u =
    elim (Bool-cases (ltb (length (first_line s)) maxlen)) [
      | inl fits ↦
          let whole : l ≡ first_line s = line ∙ length-take maxlen (first_line s) (ground arith) in
          let inside : ltb (length l) maxlen ≡ true =
            ap (λ r. ltb (length r) maxlen) whole ∙ fits in
          rw inside (whole, ground arith, all, u)
      | inr long ↦
          let full : length l ≡ maxlen =
            ap length line ∙ length-take_full maxlen (first_line s) (ground arith) in
          let outside : ltb (length l) maxlen ≡ false = rw full (ground arith) in
          rw outside (ground arith)
    ]

-- Where no read(2) fails, and whatever it returns each time: `rio_readlineb` returns the first line
-- of the bytes to come, which is shorter than `maxlen`, and leaves the bytes after it; or the line
-- is not shorter, and the 0 is written one past the end of the buffer.
pub rio_readlineb-ReadsLine :
    (maxlen : ℕ) (rp : Rio)
    → Unfailing rp.replies
    → ReadsLine maxlen (contents rp) (rio_readlineb maxlen rp)
unfolding rio_readlineb
rio_readlineb-ReadsLine maxlen rp u =
    let (l, t, e, line, all, v) = get_line-Got maxlen rp u in
    subst (λ o. ReadsLine maxlen (contents rp) (continue (terminated maxlen) o)) (sym e)
      (terminated-ReadsLine maxlen (contents rp) l t line all v)
