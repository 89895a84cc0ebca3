-- ===== src/Webserver/Rio/Whole.antt =====
-- `rio_read` and `rio_write` of webserver/common.c, which repeat read(2) and write(2) until all the
-- bytes have gone.
use ece344lab.Common.{
  ℕ, zero, suc, ◌-◌, ◌≤◌, ◌≡◌, refl, sym, ap, ◌∙◌, inl, inr, List, [], ◌∷◌, ◌++◌, leb, ◌==◌,
  Bool-cases, arith, length,
}
use ece344lab.Common.Action.{Outcome, ok, err, abort, exited, fault}
use ece344lab.Webserver.Rio.{
  Reply, bytes, interrupted, failed, take_bytes, drop_bytes, got, rio_read, Accepts, accepts, Sink,
  write_loop, rio_write,
}
use ece344lab.Webserver.Rio.Lines.{all_bytes, Unfailing, take-drop, assoc, all_bytes-left_over}

-- What `rio_write` has sent: everything, or on an error the bytes before some of it.
abbrev pub Writes : List ℕ → List ℕ → Outcome Sink (Unit {0}) → Type 0
Writes usrbuf before (ok _ t) = t.sent ≡ before ++ usrbuf
Writes usrbuf before (err e t) =
    (done : List ℕ) × (c : ℕ) × (l : List ℕ) × (usrbuf ≡ done ++ (c ∷ l))
    × (t.sent ≡ before ++ done)
Writes usrbuf before abort = ⊥
Writes usrbuf before exited = ⊥
Writes usrbuf before fault = ⊥

-- After a first part of the bytes has gone.
after_part :
    (part rest usrbuf before : List ℕ) (r : Outcome Sink (Unit {0}))
    → part ++ rest ≡ usrbuf
    → Writes rest (before ++ part) r
    → Writes usrbuf before r
after_part part rest usrbuf before (ok _ t) e w =
    w ∙ assoc before part rest ∙ ap (λ r. before ++ r) e
after_part part rest usrbuf before (err x t) e (done, c, l, split, gone) = (
  part ++ done,
  c,
  l,
  sym e ∙ ap (λ r. part ++ r) split ∙ sym (assoc part done (c ∷ l)),
  gone ∙ assoc before part done,
)
after_part part rest usrbuf before abort e w = w
after_part part rest usrbuf before exited e w = w
after_part part rest usrbuf before fault e w = w

pub append_nil : (l : List ℕ) → l ++ [] ≡ l
append_nil [] = refl
append_nil (c ∷ l) = ap (λ r. c ∷ r) (append_nil l)

write_loop-Writes :
    (usrbuf before : List ℕ) (results : List Accepts)
    → Writes usrbuf before (write_loop usrbuf before results)
unfolding write_loop
write_loop-Writes [] before results = sym (append_nil before)
write_loop-Writes (c ∷ l) before [] = refl
write_loop-Writes (c ∷ l) before (accepts n ∷ results) =
    after_part (c ∷ take_bytes n l) (drop_bytes n l) (c ∷ l) before
      (write_loop (drop_bytes n l) (before ++ (c ∷ take_bytes n l)) results)
      (ap (λ r. c ∷ r) (take-drop n l))
      (write_loop-Writes (drop_bytes n l) (before ++ (c ∷ take_bytes n l)) results)
write_loop-Writes (c ∷ l) before (Accepts.interrupted ∷ results) =
    write_loop-Writes (c ∷ l) before results
write_loop-Writes (c ∷ l) before (Accepts.failed ∷ results) =
    ([], c, l, refl, sym (append_nil before))

-- However write(2) cuts the bytes and however often it is interrupted: where `rio_write` succeeds,
-- all of them have gone to the descriptor, once and in order; where it fails, a part from the start
-- has gone that is not all.
pub rio_write-Writes : (usrbuf : List ℕ) (s : Sink) → Writes usrbuf s.sent (rio_write usrbuf s)
unfolding rio_write
rio_write-Writes usrbuf s = write_loop-Writes usrbuf s.sent s.accepted

-- Some write(2) fails.
abbrev pub Fails : List Accepts → Type 0
Fails [] = ⊥
Fails (accepts n ∷ results) = Fails results
Fails (Accepts.interrupted ∷ results) = Fails results
Fails (Accepts.failed ∷ results) = Unit

-- An error, or a write that is still to come and fails, is a write that fails.
abbrev pub OnFailure : Type 0 → Outcome Sink (Unit {0}) → Type 0
OnFailure P (ok _ t) = Fails t.accepted → P
OnFailure P (err e t) = P
OnFailure P abort = ⊥
OnFailure P exited = ⊥
OnFailure P fault = ⊥

write_loop-OnFailure :
    (usrbuf before : List ℕ) (results : List Accepts)
    → OnFailure (Fails results) (write_loop usrbuf before results)
unfolding write_loop
write_loop-OnFailure [] before results = λ h. h
write_loop-OnFailure (c ∷ l) before [] = λ h. h
write_loop-OnFailure (c ∷ l) before (accepts n ∷ results) =
    write_loop-OnFailure (drop_bytes n l) (before ++ (c ∷ take_bytes n l)) results
write_loop-OnFailure (c ∷ l) before (Accepts.interrupted ∷ results) =
    write_loop-OnFailure (c ∷ l) before results
write_loop-OnFailure (c ∷ l) before (Accepts.failed ∷ results) = tt

-- `rio_write` fails only where a write(2) does.
pub rio_write-OnFailure :
    (usrbuf : List ℕ) (s : Sink) → OnFailure (Fails s.accepted) (rio_write usrbuf s)
unfolding rio_write
rio_write-OnFailure usrbuf s = write_loop-OnFailure usrbuf s.sent s.accepted

abbrev pub ReadsWhole : ℕ → List Reply → Outcome (List Reply) (List ℕ) → Type 0
ReadsWhole n replies (ok l more) =
    (l ≡ take_bytes n (all_bytes replies)) × (all_bytes replies ≡ l ++ all_bytes more)
ReadsWhole n replies (err e more) = ⊥
ReadsWhole n replies abort = ⊥
ReadsWhole n replies exited = ⊥
ReadsWhole n replies fault = ⊥

take-prefix : (n : ℕ) (l m : List ℕ) → n ≤ length l → take_bytes n (l ++ m) ≡ take_bytes n l
unfolding take_bytes
take-prefix zero l m h = refl
take-prefix (suc n) [] m h = absurd (omega (arith, h))
take-prefix (suc n) (c ∷ l) m h = ap (λ r. c ∷ r) (take-prefix n l m (omega (arith, h)))

take-past :
    (n : ℕ) (l m : List ℕ) → length l ≤ n → take_bytes n (l ++ m) ≡ l ++ take_bytes (n - length l) m
unfolding take_bytes
take-past n [] m h = let same : n ≡ n - 0 = omega arith in ap (λ k. take_bytes k m) same
take-past zero (c ∷ l) m h = absurd (omega (arith, h))
take-past (suc n) (c ∷ l) m h =
    let same : n - length l ≡ suc n - suc (length l) = omega arith in
    ap (λ r. c ∷ r) (take-past n l m (omega (arith, h)) ∙ ap (λ k. l ++ take_bytes k m) same)

take_nothing : (n : ℕ) → take_bytes n [] ≡ []
unfolding take_bytes
take_nothing zero = refl
take_nothing (suc n) = refl

got-ReadsWhole :
    (n c : ℕ) (l : List ℕ) (replies : List Reply) (r : Outcome (List Reply) (List ℕ))
    → length (c ∷ l) ≤ n
    → ReadsWhole (n - length (c ∷ l)) replies r
    → ReadsWhole n (bytes c l ∷ replies) (got (c ∷ l) r)
unfolding all_bytes
got-ReadsWhole n c l replies (ok more rest) h (same, split) = (
  ap (λ r. (c ∷ l) ++ r) same ∙ sym (take-past n (c ∷ l) (all_bytes replies) h),
  ap (λ r. (c ∷ l) ++ r) split ∙ sym (assoc (c ∷ l) more (all_bytes rest)),
)
got-ReadsWhole n c l replies (err e rest) h w = w
got-ReadsWhole n c l replies abort h w = w
got-ReadsWhole n c l replies exited h w = w
got-ReadsWhole n c l replies fault h w = w

-- Where no read(2) fails, and whatever it returns each time: `rio_read` returns the first n of the
-- bytes to come, or all of them where there are fewer, and leaves those after them.
pub rio_read-ReadsWhole :
    (n : ℕ) (replies : List Reply) → Unfailing replies → ReadsWhole n replies (rio_read n replies)
unfolding rio_read all_bytes take_bytes
rio_read-ReadsWhole n [] u = (sym (take_nothing n), refl)
rio_read-ReadsWhole n (bytes c l ∷ replies) u = elim (Bool-cases (leb n (length (c ∷ l)))) [
  | inl last ↦ rw last (
    sym (take-prefix n (c ∷ l) (all_bytes replies) (ground arith)),
    sym (
        ap (λ r. take_bytes n (c ∷ l) ++ r) (all_bytes-left_over (drop_bytes n (c ∷ l)) replies)
        ∙ sym (assoc (take_bytes n (c ∷ l)) (drop_bytes n (c ∷ l)) (all_bytes replies))
        ∙ ap (λ r. r ++ all_bytes replies) (take-drop n (c ∷ l))),
  )
  | inr more ↦ rw more (
      got-ReadsWhole n c l replies (rio_read (n - length (c ∷ l)) replies) (ground arith)
        (rio_read-ReadsWhole (n - length (c ∷ l)) replies u))
]
rio_read-ReadsWhole n (interrupted ∷ replies) u = elim (Bool-cases (n == 0)) [
  | inl done ↦
      let none : n ≡ 0 = ground arith in
      rw done (ap (λ k. take_bytes k (all_bytes replies)) (sym none), refl)
  | inr more ↦ rw more (rio_read-ReadsWhole n replies u)
]
rio_read-ReadsWhole n (failed ∷ replies) u = absurd u
