-- ===== src/Fs/Bitmap/Count.antt =====
-- `bitmap_nr_allocated` of fs/bitmap.c under the other operations.
use ece344lab.Common.{
  ℕ, zero, suc, ◌+◌, ◌≤◌, ◌<◌, ◌≡◌, refl, true, false, arith, ◌==◌, if◌then◌else◌, ℕ_discrete, ◌∙◌,
  ap,
}
use ece344lab.Common.Action.{Outcome, ok, err, abort, exited, fault}
use ece344lab.Fs.Bitmap.{Bitmap, count_from, bitmap_nr_allocated, bitmap_alloc, bitmap_unmark}
use ece344lab.Fs.Bitmap.Bits.{is_free, IsValid}
use ece344lab.Fs.Bitmap.Alloc.{Allocates, bitmap_alloc-Allocates}
use ece344lab.Fs.Bitmap.Marks.{Sets, bitmap_unmark-Sets}

-- The set bits among the `n` from `i`.
used : ℕ → ℕ → Bitmap → ℕ
used zero i b = 0
used (suc n) i b = (if is_free b i then 0 else 1) + used n (i + 1) b

count_from-used : (n i nr : ℕ) (b : Bitmap) → count_from n i nr b ≡ nr + used n i b
unfolding count_from used
count_from-used zero i nr b = omega arith
count_from-used (suc n) i nr b =
    ground (arith, count_from-used n (i + 1) (if is_free b i then nr else nr + 1) b)

nr_allocated-used : (b : Bitmap) → bitmap_nr_allocated b ≡ used b.nbits 0 b
unfolding bitmap_nr_allocated
nr_allocated-used b = omega (arith, count_from-used b.nbits 0 0 b)

used-same :
    (n i : ℕ) (b c : Bitmap)
    → ((j : ℕ) → i ≤ j → is_free c j ≡ is_free b j)
    → used n i c ≡ used n i b
unfolding used
used-same zero i b c h = refl
used-same (suc n) i b c h =
    ground (arith, h i (omega arith), used-same n (i + 1) b c (λ j lo. h j (omega arith)))

-- One bit set makes one more.
used-set :
    (n i k : ℕ) (b c : Bitmap)
    → ((j : ℕ) → is_free c j ≡ (if k == j then false else is_free b j))
    → is_free b k ≡ true
    → i ≤ k
    → k < i + n
    → used n i c ≡ suc (used n i b)
unfolding used
used-set zero i k b c h free lo hi = absurd (omega arith)
used-set (suc n) i k b c h free lo hi = elim (ℕ_discrete k i) [
  | yes e ↦
      ground (arith, h i, used-same n (i + 1) b c (λ j lt. ground (arith, h j, beyond j e lt)))
  | no ne ↦ ground (arith, h i, used-set n (i + 1) k b c h free)
]
  where
    beyond : (j : ℕ) → k ≡ i → i + 1 ≤ j → (k == j) ≡ false
    beyond j e lt = ground arith

used-all :
    (n i : ℕ) (b : Bitmap) → ((j : ℕ) → i ≤ j → j < i + n → is_free b j ≡ false) → used n i b ≡ n
unfolding used
used-all zero i b h = refl
used-all (suc n) i b h = ground (
  arith,
  h i (omega arith) (omega arith),
  used-all n (i + 1) b (λ j lo hi. h j (omega arith) (omega arith)),
)

-- What `bitmap_nr_allocated` says after an allocation: one more, or all, if none was free.
abbrev pub Counts : Bitmap → Outcome Bitmap ℕ → Type 0
Counts b (ok i c) = bitmap_nr_allocated c ≡ suc (bitmap_nr_allocated b)
Counts b (err e c) = bitmap_nr_allocated b ≡ b.nbits
Counts b abort = ⊥
Counts b exited = ⊥
Counts b fault = ⊥

Counts-Allocates : (b : Bitmap) (r : Outcome Bitmap ℕ) → Allocates b r → Counts b r
Counts-Allocates b (ok i c) a =
    let same : used c.nbits 0 c ≡ used b.nbits 0 c = ap (λ n. used n 0 c) a.3 in
    omega (
      arith,
      nr_allocated-used c,
      nr_allocated-used b,
      same,
      used-set b.nbits 0 i b c a.4 a.1 (omega arith) (omega (arith, a.0)),
    )
Counts-Allocates b (err e c) a =
    nr_allocated-used b ∙ used-all b.nbits 0 b (λ j lo hi. a.2 j (omega arith))
Counts-Allocates b abort a = a
Counts-Allocates b exited a = a
Counts-Allocates b fault a = a

-- On a valid bitmap an allocation raises `bitmap_nr_allocated` by one, and fails only where every
-- bit is counted.
pub nr_allocated-alloc : (b : Bitmap) → IsValid b → Counts b (bitmap_alloc b)
nr_allocated-alloc b valid = Counts-Allocates b (bitmap_alloc b) (bitmap_alloc-Allocates b valid)

abbrev pub CountsDown : Bitmap → Outcome Bitmap (Unit {0}) → Type 0
CountsDown b (ok _ c) = suc (bitmap_nr_allocated c) ≡ bitmap_nr_allocated b
CountsDown b (err e c) = ⊥
CountsDown b abort = ⊥
CountsDown b exited = ⊥
CountsDown b fault = ⊥

CountsDown-Sets :
    (i : ℕ) (b : Bitmap) (r : Outcome Bitmap (Unit {0}))
    → i < b.nbits
    → is_free b i ≡ false
    → Sets i true b r
    → CountsDown b r
CountsDown-Sets i b (ok _ c) lt held s =
    let same : used c.nbits 0 c ≡ used b.nbits 0 c = ap (λ n. used n 0 c) s.1 in
    omega (
      arith,
      nr_allocated-used c,
      nr_allocated-used b,
      same,
      used-set b.nbits 0 i c b (λ j. undo j (s.2 j)) (ground (arith, s.2 i)) (omega arith)
          (omega arith),
    )
  where
    undo :
        (j : ℕ)
        → is_free c j ≡ (if i == j then true else is_free b j)
        → is_free b j ≡ (if i == j then false else is_free c j)
    undo j h = elim (ℕ_discrete i j) [
      | yes e ↦ let f : is_free b j ≡ false = rw (← e) held in rw f (ground arith)
      | no ne ↦ ground arith
    ]
CountsDown-Sets i b (err e c) lt held s = s
CountsDown-Sets i b abort lt held s = s
CountsDown-Sets i b exited lt held s = s
CountsDown-Sets i b fault lt held s = s

-- On a valid bitmap clearing a set bit lowers `bitmap_nr_allocated` by one.
pub nr_allocated-unmark :
    {b : Bitmap} (valid : IsValid b) (i : ℕ)
    → i < b.nbits
    → is_free b i ≡ false
    → CountsDown b (bitmap_unmark i b)
nr_allocated-unmark {b} valid i lt held =
    CountsDown-Sets i b (bitmap_unmark i b) lt held (bitmap_unmark-Sets valid i lt held)

used-le : (n i : ℕ) (b : Bitmap) → used n i b ≤ n
unfolding used
used-le zero i b = omega arith
used-le (suc n) i b = ground (arith, used-le n (i + 1) b)

-- No more bits are counted than there are.
pub nr_allocated-le : (b : Bitmap) → bitmap_nr_allocated b ≤ b.nbits
nr_allocated-le b = omega (arith, nr_allocated-used b, used-le b.nbits 0 b)

used-none :
    (n i : ℕ) (b : Bitmap) → ((j : ℕ) → i ≤ j → j < i + n → is_free b j ≡ true) → used n i b ≡ 0
unfolding used
used-none zero i b h = refl
used-none (suc n) i b h = ground (
  arith,
  h i (omega arith) (omega arith),
  used-none n (i + 1) b (λ j lo hi. h j (omega arith) (omega arith)),
)

-- A bitmap with no bit set counts none.
pub nr_allocated-none :
    (b : Bitmap) → ((j : ℕ) → j < b.nbits → is_free b j ≡ true) → bitmap_nr_allocated b ≡ 0
nr_allocated-none b h = nr_allocated-used b ∙ used-none b.nbits 0 b (λ j lo hi. h j (omega arith))

used-agree :
    (n i : ℕ) (b c : Bitmap)
    → ((j : ℕ) → i ≤ j → j < i + n → is_free c j ≡ is_free b j)
    → used n i c ≡ used n i b
unfolding used
used-agree zero i b c h = refl
used-agree (suc n) i b c h = ground (
  arith,
  h i (omega arith) (omega arith),
  used-agree n (i + 1) b c (λ j lo hi. h j (omega arith) (omega arith)),
)

-- The count depends on the bits below the size only.
pub nr_allocated-same :
    (b c : Bitmap)
    → c.nbits ≡ b.nbits
    → ((j : ℕ) → j < b.nbits → is_free c j ≡ is_free b j)
    → bitmap_nr_allocated c ≡ bitmap_nr_allocated b
nr_allocated-same b c sized same =
    let e : used c.nbits 0 c ≡ used b.nbits 0 c = ap (λ n. used n 0 c) sized in
    omega (
      arith,
      nr_allocated-used b,
      nr_allocated-used c,
      e,
      used-agree b.nbits 0 b c (λ j lo hi. same j (omega arith)),
    )
