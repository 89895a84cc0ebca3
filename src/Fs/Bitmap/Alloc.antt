-- ===== src/Fs/Bitmap/Alloc.antt =====
-- `bitmap_alloc` of fs/bitmap.c: what it finds and what it changes.
use mathlib.Core.Bool.{false≢true}
use ece344lab.Common.{
  ℕ, zero, suc, ◌+◌, ◌-◌, ◌*◌, ◌/◌, ◌%◌, ◌^◌, ◌≤◌, ◌<◌, ◌≡◌, refl, sym, subst, ◌∙◌, ◌≢◌, inl, inr,
  true, false, Option, none, some, arith, ltb, ◌==◌, if◌then◌else◌, dec_lt, Bool-cases,
}
use ece344lab.Common.Action.{Outcome, ok, err, abort, exited, fault, enospc}
use ece344lab.Fs.Bitmap.{
  Bitmap, bits_per_word, word_allbits, take_bit, find_offset, alloc_from, bitmap_alloc,
  bitmap_isset,
}
use ece344lab.Fs.Bitmap.Words.{is_clear, Found, find_offset-Found, not_full, full_set}
use ece344lab.Fs.Bitmap.Bits.{
  is_free, words, words-enough, IsValid, is_free-with_bit, with_bit-IsValid,
}

-- The lowest free bit is taken and nothing else changes, or no bit is free and nothing changes.
abbrev pub Allocates : Bitmap → Outcome Bitmap ℕ → Type 0
Allocates b (ok i c) =
    (i < b.nbits)
    × (is_free b i ≡ true)
    × ((j : ℕ) → j < i → is_free b j ≡ false)
    × (c.nbits ≡ b.nbits)
    × ((j : ℕ) → is_free c j ≡ (if i == j then false else is_free b j))
    × IsValid c
    × ((k : ℕ) → k ≢ i / bits_per_word → c.v k ≡ b.v k)
Allocates b (err e c) = (e ≡ enospc) × (c ≡ b) × ((j : ℕ) → j < b.nbits → is_free b j ≡ false)
Allocates b abort = ⊥
Allocates b exited = ⊥
Allocates b fault = ⊥

-- No bit below word `ix` is free.
abbrev Taken : Bitmap → ℕ → Type 0
Taken b ix = (j : ℕ) → j < ix * 8 → is_free b j ≡ false

module _ {b : Bitmap} (valid : IsValid b) (ix : ℕ) (inside : ix < words b)
    (below : Taken b ix) where
  in_word : (j : ℕ) → ix * 8 ≤ j → j < ix * 8 + 8 → is_free b j ≡ is_clear (b.v ix) (j - ix * 8)
  unfolding bitmap_isset
  in_word j lo hi =
      let e : j / 8 ≡ ix = omega arith in let f : j % 8 ≡ j - ix * 8 = omega arith in rw (e, f)

  Taken-suc : b.v ix ≡ word_allbits → Taken b (suc ix)
  Taken-suc e j lt = elim (Bool-cases (ltb j (ix * 8))) [
    | inl old ↦ below j (ground arith)
    | inr new ↦
        rw (in_word j (ground arith) (omega arith))
          (full_set (b.v ix) (j - ix * 8) e (ground arith))
  ]

  take_bit-Allocates :
      (o : Option ℕ) → Found 8 0 (b.v ix) o → b.v ix ≢ word_allbits → Allocates b (take_bit ix o b)
  take_bit-Allocates none f ne =
      not_full (b.v ix) (valid.byte ix) ne (λ p lt. f p (omega arith) (omega arith))
  take_bit-Allocates (some o) f ne =
      rw (index, test)
        (
          fits,
          free,
          first,
          refl,
          λ j. is_free-with_bit b ix o j (valid.byte ix) f.1,
          with_bit-IsValid valid ix o f.1,
          λ k ne. ground (arith, f.1),
        )
    where
      free : is_free b (ix * 8 + o) ≡ true
      free =
          let e : ix * 8 + o - ix * 8 ≡ o = omega arith in
          rw (in_word (ix * 8 + o) (omega arith) (omega arith), e) f.2

      fits : ix * 8 + o < b.nbits
      fits = elim (dec_lt (ix * 8 + o) b.nbits) [
        | yes lt ↦ lt
        | no ge ↦
            absurd (false≢true (sym (valid.over (ix * 8 + o) (omega arith) (omega arith)) ∙ free))
      ]

      index : (ix * 8 + o) % 2 ^ 32 ≡ ix * 8 + o
      index = omega (arith, valid.small)

      test : ltb (ix * 8 + o) b.nbits ≡ true
      test = ground (arith, fits)

      first : (j : ℕ) → j < ix * 8 + o → is_free b j ≡ false
      first j lt = elim (dec_lt j (ix * 8)) [
        | yes old ↦ below j old
        | no new ↦
            rw (in_word j (omega arith) (omega arith))
              (f.3 (j - ix * 8) (omega arith) (omega arith))
      ]

alloc_from-Allocates :
    {b : Bitmap} (valid : IsValid b) (n ix : ℕ)
    → ix + n ≡ words b
    → Taken b ix
    → Allocates b (alloc_from n ix b)
unfolding alloc_from
alloc_from-Allocates {b} valid zero ix e below =
    (refl, refl, λ j lt. below j (omega (arith, words-enough b valid.small)))
alloc_from-Allocates {b} valid (suc n) ix e below = elim (Bool-cases (b.v ix == word_allbits)) [
  | inl all ↦ rw all (
      alloc_from-Allocates valid n (ix + 1) (omega arith)
        (subst (Taken b) (omega arith) (Taken-suc valid ix (omega arith) below (ground arith))))
  | inr other ↦ rw other (
      take_bit-Allocates valid ix (omega arith) below (find_offset 8 0 (b.v ix))
        (find_offset-Found 8 0 (b.v ix)) (ground arith))
]

-- On a valid bitmap `bitmap_alloc` returns: it sets the lowest clear bit, leaves all others and
-- keeps the bitmap valid, or, when no bit below `nbits` is clear, returns `-ENOSPC` and changes
-- nothing. No assertion fails.
pub bitmap_alloc-Allocates : (b : Bitmap) → IsValid b → Allocates b (bitmap_alloc b)
unfolding bitmap_alloc
bitmap_alloc-Allocates b valid =
    alloc_from-Allocates valid (words b) 0 (omega arith) (λ j lt. absurd (omega arith))
