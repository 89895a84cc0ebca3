-- ===== src/Fs/Bitmap/Marks.antt =====
-- `bitmap_create`, `bitmap_mark`, `bitmap_unmark` and `bitmap_nr_allocated` of fs/bitmap.c.
use Prim.Native.Nat.{bit_or, bit_and-bitwise}
use ece344lab.Common.{
  ℕ, zero, suc, ◌+◌, ◌-◌, ◌*◌, ◌/◌, ◌%◌, ◌^◌, ◌≤◌, ◌<◌, ◌≡◌, refl, ◌≢◌, ◌↔◌, ◌⊎◌, inl, inr, Bool,
  true, false, ◌&&◌, not, arith, ltb, ◌==◌, if◌then◌else◌, Bool-cases,
}
use ece344lab.Common.Memory.{update}
use ece344lab.Common.Action.{Outcome, ok, err, abort, exited, fault}
use ece344lab.Fs.Bitmap.{
  Bitmap, bits_per_word, mask_of, div_round_up, mark_over, bitmap_create, bitmap_isset, bitmap_mark,
  bitmap_unmark,
}
use ece344lab.Fs.Bitmap.Words.{is_clear, is_clear-set}
use ece344lab.Fs.Bitmap.Bits.{
  is_free, IsValid, is_free-with_bit, is_free-without_bit, with_bit-IsValid, without_bit-IsValid,
}

-- `mark_over` sets the bits from `j` on, `n` of them.
mark_over-set :
    (n j w p : ℕ)
    → w < 256
    → j + n ≤ 8
    → p < 8
    → (is_clear (mark_over n j w) p
        ≡ (if ltb p j then is_clear w p else if ltb p (j + n) then false else is_clear w p))
      × (mark_over n j w < 256)
unfolding mark_over
mark_over-set zero j w p hw hn hp = ground arith
mark_over-set (suc n) j w p hw hn hp =
    let s = is_clear-set w j p hw (omega arith) hp in
    let r = mark_over-set n (j + 1) (bit_or w (mask_of j)) p s.1 (omega arith) hp in
    ground (arith, s, r)

pub zero_clear : (p : ℕ) → is_clear 0 p ≡ true
zero_clear p = ground (arith, bit_and-bitwise 0 (mask_of p))

-- A new bitmap is valid, of the size asked for, and every bit below its size is free. The
-- assertions of `bitmap_create` hold.
abbrev pub Creates : ℕ → Outcome (Unit {0}) Bitmap → Type 0
Creates n (ok b _) = (b.nbits ≡ n) × IsValid b × ((j : ℕ) → j < n → is_free b j ≡ true)
Creates n (err _ _) = ⊥
Creates n abort = ⊥
Creates n exited = ⊥
Creates n fault = ⊥

module _ (n : ℕ) (small : n + bits_per_word ≤ 2 ^ 32) where
  abbrev last : ℕ
  last = div_round_up n 8 - 1

  abbrev over : ℕ
  over = n - last * 8

  -- The bitmap with leftover bits, and the one without.
  abbrev partial : Bitmap
  partial = record { nbits = n; v = update (λ i. 0) last (mark_over (8 - over) over 0) }

  abbrev whole : Bitmap
  whole = record { nbits = n; v = λ i. 0 }

  is_free-whole : (j : ℕ) → is_free whole j ≡ true
  unfolding bitmap_isset
  is_free-whole j = zero_clear (j % 8)

  whole-IsValid : ltb (n / 8) (div_round_up n 8) ≡ false → IsValid whole
  whole-IsValid h = record {
    byte = λ i. omega arith;
    small = small;
    over = λ j lo hi. absurd (ground arith);
  }

  module _ (part : ltb (n / 8) (div_round_up n 8) ≡ true) where
    is_free-partial : (j : ℕ) → j < div_round_up n 8 * 8 → is_free partial j ≡ ltb j n
    unfolding bitmap_isset
    is_free-partial j lt = ground (
      arith,
      mark_over-set (8 - over) over 0 (j % 8) (omega arith) (ground arith) (omega arith),
      zero_clear (j % 8),
    )

    partial-IsValid : IsValid partial
    partial-IsValid = record {
      byte = λ i.
          ground
            (arith, mark_over-set (8 - over) over 0 0 (omega arith) (ground arith) (omega arith));
      small = small;
      over = λ j lo hi. ground (arith, is_free-partial j hi);
    }

    in_range : (j : ℕ) → j < n → is_free partial j ≡ true
    in_range j lt = ground (arith, is_free-partial j (ground arith))

  -- With memory at hand `bitmap_create` makes a valid bitmap of the size asked for, in which every
  -- bit below the size is clear; no assertion fails.
  pub bitmap_create-Creates : Creates n (bitmap_create true true n tt)
  unfolding bitmap_create
  bitmap_create-Creates = elim (Bool-cases (ltb (n / 8) (div_round_up n 8))) [
    | inl part ↦
        let first : (n / 8 == last) ≡ true = ground arith in
        let second : (ltb 0 over && ltb over 8) ≡ true = ground arith in
        rw (part, first, second) (refl, partial-IsValid part, in_range part)
    | inr full ↦ rw full (refl, whole-IsValid full, λ j lt. is_free-whole j)
  ]

-- The bit is set, or cleared, and nothing else changes.
abbrev pub Sets : ℕ → Bool → Bitmap → Outcome Bitmap (Unit {0}) → Type 0
Sets i v b (ok _ c) =
    IsValid c
    × (c.nbits ≡ b.nbits)
    × ((j : ℕ) → is_free c j ≡ (if i == j then v else is_free b j))
    × ((k : ℕ) → k ≢ i / 8 → c.v k ≡ b.v k)
Sets i v b (err _ _) = ⊥
Sets i v b abort = ⊥
Sets i v b exited = ⊥
Sets i v b fault = ⊥

module _ {b : Bitmap} (valid : IsValid b) (i : ℕ) where
  at : (j : ℕ) → (i / 8 * 8 + i % 8 == j) ≡ (i == j)
  at j = ground arith

  -- `bitmap_mark` sets exactly the given bit, if it is in range and clear.
  pub bitmap_mark-Sets : i < b.nbits → is_free b i ≡ true → Sets i false b (bitmap_mark i b)
  unfolding bitmap_mark bitmap_isset
  bitmap_mark-Sets lt free =
      let test : (ltb i b.nbits && is_clear (b.v (i / 8)) (i % 8)) ≡ true = ground arith in
      rw test (
        with_bit-IsValid valid (i / 8) (i % 8) (omega arith),
        refl,
        λ j. rw (← at j) (is_free-with_bit b (i / 8) (i % 8) j (valid.byte (i / 8)) (omega arith)),
        λ k ne. ground arith,
      )

  -- `bitmap_unmark` clears exactly the given bit, if it is in range and set.
  pub bitmap_unmark-Sets : i < b.nbits → is_free b i ≡ false → Sets i true b (bitmap_unmark i b)
  unfolding bitmap_unmark bitmap_isset
  bitmap_unmark-Sets lt free =
      let test : (ltb i b.nbits && not (is_clear (b.v (i / 8)) (i % 8))) ≡ true = ground arith in
      rw test (
        without_bit-IsValid valid (i / 8) (i % 8) (omega arith) (omega arith),
        refl,
        λ j.
            rw (← at j)
              (is_free-without_bit b (i / 8) (i % 8) j (valid.byte (i / 8)) (omega arith)),
        λ k ne. ground arith,
      )

-- Both stop by a failed assertion exactly at a bit out of range or already in the state asked for.
pub mark-abort_iff :
    (b : Bitmap) (i : ℕ)
    → ((bitmap_mark i b ≡ abort) ↔ ((b.nbits ≤ i) ⊎ (is_free b i ≡ false)))
      × ((bitmap_unmark i b ≡ abort) ↔ ((b.nbits ≤ i) ⊎ (is_free b i ≡ true)))
unfolding bitmap_mark bitmap_unmark bitmap_isset
mark-abort_iff b i =
    (((λ h. ground arith), (λ h. ground arith)), ((λ h. ground arith), (λ h. ground arith)))
