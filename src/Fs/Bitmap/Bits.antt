-- ===== src/Fs/Bitmap/Bits.antt =====
-- A bitmap of fs/bitmap.c as a set of bit numbers, and what writing one word does to it.
use Prim.Native.Nat.{bit_and, bit_or}
use ece344lab.Common.{
  ℕ, ◌+◌, ◌-◌, ◌*◌, ◌/◌, ◌%◌, ◌^◌, ◌≤◌, ◌<◌, ◌≡◌, Bool, true, false, arith, ◌==◌, if◌then◌else◌,
  ℕ_discrete,
}
use ece344lab.Common.Memory.{update}
use ece344lab.Fs.Bitmap.{Bitmap, bits_per_word, div_round_up, mask_of, bitmap_isset}
use ece344lab.Fs.Bitmap.Words.{is_clear-set, is_clear-clear}

-- Bit `j` is 0.
abbrev pub is_free : Bitmap → ℕ → Bool
is_free b j = bitmap_isset b j == 0

abbrev pub words : Bitmap → ℕ
words b = div_round_up b.nbits bits_per_word

-- Words are bytes, the size does not wrap, and the bits past the end are in use.
pub record IsValid (b : Bitmap) : Type 0 where
  pub byte : (i : ℕ) → b.v i < 256
  pub small : b.nbits + bits_per_word ≤ 2 ^ 32
  pub over : (j : ℕ) → b.nbits ≤ j → j < words b * bits_per_word → is_free b j ≡ false

pub words-enough : (b : Bitmap) → b.nbits + 8 ≤ 2 ^ 32 → b.nbits ≤ words b * 8
words-enough b h = omega arith

-- `b->v[ix] |= mask` and `b->v[ix] &= ~mask`.
abbrev pub with_bit : Bitmap → ℕ → ℕ → Bitmap
with_bit b ix o = record b { v = update b.v ix (bit_or (b.v ix) (mask_of o)) }

abbrev pub without_bit : Bitmap → ℕ → ℕ → Bitmap
without_bit b ix o = record b { v = update b.v ix (bit_and (b.v ix) (255 - mask_of o)) }

module _ (b : Bitmap) (ix o j : ℕ) (small : b.v ix < 256) (in_word : o < 8) where
  pub is_free-with_bit :
      is_free (with_bit b ix o) j ≡ (if ix * 8 + o == j then false else is_free b j)
  unfolding bitmap_isset
  is_free-with_bit = elim (ℕ_discrete ix (j / 8)) [
    | yes e ↦ ground (arith, is_clear-set (b.v ix) o (j % 8) small in_word)
    | no ne ↦ ground arith
  ]

  pub is_free-without_bit :
      is_free (without_bit b ix o) j ≡ (if ix * 8 + o == j then true else is_free b j)
  unfolding bitmap_isset
  is_free-without_bit = elim (ℕ_discrete ix (j / 8)) [
    | yes e ↦ ground (arith, is_clear-clear (b.v ix) o (j % 8) small in_word)
    | no ne ↦ ground arith
  ]

module _ {b : Bitmap} (valid : IsValid b) (ix o : ℕ) (in_word : o < 8) where
  pub with_bit-IsValid : IsValid (with_bit b ix o)
  with_bit-IsValid = record {
    byte = λ i. ground (arith, valid.byte i, is_clear-set (b.v ix) o 0 (valid.byte ix) in_word);
    small = valid.small;
    over =
        λ j lo hi. ground (arith, is_free-with_bit b ix o j (valid.byte ix) in_word, valid.over j);
  }

  pub without_bit-IsValid : ix * 8 + o < b.nbits → IsValid (without_bit b ix o)
  without_bit-IsValid inside = record {
    byte = λ i. ground (arith, valid.byte i, is_clear-clear (b.v ix) o 0 (valid.byte ix) in_word);
    small = valid.small;
    over = λ j lo hi.
        ground (arith, is_free-without_bit b ix o j (valid.byte ix) in_word, valid.over j);
  }
