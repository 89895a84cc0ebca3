-- ===== src/Fs/Bitmap.antt =====
mod Words
pub mod Bits
pub mod Marks
pub mod Count
pub mod Alloc
-- fs/bitmap.c: a fixed-size array of bits, in bytes. The word array is memory that is never read
-- outside its `div_round_up nbits 8` words (`Bitmap.Alloc`, `Bitmap.Marks`).
use Prim.Native.Nat.{bit_and, bit_or}
use ece344lab.Common.{
  ℕ, zero, suc, ◌+◌, ◌-◌, ◌*◌, ◌/◌, ◌%◌, ◌^◌, Bool, true, false, ◌&&◌, not, Option, none, some, ltb,
  ◌==◌, if◌then◌else◌,
}
use ece344lab.Common.Memory.{update}
use ece344lab.Common.Action.{
  Outcome, Action, Ret, value, error, ok, err, abort, fail, pure, assert, modify, ◌>>=◌, ◌>>◌,
  enospc, enomem,
}

-- `struct bitmap`
pub record Bitmap : Type 0 where
  pub nbits : ℕ
  pub v : ℕ → ℕ

-- `BITS_PER_WORD`
abbrev pub bits_per_word : ℕ
bits_per_word = 8

-- `WORD_ALLBITS`
abbrev pub word_allbits : ℕ
word_allbits = 0xff

-- `DIVROUNDUP`, in `u_int32_t`
abbrev pub div_round_up : ℕ → ℕ → ℕ
div_round_up a b = (a + b - 1) % 2 ^ 32 / b

-- `(WORD_TYPE) 1 << offset`
abbrev pub mask_of : ℕ → ℕ
mask_of offset = 2 ^ offset % 256

-- The loop that marks the bits past the end in the last word: `n` rounds from bit `j`.
unfoldable pub mark_over : ℕ → ℕ → ℕ → ℕ
mark_over zero j w = w
mark_over (suc n) j w = mark_over n (j + 1) (bit_or w (mask_of j))

-- The two `malloc`s succeed or not as `mem_b` and `mem_v` say. The start state is of no use.
unfoldable pub bitmap_create : Bool → Bool → ℕ → Action (Unit {0}) Bitmap
unfolding mark_over
bitmap_create mem_b mem_v nbits =
    let words = div_round_up nbits bits_per_word in
    if not mem_b
    then fail enomem
    else if not mem_v
    then fail enomem
    else if ltb (nbits / bits_per_word) words
    then (do
      let ix = words - 1
      let overbits = nbits - ix * bits_per_word
      assert (nbits / bits_per_word == words - 1)
      assert (ltb 0 overbits && ltb overbits bits_per_word)
      pure (record {
        nbits = nbits;
        v = update (λ i. 0) ix (mark_over (bits_per_word - overbits) overbits 0);
      }))
    else pure (record { nbits = nbits; v = λ i. 0 })

-- `bitmap_getsize`
pub bitmap_getsize : Bitmap → ℕ
bitmap_getsize b = b.nbits

-- The first offset, of `n` from `offset`, at which the word has a 0.
unfoldable pub find_offset : ℕ → ℕ → ℕ → Option ℕ
find_offset zero offset w = none
find_offset (suc n) offset w =
    let rest = find_offset n (offset + 1) w in
    if bit_and w (mask_of offset) == 0 then some offset else rest

-- Sets the bit found in word `ix`; with none found the code runs into `assert(0)`.
abbrev pub take_bit : ℕ → Option ℕ → Action Bitmap ℕ
take_bit ix none b = abort
take_bit ix (some offset) b =
    let index = (ix * bits_per_word + offset) % 2 ^ 32 in
    if ltb index b.nbits
    then ok index (record b { v = update b.v ix (bit_or (b.v ix) (mask_of offset)) })
    else abort

-- The loop over the words: `n` rounds from word `ix`.
unfoldable pub alloc_from : ℕ → ℕ → Action Bitmap ℕ
unfolding find_offset
alloc_from zero ix b = err enospc b
alloc_from (suc n) ix b =
    let rest = alloc_from n (ix + 1) b in
    if b.v ix == word_allbits then rest else take_bit ix (find_offset bits_per_word 0 (b.v ix)) b

unfoldable pub bitmap_alloc : Action Bitmap ℕ
bitmap_alloc b = alloc_from (div_round_up b.nbits bits_per_word) 0 b

-- `(b->v[ix] & mask)` for the word and mask of a bit number, from `bitmap_translate`.
unfoldable pub bitmap_isset : Bitmap → ℕ → ℕ
bitmap_isset b index = bit_and (b.v (index / bits_per_word)) (mask_of (index % bits_per_word))

unfoldable pub bitmap_mark : ℕ → Action Bitmap (Unit {0})
bitmap_mark index b =
    let ix = index / bits_per_word in
    let mask = mask_of (index % bits_per_word) in
    if ltb index b.nbits && (bit_and (b.v ix) mask == 0)
    then ok tt (record b { v = update b.v ix (bit_or (b.v ix) mask) })
    else abort

unfoldable pub bitmap_unmark : ℕ → Action Bitmap (Unit {0})
bitmap_unmark index b =
    let ix = index / bits_per_word in
    let mask = mask_of (index % bits_per_word) in
    if ltb index b.nbits && not (bit_and (b.v ix) mask == 0)
    then ok tt (record b { v = update b.v ix (bit_and (b.v ix) (255 - mask)) })
    else abort

-- The loop of `bitmap_nr_allocated`: `n` rounds from bit `i`.
unfoldable pub count_from : ℕ → ℕ → ℕ → Bitmap → ℕ
unfolding bitmap_isset
count_from zero i nr b = nr
count_from (suc n) i nr b = count_from n (i + 1) (if bitmap_isset b i == 0 then nr else nr + 1) b

unfoldable pub bitmap_nr_allocated : Bitmap → ℕ
unfolding count_from
bitmap_nr_allocated b = count_from b.nbits 0 0 b
