-- ===== src/Fs/Bitmap/Words.antt =====
-- The bits of one word of a bitmap, as fs/bitmap.c tests, sets and clears them: facts checked at
-- every byte.
use Prim.Native.Nat.{bit_and, bit_or}
use ece344lab.Common.{
  ℕ, zero, suc, ◌+◌, ◌-◌, ◌≤◌, ◌<◌, ◌≡◌, refl, ◌≢◌, inl, inr, Bool, true, false, ◌&&◌, ◌||◌, not,
  Option, none, some, arith, ltb, ◌==◌, if◌then◌else◌, Bool-cases, all_below, all_below_sound,
  ℕ_discrete,
}
use ece344lab.Fs.Bitmap.{mask_of, find_offset}

abbrev pub is_clear : ℕ → ℕ → Bool
is_clear w p = bit_and w (mask_of p) == 0

eqb : Bool → Bool → Bool
eqb true b = b
eqb false b = not b

eqb→eq : (a b : Bool) → eqb a b ≡ true → a ≡ b
unfolding eqb
eqb→eq true b h = ground arith
eqb→eq false b h = ground arith

-- A test over a word and two bit numbers.
every : (ℕ → ℕ → ℕ → Bool) → Bool
unfolding all_below
every f = all_below 256 (λ w. all_below 8 (λ o. all_below 8 (f w o)))

every_sound :
    (f : ℕ → ℕ → ℕ → Bool) (w o p : ℕ) → every f ≡ true → w < 256 → o < 8 → p < 8 → f w o p ≡ true
unfolding every
every_sound f w o p h hw ho hp =
    all_below_sound 8 (f w o) p
      (all_below_sound 8 (λ o. all_below 8 (f w o)) o
        (all_below_sound 256 (λ w. all_below 8 (λ o. all_below 8 (f w o))) w h hw) ho)
      hp

set_test : ℕ → ℕ → ℕ → Bool
set_test w o p =
    eqb (is_clear (bit_or w (mask_of o)) p) (if o == p then false else is_clear w p)
    && ltb (bit_or w (mask_of o)) 256

set_table : every set_test ≡ true
unfolding every set_test eqb
set_table = refl

clear_test : ℕ → ℕ → ℕ → Bool
clear_test w o p =
    eqb (is_clear (bit_and w (255 - mask_of o)) p) (if o == p then true else is_clear w p)
    && ltb (bit_and w (255 - mask_of o)) 256

clear_table : every clear_test ≡ true
unfolding every clear_test eqb
clear_table = refl

-- Setting bit `o` of a word sets it and leaves the others.
pub is_clear-set :
    (w o p : ℕ)
    → w < 256
    → o < 8
    → p < 8
    → (is_clear (bit_or w (mask_of o)) p ≡ (if o == p then false else is_clear w p))
      × (bit_or w (mask_of o) < 256)
unfolding set_test
is_clear-set w o p hw ho hp =
    let t = every_sound set_test w o p set_table hw ho hp in
    ground (
      arith,
      t,
      eqb→eq (is_clear (bit_or w (mask_of o)) p) (if o == p then false else is_clear w p),
    )

pub is_clear-clear :
    (w o p : ℕ)
    → w < 256
    → o < 8
    → p < 8
    → (is_clear (bit_and w (255 - mask_of o)) p ≡ (if o == p then true else is_clear w p))
      × (bit_and w (255 - mask_of o) < 256)
unfolding clear_test
is_clear-clear w o p hw ho hp =
    let t = every_sound clear_test w o p clear_table hw ho hp in
    ground (
      arith,
      t,
      eqb→eq (is_clear (bit_and w (255 - mask_of o)) p) (if o == p then true else is_clear w p),
    )

full_test : ℕ → Bool
full_test w = w == 255 || not (all_below 8 (λ p. not (is_clear w p)))

full_table : all_below 256 full_test ≡ true
unfolding full_test all_below
full_table = refl

all_below_complete : (n : ℕ) (p : ℕ → Bool) → ((x : ℕ) → x < n → p x ≡ true) → all_below n p ≡ true
unfolding all_below
all_below_complete zero p h = refl
all_below_complete (suc n) p h =
    ground (arith, h n (omega arith), all_below_complete n p (λ x lt. h x (omega arith)))

-- A word other than `WORD_ALLBITS` has a 0.
pub not_full : (w : ℕ) → w < 256 → w ≢ 255 → ¬ ((p : ℕ) → p < 8 → is_clear w p ≡ false)
unfolding full_test
not_full w hw ne all = ground (
  arith,
  all_below_sound 256 full_test w full_table hw,
  all_below_complete 8 (λ p. not (is_clear w p)) (λ p lt. ground (arith, all p lt)),
)

full_word : all_below 8 (λ p. not (is_clear 255 p)) ≡ true
unfolding all_below
full_word = refl

-- `WORD_ALLBITS` has none.
pub full_set : (w p : ℕ) → w ≡ 255 → p < 8 → is_clear w p ≡ false
full_set w p e lt =
    rw e (ground (arith, all_below_sound 8 (λ p. not (is_clear 255 p)) p full_word lt))

-- What the search of a word finds: the first 0 of the range, if there is one.
abbrev pub Found : ℕ → ℕ → ℕ → Option ℕ → Type 0
Found n from w none = (p : ℕ) → from ≤ p → p < from + n → is_clear w p ≡ false
Found n from w (some o) =
    (from ≤ o)
    × (o < from + n)
    × (is_clear w o ≡ true)
    × ((p : ℕ) → from ≤ p → p < o → is_clear w p ≡ false)

pub find_offset-Found : (n from w : ℕ) → Found n from w (find_offset n from w)
unfolding find_offset
find_offset-Found zero from w = λ p lo hi. absurd (omega arith)
find_offset-Found (suc n) from w = elim (Bool-cases (is_clear w from)) [
  | inl clear ↦ rw clear (omega arith, omega arith, clear, λ p lo hi. absurd (omega arith))
  | inr here ↦ rw here (extend (find_offset n (from + 1) w) (find_offset-Found n (from + 1) w) here)
]
  where
    extend :
        (o : Option ℕ) → Found n (from + 1) w o → is_clear w from ≡ false → Found (suc n) from w o
    extend none h here = λ p lo hi. elim (ℕ_discrete p from) [
      | yes e ↦ rw e here
      | no ne ↦ h p (omega arith) (omega arith)
    ]
    extend (some o) h here = (
      omega arith,
      omega arith,
      h.2,
      λ p lo hi. elim (ℕ_discrete p from) [ yes e ↦ rw e here | no ne ↦ h.3 p (omega arith) hi ],
    )
