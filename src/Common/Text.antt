-- ===== src/Common/Text.antt =====
-- C strings, as the bytes before the 0: `strcmp`, and the hash that webserver/server_thread.c and
-- warmup/wc.c both compute.
use Prim.Native.Nat.{ℕ, ◌+◌, ◌-◌, ◌*◌, ◌%◌, ◌^◌}
use mathlib.Core.Path.{◌≡◌, refl, ap₂}
use mathlib.Core.Bool.{Bool, true, false, ◌&&◌, ◌||◌}
use mathlib.Core.List.{List, [], ◌∷◌}
use native.Mathlib.Omega.{arith}
use ece344lab.Common.Tests.{ltb, ◌==◌, if◌then◌else◌}

-- The loop of `hash`, in `unsigned long`, of signed characters
unfoldable pub hash_from : ℕ → List ℕ → ℕ
hash_from h [] = h
hash_from h (c ∷ str) =
    hash_from ((h * 32 % 2 ^ 64 + h + (if ltb c 128 then c else c + 2 ^ 64 - 256)) % 2 ^ 64) str

-- `isspace` in the C locale
abbrev pub isspace : ℕ → Bool
isspace c = c == 32 || (ltb 8 c && ltb c 14)

-- The string in an array of characters, up to its first 0
unfoldable pub until_zero : List ℕ → List ℕ
until_zero [] = []
until_zero (c ∷ l) = let rest = until_zero l in if c == 0 then [] else c ∷ rest

-- `strcmp(a, b) == 0`
unfoldable pub same_text : List ℕ → List ℕ → Bool
same_text [] [] = true
same_text [] (b ∷ bs) = false
same_text (a ∷ xs) [] = false
same_text (a ∷ xs) (b ∷ ys) = a == b && same_text xs ys

pub same_text_self : (name : List ℕ) → same_text name name ≡ true
unfolding same_text
same_text_self [] = refl
same_text_self (a ∷ l) = ground (arith, same_text_self l)

pub eq_of_same_text : (xs ys : List ℕ) → same_text xs ys ≡ true → xs ≡ ys
unfolding same_text
eq_of_same_text [] [] h = refl
eq_of_same_text [] (b ∷ bs) h = ground arith
eq_of_same_text (a ∷ xs) [] h = ground arith
eq_of_same_text (a ∷ xs) (b ∷ ys) h =
    let heads : a ≡ b = ground arith in
    let tails : same_text xs ys ≡ true = ground arith in ap₂ ◌∷◌ heads (eq_of_same_text xs ys tails)
