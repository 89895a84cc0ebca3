-- ===== src/Webserver/Text.antt =====
-- The string functions of C that webserver/request.c calls, on strings as their bytes before the 0.
use Prim.Native.Char.{code}
use Prim.Native.String.{String}
use ece344lab.Common.{
  ℕ, zero, suc, ◌+◌, ◌/◌, ◌%◌, Bool, true, false, List, [], ◌∷◌, ◌++◌, ◌&&◌, ◌||◌, Option, none,
  some, ltb, leb, ◌==◌, if◌then◌else◌,
}
use ece344lab.Common.Text.{isspace}
use ece344lab.Common.Int.{ℤ, pos, negsuc}

-- The bytes of a literal.
abbrev pub codes : String → List ℕ
codes String.[] = []
codes (String.◌∷◌ c s) = code c ∷ codes s

-- Whether a string starts with another.
unfoldable pub starts_with : List ℕ → List ℕ → Bool
starts_with [] hay = true
starts_with (a ∷ needle) [] = false
starts_with (a ∷ needle) (b ∷ hay) = a == b && starts_with needle hay

-- `strstr(haystack, needle) != NULL`
unfoldable pub strstr : List ℕ → List ℕ → Bool
unfolding starts_with
strstr [] needle = starts_with needle []
strstr (c ∷ hay) needle = starts_with needle (c ∷ hay) || strstr hay needle

-- `strrchr(s, c)`: the string from the last such character on.
abbrev pub or_here : ℕ → ℕ → List ℕ → Option (List ℕ) → Option (List ℕ)
or_here c a l (some later) = some later
or_here c a l none = if a == c then some (a ∷ l) else none

unfoldable pub strrchr : List ℕ → ℕ → Option (List ℕ)
strrchr [] c = none
strrchr (a ∷ l) c = or_here c a l (strrchr l c)

-- `tolower` in the C locale, and `strcasecmp(a, b) == 0`
abbrev pub tolower : ℕ → ℕ
tolower c = if leb b'A' c && leb c b'Z' then c + 32 else c

unfoldable pub same_letters : List ℕ → List ℕ → Bool
same_letters [] [] = true
same_letters [] (b ∷ ys) = false
same_letters (a ∷ xs) [] = false
same_letters (a ∷ xs) (b ∷ ys) = tolower a == tolower b && same_letters xs ys

-- `%d`, `%u` and `%ld`: the digits of a number below 10 ^ 20.
unfoldable pub digits : ℕ → ℕ → List ℕ
digits zero n = []
digits (suc places) n =
    let front = digits places (n / 10) in
    if ltb n 10 then (48 + n) ∷ [] else front ++ ((48 + n % 10) ∷ [])

unfoldable pub decimal : ℕ → List ℕ
unfolding digits
decimal n = digits 20 n

abbrev pub decimal_int : ℤ → List ℕ
decimal_int (pos n) = decimal n
decimal_int (negsuc n) = b'-' ∷ decimal (suc n)

-- The words that `%s %s %s` of `sscanf` takes: after white space, up to the next white space.
unfoldable pub skip_space : List ℕ → List ℕ
skip_space [] = []
skip_space (c ∷ l) = let rest = skip_space l in if isspace c then rest else c ∷ l

unfoldable pub first_word : List ℕ → List ℕ
first_word [] = []
first_word (c ∷ l) = let rest = first_word l in if isspace c then [] else c ∷ rest

unfoldable pub after_word : List ℕ → List ℕ
after_word [] = []
after_word (c ∷ l) = let rest = after_word l in if isspace c then c ∷ l else rest

-- A word that is stored, or what the array held where the input has ended.
abbrev pub word_or : List ℕ → List ℕ → List ℕ
word_or stale [] = stale
word_or stale (c ∷ l) = c ∷ l
