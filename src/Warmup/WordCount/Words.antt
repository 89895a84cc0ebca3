-- ===== src/Warmup/WordCount/Words.antt =====
-- The words that `wc_init` of warmup/wc.c finds.
use ece344lab.Common.{
  ℕ, zero, suc, ◌+◌, ◌≡◌, ◌≢◌, refl, ap, ◌∙◌, true, List, [], ◌∷◌, ◌++◌, if◌then◌else◌, arith,
}
use ece344lab.Common.Text.{isspace, until_zero}
use ece344lab.Warmup.WordCount.{WordTable, insert_entry, chars, copy_word}

-- A word ends.
abbrev pub emit : List ℕ → List (List ℕ) → List (List ℕ)
emit [] rest = rest
emit (c ∷ cur) rest = (c ∷ cur) ∷ rest

-- The words of a text, after the beginning of one.
unfoldable pub cut : List ℕ → List ℕ → List (List ℕ)
cut cur [] = emit cur []
cut cur (c ∷ l) = if isspace c then emit cur (cut [] l) else cut (cur ++ (c ∷ [])) l

-- The longest runs of characters that are no spaces, in order.
unfoldable pub words : List ℕ → List (List ℕ)
unfolding cut
words l = cut [] l

unfoldable pub insert_all : List (List ℕ) → WordTable → WordTable
insert_all [] table = table
insert_all (w ∷ ws) table = insert_all ws (insert_entry (until_zero w) table)

pub chars-snoc : (a : ℕ → ℕ) (s n : ℕ) → chars a s (suc n) ≡ chars a s n ++ (a (s + n) ∷ [])
unfolding chars
chars-snoc a s zero = ap (λ k. a k ∷ []) (omega arith)
chars-snoc a s (suc n) =
    ap (λ l. a s ∷ l)
      (chars-snoc a (s + 1) n ∙ ap (λ k. chars a (s + 1) n ++ (a k ∷ [])) (omega arith))

pub insert-emit :
    (a : ℕ → ℕ) (s n : ℕ) (rest : List (List ℕ)) (t : WordTable)
    → n ≢ 0
    → insert_all (emit (chars a s n) rest) t ≡ insert_all rest (insert_entry (copy_word a s n) t)
unfolding chars copy_word insert_all
insert-emit a s zero rest t ne = absurd (ne refl)
insert-emit a s (suc n) rest t ne = refl

-- A space at the end makes no difference.
cut-space_last : (cur l : List ℕ) (c : ℕ) → isspace c ≡ true → cut cur (l ++ (c ∷ [])) ≡ cut cur l
unfolding cut
cut-space_last cur [] c h = rw h refl
cut-space_last cur (b ∷ l) c h =
    rw (cut-space_last [] l c h, cut-space_last (cur ++ (b ∷ [])) l c h) refl

pub words-space_last : (l : List ℕ) (c : ℕ) → isspace c ≡ true → words (l ++ (c ∷ [])) ≡ words l
unfolding words
words-space_last l c h = cut-space_last [] l c h
