-- ===== src/Warmup/WordCount/Counts.antt =====
-- What warmup/wc.c prints for a text.
use ece344lab.Common.{
  ℕ, zero, suc, ◌+◌, ◌-◌, ◌<◌, ◌≡◌, refl, sym, ap, subst, ◌∙◌, inl, inr, true, false, List, [], ◌∷◌,
  ◌++◌, ◌&&◌, ltb, leb, ◌==◌, if◌then◌else◌, arith, Bool-cases,
}
use mathlib.Core.List.{append-nil}
use ece344lab.Common.Text.{same_text, isspace}
use ece344lab.Warmup.WordCount.{
  WordEntry, WordTable, hashtable_size, hash, chars, output_from, wc_init, wc_output,
}
use ece344lab.Warmup.WordCount.Words.{words, insert_all, chars-snoc, words-space_last}
use ece344lab.Warmup.WordCount.Loop.{wc_init-words}
use ece344lab.Warmup.WordCount.Table.{numbers, one_line, Prints, count, insert_all-Prints}

numbers-append :
    (w : List ℕ) (l r : List WordEntry) → numbers w (l ++ r) ≡ numbers w l ++ numbers w r
unfolding numbers
numbers-append w [] r = refl
numbers-append w (e ∷ l) r = elim (Bool-cases (same_text w e.word)) [
  | inl same ↦ rw (same, numbers-append w l r) refl
  | inr other ↦ rw (other, numbers-append w l r) refl
]

-- A place is in a range if it is the first one or in the rest of it.
one-in_range :
    (h i r : ℕ) (l : List ℕ)
    → (if h == i then l else []) ++ (if leb (i + 1) h && ltb h (i + 1 + r) then l else [])
      ≡ (if leb i h && ltb h (i + suc r) then l else [])
one-in_range h i r l = ground (arith, append-nil l)

output-Prints :
    (w : List ℕ) (n : ℕ) (t : WordTable) (rounds i : ℕ)
    → Prints w n t
    → numbers w (output_from rounds i t)
      ≡ (if leb i (hash w) && ltb (hash w) (i + rounds) then one_line n else [])
unfolding output_from numbers
output-Prints w n t zero i p =
    let none : (leb i (hash w) && ltb (hash w) (i + 0)) ≡ false = ground arith in rw none refl
output-Prints w n t (suc rounds) i p =
    numbers-append w (t i) (output_from rounds (i + 1) t)
    ∙ rw (p i, output-Prints w n t rounds (i + 1) p) (one-in_range (hash w) i rounds (one_line n))

hash-lt : (w : List ℕ) → hash w < hashtable_size
unfolding hash hashtable_size
hash-lt w = omega arith

table-Prints :
    (w : List ℕ) (n : ℕ) (t : WordTable) → Prints w n t → numbers w (wc_output t) ≡ one_line n
unfolding wc_output
table-Prints w n t p =
    let inside : (leb 0 (hash w) && ltb (hash w) (0 + hashtable_size)) ≡ true =
      ground (arith, hash-lt w) in
    output-Prints w n t hashtable_size 0 p ∙ rw inside refl

none-Prints : (w : List ℕ) → Prints w 0 (λ i. [])
unfolding numbers
none-Prints w h = ground arith

-- For a text of any characters and any word: where the word is among the words of the text without
-- its last character, `wc_output` after `wc_init` prints one line with it, and the number on the
-- line is how often it is there; where it is not, no line.
pub wc_output-counts :
    (word_array : ℕ → ℕ) (size : ℕ) (w : List ℕ)
    → numbers w (wc_output (wc_init word_array size))
      ≡ one_line (count w (words (chars word_array 0 (size - 1))))
wc_output-counts a size w =
    table-Prints w (count w (words (chars a 0 (size - 1)))) (wc_init a size) (
      subst (Prints w (count w (words (chars a 0 (size - 1))))) (sym (wc_init-words a size)) (
        subst (λ k. Prints w k (insert_all (words (chars a 0 (size - 1))) (λ i. []))) (omega arith)
          (insert_all-Prints w (words (chars a 0 (size - 1))) 0 (λ i. []) (none-Prints w))))

-- Where the text ends in a space, so does the count of the words of the whole text.
pub wc_output-whole :
    (word_array : ℕ → ℕ) (n : ℕ) (w : List ℕ)
    → isspace (word_array n) ≡ true
    → numbers w (wc_output (wc_init word_array (suc n)))
      ≡ one_line (count w (words (chars word_array 0 (suc n))))
wc_output-whole a n w space =
    let less : suc n - 1 ≡ n = omega arith in
    let all : words (chars a 0 (suc n)) ≡ words (chars a 0 (suc n - 1)) =
      ap words (chars-snoc a 0 n)
      ∙ words-space_last (chars a 0 n) (a (0 + n)) (ap (λ k. isspace (a k)) (omega arith) ∙ space)
      ∙ ap (λ k. words (chars a 0 k)) (sym less) in
    wc_output-counts a (suc n) w ∙ ap (λ ws. one_line (count w ws)) (sym all)
