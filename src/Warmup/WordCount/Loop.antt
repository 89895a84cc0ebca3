-- ===== src/Warmup/WordCount/Loop.antt =====
-- The loop of `wc_init` of warmup/wc.c finds the words.
use ece344lab.Common.{
  ℕ, zero, suc, ◌+◌, ◌-◌, ◌≡◌, refl, sym, ap, ◌∙◌, inl, inr, true, false, List, [], ◌∷◌, ◌++◌, ◌||◌,
  ◌==◌, arith, Bool-cases,
}
use ece344lab.Common.Text.{isspace}
use ece344lab.Warmup.WordCount.{
  WordTable, insert_entry, chars, copy_word, Scan, scan_char, scan_from, no_words, wc_init,
}
use ece344lab.Warmup.WordCount.Words.{emit, cut, words, insert_all, chars-snoc, insert-emit}

abbrev scan_of : ℕ → ℕ → ℕ → WordTable → Scan
scan_of n more head t = record {
  char_count = n;
  more_space = more;
  moving_word_head = head;
  table = t;
}

module _ (a : ℕ → ℕ) (size : ℕ) where
  char-space :
      (i more head : ℕ) (t : WordTable)
      → isspace (a i) ≡ true
      → scan_char a size i (scan_of 0 more head t) ≡ scan_of 0 (more + 1) head t
  unfolding scan_char
  char-space i more head t h = rw h refl

  char-first :
      (i more head : ℕ) (t : WordTable)
      → isspace (a i) ≡ false
      → scan_char a size i (scan_of 0 more head t) ≡ scan_of 1 more head t
  unfolding scan_char
  char-first i more head t h = rw h refl

  char-end :
      (i n more head : ℕ) (t : WordTable)
      → (isspace (a i) || i == size - 1) ≡ true
      → scan_char a size i (scan_of (suc n) more head t)
        ≡ scan_of 0 0
            (head + (suc n + 1 + more))
            (insert_entry (copy_word a (head + more) (suc n)) t)
  unfolding scan_char
  char-end i n more head t h = let ne : (suc n == 0) ≡ false = ground arith in rw (h, ne) refl

  char-more :
      (i n more head : ℕ) (t : WordTable)
      → (isspace (a i) || i == size - 1) ≡ false
      → scan_char a size i (scan_of (suc n) more head t) ≡ scan_of (suc n + 1) more head t
  unfolding scan_char
  char-more i n more head t h = let ne : (suc n == 0) ≡ false = ground arith in rw (h, ne) refl

  abbrev table_after : ℕ → ℕ → Scan → WordTable
  table_after rounds i s = (scan_from a size rounds i s).table

  after-char :
      (r i : ℕ) (s u : Scan)
      → scan_char a size i s ≡ u
      → table_after (suc r) i s ≡ table_after r (i + 1) u
  unfolding scan_from
  after-char r i s u e = ap (λ x. table_after r (i + 1) x) e

  after-none : (i : ℕ) (s : Scan) → table_after 0 i s ≡ s.table
  unfolding scan_from
  after-none i s = refl

  cut-space :
      (cur : List ℕ) (i r : ℕ)
      → isspace (a i) ≡ true
      → cut cur (chars a i (suc r)) ≡ emit cur (cut [] (chars a (i + 1) r))
  unfolding cut chars
  cut-space cur i r h = rw h refl

  cut-char :
      (from n i r : ℕ)
      → from + n ≡ i
      → isspace (a i) ≡ false
      → cut (chars a from n) (chars a i (suc r)) ≡ cut (chars a from (suc n)) (chars a (i + 1) r)
  unfolding cut chars
  cut-char from n i r e h = rw h (
      ap (λ l. cut l (chars a (i + 1) r))
        (ap (λ k. chars a from n ++ (a k ∷ [])) (sym e) ∙ sym (chars-snoc a from n)))

  abbrev after_word : ℕ → ℕ → ℕ → WordTable → Scan
  after_word head n more t =
      scan_of 0 0 (head + (suc n + 1 + more)) (insert_entry (copy_word a (head + more) (suc n)) t)

  ends_last : (i : ℕ) → i + 1 ≡ size → (isspace (a i) || i == size - 1) ≡ true
  ends_last i last = ground (arith, last)

  nothing_cut : (from i : ℕ) (t : WordTable) → insert_all (cut (chars a from 0) (chars a i 0)) t ≡ t
  unfolding cut chars insert_all
  nothing_cut from i t = refl

  no_words_left :
      (from n : ℕ) (t : WordTable)
      → insert_all [] (insert_entry (copy_word a from (suc n)) t)
        ≡ insert_entry (copy_word a from (suc n)) t
  unfolding insert_all
  no_words_left from n t = refl

  cut-none :
      (from n i : ℕ) (t : WordTable)
      → insert_all (cut (chars a from n) (chars a i 0)) t ≡ insert_all (emit (chars a from n) []) t
  unfolding cut chars
  cut-none from n i t = refl

  from_none : (from : ℕ) (l : List ℕ) → cut (chars a from 0) l ≡ cut [] l
  unfolding chars
  from_none from l = refl

  emit_none : (from : ℕ) (ws : List (List ℕ)) → emit (chars a from 0) ws ≡ ws
  unfolding chars
  emit_none from ws = refl

  scan-words :
      (r i n more head : ℕ) (t : WordTable)
      → i + suc r ≡ size
      → head + more + n ≡ i
      → table_after (suc r) i (scan_of n more head t)
        ≡ insert_all (cut (chars a (head + more) n) (chars a i r)) t
  scan-words zero i zero more head t last at = elim (Bool-cases (isspace (a i))) [
    | inl space ↦
        after-char 0 i _ (scan_of 0 (more + 1) head t) (char-space i more head t space)
        ∙ after-none (i + 1) (scan_of 0 (more + 1) head t)
        ∙ no_more
    | inr other ↦
        after-char 0 i _ (scan_of 1 more head t) (char-first i more head t other)
        ∙ after-none (i + 1) (scan_of 1 more head t)
        ∙ no_more
  ]
    where
      no_more : t ≡ insert_all (cut (chars a (head + more) 0) (chars a i 0)) t
      no_more = sym (nothing_cut (head + more) i t)
  scan-words zero i (suc n) more head t last at =
      let ends : (isspace (a i) || i == size - 1) ≡ true = ends_last i last in
      after-char 0 i _ (after_word head n more t) (char-end i n more head t ends)
      ∙ after-none (i + 1) (after_word head n more t)
      ∙ sym
          (insert-emit a (head + more) (suc n) [] t (omega arith) ∙ no_words_left (head + more) n t)
      ∙ sym (cut-none (head + more) (suc n) i t)
  scan-words (suc r) i zero more head t last at = elim (Bool-cases (isspace (a i))) [
    | inl space ↦
        after-char (suc r) i _ (scan_of 0 (more + 1) head t) (char-space i more head t space)
        ∙ scan-words r (i + 1) 0 (more + 1) head t (omega (arith, last)) (omega (arith, at))
        ∙ ap (λ ws. insert_all ws t)
            (from_none (head + (more + 1)) (chars a (i + 1) r)
              ∙ sym (cut-space (chars a (head + more) 0) i r space ∙ emit_none (head + more) _))
    | inr other ↦
        after-char (suc r) i _ (scan_of 1 more head t) (char-first i more head t other)
        ∙ scan-words r (i + 1) 1 more head t (omega (arith, last)) (omega (arith, at))
        ∙ ap (λ ws. insert_all ws t) (sym (cut-char (head + more) 0 i r at other))
  ]
  scan-words (suc r) i (suc n) more head t last at = elim (Bool-cases (isspace (a i))) [
    | inl space ↦
        let ends : (isspace (a i) || i == size - 1) ≡ true = ground arith in
        after-char (suc r) i _ (after_word head n more t) (char-end i n more head t ends)
        ∙ scan-words r (i + 1) 0 0 (head + (suc n + 1 + more))
            (insert_entry (copy_word a (head + more) (suc n)) t) (omega (arith, last))
            (omega (arith, at))
        ∙ ap (λ ws. insert_all ws (insert_entry (copy_word a (head + more) (suc n)) t))
            (from_none (head + (suc n + 1 + more) + 0) (chars a (i + 1) r))
        ∙ sym (insert-emit a (head + more) (suc n) (cut [] (chars a (i + 1) r)) t (omega arith))
        ∙ ap (λ ws. insert_all ws t) (sym (cut-space (chars a (head + more) (suc n)) i r space))
    | inr other ↦
        let goes_on : (isspace (a i) || i == size - 1) ≡ false = ground (arith, last) in
        after-char (suc r) i _ (scan_of (suc n + 1) more head t) (char-more i n more head t goes_on)
        ∙ ap (λ k. table_after (suc r) (i + 1) (scan_of k more head t)) (omega arith)
        ∙ scan-words r (i + 1) (suc (suc n)) more head t (omega (arith, last)) (omega (arith, at))
        ∙ ap (λ ws. insert_all ws t) (sym (cut-char (head + more) (suc n) i r at other))
  ]

words-none : (a : ℕ → ℕ) (l : List ℕ) → cut (chars a 0 0) l ≡ words l
unfolding words chars
words-none a l = refl

init-none : (a : ℕ → ℕ) → wc_init a 0 ≡ insert_all (words (chars a 0 (0 - 1))) (λ i. [])
unfolding wc_init scan_from words cut insert_all chars
init-none a = refl

init-scan : (a : ℕ → ℕ) (size : ℕ) → wc_init a size ≡ table_after a size size 0 no_words
unfolding wc_init
init-scan a size = refl

-- The table has the words of the text without its last character.
pub wc_init-words :
    (word_array : ℕ → ℕ) (size : ℕ)
    → wc_init word_array size ≡ insert_all (words (chars word_array 0 (size - 1))) (λ i. [])
wc_init-words a zero = init-none a
wc_init-words a (suc n) =
    let less : n ≡ suc n - 1 = omega arith in
    init-scan a (suc n)
    ∙ scan-words a (suc n) n 0 0 0 0 (λ i. []) (omega arith) (omega arith)
    ∙ ap (λ ws. insert_all ws (λ i. []))
        (words-none a (chars a 0 n) ∙ ap (λ k. words (chars a 0 k)) less)
