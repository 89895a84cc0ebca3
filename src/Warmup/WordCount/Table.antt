-- ===== src/Warmup/WordCount/Table.antt =====
-- The table of warmup/wc.c, seen through the lines that are printed for one word.
use ece344lab.Common.{
  ℕ, ◌+◌, ◌≡◌, ◌≢◌, refl, sym, ap, subst, ◌∙◌, inl, inr, true, false, List, [], ◌∷◌, ◌==◌,
  if◌then◌else◌, arith, Bool-cases, ℕ_discrete,
}
use ece344lab.Common.Text.{same_text, same_text_self, eq_of_same_text, until_zero}
use ece344lab.Warmup.WordCount.{WordEntry, WordTable, hash, insert_chain, insert_entry}
use ece344lab.Warmup.WordCount.Words.{insert_all}

-- The numbers on the lines with this word.
unfoldable pub numbers : List ℕ → List WordEntry → List ℕ
numbers w [] = []
numbers w (e ∷ l) = let rest = numbers w l in if same_text w e.word then e.num_seen ∷ rest else rest

-- One line with the number, none for 0.
abbrev pub one_line : ℕ → List ℕ
one_line n = if n == 0 then [] else n ∷ []

skip :
    (w : List ℕ) (e : WordEntry) (l : List WordEntry)
    → same_text w e.word ≡ false
    → numbers w (e ∷ l) ≡ numbers w l
unfolding numbers
skip w e l h = rw h refl

insert-same :
    (w : List ℕ) (l : List WordEntry) (n : ℕ)
    → numbers w l ≡ one_line n
    → numbers w (insert_chain w l) ≡ one_line (n + 1)
unfolding numbers insert_chain
insert-same w [] n h = ground (arith, same_text_self w)
insert-same w (e ∷ []) n h = ground (arith, same_text_self w)
insert-same w (e ∷ (f ∷ l)) n h = elim (Bool-cases (same_text w e.word)) [
  | inl same ↦ rw same (ground (arith, h, same))
  | inr other ↦ rw other (rw other (insert-same w (f ∷ l) n (sym (skip w e (f ∷ l) other) ∙ h)))
]

other_of : (v w u : List ℕ) → same_text w v ≡ false → same_text v u ≡ true → same_text w u ≡ false
other_of v w u h e = subst (λ x. same_text w x ≡ false) (eq_of_same_text v u e) h

insert-other :
    (v w : List ℕ) (l : List WordEntry)
    → same_text w v ≡ false
    → numbers w (insert_chain v l) ≡ numbers w l
unfolding numbers insert_chain
insert-other v w [] h = rw h refl
insert-other v w (e ∷ []) h = elim (Bool-cases (same_text v e.word)) [
  | inl same ↦ rw (same, other_of v w e.word h same) refl
  | inr other ↦ rw (other, h) refl
]
insert-other v w (e ∷ (f ∷ l)) h = elim (Bool-cases (same_text v e.word)) [
  | inl same ↦ rw (same, other_of v w e.word h same) refl
  | inr other ↦ rw (other, insert-other v w (f ∷ l) h) refl
]

-- The table prints this number for the word, in the chain of its hash and in no other.
abbrev pub Prints : List ℕ → ℕ → WordTable → Type 0
Prints w n table = (h : ℕ) → numbers w (table h) ≡ (if hash w == h then one_line n else [])

entry-own : (v : List ℕ) (t : WordTable) → insert_entry v t (hash v) ≡ insert_chain v (t (hash v))
unfolding insert_entry
entry-own v t = let own : (hash v == hash v) ≡ true = ground arith in rw own refl

entry-apart : (v : List ℕ) (t : WordTable) (h : ℕ) → hash v ≢ h → insert_entry v t h ≡ t h
unfolding insert_entry
entry-apart v t h ne = let other : (hash v == h) ≡ false = ground arith in rw other refl

Prints-same :
    (v : List ℕ) (n : ℕ) (t : WordTable) → Prints v n t → Prints v (n + 1) (insert_entry v t)
Prints-same v n t p h = elim (ℕ_discrete (hash v) h) [
  | yes e ↦
      subst (λ k. numbers v (insert_entry v t k) ≡ (if hash v == k then one_line (n + 1) else [])) e
        own
  | no ne ↦
      let other : (hash v == h) ≡ false = ground arith in
      ap (numbers v) (entry-apart v t h ne) ∙ p h ∙ rw other refl
]
  where
    own :
        numbers v (insert_entry v t (hash v)) ≡ (if hash v == hash v then one_line (n + 1) else [])
    own =
        let here : (hash v == hash v) ≡ true = ground arith in
        let before : numbers v (t (hash v)) ≡ one_line n = p (hash v) ∙ rw here refl in
        ap (numbers v) (entry-own v t) ∙ insert-same v (t (hash v)) n before ∙ sym (rw here refl)

Prints-other :
    (v w : List ℕ) (n : ℕ) (t : WordTable)
    → same_text w v ≡ false
    → Prints w n t
    → Prints w n (insert_entry v t)
Prints-other v w n t other p h = elim (ℕ_discrete (hash v) h) [
  | yes e ↦
      subst (λ k. numbers w (insert_entry v t k) ≡ (if hash w == k then one_line n else [])) e own
  | no ne ↦ ap (numbers w) (entry-apart v t h ne) ∙ p h
]
  where
    own : numbers w (insert_entry v t (hash v)) ≡ (if hash w == hash v then one_line n else [])
    own = ap (numbers w) (entry-own v t) ∙ insert-other v w (t (hash v)) other ∙ p (hash v)

insert_entry-Prints :
    (v w : List ℕ) (n : ℕ) (t : WordTable)
    → Prints w n t
    → Prints w (if same_text w v then n + 1 else n) (insert_entry v t)
insert_entry-Prints v w n t p = elim (Bool-cases (same_text w v)) [
  | inl same ↦ rw same (
      subst (λ x. Prints x (n + 1) (insert_entry v t)) (sym (eq_of_same_text w v same))
        (Prints-same v n t (subst (λ x. Prints x n t) (eq_of_same_text w v same) p)))
  | inr other ↦ rw other (Prints-other v w n t other p)
]

-- How often a word is in a list of words, each cut at its first 0.
unfoldable pub count : List ℕ → List (List ℕ) → ℕ
count w [] = 0
count w (v ∷ vs) = let rest = count w vs in if same_text w (until_zero v) then rest + 1 else rest

pub insert_all-Prints :
    (w : List ℕ) (vs : List (List ℕ)) (n : ℕ) (t : WordTable)
    → Prints w n t
    → Prints w (n + count w vs) (insert_all vs t)
unfolding count insert_all
insert_all-Prints w [] n t p = subst (λ k. Prints w k t) (omega arith) p
insert_all-Prints w (v ∷ vs) n t p =
    subst (λ k. Prints w k (insert_all vs (insert_entry (until_zero v) t))) (ground arith)
      (insert_all-Prints w vs (if same_text w (until_zero v) then n + 1 else n)
        (insert_entry (until_zero v) t) (insert_entry-Prints (until_zero v) w n t p))
