-- ===== src/Webserver/Cache/Order.antt =====
-- The order of use that `update_LRU` of webserver/server_thread.c keeps.
use ece344lab.Common.{
  ℕ, ◌≡◌, refl, sym, ap, subst, ◌∙◌, inl, inr, Bool, true, false, List, [], ◌∷◌, ◌++◌, ◌==◌,
  if◌then◌else◌, arith, Bool-cases,
}
use ece344lab.Webserver.Cache.{pass, seek, hook, put_next, move_last, relink, update_lru}

unfoldable pub contains : ℕ → List ℕ → Bool
contains file [] = false
contains file (a ∷ l) = let rest = contains file l in if a == file then true else rest

-- A list without its first entry of the file.
unfoldable pub unlink : ℕ → List ℕ → List ℕ
unlink file [] = []
unlink file (a ∷ l) = let rest = unlink file l in if a == file then l else a ∷ rest

pub contains-unlink : (file : ℕ) (l : List ℕ) → contains file l ≡ false → unlink file l ≡ l
unfolding contains unlink
contains-unlink file [] h = refl
contains-unlink file (a ∷ l) h = ground (arith, contains-unlink file l)

hook-append : (head : ℕ) (l : List ℕ) (e : ℕ) → hook head l e ≡ head ∷ (l ++ (e ∷ []))
unfolding hook
hook-append head [] e = refl
hook-append head (b ∷ l) e = ap (λ r. head ∷ r) (hook-append b l e)

put_next-append : (head : ℕ) (l : List ℕ) (e : ℕ) → put_next head l e ≡ head ∷ (l ++ (e ∷ []))
unfolding put_next
put_next-append head [] e = refl
put_next-append head (b ∷ l) e = ap (λ r. head ∷ r) (put_next-append b l e)

move_last-append :
    (head : ℕ) (between after : List ℕ) (temp : ℕ)
    → move_last head between after temp ≡ (head ∷ (between ++ after)) ++ (temp ∷ [])
unfolding move_last
move_last-append head [] after temp = hook-append head after temp
move_last-append head (b ∷ between) after temp =
    ap (λ r. head ∷ r) (move_last-append b between after temp)

-- What the walk to a file comes to: the end, with no entry of the file, or the first of them.
abbrev Sought : ℕ → List ℕ → List ℕ × List ℕ → Type 0
Sought file l (passed, []) = (passed ≡ l) × (unlink file l ≡ l)
Sought file l (passed, (temp ∷ after)) = (temp ≡ file) × (unlink file l ≡ passed ++ after)

unlink-same : (file a : ℕ) (l : List ℕ) → a == file ≡ true → unlink file (a ∷ l) ≡ l
unfolding unlink
unlink-same file a l same = rw same refl

unlink-other :
    (file a : ℕ) (l : List ℕ) → a == file ≡ false → unlink file (a ∷ l) ≡ a ∷ unlink file l
unfolding unlink
unlink-other file a l other = rw other refl

seek-same : (file a : ℕ) (l : List ℕ) → a == file ≡ true → seek file (a ∷ l) ≡ ([], a ∷ l)
unfolding seek
seek-same file a l same = rw same refl

seek-other :
    (file a : ℕ) (l : List ℕ) → a == file ≡ false → seek file (a ∷ l) ≡ pass a (seek file l)
unfolding seek
seek-other file a l other = rw other refl

pass-Sought :
    (file a : ℕ) (l : List ℕ) (r : List ℕ × List ℕ)
    → a == file ≡ false
    → Sought file l r
    → Sought file (a ∷ l) (pass a r)
pass-Sought file a l (passed, []) other (whole, none_in) =
    (ap (λ r. a ∷ r) whole, unlink-other file a l other ∙ ap (λ r. a ∷ r) none_in)
pass-Sought file a l (passed, (temp ∷ after)) other (at, rest) =
    (at, unlink-other file a l other ∙ ap (λ r. a ∷ r) rest)

seek-Sought : (file : ℕ) (l : List ℕ) → Sought file l (seek file l)
unfolding seek unlink
seek-Sought file [] = (refl, refl)
seek-Sought file (a ∷ l) = elim (Bool-cases (a == file)) [
  | inl same ↦
      subst (λ r. Sought file (a ∷ l) r) (sym (seek-same file a l same))
        (ground (arith, same), unlink-same file a l same)
  | inr other ↦
      subst (λ r. Sought file (a ∷ l) r) (sym (seek-other file a l other))
        (pass-Sought file a l (seek file l) other (seek-Sought file l))
]

-- The walk has passed the head.
relink-unlink :
    (file a b : ℕ) (l : List ℕ) (r : List ℕ × List ℕ)
    → a == file ≡ false
    → Sought file (b ∷ l) r
    → relink file a b l (pass a r) ≡ (a ∷ unlink file (b ∷ l)) ++ (file ∷ [])
relink-unlink file a b l (passed, []) other (whole, none_in) =
    put_next-append a passed file ∙ ap (λ r. (a ∷ r) ++ (file ∷ [])) (whole ∙ sym none_in)
relink-unlink file a b l (passed, (temp ∷ after)) other (at, rest) =
    let apart : temp == a ≡ false = ground (arith, at, other) in
    rw apart (
      move_last-append a passed after temp
      ∙ ap (λ r. (a ∷ r) ++ (temp ∷ [])) (sym rest)
      ∙ ap (λ e. (a ∷ unlink file (b ∷ l)) ++ (e ∷ [])) at)

unlink-none : (file : ℕ) → unlink file [] ≡ []
unfolding unlink
unlink-none file = refl

update_one : (file a : ℕ) → update_lru file (a ∷ []) ≡ unlink file (a ∷ []) ++ (file ∷ [])
unfolding update_lru unlink
update_one file a = elim (Bool-cases (a == file)) [
  | inl same ↦ rw same (ap (λ x. x ∷ []) (ground arith))
  | inr other ↦ rw other refl
]

-- `update_LRU`, with its walks over the list and its cases for an empty list, one entry, the head, an
-- entry behind it and a file that is not there, is one thing: the file is taken out of the list, if
-- it is in it, and put at the end.
pub update_lru-unlink : (file : ℕ) (l : List ℕ) → update_lru file l ≡ unlink file l ++ (file ∷ [])
unfolding update_lru
update_lru-unlink file [] = sym (ap (λ r. r ++ (file ∷ [])) (unlink-none file))
update_lru-unlink file (a ∷ []) = update_one file a
update_lru-unlink file (a ∷ (b ∷ l)) = elim (Bool-cases (a == file)) [
  | inl same ↦
      ap (relink file a b l) (seek-same file a (b ∷ l) same)
      ∙ head_moves same
      ∙ ap (λ r. r ++ (file ∷ [])) (sym (unlink-same file a (b ∷ l) same))
  | inr other ↦
      ap (relink file a b l) (seek-other file a (b ∷ l) other)
      ∙ relink-unlink file a b l (seek file (b ∷ l)) other (seek-Sought file (b ∷ l))
      ∙ ap (λ r. r ++ (file ∷ [])) (sym (unlink-other file a (b ∷ l) other))
]
  where
    head_moves : a == file ≡ true → relink file a b l ([], a ∷ (b ∷ l)) ≡ (b ∷ l) ++ (file ∷ [])
    head_moves same =
        let self : a == a ≡ true = ground arith in
        rw self (hook-append b l a ∙ ap (λ x. (b ∷ l) ++ (x ∷ [])) (ground (arith, same)))
