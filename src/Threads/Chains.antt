-- ===== src/Threads/Chains.antt =====
-- The linked lists of threads/thread.c as lists of addresses.
use ece344lab.Common.{
  ℕ, zero, suc, ◌≤◌, ◌<◌, ◌≡◌, ◌≢◌, refl, sym, subst, arith, List, [], ◌∷◌, ◌++◌, Option, none,
  some, length,
}
use ece344lab.Common.Memory.{update}
use ece344lab.Common.Action.{Outcome, ok}
use ece344lab.Threads.{Thread, System, last_of, insert_thread_to_ready}

-- The list that starts at a pointer.
abbrev pub Chain : (ℕ → Thread) → Option ℕ → List ℕ → Type 0
Chain th head [] = head ≡ none
Chain th head (x ∷ xs) = (head ≡ some x) × Chain th (th x).next xs

abbrev pub Apart : ℕ → List ℕ → Type 0
Apart a [] = Unit {0}
Apart a (x ∷ xs) = (x ≢ a) × Apart a xs

abbrev pub Distinct : List ℕ → Type 0
Distinct [] = Unit {0}
Distinct (x ∷ xs) = Apart x xs × Distinct xs

unfoldable pub last : ℕ → List ℕ → ℕ
last a [] = a
last a (x ∷ xs) = last x xs

pub last_of-last :
    (fuel : ℕ) (th : ℕ → Thread) (a : ℕ) (xs : List ℕ)
    → Chain th (th a).next xs
    → length xs < fuel
    → last_of fuel th a ≡ some (last a xs)
unfolding last_of last
last_of-last zero th a xs h lt = absurd (omega arith)
last_of-last (suc fuel) th a [] h lt = rw (last_of, h) refl
last_of-last (suc fuel) th a (x ∷ xs) h lt =
    rw (last_of, h.0) (last_of-last fuel th x xs h.1 (omega arith))

Apart-drop : (b a : ℕ) (xs ys : List ℕ) → Apart b (xs ++ (a ∷ ys)) → Apart b (xs ++ ys)
Apart-drop b a [] ys h = h.1
Apart-drop b a (x ∷ xs) ys h = (h.0, Apart-drop b a xs ys h.1)

pub Distinct-drop : (a : ℕ) (xs ys : List ℕ) → Distinct (xs ++ (a ∷ ys)) → Distinct (xs ++ ys)
Distinct-drop a [] ys h = h.1
Distinct-drop a (x ∷ xs) ys h = (Apart-drop x a xs ys h.0, Distinct-drop a xs ys h.1)

Apart-one :
    (b a : ℕ) (xs ys : List ℕ) → Apart b (xs ++ (a ∷ ys)) → Apart b (xs ++ (a ∷ [])) × (a ≢ b)
Apart-one b a [] ys h = ((h.0, tt), h.0)
Apart-one b a (x ∷ xs) ys h = let r = Apart-one b a xs ys h.1 in ((h.0, r.0), r.1)

-- One thread between two lists.
pub Distinct-one :
    (a : ℕ) (xs ys : List ℕ)
    → Distinct (xs ++ (a ∷ ys))
    → Distinct (xs ++ (a ∷ [])) × Apart a xs × Apart a ys
Distinct-one a [] ys h = ((tt, tt), tt, h.0)
Distinct-one a (x ∷ xs) ys h =
    let r = Distinct-one a xs ys h.1 in
    let p = Apart-one x a xs ys h.0 in ((p.0, r.0), (λ e. p.1 (sym e), r.1), r.2)

-- The last thread of one list is not in another that is apart from it.
Apart-last : (a : ℕ) (xs ys : List ℕ) → Distinct ((a ∷ xs) ++ ys) → Apart (last a xs) ys
unfolding last
Apart-last a [] ys h = h.0
Apart-last a (x ∷ xs) ys h = Apart-last x xs ys h.1

last-Apart : (a x : ℕ) (xs ys : List ℕ) → Apart a ((x ∷ xs) ++ ys) → last x xs ≢ a
unfolding last
last-Apart a x [] ys h = h.0
last-Apart a x (y ∷ xs) ys h = last-Apart a y xs ys h.1

-- `temp->next = n`
abbrev pub linked : (ℕ → Thread) → ℕ → Option ℕ → ℕ → Thread
linked th z n = update th z (record (th z) { next = n })

linked_apart : (th : ℕ → Thread) (z : ℕ) (n : Option ℕ) (x : ℕ) → x ≢ z → linked th z n x ≡ th x
linked_apart th z n x ne = ground arith

pub Chain-Apart :
    (th : ℕ → Thread) (z : ℕ) (n head : Option ℕ) (xs : List ℕ)
    → Apart z xs
    → Chain th head xs
    → Chain (linked th z n) head xs
Chain-Apart th z n head [] d h = h
Chain-Apart th z n head (x ∷ xs) d h = (
  h.0,
  subst (λ t. Chain (linked th z n) t.next xs) (sym (linked_apart th z n x d.0))
      (Chain-Apart th z n (th x).next xs d.1 h.1),
)

pub Apart-end : (a b : ℕ) (xs : List ℕ) → Apart a (xs ++ (b ∷ [])) → b ≢ a
Apart-end a b [] h = h.0
Apart-end a b (x ∷ xs) h = Apart-end a b xs h.1

pub Chain-same :
    (th th2 : ℕ → Thread) (head : Option ℕ) (xs : List ℕ)
    → ((x : ℕ) → (th2 x).next ≡ (th x).next)
    → Chain th head xs
    → Chain th2 head xs
Chain-same th th2 head [] h c = c
Chain-same th th2 head (x ∷ xs) h c =
    (c.0, subst (λ n. Chain th2 n xs) (sym (h x)) (Chain-same th th2 (th x).next xs h c.1))

-- The last thread has no next one, and can be given none.
pub Chain-end :
    (th : ℕ → Thread) (z : ℕ) (head : Option ℕ) (xs : List ℕ)
    → Distinct (xs ++ (z ∷ []))
    → Chain th head (xs ++ (z ∷ []))
    → Chain (linked th z none) head (xs ++ (z ∷ []))
Chain-end th z head [] d h = (h.0, ground arith)
Chain-end th z head (x ∷ xs) d h = (
  h.0,
  subst (λ t. Chain (linked th z none) t.next (xs ++ (z ∷ [])))
      (sym (linked_apart th z none x (λ e. Apart-end x z xs d.0 (sym e))))
      (Chain-end th z (th x).next xs d.1 h.1),
)

-- The end of a list linked to another list is the two lists.
pub Chain-linked :
    (th : ℕ → Thread) (n : Option ℕ) (a : ℕ) (xs ys : List ℕ)
    → Chain th (th a).next xs
    → Chain th n ys
    → Distinct ((a ∷ xs) ++ ys)
    → Chain (linked th (last a xs) n) (some a) ((a ∷ xs) ++ ys)
unfolding last
Chain-linked th n a [] ys h k d =
    (refl, subst (λ t. Chain (linked th a n) t.next ys) (sym at) (Chain-Apart th a n n ys d.0 k))
  where
    at : linked th a n a ≡ record (th a) { next = n }
    at = ground arith
Chain-linked th n a (x ∷ xs) ys h k d = (
  refl,
  subst (λ t. Chain (linked th (last x xs) n) t.next ((x ∷ xs) ++ ys))
      (sym (linked_apart th (last x xs) n a (λ e. last-Apart a x xs ys d.0 (sym e))))
      (h.0, (Chain-linked th n x xs ys h.1 k d.1).1),
)

-- The ready list with another list behind it; a list apart from those that were ready stays.
abbrev pub Inserts : System → List ℕ → List ℕ → Outcome System (Unit {0}) → Type 0
Inserts s xs ys (ok _ t) =
    Chain t.threads t.ready_head (xs ++ ys)
    × ((a : ℕ) → (t.threads a).tid ≡ (s.threads a).tid)
    × (t.queues ≡ s.queues)
    × (t.interrupts ≡ s.interrupts)
    × (t.running_thread ≡ s.running_thread)
    × (t.thread_id_array ≡ s.thread_id_array)
    × ((head : Option ℕ) (zs : List ℕ)
        → Distinct (xs ++ zs)
        → Chain s.threads head zs
        → Chain t.threads head zs)
Inserts s xs ys _ = ⊥

-- `insert_thread_to_ready` of the head of a list puts that whole list behind the ready list, in
-- order. The lists share no thread and the ready list has fewer threads than there are addresses in
-- use, so the walk ends.
pub insert-Inserts :
    (s : System) (n : Option ℕ) (xs ys : List ℕ)
    → Chain s.threads s.ready_head xs
    → Chain s.threads n ys
    → Distinct (xs ++ ys)
    → length xs ≤ s.brk
    → Inserts s xs ys (insert_thread_to_ready n s)
unfolding insert_thread_to_ready
insert-Inserts s n [] ys h k d lt = rw h (k, λ a. refl, refl, refl, refl, refl, λ head zs e c. c)
insert-Inserts s n (x ∷ xs) ys h k d lt =
    rw (h.0, last_of-last s.brk s.threads x xs h.1 (omega arith))
      (
        Chain-linked s.threads n x xs ys h.1 k d,
        λ a. ground arith,
        refl,
        refl,
        refl,
        refl,
        λ head zs e c. Chain-Apart s.threads (last x xs) n head zs (Apart-last x xs zs e) c,
      )
