-- ===== src/Threads/Lock/Moves.antt =====
-- Steps of threads/thread.c that move threads: what stays true of a lock.
use ece344lab.Common.{
  ℕ, ◌≡◌, ◌≢◌, refl, sym, subst, ◌∙◌, ◌⊎◌, inl, inr, List, [], ◌∷◌, ◌++◌, ◌==◌, Bool-cases, arith,
}
use ece344lab.Common.Memory.{update}
use ece344lab.Threads.Lock.{Place, trying, queued, holding, Locked, wake_all}

abbrev pub In : ℕ → List ℕ → Type 0
In i [] = ⊥
In i (a ∷ l) = (a ≡ i) ⊎ In i l

pub In-last : (l : List ℕ) (i : ℕ) → In i (l ++ (i ∷ []))
In-last [] i = inl refl
In-last (a ∷ l) i = inr (In-last l i)

pub In-append : (l m : List ℕ) (i : ℕ) → In i l → In i (l ++ m)
In-append [] m i h = absurd h
In-append (a ∷ l) m i (inl e) = inl e
In-append (a ∷ l) m i (inr h) = inr (In-append l m i h)

-- A thread that is moved is there, and any other where it was.
pub moved :
    (p : ℕ → Place) (i j : ℕ) (x : Place)
    → ((i ≡ j) × (update p i x j ≡ x)) ⊎ (update p i x j ≡ p j)
moved p i j x = elim (Bool-cases (i == j)) [
  | inl same ↦ inl (ground arith, rw same refl)
  | inr other ↦ inr (rw other refl)
]

pub wake-moves :
    (l : List ℕ) (p : ℕ → Place) (j : ℕ) → (wake_all l p j ≡ trying) ⊎ (wake_all l p j ≡ p j)
unfolding wake_all
wake-moves [] p j = inr refl
wake-moves (i ∷ l) p j = elim (wake-moves l (update p i trying) j) [
  | inl woken ↦ inl woken
  | inr same ↦ (elim (moved p i j trying) [
    | inl (_, there) ↦ inl (same ∙ there)
    | inr kept ↦ inr (same ∙ kept)
  ])
]

pub wake_all-In : (l : List ℕ) (p : ℕ → Place) (j : ℕ) → In j l → wake_all l p j ≡ trying
unfolding wake_all
wake_all-In [] p j h = absurd h
wake_all-In (i ∷ l) p j (inr h) = wake_all-In l (update p i trying) j h
wake_all-In (i ∷ l) p j (inl e) = elim (wake-moves l (update p i trying) j) [
  | inl woken ↦ woken
  | inr same ↦ same ∙ ground (arith, e)
]

-- One holder at most, and only of a lock that is taken; a thread that sleeps for it is in its queue,
-- and the lock is taken.
pub record Inv (w : Locked) : Type 0 where
  pub one : (i j : ℕ) → w.places i ≡ holding → w.places j ≡ holding → i ≡ j
  pub held : (i : ℕ) → w.places i ≡ holding → w.lock_state ≡ 1
  pub asleep : (i : ℕ) → w.places i ≡ queued → (w.lock_state ≡ 1) × In i w.queue

-- Places at which no thread comes to hold the lock or to sleep for it.
abbrev pub Fewer : (ℕ → Place) → (ℕ → Place) → Type 0
Fewer q p = ((j : ℕ) → q j ≡ holding → p j ≡ holding) × ((j : ℕ) → q j ≡ queued → p j ≡ queued)

-- Steps that leave the lock and its queue.
pub Fewer-Inv :
    (w v : Locked)
    → Inv w
    → v.lock_state ≡ w.lock_state
    → v.queue ≡ w.queue
    → Fewer v.places w.places
    → Inv v
Fewer-Inv w v inv state queue (h, q) = record {
  one = λ i j a b. inv.one i j (h i a) (h j b);
  held = λ i a. state ∙ inv.held i (h i a);
  asleep = λ i a.
      (state ∙ (inv.asleep i (q i a)).0, subst (λ l. In i l) (sym queue) (inv.asleep i (q i a)).1);
}

pub move-Fewer :
    (p : ℕ → Place) (i : ℕ) (x : Place) → x ≢ holding → x ≢ queued → Fewer (update p i x) p
move-Fewer p i x nh nq = (λ j e. from j holding nh e, λ j e. from j queued nq e)
  where
    from : (j : ℕ) (y : Place) → x ≢ y → update p i x j ≡ y → p j ≡ y
    from j y ne e = elim (moved p i j x) [
      | inl (_, there) ↦ absurd (ne (sym there ∙ e))
      | inr kept ↦ sym kept ∙ e
    ]

pub wake-Fewer : (l : List ℕ) (p : ℕ → Place) → Fewer (wake_all l p) p
wake-Fewer l p = (
  λ j e. from j holding (λ f. ground (arith, f)) e,
  λ j e. from j queued (λ f. ground (arith, f)) e,
)
  where
    from : (j : ℕ) (y : Place) → trying ≢ y → wake_all l p j ≡ y → p j ≡ y
    from j y ne e = elim (wake-moves l p j) [
      | inl woken ↦ absurd (ne (sym woken ∙ e))
      | inr kept ↦ sym kept ∙ e
    ]
