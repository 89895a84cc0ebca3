-- ===== src/Threads/Create.antt =====
-- `thread_create` of threads/thread.c.
use ece344lab.Common.{
  ℕ, zero, suc, ◌+◌, ◌≤◌, ◌<◌, ◌≡◌, refl, sym, subst, ap, ◌∙◌, Bool, true, false, arith, List, [],
  ◌∷◌, ◌++◌, Option, none, some, length, ◌==◌, if◌then◌else◌, Bool-cases, inl, inr, ℕ_discrete,
}
use ece344lab.Common.Memory.{update}
use ece344lab.Common.Action.{Outcome, ok, err, abort, exited, fault, continue}
use ece344lab.Threads.{
  Thread, System, thread_max_threads, thread_nomore, new_state, free_id, assign_thread_id,
  insert_thread_to_ready, thread_create,
}
use ece344lab.Threads.Chains.{Chain, Apart, Distinct, Inserts, insert-Inserts, Distinct-one}

-- The first free id of `n` from `i`, if there is one.
abbrev FirstFree : ℕ → ℕ → (ℕ → Bool) → Option ℕ → Type 0
FirstFree n i ids none = (j : ℕ) → i ≤ j → j < i + n → ids j ≡ true
FirstFree n i ids (some k) =
    (i ≤ k) × (k < i + n) × (ids k ≡ false) × ((j : ℕ) → i ≤ j → j < k → ids j ≡ true)

extend :
    (n i : ℕ) (ids : ℕ → Bool) (o : Option ℕ)
    → FirstFree n (i + 1) ids o
    → ids i ≡ true
    → FirstFree (suc n) i ids o
extend n i ids none h used = λ j lo hi. elim (ℕ_discrete j i) [
  | yes e ↦ ap ids e ∙ used
  | no ne ↦ h j (omega arith) (omega arith)
]
extend n i ids (some k) h used = (
  omega arith,
  omega arith,
  h.2,
  λ j lo hi. elim (ℕ_discrete j i) [ yes e ↦ ap ids e ∙ used | no ne ↦ h.3 j (omega arith) hi ],
)

free_id-FirstFree : (n i : ℕ) (ids : ℕ → Bool) → FirstFree n i ids (free_id n i ids)
unfolding free_id
free_id-FirstFree zero i ids = λ j lo hi. absurd (omega arith)
free_id-FirstFree (suc n) i ids = elim (Bool-cases (ids i)) [
  | inl used ↦
      rw used (extend n i ids (free_id n (i + 1) ids) (free_id-FirstFree n (i + 1) ids) used)
  | inr unused ↦ rw unused (omega arith, omega arith, unused, λ j lo hi. absurd (omega arith))
]

-- The ready list, of different threads that are not at the next address, and fewer than there are
-- addresses.
pub record Ready (s : System) (ready : List ℕ) : Type 0 where
  pub chain : Chain s.threads s.ready_head ready
  pub distinct : Distinct (ready ++ (s.brk ∷ []))
  pub walk : length ready ≤ s.brk

-- The lowest free id goes to a new thread behind the ready ones; or every id is in use, nothing
-- else changes, but signals are left off.
abbrev pub Spawns : System → List ℕ → ℕ → ℕ → Outcome System ℕ → Type 0
Spawns s ready fn parg (ok n t) =
    (n < thread_max_threads)
    × (s.thread_id_array n ≡ false)
    × ((j : ℕ) → j < n → s.thread_id_array j ≡ true)
    × Chain t.threads t.ready_head (ready ++ (s.brk ∷ []))
    × ((t.threads s.brk).tid ≡ n)
    × ((j : ℕ) → t.thread_id_array j ≡ (if n == j then true else s.thread_id_array j))
    × (t.interrupts ≡ s.interrupts)
    × (t.running_thread ≡ s.running_thread)
    × (t.queues ≡ s.queues)
Spawns s ready fn parg (err e t) =
    (e ≡ thread_nomore)
    × ((j : ℕ) → j < thread_max_threads → s.thread_id_array j ≡ true)
    × (t ≡ record s { interrupts = false })
Spawns s ready fn parg abort = ⊥
Spawns s ready fn parg exited = ⊥
Spawns s ready fn parg fault = ⊥

Chain-new :
    (th : ℕ → Thread) (z : ℕ) (t : Thread) (head : Option ℕ) (xs : List ℕ)
    → Apart z xs
    → Chain th head xs
    → Chain (update th z t) head xs
Chain-new th z t head [] d h = h
Chain-new th z t head (x ∷ xs) d h =
    let e : update th z t x ≡ th x = ground (arith, d.0) in
    (
      h.0,
      subst (λ u. Chain (update th z t) u.next xs) (sym e)
          (Chain-new th z t (th x).next xs d.1 h.1),
    )

module _ (s : System) (ready : List ℕ) (fn parg : ℕ) (r : Ready s ready) where
  -- Before the new thread is inserted.
  abbrev made : ℕ → System
  made k = record s {
    interrupts = false;
    threads =
        update s.threads s.brk
          (record { tid = k; state = new_state; next = none; flag = false; entry = (fn, parg) });
    brk = s.brk + 1;
    thread_id_array = update s.thread_id_array k true;
  }

  spawned :
      (k : ℕ) (o : Outcome System (Unit {0}))
      → FirstFree thread_max_threads 0 s.thread_id_array (some k)
      → Inserts (made k) ready (s.brk ∷ []) o
      → Spawns s ready fn parg (continue (λ _ t. ok k (record t { interrupts = s.interrupts })) o)
  spawned k (ok _ t) f i = (
    f.1,
    f.2,
    λ j lt. f.3 j (omega arith) lt,
    i.0,
    i.1 s.brk ∙ ground arith,
    λ j. ap (λ ids. ids j) i.5,
    refl,
    i.4,
    i.2,
  )
  spawned k (err e t) f i = absurd i
  spawned k abort f i = absurd i
  spawned k exited f i = absurd i
  spawned k fault f i = absurd i

  inserted :
      (k : ℕ) → Inserts (made k) ready (s.brk ∷ []) (insert_thread_to_ready (some s.brk) (made k))
  inserted k =
      insert-Inserts (made k) (some s.brk) ready (s.brk ∷ [])
        (Chain-new s.threads s.brk _ s.ready_head ready (Distinct-one s.brk ready [] r.distinct).1
          r.chain)
        (refl, ground arith) r.distinct (omega (arith, r.walk))

  -- With memory at hand `thread_create` gives the lowest free id to a new thread behind the ready
  -- ones, marks the id and leaves the signal mask, the running thread and the queues as they were;
  -- or all 1024 ids are in use, it returns `THREAD_NOMORE` and leaves signals off.
  pub create-Spawns : Spawns s ready fn parg (thread_create true true fn parg s)
  unfolding thread_create assign_thread_id
  create-Spawns =
      go (free_id thread_max_threads 0 s.thread_id_array)
        (free_id-FirstFree thread_max_threads 0 s.thread_id_array) refl
    where
      go :
          (o : Option ℕ)
          → FirstFree thread_max_threads 0 s.thread_id_array o
          → free_id thread_max_threads 0 s.thread_id_array ≡ o
          → Spawns s ready fn parg (thread_create true true fn parg s)
      go none f e = rw e (refl, λ j lt. f j (omega arith) (omega arith), refl)
      go (some k) f e =
          rw e (spawned k (insert_thread_to_ready (some s.brk) (made k)) f (inserted k))
