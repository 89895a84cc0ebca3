-- ===== src/Threads/Wait.antt =====
-- `thread_wakeup` of threads/thread.c: the order in which threads are woken.
use ece344lab.Common.{
  ℕ, ◌≤◌, ◌≡◌, ◌≢◌, refl, ap, ◌∙◌, true, false, arith, List, [], ◌∷◌, ◌++◌, none, some, length,
  ◌==◌, Bool-cases, inl, inr,
}
use ece344lab.Common.Memory.{update}
use ece344lab.Common.Action.{Outcome, ok, err, abort, exited, fault, continue}
use ece344lab.Threads.{
  System, set_queue, set_next, insert_thread_to_ready, wakeup_one, wakeup_all, thread_wakeup,
}
use ece344lab.Threads.Chains.{
  Chain, Distinct, Inserts, insert-Inserts, Chain-Apart, Distinct-one, Distinct-drop,
}

-- The threads of the ready list and of wait queue `q`: different ones, fewer ready than there are
-- addresses, and no more waiting than the queue counts.
pub record Waiting (s : System) (q : ℕ) (ready wait : List ℕ) : Type 0 where
  pub ready_chain : Chain s.threads s.ready_head ready
  pub wait_chain : Chain s.threads (s.queues q).wait_head wait
  pub distinct : Distinct (ready ++ wait)
  pub walk : length ready ≤ s.brk
  pub counted : length wait ≤ (s.queues q).size

abbrev after_all : ℕ → System → System
after_all q t = record t { queues = update t.queues q (record { wait_head = none; size = 0 }) }

-- What is left to do once the threads are in the ready list.
abbrev finish_all : System → ℕ → Outcome System (Unit {0}) → Outcome System ℕ
finish_all s q r =
    continue (λ n u. ok n (record u { interrupts = s.interrupts }))
      (continue (λ _ t. ok (s.queues q).size (after_all q t)) r)

-- The state is that before but for the ready list, the queue and the pointers of both.
abbrev Wakes : System → ℕ → List ℕ → List ℕ → ℕ → ℕ → System → Type 0
Wakes s q ready wait size n t =
    Chain t.threads t.ready_head ready
    × Chain t.threads (t.queues q).wait_head wait
    × ((t.queues q).size ≡ size)
    × (t.interrupts ≡ s.interrupts)
    × (t.running_thread ≡ s.running_thread)
    × (t.thread_id_array ≡ s.thread_id_array)
    × ((a : ℕ) → (t.threads a).tid ≡ (s.threads a).tid)
    × ((p : ℕ) → p ≢ q → t.queues p ≡ s.queues p)

-- All threads of the queue are behind those that were ready, in order; the result is the count of
-- the queue, or 0 for an empty queue.
abbrev pub WakesAll : System → ℕ → List ℕ → List ℕ → Outcome System ℕ → Type 0
WakesAll s q ready [] (ok n t) = (n ≡ 0) × Wakes s q ready [] (s.queues q).size n t
WakesAll s q ready (a ∷ wait) (ok n t) =
    (n ≡ (s.queues q).size) × Wakes s q (ready ++ (a ∷ wait)) [] 0 n t
WakesAll s q ready wait (err e t) = ⊥
WakesAll s q ready wait abort = ⊥
WakesAll s q ready wait exited = ⊥
WakesAll s q ready wait fault = ⊥

module _ (s : System) (q a : ℕ) (ready wait : List ℕ) where
  abbrev masked : System
  masked = record s { interrupts = false }

  finished_all :
      (r : Outcome System (Unit {0}))
      → Inserts masked ready (a ∷ wait) r
      → WakesAll s q ready (a ∷ wait) (finish_all s q r)
  finished_all (ok _ t) i = (
    refl,
    (
      i.0,
      ground arith,
      ground arith,
      refl,
      i.4,
      i.5,
      i.1,
      λ p ne. ground (arith, ap (λ f. f p) i.2),
    ),
  )
  finished_all (err e t) i = i
  finished_all abort i = i
  finished_all exited i = i
  finished_all fault i = i

-- `thread_wakeup` with `all == 1` puts all threads of the queue behind the ready ones, the first to
-- sleep first, and empties the queue. The signal mask, the running thread, the ids and the other
-- queues are as before. The lists are of different threads and fit the store.
pub wakeup-WakesAll :
    (s : System) (q : ℕ) (ready wait : List ℕ)
    → Waiting s q ready wait
    → WakesAll s q ready wait (thread_wakeup (some q) 1 s)
unfolding thread_wakeup wakeup_all
wakeup-WakesAll s q ready [] w =
    rw w.wait_chain
      (refl, (w.ready_chain, w.wait_chain, refl, refl, refl, refl, (λ a. refl), λ p ne. refl))
wakeup-WakesAll s q ready (a ∷ wait) w = rw w.wait_chain.0 (
    finished_all s q a ready wait (insert_thread_to_ready (some a) (masked s q a ready wait)) (
      insert-Inserts (masked s q a ready wait) (some a) ready (a ∷ wait) w.ready_chain
        (refl, w.wait_chain.1) w.distinct w.walk))

-- The first thread of the queue is behind those that were ready. The count of the queue is not
-- lowered.
abbrev pub WakesOne : System → ℕ → List ℕ → List ℕ → Outcome System ℕ → Type 0
WakesOne s q ready [] (ok n t) = (n ≡ 0) × Wakes s q ready [] (s.queues q).size n t
WakesOne s q ready (a ∷ wait) (ok n t) =
    (n ≡ 1) × Wakes s q (ready ++ (a ∷ [])) wait (s.queues q).size n t
WakesOne s q ready wait (err e t) = ⊥
WakesOne s q ready wait abort = ⊥
WakesOne s q ready wait exited = ⊥
WakesOne s q ready wait fault = ⊥

module _ (s : System) (q a : ℕ) (ready : List ℕ) where
  abbrev hidden : System
  hidden = record s { interrupts = false }

  -- The queue without its first thread, which is taken off.
  abbrev taken : System
  taken =
      set_next a none (set_queue q (record (s.queues q) { wait_head = (s.threads a).next }) hidden)

  finished_one :
      (wait : List ℕ) (r : Outcome System (Unit {0}))
      → Inserts taken ready (a ∷ []) r
      → Chain taken.threads (s.threads a).next wait
      → Distinct (ready ++ wait)
      → WakesOne s q ready (a ∷ wait) (
          continue
            (λ n u. ok n (record u { interrupts = s.interrupts }))
            (continue (λ _ t. ok 1 t) r))
  finished_one wait (ok _ t) i c d =
      let own : t.queues q ≡ record (s.queues q) { wait_head = (s.threads a).next } =
        ap (λ f. f q) i.2 ∙ ground arith in
      (
        refl,
        (
          i.0,
          rw own (i.6 (s.threads a).next wait d c),
          rw own refl,
          refl,
          i.4,
          i.5,
          (λ x. i.1 x ∙ ground arith),
          λ p ne. ap (λ f. f p) i.2 ∙ ground arith,
        ),
      )
  finished_one wait (err e t) i c d = i
  finished_one wait abort i c d = i
  finished_one wait exited i c d = i
  finished_one wait fault i c d = i

  finished_only :
      (r : Outcome System (Unit {0}))
      → Inserts hidden ready (a ∷ []) r
      → WakesOne s q ready (a ∷ []) (
          continue
            (λ n u. ok n (record u { interrupts = s.interrupts }))
            (continue
              (λ _ u. ok 1 u)
              (continue
                (λ _ t. ok tt (set_queue q (record (s.queues q) { wait_head = none }) t))
                r)))
  finished_only (ok _ t) i = (
    refl,
    (
      i.0,
      ground arith,
      ground arith,
      refl,
      i.4,
      i.5,
      i.1,
      λ p ne. ground (arith, ap (λ f. f p) i.2),
    ),
  )
  finished_only (err e t) i = i
  finished_only abort i = i
  finished_only exited i = i
  finished_only fault i = i

  only_one :
      (wait : List ℕ)
      → Waiting s q ready (a ∷ wait)
      → (s.queues q).size ≡ 1
      → WakesOne s q ready (a ∷ wait) (thread_wakeup (some q) 0 s)
  unfolding thread_wakeup wakeup_one
  only_one [] w e =
      let one : ((s.queues q).size == 1) ≡ true = ground arith in
      rw (w.wait_chain.0, one)
        (finished_only (insert_thread_to_ready (some a) hidden) (
          insert-Inserts hidden (some a) ready (a ∷ []) w.ready_chain (refl, w.wait_chain.1)
            w.distinct w.walk))
  only_one (b ∷ wait) w e = absurd (omega (arith, w.counted))

  one_of_many :
      (wait : List ℕ)
      → Waiting s q ready (a ∷ wait)
      → ((s.queues q).size == 1) ≡ false
      → WakesOne s q ready (a ∷ wait) (thread_wakeup (some q) 0 s)
  unfolding thread_wakeup wakeup_one
  one_of_many wait w e =
      let d = Distinct-one a ready wait w.distinct in
      rw (w.wait_chain.0, e)
        (finished_one wait (insert_thread_to_ready (some a) taken)
          (insert-Inserts taken (some a) ready (a ∷ [])
            (Chain-Apart s.threads a none s.ready_head ready d.1 w.ready_chain) (refl, ground arith)
            d.0 w.walk)
          (Chain-Apart s.threads a none (s.threads a).next wait d.2 w.wait_chain.1)
          (Distinct-drop a ready wait w.distinct))

-- `thread_wakeup` with `all == 0` puts the first thread to sleep behind the ready ones and keeps the
-- others waiting in order. The count of the queue, the signal mask, the running thread, the ids and
-- the other queues are as before.
pub wakeup-WakesOne :
    (s : System) (q : ℕ) (ready wait : List ℕ)
    → Waiting s q ready wait
    → WakesOne s q ready wait (thread_wakeup (some q) 0 s)
unfolding thread_wakeup
wakeup-WakesOne s q ready [] w =
    rw w.wait_chain
      (refl, (w.ready_chain, w.wait_chain, refl, refl, refl, refl, (λ a. refl), λ p ne. refl))
wakeup-WakesOne s q ready (a ∷ wait) w = elim (Bool-cases ((s.queues q).size == 1)) [
  | inl one ↦ only_one s q a ready wait w (ground arith)
  | inr many ↦ one_of_many s q a ready wait w many
]
