-- ===== src/Webserver/Buffer/Safety.antt =====
-- What the threads of webserver/server_thread.c keep to, whatever the order of their steps.
use ece344lab.Common.{
  ℕ, zero, suc, ◌+◌, ◌≤◌, ◌<◌, ◌≡◌, ◌≢◌, refl, sym, ap, subst, ◌∙◌, ◌⊎◌, inl, inr, Bool, true,
  false, [], ◌++◌, arith, length, Bool-cases, ℕ_discrete,
}
use native.Mathlib.Nat.{mod-lt}
use ece344lab.Common.Memory.{update}
use ece344lab.Webserver.Buffer.{
  slots, distance, is_full, is_empty, Caller, away, asking, holding, blocked, Worker, ready, inside,
  asleep, serving, Holder, nobody, caller, worker, World, none_waits, one_wakes, AfterPut, Step,
  arrive, lock_caller, wait_full, enqueue, spurious_caller, lock_worker, wait_empty, dequeue,
  spurious_worker, served, Reach, here, next,
}
use ece344lab.Webserver.Buffer.Ring.{waiting, distance-Holds, is_full-Holds, is_empty-Holds}
use ece344lab.Webserver.Buffer.Invariant.{Inv, Held}
use ece344lab.Webserver.Buffer.Steps.{Reach-Inv}

-- Whatever the order of steps, with at least one worker: the connections accepted are those taken
-- by the workers and then those in the buffer, in order, so none is lost, doubled or overtaken. No
-- more than `max_requests` wait, and both indices stay inside the buffer.
pub requests_in_order :
    (n k : ℕ) (w : World)
    → 0 < n
    → Reach n k w
    → (w.accepted ≡ w.taken ++ waiting w.server (length w.taken) (distance w.server))
      × (distance w.server ≤ k)
      × (w.server.in_at ≤ k)
      × (w.server.out_at ≤ k)
requests_in_order n k w pos r =
    let inv = Reach-Inv n k pos w r in
    let d = distance-Holds w.server (length w.taken) inv.waits inv.holds in
    (
      inv.order ∙ ap (λ m. w.taken ++ waiting w.server (length w.taken) m) (sym d),
      omega (arith, d, inv.holds.bound, inv.bound),
      omega (
        arith,
        inv.holds.in_is,
        inv.bound,
        mod-lt (length w.taken + inv.waits) {m = slots w.server} (omega arith),
      ),
      omega (
        arith,
        inv.holds.out_is,
        inv.bound,
        mod-lt (length w.taken) {m = slots w.server} (omega arith),
      ),
    )

-- Whatever the order of steps, with at least one worker: two threads are never past the lock
-- together, neither two workers nor a worker and the accepting thread.
pub mutual_exclusion :
    (n k : ℕ) (w : World)
    → 0 < n
    → Reach n k w
    → (i : ℕ) → w.workers i ≡ inside
    → ((j : ℕ) → w.workers j ≡ inside → i ≡ j) × ((c : ℕ) → w.accepting ≢ holding c)
mutual_exclusion n k w pos r i at =
    let inv = Reach-Inv n k pos w r in
    (
      λ j h. ground (arith, inv.worker_has i at, inv.worker_has j h),
      λ c h. ground (arith, inv.worker_has i at, inv.caller_has c h),
    )

-- A step that the lock and the buffer alone admit: not the arrival of a connection, no wakeup without
-- a signal and no return of `do_server_request`.
abbrev pub IsOwn : {n : ℕ} {w v : World} → Step n w v → Type 0
IsOwn (arrive _ _ _) = ⊥
IsOwn (spurious_caller _ _ _) = ⊥
IsOwn (spurious_worker _ _ _ _) = ⊥
IsOwn (lock_caller _ _ _ _) = Unit {0}
IsOwn (wait_full _ _ _ _) = Unit {0}
IsOwn (enqueue _ _ _ _ _ _) = Unit {0}
IsOwn (lock_worker _ _ _ _ _) = Unit {0}
IsOwn (wait_empty _ _ _ _ _) = Unit {0}
IsOwn (dequeue _ _ _ _ _) = Unit {0}
IsOwn (served _ _ _ _ _) = ⊥

abbrev pub CanMove : ℕ → World → Type 0
CanMove n w = (v : World) × (s : Step n w v) × IsOwn s

-- Some worker is in `do_server_request`.
abbrev pub IsServing : ℕ → World → Type 0
IsServing n w = (i : ℕ) × (i < n) × (c : ℕ) × (w.workers i ≡ serving c)

abbrev pub Goes : ℕ → World → Type 0
Goes n w = IsServing n w ⊎ CanMove n w

-- Some worker waits, or none does.
sleeper :
    (n : ℕ) (w : ℕ → Worker)
    → ((i : ℕ) × (i < n) × (w i ≡ asleep)) ⊎ ((i : ℕ) → i < n → w i ≢ asleep)
sleeper zero w = inr (λ i lt. absurd (omega arith))
sleeper (suc n) w = here_or (w n) refl (sleeper n w)
  where
    up :
        (i : ℕ)
        → i < suc n
        → w n ≢ asleep
        → Dec (i ≡ n)
        → ((i : ℕ) → i < n → w i ≢ asleep)
        → w i ≢ asleep
    up i lt ne (yes e) h = λ q. ne (sym (ap w e) ∙ q)
    up i lt ne (no d) h = h i (omega arith)

    here_or :
        (x : Worker)
        → w n ≡ x
        → ((i : ℕ) × (i < n) × (w i ≡ asleep)) ⊎ ((i : ℕ) → i < n → w i ≢ asleep)
        → ((i : ℕ) × (i < suc n) × (w i ≡ asleep)) ⊎ ((i : ℕ) → i < suc n → w i ≢ asleep)
    here_or x e (inl (i, lt, at)) = inl (i, omega arith, at)
    here_or asleep e (inr h) = inl (n, omega arith, e)
    here_or ready e (inr h) = inr (λ i lt. up i lt (λ q. ground arith) (ℕ_discrete i n) h)
    here_or inside e (inr h) = inr (λ i lt. up i lt (λ q. ground arith) (ℕ_discrete i n) h)
    here_or (serving c) e (inr h) = inr (λ i lt. up i lt (λ q. ground arith) (ℕ_discrete i n) h)

signalled : (n : ℕ) (w : ℕ → Worker) (e : Bool) → (u : ℕ → Worker) × AfterPut n e w u
signalled n w false = (w, refl)
signalled n w true = elim (sleeper n w) [
  | inl (i, lt, at) ↦ (update w i ready, one_wakes i lt at refl)
  | inr h ↦ (w, none_waits h refl)
]

module _ (n k : ℕ) (w : World) (inv : Inv n k w) where
  caller_in : (c : ℕ) → w.accepting ≡ holding c → CanMove n w
  caller_in c at = elim (Bool-cases (is_full w.server)) [
    | inl full ↦ (_, wait_full c at full refl, tt)
    | inr room ↦
        let (u, h) = signalled n w.workers (is_empty w.server) in
        (_, enqueue c u at room h refl, tt)
  ]

  worker_in : (i : ℕ) → i < n → w.workers i ≡ inside → CanMove n w
  worker_in i lt at = elim (Bool-cases (is_empty w.server)) [
    | inl nothing ↦ (_, wait_empty i lt at nothing refl, tt)
    | inr some_wait ↦ (_, dequeue i lt at some_wait refl, tt)
  ]

  worker_free :
      (i : ℕ) (x : Worker) → i < n → w.lock ≡ nobody → w.workers i ≡ x → x ≢ asleep → Goes n w
  worker_free i ready lt free at ne = inr (_, lock_worker i lt at free refl, tt)
  worker_free i inside lt free at ne = inr (worker_in i lt at)
  worker_free i asleep lt free at ne = absurd (ne refl)
  worker_free i (serving c) lt free at ne = inl (i, lt, c, at)

  some_waits : w.lock ≡ nobody → 0 < inv.waits → Goes n w
  some_waits free lt =
      let (i, inside_n, ne) = inv.awake lt in worker_free i (w.workers i) inside_n free refl ne

  caller_free : (p : Caller) → 0 < k → w.lock ≡ nobody → w.accepting ≡ p → p ≢ away → Goes n w
  caller_free away pos free at ne = absurd (ne refl)
  caller_free (asking c) pos free at ne = inr (_, lock_caller c at free refl, tt)
  caller_free (holding c) pos free at ne = inr (caller_in c at)
  caller_free (blocked c) pos free at ne = some_waits free (omega (arith, inv.full c at, inv.bound))

  lock_moves :
      (l : Holder)
      → w.lock ≡ l
      → Held n l w.accepting w.workers
      → 0 < k
      → (0 < inv.waits) ⊎ (w.accepting ≢ away)
      → Goes n w
  lock_moves caller e (c, at) pos h = inr (caller_in c at)
  lock_moves (worker i) e (lt, at) pos h = inr (worker_in i lt at)
  lock_moves nobody e t pos (inl lt) = some_waits e lt
  lock_moves nobody e t pos (inr ne) = caller_free w.accepting pos e refl ne

-- No deadlock of the lock and the two waits, with at least one worker and room for one request:
-- whatever the order of steps, while a request waits or the accepting thread has one to put, some
-- worker is in `do_server_request`, or some thread can make a step that takes no new connection, no
-- wakeup without a signal and no return of `do_server_request`. So it is never so that all threads
-- wait in the buffer.
pub no_deadlock :
    (n k : ℕ) (w : World)
    → 0 < n
    → 0 < k
    → Reach n k w
    → (0 < distance w.server) ⊎ (w.accepting ≢ away)
    → Goes n w
no_deadlock n k w pos room r h =
    let inv = Reach-Inv n k pos w r in
    lock_moves n k w inv w.lock refl inv.held room (waits_or inv h)
  where
    waits_or :
        (inv : Inv n k w)
        → (0 < distance w.server) ⊎ (w.accepting ≢ away)
        → (0 < inv.waits) ⊎ (w.accepting ≢ away)
    waits_or inv (inl lt) =
        inl (omega (arith, distance-Holds w.server (length w.taken) inv.waits inv.holds))
    waits_or inv (inr ne) = inr ne

abbrev pub Unused : World → Type 0
Unused w = (w.accepted ≡ []) × (w.taken ≡ [])

-- With worker threads and `max_requests` 0 no connection is ever put in the buffer, whatever the
-- order of steps: every call of `server_request` waits for good.
pub nothing_accepted : (n : ℕ) (w : World) → 0 < n → Reach n 0 w → Unused w
nothing_accepted n w pos here = (refl, refl)
nothing_accepted n v pos (next {w} r s) = step v s (nothing_accepted n w pos r)
  where
    inv : Inv n 0 w
    inv = Reach-Inv n 0 pos w r

    no_wait : inv.waits ≡ 0
    no_wait = omega (arith, inv.holds.bound, inv.bound)

    step : (v : World) → Step n w v → Unused w → Unused v
    step v (arrive c at e) h = subst Unused (sym e) h
    step v (lock_caller c at f e) h = subst Unused (sym e) h
    step v (wait_full c at f e) h = subst Unused (sym e) h
    step v (enqueue c u at room a e) h = absurd (
        ground
          (arith, is_full-Holds w.server (length w.taken) inv.waits inv.holds, no_wait, inv.bound))
    step v (spurious_caller c at e) h = subst Unused (sym e) h
    step v (lock_worker i lt at f e) h = subst Unused (sym e) h
    step v (wait_empty i lt at f e) h = subst Unused (sym e) h
    step v (dequeue i lt at ne e) h =
        absurd
          (ground (arith, is_empty-Holds w.server (length w.taken) inv.waits inv.holds, no_wait))
    step v (spurious_worker i lt at e) h = subst Unused (sym e) h
    step v (served i c lt at e) h = subst Unused (sym e) h
