-- ===== src/Webserver/Buffer/Steps.antt =====
-- Each step of the threads of webserver/server_thread.c keeps what holds before it.
use ece344lab.Common.{ℕ, ◌<◌, ◌≡◌, ◌≢◌, refl, sym, ap, subst, ◌∙◌, arith, length, ℕ_discrete}
use ece344lab.Common.Memory.{update}
use ece344lab.Webserver.Buffer.{
  Caller, asking, holding, blocked, Worker, ready, inside, asleep, Holder, nobody, caller, worker,
  World, Step, arrive, lock_caller, wait_full, enqueue, spurious_caller, lock_worker, wait_empty,
  dequeue, spurious_worker, served, Reach, here, next,
}
use ece344lab.Webserver.Buffer.Ring.{is_full-Holds}
use ece344lab.Webserver.Buffer.Invariant.{
  Held, Inv, start-Inv, enqueue-Inv, dequeue-Inv, one_waits, none_waiting,
}

module _ (n k : ℕ) (some_worker : 0 < n) (w : World) (inv : Inv n k w) where
  abbrev b : ℕ
  b = length w.taken

  -- Another state of the threads with the same buffer.
  same_buffer :
      (l : Holder) (p : Caller) (u : ℕ → Worker)
      → ((c : ℕ) → p ≡ holding c → l ≡ caller)
      → ((i : ℕ) → u i ≡ inside → l ≡ worker i)
      → Held n l p u
      → (0 < inv.waits → (i : ℕ) × (i < n) × (u i ≢ asleep))
      → ((c : ℕ) → p ≡ blocked c → inv.waits ≡ w.server.max_requests)
      → Inv n k (record w { lock = l; accepting = p; workers = u })
  same_buffer l p u a1 a2 h a3 a4 = record {
    waits = inv.waits;
    bound = inv.bound;
    holds = inv.holds;
    order = inv.order;
    caller_has = a1;
    worker_has = a2;
    held = h;
    awake = a3;
    full = a4;
  }

  -- A worker that was awake and has moved on is still awake.
  kept_awake :
      (i : ℕ) (x : Worker)
      → i < n
      → x ≢ asleep
      → 0 < inv.waits
      → (j : ℕ) × (j < n) × (update w.workers i x j ≢ asleep)
  kept_awake i x lt ne some_wait = (i, lt, λ e. ne (ground arith))

  -- A thread that is not past the lock moves.
  caller_moves :
      (l : Holder) (p : Caller)
      → w.lock ≡ l
      → ((c : ℕ) → w.accepting ≢ holding c)
      → Held n l p w.workers
  caller_moves nobody p e ne = tt
  caller_moves caller p e ne =
      let (c, at) = subst (λ x. Held n x w.accepting w.workers) e inv.held in absurd (ne c at)
  caller_moves (worker i) p e ne = subst (λ x. Held n x w.accepting w.workers) e inv.held

  worker_moves :
      (l : Holder) (i : ℕ) (x : Worker)
      → w.lock ≡ l
      → w.workers i ≢ inside
      → Held n l w.accepting (update w.workers i x)
  worker_moves nobody i x e ne = tt
  worker_moves caller i x e ne = subst (λ y. Held n y w.accepting w.workers) e inv.held
  worker_moves (worker j) i x e ne =
      let (lt, at) = subst (λ y. Held n y w.accepting w.workers) e inv.held in
      (lt, other (ℕ_discrete i j) at)
    where
      other : Dec (i ≡ j) → w.workers j ≡ inside → update w.workers i x j ≡ inside
      other (yes same) at = absurd (ne (ap w.workers same ∙ at))
      other (no ne) at = ground arith

  Step-Inv : (v : World) → Step n w v → Inv n k v
  Step-Inv v (arrive c at e) = subst (Inv n k) (sym e) (
      same_buffer w.lock (asking c) w.workers (λ x h. ground arith) inv.worker_has
        (caller_moves w.lock (asking c) refl (λ x h. ground arith)) inv.awake (λ x h. ground arith))
  Step-Inv v (lock_caller c at free e) = subst (Inv n k) (sym e) (
      same_buffer caller (holding c) w.workers (λ x h. refl)
        (λ i h. ground (arith, inv.worker_has i h)) (c, refl) inv.awake (λ x h. ground arith))
  Step-Inv v (wait_full c at f e) = subst (Inv n k) (sym e) (
      same_buffer nobody (blocked c) w.workers (λ x h. ground arith)
        (λ i h. ground (arith, inv.worker_has i h, inv.caller_has c at)) tt inv.awake
        (λ x h. ground (arith, is_full-Holds w.server b inv.waits inv.holds)))
  Step-Inv v (enqueue c u at room h e) =
      subst (Inv n k) (sym e) (enqueue-Inv n k some_worker w inv c u at room h)
  Step-Inv v (spurious_caller c at e) = subst (Inv n k) (sym e) (
      same_buffer w.lock (asking c) w.workers (λ x h. ground arith) inv.worker_has
        (caller_moves w.lock (asking c) refl (λ x h. ground arith)) inv.awake (λ x h. ground arith))
  Step-Inv v (lock_worker i lt at free e) = subst (Inv n k) (sym e) (
      same_buffer (worker i) w.accepting (update w.workers i inside)
        (λ x h. ground (arith, inv.caller_has x h)) (λ j h. ground (arith, inv.worker_has j))
        (lt, ground arith) (kept_awake i inside lt (λ x. ground arith)) inv.full)
  Step-Inv v (wait_empty i lt at em e) = subst (Inv n k) (sym e) (
      same_buffer nobody w.accepting (update w.workers i asleep)
        (λ x h. ground (arith, inv.caller_has x h, inv.worker_has i at))
        (λ j h. ground (arith, inv.worker_has j, inv.worker_has i at)) tt
        (λ some_wait. absurd (omega (arith, none_waiting n k some_worker w inv em))) inv.full)
  Step-Inv v (dequeue i lt at ne e) = subst (Inv n k) (sym e) (
      let (m, some_wait) = one_waits n k some_worker w inv ne in
      dequeue-Inv n k some_worker w inv i m lt at some_wait)
  Step-Inv v (spurious_worker i lt at e) = subst (Inv n k) (sym e) (
      same_buffer w.lock w.accepting (update w.workers i ready) inv.caller_has
        (λ j h. ground (arith, inv.worker_has j))
        (worker_moves w.lock i ready refl (λ h. ground arith))
        (kept_awake i ready lt (λ x. ground arith)) inv.full)
  Step-Inv v (served i c lt at e) = subst (Inv n k) (sym e) (
      same_buffer w.lock w.accepting (update w.workers i ready) inv.caller_has
        (λ j h. ground (arith, inv.worker_has j))
        (worker_moves w.lock i ready refl (λ h. ground arith))
        (kept_awake i ready lt (λ x. ground arith)) inv.full)

pub Reach-Inv : (n k : ℕ) → 0 < n → (w : World) → Reach n k w → Inv n k w
Reach-Inv n k pos w here = start-Inv n k
Reach-Inv n k pos v (next {w} r s) = Step-Inv n k pos w (Reach-Inv n k pos w r) v s
