-- ===== src/Webserver/Buffer/Invariant.antt =====
-- What holds in every state that the threads of webserver/server_thread.c can come to.
use ece344lab.Common.{
  ℕ, suc, ◌+◌, ◌-◌, ◌<◌, ◌≡◌, ◌≢◌, refl, sym, ap, subst, ◌∙◌, Bool, true, false, List, [], ◌∷◌,
  ◌++◌, arith, length,
}
use mathlib.Core.List.{append_assoc}
use ece344lab.Common.Memory.{update}
use ece344lab.Webserver.Buffer.{
  is_full, is_empty, put, take, message, Caller, away, asking, holding, blocked, Worker, inside,
  asleep, serving, Holder, nobody, caller, worker, World, none_waits, one_wakes, AfterPut,
  after_take, start,
}
use ece344lab.Webserver.Buffer.Ring.{
  pending, Holds, waiting, is_full-Holds, is_empty-Holds, put-Holds, put-waiting, take-Holds,
  take-waiting,
}

-- Who the lock says has it is past it.
abbrev pub Held : ℕ → Holder → Caller → (ℕ → Worker) → Type 0
Held n nobody p u = Unit {0}
Held n caller p u = (c : ℕ) × (p ≡ holding c)
Held n (worker i) p u = (i < n) × (u i ≡ inside)

-- `waits` requests wait; those accepted are those taken and those that wait, in order. Whoever is
-- past the lock has it. While a request waits some worker is awake, and while the caller is blocked
-- the buffer is full.
pub record Inv (n max_requests : ℕ) (w : World) : Type 0 where
  pub waits : ℕ
  pub bound : w.server.max_requests ≡ max_requests
  pub holds : Holds w.server (length w.taken) waits
  pub order : w.accepted ≡ w.taken ++ waiting w.server (length w.taken) waits
  pub caller_has : (c : ℕ) → w.accepting ≡ holding c → w.lock ≡ caller
  pub worker_has : (i : ℕ) → w.workers i ≡ inside → w.lock ≡ worker i
  pub held : Held n w.lock w.accepting w.workers
  pub awake : 0 < waits → (i : ℕ) × (i < n) × (w.workers i ≢ asleep)
  pub full : (c : ℕ) → w.accepting ≡ blocked c → waits ≡ w.server.max_requests

length-snoc : (xs : List ℕ) (x : ℕ) → length (xs ++ (x ∷ [])) ≡ length xs + 1
length-snoc [] x = refl
length-snoc (y ∷ xs) x = omega (arith, length-snoc xs x)

after_take-holding : (f : Bool) (p : Caller) (c : ℕ) → after_take f p ≡ holding c → p ≡ holding c
after_take-holding true away c e = e
after_take-holding true (asking x) c e = e
after_take-holding true (holding x) c e = e
after_take-holding true (blocked x) c e = ground arith
after_take-holding false p c e = e

after_take-blocked :
    (f : Bool) (p : Caller) (c : ℕ) → after_take f p ≡ blocked c → (f ≡ false) × (p ≡ blocked c)
after_take-blocked true away c e = ground arith
after_take-blocked true (asking x) c e = ground arith
after_take-blocked true (holding x) c e = ground arith
after_take-blocked true (blocked x) c e = ground arith
after_take-blocked false p c e = (refl, e)

pub start-Inv : (n k : ℕ) → Inv n k (start k)
unfolding pending
start-Inv n k = record {
  waits = 0;
  bound = refl;
  holds = record { bound = omega arith; in_is = ground arith; out_is = ground arith };
  order = refl;
  caller_has = λ c e. ground arith;
  worker_has = λ i e. ground arith;
  held = tt;
  awake = λ lt. absurd (omega arith);
  full = λ c e. ground arith;
}

module _ (n k : ℕ) (some_worker : 0 < n) (w : World) (inv : Inv n k w) where
  abbrev b : ℕ
  b = length w.taken

  -- A worker that is not asleep after a `put`.
  woken :
      (e : Bool) (u : ℕ → Worker)
      → is_empty w.server ≡ e
      → AfterPut n e w.workers u
      → (i : ℕ) × (i < n) × (u i ≢ asleep)
  woken true u e (none_waits h same) =
      (0, some_worker, λ x. h 0 some_worker (sym (ap (λ f. f 0) same) ∙ x))
  woken true u e (one_wakes i lt h same) = (i, lt, λ x. ground (arith, ap (λ f. f i) same))
  woken false u e same =
      let (i, lt, h) = inv.awake (ground (arith, is_empty-Holds w.server b inv.waits inv.holds)) in
      (i, lt, λ x. h (sym (ap (λ f. f i) same) ∙ x))

  -- The workers after a `put`: none comes to be past the lock.
  still :
      (e : Bool) (u : ℕ → Worker)
      → AfterPut n e w.workers u
      → (i : ℕ) → u i ≡ inside
      → w.workers i ≡ inside
  still true u (none_waits h same) i x = sym (ap (λ f. f i) same) ∙ x
  still true u (one_wakes j lt h same) i x = ground (arith, ap (λ f. f i) same)
  still false u same i x = sym (ap (λ f. f i) same) ∙ x

  pub enqueue-Inv :
      (c : ℕ) (u : ℕ → Worker)
      → w.accepting ≡ holding c
      → is_full w.server ≡ false
      → AfterPut n (is_empty w.server) w.workers u
      → Inv n k (record w {
        server = put c w.server;
        lock = nobody;
        accepting = away;
        workers = u;
        accepted = w.accepted ++ (c ∷ []);
      })
  enqueue-Inv c u at room h = record {
    waits = suc inv.waits;
    bound = inv.bound;
    holds = put-Holds w.server b inv.waits inv.holds c below;
    order =
        ap (λ l. l ++ (c ∷ [])) inv.order
        ∙ append_assoc w.taken (waiting w.server b inv.waits) (c ∷ [])
        ∙ ap (λ l. w.taken ++ l) (sym (put-waiting w.server b inv.waits inv.holds c below));
    caller_has = λ x e. ground arith;
    worker_has = λ i e.
        ground (arith, inv.worker_has i (still (is_empty w.server) u h i e), inv.caller_has c at);
    held = tt;
    awake = λ lt. woken (is_empty w.server) u refl h;
    full = λ x e. ground arith;
  }
    where
      below : inv.waits < w.server.max_requests
      below = ground (arith, is_full-Holds w.server b inv.waits inv.holds, inv.holds.bound)

  pub dequeue-Inv :
      (i m : ℕ)
      → i < n
      → w.workers i ≡ inside
      → inv.waits ≡ suc m
      → Inv n k (record w {
        server = take w.server;
        lock = nobody;
        accepting = after_take (is_full w.server) w.accepting;
        workers = update w.workers i (serving (message w.server));
        taken = w.taken ++ (message w.server ∷ []);
      })
  dequeue-Inv i m lt at some_wait = record {
    waits = m;
    bound = inv.bound;
    holds =
        subst (λ l. Holds (take w.server) l m) (sym (length-snoc w.taken (message w.server)))
          (take-Holds w.server b m held);
    order =
        inv.order
        ∙ ap (λ x. w.taken ++ waiting w.server b x) some_wait
        ∙ ap (λ l. w.taken ++ l) (take-waiting w.server b m held)
        ∙ sym (append_assoc w.taken (message w.server ∷ []) (waiting (take w.server) (b + 1) m))
        ∙ ap (λ l. (w.taken ++ (message w.server ∷ [])) ++ waiting (take w.server) l m)
            (sym (length-snoc w.taken (message w.server)));
    caller_has = λ c e. caller_out (is_full w.server) c e;
    worker_has = λ j e. worker_out j e;
    held = tt;
    awake = λ lt'. (i, lt, λ e. ground arith);
    full = λ c e. caller_full c e;
  }
    where
      held : Holds w.server b (suc m)
      held = subst (Holds w.server b) some_wait inv.holds

      caller_out : (f : Bool) (c : ℕ) → after_take f w.accepting ≡ holding c → nobody ≡ caller
      caller_out f c e =
          ground
            (arith, inv.caller_has c (after_take-holding f w.accepting c e), inv.worker_has i at)

      worker_out :
          (j : ℕ) → update w.workers i (serving (message w.server)) j ≡ inside → nobody ≡ worker j
      worker_out j e = ground (arith, inv.worker_has i at, inv.worker_has j)

      caller_full :
          (c : ℕ)
          → after_take (is_full w.server) w.accepting ≡ blocked c
          → m ≡ w.server.max_requests
      caller_full c e =
          let (f, p) = after_take-blocked (is_full w.server) w.accepting c e in
          ground (arith, inv.full c p, is_full-Holds w.server b inv.waits inv.holds)

  -- A worker past the lock that finds the buffer not empty.
  pub one_waits : is_empty w.server ≡ false → (m : ℕ) × (inv.waits ≡ suc m)
  one_waits e = (inv.waits - 1, ground (arith, is_empty-Holds w.server b inv.waits inv.holds))

  -- A worker that waits finds the buffer empty, so nothing waits for the others.
  pub none_waiting : is_empty w.server ≡ true → inv.waits ≡ 0
  none_waiting e = ground (arith, is_empty-Holds w.server b inv.waits inv.holds)
