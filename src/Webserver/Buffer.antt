-- ===== src/Webserver/Buffer.antt =====
-- webserver/server_thread.c: the bounded buffer of connections and the threads at its two ends, one
-- that calls `server_request` and `nr_threads` workers in `stub_func`. What a thread does while it
-- has the lock is one step, up to the wait or the unlock at its end. A thread that wakes from
-- `pthread_cond_wait` takes the lock again and makes its test again, so it is where a thread that
-- comes for the first time is. A signal wakes one thread that waits, if there is one, and a wait may
-- also end without a signal.
pub mod Invariant
pub mod Steps
pub mod Safety
pub mod Ring
use ece344lab.Common.{
  ℕ, ◌+◌, ◌-◌, ◌%◌, ◌<◌, ◌≡◌, ◌≢◌, Bool, true, false, List, [], ◌∷◌, ◌++◌, Option, none, some, ltb,
  ◌==◌, if◌then◌else◌,
}
use ece344lab.Common.Memory.{update}

-- The part of `struct server` that its lock guards, with `in` and `out`, and its bound.
pub record Server : Type 0 where
  pub max_requests : ℕ
  pub buf : ℕ → ℕ
  pub in_at : ℕ
  pub out_at : ℕ

-- `max_requests + 1`, which `malloc` and the remainders use; it fits an `int`.
abbrev pub slots : Server → ℕ
slots s = s.max_requests + 1

-- `(in - out + (max_requests + 1)) % (max_requests + 1)`: `out` is below the divisor.
abbrev pub distance : Server → ℕ
distance s = (s.in_at + slots s - s.out_at) % slots s

abbrev pub is_full : Server → Bool
is_full s = distance s == s.max_requests

abbrev pub is_empty : Server → Bool
is_empty s = s.in_at == s.out_at

-- `buf[in] = connfd` and the step of `in`.
abbrev pub put : ℕ → Server → Server
put connfd s = record s { buf = update s.buf s.in_at connfd; in_at = (s.in_at + 1) % slots s }

-- `msg = buf[out]` and the step of `out`.
abbrev pub message : Server → ℕ
message s = s.buf s.out_at

abbrev pub take : Server → Server
take s = record s { out_at = (s.out_at + 1) % slots s }

-- `server_init`, as far as the buffer goes
abbrev pub server_init : ℕ → Server
server_init max_requests = record {
  max_requests = max_requests;
  buf = λ i. 0;
  in_at = 0;
  out_at = 0;
}

-- Where the accepting thread is: not in `server_request`, at its lock, past it, or in the wait.
pub data Caller : Type 0 where
  away : Caller
  asking : ℕ → Caller
  holding : ℕ → Caller
  blocked : ℕ → Caller

-- Where a worker is: at the lock, past it, in the wait, or in `do_server_request`.
pub data Worker : Type 0 where
  ready : Worker
  inside : Worker
  asleep : Worker
  serving : ℕ → Worker

-- Who has the lock.
pub data Holder : Type 0 where
  nobody : Holder
  caller : Holder
  worker : ℕ → Holder

-- The threads and the buffer. `accepted` and `taken` record the connections put and taken so far.
pub record World : Type 0 where
  pub server : Server
  pub lock : Holder
  pub accepting : Caller
  pub workers : ℕ → Worker
  pub accepted : List ℕ
  pub taken : List ℕ

-- `pthread_cond_signal(cv_empty)`: one of the workers that wait goes on, if any waits.
pub data Signalled (n : ℕ) (w v : ℕ → Worker) : Type 0 where
  none_waits : ((i : ℕ) → i < n → w i ≢ asleep) → v ≡ w → Signalled n w v
  one_wakes : (i : ℕ) → i < n → w i ≡ asleep → v ≡ update w i ready → Signalled n w v

-- The workers after a `put`: `cv_empty` is signalled if the buffer was empty.
abbrev pub AfterPut : ℕ → Bool → (ℕ → Worker) → (ℕ → Worker) → Type 0
AfterPut n true w v = Signalled n w v
AfterPut n false w v = v ≡ w

-- The accepting thread after a `take`: `cv_full` is signalled if the buffer was full.
abbrev pub wake_caller : Caller → Caller
wake_caller (blocked c) = asking c
wake_caller away = away
wake_caller (asking c) = asking c
wake_caller (holding c) = holding c

abbrev pub after_take : Bool → Caller → Caller
after_take true p = wake_caller p
after_take false p = p

-- One step of one of the threads, of `n` workers. `served` is the return of `do_server_request`: it
-- can come at any time, or never, as where `request_init` hangs.
pub data Step (n : ℕ) (w v : World) : Type 0 where
  arrive : (c : ℕ) → w.accepting ≡ away → v ≡ record w { accepting = asking c } → Step n w v
  lock_caller :
      (c : ℕ)
      → w.accepting ≡ asking c
      → w.lock ≡ nobody
      → v ≡ record w { accepting = holding c; lock = caller }
      → Step n w v
  wait_full :
      (c : ℕ)
      → w.accepting ≡ holding c
      → is_full w.server ≡ true
      → v ≡ record w { accepting = blocked c; lock = nobody }
      → Step n w v
  enqueue :
      (c : ℕ) (u : ℕ → Worker)
      → w.accepting ≡ holding c
      → is_full w.server ≡ false
      → AfterPut n (is_empty w.server) w.workers u
      → v ≡ record w {
        server = put c w.server;
        lock = nobody;
        accepting = away;
        workers = u;
        accepted = w.accepted ++ (c ∷ []);
      }
      → Step n w v
  spurious_caller :
      (c : ℕ) → w.accepting ≡ blocked c → v ≡ record w { accepting = asking c } → Step n w v
  lock_worker :
      (i : ℕ)
      → i < n
      → w.workers i ≡ ready
      → w.lock ≡ nobody
      → v ≡ record w { workers = update w.workers i inside; lock = worker i }
      → Step n w v
  wait_empty :
      (i : ℕ)
      → i < n
      → w.workers i ≡ inside
      → is_empty w.server ≡ true
      → v ≡ record w { workers = update w.workers i asleep; lock = nobody }
      → Step n w v
  dequeue :
      (i : ℕ)
      → i < n
      → w.workers i ≡ inside
      → is_empty w.server ≡ false
      → v ≡ record w {
        server = take w.server;
        lock = nobody;
        accepting = after_take (is_full w.server) w.accepting;
        workers = update w.workers i (serving (message w.server));
        taken = w.taken ++ (message w.server ∷ []);
      }
      → Step n w v
  spurious_worker :
      (i : ℕ)
      → i < n
      → w.workers i ≡ asleep
      → v ≡ record w { workers = update w.workers i ready }
      → Step n w v
  served :
      (i c : ℕ)
      → i < n
      → w.workers i ≡ serving c
      → v ≡ record w { workers = update w.workers i ready }
      → Step n w v

abbrev pub start : ℕ → World
start max_requests = record {
  server = server_init max_requests;
  lock = nobody;
  accepting = away;
  workers = λ i. ready;
  accepted = [];
  taken = [];
}

-- What `n` workers and the accepting thread can come to.
pub data Reach (n max_requests : ℕ) : World → Type 0 where
  here : Reach n max_requests (start max_requests)
  next : {w v : World} → Reach n max_requests w → Step n w v → Reach n max_requests v
