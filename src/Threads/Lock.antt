-- ===== src/Threads/Lock.antt =====
-- The locks and condition variables of threads/thread.c. One thread runs at a time, and another one
-- may go on wherever signals are on or a thread sleeps; what happens between two such places is one
-- step. A wait queue is the list of its threads, and a thread that is woken is ready. `malloc`
-- succeeds.
pub mod Moves
pub mod Exclusion
use ece344lab.Common.{
  ℕ, zero, suc, ◌≡◌, ◌≢◌, Bool, true, false, List, [], ◌∷◌, ◌++◌, ◌==◌, if◌then◌else◌,
}
use ece344lab.Common.Memory.{update}

-- Where a thread is: in neither; in the loop of `lock_acquire`; asleep in the queue of the lock; past
-- `lock_acquire`; in `cv_wait` behind `lock_release`; asleep in the queue of the variable.
pub data Place : Type 0 where
  outside : Place
  trying : Place
  queued : Place
  holding : Place
  let_go : Place
  waiting : Place

-- `struct lock`, the queue of `struct cv`, and the threads.
pub record Locked : Type 0 where
  pub lock_state : ℕ
  pub queue : List ℕ
  pub cv_queue : List ℕ
  pub places : ℕ → Place

abbrev pub lock_create : Locked
lock_create = record { lock_state = 0; queue = []; cv_queue = []; places = λ i. outside }

abbrev pub go_to : ℕ → Place → Locked → Locked
go_to i p w = record w { places = update w.places i p }

-- One round of the loop of `lock_acquire` by a thread. With no ready thread `thread_sleep` returns at
-- once, and the loop goes on.
unfoldable pub acquire_round : ℕ → Bool → Locked → Locked
acquire_round i others w =
    if w.lock_state == 1
    then (if others
        then record w { queue = w.queue ++ (i ∷ []); places = update w.places i queued }
        else w)
    else record w { lock_state = 1; places = update w.places i holding }

-- `thread_wakeup` of all threads of a queue: each goes back into the loop of `lock_acquire`.
unfoldable pub wake_all : List ℕ → (ℕ → Place) → ℕ → Place
wake_all [] places = places
wake_all (i ∷ l) places = wake_all l (update places i trying)

unfoldable pub lock_release : Locked → Locked
unfolding wake_all
lock_release w = record w { lock_state = 0; queue = []; places = wake_all w.queue w.places }

-- `cv_signal`
abbrev pub wake_first : List ℕ → Locked → Locked
wake_first [] w = w
wake_first (i ∷ l) w = record w { cv_queue = l; places = update w.places i trying }

unfoldable pub cv_signal : Locked → Locked
cv_signal w = wake_first w.cv_queue w

unfoldable pub cv_broadcast : Locked → Locked
unfolding wake_all
cv_broadcast w = record w { cv_queue = []; places = wake_all w.cv_queue w.places }

-- The sleep of `cv_wait`, which with no ready thread returns at once.
unfoldable pub cv_sleep : ℕ → Bool → Locked → Locked
cv_sleep i others w =
    if others
    then record w { cv_queue = w.cv_queue ++ (i ∷ []); places = update w.places i waiting }
    else go_to i trying w

-- The steps of threads that release, wait and signal only with the lock.
pub data Step : Locked → Locked → Type 0 where
  ask : {w : Locked} (i : ℕ) → w.places i ≡ outside → Step w (go_to i trying w)
  round :
      {w : Locked} (i : ℕ) (others : Bool) → w.places i ≡ trying → Step w (acquire_round i others w)
  release : {w : Locked} (i : ℕ) → w.places i ≡ holding → Step w (lock_release (go_to i outside w))
  wait : {w : Locked} (i : ℕ) → w.places i ≡ holding → Step w (lock_release (go_to i let_go w))
  sleep : {w : Locked} (i : ℕ) (others : Bool) → w.places i ≡ let_go → Step w (cv_sleep i others w)
  signal : {w : Locked} (i : ℕ) → w.places i ≡ holding → Step w (cv_signal w)
  broadcast : {w : Locked} (i : ℕ) → w.places i ≡ holding → Step w (cv_broadcast w)

-- What a lock that is made can come to.
pub data Run : Locked → Type 0 where
  start : Run lock_create
  then_step : {w v : Locked} → Run w → Step w v → Run v
