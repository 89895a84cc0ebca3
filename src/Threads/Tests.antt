-- ===== src/Threads/Tests.antt =====
-- The theorems on threads/thread.c at a system of four threads.
use ece344lab.Common.{
  ℕ, ◌≡◌, ◌≢◌, ◌++◌, refl, true, false, arith, [], ◌∷◌, none, some, ◌==◌, if◌then◌else◌, ltb,
}
use ece344lab.Threads.Lock.{
  Locked, trying, queued, holding, lock_create, go_to, acquire_round, lock_release, Run, start,
  then_step, ask, round,
}
use ece344lab.Threads.Lock.Exclusion.{lock_exclusion}
use ece344lab.Threads.{System, new_state, thread_wakeup, thread_create}
use ece344lab.Threads.Wait.{Waiting, WakesAll, wakeup-WakesAll, WakesOne, wakeup-WakesOne}
use ece344lab.Common.Int.{negsuc}
use ece344lab.Common.Action.{ok, continue}
use ece344lab.Threads.Chains.{Chain, Apart}
use ece344lab.Threads.Switch.{switched, Machine, returned, jumped, thread_at}
use ece344lab.Threads.Calls.{thread_yield, settle}
use ece344lab.Threads.Calls.Yield.{CanYield}
use ece344lab.Threads.Calls.Resume.{thread_yield-Switches}
use ece344lab.Threads.Calls.Flagged.{thread_yield-Flagged}
use ece344lab.Threads.Create.{Spawns, create-Spawns}

-- Thread 0 runs, thread 1 is ready, and threads 2 and 3 wait in queue 9.
abbrev four : System
four = record {
  ready_head = some 1;
  running_thread = some 0;
  thread_id_array = λ i. ltb i 4;
  interrupts = true;
  threads = λ a. record {
    tid = a;
    state = new_state;
    next = if a == 2 then some 3 else none;
    flag = false;
    entry = (0, 0);
  };
  queues = λ q.
      if q == 9
      then record { wait_head = some 2; size = 2 }
      else record { wait_head = none; size = 0 };
  brk = 10;
}

four-Waiting : Waiting four 9 (1 ∷ []) (2 ∷ (3 ∷ []))
four-Waiting = record {
  ready_chain = (refl, refl);
  wait_chain = (refl, (refl, refl));
  distinct = ((omega arith, (omega arith, tt)), ((omega arith, tt), (tt, tt)));
  walk = omega arith;
  counted = omega arith;
}

four_wake : WakesAll four 9 (1 ∷ []) (2 ∷ (3 ∷ [])) (thread_wakeup (some 9) 1 four)
four_wake = wakeup-WakesAll four 9 (1 ∷ []) (2 ∷ (3 ∷ [])) four-Waiting

wakeup-WakesOne_example : WakesOne four 9 (1 ∷ []) (2 ∷ (3 ∷ [])) (thread_wakeup (some 9) 0 four)
wakeup-WakesOne_example = wakeup-WakesOne four 9 (1 ∷ []) (2 ∷ (3 ∷ [])) four-Waiting

create-Spawns_example : Spawns four (1 ∷ []) 77 5 (thread_create true true 77 5 four)
create-Spawns_example =
    create-Spawns four (1 ∷ []) 77 5 (record {
      chain = (refl, refl);
      distinct = ((omega arith, tt), (tt, tt));
      walk = omega arith;
    })

-- Thread 1 has yielded to thread 0 with signals on.
abbrev suspended_1 : Machine
suspended_1 = record {
  system = four;
  to_delete_thread = none;
  contexts = λ x. if x == 1 then some (switched true 0 0) else none;
  freed = λ x. false;
}

suspended_1-CanYield : CanYield suspended_1 0 1 []
suspended_1-CanYield = record {
  runs = refl;
  chain = (refl, refl);
  distinct = ((omega arith, tt), (tt, tt));
  walk = omega arith;
  alone = refl;
  none_deleted = refl;
  waits = refl;
  alive = refl;
  has_id = refl;
}

thread_yield-Switches_example :
    (v : Machine) × (continue (settle 1) (thread_yield (negsuc 0) suspended_1) ≡ ok (returned 0) v)
    × (v.system.running_thread ≡ some 1)
    × Chain v.system.threads v.system.ready_head ([] ++ (0 ∷ []))
    × (v.system.interrupts ≡ true)
    × ((thread_at v 0).state ≡ new_state)
    × (v.contexts 0 ≡ some (switched true 1 1))
    × ((b : ℕ) → b ≢ 0 → v.contexts b ≡ suspended_1.contexts b)
    × (v.system.thread_id_array ≡ four.thread_id_array)
thread_yield-Switches_example =
    thread_yield-Switches suspended_1 0 1 [] suspended_1-CanYield (some (switched true 0 0)) refl
      refl (refl, refl, refl)

-- Thread 0 runs with its flag set, and threads 1 and 2 are ready.
abbrev killed : Machine
killed = record suspended_1 {
  system = record four {
    threads = λ a. record {
      tid = a;
      state = new_state;
      next = if a == 1 then some 2 else none;
      flag = a == 0;
      entry = (0, 0);
    };
  };
}

killed-CanYield : CanYield killed 0 1 (2 ∷ [])
killed-CanYield = record {
  runs = refl;
  chain = (refl, (refl, refl));
  distinct = ((omega arith, (omega arith, tt)), ((omega arith, tt), (tt, tt)));
  walk = omega arith;
  alone = refl;
  none_deleted = refl;
  waits = refl;
  alive = refl;
  has_id = refl;
}

thread_yield-Flagged_example :
    (v : Machine) × (thread_yield (negsuc 0) killed ≡ ok (jumped 2) v)
    × (v.system.running_thread ≡ some 2)
    × Chain v.system.threads v.system.ready_head ([] ++ (0 ∷ []))
    × (v.to_delete_thread ≡ some 0)
    × (v.system.thread_id_array 0 ≡ false)
    × (◌≢◌ {A = ℕ} 2 1)
    × Apart 1 ([] ++ (0 ∷ []))
thread_yield-Flagged_example = thread_yield-Flagged killed 0 1 2 [] killed-CanYield refl

-- Thread 0 has the lock, and thread 1 sleeps for it.
abbrev contended : Locked
contended =
    acquire_round 1 true (go_to 1 trying (acquire_round 0 true (go_to 0 trying lock_create)))

contended-Run : Run contended
unfolding acquire_round
contended-Run =
    then_step
      (then_step (then_step (then_step start (ask 0 refl)) (round 0 true refl)) (ask 1 refl))
      (round 1 true refl)

lock_exclusion_example :
    ((i j : ℕ) → contended.places i ≡ holding → contended.places j ≡ holding → i ≡ j)
    × ((i : ℕ)
        → contended.places i ≡ queued
        → (contended.lock_state ≡ 1) × ((lock_release contended).places i ≡ trying))
lock_exclusion_example = lock_exclusion contended contended-Run
