-- ===== src/Threads.antt =====
mod Tests
pub mod Create
pub mod Switch
pub mod Calls
pub mod Wait
pub mod Lock
pub mod Chains
-- threads/thread.c: the ready list and wait queues as linked lists of threads in a store, and the
-- functions that do not switch to another thread. An address of a `struct thread` is a number. A
-- walk along `next` pointers runs on fuel, one round for each address in use, and ends in fault
-- without it, as for a list that closes on itself, or at NULL. The registers that a context is given
-- are `entry`.
use ece344lab.Common.{
  ℕ, zero, suc, ◌+◌, ◌-◌, ◌*◌, ◌%◌, ◌^◌, Bool, true, false, not, Option, none, some, ltb, ◌==◌,
  if◌then◌else◌,
}
use ece344lab.Common.Memory.{update}
use ece344lab.Common.Int.{ℤ, pos, negsuc}
use ece344lab.Common.Action.{
  Outcome, Action, ok, err, abort, exited, fault, pure, fail, gets, modify, assert, ◌>>=◌, ◌>>◌,
}

-- `struct thread`, its stack and context aside
pub record Thread : Type 0 where
  pub tid : ℕ
  pub state : ℕ
  pub next : Option ℕ
  pub flag : Bool
  pub entry : ℕ × ℕ

-- `struct wait_queue`
pub record WaitQueue : Type 0 where
  pub wait_head : Option ℕ
  pub size : ℕ

-- `READY_HEAD`, `RUNNING_THREAD`, `thread_id_array`, the signal mask, and the store: threads and wait
-- queues by address, and the address that `malloc` returns next.
pub record System : Type 0 where
  pub ready_head : Option ℕ
  pub running_thread : Option ℕ
  pub thread_id_array : ℕ → Bool
  pub interrupts : Bool
  pub threads : ℕ → Thread
  pub queues : ℕ → WaitQueue
  pub brk : ℕ

abbrev pub thread_max_threads : ℕ
thread_max_threads = 1024

abbrev pub new_state : ℕ
new_state = 1

-- `THREAD_INVALID` to `THREAD_NOMEMORY`, as the negative results that they are
abbrev pub thread_invalid : ℕ
thread_invalid = 3

abbrev pub thread_nomore : ℕ
thread_nomore = 5

abbrev pub thread_nomemory : ℕ
thread_nomemory = 6

-- `interrupts_set`: sets the mask and returns what it was.
abbrev pub interrupts_set : Bool → Action System Bool
interrupts_set on s = ok s.interrupts (record s { interrupts = on })

-- The same call where its result is not used.
abbrev pub restore : Bool → Action System (Unit {0})
restore on s = ok tt (record s { interrupts = on })

abbrev pub set_next : ℕ → Option ℕ → System → System
set_next a n s = record s { threads = update s.threads a (record (s.threads a) { next = n }) }

-- The last thread of a list: `while (temp->next != NULL) temp = temp->next`.
unfoldable pub last_of : ℕ → (ℕ → Thread) → ℕ → Option ℕ
last_of zero threads a = none
last_of (suc fuel) threads a = elim ((threads a).next) [
  | none ↦ some a
  | some b ↦ last_of fuel threads b
]

abbrev pub link : Option ℕ → Option ℕ → Action System (Unit {0})
link none new_thread s = fault
link (some temp) new_thread s = ok tt (set_next temp new_thread s)

-- The list is empty, or its last thread is found.
abbrev pub insert_after : Option ℕ → Option ℕ → Action System (Unit {0})
insert_after none new_thread s = ok tt (record s { ready_head = new_thread })
insert_after (some head) new_thread s = link (last_of s.brk s.threads head) new_thread s

unfoldable pub insert_thread_to_ready : Option ℕ → Action System (Unit {0})
unfolding last_of
insert_thread_to_ready new_thread s = insert_after s.ready_head new_thread s

-- The first id of `n` from `i` that is free. The test after the loop is of an id that the loop has
-- seen in use.
unfoldable pub free_id : ℕ → ℕ → (ℕ → Bool) → Option ℕ
free_id zero i ids = none
free_id (suc n) i ids = let rest = free_id n (i + 1) ids in if ids i then rest else some i

abbrev pub got_id : Option ℕ → Action System ℕ
got_id none = fail thread_nomore
got_id (some i) = pure i

unfoldable pub assign_thread_id : Action System ℕ
unfolding free_id
assign_thread_id s = got_id (free_id thread_max_threads 0 s.thread_id_array) s

-- `malloc` of a thread.
abbrev pub put_thread : Thread → Action System ℕ
put_thread t s = ok s.brk (record s { threads = update s.threads s.brk t; brk = s.brk + 1 })

-- The two `malloc`s succeed or not as the arguments say. A return on an error leaves the mask as it
-- is then.
unfoldable pub thread_create : Bool → Bool → ℕ → ℕ → Action System ℕ
unfolding assign_thread_id insert_thread_to_ready
thread_create mem_thread mem_stack fn parg = do
  enabled ← interrupts_set false
  new_id ← assign_thread_id
  (if not mem_thread then fail thread_nomemory else (do
    a ←
        put_thread (record {
          tid = new_id;
          state = new_state;
          next = none;
          flag = false;
          entry = (fn, parg);
        })
    modify (λ s. record s { thread_id_array = update s.thread_id_array new_id true })
    (if not mem_stack
        then fail thread_nomemory
        else (do insert_thread_to_ready (some a); restore enabled; pure new_id))))

abbrev pub set_queue : ℕ → WaitQueue → System → System
set_queue q w s = record s { queues = update s.queues q w }

-- One thread of the queue, whose head is `a`.
unfoldable pub wakeup_one : ℕ → ℕ → Action System (Unit {0})
unfolding insert_thread_to_ready
wakeup_one q a s =
    let w = s.queues q in
    (if w.size == 1
        then (do
          insert_thread_to_ready (some a)
          modify (set_queue q (record w { wait_head = none })))
        else (do
          modify (set_queue q (record w { wait_head = (s.threads a).next }))
          modify (set_next a none)
          insert_thread_to_ready (some a)))
      s

-- All threads of the queue; the result is the count of the queue.
unfoldable pub wakeup_all : ℕ → ℕ → Action System ℕ
unfolding insert_thread_to_ready
wakeup_all q a s =
    let w = s.queues q in
    (do
      insert_thread_to_ready (some a)
      modify (set_queue q (record { wait_head = none; size = 0 }))
      pure w.size)
      s

abbrev pub wakeup_from : ℕ → ℕ → Option ℕ → Action System ℕ
wakeup_from q all none = pure 0
wakeup_from q all (some a) =
    if all == 0 then (do wakeup_one q a; pure 1) else if all == 1 then wakeup_all q a else pure 0

abbrev pub wakeup_queue : Option ℕ → ℕ → Action System ℕ
wakeup_queue none all s = ok 0 s
wakeup_queue (some q) all s = wakeup_from q all (s.queues q).wait_head s

unfoldable pub thread_wakeup : Option ℕ → ℕ → Action System ℕ
unfolding wakeup_one wakeup_all
thread_wakeup queue all = do
  enabled ← interrupts_set false
  n ← wakeup_queue queue all
  restore enabled
  pure n
