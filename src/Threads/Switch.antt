-- ===== src/Threads/Switch.antt =====
-- threads/thread.c: what its functions that switch between threads share.
-- `getcontext` saves where the thread is, with the variables of its call, and `setcontext` goes to
-- where another one is; both leave signals off, as they are at each of these places. What a thread
-- does from one `setcontext` to the next, or to its return, is one action. A stale pointer is
-- followed in one place, `temp` after a switch, and there a freed thread is a fault.
use ece344lab.Common.{
  ℕ, zero, suc, Bool, true, false, not, Option, none, some, ◌==◌, ◌&&◌, if◌then◌else◌,
}
use ece344lab.Common.Memory.{update}
use ece344lab.Common.Action.{
  Action, ok, fault, Ret, value, error, pure, fail, attempt, gets, modify, zoom, ◌>>=◌, ◌>>◌,
}
use ece344lab.Threads.{Thread, System, new_state, interrupts_set, restore, set_next, last_of}

abbrev pub recover_state : ℕ
recover_state = 2

-- `THREAD_NONE`, as the negative result that it is
abbrev pub thread_none : ℕ
thread_none = 4

-- The place of a thread that has called `getcontext`: behind it in a switch, with `enabled`, `temp`
-- and `returned_tid`, or in a yield to itself, with `enabled`.
pub data Context : Type 0 where
  switched : Bool → ℕ → ℕ → Context
  self_yielded : Bool → Context

-- `TO_DELETE_THREAD`, the contexts by address, none for the one that `thread_create` gives, and what
-- has been freed.
pub record Machine : Type 0 where
  pub system : System
  pub to_delete_thread : Option ℕ
  pub contexts : ℕ → Option Context
  pub freed : ℕ → Bool

-- A call returns, or `setcontext` goes to a thread, or a new thread calls its function.
pub data Control : Type 0 where
  returned : ℕ → Control
  jumped : ℕ → Control
  started : ℕ × ℕ → Control

abbrev pub set_system : System → Machine → Machine
set_system s w = record w { system = s }

abbrev pub on_system : {A : Type 0} → Action System A → Action Machine A
on_system m = zoom (λ (w : Machine). w.system) set_system m

-- The running thread; the code reads through the pointer.
abbrev pub running_of : Option ℕ → Action Machine ℕ
running_of none w = fault
running_of (some a) w = ok a w

abbrev pub running : Action Machine ℕ
running w = running_of w.system.running_thread w

abbrev pub set_state : ℕ → ℕ → System → System
set_state a st s = record s { threads = update s.threads a (record (s.threads a) { state = st }) }

abbrev pub set_running : ℕ → System → System
set_running a s = record s { running_thread = some a }

abbrev pub set_ready : Option ℕ → System → System
set_ready head s = record s { ready_head = head }

abbrev pub thread_at : Machine → ℕ → Thread
thread_at w a = w.system.threads a

abbrev pub save_context : ℕ → Context → Machine → Machine
save_context a c w = record w { contexts = update w.contexts a (some c) }

-- `insert_thread_to_delete`
abbrev pub insert_delete_after : Option ℕ → ℕ → Action Machine (Unit {0})
insert_delete_after none new_thread w = fault
insert_delete_after (some temp) new_thread w =
    ok tt (set_system (set_next temp (some new_thread) w.system) w)

abbrev pub insert_delete_at : Option ℕ → ℕ → Action Machine (Unit {0})
insert_delete_at none new_thread w = ok tt (record w { to_delete_thread = some new_thread })
insert_delete_at (some head) new_thread w =
    insert_delete_after (last_of w.system.brk w.system.threads head) new_thread w

unfoldable pub insert_thread_to_delete : ℕ → Action Machine (Unit {0})
unfolding last_of
insert_thread_to_delete new_thread w = insert_delete_at w.to_delete_thread new_thread w

-- `delete_threads_list`: the walk frees each thread of the list.
unfoldable pub free_from : ℕ → (ℕ → Thread) → (ℕ → Bool) → Option ℕ → Option (ℕ → Bool)
free_from fuel threads freed none = some freed
free_from zero threads freed (some a) = none
free_from (suc fuel) threads freed (some a) =
    free_from fuel threads (update freed a true) (threads a).next

abbrev pub keep_freed : Option (ℕ → Bool) → Action Machine (Unit {0})
keep_freed none w = fault
keep_freed (some freed) w = ok tt (record w { freed = freed; to_delete_thread = none })

unfoldable pub delete_threads_list : Action Machine (Unit {0})
unfolding free_from
delete_threads_list w =
    keep_freed (free_from w.system.brk w.system.threads w.freed w.to_delete_thread) w

-- `thread_exit(THREAD_SELF)`
abbrev pub exit_to : Option ℕ → Action Machine Control
exit_to none = fail thread_none
exit_to (some new_run) = do
  temp ← running
  modify (λ w. set_system (set_ready (thread_at w new_run).next w.system) w)
  modify (λ w. set_system (set_next temp none w.system) w)
  modify (λ w.
      set_system
        (record w.system {
          thread_id_array = update w.system.thread_id_array (thread_at w temp).tid false;
        })
        w)
  insert_thread_to_delete temp
  modify (λ w.
      set_system
        (set_running new_run (set_state new_run recover_state (set_next new_run none w.system))) w)
  pure (jumped new_run)

unfoldable pub exit_self : Action Machine Control
unfolding insert_thread_to_delete
exit_self = do
  enabled ← on_system (interrupts_set false)
  head ← gets (λ w. w.system.ready_head)
  exit_to head

-- Behind `getcontext` in a switch, from the test of `TO_DELETE_THREAD` on.
abbrev pub clean_up : Option ℕ → Action Machine (Unit {0})
clean_up none = pure tt
clean_up (some head) = delete_threads_list

abbrev pub return_tid : Bool → ℕ → Action Machine Control
return_tid enabled tid = do on_system (restore enabled); pure (returned tid)

abbrev pub go_or_return : Bool → ℕ → ℕ → ℕ → Action Machine Control
go_or_return enabled temp returned_tid run w =
    (if not (w.system.thread_id_array returned_tid)
        then return_tid enabled returned_tid
        else if w.freed temp
        then (λ (v : Machine). fault)
        else if (thread_at w temp).state == new_state
            && not ((thread_at w run).state == recover_state)
        then (do
          modify (λ (v : Machine).
              set_system (set_running temp (set_state temp recover_state v.system)) v)
          pure (jumped temp))
        else return_tid enabled returned_tid)
      w

unfoldable pub after_delete : Bool → ℕ → ℕ → Action Machine Control
unfolding delete_threads_list
after_delete enabled temp returned_tid = do
  to_delete ← gets (λ w. w.to_delete_thread)
  clean_up to_delete
  run ← running
  go_or_return enabled temp returned_tid run

-- `thread_exit` does not come back from its `setcontext`.
abbrev pub after_exit : Bool → ℕ → ℕ → Ret Control → Action Machine Control
after_exit enabled temp returned_tid (value c) = pure c
after_exit enabled temp returned_tid (error e) = after_delete enabled temp returned_tid

unfoldable pub after_switch : Bool → ℕ → ℕ → Action Machine Control
unfolding exit_self after_delete
after_switch enabled temp returned_tid = do
  run ← running
  flag ← gets (λ w. (thread_at w run).flag)
  (if flag
      then attempt exit_self >>= after_exit enabled temp returned_tid
      else after_delete enabled temp returned_tid)
