-- ===== src/Threads/Calls.antt =====
-- threads/thread.c: `thread_yield`, `thread_exit` and `thread_sleep`, and the start of a thread in
-- `thread_stub`.
pub mod Yield
pub mod Resume
pub mod Flagged
use ece344lab.Common.{
  ℕ, zero, suc, ◌+◌, ◌-◌, Bool, true, false, not, Option, none, some, ltb, ◌==◌, ◌&&◌, ◌||◌,
  if◌then◌else◌,
}
use ece344lab.Common.Memory.{update}
use ece344lab.Common.Int.{ℤ, pos, negsuc}
use ece344lab.Common.Action.{
  Outcome, Action, ok, err, abort, exited, fault, Ret, value, error, pure, fail, attempt, gets,
  modify, zoom, put_back, continue, ◌>>=◌, ◌>>◌,
}
use ece344lab.Threads.{
  Thread, WaitQueue, System, new_state, thread_invalid, thread_max_threads, interrupts_set, restore,
  set_next, set_queue, last_of, insert_thread_to_ready,
}
use ece344lab.Threads.Switch.{
  recover_state, thread_none, Context, Machine, Control, set_system, on_system, running_of, running,
  set_state, set_running, set_ready, thread_at, save_context, insert_delete_after, insert_delete_at,
  insert_thread_to_delete, free_from, keep_freed, delete_threads_list, exit_to, exit_self, clean_up,
  return_tid, go_or_return, after_delete, after_exit, after_switch, switched, self_yielded,
  returned, jumped, started,
}

-- The running thread saves where it is, and goes on.
abbrev pub suspended : Bool → ℕ → ℕ → ℕ → Action Machine Control
suspended enabled temp returned_tid run = do
  modify (λ w. set_system (set_state run new_state w.system) w)
  modify (save_context run (switched enabled temp returned_tid))
  after_switch enabled temp returned_tid

abbrev pub suspend_run : (ℕ → Action System (Unit {0})) → Bool → ℕ → ℕ → ℕ → Action Machine Control
suspend_run insert enabled temp returned_tid run = do
  on_system (insert run)
  suspended enabled temp returned_tid run

-- From the insertion of the running thread to its `getcontext`, and on. `temp` is not in a list.
abbrev pub suspend : (ℕ → Action System (Unit {0})) → Bool → ℕ → Action Machine Control
suspend insert enabled temp = do
  returned_tid ← gets (λ w. (thread_at w temp).tid)
  run ← running
  suspend_run insert enabled temp returned_tid run

-- The first ready thread is taken out.
abbrev pub take_first : ℕ → Machine → Machine
take_first temp w = set_system (set_next temp none (set_ready (thread_at w temp).next w.system)) w

abbrev pub yield_any : Bool → Option ℕ → Action Machine Control
yield_any enabled none = do on_system (restore enabled); fail thread_none
yield_any enabled (some temp) = do
  modify (take_first temp)
  suspend (λ run. insert_thread_to_ready (some run)) enabled temp

-- Behind `getcontext` in a yield to itself.
unfoldable pub after_self : Bool → Action Machine Control
after_self enabled = do
  run ← running
  t ← gets (λ w. thread_at w run)
  (if t.state == new_state
      then (do modify (λ w. set_system (set_state run recover_state w.system) w); pure (jumped run))
      else return_tid enabled t.tid)

abbrev pub yield_self : Bool → ℕ → Action Machine Control
yield_self enabled run = do
  modify (λ w. set_system (set_state run new_state w.system) w)
  modify (save_context run (self_yielded enabled))
  after_self enabled

-- The walk along the ready list to an id: the thread before it, the first one at first, and the
-- thread; `none` where the walk ends at NULL.
unfoldable pub find_tid : ℕ → (ℕ → Thread) → ℕ → ℕ → Option ℕ → Option (ℕ × ℕ)
find_tid fuel threads tid prev none = none
find_tid zero threads tid prev (some temp) = none
find_tid (suc fuel) threads tid prev (some temp) =
    let rest = find_tid fuel threads tid temp (threads temp).next in
    if (threads temp).tid == tid then some (prev, temp) else rest

abbrev pub find_ready : Option ℕ → ℕ → Action Machine (ℕ × ℕ)
find_ready none tid w = fault
find_ready (some head) tid w = elim (find_tid w.system.brk w.system.threads tid head (some head)) [
  | none ↦ fault
  | some found ↦ ok found w
]

-- The thread found is taken out; `READY_HEAD` is not NULL there.
abbrev pub take_found : Option ℕ → ℕ × ℕ → ℕ → Action Machine (Unit {0})
take_found none found tid = λ w. fault
take_found (some head) (prev, temp) tid = do
  modify (λ w.
      if (thread_at w head).tid == tid
      then set_system (set_ready (thread_at w head).next w.system) w
      else set_system (set_next prev (thread_at w temp).next w.system) w)
  modify (λ w. set_system (set_next temp none w.system) w)

abbrev pub yield_to : Bool → ℕ → Action Machine Control
yield_to enabled tid = do
  head ← gets (λ w. w.system.ready_head)
  found ← find_ready head tid
  take_found head found tid
  suspend (λ run. insert_thread_to_ready (some run)) enabled found.1

-- The test for a valid id. From `THREAD_INVALID` to `THREAD_FAILED` it reads before the array.
abbrev pub is_invalid : ℤ → Action Machine Bool
is_invalid (pos n) w = ok (ltb (thread_max_threads - 1) n || not (w.system.thread_id_array n)) w
is_invalid (negsuc n) w = if ltb 6 n then ok true w else fault

abbrev pub yield_valid : Bool → ℤ → Bool → Action Machine Control
yield_valid enabled (pos n) false = yield_to enabled n
yield_valid enabled (negsuc n) false = λ w. fault
yield_valid enabled want_tid true = do on_system (restore enabled); fail thread_invalid

abbrev pub is_tid : ℤ → ℕ → Bool
is_tid (pos n) tid = n == tid
is_tid (negsuc n) tid = false

abbrev pub is_self : ℤ → Bool
is_self (pos n) = false
is_self (negsuc n) = n == 1

abbrev pub is_any : ℤ → Bool
is_any (pos n) = false
is_any (negsuc n) = n == 0

abbrev pub yield_other : Bool → ℤ → Action Machine Control
yield_other enabled want_tid = do
  run ← running
  tid ← gets (λ w. (thread_at w run).tid)
  (if is_self want_tid || is_tid want_tid tid
      then yield_self enabled run
      else is_invalid want_tid >>= yield_valid enabled want_tid)

unfoldable pub thread_yield : ℤ → Action Machine Control
unfolding after_switch after_self find_tid insert_thread_to_ready
thread_yield want_tid = do
  enabled ← on_system (interrupts_set false)
  head ← gets (λ w. w.system.ready_head)
  (if is_any want_tid then yield_any enabled head else yield_other enabled want_tid)

-- The flag of another thread.
abbrev pub set_flag : ℕ → System → System
set_flag a s = record s { threads = update s.threads a (record (s.threads a) { flag = true }) }

abbrev pub flag_thread : Bool → ℕ → Action Machine Control
flag_thread enabled temp = do
  tid ← gets (λ w. (thread_at w temp).tid)
  modify (λ w. set_system (set_flag temp w.system) w)
  return_tid enabled tid

abbrev pub exit_any : Bool → Option ℕ → Action Machine Control
exit_any enabled none = fail thread_none
exit_any enabled (some temp) = flag_thread enabled temp

abbrev pub exit_tid : Bool → ℕ → Option ℕ → Action Machine Control
exit_tid enabled tid none = fail thread_none
exit_tid enabled tid (some head) = do
  found ← find_ready (some head) tid
  flag_thread enabled found.1

abbrev pub exit_valid : Bool → ℤ → Bool → Action Machine Control
exit_valid enabled (pos n) false = gets (λ w. w.system.ready_head) >>= exit_tid enabled n
exit_valid enabled (negsuc n) false = λ w. fault
exit_valid enabled tid true = fail thread_invalid

unfoldable pub thread_exit : ℤ → Action Machine Control
unfolding exit_self find_tid
thread_exit tid = if is_self tid then exit_self else (do
  enabled ← on_system (interrupts_set false)
  (if is_any tid
      then gets (λ w. w.system.ready_head) >>= exit_any enabled
      else is_invalid tid >>= exit_valid enabled tid))

-- `insert_thread_to_wait`
abbrev pub wait_after : Option ℕ → ℕ → ℕ → Action System (Unit {0})
wait_after none q new_thread s = fault
wait_after (some temp) q new_thread s = ok tt (
    set_next temp (some new_thread)
      (set_queue q (record (s.queues q) { size = (s.queues q).size + 1 }) s))

abbrev pub wait_at : Option ℕ → ℕ → ℕ → Action System (Unit {0})
wait_at none q new_thread s =
    ok tt (set_queue q (record { wait_head = some new_thread; size = (s.queues q).size + 1 }) s)
wait_at (some head) q new_thread s = wait_after (last_of s.brk s.threads head) q new_thread s

unfoldable pub insert_thread_to_wait : ℕ → ℕ → Action System (Unit {0})
unfolding last_of
insert_thread_to_wait q new_thread s = wait_at (s.queues q).wait_head q new_thread s

abbrev pub sleep_on : Bool → ℕ → Option ℕ → Action Machine Control
sleep_on enabled q none = do on_system (restore enabled); fail thread_none
sleep_on enabled q (some temp) = do
  modify (take_first temp)
  suspend (insert_thread_to_wait q) enabled temp

abbrev pub sleep_queue : Bool → Option ℕ → Action Machine Control
sleep_queue enabled none = do on_system (restore enabled); fail thread_invalid
sleep_queue enabled (some q) = gets (λ w. w.system.ready_head) >>= sleep_on enabled q

unfoldable pub thread_sleep : Option ℕ → Action Machine Control
unfolding after_switch insert_thread_to_wait
thread_sleep queue = do enabled ← on_system (interrupts_set false); sleep_queue enabled queue

-- `thread_stub`, up to the call of the thread's function
abbrev pub resume_at : ℕ → Option Context → Action Machine Control
resume_at a (some (switched enabled temp returned_tid)) = after_switch enabled temp returned_tid
resume_at a (some (self_yielded enabled)) = after_self enabled
resume_at a none = do
  on_system (restore true)
  entry ← gets (λ w. (thread_at w a).entry)
  pure (started entry)

-- The thread that `setcontext` goes to goes on.
unfoldable pub resume : ℕ → Action Machine Control
unfolding after_switch after_self
resume a w = resume_at a (w.contexts a) w

-- On to a return or a start.
unfoldable pub settle : ℕ → Control → Action Machine Control
unfolding resume
settle zero c = pure c
settle (suc n) (jumped a) = resume a >>= settle n
settle (suc n) (returned tid) = pure (returned tid)
settle (suc n) (started entry) = pure (started entry)
