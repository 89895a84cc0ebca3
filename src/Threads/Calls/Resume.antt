-- ===== src/Threads/Calls/Resume.antt =====
-- What a thread of threads/thread.c does when a yield of another one goes to it.
use ece344lab.Common.{
  ℕ, ◌≡◌, ◌≢◌, refl, ap, ◌∙◌, Bool, true, false, List, [], ◌∷◌, ◌++◌, Option, none, some, ◌==◌,
  arith,
}
use ece344lab.Common.Int.{negsuc}
use ece344lab.Common.Action.{ok, continue, pure}
use ece344lab.Threads.{Thread, new_state}
use ece344lab.Threads.Chains.{Chain, Chain-same}
use ece344lab.Threads.Switch.{
  Context, switched, self_yielded, Machine, Control, returned, started, set_system, thread_at,
}
use ece344lab.Threads.Calls.{thread_yield, after_self, resume_at, resume, settle}
use ece344lab.Threads.Calls.Yield.{
  CanYield, after_switch-returns, t, gone, yield_jumps, run_other, flag_kept, relinks, t-Chain,
  tid_kept, entry_kept,
}

-- What the thread that is gone to needs: in a switch, no flag, the id in use and `temp` not freed.
abbrev pub Resumable : Machine → ℕ → Option Context → Type 0
Resumable w a none = Unit {0}
Resumable w a (some (self_yielded enabled)) = Unit {0}
Resumable w a (some (switched enabled temp returned_tid)) =
    ((thread_at w a).flag ≡ false)
    × (w.system.thread_id_array returned_tid ≡ true)
    × (w.freed temp ≡ false)

-- A new thread calls its function with signals on. Another one returns from its own call, with its
-- result and the mask from before that call.
abbrev pub comes_to : Thread → Option Context → Control
comes_to th none = started th.entry
comes_to th (some (self_yielded enabled)) = returned th.tid
comes_to th (some (switched enabled temp returned_tid)) = returned returned_tid

abbrev pub resumed_mask : Option Context → Bool
resumed_mask none = true
resumed_mask (some (self_yielded enabled)) = enabled
resumed_mask (some (switched enabled temp returned_tid)) = enabled

module _ (w : Machine) (run a : ℕ) (rest : List ℕ) (c : CanYield w run a rest) where
  abbrev there : Machine
  there = gone w run a rest c

  abbrev back : Bool → Machine
  back on = set_system (record there.system { interrupts = on }) there

  self_back :
      (enabled : Bool)
      → after_self enabled there ≡ ok (returned (thread_at there a).tid) (back enabled)
  unfolding after_self
  self_back enabled = let own : (a == a) ≡ true = ground arith in rw own refl

  resumes :
      (x : Option Context)
      → Resumable w a x
      → resume_at a x there ≡ ok (comes_to (thread_at w a) x) (back (resumed_mask x))
  unfolding after_self
  resumes none r =
      ap (λ e. ok (started e) (back true))
        (ground (arith, entry_kept w run a rest c a, run_other w run a rest c))
  resumes (some (self_yielded enabled)) r =
      self_back enabled
      ∙ ap (λ k. ok (returned k) (back enabled))
          (ground (arith, tid_kept w run a rest c a, run_other w run a rest c))
  resumes (some (switched enabled temp returned_tid)) r =
      after_switch-returns there a temp returned_tid enabled refl
        (ground (arith, flag_kept w run a rest c a, r.0, run_other w run a rest c)) c.none_deleted
        (ap (λ ids. ids returned_tid) (relinks w run a rest c).2 ∙ r.1) r.2 (ground arith)

  there-resumes :
      (x : Option Context)
      → w.contexts a ≡ x
      → Resumable w a x
      → resume a there ≡ ok (comes_to (thread_at w a) x) (back (resumed_mask x))
  unfolding resume
  there-resumes x e r =
      let own : there.contexts a ≡ x = ground (arith, run_other w run a rest c, e) in
      ap (λ y. resume_at a y there) own ∙ resumes x r

  settled :
      (x : Option Context)
      → (thread_at w run).flag ≡ false
      → w.contexts a ≡ x
      → Resumable w a x
      → continue (settle 1) (thread_yield (negsuc 0) w)
        ≡ ok (comes_to (thread_at w a) x) (back (resumed_mask x))
  unfolding settle
  settled x unflagged e r =
      ap (continue (settle 1)) (yield_jumps w run a rest c unflagged)
      ∙ ap (continue pure) (there-resumes x e r)

  ready_after : Chain there.system.threads there.system.ready_head (rest ++ (run ∷ []))
  ready_after =
      Chain-same (t w run a rest c).threads there.system.threads (t w run a rest c).ready_head
        (rest ++ (run ∷ [])) (λ x. ground arith) (t-Chain w run a rest c)

  -- `thread_yield(THREAD_ANY)` of a thread that is not flagged, with `a` the first of the ready ones,
  -- all of them and the caller different, those behind `a` no more than the addresses in use, the
  -- `next` of the caller NULL, and none to delete. `a` is marked as not running, it is not freed and
  -- its id is in use. Where `a` is in a switch of its own, it is not flagged either, the id
  -- that it returns is in use and its `temp` is not freed. Then `a` runs, and either starts, with
  -- signals on, or returns from its own call with its own result and mask. The caller is behind the
  -- other ready threads, marked as not running, at a place from which it restores its own mask and
  -- returns the id of `a`; no other thread's place changes, and no id.
  pub thread_yield-Switches :
      (x : Option Context)
      → (thread_at w run).flag ≡ false
      → w.contexts a ≡ x
      → Resumable w a x
      → (v : Machine) × (continue (settle 1) (thread_yield (negsuc 0) w)
          ≡ ok (comes_to (thread_at w a) x) v)
        × (v.system.running_thread ≡ some a)
        × Chain v.system.threads v.system.ready_head (rest ++ (run ∷ []))
        × (v.system.interrupts ≡ resumed_mask x)
        × ((thread_at v run).state ≡ new_state)
        × (v.contexts run ≡ some (switched w.system.interrupts a (thread_at w a).tid))
        × ((b : ℕ) → b ≢ run → v.contexts b ≡ w.contexts b)
        × (v.system.thread_id_array ≡ w.system.thread_id_array)
  thread_yield-Switches x unflagged e r = (
    back (resumed_mask x),
    settled x unflagged e r,
    refl,
    ready_after,
    refl,
    ground (arith, run_other w run a rest c),
    ground arith,
    λ b ne. ground arith,
    (relinks w run a rest c).2,
  )
