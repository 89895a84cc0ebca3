-- ===== src/Threads/Calls/Flagged.antt =====
-- A thread of threads/thread.c that runs with its flag set, as one does that another thread has
-- destroyed before it ran for the first time, and that yields.
use ece344lab.Common.{
  ℕ, ◌≡◌, ◌≢◌, refl, sym, ap, ap₂, subst, ◌∙◌, Bool, true, false, List, [], ◌∷◌, ◌++◌, none, some,
  arith,
}
use ece344lab.Common.Memory.{update}
use ece344lab.Common.Int.{negsuc}
use ece344lab.Common.Action.{ok}
use ece344lab.Threads.{System, set_next}
use ece344lab.Threads.Chains.{Chain, Apart, linked, Chain-Apart, Chain-same, Chain-end}
use ece344lab.Threads.Switch.{
  recover_state, Machine, jumped, set_system, set_state, set_running, set_ready, thread_at,
  exit_self, insert_thread_to_delete, after_switch,
}
use ece344lab.Threads.Calls.{yield_any, thread_yield}
use ece344lab.Threads.Calls.Yield.{
  CanYield, t, tid, asleep, suspend_first, flag_kept, tid_kept, relinks, t-Chain,
}

-- The machine with this thread running, this one first among the ready ones, and none to delete.
abbrev at_exit : ℕ → ℕ → Machine → Machine
at_exit run b v = record v {
  system = record v.system { running_thread = some run; ready_head = some b };
  to_delete_thread = none;
}

-- What is left when it has exited.
abbrev exited_system : ℕ → ℕ → System → System
exited_system run b s =
    let s1 = set_next run none (set_ready (s.threads b).next s) in
    let s2 : System = record s1 {
      thread_id_array = update s.thread_id_array (s1.threads run).tid false;
    } in
    set_running b (set_state b recover_state (set_next b none s2))

abbrev after_end : ℕ → ℕ → Machine → Machine
after_end run b v = record v { system = exited_system run b v.system; to_delete_thread = some run }

at_exit-exits :
    (v : Machine) (run b temp tid : ℕ) (enabled : Bool)
    → (thread_at v run).flag ≡ true
    → after_switch enabled temp tid (at_exit run b v)
      ≡ ok (jumped b) (
          after_end run b (record v {
            system = record v.system {
              running_thread = some run;
              ready_head = some b;
              interrupts = false;
            };
          }))
unfolding after_switch exit_self insert_thread_to_delete
at_exit-exits v run b temp tid enabled f = simp f refl

abbrev masked : Machine → Machine
masked v = set_system (record v.system { interrupts = false }) v

switch-exits :
    (v : Machine) (run b temp tid : ℕ) (enabled : Bool)
    → v.system.running_thread ≡ some run
    → v.system.ready_head ≡ some b
    → v.to_delete_thread ≡ none
    → (thread_at v run).flag ≡ true
    → after_switch enabled temp tid v ≡ ok (jumped b) (after_end run b (masked v))
switch-exits v run b temp tid enabled r h d f =
    subst (λ x. after_switch enabled temp tid x ≡ ok (jumped b) (after_end run b (masked x)))
      (sym same) (at_exit-exits v run b temp tid enabled f)
  where
    same : v ≡ at_exit run b v
    same =
        ap₂
          (λ x y. record v {
            system = record v.system { running_thread = x; ready_head = v.system.ready_head };
            to_delete_thread = y;
          })
          r d
        ∙ ap
            (λ z. record v {
              system = record v.system { running_thread = some run; ready_head = z };
              to_delete_thread = none;
            })
            h

module _ (w : Machine) (run a b : ℕ) (rest : List ℕ) (c : CanYield w run a (b ∷ rest)) where
  abbrev u : Machine
  u = asleep w run a (b ∷ rest) c

  abbrev ended : Machine
  ended = after_end run b (masked u)

  b_next : (t w run a (b ∷ rest) c).ready_head ≡ some b
  b_next = (t-Chain w run a (b ∷ rest) c).0

  asleep_exits :
      (thread_at w run).flag ≡ true
      → after_switch w.system.interrupts a (thread_at w a).tid u ≡ ok (jumped b) ended
  asleep_exits f =
      switch-exits u run b a (thread_at w a).tid w.system.interrupts
        ((relinks w run a (b ∷ rest) c).1 ∙ c.runs) b_next c.none_deleted
        (ground (arith, flag_kept w run a (b ∷ rest) c run, f))

  yield_exits : (thread_at w run).flag ≡ true → thread_yield (negsuc 0) w ≡ ok (jumped b) ended
  unfolding thread_yield
  yield_exits f =
      ap (λ h. yield_any w.system.interrupts h (masked w)) c.chain.0
      ∙ suspend_first w run a (b ∷ rest) c
      ∙ asleep_exits f

  ended-Chain : Chain ended.system.threads ended.system.ready_head (rest ++ (run ∷ []))
  ended-Chain =
      let first : Chain u.system.threads (u.system.threads b).next (rest ++ (run ∷ [])) =
        Chain-same (t w run a (b ∷ rest) c).threads u.system.threads (u.system.threads b).next
          (rest ++ (run ∷ [])) (λ x. ground arith)
          (subst (λ n. Chain (t w run a (b ∷ rest) c).threads n (rest ++ (run ∷ []))) (ground arith)
            (t-Chain w run a (b ∷ rest) c).1) in
      let second : Chain (linked u.system.threads run none) (u.system.threads b).next
          (rest ++ (run ∷ [])) =
        Chain-end u.system.threads run (u.system.threads b).next rest c.distinct.1.1 first in
      let third : Chain (linked (linked u.system.threads run none) b none) (u.system.threads b).next
          (rest ++ (run ∷ [])) =
        Chain-Apart (linked u.system.threads run none) b none (u.system.threads b).next
          (rest ++ (run ∷ [])) c.distinct.1.0 second in
      Chain-same (linked (linked u.system.threads run none) b none) ended.system.threads
        (u.system.threads b).next (rest ++ (run ∷ [])) (λ x. ground arith) third

  -- `thread_yield(THREAD_ANY)` of a thread with its flag set, `a` and `b` the first of the ready ones,
  -- all of them and the caller different, those behind `a` no more than the addresses in use, the
  -- `next` of the caller NULL, and none to delete. `a` is marked as not running, it is not freed and
  -- its id is in use. Then the caller exits inside the call, and `b` runs. The thread that
  -- exits is in the ready list and in the list of threads to delete, though its id is free, and `a`
  -- is in none: it does not run and is not ready.
  pub thread_yield-Flagged :
      (thread_at w run).flag ≡ true
      → (v : Machine) × (thread_yield (negsuc 0) w ≡ ok (jumped b) v)
        × (v.system.running_thread ≡ some b)
        × Chain v.system.threads v.system.ready_head (rest ++ (run ∷ []))
        × (v.to_delete_thread ≡ some run)
        × (v.system.thread_id_array (thread_at w run).tid ≡ false)
        × (b ≢ a)
        × Apart a (rest ++ (run ∷ []))
  thread_yield-Flagged f = (
    ended,
    yield_exits f,
    refl,
    ended-Chain,
    refl,
    ground (arith, tid_kept w run a (b ∷ rest) c run),
    c.distinct.0.0,
    c.distinct.0.1,
  )
