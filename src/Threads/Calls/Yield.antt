-- ===== src/Threads/Calls/Yield.antt =====
-- `thread_yield(THREAD_ANY)` of threads/thread.c, from the call to the return of the thread that runs
-- next.
use ece344lab.Common.{
  ℕ, ◌≤◌, ◌≡◌, ◌≢◌, refl, sym, ap, ap₂, subst, ◌∙◌, Bool, true, false, List, [], ◌∷◌, ◌++◌, none,
  some, ◌==◌, arith, length, Bool-cases, inl, inr,
}
use ece344lab.Common.Int.{negsuc}
use ece344lab.Common.Action.{Outcome, Action, ok, continue, put_back}
use ece344lab.Threads.{Thread, System, new_state, set_next, insert_thread_to_ready}
use ece344lab.Threads.Chains.{
  Chain, Apart, Distinct, Apart-end, last, last_of-last, linked, Chain-Apart, Chain-linked,
}
use ece344lab.Threads.Switch.{
  running_of, recover_state, switched, Machine, returned, jumped, set_system, set_state,
  set_running, set_ready, thread_at, save_context, after_delete, after_switch,
}
use ece344lab.Threads.Calls.{suspended, suspend_run, yield_any, thread_yield}

-- The next pointers aside, the two stores are the same, and so are the other variables.
abbrev pub Relinks : System → System → Type 0
Relinks s t =
    ((x : ℕ) → t.threads x ≡ record (s.threads x) { next = (t.threads x).next })
    × (t.running_thread ≡ s.running_thread)
    × (t.thread_id_array ≡ s.thread_id_array)
    × (t.interrupts ≡ s.interrupts)

pub insert-Relinks :
    (s : System) (xs : List ℕ) (run : ℕ)
    → Chain s.threads s.ready_head xs
    → Distinct (xs ++ (run ∷ []))
    → length xs ≤ s.brk
    → (s.threads run).next ≡ none
    → (t : System) × (insert_thread_to_ready (some run) s ≡ ok tt t)
      × Chain t.threads t.ready_head (xs ++ (run ∷ []))
      × Relinks s t
unfolding insert_thread_to_ready
insert-Relinks s [] run h d lt e =
    (set_ready (some run) s, rw h refl, (refl, e), (λ x. refl, refl, refl, refl))
insert-Relinks s (x ∷ xs) run h d lt e = (
  set_next (last x xs) (some run) s,
  rw (h.0, last_of-last s.brk s.threads x xs h.1 (omega (arith, lt))) refl,
  subst (λ z. Chain (linked s.threads (last x xs) (some run)) z ((x ∷ xs) ++ (run ∷ []))) (sym h.0)
      (Chain-linked s.threads (some run) x xs (run ∷ []) h.1 (refl, e) d),
  (λ y. ground arith, refl, refl, refl),
)

-- A switch goes to `temp`, or comes back to the thread that made it.
pub after_switch-jumps :
    (v : Machine) (run temp tid : ℕ) (enabled : Bool)
    → v.system.running_thread ≡ some run
    → (thread_at v run).flag ≡ false
    → v.to_delete_thread ≡ none
    → v.system.thread_id_array tid ≡ true
    → v.freed temp ≡ false
    → (thread_at v temp).state ≡ new_state
    → (thread_at v run).state ≡ new_state
    → after_switch enabled temp tid v
      ≡ ok (jumped temp) (set_system (set_running temp (set_state temp recover_state v.system)) v)
unfolding after_switch after_delete
after_switch-jumps v run temp tid enabled r f d i u t st = simp (r, f, d, i, u, t, st) refl

-- The machine with this thread running and none to delete.
abbrev at_rest : ℕ → Machine → Machine
at_rest run v = record v { system = set_running run v.system; to_delete_thread = none }

is_at_rest :
    (v : Machine) (run : ℕ)
    → v.system.running_thread ≡ some run
    → v.to_delete_thread ≡ none
    → v ≡ at_rest run v
is_at_rest v run r d =
    ap₂ (λ x y. record v { system = record v.system { running_thread = x }; to_delete_thread = y })
      r d

at_rest-returns :
    (v : Machine) (run temp tid : ℕ) (enabled : Bool)
    → (thread_at v run).flag ≡ false
    → v.system.thread_id_array tid ≡ true
    → v.freed temp ≡ false
    → (thread_at v run).state ≡ recover_state
    → after_switch enabled temp tid (at_rest run v)
      ≡ ok
          (returned tid)
          (set_system (record (at_rest run v).system { interrupts = enabled }) (at_rest run v))
unfolding after_switch after_delete
at_rest-returns v run temp tid enabled f i a st =
    elim (Bool-cases ((thread_at v temp).state == new_state)) [
      | inl new ↦ simp (f, i, a, st, new) refl
      | inr old ↦ simp (f, i, a, st, old) refl
    ]

pub after_switch-returns :
    (v : Machine) (run temp tid : ℕ) (enabled : Bool)
    → v.system.running_thread ≡ some run
    → (thread_at v run).flag ≡ false
    → v.to_delete_thread ≡ none
    → v.system.thread_id_array tid ≡ true
    → v.freed temp ≡ false
    → (thread_at v run).state ≡ recover_state
    → after_switch enabled temp tid v
      ≡ ok (returned tid) (set_system (record v.system { interrupts = enabled }) v)
after_switch-returns v run temp tid enabled r f d i a st =
    subst
      (λ x.
        after_switch enabled temp tid x
        ≡ ok (returned tid) (set_system (record x.system { interrupts = enabled }) x))
      (sym (is_at_rest v run r d)) (at_rest-returns v run temp tid enabled f i a st)

-- `run` runs, and `a` is the first of the ready threads.
pub record CanYield (w : Machine) (run a : ℕ) (rest : List ℕ) : Type 0 where
  pub runs : w.system.running_thread ≡ some run
  pub chain : Chain w.system.threads w.system.ready_head (a ∷ rest)
  pub distinct : Distinct ((a ∷ rest) ++ (run ∷ []))
  pub walk : length rest ≤ w.system.brk
  pub alone : (thread_at w run).next ≡ none
  pub none_deleted : w.to_delete_thread ≡ none
  pub waits : (thread_at w a).state ≡ new_state
  pub alive : w.freed a ≡ false
  pub has_id : w.system.thread_id_array (thread_at w a).tid ≡ true

Apart-first : (a b : ℕ) (xs : List ℕ) → Apart a (xs ++ (b ∷ [])) → Apart a xs
Apart-first a b [] h = tt
Apart-first a b (x ∷ xs) h = (h.0, Apart-first a b xs h.1)

module _ (w : Machine) (run a : ℕ) (rest : List ℕ) (c : CanYield w run a rest) where
  abbrev masked : System
  masked = record w.system { interrupts = false }

  -- The system without `a` in its ready list.
  abbrev taken : System
  taken = set_next a none (set_ready (thread_at w a).next masked)

  pub run_other : run ≢ a
  run_other = Apart-end a run rest c.distinct.0

  taken-Chain : Chain taken.threads taken.ready_head rest
  taken-Chain =
      Chain-Apart w.system.threads a none (thread_at w a).next rest
        (Apart-first a run rest c.distinct.0) c.chain.1

  linked_last :
      (t : System) × (insert_thread_to_ready (some run) taken ≡ ok tt t)
      × Chain t.threads t.ready_head (rest ++ (run ∷ []))
      × Relinks taken t
  linked_last =
      insert-Relinks taken rest run taken-Chain c.distinct.1 c.walk
        (ground (arith, run_other, c.alone))

  pub t : System
  t = linked_last.0

  abbrev pub tid : ℕ
  tid = (thread_at w a).tid

  -- The machine when `run` is at its `getcontext`, and when `a` is gone to.
  abbrev pub asleep : Machine
  asleep =
      save_context run (switched w.system.interrupts a tid)
        (set_system (set_state run new_state t) w)

  abbrev pub gone : Machine
  gone = set_system (set_running a (set_state a recover_state asleep.system)) asleep

  abbrev insert : ℕ → Action System (Unit {0})
  insert x = insert_thread_to_ready (some x)

  pub suspend_first :
      yield_any w.system.interrupts (some a) (set_system masked w)
      ≡ suspended w.system.interrupts a tid run (set_system t w)
  unfolding t
  suspend_first =
      ap
        (λ o.
          continue (λ x. suspend_run insert w.system.interrupts a ((taken.threads a).tid) x)
            (running_of o (set_system taken w)))
        c.runs
      ∙ ap
          (λ (o : Outcome System (Unit {0})).
            continue (λ _. suspended w.system.interrupts a ((taken.threads a).tid) run)
              (put_back (λ (s : System). set_system s (set_system taken w)) o))
          linked_last.1
      ∙ ap (λ k. suspended w.system.interrupts a k run (set_system t w)) (ground arith)

  pub relinks : Relinks taken t
  unfolding t
  relinks = linked_last.3

  pub entry_kept : (x : ℕ) → (t.threads x).entry ≡ (thread_at w x).entry
  entry_kept x = ap (λ (th : Thread). th.entry) (relinks.0 x) ∙ ground arith

  pub tid_kept : (x : ℕ) → (t.threads x).tid ≡ (thread_at w x).tid
  tid_kept x = ap (λ (th : Thread). th.tid) (relinks.0 x) ∙ ground arith

  pub t-Chain : Chain t.threads t.ready_head (rest ++ (run ∷ []))
  unfolding t
  t-Chain = linked_last.2

  pub flag_kept : (x : ℕ) → (t.threads x).flag ≡ (thread_at w x).flag
  flag_kept x = ap (λ (th : Thread). th.flag) (relinks.0 x) ∙ ground arith

  state_kept : (x : ℕ) → (t.threads x).state ≡ (thread_at w x).state
  state_kept x = ap (λ (th : Thread). th.state) (relinks.0 x) ∙ ground arith

  asleep_jumps :
      (thread_at w run).flag ≡ false
      → after_switch w.system.interrupts a tid asleep ≡ ok (jumped a) gone
  asleep_jumps unflagged =
      after_switch-jumps asleep run a tid w.system.interrupts (relinks.1 ∙ c.runs)
        (ground (arith, flag_kept run, unflagged)) c.none_deleted
        (ap (λ ids. ids tid) (relinks.2) ∙ c.has_id) c.alive
        (ground (arith, state_kept a, c.waits, run_other)) (ground arith)

  pub yield_jumps : (thread_at w run).flag ≡ false → thread_yield (negsuc 0) w ≡ ok (jumped a) gone
  unfolding thread_yield
  yield_jumps unflagged =
      ap (λ h. yield_any w.system.interrupts h (set_system masked w)) c.chain.0
      ∙ suspend_first
      ∙ asleep_jumps unflagged
