-- ===== src/Threads/Lock/Exclusion.antt =====
-- What the locks of threads/thread.c keep to, whatever the order of the steps.
use ece344lab.Common.{
  ℕ, ◌≡◌, ◌≢◌, refl, sym, subst, ◌∙◌, inl, inr, Bool, true, false, List, [], ◌∷◌, ◌++◌, ◌==◌,
  Bool-cases, arith,
}
use ece344lab.Common.Memory.{update}
use ece344lab.Threads.Lock.{
  Place, outside, trying, queued, holding, let_go, waiting, Locked, lock_create, go_to,
  acquire_round, wake_all, lock_release, wake_first, cv_signal, cv_broadcast, cv_sleep, Step, ask,
  round, release, wait, sleep, signal, broadcast, Run, start, then_step,
}
use ece344lab.Threads.Lock.Moves.{
  In, In-last, In-append, moved, wake_all-In, Inv, Fewer-Inv, move-Fewer, wake-Fewer,
}

-- The holder goes elsewhere and the lock is free: all that slept for it are awake.
let_go-Inv :
    (w : Locked) (i : ℕ) (x : Place)
    → Inv w
    → w.places i ≡ holding
    → x ≢ holding
    → x ≢ queued
    → Inv (lock_release (go_to i x w))
unfolding lock_release
let_go-Inv w i x inv own nh nq = record {
  one = λ j k a b. absurd (nobody j a);
  held = λ j a. absurd (nobody j a);
  asleep = λ j a. absurd (awake j a);
}
  where
    p : ℕ → Place
    p = update w.places i x

    nobody : (j : ℕ) → wake_all w.queue p j ≡ holding → ⊥
    nobody j a =
        let before : p j ≡ holding = (wake-Fewer w.queue p).0 j a in
        elim (moved w.places i j x) [
          | inl (_, there) ↦ nh (sym there ∙ before)
          | inr kept ↦ nh (ground (arith, inv.one i j own (sym kept ∙ before), before))
        ]

    awake : (j : ℕ) → wake_all w.queue p j ≡ queued → ⊥
    awake j a =
        let slept : w.places j ≡ queued =
          (move-Fewer w.places i x nh nq).1 j ((wake-Fewer w.queue p).1 j a) in
        let woken : wake_all w.queue p j ≡ trying =
          wake_all-In w.queue p j (inv.asleep j slept).1 in
        absurd (ground (arith, woken, a))

-- A thread finds the lock free.
take-Inv :
    (w : Locked) (i : ℕ)
    → Inv w
    → (w.lock_state == 1) ≡ false
    → Inv (record w { lock_state = 1; places = update w.places i holding })
take-Inv w i inv free = record {
  one = λ j k a b. only j a ∙ sym (only k b);
  held = λ j a. refl;
  asleep = λ j a. absurd (none_sleeps j a);
}
  where
    only : (j : ℕ) → update w.places i holding j ≡ holding → j ≡ i
    only j a = elim (moved w.places i j holding) [
      | inl (same, _) ↦ sym same
      | inr kept ↦ absurd (ground (arith, inv.held j (sym kept ∙ a), free))
    ]

    none_sleeps : (j : ℕ) → update w.places i holding j ≡ queued → ⊥
    none_sleeps j a = elim (moved w.places i j holding) [
      | inl (_, there) ↦ absurd (ground (arith, there, a))
      | inr kept ↦ absurd (ground (arith, (inv.asleep j (sym kept ∙ a)).0, free))
    ]

-- A thread finds it taken and sleeps.
queue-Inv :
    (w : Locked) (i : ℕ)
    → Inv w
    → w.lock_state ≡ 1
    → Inv (record w { queue = w.queue ++ (i ∷ []); places = update w.places i queued })
queue-Inv w i inv taken = record {
  one = λ j k a b. inv.one j k (was j a) (was k b);
  held = λ j a. taken;
  asleep = λ j a. (taken, listed j a);
}
  where
    was : (j : ℕ) → update w.places i queued j ≡ holding → w.places j ≡ holding
    was j a = elim (moved w.places i j queued) [
      | inl (_, there) ↦ absurd (ground (arith, there, a))
      | inr kept ↦ sym kept ∙ a
    ]

    listed : (j : ℕ) → update w.places i queued j ≡ queued → In j (w.queue ++ (i ∷ []))
    listed j a = elim (moved w.places i j queued) [
      | inl (same, _) ↦ subst (λ k. In k (w.queue ++ (i ∷ []))) same (In-last w.queue i)
      | inr kept ↦ In-append w.queue (i ∷ []) j (inv.asleep j (sym kept ∙ a)).1
    ]

round-Inv : (w : Locked) (i : ℕ) (others : Bool) → Inv w → Inv (acquire_round i others w)
unfolding acquire_round
round-Inv w i true inv = elim (Bool-cases (w.lock_state == 1)) [
  | inl taken ↦ rw taken (queue-Inv w i inv (ground (arith, taken)))
  | inr free ↦ rw free (take-Inv w i inv free)
]
round-Inv w i false inv = elim (Bool-cases (w.lock_state == 1)) [
  | inl taken ↦ rw taken inv
  | inr free ↦ rw free (take-Inv w i inv free)
]

signal-Inv : (w : Locked) → Inv w → Inv (cv_signal w)
unfolding cv_signal
signal-Inv w inv = signalled w.cv_queue
  where
    signalled : (l : List ℕ) → Inv (wake_first l w)
    signalled [] = inv
    signalled (i ∷ l) =
        Fewer-Inv w (wake_first (i ∷ l) w) inv refl refl
          (move-Fewer w.places i trying (λ e. ground (arith, e)) (λ e. ground (arith, e)))

sleep-Inv : (w : Locked) (i : ℕ) (others : Bool) → Inv w → Inv (cv_sleep i others w)
unfolding cv_sleep
sleep-Inv w i true inv =
    Fewer-Inv w (cv_sleep i true w) inv refl refl
      (move-Fewer w.places i waiting (λ e. ground (arith, e)) (λ e. ground (arith, e)))
sleep-Inv w i false inv =
    Fewer-Inv w (cv_sleep i false w) inv refl refl
      (move-Fewer w.places i trying (λ e. ground (arith, e)) (λ e. ground (arith, e)))

Step-Inv : (w v : Locked) → Inv w → Step w v → Inv v
unfolding cv_broadcast
Step-Inv w v inv (ask i at) =
    Fewer-Inv w (go_to i trying w) inv refl refl
      (move-Fewer w.places i trying (λ e. ground (arith, e)) (λ e. ground (arith, e)))
Step-Inv w v inv (round i others at) = round-Inv w i others inv
Step-Inv w v inv (release i at) =
    let_go-Inv w i outside inv at (λ e. ground (arith, e)) (λ e. ground (arith, e))
Step-Inv w v inv (wait i at) =
    let_go-Inv w i let_go inv at (λ e. ground (arith, e)) (λ e. ground (arith, e))
Step-Inv w v inv (sleep i others at) = sleep-Inv w i others inv
Step-Inv w v inv (signal i at) = signal-Inv w inv
Step-Inv w v inv (broadcast i at) =
    Fewer-Inv w (cv_broadcast w) inv refl refl (wake-Fewer w.cv_queue w.places)

start-Inv : Inv lock_create
start-Inv = record {
  one = λ i j a b. absurd (ground (arith, a));
  held = λ i a. absurd (ground (arith, a));
  asleep = λ i a. absurd (ground (arith, a));
}

pub Run-Inv : (w : Locked) → Run w → Inv w
Run-Inv w start = start-Inv
Run-Inv w (then_step {w = v} r s) = Step-Inv v w (Run-Inv v r) s

-- Whatever the order of the steps, where threads release the lock, wait and signal only while they
-- hold it: two threads never hold the lock together; and a thread sleeps for the lock only while it
-- is taken, and is awake after `lock_release`.
pub lock_exclusion :
    (w : Locked)
    → Run w
    → ((i j : ℕ) → w.places i ≡ holding → w.places j ≡ holding → i ≡ j)
      × ((i : ℕ) → w.places i ≡ queued → (w.lock_state ≡ 1) × ((lock_release w).places i ≡ trying))
unfolding lock_release
lock_exclusion w r =
    let inv = Run-Inv w r in
    (inv.one, λ i a. ((inv.asleep i a).0, wake_all-In w.queue w.places i (inv.asleep i a).1))
