-- ===== src/Webserver/Buffer/Ring.antt =====
-- The indices of the bounded buffer of webserver/server_thread.c as remainders of counters.
use native.Mathlib.Nat.{mod-lt, add-mod_right, mod-add-mod, mod-eq_of_lt, mod-eq-sub-mod}
use ece344lab.Common.{
  ℕ, zero, suc, ◌+◌, ◌-◌, ◌%◌, ◌≤◌, ◌<◌, ◌≡◌, ◌≢◌, refl, sym, ap, ◌∙◌, true, false, List, [], ◌∷◌,
  ◌++◌, ltb, ◌==◌, if◌then◌else◌, arith, dec_lt, length,
}
use ece344lab.Common.Memory.{update}
use ece344lab.Webserver.Buffer.{Server, slots, distance, is_full, is_empty, put, take, message}

-- A step of at most one round.
wrap : (r m n : ℕ) → r < n → m ≤ n → (r + m) % n ≡ (if ltb (r + m) n then r + m else r + m - n)
wrap r m n hr hm = elim (dec_lt (r + m) n) [
  | yes small ↦ let e : ltb (r + m) n ≡ true = ground arith in rw e (mod-eq_of_lt small)
  | no large ↦
      let e : ltb (r + m) n ≡ false = ground arith in
      rw e (mod-eq-sub-mod {n = r + m} {m = n} (omega arith) ∙ last (dec_lt (r + m - n) n))
]
  where
    last : Dec (r + m - n < n) → (r + m - n) % n ≡ r + m - n
    last (yes lt) = mod-eq_of_lt lt
    last (no ge) = absurd (omega arith)

module _ (n : ℕ) (some_slot : 0 < n) where
  -- From counter `b`, `m` on.
  ahead : (b m : ℕ) → m < n → (b + m) % n ≡ (if ltb (b % n + m) n then b % n + m else b % n + m - n)
  ahead b m lt = sym (mod-add-mod b n m) ∙ wrap (b % n) m n (mod-lt b some_slot) (omega arith)

  apart : (b d : ℕ) → 0 < d → d < n → (b + d) % n ≢ b % n
  apart b d pos lt = ground (arith, ahead b d lt, mod-lt b some_slot)

  -- What the code computes from the two indices is the number of requests that wait.
  distance-lem : (b m : ℕ) → m < n → ((b + m) % n + n - b % n) % n ≡ m
  distance-lem b m lt = elim (dec_lt (b % n + m) n) [
    | yes small ↦
        let e : (b + m) % n + n - b % n ≡ m + n = ground (arith, ahead b m lt) in
        rw e (add-mod_right m n ∙ mod-eq_of_lt lt)
    | no large ↦
        let e : (b + m) % n + n - b % n ≡ m = ground (arith, ahead b m lt, mod-lt b some_slot) in
        rw e (mod-eq_of_lt lt)
  ]

-- The requests that wait: `m` of them from counter `b`.
unfoldable pub pending : (ℕ → ℕ) → ℕ → ℕ → ℕ → List ℕ
pending buf n b zero = []
pending buf n b (suc m) = buf (b % n) ∷ pending buf n (b + 1) m

-- Writing behind the last one that waits appends; `m + 1` must fit.
pending-update :
    (buf : ℕ → ℕ) (n b m x : ℕ)
    → m < n
    → pending (update buf ((b + m) % n) x) n b (suc m) ≡ pending buf n b m ++ (x ∷ [])
unfolding pending
pending-update buf n b zero x lt =
    let same : ((b + 0) % n == b % n) ≡ true = ground arith in rw same refl
pending-update buf n b (suc m) x lt =
    let other : ((b + suc m) % n == b % n) ≡ false =
      ground (arith, apart n (omega arith) b (suc m) (omega arith) lt) in
    let shift : b + suc m ≡ b + 1 + m = omega arith in
    rw other (
      ap (λ l. buf (b % n) ∷ l)
        (ap (λ k. pending (update buf (k % n) x) n (b + 1) (suc m)) shift
          ∙ pending-update buf n (b + 1) m x (omega arith)))

-- The buffer holds the `m` requests from counter `b` on.
pub record Holds (s : Server) (b m : ℕ) : Type 0 where
  pub bound : m ≤ s.max_requests
  pub in_is : s.in_at ≡ (b + m) % slots s
  pub out_is : s.out_at ≡ b % slots s

abbrev pub waiting : Server → ℕ → ℕ → List ℕ
waiting s b m = pending s.buf (slots s) b m

module _ (s : Server) (b m : ℕ) (h : Holds s b m) where
  pub distance-Holds : distance s ≡ m
  distance-Holds =
      rw (h.in_is, h.out_is) (distance-lem (slots s) (omega arith) b m (omega (arith, h.bound)))

  -- The tests of the code.
  pub is_full-Holds : is_full s ≡ (m == s.max_requests)
  is_full-Holds = ap (λ d. d == s.max_requests) distance-Holds

  pub is_empty-Holds : is_empty s ≡ (m == 0)
  is_empty-Holds = ground (arith, h.in_is, h.out_is, apart (slots s) (omega arith) b m, h.bound)

  -- `put` with room appends.
  pub put-Holds : (x : ℕ) → m < s.max_requests → Holds (put x s) b (suc m)
  put-Holds x room = record {
    bound = room;
    in_is =
        ap (λ k. (k + 1) % slots s) h.in_is
        ∙ mod-add-mod (b + m) (slots s) 1
        ∙ ap (λ k. k % slots s) (omega arith);
    out_is = h.out_is;
  }

  pub put-waiting :
      (x : ℕ) → m < s.max_requests → waiting (put x s) b (suc m) ≡ waiting s b m ++ (x ∷ [])
  put-waiting x room =
      ap (λ k. pending (update s.buf k x) (slots s) b (suc m)) h.in_is
      ∙ pending-update s.buf (slots s) b m x (omega arith)

-- `take` takes the first.
pub take-Holds : (s : Server) (b m : ℕ) → Holds s b (suc m) → Holds (take s) (b + 1) m
take-Holds s b m h = record {
  bound = omega (arith, h.bound);
  in_is = h.in_is ∙ ap (λ k. k % slots s) (omega arith);
  out_is = ap (λ k. (k + 1) % slots s) h.out_is ∙ mod-add-mod b (slots s) 1;
}

pub take-waiting :
    (s : Server) (b m : ℕ)
    → Holds s b (suc m)
    → waiting s b (suc m) ≡ message s ∷ waiting (take s) (b + 1) m
unfolding pending
take-waiting s b m h = ap (λ k. s.buf k ∷ waiting s (b + 1) m) (sym h.out_is)

pub length-pending : (buf : ℕ → ℕ) (n b m : ℕ) → length (pending buf n b m) ≡ m
unfolding pending
length-pending buf n b zero = refl
length-pending buf n b (suc m) = ap suc (length-pending buf n (b + 1) m)
