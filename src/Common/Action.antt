-- ===== src/Common/Action.antt =====
-- A C function over a state. `ok` and `err` are an `int` result at least 0 (with what goes through
-- the out parameters) and a negative one, `err e` for `-e`. `abort` is a failed `assert`, `exited`
-- the `EXIT` macro, and `fault` an access outside an object.
use Prim.Native.Nat.{ℕ, suc}
use mathlib.Core.Bool.{Bool, true, false}
use ece344lab.Common.Int.{ℤ, pos, negsuc}

pub data Outcome (S A : Type 0) : Type 0 where
  ok : A → S → Outcome S A
  err : ℕ → S → Outcome S A
  abort : Outcome S A
  exited : Outcome S A
  fault : Outcome S A

abbrev pub Action : Type 0 → Type 0 → Type 0
Action S A = S → Outcome S A

-- An `int` result on its own.
pub data Ret (A : Type 0) : Type 0 where
  value : A → Ret A
  error : ℕ → Ret A

abbrev pub pure : {S A : Type 0} → A → Action S A
pure a s = ok a s

-- `return -e`
abbrev pub fail : {S A : Type 0} → ℕ → Action S A
fail e s = err e s

-- `return n` of an `int`
abbrev pub return_int : {S : Type 0} → ℤ → Action S ℕ
return_int (pos n) s = ok n s
return_int (negsuc n) s = err (suc n) s

-- What follows a call: `if (ret < 0) return ret` is the second case.
abbrev pub continue : {S A B : Type 0} → (A → Action S B) → Outcome S A → Outcome S B
continue f (ok a s) = f a s
continue f (err e s) = err e s
continue f abort = abort
continue f exited = exited
continue f fault = fault

infixl 5 ◌>>=◌ ◌>>◌
abbrev pub ◌>>=◌ : {S A B : Type 0} → Action S A → (A → Action S B) → Action S B
◌>>=◌ m f s = continue f (m s)

abbrev pub ◌>>◌ : {S B : Type 0} → Action S (Unit {0}) → Action S B → Action S B
m >> k = m >>= λ _. k

-- A call whose `int` result is looked at by the caller.
abbrev pub attempt : {S A : Type 0} → Action S A → Action S (Ret A)
attempt m s = elim (m s) [
  | ok a t ↦ ok (value a) t
  | err e t ↦ ok (error e) t
  | abort ↦ abort
  | exited ↦ exited
  | fault ↦ fault
]

abbrev pub assert : {S : Type 0} → Bool → Action S (Unit {0})
assert true s = ok tt s
assert false s = abort

abbrev pub gets : {S A : Type 0} → (S → A) → Action S A
gets f s = ok (f s) s

abbrev pub modify : {S : Type 0} → (S → S) → Action S (Unit {0})
modify f s = ok tt (f s)

-- An action on a part of the state.
abbrev pub put_back : {S T A : Type 0} → (T → S) → Outcome T A → Outcome S A
put_back set (ok a t) = ok a (set t)
put_back set (err e t) = err e (set t)
put_back set abort = abort
put_back set exited = exited
put_back set fault = fault

abbrev pub zoom : {S T A : Type 0} → (S → T) → (T → S → S) → Action T A → Action S A
zoom get set m s = put_back (λ t. set t s) (m (get s))

-- `errno` codes that the sources return.
abbrev pub enomem : ℕ
enomem = 12

abbrev pub einval : ℕ
einval = 22

abbrev pub enospc : ℕ
enospc = 28

abbrev pub efbig : ℕ
efbig = 27
