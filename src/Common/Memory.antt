-- ===== src/Common/Memory.antt =====
-- Memory as a function from an index: an array of a C program, a block, a disk.
use Prim.Native.Nat.{ℕ, ◌+◌, ◌-◌}
use mathlib.Core.Path.{◌≡◌, fun_ext}
use mathlib.Core.Bool.{◌&&◌}
use native.Mathlib.Omega.{arith}
use ece344lab.Common.Tests.{◌==◌, ltb, leb, if◌then◌else◌}

-- `m[i] = v`
abbrev pub update {ℓ} : {A : Type ℓ} → (ℕ → A) → ℕ → A → ℕ → A
update m i v j = if i == j then v else m j

-- `memcpy(m + to, src + from, n)`
abbrev pub copy {ℓ} : {A : Type ℓ} → (ℕ → A) → ℕ → (ℕ → A) → ℕ → ℕ → ℕ → A
copy m to src from n j = if leb to j && ltb j (to + n) then src (from + (j - to)) else m j

pub update_self {ℓ} : {A : Type ℓ} (m : ℕ → A) (i : ℕ) → update m i (m i) ≡ m
update_self m i = fun_ext λ j. ground arith
