-- ===== src/Common/Bytes.antt =====
-- Words in memory, lowest byte first, as `memcpy` and casts of a block see them.
use Prim.Native.Nat.{ℕ, ◌+◌, ◌*◌, ◌/◌, ◌%◌, ◌^◌, ◌≤◌, ◌<◌}
use mathlib.Core.Path.{◌≡◌}
use mathlib.Core.Logic.{◌⊎◌, inl, inr}
use native.Mathlib.Omega.{arith}
use ece344lab.Common.Memory.{update}

abbrev pub Memory : Type 0
Memory = ℕ → ℕ

unfoldable pub load_u32 : Memory → ℕ → ℕ
load_u32 m i = m i + 256 * m (i + 1) + 65536 * m (i + 2) + 16777216 * m (i + 3)

unfoldable pub store_u32 : Memory → ℕ → ℕ → Memory
store_u32 m i x =
    update
      (update (update (update m i (x % 256)) (i + 1) (x / 256 % 256)) (i + 2) (x / 65536 % 256))
      (i + 3) (x / 16777216 % 256)

unfoldable pub load_u64 : Memory → ℕ → ℕ
load_u64 m i = load_u32 m i + 2 ^ 32 * load_u32 m (i + 4)

unfoldable pub store_u64 : Memory → ℕ → ℕ → Memory
store_u64 m i x = store_u32 (store_u32 m i (x % 2 ^ 32)) (i + 4) (x / 2 ^ 32)

-- A word that is stored is read back.
pub load-store : (m : Memory) (i x : ℕ) → x < 2 ^ 32 → load_u32 (store_u32 m i x) i ≡ x
unfolding load_u32 store_u32
load-store m i x h = ground arith

-- A store leaves the words beside it.
pub load-store_apart :
    (m : Memory) (i j x : ℕ)
    → (i + 4 ≤ j) ⊎ (j + 4 ≤ i)
    → load_u32 (store_u32 m i x) j ≡ load_u32 m j
unfolding load_u32 store_u32
load-store_apart m i j x (inl h) = ground arith
load-store_apart m i j x (inr h) = ground arith

pub load_u32-lt : (m : Memory) (i : ℕ) → ((j : ℕ) → m j < 256) → load_u32 m i < 2 ^ 32
unfolding load_u32
load_u32-lt m i h = omega (arith, h i, h (i + 1), h (i + 2), h (i + 3))

pub store_u32-byte :
    (m : Memory) (i x : ℕ) → ((j : ℕ) → m j < 256) → (j : ℕ) → store_u32 m i x j < 256
unfolding store_u32
store_u32-byte m i x h j = ground (arith, h j)

pub load_u64-store : (m : Memory) (i x : ℕ) → x < 2 ^ 64 → load_u64 (store_u64 m i x) i ≡ x
unfolding load_u64 store_u64
load_u64-store m i x h = omega (
  arith,
  load-store_apart (store_u32 m i (x % 2 ^ 32)) (i + 4) i (x / 2 ^ 32) (inr (omega arith)),
  load-store m i (x % 2 ^ 32) (omega arith),
  load-store (store_u32 m i (x % 2 ^ 32)) (i + 4) (x / 2 ^ 32) (omega arith),
)
