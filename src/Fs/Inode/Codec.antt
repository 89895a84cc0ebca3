-- ===== src/Fs/Inode/Codec.antt =====
-- `struct dinode` of fs/inode.h in its 64 bytes, as fs/inode.c copies it to a block and back.
use ece344lab.Common.{
  ℕ, zero, suc, ◌+◌, ◌*◌, ◌/◌, ◌%◌, ◌^◌, ◌≤◌, ◌<◌, ◌≡◌, refl, subst, ap, ◌∙◌, inl, inr, ◌⊎◌, arith,
  ℕ_discrete,
}
use ece344lab.Common.Bytes.{
  Memory, load_u32, store_u32, store_u64, load-store, load-store_apart, load_u64-store,
}
use ece344lab.Common.Int.{
  ℤ, to_u32, to_s32, to_u64, to_s64, InS32, InS64, to_s32-to_u32, to_s64-to_u64, to_u32-lt,
  to_u64-lt,
}
use ece344lab.Fs.Layout.{nr_direct_blocks}
use ece344lab.Fs.Block.{zero_block}
use ece344lab.Fs.Inode.{Dinode, store_blocks, encode_dinode, decode_dinode}

-- The fields are `s32` and `off_t` values.
pub record InRange (d : Dinode) : Type 0 where
  pub kind : InS32 d.i_type
  pub direct : (k : ℕ) → k < nr_direct_blocks → InS32 (d.i_block_nr k)
  pub indirect : InS32 d.i_indirect
  pub dindirect : InS32 d.i_dindirect
  pub count : InS32 d.block_count
  pub size : InS64 d.i_size

-- The same but for elements of `i_block_nr` that do not exist.
pub record Same (c d : Dinode) : Type 0 where
  pub kind : c.i_type ≡ d.i_type
  pub direct : (k : ℕ) → k < nr_direct_blocks → c.i_block_nr k ≡ d.i_block_nr k
  pub indirect : c.i_indirect ≡ d.i_indirect
  pub dindirect : c.i_dindirect ≡ d.i_dindirect
  pub count : c.block_count ≡ d.block_count
  pub size : c.i_size ≡ d.i_size

-- A word below 44 of the block is not touched by the fields after it.
store_u64-apart :
    (m : Memory) (i j x : ℕ)
    → (j + 4 ≤ i) ⊎ (i + 8 ≤ j)
    → load_u32 (store_u64 m i x) j ≡ load_u32 m j
unfolding store_u64
store_u64-apart m i j x (inl h) =
    load-store_apart (store_u32 m i (x % 2 ^ 32)) (i + 4) j (x / 2 ^ 32) (inr (omega arith))
    ∙ load-store_apart m i j (x % 2 ^ 32) (inr h)
store_u64-apart m i j x (inr h) =
    load-store_apart (store_u32 m i (x % 2 ^ 32)) (i + 4) j (x / 2 ^ 32) (inl (omega arith))
    ∙ load-store_apart m i j (x % 2 ^ 32) (inl (omega arith))

store_blocks-apart :
    (n k : ℕ) (nr : ℕ → ℤ) (m : Memory) (j : ℕ)
    → j + 4 ≤ 4 + 4 * k
    → load_u32 (store_blocks n k nr m) j ≡ load_u32 m j
unfolding store_blocks
store_blocks-apart zero k nr m j h = refl
store_blocks-apart (suc n) k nr m j h =
    store_blocks-apart n (k + 1) nr (store_u32 m (4 + 4 * k) (to_u32 (nr k))) j (omega arith)
    ∙ load-store_apart m (4 + 4 * k) j (to_u32 (nr k)) (inr h)

store_blocks-at :
    (n k : ℕ) (nr : ℕ → ℤ) (m : Memory) (i : ℕ)
    → k ≤ i
    → i < k + n
    → load_u32 (store_blocks n k nr m) (4 + 4 * i) ≡ to_u32 (nr i)
unfolding store_blocks
store_blocks-at zero k nr m i lo hi = absurd (omega arith)
store_blocks-at (suc n) k nr m i lo hi = elim (ℕ_discrete k i) [
  | yes e ↦
      store_blocks-apart n (k + 1) nr (store_u32 m (4 + 4 * k) (to_u32 (nr k))) (4 + 4 * i)
        (omega arith)
      ∙ subst (λ x. load_u32 (store_u32 m (4 + 4 * k) (to_u32 (nr k))) (4 + 4 * x) ≡ to_u32 (nr x))
          e (load-store m (4 + 4 * k) (to_u32 (nr k)) (to_u32-lt (nr k)))
  | no ne ↦
      store_blocks-at n (k + 1) nr (store_u32 m (4 + 4 * k) (to_u32 (nr k))) i (omega arith)
        (omega arith)
]

module _ (d : Dinode) where
  -- The block as it is filled.
  abbrev with_type : Memory
  with_type = store_u32 zero_block 0 (to_u32 d.i_type)

  abbrev with_blocks : Memory
  with_blocks = store_blocks nr_direct_blocks 0 d.i_block_nr with_type

  abbrev with_indirect : Memory
  with_indirect = store_u32 with_blocks 44 (to_u32 d.i_indirect)

  abbrev with_dindirect : Memory
  with_dindirect = store_u32 with_indirect 48 (to_u32 d.i_dindirect)

  abbrev with_count : Memory
  with_count = store_u32 with_dindirect 52 (to_u32 d.block_count)

  abbrev with_size : Memory
  with_size = store_u64 with_count 56 (to_u64 d.i_size)

  -- A word of `i_type` or `i_block_nr` stays.
  kept : (j : ℕ) → j + 4 ≤ 44 → load_u32 with_size j ≡ load_u32 with_blocks j
  kept j h =
      store_u64-apart with_count 56 j (to_u64 d.i_size) (inl (omega arith))
      ∙ load-store_apart with_dindirect 52 j (to_u32 d.block_count) (inr (omega arith))
      ∙ load-store_apart with_indirect 48 j (to_u32 d.i_dindirect) (inr (omega arith))
      ∙ load-store_apart with_blocks 44 j (to_u32 d.i_indirect) (inr (omega arith))

  at_type : load_u32 with_size 0 ≡ to_u32 d.i_type
  at_type =
      kept 0 (omega arith)
      ∙ store_blocks-apart nr_direct_blocks 0 d.i_block_nr with_type 0 (omega arith)
      ∙ load-store zero_block 0 (to_u32 d.i_type) (to_u32-lt d.i_type)

  at_direct :
      (k : ℕ) → k < nr_direct_blocks → load_u32 with_size (4 + 4 * k) ≡ to_u32 (d.i_block_nr k)
  at_direct k lt =
      kept (4 + 4 * k) (omega arith)
      ∙ store_blocks-at nr_direct_blocks 0 d.i_block_nr with_type k (omega arith) (omega arith)

  at_indirect : load_u32 with_size 44 ≡ to_u32 d.i_indirect
  at_indirect =
      store_u64-apart with_count 56 44 (to_u64 d.i_size) (inl (omega arith))
      ∙ load-store_apart with_dindirect 52 44 (to_u32 d.block_count) (inr (omega arith))
      ∙ load-store_apart with_indirect 48 44 (to_u32 d.i_dindirect) (inr (omega arith))
      ∙ load-store with_blocks 44 (to_u32 d.i_indirect) (to_u32-lt d.i_indirect)

  at_dindirect : load_u32 with_size 48 ≡ to_u32 d.i_dindirect
  at_dindirect =
      store_u64-apart with_count 56 48 (to_u64 d.i_size) (inl (omega arith))
      ∙ load-store_apart with_dindirect 52 48 (to_u32 d.block_count) (inr (omega arith))
      ∙ load-store with_indirect 48 (to_u32 d.i_dindirect) (to_u32-lt d.i_dindirect)

  at_count : load_u32 with_size 52 ≡ to_u32 d.block_count
  at_count =
      store_u64-apart with_count 56 52 (to_u64 d.i_size) (inl (omega arith))
      ∙ load-store with_dindirect 52 (to_u32 d.block_count) (to_u32-lt d.block_count)

-- Reading back an inode that was written gives the same inode, for fields in range.
pub decode-encode_dinode : (d : Dinode) → InRange d → Same (decode_dinode (encode_dinode d)) d
unfolding decode_dinode encode_dinode
decode-encode_dinode d r = record {
  kind = ap to_s32 (at_type d) ∙ to_s32-to_u32 d.i_type r.kind;
  direct = λ k lt. ap to_s32 (at_direct d k lt) ∙ to_s32-to_u32 (d.i_block_nr k) (r.direct k lt);
  indirect = ap to_s32 (at_indirect d) ∙ to_s32-to_u32 d.i_indirect r.indirect;
  dindirect = ap to_s32 (at_dindirect d) ∙ to_s32-to_u32 d.i_dindirect r.dindirect;
  count = ap to_s32 (at_count d) ∙ to_s32-to_u32 d.block_count r.count;
  size =
      ap to_s64 (load_u64-store (with_count d) 56 (to_u64 d.i_size) (to_u64-lt d.i_size))
      ∙ to_s64-to_u64 d.i_size r.size;
}
