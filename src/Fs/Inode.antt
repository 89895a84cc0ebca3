-- ===== src/Fs/Inode.antt =====
pub mod Blocks
pub mod Codec
-- The structures of fs/inode.h, and the functions of fs/inode.c that allocate and free the blocks of
-- one inode.
use ece344lab.Common.{ℕ, zero, suc, ◌+◌, ◌*◌, Bool, true, false, if◌then◌else◌}
use ece344lab.Common.Bytes.{Memory, load_u32, store_u32, load_u64, store_u64}
use ece344lab.Common.Int.{ℤ, pos, negsuc, add_ℕ, is_zero, to_u32, to_s32, to_u64, to_s64}
use ece344lab.Common.Action.{Outcome, Action, ok, pure, modify, zoom, ◌>>=◌, ◌>>◌}
use ece344lab.Fs.Layout.{nr_direct_blocks}
use ece344lab.Fs.Block.{zero_block}
use ece344lab.Fs.Super.{SuperBlock, testfs_alloc_block, testfs_free_block}

-- `struct dinode`. `i_block_nr` has ten elements, and the code reads no other.
pub record Dinode : Type 0 where
  pub i_type : ℤ
  pub i_block_nr : ℕ → ℤ
  pub i_indirect : ℤ
  pub i_dindirect : ℤ
  pub block_count : ℤ
  pub i_size : ℤ

-- `struct inode`; `dirty` is `I_FLAGS_DIRTY`, the only flag.
pub record Inode : Type 0 where
  pub in_disk : Dinode
  pub dirty : Bool
  pub i_nr : ℕ
  pub i_count : ℤ

-- The inode that a function works on, with its super block.
pub record Io : Type 0 where
  pub super : SuperBlock
  pub node : Inode

abbrev pub on_super : {A : Type 0} → Action SuperBlock A → Action Io A
on_super = zoom (λ s. s.super) (λ t s. record s { super = t })

abbrev pub set_disk : (Dinode → Dinode) → Io → Io
set_disk f s = record s { node = record s.node { in_disk = f s.node.in_disk } }

abbrev pub set_dirty : Io → Io
set_dirty s = record s { node = record s.node { dirty = true } }

-- `block_count` up or down by one, as an `int`.
abbrev pub count_up : Dinode → Dinode
count_up d = record d { block_count = to_s32 (to_u32 d.block_count + 1) }

abbrev pub count_down : Dinode → Dinode
count_down d = record d { block_count = to_s32 (to_u32 d.block_count + 0xffff_ffff) }

unfoldable pub testfs_alloc_block_for_inode : Action Io ℕ
testfs_alloc_block_for_inode = do
  phy_block_nr ← on_super testfs_alloc_block
  modify (set_disk count_up)
  modify set_dirty
  pure phy_block_nr

-- `testfs_free_block_from_inode` past its test for 0.
unfoldable pub give_back : ℤ → Action Io (Unit {0})
give_back phy_block_nr = do
  on_super (testfs_free_block phy_block_nr)
  modify (set_disk count_down)
  modify set_dirty

unfoldable pub testfs_free_block_from_inode : ℤ → Action Io (Unit {0})
testfs_free_block_from_inode phy_block_nr s =
    if is_zero phy_block_nr then ok tt s else give_back phy_block_nr s

-- `memcpy` of a `struct dinode` to and from its 64 bytes.
unfoldable pub store_blocks : ℕ → ℕ → (ℕ → ℤ) → Memory → Memory
store_blocks zero k nr m = m
store_blocks (suc n) k nr m = store_blocks n (k + 1) nr (store_u32 m (4 + 4 * k) (to_u32 (nr k)))

unfoldable pub encode_dinode : Dinode → Memory
unfolding store_blocks
encode_dinode d =
    store_u64
      (store_u32
        (store_u32
          (store_u32
            (store_blocks nr_direct_blocks 0 d.i_block_nr
              (store_u32 zero_block 0 (to_u32 d.i_type)))
            44 (to_u32 d.i_indirect))
          48 (to_u32 d.i_dindirect))
        52 (to_u32 d.block_count))
      56 (to_u64 d.i_size)

unfoldable pub decode_dinode : Memory → Dinode
decode_dinode m = record {
  i_type = to_s32 (load_u32 m 0);
  i_block_nr = λ k. to_s32 (load_u32 m (4 + 4 * k));
  i_indirect = to_s32 (load_u32 m 44);
  i_dindirect = to_s32 (load_u32 m 48);
  block_count = to_s32 (load_u32 m 52);
  i_size = to_s64 (load_u64 m 56);
}
