-- ===== src/Fs/ReadWrite/Release.antt =====
-- `testfs_free_blocks` of fs/read_write.c. Its stores of 0 into the local copies of the tables are
-- left out: no later line reads them.
use ece344lab.Common.{ℕ, zero, suc, ◌+◌, ◌-◌, ltb, if◌then◌else◌}
use ece344lab.Common.Bytes.{Memory}
use ece344lab.Common.Int.{
  ℤ, pos, negsuc, is_zero, is_positive, add_ℕ, sub_ℕ, div_ℕ, ltb_ℤ, to_s32, to_u32,
}
use ece344lab.Common.Action.{Action, pure, gets, modify, ◌>>=◌, ◌>>◌}
use ece344lab.Fs.Layout.{block_size, nr_direct_blocks, nr_indirect_blocks}
use ece344lab.Fs.Block.{zero_block}
use ece344lab.Fs.Inode.{Io, set_disk, set_dirty, testfs_free_block_from_inode}
use ece344lab.Fs.ReadWrite.{read_one, int_at}
use ece344lab.Fs.ReadWrite.Allocate.{
  set_direct, set_indirect, set_dindirect, free_indirect, free_dindirect,
}
use ece344lab.Fs.ReadWrite.Data.{set_size}

abbrev pub free_slot : ℕ → Action Io (Unit {0})
free_slot i s =
    (if is_zero (s.node.in_disk.i_block_nr i) then pure tt else (do
      testfs_free_block_from_inode (s.node.in_disk.i_block_nr i)
      modify (set_disk (set_direct i (pos 0)))))
      s

-- The direct blocks: `n` rounds from `i`, while `i < e_block_nr`.
pub free_direct : ℕ → ℕ → ℤ → Action Io (Unit {0})
free_direct zero i e = pure tt
free_direct (suc n) i e =
    let rest = free_direct n (i + 1) e in if ltb_ℤ i e then (do free_slot i; rest) else pure tt

-- The entries of a table, in the same way.
pub free_table : ℕ → ℕ → ℤ → Memory → Action Io (Unit {0})
free_table zero i e block = pure tt
free_table (suc n) i e block =
    let rest = free_table n (i + 1) e block in
    if ltb_ℤ i e then (do testfs_free_block_from_inode (int_at block i); rest) else pure tt

pub free_indirect_blocks : ℤ → Action Io (Unit {0})
unfolding free_table
free_indirect_blocks e s =
    let nr = s.node.in_disk.i_indirect in
    (if is_positive nr
        then (do
          block ← read_one zero_block nr
          free_table nr_indirect_blocks 0 e block
          free_indirect
          modify (set_disk (set_indirect (pos 0))))
        else pure tt)
      s

-- A table of the double indirect block, while `deleted < e_block_nr`; returns `deleted`.
pub free_leaves : ℕ → ℕ → ℕ → ℕ → Memory → Action Io ℕ
free_leaves zero j deleted e block = pure deleted
free_leaves (suc n) j deleted e block =
    let rest = free_leaves n (j + 1) (deleted + 1) e block in
    if ltb deleted e then (do testfs_free_block_from_inode (int_at block j); rest) else pure deleted

pub free_entry : ℕ → ℕ → ℤ → Action Io ℕ
unfolding free_leaves
free_entry deleted e entry =
    if is_positive entry
    then (do
      single_block ← read_one zero_block entry
      deleted' ← free_leaves nr_indirect_blocks 0 deleted e single_block
      testfs_free_block_from_inode entry
      pure deleted')
    else pure (deleted + nr_indirect_blocks)

pub free_entries : ℕ → ℕ → ℕ → ℕ → Memory → Action Io (Unit {0})
unfolding free_entry
free_entries zero i deleted e block = pure tt
free_entries (suc n) i deleted e block =
    let rest = λ (k : ℕ). free_entries n (i + 1) k e block in
    if ltb deleted e then free_entry deleted e (int_at block i) >>= rest else pure tt

-- Runs if `e_block_nr >= 0`, whether or not there is a double indirect block.
pub free_dindirect_blocks : ℤ → Action Io (Unit {0})
unfolding free_entries
free_dindirect_blocks (negsuc k) = pure tt
free_dindirect_blocks (pos e) = do
  nr ← gets (λ s. s.node.in_disk.i_dindirect)
  block ← read_one zero_block nr
  free_entries nr_indirect_blocks 0 0 e block
  free_dindirect
  modify (set_disk (set_dindirect (pos 0)))

-- `e_block_nr`: `DIVROUNDUP` of the size, as an `int`.
abbrev pub end_block : ℤ → ℤ
end_block i_size = to_s32 (to_u32 (div_ℕ (add_ℕ i_size (block_size - 1)) block_size))

unfoldable pub testfs_free_blocks : Action Io (Unit {0})
unfolding free_direct free_indirect_blocks free_dindirect_blocks
testfs_free_blocks = do
  e ← gets (λ s. end_block s.node.in_disk.i_size)
  free_direct nr_direct_blocks 0 e
  free_indirect_blocks (sub_ℕ e nr_direct_blocks)
  free_dindirect_blocks (sub_ℕ (sub_ℕ e nr_direct_blocks) nr_indirect_blocks)
  modify (set_disk (set_size (pos 0)))
  modify set_dirty
