-- ===== src/Fs/ReadWrite/Allocate.antt =====
-- `testfs_allocate_block` of fs/read_write.c. The local buffers `indirect` and `dindirect` are
-- filled before they are read, so they start as zeroes here.
use ece344lab.Common.{ℕ, ◌-◌, ◌*◌, ◌/◌, ◌%◌, Bool, true, false, ltb, leb, ◌==◌, if◌then◌else◌}
use ece344lab.Common.Memory.{update}
use ece344lab.Common.Bytes.{Memory}
use ece344lab.Common.Int.{ℤ, pos, negsuc, is_zero}
use ece344lab.Common.Action.{
  Action, Ret, value, error, abort, pure, fail, assert, gets, modify, attempt, ◌>>=◌, ◌>>◌, efbig,
}
use ece344lab.Fs.Layout.{nr_direct_blocks, nr_indirect_blocks}
use ece344lab.Fs.Block.{zero_block}
use ece344lab.Fs.Inode.{
  Dinode, Io, set_disk, testfs_alloc_block_for_inode, testfs_free_block_from_inode,
}
use ece344lab.Fs.ReadWrite.{read_one, write_one, int_at, set_int, testfs_read_block}

abbrev pub set_direct : ℕ → ℤ → Dinode → Dinode
set_direct n z d = record d { i_block_nr = update d.i_block_nr n z }

abbrev pub set_indirect : ℤ → Dinode → Dinode
set_indirect z d = record d { i_indirect = z }

abbrev pub set_dindirect : ℤ → Dinode → Dinode
set_dindirect z d = record d { i_dindirect = z }

-- A direct block: `n < NR_DIRECT_BLOCKS`.
unfoldable pub allocate_direct : ℕ → Action Io ℕ
allocate_direct n = do
  old ← gets (λ s. s.node.in_disk.i_block_nr n)
  assert (is_zero old)
  phy_block_nr ← testfs_alloc_block_for_inode
  modify (set_disk (set_direct n (pos phy_block_nr)))
  pure phy_block_nr

-- The double indirect table, and whether it was allocated.
unfoldable pub get_dindirect : Action Io (Memory × Bool)
get_dindirect s =
    (if is_zero s.node.in_disk.i_dindirect
        then (do
          phy_block_nr ← testfs_alloc_block_for_inode
          modify (set_disk (set_dindirect (pos phy_block_nr)))
          pure (zero_block, true))
        else (do
          dindirect ← read_one zero_block s.node.in_disk.i_dindirect
          pure (dindirect, false)))
      s

-- `testfs_free_block_from_inode(in, in->in.i_dindirect)`, and the same of `i_indirect`.
abbrev pub free_dindirect : Action Io (Unit {0})
free_dindirect s = testfs_free_block_from_inode s.node.in_disk.i_dindirect s

abbrev pub free_indirect : Action Io (Unit {0})
free_indirect s = testfs_free_block_from_inode s.node.in_disk.i_indirect s

-- What follows the allocation of an entry of the table: `indirect`, `dindirect` and
-- `indirect_allocated`. A failure returns only if the table itself was allocated just now.
abbrev pub entry_allocated : ℕ → Memory → Bool → Ret ℕ → Action Io (Memory × Memory × Bool)
entry_allocated position dindirect true (error e) = do free_dindirect; fail e
entry_allocated position dindirect false (error e) = pure (zero_block, dindirect, false)
entry_allocated position dindirect d_allocated (value phy_block_nr) = do
  let table = set_int dindirect position (pos phy_block_nr)
  dindirect_nr ← gets (λ s. s.node.in_disk.i_dindirect)
  write_one table dindirect_nr
  pure (zero_block, table, true)

unfoldable pub get_entry : ℕ → Memory → Bool → Action Io (Memory × Memory × Bool)
get_entry position dindirect d_allocated =
    if is_zero (int_at dindirect position)
    then (do
      r ← attempt testfs_alloc_block_for_inode
      entry_allocated position dindirect d_allocated r)
    else (do
      indirect ← read_one zero_block (int_at dindirect position)
      pure (indirect, dindirect, false))

-- The cleanup after the last allocation failed.
abbrev pub undo_dindirect : ℤ → Bool → Bool → Action Io (Unit {0})
undo_dindirect entry true i_allocated = do testfs_free_block_from_inode entry; free_dindirect
undo_dindirect entry false true = testfs_free_block_from_inode entry
undo_dindirect entry false false = pure tt

abbrev pub leaf_allocated : ℕ → Memory → ℤ → Bool → Bool → Ret ℕ → Action Io ℕ
leaf_allocated k indirect entry d_allocated i_allocated (error e) = do
  undo_dindirect entry d_allocated i_allocated
  fail e
leaf_allocated k indirect entry d_allocated i_allocated (value phy_block_nr) = do
  write_one (set_int indirect k (pos phy_block_nr)) entry
  pure phy_block_nr

-- Block `m` past the indirect ones.
unfoldable pub allocate_dindirect : ℕ → Action Io ℕ
unfolding get_dindirect get_entry
allocate_dindirect m s =
    (if leb (nr_indirect_blocks * nr_indirect_blocks) m then fail efbig else (do
      (dindirect, d_allocated) ← get_dindirect
      (indirect, table, i_allocated) ← get_entry (m / nr_indirect_blocks) dindirect d_allocated
      assert (is_zero (int_at indirect (m % nr_indirect_blocks)))
      r ← attempt testfs_alloc_block_for_inode
      leaf_allocated (m % nr_indirect_blocks) indirect (int_at table (m / nr_indirect_blocks))
          d_allocated i_allocated r))
      s

-- The indirect table, and whether it was allocated.
abbrev pub keep_indirect : ℕ → Action Io (Memory × Bool)
keep_indirect phy_block_nr = do
  modify (set_disk (set_indirect (pos phy_block_nr)))
  pure (zero_block, true)

unfoldable pub get_indirect : Action Io (Memory × Bool)
get_indirect s =
    (if is_zero s.node.in_disk.i_indirect
        then testfs_alloc_block_for_inode >>= keep_indirect
        else (do indirect ← read_one zero_block s.node.in_disk.i_indirect; pure (indirect, false)))
      s

-- What follows the allocation of the block itself.
abbrev pub slot_allocated : ℕ → Memory → Bool → Ret ℕ → Action Io ℕ
slot_allocated k indirect i_allocated (value phy_block_nr) = do
  indirect_nr ← gets (λ s. s.node.in_disk.i_indirect)
  write_one (set_int indirect k (pos phy_block_nr)) indirect_nr
  pure phy_block_nr
slot_allocated k indirect true (error e) = do free_indirect; fail e
slot_allocated k indirect false (error e) = fail e

abbrev pub fill_indirect : ℕ → Memory × Bool → Action Io ℕ
fill_indirect k (indirect, i_allocated) = do
  assert (is_zero (int_at indirect k))
  r ← attempt testfs_alloc_block_for_inode
  slot_allocated k indirect i_allocated r

-- Block `k` past the direct ones, `k < NR_INDIRECT_BLOCKS`.
unfoldable pub allocate_indirect : ℕ → Action Io ℕ
unfolding get_indirect
allocate_indirect k = get_indirect >>= fill_indirect k

-- What the three cases do once the block is known to be missing.
unfoldable pub allocate_missing : ℕ → Action Io ℕ
unfolding allocate_direct allocate_indirect allocate_dindirect
allocate_missing n =
    let k = n - nr_direct_blocks in
    if ltb n nr_direct_blocks
    then allocate_direct n
    else if leb nr_indirect_blocks k
    then allocate_dindirect (k - nr_indirect_blocks)
    else allocate_indirect k

-- The buffer is as `testfs_read_block` left it.
unfoldable pub testfs_allocate_block : ℤ → Memory → Action Io (ℕ × Memory)
unfolding allocate_missing
testfs_allocate_block (negsuc n) block = λ s. abort
testfs_allocate_block (pos n) block = do
  (phy_block_nr, found) ← testfs_read_block (pos n) block
  if phy_block_nr == 0
      then (do fresh ← allocate_missing n; pure (fresh, found))
      else pure (phy_block_nr, found)
