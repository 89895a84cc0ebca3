-- ===== src/Fs/ReadWrite.antt =====
pub mod Allocate
pub mod Dangling
pub mod Contents
pub mod Map
pub mod Release
pub mod Data
-- fs/read_write.c: the blocks of an inode, direct, indirect and double indirect. A `char` buffer is
-- memory; what a function leaves in a buffer is returned with its `int`.
use ece344lab.Common.{
  ℕ, zero, suc, ◌+◌, ◌-◌, ◌*◌, ◌/◌, ◌%◌, ◌^◌, Bool, true, false, not, ltb, leb, if◌then◌else◌,
}
use ece344lab.Common.Memory.{update, copy}
use ece344lab.Common.Bytes.{Memory, load_u32, store_u32}
use ece344lab.Common.Int.{
  ℤ, pos, negsuc, is_neg, is_zero, is_positive, to_u32, to_s32, to_u64, to_s64,
}
use ece344lab.Common.Action.{
  Outcome, Action, Ret, value, error, ok, err, abort, exited, fault, pure, fail, return_int, assert,
  gets, modify, attempt, zoom, ◌>>=◌, ◌>>◌, efbig,
}
use ece344lab.Fs.Layout.{block_size, nr_direct_blocks, nr_indirect_blocks}
use ece344lab.Fs.Block.{read_blocks, write_blocks, zero_block}
use ece344lab.Fs.Super.{SuperBlock, on_dev}
use ece344lab.Fs.Inode.{
  Dinode, Inode, Io, on_super, set_disk, set_dirty, testfs_alloc_block_for_inode,
  testfs_free_block_from_inode,
}

abbrev pub read_one : Memory → ℤ → Action Io Memory
read_one block nr = on_super (on_dev (read_blocks block nr 1))

abbrev pub write_one : Memory → ℤ → Action Io (Unit {0})
write_one block nr = on_super (on_dev (write_blocks block nr 1))

-- `((int *) block)[k]`
abbrev pub int_at : Memory → ℕ → ℤ
int_at block k = to_s32 (load_u32 block (4 * k))

abbrev pub set_int : Memory → ℕ → ℤ → Memory
set_int block k z = store_u32 block (4 * k) (to_u32 z)

-- `bzero(block, BLOCK_SIZE)`
abbrev pub bzero : Memory → Memory
bzero block = copy block 0 zero_block 0 block_size

-- The `int` returned, with the buffer.
abbrev pub return_block : ℤ → Memory → Action Io (ℕ × Memory)
return_block (pos n) block s = ok (n, block) s
return_block (negsuc n) block s = err (suc n) s

-- The end of `testfs_read_block`, at a physical block number.
unfoldable pub fetch : ℤ → Memory → Action Io (ℕ × Memory)
fetch phy_block_nr block s =
    if is_positive phy_block_nr
    then (read_one block phy_block_nr >>= λ b. return_block phy_block_nr b) s
    else return_block phy_block_nr (bzero block) s

-- A block number found in the double indirect block's table.
unfoldable pub fetch_second : ℤ → ℕ → Memory → Action Io (ℕ × Memory)
unfolding fetch
fetch_second new_block k block s =
    if is_positive new_block
    then (read_one block new_block >>= λ b. fetch (int_at b (k % nr_indirect_blocks)) b) s
    else return_block new_block block s

-- Logical block `k` past the direct blocks and `m` past the indirect ones, by the number of the
-- table in `i_indirect` and `i_dindirect`.
unfoldable pub read_indirect : ℤ → ℕ → Memory → Action Io (ℕ × Memory)
unfolding fetch
read_indirect nr k block s =
    if is_positive nr
    then (read_one block nr >>= λ b. fetch (int_at b k) b) s
    else fetch (pos 0) block s

unfoldable pub read_dindirect : ℤ → ℕ → Memory → Action Io (ℕ × Memory)
unfolding fetch fetch_second
read_dindirect nr m block s =
    if leb (nr_indirect_blocks * nr_indirect_blocks) m
    then err efbig s
    else if is_positive nr
    then (read_one block nr >>= λ b. fetch_second (int_at b (m / nr_indirect_blocks)) m b) s
    else fetch (pos 0) block s

unfoldable pub testfs_read_block : ℤ → Memory → Action Io (ℕ × Memory)
unfolding fetch read_indirect read_dindirect
testfs_read_block (negsuc n) block s = abort
testfs_read_block (pos n) block s =
    let d = s.node.in_disk in
    let k = n - nr_direct_blocks in
    if ltb n nr_direct_blocks
    then fetch (d.i_block_nr n) block s
    else if leb nr_indirect_blocks k
    then read_dindirect d.i_dindirect (k - nr_indirect_blocks) block s
    else read_indirect d.i_indirect k block s
