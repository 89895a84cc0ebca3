-- ===== src/Fs/ReadWrite/Data.antt =====
-- `testfs_read_data` and `testfs_write_data` of fs/read_write.c. Offsets are at least 0, sizes are
-- those of objects in memory (below 2^63), and the buffer of the caller is memory of any length. The
-- local `block` is filled before it is read.
use ece344lab.Common.{ℕ, zero, suc, ◌+◌, ◌-◌, ◌*◌, ◌/◌, ◌%◌, ◌^◌, ltb, leb, if◌then◌else◌}
use ece344lab.Common.Memory.{copy}
use ece344lab.Common.Bytes.{Memory}
use ece344lab.Common.Int.{ℤ, pos, to_s32, to_u64, to_s64, gtb_ℤ}
use ece344lab.Common.Action.{
  Action, Ret, value, error, ok, abort, fault, fail, return_int, modify, attempt, ◌>>=◌, ◌>>◌,
  efbig,
}
use ece344lab.Fs.Layout.{block_size}
use ece344lab.Fs.Block.{zero_block}
use ece344lab.Fs.Inode.{Dinode, Io, set_disk, set_dirty}
use ece344lab.Fs.ReadWrite.{return_block, write_one, testfs_read_block}
use ece344lab.Fs.ReadWrite.Allocate.{testfs_allocate_block}

-- `34376597504`, the bytes that the blocks of one inode can hold.
abbrev pub max_bytes : ℕ
max_bytes = 34376597504

-- The size asked for, cut at the end of the file. The subtraction is in `size_t`.
abbrev pub clip : ℕ → ℕ → ℤ → ℕ
clip start size i_size =
    if gtb_ℤ (to_s64 (start + size)) i_size then (to_u64 i_size + 2 ^ 64 - start) % 2 ^ 64 else size

-- `BLOCK_SIZE * i` is an `int`: past 2^31 the product is undefined.
abbrev pub in_int : {S A : Type 0} → ℕ → Action S A → Action S A
in_int i m s = if ltb (block_size * i) (2 ^ 31) then m s else fault

-- One round of the loop over the blocks after the first, or the tail: `left` bytes, from block `i`.
-- `block_ix` bytes of the first block lie before the start.
abbrev pub read_next :
    (Memory → Memory → Action Io Memory) → ℕ → ℕ → ℕ → Memory → ℕ × Memory → Action Io Memory
read_next rest block_ix i left buf (ret, b) = in_int i (
    if ltb block_size left
    then rest (copy buf (block_size * i - block_ix) b 0 block_size) b
    else (λ s. ok (copy buf (block_size * i - block_ix) b 0 left) s))

unfoldable pub read_rest : ℕ → ℕ → ℕ → ℕ → ℕ → Memory → Memory → Action Io Memory
read_rest zero block_nr block_ix i left buf block = λ s. fault
read_rest (suc fuel) block_nr block_ix i left buf block =
    let rest = λ (m b : Memory). read_rest fuel block_nr block_ix (i + 1) (left - block_size) m b in
    testfs_read_block (to_s32 (block_nr + i)) block >>= read_next rest block_ix i left buf

-- The two cases of `testfs_read_data`, at the size that was cut.
abbrev pub read_tail : ℕ → ℕ → ℕ → Memory → ℕ × Memory → Action Io (ℕ × Memory)
read_tail block_nr block_ix size buf (ret, b) =
    let head = copy buf 0 b block_ix (block_size - block_ix) in
    let left = size - (block_size - block_ix) in
    read_rest (left / block_size + 1) block_nr block_ix 1 left head b >>= λ m.
    return_block (to_s32 size) m

unfoldable pub read_many : ℕ → ℕ → ℕ → Memory → Action Io (ℕ × Memory)
unfolding read_rest
read_many block_nr block_ix size buf =
    if ltb max_bytes size
    then fail efbig
    else (testfs_read_block (to_s32 block_nr) zero_block >>= read_tail block_nr block_ix size buf)

abbrev pub copy_single : ℕ → ℕ → Memory → ℕ × Memory → Action Io (ℕ × Memory)
copy_single block_ix size buf (ret, b) s =
    if leb (block_ix + size) block_size
    then return_block (to_s32 size) (copy buf 0 b block_ix size) s
    else fault

unfoldable pub read_single : ℕ → ℕ → ℕ → Memory → Action Io (ℕ × Memory)
read_single block_nr block_ix size buf =
    testfs_read_block (to_s32 block_nr) zero_block >>= copy_single block_ix size buf

unfoldable pub testfs_read_data : Memory → ℕ → ℕ → Action Io (ℕ × Memory)
unfolding read_many read_single
testfs_read_data buf start asked s =
    let size = clip start asked s.node.in_disk.i_size in
    let block_nr = start / block_size in
    let block_ix = start % block_size in
    if ltb block_size ((block_ix + size) % 2 ^ 64)
    then read_many block_nr block_ix size buf s
    else read_single block_nr block_ix size buf s

-- `in->in.i_size = MAX(in->in.i_size, start + (off_t) size)` if there is anything to write, and the
-- dirty flag.
abbrev pub grow : ℤ → ℤ → ℤ
grow i_size end_at = if gtb_ℤ end_at i_size then end_at else i_size

abbrev pub set_size : ℤ → Dinode → Dinode
set_size z d = record d { i_size = z }

unfoldable pub wrote : ℕ → ℕ → Action Io (Unit {0})
wrote start size = do
  modify (λ s.
      if ltb 0 size
      then set_disk (set_size (grow s.node.in_disk.i_size (to_s64 (start + size)))) s
      else s)
  modify set_dirty

-- Block `i` from `block_nr`: allocated or found, changed and written out.
unfoldable pub write_part : ℕ → ℕ → (Memory → Memory) → Action Io (Unit {0})
write_part block_nr i change = do
  (ret, b) ← testfs_allocate_block (to_s32 (block_nr + i)) zero_block
  in_int i (write_one (change b) (pos ret))

-- The last block of several. Where it cannot be had the size is set to `max_bytes`.
abbrev pub tail_written : ℕ → ℕ → ℕ → Memory → ℕ → Ret (ℕ × Memory) → Action Io (Unit {0})
tail_written block_ix i left buf start (error e) = do
  modify (set_disk (set_size (pos max_bytes)))
  modify set_dirty
  fail e
tail_written block_ix i left buf start (value (ret, b)) =
    in_int i (write_one (copy b 0 buf (block_size * i - block_ix) left) (pos ret))

unfoldable pub write_tail : ℕ → ℕ → ℕ → ℕ → Memory → ℕ → Action Io (Unit {0})
write_tail block_nr block_ix i left buf start = do
  r ← attempt (testfs_allocate_block (to_s32 (block_nr + i)) zero_block)
  tail_written block_ix i left buf start r

unfoldable pub write_rest : ℕ → ℕ → ℕ → ℕ → ℕ → Memory → ℕ → Action Io (Unit {0})
unfolding write_tail write_part
write_rest zero block_nr block_ix i left buf start = λ s. fault
write_rest (suc fuel) block_nr block_ix i left buf start =
    let rest = write_rest fuel block_nr block_ix (i + 1) (left - block_size) buf start in
    if ltb block_size left
    then (do write_part block_nr i (λ b. copy b 0 buf (block_size * i - block_ix) block_size); rest)
    else write_tail block_nr block_ix i left buf start

unfoldable pub write_many : ℕ → ℕ → ℕ → Memory → ℕ → Action Io ℕ
unfolding write_rest write_part wrote
write_many block_nr block_ix size buf start = do
  write_part block_nr 0 (λ b. copy b block_ix buf 0 (block_size - block_ix))
  let left = size - (block_size - block_ix)
  write_rest (left / block_size + 1) block_nr block_ix 1 left buf start
  wrote start size
  return_int (to_s32 size)

unfoldable pub write_single : ℕ → ℕ → ℕ → Memory → ℕ → Action Io ℕ
unfolding write_part wrote
write_single block_nr block_ix size buf start = do
  write_part block_nr 0 (λ b. copy b block_ix buf 0 size)
  wrote start size
  return_int (to_s32 size)

-- With `size` below 2^63 the sum of the test does not wrap.
unfoldable pub testfs_write_data : Memory → ℕ → ℕ → Action Io ℕ
unfolding write_many write_single
testfs_write_data buf start size =
    let block_nr = start / block_size in
    let block_ix = start % block_size in
    if ltb block_size (block_ix + size)
    then write_many block_nr block_ix size buf start
    else write_single block_nr block_ix size buf start

-- `testfs_write_data` with the start `-(n + 1)`: the number of the block is negative, which an
-- assertion stops, or it is 0, and then the offset in the block is negative, so the copy leaves the
-- array.
unfoldable pub testfs_write_before : ℕ → Action Io ℕ
testfs_write_before n =
    if leb block_size (n + 1)
    then (λ s. abort)
    else testfs_allocate_block (pos 0) zero_block >>= (λ _ s. fault)
