-- ===== src/Fs/Block/Laws.antt =====
-- What fs/block.c's reads see of its writes.
use ece344lab.Common.{
  ℕ, zero, suc, ◌+◌, ◌*◌, ◌≤◌, ◌≡◌, ap, ◌∙◌, fun_ext, ◌⊎◌, max, arith, ◌==◌, if◌then◌else◌,
}
use ece344lab.Common.Memory.{copy}
use ece344lab.Common.Bytes.{Memory}
use ece344lab.Common.Int.{pos}
use ece344lab.Common.Action.{ok, ◌>>◌}
use ece344lab.Fs.Layout.{block_size}
use ece344lab.Fs.Block.{
  Disk, bytes_from, overwrite, write_blocks, read_blocks, zero_block, zero_from, zero_blocks,
}

-- The disk after a write of `n` blocks.
abbrev pub written : Memory → ℕ → ℕ → Disk → Disk
written src s n d = record {
  size = if n == 0 then d.size else max d.size (s + n);
  data_at = overwrite d.data_at src s n;
}

-- A write of `n` blocks and then a read of the same blocks returns what was written.
pub read-write :
    (src buf : Memory) (s n : ℕ) (d : Disk)
    → (write_blocks src (pos s) n >> read_blocks buf (pos s) n) d
      ≡ ok (copy buf 0 src 0 (n * block_size)) (written src s n d)
unfolding write_blocks read_blocks
read-write src buf s n d =
    let same : copy buf 0 (bytes_from (written src s n d) s) 0 (n * block_size)
        ≡ copy buf 0 src 0 (n * block_size) =
      fun_ext λ j. ground arith in
    rw same (ground arith)

-- A read of blocks of the device apart from those written sees what it would have seen before.
pub read-write_apart :
    (src buf : Memory) (s n t m : ℕ) (d : Disk)
    → (t + m ≤ s) ⊎ (s + n ≤ t)
    → t + m ≤ d.size
    → (write_blocks src (pos s) n >> read_blocks buf (pos t) m) d
      ≡ ok (copy buf 0 (bytes_from d t) 0 (m * block_size)) (written src s n d)
unfolding write_blocks read_blocks
read-write_apart src buf s n t m d apart fits =
    let same : copy buf 0 (bytes_from (written src s n d) t) 0 (m * block_size)
        ≡ copy buf 0 (bytes_from d t) 0 (m * block_size) =
      fun_ext λ j. ground arith in
    rw same (ground arith)

zero_from-written :
    (n s i : ℕ) (d : Disk) → zero_from (pos s) n i d ≡ ok tt (written zero_block (s + i) n d)
unfolding zero_from write_blocks
zero_from-written zero s i d =
    let same : overwrite d.data_at zero_block (s + i) 0 ≡ d.data_at =
      fun_ext λ k. fun_ext λ j. ground arith in
    rw same
zero_from-written (suc n) s i d =
    zero_from-written n s (i + 1) (written zero_block (s + i) 1 d) ∙ ap (ok tt) join
  where
    join :
        written zero_block (s + (i + 1)) n (written zero_block (s + i) 1 d)
        ≡ written zero_block (s + i) (suc n) d
    join = λ k. record { size = sizes k; data_at = bytes k }
      where
        sizes :
            (written zero_block (s + (i + 1)) n (written zero_block (s + i) 1 d)).size
            ≡ (written zero_block (s + i) (suc n) d).size
        sizes = ground arith

        bytes :
            (written zero_block (s + (i + 1)) n (written zero_block (s + i) 1 d)).data_at
            ≡ (written zero_block (s + i) (suc n) d).data_at
        bytes = fun_ext λ k. fun_ext λ j. ground arith

-- `zero_blocks` is one write of zeroes.
pub zero_blocks-written :
    (s n : ℕ) (d : Disk) → zero_blocks (pos s) n d ≡ ok tt (written zero_block s n d)
unfolding zero_blocks
zero_blocks-written s n d =
    zero_from-written n s 0 d ∙ ap (λ k. ok tt (written zero_block k n d)) (omega arith)
