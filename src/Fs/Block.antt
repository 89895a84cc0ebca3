-- ===== src/Fs/Block.antt =====
pub mod Laws
-- fs/block.c: reads and writes of whole blocks. The device is a file that grows as it is written;
-- `fread` past its end is short, and a seek to a negative offset fails: both end in `EXIT`. No other
-- call of stdio fails here.
use ece344lab.Common.{
  ℕ, zero, suc, ◌+◌, ◌-◌, ◌*◌, ◌/◌, ◌%◌, max, ◌&&◌, ◌||◌, ltb, leb, ◌==◌, if◌then◌else◌,
}
use ece344lab.Common.Memory.{copy}
use ece344lab.Common.Bytes.{Memory}
use ece344lab.Common.Int.{ℤ, pos, negsuc, add_ℕ}
use ece344lab.Common.Action.{Action, ok, exited, pure, ◌>>=◌, ◌>>◌}
use ece344lab.Fs.Layout.{block_size}

-- The backing file: its length in blocks, and byte `j` of block `i`.
pub record Disk : Type 0 where
  pub size : ℕ
  pub data_at : ℕ → Memory

-- The blocks `start` to `start + nr - 1` as one run of bytes.
abbrev pub bytes_from : Disk → ℕ → Memory
bytes_from d start j = d.data_at (start + j / block_size) (j % block_size)

abbrev pub overwrite : (ℕ → Memory) → Memory → ℕ → ℕ → ℕ → Memory
overwrite old src start nr i j =
    if leb start i && ltb i (start + nr) then src ((i - start) * block_size + j) else old i j

unfoldable pub write_blocks : Memory → ℤ → ℕ → Action Disk (Unit {0})
write_blocks blocks (negsuc k) nr d = exited
write_blocks blocks (pos start) nr d = ok tt (record {
  size = if nr == 0 then d.size else max d.size (start + nr);
  data_at = overwrite d.data_at blocks start nr;
})

-- `static char zero[BLOCK_SIZE]`
abbrev pub zero_block : Memory
zero_block j = 0

-- The loop of `zero_blocks`: `n` rounds from block `start + i`.
unfoldable pub zero_from : ℤ → ℕ → ℕ → Action Disk (Unit {0})
zero_from start zero i = pure tt
zero_from start (suc n) i = do write_blocks zero_block (add_ℕ start i) 1; zero_from start n (i + 1)

unfoldable pub zero_blocks : ℤ → ℕ → Action Disk (Unit {0})
unfolding zero_from
zero_blocks start nr = zero_from start nr 0

-- The buffer `blocks` after the call.
unfoldable pub read_blocks : Memory → ℤ → ℕ → Action Disk Memory
read_blocks blocks (negsuc k) nr d = exited
read_blocks blocks (pos start) nr d =
    if nr == 0 || leb (start + nr) d.size
    then ok (copy blocks 0 (bytes_from d start) 0 (nr * block_size)) d
    else exited
