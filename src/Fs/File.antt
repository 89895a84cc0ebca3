-- ===== src/Fs/File.antt =====
-- fs/file.c, the commands that read and write a file, with the numbers of fs/common.c. strtoll and
-- strtoull are parameters: the value and what is left of the string. So is what malloc finds, and
-- whether it succeeds for a size; calloc succeeds. The program prints the text that `cmd_read` returns here.
pub mod Steps
pub mod Reads
use ece344lab.Common.{
  ℕ, zero, suc, ◌+◌, ◌%◌, ◌^◌, Bool, true, false, not, List, [], ◌∷◌, ◌++◌, ltb, ◌==◌,
  if◌then◌else◌, length,
}
use ece344lab.Common.Bytes.{Memory}
use ece344lab.Common.Text.{until_zero}
use ece344lab.Common.Int.{ℤ, pos, negsuc, gtb_ℤ, to_s64}
use ece344lab.Common.Action.{
  einval, Outcome, Action, Ret, value, error, ok, err, abort, exited, fault, pure, fail, attempt,
  ◌>>=◌, ◌>>◌, enomem,
}
use ece344lab.Fs.Cache.{Core, deref, on_node, testfs_get_inode, testfs_put_inode, testfs_sync_inode}
use ece344lab.Fs.Dir.{is_dir, put_bytes, testfs_dir_name_to_inode_nr}
use ece344lab.Fs.ReadWrite.Data.{testfs_read_data, testfs_write_data}

abbrev pub eisdir : ℕ
eisdir = 21

-- `struct context`; the directory is the address of its inode.
pub record Context : Type 0 where
  pub nargs : ℕ
  pub cmd : ℕ → List ℕ
  pub cur_dir : ℕ

-- strtoll, strtoull and malloc
pub record Host : Type 0 where
  pub strtoll : List ℕ → ℤ × List ℕ
  pub strtoull : List ℕ → ℕ × List ℕ
  pub malloc : ℕ → Bool
  pub junk : Memory

-- The value, where nothing is left of the string.
abbrev pub if_whole : {A : Type 0} → A × List ℕ → Action Core A
if_whole (val, []) = pure val
if_whole (val, c ∷ end) = fail einval

unfoldable pub str_to_offset : Host → List ℕ → Action Core ℤ
str_to_offset host str = if_whole (host.strtoll str)

unfoldable pub str_to_size : Host → List ℕ → Action Core ℕ
str_to_size host str = if_whole (host.strtoull str)

-- `if (offset < 0) return -EINVAL`
abbrev pub not_negative : ℤ → Action Core ℕ
not_negative (pos n) = pure n
not_negative (negsuc n) = fail einval

-- What follows the search of the name.
unfoldable pub no_directory : ℕ → Action Core ℕ
unfolding testfs_put_inode
no_directory a = do
  n ← deref a
  if is_dir n.in_disk.i_type then (do testfs_put_inode a; fail eisdir) else pure a

unfoldable pub testfs_get_file_inode : Host → ℕ → List ℕ → Action Core ℕ
unfolding no_directory testfs_dir_name_to_inode_nr
testfs_get_file_inode host dir name = do
  inode_nr ← on_node dir (testfs_dir_name_to_inode_nr host.junk name)
  a ← testfs_get_inode true inode_nr
  no_directory a

-- `goto out`
unfoldable pub put_and_fail : ℕ → ℕ → Action Core (ℕ × List ℕ)
put_and_fail a e = do testfs_put_inode a; fail e

-- Bytes of an array from an index on.
unfoldable pub bytes_at : ℕ → ℕ → Memory → List ℕ
bytes_at zero i m = []
bytes_at (suc n) i m = let rest = bytes_at n (i + 1) m in m i ∷ rest

-- After the read, into an array of `size + 1` bytes, which a `size_t` may not hold.
unfoldable pub print_read : ℕ → ℕ → Ret (ℕ × Memory) → Action Core (ℕ × List ℕ)
unfolding put_and_fail bytes_at until_zero
print_read a size (error e) = put_and_fail a e
print_read a size (value (ret, m)) =
    if ltb size ((size + 1) % 2 ^ 64)
    then (do testfs_put_inode a; pure (ret, until_zero (bytes_at size 0 m)))
    else λ c. fault

unfoldable pub read_file : Host → ℕ → ℕ → ℕ → Action Core (ℕ × List ℕ)
unfolding put_and_fail print_read
read_file host offset size a = do
  n ← deref a
  (if gtb_ℤ (to_s64 (offset + size)) n.in_disk.i_size
      then put_and_fail a einval
      else if not (host.malloc ((size + 1) % 2 ^ 64))
      then put_and_fail a enomem
      else (do
        r ← attempt (on_node a (testfs_read_data host.junk offset size))
        print_read a size r))

-- `cmd_read`: its result, and the text that it prints.
unfoldable pub cmd_read : Host → Context → Action Core (ℕ × List ℕ)
unfolding testfs_get_file_inode str_to_offset str_to_size read_file
cmd_read host c = if not (c.nargs == 4) then fail einval else (do
  val ← str_to_offset host (c.cmd 2)
  offset ← not_negative val
  size ← str_to_size host (c.cmd 3)
  a ← testfs_get_file_inode host c.cur_dir (c.cmd 1)
  read_file host offset size a)

-- `return ret`, after what follows the call.
abbrev pub answer_with : Ret ℕ → Action Core ℕ
answer_with (value ret) = pure ret
answer_with (error e) = fail e

unfoldable pub write_file : Host → ℕ → List ℕ → ℕ → Action Core ℕ
unfolding put_bytes
write_file host offset buf a = do
  ret ←
      attempt (
        on_node a (testfs_write_data (put_bytes host.junk 0 (buf ++ (0 ∷ []))) offset (length buf)))
  testfs_sync_inode a
  testfs_put_inode a
  answer_with ret

unfoldable pub cmd_write : Host → Context → Action Core ℕ
unfolding testfs_get_file_inode str_to_offset write_file
cmd_write host c = if not (c.nargs == 4) then fail einval else (do
  val ← str_to_offset host (c.cmd 2)
  offset ← not_negative val
  a ← testfs_get_file_inode host c.cur_dir (c.cmd 1)
  write_file host offset (c.cmd 3) a)
