-- ===== src/Fs/Folder/Commands.antt =====
-- The commands of fs/dir.c but pwd.
use ece344lab.Common.{
  ℕ, zero, suc, Bool, true, not, List, [], ◌∷◌, ◌++◌, Option, none, some, ◌==◌, ◌&&◌, if◌then◌else◌,
}
use ece344lab.Common.Bytes.{Memory}
use ece344lab.Common.Text.{same_text}
use ece344lab.Common.Int.{pos, is_neg}
use ece344lab.Common.Action.{
  einval, Outcome, Action, ok, fault, pure, fail, return_int, ◌>>=◌, ◌>>◌,
}
use ece344lab.Fs.Cache.{
  Core, deref, on_node, testfs_get_inode, testfs_put_inode, testfs_sync_inode, testfs_remove_inode,
}
use ece344lab.Fs.Inode.{Inode}
use ece344lab.Fs.Dir.{
  Dirent, is_dir, to_size, string_at, testfs_next_dirent, testfs_dir_name_to_inode_nr,
}
use ece344lab.Fs.File.{Context}
use ece344lab.Fs.Folder.{dot, dot_dot, testfs_remove_dirent, testfs_create_file_or_dir}

abbrev pub enotdir : ℕ
enotdir = 20

-- The inode of a name of the current directory.
unfoldable pub named_inode : Memory → Context → Action Core ℕ
unfolding testfs_dir_name_to_inode_nr
named_inode junk c = do
  inode_nr ← on_node c.cur_dir (testfs_dir_name_to_inode_nr junk (c.cmd 1))
  testfs_get_inode true inode_nr

-- `c->nargs != n` is an error.
abbrev pub with_args : {A : Type 0} → ℕ → Context → Action Core A → Action Core A
with_args n c m = if c.nargs == n then m else fail einval

-- The context with its new directory.
unfoldable pub cmd_cd : Memory → Context → Action Core Context
unfolding named_inode
cmd_cd junk c = with_args 2 c (do
  a ← named_inode junk c
  n ← deref a
  (if is_dir n.in_disk.i_type
      then (do testfs_put_inode c.cur_dir; pure (record c { cur_dir = a }))
      else (do testfs_put_inode a; fail enotdir)))

unfoldable pub cmd_create : Memory → Context → Action Core (Unit {0})
unfolding testfs_create_file_or_dir
cmd_create junk c =
    with_args 2 c (testfs_create_file_or_dir junk (some c.cur_dir) (pos 1) (c.cmd 1))

unfoldable pub cmd_mkdir : Memory → Context → Action Core (Unit {0})
unfolding testfs_create_file_or_dir
cmd_mkdir junk c = with_args 2 c (testfs_create_file_or_dir junk (some c.cur_dir) (pos 2) (c.cmd 1))

unfoldable pub cmd_rm : Memory → Context → Action Core (Unit {0})
unfolding testfs_remove_dirent
cmd_rm junk c = with_args 2 c (do
  inode_nr ← testfs_remove_dirent junk c.cur_dir (c.cmd 1)
  a ← testfs_get_inode true inode_nr
  testfs_remove_inode a
  testfs_sync_inode c.cur_dir)

-- The inode whose numbers are printed.
unfoldable pub cmd_stat : Memory → Context → Action Core Inode
unfolding named_inode
cmd_stat junk c = with_args 2 c (do a ← named_inode junk c; n ← deref a; testfs_put_inode a; pure n)

-- A line that `testfs_ls` prints: the name, and whether it is a directory.
abbrev pub Line : Type 0
Line = List ℕ × Bool

abbrev pub name_of : Dirent → Action Core (List ℕ)
name_of d c = text (string_at (to_size d.d_name_len) d.d_name 0)
  where
    text : Option (List ℕ) → Outcome Core (List ℕ)
    text none = fault
    text (some name) = ok name c

-- An entry in use, and the lines of what is below it.
abbrev pub list_entry : (ℕ → Action Core (List Line)) → Bool → Dirent → Action Core (List Line)
list_entry below recursive d = do
  inode_nr ← return_int d.d_inode_nr
  cin ← testfs_get_inode true inode_nr
  name ← name_of d
  n ← deref cin
  lines ←
      (if recursive
          && (is_dir n.in_disk.i_type && (not (same_text name dot) && not (same_text name dot_dot)))
        then below cin
        else pure [])
  testfs_put_inode cin
  pure ((name, is_dir n.in_disk.i_type) ∷ lines)

abbrev pub ls_found :
    (ℕ → Action Core (List Line))
    → (ℕ → Action Core (List Line))
    → Bool
    → Option (Dirent × ℕ)
    → Action Core (List Line)
ls_found below rest recursive none = pure []
ls_found below rest recursive (some (d, offset)) = do
  first ← (if is_neg d.d_inode_nr then pure [] else list_entry below recursive d)
  later ← rest offset
  pure (first ++ later)

-- The loop of `testfs_ls` on the inode at an address, with fuel for its rounds and for the
-- directories below.
unfoldable pub ls_from : ℕ → Memory → Bool → ℕ → ℕ → Action Core (List Line)
unfolding testfs_next_dirent string_at same_text
ls_from zero junk recursive a offset = λ c. fault
ls_from (suc fuel) junk recursive a offset =
    on_node a (testfs_next_dirent junk offset)
    >>= ls_found (λ cin. ls_from fuel junk recursive cin 0)
        (λ next. ls_from fuel junk recursive a next) recursive

-- `cmd_ls_internal`
unfoldable pub cmd_ls : ℕ → Memory → Bool → Context → Action Core (List Line)
unfolding named_inode ls_from
cmd_ls fuel junk recursive c = with_args 2 c (do
  a ← named_inode junk c
  n ← deref a
  (if is_dir n.in_disk.i_type
      then (do lines ← ls_from fuel junk recursive a 0; testfs_put_inode a; pure lines)
      else fail enotdir))
