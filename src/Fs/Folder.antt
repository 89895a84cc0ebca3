-- ===== src/Fs/Folder.antt =====
-- The operations of fs/dir.c on a directory and a second inode, and its commands. An inode is its
-- address in the store of the inodes in memory; calloc succeeds. The program prints what `cmd_ls` and
-- `cmd_stat` return here. Left out are testfs_pwd and cmd_pwd, which print the path.
pub mod Commands
pub mod NotDirectory
use ece344lab.Common.{
  ℕ, zero, suc, ◌+◌, Bool, true, false, not, List, [], ◌∷◌, ◌++◌, Option, none, some, ◌==◌, ◌||◌,
  if◌then◌else◌,
}
use ece344lab.Common.Memory.{copy}
use ece344lab.Common.Bytes.{Memory, store_u32}
use ece344lab.Common.Text.{same_text}
use ece344lab.Common.Int.{ℤ, pos, negsuc, is_neg, to_u32}
use ece344lab.Common.Action.{
  einval, Outcome, Action, Ret, value, error, ok, err, abort, exited, fault, pure, fail, assert,
  attempt, return_int, ◌>>=◌, ◌>>◌,
}
use ece344lab.Fs.Inode.{Inode, Io}
use ece344lab.Fs.Cache.{
  Core, deref, on_node, testfs_get_inode, testfs_put_inode, testfs_sync_inode, testfs_create_inode,
  testfs_remove_inode,
}
use ece344lab.Fs.ReadWrite.Data.{testfs_write_data}
use ece344lab.Fs.Dir.{
  Dirent, dirent_size, enoent, eexist, is_dir, to_size, string_at, compare_name, is_named, rounds,
  testfs_next_dirent, testfs_dir_name_to_inode_nr, testfs_add_dirent,
}

abbrev pub enotempty : ℕ
enotempty = 39

abbrev pub dot : List ℕ
dot = b'.' ∷ []

abbrev pub dot_dot : List ℕ
dot_dot = b'.' ∷ (b'.' ∷ [])

-- A free entry, or "." or "..": the loop of `testfs_remove_dirent_allowed` goes on.
abbrev pub is_kept : Dirent → Action Io Bool
is_kept d = if is_neg d.d_inode_nr then pure true else (do
  here ← compare_name (string_at (to_size d.d_name_len) d.d_name 0) dot
  (if here then pure true else compare_name (string_at (to_size d.d_name_len) d.d_name 0) dot_dot))

abbrev pub kept_found : (ℕ → Action Io Bool) → Option (Dirent × ℕ) → Action Io Bool
kept_found rest none = pure true
kept_found rest (some (d, offset)) = do kept ← is_kept d; (if kept then rest offset else pure false)

-- The loop: whether it meets no other entry.
unfoldable pub empty_from : ℕ → Memory → ℕ → Action Io Bool
unfolding testfs_next_dirent string_at same_text
empty_from zero junk offset = λ s. fault
empty_from (suc fuel) junk offset =
    testfs_next_dirent junk offset >>= kept_found (empty_from fuel junk)

abbrev pub is_empty : Memory → Action Io Bool
is_empty junk s = empty_from (rounds s) junk 0 s

unfoldable pub testfs_remove_dirent_allowed : Memory → ℕ → Action Core (Unit {0})
unfolding empty_from
testfs_remove_dirent_allowed junk inode_nr = do
  dir ← testfs_get_inode true inode_nr
  n ← deref dir
  allowed ← (if is_dir n.in_disk.i_type then on_node dir (is_empty junk) else pure true)
  testfs_put_inode dir
  (if allowed then pure tt else fail enotempty)

-- An entry in memory with another inode number, as it is written back.
unfoldable pub dirent_bytes : Memory → Dirent → ℤ → Memory
unfolding store_u32
dirent_bytes junk d nr =
    store_u32
      (store_u32 (copy junk dirent_size d.d_name 0 (to_size d.d_name_len)) 0 (to_u32 d.d_name_len))
      4 (to_u32 nr)

-- The entry is the one to remove.
unfoldable pub remove_found : Memory → ℕ → Dirent → ℕ → Action Core ℕ
unfolding testfs_remove_dirent_allowed dirent_bytes
remove_found junk dir d p_offset = do
  inode_nr ← return_int d.d_inode_nr
  testfs_remove_dirent_allowed junk inode_nr
  written ← on_node dir (
      testfs_write_data (dirent_bytes junk d (negsuc 0)) p_offset
        (dirent_size + to_size d.d_name_len))
  pure inode_nr

abbrev pub remove_step :
    (ℕ → Action Core ℕ) → Memory → ℕ → List ℕ → ℕ → Option (Dirent × ℕ) → Action Core ℕ
remove_step rest junk dir name p_offset none = fail enoent
remove_step rest junk dir name p_offset (some (d, offset)) = do
  same ← on_node dir (is_named d name)
  (if same then remove_found junk dir d p_offset else rest offset)

-- The loop of `testfs_remove_dirent`.
unfoldable pub remove_from : ℕ → Memory → ℕ → List ℕ → ℕ → Action Core ℕ
unfolding testfs_next_dirent remove_found string_at same_text
remove_from zero junk dir name offset = λ c. fault
remove_from (suc fuel) junk dir name offset =
    on_node dir (testfs_next_dirent junk offset)
    >>= remove_step (remove_from fuel junk dir name) junk dir name offset

-- The inode number of the entry.
unfoldable pub testfs_remove_dirent : Memory → ℕ → List ℕ → Action Core ℕ
unfolding remove_from same_text
testfs_remove_dirent junk dir name =
    if same_text name dot || same_text name dot_dot
    then fail einval
    else (do n ← deref dir; remove_from (suc (to_size n.in_disk.i_size)) junk dir name 0)

-- A failure after ".." leaves "." to `testfs_remove_dirent`, whose result is not looked at.
abbrev pub or_undo : Memory → ℕ → Ret ℕ → Action Core (Unit {0})
or_undo junk cdir (value ret) = pure tt
or_undo junk cdir (error e) = do undone ← attempt (testfs_remove_dirent junk cdir dot); fail e

unfoldable pub testfs_create_empty_dir : Memory → ℕ → ℕ → Action Core (Unit {0})
unfolding testfs_remove_dirent testfs_add_dirent
testfs_create_empty_dir junk p_inode_nr cdir = do
  n ← deref cdir
  assert (is_dir n.in_disk.i_type)
  ret ← on_node cdir (testfs_add_dirent junk dot n.i_nr)
  second ← attempt (on_node cdir (testfs_add_dirent junk dot_dot p_inode_nr))
  or_undo junk cdir second

-- `dir ? testfs_inode_get_nr(dir) : inode_nr`
abbrev pub parent_nr : Option ℕ → ℕ → Action Core ℕ
parent_nr none inode_nr = pure inode_nr
parent_nr (some dir) inode_nr = do n ← deref dir; pure n.i_nr

-- The entry in the directory, if there is one.
abbrev pub enter : Memory → Option ℕ → List ℕ → ℕ → Action Core (Unit {0})
enter junk none name inode_nr = pure tt
enter junk (some dir) name inode_nr = do
  ret ← on_node dir (testfs_add_dirent junk name inode_nr)
  testfs_sync_inode dir

-- What may go to `out`.
unfoldable pub fill_new : Memory → Option ℕ → ℤ → List ℕ → ℕ → Action Core (Unit {0})
unfolding testfs_create_empty_dir testfs_add_dirent
fill_new junk dir type_of name a = do
  n ← deref a
  (if is_dir type_of
      then (do p_inode_nr ← parent_nr dir n.i_nr; testfs_create_empty_dir junk p_inode_nr a)
      else pure tt)
  enter junk dir name n.i_nr

-- The end, and `out`.
abbrev pub keep_or_remove : ℕ → Ret (Unit {0}) → Action Core (Unit {0})
keep_or_remove a (value _) = do testfs_sync_inode a; testfs_put_inode a
keep_or_remove a (error e) = do testfs_remove_inode a; fail e

-- A name that is found is an error.
abbrev pub is_free : Ret ℕ → Action Core (Unit {0})
is_free (value nr) = fail eexist
is_free (error e) = pure tt

abbrev pub free_name : Memory → Option ℕ → List ℕ → Action Core (Unit {0})
free_name junk none name = pure tt
free_name junk (some dir) name = do
  r ← attempt (on_node dir (testfs_dir_name_to_inode_nr junk name))
  is_free r

unfoldable pub testfs_create_file_or_dir : Memory → Option ℕ → ℤ → List ℕ → Action Core (Unit {0})
unfolding fill_new testfs_create_inode
testfs_create_file_or_dir junk dir type_of name = do
  free_name junk dir name
  a ← testfs_create_inode true type_of
  r ← attempt (fill_new junk dir type_of name a)
  keep_or_remove a r

unfoldable pub testfs_make_root_dir : Memory → Action Core (Unit {0})
unfolding testfs_create_file_or_dir
testfs_make_root_dir junk = testfs_create_file_or_dir junk none (pos 2) []
