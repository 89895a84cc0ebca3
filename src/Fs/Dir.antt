-- ===== src/Fs/Dir.antt =====
-- fs/dir.c: a directory is a file of entries, each a length, an inode number, negative where the
-- entry is free, and a name of that length with a 0. `malloc` succeeds, and what it returns is `junk`,
-- as is a local variable before it is filled. A name given is the bytes before its 0. A loop over the
-- entries runs on one round for each byte of the file and one more; an entry has nine bytes at least.
pub mod Entries
pub mod Lookup
use ece344lab.Common.{
  ℕ, zero, suc, ◌+◌, ◌-◌, Bool, true, false, not, List, [], ◌∷◌, ◌++◌, Option, none, some, ltb, leb,
  ◌==◌, ◌&&◌, ◌||◌, if◌then◌else◌, length,
}
use ece344lab.Common.Memory.{update}
use ece344lab.Common.Bytes.{Memory, load_u32, store_u32}
use ece344lab.Common.Text.{same_text}
use ece344lab.Common.Int.{ℤ, pos, negsuc, is_neg, is_positive, gtb_ℤ, to_u32, to_s32}
use ece344lab.Common.Action.{
  Outcome, Action, Ret, value, error, ok, err, abort, exited, fault, pure, fail, return_int, gets,
  assert, attempt, continue, ◌>>=◌, ◌>>◌,
}
use ece344lab.Fs.Inode.{Inode, Dinode, Io}
use ece344lab.Fs.ReadWrite.Data.{testfs_read_data, testfs_write_data, testfs_write_before}

abbrev pub enoent : ℕ
enoent = 2

abbrev pub eexist : ℕ
eexist = 17

-- `struct dirent` with the name behind it
pub record Dirent : Type 0 where
  pub d_name_len : ℤ
  pub d_inode_nr : ℤ
  pub d_name : Memory

-- `sizeof(struct dirent)`
abbrev pub dirent_size : ℕ
dirent_size = 8

-- `I_DIR` is 2.
abbrev pub is_dir : ℤ → Bool
is_dir (pos n) = n == 2
is_dir (negsuc n) = false

abbrev pub assert_dir : Action Io (Unit {0})
assert_dir s = assert (is_dir s.node.in_disk.i_type) s

abbrev pub to_size : ℤ → ℕ
to_size (pos n) = n
to_size (negsuc n) = 0

-- The name is read behind the entry.
abbrev pub with_name : Memory → ℕ → Ret (ℕ × Memory) → Action Io (Option (Dirent × ℕ))
with_name m offset (error e) = pure none
with_name m offset (value (ret, b)) = pure (
    some (
      record { d_name_len = to_s32 (load_u32 m 0); d_inode_nr = to_s32 (load_u32 m 4); d_name = b },
      offset + dirent_size + to_size (to_s32 (load_u32 m 0)),
    ))

abbrev pub read_name : Memory → ℕ → Ret (ℕ × Memory) → Action Io (Option (Dirent × ℕ))
read_name junk offset (error e) = pure none
read_name junk offset (value (ret, m)) = do
  assert (is_positive (to_s32 (load_u32 m 0)))
  r ← attempt (testfs_read_data junk (offset + dirent_size) (to_size (to_s32 (load_u32 m 0))))
  with_name m offset r

-- `testfs_next_dirent`: the entry and the next offset, or NULL.
unfoldable pub testfs_next_dirent : Memory → ℕ → Action Io (Option (Dirent × ℕ))
unfolding load_u32
testfs_next_dirent junk offset s =
    (do
      assert_dir
      (if not (gtb_ℤ s.node.in_disk.i_size (pos offset)) then pure none else (do
        r ← attempt (testfs_read_data junk offset dirent_size)
        read_name junk offset r)))
      s

abbrev pub cons_char : ℕ → Option (List ℕ) → Option (List ℕ)
cons_char c none = none
cons_char c (some l) = some (c ∷ l)

-- The C string of at most `n` bytes at an address; `none` where no 0 is among them.
unfoldable pub string_at : ℕ → Memory → ℕ → Option (List ℕ)
string_at zero m i = none
string_at (suc n) m i =
    let rest = string_at n m (i + 1) in if m i == 0 then some [] else cons_char (m i) rest

-- `strcmp(D_NAME(d), name) == 0`
abbrev pub compare_name : Option (List ℕ) → List ℕ → Action Io Bool
compare_name none name = λ s. fault
compare_name (some l) name = pure (same_text l name)

-- The entry is in use and has the name.
abbrev pub is_named : Dirent → List ℕ → Action Io Bool
is_named d name =
    if is_neg d.d_inode_nr
    then pure false
    else compare_name (string_at (to_size d.d_name_len) d.d_name 0) name

abbrev pub rounds : Io → ℕ
rounds s = suc (to_size s.node.in_disk.i_size)

-- The loop of `testfs_dir_name_to_inode_nr`.
abbrev pub name_found : (ℕ → Action Io ℕ) → List ℕ → Option (Dirent × ℕ) → Action Io ℕ
name_found rest name none = fail enoent
name_found rest name (some (d, offset)) = do
  same ← is_named d name
  (if same then return_int d.d_inode_nr else rest offset)

unfoldable pub name_from : ℕ → Memory → List ℕ → ℕ → Action Io ℕ
unfolding testfs_next_dirent string_at same_text
name_from zero junk name offset = λ s. fault
name_from (suc fuel) junk name offset =
    testfs_next_dirent junk offset >>= name_found (name_from fuel junk name) name

unfoldable pub testfs_dir_name_to_inode_nr : Memory → List ℕ → Action Io ℕ
unfolding name_from
testfs_dir_name_to_inode_nr junk name s = (do assert_dir; name_from (rounds s) junk name 0) s

-- The loop of `testfs_find_dirent`.
abbrev pub is_nr : ℤ → ℕ → Bool
is_nr (pos n) inode_nr = n == inode_nr
is_nr (negsuc n) inode_nr = false

abbrev pub nr_found :
    (ℕ → Action Io (Option Dirent)) → ℕ → Option (Dirent × ℕ) → Action Io (Option Dirent)
nr_found rest inode_nr none = pure none
nr_found rest inode_nr (some (d, offset)) =
    if is_nr d.d_inode_nr inode_nr then pure (some d) else rest offset

unfoldable pub find_from : ℕ → Memory → ℕ → ℕ → Action Io (Option Dirent)
unfolding testfs_next_dirent
find_from zero junk inode_nr offset = λ s. fault
find_from (suc fuel) junk inode_nr offset =
    testfs_next_dirent junk offset >>= nr_found (find_from fuel junk inode_nr) inode_nr

unfoldable pub testfs_find_dirent : Memory → ℕ → Action Io (Option Dirent)
unfolding find_from
testfs_find_dirent junk inode_nr s = (do assert_dir; find_from (rounds s) junk inode_nr 0) s

-- `strcpy`, and the entry with its name in memory
unfoldable pub put_bytes : Memory → ℕ → List ℕ → Memory
put_bytes m i [] = m
put_bytes m i (c ∷ l) = put_bytes (update m i c) (i + 1) l

unfoldable pub encode_dirent : Memory → List ℕ → ℕ → ℕ → Memory
unfolding put_bytes store_u32
encode_dirent junk name len inode_nr =
    put_bytes (store_u32 (store_u32 junk 0 (to_u32 (pos len))) 4 (to_u32 (pos inode_nr)))
      dirent_size (name ++ (0 ∷ []))

-- The start of the write is an `int`.
unfoldable pub write_at : Memory → ℤ → ℕ → Action Io ℕ
unfolding testfs_write_before
write_at buf (pos offset) size = testfs_write_data buf offset size
write_at buf (negsuc n) size = testfs_write_before n

unfoldable pub testfs_write_dirent : Memory → List ℕ → ℕ → ℕ → ℤ → Action Io ℕ
unfolding encode_dirent write_at
testfs_write_dirent junk name len inode_nr offset =
    write_at (encode_dirent junk name len inode_nr) offset (dirent_size + len)

-- The loop of `testfs_add_dirent`: whether a free entry of the length was found, and `p_offset`.
abbrev pub has_length : Dirent → ℕ → Bool
has_length d len = is_neg d.d_inode_nr && is_nr d.d_name_len len

abbrev pub place_found :
    (ℕ → Action Io (Bool × ℕ)) → List ℕ → ℕ → Option (Dirent × ℕ) → Action Io (Bool × ℕ)
place_found rest name p_offset none = pure (false, p_offset)
place_found rest name p_offset (some (d, offset)) = do
  same ← is_named d name
  (if same
      then fail eexist
      else if has_length d (length name + 1)
      then pure (true, p_offset)
      else rest offset)

unfoldable pub place_from : ℕ → Memory → List ℕ → ℕ → Action Io (Bool × ℕ)
unfolding testfs_next_dirent string_at same_text
place_from zero junk name offset = λ s. fault
place_from (suc fuel) junk name offset =
    testfs_next_dirent junk offset >>= place_found (place_from fuel junk name) name offset

abbrev pub at_end : ℕ → ℤ → Bool
at_end p_offset i_size = is_nr i_size p_offset

unfoldable pub testfs_add_dirent : Memory → List ℕ → ℕ → Action Io ℕ
unfolding place_from testfs_write_dirent
testfs_add_dirent junk name inode_nr s =
    (do
      assert_dir
      (found, p_offset) ← place_from (rounds s) junk name 0
      assert (found || at_end p_offset s.node.in_disk.i_size)
      testfs_write_dirent junk name (length name + 1) inode_nr (to_s32 p_offset))
      s
