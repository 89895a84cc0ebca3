-- ===== src/Fs/Cache.antt =====
pub mod Put
pub mod Get
pub mod Store
-- fs/inode.c: the inodes in memory, found by a hash, counted by their users, and written back. An
-- address of a `struct inode` is a number; a freed one has no node. There is one super block, so the
-- test `in->sb == sb` of the search always holds.
use ece344lab.Common.{
  ℕ, ◌+◌, ◌-◌, ◌*◌, ◌/◌, ◌%◌, ◌^◌, Bool, true, false, not, List, [], ◌∷◌, Option, none, some, ltb,
  leb, ◌==◌, if◌then◌else◌,
}
use ece344lab.Common.Memory.{update, copy}
use ece344lab.Common.Bytes.{Memory}
use ece344lab.Common.Int.{ℤ, pos, is_zero, to_u32, to_s32}
use ece344lab.Common.Action.{
  Outcome, Action, ok, err, abort, exited, fault, pure, fail, gets, modify, assert, zoom, put_back,
  ◌>>=◌, ◌>>◌, enospc,
}
use ece344lab.Fs.Layout.{block_size, nr_inode_blocks, inodes_per_block, dinode_size}
use ece344lab.Fs.Block.{zero_block, read_blocks, write_blocks}
use ece344lab.Fs.Super.{SuperBlock, on_dev, testfs_get_inode_freemap, testfs_put_inode_freemap}
use ece344lab.Fs.Inode.{Dinode, Inode, Io, encode_dinode, decode_dinode}
use ece344lab.Fs.ReadWrite.Release.{testfs_free_blocks}
use ece344lab.Fs.Mount.{HashTable, no_table, freed_table, chains, Fs}

-- A file system with the inodes in memory; `next` is the address that `calloc` returns.
pub record Core : Type 0 where
  pub fs : Fs
  pub nodes : ℕ → Option Inode
  pub next : ℕ

abbrev pub set_node : ℕ → Inode → Core → Core
set_node a i c = record c { nodes = update c.nodes a (some i) }

abbrev pub set_chains : (ℕ → List ℕ) → Core → Core
set_chains t c = record c { fs = record c.fs { table = chains t } }

abbrev pub at_node : Option Inode → Core → Outcome Core Inode
at_node (some i) c = ok i c
at_node none c = fault

abbrev pub deref : ℕ → Action Core Inode
deref a c = at_node (c.nodes a) c

abbrev pub at_table : HashTable → Core → Outcome Core (ℕ → List ℕ)
at_table no_table c = fault
at_table freed_table c = fault
at_table (chains t) c = ok t c

abbrev pub get_chains : Action Core (ℕ → List ℕ)
get_chains c = at_table c.fs.table c

abbrev pub in_core : {A : Type 0} → Action SuperBlock A → Action Core A
in_core = zoom (λ c. c.fs.super) (λ s c. record c { fs = record c.fs { super = s } })

-- `hash_int` of fs/list.h and `inode_hashfn`
abbrev pub hash_int : ℕ → ℕ → ℕ
hash_int val bits = val * 0x9e37_0001 % 2 ^ 32 / 2 ^ (32 - bits)

abbrev pub inode_hashfn : ℕ → ℕ
inode_hashfn nr = hash_int (nr % 2 ^ 32) 8

-- The search of a chain.
unfoldable pub find_in : List ℕ → ℕ → Action Core (Option ℕ)
find_in [] nr = pure none
find_in (a ∷ rest_of) nr =
    let rest = find_in rest_of nr in (do n ← deref a; if n.i_nr == nr then pure (some a) else rest)

unfoldable pub inode_hash_find : ℕ → Action Core (Option ℕ)
unfolding find_in
inode_hash_find inode_nr = do t ← get_chains; find_in (t (inode_hashfn inode_nr)) inode_nr

unfoldable pub inode_hash_insert : ℕ → Action Core (Unit {0})
inode_hash_insert a = do
  n ← deref a
  t ← get_chains
  let h = inode_hashfn n.i_nr
  modify (set_chains (update t h (a ∷ t h)))

-- `hlist_del` of a node that is in a chain
pub without : ℕ → List ℕ → List ℕ
without a [] = []
without a (b ∷ bs) = let rest = without a bs in if b == a then bs else b ∷ rest

unfoldable pub inode_hash_remove : ℕ → Action Core (Unit {0})
inode_hash_remove a = do t ← get_chains; modify (set_chains (λ h. without a (t h)))

unfoldable pub testfs_inode_to_block_nr : ℕ → Action Core ℕ
testfs_inode_to_block_nr a = do
  n ← deref a
  let block_nr = n.i_nr / inodes_per_block
  assert (ltb block_nr nr_inode_blocks)
  pure block_nr

unfoldable pub testfs_inode_to_block_offset : ℕ → Action Core ℕ
testfs_inode_to_block_offset a = do
  n ← deref a
  let block_offset = n.i_nr % inodes_per_block * dinode_size
  assert (ltb block_offset block_size)
  pure block_offset

unfoldable pub testfs_read_inode_block : ℕ → Memory → Action Core Memory
unfolding testfs_inode_to_block_nr
testfs_read_inode_block a block = do
  block_nr ← testfs_inode_to_block_nr a
  start ← in_core (gets (λ s. s.sb.inode_blocks_start))
  in_core (on_dev (read_blocks block (pos ((start + block_nr) % 2 ^ 32)) 1))

unfoldable pub testfs_write_inode_block : ℕ → Memory → Action Core (Unit {0})
unfolding testfs_inode_to_block_nr
testfs_write_inode_block a block = do
  block_nr ← testfs_inode_to_block_nr a
  start ← in_core (gets (λ s. s.sb.inode_blocks_start))
  in_core (on_dev (write_blocks block (pos ((start + block_nr) % 2 ^ 32)) 1))

-- A dinode of zeroes, as `calloc` and `bzero` leave it.
abbrev pub zero_dinode : Dinode
zero_dinode = record {
  i_type = pos 0;
  i_block_nr = λ k. pos 0;
  i_indirect = pos 0;
  i_dindirect = pos 0;
  block_count = pos 0;
  i_size = pos 0;
}

abbrev pub new_node : ℕ → Inode
new_node nr = record { in_disk = zero_dinode; dirty = false; i_nr = nr; i_count = pos 1 }

-- `calloc`
abbrev pub allocate : Inode → Action Core ℕ
allocate i c = ok c.next (record c { nodes = update c.nodes c.next (some i); next = c.next + 1 })

abbrev pub add_count : ℕ → Inode → Inode
add_count k i = record i { i_count = to_s32 (to_u32 i.i_count + k) }

-- An inode that is not in memory.
unfoldable pub load_inode : ℕ → Action Core ℕ
unfolding testfs_read_inode_block testfs_inode_to_block_offset inode_hash_insert
load_inode inode_nr = do
  a ← allocate (new_node inode_nr)
  block ← testfs_read_inode_block a zero_block
  block_offset ← testfs_inode_to_block_offset a
  n ← deref a
  modify (set_node a (record n { in_disk = decode_dinode (λ j. block (block_offset + j)) }))
  inode_hash_insert a
  pure a

unfoldable pub get_found : Bool → ℕ → Option ℕ → Action Core ℕ
unfolding load_inode
get_found mem inode_nr (some a) = do n ← deref a; modify (set_node a (add_count 1 n)); pure a
get_found mem inode_nr none = λ c. if mem then load_inode inode_nr c else exited

unfoldable pub testfs_get_inode : Bool → ℕ → Action Core ℕ
unfolding inode_hash_find get_found
testfs_get_inode mem inode_nr = do found ← inode_hash_find inode_nr; get_found mem inode_nr found

-- The dinode copied into its place in the block.
abbrev pub place : Memory → ℕ → Dinode → Memory
place block offset d = copy block offset (encode_dinode d) 0 dinode_size

unfoldable pub write_back : ℕ → Action Core (Unit {0})
unfolding testfs_read_inode_block testfs_inode_to_block_offset testfs_write_inode_block
write_back a = do
  block ← testfs_read_inode_block a zero_block
  block_offset ← testfs_inode_to_block_offset a
  n ← deref a
  testfs_write_inode_block a (place block block_offset n.in_disk)
  m ← deref a
  modify (set_node a (record m { dirty = false }))

unfoldable pub testfs_sync_inode : ℕ → Action Core (Unit {0})
unfolding write_back
testfs_sync_inode a = do n ← deref a; if n.dirty then write_back a else pure tt

abbrev pub free_node : ℕ → Core → Core
free_node a c = record c { nodes = update c.nodes a none }

-- `--in->i_count`, as an `int`
unfoldable pub testfs_put_inode : ℕ → Action Core (Unit {0})
unfolding inode_hash_remove
testfs_put_inode a = do
  n ← deref a
  assert (not n.dirty)
  let m = add_count 0xffff_ffff n
  modify (set_node a m)
  if is_zero m.i_count then (do inode_hash_remove a; modify (free_node a)) else pure tt

unfoldable pub testfs_create_inode : Bool → ℤ → Action Core ℕ
unfolding testfs_get_inode
testfs_create_inode mem type_of = do
  inode_nr ← in_core testfs_get_inode_freemap
  if leb nr_inode_blocks (inode_nr / inodes_per_block)
      then (do in_core (testfs_put_inode_freemap inode_nr); fail enospc)
      else (do
        a ← testfs_get_inode mem inode_nr
        n ← deref a
        modify (
            set_node a (record n { in_disk = record n.in_disk { i_type = type_of }; dirty = true }))
        pure a)

-- An action on the inode at an address and its super block.
abbrev pub on_found : {A : Type 0} → ℕ → Action Io A → Core → Option Inode → Outcome Core A
on_found a m c none = fault
on_found a m c (some i) =
    put_back
      (λ io. record c {
        fs = record c.fs { super = io.super };
        nodes = update c.nodes a (some io.node);
      })
      (m (record { super = c.fs.super; node = i }))

abbrev pub on_node : {A : Type 0} → ℕ → Action Io A → Action Core A
on_node a m c = on_found a m c (c.nodes a)

unfoldable pub testfs_remove_inode : ℕ → Action Core (Unit {0})
unfolding testfs_sync_inode testfs_put_inode
testfs_remove_inode a = do
  on_node a testfs_free_blocks
  n ← deref a
  assert (is_zero n.in_disk.block_count)
  modify (set_node a (record n { in_disk = zero_dinode; dirty = true }))
  in_core (testfs_put_inode_freemap n.i_nr)
  testfs_sync_inode a
  testfs_put_inode a
