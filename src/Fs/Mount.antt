-- ===== src/Fs/Mount.antt =====
pub mod Format
pub mod Close
pub mod Laws
-- fs/super.c and fs/mktestfs.c: making, opening and closing a file system, with the hash of inodes
-- of fs/inode.c at its start and end. `fopen`, `open`, `fdopen` and `malloc` succeed or not as the
-- arguments say. A closed device is still the file that the next one opens.
use ece344lab.Common.{
  ℕ, ◌+◌, ◌*◌, ◌%◌, Bool, true, false, not, List, [], ◌∷◌, Option, none, some, all_below, ltb, ◌==◌,
  if◌then◌else◌,
}
use ece344lab.Common.Bytes.{Memory}
use ece344lab.Common.Int.{pos}
use ece344lab.Common.Action.{
  Outcome, Action, ok, err, abort, exited, fault, pure, fail, gets, modify, assert, zoom, ◌>>=◌,
  ◌>>◌, enomem,
}
use ece344lab.Fs.Layout.{
  block_size, super_block_size, inode_freemap_size, block_freemap_size, nr_inode_blocks,
  dinode_size, inodes_per_block,
}
use ece344lab.Fs.Bitmap.{Bitmap, bits_per_word, bitmap_create}
use ece344lab.Fs.Block.{Disk, zero_block, zero_blocks, read_blocks, write_blocks}
use ece344lab.Fs.Super.{DsuperBlock, SuperBlock, decode_super, on_dev, testfs_write_super_block}

-- `inode_hash_table`: NULL, freed, or its chains of the addresses of inodes.
pub data HashTable : Type 0 where
  no_table : HashTable
  freed_table : HashTable
  chains : (ℕ → List ℕ) → HashTable

-- `1 << INODE_HASH_SHIFT`
abbrev pub inode_hash_size : ℕ
inode_hash_size = 256

abbrev pub is_empty : List ℕ → Bool
is_empty [] = true
is_empty (_ ∷ _) = false

unfoldable pub inode_hash_init : Bool → Action HashTable (Unit {0})
inode_hash_init mem t = if mem then ok tt (chains (λ i. [])) else exited

unfoldable pub inode_hash_destroy : Action HashTable (Unit {0})
unfolding all_below
inode_hash_destroy no_table = abort
inode_hash_destroy freed_table = fault
inode_hash_destroy (chains c) =
    if all_below inode_hash_size (λ i. is_empty (c i)) then ok tt freed_table else abort

-- A super block and the hash.
pub record Fs : Type 0 where
  pub super : SuperBlock
  pub table : HashTable

abbrev pub in_super : {A : Type 0} → Action SuperBlock A → Action Fs A
in_super = zoom (λ s. s.super) (λ t s. record s { super = t })

abbrev pub in_table : {A : Type 0} → Action HashTable A → Action Fs A
in_table = zoom (λ s. s.table) (λ t s. record s { table = t })

-- The super block that is set up on a device that `fopen` made empty.
abbrev pub formatted : ℕ → SuperBlock
formatted max_fs_blocks =
    let inode_freemap_start = super_block_size in
    let block_freemap_start = inode_freemap_start + inode_freemap_size in
    let inode_blocks_start = block_freemap_start + block_freemap_size in
    record {
      dev = record { size = 0; data_at = λ i j. 0 };
      sb = record {
        inode_freemap_start = inode_freemap_start;
        block_freemap_start = block_freemap_start;
        inode_blocks_start = inode_blocks_start;
        data_blocks_start = inode_blocks_start + nr_inode_blocks;
        used_inode_count = 0;
        used_block_count = 0;
        max_fs_blocks = max_fs_blocks;
      };
      inode_freemap = none;
      block_freemap = none;
    }

-- The state of `testfs_make_super_block` becomes the new super block.
unfoldable pub testfs_make_super_block : Bool → Bool → Bool → ℕ → Action Fs (Unit {0})
unfolding testfs_write_super_block inode_hash_init
testfs_make_super_block mem opened hash_mem max_fs_blocks s =
    (if not mem then (λ s. exited) else if not opened then (λ s. exited) else (do
      modify (λ s. record s { super = formatted max_fs_blocks })
      in_super testfs_write_super_block
      in_table (inode_hash_init hash_mem)))
      s

unfoldable pub testfs_make_inode_freemap : Action SuperBlock (Unit {0})
testfs_make_inode_freemap s =
    on_dev (zero_blocks (pos s.sb.inode_freemap_start) inode_freemap_size) s

unfoldable pub testfs_make_block_freemap : Action SuperBlock (Unit {0})
testfs_make_block_freemap s =
    on_dev (zero_blocks (pos s.sb.block_freemap_start) block_freemap_size) s

unfoldable pub testfs_make_inode_blocks : Action SuperBlock (Unit {0})
testfs_make_inode_blocks s =
    (if ltb (block_size * inode_freemap_size * 8) (nr_inode_blocks * inodes_per_block)
        then (λ s. exited)
        else (do
          assert (block_size % dinode_size == 0)
          on_dev (zero_blocks (pos s.sb.inode_blocks_start) nr_inode_blocks)))
      s

-- `malloc` of the super block; the error of `open` or `fdopen`, if any; the memory of both bitmaps
-- and of the hash.
pub record Resources : Type 0 where
  pub super_mem : Bool
  pub open_error : Option ℕ
  pub inode_map_mem : Bool × Bool
  pub block_map_mem : Bool × Bool
  pub hash_mem : Bool

-- A bitmap of `n` blocks, made and then filled from the device.
unfoldable pub load_map : Bool × Bool → ℕ → ℕ → Action SuperBlock Bitmap
unfolding bitmap_create
load_map (mem_b, mem_v) start n = do
  b ← zoom (λ s. tt) (λ u s. s) (bitmap_create mem_b mem_v (block_size * n * bits_per_word))
  data_of ← on_dev (read_blocks b.v (pos start) n)
  pure (record { nbits = b.nbits; v = data_of })

-- The fields of a super block from `malloc` are set before they are read. Only the device is what
-- it was. The result is 0, or the positive `errno` of `open`.
abbrev pub open_super : Resources → Action Fs ℕ
open_super r = do
  block ← in_super (on_dev (read_blocks zero_block (pos 0) 1))
  in_super (modify (λ s. record s { sb = decode_super block }))
  start ← in_super (gets (λ s. s.sb.inode_freemap_start))
  inode_map ← in_super (load_map r.inode_map_mem start inode_freemap_size)
  in_super (modify (λ s. record s { inode_freemap = some inode_map }))
  block_start ← in_super (gets (λ s. s.sb.block_freemap_start))
  block_map ← in_super (load_map r.block_map_mem block_start block_freemap_size)
  in_super (modify (λ s. record s { block_freemap = some block_map }))
  in_table (inode_hash_init r.hash_mem)
  pure 0

abbrev pub open_device : Resources → Option ℕ → Action Fs ℕ
open_device r (some e) = pure e
open_device r none = open_super r

unfoldable pub testfs_init_super_block : Resources → Action Fs ℕ
unfolding load_map inode_hash_init
testfs_init_super_block r s =
    (if not r.super_mem then fail enomem else open_device r r.open_error) s

-- A freemap, if it is there, is written out whole.
abbrev pub flush_map : Option Bitmap → ℕ → ℕ → Action SuperBlock (Unit {0})
flush_map none start n = pure tt
flush_map (some b) start n = on_dev (write_blocks b.v (pos start) n)

abbrev pub flush_inode_map : Action SuperBlock (Unit {0})
flush_inode_map s =
    (flush_map s.inode_freemap s.sb.inode_freemap_start inode_freemap_size
        >> modify (λ s. record s { inode_freemap = none }))
      s

abbrev pub flush_block_map : Action SuperBlock (Unit {0})
flush_block_map s =
    (flush_map s.block_freemap s.sb.block_freemap_start block_freemap_size
        >> modify (λ s. record s { block_freemap = none }))
      s

unfoldable pub testfs_close_super_block : Action Fs (Unit {0})
unfolding testfs_write_super_block inode_hash_destroy
testfs_close_super_block = do
  in_super testfs_write_super_block
  in_table inode_hash_destroy
  in_super flush_inode_map
  in_super flush_block_map

-- `main` of fs/mktestfs.c up to the root directory: makes the file system, closes it and opens it.
unfoldable pub make_and_open : ℕ → Resources → Action Fs ℕ
unfolding testfs_make_super_block testfs_make_inode_freemap testfs_make_block_freemap
    testfs_make_inode_blocks testfs_close_super_block testfs_init_super_block
make_and_open max_fs_blocks r = do
  testfs_make_super_block true true true max_fs_blocks
  in_super testfs_make_inode_freemap
  in_super testfs_make_block_freemap
  in_super testfs_make_inode_blocks
  testfs_close_super_block
  testfs_init_super_block r
