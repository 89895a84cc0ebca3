-- ===== src/Fs/Super.antt =====
pub mod Runs
pub mod Free
pub mod Alloc
pub mod Sync
pub mod Image
-- fs/super.c: the super block, and the allocation of inode numbers and blocks in the two freemaps.
use ece344lab.Common.{
  ℕ, ◌+◌, ◌-◌, ◌*◌, ◌/◌, ◌%◌, ◌^◌, Bool, not, Option, none, some, ltb, leb, ◌==◌, if◌then◌else◌,
}
use ece344lab.Common.Bytes.{Memory, load_u32, store_u32, load_u64, store_u64}
use ece344lab.Common.Int.{ℤ, pos, negsuc, is_neg, to_s32}
use ece344lab.Common.Action.{
  Outcome, Action, ok, err, abort, exited, fault, pure, return_int, fail, assert, gets, modify,
  put_back, zoom, ◌>>=◌, ◌>>◌, enospc,
}
use ece344lab.Fs.Layout.{block_size}
use ece344lab.Fs.Bitmap.{Bitmap, bits_per_word, bitmap_alloc, bitmap_unmark}
use ece344lab.Fs.Block.{Disk, write_blocks, zero_block, zero_blocks}

-- `struct dsuper_block`
pub record DsuperBlock : Type 0 where
  pub inode_freemap_start : ℕ
  pub block_freemap_start : ℕ
  pub inode_blocks_start : ℕ
  pub data_blocks_start : ℕ
  pub used_inode_count : ℕ
  pub used_block_count : ℕ
  pub max_fs_blocks : ℕ

-- `struct super_block`; a bitmap pointer may be NULL.
pub record SuperBlock : Type 0 where
  pub dev : Disk
  pub sb : DsuperBlock
  pub inode_freemap : Option Bitmap
  pub block_freemap : Option Bitmap

-- `memcpy` of a `struct dsuper_block` into a zeroed block, and back.
unfoldable pub encode_super : DsuperBlock → Memory
encode_super d =
    store_u64
      (store_u32
        (store_u32
          (store_u32
            (store_u32
              (store_u32 (store_u32 zero_block 0 d.inode_freemap_start) 4 d.block_freemap_start) 8
              d.inode_blocks_start)
            12 d.data_blocks_start)
          16 d.used_inode_count)
        20 d.used_block_count)
      24 d.max_fs_blocks

unfoldable pub decode_super : Memory → DsuperBlock
decode_super m = record {
  inode_freemap_start = load_u32 m 0;
  block_freemap_start = load_u32 m 4;
  inode_blocks_start = load_u32 m 8;
  data_blocks_start = load_u32 m 12;
  used_inode_count = load_u32 m 16;
  used_block_count = load_u32 m 20;
  max_fs_blocks = load_u64 m 24;
}

-- Actions on the parts of a super block. The code asserts that a freemap is there before it uses it.
abbrev pub on_dev : {A : Type 0} → Action Disk A → Action SuperBlock A
on_dev = zoom (λ s. s.dev) (λ d s. record s { dev = d })

abbrev pub on_map :
    {A : Type 0}
    → (Bitmap → SuperBlock → SuperBlock)
    → Action Bitmap A
    → SuperBlock
    → Option Bitmap
    → Outcome SuperBlock A
on_map set m s none = abort
on_map set m s (some b) = put_back (λ c. set c s) (m b)

abbrev pub on_inode_freemap : {A : Type 0} → Action Bitmap A → Action SuperBlock A
on_inode_freemap m s = on_map (λ c s. record s { inode_freemap = some c }) m s s.inode_freemap

abbrev pub on_block_freemap : {A : Type 0} → Action Bitmap A → Action SuperBlock A
on_block_freemap m s = on_map (λ c s. record s { block_freemap = some c }) m s s.block_freemap

unfoldable pub testfs_write_super_block : Action SuperBlock (Unit {0})
testfs_write_super_block s = on_dev (write_blocks (encode_super s.sb) (pos 0) 1) s

-- The block of a freemap that holds bit `nr`. A freemap has 65536 or 1048576 bits, so a bit number
-- is the same as `int` and as `u32`.
abbrev pub map_block : ℕ → ℕ
map_block nr = nr / (block_size * bits_per_word)

abbrev pub write_map : Bitmap → ℕ → ℕ → Action SuperBlock (Unit {0})
write_map b start nr =
    on_dev (write_blocks (λ j. b.v (nr * block_size + j)) (pos ((start + nr) % 2 ^ 32)) 1)

unfoldable pub testfs_write_inode_freemap : ℕ → Action SuperBlock (Unit {0})
testfs_write_inode_freemap inode_nr = do
  freemap ← on_inode_freemap (gets λ b. b)
  start ← gets (λ s. s.sb.inode_freemap_start)
  write_map freemap start (map_block inode_nr)

unfoldable pub testfs_write_block_freemap : ℕ → Action SuperBlock (Unit {0})
testfs_write_block_freemap block_nr = do
  freemap ← on_block_freemap (gets λ b. b)
  start ← gets (λ s. s.sb.block_freemap_start)
  write_map freemap start (map_block block_nr)

unfoldable pub testfs_get_block_freemap : Action SuperBlock ℕ
unfolding testfs_write_block_freemap
testfs_get_block_freemap = do
  index ← on_block_freemap bitmap_alloc
  testfs_write_block_freemap index
  pure index

unfoldable pub testfs_put_block_freemap : ℕ → Action SuperBlock (Unit {0})
unfolding testfs_write_block_freemap
testfs_put_block_freemap block_nr = do
  on_block_freemap (bitmap_unmark block_nr)
  testfs_write_block_freemap block_nr

-- `used_block_count` and `used_inode_count` are `u32`.
abbrev pub set_used_blocks : ℕ → SuperBlock → SuperBlock
set_used_blocks n s = record s { sb = record s.sb { used_block_count = n % 2 ^ 32 } }

abbrev pub set_used_inodes : ℕ → SuperBlock → SuperBlock
set_used_inodes n s = record s { sb = record s.sb { used_inode_count = n % 2 ^ 32 } }

unfoldable pub testfs_get_inode_freemap : Action SuperBlock ℕ
unfolding testfs_write_inode_freemap testfs_write_super_block
testfs_get_inode_freemap = do
  index ← on_inode_freemap bitmap_alloc
  testfs_write_inode_freemap index
  modify (λ s. set_used_inodes (s.sb.used_inode_count + 1) s)
  testfs_write_super_block
  pure index

unfoldable pub testfs_put_inode_freemap : ℕ → Action SuperBlock (Unit {0})
unfolding testfs_write_inode_freemap testfs_write_super_block
testfs_put_inode_freemap inode_nr = do
  on_inode_freemap (bitmap_unmark inode_nr)
  testfs_write_inode_freemap inode_nr
  used ← gets (λ s. s.sb.used_inode_count)
  assert (ltb 0 used)
  modify (set_used_inodes (used - 1))
  testfs_write_super_block

-- `testfs_alloc_block` past its limit check; returns the number of the block on the device.
unfoldable pub take_block : Action SuperBlock ℕ
unfolding testfs_get_block_freemap testfs_write_super_block
take_block = do
  phy_block_nr ← testfs_get_block_freemap
  modify (λ s. set_used_blocks (s.sb.used_block_count + 1) s)
  testfs_write_super_block
  start ← gets (λ s. s.sb.data_blocks_start)
  return_int (to_s32 (start + phy_block_nr))

unfoldable pub testfs_alloc_block : Action SuperBlock ℕ
testfs_alloc_block s =
    if leb s.sb.max_fs_blocks s.sb.used_block_count then err enospc s else take_block s

-- `block_nr -= sb->sb.data_blocks_start` is computed as `unsigned` and read as `int`.
abbrev pub data_index : ℤ → ℕ → ℤ
data_index (pos n) start = to_s32 (n + 2 ^ 32 - start % 2 ^ 32)
data_index (negsuc n) start = negsuc n

abbrev pub magnitude : ℤ → ℕ
magnitude (pos n) = n
magnitude (negsuc n) = n

-- A negative number of a block ends in the seek of `zero_blocks`.
unfoldable pub testfs_free_block : ℤ → Action SuperBlock (Unit {0})
unfolding testfs_put_block_freemap testfs_write_super_block
testfs_free_block block_nr = do
  on_dev (zero_blocks block_nr 1)
  start ← gets (λ s. s.sb.data_blocks_start)
  let index = data_index block_nr start
  assert (not (is_neg index))
  testfs_put_block_freemap (magnitude index)
  used ← gets (λ s. s.sb.used_block_count)
  assert (ltb 0 used)
  modify (set_used_blocks (used - 1))
  testfs_write_super_block
