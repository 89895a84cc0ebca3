-- ===== src/Fs/Super/Image.antt =====
-- The layout that fs/super.c gives a file system, and when the disk agrees with memory.
use ece344lab.Common.{ℕ, ◌*◌, ◌/◌, ◌^◌, ◌≤◌, ◌<◌, ◌≡◌, some, arith}
use ece344lab.Common.Bytes.{load_u64, store_u64, load_u32, store_u32}
use ece344lab.Fs.Layout.{block_size, inode_freemap_size, block_freemap_size}
use ece344lab.Fs.Bitmap.{Bitmap, bits_per_word, bitmap_nr_allocated}
use ece344lab.Fs.Bitmap.Bits.{IsValid}
use ece344lab.Fs.Block.{Disk, bytes_from}
use ece344lab.Fs.Super.{DsuperBlock, SuperBlock, encode_super, decode_super}

-- The numbers of a super block fit their fields.
pub record Fits (d : DsuperBlock) : Type 0 where
  pub inode_map : d.inode_freemap_start < 2 ^ 32
  pub block_map : d.block_freemap_start < 2 ^ 32
  pub inodes : d.inode_blocks_start < 2 ^ 32
  pub first_data : d.data_blocks_start < 2 ^ 32
  pub inode_count : d.used_inode_count < 2 ^ 32
  pub block_count : d.used_block_count < 2 ^ 32
  pub limit : d.max_fs_blocks < 2 ^ 64

-- Reading back a super block that was written gives the same super block.
pub decode-encode_super : (d : DsuperBlock) → Fits d → decode_super (encode_super d) ≡ d
unfolding decode_super encode_super load_u64 store_u64 load_u32 store_u32
decode-encode_super d f = ground arith

abbrev pub inode_bits : ℕ
inode_bits = block_size * inode_freemap_size * bits_per_word

abbrev pub block_bits : ℕ
block_bits = block_size * block_freemap_size * bits_per_word

-- A super block with the layout of `testfs_make_super_block` and both freemaps loaded.
pub record Mounted (s : SuperBlock) (im bm : Bitmap) : Type 0 where
  pub inodes_at : s.inode_freemap ≡ some im
  pub blocks_at : s.block_freemap ≡ some bm
  pub inodes_valid : IsValid im
  pub blocks_valid : IsValid bm
  pub inodes_sized : im.nbits ≡ inode_bits
  pub blocks_sized : bm.nbits ≡ block_bits
  pub inode_map : s.sb.inode_freemap_start ≡ 1
  pub block_map : s.sb.block_freemap_start ≡ 2
  pub inodes : s.sb.inode_blocks_start ≡ 18
  pub first_data : s.sb.data_blocks_start ≡ 146
  pub on_disk : 146 ≤ s.dev.size
  pub inode_count : s.sb.used_inode_count ≡ bitmap_nr_allocated im
  pub block_count : s.sb.used_block_count ≡ bitmap_nr_allocated bm

-- The super block and the freemaps on disk are those in memory.
pub record Synced (d : Disk) (sb : DsuperBlock) (im bm : Bitmap) : Type 0 where
  pub super_synced : (j : ℕ) → j < block_size → d.data_at 0 j ≡ encode_super sb j
  pub inodes_synced : (j : ℕ) → j < inode_bits / bits_per_word → bytes_from d 1 j ≡ im.v j
  pub blocks_synced : (j : ℕ) → j < block_bits / bits_per_word → bytes_from d 2 j ≡ bm.v j
