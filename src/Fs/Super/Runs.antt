-- ===== src/Fs/Super/Runs.antt =====
-- The states that the functions of fs/super.c end in, written out.
use ece344lab.Common.{ℕ, ◌+◌, ◌-◌, ◌*◌, ◌%◌, ◌^◌, ◌≡◌, true, some, ltb}
use ece344lab.Common.Int.{pos, to_s32}
use ece344lab.Common.Action.{ok, err, return_int}
use ece344lab.Fs.Layout.{block_size}
use ece344lab.Fs.Bitmap.{Bitmap, bitmap_alloc, bitmap_unmark}
use ece344lab.Fs.Block.{Disk, write_blocks, zero_block}
use ece344lab.Fs.Block.Laws.{written, zero_blocks-written}
use ece344lab.Fs.Super.{
  SuperBlock, encode_super, map_block, set_used_blocks, set_used_inodes, testfs_write_super_block,
  testfs_write_inode_freemap, testfs_write_block_freemap, testfs_get_block_freemap,
  testfs_put_block_freemap, testfs_get_inode_freemap, testfs_put_inode_freemap, take_block,
  testfs_free_block, data_index,
}

-- The super block written out.
abbrev pub flushed : SuperBlock → SuperBlock
flushed s = record s { dev = written (encode_super s.sb) 0 1 s.dev }

-- The freemap `c` in place, its block with bit `i` written out.
abbrev pub map_written : Bitmap → ℕ → ℕ → Disk → Disk
map_written c start i =
    written (λ j. c.v (map_block i * block_size + j)) ((start + map_block i) % 2 ^ 32) 1

abbrev pub with_blocks : Bitmap → ℕ → SuperBlock → SuperBlock
with_blocks c i s = record s {
  block_freemap = some c;
  dev = map_written c s.sb.block_freemap_start i s.dev;
}

abbrev pub with_inodes : Bitmap → ℕ → SuperBlock → SuperBlock
with_inodes c i s = record s {
  inode_freemap = some c;
  dev = map_written c s.sb.inode_freemap_start i s.dev;
}

abbrev pub allocated : Bitmap → ℕ → SuperBlock → SuperBlock
allocated c i s = flushed (set_used_blocks (s.sb.used_block_count + 1) (with_blocks c i s))

pub take_block-ok :
    (s : SuperBlock) (b c : Bitmap) (i : ℕ)
    → s.block_freemap ≡ some b
    → bitmap_alloc b ≡ ok i c
    → take_block s ≡ return_int (to_s32 (s.sb.data_blocks_start + i)) (allocated c i s)
unfolding take_block testfs_get_block_freemap testfs_write_block_freemap testfs_write_super_block
    write_blocks
take_block-ok s b c i at e = rw (at, e)

pub take_block-err :
    (s : SuperBlock) (b c : Bitmap) (e : ℕ)
    → s.block_freemap ≡ some b
    → bitmap_alloc b ≡ err e c
    → take_block s ≡ err e (record s { block_freemap = some c })
unfolding take_block testfs_get_block_freemap
take_block-err s b c e at h = rw (at, h)

abbrev pub zeroed : ℕ → SuperBlock → SuperBlock
zeroed n s = record s { dev = written zero_block n 1 s.dev }

abbrev pub released : Bitmap → ℕ → ℕ → SuperBlock → SuperBlock
released c i n s =
    flushed (set_used_blocks (s.sb.used_block_count - 1) (with_blocks c i (zeroed n s)))

pub free_block-ok :
    (s : SuperBlock) (b c : Bitmap) (i n : ℕ)
    → s.block_freemap ≡ some b
    → bitmap_unmark i b ≡ ok tt c
    → data_index (pos n) s.sb.data_blocks_start ≡ pos i
    → ltb 0 s.sb.used_block_count ≡ true
    → testfs_free_block (pos n) s ≡ ok tt (released c i n s)
unfolding testfs_free_block testfs_put_block_freemap testfs_write_block_freemap
    testfs_write_super_block write_blocks
free_block-ok s b c i n at e index used = rw (zero_blocks-written n 1 s.dev, index, at, e, used)

abbrev pub inode_taken : Bitmap → ℕ → SuperBlock → SuperBlock
inode_taken c i s = flushed (set_used_inodes (s.sb.used_inode_count + 1) (with_inodes c i s))

pub get_inode-ok :
    (s : SuperBlock) (b c : Bitmap) (i : ℕ)
    → s.inode_freemap ≡ some b
    → bitmap_alloc b ≡ ok i c
    → testfs_get_inode_freemap s ≡ ok i (inode_taken c i s)
unfolding testfs_get_inode_freemap testfs_write_inode_freemap testfs_write_super_block write_blocks
get_inode-ok s b c i at e = rw (at, e)

pub get_inode-err :
    (s : SuperBlock) (b c : Bitmap) (e : ℕ)
    → s.inode_freemap ≡ some b
    → bitmap_alloc b ≡ err e c
    → testfs_get_inode_freemap s ≡ err e (record s { inode_freemap = some c })
unfolding testfs_get_inode_freemap
get_inode-err s b c e at h = rw (at, h)

abbrev pub inode_released : Bitmap → ℕ → SuperBlock → SuperBlock
inode_released c i s = flushed (set_used_inodes (s.sb.used_inode_count - 1) (with_inodes c i s))

pub put_inode-ok :
    (s : SuperBlock) (b c : Bitmap) (i : ℕ)
    → s.inode_freemap ≡ some b
    → bitmap_unmark i b ≡ ok tt c
    → ltb 0 s.sb.used_inode_count ≡ true
    → testfs_put_inode_freemap i s ≡ ok tt (inode_released c i s)
unfolding testfs_put_inode_freemap testfs_write_inode_freemap testfs_write_super_block write_blocks
put_inode-ok s b c i at e used = rw (at, e, used)
