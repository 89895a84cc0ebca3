-- ===== src/Fs/Mount/Format.antt =====
-- A new file system: what `make_and_open`, the start of fs/mktestfs.c, makes.
use ece344lab.Common.{
  ℕ, ◌+◌, ◌*◌, ◌%◌, ◌^◌, ◌≤◌, ◌<◌, ◌≡◌, refl, sym, subst, true, arith, some, ◌==◌, if◌then◌else◌,
  all_below,
}
use ece344lab.Fs.Bitmap.{Bitmap, bitmap_isset}
use ece344lab.Fs.Bitmap.Bits.{IsValid, is_free}
use ece344lab.Fs.Bitmap.Marks.{zero_clear}
use ece344lab.Fs.Bitmap.Count.{nr_allocated-none}
use ece344lab.Fs.Block.{Disk, zero_block, write_blocks}
use ece344lab.Fs.Block.Laws.{written, zero_blocks-written}
use ece344lab.Fs.Super.{DsuperBlock, SuperBlock, encode_super, testfs_write_super_block}
use ece344lab.Fs.Super.Image.{Fits, Mounted, Synced}
use ece344lab.Fs.Mount.{
  Fs, Resources, freed_table, formatted, inode_hash_init, inode_hash_destroy,
  testfs_make_super_block, testfs_make_inode_freemap, testfs_make_block_freemap,
  testfs_make_inode_blocks, testfs_close_super_block, testfs_init_super_block, make_and_open,
}
use ece344lab.Fs.Mount.Laws.{plenty, Opens, init-Opens}

abbrev pub empty_map : ℕ → Bitmap
empty_map n = record { nbits = n; v = λ i. 0 }

-- A fresh file system that may hold `limit` blocks.
abbrev pub fresh_sb : ℕ → DsuperBlock
fresh_sb limit = record {
  inode_freemap_start = 1;
  block_freemap_start = 2;
  inode_blocks_start = 18;
  data_blocks_start = 146;
  used_inode_count = 0;
  used_block_count = 0;
  max_fs_blocks = limit;
}

abbrev pub fresh_disk : ℕ → Disk
fresh_disk limit = record {
  size = 146;
  data_at = λ i j. if i == 0 then encode_super (fresh_sb limit) j else 0;
}

abbrev pub fresh : ℕ → SuperBlock
fresh limit = record {
  dev = fresh_disk limit;
  sb = fresh_sb limit;
  inode_freemap = some (empty_map 65536);
  block_freemap = some (empty_map 1048576);
}

pub empty-is_free : (n j : ℕ) → is_free (empty_map n) j ≡ true
unfolding bitmap_isset
empty-is_free n j = zero_clear (j % 8)

pub empty-IsValid : (k : ℕ) → k * 8 + 8 ≤ 2 ^ 32 → IsValid (empty_map (k * 8))
empty-IsValid k h = record {
  byte = λ i. omega arith;
  small = h;
  over = λ j lo hi. absurd (omega arith);
}

pub fresh-Mounted : (limit : ℕ) → Mounted (fresh limit) (empty_map 65536) (empty_map 1048576)
fresh-Mounted limit = record {
  inodes_at = refl;
  blocks_at = refl;
  inodes_valid = empty-IsValid 8192 (omega arith);
  blocks_valid = empty-IsValid 131072 (omega arith);
  inodes_sized = refl;
  blocks_sized = refl;
  inode_map = refl;
  block_map = refl;
  inodes = refl;
  first_data = refl;
  on_disk = omega arith;
  inode_count = sym (nr_allocated-none (empty_map 65536) (λ j lt. empty-is_free 65536 j));
  block_count = sym (nr_allocated-none (empty_map 1048576) (λ j lt. empty-is_free 1048576 j));
}

pub fresh-Synced :
    (limit : ℕ) → Synced (fresh_disk limit) (fresh_sb limit) (empty_map 65536) (empty_map 1048576)
fresh-Synced limit = record {
  super_synced = λ j lt. refl;
  inodes_synced = λ j lt. ground arith;
  blocks_synced = λ j lt. ground arith;
}

-- The device before it is opened.
abbrev pub made_disk : ℕ → Disk
made_disk limit = written (encode_super (fresh_sb limit)) 0 1 (
    written zero_block 18 128 (
      written zero_block 2 16 (
        written zero_block 1 1
          (written (encode_super (fresh_sb limit)) 0 1 (formatted limit).dev))))

abbrev made : ℕ → Fs
made limit = record {
  super = record (formatted limit) { dev = made_disk limit };
  table = freed_table;
}

make-made :
    (limit : ℕ) (r : Resources) (s : Fs)
    → make_and_open limit r s ≡ testfs_init_super_block r (made limit)
unfolding make_and_open testfs_make_super_block testfs_make_inode_freemap testfs_make_block_freemap
    testfs_make_inode_blocks testfs_close_super_block testfs_write_super_block write_blocks
    inode_hash_init inode_hash_destroy all_below
make-made limit r s =
    rw (zero_blocks-written 1 1 _, zero_blocks-written 2 16 _, zero_blocks-written 18 128 _) refl

made-Synced :
    (limit : ℕ) → Synced (made_disk limit) (fresh_sb limit) (empty_map 65536) (empty_map 1048576)
made-Synced limit = record {
  super_synced = λ j lt. ground arith;
  inodes_synced = λ j lt. ground arith;
  blocks_synced = λ j lt. ground arith;
}

fresh-Fits : (limit : ℕ) → limit < 2 ^ 64 → Fits (fresh_sb limit)
fresh-Fits limit h = record {
  inode_map = omega arith;
  block_map = omega arith;
  inodes = omega arith;
  first_data = omega arith;
  inode_count = omega arith;
  block_count = omega arith;
  limit = h;
}

-- What mktestfs makes for a limit that is a `u64` opens, where no call of the host fails, as a file
-- system with that limit, nothing in use and all bits of both freemaps clear.
pub make-Opens :
    (limit : ℕ) (s : Fs)
    → limit < 2 ^ 64
    → Opens
        (fresh limit)
        (empty_map 65536)
        (empty_map 1048576)
        (made_disk limit)
        (make_and_open limit plenty s)
make-Opens limit s h =
    subst (Opens (fresh limit) (empty_map 65536) (empty_map 1048576) (made_disk limit))
      (sym (make-made limit plenty s))
      (init-Opens (fresh limit) (empty_map 65536) (empty_map 1048576) (made limit)
        (fresh-Mounted limit) (fresh-Fits limit h) (made-Synced limit) (ground arith))
