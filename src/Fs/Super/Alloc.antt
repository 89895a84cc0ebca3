-- ===== src/Fs/Super/Alloc.antt =====
-- `testfs_alloc_block` and `testfs_free_block` of fs/super.c on a mounted file system.
use ece344lab.Common.{
  ℕ, suc, ◌+◌, ◌≤◌, ◌<◌, ◌≡◌, refl, ap, ◌∙◌, sym, subst, ◌⊎◌, inl, inr, Bool, true, false, some,
  arith, leb, ◌==◌, if◌then◌else◌, Bool-cases,
}
use ece344lab.Common.Int.{pos, to_s32}
use ece344lab.Common.Action.{Outcome, ok, err, abort, exited, fault, enospc, return_int}
use ece344lab.Fs.Bitmap.{Bitmap, bitmap_alloc, bitmap_nr_allocated}
use ece344lab.Fs.Bitmap.Bits.{is_free}
use ece344lab.Fs.Bitmap.Alloc.{Allocates, bitmap_alloc-Allocates}
use ece344lab.Fs.Bitmap.Count.{Counts, nr_allocated-alloc, nr_allocated-le}
use ece344lab.Fs.Block.Laws.{written}
use ece344lab.Fs.Super.{DsuperBlock, SuperBlock, encode_super, take_block, testfs_alloc_block}
use ece344lab.Fs.Super.Runs.{map_written, allocated, take_block-ok, take_block-err}
use ece344lab.Fs.Super.Image.{Mounted, Synced, block_bits}
use ece344lab.Fs.Super.Sync.{Synced-blocks}

-- The file system after a block was taken or given back: mounted, in step with its disk, with bit
-- `i` of the block freemap as `free` says and all others as in `bm`, and `used` blocks.
pub record Moves (s t : SuperBlock) (im bm : Bitmap) (i : ℕ) (free : Bool) : Type 0 where
  pub map : Bitmap
  pub mounted : Mounted t im map
  pub synced : Synced t.dev t.sb im map
  pub bits : (j : ℕ) → is_free map j ≡ (if i == j then free else is_free bm j)
  pub same_limit : t.sb.max_fs_blocks ≡ s.sb.max_fs_blocks

-- What `testfs_alloc_block` may do.
abbrev pub AllocBlock : SuperBlock → Bitmap → Bitmap → Outcome SuperBlock ℕ → Type 0
AllocBlock s im bm (ok n t) =
    (i : ℕ) × (n ≡ 146 + i)
    × (i < block_bits)
    × (is_free bm i ≡ true)
    × Moves s t im bm i false
    × (t.sb.used_block_count ≡ suc s.sb.used_block_count)
    × (t.sb.used_block_count ≤ s.sb.max_fs_blocks)
    × ((k j : ℕ) → 146 ≤ k → t.dev.data_at k j ≡ s.dev.data_at k j)
AllocBlock s im bm (err e t) =
    (e ≡ enospc)
    × (t ≡ s)
    × ((s.sb.max_fs_blocks ≤ s.sb.used_block_count) ⊎ (s.sb.used_block_count ≡ block_bits))
AllocBlock s im bm abort = ⊥
AllocBlock s im bm exited = ⊥
AllocBlock s im bm fault = ⊥

module _ (s : SuperBlock) {im bm : Bitmap} (mounted : Mounted s im bm)
    (synced : Synced s.dev s.sb im bm) where
  counted : bitmap_nr_allocated bm ≤ block_bits
  counted = omega (arith, nr_allocated-le bm, mounted.blocks_sized)

  module _ {i : ℕ} {c : Bitmap} (a : Allocates bm (ok i c)) (n : Counts bm (ok i c)) where
    allocated-Moves : Moves s (allocated c i s) im bm i false
    allocated-Moves = record {
      map = c;
      mounted = record {
        inodes_at = mounted.inodes_at;
        blocks_at = refl;
        inodes_valid = mounted.inodes_valid;
        blocks_valid = a.5;
        inodes_sized = mounted.inodes_sized;
        blocks_sized = a.3 ∙ mounted.blocks_sized;
        inode_map = mounted.inode_map;
        block_map = mounted.block_map;
        inodes = mounted.inodes;
        first_data = mounted.first_data;
        on_disk = ground (arith, mounted.on_disk);
        inode_count = mounted.inode_count;
        block_count = omega (arith, n, mounted.block_count, counted);
      };
      synced =
          subst (λ st. Synced (written (encode_super sb') 0 1 (map_written c st i s.dev)) sb' im c)
            (sym mounted.block_map)
            (Synced-blocks synced sb' c i a.6 (omega (arith, a.0, mounted.blocks_sized)));
      bits = a.4;
      same_limit = refl;
    }
      where
        sb' : DsuperBlock
        sb' = (allocated c i s).sb

    allocated-AllocBlock :
        s.sb.used_block_count < s.sb.max_fs_blocks
        → AllocBlock s im bm (return_int (to_s32 (s.sb.data_blocks_start + i)) (allocated c i s))
    allocated-AllocBlock room =
        let number : to_s32 (s.sb.data_blocks_start + i) ≡ pos (146 + i) =
          ground (arith, mounted.first_data, mounted.blocks_sized, a.0) in
        rw number (
          i,
          refl,
          omega (arith, a.0, mounted.blocks_sized),
          a.1,
          allocated-Moves,
          omega (arith, n, mounted.block_count, counted),
          omega (arith, n, mounted.block_count, counted),
          λ k j lo. ground (arith, mounted.block_map, a.0, mounted.blocks_sized),
        )

  take_block-AllocBlock :
      (r : Outcome Bitmap ℕ)
      → bitmap_alloc bm ≡ r
      → Allocates bm r
      → Counts bm r
      → s.sb.used_block_count < s.sb.max_fs_blocks
      → AllocBlock s im bm (take_block s)
  take_block-AllocBlock (ok i c) e a n room =
      rw (take_block-ok s bm c i mounted.blocks_at e) (allocated-AllocBlock a n room)
  take_block-AllocBlock (err x c) e a n room = rw (take_block-err s bm c x mounted.blocks_at e) (
    a.0,
    (λ k. record s { block_freemap = (ap some a.1 ∙ sym mounted.blocks_at) k }),
    inr (omega (arith, n, mounted.block_count, mounted.blocks_sized)),
  )
  take_block-AllocBlock abort e a n room = absurd a
  take_block-AllocBlock exited e a n room = absurd a
  take_block-AllocBlock fault e a n room = absurd a

  -- On a mounted file system in step with its disk `testfs_alloc_block` returns. It takes a block
  -- that was free, counts it, stays within `max_fs_blocks`, keeps the disk in step and leaves every
  -- data block as it was; or it returns `-ENOSPC` and changes nothing, and then the limit is
  -- reached or all blocks are counted.
  pub alloc_block-AllocBlock : AllocBlock s im bm (testfs_alloc_block s)
  unfolding testfs_alloc_block
  alloc_block-AllocBlock = elim (Bool-cases (leb s.sb.max_fs_blocks s.sb.used_block_count)) [
    | inl full ↦ rw full (refl, refl, inl (ground arith))
    | inr room ↦ rw room (
        take_block-AllocBlock (bitmap_alloc bm) refl
          (bitmap_alloc-Allocates bm mounted.blocks_valid)
          (nr_allocated-alloc bm mounted.blocks_valid) (ground arith))
  ]
