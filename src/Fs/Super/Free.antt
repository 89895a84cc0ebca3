-- ===== src/Fs/Super/Free.antt =====
-- `testfs_free_block` of fs/super.c on a mounted file system.
use ece344lab.Common.{
  ℕ, suc, ◌+◌, ◌≤◌, ◌<◌, ◌≡◌, refl, ap, ◌∙◌, sym, subst, ◌≢◌, true, false, arith, ◌==◌,
  if◌then◌else◌, ℕ_discrete,
}
use ece344lab.Common.Int.{pos}
use ece344lab.Common.Action.{Outcome, ok, err, abort, exited, fault}
use ece344lab.Fs.Bitmap.{Bitmap, bitmap_unmark}
use ece344lab.Fs.Bitmap.Bits.{is_free}
use ece344lab.Fs.Bitmap.Marks.{Sets, bitmap_unmark-Sets}
use ece344lab.Fs.Bitmap.Count.{CountsDown, nr_allocated-unmark, nr_allocated-le}
use ece344lab.Fs.Block.{Disk, zero_block}
use ece344lab.Fs.Block.Laws.{written}
use ece344lab.Fs.Super.{
  DsuperBlock, SuperBlock, encode_super, testfs_alloc_block, testfs_free_block,
}
use ece344lab.Fs.Super.Runs.{map_written, released, free_block-ok}
use ece344lab.Fs.Super.Image.{Mounted, Synced, block_bits}
use ece344lab.Fs.Super.Sync.{Synced-blocks, Synced-data}
use ece344lab.Fs.Super.Alloc.{Moves, AllocBlock, alloc_block-AllocBlock}

-- Block `146 + i` is given back: zeroed, no longer counted, and nothing else on the data blocks
-- changes.
abbrev pub Frees : SuperBlock → Bitmap → Bitmap → ℕ → Outcome SuperBlock (Unit {0}) → Type 0
Frees s im bm i (ok _ t) =
    Moves s t im bm i true
    × (suc t.sb.used_block_count ≡ s.sb.used_block_count)
    × ((j : ℕ) → t.dev.data_at (146 + i) j ≡ 0)
    × ((k j : ℕ) → 146 ≤ k → k ≢ 146 + i → t.dev.data_at k j ≡ s.dev.data_at k j)
Frees s im bm i (err e t) = ⊥
Frees s im bm i abort = ⊥
Frees s im bm i exited = ⊥
Frees s im bm i fault = ⊥

module _ (s : SuperBlock) {im bm : Bitmap} (mounted : Mounted s im bm)
    (synced : Synced s.dev s.sb im bm) (i : ℕ) (inside : i < block_bits) where
  module _ {c : Bitmap} (a : Sets i true bm (ok tt c)) (n : CountsDown bm (ok tt c)) where
    released-Moves : Moves s (released c i (146 + i) s) im bm i true
    released-Moves = record {
      map = c;
      mounted = record {
        inodes_at = mounted.inodes_at;
        blocks_at = refl;
        inodes_valid = mounted.inodes_valid;
        blocks_valid = a.0;
        inodes_sized = mounted.inodes_sized;
        blocks_sized = a.1 ∙ mounted.blocks_sized;
        inode_map = mounted.inode_map;
        block_map = mounted.block_map;
        inodes = mounted.inodes;
        first_data = mounted.first_data;
        on_disk = ground (arith, mounted.on_disk);
        inode_count = mounted.inode_count;
        block_count =
            omega (arith, n, mounted.block_count, nr_allocated-le bm, mounted.blocks_sized);
      };
      synced =
          subst
            (λ st. Synced (written (encode_super sb') 0 1 (map_written c st i zeroed_dev)) sb' im c)
            (sym mounted.block_map)
            (Synced-blocks (Synced-data zero_block (146 + i) (omega arith) synced) sb' c i a.3
              inside);
      bits = a.2;
      same_limit = refl;
    }
      where
        sb' : DsuperBlock
        sb' = (released c i (146 + i) s).sb

        zeroed_dev : Disk
        zeroed_dev = written zero_block (146 + i) 1 s.dev

    released-Frees : Frees s im bm i (ok tt (released c i (146 + i) s))
    released-Frees = (
      released-Moves,
      omega (arith, n, mounted.block_count, nr_allocated-le bm, mounted.blocks_sized),
      λ j. ground (arith, mounted.block_map),
      λ k j lo ne. ground (arith, mounted.block_map),
    )

  unmarked :
      (r : Outcome Bitmap (Unit {0}))
      → bitmap_unmark i bm ≡ r
      → Sets i true bm r
      → CountsDown bm r
      → Frees s im bm i (testfs_free_block (pos (146 + i)) s)
  unmarked (ok tt c) e a n =
      rw
        (free_block-ok s bm c i (146 + i) mounted.blocks_at e (ground (arith, mounted.first_data))
          (ground (arith, n, mounted.block_count)))
        (released-Frees a n)
  unmarked (err x c) e a n = absurd a
  unmarked abort e a n = absurd a
  unmarked exited e a n = absurd a
  unmarked fault e a n = absurd a

  -- On a mounted file system in step with its disk, `testfs_free_block` of an allocated block
  -- returns: the block is zeroed, its bit and no other is cleared, the count falls by one, the disk
  -- stays in step and the other data blocks keep their contents. No assertion fails.
  pub free_block-Frees :
      is_free bm i ≡ false → Frees s im bm i (testfs_free_block (pos (146 + i)) s)
  free_block-Frees held =
      unmarked (bitmap_unmark i bm) refl (bitmap_unmark-Sets mounted.blocks_valid i lt held)
        (nr_allocated-unmark mounted.blocks_valid i lt held)
    where
      lt : i < bm.nbits
      lt = omega (arith, mounted.blocks_sized)

-- As before the allocation: the same bits, the same count, in step with the disk.
abbrev pub Restored : SuperBlock → Bitmap → Bitmap → Outcome SuperBlock (Unit {0}) → Type 0
Restored s im bm (ok _ u) =
    (map : Bitmap) × Mounted u im map
    × Synced u.dev u.sb im map
    × ((j : ℕ) → is_free map j ≡ is_free bm j)
    × (u.sb.used_block_count ≡ s.sb.used_block_count)
Restored s im bm (err e u) = ⊥
Restored s im bm abort = ⊥
Restored s im bm exited = ⊥
Restored s im bm fault = ⊥

undone :
    (s t : SuperBlock) (im bm map : Bitmap) (i : ℕ) (r : Outcome SuperBlock (Unit {0}))
    → ((j : ℕ) → is_free map j ≡ (if i == j then false else is_free bm j))
    → is_free bm i ≡ true
    → t.sb.used_block_count ≡ suc s.sb.used_block_count
    → Frees t im map i r
    → Restored s im bm r
undone s t im bm map i (ok _ u) bits free used f =
    (f.0.map, f.0.mounted, f.0.synced, back, omega (arith, used, f.1))
  where
    back : (j : ℕ) → is_free f.0.map j ≡ is_free bm j
    back j = elim (ℕ_discrete i j) [
      | yes e ↦ rw (f.0.bits j) (ground (arith, ap (is_free bm) e))
      | no ne ↦ rw (f.0.bits j, bits j) (ground arith)
    ]
undone s t im bm map i (err e u) bits free used f = f
undone s t im bm map i abort bits free used f = f
undone s t im bm map i exited bits free used f = f
undone s t im bm map i fault bits free used f = f

-- A block that `testfs_alloc_block` returned can be given back: `testfs_free_block` succeeds and
-- every bit of the freemap and the count of used blocks are those before the allocation.
pub free-alloc :
    (s : SuperBlock) {im bm : Bitmap}
    → Mounted s im bm
    → Synced s.dev s.sb im bm
    → (n : ℕ) (t : SuperBlock) → testfs_alloc_block s ≡ ok n t
    → Restored s im bm (testfs_free_block (pos n) t)
free-alloc s {im} {bm} mounted synced n t e =
    let a = subst (AllocBlock s im bm) e (alloc_block-AllocBlock s mounted synced) in
    let held : is_free a.4.map a.0 ≡ false = rw (a.4.bits a.0) (ground arith) in
    rw a.1 (
      undone s t im bm a.4.map a.0 _ a.4.bits a.3 a.5
        (free_block-Frees t a.4.mounted a.4.synced a.0 a.2 held))
