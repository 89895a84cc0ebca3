-- ===== src/Fs/Inode/Blocks.antt =====
-- `testfs_alloc_block_for_inode` and `testfs_free_block_from_inode` of fs/inode.c on a mounted file
-- system.
use ece344lab.Common.{ℕ, suc, ◌+◌, ◌<◌, ◌≡◌, refl, true, false, arith}
use ece344lab.Common.Int.{pos, is_zero}
use ece344lab.Common.Action.{Outcome, ok, err, abort, exited, fault, put_back, continue}
use ece344lab.Fs.Bitmap.{Bitmap}
use ece344lab.Fs.Bitmap.Bits.{is_free}
use ece344lab.Fs.Super.{SuperBlock, testfs_alloc_block, testfs_free_block}
use ece344lab.Fs.Super.Image.{Mounted, Synced, block_bits}
use ece344lab.Fs.Super.Alloc.{AllocBlock, alloc_block-AllocBlock}
use ece344lab.Fs.Super.Free.{Frees, free_block-Frees}
use ece344lab.Fs.Inode.{
  Inode, Io, count_up, count_down, give_back, testfs_alloc_block_for_inode,
  testfs_free_block_from_inode,
}

abbrev pub counted_up : Inode → Inode
counted_up i = record i { in_disk = count_up i.in_disk; dirty = true }

abbrev pub counted_down : Inode → Inode
counted_down i = record i { in_disk = count_down i.in_disk; dirty = true }

-- The super block as after `testfs_alloc_block`; the inode counts a block that it got.
abbrev pub AllocForInode : Io → Bitmap → Bitmap → Outcome Io ℕ → Type 0
AllocForInode s im bm (ok n t) =
    AllocBlock s.super im bm (ok n t.super) × (t.node ≡ counted_up s.node)
AllocForInode s im bm (err e t) = AllocBlock s.super im bm (err e t.super) × (t.node ≡ s.node)
AllocForInode s im bm abort = ⊥
AllocForInode s im bm exited = ⊥
AllocForInode s im bm fault = ⊥

-- On a mounted file system `testfs_alloc_block_for_inode` takes a free block as
-- `testfs_alloc_block` does, counts it in the inode and marks the inode dirty, or fails as that does
-- and leaves the inode as it was.
pub alloc_block_for_inode-AllocForInode :
    (s : Io) (im bm : Bitmap)
    → Mounted s.super im bm
    → Synced s.super.dev s.super.sb im bm
    → AllocForInode s im bm (testfs_alloc_block_for_inode s)
unfolding testfs_alloc_block_for_inode
alloc_block_for_inode-AllocForInode s im bm mounted synced =
    go (testfs_alloc_block s.super) (alloc_block-AllocBlock s.super mounted synced)
  where
    go :
        (r : Outcome SuperBlock ℕ)
        → AllocBlock s.super im bm r
        → AllocForInode s im bm (
            continue
              (λ n t. ok n (record t { node = counted_up t.node }))
              (put_back (λ u. record s { super = u }) r))
    go (ok n u) a = (a, refl)
    go (err e u) a = (a, refl)
    go abort a = a
    go exited a = a
    go fault a = a

abbrev pub FreeFromInode : Io → Bitmap → Bitmap → ℕ → Outcome Io (Unit {0}) → Type 0
FreeFromInode s im bm i (ok _ t) =
    Frees s.super im bm i (ok tt t.super) × (t.node ≡ counted_down s.node)
FreeFromInode s im bm i (err e t) = ⊥
FreeFromInode s im bm i abort = ⊥
FreeFromInode s im bm i exited = ⊥
FreeFromInode s im bm i fault = ⊥

-- `testfs_free_block_from_inode` of an allocated block gives it back as `testfs_free_block` does,
-- takes it off the inode's count and marks the inode dirty.
pub free_block_from_inode-FreeFromInode :
    (s : Io) (im bm : Bitmap)
    → Mounted s.super im bm
    → Synced s.super.dev s.super.sb im bm
    → (i : ℕ) → i < block_bits
    → is_free bm i ≡ false
    → FreeFromInode s im bm i (testfs_free_block_from_inode (pos (146 + i)) s)
unfolding testfs_free_block_from_inode give_back
free_block_from_inode-FreeFromInode s im bm mounted synced i inside held =
    let e : 146 + i ≡ suc (145 + i) = omega arith in
    let counted : is_zero (pos (146 + i)) ≡ false = rw e in
    rw counted (
      go (testfs_free_block (pos (146 + i)) s.super)
        (free_block-Frees s.super mounted synced i inside held))
  where
    go :
        (r : Outcome SuperBlock (Unit {0}))
        → Frees s.super im bm i r
        → FreeFromInode s im bm i (
            continue
              (λ _ t. ok tt (record t { node = counted_down t.node }))
              (put_back (λ u. record s { super = u }) r))
    go (ok _ u) a = (a, refl)
    go (err e u) a = a
    go abort a = a
    go exited a = a
    go fault a = a
