-- ===== src/Fs/ReadWrite/Dangling.antt =====
-- What `testfs_allocate_block` of fs/read_write.c leaves behind when the block runs out between the
-- indirect table and the block that it is for.
use ece344lab.Common.{
  ℕ, suc, ◌+◌, ◌≤◌, ◌<◌, ◌≡◌, refl, sym, subst, ap, ◌∙◌, inl, inr, true, false, arith,
}
use ece344lab.Common.Bytes.{load_u32}
use ece344lab.Common.Int.{pos, is_zero}
use ece344lab.Common.Action.{Outcome, ok, err, abort, exited, fault, enospc, continue, attempt}
use ece344lab.Fs.Bitmap.{Bitmap}
use ece344lab.Fs.Bitmap.Bits.{is_free}
use ece344lab.Fs.Block.{zero_block}
use ece344lab.Fs.Super.Image.{Mounted, Synced, block_bits}
use ece344lab.Fs.Inode.{Io, set_disk, testfs_alloc_block_for_inode, testfs_free_block_from_inode}
use ece344lab.Fs.Inode.Blocks.{
  AllocForInode, alloc_block_for_inode-AllocForInode, FreeFromInode,
  free_block_from_inode-FreeFromInode,
}
use ece344lab.Fs.ReadWrite.{int_at}
use ece344lab.Fs.ReadWrite.Allocate.{
  keep_indirect, fill_indirect, free_indirect, set_indirect, get_indirect, slot_allocated,
  allocate_indirect,
}

-- The call fails for want of space, and the inode's `i_indirect` is the number of a block that the
-- freemap says is free.
abbrev pub Dangles : Bitmap → Outcome Io ℕ → Type 0
Dangles im (ok n t) = ⊥
Dangles im (err e t) =
    (e ≡ enospc)
    × ((i : ℕ) × (map : Bitmap) × Mounted t.super im map
        × (t.node.in_disk.i_indirect ≡ pos (146 + i))
        × (is_free map i ≡ true))
Dangles im abort = ⊥
Dangles im exited = ⊥
Dangles im fault = ⊥

zero_entry : (k : ℕ) → int_at zero_block k ≡ pos 0
unfolding load_u32
zero_entry k = ground arith

freed :
    (t : Io) (im map : Bitmap) (i : ℕ) (r : Outcome Io (Unit {0}))
    → t.node.in_disk.i_indirect ≡ pos (146 + i)
    → FreeFromInode t im map i r
    → Dangles im (continue (λ _ u. err enospc u) r)
freed t im map i (ok _ u) at f = (
  refl,
  (
    i,
    f.0.0.map,
    f.0.0.mounted,
    ap (λ x. x.in_disk.i_indirect) f.1 ∙ at,
    f.0.0.bits i ∙ (ground arith),
  ),
)
freed t im map i (err e u) at f = absurd f
freed t im map i abort at f = absurd f
freed t im map i exited at f = absurd f
freed t im map i fault at f = absurd f

-- The second allocation fails.
second :
    (t : Io) (im map : Bitmap) (i k : ℕ) (r : Outcome Io ℕ)
    → Mounted t.super im map
    → Synced t.super.dev t.super.sb im map
    → i < block_bits
    → is_free map i ≡ false
    → t.node.in_disk.i_indirect ≡ pos (146 + i)
    → t.super.sb.max_fs_blocks ≤ t.super.sb.used_block_count
    → AllocForInode t im map r
    → Dangles im (continue (slot_allocated k zero_block true) (attempt (λ _. r) t))
second t im map i k (ok n u) m y lt held at full a = absurd (omega (arith, a.0.5, a.0.6))
second t im map i k (err e u) m y lt held at full a =
    subst (λ v. Dangles im (continue (λ _ w. err e w) (free_indirect v))) (sym same)
      (subst (λ x. Dangles im (continue (λ _ w. err x w) (free_indirect t))) (sym a.0.0)
        (freed t im map i (free_indirect t) at (
          subst (λ z. FreeFromInode t im map i (testfs_free_block_from_inode z t)) (sym at)
            (free_block_from_inode-FreeFromInode t im map m y i lt held))))
  where
    same : u ≡ t
    same = λ k. record { super = a.0.1 k; node = a.1 k }
second t im map i k abort m y lt held at full a = absurd a
second t im map i k exited m y lt held at full a = absurd a
second t im map i k fault m y lt held at full a = absurd a

-- The first allocation succeeds, since one block is left.
first :
    (s : Io) (im bm : Bitmap) (k : ℕ) (r : Outcome Io ℕ)
    → s.super.sb.max_fs_blocks ≡ suc s.super.sb.used_block_count
    → s.super.sb.used_block_count < block_bits
    → AllocForInode s im bm r
    → Dangles im (continue (fill_indirect k) (continue keep_indirect r))
first s im bm k (ok n u) one room a = rw (zero_entry k) (
    second t im a.0.4.map a.0.0 k (testfs_alloc_block_for_inode t) a.0.4.mounted a.0.4.synced a.0.2
      (a.0.4.bits a.0.0 ∙ ground arith) (ap pos a.0.1) (omega (arith, a.0.5, a.0.4.same_limit))
      (alloc_block_for_inode-AllocForInode t im a.0.4.map a.0.4.mounted a.0.4.synced))
  where
    t : Io
    t = set_disk (set_indirect (pos n)) u
first s im bm k (err e u) one room a = elim a.0.2 [
  | inl full ↦ absurd (omega arith)
  | inr all ↦ absurd (omega arith)
]
first s im bm k abort one room a = absurd a
first s im bm k exited one room a = absurd a
first s im bm k fault one room a = absurd a

-- With exactly one block left below `max_fs_blocks`, and no indirect table yet, the allocation of
-- an indirect block takes that block for the table, fails for the block itself, and gives the table
-- back; but `i_indirect` keeps its number, which is now that of a free block.
pub allocate_indirect-Dangles :
    (s : Io) (im bm : Bitmap) (k : ℕ)
    → Mounted s.super im bm
    → Synced s.super.dev s.super.sb im bm
    → s.node.in_disk.i_indirect ≡ pos 0
    → s.super.sb.max_fs_blocks ≡ suc s.super.sb.used_block_count
    → s.super.sb.used_block_count < block_bits
    → Dangles im (allocate_indirect k s)
unfolding allocate_indirect get_indirect
allocate_indirect-Dangles s im bm k mounted synced none one room =
    let missing : is_zero s.node.in_disk.i_indirect ≡ true = ap is_zero none in
    rw missing (
      first s im bm k (testfs_alloc_block_for_inode s) one room
        (alloc_block_for_inode-AllocForInode s im bm mounted synced))
