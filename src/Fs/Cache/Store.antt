-- ===== src/Fs/Cache/Store.antt =====
-- `testfs_sync_inode` of fs/inode.c: an inode on its way to the device and back.
use ece344lab.Common.{
  ℕ, ◌+◌, ◌*◌, ◌/◌, ◌%◌, ◌^◌, ◌≤◌, ◌<◌, ◌≡◌, ◌≢◌, refl, sym, subst, ap, ◌∙◌, true, false, arith,
  some, ltb, leb, ℕ_discrete,
}
use ece344lab.Common.Memory.{copy, update}
use ece344lab.Common.Bytes.{Memory, load_u32, load_u64}
use ece344lab.Common.Int.{to_s32, to_s64}
use ece344lab.Common.Action.{Outcome, ok, err, abort, exited, fault}
use ece344lab.Fs.Layout.{block_size, inodes_per_block, nr_inode_blocks, dinode_size}
use ece344lab.Fs.Block.{Disk, bytes_from, zero_block, read_blocks, write_blocks}
use ece344lab.Fs.Block.Laws.{written}
use ece344lab.Fs.Inode.{Dinode, Inode, encode_dinode, decode_dinode}
use ece344lab.Fs.Inode.Codec.{InRange, Same, decode-encode_dinode}
use ece344lab.Fs.Cache.{
  Core, place, testfs_inode_to_block_nr, testfs_inode_to_block_offset, testfs_read_inode_block,
  testfs_write_inode_block, write_back, testfs_sync_inode,
}

-- The 64 bytes of inode `nr` on the device.
abbrev pub dinode_bytes : Disk → ℕ → Memory
dinode_bytes d nr j =
    d.data_at (18 + nr / inodes_per_block) (nr % inodes_per_block * dinode_size + j)

abbrev Agree : Memory → Memory → Type 0
Agree m n = (j : ℕ) → j < dinode_size → m j ≡ n j

load_u32-same : (m n : Memory) → Agree m n → (i : ℕ) → i + 4 ≤ 64 → load_u32 m i ≡ load_u32 n i
unfolding load_u32
load_u32-same m n h i lt =
    rw
      (h i (omega arith), h (i + 1) (omega arith), h (i + 2) (omega arith), h (i + 3) (omega arith))
      refl

load_u64-same : (m n : Memory) → Agree m n → (i : ℕ) → i + 8 ≤ 64 → load_u64 m i ≡ load_u64 n i
unfolding load_u64
load_u64-same m n h i lt =
    omega (arith, load_u32-same m n h i (omega arith), load_u32-same m n h (i + 4) (omega arith))

-- Only the 64 bytes are read.
pub Same-Agree :
    (m n : Memory) (d : Dinode) → Agree m n → Same (decode_dinode n) d → Same (decode_dinode m) d
unfolding decode_dinode
Same-Agree m n d h s = record {
  kind = ap to_s32 (load_u32-same m n h 0 (omega arith)) ∙ s.kind;
  direct = λ k lt. ap to_s32 (load_u32-same m n h (4 + 4 * k) (omega arith)) ∙ s.direct k lt;
  indirect = ap to_s32 (load_u32-same m n h 44 (omega arith)) ∙ s.indirect;
  dindirect = ap to_s32 (load_u32-same m n h 48 (omega arith)) ∙ s.dindirect;
  count = ap to_s32 (load_u32-same m n h 52 (omega arith)) ∙ s.count;
  size = ap to_s64 (load_u64-same m n h 56 (omega arith)) ∙ s.size;
}

-- A device with its inode blocks, and an inode of it in memory at address `a`.
pub record Resident (c : Core) (a : ℕ) (n : Inode) : Type 0 where
  pub node : c.nodes a ≡ some n
  pub number : n.i_nr < nr_inode_blocks * inodes_per_block
  pub inodes : c.fs.super.sb.inode_blocks_start ≡ 18
  pub on_disk : 146 ≤ c.fs.super.dev.size
  pub in_range : InRange n.in_disk

abbrev clean : Inode → Inode
clean n = record n { dirty = false }

-- The inode's block as it is read, and the device after the block is written.
abbrev old_block : Core → Inode → Memory
old_block c n =
    copy zero_block 0 (bytes_from c.fs.super.dev (18 + n.i_nr / inodes_per_block)) 0
      (1 * block_size)

abbrev stored_dev : Core → Inode → Disk
stored_dev c n =
    written (place (old_block c n) (n.i_nr % inodes_per_block * dinode_size) n.in_disk)
      (18 + n.i_nr / inodes_per_block) 1 c.fs.super.dev

abbrev stored : Core → ℕ → Inode → Core
stored c a n = record c {
  fs = record c.fs { super = record c.fs.super { dev = stored_dev c n } };
  nodes = update c.nodes a (some (clean n));
}

module _ (c : Core) (a : ℕ) (n : Inode) (r : Resident c a n) where
  small : ltb (n.i_nr / inodes_per_block) nr_inode_blocks ≡ true
  small = ground (arith, r.number)

  inside : ltb (n.i_nr % inodes_per_block * dinode_size) block_size ≡ true
  inside = ground arith

  number : (18 + n.i_nr / inodes_per_block) % 2 ^ 32 ≡ 18 + n.i_nr / inodes_per_block
  number = omega (arith, r.number)

  fits : leb (18 + n.i_nr / inodes_per_block + 1) c.fs.super.dev.size ≡ true
  fits = ground (arith, r.number, r.on_disk)

  block_nr-run : testfs_inode_to_block_nr a c ≡ ok (n.i_nr / inodes_per_block) c
  unfolding testfs_inode_to_block_nr
  block_nr-run = rw (r.node, small) refl

  offset-run : testfs_inode_to_block_offset a c ≡ ok (n.i_nr % inodes_per_block * dinode_size) c
  unfolding testfs_inode_to_block_offset
  offset-run = rw (r.node, inside) refl

  read-run : testfs_read_inode_block a zero_block c ≡ ok (old_block c n) c
  unfolding testfs_read_inode_block read_blocks
  read-run = rw (block_nr-run, r.inodes, number, fits) refl

  write-run :
      (b : Memory)
      → testfs_write_inode_block a b c
        ≡ ok tt (record c {
          fs = record c.fs {
            super = record c.fs.super {
              dev = written b (18 + n.i_nr / inodes_per_block) 1 c.fs.super.dev;
            };
          };
        })
  unfolding testfs_write_inode_block write_blocks
  write-run b = rw (block_nr-run, r.inodes, number) refl

  write_back-stored : write_back a c ≡ ok tt (stored c a n)
  unfolding write_back
  write_back-stored = rw (read-run, offset-run, r.node, write-run _, r.node) refl

  sync-stored : n.dirty ≡ true → testfs_sync_inode a c ≡ ok tt (stored c a n)
  unfolding testfs_sync_inode
  sync-stored dirty = rw (r.node, dirty) write_back-stored

-- The inode is on the device and clean; the bytes of every other inode, the other blocks and the
-- other inodes in memory are as before.
abbrev pub Stores : Core → ℕ → Inode → Outcome Core (Unit {0}) → Type 0
Stores c a n (ok _ d) =
    Same (decode_dinode (dinode_bytes d.fs.super.dev n.i_nr)) n.in_disk
    × (d.nodes a ≡ some (record n { dirty = false }))
    × ((m j : ℕ)
        → m ≢ n.i_nr
        → j < dinode_size
        → dinode_bytes d.fs.super.dev m j ≡ dinode_bytes c.fs.super.dev m j)
    × ((k j : ℕ)
        → k ≢ 18 + n.i_nr / inodes_per_block
        → d.fs.super.dev.data_at k j ≡ c.fs.super.dev.data_at k j)
    × ((b : ℕ) → b ≢ a → d.nodes b ≡ c.nodes b)
Stores c a n (err e d) = ⊥
Stores c a n abort = ⊥
Stores c a n exited = ⊥
Stores c a n fault = ⊥

module _ (c : Core) (a : ℕ) (n : Inode) (r : Resident c a n) where
  own_bytes : Agree (dinode_bytes (stored_dev c n) n.i_nr) (encode_dinode n.in_disk)
  own_bytes j lt = ground arith

  other_bytes :
      (m j : ℕ)
      → m ≢ n.i_nr
      → j < dinode_size
      → dinode_bytes (stored_dev c n) m j ≡ dinode_bytes c.fs.super.dev m j
  other_bytes m j ne lt = elim (ℕ_discrete (m / inodes_per_block) (n.i_nr / inodes_per_block)) [
    | yes e ↦ ground arith
    | no apart ↦ ground arith
  ]

  stored-Stores : Stores c a n (ok tt (stored c a n))
  stored-Stores = (
    Same-Agree (dinode_bytes (stored_dev c n) n.i_nr) (encode_dinode n.in_disk) n.in_disk own_bytes
        (decode-encode_dinode n.in_disk r.in_range),
    ground arith,
    other_bytes,
    λ k j ne. ground arith,
    λ b ne. ground arith,
  )

  -- `testfs_sync_inode` of a dirty inode in memory returns, with the inode clean: read back from its
  -- place on the device it is the inode in memory. Every other inode keeps its bytes, every other
  -- block its contents, and every other inode in memory is as it was. The inode number is below
  -- 16384 and the fields are in range.
  pub sync-Stores : n.dirty ≡ true → Stores c a n (testfs_sync_inode a c)
  sync-Stores dirty = subst (Stores c a n) (sym (sync-stored c a n r dirty)) stored-Stores
