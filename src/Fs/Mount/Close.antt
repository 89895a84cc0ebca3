-- ===== src/Fs/Mount/Close.antt =====
-- `testfs_close_super_block` of fs/super.c, alone and followed by `testfs_init_super_block`.
use ece344lab.Common.{ℕ, ◌≤◌, ◌≡◌, refl, sym, subst, true, arith, none, some, List, all_below}
use ece344lab.Common.Action.{Outcome, ok, err, abort, exited, fault, ◌>>◌, continue}
use ece344lab.Fs.Bitmap.{Bitmap}
use ece344lab.Fs.Block.{Disk, write_blocks}
use ece344lab.Fs.Block.Laws.{written}
use ece344lab.Fs.Super.{SuperBlock, encode_super, testfs_write_super_block}
use ece344lab.Fs.Super.Image.{Fits, Mounted, Synced}
use ece344lab.Fs.Mount.{
  HashTable, freed_table, chains, inode_hash_size, is_empty, Fs, inode_hash_destroy,
  testfs_init_super_block, testfs_close_super_block,
}
use ece344lab.Fs.Mount.Laws.{plenty, Opens, init-Opens}

-- Every chain of the hash is empty: no inode is in memory.
pub record NoInodes (t : HashTable) : Type 0 where
  pub chain : ℕ → List ℕ
  pub table : t ≡ chains chain
  pub none_left : all_below inode_hash_size (λ i. is_empty (chain i)) ≡ true

-- The device after the three writes.
abbrev flushed_dev : SuperBlock → Bitmap → Bitmap → Disk
flushed_dev s im bm =
    written bm.v s.sb.block_freemap_start 16
      (written im.v s.sb.inode_freemap_start 1 (written (encode_super s.sb) 0 1 s.dev))

abbrev closed : Fs → Bitmap → Bitmap → Fs
closed s im bm = record {
  super = record {
    dev = flushed_dev s.super im bm;
    sb = s.super.sb;
    inode_freemap = none;
    block_freemap = none;
  };
  table = freed_table;
}

destroyed : (t : HashTable) → NoInodes t → inode_hash_destroy t ≡ ok tt freed_table
unfolding inode_hash_destroy
destroyed t e = rw (e.table, e.none_left) refl

close-closed :
    (s : Fs) (im bm : Bitmap)
    → s.super.inode_freemap ≡ some im
    → s.super.block_freemap ≡ some bm
    → NoInodes s.table
    → testfs_close_super_block s ≡ ok tt (closed s im bm)
unfolding testfs_close_super_block testfs_write_super_block write_blocks
close-closed s im bm x y e = rw (destroyed s.table e, x, y) refl

-- The freemaps are released, the hash is freed, the device is in step with what was in memory, and
-- no block from 18 on has changed.
abbrev pub Closes : SuperBlock → Bitmap → Bitmap → Outcome Fs (Unit {0}) → Type 0
Closes s im bm (ok _ t) =
    Synced t.super.dev s.sb im bm
    × (146 ≤ t.super.dev.size)
    × (t.super.inode_freemap ≡ none)
    × (t.super.block_freemap ≡ none)
    × (t.table ≡ freed_table)
    × ((k j : ℕ) → 18 ≤ k → t.super.dev.data_at k j ≡ s.dev.data_at k j)
Closes s im bm (err e t) = ⊥
Closes s im bm abort = ⊥
Closes s im bm exited = ⊥
Closes s im bm fault = ⊥

module _ (s : Fs) (im bm : Bitmap) (mounted : Mounted s.super im bm) where
  closed-Synced : Synced (closed s im bm).super.dev s.super.sb im bm
  closed-Synced = record {
    super_synced = λ j lt. ground (arith, mounted.inode_map, mounted.block_map);
    inodes_synced = λ j lt. ground (arith, mounted.inode_map, mounted.block_map);
    blocks_synced = λ j lt. ground (arith, mounted.inode_map, mounted.block_map);
  }

  closed-Closes : Closes s.super im bm (ok tt (closed s im bm))
  closed-Closes = (
    closed-Synced,
    ground (arith, mounted.on_disk),
    refl,
    refl,
    refl,
    λ k j lo. ground (arith, mounted.inode_map, mounted.block_map),
  )

-- `testfs_close_super_block` of a mounted file system, with no inode in memory, leaves a device in
-- step with what was in memory, whether or not it was before, and the other blocks as they were.
-- It returns: no assertion fails.
pub close-Closes :
    (s : Fs) (im bm : Bitmap)
    → Mounted s.super im bm
    → NoInodes s.table
    → Closes s.super im bm (testfs_close_super_block s)
close-Closes s im bm mounted empty =
    subst (Closes s.super im bm)
      (sym (close-closed s im bm mounted.inodes_at mounted.blocks_at empty))
      (closed-Closes s im bm mounted)

-- A mounted file system that is closed and opened again has the same super block and the same bits
-- in both freemaps, is mounted and in step with its device, and has kept all blocks from 18 on.
abbrev pub Reopens : SuperBlock → Bitmap → Bitmap → Outcome Fs ℕ → Type 0
Reopens s im bm r =
    (d : Disk) × Opens s im bm d r × ((k j : ℕ) → 18 ≤ k → d.data_at k j ≡ s.dev.data_at k j)

-- Closing a mounted file system with no inode in memory and opening the device again gives the same
-- file system, where no call of the host fails and the numbers of the super block fit their fields.
pub init-close :
    (s : Fs) (im bm : Bitmap)
    → Mounted s.super im bm
    → Fits s.super.sb
    → NoInodes s.table
    → Reopens s.super im bm ((testfs_close_super_block >> testfs_init_super_block plenty) s)
init-close s im bm mounted fits empty =
    subst (λ r. Reopens s.super im bm (continue (λ _. testfs_init_super_block plenty) r))
      (sym (close-closed s im bm mounted.inodes_at mounted.blocks_at empty))
      (
        (closed s im bm).super.dev,
        init-Opens s.super im bm (closed s im bm) mounted fits (closed-Closes s im bm mounted).0
            (closed-Closes s im bm mounted).1,
        (closed-Closes s im bm mounted).5,
      )
