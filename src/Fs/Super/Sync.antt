-- ===== src/Fs/Super/Sync.antt =====
-- The writes of fs/super.c keep the disk in step with memory.
use ece344lab.Common.{ℕ, ◌/◌, ◌≤◌, ◌<◌, ◌≡◌, ◌≢◌, arith, ℕ_discrete}
use ece344lab.Common.Bytes.{Memory}
use ece344lab.Fs.Layout.{block_size}
use ece344lab.Fs.Bitmap.{Bitmap, bits_per_word}
use ece344lab.Fs.Block.{Disk, bytes_from}
use ece344lab.Fs.Block.Laws.{written}
use ece344lab.Fs.Super.{DsuperBlock, encode_super, map_block}
use ece344lab.Fs.Super.Runs.{map_written}
use ece344lab.Fs.Super.Image.{Synced, inode_bits, block_bits}

-- A freemap with one word changed, its block written out, and then the super block.
module _ {d : Disk} {sb : DsuperBlock} {im bm : Bitmap} (synced : Synced d sb im bm)
    (sb' : DsuperBlock) (c : Bitmap) (i : ℕ) where
  abbrev blocks_out : Disk
  blocks_out = written (encode_super sb') 0 1 (map_written c 2 i d)

  abbrev inodes_out : Disk
  inodes_out = written (encode_super sb') 0 1 (map_written c 1 i d)

  module _ (other : (k : ℕ) → k ≢ i / bits_per_word → c.v k ≡ bm.v k) (lt : i < block_bits) where
    block_byte : (j : ℕ) → j < block_bits / bits_per_word → bytes_from blocks_out 2 j ≡ c.v j
    block_byte j hj = elim (ℕ_discrete (j / block_size) (map_block i)) [
      | yes e ↦ ground (arith, synced.blocks_synced j)
      | no ne ↦ ground (arith, synced.blocks_synced j, other j)
    ]

    pub Synced-blocks : Synced blocks_out sb' im c
    Synced-blocks = record {
      super_synced = λ j hj. ground arith;
      inodes_synced = λ j hj. ground (arith, synced.inodes_synced j);
      blocks_synced = block_byte;
    }

  module _ (other : (k : ℕ) → k ≢ i / bits_per_word → c.v k ≡ im.v k) (lt : i < inode_bits) where
    pub Synced-inodes : Synced inodes_out sb' c bm
    Synced-inodes = record {
      super_synced = λ j hj. ground arith;
      inodes_synced = λ j hj. ground (arith, synced.inodes_synced j);
      blocks_synced = λ j hj. ground (arith, synced.blocks_synced j);
    }

-- A write to a data block does not touch the super block or the freemaps.
pub Synced-data :
    {d : Disk} {sb : DsuperBlock} {im bm : Bitmap} (src : Memory) (n : ℕ)
    → 146 ≤ n
    → Synced d sb im bm
    → Synced (written src n 1 d) sb im bm
Synced-data src n lo synced = record {
  super_synced = λ j hj. ground (arith, synced.super_synced j);
  inodes_synced = λ j hj. ground (arith, synced.inodes_synced j);
  blocks_synced = λ j hj. ground (arith, synced.blocks_synced j);
}
