-- ===== src/Fs/Tests/Files.antt =====
-- The theorems on the reads of fs/read_write.c at a file of two blocks, the second a hole.
use ece344lab.Common.{◌≡◌, refl, false, arith, none, if◌then◌else◌, ◌==◌}
use ece344lab.Common.Bytes.{load_u32}
use ece344lab.Common.Int.{pos}
use ece344lab.Fs.Block.{zero_block}
use ece344lab.Fs.Inode.{Io}
use ece344lab.Fs.ReadWrite.{testfs_read_block}
use ece344lab.Fs.ReadWrite.Map.{
  phys, content, Reachable, Reads, table_entry, read_block-Reads, read_block_hole,
}
use ece344lab.Fs.Mount.Format.{fresh_sb}

-- Block 0 of the file is block 146, and block 10 is block 150, by the indirect table in block 147.
-- All other blocks are holes.
abbrev file : Io
file = record {
  super = record {
    dev = record {
      size = 200;
      data_at = λ i j.
          if i == 146
          then 7
          else if i == 147
          then (if j == 0 then 150 else 0)
          else if i == 150
          then 9
          else 0;
    };
    sb = fresh_sb 1000;
    inode_freemap = none;
    block_freemap = none;
  };
  node = record {
    in_disk = record {
      i_type = pos 1;
      i_block_nr = λ k. if k == 0 then pos 146 else pos 0;
      i_indirect = pos 147;
      i_dindirect = pos 0;
      block_count = pos 3;
      i_size = pos 100000;
    };
    dirty = false;
    i_nr = 3;
    i_count = pos 1;
  };
}

-- Block 10 lies behind the indirect table.
tenth : Reachable file 10
unfolding load_u32
tenth = record {
  below = omega arith;
  target = omega arith;
  indirect = omega arith;
  dindirect = omega arith;
  entry = λ p far. absurd (omega arith);
}

read_block-Reads_example :
    Reads file (phys file 10) (content file 10) (testfs_read_block (pos 10) zero_block file)
read_block-Reads_example = read_block-Reads file 10 zero_block tenth

-- The same with a double indirect table, block 148, that is empty.
abbrev holed : Io
holed = record file {
  node = record file.node { in_disk = record file.node.in_disk { i_dindirect = pos 148 } };
}

no_table : table_entry holed (pos 148) 0 ≡ pos 0
unfolding load_u32
no_table = refl

holed_read :
    Reads holed
      (pos 0)
      (holed.super.dev.data_at 148)
      (testfs_read_block (pos 2058) zero_block holed)
holed_read =
    read_block_hole holed 2058 147 zero_block (omega arith) (omega arith) refl (omega arith)
      no_table
