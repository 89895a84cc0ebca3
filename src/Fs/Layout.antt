-- ===== src/Fs/Layout.antt =====
-- The sizes of fs/testfs.h and fs/inode.h.
use Prim.Native.Nat.{ℕ}

abbrev pub block_size : ℕ
block_size = 8192

abbrev pub super_block_size : ℕ
super_block_size = 1

abbrev pub inode_freemap_size : ℕ
inode_freemap_size = 1

abbrev pub block_freemap_size : ℕ
block_freemap_size = 16

abbrev pub nr_inode_blocks : ℕ
nr_inode_blocks = 128

abbrev pub nr_direct_blocks : ℕ
nr_direct_blocks = 10

-- `BLOCK_SIZE/(int)sizeof(int)`
abbrev pub nr_indirect_blocks : ℕ
nr_indirect_blocks = 2048

-- `sizeof(struct dinode)`, and how many stand in a block
abbrev pub dinode_size : ℕ
dinode_size = 64

abbrev pub inodes_per_block : ℕ
inodes_per_block = 128
