-- ===== src/Fs/Tests/Disks.antt =====
-- The theorems on fs/super.c and fs/inode.c at a fresh file system.
use ece344lab.Common.{[], all_below, ◌≡◌, refl, sym, subst, ap, false, arith, Option, none, some}
use ece344lab.Common.Memory.{update}
use ece344lab.Common.Int.{negsuc, pos}
use ece344lab.Common.Action.{◌>>◌, ok}
use ece344lab.Fs.Bitmap.{Bitmap, alloc_from, find_offset, bitmap_alloc, bitmap_isset}
use ece344lab.Fs.Bitmap.Bits.{is_free}
use ece344lab.Fs.Block.{write_blocks}
use ece344lab.Fs.Super.{
  SuperBlock, encode_super, decode_super, testfs_write_super_block, testfs_write_block_freemap,
  testfs_get_block_freemap, take_block, testfs_alloc_block, testfs_free_block,
}
use ece344lab.Fs.Super.Runs.{allocated}
use ece344lab.Fs.Super.Image.{Fits, decode-encode_super, Mounted, Synced}
use ece344lab.Fs.Super.Alloc.{AllocBlock, alloc_block-AllocBlock}
use ece344lab.Fs.Super.Free.{Frees, free_block-Frees, Restored, free-alloc}
use ece344lab.Fs.Inode.Codec.{Same, decode-encode_dinode}
use ece344lab.Fs.Inode.{
  Dinode, encode_dinode, decode_dinode, Inode, testfs_alloc_block_for_inode,
  testfs_free_block_from_inode,
}
use ece344lab.Fs.Inode.Blocks.{
  AllocForInode, alloc_block_for_inode-AllocForInode, FreeFromInode,
  free_block_from_inode-FreeFromInode,
}
use ece344lab.Fs.ReadWrite.Allocate.{allocate_indirect}
use ece344lab.Fs.ReadWrite.Dangling.{Dangles, allocate_indirect-Dangles}
use ece344lab.Fs.Mount.{
  Fs, chains, testfs_close_super_block, testfs_init_super_block, make_and_open,
}
use ece344lab.Fs.Mount.Laws.{plenty, Opens, init-Opens}
use ece344lab.Fs.Mount.Close.{NoInodes, Closes, close-Closes, Reopens, init-close}
use ece344lab.Fs.Mount.Format.{
  made_disk, make-Opens, empty_map, fresh_sb, fresh, fresh-Mounted, fresh-Synced,
}

super_image_read : decode_super (encode_super (fresh_sb 1000)) ≡ fresh_sb 1000
super_image_read = decode-encode_super (fresh_sb 1000) (record {
  inode_map = omega arith;
  block_map = omega arith;
  inodes = omega arith;
  first_data = omega arith;
  inode_count = omega arith;
  block_count = omega arith;
  limit = omega arith;
})

-- The block freemap with bit 0 taken, and the file system with block 146 taken.
abbrev one_map : Bitmap
one_map = record { nbits = 1048576; v = update (λ i. 0) 0 1 }

abbrev one_taken : SuperBlock
one_taken = allocated one_map 0 (fresh 1000)

takes : testfs_alloc_block (fresh 1000) ≡ ok 146 one_taken
unfolding testfs_alloc_block take_block testfs_get_block_freemap testfs_write_block_freemap
    testfs_write_super_block write_blocks bitmap_alloc alloc_from find_offset
takes = refl

taken : AllocBlock (fresh 1000) (empty_map 65536) (empty_map 1048576) (ok 146 one_taken)
taken =
    subst (AllocBlock (fresh 1000) (empty_map 65536) (empty_map 1048576)) takes
      (alloc_block-AllocBlock (fresh 1000) (fresh-Mounted 1000) (fresh-Synced 1000))

alloc_block-AllocBlock_example :
    AllocBlock (fresh 1000) (empty_map 65536) (empty_map 1048576) (testfs_alloc_block (fresh 1000))
alloc_block-AllocBlock_example =
    alloc_block-AllocBlock (fresh 1000) (fresh-Mounted 1000) (fresh-Synced 1000)

map_of : Option Bitmap → Bitmap
map_of none = one_map
map_of (some m) = m

same_map : taken.4.map ≡ one_map
unfolding map_of
same_map = sym (ap map_of taken.4.mounted.blocks_at)

taken-Mounted : Mounted one_taken (empty_map 65536) one_map
taken-Mounted = subst (Mounted one_taken (empty_map 65536)) same_map taken.4.mounted

taken-Synced : Synced one_taken.dev one_taken.sb (empty_map 65536) one_map
taken-Synced = subst (Synced one_taken.dev one_taken.sb (empty_map 65536)) same_map taken.4.synced

taken_held : is_free one_map 0 ≡ false
unfolding bitmap_isset
taken_held = refl

free_block-Frees_example :
    Frees one_taken (empty_map 65536) one_map 0 (testfs_free_block (pos 146) one_taken)
free_block-Frees_example =
    free_block-Frees one_taken taken-Mounted taken-Synced 0 (omega arith) taken_held

free-alloc_example :
    Restored
      (fresh 1000)
      (empty_map 65536)
      (empty_map 1048576)
      (testfs_free_block (pos 146) one_taken)
free-alloc_example =
    free-alloc (fresh 1000) (fresh-Mounted 1000) (fresh-Synced 1000) 146 one_taken takes

-- An inode with no blocks.
abbrev empty_node : Inode
empty_node = record {
  in_disk = record {
    i_type = pos 1;
    i_block_nr = λ k. pos 0;
    i_indirect = pos 0;
    i_dindirect = pos 0;
    block_count = pos 0;
    i_size = pos 0;
  };
  dirty = false;
  i_nr = 3;
  i_count = pos 1;
}

block_taken :
    AllocForInode
      (record { super = fresh 1000; node = empty_node })
      (empty_map 65536)
      (empty_map 1048576)
      (testfs_alloc_block_for_inode (record { super = fresh 1000; node = empty_node }))
block_taken =
    alloc_block_for_inode-AllocForInode (record { super = fresh 1000; node = empty_node })
      (empty_map 65536) (empty_map 1048576) (fresh-Mounted 1000) (fresh-Synced 1000)

block_given_back :
    FreeFromInode
      (record { super = one_taken; node = empty_node })
      (empty_map 65536)
      one_map
      0
      (testfs_free_block_from_inode (pos 146) (record { super = one_taken; node = empty_node }))
block_given_back =
    free_block_from_inode-FreeFromInode (record { super = one_taken; node = empty_node })
      (empty_map 65536) one_map taken-Mounted taken-Synced 0 (omega arith) taken_held

-- Room for one block, and the first indirect block is asked for.
allocate_indirect-Dangles_example :
    Dangles (empty_map 65536) (allocate_indirect 0 (record { super = fresh 1; node = empty_node }))
allocate_indirect-Dangles_example =
    allocate_indirect-Dangles (record { super = fresh 1; node = empty_node }) (empty_map 65536)
      (empty_map 1048576) 0 (fresh-Mounted 1) (fresh-Synced 1) refl refl (omega arith)

-- Block 146 is taken and no inode is in memory.
abbrev mounted_fs : Fs
mounted_fs = record { super = one_taken; table = chains (λ i. []) }

one_taken-Fits : Fits one_taken.sb
one_taken-Fits = record {
  inode_map = omega arith;
  block_map = omega arith;
  inodes = omega arith;
  first_data = omega arith;
  inode_count = omega arith;
  block_count = omega arith;
  limit = omega arith;
}

idle : NoInodes (chains (λ i. []))
unfolding all_below
idle = record { chain = λ i. []; table = refl; none_left = refl }

init-close_example :
    Reopens one_taken
      (empty_map 65536)
      one_map
      ((testfs_close_super_block >> testfs_init_super_block plenty) mounted_fs)
init-close_example =
    init-close mounted_fs (empty_map 65536) one_map taken-Mounted one_taken-Fits idle

mounted-Closes : Closes one_taken (empty_map 65536) one_map (testfs_close_super_block mounted_fs)
mounted-Closes = close-Closes mounted_fs (empty_map 65536) one_map taken-Mounted idle

mounted-Opens :
    Opens one_taken
      (empty_map 65536)
      one_map
      one_taken.dev
      (testfs_init_super_block plenty mounted_fs)
mounted-Opens =
    init-Opens one_taken (empty_map 65536) one_map mounted_fs taken-Mounted one_taken-Fits
      taken-Synced (omega arith)

make-Opens_example :
    Opens
      (fresh 1000)
      (empty_map 65536)
      (empty_map 1048576)
      (made_disk 1000)
      (make_and_open 1000 plenty mounted_fs)
make-Opens_example = make-Opens 1000 mounted_fs (omega arith)

-- An inode with a negative number and a size past 2^32.
abbrev odd_node : Dinode
odd_node = record empty_node.in_disk { i_indirect = negsuc 4; i_size = pos 34376597504 }

odd_node_read : Same (decode_dinode (encode_dinode odd_node)) odd_node
odd_node_read = decode-encode_dinode odd_node (record {
  kind = omega arith;
  direct = λ k lt. omega arith;
  indirect = omega arith;
  dindirect = omega arith;
  count = omega arith;
  size = omega arith;
})
