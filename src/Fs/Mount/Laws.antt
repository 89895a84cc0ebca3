-- ===== src/Fs/Mount/Laws.antt =====
-- What is closed by `testfs_close_super_block` of fs/super.c is what `testfs_init_super_block` opens.
use ece344lab.Common.{
  ℕ, ◌+◌, ◌*◌, ◌/◌, ◌≤◌, ◌<◌, ◌≡◌, refl, sym, subst, ◌∙◌, true, arith, none, some, [], leb,
}
use ece344lab.Common.Memory.{copy}
use ece344lab.Common.Bytes.{Memory, load_u32, load_u64}
use ece344lab.Common.Action.{Outcome, ok, err, abort, exited, fault}
use ece344lab.Fs.Layout.{block_size}
use ece344lab.Fs.Bitmap.{Bitmap, bitmap_create, bitmap_isset, bitmap_nr_allocated}
use ece344lab.Fs.Bitmap.Bits.{is_free, IsValid}
use ece344lab.Fs.Bitmap.Count.{nr_allocated-same}
use ece344lab.Fs.Block.{Disk, bytes_from, zero_block, read_blocks}
use ece344lab.Fs.Super.{DsuperBlock, SuperBlock, encode_super, decode_super}
use ece344lab.Fs.Super.Image.{Fits, decode-encode_super, Mounted, Synced, inode_bits, block_bits}
use ece344lab.Fs.Mount.{chains, Fs, Resources, inode_hash_init, load_map, testfs_init_super_block}

-- All resources are there.
abbrev pub plenty : Resources
plenty = record {
  super_mem = true;
  open_error = none;
  inode_map_mem = (true, true);
  block_map_mem = (true, true);
  hash_mem = true;
}

-- A bitmap of `n` blocks as it is read from block `start`.
abbrev map_at : Disk → ℕ → ℕ → Bitmap
map_at d start n = record {
  nbits = n * 65536;
  v = copy (λ i. 0) 0 (bytes_from d start) 0 (n * block_size);
}

-- What an open file system has to do with the one of which `s` is the super block and `im` and `bm`
-- the freemaps: the same super block and the same bits.
abbrev pub Opens : SuperBlock → Bitmap → Bitmap → Disk → Outcome Fs ℕ → Type 0
Opens s im bm d (ok n t) =
    (n ≡ 0)
    × (map : Bitmap × Bitmap) × Mounted t.super map.0 map.1
    × Synced t.super.dev t.super.sb map.0 map.1
    × (t.super.sb ≡ s.sb)
    × ((j : ℕ) → j < inode_bits → is_free map.0 j ≡ is_free im j)
    × ((j : ℕ) → j < block_bits → is_free map.1 j ≡ is_free bm j)
    × (t.super.dev ≡ d)
    × (t.table ≡ chains (λ i. []))
Opens s im bm d (err e t) = ⊥
Opens s im bm d abort = ⊥
Opens s im bm d exited = ⊥
Opens s im bm d fault = ⊥

decode_super-same :
    (m n : Memory) → ((j : ℕ) → j < 32 → m j ≡ n j) → decode_super m ≡ decode_super n
unfolding decode_super load_u32 load_u64
decode_super-same m n h = rw (
  h 0 (omega arith),
  h 1 (omega arith),
  h 2 (omega arith),
  h 3 (omega arith),
  h 4 (omega arith),
  h 5 (omega arith),
  h 6 (omega arith),
  h 7 (omega arith),
  h 8 (omega arith),
  h 9 (omega arith),
  h 10 (omega arith),
  h 11 (omega arith),
  h 12 (omega arith),
  h 13 (omega arith),
  h 14 (omega arith),
  h 15 (omega arith),
  h 16 (omega arith),
  h 17 (omega arith),
  h 18 (omega arith),
  h 19 (omega arith),
  h 20 (omega arith),
  h 21 (omega arith),
  h 22 (omega arith),
  h 23 (omega arith),
  h 24 (omega arith),
  h 25 (omega arith),
  h 26 (omega arith),
  h 27 (omega arith),
  h 28 (omega arith),
  h 29 (omega arith),
  h 30 (omega arith),
  h 31 (omega arith),
)

-- The final state of opening a device.
abbrev opened : Disk → DsuperBlock → Fs
opened d sb = record {
  super = record {
    dev = d;
    sb = sb;
    inode_freemap = some (map_at d sb.inode_freemap_start 1);
    block_freemap = some (map_at d sb.block_freemap_start 16);
  };
  table = chains (λ i. []);
}

abbrev first_block : Disk → Memory
first_block d = copy zero_block 0 (bytes_from d 0) 0 (1 * block_size)

init-opened :
    (t : Fs) (sb : DsuperBlock)
    → decode_super (first_block t.super.dev) ≡ sb
    → 1 ≤ t.super.dev.size
    → sb.inode_freemap_start + 1 ≤ t.super.dev.size
    → sb.block_freemap_start + 16 ≤ t.super.dev.size
    → testfs_init_super_block plenty t ≡ ok 0 (opened t.super.dev sb)
unfolding testfs_init_super_block load_map bitmap_create read_blocks inode_hash_init
init-opened t sb same a b c =
    let x : leb (0 + 1) t.super.dev.size ≡ true = ground arith in
    let y : leb (sb.inode_freemap_start + 1) t.super.dev.size ≡ true = ground arith in
    let z : leb (sb.block_freemap_start + 16) t.super.dev.size ≡ true = ground arith in
    rw (x, same, y, z) refl

-- A bitmap that was read is the one that was written.
module _ {b : Bitmap} (valid : IsValid b) (d : Disk) (start n : ℕ) (sized : b.nbits ≡ n * 65536)
    (small : n ≤ 16) (same : (j : ℕ) → j < n * block_size → bytes_from d start j ≡ b.v j) where
  map_at-free : (j : ℕ) → j < n * 65536 → is_free (map_at d start n) j ≡ is_free b j
  unfolding bitmap_isset
  map_at-free j lt =
      let e : (map_at d start n).v (j / 8) ≡ b.v (j / 8) =
        ground (arith, same (j / 8) (omega arith)) in
      rw e refl

  map_at-IsValid : IsValid (map_at d start n)
  map_at-IsValid = record {
    byte = λ i. ground (arith, same i, valid.byte i);
    small = omega arith;
    over = λ j lo hi. absurd (omega arith);
  }

  map_at-counted : bitmap_nr_allocated (map_at d start n) ≡ bitmap_nr_allocated b
  map_at-counted =
      nr_allocated-same b (map_at d start n) (sym sized) (λ j lt. map_at-free j (omega arith))

module _ (s : SuperBlock) {im bm : Bitmap} (mounted : Mounted s im bm) (d : Disk)
    (synced : Synced d s.sb im bm) (on_disk : 146 ≤ d.size) where
  inode_bytes : (j : ℕ) → j < 1 * block_size → bytes_from d s.sb.inode_freemap_start j ≡ im.v j
  inode_bytes j lt = rw mounted.inode_map (synced.inodes_synced j (omega arith))

  block_bytes : (j : ℕ) → j < 16 * block_size → bytes_from d s.sb.block_freemap_start j ≡ bm.v j
  block_bytes j lt = rw mounted.block_map (synced.blocks_synced j (omega arith))

  opened-Mounted :
      Mounted
        (opened d s.sb).super
        (map_at d s.sb.inode_freemap_start 1)
        (map_at d s.sb.block_freemap_start 16)
  opened-Mounted = record {
    inodes_at = refl;
    blocks_at = refl;
    inodes_valid =
        map_at-IsValid mounted.inodes_valid d s.sb.inode_freemap_start 1 mounted.inodes_sized
          (omega arith) inode_bytes;
    blocks_valid =
        map_at-IsValid mounted.blocks_valid d s.sb.block_freemap_start 16 mounted.blocks_sized
          (omega arith) block_bytes;
    inodes_sized = refl;
    blocks_sized = refl;
    inode_map = mounted.inode_map;
    block_map = mounted.block_map;
    inodes = mounted.inodes;
    first_data = mounted.first_data;
    on_disk = on_disk;
    inode_count =
        mounted.inode_count
        ∙ sym (
            map_at-counted mounted.inodes_valid d s.sb.inode_freemap_start 1 mounted.inodes_sized
              (omega arith) inode_bytes);
    block_count =
        mounted.block_count
        ∙ sym (
            map_at-counted mounted.blocks_valid d s.sb.block_freemap_start 16 mounted.blocks_sized
              (omega arith) block_bytes);
  }

  opened-Synced :
      Synced d s.sb (map_at d s.sb.inode_freemap_start 1) (map_at d s.sb.block_freemap_start 16)
  opened-Synced = record {
    super_synced = synced.super_synced;
    inodes_synced = λ j lt. ground (arith, mounted.inode_map);
    blocks_synced = λ j lt. ground (arith, mounted.block_map);
  }

  opened-Opens : Opens s im bm d (ok 0 (opened d s.sb))
  opened-Opens = (
    refl,
    (map_at d s.sb.inode_freemap_start 1, map_at d s.sb.block_freemap_start 16),
    opened-Mounted,
    opened-Synced,
    refl,
    (λ j lt.
        map_at-free mounted.inodes_valid d s.sb.inode_freemap_start 1 mounted.inodes_sized
          (omega arith) inode_bytes j lt),
    (λ j lt.
        map_at-free mounted.blocks_valid d s.sb.block_freemap_start 16 mounted.blocks_sized
          (omega arith) block_bytes j lt),
    refl,
    refl,
  )

-- A device in step with a mounted file system opens as that file system: `testfs_init_super_block`
-- returns 0 where no call of the host fails, with the same super block, the same bits in both
-- freemaps, an empty hash and the device as it was. The numbers of the super block fit their fields.
pub init-Opens :
    (s : SuperBlock) (im bm : Bitmap) (t : Fs)
    → Mounted s im bm
    → Fits s.sb
    → Synced t.super.dev s.sb im bm
    → 146 ≤ t.super.dev.size
    → Opens s im bm t.super.dev (testfs_init_super_block plenty t)
init-Opens s im bm t mounted fits synced on_disk =
    subst (Opens s im bm t.super.dev)
      (sym (
        init-opened t s.sb decoded (omega arith) (omega (arith, mounted.inode_map))
          (omega (arith, mounted.block_map))))
      (opened-Opens s mounted t.super.dev synced on_disk)
  where
    decoded : decode_super (first_block t.super.dev) ≡ s.sb
    decoded =
        decode_super-same (first_block t.super.dev) (encode_super s.sb)
          (λ j lt. ground (arith, synced.super_synced j (omega arith)))
        ∙ decode-encode_super s.sb fits
