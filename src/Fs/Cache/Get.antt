-- ===== src/Fs/Cache/Get.antt =====
-- `testfs_get_inode` of fs/inode.c: an inode is read once and then shared.
use ece344lab.Common.{
  ℕ, ◌+◌, ◌*◌, ◌/◌, ◌%◌, ◌^◌, ◌≤◌, ◌<◌, ◌≡◌, ◌≢◌, refl, ap, ◌∙◌, Bool, true, false, arith, List, [],
  ◌∷◌, none, some, ltb, leb, ◌==◌,
}
use ece344lab.Common.Memory.{copy, update}
use ece344lab.Common.Bytes.{Memory}
use ece344lab.Common.Int.{pos}
use ece344lab.Common.Action.{Outcome, ok, err, abort, exited, fault, pure, ◌>>=◌, continue}
use ece344lab.Fs.Layout.{block_size, inodes_per_block, nr_inode_blocks, dinode_size}
use ece344lab.Fs.Block.{bytes_from, zero_block, read_blocks}
use ece344lab.Fs.Inode.{Inode, decode_dinode}
use ece344lab.Fs.Inode.Codec.{Same}
use ece344lab.Fs.Mount.{chains}
use ece344lab.Fs.Cache.{
  Core, at_table, inode_hashfn, new_node, find_in, inode_hash_find, inode_hash_insert,
  testfs_inode_to_block_nr, testfs_inode_to_block_offset, testfs_read_inode_block, load_inode,
  get_found, testfs_get_inode,
}
use ece344lab.Fs.Cache.Store.{dinode_bytes, Same-Agree}

-- No inode of the chain has the number.
abbrev pub Absent : List ℕ → ℕ → Core → Type 0
Absent [] nr c = Unit {0}
Absent (b ∷ bs) nr c = (n : Inode) × (c.nodes b ≡ some n) × (n.i_nr ≢ nr) × Absent bs nr c

find_in-Absent : (bs : List ℕ) (nr : ℕ) (c : Core) → Absent bs nr c → find_in bs nr c ≡ ok none c
unfolding find_in
find_in-Absent [] nr c h = refl
find_in-Absent (b ∷ bs) nr c (n, at, ne, h) =
    let other : (n.i_nr == nr) ≡ false = ground arith in rw (at, other) (find_in-Absent bs nr c h)

-- A file system with its inode blocks on the device and its hash in place, in which inode `nr` is
-- not in memory.
pub record Missing (c : Core) (nr : ℕ) : Type 0 where
  pub table_of : ℕ → List ℕ
  pub table : c.fs.table ≡ chains table_of
  pub absent : Absent (table_of (inode_hashfn nr)) nr c
  pub number : nr < nr_inode_blocks * inodes_per_block
  pub inodes : c.fs.super.sb.inode_blocks_start ≡ 18
  pub on_disk : 146 ≤ c.fs.super.dev.size

module _ (c : Core) (nr : ℕ) (m : Missing c nr) where
  abbrev pub block : Memory
  block =
      copy zero_block 0 (bytes_from c.fs.super.dev (18 + nr / inodes_per_block)) 0 (1 * block_size)

  -- The inode as it is read, used `k` times.
  abbrev pub loaded_node : ℕ → Inode
  loaded_node k = record {
    in_disk = decode_dinode (λ j. block (nr % inodes_per_block * dinode_size + j));
    dirty = false;
    i_nr = nr;
    i_count = pos k;
  }

  abbrev pub allocated_core : Core
  allocated_core = record c {
    nodes = update c.nodes c.next (some (new_node nr));
    next = c.next + 1;
  }

  abbrev pub filled : Core
  filled = record allocated_core {
    nodes = update (update c.nodes c.next (some (new_node nr))) c.next (some (loaded_node 1));
  }

  abbrev pub hashed : Core
  hashed = record filled {
    fs = record c.fs {
      table = chains (update m.table_of (inode_hashfn nr) (c.next ∷ m.table_of (inode_hashfn nr)));
    };
  }

  small : ltb (nr / inodes_per_block) nr_inode_blocks ≡ true
  small = ground (arith, m.number)

  inside : ltb (nr % inodes_per_block * dinode_size) block_size ≡ true
  inside = ground arith

  new_at : allocated_core.nodes c.next ≡ some (new_node nr)
  new_at = ground arith

  block_nr-new :
      testfs_inode_to_block_nr c.next allocated_core ≡ ok (nr / inodes_per_block) allocated_core
  unfolding testfs_inode_to_block_nr
  block_nr-new = rw (new_at, small) refl

  read-new : testfs_read_inode_block c.next zero_block allocated_core ≡ ok block allocated_core
  unfolding testfs_read_inode_block read_blocks
  read-new =
      let number : (18 + nr / inodes_per_block) % 2 ^ 32 ≡ 18 + nr / inodes_per_block =
        omega (arith, m.number) in
      let fits : leb (18 + nr / inodes_per_block + 1) c.fs.super.dev.size ≡ true =
        ground (arith, m.number, m.on_disk) in
      rw (block_nr-new, m.inodes, number, fits) refl

  offset-new :
      testfs_inode_to_block_offset c.next allocated_core
      ≡ ok (nr % inodes_per_block * dinode_size) allocated_core
  unfolding testfs_inode_to_block_offset
  offset-new = rw (new_at, inside) refl

  pub filled_at : filled.nodes c.next ≡ some (loaded_node 1)
  filled_at = ground arith

  insert-new : inode_hash_insert c.next filled ≡ ok tt hashed
  unfolding inode_hash_insert
  insert-new = rw (filled_at, m.table) refl

  load-hashed : load_inode nr c ≡ ok c.next hashed
  unfolding load_inode
  load-hashed = rw (read-new, offset-new, new_at, insert-new) refl

  not_found : inode_hash_find nr c ≡ ok none c
  unfolding inode_hash_find
  not_found =
      ap (λ x. continue (λ (t : ℕ → List ℕ). find_in (t (inode_hashfn nr)) nr) (at_table x c))
        m.table
      ∙ find_in-Absent (m.table_of (inode_hashfn nr)) nr c m.absent

  pub first_get : testfs_get_inode true nr c ≡ ok c.next hashed
  unfolding testfs_get_inode get_found
  first_get = rw not_found load-hashed

  -- After the second call.
  abbrev shared : Core
  shared = record hashed { nodes = update filled.nodes c.next (some (loaded_node 2)) }

  found : inode_hash_find nr hashed ≡ ok (some c.next) hashed
  unfolding inode_hash_find find_in
  found =
      let first : update m.table_of (inode_hashfn nr) (c.next ∷ m.table_of (inode_hashfn nr))
            (inode_hashfn nr)
          ≡ c.next ∷ m.table_of (inode_hashfn nr) =
        ground arith in
      let same : (nr == nr) ≡ true = ground arith in rw (first, filled_at, same) refl

  second_get : (mem : Bool) → testfs_get_inode mem nr hashed ≡ ok c.next shared
  unfolding testfs_get_inode get_found
  second_get mem = rw (found, filled_at) refl

-- Both calls return one address, at which the inode is clean, used twice and as the device has it.
-- The super block with its device, and the other inodes in memory, are as before.
abbrev pub Shares : Core → ℕ → Outcome Core (ℕ × ℕ) → Type 0
Shares c nr (ok (a, b) d) =
    (a ≡ b)
    × (n : Inode) × (d.nodes a ≡ some n)
    × (n.i_nr ≡ nr)
    × (n.i_count ≡ pos 2)
    × (n.dirty ≡ false)
    × Same n.in_disk (decode_dinode (dinode_bytes c.fs.super.dev nr))
    × (d.fs.super ≡ c.fs.super)
    × ((x : ℕ) → x ≢ a → d.nodes x ≡ c.nodes x)
Shares c nr (err e d) = ⊥
Shares c nr abort = ⊥
Shares c nr exited = ⊥
Shares c nr fault = ⊥

-- Two calls of `testfs_get_inode` of an inode that is not in memory, the first of them with memory
-- at hand, read it from its place on the device and return the same address with a count of two.
-- The number is below 16384.
pub get-Shares :
    (c : Core) (nr : ℕ) (mem : Bool)
    → Missing c nr
    → Shares c nr
        ((testfs_get_inode true nr >>= λ a. testfs_get_inode mem nr >>= λ b. pure (a, b)) c)
get-Shares c nr mem m =
    rw (first_get c nr m, second_get c nr m mem)
      (refl, loaded_node c nr m 2, ground arith, refl, refl, refl, same, refl, λ x ne. ground arith)
  where
    same : Same (loaded_node c nr m 2).in_disk (decode_dinode (dinode_bytes c.fs.super.dev nr))
    same =
        Same-Agree (λ j. block c nr m (nr % inodes_per_block * dinode_size + j))
          (dinode_bytes c.fs.super.dev nr) (decode_dinode (dinode_bytes c.fs.super.dev nr))
          (λ j lt. ground arith)
          (record {
            kind = refl;
            direct = λ k lt. refl;
            indirect = refl;
            dindirect = refl;
            count = refl;
            size = refl;
          })
