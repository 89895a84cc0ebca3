-- ===== src/Fs/ReadWrite/Map.antt =====
-- Where the blocks of an inode lie: a description of the tables that is independent of
-- `testfs_read_block` of fs/read_write.c, and what that function does by it.
use mathlib.Core.Bool.{false≢true}
use ece344lab.Common.{
  ℕ, zero, suc, ◌+◌, ◌-◌, ◌*◌, ◌/◌, ◌%◌, ◌≤◌, ◌<◌, ◌≡◌, refl, ap, ◌∙◌, sym, subst, true, false, inl,
  inr, arith, ltb, leb, if◌then◌else◌, Bool-cases,
}
use ece344lab.Common.Memory.{copy}
use ece344lab.Common.Bytes.{Memory, load_u32}
use ece344lab.Common.Int.{ℤ, pos, negsuc, is_positive}
use ece344lab.Common.Action.{Outcome, ok, err, abort, exited, fault, ◌>>=◌}
use ece344lab.Fs.Layout.{block_size, nr_direct_blocks, nr_indirect_blocks}
use ece344lab.Fs.Block.{bytes_from, read_blocks}
use ece344lab.Fs.Super.{magnitude}
use ece344lab.Fs.Inode.{Dinode, Io}
use ece344lab.Fs.ReadWrite.{
  int_at, read_one, fetch, fetch_second, read_indirect, read_dindirect, testfs_read_block,
}

-- The bytes of a block on the device.
abbrev pub block_of : Io → ℤ → Memory
block_of s nr = s.super.dev.data_at (magnitude nr)

-- Block numbers read from the tables. 0 stands for no block.
abbrev pub phys_second : Io → ℤ → ℕ → ℤ
phys_second s entry m =
    if is_positive entry then int_at (block_of s entry) (m % nr_indirect_blocks) else entry

abbrev pub phys_indirect : Io → ℤ → ℕ → ℤ
phys_indirect s nr k = if is_positive nr then int_at (block_of s nr) k else pos 0

abbrev pub table_entry : Io → ℤ → ℕ → ℤ
table_entry s nr m = int_at (block_of s nr) (m / nr_indirect_blocks)

abbrev pub phys_dindirect : Io → ℤ → ℕ → ℤ
phys_dindirect s nr m = if is_positive nr then phys_second s (table_entry s nr m) m else pos 0

abbrev pub phys : Io → ℕ → ℤ
phys s n =
    let d = s.node.in_disk in
    let k = n - nr_direct_blocks in
    if ltb n nr_direct_blocks
    then d.i_block_nr n
    else if leb nr_indirect_blocks k
    then phys_dindirect s d.i_dindirect (k - nr_indirect_blocks)
    else phys_indirect s d.i_indirect k

-- The bytes behind a block number, and those of logical block `n`: zeroes where there is none.
abbrev pub bytes_of : Io → ℤ → Memory
bytes_of s nr j = if is_positive nr then block_of s nr j else 0

abbrev pub content : Io → ℕ → Memory
content s n = bytes_of s (phys s n)

-- A block number on the device, or 0.
abbrev pub OnDevice : Io → ℤ → Type 0
OnDevice s (pos n) = n < s.super.dev.size
OnDevice s (negsuc n) = ⊥

-- Logical block `n` is below the limit of a file. Its number, those of both tables and any other on
-- the way are on the device or 0; and no double indirect table has a 0 on the way.
pub record Reachable (s : Io) (n : ℕ) : Type 0 where
  pub below : n < nr_direct_blocks + nr_indirect_blocks + nr_indirect_blocks * nr_indirect_blocks
  pub target : OnDevice s (phys s n)
  pub indirect : OnDevice s s.node.in_disk.i_indirect
  pub dindirect : OnDevice s s.node.in_disk.i_dindirect
  pub entry :
      is_positive s.node.in_disk.i_dindirect ≡ true
      → nr_direct_blocks + nr_indirect_blocks ≤ n
      → OnDevice s
          (table_entry s s.node.in_disk.i_dindirect (n - nr_direct_blocks - nr_indirect_blocks))
        × (is_positive
              (table_entry s s.node.in_disk.i_dindirect (n - nr_direct_blocks - nr_indirect_blocks))
            ≡ true)

-- The buffer after a read of block `nr`.
abbrev loaded : Io → Memory → ℕ → Memory
loaded s block nr = copy block 0 (bytes_from s.super.dev nr) 0 (1 * block_size)

int_at-loaded :
    (s : Io) (block : Memory) (nr k : ℕ)
    → k < nr_indirect_blocks
    → int_at (loaded s block nr) k ≡ int_at (s.super.dev.data_at nr) k
unfolding load_u32
int_at-loaded s block nr k lt = ground arith

-- The outcome is the state unchanged, a physical number and the bytes given by `f`.
abbrev pub Reads : Io → ℤ → Memory → Outcome Io (ℕ × Memory) → Type 0
Reads s nr bytes (ok (p, b) t) = (t ≡ s) × (pos p ≡ nr) × ((j : ℕ) → j < block_size → b j ≡ bytes j)
Reads s nr bytes (err e t) = ⊥
Reads s nr bytes abort = ⊥
Reads s nr bytes exited = ⊥
Reads s nr bytes fault = ⊥

pub read_one-ok :
    (s : Io) (block : Memory) (n : ℕ)
    → n < s.super.dev.size
    → read_one block (pos n) s ≡ ok (loaded s block n) s
unfolding read_blocks
read_one-ok s block n lt = let fits : leb (n + 1) s.super.dev.size ≡ true = ground arith in rw fits

fetch-Reads :
    (s : Io) (nr : ℤ) (block : Memory)
    → OnDevice s nr
    → Reads s nr (λ j. if is_positive nr then block_of s nr j else 0) (fetch nr block s)
unfolding fetch
fetch-Reads s (pos zero) block d = (refl, refl, λ j lt. ground arith)
fetch-Reads s (pos (suc n)) block d =
    rw (read_one-ok s block (suc n) d) (refl, refl, λ j lt. ground arith)
fetch-Reads s (negsuc n) block d = absurd d

-- The same for a number that is known by an equation.
fetched :
    (s : Io) (nr target : ℤ) (block : Memory)
    → nr ≡ target
    → OnDevice s target
    → Reads s target (λ j. if is_positive target then block_of s target j else 0) (fetch nr block s)
fetched s nr target block e d = rw e (fetch-Reads s target block d)

indirect-Reads :
    (s : Io) (nr : ℤ) (k : ℕ) (block : Memory)
    → OnDevice s nr
    → k < nr_indirect_blocks
    → OnDevice s (phys_indirect s nr k)
    → Reads s
        (phys_indirect s nr k)
        (bytes_of s (phys_indirect s nr k))
        (read_indirect nr k block s)
unfolding read_indirect
indirect-Reads s (pos zero) k block d lt target = fetch-Reads s (pos 0) block d
indirect-Reads s (pos (suc n)) k block d lt target = rw (read_one-ok s block (suc n) d) (
    fetched s (int_at (loaded s block (suc n)) k) (phys_indirect s (pos (suc n)) k) _
      (int_at-loaded s block (suc n) k lt) target)
indirect-Reads s (negsuc n) k block d lt target = absurd d

second-Reads :
    (s : Io) (entry : ℤ) (m : ℕ) (block : Memory)
    → OnDevice s entry
    → is_positive entry ≡ true
    → OnDevice s (phys_second s entry m)
    → Reads s
        (phys_second s entry m)
        (bytes_of s (phys_second s entry m))
        (fetch_second entry m block s)
unfolding fetch_second
second-Reads s (pos zero) m block d p target = absurd (false≢true p)
second-Reads s (pos (suc n)) m block d p target = rw (read_one-ok s block (suc n) d) (
    fetched s _ (phys_second s (pos (suc n)) m) _
      (int_at-loaded s block (suc n) (m % nr_indirect_blocks) (omega arith)) target)
second-Reads s (negsuc n) m block d p target = absurd d

dindirect-Reads :
    (s : Io) (nr : ℤ) (m : ℕ) (block : Memory)
    → m < nr_indirect_blocks * nr_indirect_blocks
    → OnDevice s nr
    → (is_positive nr ≡ true
        → OnDevice s (table_entry s nr m) × (is_positive (table_entry s nr m) ≡ true))
    → OnDevice s (phys_dindirect s nr m)
    → Reads s
        (phys_dindirect s nr m)
        (bytes_of s (phys_dindirect s nr m))
        (read_dindirect nr m block s)
unfolding read_dindirect
dindirect-Reads s nr m block lt d entry target =
    let small : leb (nr_indirect_blocks * nr_indirect_blocks) m ≡ false = ground arith in
    rw small (go nr d entry target)
  where
    go :
        (nr : ℤ)
        → OnDevice s nr
        → (is_positive nr ≡ true
            → OnDevice s (table_entry s nr m) × (is_positive (table_entry s nr m) ≡ true))
        → OnDevice s (phys_dindirect s nr m)
        → Reads s (phys_dindirect s nr m) (bytes_of s (phys_dindirect s nr m)) (
            if is_positive nr
            then (read_one block nr >>= λ b. fetch_second (int_at b (m / nr_indirect_blocks)) m b) s
            else fetch (pos 0) block s)
    go (pos zero) d entry target = fetch-Reads s (pos 0) block d
    go (pos (suc n)) d entry target =
        rw
          (
            read_one-ok s block (suc n) d,
            int_at-loaded s block (suc n) (m / nr_indirect_blocks) (omega arith),
          )
          (second-Reads s (table_entry s (pos (suc n)) m) m _ (entry refl).0 (entry refl).1 target)
    go (negsuc n) d entry target = absurd d

-- To settle the number and the outcome apart.
Reads-by :
    (s : Io) (nr target : ℤ) (r run : Outcome Io (ℕ × Memory))
    → nr ≡ target
    → run ≡ r
    → Reads s target (bytes_of s target) r
    → Reads s nr (bytes_of s nr) run
Reads-by s nr target r run e f h =
    subst (λ z. Reads s z (bytes_of s z) run) (sym e)
      (subst (Reads s target (bytes_of s target)) (sym f) h)

-- For a logical block below the limit of a file, where the number of the block, those of the indirect
-- and of the double indirect table and any other on the way are on the device or 0, and the double
-- indirect table, if it is there and on the way, has no 0 for the block: `testfs_read_block` returns
-- the physical number that the tables give and fills the buffer with that block, or with zeroes if
-- there is none; it changes nothing.
pub read_block-Reads :
    (s : Io) (n : ℕ) (block : Memory)
    → Reachable s n
    → Reads s (phys s n) (content s n) (testfs_read_block (pos n) block s)
unfolding testfs_read_block
read_block-Reads s n block r = elim (Bool-cases (ltb n nr_direct_blocks)) [
  | inl direct ↦
      let e : phys s n ≡ d.i_block_nr n = rw direct in
      Reads-by s _ _ _ _ e (rw direct) (fetch-Reads s _ block (subst (OnDevice s) e r.target))
  | inr far ↦ elim (Bool-cases (leb nr_indirect_blocks k)) [
    | inl double ↦
        let e : phys s n ≡ phys_dindirect s d.i_dindirect (k - nr_indirect_blocks) =
          rw (far, double) in
        Reads-by s _ _ _ _ e (rw (far, double)) (
          dindirect-Reads s d.i_dindirect (k - nr_indirect_blocks) block (ground (arith, r.below))
            r.dindirect (λ p. r.entry p (ground arith)) (subst (OnDevice s) e r.target))
    | inr single ↦
        let e : phys s n ≡ phys_indirect s d.i_indirect k = rw (far, single) in
        Reads-by s _ _ _ _ e (rw (far, single)) (
          indirect-Reads s d.i_indirect k block r.indirect (ground arith)
            (subst (OnDevice s) e r.target))
  ]
]
  where
    d : Dinode
    d = s.node.in_disk

    k : ℕ
    k = n - nr_direct_blocks

dindirect_hole :
    (s : Io) (nr m : ℕ) (block : Memory)
    → m < nr_indirect_blocks * nr_indirect_blocks
    → suc nr < s.super.dev.size
    → table_entry s (pos (suc nr)) m ≡ pos 0
    → Reads s (pos 0) (s.super.dev.data_at (suc nr)) (read_dindirect (pos (suc nr)) m block s)
unfolding read_dindirect fetch_second
dindirect_hole s nr m block lt fits hole =
    let small : leb (nr_indirect_blocks * nr_indirect_blocks) m ≡ false = ground arith in
    let empty = int_at-loaded s block (suc nr) (m / nr_indirect_blocks) (omega arith) ∙ hole in
    rw (small, read_one-ok s block (suc nr) fits, empty) (refl, refl, λ j lt. ground arith)

-- The double indirect hole: where a table is there and its entry is 0, `testfs_read_block` says 0,
-- no block, but leaves the table itself in the buffer instead of zeroes.
pub read_block_hole :
    (s : Io) (n nr : ℕ) (block : Memory)
    → nr_direct_blocks + nr_indirect_blocks ≤ n
    → n < nr_direct_blocks + nr_indirect_blocks + nr_indirect_blocks * nr_indirect_blocks
    → s.node.in_disk.i_dindirect ≡ pos (suc nr)
    → suc nr < s.super.dev.size
    → table_entry s (pos (suc nr)) (n - nr_direct_blocks - nr_indirect_blocks) ≡ pos 0
    → Reads s (pos 0) (s.super.dev.data_at (suc nr)) (testfs_read_block (pos n) block s)
unfolding testfs_read_block
read_block_hole s n nr block lo hi at fits hole =
    subst (Reads s (pos 0) (s.super.dev.data_at (suc nr))) (sym run)
      (dindirect_hole s nr m block (omega arith) fits hole)
  where
    m : ℕ
    m = n - nr_direct_blocks - nr_indirect_blocks

    far : ltb n nr_direct_blocks ≡ false
    far = ground arith

    double : leb nr_indirect_blocks (n - nr_direct_blocks) ≡ true
    double = ground arith

    run : testfs_read_block (pos n) block s ≡ read_dindirect (pos (suc nr)) m block s
    run = rw (far, double) (ap (λ z. read_dindirect z m block s) at)
