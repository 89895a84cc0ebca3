-- ===== src/Fs/Dir/Entries.antt =====
-- The entries of a directory of fs/dir.c, as the bytes of the file say.
use ece344lab.Common.{
  ℕ, zero, suc, ◌+◌, ◌≤◌, ◌<◌, ◌^◌, ◌≡◌, refl, ap, ap₂, ◌∙◌, true, false, List, Option, none, some,
  arith,
}
use ece344lab.Common.Bytes.{Memory, load_u32}
use ece344lab.Common.Int.{ℤ, pos, is_positive, gtb_ℤ, to_s32}
use ece344lab.Common.Action.{
  Outcome, Action, value, ok, err, abort, exited, fault, assert, attempt, continue, ◌>>=◌,
}
use ece344lab.Fs.Layout.{block_size}
use ece344lab.Fs.Inode.{Io}
use ece344lab.Fs.ReadWrite.Data.{testfs_read_data}
use ece344lab.Fs.ReadWrite.Contents.{
  file_byte, Fills, ReadsFile, RangeReachable, read_data-ReadsFile,
}
use ece344lab.Fs.Dir.{
  Dirent, dirent_size, is_dir, to_size, with_name, read_name, testfs_next_dirent, string_at,
}

abbrev pub file_at : Io → ℕ → Memory
file_at s offset j = file_byte s (offset + j)

-- An entry of the file of `size` bytes: its inode number, the length of its name, and the name.
pub record EntryAt (s : Io) (size offset : ℕ) (nr : ℤ) (len : ℕ) (name : List ℕ) : Type 0 where
  pub len_is : to_s32 (load_u32 (file_at s offset) 0) ≡ pos len
  pub has_len : 0 < len
  pub nr_is : to_s32 (load_u32 (file_at s offset) 4) ≡ nr
  pub name_is : string_at len (file_at s (offset + dirent_size)) 0 ≡ some name
  pub inside : offset + dirent_size + len ≤ size
  pub small : len + block_size ≤ 2 ^ 31
  pub head_range : RangeReachable s offset dirent_size
  pub name_range : RangeReachable s (offset + dirent_size) len

-- A directory with a size that an `off_t` holds.
pub record IsDirectory (s : Io) (size : ℕ) : Type 0 where
  pub type_is : is_dir s.node.in_disk.i_type ≡ true
  pub size_is : s.node.in_disk.i_size ≡ pos size
  pub bound : size < 2 ^ 63

reads-ok :
    (s : Io) (from size : ℕ) (buf : Memory) (o : Outcome Io (ℕ × Memory))
    → ReadsFile s from size buf o
    → (n : ℕ) × ((m : Memory) × (o ≡ ok (n, m) s) × Fills s from 0 size buf m)
reads-ok s from size buf (ok (n, m) t) (e, same, f) = (n, (m, ap (λ x. ok (n, m) x) same, f))
reads-ok s from size buf (err e t) h = absurd h
reads-ok s from size buf abort h = absurd h
reads-ok s from size buf exited h = absurd h
reads-ok s from size buf fault h = absurd h

attempt-ok :
    {A : Type 0} (f : Action Io A) (s t : Io) (a : A) → f s ≡ ok a t → attempt f s ≡ ok (value a) t
attempt-ok f s t a e = rw (e, attempt) refl

string_at-same :
    (n : ℕ) (m b : Memory) (i : ℕ)
    → ((x : ℕ) → x < i + n → m x ≡ b x)
    → string_at n m i ≡ string_at n b i
unfolding string_at
string_at-same zero m b i h = refl
string_at-same (suc n) m b i h =
    rw (h i (omega arith), string_at-same n m b (i + 1) (λ x lt. h x (omega (arith, lt)))) refl

load-same :
    (s : Io) (offset : ℕ) (buf m : Memory) (i : ℕ)
    → Fills s offset 0 dirent_size buf m
    → i + 4 ≤ dirent_size
    → load_u32 m i ≡ load_u32 (file_at s offset) i
unfolding load_u32
load-same s offset buf m i f le = ground (arith, f i, f (i + 1), f (i + 2), f (i + 3))

module _ (s : Io) (size : ℕ) (dir : IsDirectory s size) where
  pub next-end : (junk : Memory) → testfs_next_dirent junk size s ≡ ok none s
  unfolding testfs_next_dirent
  next-end junk =
      let past : gtb_ℤ s.node.in_disk.i_size (pos size) ≡ false = ground (arith, dir.size_is) in
      simp (dir.type_is, past) refl

  module _ (offset : ℕ) (nr : ℤ) (len : ℕ) (name : List ℕ)
      (at : EntryAt s size offset nr len name) where
    -- The second half of the read, by the length read, and what it makes.
    abbrev name_rest : Memory → Memory → ℕ → Action Io (Option (Dirent × ℕ))
    name_rest m junk n =
        attempt (testfs_read_data junk (offset + dirent_size) n) >>= with_name m offset

    abbrev name_after : Memory → Memory → ℤ → Outcome Io (Option (Dirent × ℕ))
    name_after m junk z = continue (λ _. name_rest m junk (to_size z)) (assert (is_positive z) s)

    abbrev entry_of : Memory → ℤ → ℤ → Outcome Io (Option (Dirent × ℕ))
    entry_of b z y =
        ok
          (some (
            record { d_name_len = z; d_inode_nr = y; d_name = b },
            offset + dirent_size + to_size z,
          ))
          s

    head_read :
        (junk : Memory)
        → ReadsFile s offset dirent_size junk (testfs_read_data junk offset dirent_size s)
    head_read junk =
        read_data-ReadsFile s offset dirent_size size junk dir.size_is dir.bound
          (omega (arith, at.inside)) (omega arith) at.head_range

    name_read :
        (junk : Memory)
        → ReadsFile s
            (offset + dirent_size)
            len
            junk
            (testfs_read_data junk (offset + dirent_size) len s)
    name_read junk =
        read_data-ReadsFile s (offset + dirent_size) len size junk dir.size_is dir.bound at.inside
          at.small at.name_range

    pub next-entry :
        (junk : Memory)
        → (b : Memory) × (testfs_next_dirent junk offset s
            ≡ ok
                (some (
                  record { d_name_len = pos len; d_inode_nr = nr; d_name = b },
                  offset + dirent_size + len,
                ))
                s)
          × (string_at len b 0 ≡ some name)
    unfolding testfs_next_dirent
    next-entry junk =
        let (n, (m, e, f)) = reads-ok s offset dirent_size junk _ (head_read junk) in
        let (k, (b, e2, g)) = reads-ok s (offset + dirent_size) len junk _ (name_read junk) in
        let before : gtb_ℤ s.node.in_disk.i_size (pos offset) ≡ true =
          ground (arith, dir.size_is, at.inside, at.has_len) in
        let len_read : to_s32 (load_u32 m 0) ≡ pos len =
          ap to_s32 (load-same s offset junk m 0 f (omega arith)) ∙ at.len_is in
        let nr_read : to_s32 (load_u32 m 4) ≡ nr =
          ap to_s32 (load-same s offset junk m 4 f (omega arith)) ∙ at.nr_is in
        let positive : is_positive (pos len) ≡ true = ground (arith, at.has_len) in
        (
          b,
          simp (dir.type_is, before) refl
              ∙ ap (continue (read_name junk offset))
                  (attempt-ok (testfs_read_data junk offset dirent_size) s s (n, m) e)
              ∙ ap (name_after m junk) len_read
              ∙ ap (λ p. continue (λ _. name_rest m junk len) (assert p s)) positive
              ∙ ap (continue (with_name m offset))
                  (attempt-ok (testfs_read_data junk (offset + dirent_size) len) s s (k, b) e2)
              ∙ ap₂ (entry_of b) len_read nr_read,
          string_at-same len b (file_at s (offset + dirent_size)) 0 (λ x lt. ground (arith, g x))
              ∙ at.name_is,
        )
