-- ===== src/Fs/Dir/Lookup.antt =====
-- The search of a directory of fs/dir.c for a name.
use ece344lab.Common.{
  ℕ, zero, suc, ◌+◌, ◌≤◌, ◌<◌, ◌≡◌, refl, sym, ap, subst, ◌∙◌, inl, inr, not, List, [], ◌∷◌, Option,
  none, some, ◌&&◌, if◌then◌else◌, arith, length, Bool-cases,
}
use ece344lab.Common.Bytes.{Memory}
use ece344lab.Common.Text.{same_text}
use ece344lab.Common.Int.{ℤ, pos, is_neg}
use ece344lab.Common.Action.{Outcome, ok, err, assert, continue, return_int}
use ece344lab.Fs.Inode.{Io}
use ece344lab.Fs.Dir.{
  enoent, dirent_size, to_size, string_at, is_named, rounds, name_found, name_from,
  testfs_next_dirent, testfs_dir_name_to_inode_nr,
}
use ece344lab.Fs.Dir.Entries.{EntryAt, IsDirectory, next-end, next-entry}

-- The file is these entries from the offset on: inode number, length and name of each.
abbrev pub Entries : Io → ℕ → ℕ → List (ℤ × (ℕ × List ℕ)) → Type 0
Entries s size offset [] = offset ≡ size
Entries s size offset ((nr, (len, name)) ∷ es) =
    EntryAt s size offset nr len name × Entries s size (offset + dirent_size + len) es

-- The inode number of the first entry in use with the name.
abbrev pub number_of : List ℕ → List (ℤ × (ℕ × List ℕ)) → Option ℤ
number_of name [] = none
number_of name ((nr, (len, n)) ∷ es) =
    let rest = number_of name es in if not (is_neg nr) && same_text n name then some nr else rest

abbrev pub answer : Option ℤ → Io → Outcome Io ℕ
answer none s = err enoent s
answer (some nr) s = return_int nr s

is_named-at :
    (s : Io) (nr : ℤ) (len : ℕ) (b : Memory) (n name : List ℕ)
    → string_at len b 0 ≡ some n
    → is_named (record { d_name_len = pos len; d_inode_nr = nr; d_name = b }) name s
      ≡ ok (not (is_neg nr) && same_text n name) s
is_named-at s nr len b n name e = elim (Bool-cases (is_neg nr)) [
  | inl free ↦ rw free refl
  | inr used ↦ rw (used, e) refl
]

Entries-length :
    (s : Io) (size offset : ℕ) (es : List (ℤ × (ℕ × List ℕ)))
    → Entries s size offset es
    → offset + length es ≤ size
Entries-length s size offset [] e = omega (arith, e)
Entries-length s size offset ((nr, (len, n)) ∷ es) (at, e) =
    omega (arith, Entries-length s size (offset + dirent_size + len) es e)

module _ (s : Io) (size : ℕ) (dir : IsDirectory s size) (junk : Memory) (name : List ℕ) where
  name_from-answer :
      (fuel offset : ℕ) (es : List (ℤ × (ℕ × List ℕ)))
      → Entries s size offset es
      → length es < fuel
      → name_from fuel junk name offset s ≡ answer (number_of name es) s
  unfolding name_from
  name_from-answer zero offset es e lt = absurd (omega (arith, lt))
  name_from-answer (suc fuel) offset [] e lt =
      ap (continue (name_found (name_from fuel junk name) name))
        (subst (λ o. testfs_next_dirent junk o s ≡ ok none s) (sym e) (next-end s size dir junk))
  name_from-answer (suc fuel) offset ((nr, (len, n)) ∷ es) (at, e) lt =
      let (b, read, named) = next-entry s size dir offset nr len n at junk in
      ap (continue (name_found (name_from fuel junk name) name)) read
      ∙ ap
          (continue (λ same.
            if same then return_int nr else name_from fuel junk name (offset + dirent_size + len)))
          (is_named-at s nr len b n name named)
      ∙ elim (Bool-cases (not (is_neg nr) && same_text n name)) [
        | inl found ↦ rw found refl
        | inr other ↦
            rw other (name_from-answer fuel (offset + dirent_size + len) es e (omega (arith, lt)))
      ]

  -- Where the file of a directory is a list of entries, with every block of it readable,
  -- `testfs_dir_name_to_inode_nr` returns the inode number of the first one in use with the name, or
  -- -ENOENT where there is none, and changes nothing; no assertion fails.
  pub name_to_inode_nr-answer :
      (es : List (ℤ × (ℕ × List ℕ)))
      → Entries s size 0 es
      → testfs_dir_name_to_inode_nr junk name s ≡ answer (number_of name es) s
  unfolding testfs_dir_name_to_inode_nr
  name_to_inode_nr-answer es e =
      ap (λ p. continue (λ _. name_from (rounds s) junk name 0) (assert p s)) dir.type_is
      ∙ (name_from-answer (rounds s) 0 es e
          (omega (arith, Entries-length s size 0 es e, ap to_size dir.size_is)))
