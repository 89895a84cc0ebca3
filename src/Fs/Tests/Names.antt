-- ===== src/Fs/Tests/Names.antt =====
-- A directory of fs/dir.c with one free entry and one entry in use.
use ece344lab.Common.Text.{same_text}
use ece344lab.Common.{
  ℕ, ◌<◌, ◌≡◌, ◌||◌, ◌&&◌, ltb, refl, false, arith, List, [], ◌∷◌, none, some, if◌then◌else◌, ◌==◌,
}
use ece344lab.Common.Bytes.{load_u32}
use ece344lab.Common.Int.{ℤ, pos, negsuc}
use ece344lab.Fs.Block.{zero_block}
use ece344lab.Fs.Inode.{Io}
use ece344lab.Fs.ReadWrite.Map.{Reachable}
use ece344lab.Fs.ReadWrite.Contents.{file_byte}
use ece344lab.Fs.Dir.{string_at, testfs_dir_name_to_inode_nr}
use ece344lab.Fs.Dir.Entries.{EntryAt, IsDirectory}
use ece344lab.Fs.Dir.Lookup.{number_of, answer, name_to_inode_nr-answer}
use ece344lab.Fs.Mount.Format.{fresh_sb}

-- The names are `a` and `a`, the numbers -1 and 5.
abbrev folder : Io
folder = record {
  super = record {
    dev = record {
      size = 200;
      data_at = λ i j.
          if j == 0 || j == 10
          then 2
          else if ltb 3 j && ltb j 8
          then 255
          else if j == 14
          then 5
          else if j == 8 || j == 18
          then 97
          else 0;
    };
    sb = fresh_sb 1000;
    inode_freemap = none;
    block_freemap = none;
  };
  node = record {
    in_disk = record {
      i_type = pos 2;
      i_block_nr = λ k. if k == 0 then pos 146 else pos 0;
      i_indirect = pos 0;
      i_dindirect = pos 0;
      block_count = pos 1;
      i_size = pos 20;
    };
    dirty = false;
    i_nr = 3;
    i_count = pos 1;
  };
}

folder_block : (n : ℕ) → n < 10 → Reachable folder n
folder_block n lt = record {
  below = omega arith;
  target = ground arith;
  indirect = omega arith;
  dindirect = omega arith;
  entry = λ p far. absurd (omega arith);
}

folder-IsDirectory : IsDirectory folder 20
folder-IsDirectory = record { type_is = refl; size_is = refl; bound = omega arith }

free-EntryAt : EntryAt folder 20 0 (negsuc 0) 2 (97 ∷ [])
unfolding load_u32 string_at file_byte
free-EntryAt = record {
  len_is = refl;
  has_len = omega arith;
  nr_is = refl;
  name_is = refl;
  inside = omega arith;
  small = omega arith;
  head_range = λ n lo hi. folder_block n (omega arith);
  name_range = λ n lo hi. folder_block n (omega arith);
}

used-EntryAt : EntryAt folder 20 10 (pos 5) 2 (97 ∷ [])
unfolding load_u32 string_at file_byte
used-EntryAt = record {
  len_is = refl;
  has_len = omega arith;
  nr_is = refl;
  name_is = refl;
  inside = omega arith;
  small = omega arith;
  head_range = λ n lo hi. folder_block n (omega arith);
  name_range = λ n lo hi. folder_block n (omega arith);
}

abbrev two_entries : List (ℤ × (ℕ × List ℕ))
two_entries = (negsuc 0, (2, 97 ∷ [])) ∷ ((pos 5, (2, 97 ∷ [])) ∷ [])

name_to_inode_nr-answer_example :
    testfs_dir_name_to_inode_nr zero_block (97 ∷ []) folder
    ≡ answer (number_of (97 ∷ []) two_entries) folder
name_to_inode_nr-answer_example =
    name_to_inode_nr-answer folder 20 folder-IsDirectory zero_block (97 ∷ []) two_entries
      (free-EntryAt, (used-EntryAt, omega arith))

number_5 : number_of (97 ∷ []) two_entries ≡ some (pos 5)
unfolding same_text
number_5 = refl
