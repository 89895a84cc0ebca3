-- ===== src/Fs/Tests/Commands.antt =====
-- A command of fs/file.c on a directory with one file, of three bytes.
use ece344lab.Common.{
  ℕ, ◌<◌, ◌≡◌, refl, subst, true, false, arith, [], ◌∷◌, none, some, if◌then◌else◌, ◌==◌,
}
use ece344lab.Common.Bytes.{load_u32, load_u64}
use ece344lab.Common.Text.{same_text, until_zero}
use ece344lab.Common.Int.{pos}
use ece344lab.Fs.Inode.{Inode, Io, decode_dinode}
use ece344lab.Fs.Mount.{chains}
use ece344lab.Fs.Mount.Format.{fresh_sb}
use ece344lab.Fs.Cache.{Core}
use ece344lab.Fs.Cache.Get.{Missing, loaded_node}
use ece344lab.Fs.ReadWrite.Map.{Reachable}
use ece344lab.Fs.ReadWrite.Contents.{file_byte}
use ece344lab.Fs.Dir.{is_dir, string_at}
use ece344lab.Fs.Dir.Entries.{EntryAt}
use ece344lab.Fs.Dir.Lookup.{number_of}
use ece344lab.Fs.File.{Context, Host, cmd_read}
use ece344lab.Fs.Folder.Commands.{cmd_cd, cmd_ls}
use ece344lab.Fs.Folder.NotDirectory.{FailsClean, FailsHeld, file-FailsHeld}
use ece344lab.Fs.File.Reads.{Prints, file_bytes, file_io, cmd_read-Prints}

-- Block 18 has inode 5: a file whose block 0 is 147. The directory is in block 146.
abbrev byte_of : ℕ → ℕ → ℕ
byte_of i j =
    if i == 18
    then (if j == 320 then 1 else if j == 324 then 147 else if j == 376 then 3 else 0)
    else if i == 146
    then (if j == 0 then 2 else if j == 4 then 5 else if j == 8 then b'a' else 0)
    else (if j == 0 then b'h' else if j == 1 then b'i' else b'!')

abbrev folder_node : Inode
folder_node = record {
  in_disk = record {
    i_type = pos 2;
    i_block_nr = λ k. if k == 0 then pos 146 else pos 0;
    i_indirect = pos 0;
    i_dindirect = pos 0;
    block_count = pos 1;
    i_size = pos 10;
  };
  dirty = false;
  i_nr = 3;
  i_count = pos 1;
}

abbrev core : Core
core = record {
  fs = record {
    super = record {
      dev = record { size = 200; data_at = byte_of };
      sb = fresh_sb 1000;
      inode_freemap = none;
      block_freemap = none;
    };
    table = chains (λ h. []);
  };
  nodes = λ a. if a == 0 then some folder_node else none;
  next = 1;
}

abbrev five : Missing core 5
five = record {
  table_of = λ h. [];
  table = refl;
  absent = tt;
  number = omega arith;
  inodes = refl;
  on_disk = omega arith;
}

-- The numbers 0 and 3 for any text; malloc finds zeroes.
abbrev host : Host
host = record {
  strtoll = λ s. (pos 0, []);
  strtoull = λ s. (3, []);
  malloc = λ n. true;
  junk = λ i. 0;
}

abbrev read_a : Context
read_a = record { nargs = 4; cmd = λ i. b'a' ∷ []; cur_dir = 0 }

abbrev folder : Io
folder = record { super = core.fs.super; node = folder_node }

folder_block : (n : ℕ) → n < 10 → Reachable folder n
folder_block n lt = record {
  below = omega arith;
  target = ground arith;
  indirect = omega arith;
  dindirect = omega arith;
  entry = λ p far. absurd (omega arith);
}

a-EntryAt : EntryAt folder 10 0 (pos 5) 2 (b'a' ∷ [])
unfolding load_u32 string_at file_byte
a-EntryAt = record {
  len_is = refl;
  has_len = omega arith;
  nr_is = refl;
  name_is = refl;
  inside = omega arith;
  small = omega arith;
  head_range = λ n lo hi. folder_block n (omega arith);
  name_range = λ n lo hi. folder_block n (omega arith);
}

a_number : number_of (b'a' ∷ []) ((pos 5, (2, b'a' ∷ [])) ∷ []) ≡ some (pos 5)
unfolding same_text
a_number = refl

abbrev file : Io
file = file_io host core 5 five (record { used = λ h. tt; free = refl })

file_type : is_dir file.node.in_disk.i_type ≡ false
unfolding decode_dinode load_u32
file_type = refl

file_size : file.node.in_disk.i_size ≡ pos 3
unfolding decode_dinode load_u64 load_u32
file_size = refl

first_block : Reachable file 0
unfolding decode_dinode load_u32
first_block = record {
  below = omega arith;
  target = omega arith;
  indirect = omega arith;
  dindirect = omega arith;
  entry = λ p far. absurd (omega arith);
}

file_block : (n : ℕ) → n < 1 → Reachable file n
file_block n lt = let e : 0 ≡ n = omega arith in subst (λ k. Reachable file k) e first_block

cmd_read-Prints_example :
    Prints core 3 (until_zero (file_bytes 3 0 file)) (cmd_read host read_a core)
cmd_read-Prints_example =
    cmd_read-Prints host core 5 five (record { used = λ h. tt; free = refl }) read_a folder_node 10
      0 3 3 ((pos 5, (2, b'a' ∷ [])) ∷ []) refl refl refl refl refl
      (record { type_is = refl; size_is = refl; bound = omega arith }) (a-EntryAt, refl) a_number
      file_type file_size (omega arith) (omega arith) (omega arith)
      (λ n lo hi. file_block n (omega arith))

hi_printed : until_zero (file_bytes 3 0 file) ≡ b'h' ∷ (b'i' ∷ (b'!' ∷ []))
unfolding until_zero file_bytes file_byte decode_dinode load_u32
hi_printed = refl

abbrev go_a : Context
go_a = record { nargs = 2; cmd = λ i. b'a' ∷ []; cur_dir = 0 }

file-FailsHeld_example :
    FailsClean core (cmd_cd host.junk go_a core)
    × FailsHeld 1 (loaded_node core 5 five 1) (cmd_ls 10 host.junk false go_a core)
file-FailsHeld_example =
    file-FailsHeld host go_a core 5 five (record { used = λ h. tt; free = refl }) folder_node 10 10
      false ((pos 5, (2, b'a' ∷ [])) ∷ []) refl refl
      (record { type_is = refl; size_is = refl; bound = omega arith }) (a-EntryAt, refl) a_number
      file_type
