-- ===== src/Fs/File/Reads.antt =====
-- `cmd_read` of fs/file.c, from the name in the directory to the bytes on the device and back.
use ece344lab.Common.{
  ℕ, zero, suc, ◌+◌, ◌^◌, ◌≤◌, ◌<◌, ◌≡◌, refl, sym, ap, ap₂, subst, ◌∙◌, true, false, List, [], ◌∷◌,
  some, arith,
}
use ece344lab.Common.Bytes.{Memory}
use ece344lab.Common.Text.{until_zero}
use ece344lab.Common.Int.{ℤ, pos, gtb_ℤ, to_s64}
use ece344lab.Common.Action.{Outcome, ok, err, abort, exited, fault, continue, ◌>>=◌}
use ece344lab.Fs.Layout.{block_size}
use ece344lab.Fs.Inode.{Inode, Io}
use ece344lab.Fs.Cache.{Core, on_node, testfs_get_inode, testfs_put_inode}
use ece344lab.Fs.Cache.Get.{Missing, loaded_node, hashed, first_get, filled_at}
use ece344lab.Fs.Cache.Put.{Tidy, Leaves, put-get}
use ece344lab.Fs.ReadWrite.Data.{testfs_read_data}
use ece344lab.Fs.ReadWrite.Contents.{
  file_byte, Fills, ReadsFile, RangeReachable, read_data-ReadsFile,
}
use ece344lab.Fs.Dir.{is_dir, testfs_dir_name_to_inode_nr}
use ece344lab.Fs.Dir.Entries.{IsDirectory}
use ece344lab.Fs.Dir.Lookup.{Entries, number_of, answer, name_to_inode_nr-answer}
use ece344lab.Fs.File.Steps.{on_node-unchanged, read_file-steps, no_directory-steps, cmd_read-steps}
use ece344lab.Fs.File.{
  Context, Host, no_directory, testfs_get_file_inode, bytes_at, read_file, cmd_read,
}

-- The bytes of a file.
unfoldable pub file_bytes : ℕ → ℕ → Io → List ℕ
file_bytes zero i s = []
file_bytes (suc n) i s = file_byte s i ∷ file_bytes n (i + 1) s

bytes_at-file_bytes :
    (n i first size : ℕ) (buf m : Memory) (s : Io)
    → Fills s first 0 size buf m
    → i + n ≤ size
    → bytes_at n i m ≡ file_bytes n (first + i) s
unfolding bytes_at file_bytes
bytes_at-file_bytes zero i first size buf m s f h = refl
bytes_at-file_bytes (suc n) i first size buf m s f h =
    let here : m i ≡ file_byte s (first + i) = f i ∙ ground (arith, h) in
    let shift : first + (i + 1) ≡ first + i + 1 = omega arith in
    ap₂ ◌∷◌ here (
      bytes_at-file_bytes n (i + 1) first size buf m s f (omega (arith, h))
      ∙ ap (λ k. file_bytes n k s) shift)

whole_read :
    (s : Io) (first size : ℕ) (buf : Memory) (o : Outcome Io (ℕ × Memory))
    → ReadsFile s first size buf o
    → (m : Memory) × (o ≡ ok (size, m) s) × Fills s first 0 size buf m
whole_read s first size buf (ok (n, m) t) (e, same, f) = (m, ap₂ (λ k u. ok (k, m) u) e same, f)
whole_read s first size buf (err e t) h = absurd h
whole_read s first size buf abort h = absurd h
whole_read s first size buf exited h = absurd h
whole_read s first size buf fault h = absurd h

-- The command has printed a text, and everything is as before but for the address that was used.
abbrev pub Prints : Core → ℕ → List ℕ → Outcome Core (ℕ × List ℕ) → Type 0
Prints c size text (ok (ret, printed) d) = (ret ≡ size) × (printed ≡ text) × Leaves c (ok tt d)
Prints c size text (err e d) = ⊥
Prints c size text abort = ⊥
Prints c size text exited = ⊥
Prints c size text fault = ⊥

then-Prints :
    (c : Core) (size : ℕ) (text : List ℕ) (r : Outcome Core (Unit {0}))
    → Leaves c r
    → Prints c size text (continue (λ _ d. ok (size, text) d) r)
then-Prints c size text (ok _ d) l = (refl, refl, l)
then-Prints c size text (err e d) l = absurd l
then-Prints c size text abort l = absurd l
then-Prints c size text exited l = absurd l
then-Prints c size text fault l = absurd l

module _ (host : Host) (c : Core) (nr : ℕ) (m : Missing c nr) (tidy : Tidy c m.table_of) where
  -- The file as it is in memory.
  abbrev pub file_io : Io
  file_io = record { super = c.fs.super; node = loaded_node c nr m 1 }

  abbrev core : Core
  core = hashed c nr m

  put-Leaves : Leaves c (testfs_put_inode c.next core)
  put-Leaves =
      subst (λ o. Leaves c (continue testfs_put_inode o)) (first_get c nr m) (put-get c nr m tidy)

  read_file-Prints :
      (first size length_of : ℕ)
      → file_io.node.in_disk.i_size ≡ pos length_of
      → length_of < 2 ^ 63
      → first + size ≤ length_of
      → size + block_size ≤ 2 ^ 31
      → RangeReachable file_io first size
      → host.malloc (size + 1) ≡ true
      → Prints c size
          (until_zero (file_bytes size first file_io))
          (read_file host first size c.next core)
  read_file-Prints first size length_of len fits inside small range room =
      let (b, e, f) =
        whole_read file_io first size host.junk (testfs_read_data host.junk first size file_io) (
          read_data-ReadsFile file_io first size length_of host.junk len fits inside small range) in
      let read : on_node c.next (testfs_read_data host.junk first size) core ≡ ok (size, b) core =
        on_node-unchanged c.next core (loaded_node c nr m 1) (testfs_read_data host.junk first size)
          (size, b) (filled_at c nr m) e in
      let bytes : bytes_at size 0 b ≡ file_bytes size first file_io =
        bytes_at-file_bytes size 0 first size host.junk b file_io f (omega arith)
        ∙ ap (λ k. file_bytes size k file_io) (omega arith) in
      let within : gtb_ℤ (to_s64 (first + size)) file_io.node.in_disk.i_size ≡ false =
        ap (λ z. gtb_ℤ (to_s64 (first + size)) z) len ∙ ground (arith, inside, fits) in
      subst (λ o. Prints c size (until_zero (file_bytes size first file_io)) o)
        (sym (
          read_file-steps host core c.next (loaded_node c nr m 1) first size b (filled_at c nr m)
            within small room read))
        (subst
          (λ l.
            Prints c size (until_zero (file_bytes size first file_io))
              (continue (λ _ d. ok (size, until_zero l) d) (testfs_put_inode c.next core)))
          (sym bytes)
          (then-Prints c size (until_zero (file_bytes size first file_io))
            (testfs_put_inode c.next core) put-Leaves))

  -- A directory in memory that has the name, with the number of the inode.
  pub search-number :
      (d : ℕ) (dn : Inode) (dir_size : ℕ) (name : List ℕ) (es : List (ℤ × (ℕ × List ℕ)))
      → c.nodes d ≡ some dn
      → IsDirectory (record { super = c.fs.super; node = dn }) dir_size
      → Entries (record { super = c.fs.super; node = dn }) dir_size 0 es
      → number_of name es ≡ some (pos nr)
      → on_node d (testfs_dir_name_to_inode_nr host.junk name) c ≡ ok nr c
  search-number d dn dir_size name es at dir listed number =
      let s : Io = record { super = c.fs.super; node = dn } in
      on_node-unchanged d c dn (testfs_dir_name_to_inode_nr host.junk name) nr at (
        name_to_inode_nr-answer s dir_size dir host.junk name es listed
        ∙ ap (λ o. answer o s) number)

  get_file_inode-found :
      (d : ℕ) (name : List ℕ)
      → on_node d (testfs_dir_name_to_inode_nr host.junk name) c ≡ ok nr c
      → is_dir file_io.node.in_disk.i_type ≡ false
      → testfs_get_file_inode host d name c ≡ ok c.next core
  unfolding testfs_get_file_inode
  get_file_inode-found d name search file =
      ap (continue (λ inode_nr. testfs_get_inode true inode_nr >>= λ a. no_directory a)) search
      ∙ ap (continue (λ a. no_directory a)) (first_get c nr m)
      ∙ no_directory-steps core c.next (loaded_node c nr m 1) (filled_at c nr m) file

  -- `read name offset size` for a name of the current directory, which is in memory, whose inode is no
  -- directory and not in memory, with the numbers read whole by strtoll and strtoull, the bytes inside
  -- the file and every block of the directory and of the bytes readable: the command returns the size
  -- and prints the bytes of the file from the offset on, up to the first 0. The device, the hash and
  -- all inodes in memory are then as they were. It holds where malloc succeeds, for a file of fewer
  -- than 2 ^ 63 bytes and a size that is with 8192 at most 2 ^ 31. All inode blocks are on the device,
  -- the number is one of an inode, the hash is in place and the next address is that of no inode.
  pub cmd_read-Prints :
      (x : Context) (dn : Inode) (dir_size first size length_of : ℕ) (es : List (ℤ × (ℕ × List ℕ)))
      → x.nargs ≡ 4
      → host.strtoll (x.cmd 2) ≡ (pos first, [])
      → host.strtoull (x.cmd 3) ≡ (size, [])
      → host.malloc (size + 1) ≡ true
      → c.nodes x.cur_dir ≡ some dn
      → IsDirectory (record { super = c.fs.super; node = dn }) dir_size
      → Entries (record { super = c.fs.super; node = dn }) dir_size 0 es
      → number_of (x.cmd 1) es ≡ some (pos nr)
      → is_dir file_io.node.in_disk.i_type ≡ false
      → file_io.node.in_disk.i_size ≡ pos length_of
      → length_of < 2 ^ 63
      → first + size ≤ length_of
      → size + block_size ≤ 2 ^ 31
      → RangeReachable file_io first size
      → Prints c size (until_zero (file_bytes size first file_io)) (cmd_read host x c)
  cmd_read-Prints x dn dir_size first size length_of es four number wide room at dir listed named
        file len fits inside small range =
      subst (λ o. Prints c size (until_zero (file_bytes size first file_io)) o)
        (sym (
          cmd_read-steps host x c core c.next first size four number wide (
            get_file_inode-found x.cur_dir (x.cmd 1)
              (search-number x.cur_dir dn dir_size (x.cmd 1) es at dir listed named) file)))
        (read_file-Prints first size length_of len fits inside small range room)
