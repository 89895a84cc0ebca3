-- ===== src/Fs/Folder/NotDirectory.antt =====
-- cd and ls of fs/dir.c on the name of a file.
use ece344lab.Common.{
  ℕ, ◌≡◌, refl, sym, ap, subst, ◌∙◌, Bool, true, false, List, some, ◌==◌, if◌then◌else◌, arith,
}
use ece344lab.Common.Int.{ℤ, pos}
use ece344lab.Common.Action.{
  Outcome, Action, ok, err, abort, exited, fault, pure, fail, continue, ◌>>=◌, ◌>>◌,
}
use ece344lab.Fs.Inode.{Inode}
use ece344lab.Fs.Cache.{Core, at_node, on_node, testfs_get_inode, testfs_put_inode}
use ece344lab.Fs.Cache.Get.{Missing, loaded_node, hashed, first_get, filled_at}
use ece344lab.Fs.Cache.Put.{Tidy, Leaves, put-get}
use ece344lab.Fs.Dir.{is_dir, testfs_dir_name_to_inode_nr}
use ece344lab.Fs.Dir.Entries.{IsDirectory}
use ece344lab.Fs.Dir.Lookup.{Entries, number_of}
use ece344lab.Fs.File.{Context, Host}
use ece344lab.Fs.File.Reads.{search-number}
use ece344lab.Fs.Folder.Commands.{enotdir, named_inode, Line, cmd_cd, ls_from, cmd_ls}

-- -ENOTDIR, with everything as before but for the address that was used.
abbrev pub FailsClean : {A : Type 0} → Core → Outcome Core A → Type 0
FailsClean c (ok x d) = ⊥
FailsClean c (err e d) = (e ≡ enotdir) × Leaves c (ok tt d)
FailsClean c abort = ⊥
FailsClean c exited = ⊥
FailsClean c fault = ⊥

-- -ENOTDIR, with the inode still in memory and in use.
abbrev pub FailsHeld : {A : Type 0} → ℕ → Inode → Outcome Core A → Type 0
FailsHeld a n (ok x d) = ⊥
FailsHeld a n (err e d) = (e ≡ enotdir) × (d.nodes a ≡ some n)
FailsHeld a n abort = ⊥
FailsHeld a n exited = ⊥
FailsHeld a n fault = ⊥

then_fails :
    (A : Type 0) (c : Core) (r : Outcome Core (Unit {0}))
    → Leaves c r
    → FailsClean {A = A} c (continue (λ _. fail enotdir) r)
then_fails A c (ok _ d) l = (refl, l)
then_fails A c (err e d) l = absurd l
then_fails A c abort l = absurd l
then_fails A c exited l = absurd l
then_fails A c fault l = absurd l

module _ (host : Host) (x : Context) (c k : Core) (a nr : ℕ) (n : Inode) where
  named_inode-found :
      on_node x.cur_dir (testfs_dir_name_to_inode_nr host.junk (x.cmd 1)) c ≡ ok nr c
      → testfs_get_inode true nr c ≡ ok a k
      → named_inode host.junk x c ≡ ok a k
  unfolding named_inode
  named_inode-found search get = ap (continue (testfs_get_inode true)) search ∙ get

  cmd_cd-steps :
      x.nargs ≡ 2
      → named_inode host.junk x c ≡ ok a k
      → k.nodes a ≡ some n
      → is_dir n.in_disk.i_type ≡ false
      → cmd_cd host.junk x c ≡ continue (λ _. fail enotdir) (testfs_put_inode a k)
  unfolding cmd_cd
  cmd_cd-steps two named at file =
      let args : (x.nargs == 2) ≡ true = ground (arith, two) in
      let body : ℕ → Inode → Action Core Context = λ b i.
        if is_dir i.in_disk.i_type
        then (do testfs_put_inode x.cur_dir; pure (record x { cur_dir = b }))
        else (do testfs_put_inode b; fail enotdir) in
      rw args (
        ap (continue (λ b d. continue (body b) (at_node (d.nodes b) d))) named
        ∙ ap (λ o. continue (body a) (at_node o k)) at
        ∙ rw file refl)

  cmd_ls-steps :
      (fuel : ℕ) (recursive : Bool)
      → x.nargs ≡ 2
      → named_inode host.junk x c ≡ ok a k
      → k.nodes a ≡ some n
      → is_dir n.in_disk.i_type ≡ false
      → cmd_ls fuel host.junk recursive x c ≡ err enotdir k
  unfolding cmd_ls
  cmd_ls-steps fuel recursive two named at file =
      let args : (x.nargs == 2) ≡ true = ground (arith, two) in
      let body : ℕ → Inode → Action Core (List Line) = λ b i.
        if is_dir i.in_disk.i_type
        then (do lines ← ls_from fuel host.junk recursive b 0; testfs_put_inode b; pure lines)
        else fail enotdir in
      rw args (
        ap (continue (λ b d. continue (body b) (at_node (d.nodes b) d))) named
        ∙ ap (λ o. continue (body a) (at_node o k)) at
        ∙ rw file refl)

-- For the name of a file of the current directory whose inode is not in memory, with every block of
-- the directory readable: cd and ls both fail with -ENOTDIR; after cd the device, the hash and all
-- inodes in memory are as they were, and after ls, recursive or not, the inode is still in memory
-- with a count of one.
pub file-FailsHeld :
    (host : Host) (x : Context) (c : Core) (nr : ℕ) (m : Missing c nr) (tidy : Tidy c m.table_of)
    (dn : Inode) (dir_size fuel : ℕ) (recursive : Bool) (es : List (ℤ × (ℕ × List ℕ)))
    → x.nargs ≡ 2
    → c.nodes x.cur_dir ≡ some dn
    → IsDirectory (record { super = c.fs.super; node = dn }) dir_size
    → Entries (record { super = c.fs.super; node = dn }) dir_size 0 es
    → number_of (x.cmd 1) es ≡ some (pos nr)
    → is_dir (loaded_node c nr m 1).in_disk.i_type ≡ false
    → FailsClean c (cmd_cd host.junk x c)
      × FailsHeld c.next (loaded_node c nr m 1) (cmd_ls fuel host.junk recursive x c)
file-FailsHeld host x c nr m tidy dn dir_size fuel recursive es two at dir listed number file =
    let k : Core = hashed c nr m in
    let n : Inode = loaded_node c nr m 1 in
    let named : named_inode host.junk x c ≡ ok c.next k =
      named_inode-found host x c k c.next nr n
        (search-number host c nr m tidy x.cur_dir dn dir_size (x.cmd 1) es at dir listed number)
        (first_get c nr m) in
    let put : Leaves c (testfs_put_inode c.next k) =
      subst (λ o. Leaves c (continue testfs_put_inode o)) (first_get c nr m)
        (put-get c nr m tidy) in
    (
      subst (λ o. FailsClean c o)
          (sym (cmd_cd-steps host x c k c.next nr n two named (filled_at c nr m) file))
          (then_fails Context c (testfs_put_inode c.next k) put),
      subst (λ o. FailsHeld c.next n o)
          (sym
            (cmd_ls-steps host x c k c.next nr n fuel recursive two named (filled_at c nr m) file))
          (refl, filled_at c nr m),
    )
