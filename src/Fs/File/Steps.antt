-- ===== src/Fs/File/Steps.antt =====
-- The steps of the commands of fs/file.c, call by call.
use ece344lab.Common.{
  ℕ, ◌+◌, ◌^◌, ◌%◌, ◌≤◌, ◌≡◌, refl, sym, ap, ◌∙◌, true, false, not, [], some, ltb, ◌==◌,
  if◌then◌else◌, arith,
}
use ece344lab.Common.Memory.{update, update_self}
use ece344lab.Common.Bytes.{Memory}
use ece344lab.Common.Text.{until_zero}
use ece344lab.Common.Int.{pos, gtb_ℤ, to_s64}
use ece344lab.Common.Action.{
  einval, Action, ok, pure, fail, continue, attempt, put_back, ◌>>=◌, ◌>>◌, enomem,
}
use ece344lab.Fs.Layout.{block_size}
use ece344lab.Fs.Inode.{Inode, Io}
use ece344lab.Fs.Cache.{Core, at_node, on_node, on_found, testfs_put_inode}
use ece344lab.Fs.ReadWrite.Data.{testfs_read_data}
use ece344lab.Fs.Dir.{is_dir}
use ece344lab.Fs.File.{
  Context, Host, eisdir, put_and_fail, if_whole, not_negative, str_to_offset, str_to_size,
  no_directory, testfs_get_file_inode, bytes_at, print_read, read_file, cmd_read,
}

-- An action that changes nothing of an inode changes nothing of the core.
pub on_node-unchanged :
    {A : Type 0} (a : ℕ) (c : Core) (i : Inode) (m : Action Io A) (x : A)
    → c.nodes a ≡ some i
    → m (record { super = c.fs.super; node = i }) ≡ ok x (record { super = c.fs.super; node = i })
    → on_node a m c ≡ ok x c
on_node-unchanged a c i m x at e =
    let back : Io → Core = λ io. record c {
      fs = record c.fs { super = io.super };
      nodes = update c.nodes a (some io.node);
    } in
    let same : update c.nodes a (some i) ≡ c.nodes =
      ap (λ o. update c.nodes a o) (sym at) ∙ update_self c.nodes a in
    ap (λ o. on_found a m c o) at
    ∙ ap (λ r. put_back back r) e
    ∙ ap (λ n. ok x (record c { nodes = n })) same

-- The steps of the read in any core.
pub read_file-steps :
    (host : Host) (k : Core) (a : ℕ) (n : Inode) (first size : ℕ) (b : Memory)
    → k.nodes a ≡ some n
    → gtb_ℤ (to_s64 (first + size)) n.in_disk.i_size ≡ false
    → size + block_size ≤ 2 ^ 31
    → host.malloc (size + 1) ≡ true
    → on_node a (testfs_read_data host.junk first size) k ≡ ok (size, b) k
    → read_file host first size a k
      ≡ continue (λ _ d. ok (size, until_zero (bytes_at size 0 b)) d) (testfs_put_inode a k)
unfolding read_file print_read
read_file-steps host k a n first size b at within small room read =
    let wide : (size + 1) % 2 ^ 64 ≡ size + 1 = omega (arith, small) in
    let fits : ltb size (size + 1) ≡ true = ground arith in
    ap
      (λ o.
        continue
          (λ n.
            if gtb_ℤ (to_s64 (first + size)) n.in_disk.i_size
            then put_and_fail a einval
            else if not (host.malloc ((size + 1) % 2 ^ 64))
            then put_and_fail a enomem
            else (attempt (on_node a (testfs_read_data host.junk first size)) >>= λ r.
                print_read a size r))
          (at_node o k))
      at
    ∙ rw (within, wide, room)
        (ap (λ r. continue (λ x. print_read a size x) (attempt (λ _. r) k)) read
          ∙ rw (wide, fits) refl)

pub no_directory-steps :
    (k : Core) (a : ℕ) (n : Inode)
    → k.nodes a ≡ some n
    → is_dir n.in_disk.i_type ≡ false
    → no_directory a k ≡ ok a k
unfolding no_directory
no_directory-steps k a n at file =
    ap
      (λ o.
        continue
          (λ n. if is_dir n.in_disk.i_type then (do testfs_put_inode a; fail eisdir) else pure a)
          (at_node o k))
      at
    ∙ rw file refl

-- The steps of the command, with its arguments in order.
pub cmd_read-steps :
    (host : Host) (x : Context) (c k : Core) (a first size : ℕ)
    → x.nargs ≡ 4
    → host.strtoll (x.cmd 2) ≡ (pos first, [])
    → host.strtoull (x.cmd 3) ≡ (size, [])
    → testfs_get_file_inode host x.cur_dir (x.cmd 1) c ≡ ok a k
    → cmd_read host x c ≡ read_file host first size a k
unfolding cmd_read str_to_offset str_to_size
cmd_read-steps host x c k a first size four number wide found =
    let args : (x.nargs == 4) ≡ true = ground (arith, four) in
    rw args (
      ap
        (λ v.
          continue
            (λ val. not_negative val >>= λ offset. if_whole (host.strtoull (x.cmd 3)) >>= λ n.
              testfs_get_file_inode host x.cur_dir (x.cmd 1) >>= λ b. read_file host offset n b)
            (if_whole v c))
        number
      ∙ ap
          (λ v.
            continue
              (λ n.
                testfs_get_file_inode host x.cur_dir (x.cmd 1) >>= λ b. read_file host first n b)
              (if_whole v c))
          wide
      ∙ ap (continue (λ b. read_file host first size b)) found)
