-- ===== src/Fs/Cache/Put.antt =====
-- `testfs_put_inode` of fs/inode.c: the last user of an inode takes it out of memory.
use ece344lab.Common.{
  ℕ, ◌+◌, ◌<◌, ◌≡◌, refl, sym, ap, ◌∙◌, true, false, arith, List, [], ◌∷◌, none, some, ◌==◌,
  ℕ_discrete, fun_ext,
}
use ece344lab.Common.Memory.{update}
use ece344lab.Common.Action.{Outcome, ok, err, abort, exited, fault, ◌>>=◌}
use ece344lab.Fs.Mount.{chains}
use ece344lab.Fs.Cache.{
  Core, inode_hashfn, without, inode_hash_remove, testfs_get_inode, testfs_put_inode,
}
use ece344lab.Fs.Cache.Get.{Missing, loaded_node, filled, hashed, first_get, filled_at}

-- All addresses of the chain are below a bound.
abbrev pub Below : List ℕ → ℕ → Type 0
Below [] k = Unit {0}
Below (b ∷ bs) k = (b < k) × Below bs k

without-Below : (bs : List ℕ) (a : ℕ) → Below bs a → without a bs ≡ bs
unfolding without
without-Below [] a h = refl
without-Below (b ∷ bs) a h =
    let other : (b == a) ≡ false = ground (arith, h.0) in
    rw other (ap (λ x. b ∷ x) (without-Below bs a h.1))

-- The addresses in the hash are in use: none is that of the next inode, which is free.
pub record Tidy (c : Core) (t : ℕ → List ℕ) : Type 0 where
  pub used : (h : ℕ) → Below (t h) c.next
  pub free : c.nodes c.next ≡ none

module _ (c : Core) (nr : ℕ) (m : Missing c nr) (tidy : Tidy c m.table_of) where
  removed :
      (h : ℕ)
      → without c.next
          (update m.table_of (inode_hashfn nr) (c.next ∷ m.table_of (inode_hashfn nr)) h)
        ≡ m.table_of h
  unfolding without
  removed h = elim (ℕ_discrete (inode_hashfn nr) h) [
    | yes e ↦
        let here : (inode_hashfn nr == h) ≡ true = ground arith in
        let same : (c.next == c.next) ≡ true = ground arith in rw (here, same) (ap m.table_of e)
    | no ne ↦
        let there : (inode_hashfn nr == h) ≡ false = ground arith in
        rw there (without-Below (m.table_of h) c.next (tidy.used h))
  ]

  -- After both calls.
  abbrev gone : Core
  gone = record c {
    fs = record c.fs { table = chains m.table_of };
    nodes = update (update (filled c nr m).nodes c.next (some (loaded_node c nr m 0))) c.next none;
    next = c.next + 1;
  }

  put-gone : testfs_put_inode c.next (hashed c nr m) ≡ ok tt gone
  unfolding testfs_put_inode inode_hash_remove
  put-gone = rw (filled_at c nr m, fun_ext removed) refl

-- Everything is as before but for the address that was used.
abbrev pub Leaves : Core → Outcome Core (Unit {0}) → Type 0
Leaves c (ok _ d) =
    (d.fs.super ≡ c.fs.super) × (d.fs.table ≡ c.fs.table) × ((a : ℕ) → d.nodes a ≡ c.nodes a)
Leaves c (err e d) = ⊥
Leaves c abort = ⊥
Leaves c exited = ⊥
Leaves c fault = ⊥

-- Getting an inode that is not in memory and putting it back leaves the device, the hash and all
-- inodes in memory as they were, with memory at hand and where the addresses in the hash are in use.
pub put-get :
    (c : Core) (nr : ℕ) (m : Missing c nr)
    → Tidy c m.table_of
    → Leaves c ((testfs_get_inode true nr >>= testfs_put_inode) c)
put-get c nr m tidy = rw (first_get c nr m, put-gone c nr m tidy) (refl, sym m.table, same)
  where
    same : (a : ℕ) → (gone c nr m tidy).nodes a ≡ c.nodes a
    same a = elim (ℕ_discrete c.next a) [
      | yes e ↦
          let here : (c.next == a) ≡ true = ground arith in rw here (sym tidy.free ∙ ap c.nodes e)
      | no ne ↦ ground arith
    ]
