-- ===== src/Webserver/Cache/Insert.antt =====
-- What `cache_insert` of webserver/server_thread.c keeps of the cache, and what goes for it.
use ece344lab.Common.{
  ℕ, ◌+◌, ◌-◌, ◌*◌, ◌≤◌, ◌<◌, ◌≡◌, ◌≢◌, refl, sym, ap, subst, ◌∙◌, ◌⊎◌, inl, inr, false, List, [],
  ◌∷◌, ◌++◌, ltb, ◌==◌, if◌then◌else◌, arith, Bool-cases,
}
use ece344lab.Common.Memory.{update}
use ece344lab.Common.Int.{pos, sub_ℕ, gtb_ℤ}
use ece344lab.Common.Action.{Outcome, ok, err, abort, exited, fault, continue}
use ece344lab.Webserver.Cache.{
  FileData, entry, Hashtable, update_lru, append_entry, cache_evict, cache_insert_ht, cache_insert,
}
use ece344lab.Webserver.Cache.Order.{contains, update_lru-unlink, contains-unlink}
use ece344lab.Webserver.Cache.Room.{
  key, size_of, total, Uncached, Spread, chain_of, IsSound, chain_of-Uncached, Evicts,
  evict_from-Evicts,
}

module _ (files : ℕ → FileData) where
  pub Uncached-suffix : (f : ℕ) (d l : List ℕ) → Uncached files f (d ++ l) → Uncached files f l
  Uncached-suffix f [] l u = u
  Uncached-suffix f (a ∷ d) l u = Uncached-suffix f d l u.1

  contains-Uncached : (f : ℕ) (l : List ℕ) → Uncached files f l → contains f l ≡ false
  unfolding contains
  contains-Uncached f [] u = refl
  contains-Uncached f (a ∷ l) u =
      let other : (a == f) ≡ false = ground (arith, u.0, ap (key files) {x = a} {y = f}) in
      rw other (contains-Uncached f l u.1)

  total-append :
      (l : List ℕ) (f : ℕ) → total files (l ++ (f ∷ [])) ≡ total files l + size_of files f
  total-append [] f = omega arith
  total-append (a ∷ l) f = omega (arith, total-append l f)

  Uncached-append :
      (a f : ℕ) (l : List ℕ)
      → Uncached files a l
      → key files f ≢ key files a
      → Uncached files a (l ++ (f ∷ []))
  Uncached-append a f [] u ne = (ne, tt)
  Uncached-append a f (b ∷ l) u ne = (u.0, Uncached-append a f l u.1 ne)

  Spread-append :
      (l : List ℕ) (f : ℕ) → Spread files l → Uncached files f l → Spread files (l ++ (f ∷ []))
  Spread-append [] f s u = (tt, tt)
  Spread-append (a ∷ l) f s u =
      (Uncached-append a f l s.0 (λ e. u.0 (sym e)), Spread-append l f s.1 u.1)

  pub chain_of-append :
      (l : List ℕ) (f h : ℕ)
      → Uncached files f l
      → chain_of files (l ++ (f ∷ [])) h
        ≡ (if key files f == h then entry f ∷ [] else chain_of files l h)
  chain_of-append [] f h u = refl
  chain_of-append (a ∷ l) f h u = ground (arith, chain_of-append l f h u.1, u.0)

  -- The table with the file in it.
  abbrev with_last : ℕ → Hashtable → Hashtable
  with_last f ht = record {
    cache_size = ht.cache_size;
    available_cache_size = sub_ℕ ht.available_cache_size (size_of files f);
    lru = ht.lru ++ (f ∷ []);
    table = update ht.table (key files f) (entry f ∷ []);
  }

  module _ (ht : Hashtable) (f : ℕ) (s : IsSound files ht) (u : Uncached files f ht.lru) where
    update_lru-Uncached : update_lru f ht.lru ≡ ht.lru ++ (f ∷ [])
    update_lru-Uncached =
        update_lru-unlink f ht.lru
        ∙ ap (λ x. x ++ (f ∷ [])) (contains-unlink f ht.lru (contains-Uncached f ht.lru u))

    insert_ht-last : cache_insert_ht files f ht ≡ ok tt (with_last f ht)
    unfolding cache_insert_ht append_entry
    insert_ht-last =
        let here : ht.table (key files f) ≡ [] =
          s.chains (key files f) ∙ chain_of-Uncached files f ht.lru u in
        rw (here, update_lru-Uncached) refl

    with_last-IsSound : size_of files f ≤ s.room → IsSound files (with_last f ht)
    with_last-IsSound fits = record {
      room = s.room - size_of files f;
      available = ap (λ z. sub_ℕ z (size_of files f)) s.available ∙ ground (arith, fits);
      account = omega (arith, s.account, total-append ht.lru f, fits);
      spread = Spread-append ht.lru f s.spread u;
      chains = λ h. chain h;
    }
      where
        chain :
            (h : ℕ)
            → update ht.table (key files f) (entry f ∷ []) h ≡ chain_of files (ht.lru ++ (f ∷ [])) h
        chain h = rw (chain_of-append ht.lru f h u, s.chains h) refl

  -- What `cache_insert` may do.
  abbrev pub Caches : Hashtable → ℕ → ℕ → Outcome Hashtable (Unit {0}) → Type 0
  Caches ht room f (ok _ t) =
      IsSound files t
      × (t.cache_size ≡ ht.cache_size)
      × (((ht.cache_size < 2 * size_of files f) × (t ≡ ht))
          ⊎ ((2 * size_of files f ≤ ht.cache_size)
              × ((d : List ℕ) × ((rest : List ℕ) × (ht.lru ≡ d ++ rest)
                    × (t.lru ≡ rest ++ (f ∷ []))
                    × (size_of files f ≤ room → d ≡ [])))))
  Caches ht room f (err e t) = ⊥
  Caches ht room f abort = ⊥
  Caches ht room f exited = ⊥
  Caches ht room f fault = ⊥

  after_evict :
      (ht : Hashtable) (room f : ℕ) (r : Outcome Hashtable (Unit {0}))
      → room < size_of files f
      → 2 * size_of files f ≤ ht.cache_size
      → Uncached files f ht.lru
      → Evicts files ht (size_of files f) ht.lru r
      → Caches ht room f (continue (λ _. cache_insert_ht files f) r)
  after_evict ht room f (ok _ t) short half u v =
      let after : Uncached files f t.lru =
        Uncached-suffix f v.3.0 t.lru (subst (Uncached files f) v.3.1 u) in
      rw (insert_ht-last t f v.0 after) (
        with_last-IsSound t f v.0 after v.1,
        v.2,
        inr (half, (v.3.0, (t.lru, v.3.1, refl, λ le. absurd (omega (arith, short, le))))),
      )
  after_evict ht room f (err x t) short half u v = v
  after_evict ht room f abort short half u v = v
  after_evict ht room f exited short half u v = v
  after_evict ht room f fault short half u v = v

  -- In a sound cache with no file of this one's hash, `cache_insert` meets no fault and leaves a sound
  -- cache of the same size. A file of more than half of the cache changes nothing. Any other is put
  -- last in the order of use, and the files that go for it are the least recently used ones: none
  -- where there is room.
  pub cache_insert-Caches :
      (ht : Hashtable) (f : ℕ) (s : IsSound files ht)
      → Uncached files f ht.lru
      → Caches ht s.room f (cache_insert files f ht)
  unfolding cache_insert cache_evict
  cache_insert-Caches ht f s u = elim (Bool-cases (ltb ht.cache_size (2 * size_of files f))) [
    | inl large ↦
        let lt : ht.cache_size < 2 * size_of files f = ground (arith, large) in
        rw large (s, refl, inl (lt, refl))
    | inr small ↦
        let half : 2 * size_of files f ≤ ht.cache_size = ground (arith, small) in
        elim (Bool-cases (gtb_ℤ (pos (size_of files f)) ht.available_cache_size)) [
          | inl short ↦
              let less : s.room < size_of files f = ground (arith, short, s.available) in
              rw (small, short)
                (after_evict ht s.room f _ less half u (
                  evict_from-Evicts files ht.lru (size_of files f) ht refl s (omega (arith, half))))
          | inr enough ↦
              let fits : size_of files f ≤ s.room = ground (arith, enough, s.available) in
              rw (small, enough, insert_ht-last ht f s u)
                (
                  with_last-IsSound ht f s u fits,
                  refl,
                  inr (half, ([], (ht.lru, refl, refl, λ le. refl))),
                )
        ]
  ]
