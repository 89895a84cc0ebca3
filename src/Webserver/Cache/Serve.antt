-- ===== src/Webserver/Cache/Serve.antt =====
-- `do_server_request` of webserver/server_thread.c with a cache, from a request that misses to the
-- next one for the same name.
use ece344lab.Common.{
  ℕ, ◌*◌, ◌≤◌, ◌≡◌, refl, ap, subst, ◌∙◌, inl, inr, Bool, true, false, List, [], ◌∷◌, ◌++◌, arith,
  none, some,
}
use ece344lab.Common.Action.{Outcome, Action, ok, err, abort, exited, fault, pure, continue}
use ece344lab.Common.Text.{same_text_self}
use ece344lab.Webserver.Cache.{
  FileData, entry, Hashtable, touch, find_entry, cache_lookup, cache_insert, do_server_request,
}
use ece344lab.Webserver.Cache.Room.{key, size_of, Uncached, chain_of, IsSound, chain_of-Uncached}
use ece344lab.Webserver.Cache.Insert.{Caches, cache_insert-Caches, chain_of-append, Uncached-suffix}

module _ (files : ℕ → FileData) where
  lookup-miss :
      (ht : Hashtable) (f : ℕ) (time : Bool)
      → ht.table (key files f) ≡ []
      → cache_lookup files f time ht ≡ ok none ht
  unfolding cache_lookup find_entry
  lookup-miss ht f time h = rw h refl

  lookup-hit :
      (ht : Hashtable) (f g : ℕ)
      → ht.table (key files f) ≡ entry f ∷ []
      → (files g).file_name ≡ (files f).file_name
      → cache_lookup files g false ht ≡ ok (some f) (touch f ht)
  unfolding cache_lookup find_entry
  lookup-hit ht f g h e = rw (e, h, same_text_self (files f).file_name) refl

  chain_of-last :
      (l : List ℕ) (f : ℕ)
      → Uncached files f l
      → chain_of files (l ++ (f ∷ [])) (key files f) ≡ entry f ∷ []
  chain_of-last l f u = chain_of-append files l f (key files f) u ∙ ground arith

  -- Served from the cache: the second of two requests.
  abbrev pub NextHits : ℕ → Outcome Hashtable ℕ → Type 0
  NextHits f (ok d t) =
      (d ≡ f)
      × IsSound files t
      × ((g : ℕ) (others : Action Hashtable (Unit {0}))
          → (files g).file_name ≡ (files f).file_name
          → do_server_request files g others t ≡ ok f (touch f t))
  NextHits f (err e t) = ⊥
  NextHits f abort = ⊥
  NextHits f exited = ⊥
  NextHits f fault = ⊥

  in_chain :
      (ht t : Hashtable) (room f : ℕ)
      → Uncached files f ht.lru
      → 2 * size_of files f ≤ ht.cache_size
      → Caches files ht room f (ok tt t)
      → t.table (key files f) ≡ entry f ∷ []
  in_chain ht t room f u half (s, size, inl (large, same)) = absurd (omega (arith, large, half))
  in_chain ht t room f u half (s, size, inr (_, (d, (rest, split, last, _)))) =
      s.chains (key files f)
      ∙ ap (λ l. chain_of files l (key files f)) last
      ∙ chain_of-last rest f (Uncached-suffix files f d rest (subst (Uncached files f) split u))

  after_insert :
      (ht : Hashtable) (room f : ℕ) (r : Outcome Hashtable (Unit {0}))
      → Uncached files f ht.lru
      → 2 * size_of files f ≤ ht.cache_size
      → Caches files ht room f r
      → NextHits f (continue (λ _. pure f) r)
  unfolding do_server_request
  after_insert ht room f (ok _ t) u half v =
      (refl, v.0, λ g others e. rw (lookup-hit t f g (in_chain ht t room f u half v) e) refl)
  after_insert ht room f (err x t) u half v = v
  after_insert ht room f abort u half v = v
  after_insert ht room f exited u half v = v
  after_insert ht room f fault u half v = v

  -- In a sound cache that has no file of this one's hash, where the file is at most half of the
  -- cache and no other thread acts while it is read, a request for it is answered with it, and the
  -- cache is sound. Each request for a name that is the same is then answered with the file from the
  -- cache, and puts it last in the order of use.
  pub do_server_request-hit :
      (ht : Hashtable) (f : ℕ)
      → IsSound files ht
      → Uncached files f ht.lru
      → 2 * size_of files f ≤ ht.cache_size
      → NextHits f (do_server_request files f (pure tt) ht)
  unfolding do_server_request
  do_server_request-hit ht f s u half =
      let empty : ht.table (key files f) ≡ [] =
        s.chains (key files f) ∙ chain_of-Uncached files f ht.lru u in
      rw (lookup-miss ht f false empty, lookup-miss ht f true empty)
        (after_insert ht s.room f (cache_insert files f ht) u half
          (cache_insert-Caches files ht f s u))
