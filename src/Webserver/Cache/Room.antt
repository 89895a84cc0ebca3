-- ===== src/Webserver/Cache/Room.antt =====
-- The room that the cache of webserver/server_thread.c keeps, and what it evicts for it.
use ece344lab.Common.{
  ℕ, ◌+◌, ◌≤◌, ◌≡◌, ◌≢◌, refl, sym, ap, subst, ◌∙◌, inl, inr, true, false, List, [], ◌∷◌, ◌++◌,
  ◌==◌, if◌then◌else◌, arith, Bool-cases, ℕ_discrete,
}
use ece344lab.Common.Memory.{update}
use ece344lab.Common.Int.{pos, add_ℕ, gtb_ℤ}
use ece344lab.Common.Action.{Outcome, ok, err, abort, exited, fault}
use ece344lab.Webserver.Cache.{
  FileData, Entry, entry, Hashtable, hash, delete_from, delete_entry, drop_first, evict_from,
  cache_init,
}

module _ (files : ℕ → FileData) where
  abbrev pub key : ℕ → ℕ
  key a = hash (files a).file_name

  abbrev pub size_of : ℕ → ℕ
  size_of a = (files a).file_size

  abbrev pub total : List ℕ → ℕ
  total [] = 0
  total (a ∷ l) = size_of a + total l

  -- No file of the list has the hash of this one.
  abbrev pub Uncached : ℕ → List ℕ → Type 0
  Uncached f [] = Unit {0}
  Uncached f (a ∷ l) = (key a ≢ key f) × Uncached f l

  abbrev pub Spread : List ℕ → Type 0
  Spread [] = Unit {0}
  Spread (a ∷ l) = Uncached a l × Spread l

  -- The chain that a table for the files of the list has.
  abbrev pub chain_of : List ℕ → ℕ → List Entry
  chain_of [] h = []
  chain_of (a ∷ l) h = if key a == h then entry a ∷ [] else chain_of l h

  -- The table has the files of the list, no two with the same hash, and what they take and what is
  -- left make up the size of the cache.
  pub record IsSound (ht : Hashtable) : Type 0 where
    pub room : ℕ
    pub available : ht.available_cache_size ≡ pos room
    pub account : room + total ht.lru ≡ ht.cache_size
    pub spread : Spread ht.lru
    pub chains : (h : ℕ) → ht.table h ≡ chain_of ht.lru h

  pub init-IsSound : (k : ℕ) → IsSound (cache_init k)
  init-IsSound k = record {
    room = k;
    available = refl;
    account = omega arith;
    spread = tt;
    chains = λ h. refl;
  }

  pub chain_of-Uncached : (f : ℕ) (l : List ℕ) → Uncached f l → chain_of l (key f) ≡ []
  chain_of-Uncached f [] u = refl
  chain_of-Uncached f (a ∷ l) u = ground (arith, chain_of-Uncached f l u.1, u.0)

  -- What `cache_evict` may do: the oldest files go, and there is room then.
  abbrev pub Evicts : Hashtable → ℕ → List ℕ → Outcome Hashtable (Unit {0}) → Type 0
  Evicts ht size l (ok _ t) =
      (s : IsSound t) × (size ≤ s.room)
      × (t.cache_size ≡ ht.cache_size)
      × ((d : List ℕ) × (l ≡ d ++ t.lru))
  Evicts ht size l (err e t) = ⊥
  Evicts ht size l abort = ⊥
  Evicts ht size l exited = ⊥
  Evicts ht size l fault = ⊥

  Evicts-more :
      (ht u : Hashtable) (size a : ℕ) (l : List ℕ) (r : Outcome Hashtable (Unit {0}))
      → u.cache_size ≡ ht.cache_size
      → Evicts u size l r
      → Evicts ht size (a ∷ l) r
  Evicts-more ht u size a l (ok _ t) e v = (v.0, v.1, v.2 ∙ e, (a ∷ v.3.0, ap (λ x. a ∷ x) v.3.1))
  Evicts-more ht u size a l (err x t) e v = v
  Evicts-more ht u size a l abort e v = v
  Evicts-more ht u size a l exited e v = v
  Evicts-more ht u size a l fault e v = v

  -- The table after the head of the list is gone.
  abbrev without_first : ℕ → List ℕ → Hashtable → Hashtable
  without_first a l ht = record (drop_first files a l ht) { table = update ht.table (key a) [] }

  module _ (ht : Hashtable) (a : ℕ) (l : List ℕ) (at : ht.lru ≡ a ∷ l) (s : IsSound ht) where
    spread : Spread (a ∷ l)
    spread = subst Spread at s.spread

    own_chain : ht.table (key a) ≡ entry a ∷ []
    own_chain = s.chains (key a) ∙ ap (λ x. chain_of x (key a)) at ∙ ground arith

    delete-first : delete_entry files a (drop_first files a l ht) ≡ ok tt (without_first a l ht)
    unfolding delete_entry delete_from
    delete-first = rw own_chain refl

    without_first-IsSound : IsSound (without_first a l ht)
    without_first-IsSound = record {
      room = s.room + size_of a;
      available = ap (λ z. add_ℕ z (size_of a)) s.available;
      account = omega (arith, s.account, ap total at);
      spread = spread.1;
      chains = λ h. chain h;
    }
      where
        chain : (h : ℕ) → update ht.table (key a) [] h ≡ chain_of l h
        chain h = elim (ℕ_discrete (key a) h) [
          | yes e ↦
              let here : (key a == h) ≡ true = ground arith in
              rw here (sym (chain_of-Uncached a l spread.0) ∙ ap (chain_of l) e)
          | no ne ↦
              let there : (key a == h) ≡ false = ground arith in
              rw there (s.chains h ∙ ap (λ x. chain_of x h) at ∙ ground arith)
        ]

  pub evict_from-Evicts :
      (l : List ℕ) (size : ℕ) (ht : Hashtable)
      → ht.lru ≡ l
      → IsSound ht
      → size ≤ ht.cache_size
      → Evicts ht size l (evict_from files size l ht)
  unfolding evict_from
  evict_from-Evicts [] size ht at s le =
      let enough : gtb_ℤ (pos size) ht.available_cache_size ≡ false =
        ground (arith, s.available, s.account, ap total at) in
      rw enough (s, ground (arith, s.account, ap total at), refl, ([], sym at))
  evict_from-Evicts (a ∷ l) size ht at s le =
      elim (Bool-cases (gtb_ℤ (pos size) ht.available_cache_size)) [
        | inl short ↦
            rw (short, delete-first ht a l at s)
              (Evicts-more ht (without_first a l ht) size a l _ refl (
                evict_from-Evicts l size (without_first a l ht) refl
                  (without_first-IsSound ht a l at s) le))
        | inr enough ↦ rw enough (s, ground (arith, s.available), refl, ([], sym at))
      ]
