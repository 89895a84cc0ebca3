-- ===== src/Webserver/Cache/Collision.antt =====
-- Two files of one hash in the cache of webserver/server_thread.c.
use ece344lab.Common.{ℕ, ◌≡◌, refl, List, ◌∷◌, ◌==◌, Bool, true, arith}
use ece344lab.Common.Memory.{update}
use ece344lab.Common.Action.{ok, fault}
use ece344lab.Webserver.Cache.{
  FileData, Entry, entry, freed, Hashtable, hash, find_entry, cache_lookup, delete_from,
  delete_entry,
}

-- After `delete_entry` of the file at the head of a chain with a further entry, each lookup of a
-- name with that hash reads a freed entry, whatever its `time` is.
pub cache_lookup-delete_entry :
    (files : ℕ → FileData) (ht : Hashtable) (file b : ℕ) (chain : List Entry)
    → ht.table (hash (files file).file_name) ≡ entry file ∷ (entry b ∷ chain)
    → (t : Hashtable) × (delete_entry files file ht ≡ ok tt t)
      × ((other : ℕ) (time : Bool)
          → hash (files other).file_name ≡ hash (files file).file_name
          → cache_lookup files other time t ≡ fault)
unfolding delete_entry delete_from cache_lookup find_entry
cache_lookup-delete_entry files ht file b chain h =
    let own : (file == file) ≡ true = ground arith in
    (
      record ht {
        table = update ht.table (hash (files file).file_name) (freed ∷ (entry b ∷ chain));
      },
      rw (h, own) refl,
      λ other time e. rw (e) (rw (same_self (hash (files file).file_name)) refl),
    )
  where
    same_self : (n : ℕ) → (n == n) ≡ true
    same_self n = ground arith
