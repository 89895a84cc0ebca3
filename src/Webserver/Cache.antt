-- ===== src/Webserver/Cache.antt =====
-- webserver/server_thread.c: the cache of files, a table of chains by a hash of the name and a list
-- in the order of use. A `struct file_data` is an address, and its name and size are in `files`. An
-- entry of the list is the address of its file. An entry of a chain may be freed while the chain
-- still leads to it: reading it is a fault. `malloc` succeeds. A name is the bytes before its 0.
pub mod Order
pub mod Room
pub mod Insert
pub mod Collision
pub mod Serve
use ece344lab.Common.{
  ℕ, zero, suc, ◌+◌, ◌-◌, ◌*◌, ◌%◌, ◌^◌, Bool, true, false, not, List, [], ◌∷◌, ◌++◌, ◌&&◌, Option,
  none, some, ltb, ◌==◌, if◌then◌else◌,
}
use ece344lab.Common.Memory.{update}
use ece344lab.Common.Text.{hash_from, same_text}
use ece344lab.Common.Int.{ℤ, pos, negsuc, add_ℕ, sub_ℕ, gtb_ℤ}
use ece344lab.Common.Action.{
  Outcome, Action, ok, err, abort, exited, fault, pure, gets, modify, ◌>>=◌, ◌>>◌,
}

-- `struct file_data`, its contents aside
pub record FileData : Type 0 where
  pub file_name : List ℕ
  pub file_size : ℕ

-- `struct entry` of a chain: its file, or freed.
pub data Entry : Type 0 where
  entry : ℕ → Entry
  freed : Entry

-- `struct hashtable`; its size is 10000000.
pub record Hashtable : Type 0 where
  pub cache_size : ℕ
  pub available_cache_size : ℤ
  pub lru : List ℕ
  pub table : ℕ → List Entry

-- `hash`
pub hash : List ℕ → ℕ
unfolding hash_from
hash str = hash_from 5381 str % 10000000

abbrev pass : ℕ → List ℕ × List ℕ → List ℕ × List ℕ
pass a (passed, from_temp) = (a ∷ passed, from_temp)

-- The walk of `temp` to the file, with `prev` behind it: the entries it has passed, and those from
-- `temp` on, none where it is NULL.
unfoldable pub seek : ℕ → List ℕ → List ℕ × List ℕ
seek file [] = ([], [])
seek file (a ∷ l) = let further = pass a (seek file l) in if a == file then ([], a ∷ l) else further

-- The list from an entry, with another hooked behind the last one.
unfoldable pub hook : ℕ → List ℕ → ℕ → List ℕ
hook head [] e = head ∷ (e ∷ [])
hook head (b ∷ l) e = head ∷ hook b l e

-- The list from its head to `prev`, `prev->next` being a new entry.
unfoldable pub put_next : ℕ → List ℕ → ℕ → List ℕ
put_next head [] e = head ∷ (e ∷ [])
put_next head (b ∷ between) e = head ∷ put_next b between e

-- The list from its head to `prev`, `prev->next` being `temp->next`, and `temp` hooked behind the last
-- entry that the walk from `prev` comes to.
unfoldable pub move_last : ℕ → List ℕ → List ℕ → ℕ → List ℕ
unfolding hook
move_last head [] after temp = hook head after temp
move_last head (b ∷ between) after temp = head ∷ move_last b between after temp

-- What the walk passed behind the head: `prev` is the head where that is nothing.
abbrev pub behind_head : List ℕ → List ℕ
behind_head [] = []
behind_head (a ∷ l) = l

-- A list of two entries or more, `head` and `next` its first two, after the walk.
abbrev pub relink : ℕ → ℕ → ℕ → List ℕ → List ℕ × List ℕ → List ℕ
relink file head next l (passed, []) = put_next head (behind_head passed) file
relink file head next l (passed, (temp ∷ after)) =
    if temp == head then hook next l temp else move_last head (behind_head passed) after temp

-- `update_LRU` on the list: empty, of one entry, and longer.
unfoldable pub update_lru : ℕ → List ℕ → List ℕ
unfolding seek put_next hook move_last
update_lru file [] = file ∷ []
update_lru file (a ∷ []) = if a == file then a ∷ [] else a ∷ (file ∷ [])
update_lru file (a ∷ (b ∷ l)) = relink file a b l (seek file (a ∷ (b ∷ l)))

abbrev pub touch : ℕ → Hashtable → Hashtable
touch file ht = record ht { lru = update_lru file ht.lru }

-- The search of a chain for a name.
unfoldable pub find_entry : (ℕ → FileData) → List ℕ → List Entry → Action Hashtable (Option ℕ)
unfolding same_text
find_entry files name [] = pure none
find_entry files name (freed ∷ chain) = λ ht. fault
find_entry files name (entry d ∷ chain) =
    let rest = find_entry files name chain in
    if same_text (files d).file_name name then pure (some d) else rest

abbrev pub found : Bool → Option ℕ → Action Hashtable (Option ℕ)
found time none = pure none
found true (some d) = pure (some d)
found false (some d) = do modify (touch d); pure (some d)

unfoldable pub cache_lookup : (ℕ → FileData) → ℕ → Bool → Action Hashtable (Option ℕ)
unfolding hash find_entry
cache_lookup files file time = do
  chain ← gets (λ ht. ht.table (hash (files file).file_name))
  d ← find_entry files (files file).file_name chain
  found time d

abbrev pub behind_entry : ℕ → Option (List Entry) → Option (List Entry)
behind_entry d none = none
behind_entry d (some chain) = some (entry d ∷ chain)

-- The chain with an entry at its end; the walk reads every entry of it.
unfoldable pub append_entry : ℕ → List Entry → Option (List Entry)
append_entry file [] = some (entry file ∷ [])
append_entry file (freed ∷ chain) = none
append_entry file (entry d ∷ chain) = behind_entry d (append_entry file chain)

abbrev pub put_chain : ℕ → Option (List Entry) → Action Hashtable (Unit {0})
put_chain h none ht = fault
put_chain h (some chain) ht = ok tt (record ht { table = update ht.table h chain })

unfoldable pub cache_insert_ht : (ℕ → FileData) → ℕ → Action Hashtable (Unit {0})
unfolding hash append_entry update_lru
cache_insert_ht files file = do
  chain ← gets (λ ht. ht.table (hash (files file).file_name))
  put_chain (hash (files file).file_name) (append_entry file chain)
  modify (λ ht. record ht {
    available_cache_size = sub_ℕ ht.available_cache_size (files file).file_size;
  })
  modify (touch file)

-- The chain past its head without the entry of the file, which is freed; `none` where the walk
-- leaves the chain or reads a freed entry.
unfoldable pub unlink_entry : ℕ → List Entry → Option (List Entry)
unlink_entry file [] = none
unlink_entry file (freed ∷ chain) = none
unlink_entry file (entry d ∷ chain) =
    let rest = behind_entry d (unlink_entry file chain) in if d == file then some chain else rest

-- `delete_entry` on the chain. A chain of one is emptied, whatever its entry. In a longer one `prev`
-- is the entry itself where it is the head: the head is freed and the chain still starts at it.
unfoldable pub delete_from : ℕ → List Entry → Option (List Entry)
unfolding unlink_entry
delete_from file [] = none
delete_from file (freed ∷ chain) = none
delete_from file (entry d ∷ []) = some []
delete_from file (entry d ∷ (e ∷ chain)) =
    let rest = behind_entry d (unlink_entry file (e ∷ chain)) in
    if d == file then some (freed ∷ (e ∷ chain)) else rest

unfoldable pub delete_entry : (ℕ → FileData) → ℕ → Action Hashtable (Unit {0})
unfolding hash delete_from
delete_entry files file = do
  chain ← gets (λ ht. ht.table (hash (files file).file_name))
  put_chain (hash (files file).file_name) (delete_from file chain)

-- The head of the list goes: one round of `cache_evict`.
abbrev pub drop_first : (ℕ → FileData) → ℕ → List ℕ → Hashtable → Hashtable
drop_first files a l ht = record ht {
  available_cache_size = add_ℕ ht.available_cache_size (files a).file_size;
  lru = l;
}

-- The loop of `cache_evict`, over the list.
unfoldable pub evict_from : (ℕ → FileData) → ℕ → List ℕ → Action Hashtable (Unit {0})
unfolding delete_entry
evict_from files size [] ht = if gtb_ℤ (pos size) ht.available_cache_size then fault else ok tt ht
evict_from files size (a ∷ l) ht =
    let rest = evict_from files size l in
    if gtb_ℤ (pos size) ht.available_cache_size
    then (do modify (drop_first files a l); delete_entry files a; rest) ht
    else ok tt ht

unfoldable pub cache_evict : (ℕ → FileData) → ℕ → Action Hashtable (Unit {0})
unfolding evict_from
cache_evict files size_to_evict ht = evict_from files size_to_evict ht.lru ht

-- The first test compares the size with half of the cache as doubles, which hold both.
unfoldable pub cache_insert : (ℕ → FileData) → ℕ → Action Hashtable (Unit {0})
unfolding cache_evict cache_insert_ht
cache_insert files file ht =
    let size = (files file).file_size in
    (if ltb ht.cache_size (2 * size)
        then pure tt
        else if gtb_ℤ (pos size) ht.available_cache_size
        then (do cache_evict files size; cache_insert_ht files file)
        else cache_insert_ht files file)
      ht

-- `server_init` with `max_cache_size > 0`
abbrev pub cache_init : ℕ → Hashtable
cache_init max_cache_size = record {
  cache_size = max_cache_size;
  available_cache_size = pos max_cache_size;
  lru = [];
  table = λ i. [];
}

-- What `do_server_request` does with a file that was not in the cache and has been read.
abbrev pub keep_read : (ℕ → FileData) → ℕ → Option ℕ → Action Hashtable (Unit {0})
keep_read files file none = cache_insert files file
keep_read files file (some d) = pure tt

abbrev pub after_lookup :
    (ℕ → FileData) → ℕ → Action Hashtable (Unit {0}) → Option ℕ → Action Hashtable ℕ
after_lookup files file others (some d) = pure d
after_lookup files file others none = do
  others
  returned ← cache_lookup files file true
  keep_read files file returned
  pure file

-- `do_server_request` with a cache: the file whose data is sent. `files` is after the file has been
-- read, which sets its size; the lookup before needs its name only. `others` is what other threads
-- do to the cache while the file is read.
unfoldable pub do_server_request :
    (ℕ → FileData) → ℕ → Action Hashtable (Unit {0}) → Action Hashtable ℕ
unfolding cache_lookup cache_insert
do_server_request files file others = do
  cached ← cache_lookup files file false
  after_lookup files file others cached
