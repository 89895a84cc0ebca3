-- ===== src/Webserver/Tests.antt =====
-- Concrete runs of the threads and the cache of webserver/server_thread.c.
mod Exchange
use ece344lab.Common.{
  ℕ, ◌≤◌, ◌≡◌, ◌≢◌, refl, inl, Bool, [], ◌∷◌, ◌++◌, ◌==◌, if◌then◌else◌, arith, length,
}
use ece344lab.Common.Action.{ok, fault, pure}
use ece344lab.Webserver.Buffer.{
  put, distance, Caller, away, holding, ready, inside, Holder, World, none_waits, arrive,
  lock_caller, wait_full, enqueue, lock_worker, start, Reach, here, next,
}
use ece344lab.Webserver.Buffer.Ring.{waiting}
use ece344lab.Webserver.Buffer.Safety.{
  requests_in_order, mutual_exclusion, Goes, no_deadlock, Unused, nothing_accepted,
}
use ece344lab.Webserver.Cache.{
  FileData, entry, Hashtable, hash, update_lru, cache_init, cache_lookup, cache_insert,
  delete_entry, do_server_request,
}
use ece344lab.Webserver.Cache.Order.{unlink, update_lru-unlink}
use ece344lab.Webserver.Cache.Room.{init-IsSound}
use ece344lab.Webserver.Cache.Insert.{Caches, cache_insert-Caches}
use ece344lab.Webserver.Cache.Serve.{NextHits, do_server_request-hit}
use ece344lab.Webserver.Cache.Collision.{cache_lookup-delete_entry}

-- Two workers and room for one request: connection 7 is put, then worker 0 takes the lock.
abbrev asked : World
asked = record (start 1) { accepting = Caller.asking 7 }

abbrev held : World
held = record asked { accepting = holding 7; lock = Holder.caller }

abbrev put_7 : World
put_7 = record held {
  server = put 7 (start 1).server;
  lock = Holder.nobody;
  accepting = away;
  accepted = 7 ∷ [];
}

abbrev worker_in : World
worker_in = record put_7 { workers = λ j. if 0 == j then inside else ready; lock = Holder.worker 0 }

put_7-Reach : Reach 2 1 put_7
put_7-Reach =
    next (next (next here (arrive 7 refl refl)) (lock_caller 7 refl refl refl))
      (enqueue 7 (λ i. ready) refl refl (none_waits (λ i lt e. ground arith) refl) refl)

worker_in-Reach : Reach 2 1 worker_in
worker_in-Reach = next put_7-Reach (lock_worker 0 (omega arith) refl refl refl)

requests_in_order_example :
    (put_7.accepted
      ≡ put_7.taken ++ waiting put_7.server (length put_7.taken) (distance put_7.server))
    × (distance put_7.server ≤ 1)
    × (put_7.server.in_at ≤ 1)
    × (put_7.server.out_at ≤ 1)
requests_in_order_example = requests_in_order 2 1 put_7 (omega arith) put_7-Reach

mutual_exclusion_example :
    ((j : ℕ) → worker_in.workers j ≡ inside → ◌≡◌ {A = ℕ} 0 j)
    × ((c : ℕ) → worker_in.accepting ≢ holding c)
mutual_exclusion_example = mutual_exclusion 2 1 worker_in (omega arith) worker_in-Reach 0 refl

no_deadlock_example : Goes 2 put_7
no_deadlock_example =
    no_deadlock 2 1 put_7 (omega arith) (omega arith) put_7-Reach (inl (omega arith))

-- No room: connection 7 waits.
abbrev no_room : World
no_room = record (start 0) { accepting = Caller.blocked 7 }

no_room-Reach : Reach 2 0 no_room
no_room-Reach =
    next (next (next here (arrive 7 refl refl)) (lock_caller 7 refl refl refl))
      (wait_full 7 refl refl refl)

nothing_accepted_example : Unused no_room
nothing_accepted_example = nothing_accepted 2 no_room (omega arith) no_room-Reach

-- The file at address 1 is used again.
update_lru-unlink_example :
    update_lru 2 (1 ∷ (2 ∷ (3 ∷ []))) ≡ unlink 2 (1 ∷ (2 ∷ (3 ∷ []))) ++ (2 ∷ [])
update_lru-unlink_example = update_lru-unlink 2 (1 ∷ (2 ∷ (3 ∷ [])))

-- A file at each address, of that size, with the address for its name; address 5 has the name of 4.
abbrev files : ℕ → FileData
files a = record { file_name = (if a == 5 then 4 else a) ∷ []; file_size = a }

cache_insert-Caches_example :
    Caches files
      (cache_init 10)
      (init-IsSound files 10).room
      4
      (cache_insert files 4 (cache_init 10))
cache_insert-Caches_example = cache_insert-Caches files (cache_init 10) 4 (init-IsSound files 10) tt

do_server_request-hit_example :
    NextHits files 4 (do_server_request files 4 (pure tt) (cache_init 10))
do_server_request-hit_example =
    do_server_request-hit files (cache_init 10) 4 (init-IsSound files 10) tt (omega arith)

-- Addresses 4 and 5 are in one chain.
abbrev two_files : Hashtable
two_files = record (cache_init 10) { table = λ i. entry 4 ∷ (entry 5 ∷ []) }

cache_lookup-delete_entry_example :
    (t : Hashtable) × (delete_entry files 4 two_files ≡ ok tt t)
    × ((other : ℕ) (time : Bool)
        → hash (files other).file_name ≡ hash (files 4).file_name
        → cache_lookup files other time t ≡ fault)
cache_lookup-delete_entry_example = cache_lookup-delete_entry files two_files 4 5 [] refl
