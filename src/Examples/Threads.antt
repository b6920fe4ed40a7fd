-- ===== src/Examples/Threads.antt =====
-- Two threads: one reads in the buckets that the other one, which names them in opposite order,
-- changes.
use libcuckoo_cxx.Base.{false, ◌⊎◌, refl, List, [], ◌∷◌, map}
use libcuckoo_cxx.Hash.{lock_ind, index_hash, alt_index}
use libcuckoo_cxx.Locks.Calls.{two_buckets, events_two, events_of}
use libcuckoo_cxx.Locks.Order.{holds}
use libcuckoo_cxx.Locks.Shared.Readers.{AllExclude, readers_and_writers}
use libcuckoo_cxx.Locks.Shared.Waiting.{ModeAllDone, ModeCanMove}
use libcuckoo_cxx.Locks.Shared.{
  ModeCall, writes, reads, shared, exclusive, acquire, give, ModeThread, mode_thread_of,
  mode_events_of, mode_events_of_all, read_events, lock_two_shared, snapshot_and_lock_two_shared,
  ModeMoves, takes, begun, moved,
}
use libcuckoo_cxx.Locks.{lock_two, ordered, check_hashpower, release}

abbrev programs : List (List ModeCall)
programs =
    (reads ((4, 4) ∷ []) (record { hash = 7; partial = 1 }) ∷ [])
    ∷ (writes (two_buckets 4 4 13 7) ∷ [])
    ∷ []

abbrev reader_has_taken : List ModeThread
reader_has_taken =
    record { held = (shared, 7) ∷ []; todo = acquire shared 13 ∷ give 7 ∷ give 13 ∷ [] }
    ∷ record {
      held = [];
      todo = acquire exclusive 7 ∷ acquire exclusive 13 ∷ give 13 ∷ give 7 ∷ [];
    }
    ∷ []

reader_takes :
    ModeMoves false (map mode_thread_of programs) (map mode_thread_of programs) reader_has_taken
unfolding mode_events_of_all mode_events_of read_events snapshot_and_lock_two_shared lock_two_shared
    events_of events_two lock_two ordered check_hashpower release lock_ind index_hash alt_index
    holds
reader_takes = takes {m = shared} {l = 7} (refl, (refl, tt))

readers_and_writers_example :
    AllExclude reader_has_taken × (ModeAllDone reader_has_taken ⊎ ModeCanMove reader_has_taken)
readers_and_writers_example =
    readers_and_writers programs reader_has_taken (moved begun reader_takes)
