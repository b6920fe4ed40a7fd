-- ===== src/Examples/Insertions.antt =====
-- The search for a path, the move along it and whole insertions at concrete values.
use libcuckoo_cxx.Base.{◌-◌, ◌≡◌, refl, List, [], ◌∷◌, some, arith, length}
use libcuckoo_cxx.Bucket.{set_kv}
use libcuckoo_cxx.Construct.{allocate_buckets}
use libcuckoo_cxx.Cuckoo.Bfs.{slot_search-Ends}
use libcuckoo_cxx.Cuckoo.Inner.{CodesFit, Ends}
use libcuckoo_cxx.Cuckoo.Insertion.{Inserted}
use libcuckoo_cxx.Cuckoo.Search.{tree}
use libcuckoo_cxx.Cuckoo.Total.{cuckoopath_search_then_move, cuckoo_insert_total}
use libcuckoo_cxx.Cuckoo.{
  CuckooRecord, succeeded, cuckoo_insert, slot_search, search_loop, scan, cuckoopath_search,
  cuckoopath_move, decode, walk,
}
use libcuckoo_cxx.Examples.Tables.{one_pair, one_pair-IsValid}
use libcuckoo_cxx.Examples.{numbers, numbers-Laws}
use libcuckoo_cxx.Hash.{hashsize}
use libcuckoo_cxx.Queue.{BSlot, new_queue, enqueue, dequeue, empty, full, increment}
use libcuckoo_cxx.Table.Valid.{home, other_home}
use libcuckoo_cxx.Table.{Table, Status, add_to_bucket, hashed_key}

pub codes_fit : CodesFit
codes_fit = omega arith

abbrev second_slot : BSlot
second_slot = record { bucket = 0; pathcode = 1; depth = 0 }

abbrev direct_path : List CuckooRecord
direct_path = record { bucket = 0; slot = 1; hv = record { hash = 0; partial = 0 } } ∷ []

search_finds : slot_search 700 1 one_pair.buckets 0 1 ≡ some (some second_slot)
unfolding slot_search search_loop scan add_to_bucket allocate_buckets set_kv hashsize new_queue
    enqueue dequeue empty full increment
search_finds = refl

path_found : cuckoopath_search 700 1 one_pair.buckets 0 1 ≡ some (some direct_path)
unfolding cuckoopath_search decode walk slot_search search_loop scan add_to_bucket allocate_buckets
    set_kv hashsize new_queue enqueue dequeue empty full increment
path_found = refl

slot_search-Ends_example : Ends 1 one_pair.buckets 0 1 second_slot
slot_search-Ends_example =
    slot_search-Ends numbers-Laws codes_fit 1 one_pair.buckets 0 1 700 second_slot search_finds

cuckoopath_search_then_move_example :
    (cuckoopath_move direct_path (length direct_path - 1) one_pair.buckets).1 ≡ succeeded
unfolding add_to_bucket allocate_buckets
cuckoopath_search_then_move_example =
    cuckoopath_search_then_move numbers-Laws codes_fit 0 700 (unfold tree in omega arith) 1 0 1
      one_pair.buckets one_pair-IsValid.placed direct_path path_found

cuckoo_insert_total_example :
    (r : Table × Status) × (cuckoo_insert 1 700
        (hashed_key 9)
        one_pair
        (home 1 9)
        (other_home 1 9)
        9
        90
      ≡ some r)
    × Inserted one_pair 9 90 r
unfolding add_to_bucket allocate_buckets
cuckoo_insert_total_example =
    cuckoo_insert_total numbers-Laws codes_fit 0 700 (unfold tree in omega arith) one_pair
      one_pair-IsValid 9 90
