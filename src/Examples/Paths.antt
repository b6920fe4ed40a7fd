-- ===== src/Examples/Paths.antt =====
-- A path of one move, the queue and the search of buckets at concrete values.
use libcuckoo_cxx.Base.{◌≡◌, refl, List, [], ◌∷◌, ◌++◌, true, false, Option, some, arith}
use libcuckoo_cxx.Bucket.{Slot, set_kv}
use libcuckoo_cxx.Construct.{allocate_buckets}
use libcuckoo_cxx.Cuckoo.Paths.{IsChain}
use libcuckoo_cxx.Cuckoo.Relocate.{Relocated, cuckoopath_move-Relocated}
use libcuckoo_cxx.Cuckoo.Search.{tree, slot_search_ends}
use libcuckoo_cxx.Cuckoo.{
  CuckooRecord, succeeded, no_hash, cuckoopath_move, move_loop, swap_valid, slot_search,
}
use libcuckoo_cxx.Examples.Tables.{one_pair, one_pair-IsValid}
use libcuckoo_cxx.Examples.{numbers, numbers-Laws}
use libcuckoo_cxx.Hash.Alternate.{alt_index_involutive}
use libcuckoo_cxx.Hash.Growth.{Grows, alt_index-Grows}
use libcuckoo_cxx.Hash.{partial_key, hashsize, hashmask, index_hash, alt_index}
use libcuckoo_cxx.Queue.Fifo.{IsQueue, items, new_queue-IsQueue, enqueue-items, dequeue-items}
use libcuckoo_cxx.Queue.{BSlot, BQueue, new_queue, enqueue, dequeue, empty, full, increment}
use libcuckoo_cxx.Table.{add_to_bucket, hashed_key, move_to_bucket}

abbrev path : List CuckooRecord
path =
    record { bucket = 0; slot = 0; hv = hashed_key 6 }
    ∷ record { bucket = 1; slot = 2; hv = no_hash }
    ∷ []

path-IsChain : IsChain 1 0 path
unfolding hashed_key partial_key alt_index hashmask hashsize
path-IsChain = (refl, omega arith, (refl, omega arith, tt))

cuckoopath_move-Relocated_example :
    Relocated 1 path 1 one_pair.buckets (cuckoopath_move path 1 one_pair.buckets)
unfolding add_to_bucket allocate_buckets
cuckoopath_move-Relocated_example =
    cuckoopath_move-Relocated numbers-Laws 0 path path-IsChain 1 one_pair.buckets
      one_pair-IsValid.placed (omega arith)

move_done : (cuckoopath_move path 1 one_pair.buckets).1 ≡ succeeded
unfolding cuckoopath_move move_loop swap_valid hashed_key move_to_bucket add_to_bucket
    allocate_buckets set_kv hashsize
move_done = refl

slot_search_ends_example : (r : Option BSlot) × (slot_search 683 1 one_pair.buckets 0 1 ≡ some r)
slot_search_ends_example = slot_search_ends 1 one_pair.buckets 683 0 1 (unfold tree in omega arith)

alt_index_involutive_example : alt_index 16 6 (alt_index 16 6 1000) ≡ 1000
alt_index_involutive_example =
    alt_index_involutive 16 6 1000 (omega arith) (unfold hashsize in omega arith)

alt_index-Grows_example :
    Grows 16 (alt_index 16 6 (index_hash 16 123456789)) (alt_index 17 6 (index_hash 17 123456789))
alt_index-Grows_example = alt_index-Grows 16 6 123456789 (omega arith)

abbrev item : BSlot
item = record { bucket = 3; pathcode = 1; depth = 2 }

abbrev one_item : BQueue
one_item = enqueue new_queue item

one_fits : full new_queue ≡ false
unfolding full new_queue increment
one_fits = refl

one_item-IsQueue : IsQueue one_item
one_item-IsQueue = (enqueue-items new_queue item new_queue-IsQueue.0 one_fits).0

enqueue-items_example : IsQueue one_item × (items one_item ≡ items new_queue ++ item ∷ [])
enqueue-items_example = enqueue-items new_queue item new_queue-IsQueue.0 one_fits

dequeue-items_example :
    IsQueue (dequeue one_item).1
    × (items one_item ≡ (dequeue one_item).0 ∷ items (dequeue one_item).1)
dequeue-items_example =
    dequeue-items one_item one_item-IsQueue (unfold empty enqueue new_queue increment in refl)

abbrev taken : Slot
taken = record { partial = 6; occupied = true; storage = some (6, 60) }
