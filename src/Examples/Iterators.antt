-- ===== src/Examples/Iterators.antt =====
-- Iterators over a locked table of two buckets.
use libcuckoo_cxx.Base.{◌<◌, ◌≡◌, refl, true, arith}
use libcuckoo_cxx.Bucket.{set_kv}
use libcuckoo_cxx.Construct.{allocate_buckets}
use libcuckoo_cxx.Examples.Tables.{one_pair, one_pair-IsValid}
use libcuckoo_cxx.Examples.{numbers, numbers-Laws}
use libcuckoo_cxx.Hash.{hashsize}
use libcuckoo_cxx.LockedTable.Back.{decrement-increment}
use libcuckoo_cxx.LockedTable.Traversal.{Visited, visit-pairs}
use libcuckoo_cxx.LockedTable.Store.{store_value-Changed}
use libcuckoo_cxx.Table.Update.{Changed}
use libcuckoo_cxx.LockedTable.{
  store_value, Iterator, lock_table, has_table_lock, increment, decrement,
}
use libcuckoo_cxx.Table.Counts.{used, used_slots}
use libcuckoo_cxx.Table.{Table, add_to_bucket, returned}

one_is_enough : used one_pair.buckets < 2
unfolding used used_slots add_to_bucket allocate_buckets set_kv hashsize
one_is_enough = omega arith

visit-pairs_example :
    Visited numbers-Laws one_pair.hashpower one_pair.buckets one_pair-IsValid.placed 2 one_is_enough
unfolding add_to_bucket allocate_buckets
visit-pairs_example =
    visit-pairs numbers-Laws one_pair.hashpower one_pair.buckets one_pair-IsValid.placed 2
      one_is_enough

decrement-increment_example :
    (next : Iterator) × (increment one_pair.buckets true (record { index = 0; slot = 0 })
      ≡ returned next)
    × (decrement one_pair.buckets true next ≡ returned (record { index = 0; slot = 0 }))
unfolding add_to_bucket allocate_buckets set_kv hashsize
decrement-increment_example =
    decrement-increment one_pair.buckets 0 0 (omega arith) (omega arith) refl

locked : has_table_lock lock_table.0 true ≡ true
unfolding has_table_lock lock_table
locked = refl

store_value-Changed_example :
    (t' : Table) × (store_value one_pair.buckets true (record { index = 0; slot = 0 }) 61
      ≡ returned t'.buckets)
    × Changed one_pair 6 (λ _. 61) (t', true)
store_value-Changed_example =
    store_value-Changed numbers-Laws one_pair one_pair-IsValid (record { index = 0; slot = 0 }) 6 60
      61 (unfold add_to_bucket allocate_buckets set_kv hashsize in refl)
