-- ===== src/Examples/Schedules.antt =====
-- Threads that run at the same time on one table.
use libcuckoo_cxx.Base.{ℕ, zero, suc, ◌≡◌, refl, List, [], ◌∷◌, map, Bool, true, false, arith}
use libcuckoo_cxx.Concurrent.Alone.Ends.{Inserts, insert_left_alone}
use libcuckoo_cxx.Cuckoo.Search.{tree}
use libcuckoo_cxx.Examples.Insertions.{codes_fit}
use libcuckoo_cxx.Concurrent.Disjoint.Commute.{sections_commute}
use libcuckoo_cxx.Concurrent.Disjoint.{Disjoint, table_of, rest_of}
use libcuckoo_cxx.Construct.{blank}
use libcuckoo_cxx.Hash.{lock_ind}
use libcuckoo_cxx.Table.{Table, first_bucket, second_bucket}
use libcuckoo_cxx.Concurrent.{Position, calling, locking, by_insert}
use libcuckoo_cxx.Concurrent.System.{started, run_schedule, run_worker, settle, assign_worker}
use libcuckoo_cxx.Concurrent.{
  run_section, start_of, locked, insert_locked, after_insert, job_request,
}
use libcuckoo_cxx.Construct.{allocate_buckets}
use libcuckoo_cxx.Examples.Growing.{limited, limited-IsValid, whole, whole-IsPartition}
use libcuckoo_cxx.Examples.{numbers, numbers-Laws}
use libcuckoo_cxx.Bucket.Search.{try_find_insert_bucket, find_insert_loop, hit}
use libcuckoo_cxx.Bucket.{set_kv}
use libcuckoo_cxx.Hash.{hashsize, hashmask, index_hash, alt_index, partial_key}
use libcuckoo_cxx.Insert.History.{Request, simple, ask_insert}
use libcuckoo_cxx.Table.History.{call_erase, call_contains}
use libcuckoo_cxx.Table.{Result, returned, add_to_bucket, hashed_key}

-- Two threads insert the same key, and one of them erases another one.
abbrev programs : ℕ → List Request
programs zero = ask_insert 9 90 ∷ simple (call_contains 6) ∷ []
programs (suc zero) = ask_insert 9 7 ∷ simple (call_erase 6) ∷ []
programs (suc (suc i)) = []

abbrev schedule : List ℕ
schedule = 0 ∷ 1 ∷ 1 ∷ 0 ∷ 1 ∷ 1 ∷ 0 ∷ 0 ∷ []

-- The second thread is first, so the first one finds the key.
first_answers :
    map {B = ℕ × Result Bool}
      (λ e. (e.thread, e.answer))
      (run_schedule whole 1 700 3 (0 ∷ 1 ∷ 1 ∷ 0 ∷ []) (started limited programs)).log
    ≡ (0, returned false) ∷ (1, returned true) ∷ []
unfolding run_schedule run_worker settle assign_worker run_section start_of locked insert_locked
    after_insert job_request add_to_bucket allocate_buckets try_find_insert_bucket find_insert_loop
    hit hashsize hashmask index_hash alt_index partial_key set_kv hashed_key
first_answers = refl

-- The second thread has made its insertion, and the first one has not begun.
insert_left_alone_example :
    Inserts whole 1 700 3 0 9 90
      (run_schedule whole 1 700 3 (1 ∷ 1 ∷ []) (started limited programs))
unfolding run_schedule run_worker settle assign_worker run_section start_of locked insert_locked
    after_insert job_request add_to_bucket allocate_buckets try_find_insert_bucket find_insert_loop
    hit hashsize hashmask index_hash alt_index partial_key set_kv hashed_key
insert_left_alone_example =
    insert_left_alone numbers-Laws whole whole-IsPartition refl codes_fit 0 700
      (unfold tree in omega arith) 3 programs limited (omega arith) (omega arith) limited-IsValid
      (omega arith) (1 ∷ 1 ∷ []) 0 9 90 (simple (call_contains 6) ∷ []) refl refl

-- A table of sixteen buckets that holds one pair.
abbrev sixteen : Table
sixteen = add_to_bucket (partial_key 6) (allocate_buckets (blank (1, 20)) 4) 6 0 6 60

abbrev erasing : Position
erasing = calling (call_erase 6)

abbrev inserting : Position
inserting = locking (record { caller = by_insert; key = 9; val = 90 })

homes_apart :
    Disjoint
      (first_bucket 4 (hashed_key 6))
      (second_bucket 4 (hashed_key 6))
      (first_bucket 4 (hashed_key 9))
      (second_bucket 4 (hashed_key 9))
unfolding hashsize hashmask index_hash alt_index partial_key hashed_key lock_ind
homes_apart true true = λ e. omega (arith, e)
homes_apart true false = λ e. omega (arith, e)
homes_apart false true = λ e. omega (arith, e)
homes_apart false false = λ e. omega (arith, e)

sections_commute_example :
    (table_of
        (run_section whole 1 700 3 erasing (table_of (run_section whole 1 700 3 inserting sixteen)))
      ≡ table_of (
          run_section whole 1 700 3 inserting
            (table_of (run_section whole 1 700 3 erasing sixteen))))
    × (rest_of (
          run_section whole 1 700 3 erasing
            (table_of (run_section whole 1 700 3 inserting sixteen)))
        ≡ rest_of (run_section whole 1 700 3 erasing sixteen))
    × (rest_of (
          run_section whole 1 700 3 inserting
            (table_of (run_section whole 1 700 3 erasing sixteen)))
        ≡ rest_of (run_section whole 1 700 3 inserting sixteen))
unfolding add_to_bucket allocate_buckets
sections_commute_example =
    sections_commute whole 1 700 3 erasing inserting 6 9 sixteen refl refl homes_apart
