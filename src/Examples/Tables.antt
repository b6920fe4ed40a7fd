-- ===== src/Examples/Tables.antt =====
-- A table of two buckets that holds one pair, and what the operations do to it.
use libcuckoo_cxx.Base.{
  List, [], ◌∷◌, ℕ, ◌+◌, ◌<◌, ◌≡◌, ◌≢◌, ◌⊎◌, refl, inl, none, some, arith, length,
}
use libcuckoo_cxx.Bucket.{set_kv}
use libcuckoo_cxx.Construct.Fresh.{
  allocate_buckets-IsValid, allocate_buckets-find, IsRefused, Made, new-Made,
}
use libcuckoo_cxx.Construct.{blank, allocate_buckets, new}
use libcuckoo_cxx.Cuckoo.Insertion.{Inserted, cuckoo_insert_where_free}
use libcuckoo_cxx.Cuckoo.{cuckoo_insert}
use libcuckoo_cxx.Examples.{numbers, numbers-Laws}
use libcuckoo_cxx.Hash.{partial_key, hashsize, hashmask, index_hash}
use libcuckoo_cxx.Table.Clear.{Cleared, cuckoo_clear-Cleared}
use libcuckoo_cxx.Table.Counts.{IsValid}
use libcuckoo_cxx.Table.History.{
  Call, call_update, call_contains, call_erase, call_clear, perform_all, mean_all,
  perform_all-mean_all,
}
use libcuckoo_cxx.Table.Erase.{Erased, erase-Erased}
use libcuckoo_cxx.Table.Insert.{Added, add_to_bucket-Added}
use libcuckoo_cxx.Table.Lookup.{find-Reads}
use libcuckoo_cxx.Table.Update.{Changed, update_fn-Changed}
use libcuckoo_cxx.Table.Valid.{Reads, IsHome, home, other_home}
use libcuckoo_cxx.Table.{
  Table, Status, failure_table_full, hashed_key, bucket, invalid_argument, thrown, find, erase,
  update_fn, add_to_bucket, cuckoo_clear,
}

abbrev no_pairs : Table
no_pairs = allocate_buckets (blank (1, 20)) 1

abbrev tag_6 : ℕ
tag_6 = partial_key (numbers.hash 6)

abbrev pub one_pair : Table
one_pair = add_to_bucket tag_6 no_pairs 0 0 6 60

IsHome-6 : IsHome 1 6 0
unfolding index_hash hashmask hashsize
IsHome-6 = inl refl

two_buckets : 0 < length no_pairs.buckets
unfolding allocate_buckets hashsize
two_buckets = omega arith

four_slots : 0 < length (bucket no_pairs.buckets 0)
unfolding allocate_buckets hashsize
four_slots = omega arith

IsHome-9 : IsHome 1 9 1
unfolding index_hash hashmask hashsize
IsHome-9 = inl refl

no_pairs-IsValid : IsValid no_pairs
no_pairs-IsValid = allocate_buckets-IsValid (blank (1, 20)) 1 (omega arith)

no_pairs-find : find no_pairs 6 ≡ none
no_pairs-find = allocate_buckets-find numbers-Laws (blank (1, 20)) 1 6 (omega arith)

pub one_pair-IsValid : IsValid one_pair
unfolding allocate_buckets
one_pair-IsValid =
    (add_to_bucket-Added numbers-Laws no_pairs no_pairs-IsValid 6 60 no_pairs-find 0 0 two_buckets
      four_slots (unfold hashsize in refl) IsHome-6).valid

add_to_bucket-Added_example : Added no_pairs 6 60 one_pair
unfolding allocate_buckets
add_to_bucket-Added_example =
    add_to_bucket-Added numbers-Laws no_pairs no_pairs-IsValid 6 60 no_pairs-find 0 0 two_buckets
      four_slots (unfold hashsize in refl) IsHome-6

erase-Erased_example : Erased one_pair 6 (erase one_pair 6)
erase-Erased_example = erase-Erased numbers-Laws one_pair one_pair-IsValid 6

update_fn-Changed_example : Changed one_pair 6 (λ v. v + 1) (update_fn one_pair 6 (λ v. v + 1))
update_fn-Changed_example = update_fn-Changed numbers-Laws one_pair one_pair-IsValid 6 (λ v. v + 1)

find-Reads_example : Reads one_pair.buckets 6 (find one_pair 6)
find-Reads_example = find-Reads numbers-Laws one_pair one_pair-IsValid.placed 6

cuckoo_clear-Cleared_example : Cleared one_pair (cuckoo_clear one_pair)
cuckoo_clear-Cleared_example = cuckoo_clear-Cleared numbers-Laws one_pair one_pair-IsValid

new-Made_example :
    ((new 100 (1, 20) 0 ≡ some (thrown invalid_argument)) × IsRefused 100 (1, 20) 0)
    ⊎ Made 100 (1, 20) 0 (new 100 (1, 20) 0)
new-Made_example = new-Made numbers-Laws 100 (1, 20) 0 (omega arith)

cuckoo_insert_where_free_example :
    (r : Table × Status) × (cuckoo_insert 1 600
        (hashed_key 9)
        one_pair
        (home 1 9)
        (other_home 1 9)
        9
        90
      ≡ some r)
    × (r.1 ≢ failure_table_full)
    × Inserted one_pair 9 90 r
unfolding add_to_bucket allocate_buckets hashsize set_kv
cuckoo_insert_where_free_example =
    cuckoo_insert_where_free numbers-Laws one_pair one_pair-IsValid 9 90 1 600 1 1 IsHome-9
      (omega arith) refl

abbrev calls : List Call
calls = call_update 6 61 ∷ call_contains 9 ∷ call_erase 6 ∷ call_clear ∷ []

perform_all-mean_all_example :
    IsValid (perform_all calls one_pair).0
    × (find (perform_all calls one_pair).0 ≡ (mean_all calls (find one_pair)).0)
    × ((perform_all calls one_pair).1 ≡ (mean_all calls (find one_pair)).1)
perform_all-mean_all_example = perform_all-mean_all numbers-Laws calls one_pair one_pair-IsValid
