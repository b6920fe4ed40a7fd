-- ===== src/Table.antt =====
-- The state of `cuckoohash_map` in libcuckoo/cuckoohash_map.hh and the functions that work while
-- the locks of both buckets are held: `cuckoo_find` to `cuckoo_loadfactor`, the counters, and the
-- public `find`, `contains`, `erase`, `update`, `update_fn`, `clear` and `size` that call them.
pub mod Valid
pub mod Counts
pub mod Lookup
pub mod Write
pub mod Erase
pub mod Update
pub mod Move
pub mod Insert
pub mod Clear
pub mod History
use libcuckoo_cxx.Base.{
  ℕ, ◌+◌, ◌-◌, ◌^◌, List, [], ◌∷◌, map, Bool, true, false, Option, none, some, get_or, set,
  replicate, ◌==◌, if◌then◌else◌,
}
use libcuckoo_cxx.Bucket
use libcuckoo_cxx.Bucket.Search.{
  try_read_from_bucket, check_in_bucket, try_del_from_bucket, try_update_bucket,
  try_update_bucket_fn,
}
use libcuckoo_cxx.Bucket.{Bucket}
use libcuckoo_cxx.Config.{u64, num_locks}
use libcuckoo_cxx.Hash.{partial_key, lock_ind, hashsize, index_hash, alt_index}
use libcuckoo_cxx.Params.{Params}
use Prim.Native.String.{String}

-- `cuckoo_status`
pub data Status : Type 0 where
  ok failure failure_key_not_found failure_key_duplicated : Status
  failure_table_full failure_under_expansion : Status

-- `hash_value`
pub record HashValue : Type 0 where
  pub hash : ℕ
  pub partial : ℕ

-- A read and then a store of an atomic 64-bit counter.
unfoldable pub nonatomic_inc : List ℕ → ℕ → List ℕ
nonatomic_inc elems l = set elems l (u64 (1 + get_or elems l 0))

unfoldable pub nonatomic_dec : List ℕ → ℕ → List ℕ
nonatomic_dec elems l = set elems l (u64 (2 ^ 64 - 1 + get_or elems l 0))

-- The loop of `cuckoo_size`.
unfoldable pub size_loop : List ℕ → ℕ → ℕ
size_loop [] size = size
size_loop (n ∷ elems) size = size_loop elems (u64 (size + n))

module _ ⦃P : Params⦄ where
  open P use {Key, Mapped, Double}

  -- `elems` holds `elems_in_buckets` of each lock. With the default granularity 0 the lock array
  -- is one segment of `num_locks` locks, allocated by the constructor.
  pub record Table : Type 0 where
    pub hashpower : ℕ
    pub buckets : List Bucket
    pub elems : List ℕ
    pub minimum_load_factor : Double
    pub maximum_hashpower : ℕ

  -- An exception that reaches the caller.
  pub data Exception : Type 0 where
    out_of_range invalid_argument runtime_error : Exception
    load_factor_too_low : Double → Exception
    maximum_hashpower_exceeded : ℕ → Exception

  -- `what`, `load_factor` and `hashpower` of the two classes of libcuckoo/cuckoohash_util.hh.
  unfoldable pub what : Exception → Option String
  what (load_factor_too_low _) =
      some "Automatic expansion triggered when load factor was below minimum threshold"
  what (maximum_hashpower_exceeded _) = some "Expansion beyond maximum hashpower"
  what _ = none

  unfoldable pub exception_load_factor : Exception → Option Double
  exception_load_factor (load_factor_too_low lf) = some lf
  exception_load_factor _ = none

  unfoldable pub exception_hashpower : Exception → Option ℕ
  exception_hashpower (maximum_hashpower_exceeded hp) = some hp
  exception_hashpower _ = none

  pub data Result (A : Type 0) : Type 0 where
    returned : A → Result A
    thrown : Exception → Result A

  unfoldable pub hashed_key : Key → HashValue
  hashed_key key = record { hash = P.hash key; partial = partial_key (P.hash key) }

  -- The bucket indices that `snapshot_and_lock_two` computes.
  abbrev pub first_bucket : ℕ → HashValue → ℕ
  first_bucket hp hv = index_hash hp hv.hash

  abbrev pub second_bucket : ℕ → HashValue → ℕ
  second_bucket hp hv = alt_index hp hv.partial (first_bucket hp hv)

  abbrev pub bucket : List Bucket → ℕ → Bucket
  bucket bs i = get_or bs i []

  -- `Bucket::move_to_bucket` on two buckets of the vector, which may be the same one. Its
  -- assertions are left to the callers; where no pair lives in the source slot nothing is moved.
  unfoldable pub move_to_bucket : List Bucket → ℕ → ℕ → ℕ → ℕ → List Bucket
  move_to_bucket bs i1 slot1 i2 slot2 = elim (Bucket.kvpair (bucket bs i1) slot1) [
    | none ↦ bs
    | some (k, v) ↦
        let p = Bucket.partial (bucket bs i1) slot1 in
        let bs' = set bs i2 (Bucket.set_kv (bucket bs i2) slot2 p k v) in
        set bs' i1 (Bucket.erase_kv (bucket bs' i1) slot1)
  ]

  unfoldable pub add_to_bucket : ℕ → Table → ℕ → ℕ → Key → Mapped → Table
  add_to_bucket p t bucket_ind slot key val = record t {
    buckets = set t.buckets bucket_ind (Bucket.set_kv (bucket t.buckets bucket_ind) slot p key val);
    elems = nonatomic_inc t.elems (lock_ind bucket_ind);
  }

  unfoldable pub cuckoo_find : Key → ℕ → List Bucket → ℕ → ℕ → Option Mapped
  cuckoo_find key p bs i1 i2 = elim (try_read_from_bucket p key (bucket bs i1)) [
    | some v ↦ some v
    | none ↦ try_read_from_bucket p key (bucket bs i2)
  ]

  unfoldable pub cuckoo_contains : Key → ℕ → List Bucket → ℕ → ℕ → Bool
  cuckoo_contains key p bs i1 i2 =
      if check_in_bucket p key (bucket bs i1) then true else check_in_bucket p key (bucket bs i2)

  -- `none` where the first bucket does not hold the key.
  unfoldable pub delete_at : Key → ℕ → Table → ℕ → Option Table
  delete_at key p t i = elim (try_del_from_bucket p key (bucket t.buckets i)) [
    | none ↦ none
    | some b ↦
        some (record t { buckets = set t.buckets i b; elems = nonatomic_dec t.elems (lock_ind i) })
  ]

  unfoldable pub cuckoo_delete : Key → ℕ → Table → ℕ → ℕ → Table × Status
  cuckoo_delete key p t i1 i2 = elim (delete_at key p t i1) [
    | some t' ↦ (t', ok)
    | none ↦ elim (delete_at key p t i2) [ some t' ↦ (t', ok) | none ↦ (t, failure_key_not_found) ]
  ]

  unfoldable pub cuckoo_update : ℕ → Table → ℕ → ℕ → Key → Mapped → Table × Status
  cuckoo_update p t i1 i2 key val = elim (try_update_bucket p (bucket t.buckets i1) key val) [
    | some b ↦ (record t { buckets = set t.buckets i1 b }, ok)
    | none ↦ elim (try_update_bucket p (bucket t.buckets i2) key val) [
      | some b ↦ (record t { buckets = set t.buckets i2 b }, ok)
      | none ↦ (t, failure_key_not_found)
    ]
  ]

  unfoldable pub cuckoo_update_fn : Key → (Mapped → Mapped) → ℕ → Table → ℕ → ℕ → Table × Status
  cuckoo_update_fn key fn p t i1 i2 = elim (try_update_bucket_fn p key fn (bucket t.buckets i1)) [
    | some b ↦ (record t { buckets = set t.buckets i1 b }, ok)
    | none ↦ elim (try_update_bucket_fn p key fn (bucket t.buckets i2)) [
      | some b ↦ (record t { buckets = set t.buckets i2 b }, ok)
      | none ↦ (t, failure_key_not_found)
    ]
  ]

  unfoldable pub cuckoo_clear : Table → Table
  cuckoo_clear t = record t { buckets = map Bucket.clear t.buckets; elems = map (λ _. 0) t.elems }

  unfoldable pub cuckoo_size : Table → ℕ
  cuckoo_size t = size_loop t.elems 0

  unfoldable pub cuckoo_loadfactor : Table → ℕ → Double
  cuckoo_loadfactor t hp =
      P.div (P.div (P.double (cuckoo_size t)) (P.double P.slot_per_bucket)) (P.double (hashsize hp))

  unfoldable pub bucket_count : Table → ℕ
  bucket_count t = hashsize t.hashpower

  unfoldable pub load_factor : Table → Double
  load_factor t = cuckoo_loadfactor t t.hashpower

  abbrev pub is_ok : Status → Bool
  is_ok ok = true
  is_ok _ = false

  unfoldable pub find : Table → Key → Option Mapped
  find t key =
      let hv = hashed_key key in
      let i1 = first_bucket t.hashpower hv in
      cuckoo_find key hv.partial t.buckets i1 (alt_index t.hashpower hv.partial i1)

  -- The version that returns the value.
  unfoldable pub find_or_throw : Table → Key → Result Mapped
  find_or_throw t key = elim (find t key) [ some v ↦ returned v | none ↦ thrown out_of_range ]

  unfoldable pub contains : Table → Key → Bool
  contains t key =
      let hv = hashed_key key in
      let i1 = first_bucket t.hashpower hv in
      cuckoo_contains key hv.partial t.buckets i1 (alt_index t.hashpower hv.partial i1)

  unfoldable pub erase : Table → Key → Table × Bool
  erase t key =
      let hv = hashed_key key in
      let i1 = first_bucket t.hashpower hv in
      let (t', st) = cuckoo_delete key hv.partial t i1 (alt_index t.hashpower hv.partial i1) in
      (t', is_ok st)

  unfoldable pub update : Table → Key → Mapped → Table × Bool
  update t key val =
      let hv = hashed_key key in
      let i1 = first_bucket t.hashpower hv in
      let (t', st) = cuckoo_update hv.partial t i1 (alt_index t.hashpower hv.partial i1) key val in
      (t', is_ok st)

  unfoldable pub update_fn : Table → Key → (Mapped → Mapped) → Table × Bool
  update_fn t key fn =
      let hv = hashed_key key in
      let i1 = first_bucket t.hashpower hv in
      let (t', st) =
        cuckoo_update_fn key fn hv.partial t i1 (alt_index t.hashpower hv.partial i1) in
      (t', is_ok st)

  unfoldable pub size : Table → ℕ
  size t = cuckoo_size t

  unfoldable pub empty : Table → Bool
  empty t = size t == 0
