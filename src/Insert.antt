-- ===== src/Insert.antt =====
-- The functions of libcuckoo/cuckoohash_map.hh that expand a table when they have to:
-- `cuckoo_fast_double`, `cuckoo_expand_simple`, `cuckoo_insert_loop`, and the public `insert`,
-- `upsert`, `rehash` and `reserve`.
pub mod Outcomes
pub mod Loop
pub mod Copied
pub mod Copy
pub mod Refill
pub mod Resize
pub mod Unlimited
pub mod Rehash
pub mod Factor
pub mod Upsert
pub mod History
use libcuckoo_cxx.Base.{
  ℕ, zero, suc, ◌+◌, ◌*◌, min, List, [], ◌∷◌, Bool, true, false, not, ◌&&◌, ◌||◌, Option, none,
  some, ltb, leb, ◌==◌, if◌then◌else◌, ◌-◌,
}
use libcuckoo_cxx.Bucket
use libcuckoo_cxx.Config.{u64, num_locks, no_maximum_hashpower}
use libcuckoo_cxx.Construct.{new, reserve_calc}
use libcuckoo_cxx.Cuckoo.{cuckoo_insert}
use libcuckoo_cxx.Expand.{double_buckets}
use libcuckoo_cxx.Hash.{hashsize}
use libcuckoo_cxx.Params.{Params}
use libcuckoo_cxx.Table.{
  Table, Status, ok, failure_key_duplicated, failure_table_full, failure_under_expansion, Exception,
  load_factor_too_low, maximum_hashpower_exceeded, Result, returned, thrown, HashValue, hashed_key,
  first_bucket, second_bucket, bucket, cuckoo_loadfactor, cuckoo_update_fn, is_ok,
}

module _ ⦃P : Params⦄ where
  open P use {Key, Mapped, slot_per_bucket}

  -- What a call leaves behind: the table, and its value or exception. The outer `none` means that
  -- fuel ran out, or stands for a shift by 64 or more, which C++ leaves undefined, or for
  -- pairs that have been moved from.
  abbrev pub Outcome : Type 0 → Type 0
  Outcome A = Option (Table × Result A)

  -- `hashpower` above the limit, where there is one.
  abbrev pub over_maximum : Table → ℕ → Bool
  over_maximum t new_hp =
      not (t.maximum_hashpower == no_maximum_hashpower) && ltb t.maximum_hashpower new_hp

  -- The answer of `rehash` and of `reserve`, from the one of `cuckoo_expand_simple`.
  abbrev pub changed_size : Outcome Status → Outcome Bool
  changed_size none = none
  changed_size (some (t, thrown e)) = some (t, thrown e)
  changed_size (some (t, returned st)) = some (t, returned (is_ok st))

  -- `parallel_for` of the TBB library is `split`: into which ranges, in which order of running, it
  -- splits the numbers below its argument. `retries` and `search_fuel` are the fuel of each
  -- `run_cuckoo` and of each search.
  module _ (split : ℕ → List (ℕ × ℕ)) (retries search_fuel : ℕ) where
    -- The slots of a bucket in `SimpleMoveBucketsFn`, with the insertion into the new map.
    unfoldable pub insert_slots :
        (Table → Key → Mapped → Outcome Bool) → Bucket.Bucket → Table → Outcome Unit
    insert_slots insert_into [] new_map = some (new_map, returned tt)
    insert_slots insert_into (x ∷ b) new_map = elim x.occupied [
      | false ↦ insert_slots insert_into b new_map
      | true ↦ elim x.storage [
        | none ↦ insert_slots insert_into b new_map
        | some (k, v) ↦ elim (insert_into new_map k v) [
          | none ↦ none
          | some (m, thrown e) ↦ some (m, thrown e)
          | some (m, returned _) ↦ insert_slots insert_into b m
        ]
      ]
    ]

    -- The loop of `SimpleMoveBucketsFn` over `left` buckets from `i` on.
    unfoldable pub insert_buckets :
        (Table → Key → Mapped → Outcome Bool) → List Bucket.Bucket → ℕ → ℕ → Table → Outcome Unit
    insert_buckets insert_into bs zero i new_map = some (new_map, returned tt)
    insert_buckets insert_into bs (suc left) i new_map =
        elim (insert_slots insert_into (bucket bs i) new_map) [
          | none ↦ none
          | some (m, thrown e) ↦ some (m, thrown e)
          | some (m, returned _) ↦ insert_buckets insert_into bs left (suc i) m
        ]

    unfoldable pub insert_ranges :
        (Table → Key → Mapped → Outcome Bool)
        → List Bucket.Bucket
        → List (ℕ × ℕ)
        → Table
        → Outcome Unit
    insert_ranges insert_into bs [] new_map = some (new_map, returned tt)
    insert_ranges insert_into bs ((start, end) ∷ ranges) new_map =
        elim (insert_buckets insert_into bs (end - start) start new_map) [
          | none ↦ none
          | some (m, thrown e) ↦ some (m, thrown e)
          | some (m, returned _) ↦ insert_ranges insert_into bs ranges m
        ]

    -- `insert_into` is `insert` on the new map. An exception that leaves it leaves the old table
    -- with some of its pairs moved out, which is no result here. The ranges run one after the
    -- other, in the order of `split`.
    unfoldable pub cuckoo_expand_simple :
        (Table → Key → Mapped → Outcome Bool) → Table → ℕ → Bool → Outcome Status
    cuckoo_expand_simple insert_into t new_hp is_expansion = elim (over_maximum t new_hp) [
      | true ↦ some (t, thrown (maximum_hashpower_exceeded new_hp))
      | false ↦
          let hp = t.hashpower in
          elim (is_expansion && leb new_hp hp || not is_expansion && leb hp new_hp) [
            | true ↦ some (t, returned failure_under_expansion)
            | false ↦ elim (ltb new_hp 64) [
              | false ↦ none
              | true ↦
                  elim (new (u64 (hashsize new_hp * slot_per_bucket)) (P.double 0)
                    no_maximum_hashpower) [
                      | none ↦ none
                      | some (thrown e) ↦ some (t, thrown e)
                      | some (returned empty_map) ↦
                          elim (insert_ranges insert_into t.buckets (split (hashsize hp))
                            empty_map) [
                              | none ↦ none
                              | some (m, thrown e) ↦ none
                              | some (m, returned _) ↦ some (
                                record t { buckets = m.buckets; hashpower = m.hashpower },
                                returned ok,
                              )
                            ]
                    ]
            ]
          ]
    ]

    unfoldable pub cuckoo_fast_double :
        (Table → Key → Mapped → Outcome Bool) → Table → ℕ → Outcome Status
    cuckoo_fast_double insert_into t current_hp = elim P.is_nothrow_move [
      | false ↦ cuckoo_expand_simple insert_into t (current_hp + 1) true
      | true ↦ elim (over_maximum t (current_hp + 1)) [
        | true ↦ some (t, thrown (maximum_hashpower_exceeded (current_hp + 1)))
        | false ↦ elim (t.hashpower == current_hp) [
          | false ↦ some (t, returned failure_under_expansion)
          | true ↦ elim (ltb (current_hp + 1) 64) [
            | false ↦ none
            | true ↦ some (
              double_buckets (split (min num_locks (hashsize current_hp))) current_hp t,
              returned ok,
            )
          ]
        ]
      ]
    ]

    -- `cuckoo_insert_loop`, with fuel for its rounds.
    unfoldable pub cuckoo_insert_loop : ℕ → HashValue → Table → Key → Mapped → Outcome Bool
    cuckoo_insert_loop zero hv t key val = none
    cuckoo_insert_loop (suc fuel) hv t key val =
        elim (cuckoo_insert retries search_fuel hv t (first_bucket t.hashpower hv)
          (second_bucket t.hashpower hv) key val) [
            | none ↦ none
            | some (t', ok) ↦ some (t', returned true)
            | some (t', failure_key_duplicated) ↦ some (t', returned false)
            | some (t', failure_table_full) ↦
                elim (P.lt (cuckoo_loadfactor t' t.hashpower) t'.minimum_load_factor) [
                  | true ↦ some (t', thrown (load_factor_too_low t'.minimum_load_factor))
                  | false ↦
                      elim (cuckoo_fast_double
                        (λ m k v. cuckoo_insert_loop fuel (hashed_key k) m k v) t' t.hashpower) [
                          | none ↦ none
                          | some (t'', thrown e) ↦ some (t'', thrown e)
                          | some (t'', returned _) ↦ cuckoo_insert_loop fuel hv t'' key val
                        ]
                ]
            | some (t', _) ↦ cuckoo_insert_loop fuel hv t' key val
          ]

    unfoldable pub insert : ℕ → Table → Key → Mapped → Outcome Bool
    insert fuel t key val = cuckoo_insert_loop fuel (hashed_key key) t key val

    -- The part of a round of `upsert` after the update has not found the key.
    unfoldable pub upsert_insert : ℕ → Table → HashValue → ℕ → Key → Mapped → Outcome Bool
    upsert_insert fuel t hv hp key val =
        elim (cuckoo_insert retries search_fuel hv t (first_bucket hp hv) (second_bucket hp hv) key
          val) [
            | none ↦ none
            | some (t', ok) ↦ some (t', returned false)
            | some (t', failure_table_full) ↦
                elim (cuckoo_fast_double (λ m k v. cuckoo_insert_loop fuel (hashed_key k) m k v) t'
                  hp) [
                    | none ↦ none
                    | some (t'', thrown e) ↦ some (t'', thrown e)
                    | some (t'', returned _) ↦ elim (cuckoo_insert_loop fuel hv t'' key val) [
                      | none ↦ none
                      | some (m, thrown e) ↦ some (m, thrown e)
                      | some (m, returned inserted) ↦ some (m, returned (not inserted))
                    ]
                  ]
            | some (t', _) ↦ some (t', returned true)
          ]

    -- One round of the loop of `upsert`. The result is true where the loop goes on.
    unfoldable pub upsert_round : ℕ → Table → Key → (Mapped → Mapped) → Mapped → Outcome Bool
    upsert_round fuel t key fn val =
        let hv = hashed_key key in
        let hp = t.hashpower in
        let (t', st) =
          cuckoo_update_fn key fn hv.partial t (first_bucket hp hv) (second_bucket hp hv) in
        elim (is_ok st) [
          | true ↦ some (t', returned false)
          | false ↦ upsert_insert fuel t' hv hp key val
        ]

    unfoldable pub upsert : ℕ → ℕ → Table → Key → (Mapped → Mapped) → Mapped → Outcome Unit
    upsert zero fuel t key fn val = none
    upsert (suc rounds) fuel t key fn val = elim (upsert_round fuel t key fn val) [
      | none ↦ none
      | some (t', thrown e) ↦ some (t', thrown e)
      | some (t', returned true) ↦ upsert rounds fuel t' key fn val
      | some (t', returned false) ↦ some (t', returned tt)
    ]

    unfoldable pub rehash : ℕ → Table → ℕ → Outcome Bool
    rehash fuel t n = elim (n == t.hashpower) [
      | true ↦ some (t, returned false)
      | false ↦ changed_size (cuckoo_expand_simple (insert fuel) t n (ltb t.hashpower n))
    ]

    unfoldable pub reserve : ℕ → Table → ℕ → Outcome Bool
    reserve fuel t n = elim (reserve_calc n) [ none ↦ none | some new_hp ↦ rehash fuel t new_hp ]
