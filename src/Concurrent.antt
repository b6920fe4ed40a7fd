-- ===== src/Concurrent.antt =====
-- The calls of libcuckoo/cuckoohash_map.hh cut into the sections that a thread runs while it holds
-- its locks: `insert` and `upsert` with `cuckoo_insert_loop`, `cuckoo_insert`, `run_cuckoo`,
-- `slot_search`, `cuckoopath_search` and `cuckoopath_move`, which give their locks back between one
-- section and the next. A section is one step from a position and a table. Every call of
-- `lock_one`, `lock_two` and `lock_three` looks at the hashpower again; where it has changed,
-- `run_cuckoo` catches `hashpower_changed` and returns `failure_under_expansion`.
pub mod System
pub mod Stand
pub mod Meaning
pub mod Locked
pub mod Sections
pub mod Sound
pub mod Linear
pub mod Disjoint
pub mod Alone
use libcuckoo_cxx.Base.{
  ℕ, zero, suc, ◌+◌, ◌-◌, ◌*◌, ◌%◌, List, [], ◌∷◌, ◌++◌, Bool, true, false, not, ◌||◌, Option, none,
  some, get_or, length, ltb, ◌==◌, if◌then◌else◌,
}
use libcuckoo_cxx.Bucket
use libcuckoo_cxx.Bucket.Search.{try_find_insert_bucket}
use libcuckoo_cxx.Config.{u64, max_bfs_path_len}
use libcuckoo_cxx.Cuckoo.{
  CuckooRecord, succeeded, invalidated, destroyed, no_hash, no_record, freed, decode, swap_valid,
  finish_insert,
}
use libcuckoo_cxx.Hash.{hashsize, alt_index}
use libcuckoo_cxx.Insert.History.{Request, simple, ask_insert, ask_upsert}
use libcuckoo_cxx.Insert.{insert, cuckoo_fast_double}
use libcuckoo_cxx.Params.{Params}
use libcuckoo_cxx.Queue.{BSlot, BQueue, no_slot, new_queue, enqueue, dequeue, empty, full}
use libcuckoo_cxx.Table.History.{Call, perform}
use libcuckoo_cxx.Table.{
  Table, Status, ok, failure_key_duplicated, failure_table_full, failure_under_expansion,
  load_factor_too_low, Result, returned, thrown, hashed_key, first_bucket, second_bucket, bucket,
  move_to_bucket, add_to_bucket, cuckoo_update_fn, is_ok,
}

module _ ⦃P : Params⦄ where
  open P use {Key, Mapped, slot_per_bucket}

  -- Who has called `cuckoo_insert`: the loop under `insert`, `upsert` itself, or the loop that
  -- `upsert` runs after it has found the table full.
  pub data Caller : Type 0 where
    by_insert : Caller
    by_upsert by_upsert_loop : (Mapped → Mapped) → Caller

  pub record Job : Type 0 where
    pub caller : Caller
    pub key : Key
    pub val : Mapped

  -- Where a thread stands between two of its sections.
  pub data Position : Type 0 where
    -- any call but `insert` and `upsert`
    calling : Call → Position
    -- before `snapshot_and_lock_two`
    locking : Job → Position
    -- in `slot_search`, with this many slots of the bucket of `x` to go
    scanning : Job → ℕ → BQueue → BSlot → ℕ → ℕ → Position
    -- in `cuckoopath_search`: the records so far, the next bucket, and the slots to come
    recording : Job → ℕ → List CuckooRecord → ℕ → List ℕ → Position
    -- in `cuckoopath_move`, with this many swaps to go
    moving : Job → ℕ → List CuckooRecord → ℕ → Position
    -- in `cuckoo_size`: the next lock, and the sum so far
    counting : Job → ℕ → ℕ → ℕ → Position
    -- before `cuckoo_fast_double`
    doubling : Job → ℕ → Position
    -- behind the hash of a key that another thread has moved away, which C++ leaves undefined
    emptied : Request → Position
    -- behind an operation that C++ leaves undefined, or out of fuel
    undefined : Request → Position

  -- A section ends at another position, or the call returns or throws.
  pub data Advance : Type 0 where
    goes : Table → Position → Advance
    answers : Table → Result Bool → Advance

  unfoldable pub job_request : Caller → Key → Mapped → Request
  job_request by_insert key val = ask_insert key val
  job_request (by_upsert fn) key val = ask_upsert key fn val
  job_request (by_upsert_loop fn) key val = ask_upsert key fn val

  abbrev pub asked : Job → Request
  asked job = job_request job.caller job.key job.val

  abbrev pub request_at : Position → Request
  request_at (calling c) = simple c
  request_at (locking job) = asked job
  request_at (scanning job hp q x left i) = asked job
  request_at (recording job hp path b slots) = asked job
  request_at (moving job hp path depth) = asked job
  request_at (counting job hp i size) = asked job
  request_at (doubling job hp) = asked job
  request_at (emptied r) = r
  request_at (undefined r) = r

  unfoldable pub start_of : Request → Position
  start_of (simple c) = calling c
  start_of (ask_insert k v) = locking (record { caller = by_insert; key = k; val = v })
  start_of (ask_upsert k f v) = locking (record { caller = by_upsert f; key = k; val = v })

  -- The two buckets that the thread has locked, or has to lock again.
  abbrev pub first_of : Job → ℕ → ℕ
  first_of job hp = first_bucket hp (hashed_key job.key)

  abbrev pub second_of : Job → ℕ → ℕ
  second_of job hp = second_bucket hp (hashed_key job.key)

  -- What the caller does with the status that `cuckoo_insert` returns.
  unfoldable pub after_insert : Job → ℕ → Table × Status → Advance
  after_insert job hp (t, ok) = answers t (returned true)
  after_insert job hp (t, failure_key_duplicated) = elim job.caller [
    | by_insert ↦ answers t (returned false)
    | by_upsert fn ↦ goes t (locking job)
    | by_upsert_loop fn ↦ goes t (locking (record job { caller = by_upsert fn }))
  ]
  after_insert job hp (t, failure_table_full) = elim job.caller [
    | by_insert ↦ goes t (counting job hp 0 0)
    | by_upsert fn ↦ goes t (doubling job hp)
    | by_upsert_loop fn ↦ goes t (counting job hp 0 0)
  ]
  after_insert job hp (t, _) = goes t (locking job)

  -- The start of `slot_search`: no bucket is being scanned yet.
  abbrev pub searching : Job → ℕ → Position
  searching job hp =
      scanning job hp
        (enqueue (enqueue new_queue (record { bucket = first_of job hp; pathcode = 0; depth = 0 }))
          (record { bucket = second_of job hp; pathcode = 1; depth = 0 }))
        no_slot 0 0

  -- `cuckoo_insert` up to `run_cuckoo`, with both buckets locked.
  unfoldable pub insert_locked : Job → Table → Advance
  insert_locked job t =
      let hp = t.hashpower in
      let hv = hashed_key job.key in
      let i1 = first_of job hp in
      let i2 = second_of job hp in
      elim (try_find_insert_bucket hv.partial job.key (bucket t.buckets i1)) [
        | none ↦ after_insert job hp (t, failure_key_duplicated)
        | some res1 ↦ elim (try_find_insert_bucket hv.partial job.key (bucket t.buckets i2)) [
          | none ↦ after_insert job hp (t, failure_key_duplicated)
          | some res2 ↦ elim res1 [
            | some s ↦ after_insert job hp (add_to_bucket hv.partial t i1 s job.key job.val, ok)
            | none ↦ elim res2 [
              | some s ↦ after_insert job hp (add_to_bucket hv.partial t i2 s job.key job.val, ok)
              | none ↦ goes t (searching job hp)
            ]
          ]
        ]
      ]

  -- `upsert` updates first, under the same locks.
  unfoldable pub locked : Caller → Job → Table → Advance
  locked by_insert job t = insert_locked job t
  locked (by_upsert_loop fn) job t = insert_locked job t
  locked (by_upsert fn) job t =
      let hp = t.hashpower in
      let hv = hashed_key job.key in
      let (t', st) =
        cuckoo_update_fn job.key fn hv.partial t (first_of job hp) (second_of job hp) in
      elim (is_ok st) [ true ↦ answers t' (returned true) | false ↦ insert_locked job t' ]

  -- `check_hashpower` under the first lock of `lock_one`, `lock_two` and `lock_three`: the
  -- section runs only where the hashpower is still the one that the thread knows.
  unfoldable pub unless_expanded : Job → ℕ → Table → Advance → Advance
  unless_expanded job hp t section = elim (t.hashpower == hp) [
    | true ↦ section
    | false ↦ after_insert job hp (t, failure_under_expansion)
  ]

  -- One slot of the inner loop of `slot_search`, or the next round of its outer loop.
  unfoldable pub scan_one : Job → ℕ → BQueue → BSlot → ℕ → ℕ → Table → Advance
  scan_one job hp q x zero i t = elim (full q || empty q) [
    | true ↦ after_insert job hp (t, failure_table_full)
    | false ↦ let (x', q') = dequeue q in goes t (scanning job hp q' x' slot_per_bucket 0)
  ]
  scan_one job hp q x (suc left) i t = elim (full q) [
    | true ↦ goes t (scanning job hp q x 0 i)
    | false ↦
        let slot = (x.pathcode % slot_per_bucket + i) % slot_per_bucket in
        let b = bucket t.buckets x.bucket in
        let code = u64 (x.pathcode * slot_per_bucket + slot) in
        let y : BSlot = record {
          bucket = alt_index hp (Bucket.partial b slot) x.bucket;
          pathcode = code;
          depth = x.depth + 1;
        } in
        let q' = if ltb x.depth (max_bfs_path_len - 1) then enqueue q y else q in
        let (slots, rest) = decode (x.depth + 1) code [] in
        unless_expanded job hp t (
          if Bucket.occupied b slot
          then goes t (scanning job hp q' x left (i + 1))
          else goes t
              (recording job hp [] (if rest == 0 then first_of job hp else second_of job hp) slots))
  ]

  -- The depth that `cuckoopath_search` returns is the index of the last record.
  abbrev pub moving_along : Job → ℕ → List CuckooRecord → Position
  moving_along job hp path = moving job hp path (length path - 1)

  -- One record of `cuckoopath_search`.
  unfoldable pub record_one : Job → ℕ → List CuckooRecord → ℕ → List ℕ → Table → Advance
  record_one job hp path b [] t = goes t (moving_along job hp path)
  record_one job hp path b (s ∷ slots) t =
      unless_expanded job hp t (elim (Bucket.occupied (bucket t.buckets b) s) [
        | false ↦
            goes t
              (moving_along job hp (path ++ record { bucket = b; slot = s; hv = no_hash } ∷ []))
        | true ↦ elim (Bucket.kvpair (bucket t.buckets b) s) [
          | none ↦ goes t (undefined (asked job))
          | some (k, v) ↦
              let hv = hashed_key k in
              goes t (
                recording job hp (path ++ record { bucket = b; slot = s; hv = hv } ∷ [])
                  (alt_index hp hv.partial b) slots)
        ]
      ])

  -- `cuckoo_insert` after a `run_cuckoo` that has freed a slot and holds both buckets again.
  abbrev pub insert_freed : Job → ℕ → Table → CuckooRecord → Advance
  insert_freed job hp t first = after_insert job hp (
      finish_insert (hashed_key job.key) t (first_of job hp) (second_of job hp) job.key job.val
        (freed t.buckets first.bucket first.slot))

  -- After a swap with `depth` more to go. The last one keeps the locks of both buckets.
  unfoldable pub after_swap : Job → ℕ → List CuckooRecord → ℕ → Table → Advance
  after_swap job hp path zero t = insert_freed job hp t (get_or path 0 no_record)
  after_swap job hp path (suc depth) t = goes t (moving job hp path (suc depth))

  -- One round of `cuckoopath_move`. Where another thread has emptied the source slot the thread
  -- hashes a key that has been destroyed.
  unfoldable pub move_one : Job → ℕ → List CuckooRecord → ℕ → Table → Advance
  move_one job hp path zero t =
      let first = get_or path 0 no_record in
      unless_expanded job hp t (
        if Bucket.occupied (bucket t.buckets first.bucket) first.slot
        then goes t (searching job hp)
        else insert_freed job hp t first)
  move_one job hp path (suc depth) t =
      let from = get_or path depth no_record in
      let to = get_or path (suc depth) no_record in
      let moved : Table = record t {
        buckets = move_to_bucket t.buckets from.bucket from.slot to.bucket to.slot;
      } in
      unless_expanded job hp t (elim (swap_valid t.buckets from to) [
        | succeeded ↦ after_swap job hp path depth moved
        | invalidated ↦ goes t (searching job hp)
        | destroyed ↦ goes t (emptied (asked job))
      ])

  -- One counter of `cuckoo_size`, read without a lock, or the test of the load factor.
  unfoldable pub count_one : Job → ℕ → ℕ → ℕ → Table → Advance
  count_one job hp i size t = elim (ltb i (length t.elems)) [
    | true ↦ goes t (counting job hp (i + 1) (u64 (size + get_or t.elems i 0)))
    | false ↦
        let lf =
          P.div (P.div (P.double size) (P.double slot_per_bucket)) (P.double (hashsize hp)) in
        elim (P.lt lf t.minimum_load_factor) [
          | true ↦ answers t (thrown (load_factor_too_low t.minimum_load_factor))
          | false ↦ goes t (doubling job hp)
        ]
  ]

  -- `upsert` goes on with the loop, the loop with its next round.
  unfoldable pub after_double : Caller → Caller
  after_double by_insert = by_insert
  after_double (by_upsert fn) = by_upsert_loop fn
  after_double (by_upsert_loop fn) = by_upsert_loop fn

  -- The parameters of `cuckoo_fast_double`, with the fuel for the map that a slow expansion fills.
  module _ (split : ℕ → List (ℕ × ℕ)) (retries search_fuel fuel : ℕ) where
    unfoldable pub double_one : Job → ℕ → Table → Advance
    double_one job hp t =
        elim (cuckoo_fast_double split retries search_fuel (insert split retries search_fuel fuel) t
          hp) [
            | none ↦ goes t (undefined (asked job))
            | some (t', thrown e) ↦ answers t' (thrown e)
            | some (t', returned _) ↦
                goes t' (locking (record job { caller = after_double job.caller }))
          ]

    unfoldable pub run_section : Position → Table → Advance
    run_section (calling c) t = let (t', b) = perform c t in answers t' (returned b)
    run_section (locking job) t = locked job.caller job t
    run_section (scanning job hp q x left i) t = scan_one job hp q x left i t
    run_section (recording job hp path b slots) t = record_one job hp path b slots t
    run_section (moving job hp path depth) t = move_one job hp path depth t
    run_section (counting job hp i size) t = count_one job hp i size t
    run_section (doubling job hp) t = double_one job hp t
    run_section (emptied r) t = goes t (emptied r)
    run_section (undefined r) t = goes t (undefined r)
