-- ===== src/Cuckoo.antt =====
-- Cuckoo hashing in libcuckoo/cuckoohash_map.hh: `slot_search`, `cuckoopath_search`,
-- `cuckoopath_move`, `run_cuckoo` and `cuckoo_insert`, run by one thread: what a lock guards is
-- not changed by others, so `hashpower_changed` is never thrown and
-- `failure_under_expansion` is not returned.
pub mod Place
pub mod Trail
pub mod Inner
pub mod Bfs
pub mod Decode
pub mod Paths
pub mod Search
pub mod Relocate
pub mod Success
pub mod Insertion
pub mod Total
use libcuckoo_cxx.Base.{
  ℕ, zero, suc, ◌+◌, ◌-◌, ◌*◌, ◌/◌, ◌%◌, List, [], ◌∷◌, ◌++◌, Bool, true, false, not, ◌||◌, ◌&&◌,
  ◌≡◌, refl, ◌⊎◌, inl, inr, Option, none, some, get_or, length, ltb, ◌==◌, if◌then◌else◌,
}
use libcuckoo_cxx.Bucket
use libcuckoo_cxx.Bucket.Search.{try_find_insert_bucket}
use libcuckoo_cxx.Bucket.{Bucket}
use libcuckoo_cxx.Config.{u64, max_bfs_path_len}
use libcuckoo_cxx.Hash.{alt_index}
use libcuckoo_cxx.Params.{Params}
use libcuckoo_cxx.Queue.{BSlot, BQueue, new_queue, enqueue, dequeue, empty, full}
use libcuckoo_cxx.Table.{
  Table, Status, ok, failure, failure_key_duplicated, failure_table_full, HashValue, hashed_key,
  bucket, move_to_bucket, add_to_bucket, cuckoo_contains,
}

-- `CuckooRecord`: the hash value is written only where the slot was occupied.
pub record CuckooRecord : Type 0 where
  pub bucket : ℕ
  pub slot : ℕ
  pub hv : HashValue

abbrev pub no_hash : HashValue
no_hash = record { hash = 0; partial = 0 }

abbrev pub no_record : CuckooRecord
no_record = record { bucket = 0; slot = 0; hv = no_hash }

-- The two ways out of the inner loop of `slot_search`.
pub data Scan : Type 0 where
  found : BSlot → Scan
  continue : BQueue → Scan

-- The state after `run_cuckoo`: where a slot was freed, or the failure.
pub data Freed (A : Type 0) : Type 0 where
  freed : A → ℕ → ℕ → Freed A
  full_table : A → Freed A

-- How a swap of `cuckoopath_move` ends: it is made, it is given up, or the key that it hashes has
-- been destroyed, which C++ leaves undefined.
pub data Attempt : Type 0 where
  succeeded invalidated destroyed : Attempt

pub Attempt-cases : (a : Attempt) → (a ≡ succeeded) ⊎ ((a ≡ invalidated) ⊎ (a ≡ destroyed))
Attempt-cases succeeded = inl refl
Attempt-cases invalidated = inr (inl refl)
Attempt-cases destroyed = inr (inr refl)

module _ ⦃P : Params⦄ where
  open P use {Key, Mapped, slot_per_bucket}

  -- The inner loop of `slot_search`, with `left` slots of the bucket of `x` to go.
  unfoldable pub scan : ℕ → List Bucket → BSlot → ℕ → ℕ → BQueue → Scan
  scan hp bs x zero i q = continue q
  scan hp bs x (suc left) i q =
      let slot = (x.pathcode % slot_per_bucket + i) % slot_per_bucket in
      let b = bucket bs x.bucket in
      let code = u64 (x.pathcode * slot_per_bucket + slot) in
      let y : BSlot = record {
        bucket = alt_index hp (Bucket.partial b slot) x.bucket;
        pathcode = code;
        depth = x.depth + 1;
      } in
      let q' = if ltb x.depth (max_bfs_path_len - 1) then enqueue q y else q in
      let rest = scan hp bs x left (i + 1) q' in
      if full q
      then continue q
      else if not (Bucket.occupied b slot)
      then found (record x { pathcode = code })
      else rest

  -- The outer loop. The outer `none` means that the fuel ran out, the inner one is the depth -1.
  unfoldable pub search_loop : ℕ → ℕ → List Bucket → BQueue → Option (Option BSlot)
  search_loop zero hp bs q = none
  search_loop (suc fuel) hp bs q = elim (full q || empty q) [
    | true ↦ some none
    | false ↦
        let (x, q') = dequeue q in
        elim (scan hp bs x slot_per_bucket 0 q') [
          | found y ↦ some (some y)
          | continue q'' ↦ search_loop fuel hp bs q''
        ]
  ]

  unfoldable pub slot_search : ℕ → ℕ → List Bucket → ℕ → ℕ → Option (Option BSlot)
  slot_search fuel hp bs i1 i2 = search_loop fuel hp bs (
      enqueue (enqueue new_queue (record { bucket = i1; pathcode = 0; depth = 0 }))
        (record { bucket = i2; pathcode = 1; depth = 0 }))

  -- The slots of the path, from the last one back to the first, and what is left of the code.
  unfoldable pub decode : ℕ → ℕ → List ℕ → List ℕ × ℕ
  decode zero code slots = (slots, code)
  decode (suc n) code slots = decode n (code / slot_per_bucket) (code % slot_per_bucket ∷ slots)

  -- The path, bucket by bucket; it ends early at an empty slot.
  unfoldable pub walk : ℕ → List Bucket → ℕ → List ℕ → List CuckooRecord
  walk hp bs b [] = []
  walk hp bs b (s ∷ slots) = elim (Bucket.occupied (bucket bs b) s) [
    | false ↦ record { bucket = b; slot = s; hv = no_hash } ∷ []
    | true ↦ elim (Bucket.kvpair (bucket bs b) s) [
      | none ↦ []
      | some (k, v) ↦
          let hv = hashed_key k in
          record { bucket = b; slot = s; hv = hv } ∷ walk hp bs (alt_index hp hv.partial b) slots
    ]
  ]

  -- The records filled in, at indices 0 to the depth that is returned.
  unfoldable pub cuckoopath_search :
      ℕ → ℕ → List Bucket → ℕ → ℕ → Option (Option (List CuckooRecord))
  cuckoopath_search fuel hp bs i1 i2 = elim (slot_search fuel hp bs i1 i2) [
    | none ↦ none
    | some none ↦ some none
    | some (some x) ↦
        let (slots, code) = decode (x.depth + 1) x.pathcode [] in
        some (some (walk hp bs (if code == 0 then i1 else i2) slots))
  ]

  -- The check before a swap: the key still hashes as recorded, the target is empty, the source
  -- is occupied. The key is hashed first, whether or not there is one in the slot.
  unfoldable pub swap_valid : List Bucket → CuckooRecord → CuckooRecord → Attempt
  swap_valid bs from to = elim (Bucket.kvpair (bucket bs from.bucket) from.slot) [
    | none ↦ destroyed
    | some (k, v) ↦
        if not (P.hash k == from.hv.hash)
          || Bucket.occupied (bucket bs to.bucket) to.slot
          || not (Bucket.occupied (bucket bs from.bucket) from.slot)
        then invalidated
        else succeeded
  ]

  -- The loop of `cuckoopath_move`, with `depth` swaps to go.
  unfoldable pub move_loop : List CuckooRecord → ℕ → List Bucket → List Bucket × Attempt
  move_loop path zero bs = (bs, succeeded)
  move_loop path (suc depth) bs =
      let from = get_or path depth no_record in
      let to = get_or path (suc depth) no_record in
      let rest = move_loop path depth (move_to_bucket bs from.bucket from.slot to.bucket to.slot) in
      elim (swap_valid bs from to) [
        | succeeded ↦ rest
        | invalidated ↦ (bs, invalidated)
        | destroyed ↦ (bs, destroyed)
      ]

  unfoldable pub cuckoopath_move : List CuckooRecord → ℕ → List Bucket → List Bucket × Attempt
  cuckoopath_move path zero bs =
      let first = get_or path 0 no_record in
      (bs, if Bucket.occupied (bucket bs first.bucket) first.slot then invalidated else succeeded)
  cuckoopath_move path (suc depth) bs = move_loop path (suc depth) bs

  -- The loop of `run_cuckoo`, with fuel for the retries and fuel for each search. The result
  -- `none` is also that of undefined behaviour.
  unfoldable pub run_cuckoo : ℕ → ℕ → ℕ → List Bucket → ℕ → ℕ → Option (Freed (List Bucket))
  run_cuckoo zero search_fuel hp bs i1 i2 = none
  run_cuckoo (suc fuel) search_fuel hp bs i1 i2 = elim (cuckoopath_search search_fuel hp bs i1 i2) [
    | none ↦ none
    | some none ↦ some (full_table bs)
    | some (some path) ↦
        let first = get_or path 0 no_record in
        let (bs', attempt) = cuckoopath_move path (length path - 1) bs in
        elim attempt [
          | succeeded ↦ some (freed bs' first.bucket first.slot)
          | invalidated ↦ run_cuckoo fuel search_fuel hp bs' i1 i2
          | destroyed ↦ none
        ]
  ]

  -- The part of `cuckoo_insert` after `run_cuckoo`. The key is looked for again.
  unfoldable pub finish_insert :
      HashValue → Table → ℕ → ℕ → Key → Mapped → Freed (List Bucket) → Table × Status
  finish_insert hv t i1 i2 key val (full_table bs) = (record t { buckets = bs }, failure_table_full)
  finish_insert hv t i1 i2 key val (freed bs insert_bucket insert_slot) =
      let t' : Table = record t { buckets = bs } in
      if cuckoo_contains key hv.partial bs i1 i2
      then (t', failure_key_duplicated)
      else (add_to_bucket hv.partial t' insert_bucket insert_slot key val, ok)

  -- The part after both buckets were seen to be full.
  unfoldable pub insert_displacing :
      ℕ → ℕ → HashValue → Table → ℕ → ℕ → Key → Mapped → Option (Table × Status)
  insert_displacing fuel search_fuel hv t i1 i2 key val =
      elim (run_cuckoo fuel search_fuel t.hashpower t.buckets i1 i2) [
        | none ↦ none
        | some r ↦ some (finish_insert hv t i1 i2 key val r)
      ]

  unfoldable pub cuckoo_insert :
      ℕ → ℕ → HashValue → Table → ℕ → ℕ → Key → Mapped → Option (Table × Status)
  cuckoo_insert fuel search_fuel hv t i1 i2 key val =
      elim (try_find_insert_bucket hv.partial key (bucket t.buckets i1)) [
        | none ↦ some (t, failure_key_duplicated)
        | some res1 ↦ elim (try_find_insert_bucket hv.partial key (bucket t.buckets i2)) [
          | none ↦ some (t, failure_key_duplicated)
          | some res2 ↦ elim res1 [
            | some s ↦ some (add_to_bucket hv.partial t i1 s key val, ok)
            | none ↦ elim res2 [
              | some s ↦ some (add_to_bucket hv.partial t i2 s key val, ok)
              | none ↦ insert_displacing fuel search_fuel hv t i1 i2 key val
            ]
          ]
        ]
      ]
