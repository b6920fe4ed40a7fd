-- ===== src/Expand.antt =====
-- The expansion of libcuckoo/cuckoohash_map.hh: `move_buckets`, and `cuckoo_fast_double` once the
-- expansion lock is held and the hashpower has been checked.
pub mod Where
pub mod Slots
pub mod Stride
pub mod Ranges
pub mod Double
use libcuckoo_cxx.Base.{
  ℕ, zero, suc, ◌+◌, ◌-◌, ◌*◌, ◌^◌, min, List, [], ◌∷◌, ◌++◌, Bool, true, false, ◌&&◌, ◌||◌, Option,
  none, some, replicate, ltb, ◌==◌, if◌then◌else◌, length,
}
use libcuckoo_cxx.Bucket
use libcuckoo_cxx.Bucket.{Bucket, fresh_slot}
use libcuckoo_cxx.Config.{num_locks}
use libcuckoo_cxx.Hash.{lock_ind, hashsize, index_hash, alt_index}
use libcuckoo_cxx.Params.{Params}
use libcuckoo_cxx.Table.{
  Table, HashValue, hashed_key, bucket, move_to_bucket, nonatomic_inc, nonatomic_dec,
}

-- The test in `move_buckets`: the key goes to the bucket `hashsize(current_hp)` later.
unfoldable pub moves_up : ℕ → ℕ → ℕ → HashValue → Bool
moves_up current_hp new_hp bucket_i hv =
    let old_ihash = index_hash current_hp hv.hash in
    let old_ahash = alt_index current_hp hv.partial old_ihash in
    let new_ihash = index_hash new_hp hv.hash in
    let new_ahash = alt_index new_hp hv.partial new_ihash in
    let new_bucket_i = bucket_i + hashsize current_hp in
    (bucket_i == old_ihash) && (new_ihash == new_bucket_i)
    || (bucket_i == old_ahash) && (new_ahash == new_bucket_i)

module _ ⦃P : Params⦄ where
  open P use {Key, Mapped, slot_per_bucket}

  -- A move to the slot `new_bucket_slot` of the new bucket, with the lock counts.
  unfoldable pub move_up : ℕ → ℕ → ℕ → ℕ → Table → Table
  move_up current_hp bucket_i slot new_bucket_slot t =
      let new_bucket_i = bucket_i + hashsize current_hp in
      record t {
        buckets = move_to_bucket t.buckets bucket_i slot new_bucket_i new_bucket_slot;
        elems = nonatomic_inc (nonatomic_dec t.elems (lock_ind bucket_i)) (lock_ind new_bucket_i);
      }

  -- One round of the innermost loop; the state is the table and `new_bucket_slot`.
  unfoldable pub move_slot : ℕ → ℕ → ℕ → ℕ → Table × ℕ → Table × ℕ
  move_slot current_hp new_hp bucket_i slot (t, new_bucket_slot) =
      elim (Bucket.occupied (bucket t.buckets bucket_i) slot) [
        | false ↦ (t, new_bucket_slot)
        | true ↦ elim (Bucket.kvpair (bucket t.buckets bucket_i) slot) [
          | none ↦ (t, new_bucket_slot)
          | some (k, v) ↦
              if moves_up current_hp new_hp bucket_i (hashed_key k)
              then (move_up current_hp bucket_i slot new_bucket_slot t, new_bucket_slot + 1)
              else (t, new_bucket_slot)
        ]
      ]

  unfoldable pub move_slots : ℕ → ℕ → ℕ → ℕ → ℕ → Table × ℕ → Table × ℕ
  move_slots current_hp new_hp bucket_i zero slot st = st
  move_slots current_hp new_hp bucket_i (suc left) slot st =
      move_slots current_hp new_hp bucket_i left (suc slot)
        (move_slot current_hp new_hp bucket_i slot st)

  unfoldable pub move_bucket : ℕ → ℕ → ℕ → Table → Table
  move_bucket current_hp new_hp bucket_i t =
      (move_slots current_hp new_hp bucket_i slot_per_bucket 0 (t, 0)).0

  -- The loop over the buckets of one lock, on fuel.
  unfoldable pub move_stride : ℕ → ℕ → ℕ → ℕ → Table → Table
  move_stride zero current_hp new_hp bucket_i t = t
  move_stride (suc fuel) current_hp new_hp bucket_i t =
      let rest =
        move_stride fuel current_hp new_hp (bucket_i + num_locks)
          (move_bucket current_hp new_hp bucket_i t) in
      if ltb bucket_i (hashsize current_hp) then rest else t

  -- `move_buckets` with `left` locks to go from `start_lock_ind` on.
  unfoldable pub move_locks : ℕ → ℕ → ℕ → ℕ → Table → Table
  move_locks current_hp new_hp zero start_lock_ind t = t
  move_locks current_hp new_hp (suc left) start_lock_ind t =
      move_locks current_hp new_hp left (suc start_lock_ind)
        (move_stride (hashsize current_hp) current_hp new_hp start_lock_ind t)

  unfoldable pub move_buckets : ℕ → ℕ → ℕ → ℕ → Table → Table
  move_buckets current_hp new_hp start_lock_ind end_lock_ind t =
      move_locks current_hp new_hp (end_lock_ind - start_lock_ind) start_lock_ind t

  -- `parallel_exec` of `MoveBucketsFn`: the ranges of locks into which `parallel_for` splits its
  -- range, in the order in which they are run.
  unfoldable pub move_ranges : ℕ → ℕ → List (ℕ × ℕ) → Table → Table
  move_ranges current_hp new_hp [] t = t
  move_ranges current_hp new_hp ((start, end) ∷ ranges) t =
      move_ranges current_hp new_hp ranges (move_buckets current_hp new_hp start end t)

  -- `buckets_.resize(buckets_.size() * 2)`
  unfoldable pub resize_double : List Bucket → List Bucket
  resize_double bs = bs ++ replicate (length bs) (replicate slot_per_bucket fresh_slot)

  -- `cuckoo_fast_double` from the allocation of the locks on; the locks are those of one segment,
  -- all of which are there.
  unfoldable pub double_buckets : List (ℕ × ℕ) → ℕ → Table → Table
  double_buckets ranges current_hp t =
      move_ranges current_hp (suc current_hp) ranges
        (record t { buckets = resize_double t.buckets; hashpower = suc current_hp })
