-- ===== src/Bucket/Search.antt =====
-- The six loops of libcuckoo/cuckoohash_map.hh over the slots of one bucket.
use libcuckoo_cxx.Base.{
  ℕ, suc, ◌+◌, [], ◌∷◌, Bool, true, false, ◌&&◌, ◌||◌, Option, none, some, ◌==◌, if◌then◌else◌,
}
use libcuckoo_cxx.Bucket.{Slot, Bucket, kvpair, erase_kv, set_val}
use libcuckoo_cxx.Params.{Params}

module _ ⦃P : Params⦄ where
  open P use {Key, Mapped, key_eq, is_simple}

  -- The body of the loops: an occupied slot, whose partial key is compared unless keys are
  -- simple, and whose key is the one that is looked for.
  unfoldable pub hit : ℕ → Key → Slot → Bool
  hit p key s =
      s.occupied
      && (is_simple || (p == s.partial))
      && elim s.storage [ none ↦ false | some (k, v) ↦ key_eq k key ]

  -- The first slot at which such a loop returns.
  unfoldable pub locate : ℕ → Key → Bucket → Option ℕ
  locate p key [] = none
  locate p key (s ∷ b) =
      let rest = locate p key b in
      if hit p key s then some 0 else elim rest [ none ↦ none | some i ↦ some (suc i) ]

  -- `none` where the loop ends and `val` is not written.
  unfoldable pub try_read_from_bucket : ℕ → Key → Bucket → Option Mapped
  try_read_from_bucket p key b = elim (locate p key b) [
    | none ↦ none
    | some i ↦ elim (kvpair b i) [ none ↦ none | some (k, v) ↦ some v ]
  ]

  unfoldable pub check_in_bucket : ℕ → Key → Bucket → Bool
  check_in_bucket p key b = elim (locate p key b) [ none ↦ false | some i ↦ true ]

  -- `slot` holds the first empty slot seen so far, `none` for -1.
  unfoldable pub find_insert_loop : ℕ → Key → Bucket → ℕ → Option ℕ → Option (Option ℕ)
  find_insert_loop p key [] i found = some found
  find_insert_loop p key (s ∷ b) i found =
      let rest =
        find_insert_loop p key b (i + 1)
          (elim found [ none ↦ (if s.occupied then none else some i) | some j ↦ some j ]) in
      if hit p key s then none else rest

  -- `none` for a duplicate key, else the first empty slot, if there is one.
  unfoldable pub try_find_insert_bucket : ℕ → Key → Bucket → Option (Option ℕ)
  try_find_insert_bucket p key b = find_insert_loop p key b 0 none

  -- `none` where the key is not there and the bucket stays.
  unfoldable pub try_del_from_bucket : ℕ → Key → Bucket → Option Bucket
  try_del_from_bucket p key b = elim (locate p key b) [ none ↦ none | some i ↦ some (erase_kv b i) ]

  unfoldable pub try_update_bucket : ℕ → Bucket → Key → Mapped → Option Bucket
  try_update_bucket p b key v = elim (locate p key b) [
    | none ↦ none
    | some i ↦ some (set_val b i v)
  ]

  unfoldable pub try_update_bucket_fn : ℕ → Key → (Mapped → Mapped) → Bucket → Option Bucket
  try_update_bucket_fn p key fn b = elim (locate p key b) [
    | none ↦ none
    | some i ↦ elim (kvpair b i) [ none ↦ none | some (k, v) ↦ some (set_val b i (fn v)) ]
  ]
