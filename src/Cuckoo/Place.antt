-- ===== src/Cuckoo/Place.antt =====
-- The other bucket of a key, and swaps that were checked by `cuckoopath_move`.
use libcuckoo_cxx.Base.{
  ◌≢◌, ◌⊎◌, ℕ, ◌<◌, ◌≡◌, sym, ap, subst, ◌∙◌, inl, inr, List, false, none, some, arith, length,
  Option-cases,
}
use libcuckoo_cxx.Bucket.{Bucket}
use libcuckoo_cxx.Cuckoo.{CuckooRecord, succeeded, destroyed, swap_valid}
use libcuckoo_cxx.Hash.Alternate.{index_hash-lt, alt_index-lt, alt_index_involutive}
use libcuckoo_cxx.Hash.{partial_key, hashsize, alt_index}
use libcuckoo_cxx.Params.{Params, Laws}
use libcuckoo_cxx.Table.Lookup.{tag}
use libcuckoo_cxx.Table.Move.{
  Moves, move_to_bucket-Moves, move_to_bucket-source, move_to_bucket_other,
}
use libcuckoo_cxx.Table.Valid.{cell, home, IsHome, IsPlaced}
use libcuckoo_cxx.Table.{bucket, move_to_bucket}

module _ ⦃P : Params⦄ where
  open P use {Key, Mapped, slot_per_bucket}

  pub IsHome-lt : (hp : ℕ) (k : Key) (i : ℕ) → hp < 64 → IsHome hp k i → i < hashsize hp
  IsHome-lt hp k i lt (inl e) = rw e (index_hash-lt hp (P.hash k) lt)
  IsHome-lt hp k i lt (inr e) = rw e (alt_index-lt hp (tag k) (home hp k) lt)

  -- From either bucket of a key `alt_index` leads to the other one.
  pub alt_index-IsHome :
      (hp : ℕ) (k : Key) (i : ℕ) → hp < 64 → IsHome hp k i → IsHome hp k (alt_index hp (tag k) i)
  alt_index-IsHome hp k i lt (inl e) = inr (ap (alt_index hp (tag k)) e)
  alt_index-IsHome hp k i lt (inr e) = inl (
      ap (alt_index hp (tag k)) e
      ∙ alt_index_involutive hp (tag k) (home hp k) lt (index_hash-lt hp (P.hash k) lt))

  -- What a swap that passed the check finds.
  pub record Swap (bs : List Bucket) (from to : CuckooRecord) : Type 0 where
    pub key : Key
    pub value : Mapped
    pub stored : (cell bs from.bucket from.slot).storage ≡ some (key, value)
    pub hashed : P.hash key ≡ from.hv.hash
    pub vacant : (cell bs to.bucket to.slot).occupied ≡ false

  swap_valid-stored :
      (bs : List Bucket) (from to : CuckooRecord)
      → swap_valid bs from to ≡ succeeded
      → (cell bs from.bucket from.slot).storage ≡ none
      → ⊥
  unfolding swap_valid
  swap_valid-stored bs from to h e = ground arith

  pub swap_valid-Swap :
      (bs : List Bucket) (from to : CuckooRecord)
      → swap_valid bs from to ≡ succeeded
      → Swap bs from to
  unfolding swap_valid
  swap_valid-Swap bs from to h = elim (Option-cases (cell bs from.bucket from.slot).storage) [
    | inl e ↦ absurd (swap_valid-stored bs from to h e)
    | inr ((k, v), e) ↦ record {
      key = k;
      value = v;
      stored = e;
      hashed = ground arith;
      vacant = ground arith;
    }
  ]

  -- The check hashes a key that is gone only where the source holds no pair.
  pub swap_valid_gone :
      (bs : List Bucket) (from to : CuckooRecord)
      → swap_valid bs from to ≡ destroyed
      → (cell bs from.bucket from.slot).storage ≡ none
  unfolding swap_valid
  swap_valid_gone bs from to h = elim (Option-cases (cell bs from.bucket from.slot).storage) [
    | inl e ↦ e
    | inr ((k, v), e) ↦ absurd (ground (arith, e, h))
  ]

  module _ (laws : Laws) {hp : ℕ} (bs : List Bucket) (placed : IsPlaced hp bs)
      (from to : CuckooRecord)
      (linked : to.bucket ≡ alt_index hp (partial_key from.hv.hash) from.bucket)
      (bound : to.slot < slot_per_bucket) (swap : Swap bs from to) where
    target-IsHome : IsHome hp swap.key to.bucket
    target-IsHome =
        let e : to.bucket ≡ alt_index hp (tag swap.key) from.bucket = rw (swap.hashed) linked in
        subst (IsHome hp swap.key) (sym e) (
          alt_index-IsHome hp swap.key from.bucket placed.small
            (placed.homes from.bucket from.slot swap.key swap.value swap.stored).1)

    hj : to.bucket < length bs
    hj = rw placed.width (IsHome-lt hp swap.key to.bucket placed.small target-IsHome)

    hu : to.slot < length (bucket bs to.bucket)
    hu = rw (placed.rows to.bucket hj) bound

    empty : (cell bs to.bucket to.slot).storage ≡ none
    empty = ground (arith, placed.live to.bucket to.slot, swap.vacant)

    -- The swap changes no reading, and frees its source.
    pub swap-Moves : Moves hp bs (move_to_bucket bs from.bucket from.slot to.bucket to.slot)
    swap-Moves =
        move_to_bucket-Moves laws bs placed from.bucket from.slot to.bucket to.slot swap.key
          swap.value swap.stored empty hj hu target-IsHome

    pub swap_frees :
        (cell
          (move_to_bucket bs from.bucket from.slot to.bucket to.slot)
          from.bucket
          from.slot).occupied
        ≡ false
    swap_frees =
        move_to_bucket-source laws bs placed from.bucket from.slot to.bucket to.slot swap.key
          swap.value swap.stored empty hj hu target-IsHome

    pub swap_other :
        (c d : ℕ)
        → (from.bucket ≢ c) ⊎ (from.slot ≢ d)
        → (to.bucket ≢ c) ⊎ (to.slot ≢ d)
        → cell (move_to_bucket bs from.bucket from.slot to.bucket to.slot) c d ≡ cell bs c d
    swap_other =
        move_to_bucket_other laws bs placed from.bucket from.slot to.bucket to.slot swap.key
          swap.value swap.stored empty hj hu target-IsHome
