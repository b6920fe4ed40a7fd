-- ===== src/Cuckoo/Paths.antt =====
-- The paths that `cuckoopath_search` returns: whatever the search found, each bucket is the
-- alternate of the one before under the recorded hash, and the slots are in range.
use libcuckoo_cxx.Base.{
  ℕ, zero, suc, ◌+◌, ◌%◌, ◌/◌, ◌<◌, ◌≡◌, refl, ap, subst, ◌⊎◌, inl, inr, List, [], ◌∷◌, Option,
  none, some, arith, length, get_or, Bool-cases, Option-cases, ◌==◌, if◌then◌else◌,
}
use libcuckoo_cxx.Bucket.Laws.{is_some}
use libcuckoo_cxx.Bucket.{Bucket, occupied, kvpair}
use libcuckoo_cxx.Cuckoo.{CuckooRecord, no_record, decode, walk, cuckoopath_search, slot_search}
use libcuckoo_cxx.Hash.{partial_key, alt_index}
use libcuckoo_cxx.Params.{Params, Laws}
use libcuckoo_cxx.Queue.{BSlot}
use libcuckoo_cxx.Table.Valid.{IsPlaced}
use libcuckoo_cxx.Table.{bucket, hashed_key}

module _ ⦃P : Params⦄ where
  open P use {Key, Mapped, slot_per_bucket}

  -- A path that starts in the bucket `b`.
  abbrev pub IsChain : ℕ → ℕ → List CuckooRecord → Type 0
  IsChain hp b [] = Unit
  IsChain hp b (r ∷ path) =
      (r.bucket ≡ b)
      × (r.slot < slot_per_bucket)
      × IsChain hp (alt_index hp (partial_key r.hv.hash) b) path

  pub chain-slot :
      (hp b : ℕ) (path : List CuckooRecord) (d : ℕ)
      → IsChain hp b path
      → d < length path
      → (get_or path d no_record).slot < slot_per_bucket
  chain-slot hp b [] d h lt = absurd (omega arith)
  chain-slot hp b (r ∷ path) zero h lt = h.1
  chain-slot hp b (r ∷ path) (suc d) h lt =
      chain-slot hp (alt_index hp (partial_key r.hv.hash) b) path d h.2 (omega arith)

  pub chain-link :
      (hp b : ℕ) (path : List CuckooRecord) (d : ℕ)
      → IsChain hp b path
      → suc d < length path
      → (get_or path (suc d) no_record).bucket
        ≡ alt_index hp
            (partial_key (get_or path d no_record).hv.hash)
            (get_or path d no_record).bucket
  chain-link hp b [] d h lt = absurd (omega arith)
  chain-link hp b (r ∷ []) d h lt = absurd (omega arith)
  chain-link hp b (r ∷ r' ∷ path) zero h lt = ground arith
  chain-link hp b (r ∷ r' ∷ path) (suc d) h lt =
      chain-link hp (alt_index hp (partial_key r.hv.hash) b) (r' ∷ path) d h.2 (omega arith)

  abbrev pub InRange : List ℕ → Type 0
  InRange [] = Unit
  InRange (s ∷ slots) = (s < slot_per_bucket) × InRange slots

  pub decode-InRange :
      (laws : Laws) (n code : ℕ) (slots : List ℕ) → InRange slots → InRange (decode n code slots).0
  unfolding decode
  decode-InRange laws zero code slots h = h
  decode-InRange laws (suc n) code slots h =
      decode-InRange laws n (code / slot_per_bucket) (code % slot_per_bucket ∷ slots)
        (omega (arith, laws.slots_pos), h)

  pub length-decode :
      (n code : ℕ) (slots : List ℕ) → length (decode n code slots).0 ≡ n + length slots
  unfolding decode
  length-decode zero code slots = omega arith
  length-decode (suc n) code slots =
      omega (arith, length-decode n (code / slot_per_bucket) (code % slot_per_bucket ∷ slots))

  walk-IsChain :
      (hp : ℕ) (bs : List Bucket) (b : ℕ) (slots : List ℕ)
      → InRange slots
      → IsChain hp b (walk hp bs b slots)
  unfolding walk hashed_key
  walk-IsChain hp bs b [] h = tt
  walk-IsChain hp bs b (s ∷ slots) h = elim (Bool-cases (occupied (bucket bs b) s)) [
    | inr e ↦ rw (e, walk) (refl, h.0, tt)
    | inl e ↦ elim (Option-cases (kvpair (bucket bs b) s)) [
      | inl f ↦ rw (e, f, walk) tt
      | inr ((k, v), f) ↦
          rw (e, f, walk)
            (refl, h.0, walk-IsChain hp bs (alt_index hp (partial_key (P.hash k)) b) slots h.1)
    ]
  ]

  -- The first record is there: a pair lives in every occupied slot.
  walk-nonempty :
      (hp : ℕ) (bs : List Bucket) (placed : IsPlaced hp bs) (b : ℕ) (slots : List ℕ)
      → 0 < length slots
      → 0 < length (walk hp bs b slots)
  unfolding walk
  walk-nonempty hp bs placed b [] h = absurd (omega arith)
  walk-nonempty hp bs placed b (s ∷ slots) h = elim (Bool-cases (occupied (bucket bs b) s)) [
    | inr e ↦ rw (e, walk) (omega arith)
    | inl e ↦ elim (Option-cases (kvpair (bucket bs b) s)) [
      | inl f ↦ cc (e, placed.live b s, ap is_some f)
      | inr (kv, f) ↦ rw (e, f, walk) (omega arith)
    ]
  ]

  -- A path from one of the two buckets.
  pub record IsPath (hp i1 i2 : ℕ) (path : List CuckooRecord) : Type 0 where
    pub start : ℕ
    pub from_either : (start ≡ i1) ⊎ (start ≡ i2)
    pub chain : IsChain hp start path
    pub nonempty : 0 < length path

  -- The records for what `slot_search` found.
  abbrev path_of : ℕ → List Bucket → ℕ → ℕ → BSlot → List CuckooRecord
  path_of hp bs i1 i2 x =
      walk hp bs (if (decode (x.depth + 1) x.pathcode []).1 == 0 then i1 else i2)
        (decode (x.depth + 1) x.pathcode []).0

  search_path :
      (hp : ℕ) (bs : List Bucket) (i1 i2 : ℕ) (path : List CuckooRecord) (r : Option (Option BSlot))
      → ◌≡◌ {A = Option (Option (List CuckooRecord))}
          (elim r [
            | none ↦ none
            | some none ↦ some none
            | some (some x) ↦ some (some (path_of hp bs i1 i2 x))
          ])
          (some (some path))
      → (x : BSlot) × (path_of hp bs i1 i2 x ≡ path)
  search_path hp bs i1 i2 path none h = cc
  search_path hp bs i1 i2 path (some none) h = cc
  search_path hp bs i1 i2 path (some (some x)) h = (x, ground arith)

  path_of-IsPath :
      (laws : Laws) (hp : ℕ) (bs : List Bucket) (placed : IsPlaced hp bs) (i1 i2 : ℕ) (x : BSlot)
      → IsPath hp i1 i2 (path_of hp bs i1 i2 x)
  path_of-IsPath laws hp bs placed i1 i2 x =
      let slots = (decode (x.depth + 1) x.pathcode []).0 in
      record {
        start = if (decode (x.depth + 1) x.pathcode []).1 == 0 then i1 else i2;
        from_either = ground arith;
        chain = walk-IsChain hp bs _ slots (decode-InRange laws (x.depth + 1) x.pathcode [] tt);
        nonempty =
            walk-nonempty hp bs placed _ slots
              (omega (arith, length-decode (x.depth + 1) x.pathcode []));
      }

  pub cuckoopath_search-IsPath :
      (laws : Laws) (fuel hp : ℕ) (bs : List Bucket) (placed : IsPlaced hp bs) (i1 i2 : ℕ)
      (path : List CuckooRecord)
      → cuckoopath_search fuel hp bs i1 i2 ≡ some (some path)
      → IsPath hp i1 i2 path
  unfolding cuckoopath_search
  cuckoopath_search-IsPath laws fuel hp bs placed i1 i2 path h =
      let (x, e) = search_path hp bs i1 i2 path (slot_search fuel hp bs i1 i2) h in
      subst (IsPath hp i1 i2) e (path_of-IsPath laws hp bs placed i1 i2 x)
