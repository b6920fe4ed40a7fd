-- ===== src/Cuckoo/Decode.antt =====
-- `cuckoopath_search` gives the walk that the search found, with the hash of each key on it.
use native.Mathlib.Nat.{add-mul-div_right, div-eq_of_lt}
use mathlib.Core.List.{append_assoc}
use libcuckoo_cxx.Base.Bits.{mod_of_fields}
use libcuckoo_cxx.Base.{
  ℕ, ◌+◌, ◌*◌, ◌/◌, ◌<◌, ◌≡◌, refl, sym, ap, ap₂, ◌∙◌, inl, inr, List, [], ◌∷◌, ◌++◌, true, false,
  none, some, arith, length, length-append, Option-cases,
}
use libcuckoo_cxx.Bucket.Laws.{is_some}
use libcuckoo_cxx.Bucket.{Bucket, occupied, kvpair, partial}
use libcuckoo_cxx.Cuckoo.Inner.{Ends}
use libcuckoo_cxx.Cuckoo.Trail.{next, start, bucket_at, code, IsWalk}
use libcuckoo_cxx.Cuckoo.{CuckooRecord, no_hash, decode, walk, cuckoopath_search, slot_search}
use libcuckoo_cxx.Hash.{partial_key, alt_index}
use libcuckoo_cxx.Params.{Params}
use libcuckoo_cxx.Queue.{BSlot}
use libcuckoo_cxx.Table.Valid.{IsPlaced}
use libcuckoo_cxx.Table.{bucket, hashed_key}

-- The list from its last element on, in front of another.
abbrev pub onto : List ℕ → List ℕ → List ℕ
onto [] rest = rest
onto (s ∷ slots) rest = onto slots (s ∷ rest)

module _ ⦃P : Params⦄ where
  open P use {Key, Mapped, slot_per_bucket}

  fields_div : (q m r : ℕ) → r < m → (q * m + r) / m ≡ q
  fields_div q m r h =
      let swapped : q * m + r ≡ r + q * m = omega arith in
      let pos : 0 < m = omega arith in
      rw swapped (omega (arith, add-mul-div_right r q pos, div-eq_of_lt h))

  abbrev InRange : List ℕ → Type 0
  InRange [] = Unit
  InRange (s ∷ slots) = (s < slot_per_bucket) × InRange slots

  decode-code :
      (c : ℕ) (slots rest : List ℕ)
      → InRange slots
      → decode (length slots) (code c slots) rest ≡ (onto slots rest, c)
  unfolding decode code
  decode-code c [] rest h = refl
  decode-code c (s ∷ slots) rest h =
      ap₂ (λ (n m : ℕ). decode (length slots) n (m ∷ rest))
        (fields_div (code c slots) slot_per_bucket s h.0)
        (mod_of_fields (code c slots) slot_per_bucket s h.0)
      ∙ decode-code c slots (s ∷ rest) h.1

  module _ (hp : ℕ) (bs : List Bucket) (placed : IsPlaced hp bs) (i1 i2 : ℕ) where
    -- The record of an occupied slot.
    abbrev pub record_at : ℕ → ℕ → CuckooRecord
    record_at b s = elim (kvpair (bucket bs b) s) [
      | none ↦ record { bucket = b; slot = s; hv = no_hash }
      | some (k, v) ↦ record { bucket = b; slot = s; hv = hashed_key k }
    ]

    unfoldable pub records : ℕ → List ℕ → List CuckooRecord
    records c [] = []
    records c (s ∷ slots) = records c slots ++ record_at (bucket_at hp bs i1 i2 c slots) s ∷ []

    pub record_at-stored :
        (b s : ℕ) (k : Key) (v : Mapped)
        → kvpair (bucket bs b) s ≡ some (k, v)
        → record_at b s ≡ record { bucket = b; slot = s; hv = hashed_key k }
    record_at-stored b s k v f = rw (record_at, f) refl

    walk_stored :
        (b s : ℕ) (rest : List ℕ) (k : Key) (v : Mapped)
        → occupied (bucket bs b) s ≡ true
        → kvpair (bucket bs b) s ≡ some (k, v)
        → walk hp bs b (s ∷ rest) ≡ record_at b s ∷ walk hp bs (next hp bs i1 i2 b s) rest
    unfolding walk hashed_key
    walk_stored b s rest k v e f =
        let tagged : partial (bucket bs b) s ≡ partial_key (P.hash k) =
          (placed.homes b s k v f).0 in
        let opened : walk hp bs b (s ∷ rest)
            ≡ record { bucket = b; slot = s; hv = hashed_key k }
              ∷ walk hp bs (alt_index hp (partial_key (P.hash k)) b) rest =
          rw (walk, e, f) refl in
        opened
        ∙ ap₂ (λ (r : CuckooRecord) (n : ℕ). r ∷ walk hp bs (alt_index hp n b) rest)
            (sym (record_at-stored b s k v f)) (sym tagged)

    walk_one :
        (b s : ℕ) (rest : List ℕ)
        → occupied (bucket bs b) s ≡ true
        → walk hp bs b (s ∷ rest) ≡ record_at b s ∷ walk hp bs (next hp bs i1 i2 b s) rest
    walk_one b s rest e = elim (Option-cases (kvpair (bucket bs b) s)) [
      | inl f ↦ cc (e, placed.live b s, ap is_some f)
      | inr ((k, v), f) ↦ walk_stored b s rest k v e f
    ]

    walk-onto :
        (seen : List BSlot) (c : ℕ) (slots rest : List ℕ)
        → IsWalk hp bs i1 i2 seen c slots
        → walk hp bs (start hp bs i1 i2 c) (onto slots rest)
          ≡ records c slots ++ walk hp bs (bucket_at hp bs i1 i2 c slots) rest
    unfolding records bucket_at
    walk-onto seen c [] rest w = refl
    walk-onto seen c (s ∷ slots) rest w =
        walk-onto seen c slots (s ∷ rest) w.3
        ∙ ap (λ path. records c slots ++ path) (walk_one (bucket_at hp bs i1 i2 c slots) s rest w.1)
        ∙ sym (append_assoc (records c slots) _ _)

    IsWalk-InRange :
        (seen : List BSlot) (c : ℕ) (slots : List ℕ)
        → IsWalk hp bs i1 i2 seen c slots
        → InRange slots
    IsWalk-InRange seen c [] w = tt
    IsWalk-InRange seen c (s ∷ slots) w = (w.0, IsWalk-InRange seen c slots w.3)

    pub length-records : (c : ℕ) (slots : List ℕ) → length (records c slots) ≡ length slots
    unfolding records
    length-records c [] = refl
    length-records c (s ∷ slots) = omega (
      arith,
      length-records c slots,
      length-append (records c slots) (record_at (bucket_at hp bs i1 i2 c slots) s ∷ []),
    )

    -- The path for what `slot_search` found: the walk, and the empty slot.
    abbrev pub path_to : {y : BSlot} → Ends hp bs i1 i2 y → List CuckooRecord
    path_to e =
        records e.root e.slots
        ++ record { bucket = bucket_at hp bs i1 i2 e.root e.slots; slot = e.slot; hv = no_hash }
          ∷ []

    walk_last :
        (b s : ℕ)
        → occupied (bucket bs b) s ≡ false
        → walk hp bs b (s ∷ []) ≡ record { bucket = b; slot = s; hv = no_hash } ∷ []
    unfolding walk
    walk_last b s e = rw (walk, e) refl

    module _ (y : BSlot) (e : Ends hp bs i1 i2 y) where
      decoded : decode (y.depth + 1) y.pathcode [] ≡ (onto e.slots (e.slot ∷ []), e.root)
      decoded =
          let len : y.depth + 1 ≡ length (e.slot ∷ e.slots) = omega (arith, e.depth) in
          ap₂ (λ (n m : ℕ). decode n m []) len e.pathcode
          ∙ decode-code e.root (e.slot ∷ e.slots) []
              (e.in_range, IsWalk-InRange e.seen e.root e.slots e.walk)

      walked : walk hp bs (start hp bs i1 i2 e.root) (onto e.slots (e.slot ∷ [])) ≡ path_to e
      walked =
          walk-onto e.seen e.root e.slots (e.slot ∷ []) e.walk
          ∙ ap (λ path. records e.root e.slots ++ path) (walk_last _ e.slot e.vacant)

      pub cuckoopath_search-path_to :
          (fuel : ℕ)
          → slot_search fuel hp bs i1 i2 ≡ some (some y)
          → cuckoopath_search fuel hp bs i1 i2 ≡ some (some (path_to e))
      unfolding cuckoopath_search
      cuckoopath_search-path_to fuel h =
          rw (cuckoopath_search, h)
            (ap (λ (r : List ℕ × ℕ). some (some (walk hp bs (start hp bs i1 i2 r.1) r.0))) decoded
              ∙ ap (λ path. some (some path)) walked)
