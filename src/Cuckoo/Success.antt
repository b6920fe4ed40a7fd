-- ===== src/Cuckoo/Success.antt =====
-- A path that was just found can be moved along: no cell of it is touched before its turn.
use mathlib.Core.List.{append_assoc}
use libcuckoo_cxx.Base.{
  ℕ, suc, ◌-◌, ◌<◌, ◌≡◌, ◌≢◌, refl, sym, ap, ap₂, ◌∙◌, ◌⊎◌, inl, inr, List, [], ◌∷◌, ◌++◌, true,
  false, some, arith, length, get_or, length-append, Option-cases, ==_refl, ℕ_discrete,
}
use libcuckoo_cxx.Bucket.Laws.{is_some}
use libcuckoo_cxx.Bucket.{Slot, Bucket, occupied, kvpair}
use libcuckoo_cxx.Cuckoo.Decode.{record_at-stored, records, length-records, path_to}
use libcuckoo_cxx.Cuckoo.Inner.{Ends}
use libcuckoo_cxx.Cuckoo.Place.{swap_valid-Swap, swap-Moves, swap_frees, swap_other}
use libcuckoo_cxx.Cuckoo.Relocate.{at, move_loop_swap}
use libcuckoo_cxx.Cuckoo.Trail.{next, bucket_at, IsWalk, IsSimple, Avoids}
use libcuckoo_cxx.Cuckoo.{
  CuckooRecord, Attempt, succeeded, no_record, no_hash, swap_valid, move_loop, cuckoopath_move,
}
use libcuckoo_cxx.Hash.{partial_key, alt_index}
use libcuckoo_cxx.Params.{Params, Laws}
use libcuckoo_cxx.Queue.{BSlot}
use libcuckoo_cxx.Table.Valid.{cell, IsPlaced}
use libcuckoo_cxx.Table.{bucket, hashed_key, move_to_bucket}

get_or-middle {ℓ} :
    {A : Type ℓ} (xs ys : List A) (y d : A) → get_or (xs ++ y ∷ ys) (length xs) d ≡ y
get_or-middle [] ys y d = refl
get_or-middle (x ∷ xs) ys y d = get_or-middle xs ys y d

get_or-after {ℓ} :
    {A : Type ℓ} (xs ys : List A) (y z d : A) → get_or (xs ++ y ∷ z ∷ ys) (suc (length xs)) d ≡ z
get_or-after [] ys y z d = refl
get_or-after (x ∷ xs) ys y z d = get_or-after xs ys y z d

module _ ⦃P : Params⦄ where
  open P use {Key, Mapped, slot_per_bucket}

  one_swap :
      (bs : List Bucket) (here rest : List CuckooRecord) (from to : CuckooRecord) (d : ℕ)
      → length here ≡ d
      → swap_valid bs from to ≡ succeeded
      → move_loop (here ++ from ∷ to ∷ rest) (suc d) bs
        ≡ move_loop
            (here ++ from ∷ to ∷ rest)
            d
            (move_to_bucket bs from.bucket from.slot to.bucket to.slot)
  one_swap bs here rest from to d e ok =
      let path = here ++ from ∷ to ∷ rest in
      let e1 : at path d ≡ from =
        ap (at path) (sym e) ∙ get_or-middle here (to ∷ rest) from no_record in
      let e2 : at path (suc d) ≡ to =
        ap (λ (n : ℕ). at path (suc n)) (sym e) ∙ get_or-after here rest from to no_record in
      move_loop_swap path d bs (ap₂ (swap_valid bs) e1 e2 ∙ ok)
      ∙ ap₂
          (λ (r r' : CuckooRecord).
            move_loop path d (move_to_bucket bs r.bucket r.slot r'.bucket r'.slot))
          e1 e2

  module _ (laws : Laws) (hp : ℕ) (bs : List Bucket) (placed : IsPlaced hp bs) (i1 i2 : ℕ)
      (c : ℕ) where
    -- The cells of a walk, as they were when it was found.
    abbrev Intact : List Bucket → List ℕ → Type 0
    Intact bs' [] = Unit
    Intact bs' (s ∷ slots) =
        (cell bs' (bucket_at hp bs i1 i2 c slots) s ≡ cell bs (bucket_at hp bs i1 i2 c slots) s)
        × Intact bs' slots

    untouched : (slots : List ℕ) → Intact bs slots
    untouched [] = tt
    untouched (s ∷ slots) = (refl, untouched slots)

    -- The pair that was on the walk.
    stored_on :
        (b s : ℕ)
        → occupied (bucket bs b) s ≡ true
        → (k : Key) × (v : Mapped) × (kvpair (bucket bs b) s ≡ some (k, v))
    stored_on b s e = elim (Option-cases (kvpair (bucket bs b) s)) [
      | inl f ↦ cc (e, placed.live b s, ap is_some f)
      | inr ((k, v), f) ↦ (k, v, f)
    ]

    module _ (bs' : List Bucket) (placed' : IsPlaced hp bs') (b s : ℕ) (to : CuckooRecord) (k : Key)
        (v : Mapped) (taken : occupied (bucket bs b) s ≡ true)
        (stored : kvpair (bucket bs b) s ≡ some (k, v)) (same : cell bs' b s ≡ cell bs b s)
        (linked : to.bucket ≡ next hp bs i1 i2 b s) (bound : to.slot < slot_per_bucket)
        (vacant : (cell bs' to.bucket to.slot).occupied ≡ false) where
      abbrev from : CuckooRecord
      from = record { bucket = b; slot = s; hv = hashed_key k }

      swappable : swap_valid bs' from to ≡ succeeded
      unfolding swap_valid hashed_key
      swappable = ground (
        arith,
        ap (λ (x : Slot). x.storage) same,
        ap (λ (x : Slot). x.occupied) same,
        stored,
        taken,
        vacant,
        ==_refl (P.hash k),
      )

      swap_link : to.bucket ≡ alt_index hp (partial_key from.hv.hash) from.bucket
      unfolding hashed_key
      swap_link = linked ∙ ap (λ (p : ℕ). alt_index hp p b) (placed.homes b s k v stored).0

      abbrev swapped : List Bucket
      swapped = move_to_bucket bs' b s to.bucket to.slot

      swapped-IsPlaced : IsPlaced hp swapped
      swapped-IsPlaced =
          (swap-Moves laws bs' placed' from to swap_link bound
            (swap_valid-Swap bs' from to swappable)).placed

      swapped_frees : (cell swapped b s).occupied ≡ false
      swapped_frees =
          swap_frees laws bs' placed' from to swap_link bound
            (swap_valid-Swap bs' from to swappable)

      -- The cells in other buckets that were occupied stay.
      swapped-Intact :
          (seen : List BSlot) (slots : List ℕ)
          → IsWalk hp bs i1 i2 seen c slots
          → Avoids hp bs i1 i2 b c slots
          → Intact bs' slots
          → Intact swapped slots
      swapped-Intact seen [] w a h = tt
      swapped-Intact seen (d ∷ slots) w a h = (
        swap_other laws bs' placed' from to swap_link bound (swap_valid-Swap bs' from to swappable)
              (bucket_at hp bs i1 i2 c slots) d (inl (λ e. a.0 (sym e)))
              (not_target (bucket_at hp bs i1 i2 c slots) d
                (ap (λ (x : Slot). x.occupied) h.0 ∙ w.1))
            ∙ h.0,
        swapped-Intact seen slots w.3 a.1 h.1,
      )
        where
          not_target : (e d : ℕ) → (cell bs' e d).occupied ≡ true → (to.bucket ≢ e) ⊎ (to.slot ≢ d)
          not_target e d busy = elim (ℕ_discrete to.bucket e) [
            | no n ↦ inl n
            | yes at ↦ inr (λ at_slot. cc)
          ]

    swap_loop :
        (seen : List BSlot) (slots : List ℕ) (to : CuckooRecord) (rest : List CuckooRecord)
        (bs' : List Bucket)
        → IsPlaced hp bs'
        → IsWalk hp bs i1 i2 seen c slots
        → IsSimple hp bs i1 i2 c slots
        → Intact bs' slots
        → to.bucket ≡ bucket_at hp bs i1 i2 c slots
        → to.slot < slot_per_bucket
        → (cell bs' to.bucket to.slot).occupied ≡ false
        → (move_loop (records hp bs placed i1 i2 c slots ++ to ∷ rest) (length slots) bs').1
          ≡ succeeded
    unfolding records bucket_at
    swap_loop seen [] to rest bs' placed' w simple intact at bound vacant = unfold move_loop in refl
    swap_loop seen (s ∷ slots) to rest bs' placed' w simple intact at bound vacant =
        let b = bucket_at hp bs i1 i2 c slots in
        let (k, v, stored) = stored_on b s w.1 in
        let here = records hp bs placed i1 i2 c slots in
        let from : CuckooRecord = record { bucket = b; slot = s; hv = hashed_key k } in
        let path : records hp bs placed i1 i2 c (s ∷ slots) ++ to ∷ rest
            ≡ here ++ from ∷ to ∷ rest =
          append_assoc here _ _
          ∙ ap (λ r. here ++ r ∷ to ∷ rest) (record_at-stored hp bs placed i1 i2 b s k v stored) in
        let ok = swappable bs' placed' b s to k v w.1 stored intact.0 at bound vacant in
        ap (λ p. (move_loop p (suc (length slots)) bs').1) path
        ∙ ap (λ (r : List Bucket × Attempt). r.1)
            (one_swap bs' here rest from to (length slots)
              (length-records hp bs placed i1 i2 c slots) ok)
        ∙ swap_loop seen slots from (to ∷ rest) (move_to_bucket bs' b s to.bucket to.slot)
            (swapped-IsPlaced bs' placed' b s to k v w.1 stored intact.0 at bound vacant) w.3
            simple.1
            (swapped-Intact bs' placed' b s to k v w.1 stored intact.0 at bound vacant seen slots
              w.3 simple.0 intact.1)
            refl w.0 (swapped_frees bs' placed' b s to k v w.1 stored intact.0 at bound vacant)

    move_all :
        (seen : List BSlot) (slots : List ℕ) (to : CuckooRecord)
        → IsWalk hp bs i1 i2 seen c slots
        → IsSimple hp bs i1 i2 c slots
        → to.bucket ≡ bucket_at hp bs i1 i2 c slots
        → to.slot < slot_per_bucket
        → (cell bs to.bucket to.slot).occupied ≡ false
        → (cuckoopath_move (records hp bs placed i1 i2 c slots ++ to ∷ []) (length slots) bs).1
          ≡ succeeded
    unfolding cuckoopath_move
    move_all seen [] to w simple at bound vacant = unfold records in ground arith
    move_all seen (s ∷ slots) to w simple at bound vacant =
        swap_loop seen (s ∷ slots) to [] bs placed w simple (untouched (s ∷ slots)) at bound vacant

  pub cuckoopath_move-path_to :
      (laws : Laws) (hp : ℕ) (bs : List Bucket) (placed : IsPlaced hp bs) (i1 i2 : ℕ) (y : BSlot)
      (e : Ends hp bs i1 i2 y)
      → (cuckoopath_move
          (path_to hp bs placed i1 i2 e)
          (length (path_to hp bs placed i1 i2 e) - 1)
          bs).1
        ≡ succeeded
  cuckoopath_move-path_to laws hp bs placed i1 i2 y e =
      let n : length (path_to hp bs placed i1 i2 e) - 1 ≡ length e.slots = omega (
        arith,
        length-append (records hp bs placed i1 i2 e.root e.slots) (
            record { bucket = bucket_at hp bs i1 i2 e.root e.slots; slot = e.slot; hv = no_hash }
            ∷ []),
        length-records hp bs placed i1 i2 e.root e.slots,
      ) in
      ap (λ (d : ℕ). (cuckoopath_move (path_to hp bs placed i1 i2 e) d bs).1) n
      ∙ move_all laws hp bs placed i1 i2 e.root e.seen e.slots
          (record { bucket = bucket_at hp bs i1 i2 e.root e.slots; slot = e.slot; hv = no_hash })
          e.walk e.simple refl e.in_range e.vacant
