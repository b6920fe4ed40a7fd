-- ===== src/Cuckoo/Relocate.antt =====
-- `cuckoopath_move` and `run_cuckoo`: along any path, stale or not, the pairs are kept, and a
-- success leaves an empty slot in one of the two buckets.

use libcuckoo_cxx.Base.{
  ℕ, zero, suc, ◌-◌, ◌<◌, ◌≡◌, refl, sym, ap, subst, ◌∙◌, ◌⊎◌, inl, inr, List, [], ◌∷◌, false,
  Option, none, some, arith, length, get_or, Option-cases, some_eq,
}
use libcuckoo_cxx.Bucket.{Bucket}
use libcuckoo_cxx.Cuckoo.Paths.{IsChain, chain-slot, chain-link, IsPath, cuckoopath_search-IsPath}
use libcuckoo_cxx.Cuckoo.Place.{swap_valid-Swap, swap_valid_gone, swap-Moves, swap_frees}
use libcuckoo_cxx.Cuckoo.{
  CuckooRecord, Attempt, succeeded, invalidated, destroyed, Attempt-cases, no_record, Freed, freed,
  full_table, swap_valid, move_loop, cuckoopath_move, cuckoopath_search, run_cuckoo,
}
use libcuckoo_cxx.Params.{Params, Laws}
use libcuckoo_cxx.Table.Move.{Moves}
use libcuckoo_cxx.Table.Valid.{cell, IsPlaced}
use libcuckoo_cxx.Table.{move_to_bucket}

module _ ⦃P : Params⦄ where
  open P use {Key, Mapped, slot_per_bucket}

  pub Moves-refl : {hp : ℕ} {bs : List Bucket} → IsPlaced hp bs → Moves hp bs bs
  Moves-refl placed = record { placed = placed; reads = λ q o h. h; counts = refl }

  pub Moves-trans : {hp : ℕ} {a b c : List Bucket} → Moves hp a b → Moves hp b c → Moves hp a c
  Moves-trans m n = record {
    placed = n.placed;
    reads = λ q o h. n.reads q o (m.reads q o h);
    counts = n.counts ∙ m.counts;
  }

  abbrev pub at : List CuckooRecord → ℕ → CuckooRecord
  at path d = get_or path d no_record

  abbrev pub swapped : List CuckooRecord → ℕ → List Bucket → List Bucket
  swapped path d bs =
      move_to_bucket bs (at path d).bucket (at path d).slot (at path (suc d)).bucket
        (at path (suc d)).slot

  -- One of the first `depth` slots of the path holds no pair.
  abbrev pub LostPair : List CuckooRecord → ℕ → List Bucket → Type 0
  LostPair path depth bs =
      (d : ℕ) × (d < depth) × ((cell bs (at path d).bucket (at path d).slot).storage ≡ none)

  pub move_loop_swap :
      (path : List CuckooRecord) (d : ℕ) (bs : List Bucket)
      → swap_valid bs (at path d) (at path (suc d)) ≡ succeeded
      → move_loop path (suc d) bs ≡ move_loop path d (swapped path d bs)
  unfolding move_loop
  move_loop_swap path d bs ok = rw (move_loop, ok) refl

  move_loop_stop :
      (path : List CuckooRecord) (d : ℕ) (bs : List Bucket)
      → swap_valid bs (at path d) (at path (suc d)) ≡ invalidated
      → move_loop path (suc d) bs ≡ (bs, invalidated)
  unfolding move_loop
  move_loop_stop path d bs bad = rw (move_loop, bad) refl

  move_loop_undefined :
      (path : List CuckooRecord) (d : ℕ) (bs : List Bucket)
      → swap_valid bs (at path d) (at path (suc d)) ≡ destroyed
      → move_loop path (suc d) bs ≡ (bs, destroyed)
  unfolding move_loop
  move_loop_undefined path d bs bad = rw (move_loop, bad) refl

  -- The key that is hashed is gone from its slot.
  move_loop_gone :
      (path : List CuckooRecord) (depth : ℕ) (bs : List Bucket)
      → (move_loop path depth bs).1 ≡ destroyed
      → LostPair path depth (move_loop path depth bs).0
  move_loop_gone path zero bs e = unfold move_loop in absurd (cc e)
  move_loop_gone path (suc d) bs e =
      elim (Attempt-cases (swap_valid bs (at path d) (at path (suc d)))) [
        | inl ok ↦
            let step = move_loop_swap path d bs ok in
            let (n, less, gone) =
              move_loop_gone path d (swapped path d bs) (sym (ap (λ r. r.1) step) ∙ e) in
            (
              n,
              omega (arith, less),
              subst
                  (λ (r : List Bucket × Attempt).
                    (cell r.0 (at path n).bucket (at path n).slot).storage ≡ none)
                  (sym step) gone,
            )
        | inr (inl bad) ↦ cc (ap (λ r. r.1) (move_loop_stop path d bs bad), e)
        | inr (inr bad) ↦ (
          d,
          omega arith,
          subst
              (λ (r : List Bucket × Attempt).
                (cell r.0 (at path d).bucket (at path d).slot).storage ≡ none)
              (sym (move_loop_undefined path d bs bad)) (swap_valid_gone bs _ _ bad),
        )
      ]

  cuckoopath_move_gone :
      (path : List CuckooRecord) (depth : ℕ) (bs : List Bucket)
      → (cuckoopath_move path depth bs).1 ≡ destroyed
      → LostPair path depth (cuckoopath_move path depth bs).0
  unfolding cuckoopath_move
  cuckoopath_move_gone path zero bs e = absurd (ground (arith, e))
  cuckoopath_move_gone path (suc d) bs e = move_loop_gone path (suc d) bs e

  -- What is left of the buckets, with the outcome.
  pub record Relocated (hp : ℕ) (path : List CuckooRecord) (depth : ℕ) (bs : List Bucket)
      (r : List Bucket × Attempt) : Type 0 where
    pub moves : Moves hp bs r.0
    pub frees : r.1 ≡ succeeded → (cell r.0 (at path 0).bucket (at path 0).slot).occupied ≡ false
    pub gone : r.1 ≡ destroyed → LostPair path depth r.0

  module _ (laws : Laws) {hp : ℕ} (b : ℕ) (path : List CuckooRecord)
      (chain : IsChain hp b path) where
    pub swapped-Moves :
        (d : ℕ) (bs : List Bucket)
        → IsPlaced hp bs
        → suc d < length path
        → swap_valid bs (at path d) (at path (suc d)) ≡ succeeded
        → Moves hp bs (swapped path d bs)
    swapped-Moves d bs placed lt ok =
        swap-Moves laws bs placed (at path d) (at path (suc d)) (chain-link hp b path d chain lt)
          (chain-slot hp b path (suc d) chain lt) (swap_valid-Swap bs _ _ ok)

    move_loop-Moves :
        (depth : ℕ) (bs : List Bucket)
        → IsPlaced hp bs
        → depth < length path
        → Moves hp bs (move_loop path depth bs).0
    move_loop-Moves zero bs placed lt = unfold move_loop in Moves-refl placed
    move_loop-Moves (suc d) bs placed lt =
        elim (Attempt-cases (swap_valid bs (at path d) (at path (suc d)))) [
          | inr (inl bad) ↦ rw (move_loop_stop path d bs bad) (Moves-refl placed)
          | inr (inr bad) ↦ rw (move_loop_undefined path d bs bad) (Moves-refl placed)
          | inl ok ↦
              let m = swapped-Moves d bs placed lt ok in
              rw (move_loop_swap path d bs ok)
                (Moves-trans m (move_loop-Moves d (swapped path d bs) m.placed (omega arith)))
        ]

    -- The last swap frees the first slot of the path.
    move_loop_frees :
        (d : ℕ) (bs : List Bucket)
        → IsPlaced hp bs
        → suc d < length path
        → (move_loop path (suc d) bs).1 ≡ succeeded
        → (cell (move_loop path (suc d) bs).0 (at path 0).bucket (at path 0).slot).occupied ≡ false
    move_loop_frees zero bs placed lt done =
        elim (Attempt-cases (swap_valid bs (at path 0) (at path 1))) [
          | inr (inl bad) ↦ cc (ap (λ r. r.1) (move_loop_stop path 0 bs bad), done)
          | inr (inr bad) ↦ cc (ap (λ r. r.1) (move_loop_undefined path 0 bs bad), done)
          | inl ok ↦ rw (move_loop_swap path 0 bs ok) (
              unfold move_loop in
              swap_frees laws bs placed (at path 0) (at path 1) (chain-link hp b path 0 chain lt)
                (chain-slot hp b path 1 chain lt) (swap_valid-Swap bs (at path 0) (at path 1) ok))
        ]
    move_loop_frees (suc d) bs placed lt done =
        elim (Attempt-cases (swap_valid bs (at path (suc d)) (at path (suc (suc d))))) [
          | inr (inl bad) ↦ cc (ap (λ r. r.1) (move_loop_stop path (suc d) bs bad), done)
          | inr (inr bad) ↦ cc (ap (λ r. r.1) (move_loop_undefined path (suc d) bs bad), done)
          | inl ok ↦
              let step = move_loop_swap path (suc d) bs ok in
              let m = swapped-Moves (suc d) bs placed lt ok in
              rw step (
                move_loop_frees d (swapped path (suc d) bs) m.placed (omega arith)
                  (rw step at done))
        ]

    -- The pairs are kept, whether or not all swaps are made.
    pub cuckoopath_move-Moves :
        (depth : ℕ) (bs : List Bucket)
        → IsPlaced hp bs
        → depth < length path
        → Moves hp bs (cuckoopath_move path depth bs).0
    unfolding cuckoopath_move
    cuckoopath_move-Moves zero bs placed lt = Moves-refl placed
    cuckoopath_move-Moves (suc d) bs placed lt = move_loop-Moves (suc d) bs placed lt

    -- Where `cuckoopath_move` returns true on such a path, the first slot of the path is empty
    -- afterwards.
    pub cuckoopath_move_frees :
        (depth : ℕ) (bs : List Bucket)
        → IsPlaced hp bs
        → depth < length path
        → (cuckoopath_move path depth bs).1 ≡ succeeded
        → (cell (cuckoopath_move path depth bs).0 (at path 0).bucket (at path 0).slot).occupied
          ≡ false
    unfolding cuckoopath_move
    cuckoopath_move_frees zero bs placed lt done = ground arith
    cuckoopath_move_frees (suc d) bs placed lt done = move_loop_frees d bs placed lt done

    -- Along any path whose buckets are linked by `alt_index` and whose slots are in range,
    -- whatever the table holds there, what `cuckoopath_move` has moved when it ends keeps the
    -- placement of all pairs in order, every reading of the map, and the number of pairs. Where it
    -- succeeds the first slot of the path is empty; and where it ends in undefined behaviour, the
    -- hash of a key that is gone, one of the slots on the path that it was to move from holds no
    -- pair.
    pub cuckoopath_move-Relocated :
        (depth : ℕ) (bs : List Bucket)
        → IsPlaced hp bs
        → depth < length path
        → Relocated hp path depth bs (cuckoopath_move path depth bs)
    cuckoopath_move-Relocated depth bs placed lt = record {
      moves = cuckoopath_move-Moves depth bs placed lt;
      frees = cuckoopath_move_frees depth bs placed lt;
      gone = cuckoopath_move_gone path depth bs;
    }

  -- What `run_cuckoo` owes `cuckoo_insert`: it only moves pairs, and where it succeeds the slot
  -- it names is an empty one of the two buckets.
  pub data Ran (hp i1 i2 : ℕ) (bs : List Bucket) : Freed (List Bucket) → Type 0 where
    made_room :
        {bs' : List Bucket} {i s : ℕ}
        → Moves hp bs bs'
        → (i ≡ i1) ⊎ (i ≡ i2)
        → s < slot_per_bucket
        → (cell bs' i s).occupied ≡ false
        → Ran hp i1 i2 bs (freed bs' i s)
    no_path : {bs' : List Bucket} → Moves hp bs bs' → Ran hp i1 i2 bs (full_table bs')

  Ran-after :
      {hp i1 i2 : ℕ} {bs bs' : List Bucket} {r : Freed (List Bucket)}
      → Moves hp bs bs'
      → Ran hp i1 i2 bs' r
      → Ran hp i1 i2 bs r
  Ran-after m (made_room n e lt f) = made_room (Moves-trans m n) e lt f
  Ran-after m (no_path n) = no_path (Moves-trans m n)

  module _ (fuel search_fuel hp i1 i2 : ℕ) (bs : List Bucket) where
    abbrev pub search : Option (Option (List CuckooRecord))
    search = cuckoopath_search search_fuel hp bs i1 i2

    abbrev pub tried : List CuckooRecord → List Bucket × Attempt
    tried path = cuckoopath_move path (length path - 1) bs

    pub run_out : search ≡ none → run_cuckoo (suc fuel) search_fuel hp bs i1 i2 ≡ none
    unfolding run_cuckoo
    run_out e = ground arith

    pub run_full :
        search ≡ some none → run_cuckoo (suc fuel) search_fuel hp bs i1 i2 ≡ some (full_table bs)
    unfolding run_cuckoo
    run_full e = ground arith

    pub run_done :
        (path : List CuckooRecord)
        → search ≡ some (some path)
        → (tried path).1 ≡ succeeded
        → run_cuckoo (suc fuel) search_fuel hp bs i1 i2
          ≡ some (freed (tried path).0 (at path 0).bucket (at path 0).slot)
    unfolding run_cuckoo
    run_done path e done = ground arith

    pub run_undefined :
        (path : List CuckooRecord)
        → search ≡ some (some path)
        → (tried path).1 ≡ destroyed
        → run_cuckoo (suc fuel) search_fuel hp bs i1 i2 ≡ none
    unfolding run_cuckoo
    run_undefined path e bad = ground arith

    pub run_again :
        (path : List CuckooRecord)
        → search ≡ some (some path)
        → (tried path).1 ≡ invalidated
        → run_cuckoo (suc fuel) search_fuel hp bs i1 i2
          ≡ run_cuckoo fuel search_fuel hp (tried path).0 i1 i2
    unfolding run_cuckoo
    run_again path e failed = ground arith

  path_head :
      {hp i1 i2 : ℕ} (path : List CuckooRecord)
      → IsPath hp i1 i2 path
      → ((at path 0).bucket ≡ i1) ⊎ ((at path 0).bucket ≡ i2)
  path_head [] p = absurd (omega (arith, p.nonempty))
  path_head (r ∷ path) p = ground (arith, p.from_either, p.chain.0)

  pub run_cuckoo-Ran :
      (laws : Laws) (fuel search_fuel hp i1 i2 : ℕ) (bs : List Bucket) (r : Freed (List Bucket))
      → IsPlaced hp bs
      → run_cuckoo fuel search_fuel hp bs i1 i2 ≡ some r
      → Ran hp i1 i2 bs r
  run_cuckoo-Ran laws zero search_fuel hp i1 i2 bs r placed h = unfold run_cuckoo in cc
  run_cuckoo-Ran laws (suc fuel) search_fuel hp i1 i2 bs r placed h =
      elim (Option-cases (cuckoopath_search search_fuel hp bs i1 i2)) [
        | inl e ↦ cc (h, run_out fuel search_fuel hp i1 i2 bs e)
        | inr (none, e) ↦
            let same : full_table bs ≡ r =
              some_eq (sym (run_full fuel search_fuel hp i1 i2 bs e) ∙ h) in
            subst (Ran hp i1 i2 bs) same (no_path (Moves-refl placed))
        | inr (some path, e) ↦
            let p = cuckoopath_search-IsPath laws search_fuel hp bs placed i1 i2 path e in
            let depth = length path - 1 in
            let m =
              cuckoopath_move-Moves laws p.start path p.chain depth bs placed
                (omega (arith, p.nonempty)) in
            elim (Attempt-cases (cuckoopath_move path depth bs).1) [
              | inl done ↦
                  subst (Ran hp i1 i2 bs)
                    (some_eq (sym (run_done fuel search_fuel hp i1 i2 bs path e done) ∙ h))
                    (made_room m (path_head path p)
                      (chain-slot hp p.start path 0 p.chain p.nonempty)
                      (cuckoopath_move_frees laws p.start path p.chain depth bs placed
                        (omega (arith, p.nonempty)) done))
              | inr (inr bad) ↦ cc (h, run_undefined fuel search_fuel hp i1 i2 bs path e bad)
              | inr (inl failed) ↦ Ran-after m (
                  run_cuckoo-Ran laws fuel search_fuel hp i1 i2 _ r m.placed
                    (sym (run_again fuel search_fuel hp i1 i2 bs path e failed) ∙ h))
            ]
      ]
