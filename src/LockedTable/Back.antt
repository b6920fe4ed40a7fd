-- ===== src/LockedTable/Back.antt =====
-- `operator--` after `operator++`, and iterators after a release.
use libcuckoo_cxx.Base.{
  ℕ, zero, suc, ◌+◌, ◌-◌, ◌<◌, ◌≤◌, ◌≡◌, refl, ap, ◌∙◌, List, true, false, some, arith, length,
  Bool-cases, inl, inr,
}
use libcuckoo_cxx.Bucket
use libcuckoo_cxx.Bucket.{Bucket}
use libcuckoo_cxx.LockedTable.{
  Iterator, end_pos, previous_slot, advance, step_forward, retreat, step_back, increment, decrement,
  next_slot,
}
use libcuckoo_cxx.LockedTable.Steps.{
  found_at, passed_by, next_slot_left, next_here, next_later, skipped,
}
use libcuckoo_cxx.Params.{Params}
use libcuckoo_cxx.Table.{bucket, returned}

module _ ⦃P : Params⦄ where
  open P use {Key, Mapped, slot_per_bucket}

  previous_here :
      (b : Bucket) (s : ℕ) → Bucket.occupied b s ≡ true → previous_slot b (suc s) ≡ some s
  unfolding previous_slot
  previous_here b s e = rw e refl

  previous_later :
      (b : Bucket) (s : ℕ)
      → Bucket.occupied b s ≡ false
      → previous_slot b (suc s) ≡ previous_slot b s
  unfolding previous_slot
  previous_later b s e = rw e refl

  module _ (bs : List Bucket) where
    retreat_found :
        (i n s : ℕ)
        → previous_slot (bucket bs i) n ≡ some s
        → retreat bs i n ≡ record { index = i; slot = s }
    unfolding retreat
    retreat_found zero n s e = rw (retreat, e) refl
    retreat_found (suc i) n s e = rw (retreat, e) refl

    retreat_same :
        (i n m : ℕ)
        → previous_slot (bucket bs i) n ≡ previous_slot (bucket bs i) m
        → retreat bs i n ≡ retreat bs i m
    unfolding retreat
    retreat_same zero n m e = rw (retreat, e) refl
    retreat_same (suc i) n m e = rw (retreat, e) refl

    retreat_over : (i : ℕ) → retreat bs (suc i) 0 ≡ retreat bs i slot_per_bucket
    unfolding retreat previous_slot
    retreat_over i = refl

    module _ (left i : ℕ)
        (later : step_back bs (advance bs left (suc i) 0) ≡ retreat bs (suc i) 0) where
      back_slots :
          (m n : ℕ)
          → n + m ≡ slot_per_bucket
          → step_back bs (advance bs (suc left) i n) ≡ retreat bs i n
      back_slots zero n e =
          ap (step_back bs)
            (passed_by bs left i n (next_slot_left bs i zero n e ∙ unfold next_slot in refl))
          ∙ later
          ∙ retreat_over i
          ∙ ap (retreat bs i) (omega (arith, e))
      back_slots (suc m) n e = elim (Bool-cases (Bucket.occupied (bucket bs i) n)) [
        | inl busy ↦
            ap (step_back bs) (
              found_at bs left i n n
                (next_slot_left bs i (suc m) n e ∙ next_here bs (bucket bs i) m n busy))
            ∙ unfold step_back in refl
        | inr free ↦
            ap (step_back bs) (
              skipped bs left i n _
                (next_slot_left bs i (suc m) n e ∙ next_later bs (bucket bs i) m n free)
                (next_slot_left bs i m (suc n) (omega (arith, e))))
            ∙ back_slots m (suc n) (omega (arith, e))
            ∙ retreat_same i (suc n) n (previous_later (bucket bs i) n free)
      ]

    back_buckets :
        (left i : ℕ) → i + left ≡ length bs → step_back bs (advance bs left i 0) ≡ retreat bs i 0
    unfolding advance step_back end_pos
    back_buckets zero i at = ap (λ (l : ℕ). retreat bs l 0) (omega (arith, at))
    back_buckets (suc left) i at =
        back_slots left i (back_buckets left (suc i) (omega (arith, at))) slot_per_bucket 0
          (omega arith)

    back_from :
        (left i n : ℕ)
        → i + suc left ≡ length bs
        → n ≤ slot_per_bucket
        → step_back bs (advance bs (suc left) i n) ≡ retreat bs i n
    back_from left i n at le =
        back_slots left i (back_buckets left (suc i) (omega (arith, at))) (slot_per_bucket - n) n
          (omega (arith, le))

    step_back-step_forward :
        (i s : ℕ)
        → i < length bs
        → s < slot_per_bucket
        → Bucket.occupied (bucket bs i) s ≡ true
        → step_back bs (step_forward bs (record { index = i; slot = s }))
          ≡ record { index = i; slot = s }
    unfolding step_forward
    step_back-step_forward i s less bound busy =
        ap (λ (l : ℕ). step_back bs (advance bs l i (suc s))) (omega (arith, less))
        ∙ back_from (length bs - suc i) i (suc s) (omega (arith, less)) (omega (arith, bound))
        ∙ retreat_found i (suc s) s (previous_here (bucket bs i) s busy)

    -- From any slot in range that is occupied, `operator++` followed by `operator--` comes back to
    -- it, also from the last pair over the end.
    pub decrement-increment :
        (i s : ℕ)
        → i < length bs
        → s < slot_per_bucket
        → Bucket.occupied (bucket bs i) s ≡ true
        → (next : Iterator) × (increment bs true (record { index = i; slot = s }) ≡ returned next)
          × (decrement bs true next ≡ returned (record { index = i; slot = s }))
    unfolding increment decrement
    decrement-increment i s less bound busy =
        (_, refl, ap returned (step_back-step_forward i s less bound busy))
