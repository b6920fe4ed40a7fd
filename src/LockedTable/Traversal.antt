-- ===== src/LockedTable/Traversal.antt =====
-- What the loop from `begin` to `end` sees.
use libcuckoo_cxx.Base.{
  ℕ, zero, suc, ◌+◌, ◌-◌, ◌<◌, ◌≡◌, refl, sym, ap, ◌∙◌, inl, inr, List, [], ◌∷◌, ◌++◌, true, false,
  Option, none, some, arith, length, Bool-cases, ==_refl, ==_false,
}
use libcuckoo_cxx.Bucket.Laws.{is_some}
use libcuckoo_cxx.Bucket
use libcuckoo_cxx.Bucket.{Bucket, Slot}
use libcuckoo_cxx.LockedTable.{
  Iterator, lock_table, next_slot, same_position, end_pos, dereference, advance, step_forward,
  increment, make_iterator, begin, has_table_lock,
}
use libcuckoo_cxx.Hash.Alternate.{hashsize_pos}
use libcuckoo_cxx.LockedTable.Pairs.{
  pairs, visit, slots_from, buckets_from, buckets_from-pairs, length-pairs, slots_none, slots_some,
}
use libcuckoo_cxx.LockedTable.Steps.{
  found_at, passed_by, next_slot_left, next_here, next_later, skipped,
}
use libcuckoo_cxx.Params.{Params, Laws}
use libcuckoo_cxx.Table.Counts.{used}
use libcuckoo_cxx.Table.Valid.{cell, IsPlaced}
use libcuckoo_cxx.Table.{bucket, returned}

module _ ⦃P : Params⦄ where
  open P use {Key, Mapped, slot_per_bucket}

  module _ (bs : List Bucket)
      (live : (i s : ℕ) → (cell bs i s).occupied ≡ is_some (cell bs i s).storage) where
    visit_end : (fuel : ℕ) → visit (suc fuel) bs true (end_pos bs) ≡ some []
    unfolding visit same_position end_pos
    visit_end fuel = ground (arith, ==_refl (length bs))

    visit_slot :
        (fuel i s : ℕ) (kv : Key × Mapped) (kvs : List (Key × Mapped))
        → i < length bs
        → (cell bs i s).storage ≡ some kv
        → visit fuel bs true (step_forward bs (record { index = i; slot = s })) ≡ some kvs
        → visit (suc fuel) bs true (record { index = i; slot = s }) ≡ some (kv ∷ kvs)
    unfolding visit same_position end_pos dereference increment
    visit_slot fuel i s kv kvs less stored rest =
        ground (arith, ==_false i (length bs) (λ e. omega (arith, e, less)), stored, rest)

    occupied_of :
        (i s : ℕ) (o : Option (Key × Mapped))
        → (cell bs i s).storage ≡ o
        → (cell bs i s).occupied ≡ is_some o
    occupied_of i s o e = live i s ∙ ap is_some e

    module _ (left i : ℕ) (at : i + suc left ≡ length bs)
        (later : (fuel : ℕ)
          → length (buckets_from bs left (suc i)) < fuel
          → visit fuel bs true (advance bs left (suc i) 0)
            ≡ some (buckets_from bs left (suc i))) where
      -- What is left to be seen with `m` slots of the bucket `i` to go.
      abbrev remaining : ℕ → ℕ → List (Key × Mapped)
      remaining m n = slots_from (bucket bs i) m n ++ buckets_from bs left (suc i)

      here :
          (n : ℕ)
          → step_forward bs (record { index = i; slot = n }) ≡ advance bs (suc left) i (suc n)
      unfolding step_forward
      here n = ap (λ (l : ℕ). advance bs l i (suc n)) (omega (arith, at))

      module _ (m n : ℕ) (e : n + suc m ≡ slot_per_bucket)
          (again : (fuel : ℕ)
            → length (remaining m (suc n)) < fuel
            → visit fuel bs true (advance bs (suc left) i (suc n))
              ≡ some (remaining m (suc n))) where
        over_empty :
            Bucket.occupied (bucket bs i) n ≡ false
            → advance bs (suc left) i n ≡ advance bs (suc left) i (suc n)
        over_empty free =
            skipped bs left i n _
              (next_slot_left bs i (suc m) n e ∙ next_later bs (bucket bs i) m n free)
              (next_slot_left bs i m (suc n) (omega (arith, e)))

        visit_one :
            (fuel : ℕ) (o : Option (Key × Mapped))
            → (cell bs i n).storage ≡ o
            → length (remaining (suc m) n) < fuel
            → visit fuel bs true (advance bs (suc left) i n) ≡ some (remaining (suc m) n)
        visit_one fuel none stored enough =
            let list : remaining (suc m) n ≡ remaining m (suc n) =
              ap (λ xs. xs ++ buckets_from bs left (suc i)) (slots_none (bucket bs i) m n stored) in
            ap (visit fuel bs true) (over_empty (occupied_of i n none stored))
            ∙ again fuel (omega (arith, enough, ap length list))
            ∙ ap some (sym list)
        visit_one zero (some kv) stored enough = absurd (omega (arith, enough))
        visit_one (suc fuel) (some kv) stored enough =
            let list : remaining (suc m) n ≡ kv ∷ remaining m (suc n) =
              ap (λ xs. xs ++ buckets_from bs left (suc i))
                (slots_some (bucket bs i) m n kv stored) in
            ap (visit (suc fuel) bs true) (
              found_at bs left i n n (
                next_slot_left bs i (suc m) n e
                ∙ next_here bs (bucket bs i) m n (occupied_of i n (some kv) stored)))
            ∙ visit_slot fuel i n kv _ (omega (arith, at)) stored (
                ap (visit fuel bs true) (here n)
                ∙ again fuel (omega (arith, enough, ap length list)))
            ∙ ap some (sym list)

      visit_slots :
          (m n fuel : ℕ)
          → n + m ≡ slot_per_bucket
          → length (remaining m n) < fuel
          → visit fuel bs true (advance bs (suc left) i n) ≡ some (remaining m n)
      unfolding slots_from
      visit_slots zero n fuel e enough =
          ap (visit fuel bs true)
            (passed_by bs left i n (next_slot_left bs i zero n e ∙ unfold next_slot in refl))
          ∙ later fuel enough
      visit_slots (suc m) n fuel e enough =
          visit_one m n e (λ fuel' more. visit_slots m (suc n) fuel' (omega (arith, e)) more) fuel
            (cell bs i n).storage refl enough

    visit_buckets :
        (left i fuel : ℕ)
        → i + left ≡ length bs
        → length (buckets_from bs left i) < fuel
        → visit fuel bs true (advance bs left i 0) ≡ some (buckets_from bs left i)
    unfolding buckets_from advance
    visit_buckets zero i zero at enough = absurd (omega (arith, enough))
    visit_buckets zero i (suc fuel) at enough = visit_end fuel
    visit_buckets (suc left) i fuel at enough =
        visit_slots left i at
          (λ fuel' more. visit_buckets left (suc i) fuel' (omega (arith, at)) more) slot_per_bucket
          0 fuel (omega arith) enough

    make_first :
        (left m : ℕ)
        → suc left ≡ length bs
        → suc m ≡ slot_per_bucket
        → make_iterator bs (record { index = 0; slot = 0 }) ≡ advance bs (suc left) 0 0
    unfolding make_iterator end_pos step_forward
    make_first left m e f = elim (Bool-cases (cell bs 0 0).occupied) [
      | inl busy ↦
          let there =
            found_at bs left 0 0 0
              (next_slot_left bs 0 (suc m) 0 (omega arith) ∙ next_here bs (bucket bs 0) m 0 busy) in
          rw (make_iterator, ==_false 0 (length bs) (λ z. omega (arith, z)), busy) (sym there)
      | inr free ↦
          let past =
            skipped bs left 0 0 _
              (next_slot_left bs 0 (suc m) 0 (omega arith) ∙ next_later bs (bucket bs 0) m 0 free)
              (next_slot_left bs 0 m 1 (omega arith)) in
          rw (make_iterator, ==_false 0 (length bs) (λ z. omega (arith, z)), free)
            (ap (λ (l : ℕ). advance bs l 0 1) (omega (arith, e)) ∙ sym past)
    ]

  module _ (laws : Laws) (hp : ℕ) (bs : List Bucket) (placed : IsPlaced hp bs) (fuel : ℕ)
      (enough : used bs < fuel) where
    -- What the loop over a locked table sees.
    pub record Visited : Type 0 where
      pub first : Iterator
      pub begins : begin bs lock_table.0 lock_table.1 ≡ returned first
      pub sees : visit fuel bs lock_table.1 first ≡ some (pairs bs)
      pub counts : length (pairs bs) ≡ used bs

    -- On the buckets of a valid table, the loop from `begin` to `end` with `operator++` and
    -- `operator*`, while the table is locked, ends after as many rounds as there are pairs and
    -- sees exactly the pairs of the table, each once, in the order of buckets and slots.
    pub visit-pairs : Visited
    unfolding begin lock_table has_table_lock
    visit-pairs =
        let size : 0 < length bs = omega (arith, placed.width, hashsize_pos hp placed.small) in
        let all = buckets_from-pairs bs placed.rows in
        let counted = length-pairs bs placed.live in
        let first =
          make_first bs placed.live (length bs - 1) (slot_per_bucket - 1) (omega (arith, size))
            (omega (arith, laws.slots_pos)) in
        record {
          first = make_iterator bs (record { index = 0; slot = 0 });
          begins = refl;
          sees =
              ap (visit fuel bs true)
                (first ∙ ap (λ (l : ℕ). advance bs l 0 0) (omega (arith, size)))
              ∙ visit_buckets bs placed.live (length bs) 0 fuel (omega arith)
                  (omega (arith, ap length all, counted, enough))
              ∙ ap some all;
          counts = counted;
        }
