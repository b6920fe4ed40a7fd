-- ===== src/LockedTable/Steps.antt =====
-- The steps of `operator++` within a bucket and on to the next one.
use libcuckoo_cxx.Base.{
  ℕ, suc, ◌+◌, ◌-◌, ◌≡◌, refl, sym, ap, ◌∙◌, List, true, false, Option, none, some, arith,
}
use libcuckoo_cxx.Bucket
use libcuckoo_cxx.Bucket.{Bucket}
use libcuckoo_cxx.LockedTable.{next_slot, advance}
use libcuckoo_cxx.Params.{Params}
use libcuckoo_cxx.Table.{bucket}

module _ ⦃P : Params⦄ where
  open P use {Key, Mapped, slot_per_bucket}

  module _ (bs : List Bucket) where
    pub found_at :
        (left i n s : ℕ)
        → next_slot (bucket bs i) (slot_per_bucket - n) n ≡ some s
        → advance bs (suc left) i n ≡ record { index = i; slot = s }
    unfolding advance
    found_at left i n s e = rw (advance, e) refl

    pub passed_by :
        (left i n : ℕ)
        → next_slot (bucket bs i) (slot_per_bucket - n) n ≡ none
        → advance bs (suc left) i n ≡ advance bs left (suc i) 0
    unfolding advance
    passed_by left i n e = rw (advance, e) refl

    pub next_slot_left :
        (i m n : ℕ)
        → n + m ≡ slot_per_bucket
        → next_slot (bucket bs i) (slot_per_bucket - n) n ≡ next_slot (bucket bs i) m n
    next_slot_left i m n e = ap (λ (l : ℕ). next_slot (bucket bs i) l n) (omega (arith, e))

    pub next_here :
        (b : Bucket) (m n : ℕ) → Bucket.occupied b n ≡ true → next_slot b (suc m) n ≡ some n
    unfolding next_slot
    next_here b m n e = rw e refl

    pub next_later :
        (b : Bucket) (m n : ℕ)
        → Bucket.occupied b n ≡ false
        → next_slot b (suc m) n ≡ next_slot b m (suc n)
    unfolding next_slot
    next_later b m n e = rw e refl

    pub skipped :
        (left i n : ℕ) (o : Option ℕ)
        → next_slot (bucket bs i) (slot_per_bucket - n) n ≡ o
        → next_slot (bucket bs i) (slot_per_bucket - suc n) (suc n) ≡ o
        → advance bs (suc left) i n ≡ advance bs (suc left) i (suc n)
    skipped left i n none e f = passed_by left i n e ∙ sym (passed_by left i (suc n) f)
    skipped left i n (some s) e f = found_at left i n s e ∙ sym (found_at left i (suc n) s f)
