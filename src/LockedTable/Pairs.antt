-- ===== src/LockedTable/Pairs.antt =====
-- The pairs of a table, and a loop over an iterator.
use libcuckoo_cxx.Base.{
  ℕ, zero, suc, ◌<◌, ◌≡◌, refl, sym, ap, ◌∙◌, inl, inr, List, [], ◌∷◌, ◌++◌, Bool, true, false,
  Option, none, some, arith, length, Option-cases, ap₂, length-append,
}
use libcuckoo_cxx.Bucket.Laws.{is_some}
use libcuckoo_cxx.Bucket
use libcuckoo_cxx.Bucket.{Bucket, Slot}
use libcuckoo_cxx.LockedTable.{Iterator, same_position, end_pos, dereference, increment}
use libcuckoo_cxx.Params.{Params}
use libcuckoo_cxx.Table.Counts.{used, used_slots}
use libcuckoo_cxx.Table.Valid.{cell}
use libcuckoo_cxx.Table.{bucket, returned, thrown}

module _ ⦃P : Params⦄ where
  open P use {Key, Mapped, slot_per_bucket}

  -- The pairs of a bucket and of a table, slot by slot.
  unfoldable pub pairs_in : Bucket → List (Key × Mapped)
  pairs_in [] = []
  pairs_in (s ∷ b) = elim s.storage [ none ↦ pairs_in b | some kv ↦ kv ∷ pairs_in b ]

  unfoldable pub pairs : List Bucket → List (Key × Mapped)
  pairs [] = []
  pairs (b ∷ bs) = pairs_in b ++ pairs bs

  -- The loop `for (it = begin(); it != end(); ++it)`, on fuel, with what `*it` gives in each round.
  unfoldable pub visit : ℕ → List Bucket → Bool → Iterator → Option (List (Key × Mapped))
  visit zero bs owned it = none
  visit (suc fuel) bs owned it = elim (same_position owned it (end_pos bs)) [
    | true ↦ some []
    | false ↦ elim (dereference bs owned it) [
      | thrown _ ↦ none
      | returned none ↦ none
      | returned (some kv) ↦ elim (increment bs owned it) [
        | thrown _ ↦ none
        | returned next ↦ elim (visit fuel bs owned next) [
          | none ↦ none
          | some kvs ↦ some (kv ∷ kvs)
        ]
      ]
    ]
  ]

  -- The same pairs by index.
  unfoldable pub slots_from : Bucket → ℕ → ℕ → List (Key × Mapped)
  slots_from b zero n = []
  slots_from b (suc left) n = elim (Bucket.kvpair b n) [
    | none ↦ slots_from b left (suc n)
    | some kv ↦ kv ∷ slots_from b left (suc n)
  ]

  unfoldable pub buckets_from : List Bucket → ℕ → ℕ → List (Key × Mapped)
  buckets_from bs zero i = []
  buckets_from bs (suc left) i =
      slots_from (bucket bs i) slot_per_bucket 0 ++ buckets_from bs left (suc i)

  pub slots_from_tail :
      (x : Slot) (b : Bucket) (m n : ℕ) → slots_from (x ∷ b) m (suc n) ≡ slots_from b m n
  unfolding slots_from
  slots_from_tail x b zero n = refl
  slots_from_tail x b (suc m) n = elim (Option-cases (Bucket.kvpair b n)) [
    | inl e ↦ rw (slots_from, e) (slots_from_tail x b m (suc n))
    | inr (kv, e) ↦ rw (slots_from, e) (ap (λ xs. kv ∷ xs) (slots_from_tail x b m (suc n)))
  ]

  pub slots_from-pairs_in : (b : Bucket) → slots_from b (length b) 0 ≡ pairs_in b
  unfolding slots_from pairs_in
  slots_from-pairs_in [] = refl
  slots_from-pairs_in (x ∷ b) = elim (Option-cases x.storage) [
    | inl e ↦
        rw (slots_from, pairs_in, e) (slots_from_tail x b (length b) 0 ∙ slots_from-pairs_in b)
    | inr (kv, e) ↦
        rw (slots_from, pairs_in, e)
          (ap (λ xs. kv ∷ xs) (slots_from_tail x b (length b) 0 ∙ slots_from-pairs_in b))
  ]

  pub buckets_from_tail :
      (b : Bucket) (bs : List Bucket) (left i : ℕ)
      → buckets_from (b ∷ bs) left (suc i) ≡ buckets_from bs left i
  unfolding buckets_from
  buckets_from_tail b bs zero i = refl
  buckets_from_tail b bs (suc left) i =
      ap (λ xs. slots_from (bucket bs i) slot_per_bucket 0 ++ xs)
        (buckets_from_tail b bs left (suc i))

  pub buckets_from-pairs :
      (bs : List Bucket)
      → ((i : ℕ) → i < length bs → length (bucket bs i) ≡ slot_per_bucket)
      → buckets_from bs (length bs) 0 ≡ pairs bs
  unfolding buckets_from pairs
  buckets_from-pairs [] rows = refl
  buckets_from-pairs (b ∷ bs) rows =
      ap₂ (λ xs ys. xs ++ ys)
        (ap (λ (n : ℕ). slots_from b n 0) (sym (rows 0 (omega arith))) ∙ slots_from-pairs_in b)
        (buckets_from_tail b bs (length bs) 0
          ∙ buckets_from-pairs bs (λ i less. rows (suc i) (omega (arith, less))))

  pub length-pairs_in :
      (b : Bucket)
      → ((s : ℕ) → Bucket.occupied b s ≡ is_some (Bucket.kvpair b s))
      → length (pairs_in b) ≡ used_slots b
  unfolding pairs_in used_slots
  length-pairs_in [] live = refl
  length-pairs_in (x ∷ b) live = elim (Option-cases x.storage) [
    | inl e ↦ ground (arith, e, live 0, length-pairs_in b (λ s. live (suc s)))
    | inr (kv, e) ↦ ground (arith, e, live 0, length-pairs_in b (λ s. live (suc s)))
  ]

  pub length-pairs :
      (bs : List Bucket)
      → ((i s : ℕ) → (cell bs i s).occupied ≡ is_some (cell bs i s).storage)
      → length (pairs bs) ≡ used bs
  unfolding pairs used
  length-pairs [] live = refl
  length-pairs (b ∷ bs) live = omega (
    arith,
    length-append (pairs_in b) (pairs bs),
    length-pairs_in b (live 0),
    length-pairs bs (λ i. live (suc i)),
  )

  pub slots_none :
      (b : Bucket) (m n : ℕ)
      → Bucket.kvpair b n ≡ none
      → slots_from b (suc m) n ≡ slots_from b m (suc n)
  unfolding slots_from
  slots_none b m n e = rw (slots_from, e) refl

  pub slots_some :
      (b : Bucket) (m n : ℕ) (kv : Key × Mapped)
      → Bucket.kvpair b n ≡ some kv
      → slots_from b (suc m) n ≡ kv ∷ slots_from b m (suc n)
  unfolding slots_from
  slots_some b m n kv e = rw (slots_from, e) refl
