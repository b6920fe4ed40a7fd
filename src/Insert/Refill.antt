-- ===== src/Insert/Refill.antt =====
-- The loops of `SimpleMoveBucketsFn` over the buckets and over the ranges of `parallel_for`.
use libcuckoo_cxx.Base.{
  ℕ, zero, suc, ◌+◌, ◌-◌, ◌<◌, ◌≤◌, ◌≡◌, refl, sym, ap, ◌∙◌, subst, ◌⊎◌, inl, inr, List, [], ◌∷◌,
  Bool, none, arith, length, set, length-set, get_or-set_self, get_or-set_ne, ℕ_discrete,
}
use libcuckoo_cxx.Bucket.{Bucket}
use libcuckoo_cxx.Expand.Ranges.{IsPartition, Within}
use libcuckoo_cxx.Insert.Copied.{IsReady, Inserts, Ends, Copied, Copied-congr, Row, Filled, Grown}
use libcuckoo_cxx.Insert.Copy.{insert_slots-Copied}
use libcuckoo_cxx.Insert.{Outcome, insert_buckets, insert_ranges}
use libcuckoo_cxx.Params.{Params, Laws}
use libcuckoo_cxx.Table.Counts.{used, used_slots, used-set}
use libcuckoo_cxx.Table.Valid.{cell, IsPlaced, in_range}
use libcuckoo_cxx.Table.{Table, bucket, find}

module _ ⦃P : Params⦄ where
  open P use {Key, Mapped, key_eq}

  all_empty : (g : List Bucket) → ((i : ℕ) → i < length g → bucket g i ≡ []) → used g ≡ 0
  unfolding used used_slots
  all_empty [] e = refl
  all_empty (b ∷ g) e =
      omega (
        arith,
        all_empty g (λ i h. e (suc i) (omega (arith, h))),
        ap used_slots (e 0 (omega arith)),
      )

  module _ (laws : Laws) (split : ℕ → List (ℕ × ℕ)) (retries search_fuel : ℕ)
      (insert_into : Table → Key → Mapped → Outcome Bool) (Fails : Type 0) (hp : ℕ)
      (bs : List Bucket) (inserts : Inserts bs insert_into Fails) (placed : IsPlaced hp bs) where
    abbrev pub CopiedRows : (ℕ → Type 0) → Table → Type 0
    CopiedRows seen m = Copied bs (λ i s. seen i) m

    -- The buckets of `seen` have been copied; `left` are the others.
    pub record Refilled (first : Table) (seen : ℕ → Type 0) (m : Table) : Type 0 where
      pub copied : CopiedRows seen m
      pub left : List Bucket
      pub width : length left ≡ length bs
      pub others : (i : ℕ) → (seen i → ⊥) → bucket left i ≡ bucket bs i
      pub gone : (i : ℕ) → i < length bs → seen i → bucket left i ≡ []
      pub counts : used left + used m.buckets ≡ used bs
      pub grown : Grown first m

    Refilled-congr :
        {first : Table} (seen seen' : ℕ → Type 0) (m : Table)
        → ((i : ℕ) → i < length bs → seen' i → seen i)
        → ((i : ℕ) → seen i → seen' i)
        → Refilled first seen m
        → Refilled first seen' m
    Refilled-congr seen seen' m back forth r = record {
      copied =
          Copied-congr bs (λ i s. seen i) (λ i s. seen' i) m
            (λ i s k v stored d. back i (in_range bs i s stored).0 d) (λ i s d. forth i d) r.copied;
      left = r.left;
      width = r.width;
      others = λ i no. r.others i (λ d. no (forth i d));
      gone = λ i h d. r.gone i h (back i h d);
      counts = r.counts;
      grown = r.grown;
    }

    one_more_bucket :
        {first : Table} (seen : ℕ → Type 0) (i : ℕ) (m m' : Table)
        → i < length bs
        → (seen i → ⊥)
        → Refilled first seen m
        → Filled bs (Row (λ j s. seen j) i 0) (used_slots (bucket bs i)) m m'
        → Refilled first (λ j. seen j ⊎ (j ≡ i)) m'
    unfolding used_slots
    one_more_bucket seen i m m' less fresh r (copied, counts, grew) = record {
      copied =
          Copied-congr bs (Row (λ j s. seen j) i 0) (λ j s. seen j ⊎ (j ≡ i)) m'
            (λ j s k v stored d. elim d [ inl old ↦ inl old | inr e ↦ inr (e, omega arith) ])
            (λ j s d. elim d [ inl old ↦ inl old | inr e ↦ inr e.0 ]) copied;
      left = set r.left i [];
      width = length-set r.left i [] ∙ r.width;
      others = λ j no.
          get_or-set_ne r.left i j [] [] (λ e. no (inr (sym e))) ∙ r.others j (λ d. no (inl d));
      gone = λ j h d. elim (ℕ_discrete i j) [
        | yes e ↦
            subst (λ x. bucket (set r.left i []) x ≡ []) e
              (get_or-set_self r.left i [] [] (omega (arith, less, r.width)))
        | no n ↦
            get_or-set_ne r.left i j [] [] n
            ∙ elim d [ inl old ↦ r.gone j h old | inr e ↦ absurd (n (sym e)) ]
      ];
      counts = omega (
        arith,
        used-set r.left i [] (omega (arith, less, r.width)),
        ap used_slots (r.others i fresh),
        counts,
        r.counts,
      );
      grown = λ h. omega (arith, r.grown h, grew h);
    }

    insert_buckets-Refilled :
        {first : Table} (left i : ℕ) (seen : ℕ → Type 0) (m : Table)
        → i + left ≤ length bs
        → ((j : ℕ) → Within i (i + left) j → seen j → ⊥)
        → Refilled first seen m
        → Ends Fails
            (insert_buckets split retries search_fuel insert_into bs left i m)
            (Refilled first (λ j. seen j ⊎ Within i (i + left) j))
    unfolding insert_buckets
    insert_buckets-Refilled zero i seen m le fresh r = inr (
      m,
      refl,
      Refilled-congr seen _ m
          (λ j less d. elim d [ inl old ↦ old | inr w ↦ absurd (omega (arith, w.0, w.1)) ])
          (λ j d. inl d) r,
    )
    insert_buckets-Refilled (suc left) i seen m le fresh r =
        elim (insert_slots-Copied laws split retries search_fuel insert_into Fails hp bs inserts
          placed (bucket bs i) (λ j s. seen j) i 0 m (λ u. ap (λ w. cell bs i w) (omega arith))
          (λ u _ d. fresh i (omega arith, omega arith) d) r.copied) [
            | inl (f, e) ↦ inl (f, rw (insert_buckets, e) refl)
            | inr (m1, e, done) ↦
                elim (insert_buckets-Refilled left (suc i) (λ j. seen j ⊎ (j ≡ i)) m1
                  (omega (arith, le))
                  (λ j w d. elim d [
                    | inl old ↦ fresh j (omega (arith, w.0), omega (arith, w.1)) old
                    | inr same ↦ omega (arith, same, w.0)
                  ])
                  (one_more_bucket seen i m m1 (omega (arith, le))
                    (λ d. fresh i (omega arith, omega arith) d) r done)) [
                      | inl (f, g) ↦ inl (f, rw (insert_buckets, e) g)
                      | inr (m2, g, r2) ↦ inr (
                        m2,
                        rw (insert_buckets, e) g,
                        Refilled-congr _ _ m2
                            (λ j less d. elim d [
                              | inl old ↦ inl (inl old)
                              | inr w ↦ elim (ℕ_discrete j i) [
                                | yes same ↦ inl (inr same)
                                | no other ↦ inr (omega (arith, w.0, other), omega (arith, w.1))
                              ]
                            ])
                            (λ j d. elim d [
                              | inl (inl old) ↦ inl old
                              | inl (inr same) ↦ inr (omega (arith, same), omega (arith, same))
                              | inr w ↦ inr (omega (arith, w.0), omega (arith, w.1))
                            ])
                            r2,
                      )
                    ]
          ]

    insert_ranges-Refilled :
        {first : Table} (ranges : List (ℕ × ℕ)) (seen : ℕ → Type 0) (m : Table)
        → IsPartition seen (length bs) ranges
        → Refilled first seen m
        → Ends Fails
            (insert_ranges split retries search_fuel insert_into bs ranges m)
            (Refilled first (λ _. Unit))
    unfolding insert_ranges
    insert_ranges-Refilled [] seen m all r =
        inr (m, refl, Refilled-congr seen _ m (λ j less d. all j less) (λ j d. tt) r)
    insert_ranges-Refilled ((start, end) ∷ ranges) seen m (le, small, fresh, all) r =
        elim (insert_buckets-Refilled (end - start) start seen m (omega (arith, le, small))
          (λ j w d. fresh j (w.0, omega (arith, w.1, le)) d) r) [
            | inl (f, e) ↦ inl (f, rw (insert_ranges, e) refl)
            | inr (m1, e, r1) ↦
                elim (insert_ranges-Refilled ranges (λ j. seen j ⊎ Within start end j) m1 all
                  (Refilled-congr _ _ m1
                    (λ j less d. elim d [
                      | inl old ↦ inl old
                      | inr w ↦ inr (w.0, omega (arith, w.1, le))
                    ])
                    (λ j d. elim d [
                      | inl old ↦ inl old
                      | inr w ↦ inr (w.0, omega (arith, w.1, le))
                    ])
                    r1)) [
                      | inl (f, g) ↦ inl (f, rw (insert_ranges, e) g)
                      | inr (m2, g, r2) ↦ inr (m2, rw (insert_ranges, e) g, r2)
                    ]
          ]

    -- All pairs, in whatever order the ranges come: the new map reads as the old buckets and has
    -- as many pairs.
    pub refilled :
        (ranges : List (ℕ × ℕ)) (m : Table)
        → IsPartition (λ _. ⊥) (length bs) ranges
        → IsReady m
        → ((q : Key) → find m q ≡ none)
        → used m.buckets ≡ 0
        → Ends Fails
            (insert_ranges split retries search_fuel insert_into bs ranges m)
            (λ m'. CopiedRows (λ _. Unit) m' × (used m'.buckets ≡ used bs) × Grown m m')
    refilled ranges m all ready nothing zero_used =
        elim (insert_ranges-Refilled {first = m} ranges (λ _. ⊥) m all
          (record {
            copied = record {
              ready = ready;
              there = λ i s k v q d. absurd d;
              from = λ q v h. absurd (cc (nothing q, h));
            };
            left = bs;
            width = refl;
            others = λ i _. refl;
            gone = λ i h d. absurd d;
            counts = omega (arith, zero_used);
            grown = λ _. omega arith;
          })) [
            | inl f ↦ inl f
            | inr (m1, e, r) ↦ inr (
              m1,
              e,
              (
                r.copied,
                omega (
                  arith,
                  r.counts,
                  all_empty r.left (λ i h. r.gone i (omega (arith, h, r.width)) tt),
                ),
                r.grown,
              ),
            )
          ]
