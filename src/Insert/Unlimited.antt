-- ===== src/Insert/Unlimited.antt =====
-- `cuckoo_insert_loop` on any valid table, whatever its limits and whether moves throw: it may go on
-- for ever, but how it ends is the same.
use libcuckoo_cxx.Base.{
  ℕ, zero, suc, ◌+◌, ◌*◌, ◌<◌, ◌≤◌, ◌≡◌, refl, sym, ap, ◌∙◌, subst, ◌⊎◌, inl, inr, List, Bool, true,
  false, none, some, arith, min, Bool-cases, ltb, ltb→lt, ==_refl,
}
use libcuckoo_cxx.Bucket.{Bucket}
use libcuckoo_cxx.Config.{num_locks}
use libcuckoo_cxx.Cuckoo.Inner.{CodesFit}
use libcuckoo_cxx.Cuckoo.Insertion.{Kept, Inserted, added, duplicated, no_room}
use libcuckoo_cxx.Cuckoo.Search.{tree}
use libcuckoo_cxx.Cuckoo.Total.{cuckoo_insert_total}
use libcuckoo_cxx.Cuckoo.{cuckoo_insert}
use libcuckoo_cxx.Expand.Double.{double_buckets-Doubled}
use libcuckoo_cxx.Expand.Ranges.{IsPartition}
use libcuckoo_cxx.Hash.{hashsize}
use libcuckoo_cxx.Insert.Copied.{IsReady, Inserts}
use libcuckoo_cxx.Insert.Outcomes.{
  Alike, Kept-Alike, Doubled-Alike, Alike-trans, Insertion, inserted, present, too_low, exceeded,
  Insertion-Alike, too_low_at,
}
use libcuckoo_cxx.Insert.Resize.{
  Resized, Resizing, over_limit, wrong_way, too_big, not_finished, resized,
  cuckoo_expand_simple-Resizing,
}
use libcuckoo_cxx.Insert.{Outcome, over_maximum, cuckoo_fast_double, cuckoo_insert_loop}
use libcuckoo_cxx.Params.{Params, Laws, DoubleLaws}
use libcuckoo_cxx.Table.Counts.{IsValid}
use libcuckoo_cxx.Table.Insert.{Added}
use libcuckoo_cxx.Table.Valid.{home, other_home}
use libcuckoo_cxx.Table.{
  Table, Status, ok, failure_table_full, Result, returned, thrown, maximum_hashpower_exceeded,
  hashed_key, find, cuckoo_loadfactor,
}

module _ ⦃P : Params⦄ where
  open P use {Key, Mapped, key_eq, slot_per_bucket}

  -- What `cuckoo_fast_double` does at the hashpower of any valid table, where it returns.
  data Growing (t : Table) : Table × Result Status → Type 0 where
    grows : {t' : Table} → Alike t t' → Growing t (t', returned ok)
    at_top :
        0 < t.maximum_hashpower
        → t.maximum_hashpower ≤ t.hashpower
        → Growing t (t, thrown (maximum_hashpower_exceeded (t.hashpower + 1)))

  abbrev MayGrow : Table → Outcome Status → Type 0
  MayGrow t o = (o ≡ none) ⊎ ((r : Table × Result Status) × (o ≡ some r) × Growing t r)

  pub limit_of :
      (t : Table)
      → over_maximum t (t.hashpower + 1) ≡ true
      → (0 < t.maximum_hashpower) × (t.maximum_hashpower ≤ t.hashpower)
  limit_of t h =
      ground (arith, h, ==_refl t.maximum_hashpower, ltb→lt t.maximum_hashpower (t.hashpower + 1))

  -- Where moves may throw, nothing is said of the hashpower.
  Resized-Alike : {t t' : Table} {n : ℕ} → P.is_nothrow_move ≡ false → Resized n t t' → Alike t t'
  Resized-Alike throws r = record {
    valid = r.valid;
    reads = r.reads;
    counts = r.counts;
    factor = r.factor;
    maximum = r.maximum;
    grown = λ nothrow. absurd (cc (throws, nothrow));
  }

  Resizing-MayGrow :
      (t : Table) (o : Outcome Status)
      → P.is_nothrow_move ≡ false
      → Resizing Unit t (t.hashpower + 1) true o
      → MayGrow t o
  Resizing-MayGrow t _ throws (over_limit h) =
      let (limit, top) = limit_of t h in inr (_, refl, at_top limit top)
  Resizing-MayGrow t _ throws (wrong_way h) = absurd (ground (arith, h))
  Resizing-MayGrow t _ throws (too_big h) = inl refl
  Resizing-MayGrow t _ throws (not_finished h) = inl refl
  Resizing-MayGrow t _ throws (resized _ _ a) = inr (_, refl, grows (Resized-Alike throws a))

  module _ (laws : Laws) (doubles : DoubleLaws) (split : ℕ → List (ℕ × ℕ))
      (partitions : (n : ℕ) → IsPartition (λ _. ⊥) n (split n)) where
    not_negative : (m : Table) (hp : ℕ) → P.lt (cuckoo_loadfactor m hp) (P.double 0) ≡ false
    unfolding cuckoo_loadfactor
    not_negative m hp = doubles.quotient_zero _ _ _

    -- An insertion of a key that is not there, into a map without limits, adds it.
    pub Insertion-Added :
        (m : Table) (k : Key) (v : Mapped) (x : Table × Result Bool)
        → IsReady m
        → find m k ≡ none
        → Insertion m k v x
        → (x.1 ≡ returned true) × Added m k v x.0
    Insertion-Added m k v _ ready absent (inserted _ a) = (refl, a)
    Insertion-Added m k v _ ready absent (present there _) = absurd (cc (absent, there))
    Insertion-Added m k v (m', _) ready absent (too_low _ _ low) =
        absurd (cc (low, ready.no_factor, not_negative m' m'.hashpower))
    Insertion-Added m k v _ ready absent (exceeded _ _ limit _) =
        absurd (omega (arith, limit, ready.no_limit))

    module _ (retries search_fuel : ℕ) (insert_into : Table → Key → Mapped → Outcome Bool)
        (t : Table) (inserts : Inserts t.buckets insert_into Unit) (valid : IsValid t) where
      abbrev double : Outcome Status
      double = cuckoo_fast_double split retries search_fuel insert_into t t.hashpower

      double_fast : P.is_nothrow_move ≡ true → MayGrow t double
      unfolding cuckoo_fast_double
      double_fast nothrow = elim (Bool-cases (over_maximum t (t.hashpower + 1))) [
        | inl over ↦
            let (limit, top) = limit_of t over in
            inr (_, rw (cuckoo_fast_double, nothrow, over) refl, at_top limit top)
        | inr within ↦ elim (Bool-cases (ltb (t.hashpower + 1) 64)) [
          | inr long ↦
              inl (rw (cuckoo_fast_double, nothrow, within, ==_refl t.hashpower, long) refl)
          | inl word ↦ inr (
            _,
            rw (cuckoo_fast_double, nothrow, within, ==_refl t.hashpower, word) refl,
            grows (
                Doubled-Alike (
                  double_buckets-Doubled laws t valid
                    (omega (arith, ltb→lt (t.hashpower + 1) 64 word)) _
                    (partitions (min num_locks (hashsize t.hashpower))))),
          )
        ]
      ]

      double-MayGrow : MayGrow t double
      unfolding cuckoo_fast_double
      double-MayGrow = elim (Bool-cases P.is_nothrow_move) [
        | inl nothrow ↦ double_fast nothrow
        | inr throws ↦ subst (MayGrow t) (sym (rw (cuckoo_fast_double, throws) refl)) (
            Resizing-MayGrow t _ throws (
              cuckoo_expand_simple-Resizing laws doubles split partitions retries search_fuel
                insert_into Unit t inserts valid (t.hashpower + 1) true))
      ]

    module _ (fit : CodesFit) (retries search_fuel : ℕ) (enough : 2 * tree 4 < search_fuel) where
      abbrev loop : ℕ → Table → Key → Mapped → Outcome Bool
      loop fuel t k v = cuckoo_insert_loop split (suc retries) search_fuel fuel (hashed_key k) t k v

      -- The loop runs out of fuel, or ends in one of the four ways.
      abbrev pub MaySettle : ℕ → Table → Key → Mapped → Type 0
      MaySettle fuel t k v =
          (loop fuel t k v ≡ none)
          ⊎ ((x : Table × Result Bool) × (loop fuel t k v ≡ some x) × Insertion t k v x)

      MaySettle-Inserts :
          (fuel : ℕ)
          → ((t : Table) → IsValid t → (k : Key) (v : Mapped) → MaySettle fuel t k v)
          → (bs : List Bucket) → Inserts bs (loop fuel) Unit
      MaySettle-Inserts fuel settles bs m ready _ k v _ absent = elim (settles m ready.valid k v) [
        | inl e ↦ inl (tt, e)
        | inr (x, e, i) ↦
            let (answer, a) = Insertion-Added m k v x ready absent i in
            inr (x.0, e ∙ ap (λ r. some (x.0, r)) answer, a)
      ]

      -- The round after `cuckoo_insert` has found no room.
      after_full :
          (fuel : ℕ) (t t' : Table) (k : Key) (v : Mapped)
          → cuckoo_insert
              (suc retries)
              search_fuel
              (hashed_key k)
              t
              (home t.hashpower k)
              (other_home t.hashpower k)
              k
              v
            ≡ some (t', failure_table_full)
          → find t k ≡ none
          → Kept t t'
          → P.lt (cuckoo_loadfactor t' t.hashpower) t'.minimum_load_factor ≡ false
          → (o : Outcome Status)
          → cuckoo_fast_double split (suc retries) search_fuel (loop fuel) t' t.hashpower ≡ o
          → MayGrow t' o
          → ((t'' : Table) → IsValid t'' → MaySettle fuel t'' k v)
          → MaySettle (suc fuel) t k v
      unfolding cuckoo_insert_loop hashed_key
      after_full fuel t t' k v e absent kept high o f (inl stuck) again =
          inl (ground (arith, e, high, f, stuck))
      after_full fuel t t' k v e absent kept high o f (inr (_, g, at_top limit top)) again = inr (
        _,
        ground (arith, e, high, f, g),
        exceeded absent (Kept-Alike kept) (omega (arith, limit, kept.settings.2))
            (omega (arith, top, kept.settings.2)),
      )
      after_full fuel t t' k v e absent kept high o f (inr (_, g, grows {t' = t''} a)) again =
          elim (again t'' a.valid) [
            | inl h ↦ inl (ground (arith, e, high, f, g, h))
            | inr (x, h, i) ↦ inr (
              x,
              ground (arith, e, high, f, g, h),
              Insertion-Alike k v x (Alike-trans (Kept-Alike kept) a) i,
            )
          ]

      one_round :
          (fuel : ℕ) (t : Table) (k : Key) (v : Mapped) (r : Table × Status)
          → ((bs : List Bucket) → Inserts bs (loop fuel) Unit)
          → cuckoo_insert
              (suc retries)
              search_fuel
              (hashed_key k)
              t
              (home t.hashpower k)
              (other_home t.hashpower k)
              k
              v
            ≡ some r
          → Inserted t k v r
          → ((t'' : Table) → IsValid t'' → MaySettle fuel t'' k v)
          → MaySettle (suc fuel) t k v
      unfolding cuckoo_insert_loop hashed_key
      one_round fuel t k v (_, _) inserts e (added absent a) again =
          inr (_, ground (arith, e), inserted absent a)
      one_round fuel t k v (_, _) inserts e (duplicated there kept) again =
          inr (_, ground (arith, e), present there (Kept-Alike kept))
      one_round fuel t k v (t', _) inserts e (no_room absent kept) again =
          elim (Bool-cases (P.lt (cuckoo_loadfactor t' t.hashpower) t'.minimum_load_factor)) [
            | inl low ↦ inr (_, ground (arith, e, low), too_low_at t t' k v absent kept low)
            | inr high ↦
                after_full fuel t t' k v e absent kept high _ refl
                  (subst
                    (λ n.
                      MayGrow t'
                        (cuckoo_fast_double split (suc retries) search_fuel (loop fuel) t' n))
                    kept.settings.0
                    (double-MayGrow (suc retries) search_fuel (loop fuel) t' (inserts t'.buckets)
                      kept.valid))
                  again
          ]

      -- By induction on the fuel: the new map of `cuckoo_expand_simple` is filled by the same loop.
      pub loop-MaySettle :
          (fuel : ℕ) (t : Table) → IsValid t → (k : Key) (v : Mapped) → MaySettle fuel t k v
      unfolding cuckoo_insert_loop
      loop-MaySettle zero t valid k v = inl refl
      loop-MaySettle (suc fuel) t valid k v =
          let (r, e, i) = cuckoo_insert_total laws fit retries search_fuel enough t valid k v in
          one_round fuel t k v r (MaySettle-Inserts fuel (loop-MaySettle fuel)) e i
            (λ t'' valid''. loop-MaySettle fuel t'' valid'' k v)
