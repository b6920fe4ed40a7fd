-- ===== src/Insert/Factor.antt =====
-- `cuckoo_insert_loop` without a largest hashpower: the minimum load factor makes it end.
use libcuckoo_cxx.Base.{
  ℕ, zero, suc, ◌+◌, ◌*◌, ◌<◌, ◌≤◌, ◌≡◌, refl, sym, ap, ◌∙◌, subst, inl, inr, List, [], ◌∷◌, Bool,
  true, false, none, some, arith, length, min, Bool-cases, lt→ltb, ==_refl,
}
use libcuckoo_cxx.Bucket.{Bucket}
use libcuckoo_cxx.Config.{num_locks}
use libcuckoo_cxx.Cuckoo.Inner.{CodesFit}
use libcuckoo_cxx.Cuckoo.Insertion.{Kept, Inserted, added, duplicated, no_room}
use libcuckoo_cxx.Cuckoo.Search.{tree}
use libcuckoo_cxx.Cuckoo.Total.{cuckoo_insert_total}
use libcuckoo_cxx.Cuckoo.{cuckoo_insert}
use libcuckoo_cxx.Expand.Double.{Doubled, double_buckets-Doubled}
use libcuckoo_cxx.Expand.Ranges.{IsPartition}
use libcuckoo_cxx.Hash.{hashsize}
use libcuckoo_cxx.Insert.Outcomes.{
  Kept-Alike, Doubled-Alike, Alike-trans, Insertion, inserted, present, exceeded, Insertion-Alike,
  too_low_at,
}
use libcuckoo_cxx.Insert.Unlimited.{limit_of}
use libcuckoo_cxx.Insert.{Outcome, over_maximum, cuckoo_fast_double, cuckoo_insert_loop}
use libcuckoo_cxx.Params.{Params, Laws}
use libcuckoo_cxx.Table.Counts.{IsValid, used, used_slots, size-used, bit}
use libcuckoo_cxx.Table.Valid.{home, other_home}
use libcuckoo_cxx.Table.{
  Table, Status, ok, failure_table_full, Result, returned, thrown, bucket, size, cuckoo_size,
  maximum_hashpower_exceeded, hashed_key, find, cuckoo_loadfactor,
}

module _ ⦃P : Params⦄ where
  open P use {Key, Mapped, key_eq, slot_per_bucket}

  used_slots-le : (b : Bucket) → used_slots b ≤ length b
  unfolding used_slots
  used_slots-le [] = omega arith
  used_slots-le (x ∷ b) = elim (Bool-cases x.occupied) [
    | inl e ↦ omega (arith, used_slots-le b, ap bit e)
    | inr e ↦ omega (arith, used_slots-le b, ap bit e)
  ]

  used-le :
      (bs : List Bucket)
      → ((i : ℕ) → i < length bs → length (bucket bs i) ≡ slot_per_bucket)
      → used bs ≤ length bs * slot_per_bucket
  unfolding used
  used-le [] rows = omega arith
  used-le (b ∷ bs) rows = omega (
    arith,
    used_slots-le b,
    rows 0 (omega arith),
    used-le bs (λ i h. rows (suc i) (omega (arith, h))),
  )

  -- The pairs of a table with the hashpower `hp` are below the minimum load factor in one that has
  -- doubled `d` times.
  abbrev pub FallsBelow : P.Double → ℕ → Type 0
  FallsBelow mlf d =
      (n hp : ℕ)
      → n ≤ hashsize hp * slot_per_bucket
      → hp + d < 64
      → P.lt (P.div (P.div (P.double n) (P.double slot_per_bucket)) (P.double (hashsize (hp + d))))
          mlf
        ≡ true

  data Doubling (t : Table) : Table × Result Status → Type 0 where
    doubled : {t' : Table} → Doubled t t' → Doubling t (t', returned ok)
    limited :
        0 < t.maximum_hashpower
        → t.maximum_hashpower ≤ t.hashpower
        → Doubling t (t, thrown (maximum_hashpower_exceeded (t.hashpower + 1)))

  loadfactor_falls :
      (mlf : P.Double) (d : ℕ)
      → FallsBelow mlf d
      → (t : Table) → IsValid t
      → (hp : ℕ) → used t.buckets ≤ hashsize hp * slot_per_bucket
      → hp + d < 64
      → P.lt (cuckoo_loadfactor t (hp + d)) mlf ≡ true
  unfolding cuckoo_loadfactor size
  loadfactor_falls mlf d falls t valid hp few word =
      falls (cuckoo_size t) hp (omega (arith, size-used t valid, few)) word

  module _ (laws : Laws) (split : ℕ → List (ℕ × ℕ))
      (partitions : (n : ℕ) → IsPartition (λ _. ⊥) n (split n))
      (nothrow : P.is_nothrow_move ≡ true) where
    cuckoo_fast_double-Doubling :
        (retries search_fuel : ℕ) (insert_into : Table → Key → Mapped → Outcome Bool) (t : Table)
        → IsValid t
        → t.hashpower + 1 < 64
        → (r : Table × Result Status) × (cuckoo_fast_double split retries search_fuel insert_into t
              t.hashpower
            ≡ some r)
          × Doubling t r
    unfolding cuckoo_fast_double
    cuckoo_fast_double-Doubling retries search_fuel insert_into t valid word =
        elim (Bool-cases (over_maximum t (t.hashpower + 1))) [
          | inl e ↦
              let (limit, top) = limit_of t e in
              (_, rw (cuckoo_fast_double, nothrow, e) refl, limited limit top)
          | inr e ↦ (
            _,
            rw
                (
                  cuckoo_fast_double,
                  nothrow,
                  e,
                  ==_refl t.hashpower,
                  lt→ltb (t.hashpower + 1) 64 word,
                )
                refl,
            doubled (
                double_buckets-Doubled laws t valid (omega (arith, word)) _
                  (partitions (min num_locks (hashsize t.hashpower)))),
          )
        ]

    module _ (fit : CodesFit) (retries search_fuel : ℕ) (enough : 2 * tree 4 < search_fuel)
        (mlf : P.Double) (d : ℕ) (falls : FallsBelow mlf d) (hp : ℕ) (word : hp + d < 64) (k : Key)
        (v : Mapped) where
      abbrev loop : ℕ → Table → Outcome Bool
      loop fuel t = cuckoo_insert_loop split (suc retries) search_fuel fuel (hashed_key k) t k v

      abbrev Settles : ℕ → Table → Type 0
      Settles fuel t = (x : Table × Result Bool) × (loop fuel t ≡ some x) × Insertion t k v x

      -- A table on the way: `left` doublings are left until the load factor is too low.
      record OnTheWay (left : ℕ) (t : Table) : Type 0 where
        valid : IsValid t
        factor : t.minimum_load_factor ≡ mlf
        power : t.hashpower + left ≡ hp + d
        few : used t.buckets ≤ hashsize hp * slot_per_bucket

      step_on : (left : ℕ) (t t' : Table) → OnTheWay (suc left) t → Doubled t t' → OnTheWay left t'
      step_on left t t' w x = record {
        valid = x.valid;
        factor = x.settings.0 ∙ w.factor;
        power = omega (arith, x.hashpower, w.power);
        few = omega (arith, x.counts, w.few);
      }

      stay_on : (left : ℕ) (t t' : Table) → OnTheWay left t → Kept t t' → OnTheWay left t'
      stay_on left t t' w x = record {
        valid = x.valid;
        factor = x.settings.1 ∙ w.factor;
        power = omega (arith, x.settings.0, w.power);
        few = omega (arith, x.counts, w.few);
      }

      not_at_end :
          (t : Table)
          → OnTheWay 0 t
          → P.lt (cuckoo_loadfactor t t.hashpower) t.minimum_load_factor ≡ false
          → ⊥
      not_at_end t w high =
          let at : t.hashpower ≡ hp + d = omega (arith, w.power) in
          cc (high, at, w.factor, loadfactor_falls mlf d falls t w.valid hp w.few word)

      after_doubling :
          (fuel : ℕ) (t t' : Table)
          → cuckoo_insert
              (suc retries)
              search_fuel
              (hashed_key k)
              t
              (home t.hashpower k)
              (other_home t.hashpower k)
              k
              v
            ≡ some (t', failure_table_full)
          → find t k ≡ none
          → Kept t t'
          → P.lt (cuckoo_loadfactor t' t.hashpower) t'.minimum_load_factor ≡ false
          → (r : Table × Result Status)
          → cuckoo_fast_double split
              (suc retries)
              search_fuel
              (λ m l w.
                cuckoo_insert_loop split (suc retries) search_fuel fuel (hashed_key l) m l w)
              t'
              t.hashpower
            ≡ some r
          → Doubling t' r
          → ((t'' : Table) → Doubled t' t'' → Settles fuel t'')
          → Settles (suc fuel) t
      unfolding cuckoo_insert_loop hashed_key
      after_doubling fuel t t' e absent kept high (_, _) f (doubled x) again =
          let (y, g, i) = again _ x in
          (
            y,
            ground (arith, e, high, f, g),
            Insertion-Alike k v y (Alike-trans (Kept-Alike kept) (Doubled-Alike x)) i,
          )
      after_doubling fuel t t' e absent kept high (_, _) f (limited limit top) again = (
        _,
        ground (arith, e, high, f),
        exceeded absent (Kept-Alike kept) (omega (arith, limit, kept.settings.2))
            (omega (arith, top, kept.settings.2)),
      )

      -- The doubling after a search without room, while the load factor is not too low.
      double_on :
          (fuel left : ℕ) (t t' : Table)
          → OnTheWay left t
          → cuckoo_insert
              (suc retries)
              search_fuel
              (hashed_key k)
              t
              (home t.hashpower k)
              (other_home t.hashpower k)
              k
              v
            ≡ some (t', failure_table_full)
          → find t k ≡ none
          → Kept t t'
          → P.lt (cuckoo_loadfactor t' t.hashpower) t'.minimum_load_factor ≡ false
          → ((left' : ℕ) → left ≡ suc left' → (t'' : Table) → OnTheWay left' t'' → Settles fuel t'')
          → Settles (suc fuel) t
      double_on fuel zero t t' w e absent kept high again = absurd (
          not_at_end t' (stay_on 0 t t' w kept)
            (ap (λ n. P.lt (cuckoo_loadfactor t' n) t'.minimum_load_factor) kept.settings.0 ∙ high))
      double_on fuel (suc left) t t' w e absent kept high again =
          let w' = stay_on (suc left) t t' w kept in
          let (r, f, g) =
            cuckoo_fast_double-Doubling (suc retries) search_fuel
              (λ m l w.
                cuckoo_insert_loop split (suc retries) search_fuel fuel (hashed_key l) m l w)
              t' kept.valid (omega (arith, w'.power, word)) in
          after_doubling fuel t t' e absent kept high r
            (ap
                (λ (n : ℕ).
                  cuckoo_fast_double split (suc retries) search_fuel
                    (λ m l w.
                      cuckoo_insert_loop split (suc retries) search_fuel fuel (hashed_key l) m l w)
                    t' n)
                (sym kept.settings.0)
              ∙ f)
            g (λ t'' x. again left refl t'' (step_on left t' t'' w' x))

      one_round :
          (fuel left : ℕ) (t : Table)
          → OnTheWay left t
          → (r : Table × Status)
          → cuckoo_insert
              (suc retries)
              search_fuel
              (hashed_key k)
              t
              (home t.hashpower k)
              (other_home t.hashpower k)
              k
              v
            ≡ some r
          → Inserted t k v r
          → ((left' : ℕ) → left ≡ suc left' → (t'' : Table) → OnTheWay left' t'' → Settles fuel t'')
          → Settles (suc fuel) t
      unfolding cuckoo_insert_loop hashed_key
      one_round fuel left t w (_, _) e (added absent a) again =
          (_, ground (arith, e), inserted absent a)
      one_round fuel left t w (_, _) e (duplicated there kept) again =
          (_, ground (arith, e), present there (Kept-Alike kept))
      one_round fuel left t w (t', _) e (no_room absent kept) again =
          elim (Bool-cases (P.lt (cuckoo_loadfactor t' t.hashpower) t'.minimum_load_factor)) [
            | inl low ↦ (_, ground (arith, e, low), too_low_at t t' k v absent kept low)
            | inr high ↦ double_on fuel left t t' w e absent kept high again
          ]

      settles : (fuel left : ℕ) (t : Table) → OnTheWay left t → left < fuel → Settles fuel t
      settles zero left t w more = absurd (omega (arith, more))
      settles (suc fuel) left t w more =
          let (r, e, i) = cuckoo_insert_total laws fit retries search_fuel enough t w.valid k v in
          one_round fuel left t w r e i
            (λ left' same t'' w'. settles fuel left' t'' w' (omega (arith, same, more)))

      by_factor :
          (fuel : ℕ) (t : Table)
          → IsValid t
          → t.hashpower ≡ hp
          → t.minimum_load_factor ≡ mlf
          → d < fuel
          → Settles fuel t
      by_factor fuel t valid power factor more =
          settles fuel d t
            (record {
              valid = valid;
              factor = factor;
              power = omega (arith, power);
              few =
                  subst (λ n. used t.buckets ≤ n * slot_per_bucket)
                    (valid.placed.width ∙ ap hashsize power) (used-le t.buckets valid.placed.rows);
            })
            more

    -- Where the codes of paths fit into a word, the hash and the equality keep their laws, a
    -- search has more fuel than twice the nodes of the search tree, `run_cuckoo` has a round and
    -- `parallel_for` takes each lock once, in any order, and with pairs whose moves do not throw,
    -- let `d` doublings take any number of pairs that fit into a table below its minimum load
    -- factor (five do, for the default of 0.05); then `cuckoo_insert_loop` on a valid table whose
    -- hashpower plus `d` is below 64, with or without a largest hashpower, ends after at most `d +
    -- 1` rounds: the key was absent and the pair is added, or it was there and the map stays, or
    -- it was absent, the map stays and an exception says that the load factor is too low or the
    -- largest hashpower is reached.
    pub cuckoo_insert_loop_by_factor :
        (fit : CodesFit) (retries search_fuel : ℕ)
        → 2 * tree 4 < search_fuel
        → (d : ℕ) (t : Table) → IsValid t
        → FallsBelow t.minimum_load_factor d
        → t.hashpower + d < 64
        → (fuel : ℕ) → d < fuel
        → (k : Key) (v : Mapped)
        → (x : Table × Result Bool) × (cuckoo_insert_loop split
              (suc retries)
              search_fuel
              fuel
              (hashed_key k)
              t
              k
              v
            ≡ some x)
          × Insertion t k v x
    cuckoo_insert_loop_by_factor fit retries search_fuel enough d t valid falls word fuel more k v =
        by_factor fit retries search_fuel enough t.minimum_load_factor d falls t.hashpower word k v
          fuel t valid refl refl more
