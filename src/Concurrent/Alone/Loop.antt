-- ===== src/Concurrent/Alone/Loop.antt =====
-- `cuckoo_insert_loop` by a thread that runs alone: its rounds, each a `cuckoo_insert` and, where the
-- table is full, the load factor and the doubling.
use libcuckoo_cxx.Base.{
  ℕ, zero, suc, ◌<◌, ◌≡◌, refl, sym, ap, subst, ◌∙◌, inl, inr, List, Bool, true, false, none, some,
  arith, Bool-cases, Option-cases, some_eq,
}
use libcuckoo_cxx.Concurrent.Alone.{Finishes, done, more}
use libcuckoo_cxx.Concurrent.Alone.Counted.{after_count, cuckoo_size_runs}
use libcuckoo_cxx.Concurrent.Alone.Rounds.{cuckoo_insert_runs}
use libcuckoo_cxx.Concurrent.Sound.{Tried, tried, not_tried, double-IsTried}
use libcuckoo_cxx.Concurrent.{
  Job, by_insert, locking, locked, counting, doubling, goes, answers, after_insert, after_double,
  double_one, run_section,
}
use libcuckoo_cxx.Cuckoo.Insertion.{Inserted, added, duplicated, no_room, cuckoo_insert-Inserted}
use libcuckoo_cxx.Cuckoo.{cuckoo_insert}
use libcuckoo_cxx.Expand.Ranges.{IsPartition}
use libcuckoo_cxx.Insert.{Outcome, insert, cuckoo_fast_double, cuckoo_insert_loop}
use libcuckoo_cxx.Params.{Params, Laws}
use libcuckoo_cxx.Table.Counts.{IsValid}
use libcuckoo_cxx.Table.{
  Table, Status, hashed_key, first_bucket, second_bucket, cuckoo_loadfactor, Result, returned,
  thrown, load_factor_too_low,
}

module _ ⦃P : Params⦄ where
  open P use {Key, Mapped}

  module _ (laws : Laws) (split : ℕ → List (ℕ × ℕ))
      (partitions : (n : ℕ) → IsPartition (λ _. ⊥) n (split n)) (nothrow : P.is_nothrow_move ≡ true)
      (retries search_fuel fuel : ℕ) (k : Key) (v : Mapped) where
    abbrev job : Job
    job = record { caller = by_insert; key = k; val = v }

    abbrev Loops : ℕ → Table → Table × Result Bool → Type 0
    Loops rounds t x =
        cuckoo_insert_loop split retries search_fuel rounds (hashed_key k) t k v ≡ some x

    -- Pairs whose moves do not throw are not copied into another map.
    same_doubling :
        (f g : Table → Key → Mapped → Outcome Bool) (t : Table) (hp : ℕ)
        → cuckoo_fast_double split retries search_fuel f t hp
          ≡ cuckoo_fast_double split retries search_fuel g t hp
    unfolding cuckoo_fast_double
    same_doubling f g t hp = rw (cuckoo_fast_double, nothrow) refl

    abbrev GoesOn : ℕ → Table × Result Bool → Type 0
    GoesOn rounds x =
        (t : Table)
        → IsValid t
        → 0 < t.maximum_hashpower
        → t.maximum_hashpower < 64
        → Loops rounds t x
        → Finishes split retries search_fuel fuel (goes t (locking job)) x

    module _ (rounds : ℕ) (x : Table × Result Bool) (again : GoesOn rounds x) (t : Table)
        (valid : IsValid t) (some_limit : 0 < t.maximum_hashpower) (word : t.maximum_hashpower < 64)
        (hp : ℕ) where
      -- The loop after `cuckoo_fast_double` has returned or thrown.
      abbrev after_growth : Outcome Status → Outcome Bool
      after_growth none = none
      after_growth (some (t', thrown e)) = some (t', thrown e)
      after_growth (some (t', returned _)) =
          cuckoo_insert_loop split retries search_fuel rounds (hashed_key k) t' k v

      tried_runs :
          (y : Table × Result Status)
          → cuckoo_fast_double split retries search_fuel
              (insert split retries search_fuel fuel)
              t
              hp
            ≡ some y
          → Tried laws split partitions nothrow retries search_fuel fuel t y
          → after_growth (some y) ≡ some x
          → Finishes split retries search_fuel fuel (goes t (doubling job hp)) x
      unfolding run_section double_one after_double
      tried_runs (t', returned st) g (tried m) e = more (
          rw (double_one, g)
            (again t' m.valid (omega (arith, m.maximum, some_limit))
              (omega (arith, m.maximum, word)) e))
      tried_runs (_, thrown ex) g (not_tried r) e = more (
          rw (double_one, g)
            (subst (Finishes split retries search_fuel fuel (answers t (thrown ex))) (some_eq e)
              done))

      abbrev into : Table → Key → Mapped → Outcome Bool
      into m l w = cuckoo_insert_loop split retries search_fuel rounds (hashed_key l) m l w

      doubling_runs :
          after_growth (cuckoo_fast_double split retries search_fuel into t hp) ≡ some x
          → Finishes split retries search_fuel fuel (goes t (doubling job hp)) x
      doubling_runs e =
          let (y, g, tr) =
            double-IsTried laws split partitions nothrow retries search_fuel fuel t valid some_limit
              word hp in
          tried_runs y g tr (sym (ap after_growth (same_doubling into _ t hp ∙ g)) ∙ e)

      -- The table is full: its load factor is too low, or it grows.
      abbrev after_full : Outcome Bool
      after_full = elim (P.lt (cuckoo_loadfactor t hp) t.minimum_load_factor) [
        | true ↦ some (t, thrown (load_factor_too_low t.minimum_load_factor))
        | false ↦ after_growth (cuckoo_fast_double split retries search_fuel into t hp)
      ]

      full_runs :
          after_full ≡ some x
          → Finishes split retries search_fuel fuel (goes t (counting job hp 0 0)) x
      unfolding cuckoo_loadfactor
      full_runs e =
          cuckoo_size_runs split retries search_fuel fuel job hp t x
            (elim (Bool-cases (P.lt (cuckoo_loadfactor t hp) t.minimum_load_factor)) [
              | inl low ↦
                  rw (after_count, low)
                    (subst
                      (Finishes split retries search_fuel fuel
                        (answers t (thrown (load_factor_too_low t.minimum_load_factor))))
                      (some_eq (rw (after_full, low) at e)) done)
              | inr high ↦ rw (after_count, high) (doubling_runs (rw (after_full, high) at e))
            ])

    -- A round, from what `cuckoo_insert` has done.
    round_runs :
        (rounds : ℕ) (x : Table × Result Bool)
        → GoesOn rounds x
        → (t : Table) → IsValid t
        → 0 < t.maximum_hashpower
        → t.maximum_hashpower < 64
        → Loops (suc rounds) t x
        → (r : Table × Status)
        → cuckoo_insert retries search_fuel
            (hashed_key k)
            t
            (first_bucket t.hashpower (hashed_key k))
            (second_bucket t.hashpower (hashed_key k))
            k
            v
          ≡ some r
        → Inserted t k v r
        → Finishes split retries search_fuel fuel (after_insert job t.hashpower r) x
    unfolding cuckoo_insert_loop after_insert
    round_runs rounds x again t valid some_limit word e _ f (added {t' = t'} absent a) =
        subst (Finishes split retries search_fuel fuel (answers t' (returned true)))
          (some_eq (rw (cuckoo_insert_loop, f) at e)) done
    round_runs rounds x again t valid some_limit word e _ f (duplicated {t' = t'} there kept) =
        subst (Finishes split retries search_fuel fuel (answers t' (returned false)))
          (some_eq (rw (cuckoo_insert_loop, f) at e)) done
    round_runs rounds x again t valid some_limit word e _ f (no_room {t' = t'} absent kept) =
        let same = kept.settings.2 in
        full_runs rounds x again t' kept.valid (omega (arith, same, some_limit))
          (omega (arith, same, word)) t.hashpower (rw (cuckoo_insert_loop, f) at e)

    -- What `cuckoo_insert_loop` returns, a thread that runs alone comes to section by section.
    pub cuckoo_insert_loop_runs : (rounds : ℕ) (x : Table × Result Bool) → GoesOn rounds x
    unfolding run_section locked
    cuckoo_insert_loop_runs zero x t valid some_limit word e =
        unfold cuckoo_insert_loop in absurd (cc e)
    cuckoo_insert_loop_runs (suc rounds) x t valid some_limit word e =
        elim (Option-cases (
          cuckoo_insert retries search_fuel (hashed_key k) t
            (first_bucket t.hashpower (hashed_key k)) (second_bucket t.hashpower (hashed_key k)) k
            v)) [
              | inl f ↦ absurd (unfold cuckoo_insert_loop in cc (rw (cuckoo_insert_loop, f) at e))
              | inr (r, f) ↦ more (
                  cuckoo_insert_runs split retries search_fuel fuel job t x laws retries search_fuel
                    r valid.placed f
                    (round_runs rounds x (cuckoo_insert_loop_runs rounds x) t valid some_limit word
                      e r f
                      (unfold hashed_key in
                        cuckoo_insert-Inserted laws t valid k v retries search_fuel r f)))
            ]
