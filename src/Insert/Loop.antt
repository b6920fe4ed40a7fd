-- ===== src/Insert/Loop.antt =====
-- `cuckoo_insert_loop`: with a largest hashpower set, it returns or throws.
use libcuckoo_cxx.Base.{
  ℕ, zero, suc, ◌+◌, ◌*◌, ◌<◌, ◌≤◌, ◌≡◌, refl, sym, ap, ◌∙◌, inl, inr, List, Bool, true, false,
  none, some, arith, min, Bool-cases, ==_refl, ltb→lt, ltb-false, lt→ltb,
}
use libcuckoo_cxx.Config.{num_locks}
use libcuckoo_cxx.Cuckoo.Inner.{CodesFit}
use libcuckoo_cxx.Cuckoo.Insertion.{Kept, Inserted, added, duplicated, no_room}
use libcuckoo_cxx.Cuckoo.Search.{tree}
use libcuckoo_cxx.Cuckoo.Total.{cuckoo_insert_total}
use libcuckoo_cxx.Cuckoo.{cuckoo_insert}
use libcuckoo_cxx.Expand.Double.{Doubled, double_buckets-Doubled}
use libcuckoo_cxx.Expand.Ranges.{IsPartition}
use libcuckoo_cxx.Hash.{hashsize}
use libcuckoo_cxx.Insert.{Outcome, over_maximum, cuckoo_fast_double, cuckoo_insert_loop}
use libcuckoo_cxx.Insert.Outcomes.{
  Kept-Alike, Doubled-Alike, Alike-trans, Insertion, inserted, present, exceeded, Insertion-Alike,
  too_low_at,
}
use libcuckoo_cxx.Params.{Params, Laws}
use libcuckoo_cxx.Table.Counts.{IsValid}
use libcuckoo_cxx.Table.Valid.{home, other_home}
use libcuckoo_cxx.Table.{
  Table, Status, ok, failure_table_full, Result, returned, thrown, maximum_hashpower_exceeded,
  hashed_key, find, cuckoo_loadfactor,
}

module _ ⦃P : Params⦄ where
  open P use {Key, Mapped, key_eq, slot_per_bucket}

  -- What `cuckoo_fast_double` does at the hashpower of the table.
  pub data Growth (t : Table) : Table × Result Status → Type 0 where
    grown :
        {t' : Table} → Doubled t t' → t.hashpower < t.maximum_hashpower → Growth t (t', returned ok)
    at_maximum :
        0 < t.maximum_hashpower
        → t.maximum_hashpower ≤ t.hashpower
        → Growth t (t, thrown (maximum_hashpower_exceeded (t.hashpower + 1)))

  module _ (laws : Laws) (split : ℕ → List (ℕ × ℕ))
      (partitions : (n : ℕ) → IsPartition (λ _. ⊥) n (split n))
      (nothrow : P.is_nothrow_move ≡ true) where
    not_over :
        (t : Table)
        → 0 < t.maximum_hashpower
        → over_maximum t (t.hashpower + 1) ≡ false
        → t.hashpower < t.maximum_hashpower
    not_over t some_limit h = ground (arith, ltb-false t.maximum_hashpower (t.hashpower + 1))

    over : (t : Table) → over_maximum t (t.hashpower + 1) ≡ true → t.maximum_hashpower ≤ t.hashpower
    over t h = ground (arith, ltb→lt t.maximum_hashpower (t.hashpower + 1))

    -- On a valid table with a largest hashpower from 1 to 63 and pairs whose moves do not throw,
    -- `cuckoo_fast_double` at the hashpower of the table either throws
    -- `maximum_hashpower_exceeded` with the next hashpower, where the table has reached its
    -- largest one, and leaves the table as it was; or, below it, doubles the table and returns
    -- `ok`.
    pub cuckoo_fast_double-Growth :
        (retries search_fuel : ℕ) (insert_into : Table → Key → Mapped → Outcome Bool) (t : Table)
        → IsValid t
        → 0 < t.maximum_hashpower
        → t.maximum_hashpower < 64
        → (r : Table × Result Status) × (cuckoo_fast_double split retries search_fuel insert_into t
              t.hashpower
            ≡ some r)
          × Growth t r
    unfolding cuckoo_fast_double
    cuckoo_fast_double-Growth retries search_fuel insert_into t valid some_limit word =
        elim (Bool-cases (over_maximum t (t.hashpower + 1))) [
          | inl e ↦ (_, rw (cuckoo_fast_double, nothrow, e) refl, at_maximum some_limit (over t e))
          | inr e ↦
              let room = not_over t some_limit e in
              (
                _,
                rw
                    (
                      cuckoo_fast_double,
                      nothrow,
                      e,
                      ==_refl t.hashpower,
                      lt→ltb (t.hashpower + 1) 64 (omega (arith, room, word)),
                    )
                    refl,
                grown
                    (double_buckets-Doubled laws t valid (omega (arith, room, word)) _
                      (partitions (min num_locks (hashsize t.hashpower))))
                    room,
              )
        ]

    module _ (fit : CodesFit) (retries search_fuel : ℕ) (enough : 2 * tree 4 < search_fuel) where
      after_double :
          (fuel : ℕ) (t t' : Table) (k : Key) (v : Mapped)
          → cuckoo_insert
              (suc retries)
              search_fuel
              (hashed_key k)
              t
              (home t.hashpower k)
              (other_home t.hashpower k)
              k
              v
            ≡ some (t', failure_table_full)
          → find t k ≡ none
          → Kept t t'
          → P.lt (cuckoo_loadfactor t' t.hashpower) t'.minimum_load_factor ≡ false
          → (r : Table × Result Status)
          → cuckoo_fast_double split
              (suc retries)
              search_fuel
              (λ m k v.
                cuckoo_insert_loop split (suc retries) search_fuel fuel (hashed_key k) m k v)
              t'
              t.hashpower
            ≡ some r
          → Growth t' r
          → ((t'' : Table)
              → Doubled t' t''
              → t'.hashpower < t'.maximum_hashpower
              → (x : Table × Result Bool) × (cuckoo_insert_loop split
                    (suc retries)
                    search_fuel
                    fuel
                    (hashed_key k)
                    t''
                    k
                    v
                  ≡ some x)
                × Insertion t'' k v x)
          → (x : Table × Result Bool) × (cuckoo_insert_loop split
                (suc retries)
                search_fuel
                (suc fuel)
                (hashed_key k)
                t
                k
                v
              ≡ some x)
            × Insertion t k v x
      unfolding cuckoo_insert_loop hashed_key
      after_double fuel t t' k v e absent kept not_low (_, _) f (grown d room) again =
          let (x, g, i) = again _ d room in
          (
            x,
            ground (arith, e, not_low, f, g),
            Insertion-Alike k v x (Alike-trans (Kept-Alike kept) (Doubled-Alike d)) i,
          )
      after_double fuel t t' k v e absent kept not_low (_, _) f (at_maximum limit top) again = (
        _,
        ground (arith, e, not_low, f),
        exceeded absent (Kept-Alike kept) (omega (arith, limit, kept.settings.2))
            (omega (arith, top, kept.settings.2)),
      )

      pub full_at :
          (fuel : ℕ) (t t' : Table)
          → IsValid t'
          → t'.maximum_hashpower ≡ t.maximum_hashpower
          → t'.hashpower ≡ t.hashpower
          → 0 < t.maximum_hashpower
          → t.maximum_hashpower < 64
          → (r : Table × Result Status) × (cuckoo_fast_double split
                (suc retries)
                search_fuel
                (λ m k v.
                  cuckoo_insert_loop split (suc retries) search_fuel fuel (hashed_key k) m k v)
                t'
                t.hashpower
              ≡ some r)
            × Growth t' r
      full_at fuel t t' valid same_max same some_limit word =
          let (r, e, g) =
            cuckoo_fast_double-Growth (suc retries) search_fuel
              (λ m k v.
                cuckoo_insert_loop split (suc retries) search_fuel fuel (hashed_key k) m k v)
              t' valid (omega (arith, same_max, some_limit)) (omega (arith, same_max, word)) in
          (
            r,
            ap
                  (λ (n : ℕ).
                    cuckoo_fast_double split (suc retries) search_fuel
                      (λ m k v.
                        cuckoo_insert_loop split (suc retries) search_fuel fuel (hashed_key k) m k
                          v)
                      t' n)
                  (sym same)
                ∙ e,
            g,
          )

      -- The loop ends, with one of the four results.
      abbrev pub Settles : ℕ → Table → Key → Mapped → Type 0
      Settles fuel t k v =
          (x : Table × Result Bool) × (cuckoo_insert_loop split (suc retries) search_fuel fuel
              (hashed_key k) t k v
            ≡ some x)
          × Insertion t k v x

      one_round :
          (fuel : ℕ) (t : Table)
          → IsValid t
          → 0 < t.maximum_hashpower
          → t.maximum_hashpower < 64
          → (k : Key) (v : Mapped) → (r : Table × Status)
          → cuckoo_insert
              (suc retries)
              search_fuel
              (hashed_key k)
              t
              (home t.hashpower k)
              (other_home t.hashpower k)
              k
              v
            ≡ some r
          → Inserted t k v r
          → ((t'' : Table)
              → IsValid t''
              → t''.maximum_hashpower ≡ t.maximum_hashpower
              → t''.hashpower ≡ suc t.hashpower
              → t.hashpower < t.maximum_hashpower
              → Settles fuel t'' k v)
          → Settles (suc fuel) t k v
      unfolding cuckoo_insert_loop hashed_key
      one_round fuel t valid some_limit word k v (_, _) e (added absent a) again =
          (_, ground (arith, e), inserted absent a)
      one_round fuel t valid some_limit word k v (_, _) e (duplicated there kept) again =
          (_, ground (arith, e), present there (Kept-Alike kept))
      one_round fuel t valid some_limit word k v (t', _) e (no_room absent kept) again =
          elim (Bool-cases (P.lt (cuckoo_loadfactor t' t.hashpower) t'.minimum_load_factor)) [
            | inl low ↦ (_, ground (arith, e, low), too_low_at t t' k v absent kept low)
            | inr high ↦
                let (r, f, g) =
                  full_at fuel t t' kept.valid kept.settings.2 kept.settings.0 some_limit word in
                after_double fuel t t' k v e absent kept high r f g (λ t'' d room.
                  again t'' d.valid (d.settings.1 ∙ kept.settings.2)
                    (d.hashpower ∙ ap suc kept.settings.0)
                    (omega (arith, room, kept.settings.0, kept.settings.2)))
          ]

      -- Where the codes of paths fit into a word, the hash and the equality keep their laws, a
      -- search has more fuel than twice the nodes of the search tree, `run_cuckoo` has a round and
      -- `parallel_for` takes each lock once, in any order, `cuckoo_insert_loop` on a valid table
      -- with a largest hashpower from 1 to 63 and pairs whose moves do not throw ends after at
      -- most one round for each hashpower up to the largest and one more: the key was absent and
      -- the pair is added, or it was there and the map stays, or it was absent, the map stays and
      -- an exception says that the load factor is too low or the largest hashpower is reached.
      pub cuckoo_insert_loop_total :
          (fuel : ℕ) (t : Table)
          → IsValid t
          → 0 < t.maximum_hashpower
          → t.maximum_hashpower < 64
          → t.maximum_hashpower < t.hashpower + fuel
          → 0 < fuel
          → (k : Key) (v : Mapped)
          → (x : Table × Result Bool) × (cuckoo_insert_loop split
                (suc retries)
                search_fuel
                fuel
                (hashed_key k)
                t
                k
                v
              ≡ some x)
            × Insertion t k v x
      cuckoo_insert_loop_total zero t valid some_limit word enough_fuel positive k v =
          absurd (omega (arith, positive))
      cuckoo_insert_loop_total (suc fuel) t valid some_limit word enough_fuel positive k v =
          let (r, e, i) = cuckoo_insert_total laws fit retries search_fuel enough t valid k v in
          one_round fuel t valid some_limit word k v r e i (λ t'' valid' same next room.
            cuckoo_insert_loop_total fuel t'' valid' (omega (arith, same, some_limit))
              (omega (arith, same, word)) (omega (arith, same, next, enough_fuel))
              (omega (arith, next, room, enough_fuel)) k v)
