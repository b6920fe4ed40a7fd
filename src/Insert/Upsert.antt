-- ===== src/Insert/Upsert.antt =====
-- `upsert`: with a largest hashpower set, one round of its loop is enough.
use libcuckoo_cxx.Base.{
  ℕ, suc, ◌+◌, ◌*◌, ◌<◌, ◌≤◌, ◌≡◌, refl, ap, ◌∙◌, List, Bool, true, false, none, some, arith, subst,
  inl, inr, Option-cases,
}
use libcuckoo_cxx.Bucket.Laws.{is_some}
use libcuckoo_cxx.Cuckoo.Inner.{CodesFit}
use libcuckoo_cxx.Cuckoo.Insertion.{Kept, Inserted, added, duplicated, no_room}
use libcuckoo_cxx.Cuckoo.Search.{tree}
use libcuckoo_cxx.Cuckoo.Total.{cuckoo_insert_total}
use libcuckoo_cxx.Cuckoo.{cuckoo_insert}
use libcuckoo_cxx.Expand.Ranges.{IsPartition}
use libcuckoo_cxx.Insert.Loop.{Growth, grown, at_maximum, full_at, cuckoo_insert_loop_total}
use libcuckoo_cxx.Insert.Outcomes.{
  Kept-Alike, Doubled-Alike, Alike-trans, Insertion, inserted, present, too_low, exceeded,
  Insertion-Alike,
}
use libcuckoo_cxx.Insert.{
  Outcome, cuckoo_fast_double, cuckoo_insert_loop, upsert_insert, upsert_round, upsert,
}
use libcuckoo_cxx.Params.{Params, Laws}
use libcuckoo_cxx.Table.Counts.{IsValid}
use libcuckoo_cxx.Table.Insert.{Added}
use libcuckoo_cxx.Table.Update.{Changed, update_fn-Changed, update_fn_absent}
use libcuckoo_cxx.Table.Valid.{home, other_home}
use libcuckoo_cxx.Table.{
  Table, Status, ok, failure_table_full, Exception, Result, returned, thrown,
  maximum_hashpower_exceeded, hashed_key, find, update_fn,
}

module _ ⦃P : Params⦄ where
  open P use {Key, Mapped, key_eq, slot_per_bucket}

  -- The ways in which `upsert` ends.
  pub data Upserted (t : Table) (k : Key) (f : Mapped → Mapped) (v : Mapped)
      : Table × Result Unit → Type 0 where
    changed :
        {t' : Table}
        → is_some (find t k) ≡ true
        → Changed t k f (t', true)
        → Upserted t k f v (t', returned tt)
    placed : {t' : Table} → find t k ≡ none → Added t k v t' → Upserted t k f v (t', returned tt)
    refused :
        {t' : Table} {e : Exception}
        → find t k ≡ none
        → Insertion t k v (t', thrown e)
        → Upserted t k f v (t', thrown e)

  -- A round after which the loop stops.
  abbrev stop : Table × Result Unit → Table × Result Bool
  stop (t, returned _) = (t, returned false)
  stop (t, thrown e) = (t, thrown e)

  module _ (laws : Laws) (split : ℕ → List (ℕ × ℕ))
      (partitions : (n : ℕ) → IsPartition (λ _. ⊥) n (split n)) (nothrow : P.is_nothrow_move ≡ true)
      (fit : CodesFit) (retries search_fuel : ℕ) (enough : 2 * tree 4 < search_fuel) (fuel : ℕ)
      (k : Key) (f : Mapped → Mapped) (v : Mapped) where
    -- One round stops the loop, with one of the results above.
    abbrev Stops : Table → Type 0
    Stops t =
        (x : Table × Result Unit) × (upsert_round split (suc retries) search_fuel fuel t k f v
          ≡ some (stop x))
        × Upserted t k f v x

    -- The round, from the answer of the update.
    abbrev after_update : Table → Table × Bool → Outcome Bool
    after_update t (t', true) = some (t', returned false)
    after_update t (t', false) =
        upsert_insert split (suc retries) search_fuel fuel t' (hashed_key k) t.hashpower k v

    round_by_update :
        (t : Table)
        → upsert_round split (suc retries) search_fuel fuel t k f v
          ≡ after_update t (update_fn t k f)
    unfolding upsert_round update_fn
    round_by_update t = refl

    by_update : (t : Table) → IsValid t → is_some (find t k) ≡ true → Stops t
    by_update t valid there =
        let c = update_fn-Changed laws t valid k f in
        let yes : (update_fn t k f).1 ≡ true = c.answer ∙ there in
        (
          ((update_fn t k f).0, returned tt),
          round_by_update t ∙ ap (λ (b : Bool). after_update t ((update_fn t k f).0, b)) yes,
          changed there (subst (λ (b : Bool). Changed t k f ((update_fn t k f).0, b)) yes c),
        )

    -- The round where the key is not there, from its second part.
    round_absent :
        (t : Table) (valid : IsValid t)
        → find t k ≡ none
        → upsert_round split (suc retries) search_fuel fuel t k f v
          ≡ upsert_insert split (suc retries) search_fuel fuel t (hashed_key k) t.hashpower k v
    round_absent t valid absent =
        round_by_update t ∙ ap (after_update t) (update_fn_absent laws t valid k f absent)

    -- What the second part has to come to.
    abbrev Settled : Table → Type 0
    Settled t =
        (x : Table × Result Unit) × (upsert_insert split (suc retries) search_fuel fuel t
            (hashed_key k) t.hashpower k v
          ≡ some (stop x))
        × Upserted t k f v x

    after_double :
        (t t' t'' : Table)
        → cuckoo_insert
            (suc retries)
            search_fuel
            (hashed_key k)
            t
            (home t.hashpower k)
            (other_home t.hashpower k)
            k
            v
          ≡ some (t', failure_table_full)
        → find t k ≡ none
        → cuckoo_fast_double split
            (suc retries)
            search_fuel
            (λ m l w. cuckoo_insert_loop split (suc retries) search_fuel fuel (hashed_key l) m l w)
            t'
            t.hashpower
          ≡ some (t'', returned ok)
        → (x : Table × Result Bool)
        → cuckoo_insert_loop split (suc retries) search_fuel fuel (hashed_key k) t'' k v ≡ some x
        → Insertion t k v x
        → Settled t
    unfolding upsert_insert hashed_key
    after_double t t' t'' e absent g (m, _) h (inserted _ a) =
        ((m, returned tt), ground (arith, e, g, h), placed absent a)
    after_double t t' t'' e absent g (m, _) h (present there a) = absurd (cc (absent, there))
    after_double t t' t'' e absent g (m, _) h (too_low x a low) =
        ((m, _), ground (arith, e, g, h), refused absent (too_low x a low))
    after_double t t' t'' e absent g (m, _) h (exceeded x a limit top) =
        ((m, _), ground (arith, e, g, h), refused absent (exceeded x a limit top))

    at_limit :
        (t t' : Table)
        → cuckoo_insert
            (suc retries)
            search_fuel
            (hashed_key k)
            t
            (home t.hashpower k)
            (other_home t.hashpower k)
            k
            v
          ≡ some (t', failure_table_full)
        → find t k ≡ none
        → Kept t t'
        → 0 < t'.maximum_hashpower
        → t'.maximum_hashpower ≤ t'.hashpower
        → cuckoo_fast_double split
            (suc retries)
            search_fuel
            (λ m l w. cuckoo_insert_loop split (suc retries) search_fuel fuel (hashed_key l) m l w)
            t'
            t.hashpower
          ≡ some (t', thrown (maximum_hashpower_exceeded (t'.hashpower + 1)))
        → Settled t
    unfolding upsert_insert hashed_key
    at_limit t t' e absent kept limit top g = (
      (t', _),
      ground (arith, e, g),
      refused absent (
          exceeded absent (Kept-Alike kept) (omega (arith, limit, kept.settings.2))
            (omega (arith, top, kept.settings.2))),
    )

    module _ (t : Table) (valid : IsValid t) (some_limit : 0 < t.maximum_hashpower)
        (word : t.maximum_hashpower < 64) (enough_fuel : t.maximum_hashpower < t.hashpower + fuel)
        (absent : find t k ≡ none) where
      by_growth :
          (t' : Table)
          → cuckoo_insert
              (suc retries)
              search_fuel
              (hashed_key k)
              t
              (home t.hashpower k)
              (other_home t.hashpower k)
              k
              v
            ≡ some (t', failure_table_full)
          → Kept t t'
          → (r : Table × Result Status)
          → cuckoo_fast_double split
              (suc retries)
              search_fuel
              (λ m l w.
                cuckoo_insert_loop split (suc retries) search_fuel fuel (hashed_key l) m l w)
              t'
              t.hashpower
            ≡ some r
          → Growth t' r
          → Settled t
      by_growth t' e kept (t'', _) g (grown d room) =
          let alike = Alike-trans (Kept-Alike kept) (Doubled-Alike d) in
          let (x, h, i) =
            cuckoo_insert_loop_total laws split partitions nothrow fit retries search_fuel enough
              fuel t'' d.valid (omega (arith, alike.maximum, some_limit))
              (omega (arith, alike.maximum, word))
              (omega (arith, alike.maximum, d.hashpower, kept.settings.0, enough_fuel))
              (omega (arith, room, kept.settings.0, kept.settings.2, enough_fuel)) k v in
          after_double t t' t'' e absent g x h (Insertion-Alike k v x alike i)
      by_growth t' e kept (_, _) g (at_maximum limit top) = at_limit t t' e absent kept limit top g

      by_insert :
          (r : Table × Status)
          → cuckoo_insert
              (suc retries)
              search_fuel
              (hashed_key k)
              t
              (home t.hashpower k)
              (other_home t.hashpower k)
              k
              v
            ≡ some r
          → Inserted t k v r
          → Settled t
      unfolding upsert_insert hashed_key
      by_insert (t', _) e (added _ a) = ((t', returned tt), ground (arith, e), placed absent a)
      by_insert (t', _) e (duplicated there kept) = absurd (cc (absent, there))
      by_insert (t', _) e (no_room _ kept) =
          let (r, g, grows) =
            full_at laws split partitions nothrow fit retries search_fuel enough fuel t t'
              kept.valid kept.settings.2 kept.settings.0 some_limit word in
          by_growth t' e kept r g grows

      by_insertion : Stops t
      by_insertion =
          let (r, e, i) = cuckoo_insert_total laws fit retries search_fuel enough t valid k v in
          let (x, g, u) = by_insert r e i in (x, round_absent t valid absent ∙ g, u)

    ended :
        (rounds : ℕ) (t : Table) (x : Table × Result Unit)
        → upsert_round split (suc retries) search_fuel fuel t k f v ≡ some (stop x)
        → upsert split (suc retries) search_fuel (suc rounds) fuel t k f v ≡ some x
    unfolding upsert
    ended rounds t (m, returned tt) h = ground (arith, h)
    ended rounds t (m, thrown e) h = ground (arith, h)

    -- Where the codes of paths fit into a word, the hash and the equality keep their laws, a
    -- search has more fuel than twice the nodes of the search tree, `run_cuckoo` has a round and
    -- `parallel_for` takes each lock once, in any order, `upsert` on a valid table with a largest
    -- hashpower from 1 to 63 and pairs whose moves do not throw, with one round of fuel for
    -- `cuckoo_insert_loop` for each hashpower up to the largest, ends in its first round: where
    -- the key was there its value is changed by the function and every other key reads as before,
    -- where it was absent the pair is added, or an exception says that the load factor is too low
    -- or the largest hashpower is reached, and every reading stays.
    pub upsert_total :
        (rounds : ℕ) (t : Table)
        → IsValid t
        → 0 < t.maximum_hashpower
        → t.maximum_hashpower < 64
        → t.maximum_hashpower < t.hashpower + fuel
        → (x : Table × Result Unit) × (upsert split
              (suc retries)
              search_fuel
              (suc rounds)
              fuel
              t
              k
              f
              v
            ≡ some x)
          × Upserted t k f v x
    upsert_total rounds t valid some_limit word enough_fuel =
        let (x, e, u) : Stops t = elim (Option-cases (find t k)) [
          | inl absent ↦ by_insertion t valid some_limit word enough_fuel absent
          | inr (w, there) ↦ by_update t valid (ap is_some there)
        ] in
        (x, ended rounds t x e, u)
