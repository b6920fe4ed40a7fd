-- ===== src/Reference.antt =====
-- The class `reference` of libcuckoo/cuckoohash_map.hh, which `operator[]` returns.
use libcuckoo_cxx.Base.{
  ℕ, suc, ◌+◌, ◌*◌, ◌<◌, ◌≡◌, ap, ◌∙◌, List, true, Option, none, some, arith, if◌then◌else◌, inl,
  inr, Option-cases,
}
use libcuckoo_cxx.Cuckoo.Inner.{CodesFit}
use libcuckoo_cxx.Cuckoo.Search.{tree}
use libcuckoo_cxx.Expand.Ranges.{IsPartition}
use libcuckoo_cxx.Insert.Upsert.{Upserted, changed, placed, refused, upsert_total}
use libcuckoo_cxx.Insert.Outcomes.{Insertion}
use libcuckoo_cxx.Insert.{Outcome, upsert}
use libcuckoo_cxx.Params.{Params, Laws}
use libcuckoo_cxx.Table.Counts.{IsValid}
use libcuckoo_cxx.Table.Update.{mapped}
use libcuckoo_cxx.Table.{
  Table, Exception, Result, returned, thrown, find, find_or_throw, out_of_range,
}

module _ ⦃P : Params⦄ where
  open P use {Key, Mapped, key_eq}

  -- The conversion to `mapped_type`.
  unfoldable pub read_reference : Table → Key → Result Mapped
  read_reference owner key = find_or_throw owner key

  module _ (split : ℕ → List (ℕ × ℕ)) (retries search_fuel rounds fuel : ℕ) where
    -- The assignment of a value.
    unfoldable pub assign_reference : Table → Key → Mapped → Outcome Unit
    assign_reference owner key val =
        upsert split retries search_fuel rounds fuel owner key (λ _. val) val

    -- The assignment of a reference into the same table.
    unfoldable pub copy_reference : Table → Key → Key → Outcome Unit
    copy_reference owner key from = elim (read_reference owner from) [
      | thrown e ↦ some (owner, thrown e)
      | returned val ↦ assign_reference owner key val
    ]

  -- What an assignment of `v` comes to: the key reads `v` and all others as before, or
  -- the insertion of an absent key fails, as `insert` does.
  pub data Assigned (t : Table) (k : Key) (v : Mapped) : Table × Result Unit → Type 0 where
    assigned :
        {t' : Table}
        → IsValid t'
        → ((q : Key) → find t' q ≡ (if key_eq k q then some v else find t q))
        → Assigned t k v (t', returned tt)
    failed :
        {t' : Table} {e : Exception}
        → Insertion t k v (t', thrown e)
        → Assigned t k v (t', thrown e)

  -- What an assignment from the key `from` comes to: as above with the value read there, or
  -- `out_of_range` and the table as it was.
  pub data Copied (t : Table) (k from : Key) : Table × Result Unit → Type 0 where
    missing : find t from ≡ none → Copied t k from (t, thrown out_of_range)
    copied :
        {x : Table × Result Unit} (w : Mapped)
        → find t from ≡ some w
        → Assigned t k w x
        → Copied t k from x

  Upserted-Assigned :
      (t : Table) (k : Key) (v : Mapped) (x : Table × Result Unit)
      → Upserted t k (λ _. v) v x
      → Assigned t k v x
  Upserted-Assigned t k v (t', _) (changed there c) = assigned c.valid (λ q.
      elim (Option-cases (find t k)) [
        | inl none_there ↦ absurd (cc (there, none_there))
        | inr (w, e) ↦
            c.reads q
            ∙ ap (λ (o : Option Mapped). if key_eq k q then mapped (λ _. v) o else find t q) e
      ])
  Upserted-Assigned t k v (t', _) (placed absent a) = assigned a.valid a.reads
  Upserted-Assigned t k v (t', _) (refused absent i) = failed i

  module _ (laws : Laws) (split : ℕ → List (ℕ × ℕ))
      (partitions : (n : ℕ) → IsPartition (λ _. ⊥) n (split n)) (nothrow : P.is_nothrow_move ≡ true)
      (fit : CodesFit) (retries search_fuel : ℕ) (enough : 2 * tree 4 < search_fuel)
      (rounds fuel : ℕ) where
    pub assign_reference_total :
        (t : Table)
        → IsValid t
        → 0 < t.maximum_hashpower
        → t.maximum_hashpower < 64
        → t.maximum_hashpower < t.hashpower + fuel
        → (k : Key) (v : Mapped)
        → (x : Table × Result Unit) × (assign_reference split
              (suc retries)
              search_fuel
              (suc rounds)
              fuel
              t
              k
              v
            ≡ some x)
          × Assigned t k v x
    unfolding assign_reference
    assign_reference_total t valid some_limit word enough_fuel k v =
        let (x, e, u) =
          upsert_total laws split partitions nothrow fit retries search_fuel enough fuel k (λ _. v)
            v rounds t valid some_limit word enough_fuel in
        (x, e, Upserted-Assigned t k v x u)

    -- Where the codes of paths fit into a word, the hash and the equality keep their laws, a
    -- search has more fuel than twice the nodes of the search tree, `run_cuckoo` has a round and
    -- `parallel_for` takes each lock once, in any order, the assignment of a reference from
    -- another on a valid table with a largest hashpower from 1 to 63 and pairs whose moves do not
    -- throw, with enough fuel for `cuckoo_insert_loop`, ends: where the key assigned from is
    -- absent it throws `out_of_range` and leaves the table as it was; otherwise the key assigned
    -- to reads the value of the other and every other key reads as before, or the key assigned to
    -- was absent, the readings stay and an exception says that the load factor is too low, as it
    -- then is, or that the largest hashpower is reached, as it then is.
    pub copy_reference_total :
        (t : Table)
        → IsValid t
        → 0 < t.maximum_hashpower
        → t.maximum_hashpower < 64
        → t.maximum_hashpower < t.hashpower + fuel
        → (k from : Key)
        → (x : Table × Result Unit) × (copy_reference split
              (suc retries)
              search_fuel
              (suc rounds)
              fuel
              t
              k
              from
            ≡ some x)
          × Copied t k from x
    unfolding copy_reference read_reference find_or_throw
    copy_reference_total t valid some_limit word enough_fuel k from =
        elim (Option-cases (find t from)) [
          | inl e ↦ ((t, thrown out_of_range), ground (arith, e), missing e)
          | inr (w, e) ↦
              let (x, f, a) = assign_reference_total t valid some_limit word enough_fuel k w in
              (x, ground (arith, e, f), copied w e a)
        ]
