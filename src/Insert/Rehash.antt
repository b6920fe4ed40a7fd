-- ===== src/Insert/Rehash.antt =====
-- `rehash` and `reserve`: the same pairs in a table of another size.
use libcuckoo_cxx.Base.{
  ℕ, suc, ◌+◌, ◌*◌, ◌^◌, ◌<◌, ◌≤◌, ◌≡◌, ◌≢◌, refl, sym, ap, ◌∙◌, subst, ◌⊎◌, inl, inr, List, Bool,
  true, false, none, some, arith, Bool-cases, ltb, ltb→lt, ◌==◌, ==→eq, ==_refl,
}
use libcuckoo_cxx.Config.{u64}
use libcuckoo_cxx.Construct.Reserve.{Reserves, reserve_calc-Reserves}
use libcuckoo_cxx.Construct.{reserve_calc}
use libcuckoo_cxx.Cuckoo.Inner.{CodesFit}
use libcuckoo_cxx.Cuckoo.Search.{tree}
use libcuckoo_cxx.Expand.Ranges.{IsPartition}
use libcuckoo_cxx.Hash.{hashsize}
use libcuckoo_cxx.Insert.Copied.{IsReady, Inserts, Holds}
use libcuckoo_cxx.Insert.Resize.{
  Resized, Resizing, over_limit, wrong_way, too_big, not_finished, resized,
  cuckoo_expand_simple-Resizing,
}
use libcuckoo_cxx.Insert.Unlimited.{Insertion-Added, loop-MaySettle}
use libcuckoo_cxx.Insert.{Outcome, over_maximum, insert, changed_size, rehash, reserve}
use libcuckoo_cxx.Params.{Params, Laws, DoubleLaws}
use libcuckoo_cxx.Table.Counts.{IsValid}
use libcuckoo_cxx.Table.Lookup.{find_unique}
use libcuckoo_cxx.Table.{Table, Status, maximum_hashpower_exceeded, returned, thrown, find}

module _ ⦃P : Params⦄ where
  open P use {Key, Mapped, key_eq, slot_per_bucket}

  -- An insertion that does not end within its fuel: of a pair of `t`, into a map without limits that
  -- has some other pairs of `t`.
  pub record RunsOut (split : ℕ → List (ℕ × ℕ)) (retries search_fuel fuel : ℕ) (t : Table)
      : Type 0 where
    pub map : Table
    pub ready : IsReady map
    pub part : (q : Key) (w : Mapped) → find map q ≡ some w → find t q ≡ some w
    pub key : Key
    pub value : Mapped
    pub there : find t key ≡ some value
    pub absent : find map key ≡ none
    pub stuck : insert split retries search_fuel fuel map key value ≡ none

  -- The ways in which `rehash` ends.
  pub data Rehashed (Fails : Type 0) (t : Table) (n : ℕ) : Outcome Bool → Type 0 where
    same_size : n ≡ t.hashpower → Rehashed Fails t n (some (t, returned false))
    refused :
        0 < t.maximum_hashpower
        → t.maximum_hashpower < n
        → n ≢ t.hashpower
        → Rehashed Fails t n (some (t, thrown (maximum_hashpower_exceeded n)))
    undefined :
        (64 ≤ n) ⊎ (2 ^ 63 < u64 (hashsize n * slot_per_bucket) + slot_per_bucket)
        → Rehashed Fails t n none
    unfinished : Fails → Rehashed Fails t n none
    rehashed :
        {t' : Table}
        → n ≢ t.hashpower
        → Resized n t t'
        → Rehashed Fails t n (some (t', returned true))

  over_limit_of :
      (t : Table) (n : ℕ)
      → over_maximum t n ≡ true
      → (0 < t.maximum_hashpower) × (t.maximum_hashpower < n)
  over_limit_of t n h = ground (arith, h, ==_refl t.maximum_hashpower, ltb→lt t.maximum_hashpower n)

  Resizing-Rehashed :
      (Fails : Type 0) (t : Table) (n : ℕ) (o : Outcome Status)
      → n ≢ t.hashpower
      → Resizing Fails t n (ltb t.hashpower n) o
      → Rehashed Fails t n (changed_size o)
  Resizing-Rehashed Fails t n _ other (over_limit h) =
      let (limit, top) = over_limit_of t n h in refused limit top other
  Resizing-Rehashed Fails t n _ other (wrong_way h) = absurd (ground (arith, h, other))
  Resizing-Rehashed Fails t n _ other (too_big h) = undefined h
  Resizing-Rehashed Fails t n _ other (not_finished f) = unfinished f
  Resizing-Rehashed Fails t n _ other (resized _ _ a) = rehashed other a

  module _ (laws : Laws) (doubles : DoubleLaws) (split : ℕ → List (ℕ × ℕ))
      (partitions : (n : ℕ) → IsPartition (λ _. ⊥) n (split n)) (fit : CodesFit)
      (retries search_fuel : ℕ) (enough : 2 * tree 4 < search_fuel) (fuel : ℕ) where
    abbrev pub Stuck : Table → Type 0
    Stuck t = RunsOut split (suc retries) search_fuel fuel t

    Holds-find :
        (t : Table) → IsValid t → (q : Key) (w : Mapped) → Holds t.buckets q w → find t q ≡ some w
    Holds-find t valid q w (i, s, k, stored, same) =
        find_unique laws t valid.placed q (some w)
          (record { at = i; pos = s; held = k; stored = stored; same = same })

    insert-Inserts :
        (t : Table)
        → IsValid t
        → Inserts t.buckets (insert split (suc retries) search_fuel fuel) (Stuck t)
    unfolding insert
    insert-Inserts t valid m ready some_of k v holds absent =
        elim (loop-MaySettle laws doubles split partitions fit retries search_fuel enough fuel m
          ready.valid k v) [
            | inl e ↦ inl (
              record {
                map = m;
                ready = ready;
                part = λ q w f. Holds-find t valid q w (some_of q w f);
                key = k;
                value = v;
                there = Holds-find t valid k v holds;
                absent = absent;
                stuck = e;
              },
              e,
            )
            | inr (x, e, i) ↦
                let (answer, a) =
                  Insertion-Added laws doubles split partitions m k v x ready absent i in
                inr (x.0, e ∙ ap (λ r. some (x.0, r)) answer, a)
          ]

    -- Let the hash, the equality and `double` keep their laws, let the codes of paths fit into a
    -- word, and let `parallel_for` take each bucket and each lock once, in any order, one range
    -- after the other; then `rehash` of a valid table to the hashpower `n`, with pairs whose moves
    -- may throw or not, returns false and leaves the table where `n` is its hashpower; throws
    -- `maximum_hashpower_exceeded` and leaves the table where `n` is above a largest hashpower;
    -- and otherwise returns true and leaves a valid table with the same settings, the same number
    -- of pairs and the same value under every key, by `cuckoo_expand_simple`. The hashpower is
    -- then at least `n`, where moves do not throw and the slots of `n` are, with one more bucket
    -- of them, up to 2^63. It fails to return only where the sizes are beyond 2^63, or where an
    -- insertion of a pair of the table into a map without limits that has some other pairs of it
    -- runs out of fuel.
    pub rehash-Rehashed :
        (t : Table)
        → IsValid t
        → (n : ℕ) → Rehashed (Stuck t) t n (rehash split (suc retries) search_fuel fuel t n)
    unfolding rehash
    rehash-Rehashed t valid n = elim (Bool-cases (n == t.hashpower)) [
      | inl e ↦
          subst (Rehashed (Stuck t) t n) (sym (rw (rehash, e) refl))
            (same_size (==→eq n t.hashpower e))
      | inr e ↦ subst (Rehashed (Stuck t) t n) (sym (rw (rehash, e) refl)) (
          Resizing-Rehashed (Stuck t) t n _ (λ same. cc (e, same, ==_refl n))
            (cuckoo_expand_simple-Resizing laws doubles split partitions (suc retries) search_fuel
              (insert split (suc retries) search_fuel fuel) (Stuck t) t (insert-Inserts t valid)
              valid n (ltb t.hashpower n)))
    ]

    -- Where the hash, the equality and `double` keep their laws, the codes of paths fit into a
    -- word, `parallel_for` takes each bucket and each lock once, and `n + slot_per_bucket` is up
    -- to 2^63, `reserve n` on a valid table is a `rehash` to a hashpower from 1 to 63 that has
    -- room for `n` pairs while no smaller positive one has, and ends in one of its ways: false and
    -- the table as it was, which has that hashpower; `maximum_hashpower_exceeded` and the table as
    -- it was; true and a valid table with the same pairs, readings and settings, of at least that
    -- hashpower where moves do not throw and its slots, with one more bucket of them, are up to
    -- 2^63; or no result for the reasons of `rehash`.
    pub reserve-Rehashed :
        (t : Table)
        → IsValid t
        → (n : ℕ) → n + slot_per_bucket ≤ 2 ^ 63
        → (r : Reserves n (reserve_calc n)) × Rehashed
            (Stuck t)
            t
            r.hp
            (reserve split (suc retries) search_fuel fuel t n)
    unfolding reserve
    reserve-Rehashed t valid n lim =
        let r = reserve_calc-Reserves n laws.slots_pos lim in
        (
          r,
          subst (Rehashed (Stuck t) t r.hp) (sym (rw (reserve, r.result) refl))
              (rehash-Rehashed t valid r.hp),
        )
