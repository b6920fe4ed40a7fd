-- ===== src/Cuckoo/Insertion.antt =====
-- `cuckoo_insert` of libcuckoo/cuckoohash_map.hh.
use libcuckoo_cxx.Base.{
  ℕ, ◌<◌, ◌≡◌, ◌≢◌, refl, ap, subst, ◌∙◌, inl, inr, List, true, false, Option, none, some, arith,
  length, Option-cases, if◌then◌else◌,
}
use libcuckoo_cxx.Bucket.Free.{
  try_find_insert-duplicate, try_find_insert-absent, try_find_insert-free, try_find_insert_full,
}
use libcuckoo_cxx.Bucket.Laws.{is_some, locate-InBucket}
use libcuckoo_cxx.Bucket.Search.{locate, try_find_insert_bucket}
use libcuckoo_cxx.Bucket.{Bucket}
use libcuckoo_cxx.Cuckoo.Place.{IsHome-lt}
use libcuckoo_cxx.Cuckoo.Relocate.{Ran, made_room, no_path, run_cuckoo-Ran}
use libcuckoo_cxx.Cuckoo.{
  Freed, freed, full_table, run_cuckoo, finish_insert, insert_displacing, cuckoo_insert,
}
use libcuckoo_cxx.Params.{Params, Laws}
use libcuckoo_cxx.Table.Counts.{used, IsValid}
use libcuckoo_cxx.Table.Insert.{Added, add_to_bucket-Added}
use libcuckoo_cxx.Table.Lookup.{find-Reads, find_unique, contains-find, absent_of_homes, tag}
use libcuckoo_cxx.Table.Move.{Moves}
use libcuckoo_cxx.Table.Valid.{cell, home, other_home, IsHome}
use libcuckoo_cxx.Table.{
  Table, Status, ok, failure_key_duplicated, failure_table_full, bucket, hashed_key, find, contains,
  add_to_bucket, cuckoo_contains,
}

module _ ⦃P : Params⦄ where
  open P use {Key, Mapped, key_eq, slot_per_bucket}

  -- The hashpower and the two settings stay.
  abbrev pub SameSettings : Table → Table → Type 0
  SameSettings t t' =
      (t'.hashpower ≡ t.hashpower)
      × (t'.minimum_load_factor ≡ t.minimum_load_factor)
      × (t'.maximum_hashpower ≡ t.maximum_hashpower)

  -- The table stays in order, with its settings, and reads as before under every key.
  pub record Kept (t t' : Table) : Type 0 where
    pub valid : IsValid t'
    pub reads : (q : Key) → find t' q ≡ find t q
    pub counts : used t'.buckets ≡ used t.buckets
    pub settings : SameSettings t t'

  abbrev rebuilt : Table → List Bucket → Table
  rebuilt t bs = record t { buckets = bs }

  pub Moves-Kept :
      (laws : Laws) (t : Table) (valid : IsValid t) (bs : List Bucket)
      → Moves t.hashpower t.buckets bs
      → Kept t (rebuilt t bs)
  Moves-Kept laws t valid bs m = record {
    valid = record {
      placed = m.placed;
      locks = valid.locks;
      counted = rw (m.counts) valid.counted;
    };
    reads = λ q.
        find_unique laws (rebuilt t bs) m.placed q (find t q)
          (m.reads q _ (find-Reads laws t valid.placed q));
    counts = m.counts;
    settings = (refl, refl, refl);
  }

  -- The three ways in which `cuckoo_insert` returns.
  pub data Inserted (t : Table) (k : Key) (v : Mapped) : Table × Status → Type 0 where
    added : {t' : Table} → find t k ≡ none → Added t k v t' → Inserted t k v (t', ok)
    duplicated :
        {t' : Table}
        → is_some (find t k) ≡ true
        → Kept t t'
        → Inserted t k v (t', failure_key_duplicated)
    no_room : {t' : Table} → find t k ≡ none → Kept t t' → Inserted t k v (t', failure_table_full)

  module _ (laws : Laws) (t : Table) (valid : IsValid t) (k : Key) (v : Mapped) where
    pub add-Inserted :
        (i s : ℕ)
        → IsHome t.hashpower k i
        → find t k ≡ none
        → s < length (bucket t.buckets i)
        → (cell t.buckets i s).occupied ≡ false
        → Inserted t k v (add_to_bucket (tag k) t i s k v, ok)
    add-Inserted i s at absent hs empty = added absent (
        add_to_bucket-Added laws t valid k v absent i s
          (rw (valid.placed.width) (IsHome-lt t.hashpower k i valid.placed.small at)) hs empty at)

    absent :
        locate (tag k) k (bucket t.buckets (home t.hashpower k)) ≡ none
        → locate (tag k) k (bucket t.buckets (other_home t.hashpower k)) ≡ none
        → find t k ≡ none
    absent e1 e2 =
        find_unique laws t valid.placed k none (absent_of_homes laws valid.placed k e1 e2)

    not_there :
        (bs : List Bucket)
        → find (rebuilt t bs) k ≡ none
        → cuckoo_contains k (tag k) bs (home t.hashpower k) (other_home t.hashpower k) ≡ false
    not_there bs e = unfold contains hashed_key in (contains-find (rebuilt t bs) k ∙ ap is_some e)

    -- A pair found in either bucket.
    pub present :
        (i : ℕ)
        → ((s : ℕ) × (locate (tag k) k (bucket t.buckets i) ≡ some s))
        → is_some (find t k) ≡ true
    present i (s, e) =
        let (w, m) = locate-InBucket (tag k) k (bucket t.buckets i) s e in
        ap is_some (
          find_unique laws t valid.placed k (some w)
            (record { at = i; pos = s; held = m.held; stored = m.stored; same = m.same }))

    Kept-Added : {t' t'' : Table} → Kept t t' → Added t' k v t'' → Added t k v t''
    Kept-Added kept a = record {
      valid = a.valid;
      reads = λ q. a.reads q ∙ ap (λ o. if key_eq k q then some v else o) (kept.reads q);
      counts = ground (arith, a.counts, kept.counts);
      limits = (a.limits.0 ∙ kept.settings.1, a.limits.1 ∙ kept.settings.2);
      grown = λ h. omega (arith, a.grown h, kept.settings.0);
    }

    finish_insert-Inserted :
        (r : Freed (List Bucket))
        → Ran t.hashpower (home t.hashpower k) (other_home t.hashpower k) t.buckets r
        → find t k ≡ none
        → Inserted t k v
            (finish_insert (hashed_key k) t (home t.hashpower k) (other_home t.hashpower k) k v r)
    unfolding finish_insert hashed_key
    finish_insert-Inserted (full_table bs) (no_path m) absent =
        no_room absent (Moves-Kept laws t valid bs m)
    finish_insert-Inserted (freed bs i s) (made_room m at lt empty) absent =
        let kept = Moves-Kept laws t valid bs m in
        let gone : find (rebuilt t bs) k ≡ none = kept.reads k ∙ absent in
        let hi : i < length bs =
          rw (m.placed.width) (IsHome-lt t.hashpower k i m.placed.small at) in
        rw (not_there bs gone) (
          added absent (
            Kept-Added kept (
              add_to_bucket-Added laws (rebuilt t bs) kept.valid k v gone i s hi
                (rw (m.placed.rows i hi) lt) empty at)))

    insert_displacing-Inserted :
        (fuel search_fuel : ℕ) (r : Table × Status)
        → find t k ≡ none
        → insert_displacing fuel search_fuel
            (hashed_key k)
            t
            (home t.hashpower k)
            (other_home t.hashpower k)
            k
            v
          ≡ some r
        → Inserted t k v r
    unfolding insert_displacing
    insert_displacing-Inserted fuel search_fuel r absent h =
        elim (Option-cases (
          run_cuckoo fuel search_fuel t.hashpower t.buckets (home t.hashpower k)
            (other_home t.hashpower k))) [
              | inl e ↦ ground arith
              | inr (x, e) ↦ subst (Inserted t k v) (ground arith) (
                  finish_insert-Inserted x
                    (run_cuckoo-Ran laws fuel search_fuel t.hashpower _ _ t.buckets x valid.placed
                      e)
                    absent)
            ]

    unchanged : Kept t t
    unchanged = record {
      valid = valid;
      reads = λ q. refl;
      counts = refl;
      settings = (refl, refl, refl);
    }

    pub not_found :
        (res1 res2 : Option ℕ)
        → try_find_insert_bucket (tag k) k (bucket t.buckets (home t.hashpower k)) ≡ some res1
        → try_find_insert_bucket (tag k) k (bucket t.buckets (other_home t.hashpower k)) ≡ some res2
        → find t k ≡ none
    not_found res1 res2 e1 e2 =
        absent (try_find_insert-absent (tag k) k _ res1 e1)
          (try_find_insert-absent (tag k) k _ res2 e2)

    -- Both buckets have been searched, and say where a place is.
    insert_by_case :
        (fuel search_fuel : ℕ) (r : Table × Status) (res1 res2 : Option (Option ℕ))
        → try_find_insert_bucket (tag k) k (bucket t.buckets (home t.hashpower k)) ≡ res1
        → try_find_insert_bucket (tag k) k (bucket t.buckets (other_home t.hashpower k)) ≡ res2
        → cuckoo_insert fuel search_fuel
            (hashed_key k)
            t
            (home t.hashpower k)
            (other_home t.hashpower k)
            k
            v
          ≡ some r
        → Inserted t k v r
    unfolding cuckoo_insert hashed_key
    insert_by_case fuel search_fuel r none res2 e1 e2 h =
        subst (Inserted t k v) (ground arith)
          (duplicated (present _ (try_find_insert-duplicate (tag k) k _ e1)) unchanged)
    insert_by_case fuel search_fuel r (some res1) none e1 e2 h =
        subst (Inserted t k v) (ground arith)
          (duplicated (present _ (try_find_insert-duplicate (tag k) k _ e2)) unchanged)
    insert_by_case fuel search_fuel r (some (some s)) (some res2) e1 e2 h =
        let (lt, free) = try_find_insert-free (tag k) k _ s e1 in
        subst (Inserted t k v) (ground arith)
          (add-Inserted (home t.hashpower k) s (inl refl) (not_found _ _ e1 e2) lt free)
    insert_by_case fuel search_fuel r (some none) (some (some s)) e1 e2 h =
        let (lt, free) = try_find_insert-free (tag k) k _ s e2 in
        subst (Inserted t k v) (ground arith)
          (add-Inserted (other_home t.hashpower k) s (inr refl) (not_found _ _ e1 e2) lt free)
    insert_by_case fuel search_fuel r (some none) (some none) e1 e2 h =
        insert_displacing-Inserted fuel search_fuel r (not_found _ _ e1 e2) (ground arith)

    pub cuckoo_insert-Inserted :
        (fuel search_fuel : ℕ) (r : Table × Status)
        → cuckoo_insert fuel search_fuel
            (hashed_key k)
            t
            (home t.hashpower k)
            (other_home t.hashpower k)
            k
            v
          ≡ some r
        → Inserted t k v r
    cuckoo_insert-Inserted fuel search_fuel r h = insert_by_case fuel search_fuel r _ _ refl refl h

    -- The search of both buckets settles the insertion unless both are full.
    settled :
        (fuel search_fuel : ℕ) (res1 res2 : Option (Option ℕ))
        → try_find_insert_bucket (tag k) k (bucket t.buckets (home t.hashpower k)) ≡ res1
        → try_find_insert_bucket (tag k) k (bucket t.buckets (other_home t.hashpower k)) ≡ res2
        → ((res1 ≡ some none) → (res2 ≡ some none) → ⊥)
        → (r : Table × Status) × (cuckoo_insert fuel search_fuel
              (hashed_key k)
              t
              (home t.hashpower k)
              (other_home t.hashpower k)
              k
              v
            ≡ some r)
          × (r.1 ≢ failure_table_full)
    unfolding cuckoo_insert hashed_key
    settled fuel search_fuel none res2 e1 e2 n =
        ((t, failure_key_duplicated), ground arith, λ h. cc)
    settled fuel search_fuel (some res1) none e1 e2 n =
        ((t, failure_key_duplicated), ground arith, λ h. cc)
    settled fuel search_fuel (some (some s)) (some res2) e1 e2 n =
        ((add_to_bucket (tag k) t (home t.hashpower k) s k v, ok), ground arith, λ h. cc)
    settled fuel search_fuel (some none) (some (some s)) e1 e2 n =
        ((add_to_bucket (tag k) t (other_home t.hashpower k) s k v, ok), ground arith, λ h. cc)
    settled fuel search_fuel (some none) (some none) e1 e2 n = absurd (n refl refl)

    full_home :
        (i s : ℕ)
        → IsHome t.hashpower k i
        → s < slot_per_bucket
        → (cell t.buckets i s).occupied ≡ false
        → try_find_insert_bucket (tag k) k (bucket t.buckets i) ≡ some none
        → ⊥
    full_home i s at lt empty e =
        let hi : i < length t.buckets =
          rw (valid.placed.width) (IsHome-lt t.hashpower k i valid.placed.small at) in
        cc (try_find_insert_full (tag k) k _ e s (rw (valid.placed.rows i hi) lt), empty)

    not_both_full :
        (i s : ℕ)
        → IsHome t.hashpower k i
        → s < slot_per_bucket
        → (cell t.buckets i s).occupied ≡ false
        → (try_find_insert_bucket (tag k) k (bucket t.buckets (home t.hashpower k)) ≡ some none)
        → (try_find_insert_bucket (tag k) k (bucket t.buckets (other_home t.hashpower k))
            ≡ some none)
        → ⊥
    not_both_full i s (inl at) lt empty e1 e2 =
        full_home i s (inl at) lt empty
          (ap (λ (j : ℕ). try_find_insert_bucket (tag k) k (bucket t.buckets j)) at ∙ e1)
    not_both_full i s (inr at) lt empty e1 e2 =
        full_home i s (inr at) lt empty
          (ap (λ (j : ℕ). try_find_insert_bucket (tag k) k (bucket t.buckets j)) at ∙ e2)

    -- On a valid table with an empty slot in one of the two buckets of `k`, `cuckoo_insert`
    -- returns at once and not with `failure_table_full`: either `k` was absent and the pair is
    -- added (status `ok`), or `k` was there and the map stays (status `failure_key_duplicated`).
    pub cuckoo_insert_where_free :
        (fuel search_fuel i s : ℕ)
        → IsHome t.hashpower k i
        → s < slot_per_bucket
        → (cell t.buckets i s).occupied ≡ false
        → (r : Table × Status) × (cuckoo_insert fuel search_fuel
              (hashed_key k)
              t
              (home t.hashpower k)
              (other_home t.hashpower k)
              k
              v
            ≡ some r)
          × (r.1 ≢ failure_table_full)
          × Inserted t k v r
    cuckoo_insert_where_free fuel search_fuel i s at lt empty =
        let (r, e, n) = settled fuel search_fuel _ _ refl refl (not_both_full i s at lt empty) in
        (r, e, n, cuckoo_insert-Inserted fuel search_fuel r e)
