-- ===== src/Table/Update.antt =====
-- `update` and `update_fn` of libcuckoo/cuckoohash_map.hh.
use libcuckoo_cxx.Base.{
  ℕ, ◌<◌, ◌≡◌, refl, sym, ap, subst, inl, inr, Bool, true, false, Option, none, some, if◌then◌else◌,
  arith, length, Bool-cases,
}
use libcuckoo_cxx.Bucket.Laws.{is_some}
use libcuckoo_cxx.Bucket.Search.{try_update_bucket, try_update_bucket_fn}
use libcuckoo_cxx.Bucket.{Slot, revalued, set_val}
use libcuckoo_cxx.Params.{Params, Laws}
use libcuckoo_cxx.Table.Counts.{SameLimits, used, used-put, IsValid}
use libcuckoo_cxx.Table.Lookup.{
  Located, first, second, nowhere, search_homes, find-value_of, find-Reads, find_unique, find_congr,
}
use libcuckoo_cxx.Table.Valid.{IsHome, cell, home, other_home, IsPlaced, put, in_range}
use libcuckoo_cxx.Table.Write.{Fits, put-PlacedBy, put-Reads_other, put-Reads-some}
use libcuckoo_cxx.Table.{
  Table, bucket, hashed_key, cuckoo_update, cuckoo_update_fn, find, update, update_fn,
}

module _ ⦃P : Params⦄ where
  open P use {Key, Mapped, key_eq}

  abbrev pub mapped : (Mapped → Mapped) → Option Mapped → Option Mapped
  mapped f none = none
  mapped f (some v) = some (f v)

  -- What an update by `f` owes its caller: the table stays in order, the answer says whether the
  -- key was there, its value is changed by `f`, every other key reads as before, and no pair is
  -- added or lost.
  pub record Changed (t : Table) (k : Key) (f : Mapped → Mapped) (r : Table × Bool) : Type 0 where
    pub valid : IsValid r.0
    pub answer : r.1 ≡ is_some (find t k)
    pub reads : (q : Key) → find r.0 q ≡ (if key_eq k q then mapped f (find t k) else find t q)
    pub counts : used r.0.buckets ≡ used t.buckets
    pub hashpower : r.0.hashpower ≡ t.hashpower
    pub limits : SameLimits t r.0

  module _ (laws : Laws) (t : Table) (valid : IsValid t) (k : Key) (f : Mapped → Mapped) where
    abbrev changed_at : ℕ → ℕ → Mapped → Table
    changed_at i s v = record t {
      buckets = put t.buckets i s (revalued (cell t.buckets i s) (f v));
    }

    module _ (i s : ℕ) (l : Key) (v : Mapped) (stored : (cell t.buckets i s).storage ≡ some (l, v))
        (same : key_eq l k ≡ true) where
      abbrev changed : Slot
      changed = revalued (cell t.buckets i s) (f v)

      hi : i < length t.buckets
      hi = (in_range t.buckets i s stored).0

      hs : s < length (bucket t.buckets i)
      hs = (in_range t.buckets i s stored).1

      changed-stored : changed.storage ≡ some (l, f v)
      changed-stored = ground (arith, stored)

      changed-key : (a : Key) (b : Mapped) → changed.storage ≡ some (a, b) → a ≡ l
      changed-key a b h = ground (arith, changed-stored)

      changed_at-Fits : Fits t.buckets i s changed hi hs (IsHome t.hashpower)
      changed_at-Fits = record {
        live = ground (arith, changed-stored, valid.placed.live i s, stored);
        tagged = λ a b h. rw (changed-key a b h) (valid.placed.homes i s l v stored);
        alone = λ a b h j u c w g e.
            valid.placed.unique i s j u l c v w stored g (rw (changed-key a b h) at e);
      }

      changed_at-IsPlaced : IsPlaced t.hashpower (put t.buckets i s changed)
      changed_at-IsPlaced =
          put-PlacedBy t.buckets i s changed hi hs laws valid.placed changed_at-Fits

      counts_kept : used (put t.buckets i s changed) ≡ used t.buckets
      counts_kept = omega (arith, used-put t.buckets i s changed hi hs)

      changed_at-IsValid : IsValid (changed_at i s v)
      changed_at-IsValid = record {
        placed = changed_at-IsPlaced;
        locks = valid.locks;
        counted = rw counts_kept valid.counted;
      }

      changed_at-reads :
          find t k ≡ some v
          → (q : Key)
          → find (changed_at i s v) q ≡ (if key_eq k q then mapped f (find t k) else find t q)
      changed_at-reads there q = elim (Bool-cases (key_eq k q)) [
        | inl e ↦
            rw (e, there)
              (find_unique laws (changed_at i s v) changed_at-IsPlaced q (some (f v)) (
                put-Reads-some t.buckets i s changed hi hs q l (f v) changed-stored
                  (laws.eq_trans l k q same e)))
        | inr e ↦ rw e (
            find_unique laws (changed_at i s v) changed_at-IsPlaced q (find t q) (
              put-Reads_other t.buckets i s changed hi hs q (find t q)
                (λ a b h. ground (arith, stored, laws.eq_trans k l q, laws.eq_symm k l))
                (λ a b h. ground (arith, changed-key a b h, laws.eq_trans k l q, laws.eq_symm k l))
                (find-Reads laws t valid.placed q)))
      ]

      pub changed_at-Changed : find t k ≡ some v → Changed t k f (changed_at i s v, true)
      changed_at-Changed there = record {
        valid = changed_at-IsValid;
        answer = sym (ap is_some there);
        reads = changed_at-reads there;
        counts = counts_kept;
        hashpower = refl;
        limits = (refl, refl);
      }

    unchanged-Changed : find t k ≡ none → Changed t k f (t, false)
    unchanged-Changed e = record {
      valid = valid;
      answer = sym (ap is_some e);
      reads = λ q. ground (arith, e, find_congr laws t valid.placed k q);
      counts = refl;
      hashpower = refl;
      limits = (refl, refl);
    }

    -- The result of the code, from where the search stops.
    abbrev changed_by : Located t.hashpower t.buckets k → Table × Bool
    changed_by (first s v e m) = (changed_at (home t.hashpower k) s v, true)
    changed_by (second s v e1 e m) = (changed_at (other_home t.hashpower k) s v, true)
    changed_by (nowhere e1 e2) = (t, false)

    changed_by-Changed : (l : Located t.hashpower t.buckets k) → Changed t k f (changed_by l)
    changed_by-Changed (first s v e m) =
        changed_at-Changed _ s m.held v m.stored m.same (find-value_of t k (first s v e m))
    changed_by-Changed (second s v e1 e m) =
        changed_at-Changed _ s m.held v m.stored m.same (find-value_of t k (second s v e1 e m))
    changed_by-Changed (nowhere e1 e2) = unchanged-Changed (find-value_of t k (nowhere e1 e2))

    update_fn_run : (l : Located t.hashpower t.buckets k) → update_fn t k f ≡ changed_by l
    unfolding update_fn hashed_key cuckoo_update_fn try_update_bucket_fn set_val
    update_fn_run (first s v e m) = ground (arith, m.stored)
    update_fn_run (second s v e1 e m) = ground (arith, m.stored)
    update_fn_run (nowhere e1 e2) = ground arith

    -- On a valid table, `update_fn k f` returns whether `k` was there, changes its value by `f`,
    -- leaves every other key, the validity, the number of pairs and the hashpower.
    pub update_fn-Changed : Changed t k f (update_fn t k f)
    update_fn-Changed =
        let l = search_homes t.hashpower t.buckets k in
        subst (Changed t k f) (sym (update_fn_run l)) (changed_by-Changed l)

    pub update_fn_absent : find t k ≡ none → update_fn t k f ≡ (t, false)
    update_fn_absent absent = elim (search_homes t.hashpower t.buckets k) [
      | first s v e m ↦ absurd (cc (absent, find-value_of t k (first s v e m)))
      | second s v e1 e m ↦ absurd (cc (absent, find-value_of t k (second s v e1 e m)))
      | nowhere e1 e2 ↦ update_fn_run (nowhere e1 e2)
    ]

  module _ (laws : Laws) (t : Table) (valid : IsValid t) (k : Key) (val : Mapped) where
    update_run : (l : Located t.hashpower t.buckets k) → update t k val ≡ update_fn t k (λ _. val)
    unfolding update hashed_key cuckoo_update try_update_bucket set_val update_fn cuckoo_update_fn
        try_update_bucket_fn
    update_run (first s v e m) = ground (arith, m.stored)
    update_run (second s v e1 e m) = ground (arith, m.stored)
    update_run (nowhere e1 e2) = ground arith

    -- On a valid table, `update k v` returns whether `k` was there, sets its value to `v`, leaves
    -- every other key, the validity, the number of pairs and the hashpower.
    pub update-Changed : Changed t k (λ _. val) (update t k val)
    update-Changed =
        subst (Changed t k (λ _. val)) (sym (update_run (search_homes t.hashpower t.buckets k)))
          (update_fn-Changed laws t valid k (λ _. val))
