-- ===== src/Table/Erase.antt =====
-- `erase` of libcuckoo/cuckoohash_map.hh.
use libcuckoo_cxx.Base.{
  ℕ, ◌+◌, ◌<◌, ◌≡◌, refl, sym, ap, subst, ◌∙◌, inl, inr, Bool, true, false, none, some,
  if◌then◌else◌, arith, length, Bool-cases,
}
use libcuckoo_cxx.Bucket.Laws.{is_some}
use libcuckoo_cxx.Bucket.Search.{try_del_from_bucket, locate}
use libcuckoo_cxx.Bucket.{vacated, erase_kv}
use libcuckoo_cxx.Hash.{lock_ind}
use libcuckoo_cxx.Params.{Params, Laws}
use libcuckoo_cxx.Table.Counts.{SameLimits, bit, used, used-put, IsValid, length-dec, counted-dec}
use libcuckoo_cxx.Table.Lookup.{
  Located, first, second, nowhere, search_homes, find-value_of, find-Reads, find_unique, find_congr,
  tag,
}
use libcuckoo_cxx.Table.Valid.{cell, home, other_home, IsPlaced, put, in_range}
use libcuckoo_cxx.Table.Write.{put-PlacedBy, put-Reads_other, put-Reads-none}
use libcuckoo_cxx.Table.{
  Table, bucket, hashed_key, delete_at, cuckoo_delete, nonatomic_dec, find, erase,
}

module _ ⦃P : Params⦄ where
  open P use {Key, Mapped, key_eq}

  -- What `erase` owes its caller: the table stays in order, the answer says whether the key was
  -- there, the key is gone and every other key reads as before, and one pair less is counted.
  pub record Erased (t : Table) (k : Key) (r : Table × Bool) : Type 0 where
    pub valid : IsValid r.0
    pub answer : r.1 ≡ is_some (find t k)
    pub reads : (q : Key) → find r.0 q ≡ (if key_eq k q then none else find t q)
    pub counts : used r.0.buckets + bit r.1 ≡ used t.buckets
    pub hashpower : r.0.hashpower ≡ t.hashpower
    pub limits : SameLimits t r.0

  module _ (laws : Laws) (t : Table) (valid : IsValid t) (k : Key) where
    abbrev erased_at : ℕ → ℕ → Table
    erased_at i s = record t {
      buckets = put t.buckets i s (vacated (cell t.buckets i s));
      elems = nonatomic_dec t.elems (lock_ind i);
    }

    module _ (i s : ℕ) (l : Key) (v : Mapped) (stored : (cell t.buckets i s).storage ≡ some (l, v))
        (same : key_eq l k ≡ true) where
      hi : i < length t.buckets
      hi = (in_range t.buckets i s stored).0

      hs : s < length (bucket t.buckets i)
      hs = (in_range t.buckets i s stored).1

      erased_at-IsPlaced : IsPlaced t.hashpower (put t.buckets i s (vacated (cell t.buckets i s)))
      erased_at-IsPlaced =
          put-PlacedBy t.buckets i s _ hi hs laws valid.placed
            (record { live = refl; tagged = λ a b h. cc; alone = λ a b h. cc })

      counts_at : used (put t.buckets i s (vacated (cell t.buckets i s))) + 1 ≡ used t.buckets
      counts_at = ground (
        arith,
        used-put t.buckets i s (vacated (cell t.buckets i s)) hi hs,
        valid.placed.live i s,
        stored,
      )

      erased_at-IsValid : IsValid (erased_at i s)
      erased_at-IsValid = record {
        placed = erased_at-IsPlaced;
        locks = length-dec t.elems (lock_ind i) ∙ valid.locks;
        counted =
            counted-dec t.elems i (used t.buckets) _ valid.locks valid.counted (sym counts_at);
      }

      erased_at-reads : (q : Key) → find (erased_at i s) q ≡ (if key_eq k q then none else find t q)
      erased_at-reads q = elim (Bool-cases (key_eq k q)) [
        | inl e ↦ rw e (
            find_unique laws (erased_at i s) erased_at-IsPlaced q none (
              put-Reads-none t.buckets i s _ hi hs laws valid.placed q l v stored
                (laws.eq_trans l k q same e) refl))
        | inr e ↦ rw e (
            find_unique laws (erased_at i s) erased_at-IsPlaced q (find t q) (
              put-Reads_other t.buckets i s _ hi hs q (find t q)
                (λ a b h. ground (arith, stored, laws.eq_trans k l q, laws.eq_symm k l))
                (λ a b h. cc) (find-Reads laws t valid.placed q)))
      ]

      erased_at-Erased : is_some (find t k) ≡ true → Erased t k (erased_at i s, true)
      erased_at-Erased there = record {
        valid = erased_at-IsValid;
        answer = sym there;
        reads = erased_at-reads;
        counts = counts_at;
        hashpower = refl;
        limits = (refl, refl);
      }

    absent-reads : find t k ≡ none → (q : Key) → find t q ≡ (if key_eq k q then none else find t q)
    absent-reads e q = ground (arith, find_congr laws t valid.placed k q)

    erase-first :
        (s : ℕ)
        → locate (tag k) k (bucket t.buckets (home t.hashpower k)) ≡ some s
        → erase t k ≡ (erased_at (home t.hashpower k) s, true)
    unfolding erase hashed_key cuckoo_delete delete_at try_del_from_bucket erase_kv
    erase-first s e = ground arith

    erase-second :
        (s : ℕ)
        → locate (tag k) k (bucket t.buckets (home t.hashpower k)) ≡ none
        → locate (tag k) k (bucket t.buckets (other_home t.hashpower k)) ≡ some s
        → erase t k ≡ (erased_at (other_home t.hashpower k) s, true)
    unfolding erase hashed_key cuckoo_delete delete_at try_del_from_bucket erase_kv
    erase-second s e1 e = ground arith

    erase-nowhere :
        locate (tag k) k (bucket t.buckets (home t.hashpower k)) ≡ none
        → locate (tag k) k (bucket t.buckets (other_home t.hashpower k)) ≡ none
        → erase t k ≡ (t, false)
    unfolding erase hashed_key cuckoo_delete delete_at try_del_from_bucket
    erase-nowhere e1 e2 = ground arith

    erase_by_case : Located t.hashpower t.buckets k → Erased t k (erase t k)
    erase_by_case (first s v e m) = subst (Erased t k) (sym (erase-first s e)) (
        erased_at-Erased _ s m.held v m.stored m.same
          (ap is_some (find-value_of t k (first s v e m))))
    erase_by_case (second s v e1 e m) = subst (Erased t k) (sym (erase-second s e1 e)) (
        erased_at-Erased _ s m.held v m.stored m.same
          (ap is_some (find-value_of t k (second s v e1 e m))))
    erase_by_case (nowhere e1 e2) =
        let none_found : find t k ≡ none = find-value_of t k (nowhere e1 e2) in
        subst (Erased t k) (sym (erase-nowhere e1 e2)) (record {
          valid = valid;
          answer = sym (ap is_some none_found);
          reads = absent-reads none_found;
          counts = omega arith;
          hashpower = refl;
          limits = (refl, refl);
        })

    -- On a valid table, for a lawful hash and equality, `erase k` gives a valid table in which
    -- keys equal to `k` read nothing and all others read as before; it returns whether `k` was
    -- there, and the number of pairs falls by one exactly then.
    pub erase-Erased : Erased t k (erase t k)
    erase-Erased = erase_by_case (search_homes t.hashpower t.buckets k)
