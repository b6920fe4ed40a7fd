-- ===== src/Table/Insert.antt =====
-- `add_to_bucket` of libcuckoo/cuckoohash_map.hh, and the search for a place before it.
use libcuckoo_cxx.Base.{
  ◌≤◌, ℕ, ◌+◌, ◌<◌, ◌≡◌, refl, subst, ◌∙◌, inl, inr, true, false, none, some, if◌then◌else◌, arith,
  length, Bool-cases,
}
use libcuckoo_cxx.Bucket.{Slot, set_kv}
use libcuckoo_cxx.Hash.{lock_ind}
use libcuckoo_cxx.Params.{Params, Laws}
use libcuckoo_cxx.Table.Counts.{SameLimits, used, used-put, IsValid, length-inc, counted-inc}
use libcuckoo_cxx.Table.Lookup.{find-Reads, find_unique, tag}
use libcuckoo_cxx.Table.Valid.{cell, IsHome, IsPlaced, Reads, put}
use libcuckoo_cxx.Table.Write.{Fits, put-PlacedBy, put-Reads_other, put-Reads-some}
use libcuckoo_cxx.Table.{Table, bucket, add_to_bucket, nonatomic_inc, find}

module _ ⦃P : Params⦄ where
  open P use {Key, Mapped, key_eq}

  -- What an insertion that succeeds owes its caller: the table stays in order, the key reads the
  -- new value, every other key reads as before, and one pair more is counted.
  pub record Added (t : Table) (k : Key) (v : Mapped) (t' : Table) : Type 0 where
    pub valid : IsValid t'
    pub reads : (q : Key) → find t' q ≡ (if key_eq k q then some v else find t q)
    pub counts : used t'.buckets ≡ used t.buckets + 1
    pub limits : SameLimits t t'
    pub grown : P.is_nothrow_move ≡ true → t.hashpower ≤ t'.hashpower

  module _ (laws : Laws) (t : Table) (valid : IsValid t) (k : Key) (v : Mapped)
      (absent : find t k ≡ none) (i s : ℕ) (hi : i < length t.buckets)
      (hs : s < length (bucket t.buckets i)) (empty : (cell t.buckets i s).occupied ≡ false)
      (home : IsHome t.hashpower k i) where
    abbrev filled : Slot
    filled = record { partial = tag k; occupied = true; storage = some (k, v) }

    abbrev added : Table
    added = record t {
      buckets = put t.buckets i s filled;
      elems = nonatomic_inc t.elems (lock_ind i);
    }

    absent-Reads : Reads t.buckets k none
    absent-Reads = subst (Reads t.buckets k) absent (find-Reads laws t valid.placed k)

    filled-key : (a : Key) (b : Mapped) → filled.storage ≡ some (a, b) → k ≡ a
    filled-key a b e = ground arith

    empty-storage : (a : Key) (b : Mapped) → (cell t.buckets i s).storage ≡ some (a, b) → k ≡ a
    empty-storage a b e = ground (arith, valid.placed.live i s)

    filled-Fits : Fits t.buckets i s filled hi hs (IsHome t.hashpower)
    filled-Fits = record {
      live = refl;
      tagged = λ a b e.
          subst (λ (c : Key). (filled.partial ≡ tag c) × IsHome t.hashpower c i) (filled-key a b e)
            (refl, home);
      alone = λ a b e j u l w g same.
          ground (arith, filled-key a b e, absent-Reads j u l w g, laws.eq_symm a l);
    }

    added-IsPlaced : IsPlaced t.hashpower (put t.buckets i s filled)
    added-IsPlaced = put-PlacedBy t.buckets i s filled hi hs laws valid.placed filled-Fits

    added-counts : used (put t.buckets i s filled) ≡ used t.buckets + 1
    added-counts = ground (arith, used-put t.buckets i s filled hi hs)

    added-reads : (q : Key) → find added q ≡ (if key_eq k q then some v else find t q)
    added-reads q = elim (Bool-cases (key_eq k q)) [
      | inl e ↦ rw e (
          find_unique laws added added-IsPlaced q (some v)
            (put-Reads-some t.buckets i s filled hi hs q k v refl e))
      | inr e ↦ rw e (
          find_unique laws added added-IsPlaced q (find t q) (
            put-Reads_other t.buckets i s filled hi hs q (find t q)
              (λ a b h. ground (arith, empty-storage a b h))
              (λ a b h. ground (arith, filled-key a b h)) (find-Reads laws t valid.placed q)))
    ]

    -- On a valid table that does not hold `k`, `add_to_bucket` into an empty slot of one of the
    -- two buckets of `k` gives a valid table in which keys equal to `k` read the new value, all
    -- others read as before, and one pair more is counted.
    pub add_to_bucket-Added : Added t k v (add_to_bucket (tag k) t i s k v)
    unfolding add_to_bucket set_kv
    add_to_bucket-Added = record {
      valid = record {
        placed = added-IsPlaced;
        locks = length-inc t.elems (lock_ind i) ∙ valid.locks;
        counted = counted-inc t.elems i (used t.buckets) _ valid.locks valid.counted added-counts;
      };
      reads = added-reads;
      counts = added-counts;
      limits = (refl, refl);
      grown = λ _. omega arith;
    }
