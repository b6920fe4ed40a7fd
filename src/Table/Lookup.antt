-- ===== src/Table/Lookup.antt =====
-- The searches of libcuckoo/cuckoohash_map.hh look at two buckets and read the abstract map.
use libcuckoo_cxx.Base.{
  ℕ, ◌≡◌, sym, ap, subst, ◌∙◌, inl, inr, List, true, false, Option, none, some, arith, Bool-cases,
  Option-cases,
}
use libcuckoo_cxx.Bucket.Laws.{
  InBucket, is_some, locate-InBucket, locate-none, try_read-some, try_read-none, Matches-hit,
}
use libcuckoo_cxx.Bucket.Search.{locate, check_in_bucket}
use libcuckoo_cxx.Bucket.{Bucket}
use libcuckoo_cxx.Hash.{partial_key}
use libcuckoo_cxx.Params.{Params, Laws}
use libcuckoo_cxx.Table.Valid.{
  cell, home, other_home, IsHome-congr, IsPlaced, Found, Reads, Reads-functional,
}
use libcuckoo_cxx.Table.{Table, hashed_key, bucket, cuckoo_find, cuckoo_contains, find, contains}

module _ ⦃P : Params⦄ where
  open P use {Key, Mapped, key_eq}

  abbrev pub tag : Key → ℕ
  tag k = partial_key (P.hash k)

  -- A bucket in which the common loop finds nothing holds no pair under the key.
  pub locate-none-absent :
      (laws : Laws) {hp : ℕ} {bs : List Bucket} (placed : IsPlaced hp bs) (q : Key) (i : ℕ)
      → locate (tag q) q (bucket bs i) ≡ none
      → (s : ℕ) (k : Key) (v : Mapped) → (cell bs i s).storage ≡ some (k, v)
      → key_eq k q ≡ false
  locate-none-absent laws {bs = bs} placed q i e s k v stored = elim (Bool-cases (key_eq k q)) [
    | inr no_match ↦ no_match
    | inl same ↦ cc (
      locate-none (tag q) q (bucket bs i) s e,
      Matches-hit laws q (cell bs i s)
          (record { held = k; value = v; stored = stored; same = same })
          (ground (arith, placed.live i s)) (placed.homes i s k v stored).0,
    )
  ]

  -- If neither bucket of a key holds it, no bucket does.
  pub absent_of_homes :
      (laws : Laws) {hp : ℕ} {bs : List Bucket} (placed : IsPlaced hp bs) (q : Key)
      → locate (tag q) q (bucket bs (home hp q)) ≡ none
      → locate (tag q) q (bucket bs (other_home hp q)) ≡ none
      → Reads bs q none
  absent_of_homes laws {hp} {bs} placed q e1 e2 i s k v stored = elim (Bool-cases (key_eq k q)) [
    | inr no_match ↦ no_match
    | inl same ↦ elim (IsHome-congr laws hp k q i same (placed.homes i s k v stored).1) [
      | inl at_home ↦ locate-none-absent laws placed q i (rw at_home e1) s k v stored
      | inr at_other ↦ locate-none-absent laws placed q i (rw at_other e2) s k v stored
    ]
  ]

  InBucket-Found :
      (bs : List Bucket) (q : Key) (i s : ℕ) (v : Mapped)
      → InBucket (bucket bs i) q s v
      → Found bs q v
  InBucket-Found bs q i s v m = record {
    at = i;
    pos = s;
    held = m.held;
    stored = m.stored;
    same = m.same;
  }

  -- Where the two searches of an operation stop.
  pub data Located (hp : ℕ) (bs : List Bucket) (q : Key) : Type 0 where
    first :
        (s : ℕ) (v : Mapped)
        → locate (tag q) q (bucket bs (home hp q)) ≡ some s
        → InBucket (bucket bs (home hp q)) q s v
        → Located hp bs q
    second :
        (s : ℕ) (v : Mapped)
        → locate (tag q) q (bucket bs (home hp q)) ≡ none
        → locate (tag q) q (bucket bs (other_home hp q)) ≡ some s
        → InBucket (bucket bs (other_home hp q)) q s v
        → Located hp bs q
    nowhere :
        locate (tag q) q (bucket bs (home hp q)) ≡ none
        → locate (tag q) q (bucket bs (other_home hp q)) ≡ none
        → Located hp bs q

  pub search_homes : (hp : ℕ) (bs : List Bucket) (q : Key) → Located hp bs q
  search_homes hp bs q = elim (Option-cases (locate (tag q) q (bucket bs (home hp q)))) [
    | inr (s, e) ↦ let (v, m) = locate-InBucket (tag q) q _ s e in first s v e m
    | inl e1 ↦ elim (Option-cases (locate (tag q) q (bucket bs (other_home hp q)))) [
      | inr (s, e) ↦ let (v, m) = locate-InBucket (tag q) q _ s e in second s v e1 e m
      | inl e2 ↦ nowhere e1 e2
    ]
  ]

  -- What `find` returns in each case.
  abbrev pub value_of : {hp : ℕ} {bs : List Bucket} {q : Key} → Located hp bs q → Option Mapped
  value_of (first s v e m) = some v
  value_of (second s v e1 e m) = some v
  value_of (nowhere e1 e2) = none

  pub find-value_of :
      (t : Table) (q : Key) (l : Located t.hashpower t.buckets q) → find t q ≡ value_of l
  unfolding find hashed_key cuckoo_find
  find-value_of t q (first s v e m) = ground (arith, try_read-some (tag q) q _ s v e m)
  find-value_of t q (second s v e1 e m) =
      ground (arith, try_read-none (tag q) q _ e1, try_read-some (tag q) q _ s v e m)
  find-value_of t q (nowhere e1 e2) =
      ground (arith, try_read-none (tag q) q _ e1, try_read-none (tag q) q _ e2)

  pub contains-value_of :
      (t : Table) (q : Key) (l : Located t.hashpower t.buckets q)
      → contains t q ≡ is_some (value_of l)
  unfolding contains hashed_key cuckoo_contains check_in_bucket
  contains-value_of t q (first s v e m) = ground arith
  contains-value_of t q (second s v e1 e m) = ground arith
  contains-value_of t q (nowhere e1 e2) = ground arith

  pub value_of-Reads :
      (laws : Laws) {hp : ℕ} {bs : List Bucket} (placed : IsPlaced hp bs) (q : Key)
      (l : Located hp bs q)
      → Reads bs q (value_of l)
  value_of-Reads laws placed q (first s v e m) = InBucket-Found _ q _ s v m
  value_of-Reads laws placed q (second s v e1 e m) = InBucket-Found _ q _ s v m
  value_of-Reads laws placed q (nowhere e1 e2) = absent_of_homes laws placed q e1 e2

  -- On a well-placed table, `find q` returns a value exactly as the abstract map over all buckets
  -- reads: `some v` only where a slot of the table holds `v` under a key equal to `q`, and `none`
  -- only where no slot holds such a key.
  pub find-Reads :
      (laws : Laws) (t : Table) (placed : IsPlaced t.hashpower t.buckets) (q : Key)
      → Reads t.buckets q (find t q)
  find-Reads laws t placed q =
      let l = search_homes t.hashpower t.buckets q in
      subst (Reads t.buckets q) (sym (find-value_of t q l)) (value_of-Reads laws placed q l)

  -- `find` is the only reading.
  pub find_unique :
      (laws : Laws) (t : Table) (placed : IsPlaced t.hashpower t.buckets) (q : Key)
      (o : Option Mapped)
      → Reads t.buckets q o
      → find t q ≡ o
  find_unique laws t placed q o h =
      Reads-functional laws placed q _ o (find-Reads laws t placed q) h

  -- On any table, `contains q` is true exactly if `find q` finds a value.
  pub contains-find : (t : Table) (q : Key) → contains t q ≡ is_some (find t q)
  contains-find t q =
      let l = search_homes t.hashpower t.buckets q in
      contains-value_of t q l ∙ ap is_some (sym (find-value_of t q l))

  Reads-congr :
      (laws : Laws) (bs : List Bucket) (k q : Key) (o : Option Mapped)
      → key_eq k q ≡ true
      → Reads bs k o
      → Reads bs q o
  Reads-congr laws bs k q (some v) same f = record {
    at = f.at;
    pos = f.pos;
    held = f.held;
    stored = f.stored;
    same = laws.eq_trans f.held k q f.same same;
  }
  Reads-congr laws bs k q none same h =
      λ i s l v stored. ground (arith, h i s l v stored, laws.eq_trans l q k, laws.eq_symm q k)

  -- Equal keys read the same.
  pub find_congr :
      (laws : Laws) (t : Table) (placed : IsPlaced t.hashpower t.buckets) (k q : Key)
      → key_eq k q ≡ true
      → find t q ≡ find t k
  find_congr laws t placed k q same =
      find_unique laws t placed q (find t k)
        (Reads-congr laws t.buckets k q (find t k) same (find-Reads laws t placed k))
