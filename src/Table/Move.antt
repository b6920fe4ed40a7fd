-- ===== src/Table/Move.antt =====
-- `Bucket::move_to_bucket` of libcuckoo/cuckoohash_map.hh: the abstract map does not see it.
use libcuckoo_cxx.Base.{
  ==→eq, ℕ, ◌<◌, ◌≡◌, ◌≢◌, refl, sym, ap, subst, ◌∙◌, inl, inr, ◌⊎◌, List, [], true, false, Option,
  none, some, arith, length, Bool-cases, set, set_twice, set_comm, get_or-set_self, get_or-set_ne,
  ℕ_discrete,
}
use libcuckoo_cxx.Bucket.{Slot, Bucket, vacated, set_kv, erase_kv}
use libcuckoo_cxx.Hash.{hashsize}
use libcuckoo_cxx.Params.{Params, Laws}
use libcuckoo_cxx.Table.Counts.{used, used-put}
use libcuckoo_cxx.Table.Lookup.{tag}
use libcuckoo_cxx.Table.Valid.{
  cell, IsHome, PlacedBy, Reads, Reads-functional, put, in_range, length-put, length-bucket-put,
  cell-put,
}
use libcuckoo_cxx.Table.Write.{put-PlacedBy, put-Reads_other, put-Reads-some, put-Reads-none}
use libcuckoo_cxx.Table.{bucket, move_to_bucket}

module _ ⦃P : Params⦄ where
  open P use {Key, Mapped, key_eq}

  put_same :
      (bs : List Bucket) (i s u : ℕ) (x y : Slot)
      → i < length bs
      → put (put bs i s x) i u y ≡ set bs i (set (set (bucket bs i) s x) u y)
  put_same bs i s u x y hi =
      rw (get_or-set_self bs i (set (bucket bs i) s x) [] hi) (set_twice bs i _ _)

  put_comm_same :
      (bs : List Bucket) (i s u : ℕ) (x y : Slot)
      → i < length bs
      → s ≢ u
      → (j : ℕ) → i ≡ j
      → put (put bs i s x) j u y ≡ put (put bs j u y) i s x
  put_comm_same bs i s u x y hi n j e = rw (← e) (
      put_same bs i s u x y hi
      ∙ ap (set bs i) (set_comm (bucket bs i) s u x y n)
      ∙ sym (put_same bs i u s y x hi))

  -- Writes of two different slots commute.
  put_comm :
      (bs : List Bucket) (i s j u : ℕ) (x y : Slot)
      → i < length bs
      → (i ≢ j) ⊎ (s ≢ u)
      → put (put bs i s x) j u y ≡ put (put bs j u y) i s x
  put_comm bs i s j u x y hi apart = elim (ℕ_discrete i j) [
    | no n ↦
        rw
          (
            get_or-set_ne bs i j (set (bucket bs i) s x) [] n,
            get_or-set_ne bs j i (set (bucket bs j) u y) [] (λ e. n (sym e)),
          )
          (set_comm bs i j _ _ n)
    | yes e ↦ put_comm_same bs i s u x y hi (elim apart [ inl n ↦ absurd (n e) | inr n ↦ n ]) j e
  ]

  -- A move of a pair to an empty slot where it may be: the placement, every reading and the
  -- number of pairs stay.
  pub record MovesIn (hp n : ℕ) (At : Key → ℕ → Type 0) (bs bs' : List Bucket) : Type 0 where
    pub placed : PlacedBy hp n At bs'
    pub reads : (q : Key) (o : Option Mapped) → Reads bs q o → Reads bs' q o
    pub counts : used bs' ≡ used bs

  abbrev pub Moves : ℕ → List Bucket → List Bucket → Type 0
  Moves hp = MovesIn hp (hashsize hp) (IsHome hp)

  module _ (laws : Laws) {hp n : ℕ} {At : Key → ℕ → Type 0} (bs : List Bucket)
      (placed : PlacedBy hp n At bs) (i s j u : ℕ) (k : Key) (v : Mapped)
      (stored : (cell bs i s).storage ≡ some (k, v)) (empty : (cell bs j u).storage ≡ none)
      (hj : j < length bs) (hu : u < length (bucket bs j)) (home : At k j) where
    apart : (i ≢ j) ⊎ (s ≢ u)
    apart = elim (ℕ_discrete i j) [ no n ↦ inl n | yes e ↦ inr (λ f. cc) ]

    abbrev freed : List Bucket
    freed = put bs i s (vacated (cell bs i s))

    abbrev filled : Slot
    filled = record { partial = (cell bs i s).partial; occupied = true; storage = some (k, v) }

    abbrev moved : List Bucket
    moved = put freed j u filled

    hi : i < length bs
    hi = (in_range bs i s stored).0

    hs : s < length (bucket bs i)
    hs = (in_range bs i s stored).1

    move_to_bucket-moved : move_to_bucket bs i s j u ≡ moved
    unfolding move_to_bucket set_kv erase_kv
    move_to_bucket-moved = ground (
      arith,
      stored,
      cell-put bs j u filled i s hj hu,
      put_comm bs i s j u (vacated (cell bs i s)) filled hi apart,
    )

    freed-PlacedBy : PlacedBy hp n At freed
    freed-PlacedBy =
        put-PlacedBy bs i s _ hi hs laws placed
          (record { live = refl; tagged = λ a b h. cc; alone = λ a b h. cc })

    hj' : j < length freed
    hj' = rw (length-put bs i s (vacated (cell bs i s))) hj

    hu' : u < length (bucket freed j)
    hu' = rw (length-bucket-put bs i s (vacated (cell bs i s)) j) hu

    -- Once the source slot is free the key is nowhere.
    freed-none : (q : Key) → key_eq k q ≡ true → Reads freed q none
    freed-none q same = put-Reads-none bs i s _ hi hs laws placed q k v stored same refl

    filled-key : (a : Key) (b : Mapped) → filled.storage ≡ some (a, b) → k ≡ a
    filled-key a b e = ground arith

    filled-tagged :
        (a : Key) (b : Mapped) → filled.storage ≡ some (a, b) → (filled.partial ≡ tag a) × At a j
    filled-tagged a b e =
        subst (λ (c : Key). (filled.partial ≡ tag c) × At c j) (filled-key a b e)
          ((placed.homes i s k v stored).0, home)

    filled-alone :
        (a : Key) (b : Mapped)
        → filled.storage ≡ some (a, b)
        → (c d : ℕ) (l : Key) (w : Mapped) → (cell freed c d).storage ≡ some (l, w)
        → key_eq a l ≡ true
        → (j ≡ c) × (u ≡ d)
    filled-alone a b e c d l w g same = ground (
      arith,
      filled-key a b e,
      freed-none a (ground (arith, filled-key a b e, laws.eq_refl k)) c d l w g,
      laws.eq_symm a l,
    )

    freed-empty : (cell freed j u).storage ≡ none
    freed-empty = ground (arith, cell-put bs i s (vacated (cell bs i s)) j u hi hs)

    moved-PlacedBy : PlacedBy hp n At moved
    moved-PlacedBy =
        put-PlacedBy freed j u filled hj' hu' laws freed-PlacedBy
          (record { live = refl; tagged = filled-tagged; alone = filled-alone })

    moved-Reads : (q : Key) (o : Option Mapped) → Reads bs q o → Reads moved q o
    moved-Reads q o h = elim (Bool-cases (key_eq k q)) [
      | inl e ↦
          let here : Reads bs q (some v) = record {
            at = i;
            pos = s;
            held = k;
            stored = stored;
            same = e;
          } in
          subst (Reads moved q) (Reads-functional laws placed q (some v) o here h)
            (put-Reads-some freed j u filled hj' hu' q k v refl e)
      | inr e ↦
          put-Reads_other freed j u filled hj' hu' q o (λ a b g. cc (g, freed-empty))
            (λ a b g. ground (arith, filled-key a b g))
            (put-Reads_other bs i s _ hi hs q o (λ a b g. ground (arith, stored)) (λ a b g. cc) h)
    ]

    moved-counts : used moved ≡ used bs
    moved-counts = ground (
      arith,
      used-put bs i s (vacated (cell bs i s)) hi hs,
      used-put freed j u filled hj' hu',
      placed.live i s,
      stored,
      freed-PlacedBy.live j u,
      freed-empty,
    )

    -- On well-placed buckets, `move_to_bucket` of a pair to an empty slot of one of the two
    -- buckets of its key keeps the placement, every reading and the number of pairs.
    pub move_to_bucket-Moves : MovesIn hp n At bs (move_to_bucket bs i s j u)
    move_to_bucket-Moves =
        rw move_to_bucket-moved
          (record { placed = moved-PlacedBy; reads = moved-Reads; counts = moved-counts })

    pub move_to_bucket-source : (cell (move_to_bucket bs i s j u) i s).occupied ≡ false
    move_to_bucket-source = rw move_to_bucket-moved (
        ground (
          arith,
          cell-put freed j u filled i s hj' hu',
          cell-put bs i s (vacated (cell bs i s)) i s hi hs,
        ))

    pub move_to_bucket_other :
        (c d : ℕ)
        → (i ≢ c) ⊎ (s ≢ d)
        → (j ≢ c) ⊎ (u ≢ d)
        → cell (move_to_bucket bs i s j u) c d ≡ cell bs c d
    move_to_bucket_other c d not_source not_target = rw move_to_bucket-moved (
        ground (
          arith,
          cell-put freed j u filled c d hj' hu',
          cell-put bs i s (vacated (cell bs i s)) c d hi hs,
          ==→eq i c,
          ==→eq s d,
          ==→eq j c,
          ==→eq u d,
        ))
