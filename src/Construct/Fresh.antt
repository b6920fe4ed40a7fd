-- ===== src/Construct/Fresh.antt =====
-- The constructor of libcuckoo/cuckoohash_map.hh: which arguments it takes, and the table it makes.
use libcuckoo_cxx.Base.{
  ℕ, zero, suc, ◌+◌, ◌*◌, ◌^◌, ◌≤◌, ◌<◌, ◌≡◌, refl, ap, ◌∙◌, [], true, false, not, ◌&&◌, Option,
  none, some, arith, length, length-replicate, replicate, get_or, get_or-replicate, ◌⊎◌, inl, inr,
  Bool-cases, ltb→lt, ltb-false, ==→eq, ==_refl, get_or_default, ltb, ◌==◌, dec_lt,
}
use libcuckoo_cxx.Bucket.{Bucket, fresh_slot, slot}
use libcuckoo_cxx.Config.{num_locks, no_maximum_hashpower}
use libcuckoo_cxx.Construct.Reserve.{reserve_calc-Reserves}
use libcuckoo_cxx.Construct.{
  set_minimum_load_factor, set_maximum_hashpower, blank, allocate_buckets, new,
}
use libcuckoo_cxx.Hash.{hashsize}
use libcuckoo_cxx.Params.{Params, Laws}
use libcuckoo_cxx.Table.Counts.{IsValid, sum, used, used_slots, size-used}
use libcuckoo_cxx.Table.Lookup.{find_unique}
use libcuckoo_cxx.Table.Valid.{cell, IsPlaced, Reads}
use libcuckoo_cxx.Table.{Table, bucket, invalid_argument, Result, returned, thrown, find, size}

get_or-within {ℓ} : {A : Type ℓ} (n : ℕ) (x d : A) (i : ℕ) → i < n → get_or (replicate n x) i d ≡ x
get_or-within zero x d i h = absurd (omega arith)
get_or-within (suc n) x d zero h = refl
get_or-within (suc n) x d (suc i) h = get_or-within n x d i (omega arith)

sum-replicate : (n : ℕ) → sum (replicate n 0) ≡ 0
unfolding sum
sum-replicate zero = refl
sum-replicate (suc n) = omega (arith, sum-replicate n)

module _ ⦃P : Params⦄ where
  open P use {Key, Mapped, slot_per_bucket, Double}

  abbrev pub empty_bucket : Bucket
  empty_bucket = replicate slot_per_bucket fresh_slot

  pub bucket-fresh : (n i : ℕ) → i < n → bucket (replicate n empty_bucket) i ≡ empty_bucket
  bucket-fresh n i h = get_or-within n empty_bucket [] i h

  pub cell-fresh : (n i s : ℕ) → cell (replicate n empty_bucket) i s ≡ fresh_slot
  cell-fresh n i s = elim (dec_lt i n) [
    | yes h ↦
        ap (λ (b : Bucket). slot b s) (bucket-fresh n i h)
        ∙ get_or-replicate slot_per_bucket s fresh_slot
    | no h ↦
        ap (λ (b : Bucket). slot b s)
          (get_or_default (replicate n empty_bucket) i []
            (omega (arith, length-replicate n empty_bucket)))
  ]

  used_slots-fresh : (n : ℕ) → used_slots (replicate n fresh_slot) ≡ 0
  unfolding used_slots
  used_slots-fresh zero = refl
  used_slots-fresh (suc n) = omega (arith, used_slots-fresh n)

  pub used-fresh : (n : ℕ) → used (replicate n empty_bucket) ≡ 0
  unfolding used
  used-fresh zero = refl
  used-fresh (suc n) = omega (arith, used_slots-fresh slot_per_bucket, used-fresh n)

  stored-fresh :
      (n i s : ℕ) {kv : Key × Mapped} → (cell (replicate n empty_bucket) i s).storage ≡ some kv → ⊥
  stored-fresh n i s h = cc (h, cell-fresh n i s)

  fresh-IsPlaced : (hp : ℕ) → hp < 64 → IsPlaced hp (replicate (hashsize hp) empty_bucket)
  fresh-IsPlaced hp small = record {
    small = small;
    width = length-replicate (hashsize hp) empty_bucket;
    rows = λ i h.
        ap length (
          bucket-fresh (hashsize hp) i
            (omega (arith, h, length-replicate (hashsize hp) empty_bucket)))
        ∙ length-replicate slot_per_bucket fresh_slot;
    live = λ i s. rw (cell-fresh (hashsize hp) i s) refl;
    homes = λ i s k v h. absurd (stored-fresh (hashsize hp) i s h);
    unique = λ i s j u k l v w h g same. absurd (stored-fresh (hashsize hp) i s h);
  }

  pub allocate_buckets-IsValid : (t : Table) (hp : ℕ) → hp < 64 → IsValid (allocate_buckets t hp)
  unfolding allocate_buckets
  allocate_buckets-IsValid t hp small = record {
    placed = fresh-IsPlaced hp small;
    locks = length-replicate {A = ℕ} num_locks 0;
    counted = omega (arith, sum-replicate num_locks, used-fresh (hashsize hp));
  }

  -- A new table: empty, in order, and large enough for `n` pairs.
  pub record Made (n : ℕ) (mlf : Double) (mhp : ℕ) (o : Option (Result Table)) : Type 0 where
    pub table : Table
    pub result : o ≡ some (returned table)
    pub factor : (P.lt mlf (P.double 0) ≡ false) × (P.lt (P.double 1) mlf ≡ false)
    pub valid : IsValid table
    pub reads : (q : Key) → find table q ≡ none
    pub size : size table ≡ 0
    pub nothing : used table.buckets ≡ 0
    pub room : n ≤ hashsize table.hashpower * slot_per_bucket
    pub limit : (mhp ≡ no_maximum_hashpower) ⊎ (table.hashpower ≤ mhp)
    pub kept : (table.minimum_load_factor ≡ mlf) × (table.maximum_hashpower ≡ mhp)

  -- Why the constructor may refuse: the load factor is out of range, or `n` pairs do not fit into
  -- the largest table allowed.
  abbrev pub IsRefused : ℕ → Double → ℕ → Type 0
  IsRefused n mlf mhp =
      (P.lt mlf (P.double 0) ≡ true)
      ⊎ ((P.lt (P.double 1) mlf ≡ true) ⊎ ((0 < mhp) × (hashsize mhp * slot_per_bucket < n)))

  over_limit :
      (mhp hp : ℕ)
      → (not (mhp == no_maximum_hashpower) && ltb mhp hp) ≡ true
      → (0 < mhp) × (mhp < hp)
  over_limit mhp hp h = ground (arith, ==_refl mhp, ltb→lt mhp hp)

  within_limit :
      (mhp hp : ℕ)
      → (not (mhp == no_maximum_hashpower) && ltb mhp hp) ≡ false
      → (mhp ≡ no_maximum_hashpower) ⊎ (hp ≤ mhp)
  within_limit mhp hp h = ground (arith, ==→eq mhp 0, ltb-false mhp hp)

  pub allocate_buckets-used : (t : Table) (hp : ℕ) → used (allocate_buckets t hp).buckets ≡ 0
  unfolding allocate_buckets
  allocate_buckets-used t hp = used-fresh (hashsize hp)

  allocate_buckets-Reads :
      (t : Table) (hp : ℕ) (q : Key) → Reads (allocate_buckets t hp).buckets q none
  unfolding allocate_buckets
  allocate_buckets-Reads t hp q = λ i s k v h. absurd (stored-fresh (hashsize hp) i s h)

  pub allocate_buckets-find :
      (laws : Laws) (t : Table) (hp : ℕ) (q : Key) → hp < 64 → find (allocate_buckets t hp) q ≡ none
  allocate_buckets-find laws t hp q small =
      find_unique laws _ (allocate_buckets-IsValid t hp small).placed q none
        (allocate_buckets-Reads t hp q)

  module _ (laws : Laws) (n : ℕ) (mlf : Double) (mhp : ℕ) (lim : n + slot_per_bucket ≤ 2 ^ 63) where
    -- For `n + slot_per_bucket` up to 2^63 the constructor returns: either it throws
    -- `invalid_argument`, and then the load factor is below 0 or above 1 or the `n` pairs do not
    -- fit into the largest table allowed; or it makes a valid table that reads nothing, has size
    -- 0, room for `n` pairs, a hashpower within the limit, and the settings given.
    pub new-Made :
        ((new n mlf mhp ≡ some (thrown invalid_argument)) × IsRefused n mlf mhp)
        ⊎ Made n mlf mhp (new n mlf mhp)
    unfolding new set_minimum_load_factor
    new-Made = elim (Bool-cases (P.lt mlf (P.double 0))) [
      | inl low ↦ inl (rw (new, set_minimum_load_factor, low) refl, inl low)
      | inr not_low ↦ elim (Bool-cases (P.lt (P.double 1) mlf)) [
        | inl high ↦ inl (rw (new, set_minimum_load_factor, not_low, high) refl, inr (inl high))
        | inr not_high ↦
            let r = reserve_calc-Reserves n laws.slots_pos lim in
            let t0 : Table =
              set_maximum_hashpower (record (blank mlf) { minimum_load_factor = mlf }) mhp in
            let v : IsValid (allocate_buckets t0 r.hp) = allocate_buckets-IsValid t0 r.hp r.small in
            elim (Bool-cases (not (mhp == no_maximum_hashpower) && ltb mhp r.hp)) [
              | inl over ↦ inl (
                rw (new, set_minimum_load_factor, not_low, not_high, r.result, over) refl,
                (let (some_limit, less) = over_limit mhp r.hp over in
                    inr (inr (some_limit, r.least mhp some_limit less))),
              )
              | inr fits ↦ inr (record {
                table = allocate_buckets t0 r.hp;
                result = rw (new, set_minimum_load_factor, not_low, not_high, r.result, fits) refl;
                factor = (not_low, not_high);
                valid = v;
                reads = λ q. allocate_buckets-find laws t0 r.hp q r.small;
                size = omega (arith, size-used _ v, allocate_buckets-used t0 r.hp);
                nothing = allocate_buckets-used t0 r.hp;
                room = unfold allocate_buckets in r.holds;
                limit = unfold allocate_buckets in within_limit mhp r.hp fits;
                kept = unfold allocate_buckets set_maximum_hashpower in (refl, refl);
              })
            ]
      ]
    ]
