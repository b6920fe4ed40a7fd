-- ===== src/Table/Valid.antt =====
-- Which vectors of buckets a table may have, and the abstract map that they stand for.
use libcuckoo_cxx.Base.{
  ℕ, ◌<◌, ◌≡◌, refl, ap, subst, ◌⊎◌, List, [], true, false, ◌&&◌, Option, none, some, ◌==◌,
  if◌then◌else◌, arith, length, set, length-set, get_or-set_self, get_or-set_ne, get_or-set,
  set_past, dec_lt, ℕ_discrete, get_or_default,
}
use libcuckoo_cxx.Bucket.Laws.{is_some}
use libcuckoo_cxx.Bucket.{Slot, Bucket, slot, kvpair, fresh_slot}
use libcuckoo_cxx.Hash.{partial_key, hashsize}
use libcuckoo_cxx.Params.{Params, Laws}
use libcuckoo_cxx.Table.{first_bucket, second_bucket, bucket}

module _ ⦃P : Params⦄ where
  open P use {Key, Mapped, key_eq, slot_per_bucket}

  abbrev pub cell : List Bucket → ℕ → ℕ → Slot
  cell bs i s = slot (bucket bs i) s

  abbrev pub home : ℕ → Key → ℕ
  home hp k = first_bucket hp (record { hash = P.hash k; partial = partial_key (P.hash k) })

  abbrev pub other_home : ℕ → Key → ℕ
  other_home hp k = second_bucket hp (record { hash = P.hash k; partial = partial_key (P.hash k) })

  abbrev pub IsHome : ℕ → Key → ℕ → Type 0
  IsHome hp k i = (i ≡ home hp k) ⊎ (i ≡ other_home hp k)

  -- The same, from the hash alone.
  abbrev IsHash : ℕ → ℕ → ℕ → Type 0
  IsHash hp h i =
      (i ≡ first_bucket hp (record { hash = h; partial = partial_key h }))
      ⊎ (i ≡ second_bucket hp (record { hash = h; partial = partial_key h }))

  -- A vector of `n` buckets: its shape; a slot's bit is set exactly while a pair lives in its
  -- storage; a key stands, under its partial key, in a bucket where it may be; no two slots hold
  -- equal keys.
  pub record PlacedBy (hp n : ℕ) (At : Key → ℕ → Type 0) (bs : List Bucket) : Type 0 where
    pub small : hp < 64
    pub width : length bs ≡ n
    pub rows : (i : ℕ) → i < length bs → length (bucket bs i) ≡ slot_per_bucket
    pub live : (i s : ℕ) → (cell bs i s).occupied ≡ is_some (cell bs i s).storage
    pub homes :
        (i s : ℕ) (k : Key) (v : Mapped)
        → (cell bs i s).storage ≡ some (k, v)
        → ((cell bs i s).partial ≡ partial_key (P.hash k)) × At k i
    pub unique :
        (i s j u : ℕ) (k l : Key) (v w : Mapped)
        → (cell bs i s).storage ≡ some (k, v)
        → (cell bs j u).storage ≡ some (l, w)
        → key_eq k l ≡ true
        → (i ≡ j) × (s ≡ u)

  -- The buckets of a table: `2 ^ hp` of them, and each key in one of its two buckets.
  abbrev pub IsPlaced : ℕ → List Bucket → Type 0
  IsPlaced hp bs = PlacedBy hp (hashsize hp) (IsHome hp) bs

  -- A slot that holds a key equal to `q`.
  pub record Found (bs : List Bucket) (q : Key) (v : Mapped) : Type 0 where
    pub at : ℕ
    pub pos : ℕ
    pub held : Key
    pub stored : (cell bs at pos).storage ≡ some (held, v)
    pub same : key_eq held q ≡ true

  -- The abstract map reads `o` under the key `q`.
  abbrev pub Reads : List Bucket → Key → Option Mapped → Type 0
  Reads bs q (some v) = Found bs q v
  Reads bs q none =
      (i s : ℕ) (k : Key) (v : Mapped) → (cell bs i s).storage ≡ some (k, v) → key_eq k q ≡ false

  -- The map has one reading under each key.
  pub Reads-functional :
      (laws : Laws) {hp n : ℕ} {At : Key → ℕ → Type 0} {bs : List Bucket}
      (placed : PlacedBy hp n At bs) (q : Key) (o o' : Option Mapped)
      → Reads bs q o
      → Reads bs q o'
      → o ≡ o'
  Reads-functional laws placed q none none h h' = refl
  Reads-functional laws placed q none (some w) h f = cc (h f.at f.pos f.held w f.stored, f.same)
  Reads-functional laws placed q (some v) none f h = cc (h f.at f.pos f.held v f.stored, f.same)
  Reads-functional laws placed q (some v) (some w) f g = ground (
    arith,
    placed.unique f.at f.pos g.at g.pos f.held g.held v w f.stored g.stored,
    laws.eq_trans f.held q g.held,
    laws.eq_symm g.held q,
  )

  -- A write of one slot.
  abbrev pub put : List Bucket → ℕ → ℕ → Slot → List Bucket
  put bs i s x = set bs i (set (bucket bs i) s x)

  pub length-put : (bs : List Bucket) (i s : ℕ) (x : Slot) → length (put bs i s x) ≡ length bs
  length-put bs i s x = length-set bs i _

  pub length-bucket-put :
      (bs : List Bucket) (i s : ℕ) (x : Slot) (j : ℕ)
      → length (bucket (put bs i s x) j) ≡ length (bucket bs j)
  length-bucket-put bs i s x j = elim (dec_lt i (length bs)) [
    | yes h ↦ elim (ℕ_discrete i j) [
      | yes e ↦ rw (← e, get_or-set_self bs i (set (bucket bs i) s x) [] h) (length-set _ s x)
      | no n ↦ rw (get_or-set_ne bs i j (set (bucket bs i) s x) [] n)
    ]
    | no h ↦ ap (λ (c : List Bucket). length (bucket c j)) (set_past bs i _ (omega arith))
  ]

  pub cell-put :
      (bs : List Bucket) (i s : ℕ) (x : Slot) (j u : ℕ)
      → i < length bs
      → s < length (bucket bs i)
      → cell (put bs i s x) j u ≡ (if (i == j) && (s == u) then x else cell bs j u)
  cell-put bs i s x j u hi hs = ground (
    arith,
    get_or-set bs i (set (bucket bs i) s x) j [] hi,
    get_or-set (bucket bs i) s x u fresh_slot hs,
  )

  slot_in_range : (b : Bucket) (s : ℕ) {kv : Key × Mapped} → kvpair b s ≡ some kv → s < length b
  slot_in_range b s h = elim (dec_lt s (length b)) [
    | yes lt ↦ lt
    | no ge ↦ cc (h, get_or_default b s fresh_slot (omega arith))
  ]

  bucket_in_range :
      (bs : List Bucket) (i s : ℕ) {kv : Key × Mapped}
      → (cell bs i s).storage ≡ some kv
      → i < length bs
  bucket_in_range bs i s h = elim (dec_lt i (length bs)) [
    | yes lt ↦ lt
    | no ge ↦ absurd (
        omega (
          arith,
          slot_in_range (bucket bs i) s h,
          ap length (get_or_default bs i [] (omega arith)),
        ))
  ]

  -- A slot that holds something is in range.
  pub in_range :
      (bs : List Bucket) (i s : ℕ) {kv : Key × Mapped}
      → (cell bs i s).storage ≡ some kv
      → (i < length bs) × (s < length (bucket bs i))
  in_range bs i s h = (bucket_in_range bs i s h, slot_in_range (bucket bs i) s h)

  pub IsHome-congr :
      (laws : Laws) (hp : ℕ) (k l : Key) (i : ℕ) → key_eq k l ≡ true → IsHome hp k i → IsHome hp l i
  IsHome-congr laws hp k l i same h = subst (λ (n : ℕ). IsHash hp n i) (laws.hash-eq k l same) h
