-- ===== src/Bucket/Free.antt =====
-- `try_find_insert_bucket` of libcuckoo/cuckoohash_map.hh: a duplicate or the first empty slot.
use libcuckoo_cxx.Base.{
  ℕ, zero, suc, ◌+◌, ◌<◌, ◌≡◌, refl, subst, ◌⊎◌, inl, inr, [], ◌∷◌, true, false, Option, none, some,
  arith, length, if◌then◌else◌, Option-cases,
}
use libcuckoo_cxx.Bucket.Laws.{is_some}
use libcuckoo_cxx.Bucket.Search.{locate, find_insert_loop, try_find_insert_bucket}
use libcuckoo_cxx.Bucket.{Slot, Bucket, occupied}
use libcuckoo_cxx.Params.{Params}

module _ ⦃P : Params⦄ where
  open P use {Key, Mapped}

  loop-some-locate :
      (p : ℕ) (k : Key) (b : Bucket) (i : ℕ) (found r : Option ℕ)
      → find_insert_loop p k b i found ≡ some r
      → locate p k b ≡ none
  unfolding find_insert_loop locate
  loop-some-locate p k [] i found r h = refl
  loop-some-locate p k (s ∷ b) i found r h = ground (
    arith,
    loop-some-locate p k b (i + 1)
        (elim found [ none ↦ (if s.occupied then none else some i) | some j ↦ some j ]) r,
  )

  loop-none-locate :
      (p : ℕ) (k : Key) (b : Bucket) (i : ℕ) (found : Option ℕ)
      → find_insert_loop p k b i found ≡ none
      → is_some (locate p k b) ≡ true
  unfolding find_insert_loop locate
  loop-none-locate p k [] i found h = cc
  loop-none-locate p k (s ∷ b) i found h = ground (
    arith,
    loop-none-locate p k b (i + 1)
        (elim found [ none ↦ (if s.occupied then none else some i) | some j ↦ some j ]),
  )

  -- The slot reported is the one already seen, or an empty one of this bucket.
  abbrev FreeAt : Bucket → ℕ → Option ℕ → ℕ → Type 0
  FreeAt b i found j =
      (found ≡ some j) ⊎ ((d : ℕ) × (j ≡ i + d) × (d < length b) × (occupied b d ≡ false))

  FreeAt-step :
      (s : Slot) (b : Bucket) (i : ℕ) (found : Option ℕ) (j : ℕ)
      → FreeAt b
          (i + 1)
          (elim found [ none ↦ (if s.occupied then none else some i) | some j ↦ some j ])
          j
      → FreeAt (s ∷ b) i found j
  FreeAt-step s b i found j (inr (d, e, lt, f)) = inr (suc d, omega arith, omega arith, f)
  FreeAt-step s b i none j (inl e) = inr (zero, ground arith, omega arith, ground arith)
  FreeAt-step s b i (some x) j (inl e) = inl e

  loop-FreeAt :
      (p : ℕ) (k : Key) (b : Bucket) (i : ℕ) (found : Option ℕ) (j : ℕ)
      → find_insert_loop p k b i found ≡ some (some j)
      → FreeAt b i found j
  unfolding find_insert_loop
  loop-FreeAt p k [] i found j h = inl (ground arith)
  loop-FreeAt p k (s ∷ b) i found j h =
      FreeAt-step s b i found j (loop-FreeAt p k b (i + 1) _ j (ground arith))

  seen_none :
      (s : Slot) (i : ℕ) (found : Option ℕ)
      → ◌≡◌ {A = Option ℕ}
          (elim found [ none ↦ (if s.occupied then none else some i) | some j ↦ some j ])
          none
      → (found ≡ none) × (s.occupied ≡ true)
  seen_none s i none h = (refl, ground arith)
  seen_none s i (some j) h = cc

  all_occupied :
      (s : Slot) (b : Bucket)
      → s.occupied ≡ true
      → ((d : ℕ) → d < length b → occupied b d ≡ true)
      → (d : ℕ) → d < length (s ∷ b)
      → occupied (s ∷ b) d ≡ true
  all_occupied s b here rest zero lt = here
  all_occupied s b here rest (suc d) lt = rest d (omega arith)

  loop_full :
      (p : ℕ) (k : Key) (b : Bucket) (i : ℕ) (found : Option ℕ)
      → find_insert_loop p k b i found ≡ some none
      → (found ≡ none) × ((d : ℕ) → d < length b → occupied b d ≡ true)
  unfolding find_insert_loop
  loop_full p k [] i found h = (ground arith, λ d lt. absurd (omega arith))
  loop_full p k (s ∷ b) i found h =
      let (seen, rest) = loop_full p k b (i + 1) _ (ground arith) in
      let (fresh, here) = seen_none s i found seen in (fresh, all_occupied s b here rest)

  -- Where `try_find_insert_bucket` reports a duplicate, the loop that `find`, `erase` and `update`
  -- share stops at a slot of the bucket for the same key.
  pub try_find_insert-duplicate :
      (p : ℕ) (k : Key) (b : Bucket)
      → try_find_insert_bucket p k b ≡ none
      → (s : ℕ) × (locate p k b ≡ some s)
  unfolding try_find_insert_bucket
  try_find_insert-duplicate p k b h = elim (Option-cases (locate p k b)) [
    | inl e ↦ cc (loop-none-locate p k b 0 none h, e)
    | inr found ↦ found
  ]

  pub try_find_insert-absent :
      (p : ℕ) (k : Key) (b : Bucket) (r : Option ℕ)
      → try_find_insert_bucket p k b ≡ some r
      → locate p k b ≡ none
  unfolding try_find_insert_bucket
  try_find_insert-absent p k b r h = loop-some-locate p k b 0 none r h

  -- Where `try_find_insert_bucket` reports a slot, it is a slot of the bucket and empty.
  pub try_find_insert-free :
      (p : ℕ) (k : Key) (b : Bucket) (j : ℕ)
      → try_find_insert_bucket p k b ≡ some (some j)
      → (j < length b) × (occupied b j ≡ false)
  unfolding try_find_insert_bucket
  try_find_insert-free p k b j h = elim (loop-FreeAt p k b 0 none j h) [
    | inl e ↦ cc
    | inr (d, e, lt, f) ↦
        let same : d ≡ j = omega arith in
        subst (λ (x : ℕ). (x < length b) × (occupied b x ≡ false)) same (lt, f)
  ]

  -- Where `try_find_insert_bucket` finds neither a duplicate nor a slot, every slot of the bucket
  -- is occupied.
  pub try_find_insert_full :
      (p : ℕ) (k : Key) (b : Bucket)
      → try_find_insert_bucket p k b ≡ some none
      → (d : ℕ) → d < length b
      → occupied b d ≡ true
  unfolding try_find_insert_bucket
  try_find_insert_full p k b h = (loop_full p k b 0 none h).1
