-- ===== src/Bucket/Laws.antt =====
-- What the loops over one bucket find: the first slot that is a hit, if there is one, and the
-- first empty slot for an insertion.
use libcuckoo_cxx.Base.{
  ℕ, zero, suc, ◌<◌, ◌≡◌, refl, ◌≢◌, inl, inr, [], ◌∷◌, Bool, true, false, Option, none, some,
  arith, length, Option-cases,
}
use libcuckoo_cxx.Bucket.Search.{hit, locate, try_read_from_bucket}
use libcuckoo_cxx.Bucket.{Slot, Bucket, slot, kvpair}
use libcuckoo_cxx.Hash.{partial_key}
use libcuckoo_cxx.Params.{Params, Laws}

abbrev pub is_some {ℓ} : {A : Type ℓ} → Option A → Bool
is_some none = false
is_some (some _) = true

module _ ⦃P : Params⦄ where
  open P use {Key, Mapped, key_eq, is_simple}

  -- The pair in a slot, seen by a caller that looks for `key`.
  pub record Matches (key : Key) (s : Slot) : Type 0 where
    pub held : Key
    pub value : Mapped
    pub stored : s.storage ≡ some (held, value)
    pub same : key_eq held key ≡ true

  hit-stored : (p : ℕ) (key : Key) (s : Slot) → hit p key s ≡ true → s.storage ≢ none
  unfolding hit
  hit-stored p key s h e = ground arith

  pub hit-Matches : (p : ℕ) (key : Key) (s : Slot) → hit p key s ≡ true → Matches key s
  unfolding hit
  hit-Matches p key s h = elim (Option-cases s.storage) [
    | inl e ↦ absurd (hit-stored p key s h e)
    | inr ((k, v), e) ↦ record { held = k; value = v; stored = e; same = ground arith }
  ]

  -- A slot whose partial key is the one of the key that it holds is not passed over.
  pub Matches-hit :
      (laws : Laws) (key : Key) (s : Slot) (m : Matches key s)
      → s.occupied ≡ true
      → s.partial ≡ partial_key (P.hash m.held)
      → hit (partial_key (P.hash key)) key s ≡ true
  unfolding hit
  Matches-hit laws key s m occ part = ground (arith, laws.hash-eq m.held key m.same)

  pub locate-some :
      (p : ℕ) (key : Key) (b : Bucket) (i : ℕ)
      → locate p key b ≡ some i
      → (i < length b) × (hit p key (slot b i) ≡ true)
  unfolding locate
  locate-some p key [] i h = cc
  locate-some p key (s ∷ b) zero h = ground arith
  locate-some p key (s ∷ b) (suc i) h = ground (arith, locate-some p key b i)

  pub locate-none :
      (p : ℕ) (key : Key) (b : Bucket) (i : ℕ)
      → locate p key b ≡ none
      → hit p key (slot b i) ≡ false
  unfolding locate
  locate-none p key [] i h = unfold hit in refl
  locate-none p key (s ∷ b) zero h = ground arith
  locate-none p key (s ∷ b) (suc i) h = ground (arith, locate-none p key b i)

  -- A slot of the bucket `b` that holds a key equal to `key`.
  pub record InBucket (b : Bucket) (key : Key) (i : ℕ) (v : Mapped) : Type 0 where
    pub inside : i < length b
    pub held : Key
    pub stored : kvpair b i ≡ some (held, v)
    pub same : key_eq held key ≡ true

  pub locate-InBucket :
      (p : ℕ) (key : Key) (b : Bucket) (i : ℕ)
      → locate p key b ≡ some i
      → (v : Mapped) × InBucket b key i v
  locate-InBucket p key b i e =
      let (lt, h) = locate-some p key b i e in
      let m = hit-Matches p key (slot b i) h in
      (m.value, record { inside = lt; held = m.held; stored = m.stored; same = m.same })

  -- What each loop returns, from where the common loop stops.
  pub try_read-some :
      (p : ℕ) (key : Key) (b : Bucket) (i : ℕ) (v : Mapped)
      → locate p key b ≡ some i
      → InBucket b key i v
      → try_read_from_bucket p key b ≡ some v
  unfolding try_read_from_bucket
  try_read-some p key b i v e m = ground (arith, m.stored)

  pub try_read-none :
      (p : ℕ) (key : Key) (b : Bucket) → locate p key b ≡ none → try_read_from_bucket p key b ≡ none
  unfolding try_read_from_bucket
  try_read-none p key b e = rw (e, try_read_from_bucket)
