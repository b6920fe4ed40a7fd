-- ===== src/Allocator/Room.antt =====
-- The arithmetic of `allocate` and `deallocate`: the values are aligned and, with the pointer in
-- front of them, within the block.
use libcuckoo_cxx.Allocator.{
  Block, Platform, PlatformLaws, Memory, IsAligned, store, padded_size, allocate, deallocate,
}
use libcuckoo_cxx.Base.{
  true, ◌⊎◌, Bool-cases, leb, ==→eq, ◌==◌, ℕ, ◌+◌, ◌-◌, ◌*◌, ◌/◌, ◌%◌, ◌^◌, ◌≤◌, ◌<◌, ◌≡◌, refl,
  sym, ap₂, ◌∙◌, subst, inl, inr, ◌∷◌, some, Option-cases, some_eq, ==_refl, arith, ℕ_discrete,
}
use libcuckoo_cxx.Config.{u64}
use native.Mathlib.Nat.{mul-mod_right, div-add-mod, mod-lt}

-- The first aligned address from `p` on is less than `a` bytes away.
pub next-IsAligned : (a p : ℕ) → 0 < a → (q : ℕ) × IsAligned a q × (p ≤ q) × (q < p + a)
next-IsAligned a p pos = elim (ℕ_discrete (p % a) 0) [
  | yes zero_mod ↦ (p, zero_mod, omega arith, omega (arith, pos))
  | no other ↦
      let parts : a * (p / a) + p % a ≡ p = div-add-mod p a in
      let less : p % a < a = mod-lt p pos in
      (
        a * (p / a + 1),
        mul-mod_right a (p / a + 1),
        omega (arith, parts, less, other),
        omega (arith, parts, less, other),
      )
]

leb_of : (a b : ℕ) → a ≤ b → leb a b ≡ true
leb_of a b h = elim (Bool-cases (leb a b)) [ inl e ↦ e | inr e ↦ ground (arith, e, h) ]

module _ ⦃M : Platform⦄ where
  open M use {value_size, alignment, pointer_size, align, obtain}

  -- `n` values and what is put around them are less than the address space.
  abbrev pub IsSmall : ℕ → Type 0
  IsSmall n = pointer_size + (n * value_size + alignment) ≤ 2 ^ 64

  -- The values at `p` and the pointer before them are within the block, on an aligned address.
  pub record Inside (p n : ℕ) (b : Block) : Type 0 where
    pub aligned : IsAligned alignment p
    pub header : b.base + pointer_size ≤ p
    pub values : p + n * value_size ≤ b.base + b.size

  padded_size_lem :
      (n : ℕ)
      → 0 < alignment
      → 0 < pointer_size
      → IsSmall n
      → padded_size n ≡ n * value_size + alignment - 1
  unfolding padded_size
  padded_size_lem n pos here small = omega (arith, pos, here, small)

  pub store_here :
      (address pointer : ℕ) (pointers : ℕ → ℕ) → store address pointer pointers address ≡ pointer
  unfolding store
  store_here address pointer pointers = rw (==_refl address) refl

  -- No byte of a pointer at `x` is one of a pointer at `address`.
  abbrev pub Beside : ℕ → ℕ → Type 0
  Beside address x = (x + pointer_size ≤ address) ⊎ (address + pointer_size ≤ x)

  pub store_other :
      (pos : 0 < pointer_size) (address pointer : ℕ) (pointers : ℕ → ℕ) (x : ℕ)
      → Beside address x
      → store address pointer pointers x ≡ pointers x
  unfolding store
  store_other pos address pointer pointers x (inl before) = elim (Bool-cases (x == address)) [
    | inl e ↦ absurd (omega (arith, pos, before, ==→eq x address e))
    | inr e ↦ rw (store, e, leb_of (x + pointer_size) address before) refl
  ]
  store_other pos address pointer pointers x (inr behind) = elim (Bool-cases (x == address)) [
    | inl e ↦ absurd (omega (arith, pos, behind, ==→eq x address e))
    | inr e ↦ elim (Bool-cases (leb (x + pointer_size) address)) [
      | inl f ↦ rw (store, e, f) refl
      | inr f ↦ rw (store, e, f, leb_of (address + pointer_size) x behind) refl
    ]
  ]

  pub record Allocated (m : Memory) (n : ℕ) (m' : Memory) (p : ℕ) : Type 0 where
    pub block : Block
    pub obtained : obtain m.blocks block.size ≡ some block.base
    pub more : m'.blocks ≡ block ∷ m.blocks
    pub inside : Inside p n block
    pub returned : deallocate m'.pointers p n ≡ block
    pub others : (x : ℕ) → Beside (p - pointer_size) x → m'.pointers x ≡ m.pointers x

  abbrev block_of : ℕ → ℕ → Block
  block_of base size = record { base = base; size = size }

  module _ (laws : PlatformLaws) (n : ℕ) (m : Memory) (small : IsSmall n) where
    abbrev total : ℕ
    total = u64 (pointer_size + padded_size n)

    abbrev address : ℕ → ℕ
    address base = align alignment (u64 (n * value_size)) (base + pointer_size) (padded_size n)

    abbrev made : ℕ → Memory
    made base = record {
      pointers = store (address base - pointer_size) base m.pointers;
      blocks = record { base = base; size = total } ∷ m.blocks;
    }

    total_lem : total ≡ pointer_size + (n * value_size + alignment - 1)
    total_lem = omega (
      arith,
      padded_size_lem n laws.alignment_pos laws.pointer_pos small,
      small,
      laws.alignment_pos,
    )

    address-Inside : (base : ℕ) → Inside (address base) n (record { base = base; size = total })
    address-Inside base =
        let (q, on, from, near) =
          next-IsAligned alignment (base + pointer_size) laws.alignment_pos in
        let padded = padded_size_lem n laws.alignment_pos laws.pointer_pos small in
        let whole : u64 (n * value_size) ≡ n * value_size =
          omega (arith, small, laws.pointer_pos) in
        let (aligned, here, first) =
          laws.align_first (u64 (n * value_size)) (base + pointer_size) (padded_size n) q on from
            (omega (arith, padded, whole, near)) in
        record { aligned = aligned; header = here; values = omega (arith, total_lem, first, near) }

    made-Allocated :
        (base : ℕ) → obtain m.blocks total ≡ some base → Allocated m n (made base) (address base)
    unfolding deallocate
    made-Allocated base e = record {
      block = record { base = base; size = total };
      obtained = e;
      more = refl;
      inside = address-Inside base;
      returned =
          ap₂ block_of (store_here _ base m.pointers)
            (omega (arith, total_lem, small, laws.alignment_pos));
      others = λ x other. store_other laws.pointer_pos _ base m.pointers x other;
    }

    -- Where the sizes do not wrap, what `allocate` returns is aligned and within the block, and
    -- `deallocate` finds the block.
    pub allocate-Allocated :
        (m' : Memory) (p : ℕ) → allocate n m ≡ some (m', p) → Allocated m n m' p
    unfolding allocate
    allocate-Allocated m' p e = elim (Option-cases (obtain m.blocks total)) [
      | inl missing ↦ absurd (cc (missing, e))
      | inr (base, found) ↦
          subst (λ (x : Memory × ℕ). Allocated m n x.0 x.1)
            (some_eq (sym (rw (allocate, found) refl) ∙ e)) (made-Allocated base found)
    ]
