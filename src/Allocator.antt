-- ===== src/Allocator.antt =====
-- `libcuckoo_aligned_allocator` in libcuckoo/cuckoohash_util.hh. A pointer is an address. What is
-- not code of the repository is a parameter: the sizes, `boost::alignment::align` and the
-- allocator of `char`.
pub mod Room
pub mod Steps
pub mod Blocks
pub mod Sound
use libcuckoo_cxx.Base.{
  ℕ, ◌+◌, ◌-◌, ◌*◌, ◌%◌, ◌^◌, ◌≤◌, ◌<◌, ◌≡◌, ◌⊎◌, List, [], ◌∷◌, Option, none, some, ◌==◌, leb,
  ◌||◌, if◌then◌else◌,
}
use libcuckoo_cxx.Config.{u64}

-- A piece of raw memory.
pub record Block : Type 0 where
  pub base : ℕ
  pub size : ℕ

abbrev pub Apart : Block → Block → Type 0
Apart a b = (a.base + a.size ≤ b.base) ⊎ (b.base + b.size ≤ a.base)

abbrev pub Every {ℓ} : {A : Type ℓ} → (A → Type 0) → List A → Type 0
Every P [] = Unit
Every P (a ∷ rest) = P a × Every P rest

pub record Platform : Type 0 where
  -- `sizeof(value_type)`, `Alignment` and `sizeof(char*)`
  pub value_size : ℕ
  pub alignment : ℕ
  pub pointer_size : ℕ
  -- the address that `boost::alignment::align(alignment, size, ptr, space)` leaves in `ptr`
  pub align : ℕ → ℕ → ℕ → ℕ → ℕ
  -- `allocate(size)` of the allocator of `char`, among the blocks in use; `none` where it throws
  pub obtain : List Block → ℕ → Option ℕ
  -- what is read as a pointer at an address some of whose bytes another store has changed: the
  -- pointers before, where and what was stored, and the address
  pub torn : (ℕ → ℕ) → ℕ → ℕ → ℕ → ℕ

abbrev pub IsAligned : ℕ → ℕ → Type 0
IsAligned a address = address % a ≡ 0

-- What the two are documented to do. `align` finds the first aligned address at which `size` bytes
-- fit into the space, if there is one; a new block is apart from the others and within the
-- address space.
pub record PlatformLaws ⦃M : Platform⦄ : Type 0 where
  pub alignment_pos : 0 < M.alignment
  pub pointer_pos : 0 < M.pointer_size
  pub align_first :
      (size ptr space q : ℕ)
      → IsAligned M.alignment q
      → ptr ≤ q
      → q + size ≤ ptr + space
      → IsAligned M.alignment (M.align M.alignment size ptr space)
        × (ptr ≤ M.align M.alignment size ptr space)
        × (M.align M.alignment size ptr space ≤ q)
  pub obtain_fits :
      (blocks : List Block) (size base : ℕ)
      → M.obtain blocks size ≡ some base
      → base + size ≤ 2 ^ 64
  pub obtain_apart :
      (blocks : List Block) (size base : ℕ)
      → M.obtain blocks size ≡ some base
      → Every (Apart (record { base = base; size = size })) blocks

-- The pointers that are stored at each address, and the blocks in use.
pub record Memory : Type 0 where
  pub pointers : ℕ → ℕ
  pub blocks : List Block

module _ ⦃M : Platform⦄ where
  open M use {value_size, alignment, pointer_size, align, obtain, torn}

  -- A pointer is stored in `pointer_size` bytes.
  unfoldable pub store : ℕ → ℕ → (ℕ → ℕ) → ℕ → ℕ
  store address pointer pointers x =
      if x == address
      then pointer
      else if leb (x + pointer_size) address || leb (address + pointer_size) x
      then pointers x
      else torn pointers address pointer x

  -- `paddedSize` of `n` values
  unfoldable pub padded_size : ℕ → ℕ
  padded_size n = u64 (u64 (u64 (n * value_size) + alignment) + (2 ^ 64 - 1))

  unfoldable pub allocate : ℕ → Memory → Option (Memory × ℕ)
  allocate n m = elim (obtain m.blocks (u64 (pointer_size + padded_size n))) [
    | none ↦ none
    | some base ↦
        let p = align alignment (u64 (n * value_size)) (base + pointer_size) (padded_size n) in
        some (
          record {
            pointers = store (p - pointer_size) base m.pointers;
            blocks = record { base = base; size = u64 (pointer_size + padded_size n) } ∷ m.blocks;
          },
          p,
        )
  ]

  -- The base and the size that `deallocate(p, n)` hands to the allocator of `char`.
  unfoldable pub deallocate : (ℕ → ℕ) → ℕ → ℕ → Block
  deallocate pointers p n = record {
    base = pointers (p - pointer_size);
    size = u64 (u64 (u64 (pointer_size + u64 (n * value_size)) + alignment) + (2 ^ 64 - 1));
  }
