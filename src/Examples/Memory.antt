-- ===== src/Examples/Memory.antt =====
-- A program that takes memory from the aligned allocator, writes to it and gives it back.
use libcuckoo_cxx.Allocator.Room.{store_other}
use libcuckoo_cxx.Allocator.Sound.{nothing_held, nothing_held-IsSound}
use libcuckoo_cxx.Allocator.Steps.{
  Pointer, Program, takes, writes, gives, Reachable, at_start, after, IsSound,
}
use libcuckoo_cxx.Allocator.{
  Block, Apart, Every, Platform, PlatformLaws, IsAligned, store, padded_size, allocate, deallocate,
}
use libcuckoo_cxx.Base.{
  ℕ, ◌+◌, ◌-◌, ◌*◌, ◌/◌, ◌^◌, ◌≤◌, ◌≡◌, refl, inl, inr, List, [], ◌∷◌, Option, none, some, leb,
  leb→le, arith, if◌then◌else◌, Bool-cases,
}

-- An allocator that goes up, and an alignment by division.
abbrev top : List Block → ℕ
top [] = 4096
top (b ∷ blocks) = b.base + b.size + top blocks

abbrev up_to : ℕ → ℕ → Option ℕ
up_to base size = if leb (base + size) (2 ^ 64) then some base else none

abbrev aligned_to : ℕ → ℕ → ℕ → ℕ → ℕ
aligned_to a size ptr space =
    let q = (ptr + (a - 1)) / a * a in if leb (q + size) (ptr + space) then q else ptr

instance abbrev cache_lines : Platform
cache_lines = record {
  value_size = 24;
  alignment = 64;
  pointer_size = 8;
  align = aligned_to;
  obtain = λ blocks size. up_to (top blocks) size;
  torn = λ pointers address pointer x. 0;
}

up_to_fits : (base size b : ℕ) → up_to base size ≡ some b → (b ≡ base) × (base + size ≤ 2 ^ 64)
up_to_fits base size b e = elim (Bool-cases (leb (base + size) (2 ^ 64))) [
  | inl fits ↦ (ground (arith, e, fits), leb→le (base + size) (2 ^ 64) fits)
  | inr over ↦ absurd (ground (arith, e, over))
]

top-Every :
    (base : ℕ) (size : ℕ) (blocks : List Block)
    → top blocks ≤ base
    → Every (Apart (record { base = base; size = size })) blocks
top-Every base size [] le = tt
top-Every base size (b ∷ blocks) le =
    (inr (omega (arith, le)), top-Every base size blocks (omega (arith, le)))

align_first :
    (size ptr space q : ℕ)
    → IsAligned 64 q
    → ptr ≤ q
    → q + size ≤ ptr + space
    → IsAligned 64 (aligned_to 64 size ptr space)
      × (ptr ≤ aligned_to 64 size ptr space)
      × (aligned_to 64 size ptr space ≤ q)
align_first size ptr space q on from fits =
    elim (Bool-cases (leb ((ptr + 63) / 64 * 64 + size) (ptr + space))) [
      | inl f ↦
          let v : aligned_to 64 size ptr space ≡ (ptr + 63) / 64 * 64 = ground (arith, f) in
          (omega (arith, v), omega (arith, v), omega (arith, v, on, from))
      | inr f ↦ absurd (ground (arith, f, on, from, fits))
    ]

cache_lines-PlatformLaws : PlatformLaws
cache_lines-PlatformLaws = record {
  alignment_pos = omega arith;
  pointer_pos = omega arith;
  align_first = λ size ptr space q on from fits. align_first size ptr space q on from fits;
  obtain_fits = λ blocks size base e.
      (let (same, fits) = up_to_fits _ size base e in omega (arith, same, fits));
  obtain_apart = λ blocks size base e.
      (let (same, fits) = up_to_fits _ size base e in
        top-Every base size blocks (omega (arith, same)));
}

abbrev no_pointers : ℕ → ℕ
no_pointers a = 0

-- Three values, then one; a word is written among the three, and they are given back.
abbrev three_block : Block
three_block = record { base = 4096; size = 143 }

abbrev one_block : Block
one_block = record { base = 8335; size = 95 }

abbrev three_at : Pointer
three_at = record { address = 4160; count = 3 }

abbrev one_at : Pointer
one_at = record { address = 8384; count = 1 }

abbrev three_stored : ℕ → ℕ
three_stored = store 4152 4096 no_pointers

abbrev both_stored : ℕ → ℕ
both_stored = store 8376 8335 three_stored

abbrev written : ℕ → ℕ
written = store 4164 99 both_stored

abbrev last_program : Program
last_program = record {
  memory = record { pointers = written; blocks = one_block ∷ [] };
  held = one_at ∷ [];
}

last_program-Reachable : Reachable (nothing_held no_pointers) last_program
unfolding allocate deallocate padded_size store
last_program-Reachable =
    after
      (after (after (after at_start (takes (omega arith) refl)) (takes (omega arith) refl)) (
        writes three_at (inr (inl refl)) λ a apart.
          store_other (omega arith) 4164 99 both_stored a
            (elim apart [ inl l ↦ inl (omega (arith, l)) | inr r ↦ inr (omega (arith, r)) ])))
      (gives three_at (inr (_, refl, inl (refl, refl))) (inr (_, refl, inl (refl, refl))))

nothing_held-IsSound_example : IsSound last_program
nothing_held-IsSound_example =
    nothing_held-IsSound cache_lines-PlatformLaws no_pointers last_program last_program-Reachable
