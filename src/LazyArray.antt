-- ===== src/LazyArray.antt =====
-- libcuckoo/lazy_array.hh: an array in segments that are allocated on demand. A segment is `none` for
-- the null pointer. The two template parameters OFFSET_BITS and SEGMENT_BITS are arguments; the
-- element type with its default constructor is a type with an `initial` value, and the allocator
-- only shows in that a segment comes and goes.
pub mod Allocate
use libcuckoo_cxx.Base.{
  ℕ, zero, suc, ◌+◌, ◌-◌, ◌*◌, ◌/◌, ◌^◌, List, [], ◌∷◌, map, Bool, Option, none, some, bit_and,
  get_or, set, replicate,
}
use libcuckoo_cxx.Config.{u64}

-- `segments_`
abbrev pub Segments {ℓ} : Type ℓ → Type ℓ
Segments A = List (Option (List A))

-- SEGMENT_SIZE, NUM_SEGMENTS and `size`
unfoldable pub segment_size : ℕ → ℕ
segment_size offset_bits = u64 (2 ^ offset_bits)

unfoldable pub num_segments : ℕ → ℕ
num_segments segment_bits = u64 (2 ^ segment_bits)

unfoldable pub array_size : ℕ → ℕ → ℕ
array_size offset_bits segment_bits = u64 (2 ^ (offset_bits + segment_bits))

unfoldable pub get_segment : ℕ → ℕ → ℕ
get_segment offset_bits i = i / 2 ^ offset_bits

unfoldable pub get_offset : ℕ → ℕ → ℕ
get_offset offset_bits i = bit_and i (2 ^ offset_bits - 1)

-- `a[i]` of a C array, `none` out of its bounds.
unfoldable pub element {ℓ} : {A : Type ℓ} → List A → ℕ → Option A
element [] i = none
element (a ∷ rest) zero = some a
element (a ∷ rest) (suc i) = element rest i

module _ {ℓ} {A : Type ℓ} where
  -- The elements that the code makes of raw memory, where no constructor throws.
  unfoldable pub create_array : ℕ → A → List A
  create_array size initial = replicate size initial

  -- The default constructor.
  unfoldable pub no_segments : ℕ → Segments A
  no_segments segment_bits = replicate (num_segments segment_bits) none

  unfoldable pub destroy_all : Segments A → Segments A
  destroy_all segments = map (λ _. none) segments

  -- The move of `arr` onto an array: the result, and what is left of `arr`.
  unfoldable pub move_other_array : Segments A → Segments A → Segments A × Segments A
  move_other_array segments arr = (arr, map (λ _. none) arr)

  -- `operator[]`; `none` where the segment was not allocated, which the assertion excludes.
  unfoldable pub index : ℕ → Segments A → ℕ → Option A
  index offset_bits segments i = elim (get_or segments (get_segment offset_bits i) none) [
    | none ↦ none
    | some segment ↦ element segment (get_offset offset_bits i)
  ]

  -- A store through the reference that `operator[]` returns.
  unfoldable pub assign : ℕ → Segments A → ℕ → A → Segments A
  assign offset_bits segments i a = elim (get_or segments (get_segment offset_bits i) none) [
    | none ↦ segments
    | some segment ↦
        set segments (get_segment offset_bits i) (some (set segment (get_offset offset_bits i) a))
  ]

  module _ (offset_bits : ℕ) (initial : A) where
    -- The loop of `allocate` over the first segments.
    unfoldable pub allocate_loop : ℕ → Segments A → Segments A
    allocate_loop zero segments = segments
    allocate_loop (suc n) [] = []
    allocate_loop (suc n) (none ∷ segments) =
        some (create_array (segment_size offset_bits) initial) ∷ allocate_loop n segments
    allocate_loop (suc n) (some segment ∷ segments) = some segment ∷ allocate_loop n segments

    unfoldable pub allocate : Segments A → ℕ → Segments A
    allocate segments zero = segments
    allocate segments (suc n) = allocate_loop (get_segment offset_bits n + 1) segments

  -- The loop of `allocated_size`.
  unfoldable pub allocated_segments : Segments A → ℕ
  allocated_segments [] = 0
  allocated_segments (none ∷ segments) = 0
  allocated_segments (some segment ∷ segments) = 1 + allocated_segments segments

  unfoldable pub allocated_size : ℕ → Segments A → ℕ
  allocated_size offset_bits segments = u64 (allocated_segments segments * segment_size offset_bits)
