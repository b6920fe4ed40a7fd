-- ===== src/LazyArray/Allocate.antt =====
-- `allocate` of libcuckoo/lazy_array.hh: what can be indexed afterwards, and what stays.
use native.Mathlib.Nat.{
  pow-suc, one-le-pow, div-add-mod', mod-lt, mod-eq_of_lt, mul-le-mul_right, pow-le-pow_right,
  div-lt_iff_lt-mul,
}
use libcuckoo_cxx.Base.{
  ℕ, zero, suc, ◌+◌, ◌*◌, ◌/◌, ◌^◌, ◌<◌, ◌≤◌, ◌≡◌, refl, sym, ap, ◌∙◌, List, [], ◌∷◌, Option, none,
  some, arith, get_or, replicate, length, Option-cases, inl, inr,
}
use libcuckoo_cxx.Base.Bits.{and_mask}
use libcuckoo_cxx.Config.{u64}
use libcuckoo_cxx.LazyArray.{
  Segments, segment_size, num_segments, array_size, get_segment, get_offset, element, create_array,
  index, allocate_loop, allocate, allocated_segments, allocated_size,
}

element-replicate {ℓ} :
    {A : Type ℓ} (n : ℕ) (a : A) (i : ℕ) → i < n → element (replicate n a) i ≡ some a
unfolding element
element-replicate zero a i lt = absurd (omega arith)
element-replicate (suc n) a zero lt = refl
element-replicate (suc n) a (suc i) lt = element-replicate n a i (omega arith)

two_pow-add : (a b : ℕ) → 2 ^ (a + b) ≡ 2 ^ b * 2 ^ a
two_pow-add a zero = omega (arith, ap (λ (n : ℕ). 2 ^ n) (add_zero a))
  where
    add_zero : (n : ℕ) → n + 0 ≡ n
    add_zero n = omega arith
two_pow-add a (suc b) =
    let e : a + suc b ≡ suc (a + b) = omega arith in
    rw e
      (omega (arith, two_pow-add a b, pow-suc 2 (a + b), ap (λ (n : ℕ). n * 2 ^ a) (pow-suc 2 b)))

-- An index up to `n` lies in a segment up to that of `n`.
segment_of_below : (k i n : ℕ) → 0 < k → i ≤ n → i / k < n / k + 1
segment_of_below k i n pos le =
    (div-lt_iff_lt-mul pos).1 (omega (arith, div-add-mod' n k, mod-lt n pos))

module _ {ℓ} {A : Type ℓ} (offset_bits : ℕ) (initial : A) where
  abbrev fresh : List A
  fresh = create_array (segment_size offset_bits) initial

  abbrev filled : Option (List A) → Option (List A)
  filled none = some fresh
  filled (some s) = some s

  loop_within :
      (n : ℕ) (segments : Segments A) (k : ℕ)
      → k < n
      → k < length segments
      → get_or (allocate_loop offset_bits initial n segments) k none
        ≡ filled (get_or segments k none)
  unfolding allocate_loop
  loop_within zero segments k lt in_range = absurd (omega arith)
  loop_within (suc n) [] k lt in_range = absurd (omega arith)
  loop_within (suc n) (none ∷ segments) zero lt in_range = refl
  loop_within (suc n) (some s ∷ segments) zero lt in_range = refl
  loop_within (suc n) (none ∷ segments) (suc k) lt in_range =
      loop_within n segments k (omega arith) (omega arith)
  loop_within (suc n) (some s ∷ segments) (suc k) lt in_range =
      loop_within n segments k (omega arith) (omega arith)

  loop_keeps :
      (n : ℕ) (segments : Segments A) (k : ℕ) (s : List A)
      → get_or segments k none ≡ some s
      → get_or (allocate_loop offset_bits initial n segments) k none ≡ some s
  unfolding allocate_loop
  loop_keeps zero segments k s e = e
  loop_keeps (suc n) [] k s e = e
  loop_keeps (suc n) (none ∷ segments) zero s e = cc
  loop_keeps (suc n) (some r ∷ segments) zero s e = e
  loop_keeps (suc n) (none ∷ segments) (suc k) s e = loop_keeps n segments k s e
  loop_keeps (suc n) (some r ∷ segments) (suc k) s e = loop_keeps n segments k s e

  loop_counts :
      (n : ℕ) (segments : Segments A)
      → n ≤ length segments
      → n ≤ allocated_segments (allocate_loop offset_bits initial n segments)
  unfolding allocate_loop allocated_segments
  loop_counts zero segments le = omega arith
  loop_counts (suc n) [] le = absurd (omega arith)
  loop_counts (suc n) (none ∷ segments) le = omega (arith, loop_counts n segments (omega arith))
  loop_counts (suc n) (some s ∷ segments) le = omega (arith, loop_counts n segments (omega arith))

  length-loop :
      (n : ℕ) (segments : Segments A)
      → length (allocate_loop offset_bits initial n segments) ≡ length segments
  unfolding allocate_loop
  length-loop zero segments = refl
  length-loop (suc n) [] = refl
  length-loop (suc n) (none ∷ segments) = ap suc (length-loop n segments)
  length-loop (suc n) (some s ∷ segments) = ap suc (length-loop n segments)

  allocated_segments-le : (segments : Segments A) → allocated_segments segments ≤ length segments
  unfolding allocated_segments
  allocated_segments-le [] = omega arith
  allocated_segments-le (none ∷ segments) = omega arith
  allocated_segments-le (some s ∷ segments) = omega (arith, allocated_segments-le segments)

  -- What `allocate` owes its caller: elements that were there keep their values, each of the first
  -- `target` elements is there and a new one is `initial`, and that many are reported.
  pub record Allocated (segments segments' : Segments A) (target : ℕ) : Type ℓ where
    pub segments_kept : length segments' ≡ length segments
    pub keeps :
        (i : ℕ) (a : A)
        → index offset_bits segments i ≡ some a
        → index offset_bits segments' i ≡ some a
    pub initialised :
        (i : ℕ)
        → i < target
        → get_or segments (get_segment offset_bits i) none ≡ none
        → index offset_bits segments' i ≡ some initial
    pub reported : target ≤ allocated_size offset_bits segments'

  module _ (segment_bits : ℕ) (bound : offset_bits + segment_bits < 64) where
    small : 2 ^ (offset_bits + segment_bits) ≤ 2 ^ 63
    small =
        pow-le-pow_right {n = 2} (omega arith) {i = offset_bits + segment_bits} {j = 63}
          (omega arith)

    pos : 0 < 2 ^ offset_bits
    pos = one-le-pow offset_bits 2 (omega arith)

    size_of_segment : segment_size offset_bits ≡ 2 ^ offset_bits
    unfolding segment_size
    size_of_segment = mod-eq_of_lt (
        omega
          (arith, pow-le-pow_right {n = 2} (omega arith) {i = offset_bits} {j = 63} (omega arith)))

    count_of_segments : num_segments segment_bits ≡ 2 ^ segment_bits
    unfolding num_segments
    count_of_segments = mod-eq_of_lt (
        omega
          (arith, pow-le-pow_right {n = 2} (omega arith) {i = segment_bits} {j = 63} (omega arith)))

    offset_lt : (i : ℕ) → get_offset offset_bits i < segment_size offset_bits
    unfolding get_offset
    offset_lt i = omega (arith, and_mask offset_bits i, size_of_segment, mod-lt i pos)

    element-fresh : (i : ℕ) → element fresh (get_offset offset_bits i) ≡ some initial
    unfolding create_array
    element-fresh i =
        element-replicate (segment_size offset_bits) initial (get_offset offset_bits i)
          (offset_lt i)

    index-segment :
        (segments : Segments A) (i : ℕ) (s : List A)
        → get_or segments (get_segment offset_bits i) none ≡ some s
        → index offset_bits segments i ≡ element s (get_offset offset_bits i)
    unfolding index
    index-segment segments i s e = rw (index, e) refl

    index-missing :
        (segments : Segments A) (i : ℕ)
        → get_or segments (get_segment offset_bits i) none ≡ none
        → index offset_bits segments i ≡ none
    unfolding index
    index-missing segments i e = rw (index, e) refl

    keeps_element :
        (n : ℕ) (segments : Segments A) (i : ℕ) (a : A)
        → index offset_bits segments i ≡ some a
        → index offset_bits (allocate_loop offset_bits initial n segments) i ≡ some a
    keeps_element n segments i a e =
        elim (Option-cases (get_or segments (get_segment offset_bits i) none)) [
          | inl f ↦ cc (e, index-missing segments i f)
          | inr (s, f) ↦
              index-segment _ i s (loop_keeps n segments (get_segment offset_bits i) s f)
              ∙ sym (index-segment segments i s f)
              ∙ e
        ]

    module _ (segments : Segments A) (width : length segments ≡ num_segments segment_bits) where
      last_in_range :
          (n : ℕ)
          → n < array_size offset_bits segment_bits
          → get_segment offset_bits n < length segments
      unfolding array_size get_segment
      last_in_range n lt =
          rw (width, count_of_segments)
            ((div-lt_iff_lt-mul pos).1 (omega (arith, two_pow-add offset_bits segment_bits)))

      segment_below : (i n : ℕ) → i ≤ n → get_segment offset_bits i < get_segment offset_bits n + 1
      unfolding get_segment
      segment_below i n le = segment_of_below (2 ^ offset_bits) i n pos le

      initialises :
          (n i : ℕ)
          → n < array_size offset_bits segment_bits
          → i ≤ n
          → get_or segments (get_segment offset_bits i) none ≡ none
          → index offset_bits
              (allocate_loop offset_bits initial (get_segment offset_bits n + 1) segments)
              i
            ≡ some initial
      initialises n i lt le e =
          let below = segment_below i n le in
          let at =
            loop_within (get_segment offset_bits n + 1) segments (get_segment offset_bits i) below
              (omega (arith, below, last_in_range n lt)) in
          index-segment _ i fresh (at ∙ ap filled e) ∙ element-fresh i

      -- The number of elements in `c` segments, where these are in range.
      no_wrap :
          (c : ℕ) → c ≤ length segments → u64 (c * segment_size offset_bits) ≡ c * 2 ^ offset_bits
      no_wrap c le = rw size_of_segment (
          mod-eq_of_lt (
            omega (
              arith,
              small,
              two_pow-add offset_bits segment_bits,
              mul-le-mul_right (2 ^ offset_bits) le,
              width,
              count_of_segments,
              ap (λ (m : ℕ). m * 2 ^ offset_bits) (width ∙ count_of_segments),
            )))

      reports :
          (n : ℕ)
          → n < array_size offset_bits segment_bits
          → suc n
            ≤ allocated_size offset_bits
                (allocate_loop offset_bits initial (get_segment offset_bits n + 1) segments)
      unfolding allocated_size get_segment
      reports n lt =
          let k = n / 2 ^ offset_bits + 1 in
          let segments' = allocate_loop offset_bits initial k segments in
          let enough : k ≤ allocated_segments segments' =
            loop_counts k segments (omega (arith, last_in_range n lt)) in
          let few : allocated_segments segments' ≤ length segments =
            omega (arith, allocated_segments-le segments', length-loop k segments) in
          omega (
            arith,
            no_wrap (allocated_segments segments') few,
            mul-le-mul_right (2 ^ offset_bits) enough,
            div-add-mod' n (2 ^ offset_bits),
            mod-lt n pos,
          )

      -- On an array of all its segments, with fewer than 64 index bits, `allocate` of up to `size`
      -- elements keeps every element that was there, gives the initial value to those of the first
      -- `target` elements whose segment was missing, and makes `allocated_size` at least `target`.
      pub allocate-Allocated :
          (target : ℕ)
          → target ≤ array_size offset_bits segment_bits
          → Allocated segments (allocate offset_bits initial segments target) target
      unfolding allocate
      allocate-Allocated zero le = record {
        segments_kept = refl;
        keeps = λ i a e. e;
        initialised = λ i lt e. absurd (omega arith);
        reported = omega arith;
      }
      allocate-Allocated (suc n) le = record {
        segments_kept = length-loop _ segments;
        keeps = λ i a e. keeps_element _ segments i a e;
        initialised = λ i lt e. initialises n i (omega arith) (omega arith) e;
        reported = reports n (omega arith);
      }
