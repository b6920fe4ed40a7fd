-- ===== src/Examples/Growing.antt =====
-- A table that doubles, and calls that may make it do so.
use libcuckoo_cxx.Base.{
  ℕ, sym, zero, suc, ap, ◌∙◌, ◌+◌, ◌≡◌, refl, inl, inr, List, [], ◌∷◌, Bool, some, arith, min,
  dec_lt, ◌*◌, ◌<◌, ◌^◌, lt→ltb,
}
use libcuckoo_cxx.Config.{num_locks}
use native.Mathlib.Nat.{pow-suc}
use libcuckoo_cxx.Examples.Insertions.{codes_fit}
use libcuckoo_cxx.Cuckoo.Search.{tree}
use libcuckoo_cxx.Examples.Tables.{one_pair, one_pair-IsValid}
use libcuckoo_cxx.Examples.{numbers, numbers-Laws, numbers-DoubleLaws}
use libcuckoo_cxx.Expand.Double.{Doubled, double_buckets-Doubled}
use libcuckoo_cxx.Expand.Ranges.{IsPartition}
use libcuckoo_cxx.Expand.{double_buckets}
use libcuckoo_cxx.Hash.{hashsize}
use libcuckoo_cxx.Insert.History.{
  Request, simple, ask_insert, ask_upsert, serve_all, AllMeant, serve_all-AllMeant,
}
use libcuckoo_cxx.Table.History.{call_erase, call_contains}
use libcuckoo_cxx.Insert.Loop.{Growth, cuckoo_fast_double-Growth, cuckoo_insert_loop_total}
use libcuckoo_cxx.Insert.Outcomes.{Insertion}
use libcuckoo_cxx.Insert.Factor.{FallsBelow, cuckoo_insert_loop_by_factor}
use libcuckoo_cxx.Hash.Alternate.{hashsize_pos}
use libcuckoo_cxx.Expand.Where.{hashsize-suc}
use libcuckoo_cxx.Insert.Rehash.{RunsOut, Rehashed, rehash-Rehashed, reserve-Rehashed}
use libcuckoo_cxx.Construct.{reserve_calc}
use libcuckoo_cxx.Construct.Reserve.{Reserves}
use libcuckoo_cxx.Insert.Upsert.{Upserted, upsert_total}
use libcuckoo_cxx.Insert.{insert, cuckoo_insert_loop, cuckoo_fast_double, upsert, rehash, reserve}
use libcuckoo_cxx.Reference.{copy_reference, Copied, copy_reference_total}
use libcuckoo_cxx.Table.Counts.{IsValid}
use libcuckoo_cxx.Table.{Table, Result, Status, hashed_key, add_to_bucket}
use libcuckoo_cxx.Construct.{allocate_buckets}

-- The locks of the table in two ranges, the later one first.
abbrev two_ranges : List (ℕ × ℕ)
two_ranges = (1, 2) ∷ (0, 1) ∷ []

two_ranges-IsPartition : IsPartition (λ _. ⊥) (min num_locks (hashsize 1)) two_ranges
unfolding hashsize
two_ranges-IsPartition = (
  omega arith,
  omega arith,
  (λ l w d. d),
  (
    omega arith,
    omega arith,
    (λ l w d. elim d [ inl bad ↦ bad | inr v ↦ omega (arith, w.0, w.1, v.0, v.1) ]),
    λ l less. elim (dec_lt l 1) [
      | yes low ↦ inr (omega arith, low)
      | no high ↦ inl (inr (omega (arith, high), less))
    ],
  ),
)

double_buckets-Doubled_example : Doubled one_pair (double_buckets two_ranges 1 one_pair)
unfolding add_to_bucket allocate_buckets
double_buckets-Doubled_example =
    double_buckets-Doubled numbers-Laws one_pair one_pair-IsValid (omega arith) two_ranges
      two_ranges-IsPartition

-- The table with a largest hashpower.
abbrev pub limited : Table
limited = record one_pair { maximum_hashpower = 2 }

pub limited-IsValid : IsValid limited
limited-IsValid = record {
  placed = one_pair-IsValid.placed;
  locks = one_pair-IsValid.locks;
  counted = one_pair-IsValid.counted;
}

-- All of a range at once.
abbrev pub whole : ℕ → List (ℕ × ℕ)
whole n = (0, n) ∷ []

pub whole-IsPartition : (n : ℕ) → IsPartition (λ _. ⊥) n (whole n)
whole-IsPartition n = (omega arith, omega arith, (λ l w d. d), λ l less. inr (omega arith, less))

cuckoo_fast_double-Growth_example :
    (r : Table × Result Status) × (cuckoo_fast_double whole 1 700
        (λ m k v. insert whole 1 700 0 m k v)
        limited
        1
      ≡ some r)
    × Growth limited r
unfolding add_to_bucket allocate_buckets
cuckoo_fast_double-Growth_example =
    cuckoo_fast_double-Growth numbers-Laws whole whole-IsPartition refl 1 700
      (λ m k v. insert whole 1 700 0 m k v) limited limited-IsValid (omega arith) (omega arith)

cuckoo_insert_loop_total_example :
    (x : Table × Result Bool) × (cuckoo_insert_loop whole 1 700 2 (hashed_key 9) limited 9 90
      ≡ some x)
    × Insertion limited 9 90 x
unfolding add_to_bucket allocate_buckets
cuckoo_insert_loop_total_example =
    cuckoo_insert_loop_total numbers-Laws whole whole-IsPartition refl codes_fit 0 700
      (unfold tree in omega arith) 2 limited limited-IsValid (omega arith) (omega arith)
      (omega arith) (omega arith) 9 90

upsert_total_example :
    (x : Table × Result Unit) × (upsert whole 1 700 1 2 limited 6 (λ v. v + 1) 1 ≡ some x)
    × Upserted limited 6 (λ v. v + 1) 1 x
unfolding add_to_bucket allocate_buckets
upsert_total_example =
    upsert_total numbers-Laws whole whole-IsPartition refl codes_fit 0 700
      (unfold tree in omega arith) 2 6 (λ v. v + 1) 1 0 limited limited-IsValid (omega arith)
      (omega arith) (omega arith)

copy_reference_total_example :
    (x : Table × Result Unit) × (copy_reference whole 1 700 1 2 limited 9 6 ≡ some x)
    × Copied limited 9 6 x
unfolding add_to_bucket allocate_buckets
copy_reference_total_example =
    copy_reference_total numbers-Laws whole whole-IsPartition refl codes_fit 0 700
      (unfold tree in omega arith) 0 2 limited limited-IsValid (omega arith) (omega arith)
      (omega arith) 9 6

-- A pair that is added, one that is changed, one that is there, and one that goes.
abbrev requests : List Request
requests =
    ask_insert 9 90
    ∷ ask_upsert 9 (λ v. v + 1) 1
    ∷ ask_insert 9 7
    ∷ simple (call_erase 9)
    ∷ simple (call_contains 9)
    ∷ []

serve_all-AllMeant_example :
    (x : Table × List (Result Bool)) × (serve_all whole 1 700 3 requests limited ≡ some x)
    × IsValid x.0
    × AllMeant x.0 limited requests x.1
unfolding add_to_bucket allocate_buckets
serve_all-AllMeant_example =
    serve_all-AllMeant numbers-Laws whole whole-IsPartition refl codes_fit 0 700
      (unfold tree in omega arith) 3 requests limited limited-IsValid (omega arith) (omega arith)
      (omega arith)

rehash-Rehashed_example :
    Rehashed (RunsOut whole 1 700 5 one_pair) one_pair 3 (rehash whole 1 700 5 one_pair 3)
rehash-Rehashed_example =
    rehash-Rehashed numbers-Laws numbers-DoubleLaws whole whole-IsPartition codes_fit 0 700
      (unfold tree in omega arith) 5 one_pair one_pair-IsValid 3

reserve-Rehashed_example :
    (r : Reserves 20 (reserve_calc 20)) × Rehashed
      (RunsOut whole 1 700 5 one_pair)
      one_pair
      r.hp
      (reserve whole 1 700 5 one_pair 20)
reserve-Rehashed_example =
    reserve-Rehashed numbers-Laws numbers-DoubleLaws whole whole-IsPartition codes_fit 0 700
      (unfold tree in omega arith) 5 one_pair one_pair-IsValid 20 (omega arith)

doublings : (hp d : ℕ) → hp + d < 64 → hashsize (hp + d) ≡ 2 ^ d * hashsize hp
doublings hp zero word =
    let same : hp + 0 ≡ hp = omega arith in
    let one : 2 ^ 0 * hashsize hp ≡ hashsize hp = omega arith in ap hashsize same ∙ sym one
doublings hp (suc d) word =
    let next : hp + suc d ≡ suc (hp + d) = omega arith in
    let doubled : hashsize (suc (hp + d)) ≡ 2 ^ suc d * hashsize hp = omega (
      arith,
      hashsize-suc (hp + d) (omega (arith, word)),
      doublings hp d (omega (arith, word)),
      ap (λ n. n * hashsize hp) (pow-suc 2 d),
    ) in
    ap hashsize next ∙ doubled

-- Five doublings take a full table below the default load factor of one in twenty.
falls_below : FallsBelow (1, 20) 5
falls_below n hp few word =
    lt→ltb (n * 1 * 1 * 20) (1 * (1 * 4 * hashsize (hp + 5)))
      (omega (arith, few, hashsize_pos hp (omega (arith, word)), doublings hp 5 word))

cuckoo_insert_loop_by_factor_example :
    (x : Table × Result Bool) × (cuckoo_insert_loop whole 1 700 6 (hashed_key 9) one_pair 9 90
      ≡ some x)
    × Insertion one_pair 9 90 x
unfolding add_to_bucket allocate_buckets
cuckoo_insert_loop_by_factor_example =
    cuckoo_insert_loop_by_factor numbers-Laws whole whole-IsPartition refl codes_fit 0 700
      (unfold tree in omega arith) 5 one_pair one_pair-IsValid falls_below (omega arith) 6
      (omega arith) 9 90
