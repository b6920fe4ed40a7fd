-- ===== src/Table/Counts.antt =====
-- The number of pairs in the buckets and the counters of the locks, modulo 2 ^ 64.
use libcuckoo_cxx.Base.{
  ℕ, zero, suc, ◌+◌, ◌-◌, ◌%◌, ◌^◌, ◌<◌, ◌≡◌, refl, List, [], ◌∷◌, map, Bool, true, false, arith,
  length, get_or, set, length-set,
}
use libcuckoo_cxx.Base.Bits.{and_mask}
use libcuckoo_cxx.Bucket.{Slot, Bucket, fresh_slot}
use libcuckoo_cxx.Config.{u64, num_locks}
use libcuckoo_cxx.Hash.{lock_ind}
use libcuckoo_cxx.Params.{Params}
use libcuckoo_cxx.Table.Valid.{cell, IsPlaced, put}
use libcuckoo_cxx.Table.{Table, bucket, nonatomic_inc, nonatomic_dec, size_loop, cuckoo_size, size}

abbrev pub bit : Bool → ℕ
bit true = 1
bit false = 0

unfoldable pub sum : List ℕ → ℕ
sum [] = 0
sum (n ∷ ns) = n + sum ns

sum-set : (ns : List ℕ) (l v : ℕ) → l < length ns → sum (set ns l v) + get_or ns l 0 ≡ sum ns + v
unfolding sum
sum-set [] l v h = absurd (omega arith)
sum-set (n ∷ ns) zero v h = omega arith
sum-set (n ∷ ns) (suc l) v h = omega (arith, sum-set ns l v (omega arith))

pub lock_ind-lt : (i : ℕ) → lock_ind i < num_locks
unfolding lock_ind
lock_ind-lt i = omega (arith, and_mask 16 i)

-- The counter wraps, and so does the sum.
sum-inc :
    (ns : List ℕ) (l : ℕ)
    → l < length ns
    → sum (nonatomic_inc ns l) % 2 ^ 64 ≡ (sum ns + 1) % 2 ^ 64
unfolding nonatomic_inc
sum-inc ns l h = omega (arith, sum-set ns l (u64 (1 + get_or ns l 0)) h)

sum-dec :
    (ns : List ℕ) (l : ℕ)
    → l < length ns
    → (sum (nonatomic_dec ns l) + 1) % 2 ^ 64 ≡ sum ns % 2 ^ 64
unfolding nonatomic_dec
sum-dec ns l h = omega (arith, sum-set ns l (u64 (2 ^ 64 - 1 + get_or ns l 0)) h)

-- A count that goes from one lock to another one.
pub sum-inc_dec :
    (ns : List ℕ) (l m : ℕ)
    → l < length ns
    → m < length ns
    → sum (nonatomic_inc (nonatomic_dec ns l) m) % 2 ^ 64 ≡ sum ns % 2 ^ 64
sum-inc_dec ns l m hl hm =
    let same : length (nonatomic_dec ns l) ≡ length ns =
      unfold nonatomic_dec in length-set ns l _ in
    omega (arith, sum-inc (nonatomic_dec ns l) m (omega (arith, same)), sum-dec ns l hl)

size_loop-sum : (ns : List ℕ) (n : ℕ) → n < 2 ^ 64 → size_loop ns n ≡ (n + sum ns) % 2 ^ 64
unfolding size_loop sum
size_loop-sum [] n h = omega arith
size_loop-sum (m ∷ ns) n h = omega (arith, size_loop-sum ns (u64 (n + m)) (omega arith))

pub sum-zero : (ns : List ℕ) → sum (map (λ _. 0) ns) ≡ 0
unfolding sum
sum-zero [] = refl
sum-zero (n ∷ ns) = omega (arith, sum-zero ns)

module _ ⦃P : Params⦄ where
  unfoldable pub used_slots : Bucket → ℕ
  used_slots [] = 0
  used_slots (s ∷ b) = bit s.occupied + used_slots b

  -- The number of pairs in the table.
  unfoldable pub used : List Bucket → ℕ
  used [] = 0
  used (b ∷ bs) = used_slots b + used bs

  used_slots-set :
      (b : Bucket) (s : ℕ) (x : Slot)
      → s < length b
      → used_slots (set b s x) + bit (get_or b s fresh_slot).occupied
        ≡ used_slots b + bit x.occupied
  unfolding used_slots
  used_slots-set [] s x h = absurd (omega arith)
  used_slots-set (y ∷ b) zero x h = omega arith
  used_slots-set (y ∷ b) (suc s) x h = omega (arith, used_slots-set b s x (omega arith))

  pub used-set :
      (bs : List Bucket) (i : ℕ) (b : Bucket)
      → i < length bs
      → used (set bs i b) + used_slots (bucket bs i) ≡ used bs + used_slots b
  unfolding used
  used-set [] i b h = absurd (omega arith)
  used-set (c ∷ bs) zero b h = omega arith
  used-set (c ∷ bs) (suc i) b h = omega (arith, used-set bs i b (omega arith))

  pub used-put :
      (bs : List Bucket) (i s : ℕ) (x : Slot)
      → i < length bs
      → s < length (bucket bs i)
      → used (put bs i s x) + bit (cell bs i s).occupied ≡ used bs + bit x.occupied
  used-put bs i s x hi hs =
      omega (arith, used-set bs i (set (bucket bs i) s x) hi, used_slots-set (bucket bs i) s x hs)

  -- The whole state: the buckets are in order, there is a counter for each lock, and the counters
  -- add up to the number of pairs.
  pub record IsValid (t : Table) : Type 0 where
    pub placed : IsPlaced t.hashpower t.buckets
    pub locks : length t.elems ≡ num_locks
    pub counted : sum t.elems % 2 ^ 64 ≡ used t.buckets % 2 ^ 64

  -- The two settings stay.
  abbrev pub SameLimits : Table → Table → Type 0
  SameLimits t t' =
      (t'.minimum_load_factor ≡ t.minimum_load_factor)
      × (t'.maximum_hashpower ≡ t.maximum_hashpower)

  -- On a valid table, `size` is the number of occupied slots modulo 2^64.
  pub size-used : (t : Table) → IsValid t → size t ≡ used t.buckets % 2 ^ 64
  unfolding size cuckoo_size
  size-used t v = omega (arith, size_loop-sum t.elems 0 (omega arith), v.counted)

  pub length-inc : (ns : List ℕ) (l : ℕ) → length (nonatomic_inc ns l) ≡ length ns
  unfolding nonatomic_inc
  length-inc ns l = length-set ns l _

  pub length-dec : (ns : List ℕ) (l : ℕ) → length (nonatomic_dec ns l) ≡ length ns
  unfolding nonatomic_dec
  length-dec ns l = length-set ns l _

  -- One pair more and one count more, at any lock; one less of both; and neither.
  pub counted-inc :
      (ns : List ℕ) (i n m : ℕ)
      → length ns ≡ num_locks
      → sum ns % 2 ^ 64 ≡ n % 2 ^ 64
      → m ≡ n + 1
      → sum (nonatomic_inc ns (lock_ind i)) % 2 ^ 64 ≡ m % 2 ^ 64
  counted-inc ns i n m len h e =
      omega (arith, sum-inc ns (lock_ind i) (omega (arith, lock_ind-lt i)))

  pub counted-dec :
      (ns : List ℕ) (i n m : ℕ)
      → length ns ≡ num_locks
      → sum ns % 2 ^ 64 ≡ n % 2 ^ 64
      → n ≡ m + 1
      → sum (nonatomic_dec ns (lock_ind i)) % 2 ^ 64 ≡ m % 2 ^ 64
  counted-dec ns i n m len h e =
      omega (arith, sum-dec ns (lock_ind i) (omega (arith, lock_ind-lt i)))
