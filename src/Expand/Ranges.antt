-- ===== src/Expand/Ranges.antt =====
-- The locks of a range, and the ranges in any order.
use libcuckoo_cxx.Base.{
  ℕ, zero, suc, ◌+◌, ◌-◌, ◌<◌, ◌≤◌, ◌≡◌, subst, ◌⊎◌, inl, inr, List, [], ◌∷◌, arith, ℕ_discrete,
  min,
}
use libcuckoo_cxx.Config.{num_locks}
use libcuckoo_cxx.Expand.Stride.{Split, Split-congr, move_stride-Split, lock_ind-mod}
use libcuckoo_cxx.Expand.{move_stride, move_locks, move_buckets, move_ranges}
use libcuckoo_cxx.Hash.{hashsize, lock_ind}
use libcuckoo_cxx.Params.{Params, Laws}
use libcuckoo_cxx.Table.{Table}

abbrev pub Within : ℕ → ℕ → ℕ → Type 0
Within start end l = (start ≤ l) × (l < end)

-- The ranges take each lock up to `n` that is not in `seen` once, in whatever order.
abbrev pub IsPartition : (ℕ → Type 0) → ℕ → List (ℕ × ℕ) → Type 0
IsPartition seen n [] = (l : ℕ) → l < n → seen l
IsPartition seen n ((start, end) ∷ ranges) =
    (start ≤ end)
    × (end ≤ n)
    × ((l : ℕ) → Within start end l → seen l → ⊥)
    × IsPartition (λ l. seen l ⊎ Within start end l) n ranges

module _ ⦃P : Params⦄ where
  module _ (laws : Laws) (hp : ℕ) (lt : suc hp < 64) (t0 : Table) where
    -- All buckets of the locks in `seen` have been split.
    abbrev pub SplitLocks : (ℕ → Type 0) → Table → Type 0
    SplitLocks seen t = Split hp (λ i. seen (lock_ind i)) t0 t

    one_lock :
        (seen : ℕ → Type 0) (start : ℕ) (t : Table)
        → start < num_locks
        → (seen start → ⊥)
        → SplitLocks seen t
        → SplitLocks (λ l. seen l ⊎ (l ≡ start)) (move_stride (hashsize hp) hp (suc hp) start t)
    one_lock seen start t small fresh h =
        Split-congr laws hp lt t0 _ _ _
          (move_stride-Split laws hp lt t0 (hashsize hp) (λ i. seen (lock_ind i)) start t
            (omega arith)
            (λ i f d. fresh (subst seen (omega (arith, lock_ind-mod i, f.1, small)) d)) h)
          (λ i less m. elim m [
            | inl d ↦ inl d
            | inr e ↦
                inr
                  (omega (arith, lock_ind-mod i, e, small), omega (arith, lock_ind-mod i, e, small))
          ])
          (λ i less d. elim d [
            | inl old ↦ inl old
            | inr f ↦ inr (omega (arith, f.1, lock_ind-mod i, small))
          ])

    move_locks-Split :
        (left start : ℕ) (seen : ℕ → Type 0) (t : Table)
        → start + left ≤ num_locks
        → ((l : ℕ) → Within start (start + left) l → seen l → ⊥)
        → SplitLocks seen t
        → SplitLocks
            (λ l. seen l ⊎ Within start (start + left) l)
            (move_locks hp (suc hp) left start t)
    unfolding move_locks
    move_locks-Split zero start seen t small fresh h =
        Split-congr laws hp lt t0 _ _ t h
          (λ i less m. elim m [ inl d ↦ d | inr f ↦ absurd (omega (arith, f.0, f.1)) ])
          (λ i less d. inl d)
    move_locks-Split (suc left) start seen t small fresh h =
        Split-congr laws hp lt t0 _ _ _
          (move_locks-Split left (suc start) (λ l. seen l ⊎ (l ≡ start)) _ (omega arith)
            (λ l f d. elim d [
              | inl old ↦ fresh l (omega (arith, f.0), omega (arith, f.1)) old
              | inr same ↦ omega (arith, f.0, same)
            ])
            (one_lock seen start t (omega arith) (fresh start (omega arith, omega arith)) h))
          (λ i less m. elim m [
            | inl d ↦ inl (inl d)
            | inr f ↦ elim (ℕ_discrete (lock_ind i) start) [
              | yes same ↦ inl (inr same)
              | no other ↦ inr (omega (arith, f.0, other), omega (arith, f.1))
            ]
          ])
          (λ i less d. elim d [
            | inl (inl old) ↦ inl old
            | inl (inr same) ↦ inr (omega (arith, same), omega (arith, same))
            | inr f ↦ inr (omega (arith, f.0), omega (arith, f.1))
          ])

    move_buckets-Split :
        (start end : ℕ) (seen : ℕ → Type 0) (t : Table)
        → start ≤ end
        → end ≤ num_locks
        → ((l : ℕ) → Within start end l → seen l → ⊥)
        → SplitLocks seen t
        → SplitLocks (λ l. seen l ⊎ Within start end l) (move_buckets hp (suc hp) start end t)
    unfolding move_buckets
    move_buckets-Split start end seen t le small fresh h =
        Split-congr laws hp lt t0 _ _ _
          (move_locks-Split (end - start) start seen t (omega (arith, le, small))
            (λ l f d. fresh l (f.0, omega (arith, f.1, le)) d) h)
          (λ i less m. elim m [ inl d ↦ inl d | inr f ↦ inr (f.0, omega (arith, f.1, le)) ])
          (λ i less m. elim m [ inl d ↦ inl d | inr f ↦ inr (f.0, omega (arith, f.1, le)) ])

    lock_in_use : (i : ℕ) → i < hashsize hp → lock_ind i < min num_locks (hashsize hp)
    lock_in_use i less = omega (arith, lock_ind-mod i, less)

    -- Whatever the ranges and their order, all buckets have been split in the end.
    pub move_ranges-Split :
        (ranges : List (ℕ × ℕ)) (seen : ℕ → Type 0) (t : Table)
        → IsPartition seen (min num_locks (hashsize hp)) ranges
        → SplitLocks seen t
        → Split hp (λ _. Unit) t0 (move_ranges hp (suc hp) ranges t)
    unfolding move_ranges
    move_ranges-Split [] seen t all h =
        Split-congr laws hp lt t0 _ _ t h (λ i less _. all (lock_ind i) (lock_in_use i less))
          (λ i less _. tt)
    move_ranges-Split ((start, end) ∷ ranges) seen t (le, small, fresh, all) h =
        move_ranges-Split ranges (λ l. seen l ⊎ Within start end l) _ all
          (move_buckets-Split start end seen t le (omega (arith, small)) fresh h)
