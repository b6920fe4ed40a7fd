-- ===== src/Expand/Where.antt =====
-- Where a key goes when the table doubles.
use native.Mathlib.Nat.{pow-suc}
use libcuckoo_cxx.Base.{
  ℕ, suc, ◌+◌, ◌<◌, ◌≡◌, ◌⊎◌, inl, inr, Bool, true, false, sym, ℕ_discrete, ==_false, arith, ==→eq,
  ==_refl, ◌==◌, ◌&&◌, ◌||◌,
}
use libcuckoo_cxx.Expand.{moves_up}
use libcuckoo_cxx.Hash.Alternate.{hashsize_lem}
use libcuckoo_cxx.Hash.Growth.{Grows, index_hash-Grows, alt_index-Grows}
use libcuckoo_cxx.Hash.{hashsize, partial_key}
use libcuckoo_cxx.Params.{Params}
use libcuckoo_cxx.Table.Valid.{home, other_home, IsHome}
use libcuckoo_cxx.Table.{hashed_key}

pub hashsize-suc : (hp : ℕ) → suc hp < 64 → hashsize (suc hp) ≡ hashsize hp + hashsize hp
hashsize-suc hp lt =
    omega (arith, hashsize_lem (suc hp) lt, hashsize_lem hp (omega arith), pow-suc 2 hp)

test_true :
    (i o1 n1 o2 n2 m : ℕ)
    → ((i == o1) && (n1 == m) || (i == o2) && (n2 == m)) ≡ true
    → (m ≡ n1) ⊎ (m ≡ n2)
test_true i o1 n1 o2 n2 m h = elim (ℕ_discrete n1 m) [
  | yes e ↦ inl (sym e)
  | no n ↦ inr (ground (arith, ==_false n1 m n, ==→eq n2 m))
]

test_false :
    (i o n m : ℕ) (rest : Bool)
    → i ≡ o
    → (n ≡ i) ⊎ (n ≡ m)
    → ((i == o) && (n == m) || rest) ≡ false
    → i ≡ n
test_false i o n m rest e (inl f) h = sym f
test_false i o n m rest e (inr f) h = ground (arith, ==_refl i, ==_refl n)

test_false_right :
    (i o n m : ℕ) (first : Bool)
    → i ≡ o
    → (n ≡ i) ⊎ (n ≡ m)
    → (first || (i == o) && (n == m)) ≡ false
    → i ≡ n
test_false_right i o n m first e (inl f) h = sym f
test_false_right i o n m first e (inr f) h = ground (arith, ==_refl i, ==_refl n)

module _ ⦃P : Params⦄ where
  open P use {Key}

  module _ (hp : ℕ) (lt : suc hp < 64) (k : Key) where
    home-Grows : Grows hp (home hp k) (home (suc hp) k)
    home-Grows = index_hash-Grows hp (P.hash k) lt

    other_home-Grows : Grows hp (other_home hp k) (other_home (suc hp) k)
    other_home-Grows = alt_index-Grows hp (partial_key (P.hash k)) (P.hash k) lt

    pub moved-IsHome :
        (i : ℕ) → moves_up hp (suc hp) i (hashed_key k) ≡ true → IsHome (suc hp) k (i + hashsize hp)
    unfolding moves_up hashed_key
    moved-IsHome i h = test_true i _ _ _ _ _ h

    pub left-IsHome :
        (i : ℕ)
        → IsHome hp k i
        → moves_up hp (suc hp) i (hashed_key k) ≡ false
        → IsHome (suc hp) k i
    unfolding moves_up hashed_key
    left-IsHome i (inl e) h =
        inl (test_false i (home hp k) (home (suc hp) k) (i + hashsize hp) _ e (rw e home-Grows) h)
    left-IsHome i (inr e) h = inr (
        test_false_right i (other_home hp k) (other_home (suc hp) k) (i + hashsize hp) _ e
          (rw e other_home-Grows) h)
