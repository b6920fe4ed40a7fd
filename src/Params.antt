-- ===== src/Params.antt =====
-- The template parameters of `cuckoohash_map` in libcuckoo/cuckoohash_map.hh, none of which the
-- library implements, and what it relies on of them.
use libcuckoo_cxx.Base.{ℕ, ◌^◌, ◌<◌, ◌≡◌, Bool, true, false}

-- `Key` and `T`, `Hash` and `Pred`, two facts that the code asks of the types, the arithmetic of
-- `double`, and SLOT_PER_BUCKET.
pub record Params : Type 1 where
  pub Key : Type 0
  pub Mapped : Type 0
  pub hash : Key → ℕ
  pub key_eq : Key → Key → Bool
  -- a key type that is plain data of at most 8 bytes
  pub is_simple : Bool
  -- `is_nothrow_move_constructible` of both types
  pub is_nothrow_move : Bool
  pub Double : Type 0
  pub double : ℕ → Double
  pub div : Double → Double → Double
  pub lt : Double → Double → Bool
  pub slot_per_bucket : ℕ

-- What the code relies on in `double`: 0 is not below 0, 1 is not below 0, and no quotient of
-- counts is below 0.
pub record DoubleLaws ⦃P : Params⦄ : Type 0 where
  pub zero_zero : P.lt (P.double 0) (P.double 0) ≡ false
  pub one_zero : P.lt (P.double 1) (P.double 0) ≡ false
  pub quotient_zero :
      (a b c : ℕ) → P.lt (P.div (P.div (P.double a) (P.double b)) (P.double c)) (P.double 0) ≡ false

-- What a standard container asks of `Hash` and `Pred`, and that a bucket has a slot.
pub record Laws ⦃P : Params⦄ : Type 0 where
  pub hash-lt : (k : P.Key) → P.hash k < 2 ^ 64
  pub eq_refl : (k : P.Key) → P.key_eq k k ≡ true
  pub eq_symm : (k l : P.Key) → P.key_eq k l ≡ P.key_eq l k
  pub eq_trans : (k l m : P.Key) → P.key_eq k l ≡ true → P.key_eq l m ≡ true → P.key_eq k m ≡ true
  pub hash-eq : (k l : P.Key) → P.key_eq k l ≡ true → P.hash k ≡ P.hash l
  pub slots_pos : 0 < P.slot_per_bucket
