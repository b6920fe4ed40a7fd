-- ===== src/Examples.antt =====
-- Parameters at which the theorems are used: natural numbers as keys and values, and a `double`
-- that is a fraction.
pub mod Tables
pub mod Paths
pub mod Insertions
pub mod Growing
pub mod Memory
pub mod Iterators
pub mod Threads
pub mod Schedules
pub mod Containers
use libcuckoo_cxx.Base.{
  ℕ, ◌+◌, ◌*◌, ◌%◌, ◌^◌, ◌<◌, ◌≡◌, refl, sym, ap, ◌∙◌, Bool, true, false, arith, ltb, ◌==◌, ==→eq,
  ==_refl,
}
use libcuckoo_cxx.Params.{Params, Laws, DoubleLaws}

instance abbrev pub numbers : Params
numbers = record {
  Key = ℕ;
  Mapped = ℕ;
  hash = λ k. k % 2 ^ 64;
  key_eq = λ k l. k == l;
  is_simple = true;
  is_nothrow_move = true;
  Double = ℕ × ℕ;
  double = λ n. (n, 1);
  div = λ a b. (a.0 * b.1, a.1 * b.0);
  lt = λ a b. ltb (a.0 * b.1) (b.0 * a.1);
  slot_per_bucket = 4;
}

pub numbers-Laws : Laws
numbers-Laws = record {
  hash-lt = λ k. omega arith;
  eq_refl = λ k. ==_refl k;
  eq_symm = λ k l. ground (arith, ==→eq k l, ==→eq l k);
  eq_trans = λ k l m h g. ground (arith, ==→eq k l h, ==→eq l m g);
  hash-eq = λ k l h. ap (λ (n : ℕ). n % 2 ^ 64) (==→eq k l h);
  slots_pos = omega arith;
}

pub numbers-DoubleLaws : DoubleLaws
numbers-DoubleLaws = record {
  zero_zero = refl;
  one_zero = refl;
  quotient_zero = λ a b c. ground arith;
}
