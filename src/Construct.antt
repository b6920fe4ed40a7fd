-- ===== src/Construct.antt =====
-- `reserve_calc`, the constructor and the two setters of libcuckoo/cuckoohash_map.hh.
pub mod Reserve
pub mod Fresh
use libcuckoo_cxx.Base.{
  ℕ, zero, suc, ◌+◌, ◌-◌, ◌/◌, ◌^◌, Bool, true, false, not, ◌&&◌, Option, none, some, replicate,
  ltb, ◌==◌, if◌then◌else◌,
}
use libcuckoo_cxx.Bucket.{fresh_slot}
use libcuckoo_cxx.Config.{u64, num_locks, no_maximum_hashpower}
use libcuckoo_cxx.Hash.{hashsize}
use libcuckoo_cxx.Params.{Params}
use libcuckoo_cxx.Table.{Table, Exception, invalid_argument, Result, returned, thrown}

-- The loop of `reserve_calc` over `blog2`; 64 rounds are more than a shift may have.
unfoldable pub reserve_loop : ℕ → ℕ → ℕ → Option ℕ
reserve_loop zero blog2 buckets = none
reserve_loop (suc fuel) blog2 buckets =
    let rest = reserve_loop fuel (suc blog2) buckets in
    if ltb (hashsize blog2) buckets then rest else some blog2

module _ ⦃P : Params⦄ where
  open P use {Double, slot_per_bucket}

  -- `none` stands for a shift by 64, which C++ leaves undefined.
  unfoldable pub reserve_calc : ℕ → Option ℕ
  reserve_calc n = reserve_loop 63 1 (u64 (n + slot_per_bucket + 2 ^ 64 - 1) / slot_per_bucket)

  unfoldable pub set_minimum_load_factor : Table → Double → Result Table
  set_minimum_load_factor t mlf =
      if P.lt mlf (P.double 0)
      then thrown invalid_argument
      else if P.lt (P.double 1) mlf
      then thrown invalid_argument
      else returned (record t { minimum_load_factor = mlf })

  unfoldable pub set_maximum_hashpower : Table → ℕ → Table
  set_maximum_hashpower t mhp = record t { maximum_hashpower = mhp }

  -- The members before the body of the constructor: no buckets, no locks.
  abbrev pub blank : Double → Table
  blank mlf = record {
    hashpower = 0;
    buckets = replicate 0 (replicate slot_per_bucket fresh_slot);
    elems = replicate 0 0;
    minimum_load_factor = mlf;
    maximum_hashpower = no_maximum_hashpower;
  }

  -- `set_hashpower`, `buckets_.resize` and `locks_.allocate`, which with the default granularity
  -- allocates its one segment.
  unfoldable pub allocate_buckets : Table → ℕ → Table
  allocate_buckets t hp = record t {
    hashpower = hp;
    buckets = replicate (hashsize hp) (replicate slot_per_bucket fresh_slot);
    elems = replicate num_locks 0;
  }

  -- The constructor `cuckoohash_map(n, mlf, mhp)`.
  unfoldable pub new : ℕ → Double → ℕ → Option (Result Table)
  new n mlf mhp = elim (set_minimum_load_factor (blank mlf) mlf) [
    | thrown e ↦ some (thrown e)
    | returned t ↦ elim (reserve_calc n) [
      | none ↦ none
      | some hp ↦ some (
          if not (mhp == no_maximum_hashpower) && ltb mhp hp
          then thrown invalid_argument
          else returned (allocate_buckets (set_maximum_hashpower t mhp) hp))
    ]
  ]
