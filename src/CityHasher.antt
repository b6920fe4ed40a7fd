-- ===== src/CityHasher.antt =====
-- libcuckoo/city_hasher.hh. The CityHash library, and how an object or a string lies in memory, are
-- not code of the repository and are parameters.
use native.Mathlib.Nat.{mod-le}
use libcuckoo_cxx.Base.{
  ℕ, ◌*◌, ◌%◌, ◌^◌, ◌<◌, ◌≡◌, ap, inl, inr, List, Bool, true, arith, ltb, if◌then◌else◌, Bool-cases,
}
use libcuckoo_cxx.Params.{Params, Laws}

-- `CityHash32` and `CityHash64` of some bytes, and `sizeof(size_t)`.
pub record City : Type 0 where
  pub city_hash_32 : List ℕ → ℕ
  pub city_hash_64 : List ℕ → ℕ
  pub size_t_size : ℕ

-- The width of the two results.
pub record CityLaws (C : City) : Type 0 where
  pub city_hash_32-lt : (bytes : List ℕ) → C.city_hash_32 bytes < 2 ^ 32
  pub city_hash_64-lt : (bytes : List ℕ) → C.city_hash_64 bytes < 2 ^ 64

-- `operator()` of both classes, on the bytes of the object or of the string.
unfoldable pub city_hasher : City → List ℕ → ℕ
city_hasher C bytes =
    if ltb C.size_t_size 8
    then C.city_hash_32 bytes
    else C.city_hash_64 bytes % 2 ^ (8 * C.size_t_size)

-- The map with this hash.
abbrev pub with_city : (P : Params) → City → (P.Key → List ℕ) → Params
with_city P C bytes = record P { hash = λ k. city_hasher C (bytes k) }

city_hasher-lt : (C : City) → CityLaws C → (bytes : List ℕ) → city_hasher C bytes < 2 ^ 64
unfolding city_hasher
city_hasher-lt C laws bytes = elim (Bool-cases (ltb C.size_t_size 8)) [
  | inl e ↦ omega (
    arith,
    ap
        (λ (b : Bool).
          if b then C.city_hash_32 bytes else C.city_hash_64 bytes % 2 ^ (8 * C.size_t_size))
        e,
    laws.city_hash_32-lt bytes,
  )
  | inr e ↦ omega (
    arith,
    ap
        (λ (b : Bool).
          if b then C.city_hash_32 bytes else C.city_hash_64 bytes % 2 ^ (8 * C.size_t_size))
        e,
    laws.city_hash_64-lt bytes,
    mod-le (C.city_hash_64 bytes) (2 ^ (8 * C.size_t_size)),
  )
]

-- Where equal keys lie in memory as equal bytes, the map may use this hash.
pub with_city-Laws :
    (P : Params) (C : City) (bytes : P.Key → List ℕ)
    → Laws ⦃P = P⦄
    → CityLaws C
    → ((k l : P.Key) → P.key_eq k l ≡ true → bytes k ≡ bytes l)
    → Laws ⦃P = with_city P C bytes⦄
with_city-Laws P C bytes laws city same = record {
  hash-lt = λ k. city_hasher-lt C city (bytes k);
  eq_refl = laws.eq_refl;
  eq_symm = laws.eq_symm;
  eq_trans = laws.eq_trans;
  hash-eq = λ k l e. ap (city_hasher C) (same k l e);
  slots_pos = laws.slots_pos;
}
