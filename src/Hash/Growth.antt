-- ===== src/Hash/Growth.antt =====
-- Adding one to the hashpower adds one bit at the top of both buckets of a key, and the bits below
-- stay: what `cuckoo_fast_double` relies on.
use native.Mathlib.Nat.{pow-suc, one-le-pow, mod-eq_of_lt, mod-eq-sub-mod}
use libcuckoo_cxx.Base.{
  ℕ, suc, ◌+◌, ◌-◌, ◌%◌, ◌^◌, ◌<◌, ◌≡◌, ◌⊎◌, inl, inr, ◌∙◌, sym, bit_xor, arith, dec_lt,
}
use libcuckoo_cxx.Base.Bits.{xor_mod, mod_mod}
use libcuckoo_cxx.Hash.Alternate.{hashsize_lem, index_hash_lem, alt_index_lem, tag_word}
use libcuckoo_cxx.Hash.{hashsize, index_hash, alt_index}

-- `new` is the bucket `old` of a table of `2 ^ hp` buckets, or the one `2 ^ hp` later.
abbrev pub Grows : ℕ → ℕ → ℕ → Type 0
Grows hp old new = (new ≡ old) ⊎ (new ≡ old + hashsize hp)

Grows-of_mod : (hp old new : ℕ) → hp < 64 → new < 2 ^ suc hp → new % 2 ^ hp ≡ old → Grows hp old new
Grows-of_mod hp old new lt small e = elim (dec_lt new (2 ^ hp)) [
  | yes low ↦ inl (sym (mod-eq_of_lt low) ∙ e)
  | no high ↦ inr (
      omega (
        arith,
        hashsize_lem hp lt,
        pow-suc 2 hp,
        e,
        mod-eq-sub-mod {n = new} {m = 2 ^ hp} (omega arith),
        mod-eq_of_lt {n = new - 2 ^ hp} {m = 2 ^ hp} (omega (arith, pow-suc 2 hp)),
      ))
]

-- When the hashpower grows by one, below 64, the first bucket of a hash stays or moves up by the
-- old number of buckets.
pub index_hash-Grows : (hp h : ℕ) → suc hp < 64 → Grows hp (index_hash hp h) (index_hash (suc hp) h)
index_hash-Grows hp h lt =
    Grows-of_mod hp _ _ (omega arith)
      (omega (arith, index_hash_lem (suc hp) h lt, one-le-pow (suc hp) 2))
      (ground (
        arith,
        index_hash_lem (suc hp) h lt,
        index_hash_lem hp h (omega arith),
        mod_mod hp (suc hp) h (omega arith),
      ))

-- When the hashpower grows by one, below 64, the second bucket of a hash under any partial key
-- stays or moves up by the old number of buckets.
pub alt_index-Grows :
    (hp p h : ℕ)
    → suc hp < 64
    → Grows hp (alt_index hp p (index_hash hp h)) (alt_index (suc hp) p (index_hash (suc hp) h))
alt_index-Grows hp p h lt =
    let m = tag_word p in
    let low : hp < 64 = omega arith in
    Grows-of_mod hp _ _ low
      (omega (arith, alt_index_lem (suc hp) p (index_hash (suc hp) h) lt, one-le-pow (suc hp) 2))
      (ground (
        arith,
        index_hash_lem (suc hp) h lt,
        index_hash_lem hp h low,
        alt_index_lem (suc hp) p (index_hash (suc hp) h) lt,
        alt_index_lem hp p (index_hash hp h) low,
        mod_mod hp (suc hp) h (omega arith),
        mod_mod hp hp h (omega arith),
        mod_mod hp (suc hp) (bit_xor (index_hash (suc hp) h) m) (omega arith),
        xor_mod hp (index_hash (suc hp) h) m,
        xor_mod hp (index_hash hp h) m,
      ))
