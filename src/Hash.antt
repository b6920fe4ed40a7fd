-- ===== src/Hash.antt =====
-- The hash arithmetic of libcuckoo/cuckoohash_map.hh: `partial_key`, `lock_ind`, `hashsize`,
-- `hashmask`, `index_hash` and `alt_index`, on 64-bit words.
pub mod Alternate
pub mod Growth
use libcuckoo_cxx.Base.{ℕ, ◌+◌, ◌-◌, ◌*◌, ◌/◌, ◌%◌, ◌^◌, bit_and, bit_xor}
use libcuckoo_cxx.Config.{u64, num_locks}

-- The 64 bits of the hash are folded in half three times.
unfoldable pub partial_key : ℕ → ℕ
partial_key hash =
    let hash_32bit = bit_xor (hash % 2 ^ 32) (hash / 2 ^ 32 % 2 ^ 32) in
    let hash_16bit = bit_xor (hash_32bit % 2 ^ 16) (hash_32bit / 2 ^ 16 % 2 ^ 16) in
    bit_xor (hash_16bit % 2 ^ 8) (hash_16bit / 2 ^ 8 % 2 ^ 8)

unfoldable pub lock_ind : ℕ → ℕ
lock_ind bucket_ind = bit_and bucket_ind (num_locks - 1)

-- `size_t(1) << hp`; C++ leaves a shift by 64 or more undefined.
unfoldable pub hashsize : ℕ → ℕ
hashsize hp = u64 (2 ^ hp)

-- `hashsize(hp) - 1`, where the modulus is added first since `-` stops at 0.
unfoldable pub hashmask : ℕ → ℕ
unfolding hashsize
hashmask hp = u64 (hashsize hp + 2 ^ 64 - 1)

unfoldable pub index_hash : ℕ → ℕ → ℕ
unfolding hashmask
index_hash hp hv = bit_and hv (hashmask hp)

abbrev pub murmur_constant : ℕ
murmur_constant = 0xc6a4a7935bd1e995

unfoldable pub alt_index : ℕ → ℕ → ℕ → ℕ
unfolding hashmask
alt_index hp partial index =
    let nonzero_tag = partial + 1 in
    bit_and (bit_xor index (u64 (nonzero_tag * murmur_constant))) (hashmask hp)
