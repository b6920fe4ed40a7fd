-- ===== src/Hash/Alternate.antt =====
-- The two buckets of a key: their range, and that `alt_index` leads from each to the other.
use native.Mathlib.Nat.{pow-le-pow_right, mod-eq_of_lt, one-le-pow}
use libcuckoo_cxx.Base.{
  ℕ, ◌+◌, ◌-◌, ◌*◌, ◌%◌, ◌^◌, ◌≤◌, ◌<◌, ◌≡◌, ◌≢◌, refl, ap, ◌∙◌, bit_xor, bit_and, arith,
  holds_up_to, holds_at, true, not, ◌==◌,
}
use libcuckoo_cxx.Base.Bits.{and_mask, xor_mod, xor_cancel, xor_fixed, mod_mod}
use libcuckoo_cxx.Config.{u64}
use libcuckoo_cxx.Hash.{partial_key, hashsize, hashmask, index_hash, alt_index, murmur_constant}

two_pow-le : (hp : ℕ) → hp < 64 → 2 ^ hp ≤ 2 ^ 63
two_pow-le hp h = pow-le-pow_right {n = 2} (omega arith) {i = hp} {j = 63} (omega arith)

pub hashsize_lem : (hp : ℕ) → hp < 64 → hashsize hp ≡ 2 ^ hp
unfolding hashsize
hashsize_lem hp h = mod-eq_of_lt (omega (arith, two_pow-le hp h))

pub hashsize_pos : (hp : ℕ) → hp < 64 → 0 < hashsize hp
hashsize_pos hp h = omega (arith, hashsize_lem hp h, one-le-pow hp 2)

hashmask_lem : (hp : ℕ) → hp < 64 → hashmask hp ≡ 2 ^ hp - 1
unfolding hashmask
hashmask_lem hp h = omega (arith, two_pow-le hp h, one-le-pow hp 2)

-- The word that `alt_index` mixes into an index.
abbrev pub tag_word : ℕ → ℕ
tag_word partial = u64 ((partial + 1) * murmur_constant)

pub index_hash_lem : (hp h : ℕ) → hp < 64 → index_hash hp h ≡ h % 2 ^ hp
unfolding index_hash
index_hash_lem hp h lt = ap (bit_and h) (hashmask_lem hp lt) ∙ and_mask hp h

pub alt_index_lem : (hp p i : ℕ) → hp < 64 → alt_index hp p i ≡ bit_xor i (tag_word p) % 2 ^ hp
unfolding alt_index
alt_index_lem hp p i lt = ap (bit_and (bit_xor i (tag_word p))) (hashmask_lem hp lt) ∙ and_mask hp _

pub index_hash-lt : (hp h : ℕ) → hp < 64 → index_hash hp h < hashsize hp
index_hash-lt hp h lt = omega (arith, index_hash_lem hp h lt, hashsize_lem hp lt, one-le-pow hp 2)

pub alt_index-lt : (hp p i : ℕ) → hp < 64 → alt_index hp p i < hashsize hp
alt_index-lt hp p i lt = omega (arith, alt_index_lem hp p i lt, hashsize_lem hp lt, one-le-pow hp 2)

-- For hashpowers below 64 and a bucket in range, `alt_index` applied twice under the same partial
-- key gives the bucket back.
pub alt_index_involutive :
    (hp p i : ℕ) → hp < 64 → i < hashsize hp → alt_index hp p (alt_index hp p i) ≡ i
alt_index_involutive hp p i lt h =
    let m = tag_word p in
    ground (
      arith,
      hashsize_lem hp lt,
      alt_index_lem hp p i lt,
      alt_index_lem hp p (alt_index hp p i) lt,
      xor_mod hp (bit_xor i m % 2 ^ hp) m,
      xor_mod hp (bit_xor i m) m,
      mod_mod hp hp (bit_xor i m) (omega arith),
      xor_cancel i m,
      mod-eq_of_lt {n = i} {m = 2 ^ hp},
    )

byte_xor-lt : (a b : ℕ) → a < 256 → b < 256 → bit_xor a b < 256
byte_xor-lt a b p q =
    ground
      (arith, xor_mod 8 a b, mod-eq_of_lt {n = a} {m = 256} p, mod-eq_of_lt {n = b} {m = 256} q)

pub partial_key-lt : (h : ℕ) → partial_key h < 256
unfolding partial_key
partial_key-lt h = byte_xor-lt _ _ (omega arith) (omega arith)

tags_nonzero : holds_up_to (λ p. not (tag_word p % 512 == 0)) 255 ≡ true
unfolding holds_up_to
tags_nonzero = refl

tag_word_nonzero : (p : ℕ) → p < 256 → tag_word p % 512 ≢ 0
tag_word_nonzero p h =
    ground (arith, holds_at (λ q. not (tag_word q % 512 == 0)) 255 tags_nonzero p (omega arith))

-- For hashpowers from 9 to 63, a partial key of one byte and a bucket in range, `alt_index` gives
-- a different bucket.
pub alt_index-ne :
    (hp p i : ℕ) → 9 ≤ hp → hp < 64 → p < 256 → i < hashsize hp → alt_index hp p i ≢ i
alt_index-ne hp p i lo lt small h fixed = tag_word_nonzero p small (
    xor_fixed (i % 2 ^ 9) (tag_word p % 2 ^ 9) (
      ground (
        arith,
        alt_index_lem hp p i lt,
        mod_mod 9 hp (bit_xor i (tag_word p)) lo,
        xor_mod 9 i (tag_word p),
      )))
