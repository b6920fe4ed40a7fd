-- ===== src/Construct/Reserve.antt =====
-- `reserve_calc` of libcuckoo/cuckoohash_map.hh returns the smallest hashpower that is large enough.
use native.Mathlib.Nat.{div-add-mod', mod-lt, mul-le-mul_right, div-mul-le_self, div-le_self}
use libcuckoo_cxx.Base.{
  ℕ, zero, suc, ◌+◌, ◌-◌, ◌*◌, ◌/◌, ◌^◌, ◌≤◌, ◌<◌, ◌≡◌, refl, ap, inl, inr, Option, some, arith,
  ltb, ltb→lt, ltb-false, Bool-cases, subst, ℕ_discrete,
}
use libcuckoo_cxx.Config.{u64}
use libcuckoo_cxx.Construct.{reserve_loop, reserve_calc}
use libcuckoo_cxx.Hash.Alternate.{hashsize_lem}
use libcuckoo_cxx.Hash.{hashsize}
use libcuckoo_cxx.Params.{Params}

-- The loop stops at the first power of two from `blog2` on that is not below `buckets`.
record Stops (blog2 buckets : ℕ) (o : Option ℕ) : Type 0 where
  at : ℕ
  result : o ≡ some at
  from : blog2 ≤ at
  small : at < 64
  large_enough : buckets ≤ hashsize at
  least : (j : ℕ) → blog2 ≤ j → j < at → hashsize j < buckets

reserve_loop-Stops :
    (fuel blog2 buckets : ℕ)
    → fuel + blog2 ≡ 64
    → 0 < blog2
    → buckets ≤ 2 ^ 63
    → ((blog2 ≡ 64) → 2 ^ 63 < buckets)
    → Stops blog2 buckets (reserve_loop fuel blog2 buckets)
unfolding reserve_loop
reserve_loop-Stops zero blog2 buckets e pos lim prev = absurd (omega (arith, prev (omega arith)))
reserve_loop-Stops (suc fuel) blog2 buckets e pos lim prev =
    elim (Bool-cases (ltb (hashsize blog2) buckets)) [
      | inr stop ↦ rw stop (record {
        at = blog2;
        result = refl;
        from = omega arith;
        small = omega arith;
        large_enough = ltb-false _ _ stop;
        least = λ j a b. absurd (omega arith);
      })
      | inl more ↦
          let below = ltb→lt _ _ more in
          let s = reserve_loop-Stops fuel (suc blog2) buckets (omega arith) (omega arith) lim (λ e.
            let e63 : blog2 ≡ 63 = omega (arith, e) in
            omega (arith, below, ap hashsize e63, hashsize_lem 63 (omega arith))) in
          rw more (record {
            at = s.at;
            result = s.result;
            from = omega (arith, s.from);
            small = s.small;
            large_enough = s.large_enough;
            least = λ j a b. elim (ℕ_discrete blog2 j) [
              | yes same ↦ subst (λ (i : ℕ). hashsize i < buckets) same below
              | no other ↦ s.least j (omega (arith, other)) b
            ];
          })
    ]

reserve_loop-lt :
    (fuel blog2 buckets hp : ℕ)
    → fuel + blog2 ≤ 64
    → reserve_loop fuel blog2 buckets ≡ some hp
    → hp < 64
unfolding reserve_loop
reserve_loop-lt zero blog2 buckets hp le e = absurd (cc e)
reserve_loop-lt (suc fuel) blog2 buckets hp le e =
    elim (Bool-cases (ltb (hashsize blog2) buckets)) [
      | inl more ↦
          reserve_loop-lt fuel (suc blog2) buckets hp (omega (arith, le)) (ground (arith, e, more))
      | inr stop ↦ let same : blog2 ≡ hp = ground (arith, e, stop) in omega (arith, same, le)
    ]

-- The quotient rounded up: enough, and no fewer would do.
rounded_up : (n d h : ℕ) → 0 < d → (n + d - 1) / d ≤ h → n ≤ h * d
rounded_up n d h pos le =
    omega (arith, div-add-mod' (n + d - 1) d, mod-lt (n + d - 1) pos, mul-le-mul_right d le)

rounded_up_least : (n d h : ℕ) → 0 < d → h < (n + d - 1) / d → h * d < n
rounded_up_least n d h pos lt =
    omega (arith, div-mul-le_self (n + d - 1) d, mul-le-mul_right d (suc_le lt))
  where
    suc_le : {a b : ℕ} → a < b → a + 1 ≤ b
    suc_le h = omega arith

module _ ⦃P : Params⦄ where
  open P use {slot_per_bucket}

  -- What `reserve_calc` promises for `n` elements.
  pub record Reserves (n : ℕ) (o : Option ℕ) : Type 0 where
    pub hp : ℕ
    pub result : o ≡ some hp
    pub positive : 1 ≤ hp
    pub small : hp < 64
    pub holds : n ≤ hashsize hp * slot_per_bucket
    pub least : (j : ℕ) → 1 ≤ j → j < hp → hashsize j * slot_per_bucket < n

  -- For `n + slot_per_bucket` up to 2^63, `reserve_calc n` returns a hashpower from 1 to 63 whose
  -- table has room for `n` pairs, and no smaller positive hashpower has.
  pub reserve_calc-Reserves :
      (n : ℕ) → 0 < slot_per_bucket → n + slot_per_bucket ≤ 2 ^ 63 → Reserves n (reserve_calc n)
  unfolding reserve_calc
  reserve_calc-Reserves n pos lim =
      let word : u64 (n + slot_per_bucket + 2 ^ 64 - 1) ≡ n + slot_per_bucket - 1 = omega arith in
      let few : (n + slot_per_bucket - 1) / slot_per_bucket ≤ 2 ^ 63 =
        omega (arith, div-le_self (n + slot_per_bucket - 1) slot_per_bucket) in
      let s =
        reserve_loop-Stops 63 1 ((n + slot_per_bucket - 1) / slot_per_bucket) (omega arith)
          (omega arith) few (λ e. absurd (omega (arith, e))) in
      rw word (record {
        hp = s.at;
        result = s.result;
        positive = s.from;
        small = s.small;
        holds = rounded_up n slot_per_bucket (hashsize s.at) pos s.large_enough;
        least = λ j a b. rounded_up_least n slot_per_bucket (hashsize j) pos (s.least j a b);
      })

  pub reserve_calc-lt : (n hp : ℕ) → reserve_calc n ≡ some hp → hp < 64
  unfolding reserve_calc
  reserve_calc-lt n hp e = reserve_loop-lt 63 1 _ hp (omega arith) e
