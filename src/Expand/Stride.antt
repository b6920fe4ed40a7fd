-- ===== src/Expand/Stride.antt =====
-- The loops of `move_buckets` over the buckets of a lock and over the locks.
use libcuckoo_cxx.Base.{
  ℕ, zero, suc, ◌+◌, ◌%◌, ◌<◌, ◌≤◌, ◌≡◌, refl, sym, ap, ◌∙◌, subst, ◌⊎◌, inl, inr, some, arith,
  Bool-cases, ltb, ltb→lt, ltb-false, ℕ_discrete,
}
use libcuckoo_cxx.Base.Bits.{and_mask}
use libcuckoo_cxx.Config.{num_locks}
use libcuckoo_cxx.Expand.Slots.{Nothing, Going, Half, move_slots-Half}
use libcuckoo_cxx.Expand.{move_bucket, move_stride}
use libcuckoo_cxx.Hash.{hashsize, lock_ind}
use libcuckoo_cxx.Params.{Params, Laws}
use libcuckoo_cxx.Table.Valid.{cell, IsHome, in_range}
use libcuckoo_cxx.Table.{Table}

pub lock_ind-mod : (i : ℕ) → lock_ind i ≡ i % num_locks
unfolding lock_ind
lock_ind-mod i = and_mask 16 i

lock_ind_next : (i : ℕ) → (i + num_locks) % num_locks ≡ i % num_locks
lock_ind_next i = omega arith

module _ ⦃P : Params⦄ where
  open P use {Key, Mapped, slot_per_bucket}

  -- Between two buckets: those of `done` have been split, and the new buckets of the others are
  -- empty.
  pub record Split (hp : ℕ) (done : ℕ → Type 0) (t0 t : Table) : Type 0 where
    pub going : Going hp done t0 t
    pub spare : (i u : ℕ) → i < hashsize hp → (done i → ⊥) → Nothing t.buckets (i + hashsize hp) u

  module _ (laws : Laws) (hp : ℕ) (lt : suc hp < 64) (t0 : Table) where
    Split-Half :
        (done : ℕ → Type 0) (t : Table) (b : ℕ)
        → b < hashsize hp
        → (done b → ⊥)
        → Split hp done t0 t
        → Half hp done t0 b 0 (t, 0)
    Split-Half done t b low fresh h = record {
      going = h.going;
      spare = λ i u less not_done _. h.spare i u less not_done;
      room = λ u _. h.spare b u low fresh;
      passed = λ u k v less e. absurd (omega (arith, less));
      behind = omega arith;
    }

    split_homes :
        (done : ℕ → Type 0) (b : ℕ) (st : Table × ℕ)
        → b < hashsize hp
        → Half hp done t0 b slot_per_bucket st
        → (i s : ℕ) (k : Key) (v : Mapped) → (cell st.0.buckets i s).storage ≡ some (k, v)
        → i < hashsize hp
        → (done i) ⊎ (i ≡ b)
        → IsHome (suc hp) k i
    split_homes done b st low h i s k v e less (inl d) =
        ((h.going.placed.homes i s k v e).1.0 less).1 d
    split_homes done b st low h i s k v e less (inr same) =
        let e' : (cell st.0.buckets b s).storage ≡ some (k, v) =
          subst (λ (j : ℕ). (cell st.0.buckets j s).storage ≡ some (k, v)) same e in
        let (at_bucket, at_slot) = in_range st.0.buckets b s e' in
        subst (IsHome (suc hp) k) (sym same)
          (h.passed s k v (omega (arith, at_slot, h.going.placed.rows b at_bucket)) e')

    -- The same buckets, where another set of buckets is seen as split.
    Going-renamed :
        (done more : ℕ → Type 0) (t : Table)
        → Going hp done t0 t
        → ((i s : ℕ) (k : Key) (v : Mapped)
            → (cell t.buckets i s).storage ≡ some (k, v)
            → i < hashsize hp
            → more i
            → IsHome (suc hp) k i)
        → Going hp more t0 t
    Going-renamed done more t g homes = record {
      placed = record {
        small = g.placed.small;
        width = g.placed.width;
        rows = g.placed.rows;
        live = g.placed.live;
        homes = λ i s k v e.
            let (tagged, at) = g.placed.homes i s k v e in
            (tagged, ((λ less. ((at.0 less).0, homes i s k v e less)), at.1));
        unique = g.placed.unique;
      };
      reads = g.reads;
      counts = g.counts;
      locks = g.locks;
      counted = g.counted;
      kept = g.kept;
    }

    Half-Split :
        (done : ℕ → Type 0) (b : ℕ) (st : Table × ℕ)
        → b < hashsize hp
        → Half hp done t0 b slot_per_bucket st
        → Split hp (λ i. done i ⊎ (i ≡ b)) t0 st.0
    Half-Split done b st low h = record {
      going = Going-renamed done _ st.0 h.going (split_homes done b st low h);
      spare = λ i u less fresh. h.spare i u less (λ d. fresh (inl d)) (λ e. fresh (inr e));
    }

    move_bucket-Split :
        (done : ℕ → Type 0) (b : ℕ) (t : Table)
        → b < hashsize hp
        → (done b → ⊥)
        → Split hp done t0 t
        → Split hp (λ i. done i ⊎ (i ≡ b)) t0 (move_bucket hp (suc hp) b t)
    unfolding move_bucket
    move_bucket-Split done b t low fresh h = Half-Split done b _ low (
        move_slots-Half laws hp lt done t0 b low slot_per_bucket 0 (t, 0) (omega arith)
          (Split-Half done t b low fresh h))

    pub Split-congr :
        (done more : ℕ → Type 0) (t : Table)
        → Split hp done t0 t
        → ((i : ℕ) → i < hashsize hp → more i → done i)
        → ((i : ℕ) → i < hashsize hp → done i → more i)
        → Split hp more t0 t
    Split-congr done more t h back on = record {
      going =
          Going-renamed done more t h.going
            (λ i s k v e less m. ((h.going.placed.homes i s k v e).1.0 less).1 (back i less m));
      spare = λ i u less fresh. h.spare i u less (λ d. fresh (on i less d));
    }

    -- The buckets of the lock of `b` from `b` on.
    abbrev From : ℕ → ℕ → Type 0
    From b i = (b ≤ i) × (i % num_locks ≡ b % num_locks)

    first_or_later :
        (b i : ℕ) → From b i → (done : ℕ → Type 0) → (done i ⊎ (i ≡ b)) ⊎ From (b + num_locks) i
    first_or_later b i f done = elim (ℕ_discrete i b) [
      | yes same ↦ inl (inr same)
      | no other ↦ inr (omega (arith, f.0, f.1, other), f.1 ∙ sym (lock_ind_next b))
    ]

    pub move_stride-Split :
        (fuel : ℕ) (done : ℕ → Type 0) (b : ℕ) (t : Table)
        → hashsize hp ≤ b + fuel
        → ((i : ℕ) → From b i → done i → ⊥)
        → Split hp done t0 t
        → Split hp (λ i. done i ⊎ From b i) t0 (move_stride fuel hp (suc hp) b t)
    unfolding move_stride
    move_stride-Split zero done b t enough fresh h =
        Split-congr done _ t h
          (λ i less m. elim m [ inl d ↦ d | inr f ↦ absurd (omega (arith, f.0, less, enough)) ])
          (λ i less d. inl d)
    move_stride-Split (suc fuel) done b t enough fresh h = elim (Bool-cases (ltb b (hashsize hp))) [
      | inl e ↦
          let low = ltb→lt b (hashsize hp) e in
          rw e (
            Split-congr _ _ _
              (move_stride-Split fuel (λ i. done i ⊎ (i ≡ b)) (b + num_locks) _
                (omega (arith, enough))
                (λ i f d. elim d [
                  | inl old ↦ fresh i (omega (arith, f.0), f.1 ∙ lock_ind_next b) old
                  | inr same ↦ omega (arith, f.0, same)
                ])
                (move_bucket-Split done b t low (fresh b (omega arith, refl)) h))
              (λ i less m. elim m [ inl d ↦ inl (inl d) | inr f ↦ first_or_later b i f done ])
              (λ i less d. elim d [
                | inl (inl old) ↦ inl old
                | inl (inr same) ↦ inr (omega (arith, same), ap (λ (n : ℕ). n % num_locks) same)
                | inr f ↦ inr (omega (arith, f.0), f.1 ∙ lock_ind_next b)
              ]))
      | inr e ↦
          let high = ltb-false b (hashsize hp) e in
          rw e (
            Split-congr done _ t h
              (λ i less m. elim m [ inl d ↦ d | inr f ↦ absurd (omega (arith, f.0, less, high)) ])
              (λ i less d. inl d))
    ]
