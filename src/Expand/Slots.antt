-- ===== src/Expand/Slots.antt =====
-- The innermost loop of `move_buckets`: one bucket is split between itself and a new one.
use libcuckoo_cxx.Base.{
  ℕ, zero, suc, ◌+◌, ◌%◌, ◌^◌, ◌<◌, ◌≤◌, ◌≡◌, ◌≢◌, sym, ap, ◌∙◌, subst, ◌⊎◌, inl, inr, List, true,
  false, Option, none, some, arith, length, Bool-cases, Option-cases, ℕ_discrete,
}
use libcuckoo_cxx.Bucket.Laws.{is_some}
use libcuckoo_cxx.Bucket.{Bucket, Slot}
use libcuckoo_cxx.Config.{num_locks}
use libcuckoo_cxx.Expand.Where.{hashsize-suc, moved-IsHome, left-IsHome}
use libcuckoo_cxx.Expand.{moves_up, move_up, move_slot, move_slots}
use libcuckoo_cxx.Hash.{hashsize, lock_ind}
use libcuckoo_cxx.Params.{Params, Laws}
use libcuckoo_cxx.Table.Counts.{sum, used, sum-inc_dec, lock_ind-lt, length-inc, length-dec}
use libcuckoo_cxx.Table.Move.{
  MovesIn, move_to_bucket-Moves, move_to_bucket-source, move_to_bucket_other,
}
use libcuckoo_cxx.Table.Valid.{cell, PlacedBy, IsHome, Reads}
use libcuckoo_cxx.Table.{Table, bucket, hashed_key, move_to_bucket, nonatomic_inc, nonatomic_dec}

module _ ⦃P : Params⦄ where
  open P use {Key, Mapped, slot_per_bucket}

  -- While the buckets of `done` have been split: a key in the lower half is at home in the smaller
  -- table, and a key in a bucket that was split or is new is at home in the larger one.
  abbrev pub At : ℕ → (ℕ → Type 0) → Key → ℕ → Type 0
  At hp done k i =
      (i < hashsize hp → IsHome hp k i × (done i → IsHome (suc hp) k i))
      × (hashsize hp ≤ i → IsHome (suc hp) k i)

  abbrev pub Nothing : List Bucket → ℕ → ℕ → Type 0
  Nothing bs i u = (cell bs i u).storage ≡ none

  -- What all states on the way have in common, compared with the table at the start.
  pub record Going (hp : ℕ) (done : ℕ → Type 0) (t0 t : Table) : Type 0 where
    pub placed : PlacedBy (suc hp) (hashsize (suc hp)) (At hp done) t.buckets
    pub reads : (q : Key) (o : Option Mapped) → Reads t0.buckets q o → Reads t.buckets q o
    pub counts : used t.buckets ≡ used t0.buckets
    pub locks : length t.elems ≡ num_locks
    pub counted : sum t.elems % 2 ^ 64 ≡ used t.buckets % 2 ^ 64
    pub kept : t ≡ record t0 { buckets = t.buckets; elems = t.elems }

  -- Within the bucket `b`: `s` slots have been seen, `n` of them moved.
  pub record Half (hp : ℕ) (done : ℕ → Type 0) (t0 : Table) (b s : ℕ) (st : Table × ℕ)
      : Type 0 where
    pub going : Going hp done t0 st.0
    pub spare :
        (i u : ℕ)
        → i < hashsize hp
        → (done i → ⊥)
        → i ≢ b
        → Nothing st.0.buckets (i + hashsize hp) u
    pub room : (u : ℕ) → st.1 ≤ u → Nothing st.0.buckets (b + hashsize hp) u
    pub passed :
        (u : ℕ) (k : Key) (v : Mapped)
        → u < s
        → (cell st.0.buckets b u).storage ≡ some (k, v)
        → IsHome (suc hp) k b
    pub behind : st.1 ≤ s

  none_of_free : (x : Slot) → x.occupied ≡ is_some x.storage → x.occupied ≡ false → x.storage ≡ none
  none_of_free x live free = elim (Option-cases x.storage) [
    | inl e ↦ e
    | inr (kv, e) ↦ absurd (ground (arith, live, free, e))
  ]

  storage_kept : {x y : Slot} {o : Option (Key × Mapped)} → x ≡ y → y.storage ≡ o → x.storage ≡ o
  storage_kept e h = cc (e, h)

  module _ (laws : Laws) (hp : ℕ) (lt : suc hp < 64) (done : ℕ → Type 0) (t0 : Table) (b : ℕ)
      (low : b < hashsize hp) where
    -- A slot that stays.
    Half-stay :
        (s : ℕ) (st : Table × ℕ)
        → Half hp done t0 b s st
        → ((k : Key) (v : Mapped)
            → (cell st.0.buckets b s).storage ≡ some (k, v)
            → IsHome (suc hp) k b)
        → Half hp done t0 b (suc s) st
    Half-stay s st h here = record {
      going = h.going;
      spare = h.spare;
      room = h.room;
      passed = λ u k v le e. elim (ℕ_discrete u s) [
        | yes same ↦ here k v (rw same at e)
        | no other ↦ h.passed u k v (omega (arith, le, other)) e
      ];
      behind = omega (arith, h.behind);
    }

    module _ (s : ℕ) (st : Table × ℕ) (h : Half hp done t0 b s st) (bound : s < slot_per_bucket)
        (k : Key) (v : Mapped) (stored : (cell st.0.buckets b s).storage ≡ some (k, v))
        (up : moves_up hp (suc hp) b (hashed_key k) ≡ true) where
      abbrev target : ℕ
      target = b + hashsize hp

      target-lt : target < length st.0.buckets
      target-lt = omega (arith, h.going.placed.width, hashsize-suc hp lt)

      slot-lt : st.1 < length (bucket st.0.buckets target)
      slot-lt = omega (arith, h.behind, h.going.placed.rows target target-lt)

      target-At : At hp done k target
      target-At = (λ less. absurd (omega (arith, less)), λ le. moved-IsHome hp lt k b up)

      empty : Nothing st.0.buckets target st.1
      empty = h.room st.1 (omega arith)

      abbrev after : List Bucket
      after = move_to_bucket st.0.buckets b s target st.1

      moved : MovesIn (suc hp) (hashsize (suc hp)) (At hp done) st.0.buckets after
      moved =
          move_to_bucket-Moves laws st.0.buckets h.going.placed b s target st.1 k v stored empty
            target-lt slot-lt target-At

      after_other :
          (c d : ℕ)
          → (b ≢ c) ⊎ (s ≢ d)
          → (target ≢ c) ⊎ (st.1 ≢ d)
          → cell after c d ≡ cell st.0.buckets c d
      after_other =
          move_to_bucket_other laws st.0.buckets h.going.placed b s target st.1 k v stored empty
            target-lt slot-lt target-At

      vacated : Nothing after b s
      vacated = none_of_free (cell after b s) (moved.placed.live b s) (
          move_to_bucket-source laws st.0.buckets h.going.placed b s target st.1 k v stored empty
            target-lt slot-lt target-At)

      up_counted : sum (move_up hp b s st.1 st.0).elems % 2 ^ 64 ≡ used after % 2 ^ 64
      unfolding move_up
      up_counted = omega (
        arith,
        sum-inc_dec st.0.elems (lock_ind b) (lock_ind target)
            (omega (arith, h.going.locks, lock_ind-lt b))
            (omega (arith, h.going.locks, lock_ind-lt target)),
        h.going.counted,
        moved.counts,
      )

      up-Going : Going hp done t0 (move_up hp b s st.1 st.0)
      unfolding move_up
      up-Going = record {
        placed = moved.placed;
        reads = λ q o r. moved.reads q o (h.going.reads q o r);
        counts = moved.counts ∙ h.going.counts;
        locks = length-inc _ _ ∙ length-dec _ _ ∙ h.going.locks;
        counted = up_counted;
        kept =
            ap
              (λ (t : Table). record t {
                buckets = after;
                elems = nonatomic_inc (nonatomic_dec st.0.elems (lock_ind b)) (lock_ind target);
              })
              h.going.kept;
      }

      Half-move : Half hp done t0 b (suc s) (move_up hp b s st.1 st.0, st.1 + 1)
      unfolding move_up
      Half-move = record {
        going = up-Going;
        spare = λ i u less not_done ne.
            storage_kept
              (after_other (i + hashsize hp) u (inl (λ e. omega (arith, e, low)))
                (inl (λ e. ne (omega (arith, e)))))
              (h.spare i u less not_done ne);
        room = λ u le.
            storage_kept
              (after_other target u (inl (λ e. omega (arith, e, low)))
                (inr (λ e. omega (arith, e, le))))
              (h.room u (omega (arith, le)));
        passed = λ u l w le e. elim (ℕ_discrete s u) [
          | yes here ↦ absurd (cc (e, vacated, here))
          | no other ↦ h.passed u l w (omega (arith, le, other)) (
              storage_kept (sym (after_other b u (inr other) (inl (λ e. omega (arith, e, low))))) e)
        ];
        behind = omega (arith, h.behind);
      }

    stay_at :
        (s : ℕ) (t : Table) (n : ℕ)
        → Half hp done t0 b s (t, n)
        → (k : Key) (v : Mapped) (l : Key) (w : Mapped) → (cell t.buckets b s).storage ≡ some (k, v)
        → (cell t.buckets b s).storage ≡ some (l, w)
        → moves_up hp (suc hp) b (hashed_key k) ≡ false
        → IsHome (suc hp) l b
    stay_at s t n h k v l w e f stays =
        left-IsHome hp lt l b (((h.going.placed.homes b s l w f).1.0 low).0)
          (ap (λ (x : Key). moves_up hp (suc hp) b (hashed_key x)) (ground (arith, e, f)) ∙ stays)

    pub move_slot-Half :
        (s : ℕ) (st : Table × ℕ)
        → s < slot_per_bucket
        → Half hp done t0 b s st
        → Half hp done t0 b (suc s) (move_slot hp (suc hp) b s st)
    unfolding move_slot
    move_slot-Half s (t, n) bound h = elim (Bool-cases (cell t.buckets b s).occupied) [
      | inl busy ↦ elim (Option-cases (cell t.buckets b s).storage) [
        | inl e ↦ absurd (ground (arith, h.going.placed.live b s, busy, e))
        | inr ((k, v), e) ↦ elim (Bool-cases (moves_up hp (suc hp) b (hashed_key k))) [
          | inl up ↦ rw (move_slot, busy, e, up) (Half-move s (t, n) h bound k v e up)
          | inr stays ↦
              rw (move_slot, busy, e, stays)
                (Half-stay s (t, n) h (λ l w f. stay_at s t n h k v l w e f stays))
        ]
      ]
      | inr free ↦
          rw (move_slot, free)
            (Half-stay s (t, n) h
              (λ k v e. absurd (ground (arith, h.going.placed.live b s, free, e))))
    ]

    pub move_slots-Half :
        (left s : ℕ) (st : Table × ℕ)
        → s + left ≡ slot_per_bucket
        → Half hp done t0 b s st
        → Half hp done t0 b slot_per_bucket (move_slots hp (suc hp) b left s st)
    unfolding move_slots
    move_slots-Half zero s st e h = subst (λ n. Half hp done t0 b n st) (omega arith) h
    move_slots-Half (suc left) s st e h =
        move_slots-Half left (suc s) (move_slot hp (suc hp) b s st) (omega arith)
          (move_slot-Half s st (omega arith) h)
