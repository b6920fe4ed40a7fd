-- ===== src/Cuckoo/Inner.antt =====
-- The inner loop of `slot_search`: what it leaves in the queue, and what it finds.
use native.Mathlib.Nat.{
  pow-suc, pow-le-pow_right, mul-le-mul_right, mod-lt, mod-eq_of_lt, add-mod_right,
}
use libcuckoo_cxx.Base.{
  ℕ, zero, suc, ◌+◌, ◌-◌, ◌*◌, ◌%◌, ◌^◌, ◌<◌, ◌≤◌, ◌≡◌, refl, sym, ap, subst, ◌∙◌, ◌⊎◌, inl, inr,
  List, [], ◌∷◌, ◌++◌, true, false, arith, length, if◌then◌else◌, Bool-cases, ltb, ltb→lt,
  ltb-false, dec_lt,
}
use libcuckoo_cxx.Bucket.{Bucket, occupied}
use libcuckoo_cxx.Config.{u64, max_bfs_path_len}
use libcuckoo_cxx.Cuckoo.Trail.{
  Has, Has-append_left, Has-append_last, Levels, Levels-snoc, next, bucket_at, code, IsWalk,
  IsWalk-weaken, Trail, Trail-weaken, code-lt, IsFull, IsSimple, Visited, Trail-IsSimple,
}
use libcuckoo_cxx.Cuckoo.{Scan, found, continue, scan}
use libcuckoo_cxx.Params.{Params, Laws}
use libcuckoo_cxx.Queue.Fifo.{IsQueue, items, enqueue-items}
use libcuckoo_cxx.Queue.{BSlot, BQueue, enqueue, full}
use libcuckoo_cxx.Table.{bucket}

module _ ⦃P : Params⦄ where
  open P use {slot_per_bucket}

  -- The pathcodes of the deepest paths fit into a word.
  abbrev pub CodesFit : Type 0
  CodesFit = 2 * slot_per_bucket ^ 5 ≤ 2 ^ 64

  module _ (hp : ℕ) (bs : List Bucket) (i1 i2 : ℕ) where
    abbrev pub AllTrails : List BSlot → List BSlot → Type 0
    AllTrails seen [] = Unit
    AllTrails seen (x ∷ xs) = Trail hp bs i1 i2 seen x × AllTrails seen xs

    pub AllTrails-weaken :
        (y : BSlot) (seen xs : List BSlot) → AllTrails seen xs → AllTrails (y ∷ seen) xs
    AllTrails-weaken y seen [] h = tt
    AllTrails-weaken y seen (x ∷ xs) h =
        (Trail-weaken hp bs i1 i2 y seen x h.0, AllTrails-weaken y seen xs h.1)

    AllTrails-snoc :
        (seen xs : List BSlot) (y : BSlot)
        → AllTrails seen xs
        → Trail hp bs i1 i2 seen y
        → AllTrails seen (xs ++ y ∷ [])
    AllTrails-snoc seen [] y h t = (t, tt)
    AllTrails-snoc seen (x ∷ xs) y h t = (h.0, AllTrails-snoc seen xs y h.1 t)

    -- What the search returns: the walk, and the empty slot at its end.
    pub record Ends (y : BSlot) : Type 0 where
      pub root : ℕ
      pub slots : List ℕ
      pub slot : ℕ
      pub seen : List BSlot
      pub from_either : root < 2
      pub walk : IsWalk hp bs i1 i2 seen root slots
      pub depth : y.depth ≡ length slots
      pub pathcode : y.pathcode ≡ code root (slot ∷ slots)
      pub in_range : slot < slot_per_bucket
      pub vacant : occupied (bucket bs (bucket_at hp bs i1 i2 root slots)) slot ≡ false
      pub simple : IsSimple hp bs i1 i2 root slots

    wrapped :
        (p s : ℕ)
        → p < slot_per_bucket
        → s < p
        → (p + (s + slot_per_bucket - p)) % slot_per_bucket ≡ s
    wrapped p s h lt =
        let e : p + (s + slot_per_bucket - p) ≡ s + slot_per_bucket = omega arith in
        rw e (add-mod_right s slot_per_bucket ∙ mod-eq_of_lt (omega arith))

    straight : (p s : ℕ) → s < slot_per_bucket → p ≤ s → (p + (s - p)) % slot_per_bucket ≡ s
    straight p s lt le = let e : p + (s - p) ≡ s = omega arith in rw e (mod-eq_of_lt lt)

    module _ (laws : Laws) (fit : CodesFit) (seen : List BSlot) (x : BSlot)
        (t : Trail hp bs i1 i2 seen x) where
      pub slot_at : ℕ → ℕ
      slot_at i = (x.pathcode % slot_per_bucket + i) % slot_per_bucket

      slot_at-lt : (i : ℕ) → slot_at i < slot_per_bucket
      unfolding slot_at
      slot_at-lt i = mod-lt _ laws.slots_pos

      -- Every slot of the bucket has its turn.
      slot_at_onto :
          (s : ℕ) → s < slot_per_bucket → (i : ℕ) × (i < slot_per_bucket) × (slot_at i ≡ s)
      unfolding slot_at
      slot_at_onto s lt =
          let p = x.pathcode % slot_per_bucket in
          let below : p < slot_per_bucket = mod-lt x.pathcode laws.slots_pos in
          elim (dec_lt s p) [
            | yes less ↦ (s + slot_per_bucket - p, omega arith, wrapped p s below less)
            | no more ↦ (s - p, omega arith, straight p s lt (omega arith))
          ]

      code_fits :
          (s : ℕ)
          → s < slot_per_bucket
          → u64 (x.pathcode * slot_per_bucket + s) ≡ code t.root (s ∷ t.slots)
      unfolding code
      code_fits s lt =
          let below = code-lt hp bs i1 i2 seen t.root t.slots t.from_either t.walk in
          let deep =
            pow-le-pow_right {n = slot_per_bucket} laws.slots_pos {i = suc (length t.slots)} {j = 5}
              (omega (arith, t.short)) in
          ap (λ (n : ℕ). u64 (n * slot_per_bucket + s)) t.pathcode
          ∙ mod-eq_of_lt (
              omega (
                arith,
                deep,
                pow-suc slot_per_bucket (length t.slots),
                mul-le-mul_right slot_per_bucket below,
                fit,
              ))

      abbrev child : ℕ → BSlot
      child s = record {
        bucket = next hp bs i1 i2 x.bucket s;
        pathcode = u64 (x.pathcode * slot_per_bucket + s);
        depth = x.depth + 1;
      }

      abbrev grown : BQueue → BSlot → BQueue
      grown q y = if ltb x.depth (max_bfs_path_len - 1) then enqueue q y else q

      child-Trail :
          (s : ℕ)
          → s < slot_per_bucket
          → x.depth < 4
          → occupied (bucket bs x.bucket) s ≡ true
          → Trail hp bs i1 i2 (x ∷ seen) (child s)
      unfolding bucket_at
      child-Trail s lt shallow taken = record {
        root = t.root;
        slots = s ∷ t.slots;
        from_either = t.from_either;
        walk = (
          lt,
          rw (← t.ends) taken,
          inl (t.ends, t.depth),
          IsWalk-weaken hp bs i1 i2 x seen t.root t.slots t.walk,
        );
        short = omega (arith, t.depth);
        depth = omega (arith, t.depth);
        pathcode = code_fits s lt;
        ends = ap (λ (b : ℕ). next hp bs i1 i2 b s) t.ends;
      }

      -- The state of the inner loop before its round `i`.
      pub record Rounds (waiting : List BSlot) (i : ℕ) : Type 0 where
        pub trails : AllTrails (x ∷ seen) waiting
        pub level : Levels x.depth (suc x.depth) waiting
        pub closed :
            (b k s : ℕ)
            → Has seen b k
            → k < 4
            → s < slot_per_bucket
            → Has (x ∷ seen) (next hp bs i1 i2 b s) (suc k)
              ⊎ Has waiting (next hp bs i1 i2 b s) (suc k)
        pub taken : (j : ℕ) → j < i → occupied (bucket bs x.bucket) (slot_at j) ≡ true
        pub children :
            (j : ℕ)
            → j < i
            → x.depth < 4
            → Has waiting (next hp bs i1 i2 x.bucket (slot_at j)) (suc x.depth)

      at_or_before : (A : ℕ → Type 0) (i j : ℕ) → j < suc i → ((k : ℕ) → k < i → A k) → A i → A j
      at_or_before A i j lt h a = elim (dec_lt j i) [
        | yes less ↦ h j less
        | no more ↦ subst A (omega arith) a
      ]

      deeper :
          (waiting : List BSlot) (i : ℕ)
          → Rounds waiting i
          → x.depth < 4
          → occupied (bucket bs x.bucket) (slot_at i) ≡ true
          → Rounds (waiting ++ child (slot_at i) ∷ []) (suc i)
      deeper waiting i r shallow now = record {
        trails =
            AllTrails-snoc (x ∷ seen) waiting (child (slot_at i)) r.trails
              (child-Trail (slot_at i) (slot_at-lt i) shallow now);
        level =
            Levels-snoc x.depth (suc x.depth) waiting (child (slot_at i)) (omega arith)
              (omega arith) r.level;
        closed = λ b k s h lt ok. elim (r.closed b k s h lt ok) [
          | inl g ↦ inl g
          | inr g ↦ inr (Has-append_left waiting _ _ _ g)
        ];
        taken = λ j lt.
            at_or_before (λ k. occupied (bucket bs x.bucket) (slot_at k) ≡ true) i j lt r.taken now;
        children = λ j lt h.
            at_or_before
              (λ k.
                Has (waiting ++ child (slot_at i) ∷ []) (next hp bs i1 i2 x.bucket (slot_at k))
                  (suc x.depth))
              i j lt (λ k less. Has-append_left waiting _ _ _ (r.children k less h))
              (subst
                (Has (waiting ++ child (slot_at i) ∷ []) (next hp bs i1 i2 x.bucket (slot_at i)))
                (omega arith) (Has-append_last waiting (child (slot_at i))));
      }

      no_deeper :
          (waiting : List BSlot) (i : ℕ)
          → Rounds waiting i
          → 4 ≤ x.depth
          → occupied (bucket bs x.bucket) (slot_at i) ≡ true
          → Rounds waiting (suc i)
      no_deeper waiting i r deep now = record {
        trails = r.trails;
        level = r.level;
        closed = r.closed;
        taken = λ j lt.
            at_or_before (λ k. occupied (bucket bs x.bucket) (slot_at k) ≡ true) i j lt r.taken now;
        children = λ j lt h. absurd (omega arith);
      }

      grown-Rounds :
          (q : BQueue) (i : ℕ)
          → IsQueue q
          → full q ≡ false
          → Rounds (items q) i
          → occupied (bucket bs x.bucket) (slot_at i) ≡ true
          → IsQueue (grown q (child (slot_at i)))
            × Rounds (items (grown q (child (slot_at i)))) (suc i)
      grown-Rounds q i v room r now = elim (Bool-cases (ltb x.depth 4)) [
        | inl e ↦
            let (v', added) = enqueue-items q (child (slot_at i)) v room in
            rw e (
              v',
              subst (λ xs. Rounds xs (suc i)) (sym added) (deeper (items q) i r (ltb→lt _ _ e) now),
            )
        | inr e ↦ rw e (v, no_deeper (items q) i r (ltb-false _ _ e) now)
      ]

      -- What the inner loop hands to the outer one.
      pub data Scanned : Scan → Type 0 where
        ended : {y : BSlot} → Ends y → Scanned (found y)
        filled : {q : BQueue} → full q ≡ true → Scanned (continue q)
        passed : {q : BQueue} → IsQueue q → Rounds (items q) slot_per_bucket → Scanned (continue q)

      scan_full : (left i : ℕ) (q : BQueue) → full q ≡ true → scan hp bs x left i q ≡ continue q
      unfolding scan
      scan_full zero i q e = refl
      scan_full (suc left) i q e = rw (scan, e) refl

      scan_found :
          (left i : ℕ) (q : BQueue)
          → full q ≡ false
          → occupied (bucket bs x.bucket) (slot_at i) ≡ false
          → scan hp bs x (suc left) i q
            ≡ found (record x { pathcode = u64 (x.pathcode * slot_per_bucket + slot_at i) })
      unfolding scan slot_at
      scan_found left i q e f = ground arith

      scan_on :
          (left i : ℕ) (q : BQueue)
          → full q ≡ false
          → occupied (bucket bs x.bucket) (slot_at i) ≡ true
          → scan hp bs x (suc left) i q ≡ scan hp bs x left (suc i) (grown q (child (slot_at i)))
      unfolding scan slot_at
      scan_on left i q e f = ground arith

      module _ (waiting : List BSlot) (v : Visited hp bs i1 i2 seen waiting x.depth) where
        vacant-Ends :
            (s : ℕ)
            → s < slot_per_bucket
            → occupied (bucket bs x.bucket) s ≡ false
            → Ends (record x { pathcode = u64 (x.pathcode * slot_per_bucket + s) })
        vacant-Ends s lt empty =
            let vacant : occupied (bucket bs (bucket_at hp bs i1 i2 t.root t.slots)) s ≡ false =
              rw (← t.ends) empty in
            record {
              root = t.root;
              slots = t.slots;
              slot = s;
              seen = seen;
              from_either = t.from_either;
              walk = t.walk;
              depth = t.depth;
              pathcode = code_fits s lt;
              in_range = lt;
              vacant = vacant;
              simple =
                  Trail-IsSimple hp bs i1 i2 seen waiting x.depth v
                    (omega (arith, t.depth, t.short)) t.root t.slots s t.walk (sym t.depth) lt
                    vacant;
            }

        pub scan-Scanned :
            (left i : ℕ) (q : BQueue)
            → i + left ≡ slot_per_bucket
            → IsQueue q
            → Rounds (items q) i
            → Scanned (scan hp bs x left i q)
        scan-Scanned zero i q e w r =
            unfold scan in passed w (subst (Rounds (items q)) (omega arith) r)
        scan-Scanned (suc left) i q e w r = elim (Bool-cases (full q)) [
          | inl f ↦ rw (scan_full (suc left) i q f) (filled f)
          | inr room ↦ elim (Bool-cases (occupied (bucket bs x.bucket) (slot_at i))) [
            | inr empty ↦
                rw (scan_found left i q room empty)
                  (ended (vacant-Ends (slot_at i) (slot_at-lt i) empty))
            | inl taken ↦
                let (w', r') = grown-Rounds q i w room r taken in
                rw (scan_on left i q room taken) (scan-Scanned left (suc i) _ (omega arith) w' r')
          ]
        ]

      -- All rounds are done: the bucket counts as visited.
      pub every_slot :
          (full_seen : (b k : ℕ) → Has seen b k → IsFull hp bs i1 i2 b) (waiting : List BSlot)
          → Rounds waiting slot_per_bucket
          → Visited hp bs i1 i2 (x ∷ seen) waiting x.depth
      every_slot full_seen waiting r = record {
        full = λ b k h. elim h [
          | inl at ↦ λ s lt.
              let (i, less, e) = slot_at_onto s lt in
              subst (λ (c : ℕ). occupied (bucket bs c) s ≡ true) at.0
                (subst (λ (j : ℕ). occupied (bucket bs x.bucket) j ≡ true) e (r.taken i less))
          | inr before ↦ full_seen b k before
        ];
        closed = λ b k s h lt ok. elim h [
          | inl at ↦
              let (i, less, e) = slot_at_onto s ok in
              let c = r.children i less (omega (arith, at.1)) in
              inr (
                subst (λ (j : ℕ). Has waiting (next hp bs i1 i2 b s) (suc j)) at.1
                  (subst (λ (j : ℕ). Has waiting (next hp bs i1 i2 j s) (suc x.depth)) at.0
                    (subst (λ (j : ℕ). Has waiting (next hp bs i1 i2 x.bucket j) (suc x.depth)) e
                      c)))
          | inr before ↦ r.closed b k s before lt ok
        ];
        level = r.level;
      }
