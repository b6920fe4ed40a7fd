-- ===== src/Cuckoo/Search.antt =====
-- The loop of `slot_search` ends: each bucket taken from the queue puts at most one per slot back,
-- one step deeper, and none at the depth limit.
use libcuckoo_cxx.Base.{
  ℕ, zero, suc, ◌+◌, ◌-◌, ◌*◌, ◌%◌, ◌<◌, ◌≤◌, ◌≡◌, refl, sym, ap, ◌⊎◌, subst, ◌∙◌, inl, inr, List,
  [], ◌∷◌, ◌++◌, true, false, ◌||◌, Option, none, some, arith, Bool-cases, ltb, ltb→lt, ltb-false,
  if◌then◌else◌,
}
use libcuckoo_cxx.Bucket
use libcuckoo_cxx.Bucket.{Bucket}
use libcuckoo_cxx.Config.{u64, max_bfs_path_len}
use libcuckoo_cxx.Cuckoo.{Scan, found, continue, scan, search_loop, slot_search}
use libcuckoo_cxx.Hash.{alt_index}
use libcuckoo_cxx.Params.{Params}
use libcuckoo_cxx.Queue.Fifo.{IsQueue, items, new_queue-IsQueue, enqueue-items, dequeue-items}
use libcuckoo_cxx.Queue.{BSlot, BQueue, new_queue, increment, enqueue, dequeue, empty, full}
use libcuckoo_cxx.Table.{bucket}

module _ ⦃P : Params⦄ where
  open P use {slot_per_bucket}

  -- The nodes of a search tree with `n` more levels below its root.
  unfoldable pub tree : ℕ → ℕ
  tree zero = 1
  tree (suc n) = 1 + slot_per_bucket * tree n

  abbrev cost : BSlot → ℕ
  cost x = tree (4 - x.depth)

  load_of : List BSlot → ℕ
  load_of [] = 0
  load_of (x ∷ xs) = cost x + load_of xs

  load : BQueue → ℕ
  load q = load_of (items q)

  load_of-snoc : (xs : List BSlot) (x : BSlot) → load_of (xs ++ x ∷ []) ≡ load_of xs + cost x
  unfolding load_of
  load_of-snoc [] x = omega arith
  load_of-snoc (y ∷ xs) x = omega (arith, load_of-snoc xs x)

  enqueue-load :
      (q : BQueue) (x : BSlot) → IsQueue q → full q ≡ false → load (enqueue q x) ≡ load q + cost x
  unfolding load
  enqueue-load q x v room = ap load_of (enqueue-items q x v room).1 ∙ load_of-snoc (items q) x

  dequeue-load :
      (q : BQueue) → IsQueue q → empty q ≡ false → load q ≡ cost (dequeue q).0 + load (dequeue q).1
  unfolding load load_of
  dequeue-load q v some_left = ap load_of (dequeue-items q v some_left).1

  -- What one slot of a bucket at this depth adds.
  abbrev child_cost : ℕ → ℕ
  child_cost depth = if ltb depth (max_bfs_path_len - 1) then tree (4 - (depth + 1)) else 0

  children-cost : (x : BSlot) → 1 + slot_per_bucket * child_cost x.depth ≤ cost x
  children-cost x = elim (Bool-cases (ltb x.depth 4)) [
    | inl e ↦
        let n = 4 - (x.depth + 1) in
        let below : 4 - x.depth ≡ suc n = omega (arith, ltb→lt x.depth 4 e) in
        rw (e, below) (unfold tree in omega arith)
    | inr e ↦
        let last : 4 - x.depth ≡ 0 = omega (arith, ltb-false x.depth 4 e) in
        rw (e, last) (unfold tree in omega arith)
  ]

  module _ (hp : ℕ) (bs : List Bucket) (x : BSlot) where
    abbrev grown : BQueue → BSlot → BQueue
    grown q y = if ltb x.depth (max_bfs_path_len - 1) then enqueue q y else q

    grown-load :
        (q : BQueue) (y : BSlot)
        → y.depth ≡ x.depth + 1
        → IsQueue q
        → full q ≡ false
        → IsQueue (grown q y) × (load (grown q y) ≡ load q + child_cost x.depth)
    grown-load q y deeper v room = elim (Bool-cases (ltb x.depth 4)) [
      | inl e ↦ rw e (
        (enqueue-items q y v room).0,
        enqueue-load q y v room ∙ ap (λ (d : ℕ). load q + tree (4 - d)) deeper,
      )
      | inr e ↦ rw e (v, omega arith)
    ]

    abbrev child : ℕ → ℕ → BSlot
    child hp slot = record {
      bucket = alt_index hp (Bucket.partial (bucket bs x.bucket) slot) x.bucket;
      pathcode = u64 (x.pathcode * slot_per_bucket + slot);
      depth = x.depth + 1;
    }

    slot_at : ℕ → ℕ
    slot_at i = (x.pathcode % slot_per_bucket + i) % slot_per_bucket

    scan-full : (left i : ℕ) (q : BQueue) → full q ≡ true → scan hp bs x left i q ≡ continue q
    unfolding scan
    scan-full zero i q e = refl
    scan-full (suc left) i q e = rw (scan, e) refl

    scan_step :
        (left i : ℕ) (q q' : BQueue)
        → full q ≡ false
        → scan hp bs x (suc left) i q ≡ continue q'
        → scan hp bs x left (i + 1) (grown q (child hp (slot_at i))) ≡ continue q'
    unfolding scan slot_at
    scan_step left i q q' e h = ground arith

    settle :
        (q q' : BQueue) (n : ℕ)
        → IsQueue q
        → continue q ≡ continue q'
        → IsQueue q' × (load q' ≤ load q + n)
    settle q q' n v h =
        let same : q ≡ q' = cc in
        subst (λ (r : BQueue). IsQueue r × (load r ≤ load q + n)) same (v, omega arith)

    scan-next :
        (left i : ℕ) (q q' : BQueue)
        → IsQueue q
        → scan hp bs x left i q ≡ continue q'
        → IsQueue q' × (load q' ≤ load q + left * child_cost x.depth)
    scan-next zero i q q' v h = settle q q' (0 * child_cost x.depth) v (unfold scan in h)
    scan-next (suc left) i q q' v h = elim (Bool-cases (full q)) [
      | inl e ↦ settle q q' (suc left * child_cost x.depth) v (sym (scan-full (suc left) i q e) ∙ h)
      | inr e ↦
          let (v1, l1) = grown-load q (child hp (slot_at i)) refl v e in
          let (v2, l2) = scan-next left (i + 1) _ q' v1 (scan_step left i q q' e h) in
          (v2, omega (arith, l1, l2))
    ]

  pub Scan-cases : (s : Scan) → ((y : BSlot) × (s ≡ found y)) ⊎ ((q : BQueue) × (s ≡ continue q))
  Scan-cases (found y) = inl (y, refl)
  Scan-cases (continue q) = inr (q, refl)

  module _ (hp : ℕ) (bs : List Bucket) where
    pub loop_closed :
        (fuel : ℕ) (q : BQueue)
        → (full q || empty q) ≡ true
        → search_loop (suc fuel) hp bs q ≡ some none
    unfolding search_loop
    loop_closed fuel q e = ground arith

    pub loop_found :
        (fuel : ℕ) (q : BQueue) (y : BSlot)
        → (full q || empty q) ≡ false
        → scan hp bs (dequeue q).0 slot_per_bucket 0 (dequeue q).1 ≡ found y
        → search_loop (suc fuel) hp bs q ≡ some (some y)
    unfolding search_loop
    loop_found fuel q y e f = ground arith

    pub loop_continue :
        (fuel : ℕ) (q q' : BQueue)
        → (full q || empty q) ≡ false
        → scan hp bs (dequeue q).0 slot_per_bucket 0 (dequeue q).1 ≡ continue q'
        → search_loop (suc fuel) hp bs q ≡ search_loop fuel hp bs q'
    unfolding search_loop
    loop_continue fuel q q' e f = ground arith

    loop_ends :
        (fuel : ℕ) (q : BQueue)
        → IsQueue q
        → load q < fuel
        → (r : Option BSlot) × (search_loop fuel hp bs q ≡ some r)
    loop_ends zero q v lt = absurd (omega arith)
    loop_ends (suc fuel) q v lt = elim (Bool-cases (full q || empty q)) [
      | inl e ↦ (none, loop_closed fuel q e)
      | inr e ↦
          let left : empty q ≡ false = ground arith in
          elim (Scan-cases (scan hp bs (dequeue q).0 slot_per_bucket 0 (dequeue q).1)) [
            | inl (y, f) ↦ (some y, loop_found fuel q y e f)
            | inr (q', f) ↦
                let (v', l') =
                  scan-next hp bs (dequeue q).0 slot_per_bucket 0 (dequeue q).1 q'
                    (dequeue-items q v left).0 f in
                let (r, done) =
                  loop_ends fuel q' v'
                    (omega (arith, l', dequeue-load q v left, children-cost (dequeue q).0)) in
                (r, loop_continue fuel q q' e f ∙ done)
          ]
    ]

    abbrev root : ℕ → ℕ → BSlot
    root i code = record { bucket = i; pathcode = code; depth = 0 }

    one_queued : (x : BSlot) → full (enqueue new_queue x) ≡ false
    unfolding full enqueue new_queue increment
    one_queued x = refl

    none_queued : full new_queue ≡ false
    unfolding full new_queue increment
    none_queued = refl

    new_queue-load : load new_queue ≡ 0
    unfolding load load_of
    new_queue-load = ap load_of new_queue-IsQueue.1

    -- On any buckets, `slot_search` returns a slot or the failure value when it may run more than
    -- `2 * tree 4` rounds of its loop, where `tree 4` is the number of nodes of a tree with five
    -- levels and one branch per slot.
    pub slot_search_ends :
        (fuel i1 i2 : ℕ)
        → 2 * tree 4 < fuel
        → (r : Option BSlot) × (slot_search fuel hp bs i1 i2 ≡ some r)
    unfolding slot_search
    slot_search_ends fuel i1 i2 lt =
        let v0 = new_queue-IsQueue.0 in
        let q1 = enqueue new_queue (root i1 0) in
        let v1 = (enqueue-items new_queue (root i1 0) v0 none_queued).0 in
        let v2 = (enqueue-items q1 (root i2 1) v1 (one_queued (root i1 0))).0 in
        loop_ends fuel _ v2 (
          omega (
            arith,
            new_queue-load,
            enqueue-load new_queue (root i1 0) v0 none_queued,
            enqueue-load q1 (root i2 1) v1 (one_queued (root i1 0)),
          ))
