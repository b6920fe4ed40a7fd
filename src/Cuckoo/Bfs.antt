-- ===== src/Cuckoo/Bfs.antt =====
-- The outer loop of `slot_search`: the slot that it returns ends a simple walk from one of the two
-- buckets of the key.
use libcuckoo_cxx.Base.{
  ℕ, zero, suc, ◌<◌, ◌≡◌, refl, sym, ap, subst, ◌∙◌, ◌⊎◌, inl, inr, List, [], ◌∷◌, ◌++◌, true,
  false, ◌||◌, some, some_eq, arith, Bool-cases,
}
use libcuckoo_cxx.Bucket.{Bucket}
use libcuckoo_cxx.Cuckoo.Inner.{
  CodesFit, AllTrails, AllTrails-weaken, Ends, Rounds, Scanned, ended, filled, passed, scan-Scanned,
  every_slot,
}
use libcuckoo_cxx.Cuckoo.Search.{loop_closed, loop_found, loop_continue, Scan-cases}
use libcuckoo_cxx.Cuckoo.Trail.{Levels-weaken, Trail, Visited, bucket_at, code}
use libcuckoo_cxx.Cuckoo.{Scan, found, continue, scan, search_loop, slot_search}
use libcuckoo_cxx.Params.{Params, Laws}
use libcuckoo_cxx.Queue.Fifo.{IsQueue, items, new_queue-IsQueue, enqueue-items, dequeue-items}
use libcuckoo_cxx.Queue.{BSlot, BQueue, new_queue, increment, enqueue, dequeue, empty, full}

module _ ⦃P : Params⦄ where
  open P use {slot_per_bucket}

  module _ (laws : Laws) (fit : CodesFit) (hp : ℕ) (bs : List Bucket) (i1 i2 : ℕ) where
    -- Before each round of the outer loop.
    record Search (seen : List BSlot) (q : BQueue) : Type 0 where
      queue : IsQueue q
      trails : AllTrails hp bs i1 i2 seen (items q)
      depth : ℕ
      visited : Visited hp bs i1 i2 seen (items q) depth

    full_next :
        (fuel : ℕ) (q : BQueue) (y : BSlot)
        → full q ≡ true
        → search_loop fuel hp bs q ≡ some (some y)
        → ⊥
    unfolding search_loop
    full_next zero q y f h = cc
    full_next (suc fuel) q y f h = ground arith

    module _ (seen : List BSlot) (q : BQueue) (s : Search seen q) (left : empty q ≡ false) where
      abbrev x : BSlot
      x = (dequeue q).0

      abbrev q' : BQueue
      q' = (dequeue q).1

      taken_out : items q ≡ x ∷ items q'
      taken_out = (dequeue-items q s.queue left).1

      x-Trails : AllTrails hp bs i1 i2 seen (x ∷ items q')
      x-Trails = subst (AllTrails hp bs i1 i2 seen) taken_out s.trails

      at_front : Visited hp bs i1 i2 seen (x ∷ items q') s.depth
      at_front = subst (λ xs. Visited hp bs i1 i2 seen xs s.depth) taken_out s.visited

      front-Visited : Visited hp bs i1 i2 seen (x ∷ items q') x.depth
      front-Visited = record {
        full = at_front.full;
        closed = at_front.closed;
        level = (
          omega arith,
          omega arith,
          Levels-weaken x.depth (suc s.depth) x.depth (suc x.depth) (items q') (omega arith)
              (omega (arith, at_front.level.0)) at_front.level.2,
        );
      }

      front-Rounds : Rounds hp bs i1 i2 laws fit seen x x-Trails.0 (items q') 0
      front-Rounds = record {
        trails = AllTrails-weaken hp bs i1 i2 x seen (items q') x-Trails.1;
        level = front-Visited.level.2;
        closed = λ b k s h lt ok. elim (front-Visited.closed b k s h lt ok) [
          | inl g ↦ inl (inr g)
          | inr g ↦ elim g [ inl e ↦ inl (inl e) | inr later ↦ inr later ]
        ];
        taken = λ j lt. absurd (omega arith);
        children = λ j lt h. absurd (omega arith);
      }

      front-Scanned :
          Scanned hp bs i1 i2 laws fit seen x x-Trails.0 (scan hp bs x slot_per_bucket 0 q')
      front-Scanned =
          scan-Scanned hp bs i1 i2 laws fit seen x x-Trails.0 (x ∷ items q') front-Visited
            slot_per_bucket 0 q' (omega arith) (dequeue-items q s.queue left).0 front-Rounds

      next-Search :
          (r : BQueue)
          → IsQueue r
          → Rounds hp bs i1 i2 laws fit seen x x-Trails.0 (items r) slot_per_bucket
          → Search (x ∷ seen) r
      next-Search r v rounds = record {
        queue = v;
        trails = rounds.trails;
        depth = x.depth;
        visited =
            every_slot hp bs i1 i2 laws fit seen x x-Trails.0 front-Visited.full (items r) rounds;
      }

    module _ (seen : List BSlot) (x : BSlot) (t : Trail hp bs i1 i2 seen x) where
      Scanned-found :
          (sc : Scan) (y : BSlot)
          → Scanned hp bs i1 i2 laws fit seen x t sc
          → sc ≡ found y
          → Ends hp bs i1 i2 y
      Scanned-found (found z) y (ended e) h =
          let same : z ≡ y = cc in subst (Ends hp bs i1 i2) same e
      Scanned-found (continue q) y (filled f) h = cc
      Scanned-found (continue q) y (passed v r) h = cc

      Scanned-continue :
          (sc : Scan) (r : BQueue)
          → Scanned hp bs i1 i2 laws fit seen x t sc
          → sc ≡ continue r
          → (full r ≡ true)
            ⊎ (IsQueue r × Rounds hp bs i1 i2 laws fit seen x t (items r) slot_per_bucket)
      Scanned-continue (found z) r (ended e) h = cc
      Scanned-continue (continue q) r (filled f) h =
          let same : q ≡ r = cc in inl (subst (λ (p : BQueue). full p ≡ true) same f)
      Scanned-continue (continue q) r (passed v rounds) h =
          let same : q ≡ r = cc in
          inr (
            subst
              (λ (p : BQueue).
                IsQueue p × Rounds hp bs i1 i2 laws fit seen x t (items p) slot_per_bucket)
              same (v, rounds))

    search_loop-Ends :
        (fuel : ℕ) (seen : List BSlot) (q : BQueue) (y : BSlot)
        → Search seen q
        → search_loop fuel hp bs q ≡ some (some y)
        → Ends hp bs i1 i2 y
    search_loop-Ends zero seen q y s h = unfold search_loop in cc
    search_loop-Ends (suc fuel) seen q y s h = elim (Bool-cases (full q || empty q)) [
      | inl e ↦ cc (h, loop_closed hp bs fuel q e)
      | inr e ↦
          let left : empty q ≡ false = ground arith in
          let t = (x-Trails seen q s left).0 in
          let inner = front-Scanned seen q s left in
          elim (Scan-cases (scan hp bs (dequeue q).0 slot_per_bucket 0 (dequeue q).1)) [
            | inl (z, f) ↦
                let same : z ≡ y = some_eq (some_eq (sym (loop_found hp bs fuel q z e f) ∙ h)) in
                subst (Ends hp bs i1 i2) same (Scanned-found seen (dequeue q).0 t _ z inner f)
            | inr (r, f) ↦
                let on : search_loop fuel hp bs r ≡ some (some y) =
                  sym (loop_continue hp bs fuel q r e f) ∙ h in
                elim (Scanned-continue seen (dequeue q).0 t _ r inner f) [
                  | inl stuffed ↦ absurd (full_next fuel r y stuffed on)
                  | inr (v, rounds) ↦
                      search_loop-Ends fuel ((dequeue q).0 ∷ seen) r y
                        (next-Search seen q s left r v rounds) on
                ]
          ]
    ]

    abbrev root_slot : ℕ → ℕ → BSlot
    root_slot i c = record { bucket = i; pathcode = c; depth = 0 }

    root-Trail :
        (i c : ℕ) → c < 2 → i ≡ bucket_at hp bs i1 i2 c [] → Trail hp bs i1 i2 [] (root_slot i c)
    root-Trail i c lt e = record {
      root = c;
      slots = [];
      from_either = lt;
      walk = tt;
      short = omega arith;
      depth = refl;
      pathcode = unfold code in refl;
      ends = e;
    }

    abbrev both_roots : List BSlot
    both_roots = root_slot i1 0 ∷ root_slot i2 1 ∷ []

    first_queue : BQueue
    first_queue = enqueue (enqueue new_queue (root_slot i1 0)) (root_slot i2 1)

    first_queue-items : IsQueue first_queue × (items first_queue ≡ both_roots)
    unfolding first_queue
    first_queue-items =
        let (v0, none_there) = new_queue-IsQueue in
        let (v1, e1) =
          enqueue-items new_queue (root_slot i1 0) v0 (unfold full new_queue increment in refl) in
        let (v2, e2) =
          enqueue-items (enqueue new_queue (root_slot i1 0)) (root_slot i2 1) v1
            (unfold full enqueue new_queue increment in refl) in
        (
          v2,
          e2
              ∙ ap (λ xs. xs ++ root_slot i2 1 ∷ [])
                  (e1 ∙ ap (λ xs. xs ++ root_slot i1 0 ∷ []) none_there),
        )

    both_roots-Visited : Visited hp bs i1 i2 [] both_roots 0
    both_roots-Visited = record {
      full = λ b k h. elim h [ ];
      closed = λ b k s h lt ok. elim h [ ];
      level = (omega arith, omega arith, (omega arith, omega arith, tt));
    }

    first_queue-Search : Search [] first_queue
    first_queue-Search =
        let (v, e) = first_queue-items in
        record {
          queue = v;
          trails = subst (AllTrails hp bs i1 i2 []) (sym e) (
            root-Trail i1 0 (omega arith) (unfold bucket_at in refl),
            (root-Trail i2 1 (omega arith) (unfold bucket_at in refl), tt),
          );
          depth = 0;
          visited = subst (λ xs. Visited hp bs i1 i2 [] xs 0) (sym e) both_roots-Visited;
        }

    -- Where the codes of paths fit into a word and the hash and the equality keep their laws, a
    -- result of `slot_search` encodes, digit by digit, a walk of its depth from one of the two
    -- buckets, over occupied slots and on to the other bucket of each pair, that visits no slot
    -- twice and ends in a bucket with the empty slot of the last digit.
    pub slot_search-Ends :
        (fuel : ℕ) (y : BSlot) → slot_search fuel hp bs i1 i2 ≡ some (some y) → Ends hp bs i1 i2 y
    unfolding slot_search first_queue
    slot_search-Ends fuel y h = search_loop-Ends fuel [] first_queue y first_queue-Search h
