-- ===== src/Concurrent/Alone.antt =====
-- A thread that runs alone from one of its sections to the next: an insertion then does what
-- `cuckoo_insert_loop` does from the call to the return. Here: `slot_search` and `cuckoopath_search`.
pub mod Rounds
pub mod Counted
pub mod Loop
pub mod Ends
use mathlib.Core.List.{append-nil, append_assoc}
use libcuckoo_cxx.Base.{
  some_eq, ℕ, zero, suc, ◌+◌, ◌-◌, ◌*◌, ◌%◌, ◌≡◌, refl, sym, ap, subst, ◌∙◌, inl, inr, List, [],
  ◌∷◌, ◌++◌, Bool, true, false, Option, none, some, arith, length, get_or, ◌==◌, ◌||◌, ==_refl,
  if◌then◌else◌, Bool-cases, Option-cases,
}
use libcuckoo_cxx.Bucket.{occupied, kvpair}
use libcuckoo_cxx.Concurrent.{
  Job, Position, scanning, recording, moving, Advance, goes, answers, first_of, second_of,
  after_insert, unless_expanded, searching, scan_one, moving_along, record_one, run_section,
}
use libcuckoo_cxx.Cuckoo.{
  CuckooRecord, Scan, found, continue, scan, search_loop, decode, walk, slot_search,
  cuckoopath_search,
}
use libcuckoo_cxx.Params.{Params}
use libcuckoo_cxx.Queue.{BSlot, BQueue, no_slot, new_queue, enqueue, dequeue, full, empty}
use libcuckoo_cxx.Bucket.Laws.{is_some}
use libcuckoo_cxx.Table.Valid.{IsPlaced}
use libcuckoo_cxx.Table.{hashed_key, Table, failure_table_full, Result, bucket}

module _ ⦃P : Params⦄ where
  open P use {Key, Mapped, slot_per_bucket}

  pub at_once :
      (job : Job) (t : Table) (section : Advance)
      → unless_expanded job t.hashpower t section ≡ section
  unfolding unless_expanded
  at_once job t section = rw (unless_expanded, ==_refl t.hashpower) refl

  module _ (split : ℕ → List (ℕ × ℕ)) (retries search_fuel fuel : ℕ) where
    -- The call ends with `x`, when no other thread runs in between.
    pub data Finishes : Advance → Table × Result Bool → Type 0 where
      done : {t : Table} {a : Result Bool} → Finishes (answers t a) (t, a)
      more :
          {p : Position} {t : Table} {x : Table × Result Bool}
          → Finishes (run_section split retries search_fuel fuel p t) x
          → Finishes (goes t p) x

    module _ (job : Job) (t : Table) (x : Table × Result Bool) where
      -- The next round of the outer loop of `slot_search`.
      abbrev pub outer : BQueue → Advance
      outer q = scan_one job t.hashpower q no_slot 0 0 t

      abbrev pub record_from : BSlot → Advance
      record_from y = goes t (
          recording job t.hashpower []
            (if (decode (y.depth + 1) y.pathcode []).1 == 0
              then first_of job t.hashpower
              else second_of job t.hashpower)
            (decode (y.depth + 1) y.pathcode []).0)

      abbrev after_scan : Scan → Advance
      after_scan (found y) = record_from y
      after_scan (continue q) = outer q

      scan_runs :
          (left i : ℕ) (q : BQueue) (y : BSlot)
          → Finishes (after_scan (scan t.hashpower t.buckets y left i q)) x
          → Finishes (goes t (scanning job t.hashpower q y left i)) x
      unfolding run_section scan_one scan
      scan_runs zero i q y h = more h
      scan_runs (suc left) i q y h = elim (Bool-cases (full q)) [
        | inl e ↦ more (rw (scan_one, e) (more (rw (scan, e) at h)))
        | inr e ↦
            elim (Bool-cases (
              occupied (bucket t.buckets y.bucket)
                ((y.pathcode % slot_per_bucket + i) % slot_per_bucket))) [
                  | inl f ↦ more (
                      rw (scan_one, e, at_once, f)
                        (scan_runs left (i + 1) _ y (rw (scan, e, f) at h)))
                  | inr f ↦ more (rw (scan_one, e, at_once, f) (rw (scan, e, f) at h))
                ]
      ]

      abbrev after_search : Option BSlot → Advance
      after_search none = after_insert job t.hashpower (t, failure_table_full)
      after_search (some y) = record_from y

      -- A bucket has been scanned.
      scanned :
          (steps : ℕ) (r : Option BSlot)
          → ((q : BQueue)
              → search_loop steps t.hashpower t.buckets q ≡ some r
              → Finishes (outer q) x)
          → Finishes (after_search r) x
          → (s : Scan)
          → (elim s [
            | found y ↦ some (some y)
            | continue q ↦ search_loop steps t.hashpower t.buckets q
          ])
            ≡ some r
          → Finishes (after_scan s) x
      scanned steps r again h (found y) e =
          subst (λ o. Finishes (after_search o) x) (sym (some_eq e)) h
      scanned steps r again h (continue q) e = again q e

      search_runs :
          (steps : ℕ) (q : BQueue) (r : Option BSlot)
          → search_loop steps t.hashpower t.buckets q ≡ some r
          → Finishes (after_search r) x
          → Finishes (outer q) x
      unfolding search_loop scan_one
      search_runs zero q r e h = absurd (cc e)
      search_runs (suc steps) q r e h = elim (Bool-cases (full q || empty q)) [
        | inl f ↦
            rw (scan_one, f)
              (subst (λ o. Finishes (after_search o) x) (sym (some_eq (rw (search_loop, f) at e)))
                h)
        | inr f ↦
            rw (scan_one, f)
              (scan_runs slot_per_bucket 0 (dequeue q).1 (dequeue q).0 (
                scanned steps r (λ q'. λ e'. search_runs steps q' r e' h) h _
                  (rw (search_loop, f) at e)))
      ]

      -- The records that `walk` adds to a path.
      walk_runs :
          (placed : IsPlaced t.hashpower t.buckets) (path : List CuckooRecord) (b : ℕ)
          (slots : List ℕ)
          → Finishes
              (goes t (moving_along job t.hashpower (path ++ walk t.hashpower t.buckets b slots)))
              x
          → Finishes (goes t (recording job t.hashpower path b slots)) x
      unfolding run_section record_one walk
      walk_runs placed path b [] h =
          more
            (subst (λ p. Finishes (goes t (moving_along job t.hashpower p)) x) (append-nil path) h)
      walk_runs placed path b (s ∷ slots) h = elim (Bool-cases (occupied (bucket t.buckets b) s)) [
        | inr e ↦ more (rw (at_once, e) (rw (walk, e) at h))
        | inl e ↦ elim (Option-cases (kvpair (bucket t.buckets b) s)) [
          | inl f ↦ absurd (cc (e, placed.live b s, ap is_some f))
          | inr ((k, v), f) ↦ more (
              rw (at_once, e, f)
                (walk_runs placed (path ++ record { bucket = b; slot = s; hv = hashed_key k } ∷ [])
                  _ slots
                  (subst (λ p. Finishes (goes t (moving_along job t.hashpower p)) x)
                    (sym (append_assoc path _ _)) (rw (walk, e, f) at h))))
        ]
      ]

      abbrev pub after_path : Option (List CuckooRecord) → Advance
      after_path none = after_insert job t.hashpower (t, failure_table_full)
      after_path (some path) = goes t (moving_along job t.hashpower path)

      found_runs :
          (placed : IsPlaced t.hashpower t.buckets) (r : Option BSlot)
          (o : Option (List CuckooRecord))
          → (elim r [
            | none ↦ none
            | some y ↦
                let (slots, code) = decode (y.depth + 1) y.pathcode [] in
                some (
                  walk t.hashpower t.buckets
                    (if code == 0 then first_of job t.hashpower else second_of job t.hashpower)
                    slots)
          ])
            ≡ o
          → Finishes (after_path o) x
          → Finishes (after_search r) x
      found_runs placed none o e h = subst (λ p. Finishes (after_path p) x) (sym e) h
      found_runs placed (some y) o e h =
          walk_runs placed [] _ _ (subst (λ p. Finishes (after_path p) x) (sym e) h)

      -- `cuckoopath_search` on a table that no one else changes.
      pub cuckoopath_search_runs :
          (placed : IsPlaced t.hashpower t.buckets) (steps : ℕ) (o : Option (List CuckooRecord))
          → cuckoopath_search steps t.hashpower t.buckets
              (first_of job t.hashpower)
              (second_of job t.hashpower)
            ≡ some o
          → Finishes (after_path o) x
          → Finishes (goes t (searching job t.hashpower)) x
      unfolding cuckoopath_search slot_search run_section scan_one
      cuckoopath_search_runs placed steps o e h =
          let first_two : BQueue =
            enqueue
              (enqueue new_queue
                (record { bucket = first_of job t.hashpower; pathcode = 0; depth = 0 }))
              (record { bucket = second_of job t.hashpower; pathcode = 1; depth = 0 }) in
          elim (Option-cases (search_loop steps t.hashpower t.buckets first_two)) [
            | inl f ↦ absurd (cc (rw (cuckoopath_search, slot_search, f) at e))
            | inr (none, f) ↦ more (
                search_runs steps first_two none f (
                  found_runs placed none o (some_eq (rw (cuckoopath_search, slot_search, f) at e))
                    h))
            | inr (some y, f) ↦ more (
                search_runs steps first_two (some y) f (
                  found_runs placed (some y) o
                    (some_eq (rw (cuckoopath_search, slot_search, f) at e)) h))
          ]
