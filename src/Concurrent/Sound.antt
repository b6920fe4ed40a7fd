-- ===== src/Concurrent/Sound.antt =====
-- Every section of a thread keeps the table in order, and the map unless it ends the call.
use libcuckoo_cxx.Base.{
  ℕ, ◌+◌, ◌<◌, ◌≡◌, ◌≢◌, refl, sym, inl, inr, subst, List, true, some, length, ltb, Bool,
  Bool-cases, ℕ_discrete, ==_false,
}
use libcuckoo_cxx.Concurrent.Locked.{locked-Advanced}
use libcuckoo_cxx.Concurrent.Meaning.{
  Alike-refl, meant, refused_insert, refused_upsert, Advanced, went, ended, stays,
}
use libcuckoo_cxx.Concurrent.Sections.{scan_one-Advanced, record_one-Advanced, move_one-Advanced}
use libcuckoo_cxx.Concurrent.Stand.{Stands}
use libcuckoo_cxx.Concurrent.{
  Caller, by_insert, by_upsert, by_upsert_loop, Job, Position, calling, locking, scanning,
  recording, moving, counting, doubling, emptied, undefined, answers, asked, job_request,
  request_at, after_double, count_one, double_one, run_section,
}
use libcuckoo_cxx.Expand.Ranges.{IsPartition}
use libcuckoo_cxx.Hash.{hashsize}
use libcuckoo_cxx.Insert.History.{simple, Refusal, low_factor, no_growth, Meant, meant_simple}
use libcuckoo_cxx.Insert.Loop.{Growth, grown, at_maximum, cuckoo_fast_double-Growth}
use libcuckoo_cxx.Insert.Outcomes.{Alike, Doubled-Alike}
use libcuckoo_cxx.Insert.{insert, over_maximum, cuckoo_fast_double}
use libcuckoo_cxx.Params.{Params, Laws}
use libcuckoo_cxx.Table.Counts.{IsValid}
use libcuckoo_cxx.Table.History.{Call, perform, perform-Performed}
use libcuckoo_cxx.Table.{
  Table, Status, failure_under_expansion, Exception, maximum_hashpower_exceeded, Result, returned,
  thrown, find,
}

module _ ⦃P : Params⦄ where
  open P use {Key, Mapped, slot_per_bucket}

  refused_by :
      (c : Caller) (k : Key) (v : Mapped) (t : Table) (e : Exception)
      → IsValid t
      → Refusal e
      → Advanced t (asked (record { caller = c; key = k; val = v })) (answers t (thrown e))
  unfolding job_request
  refused_by by_insert k v t e valid r = ended valid (refl, refl) (refused_insert r (λ q. refl))
  refused_by (by_upsert f) k v t e valid r = ended valid (refl, refl) (refused_upsert r (λ q. refl))
  refused_by (by_upsert_loop f) k v t e valid r =
      ended valid (refl, refl) (refused_upsert r (λ q. refl))

  asked_again :
      (c : Caller) (k : Key) (v : Mapped)
      → asked (record { caller = after_double c; key = k; val = v })
        ≡ asked (record { caller = c; key = k; val = v })
  unfolding job_request after_double
  asked_again by_insert k v = refl
  asked_again (by_upsert f) k v = refl
  asked_again (by_upsert_loop f) k v = refl

  count_one-Advanced :
      (job : Job) (hp i size : ℕ) (t : Table)
      → IsValid t
      → Advanced t (asked job) (count_one job hp i size t)
  unfolding count_one
  count_one-Advanced job hp i size t valid = elim (Bool-cases (ltb i (length t.elems))) [
    | inl e ↦ rw (count_one, e) (stays valid tt refl)
    | inr e ↦
        let lf =
          P.div (P.div (P.double size) (P.double slot_per_bucket)) (P.double (hashsize hp)) in
        elim (Bool-cases (P.lt lf t.minimum_load_factor)) [
          | inl low ↦
              rw (count_one, e, low) (refused_by job.caller job.key job.val t _ valid low_factor)
          | inr high ↦ rw (count_one, e, high) (stays valid tt refl)
        ]
  ]

  module _ (laws : Laws) (split : ℕ → List (ℕ × ℕ))
      (partitions : (n : ℕ) → IsPartition (λ _. ⊥) n (split n)) (nothrow : P.is_nothrow_move ≡ true)
      (retries search_fuel fuel : ℕ) where
    -- What `cuckoo_fast_double` does at a hashpower that may be out of date.
    pub data Tried (t : Table) : Table × Result Status → Type 0 where
      tried : {t' : Table} {st : Status} → Alike t t' → Tried t (t', returned st)
      not_tried : {e : Exception} → Refusal e → Tried t (t, thrown e)

    abbrev pub IsTried : Table → ℕ → Type 0
    IsTried t hp =
        (x : Table × Result Status) × (cuckoo_fast_double split retries search_fuel
            (insert split retries search_fuel fuel) t hp
          ≡ some x)
        × Tried t x

    Growth-Tried : (t : Table) (x : Table × Result Status) → Growth t x → Tried t x
    Growth-Tried t _ (grown d room) = tried (Doubled-Alike d)
    Growth-Tried t _ (at_maximum limit top) = not_tried no_growth

    module _ (t : Table) (valid : IsValid t) (some_limit : 0 < t.maximum_hashpower)
        (word : t.maximum_hashpower < 64) where
      out_of_date : (hp : ℕ) → t.hashpower ≢ hp → IsTried t hp
      unfolding cuckoo_fast_double
      out_of_date hp other = elim (Bool-cases (over_maximum t (hp + 1))) [
        | inl e ↦ (
          (t, thrown (maximum_hashpower_exceeded (hp + 1))),
          rw (cuckoo_fast_double, nothrow, e) refl,
          not_tried no_growth,
        )
        | inr e ↦ (
          (t, returned failure_under_expansion),
          rw (cuckoo_fast_double, nothrow, e, ==_false t.hashpower hp other) refl,
          tried (Alike-refl t valid),
        )
      ]

      pub double-IsTried : (hp : ℕ) → IsTried t hp
      double-IsTried hp = elim (ℕ_discrete t.hashpower hp) [
        | no other ↦ out_of_date hp other
        | yes same ↦
            let (x, e, g) =
              cuckoo_fast_double-Growth laws split partitions nothrow retries search_fuel
                (insert split retries search_fuel fuel) t valid some_limit word in
            subst (IsTried t) same (x, e, Growth-Tried t x g)
      ]

      double_by :
          (c : Caller) (k : Key) (v : Mapped) (hp : ℕ) (x : Table × Result Status)
          → cuckoo_fast_double split retries search_fuel
              (insert split retries search_fuel fuel)
              t
              hp
            ≡ some x
          → Tried t x
          → Advanced t (asked (record { caller = c; key = k; val = v })) (
              double_one split retries search_fuel fuel
                (record { caller = c; key = k; val = v })
                hp
                t)
      unfolding double_one
      double_by c k v hp _ e (tried m) = rw (double_one, e) (went m tt (asked_again c k v))
      double_by c k v hp _ e (not_tried r) = rw (double_one, e) (refused_by c k v t _ valid r)

      double_one-Advanced :
          (job : Job) (hp : ℕ)
          → Advanced t (asked job) (double_one split retries search_fuel fuel job hp t)
      double_one-Advanced job hp =
          let (x, e, d) = double-IsTried hp in double_by job.caller job.key job.val hp x e d

      calling-Advanced :
          (c : Call) → Advanced t (simple c) (answers (perform c t).0 (returned (perform c t).1))
      calling-Advanced c =
          let p = perform-Performed laws c t valid in
          ended p.valid p.limits (
            meant (
              subst (λ (b : Bool). Meant (find t) (find (perform c t).0) (simple c) (returned b))
                (sym p.answer) (meant_simple p.reads)))

      -- Where the hash and the equality keep their laws and `parallel_for` takes each lock once,
      -- on a valid table with a largest hashpower from 1 to 63 and pairs whose moves do not throw,
      -- any section of a thread, whatever the position it was in knows of the table, leaves a
      -- valid table with its settings. Where the call goes on, every key reads as before; where
      -- it ends, the map has changed as the request and the answer say.
      pub run_section-Advanced :
          (p : Position)
          → Stands p
          → Advanced t (request_at p) (run_section split retries search_fuel fuel p t)
      unfolding run_section
      run_section-Advanced (calling c) at = calling-Advanced c
      run_section-Advanced (locking job) at = locked-Advanced laws job t valid job.caller refl
      run_section-Advanced (scanning job hp q x left i) at =
          scan_one-Advanced job hp t valid laws q x left i
      run_section-Advanced (recording job hp path b slots) at =
          record_one-Advanced job hp t valid laws path b slots at
      run_section-Advanced (moving job hp path depth) at =
          move_one-Advanced job hp t valid laws path depth at
      run_section-Advanced (counting job hp i size) at = count_one-Advanced job hp i size t valid
      run_section-Advanced (doubling job hp) at = double_one-Advanced job hp
      run_section-Advanced (emptied r) at = stays valid tt refl
      run_section-Advanced (undefined r) at = absurd at
