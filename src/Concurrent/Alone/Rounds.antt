-- ===== src/Concurrent/Alone/Rounds.antt =====
-- `cuckoopath_move`, the rounds of `run_cuckoo`, and `cuckoo_insert`, by a thread that runs alone.
use libcuckoo_cxx.Base.{
  ℕ, zero, suc, ◌-◌, ◌≡◌, refl, sym, subst, ◌∙◌, inl, inr, List, Bool, Option, none, some, arith,
  length, Bool-cases, Option-cases, some_eq,
}
use libcuckoo_cxx.Bucket.Search.{try_find_insert_bucket}
use libcuckoo_cxx.Bucket.{Bucket, occupied}
use libcuckoo_cxx.Concurrent.Alone.{at_once, Finishes, more, cuckoopath_search_runs}
use libcuckoo_cxx.Concurrent.{
  emptied, asked, Job, moving, Advance, goes, first_of, second_of, after_insert, searching,
  insert_locked, insert_freed, after_swap, move_one, run_section,
}
use libcuckoo_cxx.Cuckoo.Paths.{cuckoopath_search-IsPath}
use libcuckoo_cxx.Cuckoo.Relocate.{
  at, swapped, cuckoopath_move-Moves, run_out, run_full, run_done, run_again, run_undefined,
}
use libcuckoo_cxx.Cuckoo.{
  CuckooRecord, Attempt, succeeded, invalidated, destroyed, Attempt-cases, Freed, freed, full_table,
  swap_valid, move_loop, cuckoopath_move, cuckoopath_search, run_cuckoo, finish_insert,
  insert_displacing, cuckoo_insert,
}
use libcuckoo_cxx.Params.{Params, Laws}
use libcuckoo_cxx.Table.Valid.{IsPlaced}
use libcuckoo_cxx.Table.{Table, Status, Result, bucket, hashed_key}

module _ ⦃P : Params⦄ where
  module _ (split : ℕ → List (ℕ × ℕ)) (retries search_fuel fuel : ℕ) (job : Job) (t : Table)
      (x : Table × Result Bool) where
    abbrev Comes : Advance → Type 0
    Comes a = Finishes split retries search_fuel fuel a x

    abbrev rebuilt : List Bucket → Table
    rebuilt bs = record t { buckets = bs }

    abbrev after_moves : List CuckooRecord → List Bucket × Attempt → Advance
    after_moves path (bs, succeeded) = insert_freed job t.hashpower (rebuilt bs) (at path 0)
    after_moves path (bs, invalidated) = goes (rebuilt bs) (searching job t.hashpower)
    after_moves path (bs, destroyed) = goes (rebuilt bs) (emptied (asked job))

    move_loop_runs :
        (path : List CuckooRecord) (depth : ℕ) (bs : List Bucket)
        → Comes (after_moves path (move_loop path (suc depth) bs))
        → Comes (goes (rebuilt bs) (moving job t.hashpower path (suc depth)))
    unfolding run_section move_one after_swap move_loop
    move_loop_runs path zero bs h = elim (Attempt-cases (swap_valid bs (at path 0) (at path 1))) [
      | inr (inl e) ↦ more (rw (move_one, at_once job (rebuilt bs), e) (rw (move_loop, e) at h))
      | inr (inr e) ↦ more (rw (move_one, at_once job (rebuilt bs), e) (rw (move_loop, e) at h))
      | inl e ↦ more (rw (move_one, at_once job (rebuilt bs), e) (rw (move_loop, e) at h))
    ]
    move_loop_runs path (suc depth) bs h =
        elim (Attempt-cases (swap_valid bs (at path (suc depth)) (at path (suc (suc depth))))) [
          | inr (inl e) ↦ more (rw (move_one, at_once job (rebuilt bs), e) (rw (move_loop, e) at h))
          | inr (inr e) ↦ more (rw (move_one, at_once job (rebuilt bs), e) (rw (move_loop, e) at h))
          | inl e ↦ more (
              rw (move_one, at_once job (rebuilt bs), e)
                (move_loop_runs path depth (swapped path (suc depth) bs) (rw (move_loop, e) at h)))
        ]

    cuckoopath_move_runs :
        (path : List CuckooRecord) (depth : ℕ) (bs : List Bucket)
        → Comes (after_moves path (cuckoopath_move path depth bs))
        → Comes (goes (rebuilt bs) (moving job t.hashpower path depth))
    unfolding run_section move_one cuckoopath_move
    cuckoopath_move_runs path zero bs h =
        elim (Bool-cases (occupied (bucket bs (at path 0).bucket) (at path 0).slot)) [
          | inl e ↦ more (rw (move_one, at_once job (rebuilt bs), e) (rw (cuckoopath_move, e) at h))
          | inr e ↦ more (rw (move_one, at_once job (rebuilt bs), e) (rw (cuckoopath_move, e) at h))
        ]
    cuckoopath_move_runs path (suc depth) bs h = move_loop_runs path depth bs h

    abbrev after_run : Freed (List Bucket) → Advance
    after_run r = after_insert job t.hashpower (
        finish_insert (hashed_key job.key) t (first_of job t.hashpower) (second_of job t.hashpower)
          job.key job.val r)

    -- One try of `run_cuckoo`, with a path.
    tried_runs :
        (path : List CuckooRecord) (depth : ℕ) (bs : List Bucket)
        → ((cuckoopath_move path depth bs).1 ≡ succeeded
            → Comes (
                after_run
                  (freed (cuckoopath_move path depth bs).0 (at path 0).bucket (at path 0).slot)))
        → ((cuckoopath_move path depth bs).1 ≡ invalidated
            → Comes (goes (rebuilt (cuckoopath_move path depth bs).0) (searching job t.hashpower)))
        → ((cuckoopath_move path depth bs).1 ≡ destroyed → ⊥)
        → Comes (goes (rebuilt bs) (moving job t.hashpower path depth))
    unfolding finish_insert
    tried_runs path depth bs when_done when_failed never =
        let r = cuckoopath_move path depth bs in
        cuckoopath_move_runs path depth bs (elim (Attempt-cases r.1) [
          | inl e ↦ subst (λ (b : Attempt). Comes (after_moves path (r.0, b))) (sym e) (when_done e)
          | inr (inr e) ↦ absurd (never e)
          | inr (inl e) ↦
              subst (λ (b : Attempt). Comes (after_moves path (r.0, b))) (sym e) (when_failed e)
        ])

    pub run_cuckoo_runs :
        (laws : Laws) (rounds steps : ℕ) (bs : List Bucket) (r : Freed (List Bucket))
        → IsPlaced t.hashpower bs
        → run_cuckoo rounds steps t.hashpower bs
            (first_of job t.hashpower)
            (second_of job t.hashpower)
          ≡ some r
        → Comes (after_run r)
        → Comes (goes (rebuilt bs) (searching job t.hashpower))
    run_cuckoo_runs laws zero steps bs r placed e h = unfold run_cuckoo in absurd (cc e)
    run_cuckoo_runs laws (suc rounds) steps bs r placed e h =
        let hp = t.hashpower in
        let i1 = first_of job hp in
        let i2 = second_of job hp in
        elim (Option-cases (cuckoopath_search steps hp bs i1 i2)) [
          | inl f ↦ absurd (cc (e, run_out rounds steps hp i1 i2 bs f))
          | inr (none, f) ↦
              let same : full_table bs ≡ r =
                some_eq (sym (run_full rounds steps hp i1 i2 bs f) ∙ e) in
              cuckoopath_search_runs split retries search_fuel fuel job (rebuilt bs) x placed steps
                none f (unfold finish_insert in subst (λ s. Comes (after_run s)) (sym same) h)
          | inr (some path, f) ↦
              let p = cuckoopath_search-IsPath laws steps hp bs placed i1 i2 path f in
              let m =
                cuckoopath_move-Moves laws p.start path p.chain (length path - 1) bs placed
                  (omega (arith, p.nonempty)) in
              cuckoopath_search_runs split retries search_fuel fuel job (rebuilt bs) x placed steps
                (some path) f
                (tried_runs path (length path - 1) bs
                  (λ done.
                    subst (λ s. Comes (after_run s))
                      (sym (some_eq (sym (run_done rounds steps hp i1 i2 bs path f done) ∙ e))) h)
                  (λ failed.
                    run_cuckoo_runs laws rounds steps _ r m.placed
                      (sym (run_again rounds steps hp i1 i2 bs path f failed) ∙ e) h)
                  (λ bad. cc (e, run_undefined rounds steps hp i1 i2 bs path f bad)))
        ]

    abbrev after_status : Table × Status → Advance
    after_status r = after_insert job t.hashpower r

    displacing_runs :
        (laws : Laws) (rounds steps : ℕ) (r : Table × Status)
        → IsPlaced t.hashpower t.buckets
        → insert_displacing rounds steps
            (hashed_key job.key)
            t
            (first_of job t.hashpower)
            (second_of job t.hashpower)
            job.key
            job.val
          ≡ some r
        → Comes (after_status r)
        → Comes (goes t (searching job t.hashpower))
    unfolding insert_displacing
    displacing_runs laws rounds steps r placed e h =
        elim (Option-cases (
          run_cuckoo rounds steps t.hashpower t.buckets (first_of job t.hashpower)
            (second_of job t.hashpower))) [
              | inl f ↦ absurd (cc (rw (insert_displacing, f) at e))
              | inr (s, f) ↦ run_cuckoo_runs laws rounds steps t.buckets s placed f (
                  subst (λ y. Comes (after_status y))
                    (sym (some_eq (rw (insert_displacing, f) at e))) h)
            ]

    abbrev Searched : ℕ → Option (Option ℕ) → Type 0
    Searched i res =
        try_find_insert_bucket (hashed_key job.key).partial job.key (bucket t.buckets i) ≡ res

    insert_locked_runs :
        (laws : Laws) (rounds steps : ℕ) (r : Table × Status) (res1 res2 : Option (Option ℕ))
        → IsPlaced t.hashpower t.buckets
        → Searched (first_of job t.hashpower) res1
        → Searched (second_of job t.hashpower) res2
        → cuckoo_insert rounds steps
            (hashed_key job.key)
            t
            (first_of job t.hashpower)
            (second_of job t.hashpower)
            job.key
            job.val
          ≡ some r
        → Comes (after_status r)
        → Comes (insert_locked job t)
    unfolding insert_locked cuckoo_insert
    insert_locked_runs laws rounds steps r none res2 placed e1 e2 e h =
        rw (insert_locked, e1)
          (subst (λ y. Comes (after_status y)) (sym (some_eq (rw (cuckoo_insert, e1) at e))) h)
    insert_locked_runs laws rounds steps r (some res1) none placed e1 e2 e h =
        rw (insert_locked, e1, e2)
          (subst (λ y. Comes (after_status y)) (sym (some_eq (rw (cuckoo_insert, e1, e2) at e))) h)
    insert_locked_runs laws rounds steps r (some (some s)) (some res2) placed e1 e2 e h =
        rw (insert_locked, e1, e2)
          (subst (λ y. Comes (after_status y)) (sym (some_eq (rw (cuckoo_insert, e1, e2) at e))) h)
    insert_locked_runs laws rounds steps r (some none) (some (some s)) placed e1 e2 e h =
        rw (insert_locked, e1, e2)
          (subst (λ y. Comes (after_status y)) (sym (some_eq (rw (cuckoo_insert, e1, e2) at e))) h)
    insert_locked_runs laws rounds steps r (some none) (some none) placed e1 e2 e h =
        rw (insert_locked, e1, e2)
          (displacing_runs laws rounds steps r placed (rw (cuckoo_insert, e1, e2) at e) h)

    -- What `cuckoo_insert` returns, and what its caller makes of it, a thread that runs alone comes
    -- to section by section.
    pub cuckoo_insert_runs :
        (laws : Laws) (rounds steps : ℕ) (r : Table × Status)
        → IsPlaced t.hashpower t.buckets
        → cuckoo_insert rounds steps
            (hashed_key job.key)
            t
            (first_of job t.hashpower)
            (second_of job t.hashpower)
            job.key
            job.val
          ≡ some r
        → Comes (after_status r)
        → Comes (insert_locked job t)
    cuckoo_insert_runs laws rounds steps r placed e h =
        insert_locked_runs laws rounds steps r _ _ placed refl refl e h
