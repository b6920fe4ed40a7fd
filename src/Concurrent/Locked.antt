-- ===== src/Concurrent/Locked.antt =====
-- The sections that hold the locks of both buckets of the key.
use libcuckoo_cxx.Base.{
  ℕ, ◌<◌, ◌≡◌, refl, sym, ap, subst, ◌∙◌, inl, inr, true, false, Option, none, some, length, Bool,
  Option-cases,
}
use libcuckoo_cxx.Bucket.Free.{try_find_insert-duplicate, try_find_insert-free}
use libcuckoo_cxx.Bucket.Laws.{is_some}
use libcuckoo_cxx.Bucket.Search.{try_find_insert_bucket}
use libcuckoo_cxx.Concurrent.Meaning.{meant, Advanced, ended, stays, after_insert-Advanced}
use libcuckoo_cxx.Concurrent.{
  Job, Caller, by_insert, by_upsert, by_upsert_loop, Advance, answers, asked, job_request,
  insert_locked, insert_freed, locked,
}
use libcuckoo_cxx.Cuckoo.Insertion.{Kept, Inserted, duplicated, add-Inserted, not_found, present}
use libcuckoo_cxx.Cuckoo.Place.{IsHome-lt}
use libcuckoo_cxx.Cuckoo.{CuckooRecord, freed, finish_insert}
use libcuckoo_cxx.Insert.History.{Request, ask_upsert, meant_change}
use libcuckoo_cxx.Params.{Params, Laws}
use libcuckoo_cxx.Table.Counts.{IsValid}
use libcuckoo_cxx.Table.Lookup.{contains-find, tag}
use libcuckoo_cxx.Table.Update.{update_fn-Changed, update_fn_absent}
use libcuckoo_cxx.Table.Valid.{cell, home, other_home, IsHome}
use libcuckoo_cxx.Table.{Table, returned, hashed_key, bucket, find, contains, update_fn}

module _ ⦃P : Params⦄ where
  open P use {Key, Mapped, slot_per_bucket}

  unchanged : (t : Table) → IsValid t → Kept t t
  unchanged t valid = record {
    valid = valid;
    reads = λ q. refl;
    counts = refl;
    settings = (refl, refl, refl);
  }

  module _ (laws : Laws) (job : Job) (t : Table) (valid : IsValid t) where
    abbrev Searched : ℕ → Option (Option ℕ) → Type 0
    Searched i res = try_find_insert_bucket (tag job.key) job.key (bucket t.buckets i) ≡ res

    -- Both buckets have been searched, and say where a place is.
    insert_locked_by :
        (res1 res2 : Option (Option ℕ))
        → Searched (home t.hashpower job.key) res1
        → Searched (other_home t.hashpower job.key) res2
        → Advanced t (asked job) (insert_locked job t)
    unfolding insert_locked hashed_key
    insert_locked_by none res2 e1 e2 =
        rw (insert_locked, e1)
          (after_insert-Advanced job _ t _ (
            duplicated (present laws t valid job.key job.val _ (try_find_insert-duplicate _ _ _ e1))
              (unchanged t valid)))
    insert_locked_by (some res1) none e1 e2 =
        rw (insert_locked, e1, e2)
          (after_insert-Advanced job _ t _ (
            duplicated (present laws t valid job.key job.val _ (try_find_insert-duplicate _ _ _ e2))
              (unchanged t valid)))
    insert_locked_by (some (some s)) (some res2) e1 e2 =
        let (lt, free) = try_find_insert-free _ _ _ s e1 in
        rw (insert_locked, e1, e2)
          (after_insert-Advanced job _ t _ (
            add-Inserted laws t valid job.key job.val (home t.hashpower job.key) s (inl refl)
              (not_found laws t valid job.key job.val _ _ e1 e2) lt free))
    insert_locked_by (some none) (some (some s)) e1 e2 =
        let (lt, free) = try_find_insert-free _ _ _ s e2 in
        rw (insert_locked, e1, e2)
          (after_insert-Advanced job _ t _ (
            add-Inserted laws t valid job.key job.val (other_home t.hashpower job.key) s (inr refl)
              (not_found laws t valid job.key job.val _ _ e1 e2) lt free))
    insert_locked_by (some none) (some none) e1 e2 =
        rw (insert_locked, e1, e2) (stays valid tt refl)

    insert_locked-Advanced : Advanced t (asked job) (insert_locked job t)
    insert_locked-Advanced = insert_locked_by _ _ refl refl

    -- `upsert` goes by the answer of its update.
    abbrev after_update : Table × Bool → Advance
    after_update (t', true) = answers t' (returned true)
    after_update (t', false) = insert_locked job t'

    locked_by_update :
        (f : Mapped → Mapped) → locked (by_upsert f) job t ≡ after_update (update_fn t job.key f)
    unfolding locked update_fn
    locked_by_update f = refl

    updated-Advanced :
        (f : Mapped → Mapped)
        → asked job ≡ ask_upsert job.key f job.val
        → is_some (find t job.key) ≡ true
        → Advanced t (asked job) (after_update (update_fn t job.key f))
    updated-Advanced f e there =
        let c = update_fn-Changed laws t valid job.key f in
        let yes : (update_fn t job.key f).1 ≡ true = c.answer ∙ there in
        subst (λ (b : Bool). Advanced t (asked job) (after_update ((update_fn t job.key f).0, b)))
          (sym yes)
          (subst (λ (r : Request). Advanced t r (answers (update_fn t job.key f).0 (returned true)))
            (sym e) (ended c.valid c.limits (meant (meant_change there c.reads))))

    upsert-Advanced :
        (f : Mapped → Mapped)
        → job.caller ≡ by_upsert f
        → Advanced t (asked job) (locked (by_upsert f) job t)
    unfolding job_request
    upsert-Advanced f e =
        subst (Advanced t (asked job)) (sym (locked_by_update f))
          (elim (Option-cases (find t job.key)) [
            | inl absent ↦
                subst (λ (x : Table × Bool). Advanced t (asked job) (after_update x))
                  (sym (update_fn_absent laws t valid job.key f absent)) insert_locked-Advanced
            | inr (w, there) ↦
                updated-Advanced f (ap (λ c. job_request c job.key job.val) e) (ap is_some there)
          ])

    pub locked-Advanced : (c : Caller) → job.caller ≡ c → Advanced t (asked job) (locked c job t)
    unfolding locked
    locked-Advanced by_insert e = insert_locked-Advanced
    locked-Advanced (by_upsert f) e = upsert-Advanced f e
    locked-Advanced (by_upsert_loop f) e = insert_locked-Advanced

    -- A slot of one of the two buckets is seen to be empty while both are locked.
    freed-Inserted :
        (i s : ℕ)
        → IsHome t.hashpower job.key i
        → s < slot_per_bucket
        → (cell t.buckets i s).occupied ≡ false
        → Inserted t job.key job.val (
            finish_insert
              (hashed_key job.key)
              t
              (home t.hashpower job.key)
              (other_home t.hashpower job.key)
              job.key
              job.val
              (freed t.buckets i s))
    unfolding finish_insert hashed_key contains
    freed-Inserted i s at lt empty =
        let hi : i < length t.buckets =
          rw (valid.placed.width) (IsHome-lt t.hashpower job.key i valid.placed.small at) in
        let same = contains-find t job.key in
        elim (Option-cases (find t job.key)) [
          | inl e ↦
              rw (finish_insert, same ∙ ap is_some e)
                (add-Inserted laws t valid job.key job.val i s at e (rw (valid.placed.rows i hi) lt)
                  empty)
          | inr (w, e) ↦
              rw (finish_insert, same ∙ ap is_some e)
                (duplicated (ap is_some e) (unchanged t valid))
        ]

    insert_freed-Advanced :
        (r : CuckooRecord)
        → IsHome t.hashpower job.key r.bucket
        → r.slot < slot_per_bucket
        → (cell t.buckets r.bucket r.slot).occupied ≡ false
        → Advanced t (asked job) (insert_freed job t.hashpower t r)
    unfolding hashed_key
    insert_freed-Advanced r at lt empty =
        after_insert-Advanced job _ t _ (freed-Inserted r.bucket r.slot at lt empty)

    -- The same, at a hashpower that the thread knows from before.
    pub freed_at :
        (hp : ℕ)
        → t.hashpower ≡ hp
        → (r : CuckooRecord) → IsHome hp job.key r.bucket
        → r.slot < slot_per_bucket
        → (cell t.buckets r.bucket r.slot).occupied ≡ false
        → Advanced t (asked job) (insert_freed job hp t r)
    freed_at hp same r at lt empty =
        subst (λ n. Advanced t (asked job) (insert_freed job n t r)) same
          (insert_freed-Advanced r (subst (λ n. IsHome n job.key r.bucket) (sym same) at) lt empty)
