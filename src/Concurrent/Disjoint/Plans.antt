-- ===== src/Concurrent/Disjoint/Plans.antt =====
-- The sections that lock the two buckets of a key, each as a plan that is made from these buckets.
use libcuckoo_cxx.Base.{
  ℕ, ◌+◌, ◌-◌, ◌^◌, ◌≡◌, refl, sym, ap, ◌∙◌, Bool, true, false, Option, none, some, arith,
  if◌then◌else◌, Option-cases, inl, inr, List, subst, some_eq,
}
use libcuckoo_cxx.Bucket.{Bucket, set_kv}
use libcuckoo_cxx.Bucket.Search.{
  check_in_bucket, try_del_from_bucket, try_find_insert_bucket, try_update_bucket,
  try_update_bucket_fn,
}
use libcuckoo_cxx.Concurrent.Disjoint.{Plan, carry_out}
use libcuckoo_cxx.Concurrent.{
  Caller, by_insert, by_upsert, by_upsert_loop, Job, Position, calling, locking, scanning,
  recording, moving, counting, doubling, emptied, undefined, Advance, goes, answers, searching,
  after_insert, insert_locked, locked, run_section, first_of, second_of,
}
use libcuckoo_cxx.Config.{u64}
use libcuckoo_cxx.Params.{Params}
use libcuckoo_cxx.Table.History.{
  Call, call_contains, call_erase, call_update, call_update_fn, call_clear, perform,
}
use libcuckoo_cxx.Table.{
  Table, Status, ok, is_ok, failure_key_duplicated, failure_key_not_found, returned, hashed_key,
  first_bucket, second_bucket, bucket, add_to_bucket, nonatomic_inc, nonatomic_dec, cuckoo_contains,
  delete_at, cuckoo_delete, cuckoo_update, cuckoo_update_fn, contains, erase, update, update_fn,
}

module _ ⦃P : Params⦄ where
  open P use {Key, Mapped}

  abbrev pub returns : Bool → Table → Advance
  returns b t = answers t (returned b)

  abbrev pub leave : (Table → Advance) → Plan
  leave out = record { written = none; counted = none; outcome = out }

  -- The first bucket of the two that `f` replaces.
  abbrev pub replace_one :
      (Bucket → Option Bucket) → Option (ℕ → ℕ) → (Table → Advance) → Plan → Bucket → Bucket → Plan
  replace_one f g out otherwise b1 b2 = elim (f b1) [
    | some b ↦ record { written = some (true, b); counted = g; outcome = out }
    | none ↦ elim (f b2) [
      | some b ↦ record { written = some (false, b); counted = g; outcome = out }
      | none ↦ otherwise
    ]
  ]

  abbrev pub one_less : ℕ → ℕ
  one_less n = u64 (2 ^ 64 - 1 + n)

  abbrev one_more : ℕ → ℕ
  one_more n = u64 (1 + n)

  abbrev pub tagged : Key → ℕ
  tagged k = (hashed_key k).partial

  abbrev pub call_plan : Call → Bucket → Bucket → Plan
  call_plan (call_contains k) b1 b2 =
      leave (
        returns (if check_in_bucket (tagged k) k b1 then true else check_in_bucket (tagged k) k b2))
  call_plan (call_erase k) b1 b2 =
      replace_one (try_del_from_bucket (tagged k) k) (some one_less) (returns true)
        (leave (returns false)) b1 b2
  call_plan (call_update k v) b1 b2 =
      replace_one (λ b. try_update_bucket (tagged k) b k v) none (returns true)
        (leave (returns false)) b1 b2
  call_plan (call_update_fn k f) b1 b2 =
      replace_one (try_update_bucket_fn (tagged k) k f) none (returns true) (leave (returns false))
        b1 b2
  call_plan call_clear b1 b2 = leave (returns true)

  abbrev pub place_in : Job → ℕ → Bool → Bucket → ℕ → Plan
  place_in job hp first b s = record {
    written = some (first, set_kv b s (tagged job.key) job.key job.val);
    counted = some one_more;
    outcome = λ t. after_insert job hp (t, ok);
  }

  abbrev pub insert_plan : Job → ℕ → Bucket → Bucket → Plan
  insert_plan job hp b1 b2 = elim (try_find_insert_bucket (tagged job.key) job.key b1) [
    | none ↦ leave (λ t. after_insert job hp (t, failure_key_duplicated))
    | some res1 ↦ elim (try_find_insert_bucket (tagged job.key) job.key b2) [
      | none ↦ leave (λ t. after_insert job hp (t, failure_key_duplicated))
      | some res2 ↦ elim res1 [
        | some s ↦ place_in job hp true b1 s
        | none ↦ elim res2 [
          | some s ↦ place_in job hp false b2 s
          | none ↦ leave (λ t. goes t (searching job hp))
        ]
      ]
    ]
  ]

  abbrev pub job_plan : Caller → Job → ℕ → Bucket → Bucket → Plan
  job_plan by_insert job hp b1 b2 = insert_plan job hp b1 b2
  job_plan (by_upsert_loop f) job hp b1 b2 = insert_plan job hp b1 b2
  job_plan (by_upsert f) job hp b1 b2 =
      replace_one (try_update_bucket_fn (tagged job.key) job.key f) none (returns true)
        (insert_plan job hp b1 b2) b1 b2

  module _ (t : Table) (k : Key) where
    abbrev home1 : ℕ
    home1 = first_bucket t.hashpower (hashed_key k)

    abbrev home2 : ℕ
    home2 = second_bucket t.hashpower (hashed_key k)

    abbrev goes_with : Plan → Advance
    goes_with p = carry_out home1 home2 p t

    erase_carried :
        (let (t', b) = erase t k in answers t' (returned b))
        ≡ goes_with (call_plan (call_erase k) (bucket t.buckets home1) (bucket t.buckets home2))
    unfolding erase cuckoo_delete delete_at nonatomic_dec
    erase_carried =
        elim (Option-cases (try_del_from_bucket (tagged k) k (bucket t.buckets home1))) [
          | inr (b, e) ↦ ground (arith, e)
          | inl e ↦
              elim (Option-cases (try_del_from_bucket (tagged k) k (bucket t.buckets home2))) [
                | inr (b, f) ↦ ground (arith, e, f)
                | inl f ↦ ground (arith, e, f)
              ]
        ]

    contains_carried :
        answers t (returned (contains t k))
        ≡ goes_with (call_plan (call_contains k) (bucket t.buckets home1) (bucket t.buckets home2))
    unfolding contains cuckoo_contains
    contains_carried = refl

    update_carried :
        (v : Mapped)
        → (let (t', b) = update t k v in answers t' (returned b))
          ≡ goes_with
              (call_plan (call_update k v) (bucket t.buckets home1) (bucket t.buckets home2))
    unfolding update cuckoo_update
    update_carried v =
        elim (Option-cases (try_update_bucket (tagged k) (bucket t.buckets home1) k v)) [
          | inr (b, e) ↦ ground (arith, e)
          | inl e ↦
              elim (Option-cases (try_update_bucket (tagged k) (bucket t.buckets home2) k v)) [
                | inr (b, f) ↦ ground (arith, e, f)
                | inl f ↦ ground (arith, e, f)
              ]
        ]

    update_fn_carried :
        (fn : Mapped → Mapped)
        → (let (t', b) = update_fn t k fn in answers t' (returned b))
          ≡ goes_with
              (call_plan (call_update_fn k fn) (bucket t.buckets home1) (bucket t.buckets home2))
    unfolding update_fn cuckoo_update_fn
    update_fn_carried fn =
        elim (Option-cases (try_update_bucket_fn (tagged k) k fn (bucket t.buckets home1))) [
          | inr (b, e) ↦ ground (arith, e)
          | inl e ↦
              elim (Option-cases (try_update_bucket_fn (tagged k) k fn (bucket t.buckets home2))) [
                | inr (b, f) ↦ ground (arith, e, f)
                | inl f ↦ ground (arith, e, f)
              ]
        ]

  module _ (t : Table) (job : Job) where
    abbrev b1 : Bucket
    b1 = bucket t.buckets (first_of job t.hashpower)

    abbrev b2 : Bucket
    b2 = bucket t.buckets (second_of job t.hashpower)

    insert_by :
        (res1 res2 : Option (Option ℕ))
        → try_find_insert_bucket (tagged job.key) job.key b1 ≡ res1
        → try_find_insert_bucket (tagged job.key) job.key b2 ≡ res2
        → insert_locked job t ≡ goes_with t job.key (insert_plan job t.hashpower b1 b2)
    unfolding insert_locked add_to_bucket nonatomic_inc
    insert_by none res2 e f = rw (insert_locked, insert_plan, e) refl
    insert_by (some res1) none e f = rw (insert_locked, insert_plan, e, f) refl
    insert_by (some (some s)) (some res2) e f = rw (insert_locked, insert_plan, e, f) refl
    insert_by (some none) (some (some s)) e f = rw (insert_locked, insert_plan, e, f) refl
    insert_by (some none) (some none) e f = rw (insert_locked, insert_plan, e, f) refl

    abbrev update_job : (Mapped → Mapped) → Table × Status
    update_job f =
        cuckoo_update_fn job.key f (tagged job.key) t (first_of job t.hashpower)
          (second_of job t.hashpower)

    abbrev after_update : Table × Status → Advance
    after_update (t', st) = elim (is_ok st) [
      | true ↦ answers t' (returned true)
      | false ↦ insert_locked job t'
    ]

    not_updated :
        (f : Mapped → Mapped)
        → try_update_bucket_fn (tagged job.key) job.key f b1 ≡ none
        → try_update_bucket_fn (tagged job.key) job.key f b2 ≡ none
        → locked (by_upsert f) job t ≡ insert_locked job t
    unfolding locked
    not_updated f e g =
        let unchanged : update_job f ≡ (t, failure_key_not_found) =
          unfold cuckoo_update_fn in rw (cuckoo_update_fn, e, g) refl in
        ap after_update unchanged

    plan_by_insert :
        (f : Mapped → Mapped)
        → try_update_bucket_fn (tagged job.key) job.key f b1 ≡ none
        → try_update_bucket_fn (tagged job.key) job.key f b2 ≡ none
        → job_plan (by_upsert f) job t.hashpower b1 b2 ≡ insert_plan job t.hashpower b1 b2
    plan_by_insert f e g = rw (replace_one, e, g) refl

    job_carried :
        (c : Caller) → locked c job t ≡ goes_with t job.key (job_plan c job t.hashpower b1 b2)
    unfolding locked cuckoo_update_fn
    job_carried by_insert = insert_by _ _ refl refl
    job_carried (by_upsert_loop f) = insert_by _ _ refl refl
    job_carried (by_upsert f) =
        elim (Option-cases (try_update_bucket_fn (tagged job.key) job.key f b1)) [
          | inr (b, e) ↦ ground (arith, e)
          | inl e ↦ elim (Option-cases (try_update_bucket_fn (tagged job.key) job.key f b2)) [
            | inr (b, g) ↦ ground (arith, e, g)
            | inl g ↦
                not_updated f e g
                ∙ insert_by _ _ refl refl
                ∙ ap (goes_with t job.key) (sym (plan_by_insert f e g))
          ]
        ]

  -- The key whose two buckets the section locks.
  abbrev pub key_at : Position → Option Key
  key_at (calling (call_contains k)) = some k
  key_at (calling (call_erase k)) = some k
  key_at (calling (call_update k v)) = some k
  key_at (calling (call_update_fn k f)) = some k
  key_at (locking job) = some job.key
  key_at _ = none

  abbrev pub plan_at : Position → ℕ → Bucket → Bucket → Plan
  plan_at (calling c) hp x y = call_plan c x y
  plan_at (locking job) hp x y = job_plan job.caller job hp x y
  plan_at _ hp x y = leave (returns true)

  module _ (split : ℕ → List (ℕ × ℕ)) (retries search_fuel fuel : ℕ) where
    abbrev pub RunsAs : Position → Table → Key → Type 0
    RunsAs p t k =
        run_section split retries search_fuel fuel p t
        ≡ goes_with t k
            (plan_at p t.hashpower (bucket t.buckets (home1 t k)) (bucket t.buckets (home2 t k)))

    pub run_section-RunsAs : (p : Position) (k : Key) (t : Table) → key_at p ≡ some k → RunsAs p t k
    unfolding run_section perform
    run_section-RunsAs (calling (call_contains l)) k t e =
        subst (RunsAs (calling (call_contains l)) t) (some_eq e) (contains_carried t l)
    run_section-RunsAs (calling (call_erase l)) k t e =
        subst (RunsAs (calling (call_erase l)) t) (some_eq e) (erase_carried t l)
    run_section-RunsAs (calling (call_update l v)) k t e =
        subst (RunsAs (calling (call_update l v)) t) (some_eq e) (update_carried t l v)
    run_section-RunsAs (calling (call_update_fn l f)) k t e =
        subst (RunsAs (calling (call_update_fn l f)) t) (some_eq e) (update_fn_carried t l f)
    run_section-RunsAs (calling call_clear) k t e = absurd (cc e)
    run_section-RunsAs (locking job) k t e =
        subst (RunsAs (locking job) t) (some_eq e) (job_carried t job job.caller)
    run_section-RunsAs (scanning job hp q x left i) k t e = absurd (cc e)
    run_section-RunsAs (recording job hp path b slots) k t e = absurd (cc e)
    run_section-RunsAs (moving job hp path depth) k t e = absurd (cc e)
    run_section-RunsAs (counting job hp i size) k t e = absurd (cc e)
    run_section-RunsAs (doubling job hp) k t e = absurd (cc e)
    run_section-RunsAs (emptied r) k t e = absurd (cc e)
    run_section-RunsAs (undefined r) k t e = absurd (cc e)
