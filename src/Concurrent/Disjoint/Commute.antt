-- ===== src/Concurrent/Disjoint/Commute.antt =====
-- Two sections that lock the buckets of two keys, with no lock in common, in either order.
use libcuckoo_cxx.Base.{
  ℕ, ◌≡◌, refl, sym, ap, ap₂, subst, ◌∙◌, List, Bool, true, false, Option, none, some,
}
use libcuckoo_cxx.Bucket.{Bucket}
use libcuckoo_cxx.Bucket.Search.{
  try_del_from_bucket, try_find_insert_bucket, try_update_bucket, try_update_bucket_fn,
}
use libcuckoo_cxx.Concurrent.Disjoint.Plans.{
  returns, leave, one_less, tagged, replace_one, call_plan, place_in, insert_plan, job_plan,
  plan_at, key_at, run_section-RunsAs,
}
use libcuckoo_cxx.Concurrent.Disjoint.{
  Plan, PassesOn, Disjoint, write, write_comm, untouched, table_of, rest_of,
}
use libcuckoo_cxx.Concurrent.{
  Caller, by_insert, by_upsert, by_upsert_loop, Job, Position, calling, locking, scanning,
  recording, moving, counting, doubling, emptied, undefined, Advance, goes, after_insert, searching,
  run_section,
}
use libcuckoo_cxx.Params.{Params}
use libcuckoo_cxx.Table.History.{
  Call, call_contains, call_erase, call_update, call_update_fn, call_clear,
}
use libcuckoo_cxx.Table.{
  Table, failure_key_duplicated, hashed_key, first_bucket, second_bucket, bucket,
}

module _ ⦃P : Params⦄ where
  open P use {Key, Mapped}

  leave-PassesOn :
      {out : Table → Advance}
      → ((t : Table) → table_of (out t) ≡ t)
      → ((t u : Table) → rest_of (out t) ≡ rest_of (out u))
      → PassesOn (leave out)
  leave-PassesOn k s = record { keeps = k; same = s }

  returns-PassesOn :
      (b : Bool) (w : Option (Bool × Bucket)) (g : Option (ℕ → ℕ))
      → PassesOn (record { written = w; counted = g; outcome = returns b })
  returns-PassesOn b w g = record { keeps = λ t. refl; same = λ t u. refl }

  replace-PassesOn :
      (f : Bucket → Option Bucket) (g : Option (ℕ → ℕ)) (b : Bool) (other : Plan) (x y : Bucket)
      → PassesOn other
      → PassesOn (replace_one f g (returns b) other x y)
  replace-PassesOn f g b other x y h = by (f x) (f y)
    where
      by :
          (o o' : Option Bucket)
          → PassesOn (elim o [
            | some c ↦ record { written = some (true, c); counted = g; outcome = returns b }
            | none ↦ elim o' [
              | some c ↦ record { written = some (false, c); counted = g; outcome = returns b }
              | none ↦ other
            ]
          ])
      by (some c) o' = returns-PassesOn b (some (true, c)) g
      by none (some c) = returns-PassesOn b (some (false, c)) g
      by none none = h

  call-PassesOn : (c : Call) (x y : Bucket) → PassesOn (call_plan c x y)
  call-PassesOn (call_contains k) x y = returns-PassesOn _ none none
  call-PassesOn (call_erase k) x y =
      replace-PassesOn (try_del_from_bucket (tagged k) k) (some one_less) true _ x y
        (returns-PassesOn false none none)
  call-PassesOn (call_update k v) x y =
      replace-PassesOn (λ b. try_update_bucket (tagged k) b k v) none true _ x y
        (returns-PassesOn false none none)
  call-PassesOn (call_update_fn k f) x y =
      replace-PassesOn (try_update_bucket_fn (tagged k) k f) none true _ x y
        (returns-PassesOn false none none)
  call-PassesOn call_clear x y = returns-PassesOn true none none

  duplicated-PassesOn :
      (c : Caller) (k : Key) (v : Mapped) (hp : ℕ)
      → PassesOn (
          leave (λ t.
            after_insert (record { caller = c; key = k; val = v }) hp (t, failure_key_duplicated)))
  unfolding after_insert
  duplicated-PassesOn by_insert k v hp = record { keeps = λ t. refl; same = λ t u. refl }
  duplicated-PassesOn (by_upsert f) k v hp = record { keeps = λ t. refl; same = λ t u. refl }
  duplicated-PassesOn (by_upsert_loop f) k v hp = record { keeps = λ t. refl; same = λ t u. refl }

  placed-PassesOn :
      (job : Job) (hp : ℕ) (first : Bool) (b : Bucket) (s : ℕ)
      → PassesOn (place_in job hp first b s)
  unfolding after_insert
  placed-PassesOn job hp first b s = record { keeps = λ t. refl; same = λ t u. refl }

  insert-PassesOn : (job : Job) (hp : ℕ) (x y : Bucket) → PassesOn (insert_plan job hp x y)
  insert-PassesOn job hp x y =
      by (try_find_insert_bucket (tagged job.key) job.key x)
        (try_find_insert_bucket (tagged job.key) job.key y)
    where
      by :
          (res1 res2 : Option (Option ℕ))
          → PassesOn (elim res1 [
            | none ↦ leave (λ t. after_insert job hp (t, failure_key_duplicated))
            | some r1 ↦ elim res2 [
              | none ↦ leave (λ t. after_insert job hp (t, failure_key_duplicated))
              | some r2 ↦ elim r1 [
                | some s ↦ place_in job hp true x s
                | none ↦ elim r2 [
                  | some s ↦ place_in job hp false y s
                  | none ↦ leave (λ t. goes t (searching job hp))
                ]
              ]
            ]
          ])
      by none res2 = duplicated-PassesOn job.caller job.key job.val hp
      by (some r1) none = duplicated-PassesOn job.caller job.key job.val hp
      by (some (some s)) (some r2) = placed-PassesOn job hp true x s
      by (some none) (some (some s)) = placed-PassesOn job hp false y s
      by (some none) (some none) = leave-PassesOn (λ t. refl) (λ t u. refl)

  job-PassesOn : (c : Caller) (job : Job) (hp : ℕ) (x y : Bucket) → PassesOn (job_plan c job hp x y)
  job-PassesOn by_insert job hp x y = insert-PassesOn job hp x y
  job-PassesOn (by_upsert_loop f) job hp x y = insert-PassesOn job hp x y
  job-PassesOn (by_upsert f) job hp x y =
      replace-PassesOn (try_update_bucket_fn (tagged job.key) job.key f) none true _ x y
        (insert-PassesOn job hp x y)

  plan-PassesOn : (p : Position) (hp : ℕ) (x y : Bucket) → PassesOn (plan_at p hp x y)
  plan-PassesOn (calling c) hp x y = call-PassesOn c x y
  plan-PassesOn (locking job) hp x y = job-PassesOn job.caller job hp x y
  plan-PassesOn (scanning job hp' q z left i) hp x y = returns-PassesOn true none none
  plan-PassesOn (recording job hp' path b slots) hp x y = returns-PassesOn true none none
  plan-PassesOn (moving job hp' path depth) hp x y = returns-PassesOn true none none
  plan-PassesOn (counting job hp' i size) hp x y = returns-PassesOn true none none
  plan-PassesOn (doubling job hp') hp x y = returns-PassesOn true none none
  plan-PassesOn (emptied r) hp x y = returns-PassesOn true none none
  plan-PassesOn (undefined r) hp x y = returns-PassesOn true none none

  write_hashpower :
      (i1 i2 : ℕ) (g : Option (ℕ → ℕ)) (o : Option (Bool × Bucket)) (t : Table)
      → (write i1 i2 g o t).hashpower ≡ t.hashpower
  write_hashpower i1 i2 g none t = refl
  write_hashpower i1 i2 g (some w) t = refl

  abbrev first_at : ℕ → Key → ℕ
  first_at hp k = first_bucket hp (hashed_key k)

  abbrev second_at : ℕ → Key → ℕ
  second_at hp k = second_bucket hp (hashed_key k)

  -- What a section at `p` makes of the two buckets of `k`.
  abbrev plan_on : Position → Key → ℕ → Table → Plan
  plan_on p k hp t =
      plan_at p hp (bucket t.buckets (first_at hp k)) (bucket t.buckets (second_at hp k))

  abbrev written_by : Key → ℕ → Plan → Table → Table
  written_by k hp w t = write (first_at hp k) (second_at hp k) w.counted w.written t

  module _ (split : ℕ → List (ℕ × ℕ)) (retries search_fuel fuel : ℕ) where
    abbrev section : Position → Table → Advance
    section p t = run_section split retries search_fuel fuel p t

    section_at :
        (p : Position) (k : Key) (hp : ℕ) (t : Table)
        → key_at p ≡ some k
        → t.hashpower ≡ hp
        → section p t ≡ (plan_on p k hp t).outcome (written_by k hp (plan_on p k hp t) t)
    section_at p k hp t e same =
        subst (λ n. section p t ≡ (plan_on p k n t).outcome (written_by k n (plan_on p k n t) t))
          same (run_section-RunsAs split retries search_fuel fuel p k t e)

    table_after :
        (p : Position) (k : Key) (hp : ℕ) (t : Table)
        → key_at p ≡ some k
        → t.hashpower ≡ hp
        → table_of (section p t) ≡ written_by k hp (plan_on p k hp t) t
    table_after p k hp t e same =
        ap table_of (section_at p k hp t e same)
        ∙ (plan-PassesOn p hp (bucket t.buckets (first_at hp k))
              (bucket t.buckets (second_at hp k))).keeps
            _

    abbrev Apart : ℕ → Key → Key → Type 0
    Apart hp k l = Disjoint (first_at hp k) (second_at hp k) (first_at hp l) (second_at hp l)

    -- A section at `p` after one at `q`, which holds none of its locks.
    module _ (p q : Position) (k l : Key) (t : Table) (e : key_at p ≡ some k)
        (f : key_at q ≡ some l) (apart : Apart t.hashpower k l) where
      abbrev hp : ℕ
      hp = t.hashpower

      abbrev mine : Plan
      mine = plan_on p k hp t

      abbrev others : Plan
      others = plan_on q l hp t

      abbrev between : Table
      between = written_by l hp others t

      same_hashpower : between.hashpower ≡ hp
      same_hashpower =
          write_hashpower (first_at hp l) (second_at hp l) others.counted others.written t

      seen : plan_on p k hp between ≡ mine
      seen =
          let unseen = λ (x : Bool).
            untouched (first_at hp k) (second_at hp k) (first_at hp l) (second_at hp l) apart x
              others.counted others.written t in
          ap₂ (plan_at p hp) (unseen true) (unseen false)

      one_then_other : table_of (section p (table_of (section q t))) ≡ written_by k hp mine between
      one_then_other =
          ap (λ s. table_of (section p s)) (table_after q l hp t f refl)
          ∙ table_after p k hp between e same_hashpower
          ∙ ap (λ w. written_by k hp w between) seen

      rest_kept : rest_of (section p (table_of (section q t))) ≡ rest_of (section p t)
      rest_kept =
          let passed =
            plan-PassesOn p hp (bucket t.buckets (first_at hp k))
              (bucket t.buckets (second_at hp k)) in
          ap (λ s. rest_of (section p s)) (table_after q l hp t f refl)
          ∙ ap rest_of (section_at p k hp between e same_hashpower)
          ∙ ap (λ (w : Plan). rest_of (w.outcome (written_by k hp w between))) seen
          ∙ passed.same _ _
          ∙ sym (ap rest_of (section_at p k hp t e refl))

    -- Take two sections that lock the two buckets of a key, those of `contains`, `erase`,
    -- `update`, `update_fn` and the first ones of `insert` and `upsert`, on two keys whose buckets
    -- share no lock at the hashpower of the table; then it makes no difference which of the two
    -- runs first: the tables are equal, counters included, and each section answers or goes on as
    -- if the other had not been there.
    pub sections_commute :
        (p q : Position) (k l : Key) (t : Table)
        → key_at p ≡ some k
        → key_at q ≡ some l
        → Apart t.hashpower k l
        → (table_of (section p (table_of (section q t)))
            ≡ table_of (section q (table_of (section p t))))
          × (rest_of (section p (table_of (section q t))) ≡ rest_of (section p t))
          × (rest_of (section q (table_of (section p t))) ≡ rest_of (section q t))
    sections_commute p q k l t e f apart =
        let apart' : Apart t.hashpower l k = λ x y same. apart y x (sym same) in
        (
          one_then_other p q k l t e f apart
              ∙ write_comm (first_at t.hashpower k) (second_at t.hashpower k)
                  (first_at t.hashpower l) (second_at t.hashpower l) apart _ _ _ _ t
              ∙ sym (one_then_other q p l k t f e apart'),
          rest_kept p q k l t e f apart,
          rest_kept q p l k t f e apart',
        )
