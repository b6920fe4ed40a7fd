-- ===== src/Concurrent/Meaning.antt =====
-- What one section of a thread may do to the map and what it may answer.
use libcuckoo_cxx.Base.{arith, ℕ, ◌≡◌, refl, ◌∙◌, subst, Bool, Option}
use libcuckoo_cxx.Concurrent.{
  Caller, by_insert, by_upsert, by_upsert_loop, Job, Position, Advance, goes, answers, asked,
  job_request, request_at, after_insert,
}
use libcuckoo_cxx.Concurrent.Stand.{Stands}
use libcuckoo_cxx.Cuckoo.Insertion.{Inserted, added, duplicated, no_room}
use libcuckoo_cxx.Insert.History.{
  Request, ask_insert, ask_upsert, Refusal, Meant, meant_insert, meant_present, meant_upsert,
}
use libcuckoo_cxx.Insert.Outcomes.{Alike, Kept-Alike, Alike-trans}
use libcuckoo_cxx.Params.{Params}
use libcuckoo_cxx.Table.Counts.{IsValid, SameLimits}
use libcuckoo_cxx.Table.History.{same_map}
use libcuckoo_cxx.Table.{
  Table, Exception, Status, failure_table_full, failure_under_expansion, Result, thrown, find,
}

module _ ⦃P : Params⦄ where
  open P use {Key, Mapped}

  -- What a call may do to the map at the moment of its answer. An insertion may be refused though
  -- the key is there by now: it was not when the thread looked.
  pub data Answered (m n : Key → Option Mapped) : Request → Result Bool → Type 0 where
    meant : {r : Request} {a : Result Bool} → Meant m n r a → Answered m n r a
    refused_insert :
        {k : Key} {v : Mapped} {e : Exception}
        → Refusal e
        → ((q : Key) → n q ≡ m q)
        → Answered m n (ask_insert k v) (thrown e)
    refused_upsert :
        {k : Key} {f : Mapped → Mapped} {v : Mapped} {e : Exception}
        → Refusal e
        → ((q : Key) → n q ≡ m q)
        → Answered m n (ask_upsert k f v) (thrown e)

  -- A section in a call `r` leaves a valid table with its settings. Where the call goes on, the
  -- map is the same; where it ends, the map changes as the answer says.
  pub data Advanced (t : Table) (r : Request) : Advance → Type 0 where
    went :
        {t' : Table} {p : Position}
        → Alike t t'
        → Stands p
        → request_at p ≡ r
        → Advanced t r (goes t' p)
    ended :
        {t' : Table} {a : Result Bool}
        → IsValid t'
        → SameLimits t t'
        → Answered (find t) (find t') r a
        → Advanced t r (answers t' a)

  pub Alike-refl : (t : Table) → IsValid t → Alike t t
  Alike-refl t valid = record {
    valid = valid;
    reads = λ q. refl;
    counts = refl;
    factor = refl;
    maximum = refl;
    grown = λ _. omega arith;
  }

  pub stays :
      {t : Table} {r : Request} {p : Position}
      → IsValid t
      → Stands p
      → request_at p ≡ r
      → Advanced t r (goes t p)
  stays {t = t} valid at same = went (Alike-refl t valid) at same

  pub Advanced-Alike :
      {t t' : Table} {r : Request} {a : Advance} → Alike t t' → Advanced t' r a → Advanced t r a
  Advanced-Alike m (went n at same) = went (Alike-trans m n) at same
  Advanced-Alike {r = r} m (ended {t' = u} {a = a} valid limits x) =
      ended valid (limits.0 ∙ m.factor, limits.1 ∙ m.maximum)
        (subst (λ f. Answered f (find u) r a) (same_map m.reads) x)

  -- What the callers make of what `cuckoo_insert` returns.
  after_by :
      (c : Caller) (k : Key) (v : Mapped) (hp : ℕ) (t : Table) (x : Table × Status)
      → Inserted t k v x
      → Advanced t
          (asked (record { caller = c; key = k; val = v }))
          (after_insert (record { caller = c; key = k; val = v }) hp x)
  unfolding after_insert job_request
  after_by by_insert k v hp t _ (added absent x) =
      ended x.valid x.limits (meant (meant_insert absent x.reads))
  after_by (by_upsert f) k v hp t _ (added absent x) =
      ended x.valid x.limits (meant (meant_upsert absent x.reads))
  after_by (by_upsert_loop f) k v hp t _ (added absent x) =
      ended x.valid x.limits (meant (meant_upsert absent x.reads))
  after_by by_insert k v hp t _ (duplicated there x) =
      ended x.valid (x.settings.1, x.settings.2) (meant (meant_present there x.reads))
  after_by (by_upsert f) k v hp t _ (duplicated there x) = went (Kept-Alike x) tt refl
  after_by (by_upsert_loop f) k v hp t _ (duplicated there x) = went (Kept-Alike x) tt refl
  after_by by_insert k v hp t _ (no_room absent x) = went (Kept-Alike x) tt refl
  after_by (by_upsert f) k v hp t _ (no_room absent x) = went (Kept-Alike x) tt refl
  after_by (by_upsert_loop f) k v hp t _ (no_room absent x) = went (Kept-Alike x) tt refl

  pub after_insert-Advanced :
      (job : Job) (hp : ℕ) (t : Table) (x : Table × Status)
      → Inserted t job.key job.val x
      → Advanced t (asked job) (after_insert job hp x)
  after_insert-Advanced job hp t x i = after_by job.caller job.key job.val hp t x i

  pub expanded-Advanced :
      (job : Job) (hp : ℕ) (t : Table)
      → IsValid t
      → Advanced t (asked job) (after_insert job hp (t, failure_under_expansion))
  unfolding after_insert
  expanded-Advanced job hp t valid = stays valid tt refl

  full_by :
      (c : Caller) (k : Key) (v : Mapped) (hp : ℕ) (t : Table)
      → IsValid t
      → Advanced t
          (asked (record { caller = c; key = k; val = v }))
          (after_insert (record { caller = c; key = k; val = v }) hp (t, failure_table_full))
  unfolding after_insert
  full_by by_insert k v hp t valid = stays valid tt refl
  full_by (by_upsert f) k v hp t valid = stays valid tt refl
  full_by (by_upsert_loop f) k v hp t valid = stays valid tt refl

  pub full-Advanced :
      (job : Job) (hp : ℕ) (t : Table)
      → IsValid t
      → Advanced t (asked job) (after_insert job hp (t, failure_table_full))
  full-Advanced job hp t valid = full_by job.caller job.key job.val hp t valid
