-- ===== src/Concurrent/System.antt =====
-- Any number of threads over one `cuckoohash_map` of libcuckoo/cuckoohash_map.hh, each with its own
-- calls, in any interleaving of the sections. A schedule says which thread runs next.
use libcuckoo_cxx.Base.{ℕ, List, [], ◌∷◌, Option, none, some, Bool, ◌==◌, if◌then◌else◌}
use libcuckoo_cxx.Concurrent.{Position, Advance, goes, answers, request_at, start_of, run_section}
use libcuckoo_cxx.Insert.History.{Request}
use libcuckoo_cxx.Params.{Params}
use libcuckoo_cxx.Table.{Table, Result}

module _ ⦃P : Params⦄ where
  -- A thread in a call or between two calls, and its calls to come.
  pub record Worker : Type 0 where
    pub now : Option Position
    pub todo : List Request

  -- A call that has ended: its thread, what was asked, and the answer.
  pub record Entry : Type 0 where
    pub thread : ℕ
    pub request : Request
    pub answer : Result Bool

  -- `log` holds the calls that have ended, the last one first.
  pub record System : Type 0 where
    pub table : Table
    pub workers : ℕ → Worker
    pub log : List Entry

  unfoldable pub assign_worker : (ℕ → Worker) → ℕ → Worker → ℕ → Worker
  assign_worker workers i w j = if i == j then w else workers j

  abbrev pub started : (Table) → (ℕ → List Request) → System
  started t programs = record {
    table = t;
    workers = λ i. record { now = none; todo = programs i };
    log = [];
  }

  -- The state after a section of thread `i`, which was at `p`.
  unfoldable pub settle : ℕ → Position → System → Advance → System
  settle i p s (goes t p') = record s {
    table = t;
    workers = assign_worker s.workers i (record { now = some p'; todo = (s.workers i).todo });
  }
  settle i p s (answers t a) = record {
    table = t;
    workers = assign_worker s.workers i (record { now = none; todo = (s.workers i).todo });
    log = record { thread = i; request = request_at p; answer = a } ∷ s.log;
  }

  module _ (split : ℕ → List (ℕ × ℕ)) (retries search_fuel fuel : ℕ) where
    -- Thread `i` runs one section, or enters its next call, or is done.
    unfoldable pub run_worker : ℕ → System → System
    run_worker i s = elim (s.workers i).now [
      | some p ↦ settle i p s (run_section split retries search_fuel fuel p s.table)
      | none ↦ elim (s.workers i).todo [
        | [] ↦ s
        | r ∷ rest ↦ record s {
          workers = assign_worker s.workers i (record { now = some (start_of r); todo = rest });
        }
      ]
    ]

    -- The thread that the schedule names first runs first.
    unfoldable pub run_schedule : List ℕ → System → System
    run_schedule [] s = s
    run_schedule (i ∷ schedule) s = run_schedule schedule (run_worker i s)
