-- ===== src/Concurrent/Linear.antt =====
-- All threads together: the calls of every schedule are those of one map, one after the other.
use mathlib.Core.List.{append_assoc}
use libcuckoo_cxx.Base.{
  ℕ, ◌<◌, ◌≡◌, refl, sym, subst, ◌∙◌, ◌⊎◌, inl, inr, List, [], ◌∷◌, ◌++◌, Option, none, some, arith,
  true, Bool-cases, ◌==◌, ==→eq, if◌then◌else◌, Option-cases, Bool,
}
use libcuckoo_cxx.Concurrent.Meaning.{Answered, Advanced, went, ended}
use libcuckoo_cxx.Concurrent.Sound.{run_section-Advanced}
use libcuckoo_cxx.Concurrent.Stand.{Stands}
use libcuckoo_cxx.Concurrent.System.{
  Worker, Entry, System, assign_worker, started, settle, run_worker, run_schedule,
}
use libcuckoo_cxx.Concurrent.{Position, Advance, answers, request_at, start_of, job_request}
use libcuckoo_cxx.Expand.Ranges.{IsPartition}
use libcuckoo_cxx.Insert.History.{Request, simple, ask_insert, ask_upsert}
use libcuckoo_cxx.Params.{Params, Laws}
use libcuckoo_cxx.Table.Counts.{IsValid, SameLimits}
use libcuckoo_cxx.Table.History.{same_map}
use libcuckoo_cxx.Table.{Table, Result, find}

module _ ⦃P : Params⦄ where
  open P use {Key, Mapped}

  -- The calls that have ended lead from the map `m` to another one, in the order of their ends.
  pub data Explains (m : Key → Option Mapped) : List Entry → (Key → Option Mapped) → Type 0 where
    nothing : Explains m [] m
    and_then :
        {log : List Entry} {e : Entry} {l n : Key → Option Mapped}
        → Explains m log l
        → Answered l n e.request e.answer
        → Explains m (e ∷ log) n

  -- The requests of thread `i` that have ended, the first one first.
  unfoldable pub served : ℕ → List Entry → List Request
  served i [] = []
  served i (e ∷ log) = if e.thread == i then served i log ++ e.request ∷ [] else served i log

  -- The call of a thread that has not ended, and those to come.
  abbrev pub unserved : Option Position → List Request → List Request
  unserved none todo = todo
  unserved (some p) todo = request_at p ∷ todo

  abbrev pub StandsAt : Option Position → Type 0
  StandsAt none = Unit
  StandsAt (some p) = Stands p

  -- The table is in order, with its settings; no thread has left the defined behaviour; the
  -- answers so far are those of a map that takes the calls in the order in which they ended, and
  -- that reads as the table does; and each thread has made its calls in its own order: those that
  -- have ended, the one that goes on, and those to come.
  pub record IsLinear (programs : ℕ → List Request) (t : Table) (s : System) : Type 0 where
    pub valid : IsValid s.table
    pub limits : SameLimits t s.table
    pub stands : (i : ℕ) → StandsAt (s.workers i).now
    pub explained : Explains (find t) s.log (find s.table)
    pub in_order :
        (i : ℕ) → served i s.log ++ unserved (s.workers i).now (s.workers i).todo ≡ programs i

  started-IsLinear :
      (programs : ℕ → List Request) (t : Table)
      → IsValid t
      → IsLinear programs t (started t programs)
  unfolding served
  started-IsLinear programs t valid = record {
    valid = valid;
    limits = (refl, refl);
    stands = λ i. tt;
    explained = nothing;
    in_order = λ i. refl;
  }

  start_of-Stands : (r : Request) → Stands (start_of r)
  unfolding start_of
  start_of-Stands (simple c) = tt
  start_of-Stands (ask_insert k v) = tt
  start_of-Stands (ask_upsert k f v) = tt

  request_at-start_of : (r : Request) → request_at (start_of r) ≡ r
  unfolding start_of job_request
  request_at-start_of (simple c) = refl
  request_at-start_of (ask_insert k v) = refl
  request_at-start_of (ask_upsert k f v) = refl

  List-cases :
      (l : List Request) → (l ≡ []) ⊎ ((r : Request) × (rest : List Request) × (l ≡ r ∷ rest))
  List-cases [] = inl refl
  List-cases (r ∷ rest) = inr (r, rest, refl)

  -- What holds of every thread holds after one of them is given another state that it holds of.
  assigned :
      (At : ℕ → Worker → Type 0) (workers : ℕ → Worker) (i : ℕ) (w : Worker)
      → At i w
      → ((j : ℕ) → At j (workers j))
      → (j : ℕ) → At j (assign_worker workers i w j)
  unfolding assign_worker
  assigned At workers i w one all j = elim (Bool-cases (i == j)) [
    | inl e ↦ rw (assign_worker, e) (subst (λ k. At k w) (==→eq i j e) one)
    | inr e ↦ rw (assign_worker, e) (all j)
  ]

  abbrev StandsIn : ℕ → Worker → Type 0
  StandsIn i w = StandsAt w.now

  abbrev OrderedBy : (ℕ → List Request) → List Entry → ℕ → Worker → Type 0
  OrderedBy programs log i w = served i log ++ unserved w.now w.todo ≡ programs i

  module _ (programs : ℕ → List Request) (t0 : Table) (i : ℕ) (s : System)
      (h : IsLinear programs t0 s) where
    pub entered :
        (r : Request) (rest : List Request)
        → (s.workers i).now ≡ none
        → (s.workers i).todo ≡ r ∷ rest
        → IsLinear programs t0 (record s {
          workers = assign_worker s.workers i (record { now = some (start_of r); todo = rest });
        })
    entered r rest e f = record {
      valid = h.valid;
      limits = h.limits;
      stands = assigned StandsIn s.workers i _ (start_of-Stands r) h.stands;
      explained = h.explained;
      in_order =
          assigned (OrderedBy programs s.log) s.workers i _
            (rw (request_at-start_of r) (
              subst (λ (l : List Request). served i s.log ++ l ≡ programs i) f
                (subst
                  (λ (o : Option Position).
                    served i s.log ++ unserved o (s.workers i).todo ≡ programs i)
                  e (h.in_order i))))
            h.in_order;
    }

    -- The thread was at `p`, in the call `request_at p`.
    module _ (p : Position) (at : (s.workers i).now ≡ some p) where
      order_at : served i s.log ++ (request_at p ∷ (s.workers i).todo) ≡ programs i
      order_at =
          subst
            (λ (o : Option Position). served i s.log ++ unserved o (s.workers i).todo ≡ programs i)
            at (h.in_order i)

      ended_order :
          (t' : Table) (a : Result Bool) (j : ℕ)
          → OrderedBy programs
              (settle i p s (answers t' a)).log
              j
              ((settle i p s (answers t' a)).workers j)
      unfolding settle served assign_worker
      ended_order t' a j = elim (Bool-cases (i == j)) [
        | inl e ↦
            rw (served, assign_worker, e)
              (subst (λ k. (served k s.log ++ request_at p ∷ []) ++ (s.workers i).todo ≡ programs k)
                (==→eq i j e)
                (append_assoc (served i s.log) (request_at p ∷ []) (s.workers i).todo ∙ order_at))
        | inr e ↦ rw (served, assign_worker, e) (h.in_order j)
      ]

      pub settled-IsLinear :
          (a : Advance) → Advanced s.table (request_at p) a → IsLinear programs t0 (settle i p s a)
      unfolding settle
      settled-IsLinear _ (went {t' = t'} {p = p'} m stands same) = record {
        valid = m.valid;
        limits = (m.factor ∙ h.limits.0, m.maximum ∙ h.limits.1);
        stands = assigned StandsIn s.workers i _ stands h.stands;
        explained = subst (Explains (find t0) s.log) (same_map (λ q. sym (m.reads q))) h.explained;
        in_order = assigned (OrderedBy programs s.log) s.workers i _ (rw same order_at) h.in_order;
      }
      settled-IsLinear _ (ended {t' = t'} {a = a} valid limits x) = record {
        valid = valid;
        limits = (limits.0 ∙ h.limits.0, limits.1 ∙ h.limits.1);
        stands = assigned StandsIn s.workers i _ tt h.stands;
        explained = and_then h.explained x;
        in_order = ended_order t' a;
      }

  module _ (laws : Laws) (split : ℕ → List (ℕ × ℕ))
      (partitions : (n : ℕ) → IsPartition (λ _. ⊥) n (split n)) (nothrow : P.is_nothrow_move ≡ true)
      (retries search_fuel fuel : ℕ) (programs : ℕ → List Request) (t : Table)
      (some_limit : 0 < t.maximum_hashpower) (word : t.maximum_hashpower < 64) where
    run_worker-IsLinear :
        (i : ℕ) (s : System)
        → IsLinear programs t s
        → IsLinear programs t (run_worker split retries search_fuel fuel i s)
    unfolding run_worker
    run_worker-IsLinear i s h = elim (Option-cases (s.workers i).now) [
      | inr (p, e) ↦
          let same : s.table.maximum_hashpower ≡ t.maximum_hashpower = h.limits.1 in
          rw (run_worker, e)
            (settled-IsLinear programs t i s h p e _ (
              run_section-Advanced laws split partitions nothrow retries search_fuel fuel s.table
                h.valid (omega (arith, same, some_limit)) (omega (arith, same, word)) p
                (subst StandsAt e (h.stands i))))
      | inl e ↦ elim (List-cases (s.workers i).todo) [
        | inl f ↦ rw (run_worker, e, f) h
        | inr (r, rest, f) ↦ rw (run_worker, e, f) (entered programs t i s h r rest e f)
      ]
    ]

    run_from :
        (schedule : List ℕ) (s : System)
        → IsLinear programs t s
        → IsLinear programs t (run_schedule split retries search_fuel fuel schedule s)
    unfolding run_schedule
    run_from [] s h = h
    run_from (i ∷ schedule) s h = run_from schedule _ (run_worker-IsLinear i s h)

    pub run_schedule-IsLinear :
        (schedule : List ℕ)
        → IsValid t
        → IsLinear programs t
            (run_schedule split retries search_fuel fuel schedule (started t programs))
    run_schedule-IsLinear schedule valid = run_from schedule _ (started-IsLinear programs t valid)
