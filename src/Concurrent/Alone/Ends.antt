-- ===== src/Concurrent/Alone/Ends.antt =====
-- In every state that a schedule reaches, an insertion ends when its thread is left alone.
use libcuckoo_cxx.Base.{
  ℕ, suc, ◌*◌, ◌<◌, ◌≡◌, refl, ap, subst, ◌∙◌, List, ◌∷◌, replicate, Bool, true, none, some, arith,
  ==_refl,
}
use libcuckoo_cxx.Concurrent.Alone.{Finishes, done, more}
use libcuckoo_cxx.Concurrent.Linear.{
  IsLinear, StandsAt, entered, settled-IsLinear, run_schedule-IsLinear,
}
use libcuckoo_cxx.Concurrent.Meaning.{Advanced, went}
use libcuckoo_cxx.Concurrent.Alone.Loop.{cuckoo_insert_loop_runs}
use libcuckoo_cxx.Concurrent.Sound.{run_section-Advanced}
use libcuckoo_cxx.Concurrent.System.{
  System, assign_worker, started, settle, run_worker, run_schedule,
}
use libcuckoo_cxx.Concurrent.{
  Position, Advance, goes, answers, request_at, start_of, job_request, run_section,
}
use libcuckoo_cxx.Cuckoo.Inner.{CodesFit}
use libcuckoo_cxx.Cuckoo.Search.{tree}
use libcuckoo_cxx.Expand.Ranges.{IsPartition}
use libcuckoo_cxx.Insert.History.{Request, ask_insert}
use libcuckoo_cxx.Insert.Loop.{cuckoo_insert_loop_total}
use libcuckoo_cxx.Insert.Outcomes.{Insertion}
use libcuckoo_cxx.Insert.{insert}
use libcuckoo_cxx.Params.{Params, Laws}
use libcuckoo_cxx.Table.Counts.{IsValid}
use libcuckoo_cxx.Table.{Table, Result}

module _ ⦃P : Params⦄ where
  open P use {Key, Mapped}

  now_at :
      (i : ℕ) (p : Position) (s : System) (t' : Table) (p' : Position)
      → ((settle i p s (goes t' p')).workers i).now ≡ some p'
  unfolding settle assign_worker
  now_at i p s t' p' = rw (assign_worker, ==_refl i) refl

  entered_now :
      (i : ℕ) (s : System) (p : Position) (rest : List Request)
      → (assign_worker s.workers i (record { now = some p; todo = rest }) i).now ≡ some p
  unfolding assign_worker
  entered_now i s p rest = rw (assign_worker, ==_refl i) refl

  module _ (split : ℕ → List (ℕ × ℕ)) (retries search_fuel fuel : ℕ) where
    abbrev after_turns : ℕ → ℕ → System → System
    after_turns n i s = run_schedule split retries search_fuel fuel (replicate n i) s

    -- After some turns of thread `i` alone, its call `r` has ended with `x`, and nothing else has.
    pub record EndsAlone (i : ℕ) (r : Request) (s : System) (x : Table × Result Bool) : Type 0 where
      pub turns : ℕ
      pub table : (after_turns turns i s).table ≡ x.0
      pub log :
          (after_turns turns i s).log ≡ record { thread = i; request = r; answer = x.1 } ∷ s.log

    -- What a thread comes to whose next call is an insertion and that is left alone.
    pub record Inserts (i : ℕ) (k : Key) (v : Mapped) (s : System) : Type 0 where
      pub result : Table × Result Bool
      pub whole : insert split retries search_fuel fuel s.table k v ≡ some result
      pub meaning : Insertion s.table k v result
      pub ending : EndsAlone i (ask_insert k v) s result

    one_turn :
        (i : ℕ) (s : System) (p : Position)
        → (s.workers i).now ≡ some p
        → run_worker split retries search_fuel fuel i s
          ≡ settle i p s (run_section split retries search_fuel fuel p s.table)
    unfolding run_worker
    one_turn i s p e = rw (run_worker, e) refl

    call_turn :
        (i : ℕ) (s : System) (r : Request) (rest : List Request)
        → (s.workers i).now ≡ none
        → (s.workers i).todo ≡ r ∷ rest
        → run_worker split retries search_fuel fuel i s ≡ record s {
          workers = assign_worker s.workers i (record { now = some (start_of r); todo = rest });
        }
    unfolding run_worker
    call_turn i s r rest e f = rw (run_worker, e, f) refl

    first_section :
        {p : Position} {t : Table} {x : Table × Result Bool}
        → Finishes split retries search_fuel fuel (goes t p) x
        → Finishes split retries search_fuel fuel (run_section split retries search_fuel fuel p t) x
    first_section (more f) = f

    -- One turn more, at the front.
    one_more :
        (i : ℕ) (r : Request) (s s' : System) (x : Table × Result Bool)
        → run_worker split retries search_fuel fuel i s ≡ s'
        → s'.log ≡ s.log
        → EndsAlone i r s' x
        → EndsAlone i r s x
    unfolding run_schedule
    one_more i r s s' x e same h = record {
      turns = suc (h.turns);
      table = ap (λ u. (after_turns h.turns i u).table) e ∙ h.table;
      log =
          ap (λ u. (after_turns h.turns i u).log) e
          ∙ h.log
          ∙ ap (λ l. record { thread = i; request = r; answer = x.1 } ∷ l) same;
    }

    last_turn :
        (i : ℕ) (p : Position) (s : System) (t' : Table) (a : Result Bool)
        → run_worker split retries search_fuel fuel i s ≡ settle i p s (answers t' a)
        → EndsAlone i (request_at p) s (t', a)
    unfolding run_schedule settle
    last_turn i p s t' a e = record {
      turns = 1;
      table = ap (λ (u : System). u.table) e;
      log = ap (λ (u : System). u.log) e;
    }

  goes_same :
      {t t' : Table} {r : Request} {p : Position} → Advanced t r (goes t' p) → request_at p ≡ r
  goes_same (went m stands same) = same

  module _ (laws : Laws) (split : ℕ → List (ℕ × ℕ))
      (partitions : (n : ℕ) → IsPartition (λ _. ⊥) n (split n)) (nothrow : P.is_nothrow_move ≡ true)
      (fit : CodesFit) (retries search_fuel : ℕ) (enough : 2 * tree 4 < search_fuel) (fuel : ℕ)
      (programs : ℕ → List Request) (t : Table) (some_limit : 0 < t.maximum_hashpower)
      (word : t.maximum_hashpower < 64) where
    abbrev Advances : Position → System → Advance → Type 0
    Advances p s a = run_section split (suc retries) search_fuel fuel p s.table ≡ a

    runs_to_end :
        (i : ℕ) (x : Table × Result Bool) (a : Advance)
        → Finishes split (suc retries) search_fuel fuel a x
        → (p : Position) (s : System) → IsLinear programs t s
        → (s.workers i).now ≡ some p
        → Advances p s a
        → EndsAlone split (suc retries) search_fuel fuel i (request_at p) s x
    runs_to_end i _ _ (done {t = t'} {a = a}) p s h at e =
        last_turn split (suc retries) search_fuel fuel i p s t' a
          (one_turn split (suc retries) search_fuel fuel i s p at ∙ ap (settle i p s) e)
    runs_to_end i x _ (more {p = p'} {t = t'} f) p s h at e =
        let limit : s.table.maximum_hashpower ≡ t.maximum_hashpower = h.limits.1 in
        let section : Advanced s.table (request_at p) (goes t' p') =
          subst (Advanced s.table (request_at p)) e (
            run_section-Advanced laws split partitions nothrow (suc retries) search_fuel fuel
              s.table h.valid (omega (arith, limit, some_limit)) (omega (arith, limit, word)) p
              (subst StandsAt at (h.stands i))) in
        let s' = settle i p s (goes t' p') in
        let h' : IsLinear programs t s' = settled-IsLinear programs t i s h p at _ section in
        let table' : s'.table ≡ t' = unfold settle in refl in
        let log' : s'.log ≡ s.log = unfold settle in refl in
        let later : EndsAlone split (suc retries) search_fuel fuel i (request_at p') s' x =
          runs_to_end i x _ f p' s' h' (now_at i p s t' p')
            (ap (run_section split (suc retries) search_fuel fuel p') table') in
        one_more split (suc retries) search_fuel fuel i (request_at p) s s' x
          (one_turn split (suc retries) search_fuel fuel i s p at ∙ ap (settle i p s) e) log'
          (subst (λ r. EndsAlone split (suc retries) search_fuel fuel i r s' x) (goes_same section)
            later)

    Inserts-from :
        (i : ℕ) (k : Key) (v : Mapped) (rest : List Request) (s : System)
        → t.maximum_hashpower < fuel
        → IsLinear programs t s
        → (s.workers i).now ≡ none
        → (s.workers i).todo ≡ ask_insert k v ∷ rest
        → Inserts split (suc retries) search_fuel fuel i k v s
    unfolding insert start_of job_request
    Inserts-from i k v rest s enough_fuel h idle next_call =
        let limit : s.table.maximum_hashpower ≡ t.maximum_hashpower = h.limits.1 in
        let some_limit' : 0 < s.table.maximum_hashpower = omega (arith, limit, some_limit) in
        let word' : s.table.maximum_hashpower < 64 = omega (arith, limit, word) in
        let (x, e, meaning) =
          cuckoo_insert_loop_total laws split partitions nothrow fit retries search_fuel enough fuel
            s.table h.valid some_limit' word' (omega (arith, limit, enough_fuel))
            (omega (arith, enough_fuel)) k v in
        let f =
          cuckoo_insert_loop_runs laws split partitions nothrow (suc retries) search_fuel fuel k v
            fuel x s.table h.valid some_limit' word' e in
        let p = start_of (ask_insert k v) in
        let s' : System = record s {
          workers = assign_worker s.workers i (record { now = some p; todo = rest });
        } in
        record {
          result = x;
          whole = e;
          meaning = meaning;
          ending =
              one_more split (suc retries) search_fuel fuel i (ask_insert k v) s s' x
                (call_turn split (suc retries) search_fuel fuel i s (ask_insert k v) rest idle
                  next_call)
                refl
                (runs_to_end i x _ (first_section split (suc retries) search_fuel fuel f) p s'
                  (entered programs t i s h (ask_insert k v) rest idle next_call)
                  (entered_now i s p rest) refl);
        }

    -- Where the codes of paths fit into a word, the hash and the equality keep their laws, a
    -- search has more fuel than twice the nodes of the search tree, `run_cuckoo` has a round and
    -- `parallel_for` takes each lock once, in any order, let `cuckoo_insert_loop` have more rounds
    -- than the largest hashpower, and start any number of threads with any calls on a valid table
    -- with a largest hashpower from 1 to 63 and pairs whose moves do not throw, and let them run
    -- in any interleaving of their sections, an expansion being one section; in whatever state
    -- that leaves, in which no thread holds a lock, a thread that is between two calls, the next
    -- one being `insert k v`, ends this call after some turns of its own if the others rest where
    -- they are, between two sections, be it in the middle of their calls. The table and the answer
    -- are those that the sequential `insert` gives on the table as it was, the call is the only
    -- one that has ended, and the key was absent and the pair is added, or it was there and the
    -- map stays, or it was absent, the map stays and an exception says that the load factor is too
    -- low or the largest hashpower is reached.
    pub insert_left_alone :
        IsValid t
        → t.maximum_hashpower < fuel
        → (schedule : List ℕ) (i : ℕ) (k : Key) (v : Mapped) (rest : List Request)
        → ((run_schedule split (suc retries) search_fuel fuel schedule (started t programs)).workers
            i).now
          ≡ none
        → ((run_schedule split (suc retries) search_fuel fuel schedule (started t programs)).workers
            i).todo
          ≡ ask_insert k v ∷ rest
        → Inserts split
            (suc retries)
            search_fuel
            fuel
            i
            k
            v
            (run_schedule split (suc retries) search_fuel fuel schedule (started t programs))
    insert_left_alone valid enough_fuel schedule i k v rest idle next_call =
        Inserts-from i k v rest _ enough_fuel
          (run_schedule-IsLinear laws split partitions nothrow (suc retries) search_fuel fuel
            programs t some_limit word schedule valid)
          idle next_call
