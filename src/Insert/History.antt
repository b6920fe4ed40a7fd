-- ===== src/Insert/History.antt =====
-- Sequences of all calls on one table, those that may expand it included, against a map from keys
-- to values.
use libcuckoo_cxx.Base.{
  ◌≤◌, ◌+◌, ℕ, suc, ◌*◌, ◌<◌, ◌≡◌, refl, sym, ap, subst, List, [], ◌∷◌, Bool, true, false, Option,
  none, some, arith, if◌then◌else◌,
}
use libcuckoo_cxx.Bucket.Laws.{is_some}
use libcuckoo_cxx.Cuckoo.Inner.{CodesFit}
use libcuckoo_cxx.Cuckoo.Search.{tree}
use libcuckoo_cxx.Expand.Ranges.{IsPartition}
use libcuckoo_cxx.Insert.Loop.{cuckoo_insert_loop_total}
use libcuckoo_cxx.Insert.Outcomes.{Insertion, inserted, present, too_low, exceeded}
use libcuckoo_cxx.Insert.Upsert.{Upserted, changed, placed, refused, upsert_total}
use libcuckoo_cxx.Insert.{Outcome, insert, upsert}
use libcuckoo_cxx.Params.{Params, Laws}
use libcuckoo_cxx.Table.Counts.{IsValid, SameLimits}
use libcuckoo_cxx.Table.History.{Call, perform, mean, perform-Performed}
use libcuckoo_cxx.Table.Update.{mapped}
use libcuckoo_cxx.Table.{
  Table, cuckoo_loadfactor, Exception, load_factor_too_low, maximum_hashpower_exceeded, Result,
  returned, thrown, find,
}

module _ ⦃P : Params⦄ where
  open P use {Key, Mapped, key_eq, slot_per_bucket}

  pub data Request : Type 0 where
    simple : Call → Request
    ask_insert : Key → Mapped → Request
    ask_upsert : Key → (Mapped → Mapped) → Mapped → Request

  -- An `upsert` that returns answers true.
  abbrev answered : Outcome Unit → Outcome Bool
  answered none = none
  answered (some (t, returned _)) = some (t, returned true)
  answered (some (t, thrown e)) = some (t, thrown e)

  module _ (split : ℕ → List (ℕ × ℕ)) (retries search_fuel fuel : ℕ) where
    unfoldable pub serve : Request → Table → Outcome Bool
    serve (simple c) t = some ((perform c t).0, returned (perform c t).1)
    serve (ask_insert k v) t = insert split retries search_fuel fuel t k v
    serve (ask_upsert k f v) t = answered (upsert split retries search_fuel 1 fuel t k f v)

    -- The caller catches exceptions and goes on.
    unfoldable pub serve_all : List Request → Table → Option (Table × List (Result Bool))
    serve_all [] t = some (t, [])
    serve_all (r ∷ requests) t = elim (serve r t) [
      | none ↦ none
      | some (t', answer) ↦ elim (serve_all requests t') [
        | none ↦ none
        | some (t'', answers) ↦ some (t'', answer ∷ answers)
      ]
    ]

  -- The two exceptions of an insertion.
  pub data Refusal : Exception → Type 0 where
    low_factor : {d : P.Double} → Refusal (load_factor_too_low d)
    no_growth : {hp : ℕ} → Refusal (maximum_hashpower_exceeded hp)

  -- What a request may do to a map, and what it may answer.
  pub data Meant (m n : Key → Option Mapped) : Request → Result Bool → Type 0 where
    meant_simple :
        {c : Call}
        → ((q : Key) → n q ≡ (mean c m).0 q)
        → Meant m n (simple c) (returned (mean c m).1)
    meant_insert :
        {k : Key} {v : Mapped}
        → m k ≡ none
        → ((q : Key) → n q ≡ (if key_eq k q then some v else m q))
        → Meant m n (ask_insert k v) (returned true)
    meant_present :
        {k : Key} {v : Mapped}
        → is_some (m k) ≡ true
        → ((q : Key) → n q ≡ m q)
        → Meant m n (ask_insert k v) (returned false)
    meant_refusal :
        {k : Key} {v : Mapped} {e : Exception}
        → m k ≡ none
        → Refusal e
        → ((q : Key) → n q ≡ m q)
        → Meant m n (ask_insert k v) (thrown e)
    meant_change :
        {k : Key} {f : Mapped → Mapped} {v : Mapped}
        → is_some (m k) ≡ true
        → ((q : Key) → n q ≡ (if key_eq k q then mapped f (m k) else m q))
        → Meant m n (ask_upsert k f v) (returned true)
    meant_upsert :
        {k : Key} {f : Mapped → Mapped} {v : Mapped}
        → m k ≡ none
        → ((q : Key) → n q ≡ (if key_eq k q then some v else m q))
        → Meant m n (ask_upsert k f v) (returned true)
    meant_no_upsert :
        {k : Key} {f : Mapped → Mapped} {v : Mapped} {e : Exception}
        → m k ≡ none
        → Refusal e
        → ((q : Key) → n q ≡ m q)
        → Meant m n (ask_upsert k f v) (thrown e)

  -- An exception comes only with its reason: the load factor is below the minimum, or the table
  -- cannot grow any more.
  pub data Justified (t t' : Table) : Result Bool → Type 0 where
    no_exception : {b : Bool} → Justified t t' (returned b)
    too_empty :
        P.lt (cuckoo_loadfactor t' t'.hashpower) t.minimum_load_factor ≡ true
        → Justified t t' (thrown (load_factor_too_low t.minimum_load_factor))
    at_largest :
        0 < t.maximum_hashpower
        → t.maximum_hashpower ≤ t'.hashpower
        → Justified t t' (thrown (maximum_hashpower_exceeded (t'.hashpower + 1)))

  -- One request: the table stays valid, with its settings, and its map and the answer are as they
  -- should be.
  pub record Served (t t' : Table) (r : Request) (answer : Result Bool) : Type 0 where
    pub valid : IsValid t'
    pub limits : SameLimits t t'
    pub meant : Meant (find t) (find t') r answer
    pub justified : Justified t t' answer

  -- A sequence of requests, step by step from the table `t` to the table `last`.
  pub data AllMeant (last : Table) : Table → List Request → List (Result Bool) → Type 0 where
    ended : AllMeant last last [] []
    next :
        {t t' : Table} {r : Request} {requests : List Request} {answer : Result Bool}
        {answers : List (Result Bool)}
        → Served t t' r answer
        → AllMeant last t' requests answers
        → AllMeant last t (r ∷ requests) (answer ∷ answers)

  Insertion-Served :
      (t t' : Table) (k : Key) (v : Mapped) (a : Result Bool)
      → Insertion t k v (t', a)
      → Served t t' (ask_insert k v) a
  Insertion-Served t t' k v _ (inserted absent x) = record {
    valid = x.valid;
    limits = x.limits;
    meant = meant_insert absent x.reads;
    justified = no_exception;
  }
  Insertion-Served t t' k v _ (present there x) = record {
    valid = x.valid;
    limits = (x.factor, x.maximum);
    meant = meant_present there x.reads;
    justified = no_exception;
  }
  Insertion-Served t t' k v _ (too_low absent x low) = record {
    valid = x.valid;
    limits = (x.factor, x.maximum);
    meant = meant_refusal absent low_factor x.reads;
    justified = too_empty low;
  }
  Insertion-Served t t' k v _ (exceeded absent x limit top) = record {
    valid = x.valid;
    limits = (x.factor, x.maximum);
    meant = meant_refusal absent no_growth x.reads;
    justified = at_largest limit top;
  }

  refused-Served :
      (t t' : Table) (k : Key) (f : Mapped → Mapped) (v : Mapped) (e : Exception)
      → find t k ≡ none
      → Insertion t k v (t', thrown e)
      → Served t t' (ask_upsert k f v) (thrown e)
  refused-Served t t' k f v _ absent (too_low _ x low) = record {
    valid = x.valid;
    limits = (x.factor, x.maximum);
    meant = meant_no_upsert absent low_factor x.reads;
    justified = too_empty low;
  }
  refused-Served t t' k f v _ absent (exceeded _ x limit top) = record {
    valid = x.valid;
    limits = (x.factor, x.maximum);
    meant = meant_no_upsert absent no_growth x.reads;
    justified = at_largest limit top;
  }

  module _ (laws : Laws) (split : ℕ → List (ℕ × ℕ))
      (partitions : (n : ℕ) → IsPartition (λ _. ⊥) n (split n)) (nothrow : P.is_nothrow_move ≡ true)
      (fit : CodesFit) (retries search_fuel : ℕ) (enough : 2 * tree 4 < search_fuel)
      (fuel : ℕ) where
    abbrev IsServed : Request → Table → Type 0
    IsServed r t =
        (x : Table × Result Bool) × (serve split (suc retries) search_fuel fuel r t ≡ some x)
        × Served t x.0 r x.1

    Upserted-IsServed :
        (t : Table) (k : Key) (f : Mapped → Mapped) (v : Mapped) (x : Table × Result Unit)
        → upsert split (suc retries) search_fuel 1 fuel t k f v ≡ some x
        → Upserted t k f v x
        → IsServed (ask_upsert k f v) t
    unfolding serve
    Upserted-IsServed t k f v (t', _) e (changed there c) = (
      (t', returned true),
      ap answered e,
      record {
        valid = c.valid;
        limits = c.limits;
        meant = meant_change there c.reads;
        justified = no_exception;
      },
    )
    Upserted-IsServed t k f v (t', _) e (placed absent a) = (
      (t', returned true),
      ap answered e,
      record {
        valid = a.valid;
        limits = a.limits;
        meant = meant_upsert absent a.reads;
        justified = no_exception;
      },
    )
    Upserted-IsServed t k f v (t', thrown x) e (refused absent i) =
        ((t', thrown x), ap answered e, refused-Served t t' k f v x absent i)

    module _ (t : Table) (valid : IsValid t) (some_limit : 0 < t.maximum_hashpower)
        (word : t.maximum_hashpower < 64) (enough_fuel : t.maximum_hashpower < fuel) where
      serve-IsServed : (r : Request) → IsServed r t
      unfolding serve insert
      serve-IsServed (simple c) =
          let p = perform-Performed laws c t valid in
          (
            _,
            refl,
            record {
              valid = p.valid;
              limits = p.limits;
              meant =
                  subst
                    (λ (b : Bool). Meant (find t) (find (perform c t).0) (simple c) (returned b))
                    (sym p.answer) (meant_simple p.reads);
              justified = no_exception;
            },
          )
      serve-IsServed (ask_insert k v) =
          let (x, e, i) =
            cuckoo_insert_loop_total laws split partitions nothrow fit retries search_fuel enough
              fuel t valid some_limit word (omega (arith, enough_fuel)) (omega (arith, enough_fuel))
              k v in
          (x, e, Insertion-Served t x.0 k v x.1 i)
      serve-IsServed (ask_upsert k f v) =
          let (x, e, u) =
            upsert_total laws split partitions nothrow fit retries search_fuel enough fuel k f v 0 t
              valid some_limit word (omega (arith, enough_fuel)) in
          Upserted-IsServed t k f v x e u

    -- Where the codes of paths fit into a word, the hash and the equality keep their laws, a
    -- search has more fuel than twice the nodes of the search tree, `run_cuckoo` has a round and
    -- `parallel_for` takes each lock once, in any order, and on a valid table with a largest
    -- hashpower from 1 to 63 and pairs whose moves do not throw, any sequence of `contains`,
    -- `erase`, `update`, `update_fn`, `clear`, `insert` and `upsert` ends, whatever doublings,
    -- displacements and exceptions come in between; after every call the table is valid and has
    -- its settings, and what `find` reads and what the call answers are those of a map. An
    -- insertion of an absent key may also throw one of its two exceptions and then leaves the map,
    -- but only where the load factor is below the minimum that the exception names, or where the
    -- largest hashpower is reached and the exception names the next one.
    pub serve_all-AllMeant :
        (requests : List Request) (t : Table)
        → IsValid t
        → 0 < t.maximum_hashpower
        → t.maximum_hashpower < 64
        → t.maximum_hashpower < fuel
        → (x : Table × List (Result Bool)) × (serve_all split
              (suc retries)
              search_fuel
              fuel
              requests
              t
            ≡ some x)
          × IsValid x.0
          × AllMeant x.0 t requests x.1
    unfolding serve_all
    serve_all-AllMeant [] t valid some_limit word enough_fuel = ((t, []), refl, valid, ended)
    serve_all-AllMeant (r ∷ requests) t valid some_limit word enough_fuel =
        let (x, e, s) = serve-IsServed t valid some_limit word enough_fuel r in
        let same : x.0.maximum_hashpower ≡ t.maximum_hashpower = s.limits.1 in
        let (y, f, valid', rest) =
          serve_all-AllMeant requests x.0 s.valid (omega (arith, same, some_limit))
            (omega (arith, same, word)) (omega (arith, same, enough_fuel)) in
        ((y.0, x.1 ∷ y.1), rw (serve_all, e, f) refl, valid', next s rest)
