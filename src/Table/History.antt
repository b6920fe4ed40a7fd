-- ===== src/Table/History.antt =====
-- Sequences of `erase`, `update`, `update_fn` and `clear` on one table, and the map that they mean.
use libcuckoo_cxx.Base.{◌≡◌, refl, ap, ◌∙◌, List, [], ◌∷◌, Bool, true, Option, none, if◌then◌else◌}
use libcuckoo_cxx.Bucket.Laws.{is_some}
use libcuckoo_cxx.Params.{Params, Laws}
use libcuckoo_cxx.Table.Clear.{cuckoo_clear-Cleared}
use libcuckoo_cxx.Table.Counts.{IsValid, SameLimits}
use libcuckoo_cxx.Table.Erase.{erase-Erased}
use libcuckoo_cxx.Table.Lookup.{contains-find}
use libcuckoo_cxx.Table.Update.{mapped, update-Changed, update_fn-Changed}
use libcuckoo_cxx.Table.{Table, find, contains, erase, update, update_fn, cuckoo_clear}

module _ ⦃P : Params⦄ where
  open P use {Key, Mapped, key_eq}

  pub data Call : Type 0 where
    call_contains call_erase : Key → Call
    call_update : Key → Mapped → Call
    call_update_fn : Key → (Mapped → Mapped) → Call
    call_clear : Call

  -- The table after a call, and what the call returns; `clear` returns nothing.
  unfoldable pub perform : Call → Table → Table × Bool
  perform (call_contains k) t = (t, contains t k)
  perform (call_erase k) t = erase t k
  perform (call_update k v) t = update t k v
  perform (call_update_fn k f) t = update_fn t k f
  perform call_clear t = (cuckoo_clear t, true)

  unfoldable pub perform_all : List Call → Table → Table × List Bool
  perform_all [] t = (t, [])
  perform_all (c ∷ calls) t =
      let (t', answer) = perform c t in
      let (t'', answers) = perform_all calls t' in (t'', answer ∷ answers)

  -- The same calls on a map from keys to values.
  unfoldable pub mean : Call → (Key → Option Mapped) → (Key → Option Mapped) × Bool
  mean (call_contains k) m = (m, is_some (m k))
  mean (call_erase k) m = (λ q. if key_eq k q then none else m q, is_some (m k))
  mean (call_update k v) m = (λ q. if key_eq k q then mapped (λ _. v) (m k) else m q, is_some (m k))
  mean (call_update_fn k f) m = (λ q. if key_eq k q then mapped f (m k) else m q, is_some (m k))
  mean call_clear m = (λ q. none, true)

  unfoldable pub mean_all : List Call → (Key → Option Mapped) → (Key → Option Mapped) × List Bool
  mean_all [] m = (m, [])
  mean_all (c ∷ calls) m =
      let (m', answer) = mean c m in
      let (m'', answers) = mean_all calls m' in (m'', answer ∷ answers)

  pub same_map : {m n : Key → Option Mapped} → ((q : Key) → m q ≡ n q) → m ≡ n
  same_map h = λ i q. h q i

  -- One call on a valid table does to the map what it means.
  pub record Performed (c : Call) (t : Table) : Type 0 where
    pub valid : IsValid (perform c t).0
    pub reads : (q : Key) → find (perform c t).0 q ≡ (mean c (find t)).0 q
    pub limits : SameLimits t (perform c t).0
    pub answer : (perform c t).1 ≡ (mean c (find t)).1

  module _ (laws : Laws) where
    pub perform-Performed : (c : Call) (t : Table) → IsValid t → Performed c t
    unfolding perform mean
    perform-Performed (call_contains k) t v = record {
      valid = v;
      limits = (refl, refl);
      reads = λ q. refl;
      answer = contains-find t k;
    }
    perform-Performed (call_erase k) t v =
        let r = erase-Erased laws t v k in
        record { valid = r.valid; limits = r.limits; reads = r.reads; answer = r.answer }
    perform-Performed (call_update k w) t v =
        let r = update-Changed laws t v k w in
        record { valid = r.valid; limits = r.limits; reads = r.reads; answer = r.answer }
    perform-Performed (call_update_fn k f) t v =
        let r = update_fn-Changed laws t v k f in
        record { valid = r.valid; limits = r.limits; reads = r.reads; answer = r.answer }
    perform-Performed call_clear t v =
        let r = cuckoo_clear-Cleared laws t v in
        record { valid = r.valid; limits = r.limits; reads = r.reads; answer = refl }

    -- Any sequence of `contains`, `erase`, `update`, `update_fn` and `clear` on a valid table
    -- leaves a valid table, and both what `find` reads afterwards and all answers are those of the
    -- same calls on a map from keys to values.
    pub perform_all-mean_all :
        (calls : List Call) (t : Table)
        → IsValid t
        → IsValid (perform_all calls t).0
          × (find (perform_all calls t).0 ≡ (mean_all calls (find t)).0)
          × ((perform_all calls t).1 ≡ (mean_all calls (find t)).1)
    unfolding perform_all mean_all
    perform_all-mean_all [] t v = (v, refl, refl)
    perform_all-mean_all (c ∷ calls) t v =
        let s = perform-Performed c t v in
        let e : find (perform c t).0 ≡ (mean c (find t)).0 = same_map s.reads in
        let (valid, reads, answers) = perform_all-mean_all calls (perform c t).0 s.valid in
        (
          valid,
          reads ∙ ap (λ m. (mean_all calls m).0) e,
          (λ i. s.answer i ∷ (answers ∙ ap (λ m. (mean_all calls m).1) e) i),
        )
