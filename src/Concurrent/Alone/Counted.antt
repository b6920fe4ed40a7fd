-- ===== src/Concurrent/Alone/Counted.antt =====
-- `cuckoo_size` by a thread that runs alone, one counter after the other.
use mathlib.Core.List.{append_assoc}
use libcuckoo_cxx.Base.{
  ℕ, ◌+◌, ◌≡◌, refl, sym, ap, subst, ◌∙◌, List, [], ◌∷◌, ◌++◌, Bool, true, false, arith, length,
  length-append, get_or, ltb, lt→ltb,
}
use libcuckoo_cxx.Concurrent.Alone.{Finishes, more}
use libcuckoo_cxx.Concurrent.{
  Job, counting, doubling, Advance, goes, answers, count_one, run_section,
}
use libcuckoo_cxx.Config.{u64}
use libcuckoo_cxx.Hash.{hashsize}
use libcuckoo_cxx.Params.{Params}
use libcuckoo_cxx.Table.{Table, load_factor_too_low, Result, thrown, size_loop, cuckoo_size}

module _ ⦃P : Params⦄ where
  open P use {Key, Mapped}

  get_or-middle : (before rest : List ℕ) (n : ℕ) → get_or (before ++ n ∷ rest) (length before) 0 ≡ n
  get_or-middle [] rest n = refl
  get_or-middle (m ∷ before) rest n = get_or-middle before rest n

  module _ (split : ℕ → List (ℕ × ℕ)) (retries search_fuel fuel : ℕ) (job : Job) (hp : ℕ)
      (t : Table) (x : Table × Result Bool) where
    abbrev pub after_count : ℕ → Advance
    after_count size =
        elim (P.lt
          (P.div (P.div (P.double size) (P.double P.slot_per_bucket)) (P.double (hashsize hp)))
          t.minimum_load_factor) [
            | true ↦ answers t (thrown (load_factor_too_low t.minimum_load_factor))
            | false ↦ goes t (doubling job hp)
          ]

    count_runs :
        (rest before : List ℕ) (size : ℕ)
        → t.elems ≡ before ++ rest
        → Finishes split retries search_fuel fuel (after_count (size_loop rest size)) x
        → Finishes split retries search_fuel fuel (goes t (counting job hp (length before) size)) x
    unfolding run_section count_one size_loop
    count_runs [] before size e h =
        let all : ltb (length before) (length t.elems) ≡ false =
          ground (arith, ap length e, length-append before []) in
        more (rw (count_one, all) h)
    count_runs (n ∷ rest) before size e h =
        let more_left : ltb (length before) (length t.elems) ≡ true =
          lt→ltb _ _ (omega (arith, ap length e, length-append before (n ∷ rest))) in
        let here : get_or t.elems (length before) 0 ≡ n =
          ap (λ l. get_or l (length before) 0) e ∙ get_or-middle before rest n in
        let next_index : length (before ++ n ∷ []) ≡ length before + 1 =
          length-append before (n ∷ []) in
        more (
          rw (count_one, more_left, here)
            (subst
              (λ i.
                Finishes split retries search_fuel fuel
                  (goes t (counting job hp i (u64 (size + n)))) x)
              next_index
              (count_runs rest (before ++ n ∷ []) (u64 (size + n))
                (e ∙ sym (append_assoc before (n ∷ []) rest)) h)))

    pub cuckoo_size_runs :
        Finishes split retries search_fuel fuel (after_count (cuckoo_size t)) x
        → Finishes split retries search_fuel fuel (goes t (counting job hp 0 0)) x
    unfolding cuckoo_size
    cuckoo_size_runs h = count_runs t.elems [] 0 refl h
