-- ===== src/Concurrent/Sections.antt =====
-- The sections of `run_cuckoo`: each keeps the map, whatever the other threads have done between
-- them.
use mathlib.Core.List.{append_assoc, append-nil}
use libcuckoo_cxx.Base.{
  ℕ, zero, suc, ◌+◌, ◌-◌, ◌*◌, ◌%◌, ◌<◌, ◌≡◌, refl, sym, ap, subst, inl, inr, List, [], ◌∷◌, ◌++◌,
  false, arith, length, Bool-cases, Option-cases, ==→eq, ◌==◌, if◌then◌else◌, ◌||◌, length-append,
}
use libcuckoo_cxx.Bucket.Laws.{is_some}
use libcuckoo_cxx.Bucket.{occupied, kvpair}
use libcuckoo_cxx.Concurrent.Locked.{freed_at}
use libcuckoo_cxx.Concurrent.Meaning.{
  Advanced, went, stays, Advanced-Alike, expanded-Advanced, full-Advanced,
}
use libcuckoo_cxx.Concurrent.Stand.{Along, Begun}
use libcuckoo_cxx.Concurrent.{
  Job, Advance, asked, first_of, second_of, unless_expanded, scan_one, record_one, after_swap,
  move_one,
}
use libcuckoo_cxx.Config.{u64}
use libcuckoo_cxx.Cuckoo.Insertion.{Moves-Kept}
use libcuckoo_cxx.Cuckoo.Paths.{IsChain, chain-slot, chain-link, decode-InRange, length-decode}
use libcuckoo_cxx.Cuckoo.Place.{swap_valid-Swap, swap_frees}
use libcuckoo_cxx.Cuckoo.Relocate.{at, swapped, swapped-Moves}
use libcuckoo_cxx.Cuckoo.{CuckooRecord, succeeded, Attempt-cases, no_hash, decode, swap_valid}
use libcuckoo_cxx.Hash.{partial_key, alt_index}
use libcuckoo_cxx.Insert.Outcomes.{Alike, Kept-Alike}
use libcuckoo_cxx.Params.{Params, Laws}
use libcuckoo_cxx.Queue.{BSlot, BQueue, full, empty}
use libcuckoo_cxx.Table.Counts.{IsValid}
use libcuckoo_cxx.Table.Move.{Moves}
use libcuckoo_cxx.Table.Valid.{cell, IsHome, IsPlaced}
use libcuckoo_cxx.Table.{Table, bucket, hashed_key}

module _ ⦃P : Params⦄ where
  open P use {Key, Mapped, slot_per_bucket}

  module _ (job : Job) (hp : ℕ) (t : Table) (valid : IsValid t) where
    pub unless_expanded-Advanced :
        (section : Advance)
        → (t.hashpower ≡ hp → Advanced t (asked job) section)
        → Advanced t (asked job) (unless_expanded job hp t section)
    unfolding unless_expanded
    unless_expanded-Advanced section h = elim (Bool-cases (t.hashpower == hp)) [
      | inl e ↦ rw (unless_expanded, e) (h (==→eq t.hashpower hp e))
      | inr e ↦ rw (unless_expanded, e) (expanded-Advanced job hp t valid)
    ]

    module _ (laws : Laws) where
      first_path :
          (x : BSlot) (code : ℕ)
          → Begun job hp []
              (if (decode (x.depth + 1) code []).1 == 0 then first_of job hp else second_of job hp)
              (decode (x.depth + 1) code []).0
      unfolding hashed_key
      first_path x code = record {
        start = if (decode (x.depth + 1) code []).1 == 0 then first_of job hp else second_of job hp;
        from_home = ground arith;
        extends = λ rest h. h;
        range = decode-InRange laws (x.depth + 1) code [] tt;
        nonempty = omega (arith, length-decode (x.depth + 1) code []);
      }

      pub scan_one-Advanced :
          (q : BQueue) (x : BSlot) (left i : ℕ)
          → Advanced t (asked job) (scan_one job hp q x left i t)
      unfolding scan_one
      scan_one-Advanced q x zero i = elim (Bool-cases (full q || empty q)) [
        | inl e ↦ rw (scan_one, e) (full-Advanced job hp t valid)
        | inr e ↦ rw (scan_one, e) (stays valid tt refl)
      ]
      scan_one-Advanced q x (suc left) i = elim (Bool-cases (full q)) [
        | inl e ↦ rw (scan_one, e) (stays valid tt refl)
        | inr e ↦
            let slot = (x.pathcode % slot_per_bucket + i) % slot_per_bucket in
            rw (scan_one, e)
              (unless_expanded-Advanced _ (λ same.
                elim (Bool-cases (occupied (bucket t.buckets x.bucket) slot)) [
                  | inl f ↦ rw f (stays valid tt refl)
                  | inr f ↦
                      rw f (
                        stays valid (first_path x (u64 (x.pathcode * slot_per_bucket + slot))) refl)
                ]))
      ]

      -- One more record, from which the path goes on in the bucket `b`.
      module _ (path : List CuckooRecord) (b s : ℕ) (slots : List ℕ)
          (begun : Begun job hp path b (s ∷ slots)) where
        record_extends :
            (r : CuckooRecord)
            → r.bucket ≡ b
            → r.slot ≡ s
            → (rest : List CuckooRecord) → IsChain hp (alt_index hp (partial_key r.hv.hash) b) rest
            → IsChain hp begun.start ((path ++ r ∷ []) ++ rest)
        record_extends r e f rest h =
            rw (append_assoc path (r ∷ []) rest)
              (begun.extends (r ∷ rest) (e, rw f (begun.range.0), h))

        last_record :
            (r : CuckooRecord)
            → r.bucket ≡ b
            → r.slot ≡ s
            → Along job hp (path ++ r ∷ []) (length (path ++ r ∷ []) - 1)
        last_record r e f = record {
          start = begun.start;
          from_home = begun.from_home;
          chain = begun.extends (r ∷ []) (e, rw f (begun.range.0), tt);
          within = omega (arith, length-append path (r ∷ []));
        }

        next_record :
            (r : CuckooRecord)
            → r.bucket ≡ b
            → r.slot ≡ s
            → Begun job hp (path ++ r ∷ []) (alt_index hp (partial_key r.hv.hash) b) slots
        next_record r e f = record {
          start = begun.start;
          from_home = begun.from_home;
          extends = record_extends r e f;
          range = begun.range.1;
          nonempty = omega (arith, length-append path (r ∷ []));
        }

        pub record_slot-Advanced : Advanced t (asked job) (record_one job hp path b (s ∷ slots) t)
        unfolding record_one hashed_key
        record_slot-Advanced = unless_expanded-Advanced _ (λ same.
            elim (Bool-cases (occupied (bucket t.buckets b) s)) [
              | inr e ↦ rw e (
                  stays valid
                    (last_record (record { bucket = b; slot = s; hv = no_hash }) refl refl) refl)
              | inl e ↦ elim (Option-cases (kvpair (bucket t.buckets b) s)) [
                | inl f ↦ absurd (cc (e, valid.placed.live b s, ap is_some f))
                | inr ((k, v), f) ↦
                    rw (e, f)
                      (stays valid
                        (next_record (record { bucket = b; slot = s; hv = hashed_key k }) refl refl)
                        refl)
              ]
            ])

      pub record_one-Advanced :
          (path : List CuckooRecord) (b : ℕ) (slots : List ℕ)
          → Begun job hp path b slots
          → Advanced t (asked job) (record_one job hp path b slots t)
      record_one-Advanced path b [] begun =
          unfold record_one in
          stays valid
            (record {
              start = begun.start;
              from_home = begun.from_home;
              chain = subst (IsChain hp begun.start) (append-nil path) (begun.extends [] tt);
              within = omega (arith, begun.nonempty);
            })
            refl
      record_one-Advanced path b (s ∷ slots) begun = record_slot-Advanced path b s slots begun

      path_head :
          (path : List CuckooRecord) (depth : ℕ)
          → Along job hp path depth
          → IsHome hp job.key (at path 0).bucket
      path_head [] depth a = absurd (omega (arith, a.within))
      path_head (r ∷ path) depth a = subst (IsHome hp job.key) (sym a.chain.0) a.from_home

      path_slot :
          (path : List CuckooRecord) (depth : ℕ)
          → Along job hp path depth
          → (at path 0).slot < slot_per_bucket
      path_slot path depth a = chain-slot hp a.start path 0 a.chain (omega (arith, a.within))

      abbrev moved : List CuckooRecord → ℕ → Table
      moved path depth = record t { buckets = swapped path depth t.buckets }

      -- A swap that passed the check, at the hashpower of the table.
      module _ (path : List CuckooRecord) (depth : ℕ) (a : Along job hp path (suc depth))
          (same : t.hashpower ≡ hp)
          (passed : swap_valid t.buckets (at path depth) (at path (suc depth)) ≡ succeeded) where
        placed : IsPlaced hp t.buckets
        placed = subst (λ n. IsPlaced n t.buckets) same valid.placed

        swap-Alike : Alike t (moved path depth)
        swap-Alike =
            let m =
              swapped-Moves laws a.start path a.chain depth t.buckets placed a.within passed in
            Kept-Alike (
              Moves-Kept laws t valid _
                (subst (λ n. Moves n t.buckets (swapped path depth t.buckets)) (sym same) m))

        swap_freed :
            (cell
              (swapped path depth t.buckets)
              (at path depth).bucket
              (at path depth).slot).occupied
            ≡ false
        swap_freed =
            swap_frees laws t.buckets placed (at path depth) (at path (suc depth))
              (chain-link hp a.start path depth a.chain a.within)
              (chain-slot hp a.start path (suc depth) a.chain a.within)
              (swap_valid-Swap t.buckets (at path depth) (at path (suc depth)) passed)

      after_swap-Advanced :
          (path : List CuckooRecord) (depth : ℕ)
          → Along job hp path (suc depth)
          → t.hashpower ≡ hp
          → swap_valid t.buckets (at path depth) (at path (suc depth)) ≡ succeeded
          → Advanced t (asked job) (after_swap job hp path depth (moved path depth))
      unfolding after_swap
      after_swap-Advanced path zero a same passed =
          let alike = swap-Alike path zero a same passed in
          Advanced-Alike alike (
            freed_at laws job (moved path zero) alike.valid hp same (at path 0) (path_head path 1 a)
              (path_slot path 1 a) (swap_freed path zero a same passed))
      after_swap-Advanced path (suc depth) a same passed =
          went (swap-Alike path (suc depth) a same passed)
            (record {
              start = a.start;
              from_home = a.from_home;
              chain = a.chain;
              within = omega (arith, a.within);
            })
            refl

      pub move_one-Advanced :
          (path : List CuckooRecord) (depth : ℕ)
          → Along job hp path depth
          → Advanced t (asked job) (move_one job hp path depth t)
      unfolding move_one
      move_one-Advanced path zero a = unless_expanded-Advanced _ (λ same.
          elim (Bool-cases (occupied (bucket t.buckets (at path 0).bucket) (at path 0).slot)) [
            | inl e ↦ rw e (stays valid tt refl)
            | inr e ↦ rw e (
                freed_at laws job t valid hp same (at path 0) (path_head path 0 a)
                  (path_slot path 0 a) e)
          ])
      move_one-Advanced path (suc depth) a = unless_expanded-Advanced _ (λ same.
          elim (Attempt-cases (swap_valid t.buckets (at path depth) (at path (suc depth)))) [
            | inl e ↦ rw e (after_swap-Advanced path depth a same e)
            | inr (inl e) ↦ rw e (stays valid tt refl)
            | inr (inr e) ↦ rw e (stays valid tt refl)
          ])
