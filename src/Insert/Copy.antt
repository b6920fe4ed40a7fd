-- ===== src/Insert/Copy.antt =====
-- The loops of `SimpleMoveBucketsFn`: all pairs of the old buckets go into the new map.
use libcuckoo_cxx.Base.{
  ℕ, suc, ◌+◌, ◌-◌, ◌≤◌, ◌≡◌, refl, sym, ap, ◌∙◌, subst, ◌⊎◌, inl, inr, List, [], ◌∷◌, Bool, true,
  false, Option, none, some, arith, ℕ_discrete, Bool-cases, Option-cases, if◌then◌else◌, some_eq,
}
use libcuckoo_cxx.Bucket.Laws.{is_some}
use libcuckoo_cxx.Bucket.{Slot, Bucket, slot, fresh_slot}
use libcuckoo_cxx.Insert.{Outcome, insert_slots}
use libcuckoo_cxx.Params.{Params, Laws}
use libcuckoo_cxx.Table.Counts.{used, used_slots, bit}
use libcuckoo_cxx.Table.Insert.{Added}
use libcuckoo_cxx.Table.Valid.{cell, IsPlaced}
use libcuckoo_cxx.Table.{Table, returned, find}
use libcuckoo_cxx.Insert.Copied.{
  Added-IsReady, Holds, Inserts, Ends, Row, Copied, Copied-congr, Filled, Grown,
}

module _ ⦃P : Params⦄ where
  open P use {Key, Mapped, key_eq}

  module _ (laws : Laws) (split : ℕ → List (ℕ × ℕ)) (retries search_fuel : ℕ)
      (insert_into : Table → Key → Mapped → Outcome Bool) (Fails : Type 0) (hp : ℕ)
      (bs : List Bucket) (inserts : Inserts bs insert_into Fails) (placed : IsPlaced hp bs) where
    -- The key of a cell that is not done is not in the new map.
    absent_before :
        (D : ℕ → ℕ → Type 0) (m : Table) (i s : ℕ) (k : Key) (v : Mapped)
        → Copied bs D m
        → (D i s → ⊥)
        → (cell bs i s).storage ≡ some (k, v)
        → find m k ≡ none
    absent_before D m i s k v c fresh stored = elim (Option-cases (find m k)) [
      | inl e ↦ e
      | inr (w, e) ↦
          let (j, u, l, d, at, same) = c.from k w e in
          let (ej, eu) = placed.unique j u i s l k w v at stored same in
          absurd (fresh (subst (λ a. D a s) ej (subst (λ b. D j b) eu d)))
    ]

    chosen : (b : Bool) (x y : Option Mapped) → b ≡ true → (if b then x else y) ≡ x
    chosen b x y e = rw e refl

    Copied-Holds :
        (D : ℕ → ℕ → Type 0) (m : Table)
        → Copied bs D m
        → (q : Key) (w : Mapped) → find m q ≡ some w
        → Holds bs q w
    Copied-Holds D m c q w e = let (i, s, k, _, at, same) = c.from q w e in (i, s, k, at, same)

    -- One more cell.
    one_more_cell :
        (D : ℕ → ℕ → Type 0) (m m' : Table) (i s : ℕ) (k : Key) (v : Mapped)
        → Copied bs D m
        → (D i s → ⊥)
        → (cell bs i s).storage ≡ some (k, v)
        → Added m k v m'
        → Copied bs (λ j u. D j u ⊎ ((j ≡ i) × (u ≡ s))) m'
    one_more_cell D m m' i s k v c fresh stored a = record {
      ready = Added-IsReady m m' k v c.ready a;
      there = λ j u l w q d at same. elim d [
        | inl old ↦ elim (Bool-cases (key_eq k q)) [
          | inl e ↦
              let (ej, eu) =
                placed.unique j u i s l k w v at stored
                  (laws.eq_trans l q k same (laws.eq_symm q k ∙ e)) in
              absurd (fresh (subst (λ x. D x s) ej (subst (λ x. D j x) eu old)))
          | inr e ↦ a.reads q ∙ rw e (c.there j u l w q old at same)
        ]
        | inr (ej, eu) ↦
            let pair : (k, v) ≡ (l, w) = some_eq (
              sym stored
              ∙ ap (λ (x : Slot). x.storage)
                  (sym (ap (λ a. cell bs a u) ej ∙ ap (λ b. cell bs i b) eu))
              ∙ at) in
            a.reads q
            ∙ chosen (key_eq k q) (some v) (find m q)
                (subst (λ x. key_eq x q ≡ true) (sym (ap (λ x. x.0) pair)) same)
            ∙ ap (λ (x : Key × Mapped). some x.1) pair
      ];
      from = λ q w h. elim (Bool-cases (key_eq k q)) [
        | inl e ↦ (
          i,
          s,
          k,
          inr (refl, refl),
          stored ∙ ap (λ x. some (k, x)) (some_eq (sym (a.reads q ∙ rw e refl) ∙ h)),
          e,
        )
        | inr e ↦
            let (j, u, l, d, at, same) = c.from q w (sym (a.reads q ∙ rw e refl) ∙ h) in
            (j, u, l, inl d, at, same)
      ];
    }

    abbrev run : Bucket → Table → Outcome Unit
    run b m = insert_slots split retries search_fuel insert_into b m

    -- A cell that holds nothing is done as it is.
    one_empty_cell :
        (D : ℕ → ℕ → Type 0) (m : Table) (i s : ℕ)
        → Copied bs D m
        → (cell bs i s).storage ≡ none
        → Copied bs (λ j u. D j u ⊎ ((j ≡ i) × (u ≡ s))) m
    one_empty_cell D m i s c nothing =
        Copied-congr bs D _ m
          (λ j u k v stored d. elim d [
            | inl old ↦ old
            | inr (ej, eu) ↦ absurd (cc (stored, nothing, ej, eu))
          ])
          (λ j u d. inl d) c

    nothing_there :
        (i s u : ℕ)
        → ((w : ℕ) → cell bs i (s + w) ≡ slot [] w)
        → s ≤ u
        → (cell bs i u).storage ≡ none
    nothing_there i s u same le =
        ap (λ (x : Slot). x.storage)
          (subst (λ w. cell bs i w ≡ fresh_slot) (omega (arith, le)) (same (u - s)))

    skips : (x : Slot) (b : Bucket) (m : Table) → x.occupied ≡ false → run (x ∷ b) m ≡ run b m
    unfolding insert_slots
    skips x b m free = rw (insert_slots, free) refl

    puts :
        (x : Slot) (b : Bucket) (m m' : Table) (k : Key) (v : Mapped)
        → x.occupied ≡ true
        → x.storage ≡ some (k, v)
        → insert_into m k v ≡ some (m', returned true)
        → run (x ∷ b) m ≡ run b m'
    unfolding insert_slots
    puts x b m m' k v busy stored e = rw (insert_slots, busy, stored, e) refl

    stops :
        (x : Slot) (b : Bucket) (m : Table) (k : Key) (v : Mapped)
        → x.occupied ≡ true
        → x.storage ≡ some (k, v)
        → insert_into m k v ≡ none
        → run (x ∷ b) m ≡ none
    unfolding insert_slots
    stops x b m k v busy stored e = rw (insert_slots, busy, stored, e) refl

    -- The rest of a row, from the cell after.
    rest_of_cells :
        (D : ℕ → ℕ → Type 0) (i s n c : ℕ) (m m1 : Table) (o p : Outcome Unit)
        → o ≡ p
        → used m1.buckets ≡ used m.buckets + c
        → Grown m m1
        → Ends Fails p (Filled bs (Row (λ j u. D j u ⊎ ((j ≡ i) × (u ≡ s))) i (suc s)) n m1)
        → Ends Fails o (Filled bs (Row D i s) (c + n) m)
    rest_of_cells D i s n c m m1 o p e more grew (inl (f, g)) = inl (f, e ∙ g)
    rest_of_cells D i s n c m m1 o p e more grew (inr (m2, g, (done, counts, more_grew))) = inr (
      m2,
      e ∙ g,
      (
        Copied-congr bs _ (Row D i s) m2
            (λ j u k v stored d. elim d [
              | inl old ↦ inl (inl old)
              | inr (ej, le) ↦ elim (ℕ_discrete u s) [
                | yes at ↦ inl (inr (ej, at))
                | no other ↦ inr (ej, omega (arith, le, other))
              ]
            ])
            (λ j u d. elim d [
              | inl (inl old) ↦ inl old
              | inl (inr (ej, at)) ↦ inr (ej, omega (arith, at))
              | inr (ej, le) ↦ inr (ej, omega (arith, le))
            ])
            done,
        omega (arith, more, counts),
        λ h. omega (arith, grew h, more_grew h),
      ),
    )

    cell_cases :
        (x : Slot)
        → x.occupied ≡ is_some x.storage
        → ((x.occupied ≡ false) × (x.storage ≡ none))
          ⊎ ((x.occupied ≡ true) × (k : Key) × (v : Mapped) × (x.storage ≡ some (k, v)))
    cell_cases x live = elim (Option-cases x.storage) [
      | inl e ↦ inl (live ∙ ap is_some e, e)
      | inr ((k, v), e) ↦ inr (live ∙ ap is_some e, k, v, e)
    ]

    count_free :
        (x : Slot) (b : Bucket) → x.occupied ≡ false → 0 + used_slots b ≡ used_slots (x ∷ b)
    unfolding used_slots
    count_free x b free = omega (arith, ap bit free)

    count_busy : (x : Slot) (b : Bucket) → x.occupied ≡ true → 1 + used_slots b ≡ used_slots (x ∷ b)
    unfolding used_slots
    count_busy x b busy = omega (arith, ap bit busy)

    pub insert_slots-Copied :
        (b : Bucket) (D : ℕ → ℕ → Type 0) (i s : ℕ) (m : Table)
        → ((u : ℕ) → cell bs i (s + u) ≡ slot b u)
        → ((u : ℕ) → s ≤ u → D i u → ⊥)
        → Copied bs D m
        → Ends Fails (run b m) (Filled bs (Row D i s) (used_slots b) m)
    insert_slots-Copied [] D i s m same fresh c = inr (
      m,
      unfold insert_slots in refl,
      (
        Copied-congr bs D (Row D i s) m
            (λ j u k v stored d. elim d [
              | inl old ↦ old
              | inr (ej, le) ↦
                  absurd (cc (stored, ap (λ a. cell bs a u) ej, nothing_there i s u same le))
            ])
            (λ j u d. inl d) c,
        unfold used_slots in omega arith,
        λ h. omega arith,
      ),
    )
    insert_slots-Copied (x ∷ b) D i s m same fresh c =
        let at : cell bs i s ≡ x = subst (λ w. cell bs i w ≡ x) (omega arith) (same 0) in
        let later : (u : ℕ) → cell bs i (suc s + u) ≡ slot b u =
          λ u. subst (λ w. cell bs i w ≡ slot b u) (omega arith) (same (suc u)) in
        let fresh' : (u : ℕ) → suc s ≤ u → D i u ⊎ ((i ≡ i) × (u ≡ s)) → ⊥ = λ u le d. elim d [
          | inl old ↦ fresh u (omega (arith, le)) old
          | inr e ↦ omega (arith, le, e.1)
        ] in
        elim (cell_cases x (subst (λ y. y.occupied ≡ is_some y.storage) at (placed.live i s))) [
          | inl (free, nothing) ↦
              subst (λ n. Ends Fails (run (x ∷ b) m) (Filled bs (Row D i s) n m))
                (count_free x b free)
                (rest_of_cells D i s (used_slots b) 0 m m _ _ (skips x b m free) (omega arith)
                  (λ _. omega arith)
                  (insert_slots-Copied b _ i (suc s) m later fresh'
                    (one_empty_cell D m i s c (ap (λ y. y.storage) at ∙ nothing))))
          | inr (busy, k, v, holds) ↦
              let stored : (cell bs i s).storage ≡ some (k, v) = ap (λ y. y.storage) at ∙ holds in
              let new = fresh s (omega arith) in
              elim (inserts m c.ready (Copied-Holds D m c) k v (i, s, k, stored, laws.eq_refl k)
                (absent_before D m i s k v c new stored)) [
                  | inl (f, e) ↦ inl (f, stops x b m k v busy holds e)
                  | inr (m1, e, a) ↦
                      subst (λ n. Ends Fails (run (x ∷ b) m) (Filled bs (Row D i s) n m))
                        (count_busy x b busy)
                        (rest_of_cells D i s (used_slots b) 1 m m1 _ _
                          (puts x b m m1 k v busy holds e) a.counts a.grown
                          (insert_slots-Copied b _ i (suc s) m1 later fresh'
                            (one_more_cell D m m1 i s k v c new stored a)))
                ]
        ]
