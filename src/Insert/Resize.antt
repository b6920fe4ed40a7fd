-- ===== src/Insert/Resize.antt =====
-- `cuckoo_expand_simple`: every pair goes into a new map, whose buckets take the place of the old.
use native.Mathlib.Nat.{mul-le-mul_right}
use libcuckoo_cxx.Base.{
  ℕ, zero, suc, ◌-◌, ap, some_eq, ◌+◌, ◌*◌, ◌^◌, ◌<◌, ◌≤◌, ◌≡◌, refl, sym, ◌∙◌, subst, ◌⊎◌, inl,
  inr, List, Bool, true, false, not, ◌&&◌, ◌||◌, Option, none, some, arith, Bool-cases,
  Option-cases, dec_lt, leb, ltb, lt→ltb, ltb→lt, ltb-false,
}
use libcuckoo_cxx.Config.{u64, no_maximum_hashpower}
use libcuckoo_cxx.Construct.Fresh.{
  allocate_buckets-IsValid, allocate_buckets-find, allocate_buckets-used,
}
use libcuckoo_cxx.Construct.Reserve.{reserve_calc-Reserves, reserve_calc-lt}
use libcuckoo_cxx.Construct.{
  new, reserve_calc, set_minimum_load_factor, set_maximum_hashpower, blank, allocate_buckets,
}
use libcuckoo_cxx.Expand.Ranges.{IsPartition}
use libcuckoo_cxx.Expand.Where.{hashsize-suc}
use libcuckoo_cxx.Hash.Alternate.{hashsize_pos}
use libcuckoo_cxx.Hash.{hashsize}
use libcuckoo_cxx.Insert.Copied.{IsReady, Inserts, Copied}
use libcuckoo_cxx.Insert.Refill.{refilled}
use libcuckoo_cxx.Insert.{Outcome, over_maximum, cuckoo_expand_simple}
use libcuckoo_cxx.Params.{Params, Laws, DoubleLaws}
use libcuckoo_cxx.Table.Counts.{IsValid, used}
use libcuckoo_cxx.Table.Lookup.{find-Reads, find_unique}
use libcuckoo_cxx.Table.Valid.{Reads}
use libcuckoo_cxx.Table.{
  Table, Status, ok, failure_under_expansion, maximum_hashpower_exceeded, returned, thrown, find,
}

module _ ⦃P : Params⦄ where
  open P use {Key, Mapped, key_eq, slot_per_bucket}

  hashsize_more : (d a : ℕ) → d + a < 64 → hashsize a + d ≤ hashsize (d + a)
  hashsize_more zero a small = let e : 0 + a ≡ a = omega arith in omega (arith, ap hashsize e)
  hashsize_more (suc d) a small =
      let below = hashsize_more d a (omega (arith, small)) in
      let e : suc d + a ≡ suc (d + a) = omega arith in
      omega (
        arith,
        below,
        hashsize-suc (d + a) (omega (arith, e, small)),
        ap hashsize e,
        hashsize_pos a (omega (arith, small)),
      )

  hashsize_less : (a b : ℕ) → a < b → b < 64 → hashsize a + 1 ≤ hashsize b
  hashsize_less a b less small =
      let e : (b - a) + a ≡ b = omega (arith, less) in
      omega (arith, less, ap hashsize e, hashsize_more (b - a) a (omega (arith, e, small)))

  module _ (laws : Laws) (doubles : DoubleLaws) (n : ℕ) where
    -- A new map without limits.
    pub record Empty (m : Table) : Type 0 where
      pub made : new n (P.double 0) no_maximum_hashpower ≡ some (returned m)
      pub ready : IsReady m
      pub reads : (q : Key) → find m q ≡ none
      pub nothing : used m.buckets ≡ 0
      pub sized : reserve_calc n ≡ some m.hashpower

    new-Empty :
        ((new n (P.double 0) no_maximum_hashpower ≡ none) × (2 ^ 63 < n + slot_per_bucket))
        ⊎ ((m : Table) × Empty m)
    unfolding new set_minimum_load_factor
    new-Empty = elim (Option-cases (reserve_calc n)) [
      | inl e ↦ inl (
        rw (new, set_minimum_load_factor, doubles.zero_zero, doubles.one_zero, e) refl,
        elim (dec_lt (2 ^ 63) (n + slot_per_bucket)) [
          | yes big ↦ big
          | no small ↦
              absurd
                (cc (e, (reserve_calc-Reserves n laws.slots_pos (omega (arith, small))).result))
        ],
      )
      | inr (hp, e) ↦
          let t : Table =
            set_maximum_hashpower (record (blank (P.double 0)) { minimum_load_factor = P.double 0 })
              no_maximum_hashpower in
          let small : hp < 64 = reserve_calc-lt n hp e in
          inr (
            allocate_buckets t hp,
            record {
              made = rw (new, set_minimum_load_factor, doubles.zero_zero, doubles.one_zero, e) refl;
              ready = record {
                valid = allocate_buckets-IsValid t hp small;
                no_limit = unfold allocate_buckets set_maximum_hashpower in refl;
                no_factor = unfold allocate_buckets set_maximum_hashpower in refl;
              };
              reads = λ q. allocate_buckets-find laws t hp q small;
              nothing = allocate_buckets-used t hp;
              sized = unfold allocate_buckets in e;
            },
          )
    ]

  -- The same map and the same settings in a table of at least the hashpower `n`, where the slots of
  -- such a table can be counted and moves do not throw.
  pub record Resized (n : ℕ) (t t' : Table) : Type 0 where
    pub valid : IsValid t'
    pub reads : (q : Key) → find t' q ≡ find t q
    pub counts : used t'.buckets ≡ used t.buckets
    pub factor : t'.minimum_load_factor ≡ t.minimum_load_factor
    pub maximum : t'.maximum_hashpower ≡ t.maximum_hashpower
    pub at_least :
        P.is_nothrow_move ≡ true
        → hashsize n * slot_per_bucket + slot_per_bucket ≤ 2 ^ 63
        → n ≤ t'.hashpower

  -- A table with room for the slots of `n` has at least that hashpower.
  room_for :
      (laws : Laws) (n hp : ℕ)
      → n < 64
      → hashsize n * slot_per_bucket + slot_per_bucket ≤ 2 ^ 63
      → reserve_calc (u64 (hashsize n * slot_per_bucket)) ≡ some hp
      → n ≤ hp
  room_for laws n hp small fits e =
      let whole : u64 (hashsize n * slot_per_bucket) ≡ hashsize n * slot_per_bucket =
        omega (arith, fits) in
      let r = reserve_calc-Reserves (hashsize n * slot_per_bucket) laws.slots_pos fits in
      let same : hp ≡ r.hp = some_eq (sym e ∙ ap reserve_calc whole ∙ r.result) in
      elim (dec_lt hp n) [
        | no not_less ↦ omega (arith, not_less)
        | yes less ↦
            let more : hashsize hp + 1 ≤ hashsize n = hashsize_less hp n less small in
            absurd (
              omega (
                arith,
                mul-le-mul_right slot_per_bucket more,
                r.holds,
                ap hashsize same,
                ap (λ (i : ℕ). hashsize i * slot_per_bucket) same,
                laws.slots_pos,
              ))
      ]

  module _ (laws : Laws) (t : Table) (valid : IsValid t) (n : ℕ) (m : Table)
      (least : P.is_nothrow_move ≡ true
        → hashsize n * slot_per_bucket + slot_per_bucket ≤ 2 ^ 63
        → n ≤ m.hashpower)
      (copied : Copied t.buckets (λ _ _. Unit) m) (counts : used m.buckets ≡ used t.buckets) where
    abbrev swapped : Table
    swapped = record t { buckets = m.buckets; hashpower = m.hashpower }

    copied_Reads : (q : Key) (o : Option Mapped) → find m q ≡ o → Reads t.buckets q o
    copied_Reads q none e = λ i s k v stored. elim (Bool-cases (key_eq k q)) [
      | inl same ↦ absurd (cc (e, copied.there i s k v q tt stored same))
      | inr other ↦ other
    ]
    copied_Reads q (some v) e =
        let (i, s, k, _, stored, same) = copied.from q v e in
        record { at = i; pos = s; held = k; stored = stored; same = same }

    swapped-Resized : Resized n t swapped
    swapped-Resized = record {
      valid = record {
        placed = copied.ready.valid.placed;
        locks = valid.locks;
        counted = rw counts valid.counted;
      };
      reads = λ q.
          find_unique laws swapped copied.ready.valid.placed q _
            (find-Reads laws m copied.ready.valid.placed q)
          ∙ sym (find_unique laws t valid.placed q _ (copied_Reads q _ refl));
      counts = counts;
      factor = refl;
      maximum = refl;
      at_least = least;
    }

  abbrev pub is_wrong_way : Table → ℕ → Bool → Bool
  is_wrong_way t new_hp is_expansion =
      is_expansion && leb new_hp t.hashpower || not is_expansion && leb t.hashpower new_hp

  -- The ways in which `cuckoo_expand_simple` ends.
  pub data Resizing (Fails : Type 0) (t : Table) (new_hp : ℕ) (is_expansion : Bool)
      : Outcome Status → Type 0 where
    over_limit :
        over_maximum t new_hp ≡ true
        → Resizing Fails t new_hp is_expansion
            (some (t, thrown (maximum_hashpower_exceeded new_hp)))
    wrong_way :
        is_wrong_way t new_hp is_expansion ≡ true
        → Resizing Fails t new_hp is_expansion (some (t, returned failure_under_expansion))
    too_big :
        (64 ≤ new_hp) ⊎ (2 ^ 63 < u64 (hashsize new_hp * slot_per_bucket) + slot_per_bucket)
        → Resizing Fails t new_hp is_expansion none
    not_finished : Fails → Resizing Fails t new_hp is_expansion none
    resized :
        {t' : Table}
        → over_maximum t new_hp ≡ false
        → is_wrong_way t new_hp is_expansion ≡ false
        → Resized new_hp t t'
        → Resizing Fails t new_hp is_expansion (some (t', returned ok))

  module _ (laws : Laws) (doubles : DoubleLaws) (split : ℕ → List (ℕ × ℕ))
      (partitions : (n : ℕ) → IsPartition (λ _. ⊥) n (split n)) (retries search_fuel : ℕ)
      (insert_into : Table → Key → Mapped → Outcome Bool) (Fails : Type 0) (t : Table)
      (inserts : Inserts t.buckets insert_into Fails) (valid : IsValid t) (new_hp : ℕ)
      (is_expansion : Bool) where
    abbrev resize : Outcome Status
    resize = cuckoo_expand_simple split retries search_fuel insert_into t new_hp is_expansion

    abbrev IsResizing : Outcome Status → Type 0
    IsResizing o = Resizing Fails t new_hp is_expansion o

    module _ (within : over_maximum t new_hp ≡ false)
        (way : is_wrong_way t new_hp is_expansion ≡ false) (word : new_hp < 64) where
      abbrev room : ℕ
      room = u64 (hashsize new_hp * slot_per_bucket)

      resize_into : (m : Table) → Empty laws doubles room m → IsResizing resize
      unfolding cuckoo_expand_simple
      resize_into m empty =
          elim (refilled laws split retries search_fuel insert_into Fails t.hashpower t.buckets
            inserts valid.placed (split (hashsize t.hashpower)) m
            (subst (λ n. IsPartition (λ _. ⊥) n (split (hashsize t.hashpower)))
              (sym valid.placed.width) (partitions (hashsize t.hashpower)))
            empty.ready empty.reads empty.nothing) [
              | inl (f, e) ↦
                  subst IsResizing
                    (sym (
                      rw (cuckoo_expand_simple, within, way, lt→ltb new_hp 64 word, empty.made, e)
                        refl))
                    (not_finished f)
              | inr (m1, e, (copied, counts, grew)) ↦
                  subst IsResizing
                    (sym (
                      rw (cuckoo_expand_simple, within, way, lt→ltb new_hp 64 word, empty.made, e)
                        refl))
                    (resized within way (
                      swapped-Resized laws t valid new_hp m1
                        (λ nothrow fits. omega (
                          arith,
                          grew nothrow,
                          room_for laws new_hp m.hashpower word fits empty.sized,
                        ))
                        copied counts))
            ]

      resize_word : IsResizing resize
      unfolding cuckoo_expand_simple
      resize_word = elim (new-Empty laws doubles room) [
        | inl (e, big) ↦
            subst IsResizing
              (sym (rw (cuckoo_expand_simple, within, way, lt→ltb new_hp 64 word, e) refl))
              (too_big (inr big))
        | inr (m, empty) ↦ resize_into m empty
      ]

    pub cuckoo_expand_simple-Resizing : IsResizing resize
    unfolding cuckoo_expand_simple
    cuckoo_expand_simple-Resizing = elim (Bool-cases (over_maximum t new_hp)) [
      | inl over ↦ subst IsResizing (sym (rw (cuckoo_expand_simple, over) refl)) (over_limit over)
      | inr within ↦ elim (Bool-cases (is_wrong_way t new_hp is_expansion)) [
        | inl way ↦
            subst IsResizing (sym (rw (cuckoo_expand_simple, within, way) refl)) (wrong_way way)
        | inr way ↦ elim (Bool-cases (ltb new_hp 64)) [
          | inl word ↦ resize_word within way (ltb→lt new_hp 64 word)
          | inr long ↦
              subst IsResizing (sym (rw (cuckoo_expand_simple, within, way, long) refl))
                (too_big (inl (ltb-false new_hp 64 long)))
        ]
      ]
    ]
