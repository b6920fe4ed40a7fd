-- ===== src/Expand/Double.antt =====
-- `cuckoo_fast_double`, from the resizing of the buckets on.
use libcuckoo_cxx.Base.{
  ℕ, suc, ◌+◌, ◌-◌, ◌<◌, ◌≤◌, ◌≡◌, refl, sym, ap, ◌∙◌, subst, List, [], ◌∷◌, ◌++◌, Option, none,
  some, arith, length, min, dec_lt, replicate, length-append, length-replicate, get_or-append,
  get_or-append_right,
}
use libcuckoo_cxx.Bucket.Laws.{is_some}
use libcuckoo_cxx.Bucket.{Slot, Bucket, fresh_slot, slot}
use libcuckoo_cxx.Config.{num_locks}
use libcuckoo_cxx.Construct.Fresh.{empty_bucket, bucket-fresh, cell-fresh, used-fresh}
use libcuckoo_cxx.Expand.Ranges.{IsPartition, move_ranges-Split}
use libcuckoo_cxx.Expand.Slots.{At}
use libcuckoo_cxx.Expand.Stride.{Split}
use libcuckoo_cxx.Expand.Where.{hashsize-suc}
use libcuckoo_cxx.Expand.{resize_double, double_buckets}
use libcuckoo_cxx.Hash.{hashsize}
use libcuckoo_cxx.Params.{Params, Laws}
use libcuckoo_cxx.Table.Counts.{used, IsValid, size-used}
use libcuckoo_cxx.Table.Lookup.{find_unique, find-Reads}
use libcuckoo_cxx.Table.Valid.{cell, PlacedBy, IsPlaced, Reads, in_range}
use libcuckoo_cxx.Table.{Table, bucket, find, size}

module _ ⦃P : Params⦄ where
  open P use {Key, Mapped, slot_per_bucket, key_eq}

  used-append : (bs cs : List Bucket) → used (bs ++ cs) ≡ used bs + used cs
  unfolding used
  used-append [] cs = omega arith
  used-append (b ∷ bs) cs = omega (arith, used-append bs cs)

  -- A cell of the larger vector is an old one or empty.
  data Cell (bs : List Bucket) (i s : ℕ) : Type 0 where
    old : i < length bs → cell (resize_double bs) i s ≡ cell bs i s → Cell bs i s
    new : length bs ≤ i → cell (resize_double bs) i s ≡ fresh_slot → Cell bs i s

  cell_of : (bs : List Bucket) (i s : ℕ) → Cell bs i s
  unfolding resize_double
  cell_of bs i s = elim (dec_lt i (length bs)) [
    | yes h ↦ old h (ap (λ (b : Bucket). slot b s) (get_or-append bs _ i [] h))
    | no h ↦ new (omega (arith, h)) (
        ap (λ (b : Bucket). slot b s) (get_or-append_right bs _ i [] (omega (arith, h)))
        ∙ cell-fresh (length bs) (i - length bs) s)
  ]

  cell_old :
      (bs : List Bucket) (i s : ℕ) (kv : Key × Mapped)
      → (cell (resize_double bs) i s).storage ≡ some kv
      → (i < length bs) × ((cell bs i s).storage ≡ some kv)
  cell_old bs i s kv h = elim (cell_of bs i s) [
    | old less e ↦ (less, cc (e, h))
    | new more e ↦ absurd (cc (e, h))
  ]

  resized_rows :
      (bs : List Bucket)
      → ((i : ℕ) → i < length bs → length (bucket bs i) ≡ slot_per_bucket)
      → (i : ℕ) → i < length (resize_double bs)
      → length (bucket (resize_double bs) i) ≡ slot_per_bucket
  unfolding resize_double
  resized_rows bs rows i less = elim (dec_lt i (length bs)) [
    | yes h ↦ ap length (get_or-append bs _ i [] h) ∙ rows i h
    | no h ↦
        ap length (get_or-append_right bs _ i [] (omega (arith, h)))
        ∙ ap length (
            bucket-fresh (length bs) (i - length bs) (
              omega (
                arith,
                less,
                h,
                length-append bs (replicate (length bs) empty_bucket),
                length-replicate (length bs) empty_bucket,
              )))
        ∙ length-replicate slot_per_bucket fresh_slot
  ]

  length-resized : (bs : List Bucket) → length (resize_double bs) ≡ length bs + length bs
  unfolding resize_double
  length-resized bs =
      length-append bs _ ∙ ap (λ (n : ℕ). length bs + n) (length-replicate (length bs) empty_bucket)

  resized_used : (bs : List Bucket) → used (resize_double bs) ≡ used bs
  unfolding resize_double
  resized_used bs =
      omega (arith, used-append bs (replicate (length bs) empty_bucket), used-fresh (length bs))

  resized_live :
      (bs : List Bucket)
      → ((i s : ℕ) → (cell bs i s).occupied ≡ is_some (cell bs i s).storage)
      → (i s : ℕ)
      → (cell (resize_double bs) i s).occupied ≡ is_some (cell (resize_double bs) i s).storage
  resized_live bs live i s = elim (cell_of bs i s) [
    | old _ e ↦ rw e (live i s)
    | new _ e ↦ rw e refl
  ]

  resized_tagged :
      (bs : List Bucket) (i s : ℕ) (p : ℕ)
      → i < length bs
      → (cell bs i s).partial ≡ p
      → (cell (resize_double bs) i s).partial ≡ p
  resized_tagged bs i s p less h = elim (cell_of bs i s) [
    | old _ e ↦ cc (e, h)
    | new more e ↦ absurd (omega (arith, less, more))
  ]

  resized_Reads :
      (bs : List Bucket) (q : Key) (o : Option Mapped) → Reads bs q o → Reads (resize_double bs) q o
  resized_Reads bs q none h = λ i s k v stored. h i s k v (cell_old bs i s (k, v) stored).1
  resized_Reads bs q (some v) f = elim (cell_of bs f.at f.pos) [
    | old _ e ↦ record {
      at = f.at;
      pos = f.pos;
      held = f.held;
      stored = rw e f.stored;
      same = f.same;
    }
    | new more e ↦ absurd (omega (arith, more, (in_range bs f.at f.pos f.stored).0))
  ]

  -- A table with one more bit of hashpower that reads and counts as before.
  pub record Doubled (t t' : Table) : Type 0 where
    pub valid : IsValid t'
    pub hashpower : t'.hashpower ≡ suc t.hashpower
    pub reads : (q : Key) → find t' q ≡ find t q
    pub counts : used t'.buckets ≡ used t.buckets
    pub size : size t' ≡ size t
    pub settings :
        (t'.minimum_load_factor ≡ t.minimum_load_factor)
        × (t'.maximum_hashpower ≡ t.maximum_hashpower)

  module _ (laws : Laws) (t : Table) (valid : IsValid t) (lt : suc t.hashpower < 64) where
    abbrev resized : Table
    resized = record t { buckets = resize_double t.buckets; hashpower = suc t.hashpower }

    resized-PlacedBy :
        PlacedBy
          (suc t.hashpower)
          (hashsize (suc t.hashpower))
          (At t.hashpower (λ _. ⊥))
          resized.buckets
    resized-PlacedBy = record {
      small = lt;
      width =
          omega (arith, length-resized t.buckets, valid.placed.width, hashsize-suc t.hashpower lt);
      rows = resized_rows t.buckets valid.placed.rows;
      live = resized_live t.buckets valid.placed.live;
      homes = λ i s k v stored.
          let (less, was) = cell_old t.buckets i s (k, v) stored in
          let (tagged, home) = valid.placed.homes i s k v was in
          (
            resized_tagged t.buckets i s _ less tagged,
            (
              (λ _. (home, λ d. absurd d)),
              λ more. absurd (omega (arith, more, less, valid.placed.width)),
            ),
          );
      unique = λ i s j u k l v w h g same.
          valid.placed.unique i s j u k l v w (cell_old t.buckets i s (k, v) h).1
            (cell_old t.buckets j u (l, w) g).1 same;
    }

    resized-Split : Split t.hashpower (λ _. ⊥) resized resized
    resized-Split = record {
      going = record {
        placed = resized-PlacedBy;
        reads = λ q o h. h;
        counts = refl;
        locks = valid.locks;
        counted = omega (arith, valid.counted, resized_used t.buckets);
        kept = refl;
      };
      spare = λ i u less _. elim (cell_of t.buckets (i + hashsize t.hashpower) u) [
        | old low e ↦ absurd (omega (arith, low, valid.placed.width))
        | new _ e ↦ ap (λ (x : Slot). x.storage) e
      ];
    }

    Split-IsPlaced :
        (t' : Table)
        → Split t.hashpower (λ _. Unit) resized t'
        → IsPlaced (suc t.hashpower) t'.buckets
    Split-IsPlaced t' h = record {
      small = lt;
      width = h.going.placed.width;
      rows = h.going.placed.rows;
      live = h.going.placed.live;
      homes = λ i s k v e.
          let (tagged, at) = h.going.placed.homes i s k v e in
          (
            tagged,
            elim (dec_lt i (hashsize t.hashpower)) [
              | yes low ↦ (at.0 low).1 tt
              | no high ↦ at.1 (omega (arith, high))
            ],
          );
      unique = h.going.placed.unique;
    }

    Split-Doubled : (t' : Table) → Split t.hashpower (λ _. Unit) resized t' → Doubled t t'
    Split-Doubled t' h =
        let power : t'.hashpower ≡ suc t.hashpower = ap (λ (x : Table). x.hashpower) h.going.kept in
        let placed : IsPlaced t'.hashpower t'.buckets =
          subst (λ (n : ℕ). IsPlaced n t'.buckets) (sym power) (Split-IsPlaced t' h) in
        let counts : used t'.buckets ≡ used t.buckets = h.going.counts ∙ resized_used t.buckets in
        let valid' : IsValid t' = record {
          placed = placed;
          locks = h.going.locks;
          counted = h.going.counted;
        } in
        record {
          valid = valid';
          hashpower = power;
          reads = λ q.
              find_unique laws t' placed q _ (
                h.going.reads q _ (resized_Reads t.buckets q _ (find-Reads laws t valid.placed q)));
          counts = counts;
          size = omega (arith, size-used t' valid', size-used t valid, counts);
          settings = (
            ap (λ (x : Table). x.minimum_load_factor) h.going.kept,
            ap (λ (x : Table). x.maximum_hashpower) h.going.kept,
          );
        }

    -- On a valid table with a hashpower below 63, and for any split of its locks into ranges that
    -- takes each lock once, in any order, the doubling of the buckets leaves a valid table with
    -- the next hashpower, the same settings, size and number of pairs, in which every key reads as
    -- before.
    pub double_buckets-Doubled :
        (ranges : List (ℕ × ℕ))
        → IsPartition (λ _. ⊥) (min num_locks (hashsize t.hashpower)) ranges
        → Doubled t (double_buckets ranges t.hashpower t)
    unfolding double_buckets
    double_buckets-Doubled ranges all =
        Split-Doubled _
          (move_ranges-Split laws t.hashpower lt resized ranges (λ _. ⊥) resized all resized-Split)
