-- ===== src/Insert/Copied.antt =====
-- Which pairs of the old buckets a new map has, while `SimpleMoveBucketsFn` runs.
use libcuckoo_cxx.Base.{ℕ, ◌+◌, ◌≤◌, ◌≡◌, ◌∙◌, ◌⊎◌, List, Bool, true, none, some}
use libcuckoo_cxx.Bucket.{Bucket}
use libcuckoo_cxx.Config.{no_maximum_hashpower}
use libcuckoo_cxx.Insert.{Outcome}
use libcuckoo_cxx.Params.{Params}
use libcuckoo_cxx.Table.Counts.{IsValid, used}
use libcuckoo_cxx.Table.Insert.{Added}
use libcuckoo_cxx.Table.Valid.{cell}
use libcuckoo_cxx.Table.{Table, returned, find}

module _ ⦃P : Params⦄ where
  open P use {Key, Mapped, key_eq}

  -- A map without limits.
  pub record IsReady (m : Table) : Type 0 where
    pub valid : IsValid m
    pub no_limit : m.maximum_hashpower ≡ no_maximum_hashpower
    pub no_factor : m.minimum_load_factor ≡ P.double 0

  pub Added-IsReady :
      (m m' : Table) (k : Key) (v : Mapped) → IsReady m → Added m k v m' → IsReady m'
  Added-IsReady m m' k v ready a = record {
    valid = a.valid;
    no_limit = a.limits.1 ∙ ready.no_limit;
    no_factor = a.limits.0 ∙ ready.no_factor;
  }

  -- A pair in the buckets, under a key equal to `q`.
  abbrev pub Holds : List Bucket → Key → Mapped → Type 0
  Holds bs q v =
      (i : ℕ) × (s : ℕ) × (k : Key) × ((cell bs i s).storage ≡ some (k, v)) × (key_eq k q ≡ true)

  -- A call of `insert_into` on a map without limits that has some of the pairs of `bs`, with
  -- another one of them, adds the pair or is one of the calls in `Fails`, which do not return.
  abbrev pub Inserts : List Bucket → (Table → Key → Mapped → Outcome Bool) → Type 0 → Type 0
  Inserts bs insert_into Fails =
      (m : Table)
      → IsReady m
      → ((q : Key) (w : Mapped) → find m q ≡ some w → Holds bs q w)
      → (k : Key) (v : Mapped) → Holds bs k v
      → find m k ≡ none
      → (Fails × (insert_into m k v ≡ none))
        ⊎ ((m' : Table) × (insert_into m k v ≡ some (m', returned true)) × Added m k v m')

  -- How a loop ends.
  abbrev pub Ends : Type 0 → Outcome Unit → (Table → Type 0) → Type 0
  Ends Fails o Q = (Fails × (o ≡ none)) ⊎ ((m : Table) × (o ≡ some (m, returned tt)) × Q m)

  -- The cells of one bucket from `s` on, as the loop of a bucket sees them.
  abbrev pub Row : (ℕ → ℕ → Type 0) → ℕ → ℕ → ℕ → ℕ → Type 0
  Row D i s j u = D j u ⊎ ((j ≡ i) × (s ≤ u))

  abbrev pub Grown : Table → Table → Type 0
  Grown m m' = P.is_nothrow_move ≡ true → m.hashpower ≤ m'.hashpower

  module _ (bs : List Bucket) where
    -- The new map reads the pairs in the cells of `Done`, and no others.
    pub record Copied (Done : ℕ → ℕ → Type 0) (m : Table) : Type 0 where
      pub ready : IsReady m
      pub there :
          (i s : ℕ) (k : Key) (v : Mapped) (q : Key)
          → Done i s
          → (cell bs i s).storage ≡ some (k, v)
          → key_eq k q ≡ true
          → find m q ≡ some v
      pub from :
          (q : Key) (v : Mapped)
          → find m q ≡ some v
          → (i : ℕ) × (s : ℕ) × (k : Key) × Done i s
            × ((cell bs i s).storage ≡ some (k, v))
            × (key_eq k q ≡ true)

    pub Copied-congr :
        (D E : ℕ → ℕ → Type 0) (m : Table)
        → ((i s : ℕ) (k : Key) (v : Mapped) → (cell bs i s).storage ≡ some (k, v) → E i s → D i s)
        → ((i s : ℕ) → D i s → E i s)
        → Copied D m
        → Copied E m
    Copied-congr D E m back forth c = record {
      ready = c.ready;
      there = λ i s k v q d stored same. c.there i s k v q (back i s k v stored d) stored same;
      from = λ q v h.
          let (i, s, k, d, stored, same) = c.from q v h in (i, s, k, forth i s d, stored, same);
    }

    abbrev pub Filled : (ℕ → ℕ → Type 0) → ℕ → Table → Table → Type 0
    Filled D n m m' = Copied D m' × (used m'.buckets ≡ used m.buckets + n) × Grown m m'
