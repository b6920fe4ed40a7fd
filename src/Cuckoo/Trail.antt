-- ===== src/Cuckoo/Trail.antt =====
-- The walks that the breadth-first search of libcuckoo/cuckoohash_map.hh makes from the two buckets of
-- a key: a walk is its list of slots, the last one first.
use native.Mathlib.Nat.{pow-suc, pow-zero, mul-le-mul_right}
use libcuckoo_cxx.Base.{
  ℕ, suc, ◌+◌, ◌*◌, ◌^◌, ◌<◌, ◌≤◌, ◌≡◌, ◌≢◌, refl, subst, ◌⊎◌, inl, inr, List, [], ◌∷◌, ◌++◌, true,
  false, arith, length, ◌==◌, if◌then◌else◌,
}
use libcuckoo_cxx.Bucket.{Bucket, partial, occupied}
use libcuckoo_cxx.Hash.{alt_index}
use libcuckoo_cxx.Params.{Params}
use libcuckoo_cxx.Queue.{BSlot}
use libcuckoo_cxx.Table.{bucket}

-- A node of the search in a list, by its bucket and depth.
abbrev pub Has : List BSlot → ℕ → ℕ → Type 0
Has [] b k = ⊥
Has (n ∷ nodes) b k = ((n.bucket ≡ b) × (n.depth ≡ k)) ⊎ Has nodes b k

pub Has-append_left : (xs ys : List BSlot) (b k : ℕ) → Has xs b k → Has (xs ++ ys) b k
Has-append_left [] ys b k h = elim h [ ]
Has-append_left (x ∷ xs) ys b k (inl h) = inl h
Has-append_left (x ∷ xs) ys b k (inr h) = inr (Has-append_left xs ys b k h)

pub Has-append_last : (xs : List BSlot) (y : BSlot) → Has (xs ++ y ∷ []) y.bucket y.depth
Has-append_last [] y = inl (refl, refl)
Has-append_last (x ∷ xs) y = inr (Has-append_last xs y)

-- Depths do not fall along the queue, and lie between `lo` and `hi`.
abbrev pub Levels : ℕ → ℕ → List BSlot → Type 0
Levels lo hi [] = Unit
Levels lo hi (n ∷ nodes) = (lo ≤ n.depth) × (n.depth ≤ hi) × Levels n.depth hi nodes

pub Levels-weaken :
    (lo hi lo' hi' : ℕ) (xs : List BSlot)
    → lo' ≤ lo
    → hi ≤ hi'
    → Levels lo hi xs
    → Levels lo' hi' xs
Levels-weaken lo hi lo' hi' [] l h v = tt
Levels-weaken lo hi lo' hi' (x ∷ xs) l h v =
    (omega arith, omega arith, Levels-weaken x.depth hi x.depth hi' xs (omega arith) h v.2)

pub Levels-snoc :
    (lo hi : ℕ) (xs : List BSlot) (y : BSlot)
    → lo ≤ hi
    → y.depth ≡ hi
    → Levels lo hi xs
    → Levels lo hi (xs ++ y ∷ [])
Levels-snoc lo hi [] y le e v = (omega arith, omega arith, tt)
Levels-snoc lo hi (x ∷ xs) y le e v = (v.0, v.1, Levels-snoc x.depth hi xs y (omega arith) e v.2)

pub Levels-Has : (lo hi : ℕ) (xs : List BSlot) (b k : ℕ) → Levels lo hi xs → Has xs b k → lo ≤ k
Levels-Has lo hi [] b k v h = elim h [ ]
Levels-Has lo hi (x ∷ xs) b k v (inl h) = omega (arith, v.0, h.1)
Levels-Has lo hi (x ∷ xs) b k v (inr h) = omega (arith, v.0, Levels-Has x.depth hi xs b k v.2 h)

module _ ⦃P : Params⦄ where
  open P use {slot_per_bucket}

  -- The code of a walk from the bucket with code `c`.
  unfoldable pub code : ℕ → List ℕ → ℕ
  code c [] = c
  code c (s ∷ slots) = code c slots * slot_per_bucket + s

  module _ (hp : ℕ) (bs : List Bucket) (i1 i2 : ℕ) where
    -- The bucket that a pair in this slot would go to.
    abbrev pub next : ℕ → ℕ → ℕ
    next b s = alt_index hp (partial (bucket bs b) s) b

    abbrev pub start : ℕ → ℕ
    start c = if c == 0 then i1 else i2

    -- Where a walk ends.
    unfoldable pub bucket_at : ℕ → List ℕ → ℕ
    bucket_at c [] = start c
    bucket_at c (s ∷ slots) = next (bucket_at c slots) s

    -- Each slot of the walk is taken, and its bucket was visited at its depth.
    abbrev pub IsWalk : List BSlot → ℕ → List ℕ → Type 0
    IsWalk seen c [] = Unit
    IsWalk seen c (s ∷ slots) =
        (s < slot_per_bucket)
        × (occupied (bucket bs (bucket_at c slots)) s ≡ true)
        × Has seen (bucket_at c slots) (length slots)
        × IsWalk seen c slots

    -- A node of the queue.
    pub record Trail (seen : List BSlot) (x : BSlot) : Type 0 where
      pub root : ℕ
      pub slots : List ℕ
      pub from_either : root < 2
      pub walk : IsWalk seen root slots
      pub short : length slots ≤ 4
      pub depth : x.depth ≡ length slots
      pub pathcode : x.pathcode ≡ code root slots
      pub ends : x.bucket ≡ bucket_at root slots

    pub IsWalk-weaken :
        (y : BSlot) (seen : List BSlot) (c : ℕ) (slots : List ℕ)
        → IsWalk seen c slots
        → IsWalk (y ∷ seen) c slots
    IsWalk-weaken y seen c [] h = tt
    IsWalk-weaken y seen c (s ∷ slots) h = (h.0, h.1, inr h.2, IsWalk-weaken y seen c slots h.3)

    pub Trail-weaken :
        (y : BSlot) (seen : List BSlot) (x : BSlot) → Trail seen x → Trail (y ∷ seen) x
    Trail-weaken y seen x t = record {
      root = t.root;
      slots = t.slots;
      from_either = t.from_either;
      walk = IsWalk-weaken y seen t.root t.slots t.walk;
      short = t.short;
      depth = t.depth;
      pathcode = t.pathcode;
      ends = t.ends;
    }

    -- The code of a walk fits into a word.
    pub code-lt :
        (seen : List BSlot) (c : ℕ) (slots : List ℕ)
        → c < 2
        → IsWalk seen c slots
        → code c slots < 2 * slot_per_bucket ^ length slots
    unfolding code
    code-lt seen c [] h w = omega (arith, pow-zero slot_per_bucket)
    code-lt seen c (s ∷ slots) h w = omega (
      arith,
      w.0,
      pow-suc slot_per_bucket (length slots),
      mul-le-mul_right slot_per_bucket (code-lt seen c slots h w.3),
    )

    abbrev pub IsFull : ℕ → Type 0
    IsFull b = (s : ℕ) → s < slot_per_bucket → occupied (bucket bs b) s ≡ true

    -- What the search has done before it takes a node of depth `d`: the buckets it has visited are
    -- full, and all buckets one step further were visited or wait.
    pub record Visited (seen waiting : List BSlot) (d : ℕ) : Type 0 where
      pub full : (b k : ℕ) → Has seen b k → IsFull b
      pub closed :
          (b k s : ℕ)
          → Has seen b k
          → k < 4
          → s < slot_per_bucket
          → Has seen (next b s) (suc k) ⊎ Has waiting (next b s) (suc k)
      pub level : Levels d (suc d) waiting

    -- No visit of the end of a walk was earlier than the walk is long.
    abbrev Shortest : List BSlot → ℕ → List ℕ → Type 0
    Shortest seen c slots = (m : ℕ) → Has seen (bucket_at c slots) m → m < length slots → ⊥

    -- The buckets of a walk are all different.
    abbrev pub Avoids : ℕ → ℕ → List ℕ → Type 0
    Avoids b c [] = Unit
    Avoids b c (s ∷ slots) = (bucket_at c slots ≢ b) × Avoids b c slots

    abbrev pub IsSimple : ℕ → List ℕ → Type 0
    IsSimple c [] = Unit
    IsSimple c (s ∷ slots) = Avoids (bucket_at c slots) c slots × IsSimple c slots

    avoids :
        (seen : List BSlot) (c b n : ℕ) (slots : List ℕ)
        → ((m : ℕ) → Has seen b m → m < n → ⊥)
        → IsWalk seen c slots
        → length slots ≤ n
        → Avoids b c slots
    avoids seen c b n [] h w le = tt
    avoids seen c b n (s ∷ slots) h w le = (
      λ e. h (length slots) (subst (λ (j : ℕ). Has seen j (length slots)) e w.2) (omega arith),
      avoids seen c b n slots h w.3 (omega arith),
    )

    module _ (seen waiting : List BSlot) (d : ℕ) (v : Visited seen waiting d) (le : d ≤ 4) where
      -- From an earlier visit the search would have gone on, and so visited the next bucket earlier.
      Shortest-tail :
          (c s : ℕ) (slots : List ℕ)
          → s < slot_per_bucket
          → length slots < d
          → Shortest seen c (s ∷ slots)
          → Shortest seen c slots
      unfolding bucket_at
      Shortest-tail c s slots ok lt h m at less =
          elim (v.closed (bucket_at c slots) m s at (omega arith) ok) [
            | inl g ↦ h (suc m) g (omega arith)
            | inr g ↦ omega (arith, Levels-Has d (suc d) waiting _ _ v.level g)
          ]

      simple :
          (c : ℕ) (slots : List ℕ)
          → IsWalk seen c slots
          → length slots ≤ d
          → Shortest seen c slots
          → IsSimple c slots
      simple c [] w len h = tt
      simple c (s ∷ slots) w len h =
          let h' = Shortest-tail c s slots w.0 (omega arith) h in
          (
            avoids seen c (bucket_at c slots) (length slots) slots h' w.3 (omega arith),
            simple c slots w.3 (omega arith) h',
          )

      -- The walk to a bucket that is not full visits no bucket twice.
      pub Trail-IsSimple :
          (c : ℕ) (slots : List ℕ) (s : ℕ)
          → IsWalk seen c slots
          → length slots ≡ d
          → s < slot_per_bucket
          → occupied (bucket bs (bucket_at c slots)) s ≡ false
          → IsSimple c slots
      Trail-IsSimple c slots s w len ok empty =
          simple c slots w (omega arith)
            (λ m at less. cc (v.full (bucket_at c slots) m at s ok, empty))
