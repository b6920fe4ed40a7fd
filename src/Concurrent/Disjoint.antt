-- ===== src/Concurrent/Disjoint.antt =====
-- Sections that hold no lock in common do not see each other: each reads and writes only the two
-- buckets whose locks it holds, and the counters of these locks.
pub mod Plans
pub mod Commute
use libcuckoo_cxx.Base.{
  ℕ, ◌≡◌, ◌≢◌, refl, sym, ap, ap₂, ◌∙◌, ◌⊎◌, inl, inr, List, Bool, true, false, Option, none, some,
  get_or, set, set_comm, get_or-set_ne, if◌then◌else◌,
}
use libcuckoo_cxx.Bucket.{Bucket}
use libcuckoo_cxx.Concurrent.{Position, Advance, goes, answers}
use libcuckoo_cxx.Hash.{lock_ind}
use libcuckoo_cxx.Params.{Params}
use libcuckoo_cxx.Table.{Table, Result, bucket}

module _ ⦃P : Params⦄ where
  abbrev pub table_of : Advance → Table
  table_of (goes t p) = t
  table_of (answers t a) = t

  -- Where the thread stands afterwards, or its answer.
  abbrev pub rest_of : Advance → Position ⊎ Result Bool
  rest_of (goes t p) = inl p
  rest_of (answers t a) = inr a

  -- What a section is about to do: the bucket that it replaces, the first one or the second, if
  -- any; what becomes of the counter of its lock; and where this leads.
  pub record Plan : Type 0 where
    pub written : Option (Bool × Bucket)
    pub counted : Option (ℕ → ℕ)
    pub outcome : Table → Advance

  abbrev side : ℕ → ℕ → Bool → ℕ
  side i1 i2 first = if first then i1 else i2

  abbrev recount : Option (ℕ → ℕ) → List ℕ → ℕ → List ℕ
  recount none elems l = elems
  recount (some g) elems l = set elems l (g (get_or elems l 0))

  abbrev pub write : ℕ → ℕ → Option (ℕ → ℕ) → Option (Bool × Bucket) → Table → Table
  write i1 i2 g none t = t
  write i1 i2 g (some (first, b)) t = record t {
    buckets = set t.buckets (side i1 i2 first) b;
    elems = recount g t.elems (lock_ind (side i1 i2 first));
  }

  abbrev pub carry_out : ℕ → ℕ → Plan → Table → Advance
  carry_out i1 i2 p t = p.outcome (write i1 i2 p.counted p.written t)

  -- The outcome of a plan does not depend on the table, which it passes on.
  pub record PassesOn (p : Plan) : Type 0 where
    pub keeps : (t : Table) → table_of (p.outcome t) ≡ t
    pub same : (t u : Table) → rest_of (p.outcome t) ≡ rest_of (p.outcome u)

  -- No lock of the first two buckets is one of the other two.
  abbrev pub Disjoint : ℕ → ℕ → ℕ → ℕ → Type 0
  Disjoint i1 i2 j1 j2 =
      (x y : Bool) → lock_ind (if x then i1 else i2) ≢ lock_ind (if y then j1 else j2)

  recount_comm :
      (g h : Option (ℕ → ℕ)) (elems : List ℕ) (l m : ℕ)
      → l ≢ m
      → recount g (recount h elems m) l ≡ recount h (recount g elems l) m
  recount_comm none h elems l m n = refl
  recount_comm (some g) none elems l m n = refl
  recount_comm (some g) (some h) elems l m n =
      ap (λ e. set (set elems m (h (get_or elems m 0))) l (g e))
        (get_or-set_ne elems m l (h (get_or elems m 0)) 0 (λ e. n (sym e)))
      ∙ set_comm elems m l (h (get_or elems m 0)) (g (get_or elems l 0)) (λ e. n (sym e))
      ∙ ap (λ e. set (set elems l (g (get_or elems l 0))) m (h e))
          (sym (get_or-set_ne elems l m (g (get_or elems l 0)) 0 n))

  module _ (i1 i2 j1 j2 : ℕ) (apart : Disjoint i1 i2 j1 j2) where
    apart_at : (x y : Bool) → side j1 j2 y ≢ side i1 i2 x
    apart_at x y e = apart x y (ap lock_ind (sym e))

    pub write_comm :
        (g h : Option (ℕ → ℕ)) (o o' : Option (Bool × Bucket)) (t : Table)
        → write i1 i2 g o (write j1 j2 h o' t) ≡ write j1 j2 h o' (write i1 i2 g o t)
    write_comm g h none o' t = refl
    write_comm g h (some w) none t = refl
    write_comm g h (some (x, b)) (some (y, c)) t = λ i. record t {
      buckets = set_comm t.buckets (side j1 j2 y) (side i1 i2 x) c b (apart_at x y) i;
      elems = recount_comm g h t.elems _ _ (apart x y) i;
    }

    -- A bucket of the first section is not written by the second one.
    pub untouched :
        (x : Bool) (h : Option (ℕ → ℕ)) (o : Option (Bool × Bucket)) (t : Table)
        → bucket (write j1 j2 h o t).buckets (side i1 i2 x) ≡ bucket t.buckets (side i1 i2 x)
    untouched x h none t = refl
    untouched x h (some (y, c)) t =
        get_or-set_ne t.buckets (side j1 j2 y) (side i1 i2 x) c _ (apart_at x y)
