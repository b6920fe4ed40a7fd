-- ===== src/Bucket.antt =====
-- The class `Bucket` of libcuckoo/cuckoohash_map.hh. Its three arrays of `slot_per_bucket` entries
-- are one list of slots. The storage of a slot is raw memory: `some` while a pair lives in it.
pub mod Search
pub mod Laws
pub mod Free
use libcuckoo_cxx.Base.{
  ℕ, List, [], ◌∷◌, Bool, true, false, Option, none, some, get_or, set, if◌then◌else◌,
}
use libcuckoo_cxx.Params.{Params}

module _ ⦃P : Params⦄ where
  open P use {Key, Mapped}

  pub record Slot : Type 0 where
    pub partial : ℕ
    pub occupied : Bool
    pub storage : Option (Key × Mapped)

  abbrev pub Bucket : Type 0
  Bucket = List Slot

  -- A slot that was never used, and what a read past the end gives in the model.
  abbrev pub fresh_slot : Slot
  fresh_slot = record { partial = 0; occupied = false; storage = none }

  abbrev pub slot : Bucket → ℕ → Slot
  slot b ind = get_or b ind fresh_slot

  abbrev pub partial : Bucket → ℕ → ℕ
  partial b ind = (slot b ind).partial

  abbrev pub occupied : Bucket → ℕ → Bool
  occupied b ind = (slot b ind).occupied

  abbrev pub kvpair : Bucket → ℕ → Option (Key × Mapped)
  kvpair b ind = (slot b ind).storage

  unfoldable pub set_kv : Bucket → ℕ → ℕ → Key → Mapped → Bucket
  set_kv b ind p k v = set b ind (record { partial = p; occupied = true; storage = some (k, v) })

  -- The bit is cleared and the pair destroyed; the partial key stays.
  abbrev pub vacated : Slot → Slot
  vacated s = record { partial = s.partial; occupied = false; storage = none }

  unfoldable pub erase_kv : Bucket → ℕ → Bucket
  erase_kv b ind = set b ind (vacated (slot b ind))

  -- `b.val(ind) = v`
  abbrev pub revalued : Slot → Mapped → Slot
  revalued s v = record {
    partial = s.partial;
    occupied = s.occupied;
    storage = elim s.storage [ none ↦ none | some (k, w) ↦ some (k, v) ];
  }

  unfoldable pub set_val : Bucket → ℕ → Mapped → Bucket
  set_val b ind v = set b ind (revalued (slot b ind) v)

  unfoldable pub clear : Bucket → Bucket
  clear [] = []
  clear (s ∷ b) = (if s.occupied then vacated s else s) ∷ clear b
