-- ===== src/Table/Clear.antt =====
-- `cuckoo_clear` of libcuckoo/cuckoohash_map.hh, which `clear` and the destructor run.
use libcuckoo_cxx.Base.{
  ℕ, zero, suc, ◌≡◌, refl, sym, ap, ◌∙◌, List, [], ◌∷◌, map, false, Option, none, some, arith,
  length, if◌then◌else◌, Bool-cases, inl, inr,
}
use libcuckoo_cxx.Bucket
use libcuckoo_cxx.Bucket.Laws.{is_some}
use libcuckoo_cxx.Bucket.{Slot, Bucket, slot, vacated, fresh_slot}
use libcuckoo_cxx.Params.{Params, Laws}
use libcuckoo_cxx.Table.Counts.{SameLimits, used, used_slots, sum-zero, IsValid, size-used}
use libcuckoo_cxx.Table.Lookup.{find_unique}
use libcuckoo_cxx.Table.Valid.{cell, IsPlaced, Reads}
use libcuckoo_cxx.Table.{Table, bucket, cuckoo_clear, find, size}

length-map {ℓ κ} :
    {A : Type ℓ} {B : Type κ} (f : A → B) (xs : List A) → length (map f xs) ≡ length xs
length-map f [] = refl
length-map f (x ∷ xs) = ap suc (length-map f xs)

module _ ⦃P : Params⦄ where
  open P use {Key, Mapped}

  length-clear : (b : Bucket) → length (Bucket.clear b) ≡ length b
  unfolding Bucket.clear
  length-clear [] = refl
  length-clear (s ∷ b) = ap suc (length-clear b)

  bucket-clear :
      (bs : List Bucket) (i : ℕ) → bucket (map Bucket.clear bs) i ≡ Bucket.clear (bucket bs i)
  bucket-clear [] i = unfold Bucket.clear in refl
  bucket-clear (b ∷ bs) zero = refl
  bucket-clear (b ∷ bs) (suc i) = bucket-clear bs i

  slot-clear :
      (b : Bucket) (s : ℕ)
      → slot (Bucket.clear b) s ≡ (if (slot b s).occupied then vacated (slot b s) else slot b s)
  unfolding Bucket.clear
  slot-clear [] s = refl
  slot-clear (x ∷ b) zero = refl
  slot-clear (x ∷ b) (suc s) = slot-clear b s

  -- Where the bits tell the storage, no bit is left and nothing is stored.
  cleared :
      {hp : ℕ} (bs : List Bucket)
      → IsPlaced hp bs
      → (i s : ℕ)
      → ((cell (map Bucket.clear bs) i s).occupied ≡ false)
        × ((cell (map Bucket.clear bs) i s).storage ≡ none)
  cleared bs placed i s =
      rw (bucket-clear, slot-clear)
        (elim (Bool-cases (cell bs i s).occupied) [
          | inl e ↦ rw e (refl, refl)
          | inr e ↦ rw e (e, empty (cell bs i s).storage (sym (placed.live i s) ∙ e))
        ])
    where
      empty : (o : Option (Key × Mapped)) → is_some o ≡ false → o ≡ none
      empty none h = refl
      empty (some kv) h = cc

  used_slots-clear : (b : Bucket) → used_slots (Bucket.clear b) ≡ 0
  unfolding Bucket.clear used_slots
  used_slots-clear [] = refl
  used_slots-clear (s ∷ b) = ground (arith, used_slots-clear b)

  used-clear : (bs : List Bucket) → used (map Bucket.clear bs) ≡ 0
  unfolding used
  used-clear [] = refl
  used-clear (b ∷ bs) = omega (arith, used-clear bs, used_slots-clear b)

  clear-IsPlaced : {hp : ℕ} (bs : List Bucket) → IsPlaced hp bs → IsPlaced hp (map Bucket.clear bs)
  clear-IsPlaced bs placed = record {
    small = placed.small;
    width = length-map Bucket.clear bs ∙ placed.width;
    rows = λ i h. rw bucket-clear (length-clear (bucket bs i) ∙ placed.rows i (rw length-map at h));
    live = λ i s. let (bits, stored) = cleared bs placed i s in bits ∙ sym (ap is_some stored);
    homes = λ i s k v h. cc ((cleared bs placed i s).1, h);
    unique = λ i s j u k l v w h g same. cc ((cleared bs placed i s).1, h);
  }

  -- What `clear` owes its caller, whatever the counters were before.
  pub record Cleared (t t' : Table) : Type 0 where
    pub valid : IsValid t'
    pub reads : (q : Key) → find t' q ≡ none
    pub size : size t' ≡ 0
    pub hashpower : t'.hashpower ≡ t.hashpower
    pub limits : SameLimits t t'

  module _ (laws : Laws) (t : Table) (valid : IsValid t) where
    clear-IsValid : IsValid (cuckoo_clear t)
    unfolding cuckoo_clear
    clear-IsValid = record {
      placed = clear-IsPlaced t.buckets valid.placed;
      locks = length-map (λ _. 0) t.elems ∙ valid.locks;
      counted = omega (arith, sum-zero t.elems, used-clear t.buckets);
    }

    clear-used : used (cuckoo_clear t).buckets ≡ 0
    unfolding cuckoo_clear
    clear-used = used-clear t.buckets

    clear-Reads : (q : Key) → Reads (cuckoo_clear t).buckets q none
    unfolding cuckoo_clear
    clear-Reads q = λ i s k v h. cc ((cleared t.buckets valid.placed i s).1, h)

    -- On a valid table, `cuckoo_clear` gives a valid table of the same hashpower that reads
    -- nothing and has size 0.
    pub cuckoo_clear-Cleared : Cleared t (cuckoo_clear t)
    cuckoo_clear-Cleared = record {
      valid = clear-IsValid;
      reads = λ q. find_unique laws (cuckoo_clear t) clear-IsValid.placed q none (clear-Reads q);
      size = omega (arith, size-used (cuckoo_clear t) clear-IsValid, clear-used);
      hashpower = unfold cuckoo_clear in refl;
      limits = unfold cuckoo_clear in (refl, refl);
    }
