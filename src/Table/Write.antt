-- ===== src/Table/Write.antt =====
-- A write of one slot: which writes keep the placement, and what the abstract map reads after them.
use libcuckoo_cxx.Base.{
  ℕ, ◌<◌, ◌≡◌, sym, ◌∙◌, inl, inr, List, true, false, ◌&&◌, Option, none, some, ◌==◌, arith, length,
  Bool-cases,
}
use libcuckoo_cxx.Bucket.Laws.{is_some}
use libcuckoo_cxx.Bucket.{Slot, Bucket}
use libcuckoo_cxx.Params.{Params, Laws}
use libcuckoo_cxx.Table.Lookup.{tag}
use libcuckoo_cxx.Table.Valid.{cell, PlacedBy, Reads, put, length-put, length-bucket-put, cell-put}
use libcuckoo_cxx.Table.{bucket}

module _ ⦃P : Params⦄ where
  open P use {Key, Mapped, key_eq}

  module _ (bs : List Bucket) (i s : ℕ) (x : Slot) (hi : i < length bs)
      (hs : s < length (bucket bs i)) where
    -- The slot that was written, and any other.
    data Position (j u : ℕ) : Type 0 where
      written : j ≡ i → u ≡ s → cell (put bs i s x) j u ≡ x → Position j u
      kept : ((i == j) && (s == u)) ≡ false → cell (put bs i s x) j u ≡ cell bs j u → Position j u

    position : (j u : ℕ) → Position j u
    position j u = elim (Bool-cases ((i == j) && (s == u))) [
      | inl e ↦ written (ground arith) (ground arith) (ground (arith, cell-put bs i s x j u hi hs))
      | inr e ↦ kept e (ground (arith, cell-put bs i s x j u hi hs))
    ]

    pub cell-put_self : cell (put bs i s x) i s ≡ x
    cell-put_self = ground (arith, cell-put bs i s x i s hi hs)

    -- What may stand in the slot: nothing, or a pair under its partial key in a bucket where
    -- it may be, whose key is nowhere else.
    pub record Fits (At : Key → ℕ → Type 0) : Type 0 where
      pub live : x.occupied ≡ is_some x.storage
      pub tagged : (k : Key) (v : Mapped) → x.storage ≡ some (k, v) → (x.partial ≡ tag k) × At k i
      pub alone :
          (k : Key) (v : Mapped)
          → x.storage ≡ some (k, v)
          → (j u : ℕ) (l : Key) (w : Mapped) → (cell bs j u).storage ≡ some (l, w)
          → key_eq k l ≡ true
          → (i ≡ j) × (s ≡ u)

    put-live :
        {hp n : ℕ} {At : Key → ℕ → Type 0}
        → PlacedBy hp n At bs
        → Fits At
        → (j u : ℕ) → (cell (put bs i s x) j u).occupied ≡ is_some (cell (put bs i s x) j u).storage
    put-live placed fits j u = elim (position j u) [
      | written _ _ e ↦ rw e fits.live
      | kept _ e ↦ rw e (placed.live j u)
    ]

    put-homes :
        {hp n : ℕ} {At : Key → ℕ → Type 0}
        → PlacedBy hp n At bs
        → Fits At
        → (j u : ℕ) (k : Key) (v : Mapped) → (cell (put bs i s x) j u).storage ≡ some (k, v)
        → ((cell (put bs i s x) j u).partial ≡ tag k) × At k j
    put-homes placed fits j u k v h = elim (position j u) [
      | written ej eu e ↦ rw (e, ej) (fits.tagged k v (rw e at h))
      | kept _ e ↦ rw e (placed.homes j u k v (rw e at h))
    ]

    put_unique :
        {hp n : ℕ} {At : Key → ℕ → Type 0}
        → Laws
        → PlacedBy hp n At bs
        → Fits At
        → (a b c d : ℕ) (k l : Key) (v w : Mapped) → (cell (put bs i s x) a b).storage ≡ some (k, v)
        → (cell (put bs i s x) c d).storage ≡ some (l, w)
        → key_eq k l ≡ true
        → (a ≡ c) × (b ≡ d)
    put_unique laws placed fits a b c d k l v w h g same = elim (position a b) [
      | written ea eb e ↦ elim (position c d) [
        | written ec ed f ↦ (ea ∙ sym ec, eb ∙ sym ed)
        | kept _ f ↦
            let (p, q) = fits.alone k v (rw e at h) c d l w (rw f at g) same in (ea ∙ p, eb ∙ q)
      ]
      | kept _ e ↦ elim (position c d) [
        | written ec ed f ↦
            let (p, q) = fits.alone l w (rw f at g) a b k v (rw e at h) (laws.eq_symm l k ∙ same) in
            (sym p ∙ sym ec, sym q ∙ sym ed)
        | kept _ f ↦ placed.unique a b c d k l v w (rw e at h) (rw f at g) same
      ]
    ]

    -- A write that fits keeps the placement.
    pub put-PlacedBy :
        {hp n : ℕ} {At : Key → ℕ → Type 0}
        → Laws
        → PlacedBy hp n At bs
        → Fits At
        → PlacedBy hp n At (put bs i s x)
    put-PlacedBy laws placed fits = record {
      small = placed.small;
      width = length-put bs i s x ∙ placed.width;
      rows = λ j h. length-bucket-put bs i s x j ∙ placed.rows j (rw length-put at h);
      live = put-live placed fits;
      homes = put-homes placed fits;
      unique = put_unique laws placed fits;
    }

    -- A key that neither the old nor the new content of the slot has.
    pub put-Reads_other :
        (q : Key) (o : Option Mapped)
        → ((k : Key) (v : Mapped) → (cell bs i s).storage ≡ some (k, v) → key_eq k q ≡ false)
        → ((k : Key) (v : Mapped) → x.storage ≡ some (k, v) → key_eq k q ≡ false)
        → Reads bs q o
        → Reads (put bs i s x) q o
    put-Reads_other q none old new h = λ j u k v stored. elim (position j u) [
      | written _ _ e ↦ new k v (rw e at stored)
      | kept _ e ↦ h j u k v (rw e at stored)
    ]
    put-Reads_other q (some w) old new f = elim (position f.at f.pos) [
      | written ej eu _ ↦ ground (arith, old f.held w, f.stored, f.same)
      | kept _ e ↦ record {
        at = f.at;
        pos = f.pos;
        held = f.held;
        stored = rw e f.stored;
        same = f.same;
      }
    ]

    pub put-Reads-some :
        (q : Key) (k : Key) (v : Mapped)
        → x.storage ≡ some (k, v)
        → key_eq k q ≡ true
        → Reads (put bs i s x) q (some v)
    put-Reads-some q k v e same = record {
      at = i;
      pos = s;
      held = k;
      stored = rw cell-put_self e;
      same = same;
    }

    pub put-Reads-none :
        {hp n : ℕ} {At : Key → ℕ → Type 0}
        → Laws
        → PlacedBy hp n At bs
        → (q k : Key) (v : Mapped) → (cell bs i s).storage ≡ some (k, v)
        → key_eq k q ≡ true
        → x.storage ≡ none
        → Reads (put bs i s x) q none
    put-Reads-none laws placed q k v old same gone j u l w stored = elim (position j u) [
      | written _ _ e ↦ cc (stored, gone)
      | kept away e ↦ ground (
        arith,
        placed.unique i s j u k l v w old (rw e at stored),
        laws.eq_trans k q l same,
        laws.eq_symm q l,
      )
    ]
