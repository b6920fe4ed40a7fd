-- ===== src/Insert/Outcomes.antt =====
-- How an insertion that may double the table ends.
use libcuckoo_cxx.Base.{
  ◌+◌, ◌<◌, ◌≤◌, ◌≡◌, sym, ap, ◌∙◌, Bool, true, false, none, some, arith, if◌then◌else◌, subst, ap₂,
  ℕ,
}
use libcuckoo_cxx.Bucket.Laws.{is_some}
use libcuckoo_cxx.Cuckoo.Insertion.{Kept}
use libcuckoo_cxx.Expand.Double.{Doubled}
use libcuckoo_cxx.Params.{Params}
use libcuckoo_cxx.Table.Counts.{IsValid, used}
use libcuckoo_cxx.Table.Insert.{Added}
use libcuckoo_cxx.Table.{
  Table, Result, returned, thrown, load_factor_too_low, maximum_hashpower_exceeded, find,
  cuckoo_loadfactor,
}

module _ ⦃P : Params⦄ where
  open P use {Key, Mapped, key_eq, slot_per_bucket}

  -- The same map in a table with the same settings. The hashpower may grow; it does not fall where
  -- moves do not throw.
  pub record Alike (t t' : Table) : Type 0 where
    pub valid : IsValid t'
    pub reads : (q : Key) → find t' q ≡ find t q
    pub counts : used t'.buckets ≡ used t.buckets
    pub factor : t'.minimum_load_factor ≡ t.minimum_load_factor
    pub maximum : t'.maximum_hashpower ≡ t.maximum_hashpower
    pub grown : P.is_nothrow_move ≡ true → t.hashpower ≤ t'.hashpower

  pub Kept-Alike : {t t' : Table} → Kept t t' → Alike t t'
  Kept-Alike k = record {
    valid = k.valid;
    reads = k.reads;
    counts = k.counts;
    factor = k.settings.1;
    maximum = k.settings.2;
    grown = λ _. omega (arith, k.settings.0);
  }

  pub Doubled-Alike : {t t' : Table} → Doubled t t' → Alike t t'
  Doubled-Alike d = record {
    valid = d.valid;
    reads = d.reads;
    counts = d.counts;
    factor = d.settings.0;
    maximum = d.settings.1;
    grown = λ _. omega (arith, d.hashpower);
  }

  pub Alike-trans : {a b c : Table} → Alike a b → Alike b c → Alike a c
  Alike-trans m n = record {
    valid = n.valid;
    reads = λ q. n.reads q ∙ m.reads q;
    counts = n.counts ∙ m.counts;
    factor = n.factor ∙ m.factor;
    maximum = n.maximum ∙ m.maximum;
    grown = λ h. omega (arith, m.grown h, n.grown h);
  }

  -- The four ways in which `insert` ends.
  pub data Insertion (t : Table) (k : Key) (v : Mapped) : Table × Result Bool → Type 0 where
    inserted : {t' : Table} → find t k ≡ none → Added t k v t' → Insertion t k v (t', returned true)
    present :
        {t' : Table} → is_some (find t k) ≡ true → Alike t t' → Insertion t k v (t', returned false)
    too_low :
        {t' : Table}
        → find t k ≡ none
        → Alike t t'
        → P.lt (cuckoo_loadfactor t' t'.hashpower) t.minimum_load_factor ≡ true
        → Insertion t k v (t', thrown (load_factor_too_low t.minimum_load_factor))
    exceeded :
        {t' : Table}
        → find t k ≡ none
        → Alike t t'
        → 0 < t.maximum_hashpower
        → t.maximum_hashpower ≤ t'.hashpower
        → Insertion t k v (t', thrown (maximum_hashpower_exceeded (t'.hashpower + 1)))

  -- The exception on a load factor read at the hashpower before.
  pub too_low_at :
      (t t' : Table) (k : Key) (v : Mapped)
      → find t k ≡ none
      → Kept t t'
      → P.lt (cuckoo_loadfactor t' t.hashpower) t'.minimum_load_factor ≡ true
      → Insertion t k v (t', thrown (load_factor_too_low t'.minimum_load_factor))
  too_low_at t t' k v absent kept low =
      subst (λ d. Insertion t k v (t', thrown (load_factor_too_low d))) (sym kept.settings.1)
        (too_low absent (Kept-Alike kept) (
          ap₂ (λ (n : ℕ) (d : P.Double). P.lt (cuckoo_loadfactor t' n) d) kept.settings.0
            (sym kept.settings.1)
          ∙ low))

  -- What holds of an insertion into a table that is alike holds of one into the first table.
  pub Insertion-Alike :
      {a b : Table} (k : Key) (v : Mapped) (r : Table × Result Bool)
      → Alike a b
      → Insertion b k v r
      → Insertion a k v r
  Insertion-Alike k v (t, returned true) m (inserted absent x) =
      inserted (sym (m.reads k) ∙ absent) (record {
        valid = x.valid;
        reads = λ q. x.reads q ∙ ap (λ o. if key_eq k q then some v else o) (m.reads q);
        counts = ground (arith, x.counts, m.counts);
        limits = (x.limits.0 ∙ m.factor, x.limits.1 ∙ m.maximum);
        grown = λ h. omega (arith, x.grown h, m.grown h);
      })
  Insertion-Alike k v (t, returned false) m (present there x) =
      present (ap is_some (sym (m.reads k)) ∙ there) (Alike-trans m x)
  Insertion-Alike {a = a} k v r m (too_low {t' = t'} absent x low) =
      subst (λ d. Insertion a k v (t', thrown (load_factor_too_low d))) (sym m.factor)
        (too_low (sym (m.reads k) ∙ absent) (Alike-trans m x)
          (ap (λ d. P.lt (cuckoo_loadfactor t' t'.hashpower) d) (sym m.factor) ∙ low))
  Insertion-Alike k v r m (exceeded absent x limit top) =
      exceeded (sym (m.reads k) ∙ absent) (Alike-trans m x) (omega (arith, m.maximum, limit))
        (omega (arith, m.maximum, top))
