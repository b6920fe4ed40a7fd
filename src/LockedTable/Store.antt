-- ===== src/LockedTable/Store.antt =====
-- A value that is written through an iterator of a locked table.
use libcuckoo_cxx.Base.{◌≡◌, refl, true, some}
use libcuckoo_cxx.Bucket.{set_val}
use libcuckoo_cxx.LockedTable.{Iterator, store_value}
use libcuckoo_cxx.Params.{Params, Laws}
use libcuckoo_cxx.Table.Counts.{IsValid}
use libcuckoo_cxx.Table.Lookup.{find_unique}
use libcuckoo_cxx.Table.Update.{Changed, changed_at-Changed}
use libcuckoo_cxx.Table.Valid.{cell}
use libcuckoo_cxx.Table.{Table, returned}

module _ ⦃P : Params⦄ where
  open P use {Key, Mapped}

  -- On a valid table that is locked, a store of a value through an iterator that points to a pair
  -- is an update of the pair's key by that value: the table stays valid, the key reads the new
  -- value and every other key reads as before, and no pair is added or lost.
  pub store_value-Changed :
      (laws : Laws) (t : Table) (valid : IsValid t) (it : Iterator) (k : Key) (v w : Mapped)
      → (cell t.buckets it.index it.slot).storage ≡ some (k, v)
      → (t' : Table) × (store_value t.buckets true it w ≡ returned t'.buckets)
        × Changed t k (λ _. w) (t', true)
  unfolding store_value set_val
  store_value-Changed laws t valid it k v w stored = (
    _,
    refl,
    changed_at-Changed laws t valid k (λ _. w) it.index it.slot k v stored (laws.eq_refl k)
        (find_unique laws t valid.placed k (some v) (record {
          at = it.index;
          pos = it.slot;
          held = k;
          stored = stored;
          same = laws.eq_refl k;
        })),
  )
