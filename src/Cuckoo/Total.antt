-- ===== src/Cuckoo/Total.antt =====
-- `run_cuckoo` and `cuckoo_insert` return: with nobody else at work one search and one move are
-- enough.
use libcuckoo_cxx.Base.{
  ℕ, suc, ◌-◌, ◌*◌, ◌<◌, ◌≡◌, refl, sym, ◌∙◌, List, Option, none, some, arith, length, some_eq,
  subst,
}
use libcuckoo_cxx.Bucket.Search.{try_find_insert_bucket}
use libcuckoo_cxx.Bucket.{Bucket}
use libcuckoo_cxx.Cuckoo.Bfs.{slot_search-Ends}
use libcuckoo_cxx.Cuckoo.Decode.{path_to, cuckoopath_search-path_to}
use libcuckoo_cxx.Cuckoo.Inner.{CodesFit, Ends}
use libcuckoo_cxx.Cuckoo.Insertion.{Inserted, cuckoo_insert-Inserted}
use libcuckoo_cxx.Cuckoo.Relocate.{run_done, run_full}
use libcuckoo_cxx.Cuckoo.Search.{tree, slot_search_ends}
use libcuckoo_cxx.Cuckoo.Success.{cuckoopath_move-path_to}
use libcuckoo_cxx.Cuckoo.{
  Freed, slot_search, cuckoopath_search, run_cuckoo, finish_insert, insert_displacing,
  cuckoo_insert, CuckooRecord, succeeded, cuckoopath_move,
}
use libcuckoo_cxx.Params.{Params, Laws}
use libcuckoo_cxx.Queue.{BSlot}
use libcuckoo_cxx.Table.Counts.{IsValid}
use libcuckoo_cxx.Table.Lookup.{tag}
use libcuckoo_cxx.Table.Valid.{IsPlaced, home, other_home}
use libcuckoo_cxx.Table.{
  Table, Status, ok, failure_key_duplicated, add_to_bucket, bucket, hashed_key,
}

module _ ⦃P : Params⦄ where
  open P use {Key, Mapped}

  module _ (laws : Laws) (fit : CodesFit) (fuel search_fuel : ℕ)
      (enough : 2 * tree 4 < search_fuel) where
    searched-none :
        (hp i1 i2 : ℕ) (bs : List Bucket)
        → slot_search search_fuel hp bs i1 i2 ≡ some none
        → cuckoopath_search search_fuel hp bs i1 i2 ≡ some none
    unfolding cuckoopath_search
    searched-none hp i1 i2 bs e = ground arith

    run_cuckoo_by_search :
        (hp i1 i2 : ℕ) (bs : List Bucket)
        → IsPlaced hp bs
        → (o : Option BSlot) → slot_search search_fuel hp bs i1 i2 ≡ some o
        → (r : Freed (List Bucket)) × (run_cuckoo (suc fuel) search_fuel hp bs i1 i2 ≡ some r)
    run_cuckoo_by_search hp i1 i2 bs placed none e =
        (_, run_full fuel search_fuel hp i1 i2 bs (searched-none hp i1 i2 bs e))
    run_cuckoo_by_search hp i1 i2 bs placed (some y) e =
        let ends : Ends hp bs i1 i2 y = slot_search-Ends laws fit hp bs i1 i2 search_fuel y e in
        (
          _,
          run_done fuel search_fuel hp i1 i2 bs (path_to hp bs placed i1 i2 ends)
              (cuckoopath_search-path_to hp bs placed i1 i2 y ends search_fuel e)
              (cuckoopath_move-path_to laws hp bs placed i1 i2 y ends),
        )

    pub run_cuckoo_total :
        (hp i1 i2 : ℕ) (bs : List Bucket)
        → IsPlaced hp bs
        → (r : Freed (List Bucket)) × (run_cuckoo (suc fuel) search_fuel hp bs i1 i2 ≡ some r)
    run_cuckoo_total hp i1 i2 bs placed =
        let (o, e) = slot_search_ends hp bs search_fuel i1 i2 enough in
        run_cuckoo_by_search hp i1 i2 bs placed o e

    search_result :
        (hp i1 i2 : ℕ) (bs : List Bucket) (path : List CuckooRecord)
        → cuckoopath_search search_fuel hp bs i1 i2 ≡ some (some path)
        → (o : Option BSlot) → slot_search search_fuel hp bs i1 i2 ≡ some o
        → (y : BSlot) × (slot_search search_fuel hp bs i1 i2 ≡ some (some y))
    search_result hp i1 i2 bs path h none e = absurd (cc (h, searched-none hp i1 i2 bs e))
    search_result hp i1 i2 bs path h (some y) e = (y, e)

    -- Under the same conditions, `cuckoopath_move` on the path that `cuckoopath_search` has found
    -- succeeds on the same buckets: each key still hashes as recorded, each source slot is
    -- occupied and each target is empty when its turn comes.
    pub cuckoopath_search_then_move :
        (hp i1 i2 : ℕ) (bs : List Bucket)
        → IsPlaced hp bs
        → (path : List CuckooRecord) → cuckoopath_search search_fuel hp bs i1 i2 ≡ some (some path)
        → (cuckoopath_move path (length path - 1) bs).1 ≡ succeeded
    cuckoopath_search_then_move hp i1 i2 bs placed path h =
        let (o, e) = slot_search_ends hp bs search_fuel i1 i2 enough in
        let (y, found) = search_result hp i1 i2 bs path h o e in
        let ends : Ends hp bs i1 i2 y = slot_search-Ends laws fit hp bs i1 i2 search_fuel y found in
        let same : path_to hp bs placed i1 i2 ends ≡ path = some_eq (
          some_eq
            (sym (cuckoopath_search-path_to hp bs placed i1 i2 y ends search_fuel found) ∙ h)) in
        subst (λ (p : List CuckooRecord). (cuckoopath_move p (length p - 1) bs).1 ≡ succeeded) same
          (cuckoopath_move-path_to laws hp bs placed i1 i2 y ends)

    displacing_total :
        (t : Table)
        → IsValid t
        → (k : Key) (v : Mapped)
        → (r : Table × Status) × (insert_displacing
              (suc fuel)
              search_fuel
              (hashed_key k)
              t
              (home t.hashpower k)
              (other_home t.hashpower k)
              k
              v
            ≡ some r)
    unfolding insert_displacing
    displacing_total t valid k v =
        let (x, e) =
          run_cuckoo_total t.hashpower (home t.hashpower k) (other_home t.hashpower k) t.buckets
            valid.placed in
        (
          finish_insert (hashed_key k) t (home t.hashpower k) (other_home t.hashpower k) k v x,
          ground (arith, e),
        )

    insert_total :
        (t : Table)
        → IsValid t
        → (k : Key) (v : Mapped) (res1 res2 : Option (Option ℕ))
        → try_find_insert_bucket (tag k) k (bucket t.buckets (home t.hashpower k)) ≡ res1
        → try_find_insert_bucket (tag k) k (bucket t.buckets (other_home t.hashpower k)) ≡ res2
        → (r : Table × Status) × (cuckoo_insert
              (suc fuel)
              search_fuel
              (hashed_key k)
              t
              (home t.hashpower k)
              (other_home t.hashpower k)
              k
              v
            ≡ some r)
    unfolding cuckoo_insert hashed_key
    insert_total t valid k v none res2 e1 e2 = ((t, failure_key_duplicated), ground arith)
    insert_total t valid k v (some res1) none e1 e2 = ((t, failure_key_duplicated), ground arith)
    insert_total t valid k v (some (some s)) (some res2) e1 e2 =
        ((add_to_bucket (tag k) t (home t.hashpower k) s k v, ok), ground arith)
    insert_total t valid k v (some none) (some (some s)) e1 e2 =
        ((add_to_bucket (tag k) t (other_home t.hashpower k) s k v, ok), ground arith)
    insert_total t valid k v (some none) (some none) e1 e2 =
        let (r, e) = displacing_total t valid k v in (r, ground (arith, e))

    -- Where the codes of paths fit into a word, the hash and the equality keep their laws, a
    -- search has more fuel than twice the nodes of the search tree and `run_cuckoo` at least one
    -- round, `cuckoo_insert` on any valid table returns, and has added the pair, or found the key
    -- there, or found no room, with every other reading kept.
    pub cuckoo_insert_total :
        (t : Table)
        → IsValid t
        → (k : Key) (v : Mapped)
        → (r : Table × Status) × (cuckoo_insert
              (suc fuel)
              search_fuel
              (hashed_key k)
              t
              (home t.hashpower k)
              (other_home t.hashpower k)
              k
              v
            ≡ some r)
          × Inserted t k v r
    cuckoo_insert_total t valid k v =
        let (r, e) = insert_total t valid k v _ _ refl refl in
        (r, e, cuckoo_insert-Inserted laws t valid k v (suc fuel) search_fuel r e)
