-- ===== src/Concurrent/Stand.antt =====
-- What a thread knows at its position, whatever the others have done to the table since.
use libcuckoo_cxx.Base.{ℕ, ◌+◌, ◌<◌, List, ◌++◌, length}
use libcuckoo_cxx.Concurrent.{
  Job, Position, calling, locking, scanning, recording, moving, counting, doubling, emptied,
  undefined,
}
use libcuckoo_cxx.Cuckoo.Paths.{IsChain, InRange}
use libcuckoo_cxx.Cuckoo.{CuckooRecord}
use libcuckoo_cxx.Params.{Params}
use libcuckoo_cxx.Table.Valid.{IsHome}

module _ ⦃P : Params⦄ where
  -- A path from one of the two buckets of the key, with a record at the depth.
  pub record Along (job : Job) (hp : ℕ) (path : List CuckooRecord) (depth : ℕ) : Type 0 where
    pub start : ℕ
    pub from_home : IsHome hp job.key start
    pub chain : IsChain hp start path
    pub within : depth < length path

  -- The beginning of such a path, which may go on in the bucket `b`.
  pub record Begun (job : Job) (hp : ℕ) (path : List CuckooRecord) (b : ℕ) (slots : List ℕ)
      : Type 0 where
    pub start : ℕ
    pub from_home : IsHome hp job.key start
    pub extends : (rest : List CuckooRecord) → IsChain hp b rest → IsChain hp start (path ++ rest)
    pub range : InRange slots
    pub nonempty : 0 < length path + length slots

  -- Only a path is remembered, and nothing of the table. No thread gets to undefined behaviour but
  -- by the hash of a key that is gone, where it stays.
  abbrev pub Stands : Position → Type 0
  Stands (calling c) = Unit
  Stands (locking job) = Unit
  Stands (scanning job hp q x left i) = Unit
  Stands (recording job hp path b slots) = Begun job hp path b slots
  Stands (moving job hp path depth) = Along job hp path depth
  Stands (counting job hp i size) = Unit
  Stands (doubling job hp) = Unit
  Stands (emptied r) = Unit
  Stands (undefined r) = ⊥
