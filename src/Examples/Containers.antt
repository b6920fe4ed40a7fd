-- ===== src/Examples/Containers.antt =====
-- Locks and the lazy array at concrete values.
use libcuckoo_cxx.Base.{ℕ, ◌≡◌, refl, [], ◌∷◌, arith, none, length}
use libcuckoo_cxx.LazyArray.Allocate.{Allocated, allocate-Allocated}
use libcuckoo_cxx.LazyArray.{Segments, num_segments, array_size, allocate}
use libcuckoo_cxx.Locks.Order.{LocksTwo, lock_two-LocksTwo}
use libcuckoo_cxx.Locks.Snapshot.{Snapshot, snapshot_and_lock_two-Snapshot}
use libcuckoo_cxx.Locks.Three.{LocksThree, lock_three-LocksThree}
use libcuckoo_cxx.Locks.{lock_two, lock_three, snapshot_and_lock_two}
use libcuckoo_cxx.Table.{HashValue}

lock_two-LocksTwo_example : LocksTwo 16 16 70000 5 (lock_two 16 16 70000 5)
lock_two-LocksTwo_example = lock_two-LocksTwo 16 16 70000 5

lock_three-LocksThree_example : LocksThree 16 16 9 5 65541 (lock_three 16 16 9 5 65541)
lock_three-LocksThree_example = lock_three-LocksThree 16 16 9 5 65541

abbrev hv : HashValue
hv = record { hash = 1000; partial = 7 }

snapshot_and_lock_two-Snapshot_example :
    Snapshot ((16, 17) ∷ (17, 17) ∷ []) hv (snapshot_and_lock_two ((16, 17) ∷ (17, 17) ∷ []) hv)
snapshot_and_lock_two-Snapshot_example =
    snapshot_and_lock_two-Snapshot hv ((16, 17) ∷ (17, 17) ∷ [])

-- Two segments of eight elements.
abbrev unallocated : Segments ℕ
unallocated = none ∷ none ∷ []

two_segments : length unallocated ≡ num_segments 1
unfolding num_segments
two_segments = refl

allocate-Allocated_example : Allocated 3 0 unallocated (allocate 3 0 unallocated 9) 9
allocate-Allocated_example =
    allocate-Allocated 3 0 1 (omega arith) unallocated two_segments 9
      (unfold array_size in omega arith)
