-- ===== src/Locks.antt =====
-- The locks of libcuckoo/cuckoohash_map.hh as one thread takes and releases them: `check_hashpower`,
-- `lock_one`, `lock_two`, `lock_three`, `BucketContainer`, `snapshot_and_lock_two` and
-- `snapshot_and_lock_all`. A call gives the sequence of its lock events. What other threads do
-- shows in the hashpower that is read under the first lock, which is an argument. The shared
-- variants take the same locks in the same order as the exclusive ones.
pub mod Order
pub mod Three
pub mod Snapshot
pub mod All
pub mod Threads
pub mod Progress
pub mod Calls
pub mod Shared
use libcuckoo_cxx.Base.{
  ℕ, zero, suc, ◌+◌, List, [], ◌∷◌, ◌++◌, Bool, true, false, ◌||◌, ◌&&◌, not, Option, none, some,
  ltb, ◌==◌, if◌then◌else◌,
}
use libcuckoo_cxx.Hash.{lock_ind, index_hash, alt_index}
use libcuckoo_cxx.Table.{HashValue}

pub data Event : Type 0 where
  lock unlock : ℕ → Event

-- `none` is the exception `hashpower_changed`, thrown after the lock was given back.
unfoldable pub check_hashpower : ℕ → ℕ → ℕ → List Event × Bool
check_hashpower hp now l = if now == hp then ([], true) else (unlock l ∷ [], false)

-- An active container of one or two bucket indices.
pub data Container : Type 0 where
  one : ℕ → Container
  two : ℕ → ℕ → Container
  inactive : Container

-- The destructor of a container, and `release`.
unfoldable pub release : Container → List Event
release (one i) = unlock (lock_ind i) ∷ []
release (two i1 i2) =
    let l0 = lock_ind i1 in
    let l1 = lock_ind i2 in unlock l0 ∷ (if l0 == l1 then [] else unlock l1 ∷ [])
release inactive = []

unfoldable pub lock_one : ℕ → ℕ → ℕ → List Event × Option Container
lock_one hp now i =
    let l = lock_ind i in
    let (checked, same) = check_hashpower hp now l in
    if same then (lock l ∷ [], some (one i)) else (lock l ∷ checked, none)

-- `std::swap` under an `if`.
unfoldable pub ordered : ℕ → ℕ → ℕ × ℕ
ordered l1 l2 = if ltb l2 l1 then (l2, l1) else (l1, l2)

unfoldable pub lock_two : ℕ → ℕ → ℕ → ℕ → List Event × Option Container
lock_two hp now i1 i2 =
    let (l1, l2) = ordered (lock_ind i1) (lock_ind i2) in
    let (checked, same) = check_hashpower hp now l1 in
    if same
    then (lock l1 ∷ (if l2 == l1 then [] else lock l2 ∷ []), some (two i1 i2))
    else (lock l1 ∷ checked, none)

-- The three swaps, and the events on the sorted lock indices.
unfoldable pub sorted : ℕ → ℕ → ℕ → ℕ × ℕ × ℕ
sorted a b c =
    let (b1, c1) = ordered b c in
    let (a2, c2) = ordered a c1 in let (a3, b3) = ordered a2 b1 in (a3, b3, c2)

unfoldable pub lock_three : ℕ → ℕ → ℕ → ℕ → ℕ → List Event × Option (Container × Container)
lock_three hp now i1 i2 i3 =
    let (l0, l1, l2) = sorted (lock_ind i1) (lock_ind i2) (lock_ind i3) in
    let (checked, same) = check_hashpower hp now l0 in
    if same
    then (
      lock l0 ∷ (if l1 == l0 then [] else lock l1 ∷ []) ++ (if l2 == l1 then [] else lock l2 ∷ []),
      some (
        two i1 i2,
        (if (lock_ind i3 == lock_ind i1) || (lock_ind i3 == lock_ind i2) then inactive else one i3),
      ),
    )
    else (lock l0 ∷ checked, none)

-- The rounds of the loop: the hashpower loaded first, and the one read under the lock. `none` where
-- the hashpower has changed in every round so far.
unfoldable pub snapshot_and_lock_two :
    List (ℕ × ℕ) → HashValue → List Event × Option (ℕ × Container)
snapshot_and_lock_two [] hv = ([], none)
snapshot_and_lock_two ((hp, now) ∷ rounds) hv =
    let i1 = index_hash hp hv.hash in
    let i2 = alt_index hp hv.partial i1 in
    let (events, result) = lock_two hp now i1 i2 in
    let (later, later_result) = snapshot_and_lock_two rounds hv in
    elim result [ some c ↦ (events, some (hp, c)) | none ↦ (events ++ later, later_result) ]

-- `snapshot_and_lock_all` and `AllUnlocker::release`, over the locks from `i` on.
unfoldable pub lock_all : ℕ → ℕ → List Event
lock_all i zero = []
lock_all i (suc n) = lock i ∷ lock_all (suc i) n

unfoldable pub unlock_all : ℕ → ℕ → List Event
unlock_all i zero = []
unlock_all i (suc n) = unlock i ∷ unlock_all (suc i) n
