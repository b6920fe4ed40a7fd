-- ===== src/Locks/Order.antt =====
-- `lock_two` takes its locks in ascending order, none twice, and its container gives them back.
use libcuckoo_cxx.Base.{
  ℕ, ◌≡◌, ◌≢◌, List, [], ◌∷◌, ◌++◌, Bool, true, false, ◌||◌, Option, none, some, arith, ltb, ◌==◌,
  if◌then◌else◌, ℕ_discrete,
}
use libcuckoo_cxx.Hash.{lock_ind}
use libcuckoo_cxx.Locks.{
  Event, lock, unlock, check_hashpower, Container, two, release, ordered, lock_two,
}

-- A lock may be taken by a thread that holds locks of smaller indices only, `held` having the
-- greatest first: threads that keep to this wait for each other in no cycle.
unfoldable pub take_lock : ℕ → List ℕ → Option (List ℕ)
take_lock l [] = some (l ∷ [])
take_lock l (m ∷ held) = if ltb m l then some (l ∷ m ∷ held) else none

-- A lock may be given back by a thread that holds it.
unfoldable pub give_back : ℕ → List ℕ → Option (List ℕ)
give_back l [] = none
give_back l (m ∷ held) =
    let rest = give_back l held in
    if l == m then some held else elim rest [ none ↦ none | some held' ↦ some (m ∷ held') ]

unfoldable pub after : Event → List ℕ → Option (List ℕ)
after (lock l) held = take_lock l held
after (unlock l) held = give_back l held

-- The locks held after a sequence of events, `none` if one breaks the rules.
unfoldable pub run : List Event → List ℕ → Option (List ℕ)
run [] held = some held
run (e ∷ events) held = elim (after e held) [ none ↦ none | some held' ↦ run events held' ]

unfoldable pub holds : ℕ → List ℕ → Bool
holds l [] = false
holds l (m ∷ held) = (l == m) || holds l held

-- What a call that locks the buckets `i1` and `i2` owes its caller.
pub data LocksTwo (hp now i1 i2 : ℕ) (r : List Event × Option Container) : Type 0 where
  taken :
      {held : List ℕ} {c : Container}
      → now ≡ hp
      → r.1 ≡ some c
      → run r.0 [] ≡ some held
      → holds (lock_ind i1) held ≡ true
      → holds (lock_ind i2) held ≡ true
      → run (release c) held ≡ some []
      → LocksTwo hp now i1 i2 r
  changed : now ≢ hp → r.1 ≡ none → run r.0 [] ≡ some [] → LocksTwo hp now i1 i2 r

module _ (hp now i1 i2 : ℕ) where
  abbrev taken_two : List ℕ
  taken_two =
      let (x, y) = ordered (lock_ind i1) (lock_ind i2) in (if y == x then [] else y ∷ []) ++ x ∷ []

  lock_two_run : now ≡ hp → LocksTwo hp now i1 i2 (lock_two hp now i1 i2)
  unfolding lock_two check_hashpower ordered release run after take_lock give_back holds
  lock_two_run e =
      taken {held = taken_two} {c = two i1 i2} e (ground arith) (ground arith) (ground arith)
        (ground arith) (ground arith)

  lock_two_changed : now ≢ hp → LocksTwo hp now i1 i2 (lock_two hp now i1 i2)
  unfolding lock_two check_hashpower run after take_lock give_back
  lock_two_changed n = changed n (ground arith) (ground arith)

  -- For any two buckets, where the hashpower is as expected `lock_two` takes the locks of both in
  -- ascending order, none twice, and its container gives all of them back; where it has changed,
  -- no lock is held and `hashpower_changed` is thrown.
  pub lock_two-LocksTwo : LocksTwo hp now i1 i2 (lock_two hp now i1 i2)
  lock_two-LocksTwo = elim (ℕ_discrete now hp) [
    | yes e ↦ lock_two_run e
    | no n ↦ lock_two_changed n
  ]
