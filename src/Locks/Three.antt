-- ===== src/Locks/Three.antt =====
-- `lock_three`: the locks of three buckets in ascending order, shared out between two containers.
use libcuckoo_cxx.Base.{
  ℕ, ◌≡◌, ◌≢◌, List, [], ◌∷◌, ◌++◌, true, ◌||◌, Option, none, some, arith, ◌==◌, if◌then◌else◌,
  ℕ_discrete,
}
use libcuckoo_cxx.Hash.{lock_ind}
use libcuckoo_cxx.Locks.Order.{take_lock, give_back, after, run, holds}
use libcuckoo_cxx.Locks.{
  Event, check_hashpower, Container, one, two, inactive, release, ordered, sorted, lock_three,
}

-- The locks held after the events of `lock_three`, the greatest first.
abbrev taken_three : ℕ → ℕ → ℕ → List ℕ
taken_three a b c =
    let (x, y, z) = sorted a b c in
    (if z == y then [] else z ∷ []) ++ (if y == x then [] else y ∷ []) ++ x ∷ []

-- What a call that locks three buckets owes its caller: the locks are taken in ascending order and
-- none twice, those of the three buckets are held, and the two containers give all back, in either
-- order.
pub data LocksThree (hp now i1 i2 i3 : ℕ) (r : List Event × Option (Container × Container))
    : Type 0 where
  taken :
      {held : List ℕ} {twob extrab : Container}
      → now ≡ hp
      → r.1 ≡ some (twob, extrab)
      → run r.0 [] ≡ some held
      → holds (lock_ind i1) held ≡ true
      → holds (lock_ind i2) held ≡ true
      → holds (lock_ind i3) held ≡ true
      → run (release twob ++ release extrab) held ≡ some []
      → run (release extrab ++ release twob) held ≡ some []
      → LocksThree hp now i1 i2 i3 r
  changed : now ≢ hp → r.1 ≡ none → run r.0 [] ≡ some [] → LocksThree hp now i1 i2 i3 r

module _ (hp now i1 i2 i3 : ℕ) where
  abbrev a : ℕ
  a = lock_ind i1

  abbrev b : ℕ
  b = lock_ind i2

  abbrev c : ℕ
  c = lock_ind i3

  abbrev extra : Container
  extra = if (c == a) || (c == b) then inactive else one i3

  lock_three_run : now ≡ hp → LocksThree hp now i1 i2 i3 (lock_three hp now i1 i2 i3)
  unfolding lock_three check_hashpower sorted ordered release run after take_lock give_back holds
  lock_three_run e =
      taken {held = taken_three a b c} {twob = two i1 i2} {extrab = extra} e (ground arith)
        (ground arith) (ground arith) (ground arith) (ground arith) (ground arith) (ground arith)

  lock_three_changed : now ≢ hp → LocksThree hp now i1 i2 i3 (lock_three hp now i1 i2 i3)
  unfolding lock_three check_hashpower run after take_lock give_back
  lock_three_changed n = changed n (ground arith) (ground arith)

  -- For any three buckets, where the hashpower is as expected `lock_three` takes the locks of all
  -- three in ascending order, none twice, and its two containers give all of them back, in either
  -- order; where it has changed, no lock is held and `hashpower_changed` is thrown.
  pub lock_three-LocksThree : LocksThree hp now i1 i2 i3 (lock_three hp now i1 i2 i3)
  lock_three-LocksThree = elim (ℕ_discrete now hp) [
    | yes e ↦ lock_three_run e
    | no n ↦ lock_three_changed n
  ]
