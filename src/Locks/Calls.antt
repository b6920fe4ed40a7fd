-- ===== src/Locks/Calls.antt =====
-- Threads that run calls of the table: `lock_two`, `lock_three` or `snapshot_and_lock_all`, and what
-- they have taken is given back.
use libcuckoo_cxx.Base.{
  ==_refl, Bool-cases, ◌==◌, ℕ, ◌≡◌, refl, sym, ap, ◌∙◌, ◌⊎◌, List, [], ◌∷◌, ◌++◌, map, Option,
  none, some, arith, some_eq, Option-cases, inl, inr,
}
use libcuckoo_cxx.Hash.{lock_ind}
use libcuckoo_cxx.Locks.All.{lock_all-LocksAll}
use libcuckoo_cxx.Locks.Order.{
  take_lock, give_back, after, run, lock_two-LocksTwo, LocksTwo, taken, changed,
}
use libcuckoo_cxx.Locks.Three
use libcuckoo_cxx.Locks.Three.{lock_three-LocksThree, LocksThree}
use libcuckoo_cxx.Locks.Progress.{no_deadlock}
use libcuckoo_cxx.Locks.Threads.{
  Thread, Reachable, AllDone, CanMove, AllOrderly, reached-AllOrderly,
}
use libcuckoo_cxx.Locks.{
  Event, Container, release, check_hashpower, lock_one, lock_two, lock_three, lock_all, unlock_all,
}

-- A call that locks one, two or three buckets at the hashpower `hp`, where `now` is what it reads, or all `n`
-- locks.
pub data LockCall : Type 0 where
  one_bucket : (hp now i : ℕ) → LockCall
  two_buckets : (hp now i1 i2 : ℕ) → LockCall
  three_buckets : (hp now i1 i2 i3 : ℕ) → LockCall
  all_locks : (n : ℕ) → LockCall

-- The events of a call, the end of its containers included.
unfoldable pub events_two : List Event × Option Container → List Event
events_two (events, none) = events
events_two (events, some c) = events ++ release c

unfoldable pub events_three : List Event × Option (Container × Container) → List Event
events_three (events, none) = events
events_three (events, some (twob, extrab)) = events ++ (release extrab ++ release twob)

unfoldable pub events_of : LockCall → List Event
events_of (one_bucket hp now i) = events_two (lock_one hp now i)
events_of (two_buckets hp now i1 i2) = events_two (lock_two hp now i1 i2)
events_of (three_buckets hp now i1 i2 i3) = events_three (lock_three hp now i1 i2 i3)
events_of (all_locks n) = lock_all 0 n ++ unlock_all 0 n

unfoldable pub events_of_all : List LockCall → List Event
events_of_all [] = []
events_of_all (c ∷ calls) = events_of c ++ events_of_all calls

abbrev pub thread_of : List LockCall → Thread
thread_of calls = record { held = []; todo = events_of_all calls }

pub run-append :
    (a b : List Event) (held middle : List ℕ)
    → run a held ≡ some middle
    → run (a ++ b) held ≡ run b middle
unfolding run
run-append [] b held middle h = ap (run b) (some_eq h)
run-append (e ∷ a) b held middle h = elim (Option-cases (after e held)) [
  | inl f ↦ absurd (ground (arith, f, h))
  | inr (held', f) ↦ rw (run, f) (run-append a b held' middle (sym (rw (run, f) refl) ∙ h))
]

run-events_two :
    (hp now i1 i2 : ℕ) (r : List Event × Option Container)
    → LocksTwo hp now i1 i2 r
    → run (events_two r) [] ≡ some []
unfolding events_two
run-events_two hp now i1 i2 (events, none) (taken _ e _ _ _ _) = absurd (cc e)
run-events_two hp now i1 i2 (events, some c) (taken {held = held} same e r _ _ back) =
    run-append events (release c) [] held r
    ∙ ap (λ (d : Container). run (release d) held) (some_eq e)
    ∙ back
run-events_two hp now i1 i2 (events, none) (changed _ _ r) = r
run-events_two hp now i1 i2 (events, some c) (changed _ e r) = absurd (cc e)

run-events_one : (hp now i : ℕ) → run (events_two (lock_one hp now i)) [] ≡ some []
unfolding events_two lock_one check_hashpower release run after take_lock give_back
run-events_one hp now i = elim (Bool-cases (now == hp)) [
  | inl e ↦ rw (lock_one, check_hashpower, e) (ground (arith, ==_refl (lock_ind i)))
  | inr e ↦ rw (lock_one, check_hashpower, e) (ground (arith, ==_refl (lock_ind i)))
]

run-events_three :
    (hp now i1 i2 i3 : ℕ) (r : List Event × Option (Container × Container))
    → LocksThree hp now i1 i2 i3 r
    → run (events_three r) [] ≡ some []
unfolding events_three
run-events_three hp now i1 i2 i3 (events, none) (Three.taken _ e _ _ _ _ _ _) = absurd (cc e)
run-events_three hp now i1 i2 i3 (events, some (twob, extrab))
      (Three.taken {held = held} same e r _ _ _ _ back) =
    run-append events (release extrab ++ release twob) [] held r
    ∙ ap (λ (p : Container × Container). run (release p.1 ++ release p.0) held) (some_eq e)
    ∙ back
run-events_three hp now i1 i2 i3 (events, none) (Three.changed _ _ r) = r
run-events_three hp now i1 i2 i3 (events, some c) (Three.changed _ e r) = absurd (cc e)

pub run-events_of : (c : LockCall) → run (events_of c) [] ≡ some []
unfolding events_of
run-events_of (one_bucket hp now i) = run-events_one hp now i
run-events_of (two_buckets hp now i1 i2) =
    run-events_two hp now i1 i2 _ (lock_two-LocksTwo hp now i1 i2)
run-events_of (three_buckets hp now i1 i2 i3) =
    run-events_three hp now i1 i2 i3 _ (lock_three-LocksThree hp now i1 i2 i3)
run-events_of (all_locks n) =
    let a = lock_all-LocksAll n in
    run-append (lock_all 0 n) (unlock_all 0 n) [] a.held a.taken ∙ a.back

run-events_of_all : (calls : List LockCall) → run (events_of_all calls) [] ≡ some []
unfolding events_of_all
run-events_of_all [] = unfold run in refl
run-events_of_all (c ∷ calls) =
    run-append (events_of c) (events_of_all calls) [] [] (run-events_of c) ∙ run-events_of_all calls

thread_of-AllOrderly : (programs : List (List LockCall)) → AllOrderly (map thread_of programs)
thread_of-AllOrderly [] = tt
thread_of-AllOrderly (calls ∷ programs) =
    ((tt, run-events_of_all calls), thread_of-AllOrderly programs)

-- Let any number of threads each run any sequence of calls of `lock_two`, `lock_three` and
-- `snapshot_and_lock_all`, whatever hashpowers they read, and give back what each has taken; then
-- in every state that an interleaving of their lock events reaches, where a lock is taken only
-- while no thread holds it, all threads are done or some thread can go on.
pub calls_no_deadlock :
    (programs : List (List LockCall)) (threads : List Thread)
    → Reachable (map thread_of programs) threads
    → AllDone threads ⊎ CanMove threads
calls_no_deadlock programs threads reached =
    no_deadlock threads (reached-AllOrderly reached (thread_of-AllOrderly programs))
