-- ===== src/Locks/All.antt =====
-- `snapshot_and_lock_all` and the destructor of `AllUnlocker`.
use libcuckoo_cxx.Base.{
  ℕ, zero, suc, ◌+◌, ◌<◌, ◌≤◌, ◌≡◌, refl, List, [], ◌∷◌, true, some, arith, ℕ_discrete, ==_refl,
}
use libcuckoo_cxx.Locks.Order.{take_lock, give_back, after, run, holds}
use libcuckoo_cxx.Locks.{lock_all, unlock_all}

-- The locks from `i` on, put before those held.
taken_all : ℕ → ℕ → List ℕ → List ℕ
taken_all i zero held = held
taken_all i (suc n) held = taken_all (suc i) n (i ∷ held)

abbrev AllBelow : ℕ → List ℕ → Type 0
AllBelow i [] = Unit
AllBelow i (m ∷ held) = m < i

take_lock_next : (i : ℕ) (held : List ℕ) → AllBelow i held → take_lock i held ≡ some (i ∷ held)
unfolding take_lock
take_lock_next i [] h = refl
take_lock_next i (m ∷ held) h = ground arith

run-lock_all :
    (i n : ℕ) (held : List ℕ)
    → AllBelow i held
    → run (lock_all i n) held ≡ some (taken_all i n held)
unfolding run lock_all taken_all after
run-lock_all i zero held h = refl
run-lock_all i (suc n) held h =
    rw (run, take_lock_next i held h) (run-lock_all (suc i) n (i ∷ held) (omega arith))

give_back_later :
    (l j n : ℕ) (held held' : List ℕ)
    → l < j
    → give_back l held ≡ some held'
    → give_back l (taken_all j n held) ≡ some (taken_all j n held')
unfolding taken_all
give_back_later l j zero held held' lt e = e
give_back_later l j (suc n) held held' lt e =
    give_back_later l (suc j) n (j ∷ held) (j ∷ held') (omega arith)
      (unfold give_back in ground arith)

run-unlock_all : (i n : ℕ) (held : List ℕ) → run (unlock_all i n) (taken_all i n held) ≡ some held
unfolding run unlock_all taken_all after
run-unlock_all i zero held = refl
run-unlock_all i (suc n) held =
    rw
      (
        run,
        give_back_later i (suc i) n (i ∷ held) held (omega arith)
            (unfold give_back in ground (arith, ==_refl i)),
      )
      (run-unlock_all (suc i) n held)

holds_earlier :
    (l i n : ℕ) (held : List ℕ) → holds l held ≡ true → holds l (taken_all i n held) ≡ true
unfolding taken_all
holds_earlier l i zero held h = h
holds_earlier l i (suc n) held h =
    holds_earlier l (suc i) n (i ∷ held) (unfold holds in ground arith)

holds_all : (l i n : ℕ) (held : List ℕ) → i ≤ l → l < i + n → holds l (taken_all i n held) ≡ true
unfolding taken_all
holds_all l i zero held lo hi = absurd (omega arith)
holds_all l i (suc n) held lo hi = elim (ℕ_discrete i l) [
  | yes e ↦ holds_earlier l (suc i) n (i ∷ held) (unfold holds in ground (arith, ==_refl l))
  | no ne ↦ holds_all l (suc i) n (i ∷ held) (omega (arith, ne)) (omega arith)
]

pub record LocksAll (n : ℕ) : Type 0 where
  pub held : List ℕ
  pub taken : run (lock_all 0 n) [] ≡ some held
  pub each : (l : ℕ) → l < n → holds l held ≡ true
  pub back : run (unlock_all 0 n) held ≡ some []

-- `snapshot_and_lock_all` over `n` locks takes each of them in ascending order, and `AllUnlocker`
-- gives all of them back.
pub lock_all-LocksAll : (n : ℕ) → LocksAll n
lock_all-LocksAll n = record {
  held = taken_all 0 n [];
  taken = run-lock_all 0 n [] tt;
  each = λ l lt. holds_all l 0 n [] (omega arith) (omega arith);
  back = run-unlock_all 0 n [];
}
