-- ===== src/Locks/Progress.antt =====
-- Threads that keep to the order of the locks never wait for each other in a cycle.
use libcuckoo_cxx.Base.{
  ℕ, zero, suc, ◌+◌, ◌<◌, ◌≤◌, ◌≡◌, refl, sym, ap, subst, ◌⊎◌, inl, inr, List, [], ◌∷◌, true,
  Option, none, some, arith, Bool-cases, some_eq,
}
use libcuckoo_cxx.Locks.Order.{give_back, after, run, holds}
use libcuckoo_cxx.Locks.Threads.{
  Thread, IsFree, MovesIn, takes, gives, skips, AllDone, CanMove, IsOrderly, AllOrderly,
  next_is_greater,
}
use libcuckoo_cxx.Locks.{Event, lock, unlock}

abbrev pub In : Thread → List Thread → Type 0
In t [] = ⊥
In t (s ∷ threads) = (s ≡ t) ⊎ In t threads

-- A number above the lock that the thread waits for, if there is one.
abbrev wanted : List Event → ℕ
wanted [] = 0
wanted (lock l ∷ todo) = suc l
wanted (unlock l ∷ todo) = 0

abbrev bound : List Thread → ℕ
bound [] = 0
bound (t ∷ threads) = wanted t.todo + bound threads

wanted_le : (t : Thread) (threads : List Thread) → In t threads → wanted t.todo ≤ bound threads
wanted_le t [] h = absurd h
wanted_le t (s ∷ threads) (inl e) = omega (arith, ap (λ (x : Thread). wanted x.todo) e)
wanted_le t (s ∷ threads) (inr h) = omega (arith, wanted_le t threads h)

IsOrderly-In :
    (t : Thread) (threads : List Thread) → AllOrderly threads → In t threads → IsOrderly t
IsOrderly-In t [] o h = absurd h
IsOrderly-In t (s ∷ threads) o (inl e) = subst IsOrderly e o.0
IsOrderly-In t (s ∷ threads) o (inr h) = IsOrderly-In t threads o.1 h

-- A lock is free or some thread holds it.
holder :
    (l : ℕ) (threads : List Thread)
    → IsFree l threads ⊎ ((t : Thread) × In t threads × (holds l t.held ≡ true))
holder l [] = inl tt
holder l (s ∷ threads) = elim (Bool-cases (holds l s.held)) [
  | inl e ↦ inr (s, inl refl, e)
  | inr e ↦ elim (holder l threads) [ inl free ↦ inl (e, free) | inr (t, h, f) ↦ inr (t, inr h, f) ]
]

-- A thread somewhere in the list makes a move of its own.
take_in :
    (all threads : List Thread) (l : ℕ) (held : List ℕ) (todo : List Event)
    → In (record { held = held; todo = lock l ∷ todo }) threads
    → IsFree l all
    → (next : List Thread) × MovesIn all threads next
take_in all [] l held todo h free = absurd h
take_in all (s ∷ threads) l held todo (inl e) free =
    subst (λ (x : Thread). (next : List Thread) × MovesIn all (x ∷ threads) next) (sym e)
      (_, takes free)
take_in all (s ∷ threads) l held todo (inr h) free =
    let (next, m) = take_in all threads l held todo h free in (s ∷ next, skips m)

give_in :
    (all threads : List Thread) (l : ℕ) (held held' : List ℕ) (todo : List Event)
    → In (record { held = held; todo = unlock l ∷ todo }) threads
    → give_back l held ≡ some held'
    → (next : List Thread) × MovesIn all threads next
give_in all [] l held held' todo h g = absurd h
give_in all (s ∷ threads) l held held' todo (inl e) g =
    subst (λ (x : Thread). (next : List Thread) × MovesIn all (x ∷ threads) next) (sym e)
      (_, gives g)
give_in all (s ∷ threads) l held held' todo (inr h) g =
    let (next, m) = give_in all threads l held held' todo h g in (s ∷ next, skips m)

-- `Can` is whatever follows from a thread that may take a free lock or give one back.
module _ (all : List Thread) (orderly : AllOrderly all) {Can : Type 0}
    (take : (l : ℕ) (held : List ℕ) (todo : List Event)
      → In (record { held = held; todo = lock l ∷ todo }) all
      → IsFree l all
      → Can)
    (hand_back : (l : ℕ) (held held' : List ℕ) (todo : List Event)
      → In (record { held = held; todo = unlock l ∷ todo }) all
      → give_back l held ≡ some held'
      → Can) where
  unlocks :
      (l : ℕ) (held : List ℕ) (todo : List Event)
      → In (record { held = held; todo = unlock l ∷ todo }) all
      → (o : Option (List ℕ)) → give_back l held ≡ o
      → Can
  unlocks l held todo h none g =
      let (d, r) = IsOrderly-In _ all orderly h in absurd (unfold run after in ground (arith, r, g))
  unlocks l held todo h (some held') g = hand_back l held held' todo h g

  -- A thread that holds the lock `l` can go on, or waits for a greater lock.
  with_lock :
      (l : ℕ) (held : List ℕ) (todo : List Event)
      → In (record { held = held; todo = todo }) all
      → holds l held ≡ true
      → ((m : ℕ) (todo' : List Event)
          → In (record { held = held; todo = lock m ∷ todo' }) all
          → l < m
          → Can)
      → Can
  with_lock l held [] at has on =
      let (d, r) = IsOrderly-In _ all orderly at in
      let none_held : held ≡ [] = some_eq (unfold run in r) in
      absurd (unfold holds in cc (has, ap (holds l) none_held))
  with_lock l held (unlock m ∷ todo) at has on = unlocks m held todo at _ refl
  with_lock l held (lock m ∷ todo) at has on =
      let (d, r) = IsOrderly-In _ all orderly at in
      on m todo at (next_is_greater m held todo d r l has)

  -- From a thread that waits to one that waits for a greater lock, until one can go on.
  chase :
      (fuel l : ℕ) (held : List ℕ) (todo : List Event)
      → In (record { held = held; todo = lock l ∷ todo }) all
      → bound all < l + fuel
      → Can
  chase zero l held todo h enough = absurd (omega (arith, enough, wanted_le _ all h))
  chase (suc fuel) l held todo h enough = elim (holder l all) [
    | inl free ↦ take l held todo h free
    | inr (t, at, has) ↦
        with_lock l t.held t.todo at has
          (λ m todo' there more. chase fuel m t.held todo' there (omega (arith, enough, more)))
  ]

  moves_on :
      (held : List ℕ) (todo : List Event)
      → In (record { held = held; todo = todo }) all
      → (todo ≡ []) ⊎ Can
  moves_on held [] at = inl refl
  moves_on held (unlock m ∷ todo) at = inr (unlocks m held todo at _ refl)
  moves_on held (lock m ∷ todo) at = inr (chase (suc (bound all)) m held todo at (omega arith))

  done_or_move :
      (threads : List Thread) → ((t : Thread) → In t threads → In t all) → AllDone threads ⊎ Can
  done_or_move [] within = inl tt
  done_or_move (t ∷ threads) within = elim (moves_on t.held t.todo (within t (inl refl))) [
    | inr can ↦ inr can
    | inl e ↦ elim (done_or_move threads (λ s at. within s (inr at))) [
      | inr can ↦ inr can
      | inl rest ↦ inl (e, rest)
    ]
  ]

  pub goes_on : AllDone all ⊎ Can
  goes_on = done_or_move all (λ t at. at)

pub no_deadlock : (all : List Thread) → AllOrderly all → AllDone all ⊎ CanMove all
no_deadlock all orderly = goes_on all orderly (take_in all all) (give_in all all)
