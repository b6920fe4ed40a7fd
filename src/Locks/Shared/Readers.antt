-- ===== src/Locks/Shared/Readers.antt =====
-- Readers and writers: a writer is alone with its lock, and no threads wait for each other for ever.
use libcuckoo_cxx.Base.{
  ℕ, ◌≡◌, refl, sym, subst, ◌⊎◌, inl, inr, List, [], ◌∷◌, map, true, false, some, arith, ◌==◌,
  ==→eq, Bool-cases, Option-cases, some_eq,
}
use libcuckoo_cxx.Locks.Shared.Order.{programs-AllOrderly, reached_in_order}
use libcuckoo_cxx.Locks.Order.{holds}
use libcuckoo_cxx.Locks.Shared.{
  Mode, shared, exclusive, ModeEvent, acquire, give, ModeCall, ModeThread, mode_thread_of, locks_of,
  exclusive_of, MayTake, drop_lock, ModeMoves, takes, gives, skips, ModeReachable, begun, moved,
}
use libcuckoo_cxx.Locks.Shared.Waiting.{
  ModeCanMove, ModeAllDone, Among, exclusive_is_held, readers_go_on,
}

-- Neither thread holds a lock that the other one holds for writing.
pub record Excludes (t u : ModeThread) : Type 0 where
  pub left : (l : ℕ) → holds l (exclusive_of t.held) ≡ true → holds l (locks_of u.held) ≡ false
  pub right : (l : ℕ) → holds l (exclusive_of u.held) ≡ true → holds l (locks_of t.held) ≡ false

abbrev pub ExcludesAll : ModeThread → List ModeThread → Type 0
ExcludesAll t [] = Unit
ExcludesAll t (u ∷ threads) = Excludes t u × ExcludesAll t threads

abbrev pub AllExclude : List ModeThread → Type 0
AllExclude [] = Unit
AllExclude (t ∷ threads) = ExcludesAll t threads × AllExclude threads

-- What a thread that is there lets another one take.
taken_exclusive :
    (l : ℕ) (u : ModeThread) (threads : List ModeThread)
    → MayTake false exclusive l threads
    → Among u threads
    → holds l (locks_of u.held) ≡ false
taken_exclusive l u [] may at = absurd at
taken_exclusive l u (s ∷ threads) may (inl e) =
    subst (λ (x : ModeThread). holds l (locks_of x.held) ≡ false) e may.0
taken_exclusive l u (s ∷ threads) may (inr at) = taken_exclusive l u threads may.1 at

taken_shared :
    (l : ℕ) (u : ModeThread) (threads : List ModeThread)
    → MayTake false shared l threads
    → Among u threads
    → holds l (exclusive_of u.held) ≡ false
taken_shared l u [] may at = absurd at
taken_shared l u (s ∷ threads) may (inl e) =
    subst (λ (x : ModeThread). holds l (exclusive_of x.held) ≡ false) e may.0
taken_shared l u (s ∷ threads) may (inr at) = taken_shared l u threads may.1 at

no_writer :
    (m : Mode) (l : ℕ) (u : ModeThread) (all : List ModeThread)
    → MayTake false m l all
    → Among u all
    → holds l (exclusive_of u.held) ≡ false
no_writer shared l u all may at = taken_shared l u all may at
no_writer exclusive l u all may at = elim (Bool-cases (holds l (exclusive_of u.held))) [
  | inr e ↦ e
  | inl e ↦ absurd (cc (taken_exclusive l u all may at, exclusive_is_held l u.held e))
]

locks_dropped :
    (l k : ℕ) (held held' : List (Mode × ℕ))
    → drop_lock l held ≡ some held'
    → holds k (locks_of held) ≡ false
    → holds k (locks_of held') ≡ false
unfolding drop_lock holds
locks_dropped l k [] held' e h = absurd (cc e)
locks_dropped l k ((m, j) ∷ held) held' e h = elim (Bool-cases (l == j)) [
  | inl f ↦
      subst (λ x. holds k (locks_of x) ≡ false) (some_eq (rw (drop_lock, f) at e)) (ground arith)
  | inr f ↦ elim (Option-cases (drop_lock l held)) [
    | inl g ↦ absurd (cc (rw (drop_lock, f, g) at e))
    | inr (rest, g) ↦
        subst (λ x. holds k (locks_of x) ≡ false) (some_eq (rw (drop_lock, f, g) at e))
          (ground (arith, locks_dropped l k held rest g))
  ]
]

exclusive_dropped :
    (l k : ℕ) (held held' : List (Mode × ℕ))
    → drop_lock l held ≡ some held'
    → holds k (exclusive_of held) ≡ false
    → holds k (exclusive_of held') ≡ false
unfolding drop_lock holds
exclusive_dropped l k [] held' e h = absurd (cc e)
exclusive_dropped l k ((shared, j) ∷ held) held' e h = elim (Bool-cases (l == j)) [
  | inl f ↦ subst (λ x. holds k (exclusive_of x) ≡ false) (some_eq (rw (drop_lock, f) at e)) h
  | inr f ↦ elim (Option-cases (drop_lock l held)) [
    | inl g ↦ absurd (cc (rw (drop_lock, f, g) at e))
    | inr (rest, g) ↦
        subst (λ x. holds k (exclusive_of x) ≡ false) (some_eq (rw (drop_lock, f, g) at e))
          (exclusive_dropped l k held rest g h)
  ]
]
exclusive_dropped l k ((exclusive, j) ∷ held) held' e h = elim (Bool-cases (l == j)) [
  | inl f ↦
      subst (λ x. holds k (exclusive_of x) ≡ false) (some_eq (rw (drop_lock, f) at e))
        (ground arith)
  | inr f ↦ elim (Option-cases (drop_lock l held)) [
    | inl g ↦ absurd (cc (rw (drop_lock, f, g) at e))
    | inr (rest, g) ↦
        subst (λ x. holds k (exclusive_of x) ≡ false) (some_eq (rw (drop_lock, f, g) at e))
          (ground (arith, exclusive_dropped l k held rest g))
  ]
]

Excludes-sym : {t u : ModeThread} → Excludes t u → Excludes u t
Excludes-sym e = record { left = e.right; right = e.left }

module _ (all : List ModeThread) (u : ModeThread) (here : Among u all) where
  taken-Excludes :
      (m : Mode) (l : ℕ) (held : List (Mode × ℕ)) (todo : List ModeEvent)
      → MayTake false m l all
      → Excludes u (record { held = held; todo = acquire m l ∷ todo })
      → Excludes u (record { held = (m, l) ∷ held; todo = todo })
  unfolding holds
  taken-Excludes m l held todo may old = record {
    left = λ k h. elim (Bool-cases (k == l)) [
      | inl same ↦
          let none : holds k (exclusive_of u.held) ≡ false =
            subst (λ i. holds i (exclusive_of u.held) ≡ false) (sym (==→eq k l same))
              (no_writer m l u all may here) in
          absurd (cc (h, none))
      | inr other ↦ ground (arith, other, old.left k h)
    ];
    right = λ k h. taken_right m k may h;
  }
    where
      taken_right :
          (m' : Mode) (k : ℕ)
          → MayTake false m' l all
          → holds k (exclusive_of ((m', l) ∷ held)) ≡ true
          → holds k (locks_of u.held) ≡ false
      taken_right shared k may' h = old.right k h
      taken_right exclusive k may' h = elim (Bool-cases (k == l)) [
        | inl same ↦
            subst (λ i. holds i (locks_of u.held) ≡ false) (sym (==→eq k l same))
              (taken_exclusive l u all may' here)
        | inr other ↦ old.right k (ground (arith, other, h))
      ]

  given-Excludes :
      (l : ℕ) (held held' : List (Mode × ℕ)) (todo : List ModeEvent)
      → drop_lock l held ≡ some held'
      → Excludes u (record { held = held; todo = give l ∷ todo })
      → Excludes u (record { held = held'; todo = todo })
  given-Excludes l held held' todo d old = record {
    left = λ k h. locks_dropped l k held held' d (old.left k h);
    right = λ k h. elim (Bool-cases (holds k (exclusive_of held))) [
      | inl e ↦ old.right k e
      | inr e ↦ absurd (cc (h, exclusive_dropped l k held held' d e))
    ];
  }

  moved-ExcludesAll :
      {a b : List ModeThread} → ModeMoves false all a b → ExcludesAll u a → ExcludesAll u b
  moved-ExcludesAll (takes {m = m} {l = l} {held = held} {todo = todo} may) (o, rest) =
      (taken-Excludes m l held todo may o, rest)
  moved-ExcludesAll (gives {l = l} {held = held} {held' = held'} {todo = todo} d) (o, rest) =
      (given-Excludes l held held' todo d o, rest)
  moved-ExcludesAll (skips n) (o, rest) = (o, moved-ExcludesAll n rest)

module _ (all : List ModeThread) where
  each_one :
      (t t' : ModeThread) (threads : List ModeThread)
      → ((u : ModeThread) → Among u threads → Among u all)
      → ((u : ModeThread) → Among u all → Excludes u t → Excludes u t')
      → ExcludesAll t threads
      → ExcludesAll t' threads
  each_one t t' [] within change h = tt
  each_one t t' (u ∷ threads) within change h = (
    Excludes-sym (change u (within u (inl refl)) (Excludes-sym h.0)),
    each_one t t' threads (λ x at. within x (inr at)) change h.1,
  )

  moved-AllExclude :
      {a b : List ModeThread}
      → ModeMoves false all a b
      → ((u : ModeThread) → Among u a → Among u all)
      → AllExclude a
      → AllExclude b
  moved-AllExclude (takes {m = m} {l = l} {held = held} {todo = todo} {rest = rest} may) within o =
      (
        each_one _ _ rest (λ x at. within x (inr at))
            (λ u here. taken-Excludes all u here m l held todo may) o.0,
        o.1,
      )
  moved-AllExclude (gives {l = l} {held = held} {held' = held'} {todo = todo} {rest = rest} d)
        within o =
      (
        each_one _ _ rest (λ x at. within x (inr at))
            (λ u here. given-Excludes all u here l held held' todo d) o.0,
        o.1,
      )
  moved-AllExclude (skips {t = t} n) within o = (
    moved-ExcludesAll all t (within t (inl refl)) n o.0,
    moved-AllExclude n (λ x at. within x (inr at)) o.1,
  )

reached-AllExclude :
    {first a : List ModeThread} → ModeReachable first a → AllExclude first → AllExclude a
reached-AllExclude begun o = o
reached-AllExclude (moved {a = a} r n) o =
    moved-AllExclude a n (λ u at. at) (reached-AllExclude r o)

idle-ExcludesAll :
    (calls : List ModeCall) (programs : List (List ModeCall))
    → ExcludesAll (mode_thread_of calls) (map mode_thread_of programs)
unfolding holds
idle-ExcludesAll calls [] = tt
idle-ExcludesAll calls (other ∷ programs) =
    (record { left = λ l h. refl; right = λ l h. refl }, idle-ExcludesAll calls programs)

idle-AllExclude : (programs : List (List ModeCall)) → AllExclude (map mode_thread_of programs)
idle-AllExclude [] = tt
idle-AllExclude (calls ∷ programs) = (idle-ExcludesAll calls programs, idle-AllExclude programs)

-- Let any number of threads each run any sequence of calls of `lock_one`, `lock_two`, `lock_three`
-- and `snapshot_and_lock_all`, which lock for writing, and of `snapshot_and_lock_two_shared`,
-- which locks for reading, whatever hashpowers they read, and give back what each has taken. A
-- lock is taken for writing only while no thread holds it, and for reading only while none holds
-- it for writing; a reader may also have to give way to writers that wait. Then in every state
-- that an interleaving of their lock events reaches, no thread holds a lock that another one holds
-- for writing, and all threads are done or some thread can go on, even where a reader has to give
-- way to every thread whose next event is to lock the same lock for writing. The mutex of an
-- expansion is not among the locks.
pub readers_and_writers :
    (programs : List (List ModeCall)) (threads : List ModeThread)
    → ModeReachable (map mode_thread_of programs) threads
    → AllExclude threads × (ModeAllDone threads ⊎ ModeCanMove threads)
readers_and_writers programs threads reached = (
  reached-AllExclude reached (idle-AllExclude programs),
  readers_go_on threads (reached_in_order reached (programs-AllOrderly programs)),
)
