-- ===== src/Locks/Threads.antt =====
-- Any number of threads that take and give back locks in any interleaving.
use libcuckoo_cxx.Base.{
  ℕ, ◌<◌, ◌≡◌, ap, ◌∙◌, subst, ◌⊎◌, inl, inr, List, [], ◌∷◌, true, false, ◌||◌, some, arith, ltb,
  ◌==◌, ==→eq, Bool-cases, Option-cases,
}
use libcuckoo_cxx.Locks.Order.{take_lock, give_back, after, run, holds}
use libcuckoo_cxx.Locks.{Event, lock, unlock}

-- A thread: the locks that it holds, and what it still has to do.
pub record Thread : Type 0 where
  pub held : List ℕ
  pub todo : List Event

abbrev pub IsFree : ℕ → List Thread → Type 0
IsFree l [] = Unit
IsFree l (t ∷ threads) = (holds l t.held ≡ false) × IsFree l threads

-- One event of one thread, among `all` threads: a lock is taken only while no thread holds it.
pub data MovesIn (all : List Thread) : List Thread → List Thread → Type 0 where
  takes :
      {l : ℕ} {held : List ℕ} {todo : List Event} {rest : List Thread}
      → IsFree l all
      → MovesIn all
          (record { held = held; todo = lock l ∷ todo } ∷ rest)
          (record { held = l ∷ held; todo = todo } ∷ rest)
  gives :
      {l : ℕ} {held held' : List ℕ} {todo : List Event} {rest : List Thread}
      → give_back l held ≡ some held'
      → MovesIn all
          (record { held = held; todo = unlock l ∷ todo } ∷ rest)
          (record { held = held'; todo = todo } ∷ rest)
  skips :
      {t : Thread} {rest rest' : List Thread}
      → MovesIn all rest rest'
      → MovesIn all (t ∷ rest) (t ∷ rest')

pub data Reachable (first : List Thread) : List Thread → Type 0 where
  start : Reachable first first
  move : {a b : List Thread} → Reachable first a → MovesIn a a b → Reachable first b

-- Some thread can go on.
abbrev pub CanMove : List Thread → Type 0
CanMove all = (next : List Thread) × MovesIn all all next

abbrev pub AllDone : List Thread → Type 0
AllDone [] = Unit
AllDone (t ∷ threads) = (t.todo ≡ []) × AllDone threads

abbrev pub Above : ℕ → List ℕ → Type 0
Above l held = (m : ℕ) → holds m held ≡ true → m < l

abbrev pub Descending : List ℕ → Type 0
Descending [] = Unit
Descending (m ∷ held) = Above m held × Descending held

-- A thread that keeps to the order of the locks and gives all of them back.
abbrev pub IsOrderly : Thread → Type 0
IsOrderly t = Descending t.held × (run t.todo t.held ≡ some [])

abbrev pub AllOrderly : List Thread → Type 0
AllOrderly [] = Unit
AllOrderly (t ∷ threads) = IsOrderly t × AllOrderly threads

pub next_is_greater :
    (l : ℕ) (held : List ℕ) (todo : List Event)
    → Descending held
    → run (lock l ∷ todo) held ≡ some []
    → Above l held
unfolding run after take_lock holds
next_is_greater l [] todo d h m at = absurd (ground arith)
next_is_greater l (k ∷ held) todo d h m at =
    let below : k < l = ground arith in
    elim (Bool-cases (m == k)) [
      | inl same ↦ omega (arith, ==→eq m k same, below)
      | inr other ↦ omega (arith, d.0 m (ground arith), below)
    ]

pub run_taken :
    (l : ℕ) (held : List ℕ) (todo : List Event)
    → run (lock l ∷ todo) held ≡ some []
    → run todo (l ∷ held) ≡ some []
unfolding run after take_lock
run_taken l [] todo h = h
run_taken l (k ∷ held) todo h = elim (Bool-cases (ltb k l)) [
  | inl e ↦ ground (arith)
  | inr e ↦ absurd (ground arith)
]

pub run_given :
    (l : ℕ) (held held' : List ℕ) (todo : List Event)
    → run (unlock l ∷ todo) held ≡ some []
    → give_back l held ≡ some held'
    → run todo held' ≡ some []
unfolding run after
run_given l held held' todo h g = ground (arith, g)

given :
    (l k : ℕ) (held held' : List ℕ)
    → give_back l (k ∷ held) ≡ some held'
    → (held ≡ held') ⊎ ((rest : List ℕ) × (give_back l held ≡ some rest) × (k ∷ rest ≡ held'))
unfolding give_back
given l k held held' g = elim (Bool-cases (l == k)) [
  | inl e ↦ inl (ground (arith, g))
  | inr e ↦ elim (Option-cases (give_back l held)) [
    | inl f ↦ absurd (ground (arith, g))
    | inr (rest, f) ↦ inr (rest, f, ground (arith, g))
  ]
]

holds_given :
    (l m : ℕ) (held held' : List ℕ)
    → give_back l held ≡ some held'
    → holds m held' ≡ true
    → holds m held ≡ true
unfolding holds
holds_given l m [] held' g h = absurd (unfold give_back in cc g)
holds_given l m (k ∷ held) held' g h = elim (given l k held held' g) [
  | inl e ↦ ground (arith, ap (holds m) e, h)
  | inr (rest, f, e) ↦
      let at : ((m == k) || holds m rest) ≡ true = ap (holds m) e ∙ h in
      elim (Bool-cases (m == k)) [
        | inl same ↦ ground (arith, same)
        | inr other ↦ ground (arith, other, holds_given l m held rest f (ground (arith, other, at)))
      ]
]

pub Descending-given :
    (l : ℕ) (held held' : List ℕ)
    → Descending held
    → give_back l held ≡ some held'
    → Descending held'
Descending-given l [] held' d g = absurd (unfold give_back in cc g)
Descending-given l (k ∷ held) held' d g = elim (given l k held held' g) [
  | inl e ↦ subst Descending e d.1
  | inr (rest, f, e) ↦
      subst Descending e
        ((λ m h. d.0 m (holds_given l m held rest f h)), Descending-given l held rest d.1 f)
]

moved-AllOrderly : {all a b : List Thread} → MovesIn all a b → AllOrderly a → AllOrderly b
moved-AllOrderly (takes {l = l} {held = held} {todo = todo} free) (o, rest) =
    (((next_is_greater l held todo o.0 o.1, o.0), run_taken l held todo o.1), rest)
moved-AllOrderly (gives {l = l} {held = held} {held' = held'} {todo = todo} g) (o, rest) =
    ((Descending-given l held held' o.0 g, run_given l held held' todo o.1 g), rest)
moved-AllOrderly (skips m) (o, rest) = (o, moved-AllOrderly m rest)

pub reached-AllOrderly :
    {first a : List Thread} → Reachable first a → AllOrderly first → AllOrderly a
reached-AllOrderly start o = o
reached-AllOrderly (move r m) o = moved-AllOrderly m (reached-AllOrderly r o)
