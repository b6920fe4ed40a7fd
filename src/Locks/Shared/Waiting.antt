-- ===== src/Locks/Shared/Waiting.antt =====
-- Threads that lock for reading and for writing: some thread can always go on.
use libcuckoo_cxx.Base.{
  ==→eq, false, ℕ, ◌≡◌, refl, sym, ap, subst, ◌∙◌, ◌⊎◌, inl, inr, List, [], ◌∷◌, map, true, some,
  arith, ◌==◌, Bool-cases, Option-cases,
}
use libcuckoo_cxx.Locks.Shared.Order.{plain, plain_thread}
use libcuckoo_cxx.Locks.Order.{give_back, holds}
use libcuckoo_cxx.Locks.Progress.{In, goes_on}
use libcuckoo_cxx.Locks.Shared.{
  Mode, shared, exclusive, ModeEvent, acquire, give, ModeThread, locks_of, exclusive_of, MayTake,
  awaits, drop_lock, ModeMoves, takes, gives, skips,
}
use libcuckoo_cxx.Locks.Threads.{Thread, IsFree, AllDone, AllOrderly}
use libcuckoo_cxx.Locks.{Event, lock, unlock}

-- Some thread can move even where every reader gives way to the writers.
abbrev pub ModeCanMove : List ModeThread → Type 0
ModeCanMove all = (next : List ModeThread) × ModeMoves true all all next

abbrev pub ModeAllDone : List ModeThread → Type 0
ModeAllDone [] = Unit
ModeAllDone (t ∷ threads) = (t.todo ≡ []) × ModeAllDone threads

abbrev pub Among : ModeThread → List ModeThread → Type 0
Among t [] = ⊥
Among t (s ∷ threads) = (s ≡ t) ⊎ Among t threads

Among-plain :
    (x : Thread) (threads : List ModeThread)
    → In x (map plain_thread threads)
    → (t : ModeThread) × Among t threads × (plain_thread t ≡ x)
Among-plain x [] h = absurd h
Among-plain x (s ∷ threads) (inl e) = (s, inl refl, e)
Among-plain x (s ∷ threads) (inr h) = let (t, at, e) = Among-plain x threads h in (t, inr at, e)

-- A thread somewhere in the list makes a move of its own.
move-Among :
    (all threads : List ModeThread) (t t' : ModeThread)
    → ((rest : List ModeThread) → ModeMoves true all (t ∷ rest) (t' ∷ rest))
    → Among t threads
    → (next : List ModeThread) × ModeMoves true all threads next
move-Among all [] t t' m at = absurd at
move-Among all (s ∷ threads) t t' m (inl e) =
    (t' ∷ threads, subst (λ x. ModeMoves true all (x ∷ threads) (t' ∷ threads)) (sym e) (m threads))
move-Among all (s ∷ threads) t t' m (inr at) =
    let (next, n) = move-Among all threads t t' m at in (s ∷ next, skips n)

pub exclusive_is_held :
    (l : ℕ) (held : List (Mode × ℕ))
    → holds l (exclusive_of held) ≡ true
    → holds l (locks_of held) ≡ true
unfolding holds
exclusive_is_held l [] h = h
exclusive_is_held l ((shared, k) ∷ held) h = ground (arith, exclusive_is_held l held h)
exclusive_is_held l ((exclusive, k) ∷ held) h = elim (Bool-cases (l == k)) [
  | inl e ↦ ground (arith, e)
  | inr e ↦ ground (arith, e, exclusive_is_held l held)
]

free_to_write :
    (l : ℕ) (threads : List ModeThread)
    → IsFree l (map plain_thread threads)
    → MayTake true exclusive l threads
free_to_write l [] h = tt
free_to_write l (t ∷ threads) h = (h.0, free_to_write l threads h.1)

abbrev NoneAwaits : ℕ → List ModeThread → Type 0
NoneAwaits l [] = Unit
NoneAwaits l (t ∷ threads) = (awaits l t.todo ≡ false) × NoneAwaits l threads

head_awaits :
    (l : ℕ) (todo : List ModeEvent)
    → (awaits l todo ≡ false) ⊎ ((rest : List ModeEvent) × (todo ≡ acquire exclusive l ∷ rest))
unfolding awaits
head_awaits l [] = inl refl
head_awaits l (give k ∷ todo) = inl refl
head_awaits l (acquire shared k ∷ todo) = inl refl
head_awaits l (acquire exclusive k ∷ todo) = elim (Bool-cases (l == k)) [
  | inr e ↦ inl e
  | inl e ↦ inr (todo, ap (λ i. acquire exclusive i ∷ todo) (sym (==→eq l k e)))
]

writer_or_none :
    (l : ℕ) (threads : List ModeThread)
    → NoneAwaits l threads
      ⊎ ((t : ModeThread) × (rest : List ModeEvent) × Among t threads
          × (t.todo ≡ acquire exclusive l ∷ rest))
writer_or_none l [] = inl tt
writer_or_none l (t ∷ threads) = elim (head_awaits l t.todo) [
  | inr (rest, e) ↦ inr (t, rest, inl refl, e)
  | inl other ↦ elim (writer_or_none l threads) [
    | inl none_there ↦ inl (other, none_there)
    | inr (s, rest, at, e) ↦ inr (s, rest, inr at, e)
  ]
]

free_to_read :
    (l : ℕ) (threads : List ModeThread)
    → IsFree l (map plain_thread threads)
    → NoneAwaits l threads
    → MayTake true shared l threads
free_to_read l [] h none_there = tt
free_to_read l (t ∷ threads) h none_there = (
  elim (Bool-cases (holds l (exclusive_of t.held))) [
    | inl e ↦ absurd (cc (exclusive_is_held l t.held e, h.0))
    | inr e ↦ e
  ],
  none_there.0,
  free_to_read l threads h.1 none_there.1,
)

dropped :
    (l : ℕ) (held : List (Mode × ℕ)) (rest : List ℕ)
    → give_back l (locks_of held) ≡ some rest
    → (held' : List (Mode × ℕ)) × (drop_lock l held ≡ some held')
unfolding give_back drop_lock
dropped l [] rest e = absurd (cc e)
dropped l ((m, k) ∷ held) rest e = elim (Bool-cases (l == k)) [
  | inl f ↦ (held, rw (drop_lock, f) refl)
  | inr f ↦ elim (Option-cases (give_back l (locks_of held))) [
    | inl g ↦ absurd (cc (rw (give_back, f, g) at e))
    | inr (some_rest, g) ↦
        let (held', h) = dropped l held some_rest g in ((m, k) ∷ held', rw (drop_lock, f, h) refl)
  ]
]

module _ (all : List ModeThread) where
  may_write :
      (l : ℕ) (held : List (Mode × ℕ)) (todo : List ModeEvent)
      → Among (record { held = held; todo = acquire exclusive l ∷ todo }) all
      → IsFree l (map plain_thread all)
      → ModeCanMove all
  may_write l held todo at free =
      move-Among all all _ (record { held = (exclusive, l) ∷ held; todo = todo })
        (λ others. takes (free_to_write l all free)) at

  -- Where a writer waits for the free lock, it takes it in the place of the reader.
  may_take :
      (l : ℕ) (held : List (Mode × ℕ)) (todo : List ModeEvent) (rest : List Event)
      → map plain todo ≡ lock l ∷ rest
      → Among (record { held = held; todo = todo }) all
      → IsFree l (map plain_thread all)
      → ModeCanMove all
  may_take l held [] rest e at free = absurd (cc e)
  may_take l held (give k ∷ todo) rest e at free = absurd (cc e)
  may_take l held (acquire exclusive k ∷ todo) rest e at free =
      may_write k held todo at
        (subst (λ i. IsFree i (map plain_thread all)) (let same : l ≡ k = cc e in same) free)
  may_take l held (acquire shared k ∷ todo) rest e at free =
      let same : l ≡ k = cc e in
      let free' = subst (λ i. IsFree i (map plain_thread all)) same free in
      elim (writer_or_none k all) [
        | inl none_there ↦
            move-Among all all _ (record { held = (shared, k) ∷ held; todo = todo })
              (λ others. takes (free_to_read k all free' none_there)) at
        | inr (w, after, there, e') ↦
            may_write k w.held after
              (subst (λ (r : List ModeEvent). Among (record { held = w.held; todo = r }) all) e'
                there)
              free'
      ]

  may_give :
      (l : ℕ) (held : List (Mode × ℕ)) (todo : List ModeEvent) (rest : List Event) (left : List ℕ)
      → map plain todo ≡ unlock l ∷ rest
      → Among (record { held = held; todo = todo }) all
      → give_back l (locks_of held) ≡ some left
      → ModeCanMove all
  may_give l held [] rest left e at g = absurd (cc e)
  may_give l held (acquire m k ∷ todo) rest left e at g = absurd (cc e)
  may_give l held (give k ∷ todo) rest left e at g =
      let same : l ≡ k = cc e in
      let (held', d) =
        dropped k held left (subst (λ i. give_back i (locks_of held) ≡ some left) same g) in
      move-Among all all _ (record { held = held'; todo = todo }) (λ others. gives d) at

  nothing_left : (todo : List ModeEvent) → map plain todo ≡ [] → todo ≡ []
  nothing_left [] h = refl
  nothing_left (e ∷ todo) h = absurd (cc h)

  all_done : (threads : List ModeThread) → AllDone (map plain_thread threads) → ModeAllDone threads
  all_done [] h = tt
  all_done (t ∷ threads) h = (nothing_left t.todo h.0, all_done threads h.1)

  pub readers_go_on : AllOrderly (map plain_thread all) → ModeAllDone all ⊎ ModeCanMove all
  readers_go_on orderly =
      elim (goes_on (map plain_thread all) orderly {Can = ModeCanMove all}
        (λ l held todo at free.
          let (t, here, e) = Among-plain _ all at in
          may_take l t.held t.todo todo (ap (λ (x : Thread). x.todo) e) here free)
        (λ l held held' todo at g.
          let (t, here, e) = Among-plain _ all at in
          may_give l t.held t.todo todo held' (ap (λ (x : Thread). x.todo) e) here
            (ap (λ (x : Thread). give_back l x.held) e ∙ g))) [
              | inl ends ↦ inl (all_done all ends)
              | inr can ↦ inr can
            ]
