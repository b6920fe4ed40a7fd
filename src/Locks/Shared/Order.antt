-- ===== src/Locks/Shared/Order.antt =====
-- Threads that lock for reading and for writing keep to the same order of the locks.
use libcuckoo_cxx.Base.{
  false, ℕ, ◌≡◌, refl, ap, ap₂, ◌∙◌, List, [], ◌∷◌, ◌++◌, map, Option, none, some, arith, ◌==◌,
  Bool-cases, Option-cases, some_eq, inl, inr,
}
use libcuckoo_cxx.Hash.{index_hash, alt_index}
use libcuckoo_cxx.Locks.Calls.{events_of, run-append, run-events_of}
use libcuckoo_cxx.Locks.Order.{give_back, run}
use libcuckoo_cxx.Locks.Shared.{
  Mode, ModeEvent, acquire, give, as_exclusive, lock_two_shared, snapshot_and_lock_two_shared,
  ModeCall, writes, reads, read_events, mode_events_of, mode_events_of_all, ModeThread,
  mode_thread_of, locks_of, drop_lock, ModeMoves, takes, gives, skips, ModeReachable, begun, moved,
}
use libcuckoo_cxx.Locks.Snapshot.{Snapshot, settled, still_changing, snapshot_and_lock_two-Snapshot}
use libcuckoo_cxx.Locks.Threads.{
  Thread, AllOrderly, next_is_greater, run_taken, run_given, Descending-given,
}
use libcuckoo_cxx.Locks.{
  Event, lock, unlock, check_hashpower, Container, release, lock_two, snapshot_and_lock_two,
}
use libcuckoo_cxx.Table.{HashValue}

-- The same without the modes.
abbrev pub plain : ModeEvent → Event
plain (acquire m l) = lock l
plain (give l) = unlock l

abbrev pub plain_thread : ModeThread → Thread
plain_thread t = record { held = locks_of t.held; todo = map plain t.todo }

plain_exclusive : (events : List Event) → map plain (map as_exclusive events) ≡ events
plain_exclusive [] = refl
plain_exclusive (lock l ∷ events) = ap (λ es. lock l ∷ es) (plain_exclusive events)
plain_exclusive (unlock l ∷ events) = ap (λ es. unlock l ∷ es) (plain_exclusive events)

plain-append : (a b : List ModeEvent) → map plain (a ++ b) ≡ map plain a ++ map plain b
plain-append [] b = refl
plain-append (e ∷ a) b = ap (λ es. plain e ∷ es) (plain-append a b)

plain-lock_two :
    (hp now i1 i2 : ℕ)
    → (map plain (lock_two_shared hp now i1 i2).0 ≡ (lock_two hp now i1 i2).0)
      × ((lock_two_shared hp now i1 i2).1 ≡ (lock_two hp now i1 i2).1)
unfolding lock_two_shared lock_two check_hashpower
plain-lock_two hp now i1 i2 = (ground arith, ground arith)

plain_snapshot :
    (rounds : List (ℕ × ℕ)) (hv : HashValue)
    → (map plain (snapshot_and_lock_two_shared rounds hv).0 ≡ (snapshot_and_lock_two rounds hv).0)
      × ((snapshot_and_lock_two_shared rounds hv).1 ≡ (snapshot_and_lock_two rounds hv).1)
unfolding snapshot_and_lock_two_shared snapshot_and_lock_two
plain_snapshot [] hv = (refl, refl)
plain_snapshot ((hp, now) ∷ rounds) hv =
    let i1 = index_hash hp hv.hash in
    let i2 = alt_index hp hv.partial i1 in
    let (events, result) = plain-lock_two hp now i1 i2 in
    let (later, later_result) = plain_snapshot rounds hv in
    elim (Option-cases (lock_two hp now i1 i2).1) [
      | inr (c, e) ↦ (
        rw (snapshot_and_lock_two_shared, snapshot_and_lock_two, result ∙ e, e) events,
        rw (snapshot_and_lock_two_shared, snapshot_and_lock_two, result ∙ e, e) refl,
      )
      | inl e ↦ (
        rw (snapshot_and_lock_two_shared, snapshot_and_lock_two, result ∙ e, e)
            (plain-append _ _ ∙ ap₂ (λ a b. a ++ b) events later),
        rw (snapshot_and_lock_two_shared, snapshot_and_lock_two, result ∙ e, e) later_result,
      )
    ]

-- What is read is given back.
read_run :
    (rounds : List (ℕ × ℕ)) (hv : HashValue) (r : List Event × Option (ℕ × Container))
    → Snapshot rounds hv r
    → (s : List ModeEvent × Option (ℕ × Container)) → map plain s.0 ≡ r.0
    → s.1 ≡ r.1
    → run (map plain (read_events s)) [] ≡ some []
unfolding read_events
read_run rounds hv (es, _) (settled {hp = hp} {held = held} {c = c} at e runs h1 h2 back)
      (events, none) same f =
    absurd (cc (e, f))
read_run rounds hv (es, o) (settled {hp = hp} {held = held} {c = c} at e runs h1 h2 back)
      (events, some (hp', c')) same f =
    let one : (hp', c') ≡ (hp, c) = some_eq (f ∙ e) in
    ap (λ l. run l []) (plain-append events _)
    ∙ ap₂ (λ a b. run (a ++ b) []) same (plain_exclusive (release c'))
    ∙ run-append es (release c') [] held runs
    ∙ ap (λ (x : ℕ × Container). run (release x.1) held) one
    ∙ back
read_run rounds hv (es, _) (still_changing all e runs) (events, some x) same f = absurd (cc (e, f))
read_run rounds hv (es, _) (still_changing all e runs) (events, none) same f =
    ap (λ l. run l []) same ∙ runs

mode_run : (c : ModeCall) → run (map plain (mode_events_of c)) [] ≡ some []
unfolding mode_events_of
mode_run (writes c) = ap (λ l. run l []) (plain_exclusive (events_of c)) ∙ run-events_of c
mode_run (reads rounds hv) =
    let (events, result) = plain_snapshot rounds hv in
    read_run rounds hv _ (snapshot_and_lock_two-Snapshot hv rounds)
      (snapshot_and_lock_two_shared rounds hv) events result

mode_run_all : (calls : List ModeCall) → run (map plain (mode_events_of_all calls)) [] ≡ some []
unfolding mode_events_of_all
mode_run_all [] = unfold run in refl
mode_run_all (c ∷ calls) =
    ap (λ l. run l []) (plain-append (mode_events_of c) (mode_events_of_all calls))
    ∙ run-append (map plain (mode_events_of c)) (map plain (mode_events_of_all calls)) [] []
        (mode_run c)
    ∙ mode_run_all calls

pub programs-AllOrderly :
    (programs : List (List ModeCall)) → AllOrderly (map plain_thread (map mode_thread_of programs))
programs-AllOrderly [] = tt
programs-AllOrderly (calls ∷ programs) = ((tt, mode_run_all calls), programs-AllOrderly programs)

plain_dropped :
    (l : ℕ) (held held' : List (Mode × ℕ))
    → drop_lock l held ≡ some held'
    → give_back l (locks_of held) ≡ some (locks_of held')
unfolding drop_lock give_back
plain_dropped l [] held' e = absurd (cc e)
plain_dropped l ((m, k) ∷ held) held' e = elim (Bool-cases (l == k)) [
  | inl f ↦ rw (give_back, f) (ap (λ h. some (locks_of h)) (some_eq (rw (drop_lock, f) at e)))
  | inr f ↦ elim (Option-cases (drop_lock l held)) [
    | inl g ↦ absurd (cc (rw (drop_lock, f, g) at e))
    | inr (rest, g) ↦
        rw (give_back, f, plain_dropped l held rest g)
          (ap (λ h. some (locks_of h)) (some_eq (rw (drop_lock, f, g) at e)))
  ]
]

moved-AllOrderly :
    {all a b : List ModeThread}
    → ModeMoves false all a b
    → AllOrderly (map plain_thread a)
    → AllOrderly (map plain_thread b)
moved-AllOrderly (takes {l = l} {held = held} {todo = todo} may) (o, rest) = (
  (
    (next_is_greater l (locks_of held) (map plain todo) o.0 o.1, o.0),
    run_taken l (locks_of held) (map plain todo) o.1,
  ),
  rest,
)
moved-AllOrderly (gives {l = l} {held = held} {held' = held'} {todo = todo} g) (o, rest) =
    let back = plain_dropped l held held' g in
    (
      (
        Descending-given l (locks_of held) (locks_of held') o.0 back,
        run_given l (locks_of held) (locks_of held') (map plain todo) o.1 back,
      ),
      rest,
    )
moved-AllOrderly (skips m) (o, rest) = (o, moved-AllOrderly m rest)

pub reached_in_order :
    {first a : List ModeThread}
    → ModeReachable first a
    → AllOrderly (map plain_thread first)
    → AllOrderly (map plain_thread a)
reached_in_order begun o = o
reached_in_order (moved r m) o = moved-AllOrderly m (reached_in_order r o)
