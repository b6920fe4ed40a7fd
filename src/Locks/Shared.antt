-- ===== src/Locks/Shared.antt =====
-- Locks that are held by one writer or by any number of readers: class `spinlock` of
-- libcuckoo/cuckoohash_map.hh over the reader-writer lock of the TBB library, and the two functions
-- that lock buckets for reading, `lock_two_shared` and `snapshot_and_lock_two_shared`.
pub mod Order
pub mod Waiting
pub mod Readers
use libcuckoo_cxx.Base.{
  ℕ, List, [], ◌∷◌, ◌++◌, map, Bool, true, false, Option, none, some, ◌==◌, if◌then◌else◌, ◌≡◌,
}
use libcuckoo_cxx.Hash.{lock_ind, index_hash, alt_index}
use libcuckoo_cxx.Locks.Calls.{LockCall, events_of}
use libcuckoo_cxx.Locks.Order.{holds}
use libcuckoo_cxx.Locks.{Event, lock, unlock, check_hashpower, Container, two, release, ordered}
use libcuckoo_cxx.Table.{HashValue}

pub data Mode : Type 0 where
  shared exclusive : Mode

-- `lock_shared` and `lock`; `unlock` is the same for both.
pub data ModeEvent : Type 0 where
  acquire : Mode → ℕ → ModeEvent
  give : ℕ → ModeEvent

abbrev pub as_exclusive : Event → ModeEvent
as_exclusive (lock l) = acquire exclusive l
as_exclusive (unlock l) = give l

unfoldable pub lock_two_shared : ℕ → ℕ → ℕ → ℕ → List ModeEvent × Option Container
lock_two_shared hp now i1 i2 =
    let (l1, l2) = ordered (lock_ind i1) (lock_ind i2) in
    let (checked, same) = check_hashpower hp now l1 in
    if same
    then (acquire shared l1 ∷ (if l2 == l1 then [] else acquire shared l2 ∷ []), some (two i1 i2))
    else (acquire shared l1 ∷ map as_exclusive checked, none)

-- The rounds of the loop, as in `snapshot_and_lock_two`.
unfoldable pub snapshot_and_lock_two_shared :
    List (ℕ × ℕ) → HashValue → List ModeEvent × Option (ℕ × Container)
snapshot_and_lock_two_shared [] hv = ([], none)
snapshot_and_lock_two_shared ((hp, now) ∷ rounds) hv =
    let i1 = index_hash hp hv.hash in
    let i2 = alt_index hp hv.partial i1 in
    let (events, result) = lock_two_shared hp now i1 i2 in
    let (later, later_result) = snapshot_and_lock_two_shared rounds hv in
    elim result [ some c ↦ (events, some (hp, c)) | none ↦ (events ++ later, later_result) ]

-- Calls that lock for writing, and `find` and `contains`, which read.
pub data ModeCall : Type 0 where
  writes : LockCall → ModeCall
  reads : List (ℕ × ℕ) → HashValue → ModeCall

-- The events of a call that reads, the end of its container included.
unfoldable pub read_events : List ModeEvent × Option (ℕ × Container) → List ModeEvent
read_events (events, none) = events
read_events (events, some (hp, c)) = events ++ map as_exclusive (release c)

unfoldable pub mode_events_of : ModeCall → List ModeEvent
mode_events_of (writes c) = map as_exclusive (events_of c)
mode_events_of (reads rounds hv) = read_events (snapshot_and_lock_two_shared rounds hv)

unfoldable pub mode_events_of_all : List ModeCall → List ModeEvent
mode_events_of_all [] = []
mode_events_of_all (c ∷ calls) = mode_events_of c ++ mode_events_of_all calls

-- A thread: the locks that it holds, each in its mode, and what it still has to do.
pub record ModeThread : Type 0 where
  pub held : List (Mode × ℕ)
  pub todo : List ModeEvent

abbrev pub mode_thread_of : List ModeCall → ModeThread
mode_thread_of calls = record { held = []; todo = mode_events_of_all calls }

abbrev pub locks_of : List (Mode × ℕ) → List ℕ
locks_of [] = []
locks_of ((m, l) ∷ held) = l ∷ locks_of held

abbrev pub exclusive_of : List (Mode × ℕ) → List ℕ
exclusive_of [] = []
exclusive_of ((shared, l) ∷ held) = exclusive_of held
exclusive_of ((exclusive, l) ∷ held) = l ∷ exclusive_of held

-- The thread is about to lock for writing, or waits to.
unfoldable pub awaits : ℕ → List ModeEvent → Bool
awaits l (acquire exclusive k ∷ todo) = l == k
awaits l _ = false

-- A writer waits until no one holds the lock, a reader until no writer does. TBB lets a writer that
-- waits go before the readers that come later. From when on a reader gives way is not code of the
-- repository, so there are two bounds of it: `false`, where it never does, and `true`, where it
-- gives way to every thread whose next event is to lock for writing.
abbrev pub MayTake : Bool → Mode → ℕ → List ModeThread → Type 0
MayTake gives_way m l [] = Unit
MayTake gives_way exclusive l (t ∷ threads) =
    (holds l (locks_of t.held) ≡ false) × MayTake gives_way exclusive l threads
MayTake false shared l (t ∷ threads) =
    (holds l (exclusive_of t.held) ≡ false) × MayTake false shared l threads
MayTake true shared l (t ∷ threads) =
    (holds l (exclusive_of t.held) ≡ false)
    × (awaits l t.todo ≡ false)
    × MayTake true shared l threads

unfoldable pub drop_lock : ℕ → List (Mode × ℕ) → Option (List (Mode × ℕ))
drop_lock l [] = none
drop_lock l ((m, k) ∷ held) =
    let rest = drop_lock l held in
    if l == k then some held else elim rest [ none ↦ none | some held' ↦ some ((m, k) ∷ held') ]

pub data ModeMoves (gives_way : Bool) (all : List ModeThread)
    : List ModeThread → List ModeThread → Type 0 where
  takes :
      {m : Mode} {l : ℕ} {held : List (Mode × ℕ)} {todo : List ModeEvent} {rest : List ModeThread}
      → MayTake gives_way m l all
      → ModeMoves gives_way all
          (record { held = held; todo = acquire m l ∷ todo } ∷ rest)
          (record { held = (m, l) ∷ held; todo = todo } ∷ rest)
  gives :
      {l : ℕ} {held held' : List (Mode × ℕ)} {todo : List ModeEvent} {rest : List ModeThread}
      → drop_lock l held ≡ some held'
      → ModeMoves gives_way all
          (record { held = held; todo = give l ∷ todo } ∷ rest)
          (record { held = held'; todo = todo } ∷ rest)
  skips :
      {t : ModeThread} {rest rest' : List ModeThread}
      → ModeMoves gives_way all rest rest'
      → ModeMoves gives_way all (t ∷ rest) (t ∷ rest')

-- What the lock of the library does lies between the two, so that these are all states that a run
-- may get to, and more.
pub data ModeReachable (first : List ModeThread) : List ModeThread → Type 0 where
  begun : ModeReachable first first
  moved :
      {a b : List ModeThread}
      → ModeReachable first a
      → ModeMoves false a a b
      → ModeReachable first b
