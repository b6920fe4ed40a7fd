-- ===== src/LockedTable.antt =====
-- `locked_table` of libcuckoo/cuckoohash_map.hh and its iterators.
pub mod Steps
pub mod Pairs
pub mod Traversal
pub mod Back
pub mod Store
use libcuckoo_cxx.Base.{
  ℕ, zero, suc, ◌-◌, List, Bool, true, false, not, ◌&&◌, ◌||◌, Option, none, some, length, set,
  ◌==◌, if◌then◌else◌, [],
}
use libcuckoo_cxx.Bucket
use libcuckoo_cxx.Bucket.{Bucket, set_val}
use libcuckoo_cxx.Locks.{Event, unlock_all}
use libcuckoo_cxx.Params.{Params}
use libcuckoo_cxx.Table.{bucket, Result, returned, thrown, runtime_error}

-- The pointer to the boolean that a locked table shares with its iterators, which a move resets.
-- The boolean itself, `owned` below, is handed from call to call.
pub record LockedTable : Type 0 where
  pub has_pointer : Bool

-- An iterator: `index_` and `slot_`. Both are below zero only within the loops of `++` and `--`.
pub record Iterator : Type 0 where
  pub index : ℕ
  pub slot : ℕ

-- `lock_table` once all locks are taken: the locked table and the new boolean.
unfoldable pub lock_table : LockedTable × Bool
lock_table = (record { has_pointer = true }, true)

unfoldable pub has_table_lock : LockedTable → Bool → Bool
has_table_lock lt owned = lt.has_pointer && owned

-- `release`, with `n` locks: what happens to the locks, and the boolean after it.
unfoldable pub release : ℕ → LockedTable → Bool → List Event × Bool
release n lt owned = if has_table_lock lt owned then (unlock_all 0 n, false) else ([], owned)

-- The move constructor: the new locked table, and what is left of the old one.
unfoldable pub move_locked_table : LockedTable → LockedTable × LockedTable
move_locked_table lt = (lt, record { has_pointer = false })

-- `operator==` on iterators of one table.
unfoldable pub same_position : Bool → Iterator → Iterator → Bool
same_position owned a b = owned && (a.index == b.index) && (a.slot == b.slot)

-- The move assignment, onto a locked table with `n` locks: the locks that it gives back and its old
-- boolean, then both locked tables. The boolean of `other` goes with its pointer.
unfoldable pub assign_locked_table :
    ℕ → LockedTable → Bool → LockedTable → (List Event × Bool) × (LockedTable × LockedTable)
assign_locked_table n lt owned other = (release n lt owned, move_locked_table other)

-- `operator!=`
unfoldable pub other_position : Bool → Iterator → Iterator → Bool
other_position owned a b = not (same_position owned a b)

module _ ⦃P : Params⦄ where
  open P use {Key, Mapped, slot_per_bucket}

  unfoldable pub end_pos : List Bucket → Iterator
  end_pos bs = record { index = length bs; slot = 0 }

  -- `operator*`
  unfoldable pub dereference : List Bucket → Bool → Iterator → Result (Option (Key × Mapped))
  dereference bs owned it =
      if owned then returned (Bucket.kvpair (bucket bs it.index) it.slot) else thrown runtime_error

  -- The inner loop of `operator++`, where `slot_ + 1` is `next` and `left` slots are to go.
  unfoldable pub next_slot : Bucket → ℕ → ℕ → Option ℕ
  next_slot b zero next = none
  next_slot b (suc left) next =
      let rest = next_slot b left (suc next) in if Bucket.occupied b next then some next else rest

  -- The outer loop, with `left` buckets to go.
  unfoldable pub advance : List Bucket → ℕ → ℕ → ℕ → Iterator
  advance bs zero index next = end_pos bs
  advance bs (suc left) index next =
      elim (next_slot (bucket bs index) (slot_per_bucket - next) next) [
        | some slot ↦ record { index = index; slot = slot }
        | none ↦ advance bs left (suc index) 0
      ]

  -- `operator++` and `operator--` once `check_iterator` has passed.
  unfoldable pub step_forward : List Bucket → Iterator → Iterator
  step_forward bs it = advance bs (length bs - it.index) it.index (suc it.slot)

  -- The inner loop of `operator--` below the slot `slot_`.
  unfoldable pub previous_slot : Bucket → ℕ → Option ℕ
  previous_slot b zero = none
  previous_slot b (suc slot) =
      let rest = previous_slot b slot in if Bucket.occupied b slot then some slot else rest

  unfoldable pub retreat : List Bucket → ℕ → ℕ → Iterator
  retreat bs zero slot = elim (previous_slot (bucket bs 0) slot) [
    | some s ↦ record { index = 0; slot = s }
    | none ↦ end_pos bs
  ]
  retreat bs (suc index) slot = elim (previous_slot (bucket bs (suc index)) slot) [
    | some s ↦ record { index = suc index; slot = s }
    | none ↦ retreat bs index slot_per_bucket
  ]

  unfoldable pub step_back : List Bucket → Iterator → Iterator
  step_back bs it = retreat bs it.index it.slot

  unfoldable pub increment : List Bucket → Bool → Iterator → Result Iterator
  increment bs owned it = if owned then returned (step_forward bs it) else thrown runtime_error

  unfoldable pub decrement : List Bucket → Bool → Iterator → Result Iterator
  decrement bs owned it = if owned then returned (step_back bs it) else thrown runtime_error

  -- The postfix operators: the new position, and the old one that they return.
  unfoldable pub post_increment : List Bucket → Bool → Iterator → Result (Iterator × Iterator)
  post_increment bs owned it = elim (increment bs owned it) [
    | returned next ↦ returned (next, it)
    | thrown e ↦ thrown e
  ]

  unfoldable pub post_decrement : List Bucket → Bool → Iterator → Result (Iterator × Iterator)
  post_decrement bs owned it = elim (decrement bs owned it) [
    | returned previous ↦ returned (previous, it)
    | thrown e ↦ thrown e
  ]

  -- A store of a value through the reference of the mutable `operator*`, `(*it).second = value`.
  unfoldable pub store_value : List Bucket → Bool → Iterator → Mapped → Result (List Bucket)
  store_value bs owned it value =
      if owned
      then returned (set bs it.index (set_val (bucket bs it.index) it.slot value))
      else thrown runtime_error

  -- The private constructor of an iterator.
  unfoldable pub make_iterator : List Bucket → Iterator → Iterator
  make_iterator bs it =
      let at_end = (it.index == (end_pos bs).index) && (it.slot == (end_pos bs).slot) in
      if at_end || Bucket.occupied (bucket bs it.index) it.slot then it else step_forward bs it

  unfoldable pub begin : List Bucket → LockedTable → Bool → Result Iterator
  begin bs lt owned =
      if has_table_lock lt owned
      then returned (make_iterator bs (record { index = 0; slot = 0 }))
      else thrown runtime_error

  unfoldable pub end : List Bucket → LockedTable → Bool → Result Iterator
  end bs lt owned =
      if has_table_lock lt owned
      then returned (make_iterator bs (end_pos bs))
      else thrown runtime_error
