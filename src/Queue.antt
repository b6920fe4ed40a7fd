-- ===== src/Queue.antt =====
-- `b_slot` and the circular `b_queue` of libcuckoo/cuckoohash_map.hh.
pub mod Fifo
use libcuckoo_cxx.Base.{ℕ, ◌+◌, ◌-◌, List, Bool, bit_and, get_or, set, replicate, ◌==◌}
use libcuckoo_cxx.Config.{max_cuckoo_count}

-- A depth of -1 is the failure value of `slot_search`, which returns `none` here.
pub record BSlot : Type 0 where
  pub bucket : ℕ
  pub pathcode : ℕ
  pub depth : ℕ

pub record BQueue : Type 0 where
  pub slots : List BSlot
  pub first : ℕ
  pub last : ℕ

-- What the elements of an array that was never written read as.
abbrev pub no_slot : BSlot
no_slot = record { bucket = 0; pathcode = 0; depth = 0 }

unfoldable pub increment : ℕ → ℕ
increment ind = bit_and (ind + 1) (max_cuckoo_count - 1)

unfoldable pub new_queue : BQueue
new_queue = record { slots = replicate max_cuckoo_count no_slot; first = 0; last = 0 }

unfoldable pub enqueue : BQueue → BSlot → BQueue
enqueue q x = record q { slots = set q.slots q.last x; last = increment q.last }

unfoldable pub dequeue : BQueue → BSlot × BQueue
dequeue q = (get_or q.slots q.first no_slot, record q { first = increment q.first })

unfoldable pub empty : BQueue → Bool
empty q = q.first == q.last

unfoldable pub full : BQueue → Bool
full q = increment q.last == q.first
