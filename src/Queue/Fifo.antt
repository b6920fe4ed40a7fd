-- ===== src/Queue/Fifo.antt =====
-- The circular array is a queue of at most 511 items: the abstract view is the list of its items.
use libcuckoo_cxx.Base.{
  ℕ, zero, suc, ◌+◌, ◌-◌, ◌%◌, ◌<◌, ◌≡◌, ◌≢◌, refl, ap, ap₂, subst, ◌∙◌, List, [], ◌∷◌, ◌++◌, true,
  false, arith, length, get_or, set, length-set, get_or-set_self, get_or-set_ne, length-replicate,
  ◌↔◌,
}
use libcuckoo_cxx.Base.Bits.{and_mask}
use libcuckoo_cxx.Config.{max_cuckoo_count}
use libcuckoo_cxx.Queue.{
  BSlot, BQueue, no_slot, increment, new_queue, enqueue, dequeue, empty, full,
}

increment_lem : (i : ℕ) → increment i ≡ (i + 1) % 512
unfolding increment
increment_lem i = and_mask 9 (i + 1)

-- The indices are in range.
pub record IsQueue (q : BQueue) : Type 0 where
  pub size : length q.slots ≡ max_cuckoo_count
  pub first_lt : q.first < max_cuckoo_count
  pub last_lt : q.last < max_cuckoo_count

-- `n` items from index `i` on, wrapping around.
items_from : List BSlot → ℕ → ℕ → List BSlot
items_from slots i zero = []
items_from slots i (suc n) = get_or slots i no_slot ∷ items_from slots (increment i) n

abbrev pub count : BQueue → ℕ
count q = (q.last + 512 - q.first) % 512

pub items : BQueue → List BSlot
items q = items_from q.slots q.first (count q)

length-items_from : (slots : List BSlot) (i n : ℕ) → length (items_from slots i n) ≡ n
unfolding items_from
length-items_from slots i zero = refl
length-items_from slots i (suc n) = ap suc (length-items_from slots (increment i) n)

items_from_snoc :
    (slots : List BSlot) (i n : ℕ)
    → i < 512
    → items_from slots i (suc n) ≡ items_from slots i n ++ get_or slots ((i + n) % 512) no_slot ∷ []
unfolding items_from
items_from_snoc slots i zero h = let e : (i + 0) % 512 ≡ i = omega arith in rw e
items_from_snoc slots i (suc n) h =
    let e : (increment i + n) % 512 ≡ (i + suc n) % 512 = omega (arith, increment_lem i) in
    ap (λ t. get_or slots i no_slot ∷ t)
      (subst
        (λ (t : ℕ).
          items_from slots (increment i) (suc n)
          ≡ items_from slots (increment i) n ++ get_or slots t no_slot ∷ [])
        e (items_from_snoc slots (increment i) n (omega (arith, increment_lem i))))

-- A write outside of the items is not seen.
items_from-set :
    (slots : List BSlot) (i n j : ℕ) (x : BSlot)
    → i < 512
    → ((d : ℕ) → d < n → j ≢ (i + d) % 512)
    → items_from (set slots j x) i n ≡ items_from slots i n
unfolding items_from
items_from-set slots i zero j x h away = refl
items_from-set slots i (suc n) j x h away =
    ap₂ ◌∷◌ (get_or-set_ne slots j i x no_slot (λ e. away 0 (omega arith) (omega arith))) (
      items_from-set slots (increment i) n j x (omega (arith, increment_lem i))
        (λ d lt e. away (suc d) (omega arith) (omega (arith, increment_lem i))))

pub new_queue-IsQueue : IsQueue new_queue × (items new_queue ≡ [])
unfolding new_queue items items_from
new_queue-IsQueue = (
  record { size = length-replicate 512 no_slot; first_lt = omega arith; last_lt = omega arith },
  refl,
)

enqueue-count :
    (q : BQueue) (x : BSlot) → IsQueue q → full q ≡ false → count (enqueue q x) ≡ suc (count q)
unfolding enqueue full
enqueue-count q x v room = ground (arith, increment_lem q.last)

-- The item is stored behind the others.
enqueue-snoc :
    (q : BQueue) (x : BSlot)
    → IsQueue q
    → items_from (set q.slots q.last x) q.first (suc (count q)) ≡ items q ++ x ∷ []
unfolding items
enqueue-snoc q x v =
    let at_last : (q.first + count q) % 512 ≡ q.last = omega arith in
    items_from_snoc (set q.slots q.last x) q.first (count q) v.first_lt
    ∙ ap₂ (λ a b. a ++ b ∷ [])
        (items_from-set q.slots q.first (count q) q.last x v.first_lt (λ d lt e. omega arith))
        (ap (λ (t : ℕ). get_or (set q.slots q.last x) t no_slot) at_last
          ∙ get_or-set_self q.slots q.last x no_slot (omega arith))

-- On a well-formed queue that is not full, `enqueue` keeps it well-formed and appends the item to
-- the list of items, the wrap-around of the array included.
pub enqueue-items :
    (q : BQueue) (x : BSlot)
    → IsQueue q
    → full q ≡ false
    → IsQueue (enqueue q x) × (items (enqueue q x) ≡ items q ++ x ∷ [])
unfolding enqueue items
enqueue-items q x v room = (
  record {
    size = length-set q.slots q.last x ∙ v.size;
    first_lt = v.first_lt;
    last_lt = omega (arith, increment_lem q.last);
  },
  ap (items_from (set q.slots q.last x) q.first) (enqueue-count q x v room) ∙ enqueue-snoc q x v,
)

dequeue-count : (q : BQueue) → IsQueue q → empty q ≡ false → count q ≡ suc (count (dequeue q).1)
unfolding dequeue empty
dequeue-count q v some_left = ground (arith, increment_lem q.first)

-- On a well-formed queue that is not empty, `dequeue` keeps it well-formed, returns the first item
-- and leaves the others.
pub dequeue-items :
    (q : BQueue)
    → IsQueue q
    → empty q ≡ false
    → IsQueue (dequeue q).1 × (items q ≡ (dequeue q).0 ∷ items (dequeue q).1)
unfolding dequeue items items_from
dequeue-items q v some_left = (
  record { size = v.size; first_lt = omega (arith, increment_lem q.first); last_lt = v.last_lt },
  ap (items_from q.slots q.first) (dequeue-count q v some_left),
)

-- A well-formed queue is full exactly if it holds 511 items.
pub full_iff : (q : BQueue) → IsQueue q → (full q ≡ true) ↔ (length (items q) ≡ 511)
unfolding full items
full_iff q v =
    let len = length-items_from q.slots q.first (count q) in
    (λ h. ground (arith, len, increment_lem q.last), λ h. ground (arith, len, increment_lem q.last))

pub empty_iff : (q : BQueue) → IsQueue q → (empty q ≡ true) ↔ (items q ≡ [])
unfolding empty items items_from
empty_iff q v =
    let len = length-items_from q.slots q.first (count q) in
    (
      λ h. let e : count q ≡ 0 = ground arith in ap (items_from q.slots q.first) e,
      λ h. ground (arith, len, ap length h),
    )
