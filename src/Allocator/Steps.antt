-- ===== src/Allocator/Steps.antt =====
-- A program that allocates, writes into what it has allocated, and gives it back, in any order.
use libcuckoo_cxx.Allocator.Room.{Inside, IsSmall}
use libcuckoo_cxx.Allocator.{Block, Apart, Every, Platform, Memory, allocate, deallocate}
use libcuckoo_cxx.Base.{ℕ, ◌+◌, ◌*◌, ◌≤◌, ◌≡◌, ◌⊎◌, List, [], ◌∷◌, map, some}

-- One element leaves a list, wherever it stands.
abbrev pub Removed : {A : Type 0} → A → List A → List A → Type 0
Removed a [] ys = ⊥
Removed {A} a (b ∷ xs) ys =
    ((a ≡ b) × (xs ≡ ys)) ⊎ ((zs : List A) × (ys ≡ b ∷ zs) × Removed a xs zs)

abbrev pub IsIn : {A : Type 0} → A → List A → Type 0
IsIn a [] = ⊥
IsIn a (b ∷ rest) = (a ≡ b) ⊎ IsIn a rest

abbrev pub AllApart : List Block → Type 0
AllApart [] = Unit
AllApart (b ∷ blocks) = Every (Apart b) blocks × AllApart blocks

-- What the program holds: pointers, each with the number of values asked for.
pub record Pointer : Type 0 where
  pub address : ℕ
  pub count : ℕ

pub record Program : Type 0 where
  pub memory : Memory
  pub held : List Pointer

module _ ⦃M : Platform⦄ where
  open M use {value_size, alignment, pointer_size}

  pub data Step : Program → Program → Type 0 where
    takes :
        {m m' : Memory} {held : List Pointer} {n p : ℕ}
        → IsSmall n
        → allocate n m ≡ some (m', p)
        → Step
            (record { memory = m; held = held })
            (record { memory = m'; held = record { address = p; count = n } ∷ held })
    -- no stored pointer changes but those that overlap the values written
    writes :
        {m : Memory} {pointers : ℕ → ℕ} {held : List Pointer} (x : Pointer)
        → IsIn x held
        → ((a : ℕ)
            → (a + pointer_size ≤ x.address) ⊎ (x.address + x.count * value_size ≤ a)
            → pointers a ≡ m.pointers a)
        → Step
            (record { memory = m; held = held })
            (record { memory = record m { pointers = pointers }; held = held })
    -- the allocator of `char` gets its block back
    gives :
        {m : Memory} {blocks : List Block} {held held' : List Pointer} (x : Pointer)
        → Removed x held held'
        → Removed (deallocate m.pointers x.address x.count) m.blocks blocks
        → Step
            (record { memory = m; held = held })
            (record { memory = record m { blocks = blocks }; held = held' })

  pub data Reachable (start : Program) : Program → Type 0 where
    at_start : Reachable start start
    after : {a b : Program} → Reachable start a → Step a b → Reachable start b

  -- The block of each pointer, by what `deallocate` would hand back.
  abbrev pub block_at : (ℕ → ℕ) → Pointer → Block
  block_at pointers x = deallocate pointers x.address x.count

  abbrev pub HeldIn : (ℕ → ℕ) → Pointer → Type 0
  HeldIn pointers x = Inside x.address x.count (block_at pointers x)

  -- The pointers held are the blocks in use, one by one; each holds its values, and no two of them
  -- overlap.
  pub record IsSound (s : Program) : Type 0 where
    pub inside : (x : Pointer) → IsIn x s.held → HeldIn s.memory.pointers x
    pub blocks : map (block_at s.memory.pointers) s.held ≡ s.memory.blocks
    pub apart : AllApart s.memory.blocks
