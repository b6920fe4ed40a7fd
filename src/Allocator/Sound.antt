-- ===== src/Allocator/Sound.antt =====
-- Every step of such a program keeps the blocks apart and the stored pointers intact.
use libcuckoo_cxx.Allocator.Room.{Inside, IsSmall, Beside, allocate-Allocated}
use libcuckoo_cxx.Allocator.Steps.{
  Removed, IsIn, Pointer, Program, Step, takes, writes, gives, Reachable, at_start, after, block_at,
  HeldIn, AllApart, IsSound,
}
use libcuckoo_cxx.Allocator.{
  Block, Apart, Every, Platform, PlatformLaws, Memory, allocate, deallocate,
}
use libcuckoo_cxx.Base.{
  ℕ, ◌+◌, ◌-◌, ◌*◌, ◌≤◌, ◌≡◌, refl, sym, ap, ap₂, ◌∙◌, subst, ◌⊎◌, inl, inr, List, [], ◌∷◌, map,
  some, arith,
}
use libcuckoo_cxx.Allocator.Blocks.{
  Removed-IsIn, gone_is_there, Every_at, map-IsIn, map_same, AllApart-Removed, same_or_Apart,
  map-Removed,
}

module _ ⦃M : Platform⦄ where
  open M use {value_size, alignment, pointer_size}

  abbrev pub nothing_held : (ℕ → ℕ) → Program
  nothing_held pointers = record { memory = record { pointers = pointers; blocks = [] }; held = [] }

  module _ (laws : PlatformLaws) where
    -- A block that is apart from that of `y` holds no part of the pointer stored before `y`.
    header_elsewhere :
        (pointers : ℕ → ℕ) (y : Pointer) (a : ℕ) (b : Block)
        → HeldIn pointers y
        → Apart b (block_at pointers y)
        → b.base ≤ a
        → a + pointer_size ≤ b.base + b.size
        → Beside a (y.address - pointer_size)
    header_elsewhere pointers y a b h (inl l) low high = inr (omega (arith, l, high, h.header))
    header_elsewhere pointers y a b h (inr r) low high =
        inl (omega (arith, r, low, h.header, h.values))

    block_at_kept :
        (pointers pointers' : ℕ → ℕ) (y : Pointer)
        → pointers (y.address - pointer_size) ≡ pointers' (y.address - pointer_size)
        → block_at pointers y ≡ block_at pointers' y
    unfolding deallocate
    block_at_kept pointers pointers' y e =
        ap (λ b. record { base = b; size = (block_at pointers y).size }) e

    IsSound-wrote :
        (m : Memory) (pointers : ℕ → ℕ) (held : List Pointer) (x : Pointer)
        → IsIn x held
        → ((a : ℕ)
            → (a + pointer_size ≤ x.address) ⊎ (x.address + x.count * value_size ≤ a)
            → pointers a ≡ m.pointers a)
        → IsSound (record { memory = m; held = held })
        → IsSound (record { memory = record m { pointers = pointers }; held = held })
    IsSound-wrote m pointers held x i outside sound =
        let same : (y : Pointer) → IsIn y held → block_at pointers y ≡ block_at m.pointers y =
          λ y j. block_at_kept pointers m.pointers y (
            outside _
              (elim (same_or_Apart (block_at m.pointers) x y held
                (subst AllApart (sym sound.blocks) sound.apart) i j) [
                  | inl e ↦
                      inl (
                        omega (arith, ap (λ (z : Pointer). z.address) e, (sound.inside y j).header))
                  | inr (inl l) ↦
                      inr (omega (arith, l, (sound.inside y j).header, (sound.inside x i).values))
                  | inr (inr r) ↦ inl (
                      omega (
                        arith,
                        r,
                        (sound.inside y j).header,
                        (sound.inside y j).values,
                        (sound.inside x i).header,
                      ))
                ])) in
        record {
          inside = λ y j. subst (Inside y.address y.count) (sym (same y j)) (sound.inside y j);
          blocks = map_same (block_at pointers) (block_at m.pointers) held same ∙ sound.blocks;
          apart = sound.apart;
        }

    IsSound-took :
        (m m' : Memory) (held : List Pointer) (n p : ℕ)
        → IsSmall n
        → allocate n m ≡ some (m', p)
        → IsSound (record { memory = m; held = held })
        → IsSound (record { memory = m'; held = record { address = p; count = n } ∷ held })
    IsSound-took m m' held n p small e sound =
        let a = allocate-Allocated laws n m small m' p e in
        let apart : Every (Apart a.block) m.blocks =
          laws.obtain_apart m.blocks a.block.size a.block.base a.obtained in
        let same : (y : Pointer) → IsIn y held → block_at m'.pointers y ≡ block_at m.pointers y =
          λ y j. block_at_kept m'.pointers m.pointers y (
            a.others _ (
              header_elsewhere m.pointers y (p - pointer_size) a.block (sound.inside y j)
                (Every_at (Apart a.block) _ m.blocks apart (
                  subst (IsIn (block_at m.pointers y)) sound.blocks
                    (map-IsIn (block_at m.pointers) y held j)))
                (omega (arith, a.inside.header))
                (omega (arith, a.inside.header, a.inside.values)))) in
        record {
          inside = λ y j. elim j [
            | inl new ↦
                subst (HeldIn m'.pointers) (sym new) (subst (Inside p n) (sym a.returned) a.inside)
            | inr old ↦ subst (Inside y.address y.count) (sym (same y old)) (sound.inside y old)
          ];
          blocks =
              ap₂ (λ b bs. b ∷ bs) a.returned
                (map_same (block_at m'.pointers) (block_at m.pointers) held same ∙ sound.blocks)
              ∙ sym a.more;
          apart = subst AllApart (sym a.more) (apart, sound.apart);
        }

    IsSound-gave :
        (m : Memory) (blocks : List Block) (held held' : List Pointer) (x : Pointer)
        → Removed x held held'
        → Removed (block_at m.pointers x) m.blocks blocks
        → IsSound (record { memory = m; held = held })
        → IsSound (record { memory = record m { blocks = blocks }; held = held' })
    IsSound-gave m blocks held held' x r s sound =
        let all : AllApart (map (block_at m.pointers) held) =
          subst AllApart (sym sound.blocks) sound.apart in
        record {
          inside = λ y j. sound.inside y (Removed-IsIn x y held held' r j);
          blocks =
              map-Removed (block_at m.pointers) x held held' blocks
                (let h = sound.inside x (gone_is_there x held held' r) in
                  omega (arith, h.header, h.values, laws.pointer_pos))
                all r
                (subst (λ bs. Removed (block_at m.pointers x) bs blocks) (sym sound.blocks) s);
          apart = AllApart-Removed _ m.blocks blocks sound.apart s;
        }

    -- the three steps
    Step-IsSound : (s s' : Program) → Step s s' → IsSound s → IsSound s'
    Step-IsSound _ _ (takes small e) sound = IsSound-took _ _ _ _ _ small e sound
    Step-IsSound _ _ (writes x i outside) sound = IsSound-wrote _ _ _ x i outside sound
    Step-IsSound _ _ (gives x r s) sound = IsSound-gave _ _ _ _ x r s sound

    Reachable-IsSound : (s s' : Program) → IsSound s → Reachable s s' → IsSound s'
    Reachable-IsSound s _ sound at_start = sound
    Reachable-IsSound s s' sound (after r step) =
        Step-IsSound _ s' step (Reachable-IsSound s _ sound r)

    -- Let `align` find the first aligned address that leaves room, let the allocator of `char`
    -- give blocks within the address space that do not overlap those in use, and let the sizes
    -- asked for not wrap; then in every state that a program reaches from nothing held by
    -- `allocate`, by writes into the values of its pointers and by `deallocate`, in any order, the
    -- blocks in use are one by one those that `deallocate` would hand back for the pointers held,
    -- with their sizes; no two of them overlap; and the values of each pointer are on an aligned
    -- address within its block, after the address of the block.
    pub nothing_held-IsSound :
        (pointers : ℕ → ℕ) (s : Program) → Reachable (nothing_held pointers) s → IsSound s
    nothing_held-IsSound pointers s r =
        Reachable-IsSound (nothing_held pointers) s
          (record { inside = λ x i. absurd i; blocks = refl; apart = tt }) r
