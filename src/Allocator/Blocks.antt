-- ===== src/Allocator/Blocks.antt =====
-- Lists of blocks that are apart, and elements that leave a list.
use libcuckoo_cxx.Allocator.Steps.{Removed, IsIn, AllApart}
use libcuckoo_cxx.Allocator.{Block, Apart, Every}
use libcuckoo_cxx.Base.{
  ◌<◌, ◌≡◌, refl, sym, ap, ap₂, ◌∙◌, subst, ◌⊎◌, inl, inr, List, [], ◌∷◌, map, arith,
}

module _ {A : Type 0} where
  pub Removed-IsIn : (a b : A) (xs ys : List A) → Removed a xs ys → IsIn b ys → IsIn b xs
  Removed-IsIn a b [] ys r i = r
  Removed-IsIn a b (x ∷ xs) ys (inl (_, e)) i = inr (subst (IsIn b) (sym e) i)
  Removed-IsIn a b (x ∷ xs) ys (inr (zs, e, r)) i = elim (subst (IsIn b) e i) [
    | inl same ↦ inl same
    | inr more ↦ inr (Removed-IsIn a b xs zs r more)
  ]

  pub gone_is_there : (a : A) (xs ys : List A) → Removed a xs ys → IsIn a xs
  gone_is_there a [] ys r = r
  gone_is_there a (x ∷ xs) ys (inl (e, _)) = inl e
  gone_is_there a (x ∷ xs) ys (inr (zs, _, r)) = inr (gone_is_there a xs zs r)

  pub Every_at : (P : A → Type 0) (a : A) (xs : List A) → Every P xs → IsIn a xs → P a
  Every_at P a [] all i = absurd i
  Every_at P a (x ∷ xs) (p, all) (inl e) = subst P (sym e) p
  Every_at P a (x ∷ xs) (p, all) (inr more) = Every_at P a xs all more

  pub Every-Removed :
      (P : A → Type 0) (a : A) (xs ys : List A) → Every P xs → Removed a xs ys → Every P ys
  Every-Removed P a [] ys all r = absurd r
  Every-Removed P a (x ∷ xs) ys (p, all) (inl (_, e)) = subst (Every P) e all
  Every-Removed P a (x ∷ xs) ys (p, all) (inr (zs, e, r)) =
      subst (Every P) (sym e) (p, Every-Removed P a xs zs all r)

  pub map-IsIn : {B : Type 0} (f : A → B) (a : A) (xs : List A) → IsIn a xs → IsIn (f a) (map f xs)
  map-IsIn f a [] i = i
  map-IsIn f a (x ∷ xs) (inl e) = inl (ap f e)
  map-IsIn f a (x ∷ xs) (inr more) = inr (map-IsIn f a xs more)

  pub map_same :
      {B : Type 0} (f g : A → B) (xs : List A)
      → ((x : A) → IsIn x xs → f x ≡ g x)
      → map f xs ≡ map g xs
  map_same f g [] same = refl
  map_same f g (x ∷ xs) same =
      ap₂ (λ y ys. y ∷ ys) (same x (inl refl)) (map_same f g xs (λ y i. same y (inr i)))

pub AllApart-Removed :
    (b : Block) (bs cs : List Block) → AllApart bs → Removed b bs cs → AllApart cs
AllApart-Removed b [] cs all r = absurd r
AllApart-Removed b (x ∷ bs) cs (p, all) (inl (_, e)) = subst AllApart e all
AllApart-Removed b (x ∷ bs) cs (p, all) (inr (ds, e, r)) =
    subst AllApart (sym e) (Every-Removed (Apart x) b bs ds p r, AllApart-Removed b bs ds all r)

pub Apart-symm : (a b : Block) → Apart a b → Apart b a
Apart-symm a b (inl l) = inr l
Apart-symm a b (inr r) = inl r

module _ {A : Type 0} (f : A → Block) where
  -- Two members are the same or have blocks that are apart.
  pub same_or_Apart :
      (x y : A) (xs : List A)
      → AllApart (map f xs)
      → IsIn x xs
      → IsIn y xs
      → (x ≡ y) ⊎ Apart (f x) (f y)
  same_or_Apart x y [] all i j = absurd i
  same_or_Apart x y (a ∷ xs) all (inl e) (inl d) = inl (e ∙ sym d)
  same_or_Apart x y (a ∷ xs) all (inl e) (inr j) = inr (
      subst (λ z. Apart (f z) (f y)) (sym e)
        (Every_at (Apart (f a)) (f y) (map f xs) all.0 (map-IsIn f y xs j)))
  same_or_Apart x y (a ∷ xs) all (inr i) (inl d) = inr (
      subst (λ z. Apart (f x) (f z)) (sym d)
        (Apart-symm (f a) (f x)
          (Every_at (Apart (f a)) (f x) (map f xs) all.0 (map-IsIn f x xs i))))
  same_or_Apart x y (a ∷ xs) all (inr i) (inr j) = same_or_Apart x y xs all.1 i j

  pub not_twice :
      (x : A) (xs : List A) → 0 < (f x).size → Every (Apart (f x)) (map f xs) → IsIn x xs → ⊥
  not_twice x xs pos all i =
      elim (Every_at (Apart (f x)) (f x) (map f xs) all (map-IsIn f x xs i)) [
        | inl l ↦ omega (arith, pos, l)
        | inr r ↦ omega (arith, pos, r)
      ]

  -- The block that goes is the one of the member that goes.
  pub map-Removed :
      (x : A) (xs ys : List A) (bs : List Block)
      → 0 < (f x).size
      → AllApart (map f xs)
      → Removed x xs ys
      → Removed (f x) (map f xs) bs
      → map f ys ≡ bs
  map-Removed x [] ys bs pos all r s = absurd r
  map-Removed x (a ∷ xs) ys bs pos all (inl (_, e)) (inl (_, d)) = ap (map f) (sym e) ∙ d
  map-Removed x (a ∷ xs) ys bs pos all (inl (e, _)) (inr (cs, _, s)) =
      absurd
        (elim (Every_at (Apart (f a)) (f x) (map f xs) all.0
          (gone_is_there (f x) (map f xs) cs s)) [
            | inl l ↦ omega (arith, pos, l, ap (λ z. (f z).size) e, ap (λ z. (f z).base) e)
            | inr r ↦ omega (arith, pos, r, ap (λ z. (f z).size) e, ap (λ z. (f z).base) e)
          ])
  map-Removed x (a ∷ xs) ys bs pos all (inr (zs, _, r)) (inl (d, _)) = absurd (
      not_twice x xs pos (subst (λ b. Every (Apart b) (map f xs)) (sym d) all.0)
        (gone_is_there x xs zs r))
  map-Removed x (a ∷ xs) ys bs pos all (inr (zs, e, r)) (inr (cs, d, s)) =
      ap (map f) e ∙ ap (λ l. f a ∷ l) (map-Removed x xs zs cs pos all.1 r s) ∙ sym d
