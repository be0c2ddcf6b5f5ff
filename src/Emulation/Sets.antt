-- ===== src/Emulation/Sets.antt =====
-- The standard library's `HashSet`, as emulation/src uses it: a list that is read up to an equality,
-- in whatever order it is iterated.
pub mod Members
pub mod Found
use package.kollaps.Prelude.{
  ℕ, ◌≡◌, refl, ◌∙◌, sym, inl, inr, Bool, true, false, not, ◌||◌, Option, none, some, List, [], ◌∷◌,
  ◌++◌, leb, if◌then◌else◌, length, arith, Bool-cases,
}
use package.kollaps.Netgraph.Link.{VertexEq}

module _ {A : Type 0} where
  unfoldable pub filter : (A → Bool) → List A → List A
  filter p [] = []
  filter p (x ∷ xs) = let rest = filter p xs in if p x then x ∷ rest else rest

module _ {A : Type 0} (eqs : VertexEq A) where
  -- `contains`, `get`, `insert`, `remove` and `replace`
  unfoldable pub holds : A → List A → Bool
  holds a [] = false
  holds a (x ∷ xs) = eqs.beq x a || holds a xs

  unfoldable pub lookup : A → List A → Option A
  lookup a [] = none
  lookup a (x ∷ xs) = if eqs.beq x a then some x else lookup a xs

  unfoldable pub add : A → List A → List A
  unfolding holds
  add a xs = if holds a xs then xs else a ∷ xs

  unfoldable pub drop_all : A → List A → List A
  drop_all a [] = []
  drop_all a (x ∷ xs) = let rest = drop_all a xs in if eqs.beq x a then rest else x ∷ rest

  unfoldable pub replace : A → List A → List A
  replace a [] = a ∷ []
  replace a (x ∷ xs) = if eqs.beq x a then a ∷ xs else x ∷ replace a xs

  unfoldable pub difference : List A → List A → List A
  unfolding filter holds
  difference xs ys = filter (λ x. not (holds x ys)) xs

  unfoldable pub symmetric_difference : List A → List A → List A
  unfolding difference
  symmetric_difference xs ys = difference xs ys ++ difference ys xs

  -- The members of the smaller set.
  unfoldable pub intersection : List A → List A → List A
  unfolding filter holds
  intersection xs ys =
      if leb (length xs) (length ys)
      then filter (λ x. holds x ys) xs
      else filter (λ y. holds y xs) ys

  -- The members of the larger set come first.
  unfoldable pub union : List A → List A → List A
  unfolding difference
  union xs ys =
      if leb (length ys) (length xs) then xs ++ difference ys xs else ys ++ difference xs ys
