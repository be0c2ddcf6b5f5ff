-- ===== src/Emulation/Sets/Found.antt =====
-- Which member `HashSet::get` finds after an operation.
use kollaps.Prelude.{
  ◌≡◌, refl, sym, ap, ◌∙◌, inl, inr, Bool, true, false, not, ◌&&◌, Option, none, some, is_some,
  List, [], ◌∷◌, ◌++◌, leb, length, if◌then◌else◌, Bool-cases,
}
use mathlib.Core.Option.{some-injective}
use kollaps.Netgraph.Link.{VertexEq}
use kollaps.Emulation.Sets.{filter, holds, lookup, add, difference, intersection, union}
use kollaps.Emulation.Sets.Members.{beq_cong, holds_cong}

-- The first of the two that is there.
abbrev pub first : {A : Type 0} → Option A → Option A → Option A
first none o = o
first (some a) o = some a

pub first_none : {A : Type 0} (o : Option A) → first o none ≡ o
first_none none = refl
first_none (some a) = refl

module _ {A : Type 0} (eqs : VertexEq A) where
  pub lookup-append :
      (a : A) (xs ys : List A) → lookup eqs a (xs ++ ys) ≡ first (lookup eqs a xs) (lookup eqs a ys)
  unfolding lookup
  lookup-append a [] ys = refl
  lookup-append a (x ∷ xs) ys = elim (Bool-cases (eqs.beq x a)) [
    | inl same ↦ rw same
    | inr other ↦ rw other (lookup-append a xs ys)
  ]

  pub lookup_cong : (a b : A) (xs : List A) → eqs.beq a b ≡ true → lookup eqs a xs ≡ lookup eqs b xs
  unfolding lookup
  lookup_cong a b [] e = refl
  lookup_cong a b (x ∷ xs) e = rw (beq_cong eqs a b x e, lookup_cong a b xs e)

  pub holds-lookup : (a : A) (xs : List A) → holds eqs a xs ≡ is_some (lookup eqs a xs)
  unfolding lookup holds
  holds-lookup a [] = refl
  holds-lookup a (x ∷ xs) = elim (Bool-cases (eqs.beq x a)) [
    | inl same ↦ rw same
    | inr other ↦ rw other (holds-lookup a xs)
  ]

  pub lookup-beq : (a x : A) (xs : List A) → lookup eqs a xs ≡ some x → eqs.beq x a ≡ true
  unfolding lookup
  lookup-beq a x [] h = cc
  lookup-beq a x (y ∷ xs) h = elim (Bool-cases (eqs.beq y a)) [
    | inl same ↦ let is = some-injective _ _ (rw same at h) in rw (← is) same
    | inr other ↦ lookup-beq a x xs (rw other at h)
  ]

  -- A test that equal members pass together.
  lookup-filter :
      (p : A → Bool) (a : A) (xs : List A)
      → ((x : A) → eqs.beq x a ≡ true → p x ≡ p a)
      → lookup eqs a (filter p xs) ≡ (if p a then lookup eqs a xs else none)
  unfolding filter lookup
  lookup-filter p a [] h = elim (Bool-cases (p a)) [ inl t ↦ rw t | inr f ↦ rw f ]
  lookup-filter p a (x ∷ xs) h =
      let rest = lookup-filter p a xs h in
      elim (Bool-cases (eqs.beq x a)) [
        | inl same ↦ elim (Bool-cases (p a)) [
          | inl t ↦ rw (h x same, t, same)
          | inr f ↦ rw (h x same, f) (rest ∙ rw f)
        ]
        | inr other ↦ elim (Bool-cases (p x)) [
          | inl kept ↦ rw (kept, other) rest
          | inr gone ↦ rw (gone, other) rest
        ]
      ]

  pub lookup-difference :
      (a : A) (xs ys : List A)
      → lookup eqs a (difference eqs xs ys)
        ≡ (if not (holds eqs a ys) then lookup eqs a xs else none)
  unfolding difference
  lookup-difference a xs ys =
      lookup-filter (λ x. not (holds eqs x ys)) a xs (λ x e. ap not (holds_cong eqs x a ys e))

  pub holds-intersection :
      (a : A) (xs ys : List A)
      → holds eqs a (intersection eqs xs ys) ≡ (holds eqs a xs && holds eqs a ys)
  unfolding intersection
  holds-intersection a xs ys =
      let one = lookup-filter (λ x. holds eqs x ys) a xs (λ x e. holds_cong eqs x a ys e) in
      let two = lookup-filter (λ x. holds eqs x xs) a ys (λ x e. holds_cong eqs x a xs e) in
      let in_xs = holds-lookup a xs in
      let in_ys = holds-lookup a ys in
      elim (Bool-cases (leb (length xs) (length ys))) [
        | inl t ↦ rw t (
            holds-lookup a _
            ∙ ap is_some one
            ∙ swapped (holds eqs a xs) (holds eqs a ys) (lookup eqs a xs) in_xs)
        | inr f ↦ rw f (
            holds-lookup a _
            ∙ ap is_some two
            ∙ kept (holds eqs a xs) (holds eqs a ys) (lookup eqs a ys) in_ys)
      ]
    where
      swapped :
          (b c : Bool) (o : Option A) → b ≡ is_some o → is_some (if c then o else none) ≡ (b && c)
      swapped true true o e = sym e
      swapped true false o e = refl
      swapped false true o e = sym e
      swapped false false o e = refl

      kept :
          (b c : Bool) (o : Option A) → c ≡ is_some o → is_some (if b then o else none) ≡ (b && c)
      kept true c o e = sym e
      kept false c o e = refl

  pub lookup-add :
      (a b : A) (xs : List A)
      → lookup eqs a (add eqs b xs) ≡ first (lookup eqs a xs) (if eqs.beq b a then some b else none)
  unfolding add lookup
  lookup-add a b xs =
      let in_xs = holds-lookup a xs in
      elim (Bool-cases (eqs.beq b a)) [
        | inr other ↦ elim (Bool-cases (holds eqs b xs)) [
          | inl there ↦ rw (other, there) (sym (first_none _))
          | inr absent ↦ rw (other, absent, other) (sym (first_none _))
        ]
        | inl same ↦ elim (Bool-cases (holds eqs b xs)) [
          | inl there ↦
              rw (same, there)
                (kept (lookup eqs a xs) (sym in_xs ∙ sym (holds_cong eqs b a xs same) ∙ there))
          | inr absent ↦
              rw (same, absent, same)
                (new (lookup eqs a xs) (sym in_xs ∙ sym (holds_cong eqs b a xs same) ∙ absent))
        ]
      ]
    where
      kept : (o : Option A) → is_some o ≡ true → o ≡ first o (some b)
      kept none e = cc
      kept (some x) e = refl

      new : (o : Option A) → is_some o ≡ false → some b ≡ first o (some b)
      new none e = refl
      new (some x) e = cc

  -- Of two sets without a common member.
  pub lookup-union :
      (a : A) (xs ys : List A)
      → (holds eqs a xs && holds eqs a ys) ≡ false
      → lookup eqs a (union eqs xs ys) ≡ first (lookup eqs a xs) (lookup eqs a ys)
  unfolding union
  lookup-union a xs ys h =
      let in_xs = holds-lookup a xs in
      let in_ys = holds-lookup a ys in
      elim (Bool-cases (leb (length ys) (length xs))) [
        | inl t ↦ rw t (
            lookup-append a xs (difference eqs ys xs)
            ∙ ap (first (lookup eqs a xs)) (lookup-difference a ys xs)
            ∙ after (lookup eqs a xs) (lookup eqs a ys) (holds eqs a xs) in_xs)
        | inr f ↦ rw f (
            lookup-append a ys (difference eqs xs ys)
            ∙ ap (first (lookup eqs a ys)) (lookup-difference a xs ys)
            ∙ before (lookup eqs a xs) (lookup eqs a ys) (holds eqs a xs) (holds eqs a ys) in_xs
                in_ys h)
      ]
    where
      after :
          (o r : Option A) (b : Bool)
          → b ≡ is_some o
          → first o (if not b then r else none) ≡ first o r
      after none r true e = cc
      after none r false e = refl
      after (some x) r b e = refl

      before :
          (o r : Option A) (b c : Bool)
          → b ≡ is_some o
          → c ≡ is_some r
          → (b && c) ≡ false
          → first r (if not c then o else none) ≡ first o r
      before none none b true e f h = cc
      before none none b false e f h = refl
      before none (some y) b c e f h = refl
      before (some x) none b true e f h = cc
      before (some x) none b false e f h = refl
      before (some x) (some y) b c e f h = cc
