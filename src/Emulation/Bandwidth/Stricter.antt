-- ===== src/Emulation/Bandwidth/Stricter.antt =====
-- emulation/src/bwsync.rs: `merge` keeps the stricter one of two equal flows.
use kollaps.Prelude.{
  ℕ, ◌≡◌, refl, sym, ap, ◌∙◌, inl, inr, Bool, true, false, not, ◌&&◌, ◌||◌, Option, none, some,
  is_some, List, [], ◌∷◌, ltb, min, if◌then◌else◌, arith, Bool-cases, Option-cases,
}
use kollaps.Netgraph.Link.{VertexEq}
use kollaps.Emulation.Flows.{Flow, by_flow}
use kollaps.Emulation.Sets.{
  holds, lookup, add, symmetric_difference, intersection, union, difference,
}
use kollaps.Emulation.Sets.Found.{
  first, first_none, lookup-add, lookup-append, lookup_cong, holds-lookup, lookup-beq,
  lookup-difference, holds-intersection, lookup-union,
}
use kollaps.Emulation.Bandwidth.{stricter, select_stricter, merge}

unfoldable pub authorized : {T : Type 0} → Option (Flow T) → Option ℕ
authorized none = none
authorized (some f) = some f.authorized_bandwidth

-- What a set authorizes a flow.
unfoldable pub allows : {T : Type 0} → VertexEq T → Flow T → List (Flow T) → Option ℕ
unfolding authorized
allows v a xs = authorized (lookup (by_flow v) a xs)

-- The least of the bounds that are there.
unfoldable pub least : Option ℕ → Option ℕ → Option ℕ
least none o = o
least (some x) none = some x
least (some x) (some y) = some (min x y)

or_right : (b c : Bool) → c ≡ true → (b || c) ≡ true
or_right b c e = ground arith

step :
    {A : Type 0} (before chosen : Option A) (s : A) (b c : Bool)
    → (b ≡ true → chosen ≡ some s)
    → first (first before (if b then some s else none)) (if c then chosen else none)
      ≡ first before (if b || c then chosen else none)
step (some x) chosen s b c h = refl
step none chosen s true c h = sym (h refl)
step none chosen s false c h = refl

beq_cong_left :
    {A : Type 0} (eqs : VertexEq A) (a b x : A) → eqs.beq a b ≡ true → eqs.beq a x ≡ eqs.beq b x
beq_cong_left eqs a b x e =
    ground (arith, eqs.beq_sym a b, eqs.beq_trans a b x, eqs.beq_trans b a x)

module _ {T : Type 0} (v : VertexEq T) (xs ys : List (Flow T)) where
  stricter_cong :
      (a b : Flow T) → (by_flow v).beq a b ≡ true → stricter v xs ys a ≡ stricter v xs ys b
  unfolding stricter
  stricter_cong a b e = rw (lookup_cong (by_flow v) a b xs e, lookup_cong (by_flow v) a b ys e)

  -- Where both sets have the flow, one of the two is chosen.
  stricter-some :
      (a : Flow T)
      → holds (by_flow v) a xs ≡ true
      → holds (by_flow v) a ys ≡ true
      → (s : Flow T) × (stricter v xs ys a ≡ some s)
        × ((by_flow v).beq s a ≡ true)
        × (some s.authorized_bandwidth ≡ least (allows v a xs) (allows v a ys))
  unfolding stricter allows least authorized
  stricter-some a h k =
      let in_xs = holds-lookup (by_flow v) a xs in
      let in_ys = holds-lookup (by_flow v) a ys in
      elim (Option-cases (lookup (by_flow v) a xs)) [
        | inl e ↦ let nothing = rw e at in_xs in cc
        | inr (x, e) ↦ elim (Option-cases (lookup (by_flow v) a ys)) [
          | inl f ↦ let nothing = rw f at in_ys in cc
          | inr (y, f) ↦ elim (Bool-cases (ltb x.authorized_bandwidth y.authorized_bandwidth)) [
            | inl low ↦
                let is : min x.authorized_bandwidth y.authorized_bandwidth
                    ≡ x.authorized_bandwidth =
                  ground arith in
                (
                  x,
                  rw (e, f, low) refl,
                  lookup-beq (by_flow v) a x xs e,
                  rw (e, f) (ap some (sym is)),
                )
            | inr high ↦
                let is : min x.authorized_bandwidth y.authorized_bandwidth
                    ≡ y.authorized_bandwidth =
                  ground arith in
                (
                  y,
                  rw (e, f, high) refl,
                  lookup-beq (by_flow v) a y ys f,
                  rw (e, f) (ap some (sym is)),
                )
          ]
        ]
      ]

  -- All keys are in both sets.
  AllBoth : List (Flow T) → Type 0
  AllBoth keys =
      (a : Flow T)
      → holds (by_flow v) a keys ≡ true
      → (holds (by_flow v) a xs ≡ true) × (holds (by_flow v) a ys ≡ true)

  select_stricter_lem :
      (keys acc : List (Flow T))
      → AllBoth keys
      → (result : List (Flow T)) × (select_stricter v xs ys keys acc ≡ some result)
        × ((a : Flow T)
            → lookup (by_flow v) a result
              ≡ first
                  (lookup (by_flow v) a acc)
                  (if holds (by_flow v) a keys then stricter v xs ys a else none))
  unfolding select_stricter AllBoth holds lookup add
  select_stricter_lem [] acc h = (acc, refl, λ a. sym (first_none _))
  select_stricter_lem (key ∷ keys) acc h =
      let self : holds (by_flow v) key (key ∷ keys) ≡ true = rw ((by_flow v).beq_refl key) refl in
      let (in_xs, in_ys) = h key self in
      let (s, es, same_key, _) = stricter-some key in_xs in_ys in
      let (result, er, found) =
        select_stricter_lem keys (add (by_flow v) s acc) (λ a k. h a (or_right _ _ k)) in
      (
        result,
        rw es er,
        λ a.
            let same : (by_flow v).beq s a ≡ (by_flow v).beq key a =
              beq_cong_left (by_flow v) s key a same_key in
            found a
            ∙ rw (lookup-add (by_flow v) a s acc, same)
                (step (lookup (by_flow v) a acc) (stricter v xs ys a) s ((by_flow v).beq key a)
                  (holds (by_flow v) a keys) (λ e. sym (stricter_cong key a e) ∙ es)),
      )

and_both : (b c : Bool) → (b && c) ≡ true → (b ≡ true) × (c ≡ true)
and_both true true e = (refl, refl)
and_both true false e = cc
and_both false c e = cc

and_false : (b : Bool) → (b && false) ≡ false
and_false true = refl
and_false false = refl

module _ {T : Type 0} (x y chosen : Option (Flow T)) where
  no_common :
      (hx hy : Bool)
      → (is_some (first (if not hy then x else none) (if not hx then y else none))
          && is_some (if hx && hy then chosen else none))
        ≡ false
  no_common true true = refl
  no_common true false = and_false _
  no_common false hy = and_false _

  both_or_one :
      (hx hy : Bool)
      → hx ≡ is_some x
      → hy ≡ is_some y
      → (hx ≡ true → hy ≡ true → authorized chosen ≡ least (authorized x) (authorized y))
      → authorized (
          first
            (first (if not hy then x else none) (if not hx then y else none))
            (if hx && hy then chosen else none))
        ≡ least (authorized x) (authorized y)
  unfolding authorized least
  both_or_one true true e f h = h refl refl
  both_or_one true false e f h = only_x x y e f
    where
      only_x :
          (x y : Option (Flow T))
          → true ≡ is_some x
          → false ≡ is_some y
          → authorized (first (first x none) none) ≡ least (authorized x) (authorized y)
      only_x none y e f = cc
      only_x (some a) none e f = refl
      only_x (some a) (some b) e f = cc
  both_or_one false true e f h = only_y x y e
    where
      only_y :
          (x y : Option (Flow T))
          → false ≡ is_some x
          → authorized (first (first none y) none) ≡ least (authorized x) (authorized y)
      only_y none none e = refl
      only_y none (some b) e = refl
      only_y (some a) y e = cc
  both_or_one false false e f h = neither x y e f
    where
      neither :
          (x y : Option (Flow T))
          → false ≡ is_some x
          → false ≡ is_some y
          → authorized (first (first x y) none) ≡ least (authorized x) (authorized y)
      neither none none e f = refl
      neither none (some b) e f = cc
      neither (some a) y e f = cc

module _ {T : Type 0} (v : VertexEq T) (xs ys : List (Flow T)) where
  lookup-symmetric_difference :
      (a : Flow T)
      → lookup (by_flow v) a (symmetric_difference (by_flow v) xs ys)
        ≡ first
            (if not (holds (by_flow v) a ys) then lookup (by_flow v) a xs else none)
            (if not (holds (by_flow v) a xs) then lookup (by_flow v) a ys else none)
  unfolding symmetric_difference
  lookup-symmetric_difference a =
      lookup-append (by_flow v) a (difference (by_flow v) xs ys) (difference (by_flow v) ys xs)
      ∙ ap (λ o. first o (lookup (by_flow v) a (difference (by_flow v) ys xs)))
          (lookup-difference (by_flow v) a xs ys)
      ∙ ap (first _) (lookup-difference (by_flow v) a ys xs)

  allows-stricter :
      (a : Flow T)
      → holds (by_flow v) a xs ≡ true
      → holds (by_flow v) a ys ≡ true
      → authorized (stricter v xs ys a) ≡ least (allows v a xs) (allows v a ys)
  unfolding authorized
  allows-stricter a h k = let (s, es, _, e) = stricter-some v xs ys a h k in ap authorized es ∙ e

  -- The union of what only one set has and of what was chosen.
  allows-union :
      (a : Flow T) (selected : List (Flow T))
      → lookup (by_flow v) a selected
        ≡ (if holds (by_flow v) a xs && holds (by_flow v) a ys then stricter v xs ys a else none)
      → allows v a (union (by_flow v) (symmetric_difference (by_flow v) xs ys) selected)
        ≡ least (allows v a xs) (allows v a ys)
  unfolding allows
  allows-union a selected chosen =
      let apart = symmetric_difference (by_flow v) xs ys in
      let one = lookup-symmetric_difference a in
      let common : (holds (by_flow v) a apart && holds (by_flow v) a selected) ≡ false =
        rw (holds-lookup (by_flow v) a apart, holds-lookup (by_flow v) a selected, one, chosen)
          (no_common (lookup (by_flow v) a xs) (lookup (by_flow v) a ys) (stricter v xs ys a) _
            _) in
      ap authorized (lookup-union (by_flow v) a apart selected common)
      ∙ rw (one, chosen)
          (both_or_one (lookup (by_flow v) a xs) (lookup (by_flow v) a ys) (stricter v xs ys a) _ _
            (holds-lookup (by_flow v) a xs) (holds-lookup (by_flow v) a ys) (allows-stricter a))

-- `merge` does not panic, and authorizes each flow the least that one of the two sets authorizes it:
-- a flow of one set only keeps its bandwidth.
pub merge_lem :
    {T : Type 0} (v : VertexEq T) (xs ys : List (Flow T))
    → (result : List (Flow T)) × (merge v xs ys ≡ some result)
      × ((a : Flow T) → allows v a result ≡ least (allows v a xs) (allows v a ys))
unfolding merge AllBoth lookup
merge_lem v xs ys =
    let keys = intersection (by_flow v) xs ys in
    let apart = symmetric_difference (by_flow v) xs ys in
    let both : AllBoth v xs ys keys =
      λ a h. and_both _ _ (sym (holds-intersection (by_flow v) a xs ys) ∙ h) in
    let (selected, es, chosen) = select_stricter_lem v xs ys keys [] both in
    (
      union (by_flow v) apart selected,
      rw es,
      λ a. allows-union v xs ys a selected (
          chosen a
          ∙ ap (λ (b : Bool). if b then stricter v xs ys a else none)
              (holds-intersection (by_flow v) a xs ys)),
    )
