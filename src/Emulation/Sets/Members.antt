-- ===== src/Emulation/Sets/Members.antt =====
-- Which members the operations of a `HashSet` leave.
use kollaps.Prelude.{
  ◌≤◌, ◌<◌, ◌≡◌, refl, sym, ◌∙◌, inl, inr, Bool, true, false, not, ◌&&◌, ◌||◌, List, [], ◌∷◌,
  length, arith, Bool-cases,
}
use kollaps.Netgraph.Link.{VertexEq}
use kollaps.Emulation.Sets.{filter, holds, add, drop_all, replace, difference}

module _ {A : Type 0} (eqs : VertexEq A) where
  pub beq_cong : (a b x : A) → eqs.beq a b ≡ true → eqs.beq x a ≡ eqs.beq x b
  beq_cong a b x e =
      let back = eqs.beq_sym a b e in
      elim (Bool-cases (eqs.beq x a)) [
        | inl t ↦ t ∙ sym (eqs.beq_trans x a b t e)
        | inr f ↦ elim (Bool-cases (eqs.beq x b)) [
          | inl t ↦ let other = eqs.beq_trans x b a t back in cc
          | inr g ↦ f ∙ sym g
        ]
      ]

  pub holds_cong : (a b : A) (xs : List A) → eqs.beq a b ≡ true → holds eqs a xs ≡ holds eqs b xs
  unfolding holds
  holds_cong a b [] e = refl
  holds_cong a b (x ∷ xs) e = rw (beq_cong a b x e, holds_cong a b xs e)

  pub holds-add :
      (a b : A) (xs : List A) → holds eqs a (add eqs b xs) ≡ (eqs.beq b a || holds eqs a xs)
  unfolding add holds
  holds-add a b xs = elim (Bool-cases (holds eqs b xs)) [
    | inr absent ↦ rw absent
    | inl there ↦ elim (Bool-cases (eqs.beq b a)) [
      | inl same ↦ rw (there, same) (sym (holds_cong b a xs same) ∙ there)
      | inr other ↦ rw (there, other)
    ]
  ]

  pub holds-drop_all :
      (a b : A) (xs : List A) → eqs.beq b a ≡ true → holds eqs a (drop_all eqs b xs) ≡ false
  unfolding drop_all holds
  holds-drop_all a b [] e = refl
  holds-drop_all a b (x ∷ xs) e =
      let rest = holds-drop_all a b xs e in
      let cong = beq_cong b a x e in
      elim (Bool-cases (eqs.beq x b)) [
        | inl same ↦ rw same rest
        | inr other ↦ rw (other, sym cong, other) rest
      ]

  pub holds-replace :
      (a b : A) (xs : List A) → holds eqs a (replace eqs b xs) ≡ (eqs.beq b a || holds eqs a xs)
  unfolding replace holds
  holds-replace a b [] = refl
  holds-replace a b (x ∷ xs) =
      let rest = holds-replace a b xs in
      elim (Bool-cases (eqs.beq x b)) [
        | inr other ↦ rw (other, rest) (ground arith)
        | inl same ↦ elim (Bool-cases (eqs.beq b a)) [
          | inl t ↦ rw (same, t)
          | inr f ↦
              let back = eqs.beq_sym x b same in
              elim (Bool-cases (eqs.beq x a)) [
                | inl u ↦ let t = eqs.beq_trans b x a back u in cc
                | inr u ↦ rw (same, f, u)
              ]
        ]
      ]

  pub holds-filter :
      (p : A → Bool) (a : A) (xs : List A)
      → holds eqs a (filter p xs) ≡ true
      → holds eqs a xs ≡ true
  unfolding filter holds
  holds-filter p a [] h = h
  holds-filter p a (x ∷ xs) h = elim (Bool-cases (p x)) [
    | inl kept ↦ elim (Bool-cases (eqs.beq x a)) [
      | inl same ↦ rw same
      | inr other ↦ rw other (holds-filter p a xs (rw (kept, other) at h))
    ]
    | inr gone ↦ elim (Bool-cases (eqs.beq x a)) [
      | inl same ↦ rw same
      | inr other ↦ rw other (holds-filter p a xs (rw gone at h))
    ]
  ]

  -- The members that the second set does not have.
  pub holds-difference :
      (a : A) (xs ys : List A)
      → holds eqs a (difference eqs xs ys) ≡ (holds eqs a xs && not (holds eqs a ys))
  unfolding difference filter holds
  holds-difference a [] ys = refl
  holds-difference a (x ∷ xs) ys =
      let rest = holds-difference a xs ys in
      elim (Bool-cases (eqs.beq x a)) [
        | inl same ↦
            let cong = holds_cong x a ys same in
            elim (Bool-cases (holds eqs a ys)) [
              | inl there ↦ rw (cong, there, same) (rest ∙ ground (arith, there))
              | inr absent ↦ rw (cong, absent, same) refl
            ]
        | inr other ↦ elim (Bool-cases (holds eqs x ys)) [
          | inl there ↦ rw (there, other) rest
          | inr absent ↦ rw (absent, other) rest
        ]
      ]

  length-difference_le : (xs ys : List A) → length (difference eqs xs ys) ≤ length xs
  unfolding difference filter
  length-difference_le [] ys = omega arith
  length-difference_le (x ∷ xs) ys = elim (Bool-cases (holds eqs x ys)) [
    | inl there ↦ rw there (omega (arith, length-difference_le xs ys))
    | inr absent ↦ rw absent (omega (arith, length-difference_le xs ys))
  ]

  -- A member of both is taken away.
  pub length-difference :
      (a : A) (xs ys : List A)
      → holds eqs a xs ≡ true
      → holds eqs a ys ≡ true
      → length (difference eqs xs ys) < length xs
  unfolding difference filter holds
  length-difference a [] ys h k = cc
  length-difference a (x ∷ xs) ys h k = elim (Bool-cases (eqs.beq x a)) [
    | inl same ↦
        let gone = holds_cong x a ys same ∙ k in rw gone (omega (arith, length-difference_le xs ys))
    | inr other ↦
        let rest = length-difference a xs ys (rw other at h) k in
        elim (Bool-cases (holds eqs x ys)) [
          | inl there ↦ rw there (omega arith)
          | inr absent ↦ rw absent (omega arith)
        ]
  ]
