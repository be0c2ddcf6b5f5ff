-- ===== src/Cgraph/Ways.antt =====
-- cgraph/src/lib.rs, `update_speeds`: each speed is the one of a way through the matrix.
use kollaps.Prelude.{
  ℕ, zero, suc, ◌+◌, ◌≤◌, ◌<◌, ◌≡◌, refl, sym, subst, ◌∙◌, inl, inr, true, false, some, arith, ltb,
  ◌==◌, ◌&&◌, if◌then◌else◌, min, Bool-cases, List,
}
use mathlib.Core.Option.{some-injective}
use kollaps.Matrix.{SymMatrix, size, index}
use kollaps.Matrix.Access.{IsValid, same_pair, index_comm}
use kollaps.Cgraph.{
  TestData, Node, Result, ok, ok_or, panic, no_resource, for_range, update, min_speed, transit,
  update_speeds,
}
use kollaps.Cgraph.Cells.{update_lem}
use kollaps.Cgraph.Results.{bind-ok, ok-injective, ok_or-ok}

-- A way from one index to another over cells of `m`, and its speed, the least of theirs.
pub data Way (m : SymMatrix TestData) : ℕ → ℕ → ℕ → Type 0 where
  direct : (i j : ℕ) (d : TestData) → i < m.n → j < m.n → index m i j ≡ some d → Way m i j d.speed
  through : (i j k a b : ℕ) → Way m i k a → Way m k j b → Way m i j (min a b)

Way-sym : (m : SymMatrix TestData) (i j s : ℕ) → Way m i j s → Way m j i s
Way-sym m i j _ (direct _ _ d hi hj e) = direct j i d hj hi (index_comm m j i ∙ e)
Way-sym m i j _ (through _ _ k a b p q) =
    let turned : min b a ≡ min a b = omega arith in
    subst (Way m j i) turned (through j i k b a (Way-sym m k j b q) (Way-sym m i k a p))

-- `x` has the shape of `m`, and each of its speeds is that of a way in `m`.
pub record IsReached (m x : SymMatrix TestData) : Type 0 where
  pub same_size : x.n ≡ m.n
  pub valid : IsValid x
  pub ways :
      (r c : ℕ) → r < m.n → c < m.n → (d : TestData) → index x r c ≡ some d → Way m r c d.speed

pub IsReached-refl : (m : SymMatrix TestData) → IsValid m → IsReached m m
IsReached-refl m v = record {
  same_size = refl;
  valid = v;
  ways = λ r c hr hc d e. direct r c d hr hc e;
}

module _ (m : SymMatrix TestData) where
  at_pair : (i j r c s : ℕ) → same_pair i j r c ≡ true → Way m i j s → Way m r c s
  at_pair i j r c s h w = elim (Bool-cases (i == r && j == c)) [
    | inl here ↦ let a : i ≡ r = ground arith in let b : j ≡ c = ground arith in rw (← a, ← b) w
    | inr turned ↦
        let a : i ≡ c = ground arith in
        let b : j ≡ r = ground arith in rw (← a, ← b) (Way-sym m i j s w)
  ]

  update-IsReached :
      (x y : SymMatrix TestData) (i j : ℕ) (f : TestData → TestData)
      → IsReached m x
      → i < m.n
      → j < m.n
      → update x i j f ≡ ok y
      → ((d : TestData) → index x i j ≡ some d → Way m i j (f d).speed)
      → IsReached m y
  update-IsReached x y i j f h hi hj e way =
      let inside = h.same_size in
      let (d, w, ed, ew, size, valid, cells) =
        update_lem x i j f h.valid (omega arith) (omega arith) in
      let same : w ≡ y = ok-injective w y (sym ew ∙ e) in
      rw (← same) (record {
        same_size = size ∙ inside;
        valid = valid;
        ways = λ r c hr hc z ez. elim (Bool-cases (same_pair i j r c)) [
          | inl hit ↦
              let is : f d ≡ z =
                some-injective _ _ (sym (cells r c (omega arith) (omega arith) ∙ rw hit) ∙ ez) in
              rw (← is) (at_pair i j r c (f d).speed hit (way d ed))
          | inr other ↦
              h.ways r c hr hc z (sym (cells r c (omega arith) (omega arith) ∙ rw other) ∙ ez)
        ];
      })

  module _ {I : Type 0} (nodes : List (Node I)) where
    raised-IsReached :
        (x faster y : SymMatrix TestData) (i j least speed : ℕ)
        → IsReached m faster
        → i < m.n
        → j < m.n
        → (if least == speed
            then update faster i j (λ d. record d { limited = false })
            else ok faster)
          ≡ ok y
        → IsReached m y
    raised-IsReached x faster y i j least speed h hi hj e = elim (Bool-cases (least == speed)) [
      | inl reached ↦
          update-IsReached faster y i j (λ d. record d { limited = false }) h hi hj
            (rw reached at e) (λ d ed. h.ways i j hi hj d ed)
      | inr below ↦ let same = ok-injective faster y (rw below at e) in rw (← same) h
    ]

    transit-IsReached :
        (i j k : ℕ) (x y : SymMatrix TestData)
        → i < m.n
        → j < m.n
        → k < m.n
        → transit nodes i j k x ≡ ok y
        → IsReached m x
        → IsReached m y
    unfolding transit
    transit-IsReached i j k x y hi hj hk e h =
        let (ik, e1, r1) = bind-ok (ok_or (index x i k) panic) _ y e in
        let (kj, e2, r2) = bind-ok (ok_or (index x k j) panic) _ y r1 in
        let (ij, e3, r3) = bind-ok (ok_or (index x i j) panic) _ y r2 in
        let speed = min ik.speed kj.speed in
        let way : Way m i j speed =
          through i j k ik.speed kj.speed (h.ways i k hi hk ik (ok_or-ok _ _ _ e1))
            (h.ways k j hk hj kj (ok_or-ok _ _ _ e2)) in
        elim (Bool-cases (ltb ij.speed speed)) [
          | inr slow ↦ let same = ok-injective x y (rw slow at r3) in rw (← same) h
          | inl fast ↦
              let (faster, e4, r4) =
                bind-ok (update x i j (λ d. record d { speed = speed })) _ y (rw fast at r3) in
              let (least, e5, r5) = bind-ok (ok_or (min_speed nodes i j) no_resource) _ y r4 in
              raised-IsReached x faster y i j least speed
                (update-IsReached x faster i j (λ d. record d { speed = speed }) h hi hj e4
                  (λ d ed. way))
                hi hj r5
        ]

    each :
        (body : ℕ → SymMatrix TestData → Result (SymMatrix TestData))
        → ((k : ℕ) (x y : SymMatrix TestData)
            → k < m.n
            → body k x ≡ ok y
            → IsReached m x
            → IsReached m y)
        → (count start : ℕ) (x y : SymMatrix TestData) → start + count ≤ m.n
        → for_range count start body x ≡ ok y
        → IsReached m x
        → IsReached m y
    unfolding for_range
    each body keeps zero start x y room e h = let same = ok-injective x y e in rw (← same) h
    each body keeps (suc count) start x y room e h =
        let (next, en, rest) = bind-ok (body start x) (for_range count (start + 1) body) y e in
        each body keeps count (start + 1) next y (omega arith) rest
          (keeps start x next (omega arith) en h)

    pub update_speeds-IsReached :
        (t : SymMatrix TestData) → IsValid m → update_speeds nodes m ≡ ok t → IsReached m t
    unfolding update_speeds size
    update_speeds-IsReached t v e =
        each _
          (λ i x y hi.
            each _
              (λ j p q hj.
                each _ (λ k a b hk. transit-IsReached i j k a b hi hj hk) m.n 0 p q (omega arith))
              m.n 0 x y (omega arith))
          m.n 0 m t (omega arith) e (IsReached-refl m v)
