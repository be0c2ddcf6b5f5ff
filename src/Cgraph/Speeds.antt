-- ===== src/Cgraph/Speeds.antt =====
-- cgraph/src/lib.rs, `update_speeds`: the extrapolation of speeds over a third node.
use kollaps.Prelude.{
  ℕ, ◌<◌, ◌≡◌, sym, ap, ◌∙◌, inl, inr, true, false, ◌||◌, some, List, [], ◌∷◌, arith, ltb, ◌==◌,
  if◌then◌else◌, min, Bool-cases, Option-cases, ltb→ge,
}
use mathlib.Core.Option.{some-injective}
use kollaps.Matrix.{SymMatrix, size, index}
use kollaps.Matrix.Access.{IsValid, index-some}
use kollaps.Cgraph.{
  TestData, Node, ok, for_range, update, contains, min_speed, transit, update_speeds,
}
use kollaps.Cgraph.Faster.{
  Faster, Faster-refl, Faster-trans, Over, Over-Faster, for_range-Faster, below_le, update-Faster,
}
use kollaps.Cgraph.Ways.{Way, update_speeds-IsReached}

min_speed-some :
    {I : Type 0} (nodes : List (Node I)) (i j : ℕ)
    → contains nodes i ≡ true
    → (s : ℕ) × (min_speed nodes i j ≡ some s)
unfolding contains min_speed
min_speed-some [] i j h = cc
min_speed-some (k ∷ ks) i j h = elim (Option-cases (min_speed ks i j)) [
  | inl nothing ↦ elim (Bool-cases (k.index_of == i)) [
    | inl hit ↦ (k.node_speed, rw (hit, nothing))
    | inr miss ↦ let (s, es) = min_speed-some ks i j (ground arith) in cc
  ]
  | inr (s, rest) ↦ elim (Bool-cases (k.index_of == i || k.index_of == j)) [
    | inl hit ↦ (min k.node_speed s, rw (hit, rest))
    | inr miss ↦ (s, rw (miss, rest))
  ]
]

module _ {I : Type 0} (nodes : List (Node I)) where
  transit_raised :
      (m faster : SymMatrix TestData) (i j k : ℕ) (ik kj ij : TestData) (least : ℕ)
      → index m i k ≡ some ik
      → index m k j ≡ some kj
      → index m i j ≡ some ij
      → ltb ij.speed (min ik.speed kj.speed) ≡ true
      → update m i j (λ d. record d { speed = min ik.speed kj.speed }) ≡ ok faster
      → min_speed nodes i j ≡ some least
      → transit nodes i j k m ≡ (
          if least == min ik.speed kj.speed
          then update faster i j (λ d. record d { limited = false })
          else ok faster)
  unfolding transit
  transit_raised m faster i j k ik kj ij least eik ekj eij fast ef el =
      rw (eik, ekj, ef, eij, fast, el)

  transit_lem :
      (m : SymMatrix TestData) (i j k : ℕ)
      → IsValid m
      → contains nodes i ≡ true
      → i < m.n
      → j < m.n
      → k < m.n
      → (t : SymMatrix TestData) × (transit nodes i j k m ≡ ok t) × Faster m t × Over m t i j k
  unfolding transit
  transit_lem m i j k v held hi hj hk =
      let (ik, eik) = index-some m i k v hi hk in
      let (kj, ekj) = index-some m k j v hk hj in
      let (ij, eij) = index-some m i j v hi hj in
      let through = min ik.speed kj.speed in
      elim (Bool-cases (ltb ij.speed through)) [
        | inr slow ↦ (
          m,
          rw (eik, ekj, eij, slow),
          Faster-refl m v,
          λ a b c ea eb ec.
              let at_a : ik ≡ a = some-injective _ _ (sym eik ∙ ea) in
              let at_b : kj ≡ b = some-injective _ _ (sym ekj ∙ eb) in
              let at_c : ij ≡ c = some-injective _ _ (sym eij ∙ ec) in
              rw (← at_a, ← at_b, ← at_c) (ltb→ge _ _ slow),
        )
        | inl fast ↦
            let (faster, ef, up, cell) =
              update-Faster m i j (λ d. record d { speed = through }) v hi hj
                (λ d ed.
                  let same : ij ≡ d = some-injective _ _ (sym eij ∙ ed) in
                  rw (← same) (below_le _ _ fast)) in
            let (least, el) = min_speed-some nodes i j held in
            let raised = transit_raised m faster i j k ik kj ij least eik ekj eij fast ef el in
            let inside = up.same_size in
            let (open_link, eo, kept, _) =
              update-Faster faster i j (λ d. record d { limited = false }) up.valid (omega arith)
                (omega arith) (λ d ed. omega arith) in
            let over : Over m faster i j k = λ a b c ea eb ec.
              let at_a : ik ≡ a = some-injective _ _ (sym eik ∙ ea) in
              let at_b : kj ≡ b = some-injective _ _ (sym ekj ∙ eb) in
              let at_c : record ij { speed = through } ≡ c =
                some-injective _ _ (sym (cell ij eij) ∙ ec) in
              let is : through ≡ c.speed = ap (λ (x : TestData). x.speed) at_c in
              rw (← at_a, ← at_b) (omega arith) in
            elim (Bool-cases (least == through)) [
              | inl reached ↦ (
                open_link,
                raised ∙ rw reached eo,
                Faster-trans m faster open_link up.valid up kept,
                Over-Faster m faster open_link i j k up.valid (omega arith) (omega arith) kept over,
              )
              | inr below ↦ (faster, raised ∙ rw below, up, over)
            ]
      ]

  -- One round, from a matrix that is no slower than `m`.
  round :
      (m x : SymMatrix TestData) (i j k : ℕ)
      → IsValid m
      → contains nodes i ≡ true
      → i < m.n
      → j < m.n
      → k < m.n
      → Faster m x
      → (t : SymMatrix TestData) × (transit nodes i j k x ≡ ok t) × Faster x t × Over m t i j k
  round m x i j k v held hi hj hk f =
      let inside = f.same_size in
      let (t, et, g, over) =
        transit_lem x i j k f.valid held (omega arith) (omega arith) (omega arith) in
      (
        t,
        et,
        g,
        λ a b c ea eb ec.
            let (p, ep) = index-some x i k f.valid (omega arith) (omega arith) in
            let (q, eq) = index-some x k j f.valid (omega arith) (omega arith) in
            let low = over p q c ep eq ec in
            let first = f.speeds i k hi hk a p ea ep in
            let second = f.speeds k j hk hj b q eb eq in omega arith,
      )

  kept :
      (m x y : SymMatrix TestData) (i j k : ℕ)
      → i < m.n
      → j < m.n
      → Faster m x
      → Faster x y
      → Over m x i j k
      → Over m y i j k
  kept m x y i j k hi hj f g over =
      let inside = f.same_size in Over-Faster m x y i j k f.valid (omega arith) (omega arith) g over

  -- The loops over `k`, and over `j` and `k`.
  each_way :
      (m x : SymMatrix TestData) (i j : ℕ)
      → IsValid m
      → contains nodes i ≡ true
      → i < m.n
      → j < m.n
      → Faster m x
      → (t : SymMatrix TestData) × (for_range m.n 0 (λ k. transit nodes i j k) x ≡ ok t)
        × Faster x t
        × ((k : ℕ) → k < m.n → Over m t i j k)
  each_way m x i j v held hi hj f =
      let (t, et, g, over) =
        for_range-Faster m (λ k y. Over m y i j k) _ m.n 0 x
          (λ k y hk h. round m y i j k v held hi hj hk h)
          (λ k y z hk h g over. kept m y z i j k hi hj h g over) (omega arith) f in
      (t, et, g, λ k hk. over k (omega arith) (omega arith))

  each_pair :
      (m x : SymMatrix TestData) (i : ℕ)
      → IsValid m
      → contains nodes i ≡ true
      → i < m.n
      → Faster m x
      → (t : SymMatrix TestData) × (for_range m.n 0
            (λ j. for_range m.n 0 (λ k. transit nodes i j k))
            x
          ≡ ok t)
        × Faster x t
        × ((j k : ℕ) → j < m.n → k < m.n → Over m t i j k)
  each_pair m x i v held hi f =
      let (t, et, g, over) =
        for_range-Faster m (λ j y. (k : ℕ) → k < m.n → Over m y i j k) _ m.n 0 x
          (λ j y hj h. each_way m y i j v held hi hj h)
          (λ j y z hj h g over k hk. kept m y z i j k hi hj h g (over k hk)) (omega arith) f in
      (t, et, g, λ j k hj hk. over j (omega arith) (omega arith) k hk)

  -- When every index of the matrix is held by a node, the extrapolation ends without an error, and
  -- the matrix keeps its shape. No speed is lowered. The speed between any two indices becomes at
  -- least that of the way over any third one in the matrix before the extrapolation, and it is the
  -- speed of some way, of one cell or more, in that matrix.
  pub update_speeds-Faster :
      (m : SymMatrix TestData)
      → IsValid m
      → ((i : ℕ) → i < m.n → contains nodes i ≡ true)
      → (t : SymMatrix TestData) × (update_speeds nodes m ≡ ok t)
        × Faster m t
        × ((i j k : ℕ) → i < m.n → j < m.n → k < m.n → Over m t i j k)
        × ((i j : ℕ)
            → i < m.n
            → j < m.n
            → (d : TestData) → index t i j ≡ some d
            → Way m i j d.speed)
  unfolding update_speeds size
  update_speeds-Faster m v held =
      let (t, et, f, over) =
        for_range-Faster m (λ i x. (j k : ℕ) → j < m.n → k < m.n → Over m x i j k) _ m.n 0 m
          (λ i x hi f. each_pair m x i v (held i hi) hi f)
          (λ i x y hi f g over j k hj hk. kept m x y i j k hi hj f g (over j k hj hk)) (omega arith)
          (Faster-refl m v) in
      (
        t,
        et,
        f,
        (λ i j k hi hj hk. over i (omega arith) (omega arith) j k hj hk),
        (update_speeds-IsReached m nodes t v et).ways,
      )
