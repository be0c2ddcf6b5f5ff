-- ===== src/Matrix/Resize.antt =====
-- Building, growing and shrinking a `SymMatrix`.
use kollaps.Prelude.{
  ℕ, ◌+◌, ◌-◌, ◌*◌, ◌/◌, ◌≤◌, ◌<◌, ◌≡◌, refl, ◌∙◌, ap, ◌||◌, Option, some, arith, min, max, ltb,
  leb, if◌then◌else◌, collect, collect_lem, collect-length, Option-cases, Bool-cases, inl, inr,
  ◌>>=◌, lt→ltb,
}
use mathlib.Core.Option.{some-injective}
use kollaps.Matrix.{SymMatrix, out_to_in_index, in_to_out_index, new_fn, index, grow_fn, remove_id}
use kollaps.Matrix.Triangle.{in_to_out-out_to_in, out_to_in-in_to_out, out_to_in-lt}
use kollaps.Matrix.Access.{IsValid, index-some, index_comm}

outside_min-max : (n r c : ℕ) → (leb n (min r c) || leb n (max r c)) ≡ (leb n r || leb n c)
outside_min-max n r c = ground arith

-- The row of the old matrix that the row `r` of the new one holds, when the row `id` is left out.
abbrev pub skip : ℕ → ℕ → ℕ
skip id r = if leb id r then r + 1 else r

module _ {ℓ} {T : Type ℓ} where
  -- The matrix `m` has the size `n`, and its cells are those of `f`, whose first argument is the
  -- smaller coordinate.
  pub record Tabulates (n : ℕ) (f : ℕ → ℕ → Option T) (m : SymMatrix T) : Type ℓ where
    pub size : m.n ≡ n
    pub valid : IsValid m
    pub cells : (r c : ℕ) → r < n → c < n → index m r c ≡ f (min r c) (max r c)

  -- If `f` does not panic on the upper triangle, `new_fn` ends, and tabulates it.
  pub new_fn_lem :
      (n : ℕ) (f : ℕ → ℕ → Option T)
      → ((r c : ℕ) → r ≤ c → c < n → (v : T) × (f r c ≡ some v))
      → (m : SymMatrix T) × (new_fn n f ≡ some m) × Tabulates n f m
  unfolding new_fn index
  new_fn_lem n f h =
      let round = λ (i : ℕ). in_to_out_index i n >>= (λ at. f at.0 at.1) in
      let (items, e, size, all) = collect_lem round (n * (n + 1) / 2) 0 (λ i lo hi.
        let (r, c, found, rc, cn, _) = out_to_in-in_to_out i n (omega arith) in
        rw found (h r c rc cn)) in
      (
        record { n = n; items = items },
        rw e,
        record {
          size = refl;
          valid = size;
          cells = λ r c hr hc.
              let i = out_to_in_index r c n in
              let e0 : 0 + i ≡ i = omega arith in
              all i (out_to_in-lt r c n hr hc) ∙ ap round e0 ∙ rw (in_to_out-out_to_in r c n hr hc);
        },
      )

  -- A matrix that `new_fn` builds has the size that was asked for, and the layout.
  pub new_fn-IsValid :
      (n : ℕ) (f : ℕ → ℕ → Option T) (m : SymMatrix T) → new_fn n f ≡ some m → (m.n ≡ n) × IsValid m
  unfolding new_fn
  new_fn-IsValid n f m h =
      let round = λ (i : ℕ). in_to_out_index i n >>= (λ at. f at.0 at.1) in
      elim (Option-cases (collect (n * (n + 1) / 2) 0 round)) [
        | inl e ↦ let nothing = rw e at h in cc
        | inr (items, e) ↦
            let built = some-injective _ _ (rw e at h) in
            rw (← built) (refl, collect-length (n * (n + 1) / 2) 0 round items e)
      ]

  index-min-max : (m : SymMatrix T) (r c : ℕ) → index m (min r c) (max r c) ≡ index m r c
  index-min-max m r c = elim (Bool-cases (ltb c r)) [
    | inl t ↦
        let lo : min r c ≡ c = ground arith in
        let hi : max r c ≡ r = ground arith in rw (lo, hi) (index_comm m c r)
    | inr t ↦
        let lo : min r c ≡ r = ground arith in let hi : max r c ≡ c = ground arith in rw (lo, hi)
  ]

  skip-min-max :
      (m : SymMatrix T) (id r c : ℕ)
      → index m (skip id (min r c)) (skip id (max r c)) ≡ index m (skip id r) (skip id c)
  skip-min-max m id r c = elim (Bool-cases (ltb c r)) [
    | inl t ↦
        let lo : min r c ≡ c = ground arith in
        let hi : max r c ≡ r = ground arith in rw (lo, hi) (index_comm m (skip id c) (skip id r))
    | inr t ↦
        let lo : min r c ≡ r = ground arith in let hi : max r c ≡ c = ground arith in rw (lo, hi)
  ]

  pub remove_id-IsValid :
      (m : SymMatrix T) (id : ℕ) (w : SymMatrix T)
      → remove_id m id ≡ some w
      → (w.n + 1 ≡ m.n) × IsValid w
  unfolding remove_id
  remove_id-IsValid m id w h = elim (Bool-cases (ltb 0 m.n)) [
    | inl some_row ↦
        let (n, valid) = new_fn-IsValid (m.n - 1) _ w (rw some_row at h) in (ground arith, valid)
    | inr empty ↦ let nothing = rw empty at h in cc
  ]

  -- Growing keeps the cells of the old matrix, and fills those of the new rows and columns by `f`.
  pub grow_fn_lem :
      (m : SymMatrix T) (by : ℕ) (f : ℕ → ℕ → T)
      → IsValid m
      → (w : SymMatrix T) × (grow_fn m by f ≡ some w)
        × (w.n ≡ m.n + by)
        × IsValid w
        × ((r c : ℕ)
            → r < m.n + by
            → c < m.n + by
            → index w r c
              ≡ (if leb m.n r || leb m.n c then some (f (min r c) (max r c)) else index m r c))
  unfolding grow_fn
  grow_fn_lem m by f h =
      let source = λ (r c : ℕ). if leb m.n r || leb m.n c then some (f r c) else index m r c in
      let (w, e, t) = new_fn_lem (m.n + by) source (λ r c rc cn.
        elim (Bool-cases (leb m.n r || leb m.n c)) [
          | inl out ↦ (f r c, rw out)
          | inr inside ↦ rw inside (index-some m r c h (ground arith) (ground arith))
        ]) in
      (
        w,
        e,
        t.size,
        t.valid,
        λ r c hr hc. t.cells r c hr hc ∙ rw (index-min-max m r c, outside_min-max m.n r c),
      )

  -- Removing an identifier drops its row and column, and shifts those behind it by one.
  pub remove_id_lem :
      (m : SymMatrix T) (id : ℕ)
      → IsValid m
      → 0 < m.n
      → (w : SymMatrix T) × (remove_id m id ≡ some w)
        × (w.n + 1 ≡ m.n)
        × IsValid w
        × ((r c : ℕ) → r + 1 < m.n → c + 1 < m.n → index w r c ≡ index m (skip id r) (skip id c))
  unfolding remove_id
  remove_id_lem m id h some_row =
      let (w, e, t) =
        new_fn_lem (m.n - 1) (λ r c. index m (skip id r) (skip id c))
          (λ r c rc cn. index-some m (skip id r) (skip id c) h (ground arith) (ground arith)) in
      (
        w,
        rw (lt→ltb 0 m.n some_row, e),
        omega (arith, t.size),
        t.valid,
        λ r c hr hc. t.cells r c (omega arith) (omega arith) ∙ skip-min-max m id r c,
      )
