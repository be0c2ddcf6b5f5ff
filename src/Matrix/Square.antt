-- ===== src/Matrix/Square.antt =====
-- matrix/src/lib.rs: the square matrix `Matrix<T>`, a vector of rows. An index outside panics.
use kollaps.Prelude.{
  ℕ, ◌+◌, ◌<◌, ◌≡◌, refl, ap, ◌∙◌, inl, inr, ◌||◌, Option, some, none, List, arith, leb,
  if◌then◌else◌, get_elem?, set, length, ltb, collect, collect_lem, ◌>>=◌, Bool-cases,
}

pub record Matrix {ℓ} (T : Type ℓ) : Type ℓ where
  pub n : ℕ
  pub rows : List (List T)

module _ {ℓ} {T : Type ℓ} where
  unfoldable pub index : Matrix T → ℕ → ℕ → Option T
  index m row col = get_elem? m.rows row >>= λ r. get_elem? r col

  pub index_mut : Matrix T → ℕ → ℕ → T → Option (Matrix T)
  index_mut m row col v = get_elem? m.rows row >>= λ r.
      if ltb col (length r) then some (record m { rows = set m.rows row (set r col v) }) else none

  -- `f` may panic, as the closure of `grow_fn` may, which indexes another matrix.
  pub new_fn : ℕ → (ℕ → ℕ → Option T) → Option (Matrix T)
  unfolding collect
  new_fn n f = do
    held ← collect n 0 (λ row. collect n 0 (f row))
    some (record { n = n; rows = held })

  pub size : Matrix T → ℕ
  size m = m.n

  pub grow_fn : Matrix T → ℕ → (ℕ → ℕ → T) → Option (Matrix T)
  unfolding new_fn index
  grow_fn m by f =
      new_fn (m.n + by)
        (λ row col. if leb m.n row || leb m.n col then some (f row col) else index m row col)

  -- Every pair below the size has a cell.
  abbrev pub IsSquare : Matrix T → Type ℓ
  IsSquare m = (r c : ℕ) → r < m.n → c < m.n → (v : T) × (index m r c ≡ some v)

  new_fn_lem :
      (n : ℕ) (f : ℕ → ℕ → Option T)
      → ((r c : ℕ) → r < n → c < n → (v : T) × (f r c ≡ some v))
      → (m : Matrix T) × (new_fn n f ≡ some m)
        × (m.n ≡ n)
        × ((r c : ℕ) → r < n → c < n → index m r c ≡ f r c)
  unfolding new_fn index
  new_fn_lem n f h =
      let row = λ (r : ℕ) (b : r < n). collect_lem (f r) n 0 (λ c lo hi. h r c b (omega arith)) in
      let (rows, e, size, all) =
        collect_lem (λ r. collect n 0 (f r)) n 0
          (λ r lo hi. let (cells, ec, _, _) = row r (omega arith) in (cells, ec)) in
      (
        record { n = n; rows = rows },
        rw e,
        refl,
        λ r c hr hc.
            let (cells, ec, width, each) = row r hr in
            let found = all r hr in
            let at : 0 + r ≡ r = omega arith in
            let under : 0 + c ≡ c = omega arith in rw (found, at, ec) (each c hc ∙ ap (f r) under),
      )

  value :
      (m : Matrix T) (by : ℕ) (f : ℕ → ℕ → T)
      → IsSquare m
      → (r c : ℕ) → r < m.n + by
      → c < m.n + by
      → (v : T) × ((if leb m.n r || leb m.n c then some (f r c) else index m r c) ≡ some v)
  value m by f h r c hr hc = elim (Bool-cases (leb m.n r || leb m.n c)) [
    | inl out ↦ (f r c, rw out)
    | inr inside ↦ rw inside (h r c (ground arith) (ground arith))
  ]

  -- Growing keeps the cells of the old matrix, and fills those of the new rows and columns by `f`,
  -- whose arguments are the row and the column.
  pub grow_fn-IsSquare :
      (m : Matrix T) (by : ℕ) (f : ℕ → ℕ → T)
      → IsSquare m
      → (w : Matrix T) × (grow_fn m by f ≡ some w)
        × (w.n ≡ m.n + by)
        × IsSquare w
        × ((r c : ℕ)
            → r < m.n + by
            → c < m.n + by
            → index w r c ≡ (if leb m.n r || leb m.n c then some (f r c) else index m r c))
  unfolding grow_fn
  grow_fn-IsSquare m by f h =
      let source = λ (r c : ℕ). if leb m.n r || leb m.n c then some (f r c) else index m r c in
      let full = λ (r c : ℕ) (hr : r < m.n + by) (hc : c < m.n + by). value m by f h r c hr hc in
      let (w, e, size, cells) = new_fn_lem (m.n + by) source full in
      (
        w,
        e,
        size,
        (λ r c hr hc.
            let (v, ev) = full r c (omega arith) (omega arith) in
            (v, cells r c (omega arith) (omega arith) ∙ ev)),
        cells,
      )
