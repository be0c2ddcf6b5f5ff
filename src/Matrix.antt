-- ===== src/Matrix.antt =====
-- matrix/src/lib.rs: the packed symmetric matrix `SymMatrix<T>`, which holds the upper triangle
-- row by row in one vector.
--
-- The source computes the offsets in `f64`, and the column count through `i32`. Both are exact
-- for sizes below 2 ^ 26, where products stay below 2 ^ 53, so the model computes in ℕ: half of
-- an even product. A negative sum becomes 0 when the source converts it to `usize`, as it does
-- under the subtraction of ℕ. An index outside the vector panics: `none`.
pub mod Triangle
pub mod Access
pub mod Resize
pub mod Square
use package.kollaps.Prelude.{
  ℕ, zero, suc, ◌+◌, ◌-◌, ◌*◌, ◌/◌, Bool, ◌&&◌, ◌||◌, Option, none, some, List, ltb, leb,
  if◌then◌else◌, get_elem?, set, length, collect, ◌>>=◌,
}

pub record SymMatrix {ℓ} (T : Type ℓ) : Type ℓ where
  pub n : ℕ
  pub items : List T

-- The number of elements in the rows before `row`: (U1 + Un) / 2 * n_.
unfoldable pub row_offset : ℕ → ℕ → ℕ
row_offset row n = if ltb 0 row then row * (n + (n - (row - 1))) / 2 else 0

unfoldable pub out_to_in_index : ℕ → ℕ → ℕ → ℕ
unfolding row_offset
out_to_in_index row col n =
    let swapped = ltb col row in
    let low = if swapped then col else row in
    let high = if swapped then row else col in row_offset low n + (high - low)

-- The `loop` that looks for the row of `i`, from `next_row` on; `none` when the fuel is spent.
unfoldable pub find_row : ℕ → ℕ → ℕ → ℕ → Option (ℕ × ℕ)
find_row zero next_row i n = none
find_row (suc fuel) next_row i n =
    let u_n = n - next_row in
    let next_row_index = (next_row + 1) * (n + u_n) / 2 in
    let current_row_index = next_row_index - u_n in
    let rest = find_row fuel (next_row + 1) i n in
    if ltb i next_row_index && leb current_row_index i
    then some (next_row, i - current_row_index + next_row)
    else rest

-- There are `n` rows, so `n` rounds are enough for every index of the vector.
unfoldable pub in_to_out_index : ℕ → ℕ → Option (ℕ × ℕ)
unfolding find_row
in_to_out_index i n = find_row n 0 i n

module _ {ℓ} {T : Type ℓ} where
  -- `f` may panic, as the closures of `grow_fn` and `remove_id` may, which index another matrix.
  unfoldable pub new_fn : ℕ → (ℕ → ℕ → Option T) → Option (SymMatrix T)
  unfolding in_to_out_index collect
  new_fn n f = do
    let size_vec = n * (n + 1) / 2
    items ← collect size_vec 0 (λ i. in_to_out_index i n >>= λ at. f at.0 at.1)
    some (record { n = n; items = items })

  unfoldable pub size : SymMatrix T → ℕ
  size m = m.n

  -- `m[(row, col)]`
  unfoldable pub index : SymMatrix T → ℕ → ℕ → Option T
  unfolding out_to_in_index
  index m row col = get_elem? m.items (out_to_in_index row col m.n)

  -- `m[(row, col)] = v`
  unfoldable pub index_mut : SymMatrix T → ℕ → ℕ → T → Option (SymMatrix T)
  unfolding out_to_in_index
  index_mut m row col v =
      let i = out_to_in_index row col m.n in
      if ltb i (length m.items) then some (record m { items = set m.items i v }) else none

  pub grow_fn : SymMatrix T → ℕ → (ℕ → ℕ → T) → Option (SymMatrix T)
  unfolding new_fn index
  grow_fn m by f =
      new_fn (m.n + by)
        (λ row col. if leb m.n row || leb m.n col then some (f row col) else index m row col)

  -- The source subtracts 1 from the size, which underflows and panics on an empty matrix.
  unfoldable pub remove_id : SymMatrix T → ℕ → Option (SymMatrix T)
  unfolding new_fn index
  remove_id m id =
      let shrunk = new_fn (m.n - 1) (λ row col.
        index m (if leb id row then row + 1 else row) (if leb id col then col + 1 else col)) in
      if ltb 0 m.n then shrunk else none
