-- ===== src/Matrix/Triangle.antt =====
-- The index arithmetic of `SymMatrix`: `out_to_in_index` and `in_to_out_index` are inverse.
use kollaps.Prelude.{
  ℕ, zero, suc, ◌+◌, ◌-◌, ◌*◌, ◌/◌, ◌≤◌, ◌<◌, ◌≡◌, refl, ◌∙◌, ap, sym, subst, Option, some, arith,
  min, max, ltb, ◌==◌, ==→≡, ltb→lt, ltb→ge, Bool-cases, inl, inr,
}
use kollaps.Matrix.{row_offset, out_to_in_index, find_row, in_to_out_index}

-- The number of elements in the first `r` rows, row by row.
pub row_start : ℕ → ℕ → ℕ
row_start n zero = 0
row_start n (suc r) = row_start n r + (n - r)

row_start_closed : (n r k : ℕ) → r + k ≡ n → 2 * row_start n r ≡ r * (r + k + k + 1)
unfolding row_start
row_start_closed n zero k h = omega arith
row_start_closed n (suc r) k h = omega (arith, row_start_closed n r (suc k) (omega arith))

pub row_start_mono : (n r s : ℕ) → r ≤ s → row_start n r ≤ row_start n s
unfolding row_start
row_start_mono n r zero h = let e : r ≡ 0 = omega arith in rw e (omega arith)
row_start_mono n r (suc s) h = elim (Bool-cases (ltb s r)) [
  | inl t ↦ let e : r ≡ suc s = ground arith in rw e (omega arith)
  | inr t ↦ omega (arith, row_start_mono n r s (ground arith))
]

pub row_start_step : (n r : ℕ) → row_start n (r + 1) ≡ row_start n r + (n - r)
unfolding row_start
row_start_step n r = let e : r + 1 ≡ suc r = omega arith in rw e

offset_at : (r k : ℕ) → row_offset r (r + k) ≡ row_start (r + k) r
unfolding row_offset row_start
offset_at zero k = refl
offset_at (suc r) k =
    let c = row_start_closed (suc r + k) (suc r) k refl in
    let e : (suc r) * (suc r + k + (suc r + k - (suc r - 1))) ≡ (suc r) * (suc r + k + k + 1) =
      ap (λ t. suc r * t) (omega arith) in
    ground arith

pub row_offset-row_start : (n r : ℕ) → r ≤ n → row_offset r n ≡ row_start n r
row_offset-row_start n r h =
    subst (λ m. row_offset r m ≡ row_start m r) {x = r + (n - r)} (omega arith)
      (offset_at r (n - r))

-- The whole triangle.
pub row_start-all : (n : ℕ) → row_start n n ≡ n * (n + 1) / 2
row_start-all n = let c = row_start_closed n n 0 (omega arith) in omega arith

-- The bounds that one round of the search computes.
next_row_lem : (n r : ℕ) → r < n → (r + 1) * (n + (n - r)) / 2 ≡ row_start n (r + 1)
next_row_lem n r h =
    let k = n - r - 1 in
    let c = row_start_closed n (r + 1) k (omega arith) in
    let e : (r + 1) * (n + (n - r)) ≡ (r + 1) * (r + 1 + k + k + 1) =
      ap (λ t. (r + 1) * t) (omega arith) in
    omega arith

-- From any row up to `t`, with enough fuel, the search finds the row whose range holds `i`.
pub find_row_lem :
    (fuel r t i n : ℕ)
    → r ≤ t
    → t < r + fuel
    → t < n
    → row_start n t ≤ i
    → i < row_start n (t + 1)
    → find_row fuel r i n ≡ some (t, i - row_start n t + t)
unfolding find_row
find_row_lem zero r t i n a b c lo hi = absurd (omega arith)
find_row_lem (suc fuel) r t i n a b c lo hi = elim (Bool-cases (ltb r t)) [
  | inl before ↦
      ground (arith, next_row_lem n r, row_start_mono n (r + 1) t, find_row_lem fuel (r + 1) t i n)
  | inr at ↦
      let e : r ≡ t = ground arith in
      ground (arith, next_row_lem n r, row_start_step n r, ap (row_start n) e)
]

-- The index of an ordered pair, by the start of its row.
pub out_to_in_ordered :
    (r c n : ℕ) → r ≤ c → r ≤ n → out_to_in_index r c n ≡ row_start n r + (c - r)
unfolding out_to_in_index
out_to_in_ordered r c n h b = ground (arith, row_offset-row_start n r)

-- An access does not depend on the order of the two coordinates.
pub out_to_in_comm : (r c n : ℕ) → out_to_in_index r c n ≡ out_to_in_index c r n
unfolding out_to_in_index
out_to_in_comm r c n = elim (Bool-cases (r == c)) [
  | inl e ↦ let same : r ≡ c = ==→≡ r c e in rw same
  | inr e ↦ ground arith
]

pub out_to_in_min-max : (r c n : ℕ) → out_to_in_index r c n ≡ out_to_in_index (min r c) (max r c) n
out_to_in_min-max r c n = elim (Bool-cases (ltb c r)) [
  | inl t ↦
      let lo : min r c ≡ c = ground arith in
      let hi : max r c ≡ r = ground arith in rw (lo, hi) (out_to_in_comm r c n)
  | inr t ↦
      let lo : min r c ≡ r = ground arith in let hi : max r c ≡ c = ground arith in rw (lo, hi)
]

ordered-lt : (r c n : ℕ) → r ≤ c → c < n → out_to_in_index r c n < n * (n + 1) / 2
ordered-lt r c n h b = omega (
  arith,
  out_to_in_ordered r c n h (omega arith),
  row_start_step n r,
  row_start_mono n (r + 1) n (omega arith),
  row_start-all n,
)

-- For coordinates inside the matrix, the index lies inside the vector.
pub out_to_in-lt : (r c n : ℕ) → r < n → c < n → out_to_in_index r c n < n * (n + 1) / 2
out_to_in-lt r c n hr hc =
    omega
      (arith, out_to_in_min-max r c n, ordered-lt (min r c) (max r c) n (omega arith) (omega arith))

in_to_out_ordered :
    (r c n : ℕ) → r ≤ c → c < n → in_to_out_index (out_to_in_index r c n) n ≡ some (r, c)
unfolding in_to_out_index
in_to_out_ordered r c n h b =
    let i = row_start n r + (c - r) in
    let found : find_row n 0 i n ≡ some (r, i - row_start n r + r) =
      find_row_lem n 0 r i n (omega arith) (omega arith) (omega arith) (omega arith)
        (omega (arith, row_start_step n r)) in
    let e : i - row_start n r + r ≡ c = omega arith in
    rw (out_to_in_ordered r c n h (omega arith)) (rw e at found)

-- Reading back the index of a pair inside the matrix gives the pair, the smaller coordinate first.
pub in_to_out-out_to_in :
    (r c n : ℕ)
    → r < n
    → c < n
    → in_to_out_index (out_to_in_index r c n) n ≡ some (min r c, max r c)
in_to_out-out_to_in r c n hr hc =
    rw (out_to_in_min-max r c n)
      (in_to_out_ordered (min r c) (max r c) n (omega arith) (omega arith))

row_of :
    (n m i : ℕ)
    → i < row_start n m
    → (t : ℕ) × (t < m) × (row_start n t ≤ i) × (i < row_start n (t + 1))
unfolding row_start
row_of n zero i h = absurd (omega arith)
row_of n (suc m) i h = elim (Bool-cases (ltb i (row_start n m))) [
  | inl t ↦ let (r, a, b, c) = row_of n m i (ltb→lt _ _ t) in (r, omega arith, b, c)
  | inr t ↦ (m, omega arith, ltb→ge _ _ t, omega (arith, row_start_step n m))
]

-- Each index of the vector is found, and belongs to one ordered pair inside the matrix.
pub out_to_in-in_to_out :
    (i n : ℕ)
    → i < n * (n + 1) / 2
    → (r : ℕ) × (c : ℕ) × (in_to_out_index i n ≡ some (r, c))
      × (r ≤ c)
      × (c < n)
      × (out_to_in_index r c n ≡ i)
unfolding in_to_out_index
out_to_in-in_to_out i n h =
    let (t, a, lo, hi) = row_of n n i (omega (arith, row_start-all n)) in
    let step = row_start_step n t in
    let c = i - row_start n t + t in
    (
      t,
      c,
      find_row_lem n 0 t i n (omega arith) (omega arith) (omega arith) lo hi,
      omega arith,
      omega arith,
      out_to_in_ordered t c n (omega arith) (omega arith) ∙ omega arith,
    )

-- Two pairs share a cell only if they are the same up to order.
pub out_to_in_inj :
    (r c s d n : ℕ)
    → r < n
    → c < n
    → s < n
    → d < n
    → out_to_in_index r c n ≡ out_to_in_index s d n
    → (min r c ≡ min s d) × (max r c ≡ max s d)
out_to_in_inj r c s d n hr hc hs hd e =
    let p : ◌≡◌ {A = Option (ℕ × ℕ)} (some (min r c, max r c)) (some (min s d, max s d)) =
      sym (in_to_out-out_to_in r c n hr hc)
      ∙ ap (λ i. in_to_out_index i n) e
      ∙ in_to_out-out_to_in s d n hs hd in
    ground arith
