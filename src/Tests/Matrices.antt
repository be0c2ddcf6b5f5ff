-- ===== src/Tests/Matrices.antt =====
-- The packed matrix on small inputs.
use kollaps.Prelude.{
  ℕ, ◌+◌, ◌*◌, ◌≤◌, ◌<◌, ◌≡◌, refl, ◌||◌, some, [], ◌∷◌, arith, leb, if◌then◌else◌, min, max,
}
use kollaps.Matrix.{
  SymMatrix, out_to_in_index, in_to_out_index, index, index_mut, grow_fn, remove_id,
}
use kollaps.Matrix.Square
use kollaps.Matrix.Triangle.{in_to_out-out_to_in, out_to_in-in_to_out}
use kollaps.Matrix.Access.{IsValid, same_pair, index_mut_lem}
use kollaps.Matrix.Resize.{skip, grow_fn_lem, remove_id_lem}

abbrev square : SymMatrix ℕ
square = record { n = 3; items = 1 ∷ 2 ∷ 3 ∷ 4 ∷ 5 ∷ 6 ∷ [] }

in_to_out-out_to_in_example : in_to_out_index (out_to_in_index 2 1 3) 3 ≡ some (1, 2)
in_to_out-out_to_in_example = in_to_out-out_to_in 2 1 3 (omega arith) (omega arith)

out_to_in-in_to_out_example :
    (r : ℕ) × (c : ℕ) × (in_to_out_index 4 3 ≡ some (r, c))
    × (r ≤ c)
    × (c < 3)
    × (out_to_in_index r c 3 ≡ 4)
out_to_in-in_to_out_example = out_to_in-in_to_out 4 3 (omega arith)

index_mut_example :
    (w : SymMatrix ℕ) × (index_mut square 2 1 9 ≡ some w)
    × (w.n ≡ 3)
    × IsValid w
    × ((s d : ℕ)
        → s < 3
        → d < 3
        → index w s d ≡ (if same_pair 2 1 s d then some 9 else index square s d))
index_mut_example = index_mut_lem square 2 1 9 refl (omega arith) (omega arith)

grow_fn_example :
    (w : SymMatrix ℕ) × (grow_fn square 1 (λ r c. r * 10 + c) ≡ some w)
    × (w.n ≡ 4)
    × IsValid w
    × ((r c : ℕ)
        → r < 4
        → c < 4
        → index w r c
          ≡ (if leb 3 r || leb 3 c then some (min r c * 10 + max r c) else index square r c))
grow_fn_example = grow_fn_lem square 1 (λ r c. r * 10 + c) refl

remove_id_example :
    (w : SymMatrix ℕ) × (remove_id square 1 ≡ some w)
    × (w.n + 1 ≡ 3)
    × IsValid w
    × ((r c : ℕ) → r + 1 < 3 → c + 1 < 3 → index w r c ≡ index square (skip 1 r) (skip 1 c))
remove_id_example = remove_id_lem square 1 refl (omega arith)

abbrev single : Square.Matrix ℕ
single = record { n = 1; rows = (7 ∷ []) ∷ [] }

single-IsSquare : Square.IsSquare single
unfolding Square.index
single-IsSquare r c hr hc =
    let row : r ≡ 0 = omega arith in let col : c ≡ 0 = omega arith in rw (row, col) (7, refl)

grow_fn-IsSquare_example :
    (w : Square.Matrix ℕ) × (Square.grow_fn single 1 (λ r c. r * 10 + c) ≡ some w)
    × (w.n ≡ 2)
    × Square.IsSquare w
    × ((r c : ℕ)
        → r < 2
        → c < 2
        → Square.index w r c
          ≡ (if leb 1 r || leb 1 c then some (r * 10 + c) else Square.index single r c))
grow_fn-IsSquare_example = Square.grow_fn-IsSquare single 1 (λ r c. r * 10 + c) single-IsSquare
