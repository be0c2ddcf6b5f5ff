-- ===== src/Cgraph/Layout.antt =====
-- cgraph/src/lib.rs: the shape of what `speeds` gives.
use kollaps.Prelude.{ℕ, ◌≡◌, sym, ap, List, length, collect, collect-length}
use kollaps.Matrix.{SymMatrix, size, index, new_fn}
use kollaps.Matrix.Access.{IsValid}
use kollaps.Matrix.Resize.{new_fn-IsValid}
use kollaps.Cgraph.{
  CGraph, ok, ok_or, panic, speeds, graph_size, node_by_index, info_of, read_speed,
}
use kollaps.Cgraph.Results.{bind-ok, ok_or-ok, ok-injective}

-- The matrix has one row for each of the nodes.
pub speeds-IsValid :
    {I : Type 0} (g : CGraph I) (m : SymMatrix ℕ) (infos : List I)
    → speeds g ≡ ok (m, infos)
    → IsValid m × (m.n ≡ length infos)
unfolding speeds size
speeds-IsValid g m infos h =
    let (w, ew, h1) =
      bind-ok
        (ok_or (new_fn (graph_size g) (λ row col. read_speed (index g.c_graph row col))) panic) _
        (m, infos) h in
    let (is, ei, h2) =
      bind-ok (ok_or (collect (size w) 0 (λ i. info_of (node_by_index g i))) panic) _ (m, infos)
        h1 in
    let (_, valid) = new_fn-IsValid (graph_size g) _ w (ok_or-ok _ _ _ ew) in
    let count = collect-length (size w) 0 _ is (ok_or-ok _ _ _ ei) in
    let same = ok-injective _ _ h2 in
    let same_matrix : w ≡ m = ap (λ p. p.0) same in
    let same_infos : is ≡ infos = ap (λ p. p.1) same in
    rw (← same_matrix, ← same_infos) (valid, sym count)
