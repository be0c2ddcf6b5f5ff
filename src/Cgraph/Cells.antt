-- ===== src/Cgraph/Cells.antt =====
-- cgraph/src/lib.rs: a write to a field of a cell.
use kollaps.Prelude.{ℕ, ◌<◌, ◌≡◌, some, if◌then◌else◌}
use kollaps.Matrix.{SymMatrix, index}
use kollaps.Matrix.Access.{IsValid, same_pair, index_mut_lem, index-some}
use kollaps.Cgraph.{TestData, ok, update}

-- Inside the matrix the write does not panic, and changes the cell of the pair by `f`.
pub update_lem :
    (m : SymMatrix TestData) (r c : ℕ) (f : TestData → TestData)
    → IsValid m
    → r < m.n
    → c < m.n
    → (d : TestData) × (w : SymMatrix TestData) × (index m r c ≡ some d)
      × (update m r c f ≡ ok w)
      × (w.n ≡ m.n)
      × IsValid w
      × ((s e : ℕ)
          → s < m.n
          → e < m.n
          → index w s e ≡ (if same_pair r c s e then some (f d) else index m s e))
unfolding update
update_lem m r c f v hr hc =
    let (d, ed) = index-some m r c v hr hc in
    let (w, ew, size, valid, cells) = index_mut_lem m r c (f d) v hr hc in
    (d, w, ed, rw (ed, ew), size, valid, cells)
