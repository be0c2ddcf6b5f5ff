-- ===== src/Matrix/Access.antt =====
-- Reading and writing a `SymMatrix` at a pair of coordinates.
use kollaps.Prelude.{
  ℕ, ◌+◌, ◌*◌, ◌/◌, ◌<◌, ◌≡◌, ◌≢◌, refl, ◌∙◌, Bool, ◌&&◌, ◌||◌, some, arith, length, get_elem?, set,
  ◌==◌, if◌then◌else◌, lt→ltb, get_elem?-lt, length-set, get_elem?-set_self, get_elem?-set_ne,
  Bool-cases, inl, inr, ap, true, false,
}
use kollaps.Matrix.{SymMatrix, out_to_in_index, index, index_mut}
use kollaps.Matrix.Triangle.{out_to_in-lt, out_to_in_comm, out_to_in_inj}

-- The two pairs of coordinates name the same cell.
abbrev pub same_pair : ℕ → ℕ → ℕ → ℕ → Bool
same_pair r c s d = r == s && c == d || r == d && c == s

same_cell :
    (n r c s d : ℕ) → same_pair r c s d ≡ true → out_to_in_index r c n ≡ out_to_in_index s d n
same_cell n r c s d h = elim (Bool-cases (r == s && c == d)) [
  | inl e ↦ let a : r ≡ s = ground arith in let b : c ≡ d = ground arith in rw (a, b)
  | inr e ↦
      let a : r ≡ d = ground arith in
      let b : c ≡ s = ground arith in rw (a, b) (out_to_in_comm d s n)
]

other_cell :
    (n r c s d : ℕ)
    → r < n
    → c < n
    → s < n
    → d < n
    → same_pair r c s d ≡ false
    → out_to_in_index r c n ≢ out_to_in_index s d n
other_cell n r c s d hr hc hs hd h e =
    let same = out_to_in_inj r c s d n hr hc hs hd e in grind arith

module _ {ℓ} {T : Type ℓ} where
  -- The vector holds the upper triangle, and nothing else.
  abbrev pub IsValid : SymMatrix T → Type 0
  IsValid m = length m.items ≡ m.n * (m.n + 1) / 2

  pub index_comm : (m : SymMatrix T) (r c : ℕ) → index m r c ≡ index m c r
  unfolding index
  index_comm m r c = ap (get_elem? m.items) (out_to_in_comm r c m.n)

  pub index-some :
      (m : SymMatrix T) (r c : ℕ) → IsValid m → r < m.n → c < m.n → (v : T) × (index m r c ≡ some v)
  unfolding index
  index-some m r c h hr hc = get_elem?-lt m.items _ (rw h (out_to_in-lt r c m.n hr hc))

  -- A write inside the matrix succeeds, keeps the layout, and changes the cell of the pair, in
  -- either order of its coordinates, and no other.
  pub index_mut_lem :
      (m : SymMatrix T) (r c : ℕ) (v : T)
      → IsValid m
      → r < m.n
      → c < m.n
      → (w : SymMatrix T) × (index_mut m r c v ≡ some w)
        × (w.n ≡ m.n)
        × IsValid w
        × ((s d : ℕ)
            → s < m.n
            → d < m.n
            → index w s d ≡ (if same_pair r c s d then some v else index m s d))
  unfolding index_mut index
  index_mut_lem m r c v h hr hc =
      let i = out_to_in_index r c m.n in
      let b : i < length m.items = rw h (out_to_in-lt r c m.n hr hc) in
      (
        record m { items = set m.items i v },
        rw (lt→ltb _ _ b),
        refl,
        length-set m.items i v ∙ h,
        λ s d hs hd. elim (Bool-cases (same_pair r c s d)) [
          | inl e ↦ rw (e, ← same_cell m.n r c s d e) (get_elem?-set_self m.items i v b)
          | inr e ↦ rw e (get_elem?-set_ne m.items i _ v (other_cell m.n r c s d hr hc hs hd e))
        ],
      )
