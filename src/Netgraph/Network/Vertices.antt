-- ===== src/Netgraph/Network/Vertices.antt =====
-- netgraph/src/lib.rs: the mapper from vertices to indices.
use kollaps.Prelude.{
  inl, inr, Bool-cases, true, false, sym, ap, ◌∙◌, ℕ, zero, suc, ◌+◌, ◌≤◌, ◌<◌, ◌≡◌, refl, some,
  List, [], ◌∷◌, arith, length, if◌then◌else◌, get_elem?,
}
use mathlib.Core.Option.{some-injective}
use kollaps.Netgraph.Link.{VertexEq}
use kollaps.Netgraph.Network.{get, insert, remove, index_vertices}

module _ {T : Type 0} (v : VertexEq T) where
  open v use {beq, beq_refl, beq_sym, beq_trans}

  -- A map law in one equation: the entry of `k` is the new index, the others are kept.
  pub get-insert :
      {V : Type 0} (k j : T) (x : V) (m : List (T × V))
      → get v j (insert v k x m) ≡ (if beq k j then some x else get v j m)
  unfolding get insert
  get-insert k j x [] = refl
  get-insert k j x ((a, i) ∷ m) = ground (
    arith,
    get-insert k j x m,
    beq_trans a k j,
    beq_trans k a j,
    beq_trans a j k,
    beq_sym a k,
    beq_sym k j,
    beq_sym a j,
    beq_sym k a,
  )

  pub get_cong : {V : Type 0} (k j : T) (m : List (T × V)) → beq k j ≡ true → get v j m ≡ get v k m
  unfolding get
  get_cong k j [] e = refl
  get_cong k j ((a, i) ∷ m) e =
      ground (arith, get_cong k j m e, beq_trans a k j, beq_trans a j k, beq_sym k j)

  pub get-remove :
      {V : Type 0} (k j : T) (m : List (T × V))
      → beq k j ≡ false
      → get v j (remove v k m) ≡ get v j m
  unfolding get remove
  get-remove k j [] e = refl
  get-remove k j ((a, i) ∷ m) e = ground (arith, get-remove k j m e, beq_trans k a j, beq_sym a k)

  -- Replacing a key by an equal one leaves the index of every key as it was.
  pub get-replace :
      {V : Type 0} (k j : T) (x : V) (m : List (T × V))
      → get v k m ≡ some x
      → get v j (insert v k x (remove v k m)) ≡ get v j m
  get-replace k j x m held = elim (Bool-cases (beq k j)) [
    | inl same ↦ get-insert k j x (remove v k m) ∙ rw same (sym held ∙ sym (get_cong k j m same))
    | inr other ↦ get-insert k j x (remove v k m) ∙ rw other (get-remove k j m other)
  ]

  -- Every index of the mapper lies below `n`.
  abbrev pub InRange : ℕ → List (T × ℕ) → Type 0
  InRange n m = (k : T) (i : ℕ) → get v k m ≡ some i → i < n

  pub InRange-nil : (n : ℕ) → InRange n []
  unfolding get
  InRange-nil n k i e = cc

  pub InRange-insert :
      (n : ℕ) (k : T) (x : ℕ) (m : List (T × ℕ)) → x < n → InRange n m → InRange n (insert v k x m)
  InRange-insert n k x m h r j i e = ground (arith, get-insert k j x m, r j i)

  pub index_vertices-InRange :
      (n i : ℕ) (ks : List T) (m : List (T × ℕ))
      → i + length ks ≤ n
      → InRange n m
      → InRange n (index_vertices v i ks m)
  unfolding index_vertices
  index_vertices-InRange n i [] m h r = r
  index_vertices-InRange n i (k ∷ ks) m h r =
      index_vertices-InRange n (i + 1) ks (insert v k i m) (omega arith)
        (InRange-insert n k i m (omega arith) r)

  -- A key that is not among the vertices keeps its entry.
  pub index_vertices-absent :
      (i : ℕ) (ks : List T) (m : List (T × ℕ)) (k : T)
      → ((q : ℕ) (y : T) → get_elem? ks q ≡ some y → beq y k ≡ false)
      → get v k (index_vertices v i ks m) ≡ get v k m
  unfolding index_vertices
  index_vertices-absent i [] m k h = refl
  index_vertices-absent i (a ∷ ks) m k h =
      index_vertices-absent (i + 1) ks (insert v a i m) k (λ q y e. h (suc q) y e)
      ∙ get-insert a k i m
      ∙ rw (h 0 a refl) refl

  -- A vertex gets the last position at which it stands.
  pub index_vertices-last :
      (i : ℕ) (ks : List T) (m : List (T × ℕ)) (p : ℕ) (x : T)
      → get_elem? ks p ≡ some x
      → ((q : ℕ) (y : T) → p < q → get_elem? ks q ≡ some y → beq y x ≡ false)
      → get v x (index_vertices v i ks m) ≡ some (i + p)
  unfolding index_vertices
  index_vertices-last i [] m p x e h = cc
  index_vertices-last i (a ∷ ks) m zero x e h =
      let same : a ≡ x = some-injective _ _ e in
      let hit : beq a x ≡ true = rw same (beq_refl x) in
      let here : i ≡ i + 0 = omega arith in
      index_vertices-absent (i + 1) ks (insert v a i m) x (λ q y ey. h (suc q) y (omega arith) ey)
      ∙ get-insert a x i m
      ∙ rw hit (ap some here)
  index_vertices-last i (a ∷ ks) m (suc p) x e h =
      let next : i + 1 + p ≡ i + suc p = omega arith in
      index_vertices-last (i + 1) ks (insert v a i m) p x e
        (λ q y lt ey. h (suc q) y (omega arith) ey)
      ∙ ap some next
