-- ===== src/Netgraph/Network/Keys.antt =====
-- netgraph/src/lib.rs: the keys that the mapper from vertices to indices stores.
use kollaps.Prelude.{
  inl, inr, Bool-cases, false, ◌∙◌, ℕ, ◌+◌, ◌≡◌, refl, Option, none, some, List, [], ◌∷◌, arith,
  if◌then◌else◌,
}
use kollaps.Netgraph.Link.{VertexEq}
use kollaps.Netgraph.Network.{get, insert, remove, index_vertices}
use kollaps.Netgraph.Network.Vertices.{get-insert, get-remove, get_cong}

module _ {T : Type 0} (v : VertexEq T) where
  open v use {beq, beq_refl, beq_sym, beq_trans}

  -- No two keys are equal, as in a `HashMap`.
  abbrev pub AreKeys : {V : Type 0} → List (T × V) → Type 0
  AreKeys [] = Unit
  AreKeys ((a, _) ∷ m) = (get v a m ≡ none) × AreKeys m

  -- The key that is stored for the ones that equal it.
  unfoldable pub key_of : {V : Type 0} → T → List (T × V) → Option T
  key_of k [] = none
  key_of k ((a, _) ∷ m) = if beq a k then some a else key_of k m

  get-remove_self :
      {V : Type 0} (k : T) (m : List (T × V)) → AreKeys m → get v k (remove v k m) ≡ none
  unfolding get remove
  get-remove_self k [] h = refl
  get-remove_self k ((a, i) ∷ m) (fresh, h) = elim (Bool-cases (beq a k)) [
    | inl t ↦ rw t (get_cong v a k m t ∙ fresh)
    | inr t ↦ rw t (rw t (get-remove_self k m h))
  ]

  key_of-insert :
      {V : Type 0} (k j : T) (x : V) (m : List (T × V))
      → get v k m ≡ none
      → key_of j (insert v k x m) ≡ (if beq k j then some k else key_of j m)
  unfolding get insert key_of
  key_of-insert k j x [] h = refl
  key_of-insert k j x ((a, i) ∷ m) h =
      ground (arith, key_of-insert k j x m, beq_trans a j k, beq_sym k j)

  key_of-remove :
      {V : Type 0} (k j : T) (m : List (T × V))
      → beq k j ≡ false
      → key_of j (remove v k m) ≡ key_of j m
  unfolding remove key_of
  key_of-remove k j [] e = refl
  key_of-remove k j ((a, i) ∷ m) e =
      ground (arith, key_of-remove k j m e, beq_trans k a j, beq_sym a k)

  -- Replacing a key by an equal one stores the new one, and no other key changes.
  pub key_of-replace :
      {V : Type 0} (k j : T) (x : V) (m : List (T × V))
      → AreKeys m
      → key_of j (insert v k x (remove v k m)) ≡ (if beq k j then some k else key_of j m)
  key_of-replace k j x m h =
      key_of-insert k j x (remove v k m) (get-remove_self k m h) ∙ elim (Bool-cases (beq k j)) [
        | inl same ↦ rw same refl
        | inr other ↦ rw other (key_of-remove k j m other)
      ]

  AreKeys-remove : {V : Type 0} (k : T) (m : List (T × V)) → AreKeys m → AreKeys (remove v k m)
  unfolding remove
  AreKeys-remove k [] h = tt
  AreKeys-remove k ((a, i) ∷ m) (fresh, h) = elim (Bool-cases (beq a k)) [
    | inl t ↦ rw t h
    | inr t ↦
        let other : beq k a ≡ false = ground (arith, beq_sym k a) in
        rw t (get-remove v k a m other ∙ fresh, AreKeys-remove k m h)
  ]

  AreKeys-insert :
      {V : Type 0} (k : T) (x : V) (m : List (T × V)) → AreKeys m → AreKeys (insert v k x m)
  unfolding get insert
  AreKeys-insert k x [] h = (refl, tt)
  AreKeys-insert k x ((a, i) ∷ m) (fresh, h) = elim (Bool-cases (beq a k)) [
    | inl t ↦ rw t (fresh, h)
    | inr t ↦
        let other : beq k a ≡ false = ground (arith, beq_sym k a) in
        rw t (get-insert v k a x m ∙ rw other fresh, AreKeys-insert k x m h)
  ]

  pub AreKeys-replace :
      {V : Type 0} (k : T) (x : V) (m : List (T × V))
      → AreKeys m
      → AreKeys (insert v k x (remove v k m))
  AreKeys-replace k x m h = AreKeys-insert k x (remove v k m) (AreKeys-remove k m h)

  pub index_vertices-AreKeys :
      (i : ℕ) (ks : List T) (m : List (T × ℕ)) → AreKeys m → AreKeys (index_vertices v i ks m)
  unfolding index_vertices
  index_vertices-AreKeys i [] m h = h
  index_vertices-AreKeys i (k ∷ ks) m h =
      index_vertices-AreKeys (i + 1) ks (insert v k i m) (AreKeys-insert k i m h)
