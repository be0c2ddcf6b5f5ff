-- ===== src/Emulation/Topology/Vertices.antt =====
-- emulation/src/xmlgraphparser.rs: the vertices of the network that is made for the nodes.
use kollaps.Prelude.{
  ℕ, ◌+◌, ◌≡◌, refl, ap, sym, ◌∙◌, subst, ◌⊎◌, inl, inr, false, none, some, List, [], ◌∷◌, ◌++◌,
  map, length, Bool-cases, Option-cases, bind-some,
}
use mathlib.Core.Option.{some-injective}
use Prim.Native.String.{String}
use kollaps.Matrix.{index_mut, new_fn}
use kollaps.Netgraph.Link.{VertexEq, Link, build_all}
use kollaps.Netgraph.Network.{
  Network, new, get, insert, index_vertices, map_two, put_link, add_edge_with_props,
  shortest_path_strategy,
}
use kollaps.Netgraph.Network.Edit.{IsNetwork, new-IsNetwork, map_two-lt, put_link_lem}
use kollaps.Common.EmulMessage.{EmulationEvent}
use kollaps.Emulation.Data.{Node, id_of, node_eq, by_id}
use kollaps.Emulation.Topology.Names.{Apart, Different, nodes_of, node_eq-false_sym}

module _ {Ip : Type 0} where
  -- A node of the list has the identifier.
  abbrev pub HasId : ℕ → List (Node Ip String) → Type 0
  HasId n [] = ⊥
  HasId n (x ∷ xs) = (id_of x ≡ n) ⊎ HasId n xs

  abbrev pub AllHaveIds : List EmulationEvent → List (Node Ip String) → Type 0
  AllHaveIds [] xs = Unit
  AllHaveIds (e ∷ es) xs = HasId e.app_id xs × AllHaveIds es xs

  abbrev pub keys_of : List (Node Ip String × ℕ) → List (Node Ip String)
  keys_of m = map (λ e. e.0) m

  abbrev AllApart : List (Node Ip String) → List (Node Ip String) → Type 0
  AllApart [] ks = Unit
  AllApart (x ∷ xs) ks = Apart x ks × AllApart xs ks

  insert-keys :
      (k : Node Ip String) (i : ℕ) (m : List (Node Ip String × ℕ))
      → Apart k (keys_of m)
      → keys_of (insert by_id k i m) ≡ keys_of m ++ k ∷ []
  unfolding insert
  insert-keys k i [] h = refl
  insert-keys k i ((j, n) ∷ m) (e, h) = rw e (ap (λ l. j ∷ l) (insert-keys k i m h))

  Apart-append :
      (x k : Node Ip String) (ks : List (Node Ip String))
      → Apart x ks
      → node_eq k x ≡ false
      → Apart x (ks ++ k ∷ [])
  Apart-append x k [] h e = (e, tt)
  Apart-append x k (y ∷ ks) (f, h) e = (f, Apart-append x k ks h e)

  AllApart-append :
      (xs ks : List (Node Ip String)) (k : Node Ip String)
      → AllApart xs ks
      → Apart k xs
      → AllApart xs (ks ++ k ∷ [])
  AllApart-append [] ks k h a = tt
  AllApart-append (x ∷ xs) ks k (f, h) (e, a) =
      (Apart-append x k ks f (node_eq-false_sym x k e), AllApart-append xs ks k h a)

  append-cons :
      (ks : List (Node Ip String)) (x : Node Ip String) (xs : List (Node Ip String))
      → (ks ++ x ∷ []) ++ xs ≡ ks ++ x ∷ xs
  append-cons [] x xs = refl
  append-cons (k ∷ ks) x xs = ap (λ l. k ∷ l) (append-cons ks x xs)

  append-nil : (ks : List (Node Ip String)) → ks ++ [] ≡ ks
  append-nil [] = refl
  append-nil (k ∷ ks) = ap (λ l. k ∷ l) (append-nil ks)

  -- Different vertices are all entered, in order.
  index_vertices-keys :
      (i : ℕ) (xs : List (Node Ip String)) (m : List (Node Ip String × ℕ))
      → Different xs
      → AllApart xs (keys_of m)
      → keys_of (index_vertices by_id i xs m) ≡ keys_of m ++ xs
  unfolding index_vertices
  index_vertices-keys i [] m d h = sym (append-nil (keys_of m))
  index_vertices-keys i (x ∷ xs) m (a, d) (e, h) =
      let keys = insert-keys x i m e in
      index_vertices-keys (i + 1) xs (insert by_id x i m) d
        (rw keys (AllApart-append xs (keys_of m) x h a))
      ∙ rw keys (append-cons (keys_of m) x xs)

  AllApart-nil : (xs : List (Node Ip String)) → AllApart xs []
  AllApart-nil [] = tt
  AllApart-nil (x ∷ xs) = (tt, AllApart-nil xs)

  pub get-HasId :
      (names : VertexEq String) (k : String) (m : List (String × Node Ip String))
      {x : Node Ip String}
      → get names k m ≡ some x
      → HasId (id_of x) (nodes_of m)
  unfolding get
  get-HasId names k [] h = cc
  get-HasId names k ((j, y) ∷ m) h = elim (Bool-cases (names.beq j k)) [
    | inl t ↦ inl (ap id_of (some-injective _ _ (rw t at h)))
    | inr t ↦ inr (get-HasId names k m (rw t at h))
  ]

  module _ {F : Type 0} where
    put_link-mapper :
        (net : Network (Node Ip String) F) (i j : ℕ) (l : Link (Node Ip String) F)
        {w : Network (Node Ip String) F}
        → put_link net i j l ≡ some w
        → w.mapper ≡ net.mapper
    unfolding put_link
    put_link-mapper net i j l e =
        let (links, _, e1) = bind-some (index_mut net.links i j (some l)) _ e in
        sym (ap (λ n. n.mapper) (some-injective _ _ e1))

    pub add_edge_with_props-IsNetwork :
        (net : Network (Node Ip String) F) (a b : Node Ip String) (bw : ℕ) (lj : F × F) (drop : F)
        {w : Network (Node Ip String) F}
        → IsNetwork by_id net
        → add_edge_with_props by_id net a b bw lj drop ≡ some w
        → IsNetwork by_id w × (w.mapper ≡ net.mapper)
    unfolding add_edge_with_props
    add_edge_with_props-IsNetwork net a b bw lj drop {w} h e =
        elim (Option-cases (map_two by_id net a b)) [
          | inl absent ↦
              subst (λ v. IsNetwork by_id v × (v.mapper ≡ net.mapper))
                (some-injective _ _ (rw (add_edge_with_props, absent) at e)) (h, refl)
          | inr ((i, j), present) ↦
              let (hi, hj) = map_two-lt by_id net a b i j h present in
              let l = build_all a b i j bw lj drop in
              let (v, ev, ok_, _, _) = put_link_lem by_id net i j l h hi hj in
              let is : v ≡ w =
                some-injective _ _ (sym ev ∙ rw (add_edge_with_props, present) at e) in
              (
                subst (IsNetwork by_id) is ok_,
                put_link-mapper net i j l (rw (add_edge_with_props, present) at e),
              )
        ]

    -- The vertices of a new network are the nodes that it is made for.
    pub new-vertices :
        (xs : List (Node Ip String)) {net : Network (Node Ip String) F}
        → Different xs
        → new by_id xs shortest_path_strategy ≡ some net
        → IsNetwork by_id net × (keys_of net.mapper ≡ xs)
    unfolding new
    new-vertices xs d e =
        let (links, _, e1) = bind-some (new_fn (length xs) (λ _ _. some none)) _ e in
        let (fresh, ef, h, _, _, _, _, _) = new-IsNetwork by_id xs shortest_path_strategy in
        let is = some-injective _ _ (sym ef ∙ e) in
        let mapper = sym (ap (λ n. n.mapper) (some-injective _ _ e1)) in
        (
          subst (IsNetwork by_id) is h,
          ap keys_of mapper ∙ index_vertices-keys 0 xs [] d (AllApart-nil xs),
        )
