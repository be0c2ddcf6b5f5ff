-- ===== src/Cgraph/Membership.antt =====
-- cgraph/src/lib.rs: nodes enter and leave the graph, and their indices stay those of the matrix.
use kollaps.Prelude.{
  ℕ, suc, ◌+◌, ◌-◌, ◌≤◌, ◌<◌, ◌≡◌, refl, sym, ap, ◌∙◌, inl, inr, Bool, true, false, some, List, [],
  ◌∷◌, map, arith, length, ltb, ◌==◌, if◌then◌else◌, Bool-cases, ==_refl,
}
use kollaps.Matrix.{size, index}
use kollaps.Matrix.Access.{IsValid}
use kollaps.Matrix.Resize.{remove_id_lem, skip}
use kollaps.Cgraph.{
  Node, CGraph, ok, contains, remove_node, collect_nodes, find, shift, remove_one_by,
}

module _ {I : Type 0} where
  -- The indices of the nodes lie below `n`, and differ.
  abbrev pub Below : ℕ → List (Node I) → Type 0
  Below n [] = Unit
  Below n (k ∷ ks) = (k.index_of < n) × Below n ks

  abbrev pub Apart : List (Node I) → Type 0
  Apart [] = Unit
  Apart (k ∷ ks) = (contains ks k.index_of ≡ false) × Apart ks

  -- The matrix has one row for each node, and the indices of the nodes are its rows.
  pub record IsCGraph (g : CGraph I) : Type 0 where
    pub matrix : IsValid g.c_graph
    pub counted : length g.nodes ≡ g.c_graph.n
    pub below : Below g.c_graph.n g.nodes
    pub apart : Apart g.nodes

  pub contains-Below : (n i : ℕ) (ks : List (Node I)) → Below n ks → n ≤ i → contains ks i ≡ false
  unfolding contains
  contains-Below n i [] b h = refl
  contains-Below n i (k ∷ ks) b h = ground (arith, contains-Below n i ks b.1)

  pub Below-suc : (n : ℕ) (ks : List (Node I)) → Below n ks → Below (n + 1) ks
  Below-suc n [] b = tt
  Below-suc n (k ∷ ks) b = (omega arith, Below-suc n ks b.1)

  pub find-contains :
      (p : Node I → Bool) (ks : List (Node I)) (k : Node I)
      → find p ks ≡ some k
      → (contains ks k.index_of ≡ true) × (p k ≡ true)
  unfolding find contains
  find-contains p [] k e = cc
  find-contains p (x ∷ ks) k e = elim (Bool-cases (p x)) [
    | inl hit ↦
        let same : x ≡ k = ground arith in
        let self : (k.index_of == k.index_of) ≡ true = ==_refl k.index_of in
        (rw (same, self), rw (← same) hit)
    | inr miss ↦ let (c, pk) = find-contains p ks k (rw (miss, find) at e) in (ground arith, pk)
  ]

  lt_of_contains : (n i : ℕ) (ks : List (Node I)) → Below n ks → contains ks i ≡ true → i < n
  lt_of_contains n i ks b c = elim (Bool-cases (ltb i n)) [
    | inl t ↦ ground arith
    | inr t ↦ let no_one = contains-Below n i ks b (ground arith) in cc
  ]

  length-remove_node :
      (ks : List (Node I)) (i : ℕ)
      → contains ks i ≡ true
      → length ks ≡ suc (length (remove_node ks i))
  unfolding contains remove_node
  length-remove_node [] i c = cc
  length-remove_node (k ∷ ks) i c = ground (arith, length-remove_node ks i)

  remove_node_absent : (ks : List (Node I)) (i : ℕ) → contains ks i ≡ false → remove_node ks i ≡ ks
  unfolding contains remove_node
  remove_node_absent [] i c = refl
  remove_node_absent (k ∷ ks) i c = ground (arith, remove_node_absent ks i)

  contains-remove_node :
      (ks : List (Node I)) (i j : ℕ)
      → Apart ks
      → contains (remove_node ks i) j ≡ (if i == j then false else contains ks j)
  unfolding contains remove_node
  contains-remove_node [] i j a = ground arith
  contains-remove_node (k ∷ ks) i j a = ground (arith, contains-remove_node ks i j a.1, a.0)

  -- Collecting nodes that differ already keeps them all.
  pub collect_nodes-Apart : (ks : List (Node I)) → Apart ks → collect_nodes ks ≡ ks
  unfolding collect_nodes
  collect_nodes-Apart [] a = refl
  collect_nodes-Apart (k ∷ ks) a =
      rw (collect_nodes-Apart ks a.1, remove_node_absent ks k.index_of a.0)

  contains-shift :
      (i j : ℕ) (ks : List (Node I))
      → contains ks i ≡ false
      → contains (map (shift i) ks) j ≡ contains ks (skip i j)
  unfolding contains shift
  contains-shift i j [] c = refl
  contains-shift i j (k ∷ ks) c = ground (arith, contains-shift i j ks)

  skip-shift :
      (i : ℕ) (k : Node I) → (k.index_of == i) ≡ false → skip i (shift i k).index_of ≡ k.index_of
  unfolding shift
  skip-shift i k e = ground arith

  Apart-shift :
      (i : ℕ) (ks : List (Node I)) → contains ks i ≡ false → Apart ks → Apart (map (shift i) ks)
  unfolding contains
  Apart-shift i [] c a = tt
  Apart-shift i (k ∷ ks) c a =
      let other : (k.index_of == i) ≡ false = ground arith in
      let rest : contains ks i ≡ false = ground arith in
      (
        contains-shift i (shift i k).index_of ks rest ∙ rw (skip-shift i k other) a.0,
        Apart-shift i ks rest a.1,
      )

  Below-shift :
      (n i : ℕ) (ks : List (Node I))
      → i < n
      → contains ks i ≡ false
      → Below n ks
      → Below (n - 1) (map (shift i) ks)
  unfolding contains shift
  Below-shift n i [] h c b = tt
  Below-shift n i (k ∷ ks) h c b = (ground arith, Below-shift n i ks h (ground arith) b.1)

  Below-remove_node : (n i : ℕ) (ks : List (Node I)) → Below n ks → Below n (remove_node ks i)
  unfolding remove_node
  Below-remove_node n i [] b = tt
  Below-remove_node n i (k ∷ ks) b = ground (arith, Below-remove_node n i ks b.1)

  Apart-remove_node : (i : ℕ) (ks : List (Node I)) → Apart ks → Apart (remove_node ks i)
  unfolding remove_node
  Apart-remove_node i [] a = tt
  Apart-remove_node i (k ∷ ks) a =
      ground (arith, Apart-remove_node i ks a.1, contains-remove_node ks i k.index_of a.1)

  length-shift : (i : ℕ) (ks : List (Node I)) → length (map (shift i) ks) ≡ length ks
  length-shift i [] = refl
  length-shift i (k ∷ ks) = ap suc (length-shift i ks)

  -- Removing the node that a predicate finds keeps the graph in order: the error for an
  -- inconsistent state never shows. The speeds of the other nodes move with their indices.
  pub remove_one_by-IsCGraph :
      (g : CGraph I) (predicate : Node I → Bool) (k : Node I)
      → IsCGraph g
      → find predicate g.nodes ≡ some k
      → (h : CGraph I) × (remove_one_by g predicate ≡ ok h)
        × IsCGraph h
        × (h.c_graph.n + 1 ≡ g.c_graph.n)
        × (h.nodes ≡ map (shift k.index_of) (remove_node g.nodes k.index_of))
        × ((r c : ℕ)
            → r + 1 < g.c_graph.n
            → c + 1 < g.c_graph.n
            → index h.c_graph r c ≡ index g.c_graph (skip k.index_of r) (skip k.index_of c))
  unfolding remove_one_by size
  remove_one_by-IsCGraph g predicate k v found =
      let i = k.index_of in
      let (held, _) = find-contains predicate g.nodes k found in
      let inside = lt_of_contains g.c_graph.n i g.nodes v.below held in
      let (m, em, smaller, valid, cells) = remove_id_lem g.c_graph i v.matrix (omega arith) in
      let left = remove_node g.nodes i in
      let gone : contains left i ≡ false =
        contains-remove_node g.nodes i i v.apart ∙ rw (==_refl i) in
      let apart = Apart-shift i left gone (Apart-remove_node i g.nodes v.apart) in
      let below =
        Below-shift g.c_graph.n i left inside gone
          (Below-remove_node g.c_graph.n i g.nodes v.below) in
      let count : m.n ≡ length (map (shift i) left) =
        omega (arith, length-shift i left, length-remove_node g.nodes i held, v.counted) in
      let n_eq : g.c_graph.n - 1 ≡ m.n = omega arith in
      let test : (m.n == length (map (shift i) left)) ≡ true = ground arith in
      (
        record { c_graph = m; nodes = map (shift i) left },
        simp (remove_one_by, found, em, held, collect_nodes-Apart (map (shift i) left) apart, test),
        record { matrix = valid; counted = sym count; below = rw n_eq at below; apart = apart },
        smaller,
        refl,
        cells,
      )
