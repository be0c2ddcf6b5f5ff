-- ===== src/Cgraph/Arrival.antt =====
-- cgraph/src/lib.rs, `add_node`: what the graph is after a node has entered.
use kollaps.Prelude.{
  ℕ, ◌+◌, ◌-◌, ◌≤◌, ◌<◌, ◌≡◌, refl, sym, ◌∙◌, Bool, true, false, ◌||◌, none, some, List, [], ◌∷◌,
  arith, leb, min, max,
}
use kollaps.Matrix.{size, index}
use kollaps.Matrix.Access.{same_pair}
use kollaps.Matrix.Resize.{grow_fn_lem}
use kollaps.Cgraph.{Node, CGraph, ok, default_data, usize_max, find, add_node}
use kollaps.Cgraph.Cells.{update_lem}
use kollaps.Cgraph.Membership.{IsCGraph, contains-Below, Below}

Below-mono : {I : Type 0} (n m : ℕ) (ks : List (Node I)) → n ≤ m → Below n ks → Below m ks
Below-mono n m [] h b = tt
Below-mono n m (k ∷ ks) h b = (omega arith, Below-mono n m ks h b.1)

module _ {I : Type 0} (same : I → I → Bool) (g : CGraph I) (speed : ℕ) (info : I) where
  -- What the arrival of `node` makes of the graph.
  pub record Arrives (node : Node I) (h : CGraph I) : Type 0 where
    pub ordered : IsCGraph h
    pub entered : h.nodes ≡ node ∷ g.nodes
    pub described : (node.info ≡ info) × (node.node_speed ≡ speed)
    pub last : node.index_of ≡ g.c_graph.n
    pub larger : h.c_graph.n ≡ g.c_graph.n + 1
    pub kept :
        (r c : ℕ) → r < g.c_graph.n → c < g.c_graph.n → index h.c_graph r c ≡ index g.c_graph r c
    pub untested :
        (r : ℕ)
        → r < g.c_graph.n
        → index h.c_graph r g.c_graph.n ≡ some (default_data r g.c_graph.n)
    pub own :
        index h.c_graph g.c_graph.n g.c_graph.n
        ≡ some (record { limited = true; directly_tested = false; speed = usize_max })

  -- In a graph that is in order, a node whose information is new enters without an error: it gets
  -- the last index, the old cells stay, its cells are untested, and its own has no limit.
  pub add_node_new :
      IsCGraph g
      → find (λ x. same x.info info) g.nodes ≡ none
      → (node : Node I) × (h : CGraph I) × (add_node same g speed info ≡ ok (node, h))
        × Arrives node h
  unfolding add_node size default_data
  add_node_new v unknown =
      let n = g.c_graph.n in
      let (grown, eg, larger, valid, cells) = grow_fn_lem g.c_graph 1 default_data v.matrix in
      let at : grown.n - 1 ≡ n = omega arith in
      let (d, m, ed, em, size_m, valid_m, cells_m) =
        update_lem grown n n (λ d. record d { speed = usize_max }) valid (omega arith)
          (omega arith) in
      let node : Node I = record { index_of = n; node_speed = speed; info = info } in
      let fresh = contains-Below n n g.nodes v.below (omega arith) in
      (
        node,
        record { c_graph = m; nodes = node ∷ g.nodes },
        simp (add_node, unknown, eg, at, em, fresh),
        record {
          ordered = record {
            matrix = valid_m;
            counted = omega (arith, v.counted);
            below = (omega arith, Below-mono n m.n g.nodes (omega arith) v.below);
            apart = (fresh, v.apart);
          };
          entered = refl;
          described = (refl, refl);
          last = refl;
          larger = size_m ∙ larger;
          kept = λ r c hr hc.
              let other : same_pair n n r c ≡ false = ground arith in
              let old : (leb n r || leb n c) ≡ false = ground arith in
              cells_m r c (omega arith) (omega arith)
              ∙ rw (other, cells r c (omega arith) (omega arith), old);
          untested = λ r hr.
              let other : same_pair n n r n ≡ false = ground arith in
              let young : (leb n r || leb n n) ≡ true = ground arith in
              cells_m r n (omega arith) (omega arith)
              ∙ rw (other, cells r n (omega arith) (omega arith), young);
          own =
              let hit : same_pair n n n n ≡ true = ground arith in
              let young : (leb n n || leb n n) ≡ true = ground arith in
              let filled : some d ≡ some (default_data (min n n) (max n n)) =
                sym ed ∙ cells n n (omega arith) (omega arith) ∙ rw young in
              let value : d ≡ default_data (min n n) (max n n) = cc in
              cells_m n n (omega arith) (omega arith) ∙ rw (hit, value);
        },
      )
