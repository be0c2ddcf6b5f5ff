-- ===== src/Cgraph/Missing/Answer.antt =====
-- cgraph/src/lib.rs: what `find_missing_from_me` answers.
use kollaps.Prelude.{
  ℕ, ◌<◌, ◌≡◌, ◌≢◌, refl, sym, ◌∙◌, inl, inr, true, false, not, ◌&&◌, ◌||◌, Option, none, some,
  List, [], ◌∷◌, ◌++◌, arith, ltb, ◌==◌, min, Bool-cases,
}
use mathlib.Core.Bool.{false≢true}
use mathlib.Core.Option.{some-injective}
use kollaps.Matrix.Access.{index-some}
use kollaps.Cgraph.{Node, CGraph, ok, contains}
use kollaps.Cgraph.Membership.{IsCGraph, Below}
use kollaps.Cgraph.Missing.{
  is_known, Rule, Scan, apply_rule, scan_node, fastest_from, fastest, find_missing_from_me,
}
use kollaps.Cgraph.Missing.Rounds.{Each, Each-++, ++-nonempty, for_nodes_lem, Sized, shorten_lem}

module _ {I : Type 0} where
  apply_rule_lem :
      (n from to : ℕ) (k : Node I) (r : Rule)
      → from < n
      → to < n
      → k.index_of < n
      → Sized n r.1
      → (t : Rule) × (apply_rule from to k r ≡ ok t) × Sized n t.1
  unfolding apply_rule
  apply_rule_lem n from to k (true, m) hf ht hk h = ((true, m), refl, h)
  apply_rule_lem n from to k (false, m) hf ht hk h =
      let inside = h.1 in
      let (a, ea) = index-some m from k.index_of h.0 (omega arith) (omega arith) in
      let (b, eb) = index-some m k.index_of to h.0 (omega arith) (omega arith) in
      elim (Bool-cases (k.index_of == from || k.index_of == to)) [
        | inl end ↦ ((false, m), rw end, h)
        | inr third ↦ elim (Bool-cases (is_known a)) [
          | inr unknown ↦ ((false, m), rw (third, ea, unknown), h)
          | inl known ↦ elim (Bool-cases (is_known b)) [
            | inr unknown ↦ ((false, m), rw (third, ea, known, eb, unknown), h)
            | inl far ↦ elim (Bool-cases (a.speed == b.speed)) [
              | inl level ↦ ((false, m), rw (third, ea, known, eb, far, level), h)
              | inr apart ↦
                  let (t, et, ht) = shorten_lem n from to (min a.speed b.speed) m h hf ht in
                  (t, rw (third, ea, known, eb, far, apart) et, ht)
            ]
          ]
        ]
      ]

  fastest_from_lem :
      (Q : Node I → Type 0) (best : Node I) (ks : List (Node I))
      → Q best
      → Each Q ks
      → Q (fastest_from best ks)
  unfolding fastest_from
  fastest_from_lem Q best [] q e = q
  fastest_from_lem Q best (k ∷ ks) q e = elim (Bool-cases (ltb k.node_speed best.node_speed)) [
    | inl slower ↦ rw slower (fastest_from_lem Q best ks q e.1)
    | inr faster ↦ rw faster (fastest_from_lem Q k ks e.0 e.1)
  ]

  -- A node of the graph that is not `me`.
  abbrev Other : List (Node I) → Node I → Node I → Type 0
  Other nodes me k = (contains nodes k.index_of ≡ true) × (me.index_of ≢ k.index_of)

  record InOrder (n : ℕ) (nodes : List (Node I)) (me : Node I) (s : Scan I) : Type 0 where
    pub sized : Sized n s.matrix
    pub others : Each (Other nodes me) s.missing_links
    pub listed : s.missing ≡ true → s.missing_links ≢ []

  scan_node_lem :
      (n : ℕ) (nodes : List (Node I)) (me to : Node I) (sufficient : ℕ) (s : Scan I)
      → Each (λ k. k.index_of < n) nodes
      → me.index_of < n
      → to.index_of < n
      → contains nodes to.index_of ≡ true
      → InOrder n nodes me s
      → (t : Scan I) × (scan_node nodes me sufficient to s ≡ ok t) × InOrder n nodes me t
  unfolding scan_node
  scan_node_lem n nodes me to sufficient s all hm ht held h =
      let inside = h.sized.1 in
      let (d, ed) =
        index-some s.matrix me.index_of to.index_of h.sized.0 (omega arith) (omega arith) in
      elim (Bool-cases (me.index_of == to.index_of)) [
        | inl myself ↦ (s, rw myself, h)
        | inr other ↦
            let differs : me.index_of ≢ to.index_of = λ e. ground arith in
            elim (Bool-cases (
              not d.directly_tested
              && ltb d.speed sufficient
              && ltb d.speed (min me.node_speed to.node_speed))) [
                | inr enough ↦ (s, rw (other, ed, enough), h)
                | inl wanting ↦
                    let ((ignore, m), er, sized) =
                      for_nodes_lem (λ (k : Node I). k.index_of < n) (λ (r : Rule). Sized n r.1)
                        (apply_rule me.index_of to.index_of) nodes (false, s.matrix)
                        (λ k r hk p. apply_rule_lem n me.index_of to.index_of k r hm ht hk p) all
                        h.sized in
                    elim (Bool-cases ignore) [
                      | inl needless ↦ (
                        record s { matrix = m },
                        rw (other, ed, wanting, er, needless),
                        record { sized = sized; others = h.others; listed = h.listed },
                      )
                      | inr needed ↦ (
                        record {
                          matrix = m;
                          missing = true;
                          missing_links = s.missing_links ++ to ∷ [];
                        },
                        rw (other, ed, wanting, er, needed),
                        record {
                          sized = sized;
                          others =
                              Each-++ (Other nodes me) s.missing_links to h.others (held, differs);
                          listed = λ _. ++-nonempty s.missing_links to;
                        },
                      )
                    ]
              ]
      ]

  fastest_lem :
      (Q : Node I → Type 0) (ks : List (Node I))
      → ks ≢ []
      → Each Q ks
      → (k : Node I) × (fastest ks ≡ some k) × Q k
  unfolding fastest
  fastest_lem Q [] some_node e = absurd (some_node refl)
  fastest_lem Q (k ∷ ks) some_node e = (fastest_from k ks, refl, fastest_from_lem Q k ks e.0 e.1)

  Below-Each : (n : ℕ) (ks : List (Node I)) → Below n ks → Each (λ k. k.index_of < n) ks
  Below-Each n [] b = tt
  Below-Each n (k ∷ ks) b = (b.0, Below-Each n ks b.1)

  -- The nodes `ks` are among `nodes`.
  Each-contains :
      (nodes ks : List (Node I))
      → ((i : ℕ) → contains ks i ≡ true → contains nodes i ≡ true)
      → Each (λ k. contains nodes k.index_of ≡ true) ks
  unfolding contains
  Each-contains nodes [] sub = tt
  Each-contains nodes (k ∷ ks) sub =
      (sub k.index_of (ground arith), Each-contains nodes ks (λ i h. sub i (ground arith)))

  Each-both :
      (P Q : Node I → Type 0) (ks : List (Node I))
      → Each P ks
      → Each Q ks
      → Each (λ k. P k × Q k) ks
  Each-both P Q [] p q = tt
  Each-both P Q (k ∷ ks) p q = ((p.0, q.0), Each-both P Q ks p.1 q.1)

  -- In a graph that is in order, the search for a missing test ends without an error and keeps the
  -- nodes and the shape of the matrix; the node that it answers is in the graph and is not `me`.
  pub find_missing_from_me-IsCGraph :
      (g : CGraph I) (me : Node I) (sufficient_speed : ℕ)
      → IsCGraph g
      → me.index_of < g.c_graph.n
      → (answer : Option (Node I)) × (h : CGraph I) × (find_missing_from_me g me sufficient_speed
          ≡ ok (answer, h))
        × IsCGraph h
        × (h.nodes ≡ g.nodes)
        × ((k : Node I)
            → answer ≡ some k
            → (contains g.nodes k.index_of ≡ true) × (me.index_of ≢ k.index_of))
  unfolding find_missing_from_me
  find_missing_from_me-IsCGraph g me sufficient_speed v hm =
      let n = g.c_graph.n in
      let begun : InOrder n g.nodes me
          (record { matrix = g.c_graph; missing = false; missing_links = [] }) =
        record { sized = (v.matrix, refl); others = tt; listed = λ e. absurd (false≢true e) } in
      let all = Below-Each n g.nodes v.below in
      let held = Each-contains g.nodes g.nodes (λ i h. h) in
      let (s, es, order) =
        for_nodes_lem (λ (k : Node I). (k.index_of < n) × (contains g.nodes k.index_of ≡ true))
          (InOrder n g.nodes me) (scan_node g.nodes me sufficient_speed) g.nodes _
          (λ k x q p. scan_node_lem n g.nodes me k sufficient_speed x all hm q.0 q.1 p)
          (Each-both _ _ g.nodes all held) begun in
      let size = order.sized.1 in
      let sound : IsCGraph (record g { c_graph = s.matrix }) = record {
        matrix = order.sized.0;
        counted = v.counted ∙ sym size;
        below = rw size v.below;
        apart = v.apart;
      } in
      elim (Bool-cases s.missing) [
        | inr complete ↦
            (none, record g { c_graph = s.matrix }, rw (es, complete), sound, refl, λ k e. cc)
        | inl missing ↦
            let (k, ek, other) =
              fastest_lem (Other g.nodes me) s.missing_links (order.listed missing) order.others in
            (
              some k,
              record g { c_graph = s.matrix },
              rw (es, missing, ek),
              sound,
              refl,
              λ j e. let same : k ≡ j = some-injective _ _ e in rw (← same) other,
            )
      ]
