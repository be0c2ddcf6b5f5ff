-- ===== src/Netgraph/Network/Edit.antt =====
-- netgraph/src/lib.rs: networks are built and edited without a panic, and an edit changes the
-- link that it names.
use kollaps.Prelude.{
  ℕ, ◌+◌, ◌<◌, ◌≡◌, refl, sym, ap, ◌∙◌, inl, inr, none, some, List, arith, length, if◌then◌else◌,
  Option-cases, [], false, get_elem?,
}
use kollaps.Matrix.{index}
use kollaps.Matrix.Access.{IsValid, same_pair, index_mut_lem}
use kollaps.Matrix.Resize.{new_fn_lem}
use kollaps.Netgraph.Link.{VertexEq, Floats, Link, build}
use kollaps.Netgraph.Network.{
  Network, PathStrategy, new, map_vertex, map_two, put_link, add_edge, edit_vertex, get, insert,
  remove, index_vertices,
}
use kollaps.Netgraph.Network.Vertices.{
  get-replace, InRange, InRange-nil, index_vertices-InRange, index_vertices-last,
  index_vertices-absent,
}
use kollaps.Netgraph.Network.Keys.{
  AreKeys, key_of, key_of-replace, AreKeys-replace, index_vertices-AreKeys,
}

module _ {T F : Type 0} (v : VertexEq T) where
  -- The matrix is laid out right, and the mapper's indices lie inside it.
  pub record IsNetwork (net : Network T F) : Type 0 where
    pub matrix : IsValid net.links
    pub mapped : InRange v net.links.n net.mapper

  -- A new network is well formed, with a row for each vertex and no links. Its mapper has each key
  -- once; it gives a vertex the last position at which it stands in the list, and gives nothing to
  -- a vertex that the list has not.
  pub new-IsNetwork :
      (vertices : List T) (strategy : PathStrategy)
      → (net : Network T F) × (new v vertices strategy ≡ some net)
        × IsNetwork net
        × (net.links.n ≡ length vertices)
        × ((r c : ℕ) → r < length vertices → c < length vertices → index net.links r c ≡ some none)
        × AreKeys v net.mapper
        × ((p : ℕ) (x : T)
            → get_elem? vertices p ≡ some x
            → ((q : ℕ) (y : T) → p < q → get_elem? vertices q ≡ some y → v.beq y x ≡ false)
            → map_vertex v net x ≡ some p)
        × ((x : T)
            → ((q : ℕ) (y : T) → get_elem? vertices q ≡ some y → v.beq y x ≡ false)
            → map_vertex v net x ≡ none)
  unfolding new map_vertex get
  new-IsNetwork vertices strategy =
      let (m, e, t) = new_fn_lem (length vertices) (λ _ _. some none) (λ r c rc cn. (none, refl)) in
      (
        record { links = m; mapper = index_vertices v 0 vertices []; path_strategy = strategy },
        rw e,
        record {
          matrix = t.valid;
          mapped =
              index_vertices-InRange v m.n 0 vertices [] (omega (arith, t.size))
                (InRange-nil v m.n);
        },
        t.size,
        t.cells,
        index_vertices-AreKeys v 0 vertices [] tt,
        (λ p x e last.
            let at : 0 + p ≡ p = omega arith in
            index_vertices-last v 0 vertices [] p x e last ∙ ap some at),
        (λ x absent. index_vertices-absent v 0 vertices [] x absent),
      )

  pub map_two-lt :
      (net : Network T F) (a b : T) (i j : ℕ)
      → IsNetwork net
      → map_two v net a b ≡ some (i, j)
      → (i < net.links.n) × (j < net.links.n)
  unfolding map_two map_vertex
  map_two-lt net a b i j h e = ground (arith, h.mapped a i, h.mapped b j)

  -- Writing a link changes the cell of its pair of nodes, in either order.
  pub put_link_lem :
      (net : Network T F) (i j : ℕ) (l : Link T F)
      → IsNetwork net
      → i < net.links.n
      → j < net.links.n
      → (w : Network T F) × (put_link net i j l ≡ some w)
        × IsNetwork w
        × (w.links.n ≡ net.links.n)
        × ((s d : ℕ)
            → s < net.links.n
            → d < net.links.n
            → index w.links s d
              ≡ (if same_pair i j s d then some (some l) else index net.links s d))
  unfolding put_link
  put_link_lem net i j l h hi hj =
      let (m, e, size, valid, cells) = index_mut_lem net.links i j (some l) h.matrix hi hj in
      (
        record net { links = m },
        rw e,
        record { matrix = valid; mapped = rw size h.mapped },
        size,
        cells,
      )

  -- Adding an edge between two vertices of the graph links their nodes, and no others.
  pub add_edge_lem :
      (f : Floats F) (net : Network T F) (a b : T) (i j bw : ℕ)
      → IsNetwork net
      → map_two v net a b ≡ some (i, j)
      → (w : Network T F) × (add_edge v f net a b bw ≡ some w)
        × IsNetwork w
        × (w.links.n ≡ net.links.n)
        × ((s d : ℕ)
            → s < net.links.n
            → d < net.links.n
            → index w.links s d ≡ (
                if same_pair i j s d
                then some (some (build f a b i j bw))
                else index net.links s d))
  unfolding add_edge
  add_edge_lem f net a b i j bw h mapped =
      let (hi, hj) = map_two-lt net a b i j h mapped in
      let (w, e, ok, size, cells) = put_link_lem net i j (build f a b i j bw) h hi hj in
      (w, simp (add_edge, mapped) e, ok, size, cells)

  edit_vertex_absent :
      (net : Network T F) (w : T) → map_vertex v net w ≡ none → edit_vertex v net w ≡ net
  unfolding edit_vertex map_vertex
  edit_vertex_absent net w absent = simp (edit_vertex, absent)

  edit_vertex_present :
      (net : Network T F) (w : T) (i : ℕ)
      → map_vertex v net w ≡ some i
      → edit_vertex v net w ≡ record net { mapper = insert v w i (remove v w net.mapper) }
  unfolding edit_vertex map_vertex
  edit_vertex_present net w i present = simp (edit_vertex, present)

  -- Editing a vertex keeps the network well formed, with its links and the index of every vertex,
  -- and a vertex that is not in the graph changes nothing. Where the mapper has each key once, it
  -- still has, and the key that it stores for the edited vertex is the new one, while the keys of
  -- the other vertices stay.
  pub edit_vertex_lem :
      (net : Network T F) (w : T)
      → IsNetwork net
      → IsNetwork (edit_vertex v net w)
        × ((edit_vertex v net w).links ≡ net.links)
        × ((k : T) → map_vertex v (edit_vertex v net w) k ≡ map_vertex v net k)
        × (map_vertex v net w ≡ none → edit_vertex v net w ≡ net)
        × (AreKeys v net.mapper
            → AreKeys v (edit_vertex v net w).mapper
              × ((i : ℕ)
                  → map_vertex v net w ≡ some i
                  → (k : T)
                  → key_of v k (edit_vertex v net w).mapper
                    ≡ (if v.beq w k then some w else key_of v k net.mapper)))
  unfolding map_vertex
  edit_vertex_lem net w h = elim (Option-cases (map_vertex v net w)) [
    | inl absent ↦
        rw (edit_vertex_absent net w absent)
          (h, refl, (λ k. refl), (λ _. refl), λ keys. (keys, λ i present. cc))
    | inr (i, present) ↦
        let same = λ (k : T). get-replace v w k i net.mapper present in
        rw (edit_vertex_present net w i present) (
          record { matrix = h.matrix; mapped = λ k x e. h.mapped k x (sym (same k) ∙ e) },
          refl,
          same,
          (λ absent. cc),
          λ keys. (
            AreKeys-replace v w i net.mapper keys,
            λ j e k. key_of-replace v w k i net.mapper keys,
          ),
        )
  ]
