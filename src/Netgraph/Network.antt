-- ===== src/Netgraph/Network.antt =====
-- netgraph/src/lib.rs: the structure `Network`, and the operations that edit it.
--
-- `none` is a panic: an index out of range, or an `unwrap` of nothing. A vertex that is not in the
-- graph is no panic: the operations then do nothing. The caches of the source are commented out.
pub mod Vertices
pub mod Keys
pub mod Edit
use package.kollaps.Prelude.{
  ℕ, zero, suc, ◌+◌, Option, none, some, List, [], ◌∷◌, map, length, ◌==◌, not, ◌&&◌, if◌then◌else◌,
  is_some, ◌>>=◌,
}
use package.kollaps.Matrix.{SymMatrix, new_fn, index, index_mut, size}
use package.kollaps.Netgraph.Link.{VertexEq, Floats, Link, build, build_all}

pub data PathStrategy : Type 0 where
  widest_path_strategy shortest_path_strategy : PathStrategy

pub record Network (T F : Type 0) : Type 0 where
  pub links : SymMatrix (Option (Link T F))
  pub mapper : List (T × ℕ)
  pub path_strategy : PathStrategy

-- The standard library's `HashMap<T, V>`: `insert` on a key that is present updates the value
-- and keeps the old key.
module _ {T : Type 0} (v : VertexEq T) where
  unfoldable pub get : {V : Type 0} → T → List (T × V) → Option V
  get k [] = none
  get k ((j, i) ∷ m) = if v.beq j k then some i else get k m

  unfoldable pub insert : {V : Type 0} → T → V → List (T × V) → List (T × V)
  insert k x [] = (k, x) ∷ []
  insert k x ((j, i) ∷ m) = if v.beq j k then (j, x) ∷ m else (j, i) ∷ insert k x m

  unfoldable pub remove : {V : Type 0} → T → List (T × V) → List (T × V)
  remove k [] = []
  remove k ((j, i) ∷ m) = if v.beq j k then m else (j, i) ∷ remove k m

  -- The fold of `Network::new` over the indices.
  unfoldable pub index_vertices : ℕ → List T → List (T × ℕ) → List (T × ℕ)
  unfolding insert
  index_vertices i [] acc = acc
  index_vertices i (k ∷ ks) acc = index_vertices (i + 1) ks (insert k i acc)

module _ {T F : Type 0} where
  unfoldable pub new : VertexEq T → List T → PathStrategy → Option (Network T F)
  unfolding index_vertices
  new v vertices strategy = do
    links ← new_fn (length vertices) (λ _ _. some none)
    some (record {
      links = links;
      mapper = index_vertices v 0 vertices [];
      path_strategy = strategy;
    })

  -- `map`: the index of a vertex.
  unfoldable pub map_vertex : VertexEq T → Network T F → T → Option ℕ
  unfolding get
  map_vertex v net vertex = get v vertex net.mapper

  unfoldable pub map_two : VertexEq T → Network T F → T → T → Option (ℕ × ℕ)
  unfolding map_vertex
  map_two v net a b = do i ← map_vertex v net a; j ← map_vertex v net b; some (i, j)

  unfoldable pub vertices : Network T F → List T
  vertices net = map (λ e. e.0) net.mapper

  unfoldable pub edit_vertex : VertexEq T → Network T F → T → Network T F
  unfolding get insert remove
  edit_vertex v net new_vertex = elim (get v new_vertex net.mapper) [
    | none ↦ net
    | some i ↦ record net { mapper = insert v new_vertex i (remove v new_vertex net.mapper) }
  ]

  unfoldable pub put_link : Network T F → ℕ → ℕ → Link T F → Option (Network T F)
  put_link net i j l = do
    links ← index_mut net.links i j (some l)
    some (record net { links = links })

  unfoldable pub add_edge : VertexEq T → Floats F → Network T F → T → T → ℕ → Option (Network T F)
  unfolding map_two put_link
  add_edge v f net from to bw = elim (map_two v net from to) [
    | none ↦ some net
    | some (i, j) ↦ put_link net i j (build f from to i j bw)
  ]

  unfoldable pub add_edge_with_props :
      VertexEq T → Network T F → T → T → ℕ → F × F → F → Option (Network T F)
  unfolding map_two put_link
  add_edge_with_props v net from to bw latency_jitter drop = elim (map_two v net from to) [
    | none ↦ some net
    | some (i, j) ↦ put_link net i j (build_all from to i j bw latency_jitter drop)
  ]

  -- Writes the field, whatever the duplex of the link.
  unfoldable pub update_bandwidth_inter : Network T F → ℕ → ℕ → ℕ → Option (Network T F)
  unfolding put_link
  update_bandwidth_inter net from to bw = do
    cell ← index net.links from to
    elim cell [
      | none ↦ some net
      | some l ↦ put_link net from to (record l { bandwidth_field = bw })
    ]

  unfoldable pub update_bandwidth : VertexEq T → Network T F → T → T → ℕ → Option (Network T F)
  unfolding map_two update_bandwidth_inter
  update_bandwidth v net from to bw = elim (map_two v net from to) [
    | none ↦ some net
    | some (i, j) ↦ update_bandwidth_inter net i j bw
  ]

  -- The loop of `neighbours`, with `left` indices to go from `i` on.
  unfoldable pub neighbours_from : SymMatrix (Option (Link T F)) → ℕ → ℕ → ℕ → Option (List ℕ)
  neighbours_from links from zero i = some []
  neighbours_from links from (suc left) i = do
    cell ← index links from i
    rest ← neighbours_from links from left (i + 1)
    some (if is_some cell && not (i == from) then i ∷ rest else rest)

  unfoldable pub neighbours : Network T F → ℕ → Option (List ℕ)
  unfolding neighbours_from
  neighbours net from = neighbours_from net.links from (size net.links) 0
