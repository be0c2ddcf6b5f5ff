-- ===== src/Netgraph/Queries.antt =====
-- netgraph/src/lib.rs: the queries and updates that follow the parents of a search.
--
-- The outer `Option` is `none` on a panic; the inner one is the `Option` that the source returns.
pub mod Pigeonhole
pub mod Follow
pub mod Bandwidth
pub mod Hops
use package.kollaps.Prelude.{
  ℕ, zero, suc, ◌≡◌, Option, none, some, List, [], ◌∷◌, ◌++◌, Bool, get_elem?, min, ◌>>=◌, ◌==◌,
  length, if◌then◌else◌,
}
use package.kollaps.Matrix.{SymMatrix, new_fn, index, size}
use package.kollaps.Netgraph.Link.{VertexEq, Floats, Link, bandwidth, u32_max, link_eq}
use package.kollaps.Netgraph.Network.{
  Network, map_two, vertices, update_bandwidth_inter, widest_path_strategy, shortest_path_strategy,
}
use package.kollaps.Netgraph.Search.{path_between}

-- `while let Some(parent) = path[dest] { body; dest = parent }`, on fuel.
unfoldable pub along {ℓ} :
    {S : Type ℓ} → ℕ → List (Option ℕ) → (ℕ → ℕ → S → Option S) → ℕ → S → Option S
along zero parents body dest s = none
along (suc fuel) parents body dest s = do
  p ← get_elem? parents dest
  elim p [ none ↦ some s | some parent ↦ body dest parent s >>= along fuel parents body parent ]

-- A set of links as the `HashSet` of the standard library: an equal link is not inserted again.
abbrev pub contains_link : {T F : Type 0} → VertexEq T → Link T F → List (Link T F) → Bool
contains_link v l [] = Bool.false
contains_link v l (k ∷ ks) = if link_eq v k l then Bool.true else contains_link v l ks

-- The members of `ks` that the set holds.
filter_links : {T F : Type 0} → VertexEq T → List (Link T F) → List (Link T F) → List (Link T F)
filter_links v held [] = []
filter_links v held (k ∷ ks) =
    let rest = filter_links v held ks in if contains_link v k held then k ∷ rest else rest

unfoldable pub keep_vertices : {T : Type 0} → (T → Bool) → List T → List T
keep_vertices predicate [] = []
keep_vertices predicate (a ∷ others) =
    let rest = keep_vertices predicate others in if predicate a then a ∷ rest else rest

pub record NetPath (T F : Type 0) : Type 0 where
  pub links : List (Link T F)
  pub links_set : List (Link T F)

module _ {T F : Type 0} where
  -- `links[(a, b)].othersref().unwrap()`
  unfoldable pub link_at : SymMatrix (Option (Link T F)) → ℕ → ℕ → Option (Link T F)
  link_at links a b = index links a b >>= λ l. l

  unfoldable pub narrow : Network T F → ℕ → ℕ → ℕ → Option ℕ
  unfolding link_at
  narrow net dest parent speed = do
    l ← link_at net.links dest parent
    some (min speed (bandwidth l))

  unfoldable pub bandwidth_between : VertexEq T → Network T F → T → T → Option (Option ℕ)
  unfolding narrow
  bandwidth_between v net a b = elim (map_two v net a b) [
    | none ↦ some none
    | some (from, to) ↦ do
      paths ← path_between net from
      let (val, path) = paths
      let shortest = (do
        p ← get_elem? path to
        let follow = along (size net.links) path (narrow net) to u32_max >>= (λ s. some (some s))
        elim p [ none ↦ some none | some _ ↦ follow ])
      elim net.path_strategy [
        | widest_path_strategy ↦ get_elem? val to
        | shortest_path_strategy ↦ shortest
      ]
  ]

  add_link : Floats F → Network T F → ℕ → ℕ → ℕ × F × (F × F) → Option (ℕ × F × (F × F))
  unfolding link_at
  add_link f net dest parent (bw, drop, (latency, jitter)) = do
    l ← link_at net.links dest parent
    some (
      min bw (bandwidth l),
      f.add_f drop l.drop,
      (f.add_f latency l.latency_jitter.0, f.add_f jitter l.latency_jitter.1),
    )

  -- Bandwidth, drop, and (latency, jitter) of a path.
  unfoldable pub properties_between :
      VertexEq T → Floats F → Network T F → T → T → Option (Option (ℕ × F × (F × F)))
  unfolding add_link
  properties_between v f net a b = elim (map_two v net a b) [
    | none ↦ some none
    | some (from, to) ↦ do
      paths ← path_between net from
      let path = paths.1
      p ← get_elem? path to
      let first : ℕ × F × (F × F) = (u32_max, f.zero_f, (f.zero_f, f.zero_f))
      let follow = along (size net.links) path (add_link f net) to first >>= (λ s. some (some s))
      elim p [ none ↦ some none | some _ ↦ follow ]
  ]

  update_link : (ℕ → Option ℕ) → ℕ → ℕ → Network T F → Option (Network T F)
  unfolding link_at
  update_link func last_child parent net = do
    l ← link_at net.links parent last_child
    bw ← func (bandwidth l)
    update_bandwidth_inter net parent last_child bw

  -- `func` may panic, as a subtraction that goes below 0 does.
  unfoldable pub update_edges_along_path_by :
      VertexEq T → Network T F → T → T → (ℕ → Option ℕ) → Option (Network T F)
  unfolding update_link
  update_edges_along_path_by v net a b func = elim (map_two v net a b) [
    | none ↦ some net
    | some (from, to) ↦ do
      paths ← path_between net from
      along (size net.links) paths.1 (update_link func) to net
  ]

  -- `assert!(newly_added)` panics on a link that the set holds already. The links are pushed from
  -- the destination on, and reversed at the end: here they are put in front.
  collect_link : VertexEq T → Network T F → ℕ → ℕ → NetPath T F → Option (NetPath T F)
  unfolding link_at
  collect_link v net last_child parent path = do
    l ← link_at net.links parent last_child
    if contains_link v l path.links_set
        then none
        else some (record { links = l ∷ path.links; links_set = path.links_set ++ l ∷ [] })

  unfoldable pub get_path_between : VertexEq T → Network T F → T → T → Option (Option (NetPath T F))
  unfolding collect_link
  get_path_between v net a b = elim (map_two v net a b) [
    | none ↦ some none
    | some (from, to) ↦ do
      paths ← path_between net from
      path ←
          along (size net.links) paths.1 (collect_link v net) to
            (record { links = []; links_set = [] })
      some (some path)
  ]

  pub shared_edges : VertexEq T → NetPath T F → NetPath T F → List (Link T F)
  unfolding filter_links
  shared_edges v a b = filter_links v b.links_set a.links_set

  -- The closure of `bandwidth_matrix`; two vertices with no path between them are a panic.
  unfoldable pub matrix_cell : VertexEq T → Network T F → List T → ℕ → ℕ → Option ℕ
  unfolding bandwidth_between
  matrix_cell v net nodes row col =
      let between = (do
        a ← get_elem? nodes row
        b ← get_elem? nodes col
        bw ← bandwidth_between v net a b
        bw) in
      if row == col then some u32_max else between

  unfoldable pub bandwidth_matrix :
      VertexEq T → Network T F → (T → Bool) → Option (SymMatrix ℕ × List T)
  unfolding keep_vertices matrix_cell vertices
  bandwidth_matrix v net predicate = do
    let nodes = keep_vertices predicate (vertices net)
    matrix ← new_fn (length nodes) (matrix_cell v net nodes)
    some (matrix, nodes)
