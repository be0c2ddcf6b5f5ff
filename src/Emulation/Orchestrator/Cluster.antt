-- ===== src/Emulation/Orchestrator/Cluster.antt =====
-- emulation/src/orchestrator.rs: the orchestrator follows the graph of the cluster, whose nodes come
-- and go: `new`, `update_with_cgraph` and `remove_cluster_node`.
pub mod Mapped
pub mod Kept
pub mod Changed
pub mod Reachable
use package.kollaps.Prelude.{
  ℕ, zero, suc, ◌+◌, Bool, true, false, not, ◌||◌, Option, none, some, List, [], ◌∷◌, ◌++◌, leb,
  ◌==◌, if◌then◌else◌, get_elem?, length,
}
use package.kollaps.Matrix.{SymMatrix, new_fn, index, remove_id}
use package.kollaps.Cgraph.{
  CGraph, Result, ok, err, ok_or, panic, invalid_data, already_exists, no_resource, not_found,
  inconsistent_state, map_nodes, speeds, unwrap, ◌>>=◌,
}
use package.kollaps.Netgraph.Link.{VertexEq, u32_max}
use package.kollaps.Netgraph.Network.{get, remove, index_vertices}
use package.kollaps.Emulation.Data.{ClusterNodeInfo, info_eq, by_info}
use package.kollaps.Emulation.Orchestrator.{Orchestrator}
use package.kollaps.Emulation.Sets.{holds, add}
use package.kollaps.Emulation.Orchestrator.Placement.{stop_emulation}

unfoldable pub with_port : {Ip : Type 0} → ℕ → ClusterNodeInfo Ip → ClusterNodeInfo Ip
with_port port node = record node { port = port }

-- `Vec::remove`
unfoldable pub take_out {ℓ} : {A : Type ℓ} → ℕ → List A → List A
take_out i [] = []
take_out zero (x ∷ xs) = xs
take_out (suc i) (x ∷ xs) = x ∷ take_out i xs

-- `grow_fn` by one row and column, with a closure that may panic.
unfoldable pub grow_by_one : SymMatrix ℕ → (ℕ → ℕ → Option ℕ) → Option (SymMatrix ℕ)
grow_by_one m f =
    new_fn (m.n + 1) (λ row col. if leb m.n row || leb m.n col then f row col else index m row col)

-- `let _ =` on a result: an error leaves the state as it was.
unfoldable pub ignore {ℓ} : {A : Type ℓ} → A → Result A → Result A
ignore before (err panic) = err panic
ignore before (err _) = ok before
ignore before (ok a) = ok a

module _ {Ip Uuid : Type 0} (ips : VertexEq Ip) (ids : VertexEq Uuid) where
  unfoldable pub convert_cgraph_nodeinfo :
      ℕ → CGraph (ClusterNodeInfo Ip) → CGraph (ClusterNodeInfo Ip)
  unfolding with_port
  convert_cgraph_nodeinfo port graph = map_nodes graph (with_port port)

  unfoldable pub new : CGraph (ClusterNodeInfo Ip) → ℕ → ℕ → Result (Orchestrator Ip Uuid)
  unfolding convert_cgraph_nodeinfo
  new cgraph emanagers_port max_load = do
    s ← speeds (convert_cgraph_nodeinfo emanagers_port cgraph)
    ok (record {
      residual_graph = s.0;
      host_mapping = s.1;
      attributed_emul = [];
      emulations = [];
      current_load = [];
      max_load = max_load;
      emanagers_port = emanagers_port;
    })

  -- The place of the first host that is equal to the node.
  unfoldable pub find_host : ClusterNodeInfo Ip → ℕ → List (ClusterNodeInfo Ip) → Option ℕ
  unfolding info_eq
  find_host node i [] = none
  find_host node i (host ∷ hosts) =
      if info_eq ips host node then some i else find_host node (i + 1) hosts

  -- `attributed_emul.values().flatten()`
  pub all_ids : List (ClusterNodeInfo Ip × List Uuid) → List Uuid
  all_ids [] = []
  all_ids ((_, uuids) ∷ rest) = uuids ++ all_ids rest

  -- The identifiers that `stop_emulation` does not know are passed over.
  unfoldable pub stop_all : List Uuid → Orchestrator Ip Uuid → Result (Orchestrator Ip Uuid)
  unfolding ignore
  stop_all [] o = ok o
  stop_all (id ∷ rest) o = ignore o (stop_emulation ips ids o id) >>= stop_all rest

  unfoldable pub remove_cluster_node :
      Orchestrator Ip Uuid → ClusterNodeInfo Ip → Result (List Uuid × Orchestrator Ip Uuid)
  unfolding with_port find_host all_ids stop_all remove take_out
  remove_cluster_node o given_node = do
    let node = with_port o.emanagers_port given_node
    id ← ok_or (find_host node 0 o.host_mapping) invalid_data
    let uuids_concerned = all_ids o.attributed_emul
    stopped ← stop_all uuids_concerned o
    residual ← ok_or (remove_id stopped.residual_graph id) panic
    ok (
      uuids_concerned,
      record stopped {
        residual_graph = residual;
        host_mapping = take_out id stopped.host_mapping;
        attributed_emul = remove (by_info ips) node stopped.attributed_emul;
      },
    )

  -- The nodes of the first list that the second one does not contain.
  unfoldable pub missing :
      List (ClusterNodeInfo Ip) → List (ClusterNodeInfo Ip) → List (ClusterNodeInfo Ip)
  unfolding holds
  missing [] others = []
  missing (node ∷ rest) others =
      let tail = missing rest others in
      if holds (by_info ips) node others then tail else node ∷ tail

  add_all : List Uuid → List Uuid → List Uuid
  unfolding add
  add_all [] acc = acc
  add_all (id ∷ rest) acc = add_all rest (add ids id acc)

  unfoldable pub remove_nodes :
      List (ClusterNodeInfo Ip)
      → List Uuid
      → Orchestrator Ip Uuid
      → Result (List Uuid × Orchestrator Ip Uuid)
  unfolding remove_cluster_node unwrap add_all
  remove_nodes [] affected o = ok (affected, o)
  remove_nodes (node ∷ rest) affected o = do
    r ← unwrap (remove_cluster_node o node)
    remove_nodes rest (add_all r.0 affected) r.1

  -- The closure that gives the speeds of the new node.
  pub speed_to :
      SymMatrix ℕ → List (ClusterNodeInfo Ip × ℕ) → List (ClusterNodeInfo Ip) → ℕ → ℕ → ℕ → Option ℕ
  unfolding get
  speed_to matrix nodes_to_index hosts node_index row col =
      let other = if row == node_index then col else row in
      let measured : Option ℕ = elim (get_elem? hosts other) [
        | none ↦ none
        | some host ↦ elim (get (by_info ips) host nodes_to_index) [
          | none ↦ none
          | some other_node_index ↦ index matrix node_index other_node_index
        ]
      ] in
      if row == col then some u32_max else measured

  unfoldable pub add_nodes :
      SymMatrix ℕ
      → List (ClusterNodeInfo Ip × ℕ)
      → List (ClusterNodeInfo Ip)
      → Orchestrator Ip Uuid
      → Result (Orchestrator Ip Uuid)
  unfolding get grow_by_one speed_to
  add_nodes matrix nodes_to_index [] o = ok o
  add_nodes matrix nodes_to_index (node ∷ rest) o = do
    let hosts = o.host_mapping ++ node ∷ []
    node_index ← ok_or (get (by_info ips) node nodes_to_index) panic
    grown ←
        ok_or (grow_by_one o.residual_graph (speed_to matrix nodes_to_index hosts node_index)) panic
    add_nodes matrix nodes_to_index rest (record o { residual_graph = grown; host_mapping = hosts })

  unfoldable pub update_with_cgraph :
      Orchestrator Ip Uuid → CGraph (ClusterNodeInfo Ip) → Result (List Uuid × Orchestrator Ip Uuid)
  unfolding convert_cgraph_nodeinfo missing remove_nodes add_nodes index_vertices
  update_with_cgraph o cgraph = do
    s ← speeds (convert_cgraph_nodeinfo o.emanagers_port cgraph)
    r ← remove_nodes (missing o.host_mapping s.1) [] o
    next ← add_nodes s.0 (index_vertices (by_info ips) 0 s.1 []) (missing s.1 o.host_mapping) r.1
    ok (r.0, next)
