-- ===== src/Emulation/Orchestrator/Placement.antt =====
-- emulation/src/orchestrator.rs: `new_emulation`, `stop_emulation` and `stop_app_emulation_on`.
--
-- A set of identifiers is a list without repetition, a map an association list. The two nested
-- loops over the pairs of applications are one loop over the list of these pairs.
pub mod Restore
pub mod Stop
pub mod Shared
use package.kollaps.Prelude.{
  ℕ, zero, suc, ◌+◌, ◌-◌, Bool, true, false, ◌||◌, Option, none, some, List, [], ◌∷◌, ◌++◌, map,
  ltb, ◌==◌, if◌then◌else◌, get_elem?, set,
}
use package.kollaps.Matrix.{SymMatrix, size, index}
use package.kollaps.Cgraph.{Result, ok, err, ok_or, panic, invalid_data, for_range, ◌>>=◌}
use package.kollaps.Netgraph.Link.{VertexEq}
use package.kollaps.Netgraph.Network.{Network, get, insert, remove, edit_vertex}
use package.kollaps.Netgraph.Queries.{bandwidth_matrix}
use package.kollaps.Emulation.Data.{
  ClusterNodeInfo, by_info, Node, by_id, is_app, edit_app, set_host, set_index,
}
use package.kollaps.Emulation.Sets.{holds, add, drop_all}
use package.kollaps.Emulation.Orchestrator.{Orchestrator, take_bandwidth, give_bandwidth}
use package.kollaps.Emulation.Orchestrator.Isomorphism.{upto}
use package.kollaps.Emulation.Orchestrator.HostSets.{find_isomorphism}

-- `for i in 0..n { for j in 0..i { … } }`
unfoldable pub pairs : ℕ → List (ℕ × ℕ)
unfolding upto
pairs zero = []
pairs (suc i) = pairs i ++ map (λ j. (i, j)) (upto i 0)

-- The loop that lowers the bandwidth between the hosts of different applications.
unfoldable pub reserve : SymMatrix ℕ → List ℕ → List (ℕ × ℕ) → SymMatrix ℕ → Result (SymMatrix ℕ)
unfolding take_bandwidth
reserve matrix equivalence [] residual = ok residual
reserve matrix equivalence ((i, j) ∷ rest) residual = do
  a ← ok_or (get_elem? equivalence i) panic
  b ← ok_or (get_elem? equivalence j) panic
  let taken = (do bw ← ok_or (index matrix i j) panic; take_bandwidth residual a b bw)
  next ← if a == b then ok residual else taken
  reserve matrix equivalence rest next

-- The loop that raises it again.
unfoldable pub restore : SymMatrix ℕ → List ℕ → List (ℕ × ℕ) → SymMatrix ℕ → Result (SymMatrix ℕ)
unfolding give_bandwidth
restore matrix equivalence [] residual = ok residual
restore matrix equivalence ((i, j) ∷ rest) residual = do
  a ← ok_or (get_elem? equivalence i) panic
  b ← ok_or (get_elem? equivalence j) panic
  bw ← ok_or (index matrix i j) panic
  next ← give_bandwidth residual a b bw
  restore matrix equivalence rest next

-- The body of the loop of `stop_app_emulation_on`.
unfoldable pub restore_app : SymMatrix ℕ → List ℕ → ℕ → ℕ → SymMatrix ℕ → Result (SymMatrix ℕ)
unfolding give_bandwidth
restore_app matrix equivalence app_index i residual =
    let given = (do
      a ← ok_or (get_elem? equivalence app_index) panic
      b ← ok_or (get_elem? equivalence i) panic
      bw ← ok_or (index matrix app_index i) panic
      give_bandwidth residual a b bw) in
    if i == app_index then ok residual else given

-- The state of `new_emulation` while it goes through the applications.
pub record Placing (Ip Text F Uuid : Type 0) : Type 0 where
  pub orchestrator : Orchestrator Ip Uuid
  pub network : Network (Node Ip Text) F
  pub nodes : List (Node Ip Text)
  pub affected : List (ClusterNodeInfo Ip)

module _ {Ip Uuid : Type 0} (ips : VertexEq Ip) (ids : VertexEq Uuid) where
  unfoldable raise_load : Uuid → Option (List (Uuid × ℕ)) → List (Uuid × ℕ)
  unfolding insert get
  raise_load id none = insert ids id 1 []
  raise_load id (some loads) = elim (get ids id loads) [
    | none ↦ insert ids id 1 loads
    | some load ↦ insert ids id (load + 1) loads
  ]

  unfoldable attribute : Uuid → Option (List Uuid) → List Uuid
  unfolding add
  attribute id none = id ∷ []
  attribute id (some uuids) = add ids id uuids

  unfoldable pub assign_host :
      Uuid → ClusterNodeInfo Ip → Orchestrator Ip Uuid → Orchestrator Ip Uuid
  unfolding raise_load attribute insert get
  assign_host id host o = record o {
    current_load =
        insert (by_info ips) host (raise_load id (get (by_info ips) host o.current_load))
          o.current_load;
    attributed_emul =
        insert (by_info ips) host (attribute id (get (by_info ips) host o.attributed_emul))
          o.attributed_emul;
  }

  -- The emulation leaves every set and every load, and the map of the emulations.
  unfoldable pub forget : Uuid → Orchestrator Ip Uuid → SymMatrix ℕ → Orchestrator Ip Uuid
  unfolding drop_all remove
  forget id o residual = record o {
    residual_graph = residual;
    attributed_emul = map (λ e. (e.0, drop_all ids id e.1)) o.attributed_emul;
    current_load = map (λ e. (e.0, remove ids id e.1)) o.current_load;
    emulations = remove ids id o.emulations;
  }

  unfoldable pub stop_emulation : Orchestrator Ip Uuid → Uuid → Result (Orchestrator Ip Uuid)
  unfolding get forget restore pairs size
  stop_emulation o id = do
    e ← ok_or (get ids id o.emulations) invalid_data
    residual ← restore e.0 e.1 (pairs (size e.0)) o.residual_graph
    ok (forget id o residual)

  -- The load of the node goes down by one, and at 0 the emulation leaves the node.
  unfoldable pub leave_node :
      Uuid → ClusterNodeInfo Ip → Orchestrator Ip Uuid → Result (Orchestrator Ip Uuid)
  unfolding get insert remove drop_all
  leave_node id node o = do
    loads ← ok_or (get (by_info ips) node o.current_load) panic
    let write = (λ (l : List (Uuid × ℕ)). insert (by_info ips) node l o.current_load)
    let last = (do
      uuids ← ok_or (get (by_info ips) node o.attributed_emul) panic
      ok (record o {
        current_load = write (remove ids id loads);
        attributed_emul = insert (by_info ips) node (drop_all ids id uuids) o.attributed_emul;
      }))
    elim (get ids id loads) [
      | none ↦ ok o
      | some zero ↦ err panic
      | some (suc load) ↦
          if load == 0
          then last
          else ok (record o { current_load = write (insert ids id load loads) })
    ]

  pub attributed : Uuid → List (ClusterNodeInfo Ip × List Uuid) → Bool
  unfolding holds
  attributed id [] = false
  attributed id ((_, uuids) ∷ rest) = holds ids id uuids || attributed id rest

  unfoldable pub stop_app_emulation_on :
      Orchestrator Ip Uuid → Uuid → ClusterNodeInfo Ip → ℕ → Result (Orchestrator Ip Uuid)
  unfolding get remove for_range restore_app leave_node attributed size
  stop_app_emulation_on o id node app_index = do
    e ← ok_or (get ids id o.emulations) invalid_data
    residual ← for_range (size e.0) 0 (restore_app e.0 e.1 app_index) o.residual_graph
    left ← leave_node id node (record o { residual_graph = residual })
    ok (
        if attributed id left.attributed_emul
        then left
        else record left { emulations = remove ids id left.emulations })

module _ {Ip Text F Uuid : Type 0} (ips : VertexEq Ip) (ids : VertexEq Uuid) where
  -- The body of the loop over the applications.
  unfoldable pub place_app :
      Uuid → List ℕ → ℕ → Placing Ip Text F Uuid → Result (Placing Ip Text F Uuid)
  unfolding assign_host edit_vertex add
  place_app id equivalence i p = do
    e ← ok_or (get_elem? equivalence i) panic
    host ← ok_or (get_elem? p.orchestrator.host_mapping e) panic
    node ← ok_or (get_elem? p.nodes i) panic
    placed ← ok_or (edit_app (λ a. set_index (set_host a host) i) node) panic
    ok (record {
      orchestrator = assign_host ips ids id host p.orchestrator;
      network = edit_vertex by_id p.network placed;
      nodes = set p.nodes i placed;
      affected = add (by_info ips) host p.affected;
    })

  -- What an accepted emulation changes.
  unfoldable pub place :
      Orchestrator Ip Uuid
      → Network (Node Ip Text) F
      → Uuid
      → SymMatrix ℕ
      → List (Node Ip Text)
      → List ℕ
      → Result (Placing Ip Text F Uuid)
  unfolding place_app for_range reserve pairs insert size
  place o network id matrix nodes equivalence = do
    p ←
        for_range (size matrix) 0 (place_app id equivalence)
          (record { orchestrator = o; network = network; nodes = nodes; affected = [] })
    residual ← reserve matrix equivalence (pairs (size matrix)) p.orchestrator.residual_graph
    ok (record p {
      orchestrator = record p.orchestrator {
        residual_graph = residual;
        emulations = insert ids id (matrix, equivalence) p.orchestrator.emulations;
      };
    })

  -- `none` when there is no place for the emulation: the state stays as it is.
  unfoldable pub new_emulation :
      Orchestrator Ip Uuid
      → Network (Node Ip Text) F
      → Uuid
      → Result (Option (Placing Ip Text F Uuid))
  unfolding place is_app
  new_emulation o network id = do
    m ← ok_or (bandwidth_matrix by_id network is_app) panic
    found ← find_isomorphism ips o m.0
    elim found [
      | none ↦ ok none
      | some equivalence ↦ place o network id m.0 m.1 equivalence >>= (λ p. ok (some p))
    ]
