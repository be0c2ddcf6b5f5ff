-- ===== src/Emulation/Orchestrator/Cluster/Reachable.antt =====
-- emulation/src/orchestrator.rs: the steps of an orchestrator and the states that they reach.
use kollaps.Prelude.{ℕ, ◌≡◌, some, List}
use kollaps.Cgraph.{CGraph, ok}
use kollaps.Netgraph.Link.{VertexEq}
use kollaps.Netgraph.Network.{Network}
use kollaps.Emulation.Data.{ClusterNodeInfo, Node}
use kollaps.Emulation.Orchestrator.{Orchestrator}
use kollaps.Emulation.Orchestrator.Placement.{
  Placing, new_emulation, stop_emulation, stop_app_emulation_on,
}
use kollaps.Emulation.Orchestrator.Cluster.{new, remove_cluster_node, update_with_cgraph}
use kollaps.Emulation.Orchestrator.Cluster.Kept.{
  IsMapped, new-IsMapped, new_emulation-IsMapped, stop_emulation-IsMapped,
  stop_app_emulation_on-IsMapped,
}
use kollaps.Emulation.Orchestrator.Cluster.Changed.{
  remove_cluster_node-IsMapped, update_with_cgraph-IsMapped,
}

module _ {Ip Uuid : Type 0} (ips : VertexEq Ip) (ids : VertexEq Uuid) where
  -- One request that the orchestrator answers without a panic.
  pub data Step (Text F : Type 0) (o : Orchestrator Ip Uuid) : Orchestrator Ip Uuid → Type 0 where
    placed :
        (network : Network (Node Ip Text) F) (id : Uuid) (p : Placing Ip Text F Uuid)
        → new_emulation ips ids o network id ≡ ok (some p)
        → Step Text F o p.orchestrator
    stopped :
        (id : Uuid) (o' : Orchestrator Ip Uuid)
        → stop_emulation ips ids o id ≡ ok o'
        → Step Text F o o'
    left :
        (id : Uuid) (node : ClusterNodeInfo Ip) (app_index : ℕ) (o' : Orchestrator Ip Uuid)
        → stop_app_emulation_on ips ids o id node app_index ≡ ok o'
        → Step Text F o o'
    removed :
        (node : ClusterNodeInfo Ip) (uuids : List Uuid) (o' : Orchestrator Ip Uuid)
        → remove_cluster_node ips ids o node ≡ ok (uuids, o')
        → Step Text F o o'
    updated :
        (cgraph : CGraph (ClusterNodeInfo Ip)) (uuids : List Uuid) (o' : Orchestrator Ip Uuid)
        → update_with_cgraph ips ids o cgraph ≡ ok (uuids, o')
        → Step Text F o o'

  pub data Reachable (Text F : Type 0) : Orchestrator Ip Uuid → Type 0 where
    started :
        (cgraph : CGraph (ClusterNodeInfo Ip)) (port load : ℕ) (o : Orchestrator Ip Uuid)
        → new ips ids cgraph port load ≡ ok o
        → Reachable Text F o
    continued :
        (o o' : Orchestrator Ip Uuid) → Reachable Text F o → Step Text F o o' → Reachable Text F o'

  Step-IsMapped :
      (Text F : Type 0) (o o' : Orchestrator Ip Uuid) → Step Text F o o' → IsMapped o → IsMapped o'
  Step-IsMapped Text F o _ (placed network id p e) m =
      new_emulation-IsMapped ips ids o network id p e m
  Step-IsMapped Text F o o' (stopped id _ e) m = stop_emulation-IsMapped ips ids o o' id e m
  Step-IsMapped Text F o o' (left id node app_index _ e) m =
      stop_app_emulation_on-IsMapped ips ids o o' id node app_index e m
  Step-IsMapped Text F o o' (removed node uuids _ e) m =
      remove_cluster_node-IsMapped ips ids o o' node uuids e m
  Step-IsMapped Text F o o' (updated cgraph uuids _ e) m =
      update_with_cgraph-IsMapped ips ids o o' cgraph uuids e m

  -- In every state that an orchestrator reaches from its start, by emulations that are placed and
  -- stopped and by nodes of the cluster that leave and come, the vector of the residual graph is
  -- exactly its upper triangle, and the graph has one row for each host of the mapping.
  pub Reachable-IsMapped :
      (Text F : Type 0) (o : Orchestrator Ip Uuid) → Reachable Text F o → IsMapped o
  Reachable-IsMapped Text F o (started cgraph port load _ e) =
      new-IsMapped ips ids cgraph port load o e
  Reachable-IsMapped Text F o (continued before _ r step) =
      Step-IsMapped Text F before o step (Reachable-IsMapped Text F before r)
