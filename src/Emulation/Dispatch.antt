-- ===== src/Emulation/Dispatch.antt =====
-- emulation/src/pubapi.rs: the state of the manager of the emulations, and what it sends.
--
-- What is sent is a list of effects, in order; `works` tells which of them succeed. `none` is a
-- panic.
use package.kollaps.Prelude.{
  ℕ, Bool, true, false, ◌&&◌, Option, none, some, List, [], ◌∷◌, ◌++◌, map, if◌then◌else◌,
}
use Prim.Native.String.{String}
use package.kollaps.Cgraph.{CGraph, Result, ok, err}
use package.kollaps.Netgraph.Link.{VertexEq}
use package.kollaps.Netgraph.Network.{Network, get, remove}
use package.kollaps.Common.EmulMessage.{EmulationEvent}
use package.kollaps.Emulation.Data.{ClusterNodeInfo, Node, Emulation, info_eq}
use package.kollaps.Emulation.Orchestrator.{Orchestrator}
use package.kollaps.Emulation.Orchestrator.Cluster.{new, update_with_cgraph, remove_cluster_node}
use package.kollaps.Emulation.Protocol.{
  Ids, ManagerMessage, EManagerMessage, experiment_new, experiment_stop,
}

pub data Effect (Ip F : Type 0) : Type 0 where
  local_send : EManagerMessage Ip F → Effect Ip F
  remote_send : ClusterNodeInfo Ip → EManagerMessage Ip F → Effect Ip F
  answer : Option (ManagerMessage Ip) → Effect Ip F

pub data CgraphUpdate (Ip : Type 0) : Type 0 where
  new_graph : CGraph (ClusterNodeInfo Ip) → CgraphUpdate Ip
  remove_node : ClusterNodeInfo Ip → CgraphUpdate Ip

pub record Manager (Ip Key : Type 0) : Type 0 where
  pub my_info_emanager : ClusterNodeInfo Ip
  pub my_info_omanager : ClusterNodeInfo Ip
  pub orchestrator : Orchestrator Ip Key
  -- The nodes of each emulation, with whether they are ready.
  pub emulations_and_their_nodes : List (Key × List (ClusterNodeInfo Ip × Bool))

unfoldable pub build_manager :
    {Ip Key : Type 0}
    → VertexEq Ip
    → VertexEq Key
    → ClusterNodeInfo Ip
    → ℕ
    → ℕ
    → CGraph (ClusterNodeInfo Ip)
    → ℕ
    → Result (Manager Ip Key)
unfolding new
build_manager ips ids my_info omanager_port emanager_port original_cgraph max_load_per_node =
    elim (new ips ids original_cgraph emanager_port max_load_per_node) [
      | err e ↦ err e
      | ok o ↦ ok (record {
        my_info_emanager = record my_info { port = emanager_port };
        my_info_omanager = record my_info { port = omanager_port };
        orchestrator = o;
        emulations_and_their_nodes = [];
      })
    ]

unfoldable pub all_ready : {Ip : Type 0} → List (ClusterNodeInfo Ip × Bool) → Bool
all_ready [] = true
all_ready ((_, ready) ∷ others) = ready && all_ready others

module _ {Ip F Key : Type 0} (ips : VertexEq Ip) (ids : Ids Key) (works : Effect Ip F → Bool) where
  -- To this machine directly, to another one over the network.
  unfoldable pub send_host :
      Manager Ip Key → ClusterNodeInfo Ip → EManagerMessage Ip F → Effect Ip F
  unfolding info_eq
  send_host m node mess =
      if info_eq ips m.my_info_emanager node then local_send mess else remote_send node mess

  unfoldable pub send_each :
      Manager Ip Key → EManagerMessage Ip F → List (ClusterNodeInfo Ip × Bool) → List (Effect Ip F)
  unfolding send_host
  send_each m mess [] = []
  send_each m mess ((node, _) ∷ nodes) = send_host m node mess ∷ send_each m mess nodes

  -- Whether the messages arrive does not matter.
  unfoldable pub abort_emulations : List Key → Manager Ip Key → Manager Ip Key × List (Effect Ip F)
  unfolding get remove send_each
  abort_emulations [] m = (m, [])
  abort_emulations (uuid ∷ uuids) m = elim (get ids.same uuid m.emulations_and_their_nodes) [
    | none ↦ abort_emulations uuids m
    | some nodes ↦
        let stopped = send_each m (experiment_stop (ids.to_string uuid)) nodes in
        let forgotten = remove ids.same uuid m.emulations_and_their_nodes in
        let rest = abort_emulations uuids (record m { emulations_and_their_nodes = forgotten }) in
        (rest.0, stopped ++ rest.1)
  ]

  unfoldable pub on_cgraph_update :
      CgraphUpdate Ip → Manager Ip Key → Option (Manager Ip Key × List (Effect Ip F))
  unfolding update_with_cgraph remove_cluster_node abort_emulations
  on_cgraph_update (new_graph graph) m =
      elim (update_with_cgraph ips ids.same m.orchestrator graph) [
        | err _ ↦ none
        | ok (uuids, o) ↦ some (abort_emulations uuids (record m { orchestrator = o }))
      ]
  on_cgraph_update (remove_node node) m =
      elim (remove_cluster_node ips ids.same m.orchestrator node) [
        | err _ ↦ none
        | ok (uuids, o) ↦ some (abort_emulations uuids (record m { orchestrator = o }))
      ]

  -- `sender.send(r).unwrap()` after other effects.
  unfoldable pub reply :
      Option (ManagerMessage Ip)
      → Manager Ip Key × List (Effect Ip F)
      → Option (Manager Ip Key × List (Effect Ip F))
  reply r (m, effects) = if works (answer r) then some (m, effects ++ answer r ∷ []) else none

  -- The messages that stop what was sent to the nodes before one that was not reached.
  unfoldable pub stop_sent : EManagerMessage Ip F → List (ClusterNodeInfo Ip) → List (Effect Ip F)
  stop_sent stop nodes = map (λ node. remote_send node stop) nodes

  -- The loop of `send_new_emulation`, with the nodes that were sent to already.
  unfoldable pub send_new :
      Manager Ip Key
      → EManagerMessage Ip F
      → EManagerMessage Ip F
      → List (ClusterNodeInfo Ip)
      → List (ClusterNodeInfo Ip)
      → List (Effect Ip F) × Bool
  unfolding send_host stop_sent info_eq
  send_new m mess stop before [] = ([], true)
  send_new m mess stop before (node ∷ nodes) =
      let e = send_host m node mess in
      let rest = send_new m mess stop (before ++ node ∷ []) nodes in
      if works e
      then (e ∷ rest.0, rest.1)
      else if info_eq ips m.my_info_emanager node
      then (e ∷ [], false)
      else (e ∷ stop_sent stop before, false)

  unfoldable pub send_new_emulation :
      Manager Ip Key
      → Key
      → Network (Node Ip String) F
      → List (ClusterNodeInfo Ip)
      → List EmulationEvent
      → List (Effect Ip F) × Bool
  unfolding send_new
  send_new_emulation m uuid network nodes events =
      let emul : Emulation Ip String F = record {
        uuid = ids.to_string uuid;
        graph = network;
        events = events;
      } in
      send_new m (experiment_new m.my_info_omanager emul) (experiment_stop (ids.to_string uuid)) []
        nodes
