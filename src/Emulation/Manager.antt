-- ===== src/Emulation/Manager.antt =====
-- emulation/src/pubapi.rs and common/src/topology_message.rs: the manager of the emulations, on the
-- leader of the cluster.
--
-- `none` is a panic. What is sent is a list of effects, in order; `works` tells which of them
-- succeed. The text that a rejection carries is left out. An identifier that `new_v4` draws comes
-- with the message.
pub mod Ready
use package.kollaps.Prelude.{
  ℕ, Bool, true, false, ◌&&◌, Option, none, some, is_some, List, [], ◌∷◌, ◌++◌, map, if◌then◌else◌,
  ◌>>=◌,
}
use Prim.Native.String.{String}
use package.kollaps.Cgraph.{CGraph, Result, ok, err, ErrorKind, panic}
use package.kollaps.Netgraph.Link.{VertexEq}
use package.kollaps.Netgraph.Network.{Network, get, insert, remove}
use package.kollaps.Common.EmulMessage.{EmulationEvent}
use package.kollaps.Emulation.Data.{ClusterNodeInfo, Node, Emulation, info_eq, by_info}
use package.kollaps.Emulation.Orchestrator.{Orchestrator}
use package.kollaps.Emulation.Orchestrator.Placement.{Placing, new_emulation, stop_app_emulation_on}
use package.kollaps.Emulation.Orchestrator.Cluster.{new, update_with_cgraph, remove_cluster_node}
use package.kollaps.Emulation.Protocol.{
  Ids, RejectReason, no_deployment_found, bad_topology, ManagerMessage, new_topology, accepted,
  rejected, abort, clean_stop, emulation_ready, EManagerMessage, experiment_new, experiment_stop,
  experiment_ready,
}
use package.kollaps.Emulation.Xml.{Xml, Texts, Parsed, parsed, bad_file, panics}
use package.kollaps.Emulation.Topology.{parse_topology}
use package.kollaps.Emulation.Dispatch.{
  CgraphUpdate, Effect, Manager, answer, local_send, remote_send, all_ready, send_host, send_each,
  abort_emulations, reply, send_new_emulation,
}

module _ {Ip F Key : Type 0} (ips : VertexEq Ip) (ids : Ids Key) (works : Effect Ip F → Bool) where
  -- A topology that parses.
  unfoldable pub on_network :
      Key
      → Network (Node Ip String) F × List EmulationEvent
      → Manager Ip Key
      → Option (Manager Ip Key × List (Effect Ip F))
  unfolding new_emulation insert send_new_emulation reply
  on_network uuid (network, events) m =
      elim (new_emulation ips ids.same m.orchestrator network uuid) [
        | err panic ↦ none
        | err _ ↦ reply ips ids works (some (rejected no_deployment_found)) (m, [])
        | ok none ↦ reply ips ids works (some (rejected no_deployment_found)) (m, [])
        | ok (some p) ↦
            let ready_map = map (λ (n : ClusterNodeInfo Ip). (n, false)) p.affected in
            let known = insert ids.same uuid ready_map m.emulations_and_their_nodes in
            let next = record m {
              orchestrator = p.orchestrator;
              emulations_and_their_nodes = known;
            } in
            let told = send_new_emulation ips ids works next uuid p.network p.affected events in
            if told.1
            then reply ips ids works (some accepted) (next, told.0)
            else reply ips ids works (some (rejected no_deployment_found)) (next, told.0)
      ]

  unfoldable pub on_abort : String → Manager Ip Key → Option (Manager Ip Key × List (Effect Ip F))
  unfolding abort_emulations reply
  on_abort text m = do
    id ← ids.parse_str text
    reply ips ids works none (abort_emulations ips ids works (id ∷ []) m)

  -- An error is only printed.
  unfoldable pub on_clean_stop :
      String
      → ClusterNodeInfo Ip
      → ℕ
      → Manager Ip Key
      → Option (Manager Ip Key × List (Effect Ip F))
  unfolding stop_app_emulation_on reply
  on_clean_stop text node app_index m = do
    id ← ids.parse_str text
    elim (stop_app_emulation_on ips ids.same m.orchestrator id node app_index) [
      | err panic ↦ none
      | err _ ↦ reply ips ids works none (m, [])
      | ok o ↦ reply ips ids works none (record m { orchestrator = o }, [])
    ]

  -- The start signal to each node. A local one that fails is a panic; at a remote one that fails the
  -- emulation is aborted.
  unfoldable pub start_each :
      Key
      → List (ClusterNodeInfo Ip × Bool)
      → Manager Ip Key
      → Option (Manager Ip Key × List (Effect Ip F))
  unfolding send_host abort_emulations info_eq
  start_each id [] m = some (m, [])
  start_each id ((node, _) ∷ nodes) m =
      let e = send_host ips ids works m node (experiment_ready (ids.to_string id)) in
      let rest = start_each id nodes m >>= (λ r. some (r.0, e ∷ r.1)) in
      let aborted = abort_emulations ips ids works (id ∷ []) m in
      if works e
      then rest
      else if info_eq ips m.my_info_emanager node
      then none
      else some (aborted.0, e ∷ aborted.1)

  unfoldable pub on_ready :
      String → ClusterNodeInfo Ip → Manager Ip Key → Option (Manager Ip Key × List (Effect Ip F))
  unfolding get insert all_ready start_each reply
  on_ready text node m = do
    id ← ids.parse_str text
    nodes ← get ids.same id m.emulations_and_their_nodes
    was ← get (by_info ips) node nodes
    let marked = insert (by_info ips) node true nodes
    let known = insert ids.same id marked m.emulations_and_their_nodes
    let next = record m { emulations_and_their_nodes = known }
    let started = start_each id marked next
    if all_ready marked
        then started >>= reply ips ids works none
        else reply ips ids works none (next, [])

  module _ {N : Type 0} (xml : Xml N) (texts : Texts Ip F) (names : VertexEq String)
      (document : String → Option N) where
    unfoldable pub on_new_topology :
        String → Key → Manager Ip Key → Option (Manager Ip Key × List (Effect Ip F))
    unfolding parse_topology on_network reply
    on_new_topology top uuid m = do
      d ← document top
      elim (parse_topology xml texts names (ids.to_string uuid) d) [
        | panics ↦ none
        | bad_file ↦ reply ips ids works (some (rejected bad_topology)) (m, [])
        | parsed r ↦ on_network uuid r m
      ]

    -- A message without a sender is only printed.
    unfoldable pub handle_experiment_message :
        ManagerMessage Ip
        → Bool
        → Key
        → Manager Ip Key
        → Option (Manager Ip Key × List (Effect Ip F))
    unfolding on_new_topology on_abort on_clean_stop on_ready
    handle_experiment_message mess false uuid m = some (m, [])
    handle_experiment_message (new_topology top) true uuid m = on_new_topology top uuid m
    handle_experiment_message (abort id) true uuid m = on_abort id m
    handle_experiment_message (clean_stop id node app_index) true uuid m =
        on_clean_stop id node app_index m
    handle_experiment_message (emulation_ready id node) true uuid m = on_ready id node m
    handle_experiment_message accepted true uuid m =
        some (m, answer (some (rejected bad_topology)) ∷ [])
    handle_experiment_message (rejected _) true uuid m =
        some (m, answer (some (rejected bad_topology)) ∷ [])
