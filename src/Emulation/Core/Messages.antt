-- ===== src/Emulation/Core/Messages.antt =====
-- emulation/src/emulcore.rs, `flow_loop`: what a core does with one message.
--
-- `works` tells what the outside lets it do.
use kollaps.Prelude.{ℕ, Bool, Option, none, some, List, [], ◌∷◌, if◌then◌else◌, ◌==◌, min}
use kollaps.Netgraph.Link.{VertexEq, Floats}
use kollaps.Netgraph.Network.{Network, vertices, get, insert}
use kollaps.Netgraph.Queries.{keep_vertices, properties_between}
use kollaps.Common.EmulMessage.{
  EmulMessage, FlowConf, TcConf, EmulationEvent, EventAction, flow_update, event, join, quit, crash,
  tc_update, tc_reconnect, tc_disconnect,
}
use kollaps.Emulation.Data.{
  Application, Node, bare_metal, container, image, is_app, as_app, is_same_by_id, runs_on, node_eq,
  by_id,
}
use kollaps.Emulation.Flows.{Flow, by_flow, build_flow}
use kollaps.Emulation.Sets.{filter, holds}
use kollaps.Emulation.Bandwidth.{Doubles, update_flows, remove_flow}
use kollaps.Emulation.Core.Run.{
  Run, Effect, tell_reporter, tell_host, clean_stop, stop_container, done, or_fail, panic,
  invalid_data, perform, each, ◌>>=◌, ◌>>◌,
}
use kollaps.Emulation.Core.State.{
  AppStatus, not_init, is_running, stopped, crashed, EmulCore, State,
}

module _ {Ip Text F Q : Type 0} (ips : VertexEq Ip) (f : Floats F) (q : Doubles Q)
    (works : Effect Ip Text F → Bool) (core : EmulCore Ip Text F) where
  -- The application of a node, and its address.
  unfoldable pub app_of : Node Ip Text → Run Ip Text F (Application Ip Text)
  unfolding as_app
  app_of node = or_fail panic (as_app node)

  unfoldable pub ip_addr : Node Ip Text → Run Ip Text F Ip
  unfolding app_of
  ip_addr node = do a ← app_of node; or_fail panic a.ip_app

  unfoldable pub is_mine : Node Ip Text → Run Ip Text F Bool
  unfolding app_of runs_on
  is_mine node = do a ← app_of node; or_fail panic (runs_on ips a core.myself)

  -- `my_apps.get_mut(node).unwrap().0.send(m)`
  unfoldable pub tell : State Ip Text F → Node Ip Text → EmulMessage Ip F → Run Ip Text F (Unit {0})
  unfolding perform
  tell st node m = do
    or_fail panic (get by_id node st.my_apps)
    perform works (tell_reporter node m)

  unfoldable pub full_conf : Ip → ℕ × F × (F × F) → TcConf Ip F
  full_conf dest (bw, drop, latency_jitter) = record {
    dest = dest;
    bandwidth_kbitps = some bw;
    latency_and_jitter = some latency_jitter;
    drop = some drop;
  }

  unfoldable pub broadcast_flow : FlowConf Ip → Run Ip Text F (Unit {0})
  unfolding perform each
  broadcast_flow conf = each (λ host. perform works (tell_host host conf)) core.other_hosts

  -- The flows and the bandwidth graph that the sharing gives.
  unfoldable pub put_flows :
      State Ip Text F
      → Option (Flow (Node Ip Text) × (List (Flow (Node Ip Text)) × Network (Node Ip Text) F))
      → Option (State Ip Text F)
  put_flows st none = none
  put_flows st (some (_, (flows, graph))) =
      some (record st { active_flows = flows; bw_graph = graph })

  -- A flow that is active is removed.
  unfoldable pub drop_flow : Flow (Node Ip Text) → State Ip Text F → Option (State Ip Text F)
  unfolding holds remove_flow put_flows
  drop_flow flow st =
      if holds (by_flow by_id) flow st.active_flows
      then put_flows st (remove_flow by_id q st.active_flows flow core.graph)
      else some st

  unfoldable pub change_flows : Flow (Node Ip Text) → State Ip Text F → Option (State Ip Text F)
  unfolding drop_flow update_flows put_flows
  change_flows new_flow st =
      if new_flow.used_bandwidth == 0
      then drop_flow new_flow st
      else put_flows st (update_flows by_id q st.active_flows new_flow core.graph st.bw_graph)

  -- What is told to the reporter of a flow that ended, and to the other machines.
  unfoldable pub tell_flow :
      FlowConf Ip
      → Node Ip Text
      → Node Ip Text
      → ℕ × F × (F × F)
      → Bool
      → State Ip Text F
      → Run Ip Text F (Unit {0})
  unfolding ip_addr tell full_conf broadcast_flow
  tell_flow conf src dest props flow_deletion st =
      let reset = (do ip ← ip_addr dest; tell st src (tc_update (full_conf ip props))) in
      do if flow_deletion then reset else done tt; broadcast_flow conf

  -- A flow between two applications of the emulation.
  unfoldable pub on_known_flow :
      FlowConf Ip → Node Ip Text → Node Ip Text → State Ip Text F → Run Ip Text F (State Ip Text F)
  unfolding properties_between build_flow change_flows is_mine tell_flow
  on_known_flow conf src dest st = do
    found ← or_fail panic (properties_between by_id f core.graph src dest)
    props ← or_fail invalid_data found
    let used : ℕ = elim conf.throughput [ none ↦ 0 | some bw ↦ min bw props.0 ]
    next ← or_fail panic (change_flows (build_flow src dest props.0 used) st)
    mine ← is_mine src
    if mine then tell_flow conf src dest props (used == 0) next else done tt
    done next

  unfoldable pub on_flow_update : FlowConf Ip → State Ip Text F → Run Ip Text F (State Ip Text F)
  unfolding on_known_flow get
  on_flow_update conf st = elim (get ips conf.src core.ip_to_app) [
    | none ↦ done st
    | some src ↦ elim (get ips conf.dest core.ip_to_app) [
      | none ↦ done st
      | some dest ↦ on_known_flow conf src dest st
    ]
  ]

  unfoldable pub stop_app_if_necessary : Node Ip Text → Run Ip Text F (Unit {0})
  unfolding app_of perform image
  stop_app_if_necessary node = do
    a ← app_of node
    elim a.kind [
      | bare_metal ↦ done tt
      | container config ↦ elim (image config) [
        | none ↦ done tt
        | some _ ↦ perform works (stop_container config.name)
      ]
    ]

  -- The flows that the loop of `remove_all_flows_from` still has to remove.
  unfoldable pub remove_each :
      List (FlowConf Ip × Flow (Node Ip Text)) → State Ip Text F → Run Ip Text F (State Ip Text F)
  unfolding drop_flow broadcast_flow
  remove_each [] st = done st
  remove_each ((conf, flow) ∷ others) st = do
    next ← or_fail panic (drop_flow flow st)
    broadcast_flow conf
    remove_each others next

  unfoldable pub confs_of :
      List (Flow (Node Ip Text)) → Run Ip Text F (List (FlowConf Ip × Flow (Node Ip Text)))
  unfolding ip_addr
  confs_of [] = done []
  confs_of (flow ∷ others) = do
    src ← ip_addr flow.source
    dest ← ip_addr flow.destination
    rest ← confs_of others
    done ((record { src = src; dest = dest; throughput = none }, flow) ∷ rest)

  unfoldable pub remove_all_flows_from :
      Node Ip Text → State Ip Text F → Run Ip Text F (State Ip Text F)
  unfolding filter confs_of remove_each node_eq
  remove_all_flows_from node st = do
    to_remove ← confs_of (filter (λ flow. node_eq flow.source node) st.active_flows)
    remove_each to_remove st

  unfoldable pub set_status : Node Ip Text → AppStatus → State Ip Text F → State Ip Text F
  unfolding insert
  set_status node status st = record st { my_apps = insert by_id node status st.my_apps }

  -- The first configuration of the paths from an application.
  unfoldable pub init_paths : Node Ip Text → Run Ip Text F (Unit {0})
  unfolding properties_between ip_addr full_conf perform each keep_vertices vertices is_app node_eq
  init_paths node =
      each
        (λ other_node.
          let told = (do
            found ← or_fail panic (properties_between by_id f core.graph node other_node)
            elim found [
              | none ↦ done tt
              | some props ↦ do
                ip ← ip_addr other_node
                perform works (tell_reporter node (tc_update (full_conf ip props)))
            ]) in
          if node_eq other_node node then done tt else told)
        (keep_vertices is_app (vertices core.graph))

  unfoldable pub on_join :
      Node Ip Text → AppStatus → State Ip Text F → Run Ip Text F (State Ip Text F)
  unfolding init_paths perform set_status
  on_join node not_init st = do init_paths node; done (set_status node is_running st)
  on_join node stopped st = do
    perform works (tell_reporter node tc_reconnect)
    done (set_status node is_running st)
  on_join node is_running st = done st
  on_join node crashed st = done st

  unfoldable pub on_action :
      EventAction → Node Ip Text → AppStatus → State Ip Text F → Run Ip Text F (State Ip Text F)
  unfolding on_join remove_all_flows_from perform stop_app_if_necessary app_of set_status
  on_action join node status st = on_join node status st
  on_action quit node status st = do
    removed ← remove_all_flows_from node st
    perform works (tell_reporter node tc_disconnect)
    done (set_status node stopped removed)
  on_action crash node status st = do
    removed ← remove_all_flows_from node st
    perform works (tell_reporter node tc_disconnect)
    stop_app_if_necessary node
    let gone = set_status node crashed removed
    a ← app_of node
    index ← or_fail panic a.index
    perform works (clean_stop core.cluster_leader core.myself index)
    done gone

  -- The last application of this machine with the identifier.
  unfoldable pub last_with : ℕ → List (Node Ip Text × AppStatus) → Option (Node Ip Text × AppStatus)
  unfolding is_same_by_id
  last_with id [] = none
  last_with id ((node, status) ∷ others) =
      let here = if is_same_by_id node id then some (node, status) else none in
      elim (last_with id others) [ none ↦ here | some found ↦ some found ]

  unfoldable pub on_event : EmulationEvent → State Ip Text F → Run Ip Text F (State Ip Text F)
  unfolding last_with on_action
  on_event e st = elim (last_with e.app_id st.my_apps) [
    | none ↦ done st
    | some (node, status) ↦ on_action e.action node status st
  ]

  unfoldable pub on_message : EmulMessage Ip F → State Ip Text F → Run Ip Text F (State Ip Text F)
  unfolding on_flow_update on_event
  on_message (flow_update conf) st = on_flow_update conf st
  on_message (event e) st = on_event e st
  on_message _ st = done st
