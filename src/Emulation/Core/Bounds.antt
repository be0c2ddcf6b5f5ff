-- ===== src/Emulation/Core/Bounds.antt =====
-- emulation/src/emulcore.rs, `flow_loop`: the flows stay within what the topology allows.
use kollaps.Prelude.{
  ◌≡◌, refl, ap, subst, inl, inr, Bool, Option, none, some, List, [], ◌∷◌, ◌==◌, if◌then◌else◌,
  Bool-cases,
}
use mathlib.Core.Option.{some-injective}
use kollaps.Netgraph.Link.{VertexEq, Floats}
use kollaps.Netgraph.Network.{Network, get}
use kollaps.Netgraph.Queries.{properties_between}
use kollaps.Common.EmulMessage.{
  EmulMessage, FlowConf, EmulationEvent, EventAction, flow_update, tc_init, tc_update,
  tc_disconnect, tc_reconnect, tc_teardown, socket_ready, event, join, quit, crash,
}
use kollaps.Emulation.Data.{Node, by_id, node_eq}
use kollaps.Emulation.Flows.{Flow, by_flow}
use kollaps.Emulation.Sets.{filter, holds}
use kollaps.Emulation.Bandwidth.{Doubles, update_flows, remove_flow}
use kollaps.Emulation.Bandwidth.Share.{Within}
use kollaps.Emulation.Bandwidth.Bounds.{Within-update_flows, Within-remove_flow}
use kollaps.Emulation.Core.Run.{
  Run, Effect, tell_reporter, clean_stop, schedule, leave_channels, ok, done, or_fail, perform,
  bind-ok, ok-injective, Failure, or_fail, panic, invalid_data,
}
use kollaps.Emulation.Core.State.{
  AppStatus, not_init, is_running, stopped, crashed, EmulCore, State,
}
use kollaps.Emulation.Core.Messages.{
  put_flows, drop_flow, change_flows, on_known_flow, on_flow_update, remove_each, confs_of,
  remove_all_flows_from, init_paths, on_join, on_action, last_with, on_event, on_message, is_mine,
  broadcast_flow, tell_flow, stop_app_if_necessary, app_of, set_status,
}
use kollaps.Emulation.Core.Loop.{send_updates, all_crashed, iteration, receive_all, flow_loop}

module _ {Ip Text F Q : Type 0} (ips : VertexEq Ip) (f : Floats F) (q : Doubles Q)
    (works : Effect Ip Text F → Bool) (core : EmulCore Ip Text F) where
  -- No active flow is authorized more than its path allows.
  abbrev Safe : State Ip Text F → Type 0
  Safe st = Within st.active_flows

  given :
      {A : Type 0} (e : Failure) (o : Option A) {a : A}
      → (or_fail {Ip = Ip} {Text = Text} {F = F} e o).result ≡ ok a
      → o ≡ some a
  given e none h = cc
  given e (some x) h = ap some (ok-injective h)

  put_flows-Safe :
      (st : State Ip Text F)
      (o : Option (Flow (Node Ip Text) × (List (Flow (Node Ip Text)) × Network (Node Ip Text) F)))
      {next : State Ip Text F}
      → ((r : Flow (Node Ip Text) × (List (Flow (Node Ip Text)) × Network (Node Ip Text) F))
          → o ≡ some r
          → Within r.1.0)
      → put_flows ips f q works core st o ≡ some next
      → Safe next
  unfolding put_flows
  put_flows-Safe st none h e = cc
  put_flows-Safe st (some (_, (flows, graph))) h e = subst Safe (some-injective _ _ e) (h _ refl)

  drop_flow-Safe :
      (flow : Flow (Node Ip Text)) (st : State Ip Text F) {next : State Ip Text F}
      → Safe st
      → drop_flow ips f q works core flow st ≡ some next
      → Safe next
  unfolding drop_flow
  drop_flow-Safe flow st w e = elim (Bool-cases (holds (by_flow by_id) flow st.active_flows)) [
    | inl t ↦
        put_flows-Safe st (remove_flow by_id q st.active_flows flow core.graph)
          (λ r h. Within-remove_flow by_id q st.active_flows flow core.graph w h) (rw t at e)
    | inr t ↦ rw (some-injective _ _ (rw t at e)) at w
  ]

  change_flows-Safe :
      (flow : Flow (Node Ip Text)) (st : State Ip Text F) {next : State Ip Text F}
      → Safe st
      → change_flows ips f q works core flow st ≡ some next
      → Safe next
  unfolding change_flows
  change_flows-Safe flow st w e = elim (Bool-cases (flow.used_bandwidth == 0)) [
    | inl t ↦ drop_flow-Safe flow st w (rw t at e)
    | inr t ↦
        put_flows-Safe st (update_flows by_id q st.active_flows flow core.graph st.bw_graph)
          (λ r h. Within-update_flows by_id q st.active_flows flow core.graph st.bw_graph w h)
          (rw t at e)
  ]

  on_known_flow-Safe :
      (conf : FlowConf Ip) (src dest : Node Ip Text) (st : State Ip Text F) {next : State Ip Text F}
      → Safe st
      → (on_known_flow ips f q works core conf src dest st).result ≡ ok next
      → Safe next
  unfolding on_known_flow
  on_known_flow-Safe conf src dest st w e =
      let (found, _, e1) =
        bind-ok (or_fail panic (properties_between by_id f core.graph src dest)) _ e in
      let (props, _, e2) = bind-ok (or_fail invalid_data found) _ e1 in
      let (changed, ec, e3) = bind-ok (or_fail panic (change_flows ips f q works core _ st)) _ e2 in
      let safe = change_flows-Safe _ st w (given _ _ ec) in
      let (mine, _, e4) = bind-ok (is_mine ips f q works core src) _ e3 in
      let (_, _, e5) =
        bind-ok
          (if mine then tell_flow ips f q works core conf src dest props _ changed else done tt) _
          e4 in
      subst Safe (ok-injective e5) safe

  remove_each-Safe :
      (flows : List (FlowConf Ip × Flow (Node Ip Text))) (st : State Ip Text F)
      {next : State Ip Text F}
      → Safe st
      → (remove_each ips f q works core flows st).result ≡ ok next
      → Safe next
  unfolding remove_each
  remove_each-Safe [] st w e = rw (ok-injective e) at w
  remove_each-Safe ((conf, flow) ∷ others) st w e =
      let (dropped, ed, e1) = bind-ok (or_fail panic (drop_flow ips f q works core flow st)) _ e in
      let (_, _, e2) = bind-ok (broadcast_flow ips f q works core conf) _ e1 in
      remove_each-Safe others dropped (drop_flow-Safe flow st w (given _ _ ed)) e2

  remove_all_flows_from-Safe :
      (node : Node Ip Text) (st : State Ip Text F) {next : State Ip Text F}
      → Safe st
      → (remove_all_flows_from ips f q works core node st).result ≡ ok next
      → Safe next
  unfolding remove_all_flows_from
  remove_all_flows_from-Safe node st w e =
      let (confs, _, e1) =
        bind-ok
          (confs_of ips f q works core (filter (λ flow. node_eq flow.source node) st.active_flows))
          _ e in
      remove_each-Safe confs st w e1

  on_join-Safe :
      (node : Node Ip Text) (status : AppStatus) (st : State Ip Text F) {next : State Ip Text F}
      → Safe st
      → (on_join ips f q works core node status st).result ≡ ok next
      → Safe next
  unfolding on_join set_status
  on_join-Safe node not_init st w e =
      let (_, _, e1) = bind-ok (init_paths ips f q works core node) _ e in
      subst Safe (ok-injective e1) w
  on_join-Safe node stopped st w e =
      let (_, _, e1) = bind-ok (perform works (tell_reporter node tc_reconnect)) _ e in
      subst Safe (ok-injective e1) w
  on_join-Safe node is_running st w e = subst Safe (ok-injective e) w
  on_join-Safe node crashed st w e = subst Safe (ok-injective e) w

  on_action-Safe :
      (action : EventAction) (node : Node Ip Text) (status : AppStatus) (st : State Ip Text F)
      {next : State Ip Text F}
      → Safe st
      → (on_action ips f q works core action node status st).result ≡ ok next
      → Safe next
  unfolding on_action set_status
  on_action-Safe join node status st w e = on_join-Safe node status st w e
  on_action-Safe quit node status st w e =
      let (removed, er, e1) = bind-ok (remove_all_flows_from ips f q works core node st) _ e in
      let (_, _, e2) = bind-ok (perform works (tell_reporter node tc_disconnect)) _ e1 in
      subst Safe (ok-injective e2) (remove_all_flows_from-Safe node st w er)
  on_action-Safe crash node status st w e =
      let (removed, er, e1) = bind-ok (remove_all_flows_from ips f q works core node st) _ e in
      let (_, _, e2) = bind-ok (perform works (tell_reporter node tc_disconnect)) _ e1 in
      let (_, _, e3) = bind-ok (stop_app_if_necessary ips f q works core node) _ e2 in
      let (a, _, e4) = bind-ok (app_of ips f q works core node) _ e3 in
      let (index, _, e5) = bind-ok (or_fail panic a.index) _ e4 in
      let (_, _, e6) =
        bind-ok (perform works (clean_stop core.cluster_leader core.myself index)) _ e5 in
      subst Safe (ok-injective e6) (remove_all_flows_from-Safe node st w er)

  on_event-Safe :
      (e : EmulationEvent) (st : State Ip Text F) {next : State Ip Text F}
      → Safe st
      → (on_event ips f q works core e st).result ≡ ok next
      → Safe next
  unfolding on_event
  on_event-Safe e st {next} w h = go (last_with ips f q works core e.app_id st.my_apps) h
    where
      go :
          (o : Option (Node Ip Text × AppStatus))
          → (Run.result {Ip = Ip} {Text = Text} {F = F} {A = State Ip Text F} (elim o [
            | none ↦ done st
            | some (node, status) ↦ on_action ips f q works core e.action node status st
          ]))
            ≡ ok next
          → Safe next
      go none h = subst Safe (ok-injective h) w
      go (some (node, status)) h = on_action-Safe e.action node status st w h

  on_flow_update-Safe :
      (conf : FlowConf Ip) (st : State Ip Text F) {next : State Ip Text F}
      → Safe st
      → (on_flow_update ips f q works core conf st).result ≡ ok next
      → Safe next
  unfolding on_flow_update
  on_flow_update-Safe conf st {next} w h =
      go (get ips conf.src core.ip_to_app) (get ips conf.dest core.ip_to_app) h
    where
      go :
          (from to : Option (Node Ip Text))
          → (Run.result {Ip = Ip} {Text = Text} {F = F} {A = State Ip Text F} (elim from [
            | none ↦ done st
            | some src ↦ elim to [
              | none ↦ done st
              | some dest ↦ on_known_flow ips f q works core conf src dest st
            ]
          ]))
            ≡ ok next
          → Safe next
      go none to h = subst Safe (ok-injective h) w
      go (some src) none h = subst Safe (ok-injective h) w
      go (some src) (some dest) h = on_known_flow-Safe conf src dest st w h

  on_message-Safe :
      (m : EmulMessage Ip F) (st : State Ip Text F) {next : State Ip Text F}
      → Safe st
      → (on_message ips f q works core m st).result ≡ ok next
      → Safe next
  unfolding on_message
  on_message-Safe (flow_update conf) st w h = on_flow_update-Safe conf st w h
  on_message-Safe (event e) st w h = on_event-Safe e st w h
  on_message-Safe (tc_init _) st w h = subst Safe (ok-injective h) w
  on_message-Safe (tc_update _) st w h = subst Safe (ok-injective h) w
  on_message-Safe tc_disconnect st w h = subst Safe (ok-injective h) w
  on_message-Safe tc_reconnect st w h = subst Safe (ok-injective h) w
  on_message-Safe tc_teardown st w h = subst Safe (ok-injective h) w
  on_message-Safe socket_ready st w h = subst Safe (ok-injective h) w

  receive_all-Safe :
      (messages : List (EmulMessage Ip F)) (st : State Ip Text F) {next : State Ip Text F}
      → Safe st
      → (receive_all ips f q works core messages st).result ≡ ok next
      → Safe next
  unfolding receive_all iteration
  receive_all-Safe [] st w h = subst Safe (ok-injective h) w
  receive_all-Safe (m ∷ messages) st w h =
      let (one, e1, h1) = bind-ok (iteration ips f q works core m st) _ h in
      let (changed, e2, h2) = bind-ok (on_message ips f q works core m st) _ e1 in
      let (_, _, h3) = bind-ok (send_updates ips f q works core changed) _ h2 in
      let safe = subst Safe (ok-injective h3) (on_message-Safe m st w e2) in
      elim (Bool-cases (all_crashed ips f q works core one.my_apps)) [
        | inl t ↦ subst Safe (ok-injective (rw t at h1)) safe
        | inr t ↦ receive_all-Safe messages one safe (rw t at h1)
      ]

  -- Whatever messages come, in whatever order: when `flow_loop` returns without an error, no active
  -- flow is authorized more bandwidth than it may have at most.
  pub flow_loop-Within :
      (my_apps : List (Node Ip Text × AppStatus)) (messages : List (EmulMessage Ip F))
      {last : State Ip Text F}
      → (flow_loop ips f q works core my_apps messages).result ≡ ok last
      → Within last.active_flows
  unfolding flow_loop
  flow_loop-Within my_apps messages h =
      let (_, _, h1) = bind-ok (perform works (schedule core.events)) _ h in
      let (ended, e, h2) = bind-ok (receive_all ips f q works core messages _) _ h1 in
      let (_, _, h3) = bind-ok (perform works leave_channels) _ h2 in
      subst Safe (ok-injective h3) (receive_all-Safe messages _ tt e)
