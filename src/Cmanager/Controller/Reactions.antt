-- ===== src/Cmanager/Controller/Reactions.antt =====
-- cmanager/src/controller.rs: the reactions of the controller to the events.
use kollaps.Prelude.{
  ℕ, ◌+◌, ◌-◌, Bool, true, false, Option, none, some, List, [], ◌∷◌, ◌++◌, map, ltb, leb, ◌==◌,
  if◌then◌else◌,
}
use kollaps.Cgraph.{
  Result, ok, err, ok_or, ErrorKind, panic, no_resource, perf_test_failed, CGraph, Node, unwrap,
  graph_size, add_node, remove_one_by, add_link_direct_test, ◌>>=◌,
}
use kollaps.Netgraph.Link.{VertexEq}
use kollaps.Netgraph.Network.{get, insert, remove}
use kollaps.Emulation.Data.{ClusterNodeInfo, info_eq, by_info}
use kollaps.Emulation.Sets.{holds, add}
use kollaps.Cmanager.Event.{
  CjqResponseKind, cgraph_update, cgraph_get, cgraph_send, cjq_response, cjq_request, cjq_retry,
  cjq_abort, cheartbeat, cheartbeat_check, cheartbeat_reset, node_failure, pclient, pserver,
  accepted, wait,
}
use kollaps.Cmanager.Controller.{
  Uuids, Ctrl, CtrlEvent, Effect, update_new, update_remove, event_after, joining_request,
  heartbeat_round, launch_server, send_to, Reaction, complete_graph, knows,
}

module _ {Ip Key Text : Type 0} (ips : VertexEq Ip) (ids : Uuids Key Text) where
  unfoldable pub notify : Ctrl Ip Key Text → Effect Ip Text → Result (List (Effect Ip Text))
  notify c e = if c.has_listener then ok (e ∷ []) else err panic

  unfoldable pub answered : Ctrl Ip Key Text → Option (CtrlEvent Ip Text) → Reaction Ip Key Text
  answered c e = record { ctrl = c; answer = some e; effects = [] }

  -- `create_cluster`, with the identifier that `Uuid::new_v4` draws.
  pub create_cluster : Ctrl Ip Key Text → Key → Result (Reaction Ip Key Text)
  create_cluster c drawn = do
    g ← kollaps.Cgraph.new
    a ← add_node (info_eq ips) g c.my_speed c.my_info
    ok (record {
      ctrl = record c { adding_new_node = false; cgraph = a.1; cluster_id = some drawn };
      answer = none;
      effects = event_after 1 cheartbeat_check ∷ [];
    })

  -- What `start` does before its loop.
  pub begin : Ctrl Ip Key Text → Key → Result (Reaction Ip Key Text)
  unfolding create_cluster notify
  begin c drawn =
      let fresh = record c { remaining_retries = c.config.cjq_retry } in
      let lead = (do
        r ← create_cluster fresh drawn
        told ← notify r.ctrl (update_new r.ctrl.cgraph)
        ok (record r { effects = r.effects ++ told })) in
      if c.is_leader
      then lead
      else ok (record { ctrl = fresh; answer = none; effects = joining_request ∷ [] })

  -- The leader is told that the node could not join, and the node tries again later.
  unfoldable pub give_up : Ctrl Ip Key Text → ClusterNodeInfo Ip → Reaction Ip Key Text
  give_up c info = record {
    ctrl = c;
    answer = none;
    effects =
        send_to cjq_abort info ∷ event_after c.config.cjq_timeout_duration_seconds cjq_retry ∷ [];
  }

  unfoldable pub join : Ctrl Ip Key Text → ClusterNodeInfo Ip → Text → Result (Reaction Ip Key Text)
  join c info cluster_id = do
    id ← ok_or (ids.parse_str cluster_id) panic
    ok (record {
      ctrl = record c { cluster_id = some id };
      answer = none;
      effects = send_to (cgraph_update c.cgraph) info ∷ [];
    })

  -- `CJQResponse`: `download` is the graph that the leader sends, if it comes.
  unfoldable pub on_response :
      Option (CGraph (ClusterNodeInfo Ip))
      → (ClusterNodeInfo Ip → ℕ → Option ℕ)
      → Ctrl Ip Key Text
      → CjqResponseKind (ClusterNodeInfo Ip) Text
      → Result (Reaction Ip Key Text)
  unfolding complete_graph give_up join
  on_response download launch_test before (wait duration) =
      let c = record before { remaining_retries = before.config.cjq_retry } in
      ok (record { ctrl = c; answer = none; effects = event_after duration cjq_retry ∷ [] })
  on_response none launch_test before (accepted (info, cluster_id)) =
      ok (give_up (record before { remaining_retries = before.config.cjq_retry }) info)
  on_response (some g) launch_test before (accepted (info, cluster_id)) = do
    r ← complete_graph ips launch_test before.config before.my_speed before.my_info g
    let c : Ctrl Ip Key Text = record before {
      cgraph = r.0;
      remaining_retries = before.config.cjq_retry;
    }
    if r.1 then join c info cluster_id else ok (give_up c info)

  -- `CJQRequest`
  unfoldable pub on_request : Ctrl Ip Key Text → ClusterNodeInfo Ip → Result (Reaction Ip Key Text)
  unfolding answered knows remove
  on_request c info =
      let accept = (do
        let c' =
            if knows ips info c.cgraph.nodes
            then record c { misses = remove (by_info ips) info c.misses }
            else c
        id ← ok_or c.cluster_id panic
        ok (
            answered (record c' { adding_new_node = true })
              (some (cjq_response (accepted (c.my_info, ids.to_string id)))))) in
      if c.is_leader
      then if c.adding_new_node
        then ok (answered c (some (cjq_response (wait c.config.cjq_waiting_time_seconds))))
        else accept
      else ok (answered c none)

  -- `CHeartbeat`: the answer repeats the identifier of the cluster if it is this one.
  unfoldable pub on_heartbeat : Ctrl Ip Key Text → Text → Reaction Ip Key Text
  unfolding answered
  on_heartbeat c other =
      let mine : Bool = elim (ids.parse_str other) [
        | none ↦ false
        | some other_id ↦ elim c.cluster_id [ none ↦ false | some cid ↦ ids.same_id cid other_id ]
      ] in
      if mine then answered c (some (cheartbeat (c.my_info, other))) else answered c none

  -- `NodeFailure`
  unfoldable pub on_failure : Ctrl Ip Key Text → ClusterNodeInfo Ip → Result (Reaction Ip Key Text)
  unfolding answered notify get insert remove graph_size remove_one_by unwrap
  on_failure c info = elim (get (by_info ips) info c.misses) [
    | none ↦ ok (answered (record c { misses = insert (by_info ips) info 1 c.misses }) none)
    | some missed ↦
        let lost = (do
          g ← unwrap (remove_one_by c.cgraph (λ n. info_eq ips n.info info))
          let c' = record c { cgraph = g; misses = remove (by_info ips) info c.misses }
          told ← notify c' (update_remove info)
          if graph_size g + 1 == graph_size c.cgraph
              then ok (record { ctrl = c'; answer = some none; effects = told })
              else err panic) in
        if leb c.config.heartbeat_misses (missed + 1)
        then lost
        else ok
            (answered (record c { misses = insert (by_info ips) info (missed + 1) c.misses }) none)
  ]

module _ {Ip Key Text : Type 0} (ips : VertexEq Ip) (ids : Uuids Key Text) where
  -- An event of the node itself.
  unfoldable pub on_own :
      Option (CGraph (ClusterNodeInfo Ip))
      → (ClusterNodeInfo Ip → ℕ → Option ℕ)
      → Ctrl Ip Key Text
      → CtrlEvent Ip Text
      → Result (Reaction Ip Key Text)
  unfolding on_response
  on_own download launch_test c (cjq_response kind) =
      on_response ips ids download launch_test c kind
  on_own download launch_test c cjq_retry =
      if ltb 0 c.remaining_retries
      then ok (record {
        ctrl = record c { remaining_retries = c.remaining_retries - 1 };
        answer = none;
        effects = joining_request ∷ [];
      })
      else err no_resource
  on_own download launch_test c cheartbeat_check =
      let round = (do
        id ← ok_or c.cluster_id panic
        ok (record { ctrl = c; answer = none; effects = heartbeat_round ∷ [] })) in
      if c.is_leader then round else ok (record { ctrl = c; answer = none; effects = [] })
  on_own download launch_test c _ = ok (record { ctrl = c; answer = none; effects = [] })

  -- An event with a sender that waits for an answer.
  unfoldable pub on_sent : Ctrl Ip Key Text → CtrlEvent Ip Text → Result (Reaction Ip Key Text)
  unfolding answered notify on_request on_heartbeat on_failure
  on_sent c cgraph_get = ok (answered ips ids c (some (cgraph_send c.cgraph)))
  on_sent c (cgraph_update graph) = do
    let c' = record c { adding_new_node = false; cgraph = graph }
    told ← notify ips ids c' (update_new graph)
    ok (record { ctrl = c'; answer = some none; effects = told })
  on_sent c (cjq_request info) = on_request ips ids c info
  on_sent c cjq_abort = ok (answered ips ids (record c { adding_new_node = false }) none)
  on_sent c (cheartbeat (_, other)) = ok (on_heartbeat ips ids c other)
  on_sent c (node_failure info) = on_failure ips ids c info
  on_sent c cheartbeat_reset = ok (answered ips ids (record c { misses = [] }) none)
  on_sent c pclient = ok (record {
    ctrl = c;
    answer =
        some (some (pserver (record { ip_addr = c.my_info.ip_addr; port = c.config.iperf3_port })));
    effects = launch_server ∷ [];
  })
  on_sent c _ = ok (record { ctrl = c; answer = none; effects = [] })

  -- The events that a round of heartbeats sends to the controller, and the delay of the next one.
  silent : List (ClusterNodeInfo Ip) → List (Node (ClusterNodeInfo Ip)) → List (ClusterNodeInfo Ip)
  unfolding holds add
  silent received_info [] = []
  silent received_info (n ∷ ns) =
      let rest = silent received_info ns in
      if holds (by_info ips) n.info received_info then rest else add (by_info ips) n.info rest

  pub heartbeat_events :
      Ctrl Ip Key Text → List (ClusterNodeInfo Ip) → List (CtrlEvent Ip Text) × Effect Ip Text
  unfolding silent
  heartbeat_events c received_info =
      let remaining = silent received_info c.cgraph.nodes in
      let events = elim remaining as (λ _. List (CtrlEvent Ip Text)) [
        | [] ↦ cheartbeat_reset ∷ []
        | info ∷ infos ↦ map node_failure (info ∷ infos)
      ] in
      (events, event_after c.config.heartbeat_sleep_seconds cheartbeat_check)
