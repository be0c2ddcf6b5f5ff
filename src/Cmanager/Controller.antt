-- ===== src/Cmanager/Controller.antt =====
-- cmanager/src/controller.rs: the controller of a cluster's node, as its reaction to one event.
--
-- A message that has no sender comes from the node itself. What the controller does to the outside
-- is a list of effects, in order; the sockets and timers are outside. The errors are those of
-- Cgraph, with `panic` for a panic.
pub mod Reactions
pub mod Joining
pub mod Failure
use package.kollaps.Prelude.{
  ℕ, zero, suc, ◌+◌, ◌-◌, Bool, true, false, not, ◌||◌, Option, none, some, List, [], ◌∷◌, ◌++◌,
  map, ltb, leb, ◌==◌, if◌then◌else◌,
}
use package.kollaps.Cgraph.{
  Result, ok, err, ok_or, ErrorKind, panic, no_resource, perf_test_failed, CGraph, Node, unwrap,
  graph_size, add_node, remove_one_by, add_link_direct_test, ◌>>=◌,
}
use package.kollaps.Cgraph.Missing.{find_missing_from_me}
use package.kollaps.Netgraph.Link.{VertexEq}
use package.kollaps.Netgraph.Network.{get, insert, remove}
use package.kollaps.Emulation.Data.{ClusterNodeInfo, info_eq, by_info}
use package.kollaps.Emulation.Sets.{holds, add}
use package.kollaps.Cmanager.Event.{
  Event, CjqResponseKind, cgraph_update, cgraph_get, cgraph_send, cjq_response, cjq_request,
  cjq_retry, cjq_abort, cheartbeat, cheartbeat_check, cheartbeat_reset, node_failure, pclient,
  pserver, accepted, wait,
}

-- The crate `uuid`.
pub record Uuids (Key Text : Type 0) : Type 0 where
  pub same_id : Key → Key → Bool
  pub parse_str : Text → Option Key
  pub to_string : Key → Text

-- The fields of `RunnerConfig` that the controller reads.
pub record Config : Type 0 where
  pub cjq_retry : ℕ
  pub cjq_waiting_time_seconds : ℕ
  pub cjq_timeout_duration_seconds : ℕ
  pub heartbeat_misses : ℕ
  pub heartbeat_sleep_seconds : ℕ
  pub sufficient_speed : ℕ
  pub perf_test_retries : ℕ
  pub iperf3_port : ℕ

module _ (Ip Text : Type 0) where
  abbrev pub CtrlEvent : Type 0
  CtrlEvent = Event (CGraph (ClusterNodeInfo Ip)) (ClusterNodeInfo Ip) Text

  pub data Effect : Type 0 where
    update_new : CGraph (ClusterNodeInfo Ip) → Effect
    update_remove : ClusterNodeInfo Ip → Effect
    event_after : ℕ → CtrlEvent → Effect
    joining_request : Effect
    heartbeat_round : Effect
    launch_server : Effect
    send_to : CtrlEvent → ClusterNodeInfo Ip → Effect

module _ (Ip Key Text : Type 0) where
  -- What the node knows of its cluster. `cjq_request_remaining_retries` is a variable of `start`, and
  -- `has_listener` whether `start` was given a channel for the updates.
  pub record Ctrl : Type 0 where
    pub cgraph : CGraph (ClusterNodeInfo Ip)
    pub my_info : ClusterNodeInfo Ip
    pub my_speed : ℕ
    pub is_leader : Bool
    pub adding_new_node : Bool
    pub config : Config
    pub misses : List (ClusterNodeInfo Ip × ℕ)
    pub cluster_id : Option Key
    pub remaining_retries : ℕ
    pub has_listener : Bool

  -- The answer is `none` where the message has no sender or is not answered.
  pub record Reaction : Type 0 where
    pub ctrl : Ctrl
    pub answer : Option (Option (CtrlEvent Ip Text))
    pub effects : List (Effect Ip Text)

-- `?`, with the graph as it was at the error.
unfoldable pub or_stop : {G A : Type 0} → G → Result A → (A → Result (G × Bool)) → Result (G × Bool)
or_stop g (err panic) f = err panic
or_stop g (err _) f = ok (g, false)
or_stop g (ok a) f = f a

-- The attempts of a test, of which `left` remain after the one numbered `i`.
unfoldable pub attempts : (ℕ → Option ℕ) → ℕ → ℕ → Option ℕ
attempts launch_test zero i = none
attempts launch_test (suc left) i =
    let again = attempts launch_test left (i + 1) in
    elim (launch_test i) [ none ↦ again | some speed ↦ some speed ]

module _ {Ip : Type 0} (ips : VertexEq Ip) where
  -- The loop of `complete_graph`, on fuel: `launch_test` gives the answers of the tests. The graph
  -- stays as the last step left it, with whether the loop completed it.
  unfoldable pub test_missing :
      (ClusterNodeInfo Ip → ℕ → Option ℕ)
      → Config
      → Node (ClusterNodeInfo Ip)
      → ℕ
      → CGraph (ClusterNodeInfo Ip)
      → Result (CGraph (ClusterNodeInfo Ip) × Bool)
  unfolding attempts or_stop
  test_missing launch_test config me zero g = err panic
  test_missing launch_test config me (suc fuel) g =
      or_stop g (find_missing_from_me g me config.sufficient_speed) (λ found. elim found.0 [
        | none ↦ ok (found.1, true)
        | some other ↦
            let speed = attempts (launch_test other.info) (config.perf_test_retries + 1) 0 in
            or_stop found.1 (ok_or speed perf_test_failed) (λ s.
              or_stop found.1 (add_link_direct_test found.1 me other s)
                (λ t. test_missing launch_test config me fuel t.1))
      ])

  -- Each round tests a node that was not tested before.
  pub complete_graph :
      (ClusterNodeInfo Ip → ℕ → Option ℕ)
      → Config
      → ℕ
      → ClusterNodeInfo Ip
      → CGraph (ClusterNodeInfo Ip)
      → Result (CGraph (ClusterNodeInfo Ip) × Bool)
  unfolding test_missing graph_size or_stop
  complete_graph launch_test config my_speed my_info g =
      or_stop g (add_node (info_eq ips) g my_speed my_info)
        (λ a. test_missing launch_test config a.0 (graph_size a.1 + 1) a.1)

  unfoldable pub knows : ClusterNodeInfo Ip → List (Node (ClusterNodeInfo Ip)) → Bool
  knows info [] = false
  knows info (k ∷ ks) = info_eq ips k.info info || knows info ks
