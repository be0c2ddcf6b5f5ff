-- ===== src/Tests/Cores.antt =====
-- A core that gets a flow between two applications on one link.
use kollaps.Prelude.{ℕ, ◌+◌, ◌≡◌, refl, Bool, true, false, none, some, List, [], ◌∷◌}
use kollaps.Netgraph.Link.{Link, Duplex}
use kollaps.Netgraph.Network.{Network, shortest_path_strategy}
use kollaps.Common.EmulMessage.{EmulMessage, flow_update}
use kollaps.Emulation.Data.{ApplicationKind, Node, app}
use kollaps.Emulation.Bandwidth.Share.{Within}
use kollaps.Emulation.Core.Run.{Effect, ok}
use kollaps.Emulation.Core.State.{is_running, EmulCore, State}
use kollaps.Emulation.Core.Loop.{flow_loop}
use kollaps.Emulation.Core.Bounds.{flow_loop-Within}
use kollaps.Tests.{by_number, whole}
use kollaps.Tests.Flows.{rounded}

abbrev service : ℕ → ℕ → Node ℕ ℕ
service i host = app i (record {
  ip_app = some (i + 40);
  host = some (record { ip_addr = host; port = 80 });
  name = i;
  kind = ApplicationKind.bare_metal;
  index = some i;
})

abbrev pair : ℕ → Network (Node ℕ ℕ) ℕ
pair bw = record {
  links = record {
    items =
        none
        ∷ some (record {
          internal_source = 0;
          internal_destination = 1;
          source = service 0 1;
          destination = service 1 2;
          bandwidth_field = bw;
          drop = 0;
          latency_jitter = (0, 0);
          duplex = Duplex.full_duplex;
        })
        ∷ none
        ∷ [];
    n = 2;
  };
  mapper = (service 0 1, 0) ∷ (service 1 2, 1) ∷ [];
  path_strategy = shortest_path_strategy;
}

abbrev first_core : EmulCore ℕ ℕ ℕ
first_core = record {
  cluster_leader = record { ip_addr = 1; port = 90 };
  graph = pair 100;
  events = [];
  other_hosts = record { ip_addr = 2; port = 80 } ∷ [];
  ip_to_app = (40, service 0 1) ∷ (41, service 1 2) ∷ [];
  myself = record { ip_addr = 1; port = 80 };
  emul_id = 7;
}

abbrev all_works : Effect ℕ ℕ ℕ → Bool
all_works e = true

abbrev messages : List (EmulMessage ℕ ℕ)
messages = flow_update (record { src = 40; dest = 41; throughput = some 30 }) ∷ []

abbrev after_flow : State ℕ ℕ ℕ
after_flow = record {
  my_apps = (service 0 1, is_running) ∷ [];
  active_flows =
      record {
        source = service 0 1;
        destination = service 1 2;
        authorized_bandwidth = 100;
        used_bandwidth = 30;
        max_allowed_bandwidth = 100;
        hungry = false;
      }
      ∷ [];
  bw_graph = pair 70;
}

runs :
    (flow_loop by_number whole rounded all_works first_core
      ((service 0 1, is_running) ∷ [])
      messages).result
    ≡ ok after_flow
unfolding flow_loop kollaps.Netgraph.Network.map_two kollaps.Netgraph.Search.path_between
    kollaps.Matrix.size kollaps.Netgraph.Heap.pop kollaps.Netgraph.Heap.push
    kollaps.Netgraph.Network.neighbours kollaps.Matrix.index kollaps.Netgraph.Queries.along
    kollaps.Netgraph.Link.bandwidth kollaps.Emulation.Flows.flow_eq
    kollaps.Netgraph.Network.update_bandwidth_inter kollaps.Matrix.index_mut
runs = refl

flow_loop-Within_example : Within after_flow.active_flows
flow_loop-Within_example =
    flow_loop-Within by_number whole rounded all_works first_core ((service 0 1, is_running) ∷ [])
      messages runs
