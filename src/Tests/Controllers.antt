-- ===== src/Tests/Controllers.antt =====
-- The controller of a leader with two nodes, one of which is silent, while a third one is added.
use kollaps.Prelude.{ℕ, ◌≡◌, refl, true, false, none, some, [], ◌∷◌, ◌==◌}
use kollaps.Cgraph.{CGraph, Node, ok, usize_max}
use kollaps.Emulation.Data.{ClusterNodeInfo}
use kollaps.Cmanager.Event.{
  cgraph_get, cheartbeat_check, cjq_request, cjq_response, wait, cgraph_send,
}
use kollaps.Cmanager.Controller.{Uuids, Ctrl, Reaction, heartbeat_round}
use kollaps.Cmanager.Controller.Reactions.{on_sent, on_own}
use kollaps.Cmanager.Controller.Joining.{
  IsAdding, idle, serve, serve_own, NoAcceptance, Serves-NoAcceptance,
}
use kollaps.Tests.{by_number}

abbrev texts : Uuids ℕ ℕ
texts = record { same_id = λ a b. a == b; parse_str = λ t. some t; to_string = λ i. i }

abbrev machine : ℕ → ClusterNodeInfo ℕ
machine i = record { ip_addr = i; port = 80 }

abbrev silent_node : Node (ClusterNodeInfo ℕ)
silent_node = record { index_of = 1; node_speed = 80; info = machine 2 }

abbrev cluster : CGraph (ClusterNodeInfo ℕ)
cluster = record {
  c_graph = record {
    n = 2;
    items =
        record { limited = true; directly_tested = false; speed = usize_max }
        ∷ record { limited = true; directly_tested = true; speed = 60 }
        ∷ record { limited = true; directly_tested = false; speed = usize_max }
        ∷ [];
  };
  nodes = record { index_of = 0; node_speed = 100; info = machine 1 } ∷ silent_node ∷ [];
}

abbrev leader : Ctrl ℕ ℕ ℕ
leader = record {
  cgraph = cluster;
  my_info = machine 1;
  my_speed = 100;
  is_leader = true;
  adding_new_node = true;
  config = record {
    cjq_retry = 3;
    cjq_waiting_time_seconds = 5;
    cjq_timeout_duration_seconds = 7;
    heartbeat_misses = 3;
    heartbeat_sleep_seconds = 2;
    sufficient_speed = 90;
    perf_test_retries = 1;
    iperf3_port = 81;
  };
  misses = [];
  cluster_id = some 4;
  remaining_retries = 3;
  has_listener = true;
}

abbrev told_to_wait : Reaction ℕ ℕ ℕ
told_to_wait = record { ctrl = leader; answer = some (some (cjq_response (wait 5))); effects = [] }

waits : on_sent by_number texts leader (cjq_request (machine 3)) ≡ ok told_to_wait
unfolding on_sent
waits = refl

abbrev given_graph : Reaction ℕ ℕ ℕ
given_graph = record { ctrl = leader; answer = some (some (cgraph_send cluster)); effects = [] }

gets : on_sent by_number texts leader cgraph_get ≡ ok given_graph
unfolding on_sent
gets = refl

abbrev checked : Reaction ℕ ℕ ℕ
checked = record { ctrl = leader; answer = none; effects = heartbeat_round ∷ [] }

checks : on_own by_number texts none (λ a i. none) leader cheartbeat_check ≡ ok checked
unfolding on_own
checks = refl

Serves-NoAcceptance_example :
    NoAcceptance by_number texts (given_graph.answer ∷ checked.answer ∷ told_to_wait.answer ∷ [])
    × IsAdding leader
Serves-NoAcceptance_example =
    Serves-NoAcceptance by_number texts leader leader
      (given_graph.answer ∷ checked.answer ∷ told_to_wait.answer ∷ [])
      (record { leads = refl; adds = refl })
      (serve leader cgraph_get given_graph (checked.answer ∷ told_to_wait.answer ∷ []) leader refl
        gets
        (serve_own none (λ a i. none) leader cheartbeat_check checked (told_to_wait.answer ∷ [])
          leader checks
          (serve leader (cjq_request (machine 3)) told_to_wait [] leader refl waits (idle leader))))
