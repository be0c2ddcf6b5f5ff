-- ===== src/Tests/Hosts.antt =====
-- The manager of a machine with one emulation.
use kollaps.Prelude.{ℕ, ◌≡◌, refl, Bool, true, some, List, [], ◌∷◌, ◌++◌}
use Prim.Native.String.{String}
use kollaps.Netgraph.Network.{get, insert, remove, shortest_path_strategy}
use kollaps.Emulation.Data.{Emulation}
use kollaps.Emulation.Core.State.{EmulCore}
use kollaps.Emulation.Protocol.{EManagerMessage, experiment_new, experiment_stop, experiment_ready}
use kollaps.Emulation.Host.{
  EManager, Effect, spawn_start, stop, built, answer_if, receive_messages, create_task, start_task,
}
use kollaps.Emulation.Host.Leader.{Serves, first-Serves}
use kollaps.Emulation.Host.Stopped.{stop-ready}
use kollaps.Tests.{by_number}
use kollaps.Tests.Managers.{host, numbers}

abbrev arrives : Effect ℕ ℕ ℕ ℕ → Bool
arrives e = true

abbrev quiet : Emulation ℕ String ℕ
quiet = record {
  uuid = "9";
  graph = record {
    links = record { items = []; n = 0 };
    mapper = [];
    path_strategy = shortest_path_strategy;
  };
  events = [];
}

abbrev core : EmulCore ℕ String ℕ
core = record {
  cluster_leader = host 2;
  graph = quiet.graph;
  events = [];
  other_hosts = [];
  ip_to_app = [];
  myself = host 1;
  emul_id = "9";
}

abbrev created : EManager ℕ ℕ ℕ ℕ
created = record (built (host 1)) {
  emul_id_to_emulcore = (9, core) ∷ [];
  cluster_omanager = some (host 2);
}

-- The messages that follow: another manager, the start and the end.
abbrev others : List (EManagerMessage ℕ ℕ × (Bool × ℕ))
others =
    (experiment_new (host 3) quiet, (true, 0))
    ∷ (experiment_ready "9", (true, 5))
    ∷ (experiment_stop "9", (true, 0))
    ∷ []

first-Serves_example : Serves by_number numbers arrives (host 2) (
    receive_messages by_number numbers arrives
      ((experiment_new (host 2) quiet, (true, 0)) ∷ others)
      (built (host 1)))
first-Serves_example =
    first-Serves by_number numbers arrives (λ e. refl) (host 2) quiet true 0 others (built (host 1))
      refl (refl, (refl, (refl, tt))) refl

abbrev waiting : EManager ℕ ℕ ℕ ℕ
waiting = record created { emul_id_abort_chan = insert by_number 9 5 created.emul_id_abort_chan }

stop-ready_example :
    (receive_messages by_number numbers arrives
        ((experiment_stop "9", (true, 0)) ∷ (experiment_ready "9", (true, 5)) ∷ [])
        created
      ≡ some (waiting, answer_if true ++ ((spawn_start 9 (host 2) 5 ∷ answer_if true) ++ [])))
    × (start_task by_number numbers arrives 9 waiting
        ≡ some (
          core,
          record waiting { emul_id_to_emulcore = remove by_number 9 created.emul_id_to_emulcore },
        ))
unfolding get
stop-ready_example =
    stop-ready by_number numbers arrives "9" 9 (host 2) true true 0 5 core created refl refl refl
      refl

-- A creation that succeeds, and a stop of an emulation that runs.
creation :
    create_task by_number numbers arrives quiet 9
      (host 2)
      true
      (record created { emul_id_to_emulcore = [] })
    ≡ (created, Effect.tell_ready 9 (host 1) (host 2) ∷ [])
unfolding create_task
creation = refl

stopping :
    receive_messages by_number numbers arrives ((experiment_stop "9", (true, 0)) ∷ []) waiting
    ≡ some (created, stop 5 ∷ Effect.answer ∷ [])
unfolding receive_messages
stopping = refl
