-- ===== src/Tests/Managers.antt =====
-- A manager whose emulation runs on two hosts.
use kollaps.Prelude.{ℕ, ◌≡◌, refl, Bool, true, false, none, some, List, [], ◌∷◌, ◌++◌}
use kollaps.Netgraph.Link.{u32_max}
use kollaps.Netgraph.Network.{get, insert}
use kollaps.Emulation.Data.{ClusterNodeInfo, info_eq, by_info}
use kollaps.Emulation.Protocol.{Ids, experiment_ready}
use kollaps.Emulation.Dispatch.{Effect, answer, Manager, send_each}
use kollaps.Emulation.Manager.{on_ready}
use kollaps.Emulation.Manager.Ready.{marked, on_ready_lem}
use kollaps.Tests.{by_number}

abbrev pub host : ℕ → ClusterNodeInfo ℕ
host i = record { ip_addr = i; port = 80 }

abbrev pub numbers : Ids ℕ
numbers = record { same = by_number; parse_str = λ s. some 9; to_string = λ n. "9" }

abbrev arrives : Effect ℕ ℕ → Bool
arrives e = true

abbrev two_hosts : List (ClusterNodeInfo ℕ × Bool)
two_hosts = (host 1, false) ∷ (host 2, true) ∷ []

abbrev manager : Manager ℕ ℕ
manager = record {
  my_info_emanager = host 1;
  my_info_omanager = record { ip_addr = 1; port = 90 };
  orchestrator = record {
    residual_graph = record { n = 2; items = u32_max ∷ 1000 ∷ u32_max ∷ [] };
    host_mapping = host 1 ∷ host 2 ∷ [];
    attributed_emul = [];
    emulations = [];
    current_load = [];
    max_load = 1;
    emanagers_port = 80;
  };
  emulations_and_their_nodes = (9, two_hosts) ∷ [];
}

abbrev noted : Manager ℕ ℕ
noted = marked by_number numbers arrives 9 (host 1) two_hosts manager

on_ready_lem_example :
    ((other : ClusterNodeInfo ℕ)
      → info_eq by_number (host 1) other ≡ false
      → get (by_info by_number) other two_hosts ≡ some false
      → on_ready by_number numbers arrives "9" (host 1) manager ≡ some (noted, answer none ∷ []))
    × (((other : ClusterNodeInfo ℕ) (b : Bool)
          → info_eq by_number (host 1) other ≡ false
          → get (by_info by_number) other two_hosts ≡ some b
          → b ≡ true)
        → on_ready by_number numbers arrives "9" (host 1) manager
          ≡ some (
            noted,
            send_each by_number numbers arrives noted
                  (experiment_ready "9")
                  (insert (by_info by_number) (host 1) true two_hosts)
                ++ answer none ∷ [],
          ))
unfolding get info_eq
on_ready_lem_example =
    on_ready_lem by_number numbers arrives "9" 9 (host 1) two_hosts false manager (λ e. refl) refl
      refl refl (refl, (refl, tt))

-- The second host was ready: both get the signal.
started :
    on_ready by_number numbers arrives "9" (host 1) manager
    ≡ some (
      noted,
      Effect.local_send (experiment_ready "9")
          ∷ Effect.remote_send (host 2) (experiment_ready "9")
          ∷ answer none
          ∷ [],
    )
unfolding on_ready info_eq
started = refl
