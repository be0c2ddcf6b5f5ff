-- ===== src/Tests/Emulations.antt =====
-- An emulation of two applications on a cluster of two hosts.
use kollaps.Prelude.{
  ℕ, zero, suc, ◌+◌, ◌≤◌, ◌≡◌, refl, ap, Bool, true, false, Option, none, some, List, [], ◌∷◌,
  arith, get_elem?, subst, ℕ_discrete,
}
use mathlib.Core.Option.{some-injective}
use kollaps.Matrix.{SymMatrix, index}
use kollaps.Cgraph.{CGraph, ok, err, panic, speeds, usize_max}
use kollaps.Netgraph.Link.{VertexEq, Link, Duplex, u32_max}
use kollaps.Netgraph.Network.{Network, PathStrategy, get, shortest_path_strategy}
use kollaps.Emulation.Data.{ClusterNodeInfo, Application, ApplicationKind, Node, app}
use kollaps.Emulation.Orchestrator.{Orchestrator}
use kollaps.Emulation.Orchestrator.Placement.{Placing, new_emulation, stop_emulation}
use kollaps.Emulation.Orchestrator.Placement.Restore.{at}
use kollaps.Emulation.Orchestrator.Placement.Stop.{IsSpread, stop_emulation-new_emulation}
use kollaps.Emulation.Orchestrator.Placement.Shared.{stop_emulation-panic}
use kollaps.Emulation.Orchestrator.Isomorphism.{upto, verify_permutation, graph_isomorphism}
use kollaps.Emulation.Orchestrator.Isomorphism.Sound.{IsPermutation, graph_isomorphism_lem}
use kollaps.Emulation.Orchestrator.Combination.{next_comb}
use kollaps.Emulation.Orchestrator.Combination.Next.{IsComb, Later, next_comb-IsComb}
use kollaps.Emulation.Orchestrator.Cluster.{new}
use kollaps.Emulation.Orchestrator.Cluster.Kept.{IsMapped}
use kollaps.Emulation.Orchestrator.Cluster.Reachable.{
  Reachable-IsMapped, started, continued, placed,
}
use kollaps.Tests.{by_number}

abbrev host : ℕ → ClusterNodeInfo ℕ
host i = record { ip_addr = i; port = 80 }

abbrev idle : Orchestrator ℕ ℕ
idle = record {
  residual_graph = record { n = 2; items = u32_max ∷ 1000 ∷ u32_max ∷ [] };
  host_mapping = host 1 ∷ host 2 ∷ [];
  attributed_emul = [];
  emulations = [];
  current_load = [];
  max_load = 1;
  emanagers_port = 80;
}

abbrev server : ℕ → Node ℕ ℕ
server i = app i (record {
  ip_app = none;
  host = none;
  name = i;
  kind = ApplicationKind.bare_metal;
  index = none;
})

abbrev wire : Link (Node ℕ ℕ) ℕ
wire = record {
  internal_source = 0;
  internal_destination = 1;
  source = server 5;
  destination = server 6;
  bandwidth_field = 100;
  drop = 0;
  latency_jitter = (0, 0);
  duplex = Duplex.full_duplex;
}

abbrev topology : Network (Node ℕ ℕ) ℕ
topology = record {
  links = record { n = 2; items = none ∷ some wire ∷ none ∷ [] };
  mapper = (server 5, 0) ∷ (server 6, 1) ∷ [];
  path_strategy = shortest_path_strategy;
}

abbrev placed_server : ℕ → ℕ → Node ℕ ℕ
placed_server name i = app name (record {
  ip_app = none;
  host = some (host (i + 1));
  name = name;
  kind = ApplicationKind.bare_metal;
  index = some i;
})

abbrev demand : SymMatrix ℕ
demand = record { n = 2; items = u32_max ∷ 100 ∷ u32_max ∷ [] }

abbrev busy : Orchestrator ℕ ℕ
busy = record {
  residual_graph = record { n = 2; items = u32_max ∷ 900 ∷ u32_max ∷ [] };
  host_mapping = host 1 ∷ host 2 ∷ [];
  attributed_emul = (host 1, 9 ∷ []) ∷ (host 2, 9 ∷ []) ∷ [];
  emulations = (9, (demand, 0 ∷ 1 ∷ [])) ∷ [];
  current_load = (host 1, (9, 1) ∷ []) ∷ (host 2, (9, 1) ∷ []) ∷ [];
  max_load = 1;
  emanagers_port = 80;
}

abbrev placing : Placing ℕ ℕ ℕ ℕ
placing = record {
  orchestrator = busy;
  network = record topology { mapper = (placed_server 5 0, 0) ∷ (placed_server 6 1, 1) ∷ [] };
  nodes = placed_server 5 0 ∷ placed_server 6 1 ∷ [];
  affected = host 2 ∷ host 1 ∷ [];
}

gets_place : new_emulation by_number by_number idle topology 9 ≡ ok (some placing)
unfolding new_emulation kollaps.Netgraph.Queries.bandwidth_matrix kollaps.Matrix.new_fn
    kollaps.Netgraph.Network.map_two kollaps.Emulation.Data.node_eq
    kollaps.Netgraph.Search.path_between kollaps.Netgraph.Heap.pop
    kollaps.Emulation.Orchestrator.HostSets.find_isomorphism kollaps.Netgraph.Heap.push
    kollaps.Netgraph.Network.neighbours index kollaps.Netgraph.Queries.along
    kollaps.Netgraph.Link.bandwidth kollaps.Emulation.Data.edit_app kollaps.Matrix.index_mut
    kollaps.Emulation.Data.info_eq kollaps.Emulation.Data.set_index kollaps.Emulation.Data.set_host
gets_place = refl

spread : IsSpread (0 ∷ 1 ∷ [])
spread zero zero a h e f = h refl
spread zero (suc zero) a h e f = cc
spread zero (suc (suc j)) a h e f = cc
spread (suc zero) zero a h e f = cc
spread (suc zero) (suc zero) a h e f = h refl
spread (suc zero) (suc (suc j)) a h e f = cc
spread (suc (suc i)) j a h e f = cc

bounded : (c : ℕ) → at idle.residual_graph.items c ≤ u32_max
bounded zero = omega arith
bounded (suc zero) = omega arith
bounded (suc (suc zero)) = omega arith
bounded (suc (suc (suc c))) = omega arith

unknown_yet : get by_number 9 idle.emulations ≡ none
unfolding get
unknown_yet = refl

apart :
    (matrix : SymMatrix ℕ) (equivalence : List ℕ)
    → get by_number 9 busy.emulations ≡ some (matrix, equivalence)
    → IsSpread equivalence
unfolding get
apart matrix equivalence e =
    let same : 0 ∷ 1 ∷ [] ≡ equivalence = ap (λ x. x.1) (some-injective _ _ e) in
    subst IsSpread same spread

stop_emulation-new_emulation_example :
    (o : Orchestrator ℕ ℕ) × (stop_emulation by_number by_number busy 9 ≡ ok o)
    × (o.residual_graph ≡ idle.residual_graph)
    × (o.emulations ≡ idle.emulations)
    × (o.host_mapping ≡ idle.host_mapping)
stop_emulation-new_emulation_example =
    stop_emulation-new_emulation by_number by_number idle topology 9 placing bounded unknown_yet
      gets_place apart

-- Both applications on the first host.
abbrev crowded : Orchestrator ℕ ℕ
crowded = record busy { emulations = (9, (demand, 0 ∷ 0 ∷ [])) ∷ [] }

known : get by_number 9 crowded.emulations ≡ some (demand, 0 ∷ 0 ∷ [])
unfolding get
known = refl

wanted : index demand 1 0 ≡ some 100
unfolding index
wanted = refl

alone : index crowded.residual_graph 0 0 ≡ some u32_max
unfolding index
alone = refl

stop_emulation-panic_example : stop_emulation by_number by_number crowded 9 ≡ err panic
unfolding kollaps.Matrix.size
stop_emulation-panic_example =
    stop_emulation-panic by_number by_number crowded 9 demand (0 ∷ 0 ∷ []) 1 0 0 99 known
      (omega arith) (omega arith) refl refl wanted alone

abbrev cluster : CGraph (ClusterNodeInfo ℕ)
cluster = record {
  c_graph = record {
    n = 2;
    items =
        record { limited = true; directly_tested = false; speed = usize_max }
        ∷ record { limited = false; directly_tested = true; speed = 1000 }
        ∷ record { limited = true; directly_tested = false; speed = usize_max }
        ∷ [];
  };
  nodes =
      record { index_of = 0; node_speed = 1000; info = record { ip_addr = 1; port = 7 } }
      ∷ record { index_of = 1; node_speed = 1000; info = record { ip_addr = 2; port = 7 } }
      ∷ [];
}

begun : new by_number by_number cluster 80 1 ≡ ok idle
unfolding new speeds kollaps.Matrix.new_fn kollaps.Cgraph.map_nodes index kollaps.Matrix.size
begun = refl

Reachable-IsMapped_example : IsMapped busy
Reachable-IsMapped_example =
    Reachable-IsMapped by_number by_number ℕ ℕ busy
      (continued idle busy (started cluster 80 1 idle begun) (placed topology 9 placing gets_place))

counted : IsComb 3 2 (0 ∷ 1 ∷ [])
counted = record {
  size = refl;
  below = elim [
    | zero ↦ λ x e. let is = some-injective _ _ e in omega arith
    | suc zero ↦ λ x e. let is = some-injective _ _ e in omega arith
    | suc (suc l) ↦ λ x e. cc
  ];
  rising = elim [
    | zero ↦
        λ x y e f. let is = some-injective _ _ e in let next = some-injective _ _ f in omega arith
    | suc zero ↦ λ x y e f. cc
    | suc (suc l) ↦ λ x y e f. cc
  ];
  first = λ x e. let is = some-injective _ _ e in omega arith;
}

next_comb-IsComb_example :
    (result : Option (List ℕ)) × (next_comb (0 ∷ 1 ∷ []) 2 4 ≡ some result)
    × ((c : List ℕ) → result ≡ some c → IsComb 3 2 c × Later (0 ∷ 1 ∷ []) c)
    × (result ≡ none → get_elem? {A = ℕ} (0 ∷ 1 ∷ []) 0 ≡ some 2)
next_comb-IsComb_example = next_comb-IsComb (0 ∷ 1 ∷ []) 2 4 (omega arith) (omega arith) counted

-- Two applications of the same demand as `demand`, tried on both hosts.
tested_pair :
    (e : List ℕ)
    → IsPermutation 2 e
    → (b : Bool) × (verify_permutation by_number idle demand demand e (0 ∷ 1 ∷ []) ≡ ok b)
unfolding verify_permutation upto index
tested_pair [] p = absurd (omega (arith, p.full))
tested_pair (x ∷ []) p = absurd (omega (arith, p.full))
tested_pair (x ∷ y ∷ z ∷ e) p = absurd (omega (arith, p.full))
tested_pair (x ∷ y ∷ []) p =
    let none_twice = p.same 0 in
    let one_twice = p.same 1 in
    elim (ℕ_discrete x 0) [
      | yes first ↦ let second : y ≡ 1 = ground arith in rw (first, second) (true, refl)
      | no other ↦
          let second : y ≡ 0 = ground arith in
          let start : x ≡ 1 = ground arith in rw (start, second) (true, refl)
    ]

graph_isomorphism_lem_example :
    (result : Option (List ℕ)) × (graph_isomorphism by_number idle demand demand (0 ∷ 1 ∷ [])
      ≡ ok result)
    × ((e : List ℕ)
        → result ≡ some e
        → IsPermutation 2 e
          × (verify_permutation by_number idle demand demand e (0 ∷ 1 ∷ []) ≡ ok true))
    × (result ≡ none
        → verify_permutation by_number idle demand demand (upto 2 0) (0 ∷ 1 ∷ []) ≡ ok false)
unfolding kollaps.Matrix.size
graph_isomorphism_lem_example =
    graph_isomorphism_lem by_number idle demand demand (0 ∷ 1 ∷ []) refl tested_pair
