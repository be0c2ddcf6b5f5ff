-- ===== src/Tests/Flows.antt =====
-- Three flows on a link, with natural numbers in place of `f64`.
use kollaps.Prelude.{
  ℕ, ◌+◌, ◌-◌, ◌/◌, ◌≡◌, refl, true, false, not, ◌&&◌, ◌==◌, none, some, List, [], ◌∷◌, leb,
}
use kollaps.Emulation.Flows.{Flow, by_flow}
use kollaps.Emulation.Sets.{holds}
use kollaps.Emulation.Bandwidth.{
  Doubles, distribute_bandwidth_across_flow, merge, path_of, remove_flow,
}
use kollaps.Emulation.Bandwidth.Share.{Within, distribute_bandwidth_across_flow_lem}
use kollaps.Emulation.Bandwidth.Stricter.{allows, least, merge_lem}
use kollaps.Emulation.Bandwidth.Removal.{has_link, remove_flow-holds}
use kollaps.Netgraph.Queries.{NetPath}
use kollaps.Netgraph.Network.{Network, shortest_path_strategy}
use kollaps.Tests.{by_number, link, triangle}

abbrev pub rounded : Doubles ℕ
rounded = record {
  of_nat = λ n. n;
  plus = λ a b. a + b;
  minus = λ a b. a - b;
  div = λ a b. a / b;
  le = leb;
  to_u32 = λ a. a;
}

abbrev flow : ℕ → ℕ → Flow ℕ
flow destination used = record {
  source = 10;
  destination = destination;
  authorized_bandwidth = 0;
  used_bandwidth = used;
  max_allowed_bandwidth = 100;
  hungry = false;
}

abbrev flows : List (Flow ℕ)
flows = flow 20 10 ∷ flow 30 90 ∷ flow 40 80 ∷ []

-- The small flow leaves 80 of the 90 to the others, which are cut to 40 each.
shared :
    distribute_bandwidth_across_flow by_number rounded (link 10 20 0 1 90) flows
    ≡ some (
        record (flow 40 40) { authorized_bandwidth = 40; hungry = true }
        ∷ record (flow 30 40) { authorized_bandwidth = 40; hungry = true }
        ∷ record (flow 20 10) { authorized_bandwidth = 100 }
        ∷ [])
unfolding distribute_bandwidth_across_flow kollaps.Netgraph.Link.bandwidth
    kollaps.Emulation.Flows.flow_eq
shared = refl

distribute_bandwidth_across_flow_lem_example :
    (result : List (Flow ℕ)) × (distribute_bandwidth_across_flow by_number rounded
        (link 10 20 0 1 90)
        flows
      ≡ some result)
    × Within result
    × ((a : Flow ℕ) → holds (by_flow by_number) a result ≡ holds (by_flow by_number) a flows)
distribute_bandwidth_across_flow_lem_example =
    distribute_bandwidth_across_flow_lem by_number rounded (link 10 20 0 1 90) flows

abbrev one_link : List (Flow ℕ)
one_link =
    record (flow 20 10) { authorized_bandwidth = 50 }
    ∷ record (flow 30 90) { authorized_bandwidth = 40 }
    ∷ []

abbrev other_link : List (Flow ℕ)
other_link =
    record (flow 30 90) { authorized_bandwidth = 25 }
    ∷ record (flow 40 80) { authorized_bandwidth = 70 }
    ∷ []

merge_lem_example :
    (result : List (Flow ℕ)) × (merge by_number one_link other_link ≡ some result)
    × ((a : Flow ℕ)
        → allows by_number a result
          ≡ least (allows by_number a one_link) (allows by_number a other_link))
merge_lem_example = merge_lem by_number one_link other_link

abbrev short : Network ℕ ℕ
short = triangle shortest_path_strategy

abbrev crashed : Flow ℕ
crashed = record (flow 30 5) { authorized_bandwidth = 5 }

abbrev still_active : List (Flow ℕ)
still_active = record crashed { authorized_bandwidth = 100 } ∷ []

abbrev reduced : Network ℕ ℕ
reduced = record short {
  links = record {
    items =
        none
        ∷ some (link 10 20 0 1 100)
        ∷ some (link 10 30 0 2 0)
        ∷ none
        ∷ some (link 20 30 1 2 40)
        ∷ none
        ∷ [];
    n = 3;
  };
}

-- The flow is given as it was, with the bandwidth that it used.
returns :
    remove_flow by_number rounded (crashed ∷ []) crashed short
    ≡ some (crashed, (still_active, reduced))
unfolding remove_flow kollaps.Netgraph.Network.map_two kollaps.Emulation.Flows.flow_eq
    kollaps.Netgraph.Search.path_between kollaps.Matrix.size kollaps.Netgraph.Heap.pop
    kollaps.Netgraph.Heap.push kollaps.Netgraph.Network.neighbours kollaps.Matrix.index
    kollaps.Netgraph.Queries.along kollaps.Netgraph.Link.bandwidth
    kollaps.Netgraph.Network.update_bandwidth_inter kollaps.Matrix.index_mut
returns = refl

remove_flow-holds_example :
    (path : NetPath ℕ ℕ) × (path_of by_number short crashed ≡ some path)
    × (holds (by_flow by_number) crashed still_active
        ≡ (has_link by_number path.links_set && not (5 == 0)))
remove_flow-holds_example = remove_flow-holds by_number rounded (crashed ∷ []) crashed short returns
