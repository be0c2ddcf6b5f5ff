-- ===== src/Tests/Networks.antt =====
-- Networks on small inputs: building, editing and searching.
use kollaps.Prelude.{
  ℕ, ◌<◌, ◌≡◌, refl, Option, none, some, List, [], ◌∷◌, arith, if◌then◌else◌, ◌==◌, get_elem?,
  false,
}
use kollaps.Matrix.{index}
use kollaps.Matrix.Access.{same_pair}
use kollaps.Netgraph.Link.{Link, build}
use kollaps.Netgraph.Network.{
  Network, widest_path_strategy, shortest_path_strategy, get, insert, new, map_two, map_vertex,
  edit_vertex, add_edge,
}
use kollaps.Netgraph.Network.Vertices.{get-insert}
use kollaps.Netgraph.Network.Edit.{IsNetwork, new-IsNetwork, add_edge_lem, edit_vertex_lem}
use kollaps.Netgraph.Network.Keys.{AreKeys, key_of}
use kollaps.Netgraph.Search.{widest_path, shortest_path}
use kollaps.Netgraph.Search.Rounds.{Solves}
use kollaps.Netgraph.Search.Adjacency.{link_of}
use kollaps.Netgraph.Search.Widest.{widest_labels, widest_path_lem}
use kollaps.Netgraph.Search.Shortest.{shortest_labels, shortest_path_lem}
use kollaps.Netgraph.Queries.{bandwidth_between}
use kollaps.Netgraph.Queries.Bandwidth.{IsWidth, IsShortestWidth, bandwidth_between_widest}
use kollaps.Netgraph.Queries.Hops.{bandwidth_between_shortest}
use kollaps.Tests.{by_number, whole, triangle}

abbrev wide : Network ℕ ℕ
wide = triangle widest_path_strategy

abbrev short : Network ℕ ℕ
short = triangle shortest_path_strategy

mapped_wide : map_two by_number wide 10 30 ≡ some (0, 2)
unfolding map_two
mapped_wide = refl

mapped_short : map_two by_number short 10 30 ≡ some (0, 2)
unfolding map_two
mapped_short = refl

widest_path_example :
    (label : List (Option ℕ)) × (parents : List (Option ℕ)) × (widest_path wide 0
      ≡ some (label, parents))
    × Solves widest_labels (link_of wide) 0 3 label parents
widest_path_example = widest_path_lem wide refl 0 (omega arith)

shortest_path_example :
    (label : List (Option ℕ)) × (parents : List (Option ℕ)) × (shortest_path short 0
      ≡ some (label, parents))
    × Solves shortest_labels (link_of short) 0 3 label parents
shortest_path_example = shortest_path_lem short refl 0 (omega arith)

bandwidth_between_widest_example :
    (answer : Option ℕ) × (bandwidth_between by_number wide 10 30 ≡ some answer)
    × IsWidth (link_of wide) 0 2 answer
bandwidth_between_widest_example =
    bandwidth_between_widest by_number wide refl 10 30 0 2 mapped_wide (omega arith) (omega arith)
      refl

bandwidth_between_shortest_example :
    (answer : Option ℕ) × (bandwidth_between by_number short 10 30 ≡ some answer)
    × IsShortestWidth (link_of short) 0 2 answer
bandwidth_between_shortest_example =
    bandwidth_between_shortest by_number short refl 10 30 0 2 mapped_short (omega arith)
      (omega arith) refl

wide-IsNetwork : IsNetwork by_number wide
unfolding get
wide-IsNetwork = record { matrix = refl; mapped = λ k i e. ground arith }

get-insert_example :
    get by_number {V = ℕ} 20 (insert by_number {V = ℕ} 20 7 ((10, 0) ∷ (20, 1) ∷ []))
    ≡ (if 20 == 20 then some 7 else get by_number {V = ℕ} 20 ((10, 0) ∷ (20, 1) ∷ []))
get-insert_example = get-insert by_number 20 20 7 ((10, 0) ∷ (20, 1) ∷ [])

new_example :
    (net : Network ℕ ℕ) × (new by_number (10 ∷ 20 ∷ []) widest_path_strategy ≡ some net)
    × IsNetwork by_number net
    × (net.links.n ≡ 2)
    × ((r c : ℕ) → r < 2 → c < 2 → index net.links r c ≡ some none)
    × AreKeys by_number net.mapper
    × ((p x : ℕ)
        → get_elem? (10 ∷ 20 ∷ []) p ≡ some x
        → ((q y : ℕ) → p < q → get_elem? (10 ∷ 20 ∷ []) q ≡ some y → (y == x) ≡ false)
        → map_vertex by_number net x ≡ some p)
    × ((x : ℕ)
        → ((q y : ℕ) → get_elem? (10 ∷ 20 ∷ []) q ≡ some y → (y == x) ≡ false)
        → map_vertex by_number net x ≡ none)
new_example = new-IsNetwork by_number (10 ∷ 20 ∷ []) widest_path_strategy

add_edge_example :
    (w : Network ℕ ℕ) × (add_edge by_number whole wide 10 30 8 ≡ some w)
    × IsNetwork by_number w
    × (w.links.n ≡ 3)
    × ((s d : ℕ)
        → s < 3
        → d < 3
        → index w.links s d ≡ (
            if same_pair 0 2 s d
            then some (some (build whole 10 30 0 2 8))
            else index wide.links s d))
add_edge_example = add_edge_lem by_number whole wide 10 30 0 2 8 wide-IsNetwork mapped_wide

edit_vertex_example :
    IsNetwork by_number (edit_vertex by_number wide 20)
    × ((edit_vertex by_number wide 20).links ≡ wide.links)
    × ((k : ℕ)
        → map_vertex by_number (edit_vertex by_number wide 20) k ≡ map_vertex by_number wide k)
    × (map_vertex by_number wide 20 ≡ none → edit_vertex by_number wide 20 ≡ wide)
    × (AreKeys by_number wide.mapper
        → AreKeys by_number (edit_vertex by_number wide 20).mapper
          × ((i : ℕ)
              → map_vertex by_number wide 20 ≡ some i
              → (k : ℕ)
              → key_of by_number k (edit_vertex by_number wide 20).mapper
                ≡ (if 20 == k then some 20 else key_of by_number k wide.mapper)))
edit_vertex_example = edit_vertex_lem by_number wide 20 wide-IsNetwork
