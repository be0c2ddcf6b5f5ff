-- ===== src/Tests/Clusters.antt =====
-- A cluster of two nodes: removing one, adding another, and the speeds between them.
use kollaps.Prelude.{
  Option, ◌≢◌, ℕ, true, false, ◌+◌, ◌<◌, ◌≡◌, refl, none, some, [], ◌∷◌, map, arith, ◌==◌,
}
use kollaps.Matrix.{SymMatrix, index}
use kollaps.Matrix.Resize.{skip}
use kollaps.Cgraph.{
  TestData, update_speeds, contains, Node, CGraph, ok, add_node, find, remove_one_by, remove_node,
  shift, usize_max,
}
use kollaps.Cgraph.Membership.{IsCGraph, remove_one_by-IsCGraph}
use kollaps.Cgraph.Faster.{Faster, Over}
use kollaps.Cgraph.Ways.{Way}
use kollaps.Cgraph.Speeds.{update_speeds-Faster}
use kollaps.Cgraph.Missing.{find_missing_from_me}
use kollaps.Cgraph.Missing.Answer.{find_missing_from_me-IsCGraph}
use kollaps.Cgraph.Arrival.{Arrives, add_node_new}

abbrev first : Node ℕ
first = record { index_of = 0; node_speed = 100; info = 7 }

abbrev second : Node ℕ
second = record { index_of = 1; node_speed = 80; info = 8 }

abbrev pair : CGraph ℕ
pair = record {
  c_graph = record {
    n = 2;
    items =
        record { limited = true; directly_tested = false; speed = usize_max }
        ∷ record { limited = true; directly_tested = true; speed = 60 }
        ∷ record { limited = true; directly_tested = false; speed = usize_max }
        ∷ [];
  };
  nodes = first ∷ second ∷ [];
}

pair-IsCGraph : IsCGraph pair
unfolding contains
pair-IsCGraph = record {
  matrix = refl;
  counted = refl;
  below = (omega arith, (omega arith, tt));
  apart = (refl, (refl, tt));
}

found : find (λ k. k.index_of == 0) pair.nodes ≡ some first
unfolding find
found = refl

unknown : find (λ k. k.info == 9) pair.nodes ≡ none
unfolding find
unknown = refl

remove_one_by_example :
    (h : CGraph ℕ) × (remove_one_by pair (λ k. k.index_of == 0) ≡ ok h)
    × IsCGraph h
    × (h.c_graph.n + 1 ≡ 2)
    × (h.nodes ≡ map (shift 0) (remove_node pair.nodes 0))
    × ((r c : ℕ)
        → r + 1 < 2
        → c + 1 < 2
        → index h.c_graph r c ≡ index pair.c_graph (skip 0 r) (skip 0 c))
remove_one_by_example = remove_one_by-IsCGraph pair (λ k. k.index_of == 0) first pair-IsCGraph found

add_node_new_example :
    (node : Node ℕ) × (h : CGraph ℕ) × (add_node (λ a b. a == b) pair 50 9 ≡ ok (node, h))
    × Arrives (λ a b. a == b) pair 50 9 node h
add_node_new_example = add_node_new (λ a b. a == b) pair 50 9 pair-IsCGraph unknown

pair_held : (i : ℕ) → i < 2 → contains pair.nodes i ≡ true
unfolding contains
pair_held i h = ground arith

update_speeds_example :
    (t : SymMatrix TestData) × (update_speeds pair.nodes pair.c_graph ≡ ok t)
    × Faster pair.c_graph t
    × ((i j k : ℕ) → i < 2 → j < 2 → k < 2 → Over pair.c_graph t i j k)
    × ((i j : ℕ)
        → i < 2
        → j < 2
        → (d : TestData) → index t i j ≡ some d
        → Way pair.c_graph i j d.speed)
update_speeds_example = update_speeds-Faster pair.nodes pair.c_graph refl pair_held

find_missing_from_me_example :
    (answer : Option (Node ℕ)) × (h : CGraph ℕ) × (find_missing_from_me pair first 90
      ≡ ok (answer, h))
    × IsCGraph h
    × (h.nodes ≡ pair.nodes)
    × ((k : Node ℕ) → answer ≡ some k → (contains pair.nodes k.index_of ≡ true) × (0 ≢ k.index_of))
find_missing_from_me_example =
    find_missing_from_me-IsCGraph pair first 90 pair-IsCGraph (omega arith)
