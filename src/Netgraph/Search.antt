-- ===== src/Netgraph/Search.antt =====
-- netgraph/src/lib.rs: `widest_path` and `shortest_path`, the two searches from one node.
--
-- A search keeps a label and a parent for each node, and a queue of nodes to visit. It takes
-- fuel for its `while` loop; `none` is a panic or the end of the fuel.
pub mod Labels
pub mod Relax
pub mod Tree
pub mod Rounds
pub mod Begin
pub mod Adjacency
pub mod Widest
pub mod Shortest
use package.kollaps.Prelude.{
  ℕ, zero, suc, ◌+◌, ◌*◌, Option, none, some, List, [], ◌∷◌, ltb, if◌then◌else◌, length, get_elem?,
  set, replicate, min, max, ◌>>=◌,
}
use package.kollaps.Matrix.{index, size}
use package.kollaps.Netgraph.Link.{Link, bandwidth, u32_max}
use package.kollaps.Netgraph.Heap.{Pair, push, pop}
use package.kollaps.Netgraph.Network.{
  Network, neighbours, PathStrategy, widest_path_strategy, shortest_path_strategy,
}

pub record Search : Type 0 where
  pub label : List (Option ℕ)
  pub parents : List (Option ℕ)
  pub to_visit : List Pair

abbrev pub Paths : Type 0
Paths = List (Option ℕ) × List (Option ℕ)

-- `vec[i] = Some(x)`
unfoldable pub write : List (Option ℕ) → ℕ → ℕ → Option (List (Option ℕ))
write xs i x = if ltb i (length xs) then some (set xs i (some x)) else none

-- Gives the node `n` the label `x`, the parent `parent` and a place in the queue.
unfoldable pub improve : Search → ℕ → ℕ → ℕ → Option Search
unfolding write
improve s n parent x = do
  label ← write s.label n x
  parents ← write s.parents n parent
  some (record {
    label = label;
    parents = parents;
    to_visit = push (record { node = n; val = x }) s.to_visit;
  })

unfoldable pub start : ℕ → ℕ → ℕ → Option Search
unfolding write
start n from x = do
  label ← write (replicate n none) from x
  some (record {
    label = label;
    parents = replicate n none;
    to_visit = push (record { node = from; val = x }) [];
  })

-- The body of the inner loop of `shortest_path`.
unfoldable pub relax_shortest : ℕ → ℕ → Search → Option Search
unfolding improve
relax_shortest node neigh s = do
  here ← get_elem? s.label node
  d ← here
  seen ← get_elem? s.label neigh
  let alt = d + 1
  elim seen [
    | none ↦ improve s neigh node alt
    | some old ↦ let better = improve s neigh node alt in if ltb alt old then better else some s
  ]

unfoldable pub relax_all : (ℕ → Search → Option Search) → List ℕ → Search → Option Search
relax_all relax [] s = some s
relax_all relax (n ∷ ns) s = relax n s >>= relax_all relax ns

-- Each improvement raises one of `size` labels below 2 ^ 32, and queues one pair.
unfoldable pub widest_fuel : ℕ → ℕ
widest_fuel n = n * (u32_max + 1) + 2

module _ {T F : Type 0} where
  -- The body of the inner loop of `widest_path`.
  unfoldable pub relax_widest : Network T F → ℕ → ℕ → Search → Option Search
  unfolding improve
  relax_widest net current_src n s = do
    cell ← index net.links current_src n
    l ← cell
    seen ← get_elem? s.label n
    here ← get_elem? s.label current_src
    current ← here
    let through = min current (bandwidth l)
    elim seen [
      | none ↦ improve s n current_src through
      | some bw ↦
          let better = improve s n current_src (max bw through) in
          if ltb bw (max bw through) then better else some s
    ]

  unfoldable pub widest_loop : Network T F → ℕ → Search → Option Paths
  unfolding relax_widest relax_all
  widest_loop net zero s = none
  widest_loop net (suc fuel) s = elim (pop s.to_visit) [
    | none ↦ some (s.label, s.parents)
    | some (p, rest) ↦
        let popped = record s { to_visit = rest } in
        let skip = widest_loop net fuel popped in
        let visit =
          neighbours net p.node
          >>= (λ ns. relax_all (relax_widest net p.node) ns popped)
          >>= widest_loop net fuel in
        get_elem? s.label p.node
        >>= (elim [ none ↦ visit | some bw ↦ if ltb p.val bw then skip else visit ])
  ]

  unfoldable pub shortest_loop : Network T F → ℕ → Search → Option Paths
  unfolding relax_shortest relax_all
  shortest_loop net zero s = none
  shortest_loop net (suc fuel) s = elim (pop s.to_visit) [
    | none ↦ some (s.label, s.parents)
    | some (p, rest) ↦
        let popped = record s { to_visit = rest } in
        let skip = shortest_loop net fuel popped in
        let visit =
          neighbours net p.node
          >>= (λ ns. relax_all (relax_shortest p.node) ns popped)
          >>= shortest_loop net fuel in
        do here ← get_elem? s.label p.node; d ← here; if ltb d p.val then skip else visit
  ]

  unfoldable pub widest_path : Network T F → ℕ → Option Paths
  unfolding start widest_loop widest_fuel
  widest_path net from = do
    s ← start (size net.links) from u32_max
    widest_loop net (widest_fuel (size net.links)) s

  -- Each node is queued once.
  unfoldable pub shortest_path : Network T F → ℕ → Option Paths
  unfolding start shortest_loop
  shortest_path net from = do
    s ← start (size net.links) from 0
    shortest_loop net (size net.links + 2) s

  unfoldable pub path_between : Network T F → ℕ → Option Paths
  unfolding widest_path shortest_path
  path_between net from = elim net.path_strategy [
    | widest_path_strategy ↦ widest_path net from
    | shortest_path_strategy ↦ shortest_path net from
  ]
