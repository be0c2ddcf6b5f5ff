-- ===== src/Emulation/Orchestrator/HostSets.antt =====
-- emulation/src/orchestrator.rs: `find_isomorphism`, the search over the sets of hosts.
use package.kollaps.Prelude.{
  ℕ, zero, suc, ◌+◌, ◌-◌, ◌*◌, ◌%◌, ◌^◌, Bool, true, false, not, ◌&&◌, Option, none, some, List, [],
  ◌∷◌, ◌++◌, ltb, ◌==◌, if◌then◌else◌, length,
}
use package.kollaps.Matrix.{SymMatrix, size, index, new_fn}
use package.kollaps.Cgraph.{Result, ok, err, ok_or, panic, ◌>>=◌}
use package.kollaps.Netgraph.Link.{VertexEq}
use package.kollaps.Emulation.Orchestrator.{Orchestrator, get_actual_load}
use package.kollaps.Emulation.Orchestrator.Combination.{next_comb}
use package.kollaps.Emulation.Orchestrator.Isomorphism.{upto, has, host_at, graph_isomorphism}

-- `val % size` and its clones, the first that is not in the set yet.
unfoldable pub fresh_clone : ℕ → ℕ → List ℕ → ℕ → ℕ
unfolding has
fresh_clone zero size acc val = val
fresh_clone (suc fuel) size acc val =
    let next = fresh_clone fuel size acc (val + size) in if has val acc then next else val

-- The set of a combination, where every clone is reduced to its smallest modulo class. The loop
-- passes each member of the set at most once.
unfoldable pub to_set : ℕ → List ℕ → List ℕ → List ℕ
unfolding fresh_clone
to_set size acc [] = acc
to_set size acc (val ∷ vals) =
    to_set size (fresh_clone (length acc) size acc (val % size) ∷ acc) vals

unfoldable pub all_in : List ℕ → List ℕ → Bool
unfolding has
all_in [] ys = true
all_in (x ∷ xs) ys = if has x ys then all_in xs ys else false

-- `tested_comb.contains(&combination_set)`
unfoldable pub tested : List (List ℕ) → List ℕ → Bool
unfolding all_in
tested [] s = false
tested (t ∷ ts) s = if length t == length s && all_in t s && all_in s t then true else tested ts s

module _ {Ip Uuid : Type 0} (ips : VertexEq Ip) (o : Orchestrator Ip Uuid) where
  -- Place is left on every host of the set.
  unfoldable pub place_left : List ℕ → Result Bool
  unfolding get_actual_load
  place_left [] = ok true
  place_left (i ∷ is) =
      let n = size o.residual_graph in
      (if n == 0 then err panic else get_actual_load ips o (i % n)) >>= λ load.
      if ltb load o.max_load then place_left is else ok false

  -- `equivalence[i] = combination[equivalence[i]] % size`
  unfoldable pub to_hosts : List ℕ → List ℕ → Result (List ℕ)
  unfolding host_at
  to_hosts combination [] = ok []
  to_hosts combination (e ∷ es) = do
    h ← host_at combination (size o.residual_graph) e
    rest ← to_hosts combination es
    ok (h ∷ rest)

  unfoldable pub sub_graph_cell : List ℕ → ℕ → ℕ → Option ℕ
  sub_graph_cell combination row col =
      cell (host_at combination (size o.residual_graph) row)
        (host_at combination (size o.residual_graph) col)
    where
      cell : Result ℕ → Result ℕ → Option ℕ
      cell (ok i) (ok j) = index o.residual_graph i j
      cell _ _ = none

  -- What one round of the loop over the combinations finds, with the sets that were tested.
  unfoldable pub try_combination :
      SymMatrix ℕ → List ℕ → List (List ℕ) → Result (Option (List ℕ) × List (List ℕ))
  unfolding to_set tested place_left to_hosts sub_graph_cell graph_isomorphism size
  try_combination g1 combination tested_comb = do
    let n = size o.residual_graph
    let s = to_set n [] combination
    remaining ← place_left s
    let attempt = (do
      sub_graph ← ok_or (new_fn (length combination) (sub_graph_cell combination)) panic
      answer ← graph_isomorphism ips o g1 sub_graph combination
      elim answer [
        | none ↦ ok (none, tested_comb ++ s ∷ [])
        | some equivalence ↦ to_hosts combination equivalence >>= (λ e. ok (some e, tested_comb))
      ])
    if not (tested tested_comb s) && remaining then attempt else ok (none, tested_comb)

  -- The `loop` over the combinations, on fuel.
  unfoldable pub comb_loop :
      SymMatrix ℕ → ℕ → ℕ → List ℕ → List (List ℕ) → Result (Option (List ℕ) × List (List ℕ))
  unfolding try_combination
  comb_loop g1 set_size zero combination tested_comb = err panic
  comb_loop g1 set_size (suc fuel) combination tested_comb = do
    r ← try_combination g1 combination tested_comb
    let further = (do
      following ← ok_or (next_comb combination (size g1) set_size) panic
      elim following [ none ↦ ok (none, r.1) | some comb ↦ comb_loop g1 set_size fuel comb r.1 ])
    elim r.0 [ none ↦ further | some e ↦ ok (some e, r.1) ]

  unfoldable pub find_iso_internal : SymMatrix ℕ → ℕ → List (List ℕ) → ℕ → Result (Option (List ℕ))
  unfolding comb_loop size upto
  find_iso_internal g1 clones tested_comb zero = ok none
  find_iso_internal g1 clones tested_comb (suc max_depth) =
      let n = size o.residual_graph in
      let set_size = (if ltb 0 clones then n - 1 + n * clones else n - 1) in
      let search = (do
        r ← comb_loop g1 set_size ((set_size + 2) ^ size g1 + 1) (upto (size g1) 0) tested_comb
        let deeper = find_iso_internal g1 (clones + 1) r.1 max_depth
        elim r.0 [ none ↦ deeper | some e ↦ ok (some e) ]) in
      if n == 0 then err panic else search

  unfoldable pub find_isomorphism : SymMatrix ℕ → Result (Option (List ℕ))
  unfolding find_iso_internal size
  find_isomorphism graph = find_iso_internal graph (size graph - size o.residual_graph) [] 5
