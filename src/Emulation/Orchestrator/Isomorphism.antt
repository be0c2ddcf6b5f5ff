-- ===== src/Emulation/Orchestrator/Isomorphism.antt =====
-- emulation/src/orchestrator.rs: `verify_permutation` and `graph_isomorphism`.
pub mod Permutations
pub mod Sound
use package.kollaps.Prelude.{
  ℕ, zero, suc, ◌+◌, ◌-◌, ◌*◌, ◌%◌, ◌^◌, Bool, true, false, not, ◌&&◌, Option, none, some, List, [],
  ◌∷◌, ◌++◌, map, ltb, ◌==◌, if◌then◌else◌, get_elem?, set, length, replicate, max,
}
use package.kollaps.Matrix.{SymMatrix, size, index, new_fn}
use package.kollaps.Cgraph.{Result, ok, err, ok_or, panic, invalid_data, ◌>>=◌}
use package.kollaps.Netgraph.Link.{VertexEq, u32_max}
use package.kollaps.Emulation.Orchestrator.{Orchestrator, get_actual_load}
use package.kollaps.Emulation.Orchestrator.Combination.{next_comb}

-- `(start..start + count).collect()`
unfoldable pub upto : ℕ → ℕ → List ℕ
upto zero start = []
upto (suc count) start = start ∷ upto count (start + 1)

unfoldable pub has : ℕ → List ℕ → Bool
has x [] = false
has x (y ∷ ys) = if x == y then true else has x ys

-- The elements that the test accepts, in order; a panic of a test is one of the filter.
unfoldable pub select : (ℕ → Result Bool) → List ℕ → Result (List ℕ)
select test [] = ok []
select test (x ∷ xs) = do keep ← test x; rest ← select test xs; ok (if keep then x ∷ rest else rest)

-- `equivalence.swap(i, j)`
unfoldable pub swap : List ℕ → ℕ → ℕ → Result (List ℕ)
swap xs i j = do
  a ← ok_or (get_elem? xs i) panic
  b ← ok_or (get_elem? xs j) panic
  ok (set (set xs i b) j a)

-- `mapper[e] % size`
unfoldable pub host_at : List ℕ → ℕ → ℕ → Result ℕ
host_at mapper size e = do
  h ← ok_or (get_elem? mapper e) panic
  if size == 0 then err panic else ok (h % size)

-- Whether the application runs on the host.
unfoldable pub runs_at : List ℕ → List ℕ → ℕ → ℕ → ℕ → Result Bool
unfolding host_at
runs_at mapper equivalence size host app = do
  e ← ok_or (get_elem? equivalence app) panic
  h ← host_at mapper size e
  ok (h == host)

unfoldable pub negated : Result Bool → Result Bool
negated r = r >>= λ b. ok (not b)

-- The two loops that add up `g1[(a, b)]`; the sum is a `u32`.
unfoldable pub sum_links : SymMatrix ℕ → ℕ → List ℕ → ℕ → Result ℕ
sum_links g1 a [] total = ok total
sum_links g1 a (b ∷ bs) total = do
  x ← ok_or (index g1 a b) panic
  if ltb u32_max (total + x) then err panic else sum_links g1 a bs (total + x)

unfoldable pub required : SymMatrix ℕ → List ℕ → List ℕ → ℕ → Result ℕ
unfolding sum_links
required g1 [] bs total = ok total
required g1 (a ∷ rest) bs total = sum_links g1 a bs total >>= required g1 rest bs

-- The hosts of the permutation that are not `host`.
unfoldable pub other_hosts : List ℕ → ℕ → ℕ → List ℕ → Result (List ℕ)
unfolding host_at
other_hosts mapper size host [] = ok []
other_hosts mapper size host (e ∷ es) = do
  h ← host_at mapper size e
  rest ← other_hosts mapper size host es
  ok (if h == host then rest else h ∷ rest)

-- Enough bandwidth from the host to each of the others.
unfoldable pub all_reach : SymMatrix ℕ → ℕ → ℕ → List ℕ → Result Bool
all_reach residual host total [] = ok true
all_reach residual host total (other ∷ rest) = do
  x ← ok_or (index residual host other) panic
  if ltb x total then ok false else all_reach residual host total rest

module _ {Ip Uuid : Type 0} (ips : VertexEq Ip) (o : Orchestrator Ip Uuid) where
  -- The body of the loop of `verify_permutation` for a host that was not checked yet.
  unfoldable pub check_host : SymMatrix ℕ → List ℕ → List ℕ → ℕ → Result Bool
  unfolding get_actual_load select runs_at negated required other_hosts all_reach upto size
  check_host g1 equivalence mapper host = do
    let hosts = size o.residual_graph
    same ← select (runs_at mapper equivalence hosts host) (upto (size g1) 0)
    load ← get_actual_load ips o host
    let go_on = (do
      apart ← select (λ app. negated (runs_at mapper equivalence hosts host app)) (upto (size g1) 0)
      total ← required g1 same apart 0
      others ← other_hosts mapper hosts host equivalence
      all_reach o.residual_graph host total others)
    if ltb o.max_load load
        then err panic
        else if ltb (o.max_load - load) (length same)
        then ok false
        else go_on

  unfoldable pub verify_from : SymMatrix ℕ → List ℕ → List ℕ → ℕ → ℕ → List ℕ → Result Bool
  unfolding check_host host_at has
  verify_from g1 equivalence mapper zero i checked = ok true
  verify_from g1 equivalence mapper (suc left) i checked =
      let again = verify_from g1 equivalence mapper left (i + 1) in
      host_at mapper (size o.residual_graph) i >>= λ host.
      let first = (do
        fits ← check_host g1 equivalence mapper host
        if fits then again (host ∷ checked) else ok false) in
      if has host checked then again checked else first

  unfoldable pub verify_permutation : SymMatrix ℕ → SymMatrix ℕ → List ℕ → List ℕ → Result Bool
  unfolding verify_from size
  verify_permutation g1 residual equivalence mapper =
      verify_from g1 equivalence mapper (size residual) 0 []

-- The `while` loop of `graph_isomorphism` over `n` elements, on fuel; `check` is the test of a
-- permutation. The end of the fuel is `panic` too.
unfoldable pub exchange_loop :
    (List ℕ → Result Bool) → ℕ → ℕ → List ℕ → List ℕ → ℕ → Result (Option (List ℕ))
unfolding swap
exchange_loop check n zero equivalence counter exchange_index = err panic
exchange_loop check n (suc fuel) equivalence counter exchange_index =
    let back =
      exchange_loop check n fuel equivalence (set counter exchange_index 0) (exchange_index + 1) in
    let round = (do
      c ← ok_or (get_elem? counter exchange_index) panic
      let advance = (do
        next ← swap equivalence (if exchange_index % 2 == 0 then 0 else c) exchange_index
        good ← check next
        let go_on = exchange_loop check n fuel next (set counter exchange_index (c + 1)) 1
        if good then ok (some next) else go_on)
      if ltb c exchange_index then advance else back) in
    if ltb exchange_index n then round else ok none

unfoldable pub factorial : ℕ → ℕ
factorial zero = 1
factorial (suc n) = suc n * factorial n

-- Each of the n! permutations is met once, with at most `n` steps between two of them.
unfoldable pub exchange_fuel : ℕ → ℕ
unfolding factorial
exchange_fuel n = factorial n * (n + 1) + n + 1

unfoldable pub search_permutations : (List ℕ → Result Bool) → ℕ → Result (Option (List ℕ))
unfolding exchange_loop exchange_fuel upto
search_permutations check n = do
  let first = upto n 0
  good ← check first
  let others = exchange_loop check n (exchange_fuel n) first (replicate n 0) 1
  if good then ok (some first) else others

module _ {Ip Uuid : Type 0} (ips : VertexEq Ip) (o : Orchestrator Ip Uuid) where
  unfoldable pub graph_isomorphism : SymMatrix ℕ → SymMatrix ℕ → List ℕ → Result (Option (List ℕ))
  unfolding search_permutations verify_permutation size
  graph_isomorphism g1 residual mapper =
      if size g1 == size residual
      then search_permutations
          (λ equivalence. verify_permutation ips o g1 residual equivalence mapper) (size g1)
      else err invalid_data
