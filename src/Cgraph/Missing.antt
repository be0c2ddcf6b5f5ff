-- ===== src/Cgraph/Missing.antt =====
-- cgraph/src/lib.rs, `find_missing_from_me`: which node to test next, and the tests that the rule
-- on a third node makes needless.
pub mod Rounds
pub mod Answer
use package.kollaps.Prelude.{
  ℕ, Bool, true, false, not, ◌&&◌, ◌||◌, Option, none, some, List, [], ◌∷◌, ◌++◌, ltb, ◌==◌,
  if◌then◌else◌, min,
}
use package.kollaps.Matrix.{SymMatrix, index}
use package.kollaps.Cgraph.{
  TestData, Node, CGraph, Result, ok, err, ok_or, panic, no_resource, ◌>>=◌, update,
}

-- `for k in self.nodes.iter() { body }`
pub for_nodes {ℓ} :
    {I : Type 0} {S : Type ℓ} → (Node I → S → Result S) → List (Node I) → S → Result S
for_nodes body [] s = ok s
for_nodes body (k ∷ ks) s = body k s >>= for_nodes body ks

-- Not limited by the network, or tested.
pub is_known : TestData → Bool
is_known d = not d.limited || d.directly_tested

-- `ignore_test` and the matrix.
abbrev pub Rule : Type 0
Rule = Bool × SymMatrix TestData

pub record Scan (I : Type 0) : Type 0 where
  pub matrix : SymMatrix TestData
  pub missing : Bool
  pub missing_links : List (Node I)

-- The way over `k` is slower on one side: that is the speed, and it counts as tested.
pub shorten : ℕ → ℕ → ℕ → SymMatrix TestData → Result Rule
shorten from to speed m = do
  timed ← update m from to (λ d. record d { speed = speed })
  tested ← update timed from to (λ d. record d { directly_tested = true })
  ok (true, tested)

module _ {I : Type 0} where
  -- One round of the inner loop; after a `break` nothing more happens.
  pub apply_rule : ℕ → ℕ → Node I → Rule → Result Rule
  unfolding shorten is_known
  apply_rule from to k (ignore, m) =
      let second = λ (from_k : TestData). (do
        k_to ← ok_or (index m k.index_of to) panic
        if is_known k_to
            then if from_k.speed == k_to.speed
              then ok (ignore, m)
              else shorten from to (min from_k.speed k_to.speed) m
            else ok (ignore, m)) in
      let first = (do
        from_k ← ok_or (index m from k.index_of) panic
        if is_known from_k then second from_k else ok (ignore, m)) in
      if ignore
      then ok (ignore, m)
      else if k.index_of == from || k.index_of == to
      then ok (ignore, m)
      else first

  -- One round of the outer loop.
  pub scan_node : List (Node I) → Node I → ℕ → Node I → Scan I → Result (Scan I)
  unfolding apply_rule for_nodes
  scan_node nodes from sufficient_speed to s =
      let add = λ (r : Rule).
        (if r.0 then record s { matrix = r.1 } else record {
          matrix = r.1;
          missing = true;
          missing_links = s.missing_links ++ to ∷ [];
        }) in
      let seek = (do
        r ← for_nodes (apply_rule from.index_of to.index_of) nodes (false, s.matrix)
        ok (add r)) in
      let test = (do
        d ← ok_or (index s.matrix from.index_of to.index_of) panic
        if not d.directly_tested
              && ltb d.speed sufficient_speed
              && ltb d.speed (min from.node_speed to.node_speed)
            then seek
            else ok s) in
      if from.index_of == to.index_of then ok s else test

  -- `max_by`: of equal speeds the last.
  pub fastest_from : Node I → List (Node I) → Node I
  fastest_from best [] = best
  fastest_from best (k ∷ ks) =
      fastest_from (if ltb k.node_speed best.node_speed then best else k) ks

  pub fastest : List (Node I) → Option (Node I)
  unfolding fastest_from
  fastest [] = none
  fastest (k ∷ ks) = some (fastest_from k ks)

  pub find_missing_from_me : CGraph I → Node I → ℕ → Result (Option (Node I) × CGraph I)
  unfolding scan_node fastest for_nodes
  find_missing_from_me g me sufficient_speed = do
    s ←
        for_nodes (scan_node g.nodes me sufficient_speed) g.nodes
          (record { matrix = g.c_graph; missing = false; missing_links = [] })
    let h = record g { c_graph = s.matrix }
    let choose = (do node ← ok_or (fastest s.missing_links) no_resource; ok (some node, h))
    if s.missing then choose else ok (none, h)
