-- ===== src/Emulation/Orchestrator/Cluster/Changed.antt =====
-- emulation/src/orchestrator.rs: the hosts that leave and come keep the residual graph in line.
use kollaps.Prelude.{
  ℕ, zero, suc, ◌+◌, ◌<◌, ◌≡◌, refl, ap, ◌∙◌, inl, inr, some, List, [], ◌∷◌, ◌++◌, arith, length,
  length-append, Bool-cases,
}
use mathlib.Core.Option.{some-injective}
use kollaps.Matrix.{SymMatrix, remove_id}
use kollaps.Matrix.Resize.{new_fn-IsValid, remove_id-IsValid}
use kollaps.Cgraph.{
  unwrap, CGraph, Result, ok, err, ok_or, panic, already_exists, no_resource, not_found,
  invalid_data, inconsistent_state, perf_test_failed, speeds,
}
use kollaps.Cgraph.Results.{bind-ok, ok_or-ok, ok-injective}
use kollaps.Netgraph.Link.{VertexEq}
use kollaps.Netgraph.Network.{get, index_vertices}
use kollaps.Emulation.Data.{ClusterNodeInfo, info_eq, by_info}
use kollaps.Emulation.Orchestrator.{Orchestrator}
use kollaps.Emulation.Orchestrator.Placement.{stop_emulation}
use kollaps.Emulation.Orchestrator.Cluster.{
  with_port, ignore, take_out, find_host, stop_all, remove_cluster_node, remove_nodes, add_nodes,
  update_with_cgraph, convert_cgraph_nodeinfo, grow_by_one, all_ids, speed_to, missing,
}
use kollaps.Emulation.Orchestrator.Cluster.Kept.{
  IsMapped, stop_emulation-IsMapped, stop_emulation-hosts,
}

unwrap-ok : {A : Type 0} (r : Result A) (a : A) → unwrap r ≡ ok a → r ≡ ok a
unfolding unwrap
unwrap-ok (ok b) a h = h
unwrap-ok (err e) a h = cc

length-take_out :
    {A : Type 0} (i : ℕ) (xs : List A) → i < length xs → length (take_out i xs) + 1 ≡ length xs
unfolding take_out
length-take_out i [] h = elim h [ ]
length-take_out zero (x ∷ xs) h = omega arith
length-take_out (suc i) (x ∷ xs) h = omega (arith, length-take_out i xs (omega arith))

module _ {Ip Uuid : Type 0} (ips : VertexEq Ip) (ids : VertexEq Uuid) where
  ignored :
      (o : Orchestrator Ip Uuid) (id : Uuid) (next : Orchestrator Ip Uuid)
      → ignore o (stop_emulation ips ids o id) ≡ ok next
      → IsMapped o
      → IsMapped next × (next.host_mapping ≡ o.host_mapping)
  unfolding ignore
  ignored o id next h m = go (stop_emulation ips ids o id) refl h
    where
      go :
          (r : Result (Orchestrator Ip Uuid))
          → stop_emulation ips ids o id ≡ r
          → ignore o r ≡ ok next
          → IsMapped next × (next.host_mapping ≡ o.host_mapping)
      go (ok x) e k =
          let same = ok-injective _ _ k in
          rw (← same)
            (stop_emulation-IsMapped ips ids o x id e m, stop_emulation-hosts ips ids o x id e)
      go (err panic) e k = cc
      go (err already_exists) e k = let same = ok-injective _ _ k in rw (← same) (m, refl)
      go (err no_resource) e k = let same = ok-injective _ _ k in rw (← same) (m, refl)
      go (err not_found) e k = let same = ok-injective _ _ k in rw (← same) (m, refl)
      go (err invalid_data) e k = let same = ok-injective _ _ k in rw (← same) (m, refl)
      go (err perf_test_failed) e k = let same = ok-injective _ _ k in rw (← same) (m, refl)
      go (err inconsistent_state) e k = let same = ok-injective _ _ k in rw (← same) (m, refl)

  stop_all-IsMapped :
      (uuids : List Uuid) (o o' : Orchestrator Ip Uuid)
      → stop_all ips ids uuids o ≡ ok o'
      → IsMapped o
      → IsMapped o' × (o'.host_mapping ≡ o.host_mapping)
  unfolding stop_all ignore
  stop_all-IsMapped [] o o' h m = let same = ok-injective _ _ h in rw (← same) (m, refl)
  stop_all-IsMapped (id ∷ rest) o o' h m =
      let (next, en, h1) = bind-ok (ignore o (stop_emulation ips ids o id)) _ o' h in
      let (mapped, hosts) = ignored o id next en m in
      let (last, same) = stop_all-IsMapped rest next o' h1 mapped in (last, same ∙ hosts)

  find_host-lt :
      (node : ClusterNodeInfo Ip) (i : ℕ) (hosts : List (ClusterNodeInfo Ip)) (id : ℕ)
      → find_host ips ids node i hosts ≡ some id
      → id < i + length hosts
  unfolding find_host
  find_host-lt node i [] id h = cc
  find_host-lt node i (host ∷ hosts) id h = elim (Bool-cases (info_eq ips host node)) [
    | inl here ↦ let same = some-injective _ _ (rw here at h) in omega arith
    | inr other ↦ let low = find_host-lt node (i + 1) hosts id (rw other at h) in omega arith
  ]

  pub remove_cluster_node-IsMapped :
      (o o' : Orchestrator Ip Uuid) (node : ClusterNodeInfo Ip) (uuids : List Uuid)
      → remove_cluster_node ips ids o node ≡ ok (uuids, o')
      → IsMapped o
      → IsMapped o'
  unfolding remove_cluster_node
  remove_cluster_node-IsMapped o o' node uuids h m =
      let at = find_host ips ids (with_port o.emanagers_port node) 0 o.host_mapping in
      let (id, ei, h1) = bind-ok (ok_or at invalid_data) _ (uuids, o') h in
      let (after, es, h2) =
        bind-ok (stop_all ips ids (all_ids ips ids o.attributed_emul) o) _ (uuids, o') h1 in
      let (residual, er, h3) =
        bind-ok (ok_or (remove_id after.residual_graph id) panic) _ (uuids, o') h2 in
      let result = ok-injective _ _ h3 in
      let (mapped, hosts) = stop_all-IsMapped (all_ids ips ids o.attributed_emul) o after es m in
      let (n, valid) = remove_id-IsValid after.residual_graph id residual (ok_or-ok _ _ _ er) in
      let inside =
        find_host-lt (with_port o.emanagers_port node) 0 o.host_mapping id (ok_or-ok _ _ _ ei) in
      let shorter = length-take_out id after.host_mapping (rw hosts (omega (arith, inside))) in
      let same : _ ≡ o' = ap (λ r. r.1) result in
      rw (← same) (record { valid = valid; rows = omega (arith, n, shorter, mapped.rows) })

  remove_nodes-IsMapped :
      (nodes : List (ClusterNodeInfo Ip)) (affected uuids : List Uuid) (o o' : Orchestrator Ip Uuid)
      → remove_nodes ips ids nodes affected o ≡ ok (uuids, o')
      → IsMapped o
      → IsMapped o'
  unfolding remove_nodes
  remove_nodes-IsMapped [] affected uuids o o' h m =
      let same : o ≡ o' = ap (λ r. r.1) (ok-injective _ _ h) in rw (← same) m
  remove_nodes-IsMapped (node ∷ rest) affected uuids o o' h m =
      let (r, er, h1) = bind-ok (unwrap (remove_cluster_node ips ids o node)) _ (uuids, o') h in
      let plain = unwrap-ok (remove_cluster_node ips ids o node) r er in
      remove_nodes-IsMapped rest _ uuids r.1 o' h1
        (remove_cluster_node-IsMapped o r.1 node r.0 plain m)

  add_nodes-IsMapped :
      (matrix : SymMatrix ℕ) (nodes_to_index : List (ClusterNodeInfo Ip × ℕ))
      (nodes : List (ClusterNodeInfo Ip)) (o o' : Orchestrator Ip Uuid)
      → add_nodes ips ids matrix nodes_to_index nodes o ≡ ok o'
      → IsMapped o
      → IsMapped o'
  unfolding add_nodes grow_by_one
  add_nodes-IsMapped matrix nodes_to_index [] o o' h m =
      let same = ok-injective _ _ h in rw (← same) m
  add_nodes-IsMapped matrix nodes_to_index (node ∷ rest) o o' h m =
      let hosts = o.host_mapping ++ node ∷ [] in
      let (node_index, _, h1) =
        bind-ok (ok_or (get (by_info ips) node nodes_to_index) panic) _ o' h in
      let speed = speed_to ips ids matrix nodes_to_index hosts node_index in
      let (grown, eg, h2) = bind-ok (ok_or (grow_by_one o.residual_graph speed) panic) _ o' h1 in
      let (n, valid) = new_fn-IsValid (o.residual_graph.n + 1) _ grown (ok_or-ok _ _ _ eg) in
      let longer = length-append o.host_mapping (node ∷ []) in
      add_nodes-IsMapped matrix nodes_to_index rest _ o' h2
        (record { valid = valid; rows = omega (arith, n, longer, m.rows) })

  pub update_with_cgraph-IsMapped :
      (o o' : Orchestrator Ip Uuid) (cgraph : CGraph (ClusterNodeInfo Ip)) (uuids : List Uuid)
      → update_with_cgraph ips ids o cgraph ≡ ok (uuids, o')
      → IsMapped o
      → IsMapped o'
  unfolding update_with_cgraph
  update_with_cgraph-IsMapped o o' cgraph uuids h m =
      let (s, _, h1) =
        bind-ok (speeds (convert_cgraph_nodeinfo ips ids o.emanagers_port cgraph)) _ (uuids, o')
          h in
      let gone = missing ips ids o.host_mapping s.1 in
      let (r, er, h2) = bind-ok (remove_nodes ips ids gone [] o) _ (uuids, o') h1 in
      let known = index_vertices (by_info ips) 0 s.1 [] in
      let more = missing ips ids s.1 o.host_mapping in
      let (next, en, h3) = bind-ok (add_nodes ips ids s.0 known more r.1) _ (uuids, o') h2 in
      let same : next ≡ o' = ap (λ q. q.1) (ok-injective _ _ h3) in
      rw (← same) (
        add_nodes-IsMapped s.0 known more r.1 next en
          (remove_nodes-IsMapped gone [] r.0 o r.1 er m))
