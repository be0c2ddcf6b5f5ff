-- ===== src/Emulation/Orchestrator/Cluster/Kept.antt =====
-- emulation/src/orchestrator.rs: each operation keeps the residual graph in line with the hosts.
use kollaps.Prelude.{
  ℕ, zero, suc, ◌≡◌, refl, inl, inr, some, ◌==◌, length, Bool-cases, Option-cases,
}
use kollaps.Matrix.{size}
use kollaps.Matrix.Access.{IsValid}
use kollaps.Cgraph.{CGraph, ok, ok_or, panic, invalid_data, for_range, speeds}
use kollaps.Cgraph.Results.{bind-ok, ok-injective, for_range-keeps}
use kollaps.Cgraph.Layout.{speeds-IsValid}
use kollaps.Netgraph.Link.{VertexEq}
use kollaps.Netgraph.Network.{Network, get}
use kollaps.Emulation.Data.{ClusterNodeInfo, Node, by_info}
use kollaps.Emulation.Orchestrator.{Orchestrator}
use kollaps.Emulation.Orchestrator.Placement.{
  pairs, restore, restore_app, Placing, new_emulation, stop_emulation, leave_node,
  stop_app_emulation_on, forget, attributed,
}
use kollaps.Emulation.Orchestrator.Placement.Stop.{new_emulation-Placed}
use kollaps.Emulation.Orchestrator.Cluster.{new, convert_cgraph_nodeinfo}
use kollaps.Emulation.Orchestrator.Cluster.Mapped.{
  Alike, Alike-trans, reserve-Alike, restore-Alike, restore_app-Alike,
}

-- The residual graph has its layout, and a row for each host.
pub record IsMapped {Ip Uuid : Type 0} (o : Orchestrator Ip Uuid) : Type 0 where
  pub valid : IsValid o.residual_graph
  pub rows : o.residual_graph.n ≡ length o.host_mapping

module _ {Ip Uuid : Type 0} (ips : VertexEq Ip) (ids : VertexEq Uuid) where
  pub Alike-IsMapped :
      (o o' : Orchestrator Ip Uuid)
      → Alike o.residual_graph o'.residual_graph
      → o'.host_mapping ≡ o.host_mapping
      → IsMapped o
      → IsMapped o'
  Alike-IsMapped o o' (n, l) hosts h = record {
    valid = rw (l, n) h.valid;
    rows = rw (n, hosts) h.rows;
  }

  pub new-IsMapped :
      (cgraph : CGraph (ClusterNodeInfo Ip)) (port load : ℕ) (o : Orchestrator Ip Uuid)
      → new ips ids cgraph port load ≡ ok o
      → IsMapped o
  unfolding new
  new-IsMapped cgraph port load o h =
      let (s, es, rest) = bind-ok (speeds (convert_cgraph_nodeinfo ips ids port cgraph)) _ o h in
      let same = ok-injective _ _ rest in
      let (valid, rows) = speeds-IsValid (convert_cgraph_nodeinfo ips ids port cgraph) s.0 s.1 es in
      rw (← same) (record { valid = valid; rows = rows })

  pub new_emulation-IsMapped :
      {Text F : Type 0} (o : Orchestrator Ip Uuid) (network : Network (Node Ip Text) F) (id : Uuid)
      (p : Placing Ip Text F Uuid)
      → new_emulation ips ids o network id ≡ ok (some p)
      → IsMapped o
      → IsMapped p.orchestrator
  new_emulation-IsMapped o network id p h m =
      let d = new_emulation-Placed ips ids o network id p h in
      Alike-IsMapped o p.orchestrator
        (reserve-Alike d.matrix d.equivalence (pairs (size d.matrix)) o.residual_graph
          p.orchestrator.residual_graph d.reserved)
        d.hosts m

  pub stop_emulation-IsMapped :
      (o o' : Orchestrator Ip Uuid) (id : Uuid)
      → stop_emulation ips ids o id ≡ ok o'
      → IsMapped o
      → IsMapped o'
  unfolding stop_emulation forget
  stop_emulation-IsMapped o o' id h m =
      let (e, _, h1) = bind-ok (ok_or (get ids id o.emulations) invalid_data) _ o' h in
      let (residual, er, h2) =
        bind-ok (restore e.0 e.1 (pairs (size e.0)) o.residual_graph) _ o' h1 in
      let same = ok-injective _ _ h2 in
      let alike = restore-Alike e.0 e.1 (pairs (size e.0)) o.residual_graph residual er in
      rw (← same) (Alike-IsMapped o _ alike refl m)

  pub stop_emulation-hosts :
      (o o' : Orchestrator Ip Uuid) (id : Uuid)
      → stop_emulation ips ids o id ≡ ok o'
      → o'.host_mapping ≡ o.host_mapping
  unfolding stop_emulation forget
  stop_emulation-hosts o o' id h =
      let (e, _, h1) = bind-ok (ok_or (get ids id o.emulations) invalid_data) _ o' h in
      let (residual, er, h2) =
        bind-ok (restore e.0 e.1 (pairs (size e.0)) o.residual_graph) _ o' h1 in
      let same = ok-injective _ _ h2 in rw (← same)

  leave_node-Alike :
      (id : Uuid) (node : ClusterNodeInfo Ip) (o o' : Orchestrator Ip Uuid)
      → leave_node ips ids id node o ≡ ok o'
      → (o'.residual_graph ≡ o.residual_graph) × (o'.host_mapping ≡ o.host_mapping)
  unfolding leave_node
  leave_node-Alike id node o o' h =
      let (loads, _, h1) = bind-ok (ok_or (get (by_info ips) node o.current_load) panic) _ o' h in
      elim (Option-cases (get ids id loads)) [
        | inl unknown ↦ let same = ok-injective _ _ (rw unknown at h1) in rw (← same) (refl, refl)
        | inr (zero, e) ↦ let no_ok = rw e at h1 in cc
        | inr (suc load, e) ↦ elim (Bool-cases (load == 0)) [
          | inl last ↦
              let (uuids, _, h2) =
                bind-ok (ok_or (get (by_info ips) node o.attributed_emul) panic) _ o'
                  (rw (e, last) at h1) in
              let same = ok-injective _ _ h2 in rw (← same) (refl, refl)
          | inr more ↦ let same = ok-injective _ _ (rw (e, more) at h1) in rw (← same) (refl, refl)
        ]
      ]

  pub stop_app_emulation_on-IsMapped :
      (o o' : Orchestrator Ip Uuid) (id : Uuid) (node : ClusterNodeInfo Ip) (app_index : ℕ)
      → stop_app_emulation_on ips ids o id node app_index ≡ ok o'
      → IsMapped o
      → IsMapped o'
  unfolding stop_app_emulation_on
  stop_app_emulation_on-IsMapped o o' id node app_index h m =
      let (e, _, h1) = bind-ok (ok_or (get ids id o.emulations) invalid_data) _ o' h in
      let (residual, er, h2) =
        bind-ok (for_range (size e.0) 0 (restore_app e.0 e.1 app_index) o.residual_graph) _ o' h1 in
      let freed : Orchestrator Ip Uuid = record o { residual_graph = residual } in
      let (gone, eg, h3) = bind-ok (leave_node ips ids id node freed) _ o' h2 in
      let alike =
        for_range-keeps (Alike o.residual_graph) (restore_app e.0 e.1 app_index)
          (λ i s s' es a.
            Alike-trans o.residual_graph s s' a (restore_app-Alike e.0 e.1 app_index i s s' es))
          (size e.0) 0 o.residual_graph residual er (refl, refl) in
      let (same_graph, same_hosts) = leave_node-Alike id node freed gone eg in
      let mapped = Alike-IsMapped o gone (rw same_graph alike) same_hosts m in
      let result = ok-injective _ _ h3 in
      elim (Bool-cases (attributed ips ids id gone.attributed_emul)) [
        | inl still ↦ let same = rw still at result in rw (← same) mapped
        | inr nowhere ↦
            let same = rw nowhere at result in
            rw (← same) (record { valid = mapped.valid; rows = mapped.rows })
      ]
