-- ===== src/Emulation/Orchestrator/Placement/Stop.antt =====
-- emulation/src/orchestrator.rs: an emulation that is placed and stopped.
use kollaps.Prelude.{
  ℕ, zero, suc, ◌+◌, ◌≤◌, ◌≡◌, ◌≢◌, refl, ap, ◌∙◌, inl, inr, Option, none, some, List, [], ◌∷◌,
  ◌++◌, map, arith, get_elem?, Bool-cases,
}
use mathlib.Core.Option.{some-injective}
use kollaps.Matrix.{SymMatrix, size}
use kollaps.Cgraph.{ok, ok_or, panic, for_range, ◌>>=◌}
use kollaps.Cgraph.Results.{bind-ok, ok-injective, for_range-keeps}
use kollaps.Netgraph.Link.{VertexEq, u32_max}
use kollaps.Netgraph.Network.{Network, get, insert, remove}
use kollaps.Netgraph.Network.Vertices.{get-insert}
use kollaps.Netgraph.Queries.{bandwidth_matrix}
use kollaps.Emulation.Data.{Application, Node, by_id, is_app, edit_app, set_host, set_index}
use kollaps.Emulation.Orchestrator.{Orchestrator}
use kollaps.Emulation.Orchestrator.Isomorphism.{upto}
use kollaps.Emulation.Orchestrator.HostSets.{find_isomorphism}
use kollaps.Emulation.Orchestrator.Placement.{
  pairs, reserve, Placing, assign_host, place_app, forget, place, new_emulation, stop_emulation,
}
use kollaps.Emulation.Orchestrator.Placement.Restore.{at, Apart, restore-reserve}

-- No two applications have the same host.
abbrev pub IsSpread : List ℕ → Type 0
IsSpread equivalence =
    (i j a : ℕ) → i ≢ j → get_elem? equivalence i ≡ some a → get_elem? equivalence j ≢ some a

module _ (equivalence : List ℕ) (spread : IsSpread equivalence) where
  Apart-append :
      (ps qs : List (ℕ × ℕ))
      → Apart equivalence ps
      → Apart equivalence qs
      → Apart equivalence (ps ++ qs)
  Apart-append [] qs h k = k
  Apart-append ((i, j) ∷ ps) qs h k = (h.0, Apart-append ps qs h.1 k)

  Apart-row :
      (i count start : ℕ)
      → start + count ≤ i
      → Apart equivalence (map (λ j. (i, j)) (upto count start))
  unfolding upto
  Apart-row i zero start h = tt
  Apart-row i (suc count) start h =
      ((λ a. spread i start a (λ e. omega arith)), Apart-row i count (start + 1) (omega arith))

  Apart-pairs : (n : ℕ) → Apart equivalence (pairs n)
  unfolding pairs
  Apart-pairs zero = tt
  Apart-pairs (suc i) =
      Apart-append (pairs i) (map (λ j. (i, j)) (upto i 0)) (Apart-pairs i)
        (Apart-row i i 0 (omega arith))

module _ {Uuid : Type 0} (ids : VertexEq Uuid) where
  remove-insert :
      {V : Type 0} (k : Uuid) (x : V) (m : List (Uuid × V))
      → get ids k m ≡ none
      → remove ids k (insert ids k x m) ≡ m
  unfolding get insert remove
  remove-insert k x [] h = rw (ids.beq_refl k)
  remove-insert k x ((j, i) ∷ m) h = elim (Bool-cases (ids.beq j k)) [
    | inl same ↦ let found = rw same at h in cc
    | inr other ↦
        let rest = rw other at h in
        rw (other, other) (ap (λ l. (j, i) ∷ l) (remove-insert k x m rest))
  ]

module _ {Ip Text F Uuid : Type 0} (ips : VertexEq Ip) (ids : VertexEq Uuid) where
  -- What the loop over the applications leaves alone.
  record Untouched (o : Orchestrator Ip Uuid) (p : Placing Ip Text F Uuid) : Type 0 where
    pub residual : p.orchestrator.residual_graph ≡ o.residual_graph
    pub known : p.orchestrator.emulations ≡ o.emulations
    pub hosts : p.orchestrator.host_mapping ≡ o.host_mapping

  place_app-Untouched :
      (o : Orchestrator Ip Uuid) (id : Uuid) (equivalence : List ℕ) (i : ℕ)
      (p q : Placing Ip Text F Uuid)
      → place_app ips ids id equivalence i p ≡ ok q
      → Untouched o p
      → Untouched o q
  unfolding place_app assign_host
  place_app-Untouched o id equivalence i p q h u =
      let (e, _, h1) = bind-ok (ok_or (get_elem? equivalence i) panic) _ q h in
      let (host, _, h2) = bind-ok (ok_or (get_elem? p.orchestrator.host_mapping e) panic) _ q h1 in
      let (node, _, h3) = bind-ok (ok_or (get_elem? p.nodes i) panic) _ q h2 in
      let put : Application Ip Text → Application Ip Text = λ a. set_index (set_host a host) i in
      let (placed, _, h4) = bind-ok (ok_or (edit_app put node) panic) _ q h3 in
      let same = ok-injective _ _ h4 in
      rw (← same) (record { residual = u.residual; known = u.known; hosts = u.hosts })

  -- What a placed emulation has done.
  pub record Placed (o : Orchestrator Ip Uuid) (id : Uuid) (p : Placing Ip Text F Uuid)
      : Type 0 where
    pub matrix : SymMatrix ℕ
    pub equivalence : List ℕ
    pub reserved :
        reserve matrix equivalence (pairs (size matrix)) o.residual_graph
        ≡ ok p.orchestrator.residual_graph
    pub known : p.orchestrator.emulations ≡ insert ids id (matrix, equivalence) o.emulations
    pub hosts : p.orchestrator.host_mapping ≡ o.host_mapping

  place-Placed :
      (o : Orchestrator Ip Uuid) (network : Network (Node Ip Text) F) (id : Uuid)
      (matrix : SymMatrix ℕ) (nodes : List (Node Ip Text)) (equivalence : List ℕ)
      (p : Placing Ip Text F Uuid)
      → place ips ids o network id matrix nodes equivalence ≡ ok p
      → Placed o id p
  unfolding place
  place-Placed o network id matrix nodes equivalence p h =
      let start : Placing Ip Text F Uuid = record {
        orchestrator = o;
        network = network;
        nodes = nodes;
        affected = [];
      } in
      let (q, eq, h1) =
        bind-ok (for_range (size matrix) 0 (place_app ips ids id equivalence) start) _ p h in
      let (residual, er, h2) =
        bind-ok (reserve matrix equivalence (pairs (size matrix)) q.orchestrator.residual_graph) _ p
          h1 in
      let same = ok-injective _ _ h2 in
      let u : Untouched o q =
        for_range-keeps (Untouched o) (place_app ips ids id equivalence)
          (place_app-Untouched o id equivalence) (size matrix) 0 start q eq
          (record { residual = refl; known = refl; hosts = refl }) in
      rw (← same) (record {
        matrix = matrix;
        equivalence = equivalence;
        reserved = rw (u.residual) at er;
        known = ap (insert ids id (matrix, equivalence)) u.known;
        hosts = u.hosts;
      })

  pub new_emulation-Placed :
      (o : Orchestrator Ip Uuid) (network : Network (Node Ip Text) F) (id : Uuid)
      (p : Placing Ip Text F Uuid)
      → new_emulation ips ids o network id ≡ ok (some p)
      → Placed o id p
  unfolding new_emulation
  new_emulation-Placed o network id p h =
      let (m, em, h1) =
        bind-ok (ok_or (bandwidth_matrix by_id network is_app) panic) _ (some p) h in
      let (found, ef, h2) = bind-ok (find_isomorphism ips o m.0) _ (some p) h1 in go m found h2
    where
      go :
          (m : SymMatrix ℕ × List (Node Ip Text)) (found : Option (List ℕ))
          → (elim found [
            | none ↦ ok none
            | some equivalence ↦
                place ips ids o network id m.0 m.1 equivalence >>= (λ p. ok (some p))
          ])
            ≡ ok (some p)
          → Placed o id p
      go m none e = let no_place : none ≡ some p = ok-injective _ _ e in cc
      go m (some equivalence) e =
          let (q, eq, h3) = bind-ok (place ips ids o network id m.0 m.1 equivalence) _ (some p) e in
          let same : q ≡ p = some-injective _ _ (ok-injective _ _ h3) in
          place-Placed o network id m.0 m.1 equivalence p (eq ∙ ap ok same)

  -- If an emulation that was not known is placed with its applications on different hosts, then
  -- stopping it succeeds and leaves the residual graph, the map of the emulations and the mapping of
  -- the hosts as they were before it.
  pub stop_emulation-new_emulation :
      (o : Orchestrator Ip Uuid) (network : Network (Node Ip Text) F) (id : Uuid)
      (p : Placing Ip Text F Uuid)
      → ((c : ℕ) → at o.residual_graph.items c ≤ u32_max)
      → get ids id o.emulations ≡ none
      → new_emulation ips ids o network id ≡ ok (some p)
      → ((matrix : SymMatrix ℕ) (equivalence : List ℕ)
          → get ids id p.orchestrator.emulations ≡ some (matrix, equivalence)
          → IsSpread equivalence)
      → (o' : Orchestrator Ip Uuid) × (stop_emulation ips ids p.orchestrator id ≡ ok o')
        × (o'.residual_graph ≡ o.residual_graph)
        × (o'.emulations ≡ o.emulations)
        × (o'.host_mapping ≡ o.host_mapping)
  unfolding stop_emulation forget
  stop_emulation-new_emulation o network id p bound fresh h spread =
      let d = new_emulation-Placed o network id p h in
      let entry : get ids id p.orchestrator.emulations ≡ some (d.matrix, d.equivalence) =
        rw d.known (
          get-insert ids id id (d.matrix, d.equivalence) o.emulations
          ∙ rw (ids.beq_refl id) refl) in
      let apart = Apart-pairs d.equivalence (spread d.matrix d.equivalence entry) (size d.matrix) in
      let back =
        restore-reserve d.matrix d.equivalence (pairs (size d.matrix)) o.residual_graph
          p.orchestrator.residual_graph apart bound d.reserved in
      (
        forget ips ids id p.orchestrator o.residual_graph,
        rw (entry, back),
        refl,
        rw d.known (remove-insert ids id (d.matrix, d.equivalence) o.emulations fresh),
        d.hosts,
      )
