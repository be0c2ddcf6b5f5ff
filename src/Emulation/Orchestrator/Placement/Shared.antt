-- ===== src/Emulation/Orchestrator/Placement/Shared.antt =====
-- emulation/src/orchestrator.rs: what `stop_emulation` does when applications share a host, whose
-- bandwidth to itself is `u32::MAX`.
use kollaps.Prelude.{
  ℕ, zero, suc, ◌+◌, ◌≤◌, ◌<◌, ◌≡◌, refl, sym, ap, ◌∙◌, inl, inr, true, some, List, [], ◌∷◌, ◌++◌,
  map, arith, ltb, ltb→ge, lt→ltb, get_elem?, get_elem?-set_self, get_elem?-set_ne,
  lt-length_of_get, length, Bool-cases, ℕ_discrete,
}
use mathlib.Core.Option.{some-injective}
use mathlib.Core.List.{append_assoc}
use kollaps.Matrix.{SymMatrix, size, index, out_to_in_index, index_mut}
use kollaps.Cgraph.{ok, err, ok_or, panic}
use kollaps.Cgraph.Results.{
  bind-ok, ok_or-ok, ok-injective, OnlyPanic, ok_or-OnlyPanic, bind-OnlyPanic, bind-panic,
}
use kollaps.Netgraph.Link.{VertexEq, u32_max}
use kollaps.Netgraph.Network.{get}
use kollaps.Emulation.Orchestrator.{Orchestrator, give_bandwidth}
use kollaps.Emulation.Orchestrator.Isomorphism.{upto}
use kollaps.Emulation.Orchestrator.Placement.{pairs, restore, stop_emulation}

-- The cell is at the greatest `u32`.
record Full (k n : ℕ) (m : SymMatrix ℕ) : Type 0 where
  pub value : get_elem? m.items k ≡ some u32_max
  pub same : m.n ≡ n

give_bandwidth-Full :
    (k n a b bw : ℕ) (m m' : SymMatrix ℕ)
    → Full k n m
    → give_bandwidth m a b bw ≡ ok m'
    → Full k n m'
unfolding give_bandwidth index index_mut
give_bandwidth-Full k n a b bw m m' full h =
    let c = out_to_in_index a b m.n in
    let (x, ex, rest) = bind-ok (ok_or (get_elem? m.items c) panic) _ m' h in
    let read = ok_or-ok _ _ _ ex in
    let inside = lt-length_of_get m.items c x read in
    let test : ltb c (length m.items) ≡ true = lt→ltb c (length m.items) inside in
    elim (Bool-cases (ltb u32_max (x + bw))) [
      | inl over ↦ let no_ok = rw over at rest in cc
      | inr fits ↦
          let wrote = ok-injective _ _ (rw (fits, test) at rest) in
          rw (← wrote) (record {
            value = elim (ℕ_discrete c k) [
              | yes e ↦
                  let is : x ≡ u32_max = some-injective _ _ (sym (rw e at read) ∙ full.value) in
                  let le = ltb→ge _ _ fits in
                  let still : x + bw ≡ u32_max = omega arith in
                  rw (← e, still) (get_elem?-set_self m.items c u32_max inside)
              | no ne ↦ get_elem?-set_ne m.items c k (x + bw) ne ∙ full.value
            ];
            same = full.same;
          })
    ]

give_bandwidth-OnlyPanic : (m : SymMatrix ℕ) (a b bw : ℕ) → OnlyPanic (give_bandwidth m a b bw)
unfolding give_bandwidth
give_bandwidth-OnlyPanic m a b bw =
    bind-OnlyPanic (ok_or (index m a b) panic) _ (ok_or-OnlyPanic (index m a b)) (λ x.
      elim (Bool-cases (ltb u32_max (x + bw))) [
        | inl over ↦ inl (rw over)
        | inr fits ↦ rw fits (ok_or-OnlyPanic (index_mut m a b (x + bw)))
      ])

module _ (matrix : SymMatrix ℕ) (equivalence : List ℕ) where
  restore-panic :
      (i j a bw n : ℕ) (ps qs : List (ℕ × ℕ)) (m : SymMatrix ℕ)
      → get_elem? equivalence i ≡ some a
      → get_elem? equivalence j ≡ some a
      → index matrix i j ≡ some (bw + 1)
      → Full (out_to_in_index a a n) n m
      → restore matrix equivalence (ps ++ (i, j) ∷ qs) m ≡ err panic
  unfolding restore give_bandwidth index
  restore-panic i j a bw n [] qs m is_a is_b is_bw full =
      let cell : index m a a ≡ some u32_max = rw full.same full.value in
      let over : ltb u32_max (u32_max + (bw + 1)) ≡ true = ground arith in
      rw (is_a, is_b, is_bw, cell, over)
  restore-panic i j a bw n ((p, q) ∷ ps) qs m is_a is_b is_bw full =
      bind-panic _ _ (ok_or-OnlyPanic (get_elem? equivalence p)) (λ c ec.
        bind-panic _ _ (ok_or-OnlyPanic (get_elem? equivalence q)) (λ d ed.
          bind-panic _ _ (ok_or-OnlyPanic (index matrix p q)) (λ w ew.
            bind-panic _ _ (give_bandwidth-OnlyPanic m c d w) (λ next en.
              restore-panic i j a bw n ps qs next is_a is_b is_bw
                (give_bandwidth-Full _ n c d w m next full en)))))

-- The pair in the list of all pairs.
Around : (ℕ × ℕ) → List (ℕ × ℕ) → Type 0
Around x xs = (ps : List (ℕ × ℕ)) × (qs : List (ℕ × ℕ)) × (xs ≡ ps ++ x ∷ qs)

Around-left : (x : ℕ × ℕ) (xs ys : List (ℕ × ℕ)) → Around x xs → Around x (xs ++ ys)
unfolding Around
Around-left x xs ys (ps, qs, e) = (ps, qs ++ ys, rw e (append_assoc ps (x ∷ qs) ys))

Around-right : (x : ℕ × ℕ) (xs ys : List (ℕ × ℕ)) → Around x ys → Around x (xs ++ ys)
unfolding Around
Around-right x xs ys (ps, qs, e) = (xs ++ ps, qs, rw e (sym (append_assoc xs ps (x ∷ qs))))

Around-row :
    (i j count start : ℕ)
    → start ≤ j
    → j < start + count
    → Around (i, j) (map (λ k. (i, k)) (upto count start))
unfolding upto Around
Around-row i j zero start h b = absurd (omega arith)
Around-row i j (suc count) start h b = elim (ℕ_discrete start j) [
  | yes e ↦ ([], map (λ k. (i, k)) (upto count (start + 1)), rw e)
  | no ne ↦
      let (ps, qs, e) = Around-row i j count (start + 1) (omega arith) (omega arith) in
      ((i, start) ∷ ps, qs, ap (λ l. (i, start) ∷ l) e)
]

Around-pairs : (n i j : ℕ) → i < n → j < i → Around (i, j) (pairs n)
unfolding pairs
Around-pairs zero i j h b = absurd (omega arith)
Around-pairs (suc n) i j h b = elim (ℕ_discrete n i) [
  | yes e ↦
      rw (← e) (Around-right (n, j) (pairs n) _ (Around-row n j n 0 (omega arith) (omega arith)))
  | no ne ↦ Around-left (i, j) (pairs n) _ (Around-pairs n i j (omega arith) b)
]

module _ {Ip Uuid : Type 0} (ips : VertexEq Ip) (ids : VertexEq Uuid) where
  -- If two applications of an emulation share a host, exchange a positive bandwidth, and the cell of
  -- the host with itself is at the greatest `u32`, then `stop_emulation` overflows.
  pub stop_emulation-panic :
      (o : Orchestrator Ip Uuid) (id : Uuid) (matrix : SymMatrix ℕ) (equivalence : List ℕ)
      (i j a bw : ℕ)
      → get ids id o.emulations ≡ some (matrix, equivalence)
      → i < size matrix
      → j < i
      → get_elem? equivalence i ≡ some a
      → get_elem? equivalence j ≡ some a
      → index matrix i j ≡ some (bw + 1)
      → index o.residual_graph a a ≡ some u32_max
      → stop_emulation ips ids o id ≡ err panic
  unfolding stop_emulation Around index
  stop_emulation-panic o id matrix equivalence i j a bw known hi hj is_a is_b is_bw cell =
      let (ps, qs, e) = Around-pairs (size matrix) i j hi hj in
      let fails =
        restore-panic matrix equivalence i j a bw o.residual_graph.n ps qs o.residual_graph is_a
          is_b is_bw (record { value = cell; same = refl }) in
      rw (known, e, fails)
