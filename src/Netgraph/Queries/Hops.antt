-- ===== src/Netgraph/Queries/Hops.antt =====
-- netgraph/src/lib.rs: what `bandwidth_between` answers under the shortest path strategy, where
-- it follows the parents and takes the least bandwidth.
use mathlib.Core.Option.{get_or}
use kollaps.Prelude.{
  ℕ, ◌+◌, ◌≤◌, ◌<◌, ◌≡◌, refl, sym, ap, ◌∙◌, inl, inr, Option, none, some, List, arith,
  get_elem?-lt, min, Option-cases, ltb→ge,
}
use mathlib.Core.Option.{some-injective}
use kollaps.Matrix.{size}
use kollaps.Matrix.Access.{IsValid, index_comm}
use kollaps.Netgraph.Link.{VertexEq, u32_max}
use kollaps.Netgraph.Network.{Network, map_two, shortest_path_strategy}
use kollaps.Netgraph.Queries.{along, bandwidth_between, narrow}
use kollaps.Netgraph.Queries.Follow.{along_lem}
use kollaps.Netgraph.Queries.Bandwidth.{Route, Route-Walk, IsShortestWidth}
use kollaps.Netgraph.Search.{path_between}
use kollaps.Netgraph.Search.Labels.{Links, Walk, entry, entry_of, Chain, root, up}
use kollaps.Netgraph.Search.Rounds.{Solves}
use kollaps.Netgraph.Search.Adjacency.{link_of, link_of-some}
use kollaps.Netgraph.Search.Shortest.{shortest_labels, shorter, hop, shortest_path_lem}

-- The width of the walk that the parents describe.
pub width : (link : Links) {parents : List (Option ℕ)} {i x : ℕ} → Chain parents i x → ℕ
width link root = u32_max
width link (up {v = x} {p} e rest) = min (width link rest) (get_or (link p x) 0)

width-le :
    (link : Links) {parents : List (Option ℕ)} {i x : ℕ} (c : Chain parents i x)
    → width link c ≤ u32_max
unfolding width
width-le link root = omega arith
width-le link (up e rest) = omega (arith, width-le link rest)

module _ {T F : Type 0} (net : Network T F) (i : ℕ) (label parents : List (Option ℕ))
    (s : Solves shortest_labels (link_of net) i net.links.n label parents) where
  abbrev link : Links
  link = link_of net

  -- The walk has as many links as the label says.
  Chain-Route :
      {x h : ℕ} (c : Chain parents i x) → entry label x ≡ some h → Route link i x h (width link c)
  unfolding width shortest_labels shorter hop
  Chain-Route {h} root lx =
      let (z, lz, worse) = s.complete i 0 Walk.here in
      let hz : h ≡ z = some-injective _ _ (sym lx ∙ lz) in
      let none_left : z ≡ 0 = ground arith in rw (hz, none_left) Route.here
  Chain-Route {h} (up {v = x} {p} e rest) lx =
      let (d, w, lp, lw, lx') = s.hangs x p e in
      let hd : h ≡ d + 1 = some-injective _ _ (sym lx ∙ lx') in
      let r = Route.step (Chain-Route rest lp) lw in rw (hd, lw) r

  -- So far `speed`; with the rest of the chain it will be `total`.
  Remains : ℕ → ℕ → ℕ → Type 0
  Remains total x speed =
      (c : Chain parents i x) × (min speed (width link c) ≡ total) × (speed ≤ u32_max)

  round :
      (total x p speed : ℕ)
      → entry parents x ≡ some p
      → Chain parents i p
      → Remains total x speed
      → (t : ℕ) × (narrow net x p speed ≡ some t) × Remains total p t
  unfolding Remains narrow width
  round total x p speed e _ (root, m, _) = let at = s.top in cc
  round total x p speed e _ (up {p = q} f rest, m, small) =
      let (d, w, lp, lw, lx) = s.hangs x q f in
      let (l, cell, bw, _, _, _) = link_of-some net q x w lw in
      let pq : p ≡ q = some-injective _ _ (sym e ∙ f) in
      let total_now : min speed (min (width link rest) w) ≡ total = rw lw at m in
      rw (pq, index_comm net.links x q, cell, bw)
        (min speed w, refl, (rest, omega arith, omega arith))

  at_end : {x : ℕ} (c : Chain parents i x) → x ≡ i → width link c ≡ u32_max
  unfolding width
  at_end root e = refl
  at_end (up {v = x} f rest) e = let at : entry parents x ≡ none = rw e s.top in cc

  -- Following the parents from a node gives the width of the walk that they describe.
  pub follow :
      {x : ℕ} (c : Chain parents i x)
      → i < net.links.n
      → along net.links.n parents (narrow net) x u32_max ≡ some (width link c)
  unfolding Remains width
  follow c h =
      let total = width link c in
      let small = width-le link c in
      let whole : min u32_max total ≡ total = omega arith in
      let (t, e, (end, m, bound)) =
        along_lem parents i s.top (Remains total) (narrow net) (round total) (rw s.parents_size h)
          u32_max c (c, whole, omega arith) in
      let last = at_end end refl in
      let exact : t ≡ total = omega arith in (rw s.parents_size at e) ∙ ap some exact

  no_parent : {x : ℕ} → Chain parents i x → entry parents x ≡ none → x ≡ i
  no_parent root e = refl
  no_parent (up f rest) e = cc

  unset-IsShortestWidth : (j : ℕ) → entry parents j ≡ none → IsShortestWidth link i j none
  unset-IsShortestWidth j unset = record {
    attained = λ w e. cc;
    answered = λ h b other r.
        let (x, ex, _) = s.complete j h (Route-Walk r) in
        absurd (other (sym (no_parent (s.chain j x ex) unset)));
    to_itself = λ e. refl;
  }

  set-IsShortestWidth :
      (j p : ℕ)
      → entry parents j ≡ some p
      → i < net.links.n
      → (w : ℕ) × (along net.links.n parents (narrow net) j u32_max ≡ some w)
        × IsShortestWidth link i j (some w)
  unfolding shortest_labels shorter
  set-IsShortestWidth j p e hi =
      let (d, w, lp, lw, lx) = s.hangs j p e in
      let c = s.chain j (hop d w) lx in
      (
        width link c,
        follow c hi,
        record {
          attained = λ x ex.
              let same : width link c ≡ x = some-injective _ _ ex in
              (
                hop d w,
                rw (← same) (Chain-Route c lx),
                λ k b r.
                    let (y, ey, worse) = s.complete j k (Route-Walk r) in
                    let at : hop d w ≡ y = some-injective _ _ (sym lx ∙ ey) in
                    rw at (ltb→ge _ _ worse),
              );
          answered = λ h b other r. (width link c, refl);
          to_itself = λ same. let at : entry parents j ≡ none = rw (← same) s.top in cc;
        },
      )

module _ {T F : Type 0} (v : VertexEq T) (net : Network T F) (valid : IsValid net.links) (a b : T)
    (i j : ℕ) (mapped : map_two v net a b ≡ some (i, j)) (hi : i < net.links.n)
    (hj : j < net.links.n) where
  -- Under the shortest path strategy, `bandwidth_between` two vertices of the graph does not panic
  -- and answers the width of a walk with the fewest links; between a vertex and itself, nothing.
  pub bandwidth_between_shortest :
      net.path_strategy ≡ shortest_path_strategy
      → (answer : Option ℕ) × (bandwidth_between v net a b ≡ some answer)
        × IsShortestWidth (link_of net) i j answer
  unfolding bandwidth_between path_between shortest_labels shorter size
  bandwidth_between_shortest strategy =
      let (label, parents, e, s) = shortest_path_lem net valid i hi in
      let (parent, ep) = get_elem?-lt parents j (rw s.parents_size hj) in
      elim (Option-cases parent) [
        | inl unset ↦ (
          none,
          simp (bandwidth_between, mapped, path_between, strategy, e, ep, unset),
          unset-IsShortestWidth net i label parents s j (entry_of parents j ep ∙ unset),
        )
        | inr (p, set) ↦
            let (w, follows, right) =
              set-IsShortestWidth net i label parents s j p (entry_of parents j ep ∙ set) hi in
            (
              some w,
              simp (bandwidth_between, mapped, path_between, strategy, e, ep, set, follows),
              right,
            )
      ]
