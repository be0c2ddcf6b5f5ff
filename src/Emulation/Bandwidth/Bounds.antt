-- ===== src/Emulation/Bandwidth/Bounds.antt =====
-- emulation/src/bwsync.rs: the updates of the flows keep each one within its bound.
use kollaps.Prelude.{
  ℕ, ◌≤◌, ◌≡◌, sym, ap, ◌∙◌, inl, inr, Bool, Option, none, some, List, [], ◌∷◌, ◌++◌, leb, length,
  ltb, Bool-cases, bind-some, ◌>>=◌,
}
use mathlib.Core.Option.{some-injective}
use kollaps.Netgraph.Link.{VertexEq, Link}
use kollaps.Netgraph.Network.{Network}
use kollaps.Netgraph.Queries.{bandwidth_between}
use kollaps.Emulation.Flows.{Flow, by_flow}
use kollaps.Emulation.Sets.{
  filter, holds, lookup, add, drop_all, replace, difference, symmetric_difference, intersection,
  union,
}
use kollaps.Emulation.Bandwidth.{
  Doubles, stricter, select_stricter, merge, distribute_bandwidth_across_flow, replace_each,
  keep_hungry, get_flows_by_shared_links, merge_all, update_active_flows, update_flows, remove_flow,
  calculate_bandwidth_graph,
}
use kollaps.Emulation.Bandwidth.Share.{Within, distribute_bandwidth_across_flow_lem}

abbrev Bounded : {T : Type 0} → Flow T → Type 0
Bounded f = f.authorized_bandwidth ≤ f.max_allowed_bandwidth

Within-append : {T : Type 0} (xs ys : List (Flow T)) → Within xs → Within ys → Within (xs ++ ys)
Within-append [] ys h k = k
Within-append (x ∷ xs) ys (b, h) k = (b, Within-append xs ys h k)

Within-filter :
    {T : Type 0} (p : Flow T → Bool) (xs : List (Flow T)) → Within xs → Within (filter p xs)
unfolding filter
Within-filter p [] h = tt
Within-filter p (x ∷ xs) (b, h) = elim (Bool-cases (p x)) [
  | inl t ↦ rw t (b, Within-filter p xs h)
  | inr t ↦ rw t (Within-filter p xs h)
]

module _ {T : Type 0} (v : VertexEq T) where
  lookup-Bounded :
      (a : Flow T) (xs : List (Flow T)) {x : Flow T}
      → Within xs
      → lookup (by_flow v) a xs ≡ some x
      → Bounded x
  unfolding lookup
  lookup-Bounded a [] w h = cc
  lookup-Bounded a (y ∷ ys) (b, w) h = elim (Bool-cases ((by_flow v).beq y a)) [
    | inl t ↦ rw (some-injective _ _ (rw t at h)) at b
    | inr t ↦ lookup-Bounded a ys w (rw t at h)
  ]

  Within-add :
      (a : Flow T) (xs : List (Flow T)) → Bounded a → Within xs → Within (add (by_flow v) a xs)
  unfolding add
  Within-add a xs b w = elim (Bool-cases (holds (by_flow v) a xs)) [
    | inl t ↦ rw t w
    | inr t ↦ rw t (b, w)
  ]

  Within-drop_all :
      (a : Flow T) (xs : List (Flow T)) → Within xs → Within (drop_all (by_flow v) a xs)
  unfolding drop_all
  Within-drop_all a [] w = tt
  Within-drop_all a (x ∷ xs) (b, w) = elim (Bool-cases ((by_flow v).beq x a)) [
    | inl t ↦ rw t (Within-drop_all a xs w)
    | inr t ↦ rw t (b, Within-drop_all a xs w)
  ]

  Within-replace :
      (a : Flow T) (xs : List (Flow T)) → Bounded a → Within xs → Within (replace (by_flow v) a xs)
  unfolding replace
  Within-replace a [] c w = (c, tt)
  Within-replace a (x ∷ xs) c (b, w) = elim (Bool-cases ((by_flow v).beq x a)) [
    | inl t ↦ rw t (c, w)
    | inr t ↦ rw t (b, Within-replace a xs c w)
  ]

  Within-replace_each :
      (fs active : List (Flow T)) → Within fs → Within active → Within (replace_each v fs active)
  unfolding replace_each
  Within-replace_each [] active w k = k
  Within-replace_each (f ∷ fs) active (b, w) k =
      Within-replace_each fs (replace (by_flow v) f active) w (Within-replace f active b k)

  stricter-Bounded :
      (xs ys : List (Flow T)) (a : Flow T) {s : Flow T}
      → Within xs
      → Within ys
      → stricter v xs ys a ≡ some s
      → Bounded s
  unfolding stricter
  stricter-Bounded xs ys a w k h =
      let (x, ex, h1) = bind-some (lookup (by_flow v) a xs) _ h in
      let (y, ey, h2) = bind-some (lookup (by_flow v) a ys) _ h1 in
      let bx = lookup-Bounded a xs w ex in
      let by_ = lookup-Bounded a ys k ey in
      elim (Bool-cases (ltb x.authorized_bandwidth y.authorized_bandwidth)) [
        | inl t ↦ rw (some-injective _ _ (rw t at h2)) at bx
        | inr t ↦ rw (some-injective _ _ (rw t at h2)) at by_
      ]

  Within-select_stricter :
      (xs ys fs acc : List (Flow T)) {result : List (Flow T)}
      → Within xs
      → Within ys
      → Within acc
      → select_stricter v xs ys fs acc ≡ some result
      → Within result
  unfolding select_stricter
  Within-select_stricter xs ys [] acc w k a h = rw (some-injective _ _ h) at a
  Within-select_stricter xs ys (f ∷ fs) acc w k a h =
      let (s, es, h1) = bind-some (stricter v xs ys f) _ h in
      Within-select_stricter xs ys fs (add (by_flow v) s acc) w k
        (Within-add s acc (stricter-Bounded xs ys f w k es) a) h1

  Within-union : (xs ys : List (Flow T)) → Within xs → Within ys → Within (union (by_flow v) xs ys)
  unfolding union difference
  Within-union xs ys w k = elim (Bool-cases (leb (length ys) (length xs))) [
    | inl t ↦ rw t (Within-append xs _ w (Within-filter _ ys k))
    | inr t ↦ rw t (Within-append ys _ k (Within-filter _ xs w))
  ]

  Within-merge :
      (xs ys : List (Flow T)) {result : List (Flow T)}
      → Within xs
      → Within ys
      → merge v xs ys ≡ some result
      → Within result
  unfolding merge symmetric_difference difference
  Within-merge xs ys w k h =
      let apart = symmetric_difference (by_flow v) xs ys in
      let (selected, es, h1) =
        bind-some (select_stricter v xs ys (intersection (by_flow v) xs ys) []) _ h in
      rw (some-injective _ _ h1) at (
        Within-union apart selected
          (Within-append _ _ (Within-filter _ xs w) (Within-filter _ ys k))
          (Within-select_stricter xs ys (intersection (by_flow v) xs ys) [] w k tt es))

module _ {T F Q : Type 0} (v : VertexEq T) (q : Doubles Q) where
  Within-merge_all :
      (sets : List (Link T F × List (Flow T))) (updated : List (Flow T)) {result : List (Flow T)}
      → Within updated
      → merge_all v q sets updated ≡ some result
      → Within result
  unfolding merge_all
  Within-merge_all [] updated w h = rw (some-injective _ _ h) at w
  Within-merge_all ((link, flows) ∷ rest) updated w h =
      let (given, eg, h1) = bind-some (distribute_bandwidth_across_flow v q link flows) _ h in
      let (merged, em, h2) = bind-some (merge v updated given) _ h1 in
      let (shared, e, within, _) = distribute_bandwidth_across_flow_lem v q link flows in
      let same : shared ≡ given = some-injective _ _ (sym e ∙ eg) in
      Within-merge_all rest merged (Within-merge v updated given w (rw same at within) em) h2

  Within-update_active_flows :
      (flow : Flow T) (active : List (Flow T)) (graph : Network T F) {r : Flow T × List (Flow T)}
      → update_active_flows v q flow active graph ≡ some r
      → Within r.1
  unfolding update_active_flows
  Within-update_active_flows flow active graph h =
      let changed = keep_hungry v active flow in
      let (sets, es, h1) = bind-some (get_flows_by_shared_links v changed active graph) _ h in
      let (updated, eu, h2) = bind-some (merge_all v q sets []) _ h1 in
      rw (ap (λ r. r.1) (some-injective _ _ h2)) at (Within-merge_all sets [] tt eu)

  pub Within-update_flows :
      (active : List (Flow T)) (flow : Flow T) (graph bw_graph : Network T F)
      {r : Flow T × (List (Flow T) × Network T F)}
      → Within active
      → update_flows v q active flow graph bw_graph ≡ some r
      → Within r.1.0
  unfolding update_flows
  Within-update_flows active flow graph bw_graph {r} w h =
      let (path, ep, h1) =
        bind-some (bandwidth_between v bw_graph flow.source flow.destination) _ h in
      go path h1
    where
      go :
          (path : Option ℕ)
          → elim path [
            | none ↦ some (flow, (active, bw_graph))
            | some _ ↦ (do
              u ← update_active_flows v q flow active graph
              let next = replace_each v u.1 active
              adapted ← calculate_bandwidth_graph v graph next
              some (u.0, (next, adapted)))
          ]
            ≡ some r
          → Within r.1.0
      go none e = rw (ap (λ o. o.1.0) (some-injective _ _ e)) at w
      go (some _) e =
          let (u, eu, e1) = bind-some (update_active_flows v q flow active graph) _ e in
          let (bw, _, e2) =
            bind-some (calculate_bandwidth_graph v graph (replace_each v u.1 active)) _ e1 in
          rw (ap (λ o. o.1.0) (some-injective _ _ e2)) at
            (Within-replace_each v u.1 active (Within-update_active_flows flow active graph eu) w)

  pub Within-remove_flow :
      (active : List (Flow T)) (flow : Flow T) (graph : Network T F)
      {r : Flow T × (List (Flow T) × Network T F)}
      → Within active
      → remove_flow v q active flow graph ≡ some r
      → Within r.1.0
  unfolding remove_flow
  Within-remove_flow active flow graph w h =
      let others = drop_all (by_flow v) flow active in
      let (u, eu, h1) = bind-some (update_active_flows v q flow others graph) _ h in
      let (bw, _, h2) =
        bind-some (calculate_bandwidth_graph v graph (replace_each v u.1 others)) _ h1 in
      rw (ap (λ o. o.1.0) (some-injective _ _ h2)) at (
        Within-replace_each v u.1 others (Within-update_active_flows flow others graph eu)
          (Within-drop_all v flow active w))
