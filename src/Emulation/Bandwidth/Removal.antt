-- ===== src/Emulation/Bandwidth/Removal.antt =====
-- emulation/src/bwsync.rs: whether `remove_flow` removes its flow.
use kollaps.Prelude.{
  ℕ, ◌≡◌, refl, sym, ap, ◌∙◌, inl, inr, Bool, true, false, not, ◌&&◌, ◌||◌, Option, none, some,
  is_some, List, [], ◌∷◌, ◌==◌, arith, Bool-cases, bind-some,
}
use mathlib.Core.Option.{some-injective}
use kollaps.Netgraph.Link.{VertexEq, Link}
use kollaps.Netgraph.Network.{Network}
use kollaps.Netgraph.Queries.{NetPath}
use kollaps.Emulation.Flows.{Flow, by_flow, flow_eq, set_hungry}
use kollaps.Emulation.Sets.{holds, lookup, replace, drop_all}
use kollaps.Emulation.Sets.Members.{holds-drop_all, holds-replace, holds_cong}
use kollaps.Emulation.Sets.Found.{holds-lookup}
use kollaps.Emulation.Bandwidth.{
  Doubles, merge, distribute_bandwidth_across_flow, keep_hungry, replace_each, flows_on, path_of,
  users_of, get_flows_by_shared_links, merge_all, update_active_flows, remove_flow,
  calculate_bandwidth_graph,
}
use kollaps.Emulation.Bandwidth.Share.{distribute_bandwidth_across_flow_lem}
use kollaps.Emulation.Bandwidth.Stricter.{allows, authorized, least, merge_lem}

module _ {T : Type 0} (v : VertexEq T) where
  holds-allows :
      (a : Flow T) (xs : List (Flow T)) → holds (by_flow v) a xs ≡ is_some (allows v a xs)
  unfolding allows authorized
  holds-allows a xs = holds-lookup (by_flow v) a xs ∙ found (lookup (by_flow v) a xs)
    where
      found : (o : Option (Flow T)) → is_some o ≡ is_some (authorized o)
      found none = refl
      found (some x) = refl

  holds-replace_each :
      (a : Flow T) (fs active : List (Flow T))
      → holds (by_flow v) a (replace_each v fs active)
        ≡ (holds (by_flow v) a fs || holds (by_flow v) a active)
  unfolding replace_each holds
  holds-replace_each a [] active = refl
  holds-replace_each a (f ∷ fs) active =
      holds-replace_each a fs (replace (by_flow v) f active)
      ∙ rw (holds-replace (by_flow v) a f active) (ground arith)

  holds-merge :
      (a : Flow T) (xs ys : List (Flow T)) {zs : List (Flow T)}
      → merge v xs ys ≡ some zs
      → holds (by_flow v) a zs ≡ (holds (by_flow v) a xs || holds (by_flow v) a ys)
  unfolding least
  holds-merge a xs ys {zs} h =
      let (result, e, stricter) = merge_lem v xs ys in
      let same : result ≡ zs = some-injective _ _ (sym e ∙ h) in
      rw (← same, holds-allows a result, stricter a, holds-allows a xs, holds-allows a ys)
        (one_has (allows v a xs) (allows v a ys))
    where
      one_has : (o p : Option ℕ) → is_some (least o p) ≡ (is_some o || is_some p)
      one_has none p = refl
      one_has (some x) none = refl
      one_has (some x) (some y) = refl

  kept : (xs : List (Flow T)) (f : Flow T) → (h : Bool) × (keep_hungry v xs f ≡ set_hungry f h)
  unfolding keep_hungry set_hungry
  kept xs f = go (lookup (by_flow v) f xs)
    where
      go :
          (o : Option (Flow T))
          → (h : Bool) × (elim o [ none ↦ f | some known ↦ set_hungry f known.hungry ]
              ≡ set_hungry f h)
      go none = (f.hungry, refl)
      go (some known) = (known.hungry, refl)

module _ {T F : Type 0} (v : VertexEq T) where
  -- A set of some link has the flow.
  any_holds : Flow T → List (Link T F × List (Flow T)) → Bool
  any_holds a [] = false
  any_holds a ((_, flows) ∷ rest) = holds (by_flow v) a flows || any_holds a rest

  unfoldable pub has_link : List (Link T F) → Bool
  has_link [] = false
  has_link (_ ∷ _) = true

  any_holds-flows_on :
      (f : Flow T) (all : List (Flow T)) (graph : Network T F) (links : List (Link T F))
      {sets : List (Link T F × List (Flow T))}
      → flows_on v f all graph links ≡ some sets
      → any_holds f sets ≡ (has_link links && not (f.used_bandwidth == 0))
  unfolding flows_on any_holds has_link
  any_holds-flows_on f all graph [] h = rw (← some-injective [] _ h) refl
  any_holds-flows_on f all graph (l ∷ ls) h =
      let (users, _, h1) = bind-some (users_of v graph l all) _ h in
      let (rest, hr, h2) = bind-some (flows_on v f all graph ls) _ h1 in
      let again = any_holds-flows_on f all graph ls hr in
      rw (← some-injective _ _ h2, again)
        (elim (Bool-cases (f.used_bandwidth == 0)) [
          | inl ended ↦
              rw (ended, holds-drop_all (by_flow v) f f users ((by_flow v).beq_refl f))
                (no_more (has_link ls))
          | inr used ↦ rw (used, holds-replace (by_flow v) f f users, (by_flow v).beq_refl f) refl
        ])
    where
      no_more : (b : Bool) → (false || (b && not true)) ≡ false
      no_more true = refl
      no_more false = refl

  module _ {Q : Type 0} (q : Doubles Q) where
    holds-merge_all :
        (a : Flow T) (sets : List (Link T F × List (Flow T))) (updated : List (Flow T))
        {result : List (Flow T)}
        → merge_all v q sets updated ≡ some result
        → holds (by_flow v) a result ≡ (holds (by_flow v) a updated || any_holds a sets)
    unfolding merge_all any_holds
    holds-merge_all a [] updated h = rw (← some-injective updated _ h) (ground arith)
    holds-merge_all a ((link, flows) ∷ rest) updated h =
        let (given, eg, h1) = bind-some (distribute_bandwidth_across_flow v q link flows) _ h in
        let (merged, em, h2) = bind-some (merge v updated given) _ h1 in
        let (result_, e, _, members) = distribute_bandwidth_across_flow_lem v q link flows in
        let same : result_ ≡ given = some-injective _ _ (sym e ∙ eg) in
        let of_link = rw same at (members a) in
        holds-merge_all a rest merged h2
        ∙ rw (holds-merge v a updated given em, of_link) (ground arith)

module _ {T F Q : Type 0} (v : VertexEq T) (q : Doubles Q) where
  -- The flows that get another bandwidth have the changed one, unless it ended.
  holds-update_active_flows :
      (flow : Flow T) (active : List (Flow T)) (graph : Network T F) {r : Flow T × List (Flow T)}
      → update_active_flows v q flow active graph ≡ some r
      → (path : NetPath T F) × (path_of v graph flow ≡ some path)
        × (holds (by_flow v) flow r.1
            ≡ (has_link v path.links_set && not (flow.used_bandwidth == 0)))
  unfolding update_active_flows get_flows_by_shared_links path_of set_hungry flow_eq
  holds-update_active_flows flow active graph {r} e =
      let (h, eh) = kept v active flow in
      let changed = set_hungry flow h in
      let e0 = rw eh at e in
      let (sets, es, e1) = bind-some (get_flows_by_shared_links v changed active graph) _ e0 in
      let (updated, eu, e2) = bind-some (merge_all v q sets []) _ e1 in
      let (path, ep, e3) = bind-some (path_of v graph changed) _ es in
      let is : updated ≡ r.1 = ap (λ o. o.1) (some-injective _ _ e2) in
      (
        path,
        ep,
        rw (← is) (
            holds_cong (by_flow v) flow changed updated ((by_flow v).beq_refl flow)
            ∙ holds-merge_all v q changed sets [] eu
            ∙ any_holds-flows_on v changed active graph path.links_set e3),
      )

  -- Where `remove_flow` does not panic, the flow that it is given is among the active flows that it
  -- returns exactly if its used bandwidth is not 0 and its path has a link.
  pub remove_flow-holds :
      (active : List (Flow T)) (flow : Flow T) (graph : Network T F)
      {r : Flow T × (List (Flow T) × Network T F)}
      → remove_flow v q active flow graph ≡ some r
      → (path : NetPath T F) × (path_of v graph flow ≡ some path)
        × (holds (by_flow v) flow r.1.0
            ≡ (has_link v path.links_set && not (flow.used_bandwidth == 0)))
  unfolding remove_flow
  remove_flow-holds active flow graph {r} e =
      let others = drop_all (by_flow v) flow active in
      let (u, eu, e1) = bind-some (update_active_flows v q flow others graph) _ e in
      let (bw, _, e2) =
        bind-some (calculate_bandwidth_graph v graph (replace_each v u.1 others)) _ e1 in
      let is : replace_each v u.1 others ≡ r.1.0 = ap (λ o. o.1.0) (some-injective _ _ e2) in
      let (path, ep, given) = holds-update_active_flows flow others graph eu in
      let gone = holds-drop_all (by_flow v) flow flow active ((by_flow v).beq_refl flow) in
      (path, ep, rw (← is) (holds-replace_each v flow u.1 others ∙ rw (given, gone) (no_other _)))
    where
      no_other : (b : Bool) → (b || false) ≡ b
      no_other true = refl
      no_other false = refl
