-- ===== src/Emulation/Bandwidth.antt =====
-- emulation/src/bwsync.rs: the bandwidth that the flows of an emulation get on the links that they
-- share.
--
-- `none` is a panic. The arithmetic of `f64` is a parameter.
pub mod Share
pub mod Stricter
pub mod Removal
pub mod Bounds
use package.kollaps.Prelude.{
  ℕ, zero, suc, ◌+◌, ◌-◌, Bool, true, false, not, ◌&&◌, Option, none, some, List, [], ◌∷◌, ◌++◌,
  ltb, ◌==◌, if◌then◌else◌, length, min, ◌>>=◌,
}
use package.kollaps.Netgraph.Link.{VertexEq, Link, bandwidth}
use package.kollaps.Netgraph.Network.{Network}
use package.kollaps.Netgraph.Queries.{
  NetPath, bandwidth_between, contains_link, get_path_between, update_edges_along_path_by,
}
use package.kollaps.Emulation.Flows.{Flow, by_flow, set_hungry}
use package.kollaps.Emulation.Sets.{
  filter, holds, lookup, add, drop_all, replace, difference, symmetric_difference, intersection,
  union,
}

pub record Doubles (Q : Type 0) : Type 0 where
  pub of_nat : ℕ → Q
  pub plus : Q → Q → Q
  pub minus : Q → Q → Q
  pub div : Q → Q → Q
  pub le : Q → Q → Bool
  -- `as u32`
  pub to_u32 : Q → ℕ

module _ {T Q : Type 0} (v : VertexEq T) (q : Doubles Q) where
  -- The flow uses at most the partition, and was never cut.
  unfoldable pub is_maxed_out : Q → Flow T → Bool
  is_maxed_out partition f = q.le (q.of_nat f.used_bandwidth) partition && not f.hungry

  unfoldable pub cut : Q → Flow T → Flow T
  unfolding set_hungry
  cut partition f =
      let authorized = min (q.to_u32 partition) f.max_allowed_bandwidth in
      set_hungry (record f { authorized_bandwidth = authorized; used_bandwidth = authorized }) true

  unfoldable pub max_out : Flow T → Flow T
  unfolding set_hungry
  max_out f = set_hungry (record f { authorized_bandwidth = f.max_allowed_bandwidth }) false

  unfoldable pub add_each : (Flow T → Flow T) → List (Flow T) → List (Flow T) → List (Flow T)
  unfolding add
  add_each f [] acc = acc
  add_each f (x ∷ xs) acc = add_each f xs (add (by_flow v) (f x) acc)

  unfoldable pub spare_of : Q → Q → List (Flow T) → Q
  spare_of partition acc [] = acc
  spare_of partition acc (f ∷ fs) =
      spare_of partition (q.plus acc (q.minus partition (q.of_nat f.used_bandwidth))) fs

  -- The `loop`, on fuel.
  unfoldable pub share_loop : ℕ → List (Flow T) → Q → List (Flow T) → Option (List (Flow T))
  unfolding filter is_maxed_out cut max_out add_each difference spare_of
  share_loop zero flows partition new_flows = none
  share_loop (suc fuel) flows partition new_flows =
      let maxed_out_flows = filter (is_maxed_out partition) flows in
      let left = difference (by_flow v) flows maxed_out_flows in
      let spare =
        q.div (spare_of partition (q.of_nat 0) maxed_out_flows) (q.of_nat (length left)) in
      let again =
        share_loop fuel left (q.plus partition spare)
          (add_each max_out maxed_out_flows new_flows) in
      elim maxed_out_flows [ [] ↦ some (add_each (cut partition) flows new_flows) | _ ∷ _ ↦ again ]

  -- Each round but the last takes a flow away.
  unfoldable pub distribute_bandwidth_across_flow :
      {F : Type 0} → Link T F → List (Flow T) → Option (List (Flow T))
  unfolding share_loop
  distribute_bandwidth_across_flow link flows =
      share_loop (length flows + 1) flows
        (q.div (q.of_nat (bandwidth link)) (q.of_nat (length flows))) []

module _ {T : Type 0} (v : VertexEq T) where
  -- The one of the two equal flows that has less.
  unfoldable pub stricter : List (Flow T) → List (Flow T) → Flow T → Option (Flow T)
  unfolding lookup
  stricter xs ys flow = do
    a ← lookup (by_flow v) flow xs
    b ← lookup (by_flow v) flow ys
    some (if ltb a.authorized_bandwidth b.authorized_bandwidth then a else b)

  unfoldable pub select_stricter :
      List (Flow T) → List (Flow T) → List (Flow T) → List (Flow T) → Option (List (Flow T))
  unfolding stricter add
  select_stricter xs ys [] acc = some acc
  select_stricter xs ys (flow ∷ rest) acc = do
    s ← stricter xs ys flow
    select_stricter xs ys rest (add (by_flow v) s acc)

  unfoldable pub merge : List (Flow T) → List (Flow T) → Option (List (Flow T))
  unfolding select_stricter symmetric_difference intersection union
  merge xs ys = do
    let result = symmetric_difference (by_flow v) xs ys
    selected ← select_stricter xs ys (intersection (by_flow v) xs ys) []
    some (union (by_flow v) result selected)

-- `old_speed - flow.used_bandwidth`
unfoldable pub minus_used : {T : Type 0} → Flow T → ℕ → Option ℕ
minus_used flow old_speed =
    if ltb old_speed flow.used_bandwidth then none else some (old_speed - flow.used_bandwidth)

module _ {T : Type 0} (v : VertexEq T) where
  -- A flow that is active already keeps its hungriness.
  unfoldable pub keep_hungry : List (Flow T) → Flow T → Flow T
  unfolding lookup set_hungry
  keep_hungry active_flows flow = elim (lookup (by_flow v) flow active_flows) [
    | none ↦ flow
    | some known ↦ set_hungry flow known.hungry
  ]

  unfoldable pub replace_each : List (Flow T) → List (Flow T) → List (Flow T)
  unfolding replace
  replace_each [] active = active
  replace_each (f ∷ fs) active = replace_each fs (replace (by_flow v) f active)

module _ {T F : Type 0} (v : VertexEq T) where
  unfoldable pub path_of : Network T F → Flow T → Option (NetPath T F)
  unfolding get_path_between
  path_of graph flow = do p ← get_path_between v graph flow.source flow.destination; p

  -- The flows whose path has the link.
  unfoldable pub users_of : Network T F → Link T F → List (Flow T) → Option (List (Flow T))
  unfolding path_of
  users_of graph link [] = some []
  users_of graph link (flow ∷ flows) = do
    path ← path_of graph flow
    rest ← users_of graph link flows
    some (if contains_link v link path.links_set then flow ∷ rest else rest)

  unfoldable pub flows_on :
      Flow T
      → List (Flow T)
      → Network T F
      → List (Link T F)
      → Option (List (Link T F × List (Flow T)))
  unfolding users_of replace drop_all
  flows_on flow_updated all_flows graph [] = some []
  flows_on flow_updated all_flows graph (link ∷ links) = do
    users ← users_of graph link all_flows
    let set_of_flows =
        if flow_updated.used_bandwidth == 0
        then drop_all (by_flow v) flow_updated users
        else replace (by_flow v) flow_updated users
    rest ← flows_on flow_updated all_flows graph links
    some ((link, set_of_flows) ∷ rest)

  unfoldable pub get_flows_by_shared_links :
      Flow T → List (Flow T) → Network T F → Option (List (Link T F × List (Flow T)))
  unfolding path_of flows_on
  get_flows_by_shared_links flow_updated all_flows graph = do
    flow_path ← path_of graph flow_updated
    flows_on flow_updated all_flows graph flow_path.links_set

  unfoldable pub use_bandwidth : List (Flow T) → Network T F → Option (Network T F)
  unfolding minus_used update_edges_along_path_by
  use_bandwidth [] bw_graph = some bw_graph
  use_bandwidth (flow ∷ flows) bw_graph =
      update_edges_along_path_by v bw_graph flow.source flow.destination (minus_used flow)
      >>= use_bandwidth flows

  unfoldable pub calculate_bandwidth_graph : Network T F → List (Flow T) → Option (Network T F)
  unfolding use_bandwidth
  calculate_bandwidth_graph graph active_flows = use_bandwidth active_flows graph

module _ {T F Q : Type 0} (v : VertexEq T) (q : Doubles Q) where
  unfoldable pub merge_all :
      List (Link T F × List (Flow T)) → List (Flow T) → Option (List (Flow T))
  unfolding distribute_bandwidth_across_flow merge
  merge_all [] updated = some updated
  merge_all ((link, flows) ∷ rest) updated = do
    new_flows ← distribute_bandwidth_across_flow v q link flows
    merged ← merge v updated new_flows
    merge_all rest merged

  -- The changed flow, and the flows that got another bandwidth.
  unfoldable pub update_active_flows :
      Flow T → List (Flow T) → Network T F → Option (Flow T × List (Flow T))
  unfolding keep_hungry get_flows_by_shared_links merge_all
  update_active_flows flow active_flows original_graph = do
    let flow_updated = keep_hungry v active_flows flow
    links_to_check ← get_flows_by_shared_links v flow_updated active_flows original_graph
    updated ← merge_all links_to_check []
    some (flow_updated, updated)

  unfoldable pub update_flows :
      List (Flow T)
      → Flow T
      → Network T F
      → Network T F
      → Option (Flow T × (List (Flow T) × Network T F))
  unfolding update_active_flows replace_each calculate_bandwidth_graph bandwidth_between
  update_flows active_flows flow graph bw_graph = do
    path ← bandwidth_between v bw_graph flow.source flow.destination
    let update = (do
      r ← update_active_flows flow active_flows graph
      let active = replace_each v r.1 active_flows
      adapted ← calculate_bandwidth_graph v graph active
      some (r.0, (active, adapted)))
    elim path [ none ↦ some (flow, (active_flows, bw_graph)) | some _ ↦ update ]

  unfoldable pub remove_flow :
      List (Flow T) → Flow T → Network T F → Option (Flow T × (List (Flow T) × Network T F))
  unfolding update_active_flows replace_each calculate_bandwidth_graph drop_all
  remove_flow active_flows flow graph = do
    let others = drop_all (by_flow v) flow active_flows
    r ← update_active_flows flow others graph
    let active = replace_each v r.1 others
    bw_graph ← calculate_bandwidth_graph v graph active
    some (r.0, (active, bw_graph))
