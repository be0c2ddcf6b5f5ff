-- ===== src/Netgraph/Queries/Bandwidth.antt =====
-- netgraph/src/lib.rs: what `bandwidth_between` answers, under both strategies.
use kollaps.Prelude.{
  ℕ, ◌+◌, ◌≤◌, ◌<◌, ◌≡◌, ◌≢◌, sym, ◌∙◌, Option, none, some, get_elem?-lt, min, ltb→ge,
}
use kollaps.Matrix.Access.{IsValid}
use kollaps.Netgraph.Link.{VertexEq, u32_max}
use kollaps.Netgraph.Network.{Network, map_two, widest_path_strategy}
use kollaps.Netgraph.Queries.{bandwidth_between}
use kollaps.Netgraph.Search.{path_between}
use kollaps.Netgraph.Search.Labels.{Links, Walk, entry_of}
use kollaps.Netgraph.Search.Adjacency.{link_of}
use kollaps.Netgraph.Search.Widest.{widest_labels, wider, widest_path_lem}
use kollaps.Netgraph.Search.Shortest.{shortest_labels, hop}

-- `Route v h b`: some walk from `src` to `v` has `h` links, the narrowest of the bandwidth `b`.
pub data Route (link : Links) (src : ℕ) : ℕ → ℕ → ℕ → Type 0 where
  here : Route link src src 0 u32_max
  step :
      {u v h b w : ℕ}
      → Route link src u h b
      → link u v ≡ some w
      → Route link src v (h + 1) (min b w)

pub Route-Walk :
    {link : Links} {src v h b : ℕ} → Route link src v h b → Walk shortest_labels link src v h
unfolding shortest_labels hop
Route-Walk Route.here = Walk.here
Route-Walk (Route.step r e) = Walk.step (Route-Walk r) e

-- The answer is the greatest width of all walks, and `none` where there is no walk.
pub record IsWidth (link : Links) (src v : ℕ) (answer : Option ℕ) : Type 0 where
  pub attained : (w : ℕ) → answer ≡ some w → (h : ℕ) × Route link src v h w
  pub greatest : (h b : ℕ) → Route link src v h b → (w : ℕ) × (answer ≡ some w) × (b ≤ w)

-- The answer is the width of a walk with the fewest links, and `none` where there is no walk and
-- from a node to itself.
pub record IsShortestWidth (link : Links) (src v : ℕ) (answer : Option ℕ) : Type 0 where
  pub attained :
      (w : ℕ)
      → answer ≡ some w
      → (h : ℕ) × Route link src v h w × ((k b : ℕ) → Route link src v k b → h ≤ k)
  pub answered : (h b : ℕ) → src ≢ v → Route link src v h b → (w : ℕ) × (answer ≡ some w)
  pub to_itself : src ≡ v → answer ≡ none

Walk-Route :
    {link : Links} {src v b : ℕ} → Walk widest_labels link src v b → (h : ℕ) × Route link src v h b
unfolding widest_labels
Walk-Route Walk.here = (0, Route.here)
Walk-Route (Walk.step w e) = let (h, r) = Walk-Route w in (h + 1, Route.step r e)

Route-widest :
    {link : Links} {src v h b : ℕ} → Route link src v h b → Walk widest_labels link src v b
unfolding widest_labels
Route-widest Route.here = Walk.here
Route-widest (Route.step r e) = Walk.step (Route-widest r) e

module _ {T F : Type 0} (v : VertexEq T) (net : Network T F) (valid : IsValid net.links) (a b : T)
    (i j : ℕ) (mapped : map_two v net a b ≡ some (i, j)) (hi : i < net.links.n)
    (hj : j < net.links.n) where
  -- Under the widest path strategy, `bandwidth_between` two vertices of the graph does not panic
  -- and answers the greatest width of all walks between them.
  pub bandwidth_between_widest :
      net.path_strategy ≡ widest_path_strategy
      → (answer : Option ℕ) × (bandwidth_between v net a b ≡ some answer)
        × IsWidth (link_of net) i j answer
  unfolding bandwidth_between path_between widest_labels wider
  bandwidth_between_widest strategy =
      let (label, parents, e, s) = widest_path_lem net valid i hi in
      let (answer, ea) = get_elem?-lt label j (rw s.label_size hj) in
      (
        answer,
        simp (bandwidth_between, mapped, path_between, strategy, e) ea,
        record {
          attained = λ w aw. Walk-Route (s.sound j w (entry_of label j ea ∙ aw));
          greatest = λ h x r.
              let (w, ew, worse) = s.complete j x (Route-widest r) in
              (w, sym (entry_of label j ea) ∙ ew, ltb→ge _ _ worse);
        },
      )
