-- ===== src/Emulation/Bandwidth/Share.antt =====
-- emulation/src/bwsync.rs: what `distribute_bandwidth_across_flow` gives to the flows of a link.
use kollaps.Prelude.{
  ℕ, zero, suc, ◌+◌, ◌≤◌, ◌<◌, ◌≡◌, refl, sym, ◌∙◌, inl, inr, Bool, true, false, not, ◌&&◌, ◌||◌,
  Option, some, List, [], ◌∷◌, length, min, arith, Bool-cases, List-cases,
}
use kollaps.Netgraph.Link.{VertexEq, Link, bandwidth}
use kollaps.Emulation.Flows.{Flow, flow_eq, flow_eq_refl, by_flow, set_hungry}
use kollaps.Emulation.Sets.{filter, holds, add, difference}
use kollaps.Emulation.Sets.Members.{holds-add, holds-filter, holds-difference, length-difference}
use kollaps.Emulation.Bandwidth.{
  Doubles, is_maxed_out, cut, max_out, add_each, share_loop, distribute_bandwidth_across_flow,
}

-- No flow is authorized more than it may have at most.
abbrev pub Within : {T : Type 0} → List (Flow T) → Type 0
Within [] = Unit
Within (f ∷ fs) = (f.authorized_bandwidth ≤ f.max_allowed_bandwidth) × Within fs

min_le : (a b : ℕ) → min a b ≤ b
min_le a b = ground arith

pick_none :
    {A B : Type 0} (a b : B) (l : List A) → l ≡ [] → elim l as (λ _. B) [ [] ↦ a | _ ∷ _ ↦ b ] ≡ a
pick_none a b [] e = refl
pick_none a b (y ∷ ys) e = cc

pick_some :
    {A B : Type 0} (a b : B) (x : A) (xs l : List A)
    → l ≡ x ∷ xs
    → elim l as (λ _. B) [ [] ↦ a | _ ∷ _ ↦ b ] ≡ b
pick_some a b x xs [] e = cc
pick_some a b x xs (y ∷ ys) e = refl

module _ {T Q : Type 0} (v : VertexEq T) (q : Doubles Q) where
  -- A change of flows that keeps their ends and stays within their bounds.
  record Adjusts (f : Flow T → Flow T) : Type 0 where
    pub ends : (x a : Flow T) → flow_eq v (f x) a ≡ flow_eq v x a
    pub bound : (x : Flow T) → (f x).authorized_bandwidth ≤ (f x).max_allowed_bandwidth

  cut-Adjusts : (partition : Q) → Adjusts (cut v q partition)
  unfolding cut set_hungry flow_eq
  cut-Adjusts partition = record {
    ends = λ x a. refl;
    bound = λ x. min_le (q.to_u32 partition) x.max_allowed_bandwidth;
  }

  max_out-Adjusts : Adjusts (max_out v q)
  unfolding max_out set_hungry flow_eq
  max_out-Adjusts = record { ends = λ x a. refl; bound = λ x. omega arith }

  holds-add_each :
      (f : Flow T → Flow T) (a : Flow T) (xs acc : List (Flow T))
      → Adjusts f
      → holds (by_flow v) a (add_each v q f xs acc)
        ≡ (holds (by_flow v) a acc || holds (by_flow v) a xs)
  unfolding add_each holds
  holds-add_each f a [] acc h = ground arith
  holds-add_each f a (x ∷ xs) acc h =
      holds-add_each f a xs (add (by_flow v) (f x) acc) h
      ∙ rw (holds-add (by_flow v) a (f x) acc, h.ends x a) (ground arith)

  Within-add_each :
      (f : Flow T → Flow T) (xs acc : List (Flow T))
      → Adjusts f
      → Within acc
      → Within (add_each v q f xs acc)
  unfolding add_each add
  Within-add_each f [] acc h w = w
  Within-add_each f (x ∷ xs) acc h w = elim (Bool-cases (holds (by_flow v) (f x) acc)) [
    | inl there ↦ rw there (Within-add_each f xs acc h w)
    | inr absent ↦ rw absent (Within-add_each f xs (f x ∷ acc) h (h.bound x, w))
  ]

  same_members :
      (new all out : Bool)
      → (out ≡ true → all ≡ true)
      → ((new || out) || (all && not out)) ≡ (new || all)
  same_members true all out h = refl
  same_members false true true h = refl
  same_members false true false h = refl
  same_members false false true h = sym (h refl)
  same_members false false false h = refl

  -- What the loop gives back.
  record Shares (flows new_flows : List (Flow T)) (r : Option (List (Flow T))) : Type 0 where
    pub result : List (Flow T)
    pub ends : r ≡ some result
    pub within : Within result
    pub members :
        (a : Flow T)
        → holds (by_flow v) a result ≡ (holds (by_flow v) a new_flows || holds (by_flow v) a flows)

  share_loop-Shares :
      (fuel : ℕ) (flows : List (Flow T)) (partition : Q) (new_flows : List (Flow T))
      → length flows < fuel
      → Within new_flows
      → Shares flows new_flows (share_loop v q fuel flows partition new_flows)
  unfolding share_loop holds
  share_loop-Shares zero flows partition new_flows b w = absurd (omega arith)
  share_loop-Shares (suc fuel) flows partition new_flows b w =
      let maxed_out_flows = filter (is_maxed_out v q partition) flows in
      let left = difference (by_flow v) flows maxed_out_flows in
      elim (List-cases maxed_out_flows) [
        | inl e ↦ record {
          result = add_each v q (cut v q partition) flows new_flows;
          ends = pick_none _ _ maxed_out_flows e;
          within = Within-add_each (cut v q partition) flows new_flows (cut-Adjusts partition) w;
          members =
              λ a. holds-add_each (cut v q partition) a flows new_flows (cut-Adjusts partition);
        }
        | inr (x, xs, e) ↦
            let more = add_each v q (max_out v q) maxed_out_flows new_flows in
            let there : holds (by_flow v) x maxed_out_flows ≡ true = rw (e, flow_eq_refl v x) in
            let known = holds-filter (by_flow v) (is_maxed_out v q partition) x flows there in
            let shorter = length-difference (by_flow v) x flows maxed_out_flows known there in
            let s =
              share_loop-Shares fuel left _ more (omega arith)
                (Within-add_each (max_out v q) maxed_out_flows new_flows max_out-Adjusts w) in
            record {
              result = s.result;
              ends = pick_some _ _ x xs maxed_out_flows e ∙ s.ends;
              within = s.within;
              members = λ a.
                  s.members a
                  ∙ rw
                      (
                        holds-add_each (max_out v q) a maxed_out_flows new_flows max_out-Adjusts,
                        holds-difference (by_flow v) a flows maxed_out_flows,
                      )
                      (same_members _ _ _
                        (holds-filter (by_flow v) (is_maxed_out v q partition) a flows));
            }
      ]

-- Whatever the arithmetic of the partitions gives, `distribute_bandwidth_across_flow` ends. The
-- flows in its result are exactly those that it was given, and none is authorized more than the
-- most that it may have.
pub distribute_bandwidth_across_flow_lem :
    {T Q F : Type 0} (v : VertexEq T) (q : Doubles Q) (link : Link T F) (flows : List (Flow T))
    → (result : List (Flow T)) × (distribute_bandwidth_across_flow v q link flows ≡ some result)
      × Within result
      × ((a : Flow T) → holds (by_flow v) a result ≡ holds (by_flow v) a flows)
unfolding distribute_bandwidth_across_flow holds
distribute_bandwidth_across_flow_lem v q link flows =
    let s =
      share_loop-Shares v q (length flows + 1) flows
        (q.div (q.of_nat (bandwidth link)) (q.of_nat (length flows))) [] (omega arith) tt in
    (s.result, s.ends, s.within, s.members)
