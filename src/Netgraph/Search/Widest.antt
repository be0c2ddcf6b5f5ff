-- ===== src/Netgraph/Search/Widest.antt =====
-- netgraph/src/lib.rs, `widest_path`: it ends without a panic, and solves the widest path problem.
use kollaps.Prelude.{
  ℕ, zero, suc, ◌+◌, ◌-◌, ◌*◌, ◌≤◌, ◌<◌, ◌≡◌, refl, inl, inr, Bool, true, false, Option, none, some,
  List, [], ◌∷◌, arith, ltb, ltb→ge, length, set, get_elem?, get_elem?-replicate, get_elem?-lt,
  lt-length_of_get, Bool-cases, Option-cases, min, max, replicate,
}
use mathlib.Core.Option.{some-injective}
use kollaps.Matrix.{size}
use kollaps.Matrix.Access.{IsValid}
use kollaps.Netgraph.Link.{u32_max}
use kollaps.Netgraph.Heap.{push, pop, pop-none, pop-length, pop-head}
use kollaps.Netgraph.Network.{Network}
use kollaps.Netgraph.Search.{
  Search, Paths, improve, relax_widest, relax_all, widest_loop, widest_path, widest_fuel,
}
use kollaps.Netgraph.Search.Labels.{Labels, In, entry, entry-some, entry_of, Walk-worse-best}
use kollaps.Netgraph.Search.Relax.{improved, improve-improved, Relaxed, kept, took}
use kollaps.Netgraph.Search.Rounds.{Good, Good-skip, Good-visit, Solves, Good-Solves}
use kollaps.Netgraph.Search.Begin.{started, start-started, Good-started, relax_all_lem}
use kollaps.Netgraph.Search.Adjacency.{link_of, link_of-some, neighbours_lem}

-- A path is as wide as its narrowest link; the empty path has the greatest width.
unfoldable pub wider : ℕ → ℕ → Bool
wider a b = ltb b a

pub wider_irrefl : (a : ℕ) → wider a a ≡ false
unfolding wider
wider_irrefl a = ground arith

pub wider_asym : (a b : ℕ) → wider a b ≡ true → wider b a ≡ false
unfolding wider
wider_asym a b h = ground arith

pub wider_trans : (a b c : ℕ) → wider a b ≡ false → wider b c ≡ false → wider a c ≡ false
unfolding wider
wider_trans a b c h k = ground arith

pub wider_antisym : (a b : ℕ) → wider a b ≡ false → wider b a ≡ false → a ≡ b
unfolding wider
wider_antisym a b h k = ground arith

pub wider-min_mono : (a b w : ℕ) → wider a b ≡ false → wider (min a w) (min b w) ≡ false
unfolding wider
wider-min_mono a b w h = ground arith

pub wider-min_worse : (a w : ℕ) → wider (min a w) a ≡ false
unfolding wider
wider-min_worse a w = ground arith

unfoldable pub widest_labels : Labels
widest_labels = record {
  best = u32_max;
  extend = min;
  better = wider;
  better_irrefl = wider_irrefl;
  better_asym = wider_asym;
  worse_trans = wider_trans;
  worse_antisym = wider_antisym;
  extend_mono = wider-min_mono;
  extend_worse = wider-min_worse;
}

-- How often the label can still rise.
pub rank : Option ℕ → ℕ
rank none = u32_max + 1
rank (some b) = u32_max - b

pub ranks : List (Option ℕ) → ℕ
unfolding rank
ranks [] = 0
ranks (x ∷ xs) = rank x + ranks xs

ranks-set :
    (xs : List (Option ℕ)) (i : ℕ) (old new : Option ℕ)
    → get_elem? xs i ≡ some old
    → ranks (set xs i new) + rank old ≡ ranks xs + rank new
unfolding ranks
ranks-set [] i old new e = cc
ranks-set (x ∷ xs) zero old new e = rw (some-injective _ _ e) (omega arith)
ranks-set (x ∷ xs) (suc i) old new e = omega (arith, ranks-set xs i old new e)

rank_drop :
    (seen : Option ℕ) (x : ℕ)
    → x ≤ u32_max
    → ((b : ℕ) → seen ≡ some b → wider x b ≡ true)
    → rank (some x) + 1 ≤ rank seen
unfolding rank wider
rank_drop none x h wins = omega arith
rank_drop (some b) x h wins = ground (arith, wins b refl)

module _ {T F : Type 0} (net : Network T F) (valid : IsValid net.links) (src : ℕ) where
  abbrev n : ℕ
  n = net.links.n

  abbrev GoodWidest : ℕ → List ℕ → Search → Type 0
  GoodWidest = Good widest_labels (link_of net) src n

  abbrev work : Search → ℕ
  work s = ranks s.label + length s.to_visit

  module _ (u a v w : ℕ) (ns : List ℕ) (s : Search) (g : GoodWidest u (v ∷ ns) s)
      (lu : entry s.label u ≡ some a) (k : link_of net u v ≡ some w) (b : v < n) where
    width_bound : a ≤ u32_max
    unfolding widest_labels wider
    width_bound = ltb→ge _ _ (Walk-worse-best widest_labels (link_of net) src (g.inv.sound u a lu))

    abbrev Outcome : Option Search → Type 0
    Outcome o =
        (t : Search) × (o ≡ some t)
        × Relaxed widest_labels s u v (min a w) t
        × Unit {0}
        × (work t ≤ work s)

    taken :
        (seen : Option ℕ)
        → get_elem? s.label v ≡ some seen
        → ((x : ℕ) → seen ≡ some x → wider (min a w) x ≡ true)
        → Outcome (improve s v u (min a w))
    unfolding improved push widest_labels rank wider
    taken seen es wins =
        let change = ranks-set s.label v seen (some (min a w)) es in
        (
          improved s v u (min a w),
          improve-improved s v u (min a w) (rw g.inv.label_size b) (rw g.inv.parents_size b),
          took (λ x e. wins x (cc)) refl,
          tt,
          omega (arith, change, rank_drop seen (min a w) (omega (arith, width_bound)) wins),
        )

    seen_cases :
        (seen : Option ℕ) → get_elem? s.label v ≡ some seen → Outcome (relax_widest net u v s)
    unfolding relax_widest widest_labels wider
    seen_cases none es =
        let (l, cell, bw, _, _, _) = link_of-some net u v w k in
        rw (cell, es, entry-some s.label u a lu, bw) (taken none es (λ x e. cc))
    seen_cases (some x) es =
        let (l, cell, bw, _, _, _) = link_of-some net u v w k in
        elim (Bool-cases (ltb x (min a w))) [
          | inl rises ↦
              let top : max x (min a w) ≡ min a w = ground arith in
              rw (cell, es, entry-some s.label u a lu, bw, top, rises)
                (taken (some x) es (λ y e. ground arith))
          | inr low ↦
              let top : max x (min a w) ≡ x = ground arith in
              let level : ltb x x ≡ false = ground arith in
              rw (cell, es, entry-some s.label u a lu, bw, top, level)
                (s, refl, kept x (entry_of s.label v es) low refl, tt, omega arith)
        ]

  relax_widest_lem :
      (u a : ℕ) (ns : List ℕ) (s : Search)
      → ((v : ℕ) → In v ns → (w : ℕ) × (link_of net u v ≡ some w) × (v < n))
      → GoodWidest u ns s
      → entry s.label u ≡ some a
      → (t : Search) × (relax_all (relax_widest net u) ns s ≡ some t)
        × GoodWidest u [] t
        × (work t ≤ work s)
  unfolding widest_labels
  relax_widest_lem u a ns s linked g lu =
      let (t, e, good, _, m) =
        relax_all_lem widest_labels (link_of net) src n (relax_widest net u) u a (λ _. Unit {0})
          work
          (λ v w ms r good l k b _.
            let (seen, es) = get_elem?-lt r.label v (rw good.inv.label_size b) in
            seen_cases u a v w ms r good l k b seen es)
          ns s linked g lu tt in
      (t, e, good, m)

  -- The loop ends with an empty queue.
  widest_loop_lem :
      (fuel c : ℕ) (s : Search)
      → GoodWidest c [] s
      → work s < fuel
      → (r : Paths) × (widest_loop net fuel s ≡ some r)
        × Solves widest_labels (link_of net) src n r.0 r.1
  unfolding widest_loop
  widest_loop_lem zero c s g h = absurd (omega arith)
  widest_loop_lem (suc fuel) c s g h = elim (Option-cases (pop s.to_visit)) [
    | inl empty ↦ (
      (s.label, s.parents),
      rw (empty, widest_loop),
      Good-Solves widest_labels (link_of net) src n s g (pop-none s.to_visit empty),
    )
    | inr ((p, rest), popped) ↦
        let (a, ea, _) = g.inv.queued p (pop-head s.to_visit p rest popped) in
        let cell = entry-some s.label p.node a ea in
        let shorter = pop-length s.to_visit p rest popped in
        elim (Bool-cases (ltb p.val a)) [
          | inl stale ↦
              let (r, e, solves) =
                widest_loop_lem fuel c (record s { to_visit = rest })
                  (Good-skip widest_labels (link_of net) src n s p rest popped c g
                    (λ same. ground arith))
                  (omega arith) in
              (r, rw (popped, cell, stale, widest_loop) e, solves)
          | inr current ↦
              let inside : p.node < n =
                rw g.inv.label_size at (lt-length_of_get s.label p.node _ cell) in
              let (ns, en, linked, all) = neighbours_lem net p.node valid inside in
              let (t, et, good, m) =
                relax_widest_lem p.node a ns (record s { to_visit = rest }) linked
                  (Good-visit widest_labels (link_of net) src n s p rest popped c ns g all) ea in
              let (r, e, solves) = widest_loop_lem fuel p.node t good (omega arith) in
              (r, rw (popped, cell, current, en, et, widest_loop) e, solves)
        ]
  ]

  ranks-start : (k : ℕ) → ranks (replicate k none) ≡ k * (u32_max + 1)
  unfolding ranks rank
  ranks-start zero = omega arith
  ranks-start (suc k) = omega (arith, ranks-start k)

  work-started : src < n → work (started n src u32_max) < widest_fuel n
  unfolding widest_fuel started push rank
  work-started h = omega (
    arith,
    ranks-set (replicate n none) src none (some u32_max) (get_elem?-replicate n none src h),
    ranks-start n,
  )

  -- From a node of a valid network, the search ends without a panic. The label of a node is then
  -- the greatest width of the walks to it, and the parents lead back along such a walk.
  pub widest_path_lem :
      src < n
      → (label : List (Option ℕ)) × (parents : List (Option ℕ)) × (widest_path net src
          ≡ some (label, parents))
        × Solves widest_labels (link_of net) src n label parents
  unfolding widest_path widest_labels size widest_fuel
  widest_path_lem h =
      let begun = Good-started widest_labels (link_of net) src n h in
      let total : work (started n src u32_max) < widest_fuel n = work-started h in
      let ((label, parents), e, solves) = widest_loop_lem (widest_fuel n) src _ begun total in
      (label, parents, rw (start-started n src u32_max h) e, solves)
