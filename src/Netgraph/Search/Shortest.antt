-- ===== src/Netgraph/Search/Shortest.antt =====
-- netgraph/src/lib.rs, `shortest_path`: it ends without a panic, and finds the fewest hops.
--
-- The source adds 1 to a `u32`; the model adds it in ℕ.
use kollaps.Prelude.{
  ℕ, zero, suc, ◌+◌, ◌≤◌, ◌<◌, ◌≡◌, refl, inl, inr, Bool, true, false, Option, none, some, List, [],
  ◌∷◌, arith, ltb, length, set, get_elem?, get_elem?-lt, lt-length_of_get, get_elem?-replicate,
  Bool-cases, Option-cases, replicate, ap,
}
use kollaps.Matrix.{size}
use kollaps.Matrix.Access.{IsValid}
use kollaps.Netgraph.Heap.{
  Pair, push, pop, Contains, pop-none, pop-length, pop-head, pop-least, pop-Contains,
}
use kollaps.Netgraph.Network.{Network}
use kollaps.Netgraph.Search.{Search, Paths, relax_shortest, relax_all, shortest_loop, shortest_path}
use kollaps.Netgraph.Search.Labels.{Labels, In, entry, entry-some, entry_of}
use kollaps.Netgraph.Search.Relax.{improved, improve-improved, entry-set, Relaxed, kept, took}
use kollaps.Netgraph.Search.Rounds.{Good, Good-skip, Good-visit, Solves, Good-Solves}
use kollaps.Netgraph.Search.Begin.{
  started, start-started, entry-started, Good-started, relax_all_lem,
}
use kollaps.Netgraph.Search.Adjacency.{link_of, neighbours_lem}

-- A path is as long as its number of links.
unfoldable pub shorter : ℕ → ℕ → Bool
shorter a b = ltb a b

unfoldable pub hop : ℕ → ℕ → ℕ
hop a w = a + 1

pub shorter_irrefl : (a : ℕ) → shorter a a ≡ false
unfolding shorter
shorter_irrefl a = ground arith

pub shorter_asym : (a b : ℕ) → shorter a b ≡ true → shorter b a ≡ false
unfolding shorter
shorter_asym a b h = ground arith

pub shorter_trans : (a b c : ℕ) → shorter a b ≡ false → shorter b c ≡ false → shorter a c ≡ false
unfolding shorter
shorter_trans a b c h k = ground arith

pub shorter_antisym : (a b : ℕ) → shorter a b ≡ false → shorter b a ≡ false → a ≡ b
unfolding shorter
shorter_antisym a b h k = ground arith

pub hop_mono : (a b w : ℕ) → shorter a b ≡ false → shorter (hop a w) (hop b w) ≡ false
unfolding shorter hop
hop_mono a b w h = ground arith

pub hop_worse : (a w : ℕ) → shorter (hop a w) a ≡ false
unfolding shorter hop
hop_worse a w = ground arith

unfoldable pub shortest_labels : Labels
shortest_labels = record {
  best = 0;
  extend = hop;
  better = shorter;
  better_irrefl = shorter_irrefl;
  better_asym = shorter_asym;
  worse_trans = shorter_trans;
  worse_antisym = shorter_antisym;
  extend_mono = hop_mono;
  extend_worse = hop_worse;
}

settled : (a x : ℕ) → ltb a x ≡ false → shortest_labels.better x a ≡ false → a ≡ x
unfolding shortest_labels shorter
settled a x h k = ground arith

-- The nodes that have no label yet.
pub unseen : List (Option ℕ) → ℕ
unseen [] = 0
unseen (none ∷ xs) = suc (unseen xs)
unseen (some _ ∷ xs) = unseen xs

unseen-set :
    (xs : List (Option ℕ)) (i x : ℕ)
    → get_elem? xs i ≡ some none
    → suc (unseen (set xs i (some x))) ≡ unseen xs
unfolding unseen
unseen-set [] i x e = cc
unseen-set (none ∷ xs) zero x e = refl
unseen-set (some y ∷ xs) zero x e = cc
unseen-set (none ∷ xs) (suc i) x e = ap suc (unseen-set xs i x e)
unseen-set (some y ∷ xs) (suc i) x e = unseen-set xs i x e

unseen-replicate : (k : ℕ) → unseen (replicate k none) ≡ k
unfolding unseen
unseen-replicate zero = refl
unseen-replicate (suc k) = ap suc (unseen-replicate k)

-- The queue takes the nodes level by level: all that is queued has `m` hops, or one more.
record Level (m : ℕ) (s : Search) : Type 0 where
  queue : (p : Pair) → Contains p s.to_visit → (m ≤ p.val) × (p.val ≤ m + 1)
  labelled : (v b : ℕ) → entry s.label v ≡ some b → b ≤ m + 1

Level-pop :
    (m : ℕ) (s : Search) (p : Pair) (rest : List Pair)
    → pop s.to_visit ≡ some (p, rest)
    → Level m s
    → Level p.val (record s { to_visit = rest })
Level-pop m s p rest popped l =
    let (lo, hi) = l.queue p (pop-head s.to_visit p rest popped) in
    record {
      queue = λ q h.
          let old = (pop-Contains s.to_visit p rest popped q).1 (inr h) in
          (pop-least s.to_visit p rest popped q old, omega (arith, (l.queue q old).1));
      labelled = λ v b e. omega (arith, l.labelled v b e);
    }

module _ {T F : Type 0} (net : Network T F) (valid : IsValid net.links) (src : ℕ) where
  abbrev n : ℕ
  n = net.links.n

  abbrev GoodShortest : ℕ → List ℕ → Search → Type 0
  GoodShortest = Good shortest_labels (link_of net) src n

  abbrev work : Search → ℕ
  work s = unseen s.label + length s.to_visit

  module _ (u m v w : ℕ) (ns : List ℕ) (s : Search) (g : GoodShortest u (v ∷ ns) s)
      (lu : entry s.label u ≡ some m) (b : v < n) (level : Level m s) where
    Level-improved : Level m (improved s v u (m + 1))
    unfolding improved push
    Level-improved = record {
      queue = λ p. elim [
        | inl e ↦ let at : p.val ≡ m + 1 = ap (λ (q : Pair). q.val) e in omega arith
        | inr old ↦ level.queue p old
      ];
      labelled = λ x y e.
          ground (arith, entry-set s.label v (m + 1) x (rw g.inv.label_size b), level.labelled x y);
    }

    work-improved : get_elem? s.label v ≡ some none → work (improved s v u (m + 1)) ≤ work s
    unfolding improved push
    work-improved es = omega (arith, unseen-set s.label v (m + 1) es)

    abbrev Outcome : Option Search → Type 0
    Outcome o =
        (t : Search) × (o ≡ some t)
        × Relaxed shortest_labels s u v (hop m w) t
        × Level m t
        × (work t ≤ work s)

    seen_cases :
        (seen : Option ℕ) → get_elem? s.label v ≡ some seen → Outcome (relax_shortest u v s)
    unfolding relax_shortest shortest_labels shorter hop
    seen_cases none es =
        rw (es, entry-some s.label u m lu)
          (
            improved s v u (m + 1),
            improve-improved s v u (m + 1) (rw g.inv.label_size b) (rw g.inv.parents_size b),
            took (λ x e. cc) refl,
            Level-improved,
            work-improved es,
          )
    seen_cases (some x) es =
        let bound = level.labelled v x (entry_of s.label v es) in
        let later : ltb (m + 1) x ≡ false = ground arith in
        rw (es, entry-some s.label u m lu, later)
          (s, refl, kept x (entry_of s.label v es) later refl, level, omega arith)

  relax_shortest_lem :
      (u m : ℕ) (ns : List ℕ) (s : Search)
      → ((v : ℕ) → In v ns → (w : ℕ) × (link_of net u v ≡ some w) × (v < n))
      → GoodShortest u ns s
      → entry s.label u ≡ some m
      → Level m s
      → (t : Search) × (relax_all (relax_shortest u) ns s ≡ some t)
        × GoodShortest u [] t
        × Level m t
        × (work t ≤ work s)
  unfolding shortest_labels
  relax_shortest_lem u m ns s linked g lu level =
      relax_all_lem shortest_labels (link_of net) src n (relax_shortest u) u m (Level m) work
        (λ v w ms r good l k b lv.
          let (seen, es) = get_elem?-lt r.label v (rw good.inv.label_size b) in
          seen_cases u m v w ms r good l b lv seen es)
        ns s linked g lu level

  -- The loop ends with an empty queue.
  shortest_loop_lem :
      (fuel c m : ℕ) (s : Search)
      → GoodShortest c [] s
      → Level m s
      → work s < fuel
      → (r : Paths) × (shortest_loop net fuel s ≡ some r)
        × Solves shortest_labels (link_of net) src n r.0 r.1
  unfolding shortest_loop
  shortest_loop_lem zero c m s g l h = absurd (omega arith)
  shortest_loop_lem (suc fuel) c m s g l h = elim (Option-cases (pop s.to_visit)) [
    | inl empty ↦ (
      (s.label, s.parents),
      rw (empty, shortest_loop),
      Good-Solves shortest_labels (link_of net) src n s g (pop-none s.to_visit empty),
    )
    | inr ((p, rest), popped) ↦
        let (a, ea, best) = g.inv.queued p (pop-head s.to_visit p rest popped) in
        let cell = entry-some s.label p.node a ea in
        let shorter = pop-length s.to_visit p rest popped in
        let level = Level-pop m s p rest popped l in
        elim (Bool-cases (ltb a p.val)) [
          | inl stale ↦
              let (r, e, solves) =
                shortest_loop_lem fuel c p.val (record s { to_visit = rest })
                  (Good-skip shortest_labels (link_of net) src n s p rest popped c g
                    (λ same. ground arith))
                  level (omega arith) in
              (r, rw (popped, cell, stale, shortest_loop) e, solves)
          | inr current ↦
              let at : a ≡ p.val = settled a p.val current best in
              let inside : p.node < n =
                rw g.inv.label_size at (lt-length_of_get s.label p.node _ cell) in
              let (ns, en, linked, all) = neighbours_lem net p.node valid inside in
              let (t, et, good, lt, m') =
                relax_shortest_lem p.node p.val ns (record s { to_visit = rest }) linked
                  (Good-visit shortest_labels (link_of net) src n s p rest popped c ns g all)
                  (rw at at ea) level in
              let (r, e, solves) = shortest_loop_lem fuel p.node p.val t good lt (omega arith) in
              (r, rw (popped, cell, current, en, et, shortest_loop) e, solves)
        ]
  ]

  Level-started : src < n → Level 0 (started n src 0)
  unfolding started push
  Level-started h = record {
    queue = λ p. elim [
      | inl e ↦ let at : p.val ≡ 0 = ap (λ (q : Pair). q.val) e in omega arith
      | inr nowhere ↦ absurd nowhere
    ];
    labelled = λ v b e. ground (arith, entry-started n src 0 v h);
  }

  work-started : src < n → work (started n src 0) < n + 2
  unfolding started push
  work-started h = omega (
    arith,
    unseen-set (replicate n none) src 0 (get_elem?-replicate n none src h),
    unseen-replicate n,
  )

  -- From a node of a valid network, the search ends without a panic. The label of a node is then
  -- the least number of links of the walks to it, and the parents lead back along such a walk.
  pub shortest_path_lem :
      src < n
      → (label : List (Option ℕ)) × (parents : List (Option ℕ)) × (shortest_path net src
          ≡ some (label, parents))
        × Solves shortest_labels (link_of net) src n label parents
  unfolding shortest_path shortest_labels size
  shortest_path_lem h =
      let begun = Good-started shortest_labels (link_of net) src n h in
      let ((label, parents), e, solves) =
        shortest_loop_lem (n + 2) src 0 _ begun (Level-started h) (work-started h) in
      (label, parents, rw (start-started n src 0 h) e, solves)
