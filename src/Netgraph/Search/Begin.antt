-- ===== src/Netgraph/Search/Begin.antt =====
-- The start of a search, and its inner loop as a whole.
use kollaps.Prelude.{
  ℕ, zero, suc, ◌≤◌, ◌<◌, ◌≡◌, refl, ◌∙◌, inl, inr, Option, none, some, List, [], ◌∷◌, arith,
  length, set, replicate, ◌==◌, ==_refl, length-replicate, length-set, if◌then◌else◌, lt→ltb, ap,
}
use kollaps.Netgraph.Heap.{Pair, push}
use kollaps.Netgraph.Search.{Search, start, relax_all}
use kollaps.Netgraph.Search.Labels.{Labels, Links, Walk, In, entry, root}
use kollaps.Netgraph.Search.Relax.{entry-set, Relaxed, kept, took}
use kollaps.Netgraph.Search.Tree.{label-keeps}
use kollaps.Netgraph.Search.Rounds.{Good, Good-Relaxed}

unfoldable pub started : ℕ → ℕ → ℕ → Search
started n src x = record {
  label = set (replicate n none) src (some x);
  parents = replicate n none;
  to_visit = push (record { node = src; val = x }) [];
}

pub start-started : (n src x : ℕ) → src < n → start n src x ≡ some (started n src x)
unfolding start started
start-started n src x h =
    let b : src < length (replicate {A = Option ℕ} n none) =
      rw (length-replicate {A = Option ℕ} n none) h in
    rw (lt→ltb _ _ b)

pub entry-replicate : (n j : ℕ) → entry (replicate n none) j ≡ none
entry-replicate zero j = refl
entry-replicate (suc n) zero = refl
entry-replicate (suc n) (suc j) = entry-replicate n j

pub entry-started :
    (n src x j : ℕ)
    → src < n
    → entry (started n src x).label j ≡ (if src == j then some x else none)
unfolding started
entry-started n src x j h =
    entry-set (replicate n none) src x j (rw (length-replicate {A = Option ℕ} n none) h)
    ∙ rw (entry-replicate n j)

module _ (labels : Labels) (link : Links) (src n : ℕ) where
  open labels use {best, extend, better, better_irrefl}

  started-cases :
      (v a : ℕ) → src < n → entry (started n src best).label v ≡ some a → (v ≡ src) × (a ≡ best)
  started-cases v a h e = ground (arith, entry-started n src best v h)

  pub Good-started : src < n → Good labels link src n src [] (started n src best)
  unfolding started push
  Good-started h =
      let source : entry (started n src best).label src ≡ some best =
        entry-started n src best src h ∙ rw (==_refl src) in
      record {
        inv = record {
          label_size = length-set (replicate n none) src (some best) ∙ length-replicate n none;
          parents_size = length-replicate n none;
          source = source;
          queued = λ p. elim [
            | inl e ↦ (
              best,
              rw (ap (λ (q : Pair). q.node) e) source,
              rw (ap (λ (q : Pair). q.val) e) (better_irrefl best),
            )
            | inr nowhere ↦ absurd nowhere
          ];
          sound = λ v a e. let (at, same) = started-cases v a h e in rw (at, same) Walk.here;
          closed = λ u a v w lu lk.
              let (at, same) = started-cases u a h lu in
              inl (inl (λ j. record { node = at j; val = same j }));
        };
        tree = record {
          top = entry-replicate n src;
          child = λ v p e. let no = entry-replicate n v in cc;
          chain = λ v a e. let (at, same) = started-cases v a h e in rw at root;
        };
      }

  -- The inner loop, for a relaxation that keeps a predicate and raises no measure.
  module _ (relax : ℕ → Search → Option Search) (c a : ℕ) (P : Search → Type 0) (work : Search → ℕ)
      (one : (v w : ℕ) (ns : List ℕ) (s : Search)
        → Good labels link src n c (v ∷ ns) s
        → entry s.label c ≡ some a
        → link c v ≡ some w
        → v < n
        → P s
        → (t : Search) × (relax v s ≡ some t)
          × Relaxed labels s c v (extend a w) t
          × P t
          × (work t ≤ work s)) where
    label-Relaxed :
        {v w : ℕ} {ns : List ℕ} {s t : Search}
        → Good labels link src n c (v ∷ ns) s
        → entry s.label c ≡ some a
        → link c v ≡ some w
        → v < n
        → Relaxed labels s c v (extend a w) t
        → entry t.label c ≡ some a
    label-Relaxed g l k b (kept old e worse same) = rw same l
    label-Relaxed g l k b (took wins same) =
        rw same (label-keeps labels link src n g.inv g.tree l k b wins)

    pub relax_all_lem :
        (ns : List ℕ) (s : Search)
        → ((v : ℕ) → In v ns → (w : ℕ) × (link c v ≡ some w) × (v < n))
        → Good labels link src n c ns s
        → entry s.label c ≡ some a
        → P s
        → (t : Search) × (relax_all relax ns s ≡ some t)
          × Good labels link src n c [] t
          × P t
          × (work t ≤ work s)
    unfolding relax_all
    relax_all_lem [] s linked g l p = (s, refl, g, p, omega arith)
    relax_all_lem (v ∷ ns) s linked g l p =
        let (w, k, b) = linked v (inl refl) in
        let (t, e, r, q, m) = one v w ns s g l k b p in
        let (u, e', g', q', m') =
          relax_all_lem ns t (λ x h. linked x (inr h)) (Good-Relaxed labels link src n g l k b r)
            (label-Relaxed g l k b r) q in
        (u, rw e e', g', q', omega arith)
