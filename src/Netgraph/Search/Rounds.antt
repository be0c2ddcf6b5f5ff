-- ===== src/Netgraph/Search/Rounds.antt =====
-- The rounds of a search, for any labels: the start, the inner loop, a visit, and the end.
use kollaps.Prelude.{
  ℕ, ◌<◌, ◌≡◌, ◌≢◌, ap, ◌∙◌, inl, inr, false, Option, none, some, List, [], ◌∷◌, length,
}
use kollaps.Netgraph.Heap.{Pair, pop, Contains, pop-Contains}
use kollaps.Netgraph.Search.{Search}
use kollaps.Netgraph.Search.Labels.{Labels, Links, Walk, In, entry, Chain}
use kollaps.Netgraph.Search.Relax.{Inv, Relaxed, kept, took, Inv-kept, Inv-improved}
use kollaps.Netgraph.Search.Tree.{Tree, Tree-improved}

module _ (labels : Labels) (link : Links) (src n : ℕ) where
  open labels use {best, extend, better, better_irrefl, worse_trans, worse_antisym, extend_mono}

  pub record Good (c : ℕ) (ns : List ℕ) (s : Search) : Type 0 where
    pub inv : Inv labels link src n c ns s
    pub tree : Tree labels link src n s

  -- One relaxation, whatever its outcome.
  pub Good-Relaxed :
      {c v a w : ℕ} {ns : List ℕ} {s t : Search}
      → Good c (v ∷ ns) s
      → entry s.label c ≡ some a
      → link c v ≡ some w
      → v < n
      → Relaxed labels s c v (extend a w) t
      → Good c ns t
  Good-Relaxed g l k b (kept old e worse same) =
      rw same (record { inv = Inv-kept labels link src n g.inv l k old e worse; tree = g.tree })
  Good-Relaxed g l k b (took wins same) = rw same (record {
    inv = Inv-improved labels link src n g.inv l k b wins;
    tree = Tree-improved labels link src n g.inv g.tree l k b wins;
  })

  -- The queue is no part of the tree.
  Tree-to_visit :
      (s : Search) (heap : List Pair)
      → Tree labels link src n s
      → Tree labels link src n (record s { to_visit = heap })
  Tree-to_visit s heap t = record {
    top = t.top;
    child = λ x p e.
        let k = t.child x p e in
        record {
          label = k.label;
          parent_label = k.parent_label;
          bw = k.bw;
          labelled = k.labelled;
          parent_labelled = k.parent_labelled;
          linked = k.linked;
          worse = k.worse;
        };
    chain = t.chain;
  }

  module _ (s : Search) (p : Pair) (rest : List Pair)
      (popped : pop s.to_visit ≡ some (p, rest)) where
    still_queued : (q : Pair) → Contains q rest → Contains q s.to_visit
    still_queued q h = (pop-Contains s.to_visit p rest popped q).1 (inr h)

    -- A stale entry of the queue can be dropped.
    pub Good-skip :
        (c : ℕ)
        → Good c [] s
        → entry s.label p.node ≢ some p.val
        → Good c [] (record s { to_visit = rest })
    Good-skip c g stale = record {
      inv = record {
        label_size = g.inv.label_size;
        parents_size = g.inv.parents_size;
        source = g.inv.source;
        queued = λ q h. g.inv.queued q (still_queued q h);
        sound = g.inv.sound;
        closed = λ u a v w lu lk. elim (g.inv.closed u a v w lu lk) [
          | inl waiting ↦ elim ((pop-Contains s.to_visit p rest popped _).0 waiting) [
            | inl e ↦ absurd (stale (rw (← e) lu))
            | inr later ↦ inl later
          ]
          | inr settled ↦ inr settled
        ];
      };
      tree = Tree-to_visit s rest g.tree;
    }

    -- Taking up a node leaves all its links to be relaxed.
    pub Good-visit :
        (c : ℕ) (ns : List ℕ)
        → Good c [] s
        → ((v w : ℕ) → link p.node v ≡ some w → In v ns)
        → Good p.node ns (record s { to_visit = rest })
    Good-visit c ns g all = record {
      inv = record {
        label_size = g.inv.label_size;
        parents_size = g.inv.parents_size;
        source = g.inv.source;
        queued = λ q h. g.inv.queued q (still_queued q h);
        sound = g.inv.sound;
        closed = λ u a v w lu lk. elim (g.inv.closed u a v w lu lk) [
          | inl waiting ↦ elim ((pop-Contains s.to_visit p rest popped _).0 waiting) [
            | inl e ↦
                let at : u ≡ p.node = ap (λ (q : Pair). q.node) e in
                inr (inl (at, all v w (rw at at lk)))
            | inr later ↦ inl later
          ]
          | inr (inl (_, nowhere)) ↦ absurd nowhere
          | inr (inr covered) ↦ inr (inr covered)
        ];
      };
      tree = Tree-to_visit s rest g.tree;
    }

  -- What a search returns: the label of each node that has a walk from `src` is the best of all
  -- its walks, and the parents lead back to `src` along links that account for the labels.
  pub record Solves (label parents : List (Option ℕ)) : Type 0 where
    pub label_size : length label ≡ n
    pub parents_size : length parents ≡ n
    pub sound : (v a : ℕ) → entry label v ≡ some a → Walk labels link src v a
    pub complete :
        (v b : ℕ)
        → Walk labels link src v b
        → (a : ℕ) × (entry label v ≡ some a) × (better b a ≡ false)
    pub top : entry parents src ≡ none
    pub hangs :
        (v p : ℕ)
        → entry parents v ≡ some p
        → (b : ℕ) × (w : ℕ) × (entry label p ≡ some b)
          × (link p v ≡ some w)
          × (entry label v ≡ some (extend b w))
    pub chain : (v a : ℕ) → entry label v ≡ some a → Chain parents src v

  module _ {c : ℕ} (s : Search) (g : Good c [] s) (done : s.to_visit ≡ []) where
    covered_all :
        (u a v w : ℕ)
        → entry s.label u ≡ some a
        → link u v ≡ some w
        → (b : ℕ) × (entry s.label v ≡ some b) × (better (extend a w) b ≡ false)
    covered_all u a v w lu lk = elim (g.inv.closed u a v w lu lk) [
      | inl waiting ↦ absurd (rw done at waiting)
      | inr (inl (_, nowhere)) ↦ absurd nowhere
      | inr (inr covered) ↦ covered
    ]

    complete_all :
        {v b : ℕ}
        → Walk labels link src v b
        → (a : ℕ) × (entry s.label v ≡ some a) × (better b a ≡ false)
    complete_all Walk.here = (best, g.inv.source, better_irrefl best)
    complete_all (Walk.step {u} {v} {a} {w} p lk) =
        let (a', e, worse) = complete_all p in
        let (b, eb, far) = covered_all u a' v w e lk in
        (b, eb, worse_trans (extend a w) (extend a' w) b (extend_mono a a' w worse) far)

    pub Good-Solves : Solves s.label s.parents
    Good-Solves = record {
      label_size = g.inv.label_size;
      parents_size = g.inv.parents_size;
      sound = g.inv.sound;
      complete = λ v b w. complete_all w;
      top = g.tree.top;
      hangs = λ v p e.
          let k = g.tree.child v p e in
          let (b, eb, far) = covered_all p k.parent_label v k.bw k.parent_labelled k.linked in
          let same : k.label ≡ b = cc (k.labelled, eb) in
          let exact : k.label ≡ extend k.parent_label k.bw =
            worse_antisym _ _ k.worse (rw same far) in
          (k.parent_label, k.bw, k.parent_labelled, k.linked, k.labelled ∙ ap some exact);
      chain = g.tree.chain;
    }
