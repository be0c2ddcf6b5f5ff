-- ===== src/Netgraph/Search/Tree.antt =====
-- The parents of a search: a tree of links with its root at the source. A node can get a new
-- parent many times, so that no cycle arises is a fact about the labels.
use kollaps.Prelude.{
  ℕ, ◌<◌, ◌≡◌, sym, ◌∙◌, ◌⊎◌, inl, inr, true, false, Option, none, some, List, ◌∷◌, arith, length,
  set, ◌==◌, ==_refl, ne→==, ==→≡, if◌then◌else◌, Bool-cases,
}
use kollaps.Netgraph.Search.{Search}
use kollaps.Netgraph.Search.Labels.{Labels, Links, entry, Chain, root, up, Above, self, over}
use kollaps.Netgraph.Search.Relax.{improved, entry-set, Inv, not-source}

-- Giving `v` another parent leaves the chain of `x` alone, unless `v` stands on it.
Chain-set :
    (parents : List (Option ℕ)) (src v c : ℕ)
    → v < length parents
    → {x : ℕ} → Chain parents src x
    → Above parents v x ⊎ Chain (set parents v (some c)) src x
Chain-set parents src v c b root = inr root
Chain-set parents src v c b (up {v = x} {p} e rest) = elim (Bool-cases (v == x)) [
  | inl same ↦ inl (rw (==→≡ v x same) self)
  | inr other ↦ elim (Chain-set parents src v c b rest) [
    | inl above ↦ inl (over e above)
    | inr chain ↦ inr (up (entry-set parents v c x b ∙ rw other e) chain)
  ]
]

-- Once `v` has a chain again, so has every node whose chain led through it.
Chain-through :
    (parents : List (Option ℕ)) (src v c : ℕ)
    → v < length parents
    → Chain (set parents v (some c)) src v
    → {x : ℕ} → Chain parents src x
    → Chain (set parents v (some c)) src x
Chain-through parents src v c b chain root = root
Chain-through parents src v c b chain (up {v = x} e rest) = elim (Bool-cases (v == x)) [
  | inl same ↦ rw (← ==→≡ v x same) chain
  | inr other ↦
      up (entry-set parents v c x b ∙ rw other e) (Chain-through parents src v c b chain rest)
]

module _ (labels : Labels) (link : Links) (src n : ℕ) where
  open labels use {
    best, extend, better, better_irrefl, better_asym, worse_trans, extend_worse, extend_mono,
  }

  -- A node, its parent and the link between them; the node is labelled no better than that path.
  pub record Child (s : Search) (v p : ℕ) : Type 0 where
    pub label : ℕ
    pub parent_label : ℕ
    pub bw : ℕ
    pub labelled : entry s.label v ≡ some label
    pub parent_labelled : entry s.label p ≡ some parent_label
    pub linked : link p v ≡ some bw
    pub worse : better label (extend parent_label bw) ≡ false

  pub record Tree (s : Search) : Type 0 where
    pub top : entry s.parents src ≡ none
    pub child : (v p : ℕ) → entry s.parents v ≡ some p → Child s v p
    pub chain : (v a : ℕ) → entry s.label v ≡ some a → Chain s.parents src v

  -- An ancestor is labelled at least as well.
  Above-label :
      (s : Search)
      → Tree s
      → {p x : ℕ} {a : ℕ} → Above s.parents p x
      → entry s.label x ≡ some a
      → (b : ℕ) × (entry s.label p ≡ some b) × (better a b ≡ false)
  Above-label s t {a = a} self e = (a, e, better_irrefl a)
  Above-label s t {a = a} (over {v = x} {q} e rest) l =
      let c = t.child x q e in
      let (b, eb, worse) = Above-label s t rest c.parent_labelled in
      let same : c.label ≡ a = cc (c.labelled) in
      let first =
        worse_trans c.label (extend c.parent_label c.bw) c.parent_label c.worse
          (extend_worse c.parent_label c.bw) in
      (b, eb, worse_trans a c.parent_label b (rw (← same) first) worse)

  module _ {c v a w : ℕ} {ns : List ℕ} {s : Search} (i : Inv labels link src n c (v ∷ ns) s)
      (t : Tree s) (labelled : entry s.label c ≡ some a) (linked : link c v ≡ some w)
      (bound : v < n)
      (wins : (b : ℕ) → entry s.label v ≡ some b → better (extend a w) b ≡ true) where
    abbrev after : Search
    after = improved s v c (extend a w)

    label-after :
        (j : ℕ) → entry after.label j ≡ (if v == j then some (extend a w) else entry s.label j)
    unfolding improved
    label-after j = entry-set s.label v (extend a w) j (rw i.label_size bound)

    label_self : entry after.label v ≡ some (extend a w)
    label_self = label-after v ∙ rw (==_refl v)

    parent-after : (j : ℕ) → entry after.parents j ≡ (if v == j then some c else entry s.parents j)
    unfolding improved
    parent-after j = entry-set s.parents v c j (rw i.parents_size bound)

    parent-lt : v < length s.parents
    parent-lt = rw i.parents_size bound

    distinct : (v == c) ≡ false
    distinct =
        ne→== v c (λ e. let won = wins a (rw e labelled) in let lost = extend_worse a w in cc)

    label-other : (j : ℕ) → (v == j) ≡ false → entry after.label j ≡ entry s.label j
    label-other j e = label-after j ∙ rw e

    -- The node that is expanded keeps its label.
    pub label-keeps : entry after.label c ≡ some a
    label-keeps = label-other c distinct ∙ labelled

    parent-cases :
        (x p : ℕ)
        → entry after.parents x ≡ some p
        → (x ≡ v) × (p ≡ c) ⊎ ((v == x) ≡ false) × (entry s.parents x ≡ some p)
    parent-cases x p e = ground (arith, parent-after x)

    Child-new : Child after v c
    Child-new = record {
      label = extend a w;
      parent_label = a;
      bw = w;
      labelled = label_self;
      parent_labelled = label-keeps;
      linked = linked;
      worse = better_irrefl (extend a w);
    }

    Child-old : (x p : ℕ) → (v == x) ≡ false → Child s x p → Child after x p
    Child-old x p other k = elim (Bool-cases (v == p)) [
      | inl same ↦
          let vp : v ≡ p = ==→≡ v p same in
          let won = better_asym (extend a w) k.parent_label (wins _ (rw vp k.parent_labelled)) in
          record {
            label = k.label;
            parent_label = extend a w;
            bw = k.bw;
            labelled = label-other x other ∙ k.labelled;
            parent_labelled = rw (← vp) label_self;
            linked = k.linked;
            worse =
                worse_trans k.label (extend k.parent_label k.bw) (extend (extend a w) k.bw) k.worse
                  (extend_mono k.parent_label (extend a w) k.bw won);
          }
      | inr off ↦ record {
        label = k.label;
        parent_label = k.parent_label;
        bw = k.bw;
        labelled = label-other x other ∙ k.labelled;
        parent_labelled = label-other p off ∙ k.parent_labelled;
        linked = k.linked;
        worse = k.worse;
      }
    ]

    -- The new parent does not hang below `v`, since it would then be labelled no better.
    Chain-new : Chain after.parents src v
    unfolding improved
    Chain-new = elim (Chain-set s.parents src v c parent-lt (t.chain c a labelled)) [
      | inl above ↦
          let (b, e, worse) = Above-label s t above labelled in
          let won = wins b e in
          let lost = worse_trans (extend a w) a b (extend_worse a w) worse in cc
      | inr chain ↦ up (parent-after v ∙ rw (==_refl v)) chain
    ]

    pub Tree-improved : Tree after
    unfolding improved
    Tree-improved = record {
      top =
          parent-after src
          ∙ rw (ne→== v src (not-source labels link src n i labelled linked bound wins)) t.top;
      child = λ x p e. elim (parent-cases x p e) [
        | inl (xv, pc) ↦ rw (xv, pc) Child-new
        | inr (other, old) ↦ Child-old x p other (t.child x p old)
      ];
      chain = λ x b e. elim (Bool-cases (v == x)) [
        | inl same ↦ rw (← ==→≡ v x same) Chain-new
        | inr other ↦
            Chain-through s.parents src v c parent-lt Chain-new
              (t.chain x b (sym (label-other x other) ∙ e))
      ];
    }
