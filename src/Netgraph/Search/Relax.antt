-- ===== src/Netgraph/Search/Relax.antt =====
-- The labels of a search: each is that of a walk, and the visited nodes have passed theirs on.
use kollaps.Prelude.{
  ℕ, ◌<◌, ◌≡◌, ◌≢◌, ◌⊎◌, inl, inr, true, false, Option, some, List, ◌∷◌, arith, length, set,
  length-set, get_elem?-set_self, get_elem?-set_ne, ◌==◌, ==_refl, ne→==, ==→≡, ap, ◌∙◌, ==→≢,
  if◌then◌else◌, Bool-cases, lt→ltb,
}
use kollaps.Netgraph.Heap.{Pair, push, Contains}
use kollaps.Netgraph.Search.{Search, improve}
use kollaps.Netgraph.Search.Labels.{Labels, Links, Walk, In, entry, Walk-worse-best}

unfoldable pub improved : Search → ℕ → ℕ → ℕ → Search
improved s n parent x = record {
  label = set s.label n (some x);
  parents = set s.parents n (some parent);
  to_visit = push (record { node = n; val = x }) s.to_visit;
}

pub entry-set :
    (xs : List (Option ℕ)) (i x j : ℕ)
    → i < length xs
    → entry (set xs i (some x)) j ≡ (if i == j then some x else entry xs j)
entry-set xs i x j h = elim (Bool-cases (i == j)) [
  | inl e ↦ let same : i ≡ j = ==→≡ i j e in rw (e, ← same, get_elem?-set_self xs i (some x) h)
  | inr e ↦ rw (e, get_elem?-set_ne xs i j (some x) (==→≢ i j e))
]

pub improve-improved :
    (s : Search) (n parent x : ℕ)
    → n < length s.label
    → n < length s.parents
    → improve s n parent x ≡ some (improved s n parent x)
unfolding improve improved
improve-improved s n parent x a b = rw (lt→ltb _ _ a, lt→ltb _ _ b)

-- What one round of the inner loop does: the label of `v` is as good as the one through `u`, or
-- it becomes that one.
pub data Relaxed (labels : Labels) (s : Search) (u v cand : ℕ) (t : Search) : Type 0 where
  kept :
      (b : ℕ)
      → entry s.label v ≡ some b
      → labels.better cand b ≡ false
      → t ≡ s
      → Relaxed labels s u v cand t
  took :
      ((b : ℕ) → entry s.label v ≡ some b → labels.better cand b ≡ true)
      → t ≡ improved s v u cand
      → Relaxed labels s u v cand t

module _ (labels : Labels) (link : Links) (src n : ℕ) where
  open labels use {best, extend, better, better_irrefl, better_asym, worse_trans}

  abbrev pub Covered : Search → ℕ → ℕ → Type 0
  Covered s v x = (b : ℕ) × (entry s.label v ≡ some b) × (better x b ≡ false)

  -- While node `c` is expanded, the nodes `ns` are still to be relaxed.
  pub record Inv (c : ℕ) (ns : List ℕ) (s : Search) : Type 0 where
    pub label_size : length s.label ≡ n
    pub parents_size : length s.parents ≡ n
    pub source : entry s.label src ≡ some best
    -- the label of a queued node is no worse than when the node was queued
    pub queued : (p : Pair) → Contains p s.to_visit → Covered s p.node p.val
    pub sound : (v a : ℕ) → entry s.label v ≡ some a → Walk labels link src v a
    pub closed :
        (u a v w : ℕ)
        → entry s.label u ≡ some a
        → link u v ≡ some w
        → Contains (record { node = u; val = a }) s.to_visit
          ⊎ ((u ≡ c) × In v ns)
          ⊎ Covered s v (extend a w)

  module _ {c v a w : ℕ} {ns : List ℕ} {s : Search} (i : Inv c (v ∷ ns) s)
      (labelled : entry s.label c ≡ some a) (linked : link c v ≡ some w) where
    pub Inv-kept : (b : ℕ) → entry s.label v ≡ some b → better (extend a w) b ≡ false → Inv c ns s
    Inv-kept b e worse = record {
      label_size = i.label_size;
      parents_size = i.parents_size;
      source = i.source;
      queued = i.queued;
      sound = i.sound;
      closed = λ u x y z lu lk. elim (i.closed u x y z lu lk) [
        | inl waiting ↦ inl waiting
        | inr (inl (uc, inl yv)) ↦ inr (inr (b, cc, cc))
        | inr (inl (uc, inr later)) ↦ inr (inl (uc, later))
        | inr (inr covered) ↦ inr (inr covered)
      ];
    }

    module _ (bound : v < n)
        (wins : (b : ℕ) → entry s.label v ≡ some b → better (extend a w) b ≡ true) where
      abbrev after : Search
      after = improved s v c (extend a w)

      entry-after :
          (j : ℕ) → entry after.label j ≡ (if v == j then some (extend a w) else entry s.label j)
      unfolding improved
      entry-after j = entry-set s.label v (extend a w) j (rw i.label_size bound)

      entry_self : entry after.label v ≡ some (extend a w)
      entry_self = entry-after v ∙ rw (==_refl v)

      entry-other : (j : ℕ) → (v == j) ≡ false → entry after.label j ≡ entry s.label j
      entry-other j e = entry-after j ∙ rw e

      walk : Walk labels link src v (extend a w)
      walk = Walk.step (i.sound c a labelled) linked

      pub not-source : v ≢ src
      not-source e =
          let won = wins best (rw e i.source) in
          let lost = Walk-worse-best labels link src walk in cc

      entry-cases :
          (y x : ℕ)
          → entry after.label y ≡ some x
          → (y ≡ v) × (x ≡ extend a w) ⊎ ((v == y) ≡ false) × (entry s.label y ≡ some x)
      entry-cases y x e = ground (arith, entry-after y)

      Covered-after : (y x : ℕ) → Covered s y x → Covered after y x
      Covered-after y x (b, e, worse) = elim (Bool-cases (v == y)) [
        | inl same ↦
            let vy : v ≡ y = ==→≡ v y same in
            (
              extend a w,
              rw (← vy) entry_self,
              worse_trans x b (extend a w) worse (better_asym (extend a w) b (wins b (rw vy e))),
            )
        | inr other ↦ (b, entry-other y other ∙ e, worse)
      ]

      closed-after :
          (u x y z : ℕ)
          → entry s.label u ≡ some x
          → link u y ≡ some z
          → Contains (record { node = u; val = x }) after.to_visit
            ⊎ ((u ≡ c) × In y ns)
            ⊎ Covered after y (extend x z)
      unfolding improved push
      closed-after u x y z lu lk = elim (i.closed u x y z lu lk) [
        | inl waiting ↦ inl (inr waiting)
        | inr (inl (uc, inl yv)) ↦
            let same : extend x z ≡ extend a w = cc in
            inr (inr (extend a w, rw yv entry_self, rw same (better_irrefl (extend a w))))
        | inr (inl (uc, inr later)) ↦ inr (inl (uc, later))
        | inr (inr covered) ↦ inr (inr (Covered-after y (extend x z) covered))
      ]

      pub Inv-improved : Inv c ns after
      unfolding improved push
      Inv-improved = record {
        label_size = length-set s.label v _ ∙ i.label_size;
        parents_size = length-set s.parents v _ ∙ i.parents_size;
        source = entry-other src (ne→== v src not-source) ∙ i.source;
        queued = λ p. elim [
          | inl e ↦ (
            extend a w,
            rw (ap (λ (q : Pair). q.node) e) entry_self,
            rw (ap (λ (q : Pair). q.val) e) (better_irrefl (extend a w)),
          )
          | inr old ↦ Covered-after p.node p.val (i.queued p old)
        ];
        sound = λ y x e. elim (entry-cases y x e) [
          | inl (yv, xc) ↦ rw (yv, xc) walk
          | inr (_, old) ↦ i.sound y x old
        ];
        closed = λ u x y z lu lk. elim (entry-cases u x lu) [
          | inl (uv, xc) ↦ inl (inl (λ j. record { node = uv j; val = xc j }))
          | inr (_, old) ↦ closed-after u x y z old lk
        ];
      }
