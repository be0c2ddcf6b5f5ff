-- ===== src/Netgraph/Search/Labels.antt =====
-- The interface of a search: how a path is labelled, and which label is the better one.
--
-- Both strategies correct the label of a node when a better one turns up. What that rests on is
-- here; Search/Widest and Search/Shortest give the two instances.
use kollaps.Prelude.{
  ℕ, ◌≡◌, Bool, true, false, Option, some, List, [], ◌∷◌, get_elem?, ◌>>=◌, ◌⊎◌, arith,
}

pub record Labels : Type 0 where
  -- the label of the empty path
  pub best : ℕ
  -- a path with a label, and a link behind it
  pub extend : ℕ → ℕ → ℕ
  pub better : ℕ → ℕ → Bool
  pub better_irrefl : (a : ℕ) → better a a ≡ false
  pub better_asym : (a b : ℕ) → better a b ≡ true → better b a ≡ false
  pub worse_trans : (a b c : ℕ) → better a b ≡ false → better b c ≡ false → better a c ≡ false
  pub worse_antisym : (a b : ℕ) → better a b ≡ false → better b a ≡ false → a ≡ b
  pub extend_mono : (a b w : ℕ) → better a b ≡ false → better (extend a w) (extend b w) ≡ false
  pub extend_worse : (a w : ℕ) → better (extend a w) a ≡ false

-- The links of a graph: a number, its bandwidth, for each joined pair of nodes.
abbrev pub Links : Type 0
Links = ℕ → ℕ → Option ℕ

-- `Walk v a`: some walk from `src` to `v` has the label `a`.
pub data Walk (labels : Labels) (link : Links) (src : ℕ) : ℕ → ℕ → Type 0 where
  here : Walk labels link src src labels.best
  step :
      {u v a w : ℕ}
      → Walk labels link src u a
      → link u v ≡ some w
      → Walk labels link src v (labels.extend a w)

-- Following the parents of `v` ends at the node `src`.
pub data Chain (parents : List (Option ℕ)) (src : ℕ) : ℕ → Type 0 where
  root : Chain parents src src
  up :
      {v p : ℕ}
      → (get_elem? parents v >>= λ x. x) ≡ some p
      → Chain parents src p
      → Chain parents src v

-- `p` is `v`, or an ancestor of `v`.
pub data Above (parents : List (Option ℕ)) (p : ℕ) : ℕ → Type 0 where
  self : Above parents p p
  over :
      {v q : ℕ} → (get_elem? parents v >>= λ x. x) ≡ some q → Above parents p q → Above parents p v

abbrev pub In : ℕ → List ℕ → Type 0
In v [] = ⊥
In v (n ∷ ns) = (v ≡ n) ⊎ In v ns

-- The entry of a vector of optional numbers, `none` also outside.
abbrev pub entry : List (Option ℕ) → ℕ → Option ℕ
entry xs i = get_elem? xs i >>= λ x. x

pub entry-some :
    (xs : List (Option ℕ)) (i a : ℕ) → entry xs i ≡ some a → get_elem? xs i ≡ some (some a)
entry-some xs i a e = ground arith

pub entry_of :
    (xs : List (Option ℕ)) (i : ℕ) {o : Option ℕ} → get_elem? xs i ≡ some o → entry xs i ≡ o
entry_of xs i e = rw e

module _ (labels : Labels) (link : Links) (src : ℕ) where
  open labels use {best, better, better_irrefl, worse_trans, extend, extend_worse}

  -- No walk is better than the empty one.
  pub Walk-worse-best : {v a : ℕ} → Walk labels link src v a → better a best ≡ false
  Walk-worse-best here = better_irrefl best
  Walk-worse-best (step {a} {w} p e) =
      worse_trans (extend a w) a best (extend_worse a w) (Walk-worse-best p)
