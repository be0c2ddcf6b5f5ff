-- ===== src/Cgraph/Missing/Rounds.antt =====
-- cgraph/src/lib.rs, `find_missing_from_me`: its loops over nodes, and the write of the rule.
use kollaps.Prelude.{ℕ, ◌<◌, ◌≡◌, ◌≢◌, refl, ◌∙◌, true, List, [], ◌∷◌, ◌++◌, arith}
use kollaps.Matrix.{SymMatrix}
use kollaps.Matrix.Access.{IsValid}
use kollaps.Cgraph.{TestData, Node, Result, ok}
use kollaps.Cgraph.Cells.{update_lem}
use kollaps.Cgraph.Missing.{for_nodes, Rule, shorten}

abbrev pub Each : {I : Type 0} → (Node I → Type 0) → List (Node I) → Type 0
Each Q [] = Unit
Each Q (k ∷ ks) = Q k × Each Q ks

pub Each-++ :
    {I : Type 0} (Q : Node I → Type 0) (ks : List (Node I)) (k : Node I)
    → Each Q ks
    → Q k
    → Each Q (ks ++ k ∷ [])
Each-++ Q [] k e q = (q, tt)
Each-++ Q (j ∷ ks) k e q = (e.0, Each-++ Q ks k e.1 q)

pub ++-nonempty : {I : Type 0} (ks : List (Node I)) (k : Node I) → (ks ++ k ∷ []) ≢ []
++-nonempty [] k e = cc
++-nonempty (j ∷ ks) k e = cc

-- A loop over nodes whose rounds do not fail and keep a property does not fail and keeps it.
pub for_nodes_lem :
    {I S : Type 0} (Q : Node I → Type 0) (P : S → Type 0) (body : Node I → S → Result S)
    (ks : List (Node I)) (s : S)
    → ((k : Node I) (x : S) → Q k → P x → (y : S) × (body k x ≡ ok y) × P y)
    → Each Q ks
    → P s
    → (t : S) × (for_nodes body ks s ≡ ok t) × P t
unfolding for_nodes
for_nodes_lem Q P body [] s each q p = (s, refl, p)
for_nodes_lem Q P body (k ∷ ks) s each q p =
    let (y, ey, py) = each k s q.0 p in
    let (t, et, pt) = for_nodes_lem Q P body ks y each q.1 py in (t, rw ey et, pt)

-- A matrix with `n` rows that is laid out right.
abbrev pub Sized : ℕ → SymMatrix TestData → Type 0
Sized n m = IsValid m × (m.n ≡ n)

pub shorten_lem :
    (n from to speed : ℕ) (m : SymMatrix TestData)
    → Sized n m
    → from < n
    → to < n
    → (r : Rule) × (shorten from to speed m ≡ ok r) × Sized n r.1
unfolding shorten
shorten_lem n from to speed m (v, size) hf ht =
    let (_, a, _, ea, size_a, va, _) =
      update_lem m from to (λ d. record d { speed = speed }) v (omega arith) (omega arith) in
    let (_, b, _, eb, size_b, vb, _) =
      update_lem a from to (λ d. record d { directly_tested = true }) va (omega arith)
        (omega arith) in
    ((true, b), rw (ea, eb), (vb, size_b ∙ size_a ∙ size))
