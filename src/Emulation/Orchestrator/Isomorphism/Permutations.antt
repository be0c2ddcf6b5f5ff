-- ===== src/Emulation/Orchestrator/Isomorphism/Permutations.antt =====
-- emulation/src/orchestrator.rs: what the exchanges of `graph_isomorphism` keep, and the number of
-- its rounds.
use kollaps.Prelude.{
  ℕ, zero, suc, ◌+◌, ◌*◌, ◌≤◌, ◌<◌, ◌≡◌, refl, ◌∙◌, ◌⊎◌, inl, inr, some, List, [], ◌∷◌, arith, ◌==◌,
  if◌then◌else◌, get_elem?, get_elem?-lt, get_elem?-set_ne, set, length, length-set, replicate,
  ℕ_discrete,
}
use native.Mathlib.Nat.{mul-le-mul, suc-mul}
use mathlib.Core.Option.{some-injective}
use kollaps.Cgraph.{ok}
use kollaps.Emulation.Orchestrator.Isomorphism.{swap, factorial}

abbrev one : ℕ → ℕ → ℕ
one a b = if a == b then 1 else 0

-- How often a number stands in a list.
abbrev pub count : ℕ → List ℕ → ℕ
count a [] = 0
count a (x ∷ xs) = one a x + count a xs

-- The same numbers, each as often.
abbrev pub SameItems : List ℕ → List ℕ → Type 0
SameItems xs ys = (a : ℕ) → count a xs ≡ count a ys

count-set :
    (a : ℕ) (xs : List ℕ) (i x y : ℕ)
    → get_elem? xs i ≡ some x
    → count a (set xs i y) + one a x ≡ count a xs + one a y
count-set a [] i x y e = cc
count-set a (z ∷ zs) zero x y e = let s : z ≡ x = some-injective _ _ e in rw s (omega arith)
count-set a (z ∷ zs) (suc i) x y e = omega (arith, count-set a zs i x y e)

-- An exchange of two places inside the list succeeds, and keeps the length and the numbers.
pub swap_lem :
    (xs : List ℕ) (i j : ℕ)
    → i < j
    → j < length xs
    → (ys : List ℕ) × (swap xs i j ≡ ok ys) × (length ys ≡ length xs) × SameItems ys xs
unfolding swap
swap_lem xs i j h b =
    let (x, ex) = get_elem?-lt xs i (omega arith) in
    let (y, ey) = get_elem?-lt xs j b in
    let other : get_elem? (set xs i y) j ≡ some y =
      get_elem?-set_ne xs i j y (λ e. omega arith) ∙ ey in
    (
      set (set xs i y) j x,
      rw (ex, ey),
      length-set (set xs i y) j x ∙ length-set xs i y,
      λ a. omega (arith, count-set a (set xs i y) j y x other, count-set a xs i x y ex),
    )

-- The digits of `counter` from the place `i` on, in the factorial number system.
pub weight : ℕ → List ℕ → ℕ
unfolding factorial
weight i [] = 0
weight i (c ∷ cs) = c * factorial i + weight (i + 1) cs

pub weight-set :
    (i : ℕ) (cs : List ℕ) (x c d : ℕ)
    → get_elem? cs x ≡ some c
    → weight i (set cs x d) + c * factorial (i + x) ≡ weight i cs + d * factorial (i + x)
unfolding weight
weight-set i [] x c d e = cc
weight-set i (z ∷ zs) zero c d e =
    let s : z ≡ c = some-injective _ _ e in
    let at : i + 0 ≡ i = omega arith in rw (s, at) (omega arith)
weight-set i (z ∷ zs) (suc x) c d e =
    let at : i + suc x ≡ i + 1 + x = omega arith in
    rw at (omega (arith, weight-set (i + 1) zs x c d e))

-- A digit is at most its place, and those below `x` are 0.
abbrev pub Digits : ℕ → ℕ → List ℕ → Type 0
Digits i x [] = Unit
Digits i x (c ∷ cs) = (c ≤ i) × (i < x → c ≡ 0) × Digits (i + 1) x cs

pub factorial-suc : (n : ℕ) → factorial (n + 1) ≡ n * factorial n + factorial n
unfolding factorial
factorial-suc n =
    let e : n + 1 ≡ suc n = omega arith in rw (e, suc-mul n (factorial n)) (omega arith)

pub factorial_pos : (n : ℕ) → 1 ≤ factorial n
unfolding factorial
factorial_pos zero = omega arith
factorial_pos (suc n) =
    let e : suc n * factorial n ≡ n * factorial n + factorial n =
      suc-mul n (factorial n) ∙ omega arith in
    omega (arith, factorial_pos n)

-- All places from `i` on, with a carry at `i`.
weight-full :
    (i x : ℕ) (cs : List ℕ) → Digits i x cs → weight i cs + factorial i ≤ factorial (i + length cs)
unfolding weight
weight-full i x [] d = let e : i + 0 ≡ i = omega arith in rw e (omega arith)
weight-full i x (c ∷ cs) d =
    let here : factorial i ≤ factorial i = omega arith in
    let digit : c * factorial i ≤ i * factorial i = mul-le-mul d.0 here in
    let at : i + suc (length cs) ≡ i + 1 + length cs = omega arith in
    rw at (omega (arith, weight-full (i + 1) x cs d.2, factorial-suc i))

-- With the carry at the place `x` the number is at most that of all places.
pub weight-le :
    (i x : ℕ) (cs : List ℕ)
    → Digits i x cs
    → x ≤ i + length cs
    → i ≤ x
    → weight i cs + factorial x ≤ factorial (i + length cs)
unfolding weight
weight-le i x [] d h l = let e : i + 0 ≡ x = omega arith in rw e (omega arith)
weight-le i x (c ∷ cs) d h l = elim (ℕ_discrete i x) [
  | yes here ↦ rw (← here) (weight-full i x (c ∷ cs) d)
  | no below ↦
      let nought : c ≡ 0 = d.1 (omega arith) in
      let at : i + suc (length cs) ≡ i + 1 + length cs = omega arith in
      rw (nought, at) (omega (arith, weight-le (i + 1) x cs d.2 (omega arith) (omega arith)))
]

pub Digits-replicate : (i n : ℕ) → Digits i 1 (replicate n 0)
Digits-replicate i zero = tt
Digits-replicate i (suc n) = (omega arith, (λ _. refl), Digits-replicate (i + 1) n)

-- Below the first place, or where it is 1, there is nothing to ask for.
Digits-free :
    (i y z : ℕ) (cs : List ℕ) → z ≤ i + 1 → (z ≤ i) ⊎ (i ≡ 0) → Digits i y cs → Digits i z cs
Digits-free i y z [] h l d = tt
Digits-free i y z (c ∷ cs) h l d = (
  d.0,
  (λ b. omega (arith, d.0)),
  Digits-free (i + 1) y z cs (omega arith) (inl (omega arith)) d.2,
)

Digits-set :
    (i y x v : ℕ) (cs : List ℕ)
    → v ≤ i + x
    → (i + x < y → v ≡ 0)
    → Digits i y cs
    → Digits i y (set cs x v)
Digits-set i y x v [] b z d = tt
Digits-set i y zero v (c ∷ cs) b z d = (omega arith, (λ l. z (omega arith)), d.2)
Digits-set i y (suc x) v (c ∷ cs) b z d =
    (d.0, d.1, Digits-set (i + 1) y x v cs (omega arith) (λ l. z (omega arith)) d.2)

-- A digit below its place goes up, and the search starts again at the place 1.
pub Digits-up : (x v : ℕ) (cs : List ℕ) → 1 ≤ x → v ≤ x → Digits 0 x cs → Digits 0 1 (set cs x v)
Digits-up x v cs l b d =
    Digits-set 0 1 x v cs (omega arith) (λ h. absurd (omega arith))
      (Digits-free 0 x 1 cs (omega arith) (inr refl) d)

-- A full digit goes back to 0, and the search goes on to the next place.
back_at : (i x : ℕ) (cs : List ℕ) → Digits i (i + x) cs → Digits i (i + x + 1) (set cs x 0)
back_at i x [] d = tt
back_at i zero (c ∷ cs) d = (
  omega arith,
  (λ _. refl),
  Digits-free (i + 1) (i + 0) (i + 0 + 1) cs (omega arith) (inl (omega arith)) d.2,
)
back_at i (suc x) (c ∷ cs) d =
    let at : i + suc x ≡ i + 1 + x = omega arith in
    let rest : Digits (i + 1) (i + 1 + x) cs = rw (← at) d.2 in
    (d.0, (λ _. d.1 (omega arith)), rw at (back_at (i + 1) x cs rest))

pub Digits-back : (x : ℕ) (cs : List ℕ) → Digits 0 x cs → Digits 0 (x + 1) (set cs x 0)
Digits-back x cs d =
    let at : 0 + x ≡ x = omega arith in
    let start : Digits 0 (0 + x) cs = rw at d in rw at at (back_at 0 x cs start)

pub Digits-get : (i y x c : ℕ) (cs : List ℕ) → Digits i y cs → get_elem? cs x ≡ some c → c ≤ i + x
Digits-get i y x c [] d e = cc
Digits-get i y zero c (z ∷ zs) d e = let s : z ≡ c = some-injective _ _ e in omega (arith, d.0)
Digits-get i y (suc x) c (z ∷ zs) d e = omega (arith, Digits-get (i + 1) y x c zs d.2 e)

pub weight-replicate : (i n : ℕ) → weight i (replicate n 0) ≡ 0
unfolding weight
weight-replicate i zero = refl
weight-replicate i (suc n) = omega (arith, weight-replicate (i + 1) n)
