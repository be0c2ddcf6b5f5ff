-- ===== src/Emulation/Orchestrator/Isomorphism/Sound.antt =====
-- emulation/src/orchestrator.rs: the search of `graph_isomorphism` ends, and what it answers.
use kollaps.Prelude.{
  ℕ, zero, suc, ◌+◌, ◌-◌, ◌*◌, ◌%◌, ◌≤◌, ◌<◌, ◌≡◌, refl, ap, ◌∙◌, inl, inr, Bool, true, false,
  Option, none, some, List, arith, ltb, ◌==◌, if◌then◌else◌, get_elem?, get_elem?-lt, set, length,
  length-set, length-replicate, replicate, Bool-cases, ==_refl,
}
use native.Mathlib.Nat.{suc-mul, zero-mul, mul-le-mul}
use mathlib.Core.Option.{some-injective}
use kollaps.Matrix.{SymMatrix, size}
use kollaps.Cgraph.{Result, ok}
use kollaps.Netgraph.Link.{VertexEq}
use kollaps.Emulation.Orchestrator.{Orchestrator}
use kollaps.Emulation.Orchestrator.Isomorphism.{
  upto, swap, exchange_loop, exchange_fuel, factorial, search_permutations, verify_permutation,
  graph_isomorphism,
}
use kollaps.Emulation.Orchestrator.Isomorphism.Permutations.{
  SameItems, swap_lem, weight, weight-set, weight-le, Digits, Digits-replicate, Digits-get,
  Digits-up, Digits-back, factorial-suc,
}

length-upto : (n start : ℕ) → length (upto n start) ≡ n
unfolding upto
length-upto zero start = refl
length-upto (suc n) start = omega (arith, length-upto n (start + 1))

-- The numbers below `n`, in any order.
pub record IsPermutation (n : ℕ) (e : List ℕ) : Type 0 where
  pub full : length e ≡ n
  pub same : SameItems e (upto n 0)

next_measure :
    (w f x fuel n : ℕ)
    → w + 1 ≤ f
    → 1 ≤ x
    → x ≤ n
    → (f - w) * (n + 1) + (n - x) < suc fuel
    → (f - (w + 1)) * (n + 1) + (n - 1) < fuel
next_measure w f x fuel n b l h lt =
    let e : f - w ≡ suc (f - (w + 1)) = omega arith in
    let p : (f - w) * (n + 1) ≡ (f - (w + 1)) * (n + 1) + (n + 1) =
      rw e (suc-mul (f - (w + 1)) (n + 1)) in
    omega arith

pick_true : {A : Type 0} (a b : A) (t : Bool) → t ≡ true → (if t then a else b) ≡ a
pick_true a b true e = refl
pick_true a b false e = cc

pick_false : {A : Type 0} (a b : A) (t : Bool) → t ≡ false → (if t then a else b) ≡ b
pick_false a b true e = cc
pick_false a b false e = refl

plus_one : (c : ℕ) → c + 1 ≡ suc c
plus_one c = omega arith

factorial_one : factorial 1 ≡ 1
unfolding factorial
factorial_one = refl

module _ (check : List ℕ → Result Bool) (n : ℕ)
    (total : (e : List ℕ) → IsPermutation n e → (b : Bool) × (check e ≡ ok b)) where
  -- An answer is a permutation that passes the test.
  abbrev Right : Option (List ℕ) → Type 0
  Right answer = (e : List ℕ) → answer ≡ some e → IsPermutation n e × (check e ≡ ok true)

  -- One round that exchanges two places.
  exchange_round :
      (fuel : ℕ) (e counter : List ℕ) (x c : ℕ) (q : List ℕ) (good : Bool)
      → ltb x n ≡ true
      → get_elem? counter x ≡ some c
      → ltb c x ≡ true
      → swap e (if x % 2 == 0 then 0 else c) x ≡ ok q
      → check q ≡ ok good
      → exchange_loop check n (suc fuel) e counter x
        ≡ (if good then ok (some q) else exchange_loop check n fuel q (set counter x (c + 1)) 1)
  unfolding exchange_loop
  exchange_round fuel e counter x c q good more ec below eq eg = rw (more, ec, below, eq, eg)

  exchange_loop_lem :
      (fuel : ℕ) (e counter : List ℕ) (x : ℕ)
      → IsPermutation n e
      → length counter ≡ n
      → Digits 0 x counter
      → 1 ≤ x
      → 0 < fuel
      → (x < n → (factorial n - (weight 0 counter + factorial x)) * (n + 1) + (n - x) < fuel)
      → (answer : Option (List ℕ)) × (exchange_loop check n fuel e counter x ≡ ok answer)
        × Right answer
  unfolding exchange_loop
  exchange_loop_lem zero e counter x p l d h pos m = absurd (omega arith)
  exchange_loop_lem (suc fuel) e counter x p l d h pos m = elim (Bool-cases (ltb x n)) [
    | inr over ↦ (none, rw over, λ q eq. cc)
    | inl more ↦
        let inside : x < n = ground arith in
        let left = m inside in
        let (c, ec) = get_elem?-lt counter x (omega arith) in
        let digit = Digits-get 0 x x c counter d ec in
        elim (Bool-cases (ltb c x)) [
          | inl below ↦
              let f0 : 0 + x ≡ x = omega arith in
              let (q, eq, ql, qs) =
                swap_lem e (if x % 2 == 0 then 0 else c) x (ground arith) (omega (arith, p.full)) in
              let permuted : IsPermutation n q = record {
                full = ql ∙ p.full;
                same = λ a. qs a ∙ p.same a;
              } in
              let (good, eg) = total q permuted in
              let raised : weight 0 (set counter x (c + 1)) + c * factorial x
                  ≡ weight 0 counter + (c + 1) * factorial x =
                rw f0 at (weight-set 0 counter x c (c + 1) ec) in
              let times : (c + 1) * factorial x ≡ c * factorial x + factorial x =
                ap (λ (t : ℕ). t * factorial x) (plus_one c) ∙ suc-mul c (factorial x) in
              let digits = Digits-up x (c + 1) counter h (ground arith) d in
              let size = length-set counter x (c + 1) ∙ l in
              let whole : 0 + length (set counter x (c + 1)) ≡ n = omega arith in
              let bound : weight 0 (set counter x (c + 1)) + factorial 1 ≤ factorial n =
                rw whole at
                  (weight-le 0 1 (set counter x (c + 1)) digits (omega arith) (omega arith)) in
              let unit = factorial_one in
              let step : weight 0 (set counter x (c + 1)) + factorial 1
                  ≡ weight 0 counter + factorial x + 1 =
                omega arith in
              let smaller =
                next_measure (weight 0 counter + factorial x) (factorial n) x fuel n (omega arith) h
                  (omega arith) left in
              let (answer, ea, right) =
                exchange_loop_lem fuel q (set counter x (c + 1)) 1 permuted size digits
                  (omega arith) (omega arith) (λ _. rw step smaller) in
              let round = exchange_round fuel e counter x c q good more ec below eq eg in
              elim (Bool-cases good) [
                | inl fits ↦ (
                  some q,
                  round ∙ pick_true _ _ good fits,
                  λ r er.
                      let same : q ≡ r = some-injective _ _ er in
                      rw (← same, ← fits) (permuted, eg),
                )
                | inr bad ↦ (answer, round ∙ pick_false _ _ good bad ∙ ea, right)
              ]
          | inr full ↦
              let f0 : 0 + x ≡ x = omega arith in
              let at : c ≡ x = ground arith in
              let dropped : weight 0 (set counter x 0) + c * factorial x
                  ≡ weight 0 counter + 0 * factorial x =
                rw f0 at (weight-set 0 counter x c 0 ec) in
              let nought : 0 * factorial x ≡ 0 = zero-mul (factorial x) in
              let product : c * factorial x ≡ x * factorial x = rw at in
              let step : weight 0 (set counter x 0) + factorial (x + 1)
                  ≡ weight 0 counter + factorial x =
                omega (arith, factorial-suc x) in
              let (answer, ea, right) =
                exchange_loop_lem fuel e (set counter x 0) (x + 1) p (length-set counter x 0 ∙ l)
                  (Digits-back x counter d) (omega arith) (omega arith)
                  (λ _. rw step (omega arith)) in
              (answer, rw (more, ec, full) ea, right)
        ]
  ]

  search_permutations_lem :
      (answer : Option (List ℕ)) × (search_permutations check n ≡ ok answer)
      × Right answer
      × (answer ≡ none → check (upto n 0) ≡ ok false)
  unfolding search_permutations exchange_fuel
  search_permutations_lem =
      let first : IsPermutation n (upto n 0) = record {
        full = length-upto n 0;
        same = λ a. refl;
      } in
      let (good, eg) = total (upto n 0) first in
      let start = weight 0 (replicate n 0) + factorial 1 in
      let rest : factorial n - start ≤ factorial n = omega arith in
      let whole : n + 1 ≤ n + 1 = omega arith in
      let low : (factorial n - start) * (n + 1) ≤ factorial n * (n + 1) = mul-le-mul rest whole in
      let (answer, ea, right) =
        exchange_loop_lem (factorial n * (n + 1) + n + 1) (upto n 0) (replicate n 0) 1 first
          (length-replicate n 0) (Digits-replicate 0 n) (omega arith) (omega arith)
          (λ _. omega arith) in
      elim (Bool-cases good) [
        | inl fits ↦ (
          some (upto n 0),
          rw (eg, fits),
          (λ q e.
              let same : upto n 0 ≡ q = some-injective _ _ e in rw (← same, ← fits) (first, eg)),
          λ e. cc,
        )
        | inr bad ↦ (answer, rw (eg, bad) ea, right, λ _. rw bad at eg)
      ]

module _ {Ip Uuid : Type 0} (ips : VertexEq Ip) (o : Orchestrator Ip Uuid)
    (g1 residual : SymMatrix ℕ) (mapper : List ℕ) where
  -- If the test of a permutation does not panic, then on graphs of one size `graph_isomorphism`
  -- ends: an answer is a permutation of the applications that passes the test, and there is none
  -- only if the identity fails it.
  pub graph_isomorphism_lem :
      size g1 ≡ size residual
      → ((e : List ℕ)
          → IsPermutation (size g1) e
          → (b : Bool) × (verify_permutation ips o g1 residual e mapper ≡ ok b))
      → (answer : Option (List ℕ)) × (graph_isomorphism ips o g1 residual mapper ≡ ok answer)
        × ((e : List ℕ)
            → answer ≡ some e
            → IsPermutation (size g1) e × (verify_permutation ips o g1 residual e mapper ≡ ok true))
        × (answer ≡ none
            → verify_permutation ips o g1 residual (upto (size g1) 0) mapper ≡ ok false)
  unfolding graph_isomorphism
  graph_isomorphism_lem same total =
      let test : (size g1 == size residual) ≡ true = rw (← same) (==_refl (size g1)) in
      rw test (
        search_permutations_lem (λ e. verify_permutation ips o g1 residual e mapper) (size g1)
          total)
