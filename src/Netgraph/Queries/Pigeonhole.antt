-- ===== src/Netgraph/Queries/Pigeonhole.antt =====
-- At most `n` different numbers lie below `n`.
use kollaps.Prelude.{
  ℕ, zero, suc, ◌≤◌, ◌<◌, ◌≡◌, ◌≢◌, refl, inl, inr, List, [], ◌∷◌, arith, length, ◌==◌, ==→≡,
  if◌then◌else◌, Bool-cases,
}
use kollaps.Netgraph.Search.Labels.{In}

-- No number stands twice in the list.
abbrev pub Distinct : List ℕ → Type 0
Distinct [] = Unit
Distinct (x ∷ xs) = (¬ In x xs) × Distinct xs

without : ℕ → List ℕ → List ℕ
without n [] = []
without n (x ∷ xs) = if x == n then without n xs else x ∷ without n xs

In-without : (n x : ℕ) (xs : List ℕ) → In x (without n xs) → In x xs × (x ≢ n)
unfolding without
In-without n x [] h = elim h [ ]
In-without n x (y ∷ ys) h = ground (arith, In-without n x ys)

Distinct-without : (n : ℕ) (xs : List ℕ) → Distinct xs → Distinct (without n xs)
unfolding without
Distinct-without n [] d = tt
Distinct-without n (x ∷ xs) d = ground (arith, Distinct-without n xs d.1, In-without n x xs)

without_absent : (n : ℕ) (xs : List ℕ) → (¬ In n xs) → without n xs ≡ xs
unfolding without
without_absent n [] a = refl
without_absent n (x ∷ xs) a =
    ground (arith, without_absent n xs (λ i. a (inr i)), λ (e : n ≡ x). a (inl e))

length-without : (n : ℕ) (xs : List ℕ) → Distinct xs → length xs ≤ suc (length (without n xs))
unfolding without
length-without n [] d = omega arith
length-without n (x ∷ xs) d = elim (Bool-cases (x == n)) [
  | inl same ↦
      let e : x ≡ n = ==→≡ x n same in
      rw (same, without_absent n xs (λ i. d.0 (rw e i))) (omega arith)
  | inr other ↦ rw other (omega (arith, length-without n xs d.1))
]

pub pigeonhole : (n : ℕ) (xs : List ℕ) → Distinct xs → ((x : ℕ) → In x xs → x < n) → length xs ≤ n
pigeonhole zero [] d b = omega arith
pigeonhole zero (x ∷ xs) d b = absurd (omega (arith, b x (inl refl)))
pigeonhole (suc n) xs d b = omega (
  arith,
  length-without n xs d,
  pigeonhole n (without n xs) (Distinct-without n xs d)
      (λ x i. let (old, ne) = In-without n x xs i in omega (arith, b x old)),
)
