-- ===== src/Prelude/Options.antt =====
-- `Option` as the result of code that may panic, or of a loop whose fuel may run out.
use Prim.Native.Nat.{ℕ, zero, suc, ◌+◌, ◌<◌, ◌≤◌}
use mathlib.Core.Path.{◌≡◌, refl, sym, ap, ◌∙◌}
use mathlib.Core.Bool.{Bool, true, false}
use mathlib.Core.List.{List, [], ◌∷◌}
use mathlib.Core.Option.{Option, none, some, some-injective}
use native.Mathlib.Omega.{arith}
use kollaps.Prelude.Lists.{length, get_elem?}

infixl 5 ◌>>=◌ ◌>>◌
abbrev pub ◌>>=◌ {ℓ κ} : {A : Type ℓ} {B : Type κ} → Option A → (A → Option B) → Option B
none >>= f = none
some a >>= f = f a

abbrev pub ◌>>◌ {ℓ κ} : {A : Type ℓ} {B : Type κ} → Option A → Option B → Option B
m >> k = m >>= λ _. k

abbrev pub is_some {ℓ} : {A : Type ℓ} → Option A → Bool
is_some none = false
is_some (some a) = true

-- `for i in start..start + count { items.push(f(i)) }`
unfoldable pub collect {ℓ} : {A : Type ℓ} → ℕ → ℕ → (ℕ → Option A) → Option (List A)
collect zero start f = some []
collect (suc count) start f = do x ← f start; rest ← collect count (start + 1) f; some (x ∷ rest)

module _ {ℓ} {A : Type ℓ} (f : ℕ → Option A) where
  -- A loop whose body never panics yields one item for each round, in order.
  pub collect_lem :
      (count start : ℕ)
      → ((j : ℕ) → start ≤ j → j < start + count → (v : A) × (f j ≡ some v))
      → (xs : List A) × (collect count start f ≡ some xs)
        × (length xs ≡ count)
        × ((i : ℕ) → i < count → get_elem? xs i ≡ f (start + i))
  unfolding collect
  collect_lem zero start h = ([], refl, refl, λ i b. elim b [ ])
  collect_lem (suc count) start h =
      let (rest, e, size, items) =
        collect_lem count (start + 1) (λ j lo hi. h j (omega arith) (omega arith)) in
      let (v, first) = h start (omega arith) (omega arith) in
      (
        v ∷ rest,
        rw (first, e),
        ap suc size,
        elim [
          | zero ↦ λ b. let j : start + 0 ≡ start = omega arith in rw (j, first)
          | suc i ↦ λ b. items i (omega arith) ∙ ap f (omega arith)
        ],
      )

-- However its items come about, a loop that ends has one for each round.
pub collect-length {ℓ} :
    {A : Type ℓ} (count start : ℕ) (f : ℕ → Option A) (xs : List A)
    → collect count start f ≡ some xs
    → length xs ≡ count
unfolding collect
collect-length zero start f xs h = ap length (sym (some-injective [] xs h))
collect-length {A = A} (suc count) start f xs h =
    go (f start) (collect count (start + 1) f) refl (collect-length count (start + 1) f) h
  where
    go :
        (first : Option A) (others : Option (List A))
        → collect count (start + 1) f ≡ others
        → ((rest : List A) → collect count (start + 1) f ≡ some rest → length rest ≡ count)
        → (first >>= λ x. others >>= λ rest. some (x ∷ rest)) ≡ some xs
        → length xs ≡ suc count
    go none others e again k = cc
    go (some x) none e again k = cc
    go (some x) (some rest) e again k =
        sym (ap length (some-injective (x ∷ rest) xs k)) ∙ ap suc (again rest e)

-- A bind that has a value has one in its first part.
pub bind-some {ℓ κ} :
    {A : Type ℓ} {B : Type κ} (m : Option A) (f : A → Option B) {b : B}
    → (m >>= f) ≡ some b
    → (a : A) × (m ≡ some a) × (f a ≡ some b)
bind-some none f h = cc
bind-some (some a) f h = (a, refl, h)
