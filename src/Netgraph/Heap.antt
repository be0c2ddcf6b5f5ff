-- ===== src/Netgraph/Heap.antt =====
-- netgraph/src/lib.rs: `Pair`, and the `BinaryHeap<Pair>` of the path searches. The heap is the
-- standard library's: a list here, from which `pop` takes a greatest element by `cmp`.
use kollaps.Prelude.{
  ℕ, suc, ◌≤◌, ◌≡◌, refl, ◌⊎◌, inl, ◌↔◌, Bool, List, [], ◌∷◌, Option, none, some, arith, length,
  if◌then◌else◌, ap, sym, subst,
}
use mathlib.Core.Option.{some-injective}
use Prim.Native.Nat.{compare, Ordering}

pub record Pair : Type 0 where
  pub node : ℕ
  pub val : ℕ

-- `a.then_with(|| b)`
abbrev pub then_with : Ordering → Ordering → Ordering
then_with a b = elim a [ Ordering.lt ↦ Ordering.lt | Ordering.eq ↦ b | Ordering.gt ↦ Ordering.gt ]

-- The order is flipped on both fields, so that the greatest pair has the least value.
pub cmp : Pair → Pair → Ordering
cmp p q = then_with (compare q.val p.val) (compare q.node p.node)

unfoldable pub push : Pair → List Pair → List Pair
push p heap = p ∷ heap

abbrev is_less : Ordering → Bool
is_less o = elim o [ Ordering.lt ↦ Bool.true | Ordering.eq ↦ Bool.false | Ordering.gt ↦ Bool.false ]

-- The greatest of `p` and the list, and the others.
pub take_max : Pair → List Pair → Pair × List Pair
unfolding cmp
take_max p [] = (p, [])
take_max p (q ∷ rest) =
    let (best, others) = take_max q rest in
    if is_less (cmp p best) then (best, p ∷ others) else (p, q ∷ rest)

unfoldable pub pop : List Pair → Option (Pair × List Pair)
unfolding take_max
pop [] = none
pop (p ∷ rest) = some (take_max p rest)

abbrev pub Contains : Pair → List Pair → Type 0
Contains p [] = ⊥
Contains p (q ∷ rest) = (p ≡ q) ⊎ Contains p rest

take_max-Contains :
    (x p : Pair) (rest : List Pair)
    → Contains x (p ∷ rest) ↔ ((x ≡ (take_max p rest).0) ⊎ Contains x (take_max p rest).1)
unfolding take_max
take_max-Contains x p [] = (λ h. h, λ h. h)
take_max-Contains x p (q ∷ rest) =
    let ih = take_max-Contains x q rest in (ground (arith, ih.0), ground (arith, ih.1))

take_max-length : (p : Pair) (rest : List Pair) → length (take_max p rest).1 ≡ length rest
unfolding take_max
take_max-length p [] = refl
take_max-length p (q ∷ rest) = ground (arith, take_max-length q rest)

take_max-least :
    (x p : Pair) (rest : List Pair) → Contains x (p ∷ rest) → (take_max p rest).0.val ≤ x.val
unfolding take_max cmp
take_max-least x p [] h = ground arith
take_max-least x p (q ∷ rest) h =
    ground (arith, take_max-least x q rest, take_max-least q q rest (inl refl))

-- The popped pair was in the queue, and the others stay.
pub pop-Contains :
    (heap : List Pair) (p : Pair) (rest : List Pair)
    → pop heap ≡ some (p, rest)
    → (x : Pair) → Contains x heap ↔ ((x ≡ p) ⊎ Contains x rest)
unfolding pop
pop-Contains [] p rest e x = cc
pop-Contains (q ∷ heap) p rest e x =
    subst (λ t. Contains x (q ∷ heap) ↔ ((x ≡ t.0) ⊎ Contains x t.1)) (some-injective _ _ e)
      (take_max-Contains x q heap)

pub pop-length :
    (heap : List Pair) (p : Pair) (rest : List Pair)
    → pop heap ≡ some (p, rest)
    → length heap ≡ suc (length rest)
unfolding pop
pop-length [] p rest e = cc
pop-length (q ∷ heap) p rest e =
    subst (λ t. length (q ∷ heap) ≡ suc (length t.1)) (some-injective _ _ e)
      (ap suc (sym (take_max-length q heap)))

-- The popped pair has the least value of the queue.
pub pop-least :
    (heap : List Pair) (p : Pair) (rest : List Pair)
    → pop heap ≡ some (p, rest)
    → (x : Pair) → Contains x heap
    → p.val ≤ x.val
unfolding pop
pop-least [] p rest e x h = elim h [ ]
pop-least (q ∷ heap) p rest e x h =
    subst (λ t. t.0.val ≤ x.val) (some-injective _ _ e) (take_max-least x q heap h)

pub pop-none : (heap : List Pair) → pop heap ≡ none → heap ≡ []
unfolding pop
pop-none [] e = refl
pop-none (p ∷ rest) e = cc

pub pop-some :
    (q : Pair) (heap : List Pair)
    → (p : Pair) × (rest : List Pair) × (pop (q ∷ heap) ≡ some (p, rest))
unfolding pop
pop-some q heap = ((take_max q heap).0, (take_max q heap).1, refl)

pub pop-head :
    (heap : List Pair) (p : Pair) (rest : List Pair) → pop heap ≡ some (p, rest) → Contains p heap
pop-head heap p rest e = (pop-Contains heap p rest e p).1 (inl refl)
