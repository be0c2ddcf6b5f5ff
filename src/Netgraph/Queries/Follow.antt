-- ===== src/Netgraph/Queries/Follow.antt =====
-- Following the parents of a solved search ends at the source, within as many rounds as there
-- are nodes.
use kollaps.Prelude.{
  ℕ, zero, suc, ◌≤◌, ◌<◌, ◌≡◌, refl, sym, ap, ◌∙◌, inl, inr, Option, none, some, List, [], ◌∷◌,
  arith, length, get_elem?-lt, lt-length_of_get,
}
use kollaps.Netgraph.Queries.{along}
use kollaps.Netgraph.Queries.Pigeonhole.{Distinct, pigeonhole}
use kollaps.Netgraph.Search.Labels.{In, entry, entry-some, entry_of, Chain, root, up}

module _ (parents : List (Option ℕ)) (src : ℕ) (top : entry parents src ≡ none) where
  pub hops : {v : ℕ} → Chain parents src v → ℕ
  hops root = 0
  hops (up e rest) = suc (hops rest)

  trail : {v : ℕ} → Chain parents src v → List ℕ
  trail (root) = src ∷ []
  trail (up {v} e rest) = v ∷ trail rest

  hops_unique :
      {v w : ℕ} (c : Chain parents src v) (d : Chain parents src w) → v ≡ w → hops c ≡ hops d
  unfolding hops
  hops_unique root root e = refl
  hops_unique root (up {v} f rest) e = let at : entry parents v ≡ none = rw e at top in cc
  hops_unique (up {v} f rest) root e = let at : entry parents v ≡ none = rw (sym e) at top in cc
  hops_unique (up f rest) (up g other) e = ap suc (hops_unique rest other (cc))

  length-trail : {v : ℕ} (c : Chain parents src v) → length (trail c) ≡ suc (hops c)
  unfolding trail hops
  length-trail root = refl
  length-trail (up e rest) = ap suc (length-trail rest)

  -- Each node of the trail has a chain that is no longer.
  trail-Chain :
      {v : ℕ} (c : Chain parents src v) (x : ℕ)
      → In x (trail c)
      → (d : Chain parents src x) × (hops d ≤ hops c)
  unfolding trail hops
  trail-Chain root x (inl e) = rw e (root, omega arith)
  trail-Chain root x (inr nowhere) = absurd nowhere
  trail-Chain (up {v} e rest) x (inl at) = rw at (up e rest, omega arith)
  trail-Chain (up {v} e rest) x (inr h) = let (d, short) = trail-Chain rest x h in (d, omega arith)

  trail-Distinct : {v : ℕ} (c : Chain parents src v) → Distinct (trail c)
  unfolding trail hops
  trail-Distinct root = ((λ h. h), tt)
  trail-Distinct (up {v} e rest) = (
    λ h.
        let (d, short) = trail-Chain rest v h in
        absurd (omega (arith, hops_unique d (up e rest) refl)),
    trail-Distinct rest,
  )

  trail-lt :
      {v : ℕ} (c : Chain parents src v)
      → src < length parents
      → (x : ℕ) → In x (trail c)
      → x < length parents
  unfolding trail
  trail-lt root b x (inl e) = rw e b
  trail-lt root b x (inr nowhere) = absurd nowhere
  trail-lt (up {v} {p} e rest) b x (inl at) =
      rw at (lt-length_of_get parents v (some p) (entry-some parents v p e))
  trail-lt (up {v} {p} e rest) b x (inr h) = trail-lt rest b x h

  pub hops-lt : {v : ℕ} (c : Chain parents src v) → src < length parents → hops c < length parents
  hops-lt c b = omega (
    arith,
    length-trail c,
    pigeonhole (length parents) (trail c) (trail-Distinct c) (trail-lt c b),
  )

  -- The rule for a loop along the parents: an invariant that each round carries from a node to
  -- its parent holds at the source, and the loop ends.
  module _ {ℓ κ} {S : Type ℓ} (P : ℕ → S → Type κ) (body : ℕ → ℕ → S → Option S)
      (round : (v p : ℕ) (s : S)
        → entry parents v ≡ some p
        → Chain parents src p
        → P v s
        → (t : S) × (body v p s ≡ some t) × P p t)
      (inside : src < length parents) where
    along-Chain :
        {v : ℕ} (c : Chain parents src v) (fuel : ℕ) (s : S)
        → hops c < fuel
        → P v s
        → (t : S) × (along fuel parents body v s ≡ some t) × P src t
    unfolding along hops
    along-Chain c zero s h p = absurd (omega arith)
    along-Chain root (suc fuel) s h p =
        let (o, e) = get_elem?-lt parents src inside in
        let at : o ≡ none = sym (entry_of parents src e) ∙ top in (s, rw (e, at, along) refl, p)
    along-Chain (up {v} {p = q} e rest) (suc fuel) s h p =
        let (t, et, next) = round v q s e rest p in
        let (r, er, last) = along-Chain rest fuel t (omega arith) next in
        (r, rw (entry-some parents v q e, et) er, last)

    pub along_lem :
        {v : ℕ} (s : S)
        → Chain parents src v
        → P v s
        → (t : S) × (along (length parents) parents body v s ≡ some t) × P src t
    along_lem s c p = along-Chain c (length parents) s (hops-lt c inside) p
