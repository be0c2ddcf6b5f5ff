-- ===== src/Emulation/Orchestrator/Combination/Next.antt =====
-- emulation/src/orchestrator.rs: what `next_comb` makes of a combination.
use kollaps.Prelude.{
  ℕ, zero, suc, ◌+◌, ◌-◌, ◌≤◌, ◌<◌, ◌≡◌, refl, sym, ap, ◌∙◌, inl, inr, true, false, Option, none,
  some, List, arith, ltb, ltb→lt, ltb→ge, ◌==◌, get_elem?, get_elem?-lt, lt-length_of_get,
  get_elem?-set_ne, get_elem?-set_self, set, length, length-set, Bool-cases, ℕ_discrete,
}
use mathlib.Core.Option.{some-injective}
use kollaps.Emulation.Orchestrator.Combination.{carry, refill, next_comb}

-- Numbers that rise, each at most `limit` more than its place, and the first one below `limit`.
pub record IsComb (limit k : ℕ) (p : List ℕ) : Type 0 where
  pub size : length p ≡ k
  pub below : (l x : ℕ) → get_elem? p l ≡ some x → x ≤ limit + l
  pub rising : (l x y : ℕ) → get_elem? p l ≡ some x → get_elem? p (l + 1) ≡ some y → x < y
  pub first : (x : ℕ) → get_elem? p 0 ≡ some x → x < limit

-- The first place, from behind, where the number has room, and the list with that number raised.
record Raises (limit i : ℕ) (p : List ℕ) (j : ℕ) (q : List ℕ) : Type 0 where
  pub place : j ≤ i
  pub size : length q ≡ length p
  pub kept : (l : ℕ) → l < j → get_elem? q l ≡ get_elem? p l
  pub raised : (x : ℕ) → get_elem? p j ≡ some x → (get_elem? q j ≡ some (x + 1)) × (x < limit + j)

carry_lem :
    (limit i : ℕ) (p : List ℕ)
    → i < length p
    → ((x : ℕ) → get_elem? p 0 ≡ some x → x < limit)
    → (j : ℕ) × (q : List ℕ) × (carry i limit p ≡ some (j, q)) × Raises limit i p j q
unfolding carry
carry_lem limit zero p b f =
    let (x, ex) = get_elem?-lt p 0 b in
    let room = f x ex in
    let test : ltb limit (x + 1) ≡ false = ground arith in
    (
      0,
      set p 0 (x + 1),
      rw (ex, test),
      record {
        place = omega arith;
        size = length-set p 0 (x + 1);
        kept = λ l h. absurd (omega arith);
        raised = λ y ey.
            let same : x ≡ y = some-injective _ _ (sym ex ∙ ey) in
            (rw (← same) (get_elem?-set_self p 0 (x + 1) b), omega arith);
      },
    )
carry_lem limit (suc i) p b f =
    let (x, ex) = get_elem?-lt p (suc i) b in
    let next = set p (suc i) (x + 1) in
    let same_size = length-set p (suc i) (x + 1) in
    elim (Bool-cases (ltb (limit + suc i) (x + 1))) [
      | inr room ↦ (
        suc i,
        next,
        rw (ex, room),
        record {
          place = omega arith;
          size = same_size;
          kept = λ l h. get_elem?-set_ne p (suc i) l (x + 1) (λ e. omega arith);
          raised = λ y ey.
              let same : x ≡ y = some-injective _ _ (sym ex ∙ ey) in
              let le = ltb→ge _ _ room in
              (rw (← same) (get_elem?-set_self p (suc i) (x + 1) b), omega arith);
        },
      )
      | inl full ↦
          let before =
            λ (l : ℕ) (h : l < suc i). get_elem?-set_ne p (suc i) l (x + 1) (λ e. omega arith) in
          let (j, q, eq, r) =
            carry_lem limit i next (omega arith)
              (λ y ey. f y (sym (before 0 (omega arith)) ∙ ey)) in
          (
            j,
            q,
            rw (ex, full) eq,
            record {
              place = omega (arith, r.place);
              size = r.size ∙ same_size;
              kept = λ l h. r.kept l h ∙ before l (omega (arith, r.place));
              raised = λ y ey. r.raised y (before j (omega (arith, r.place)) ∙ ey);
            },
          )
    ]

refill_lem :
    (left v x : ℕ) (p : List ℕ)
    → get_elem? p v ≡ some x
    → v + left + 1 ≡ length p
    → (q : List ℕ) × (refill left v p ≡ some q)
      × (length q ≡ length p)
      × ((l : ℕ) → l ≤ v → get_elem? q l ≡ get_elem? p l)
      × ((d : ℕ) → d ≤ left → get_elem? q (v + d) ≡ some (x + d))
unfolding refill
refill_lem zero v x p ex b = (
  p,
  refl,
  refl,
  (λ l h. refl),
  λ d h.
      let nought : d ≡ 0 = omega arith in
      let at : v + 0 ≡ v = omega arith in
      let same : x + 0 ≡ x = omega arith in rw (nought, at, same) ex,
)
refill_lem (suc left) v x p ex b =
    let test : ltb (v + 1) (length p) ≡ true = ground arith in
    let next = set p (v + 1) (x + 1) in
    let size = length-set p (v + 1) (x + 1) in
    let (q, eq, same_size, kept, filled) =
      refill_lem left (v + 1) (x + 1) next (get_elem?-set_self p (v + 1) (x + 1) (omega arith))
        (omega arith) in
    (
      q,
      rw (ex, test) eq,
      same_size ∙ size,
      (λ l h. kept l (omega arith) ∙ get_elem?-set_ne p (v + 1) l (x + 1) (λ e. omega arith)),
      λ d h. elim (ℕ_discrete d 0) [
        | yes none_yet ↦
            let at : v + 0 ≡ v = omega arith in
            let same : x + 0 ≡ x = omega arith in
            rw (none_yet, at, same)
              (kept v (omega arith) ∙ get_elem?-set_ne p (v + 1) v (x + 1) (λ e. omega arith) ∙ ex)
        | no some_more ↦
            let at : v + 1 + (d - 1) ≡ v + d = omega arith in
            let value : x + 1 + (d - 1) ≡ x + d = omega arith in
            rw (at, value) at (filled (d - 1) (omega arith))
      ],
    )

-- The list that is the same before the place `j`, raised there, and rises by one behind it.
combined :
    (limit k j x : ℕ) (p q c : List ℕ)
    → IsComb limit k p
    → Raises limit (k - 1) p j q
    → get_elem? p j ≡ some x
    → length c ≡ length q
    → ((l : ℕ) → l ≤ j → get_elem? c l ≡ get_elem? q l)
    → ((d : ℕ) → d ≤ k - 1 - j → get_elem? c (j + d) ≡ some (x + 1 + d))
    → ((y : ℕ) → get_elem? q 0 ≡ some y → y < limit)
    → IsComb limit k c
combined limit k j x p q c h r ex size kept filled f = record {
  size = full;
  below = λ l y ey. elim (Bool-cases (ltb l j)) [
    | inl early ↦ h.below l y (sym (before l (ltb→lt _ _ early)) ∙ ey)
    | inr late ↦
        let from = ltb→ge _ _ late in
        let is = some-injective _ _ (sym ey ∙ behind l from (lt-length_of_get c l y ey)) in
        omega (arith, room, is, from)
  ];
  rising = λ l y z ey ez. elim (Bool-cases (ltb l j)) [
    | inr late ↦
        let from = ltb→ge _ _ late in
        let is = some-injective _ _ (sym ey ∙ behind l from (lt-length_of_get c l y ey)) in
        let next =
          some-injective _ _
            (sym ez ∙ behind (l + 1) (omega arith) (lt-length_of_get c (l + 1) z ez)) in
        omega arith
    | inl early ↦
        let early_place = ltb→lt _ _ early in
        let ep = sym (before l early_place) ∙ ey in
        elim (ℕ_discrete (l + 1) j) [
          | yes last ↦
              let at_j : get_elem? p (l + 1) ≡ some x = rw last ex in
              let is =
                some-injective _ _
                  (sym ez ∙ behind (l + 1) (omega arith) (lt-length_of_get c (l + 1) z ez)) in
              let low = h.rising l y x ep at_j in omega arith
          | no more ↦ h.rising l y z ep (sym (before (l + 1) (omega arith)) ∙ ez)
        ]
  ];
  first = λ y ey. f y (sym (kept 0 (omega arith)) ∙ ey);
}
  where
    full : length c ≡ k
    full = size ∙ r.size ∙ h.size

    room : x < limit + j
    room = (r.raised x ex).1

    before : (l : ℕ) → l < j → get_elem? c l ≡ get_elem? p l
    before l b = kept l (omega arith) ∙ r.kept l b

    behind : (l : ℕ) → j ≤ l → l < length c → get_elem? c l ≡ some (x + 1 + (l - j))
    behind l b t =
        let at : j + (l - j) ≡ l = omega arith in rw at at (filled (l - j) (omega (arith, full)))

-- The combination `c` is `p` with one number raised by one, and all before it kept.
abbrev pub Later : List ℕ → List ℕ → Type 0
Later p c =
    (j : ℕ) × (x : ℕ) × (get_elem? p j ≡ some x)
    × (get_elem? c j ≡ some (x + 1))
    × ((l : ℕ) → l < j → get_elem? c l ≡ get_elem? p l)

-- From a combination of `k` numbers whose first is at most `n - k`, `next_comb` does not panic. A
-- result is such a combination again and a later one, so that a combination that begins with
-- `n - k + 1` is never given; and there is no result only if the first number is `n - k`.
pub next_comb-IsComb :
    (previous : List ℕ) (k n : ℕ)
    → 1 ≤ k
    → k ≤ n
    → IsComb (n - k + 1) k previous
    → (result : Option (List ℕ)) × (next_comb previous k n ≡ some result)
      × ((c : List ℕ) → result ≡ some c → IsComb (n - k + 1) k c × Later previous c)
      × (result ≡ none → get_elem? previous 0 ≡ some (n - k))
unfolding next_comb
next_comb-IsComb previous k n some_k room h =
    let limit = n - k + 1 in
    let test_k : (k == 0) ≡ false = ground arith in
    let test_n : ltb n k ≡ false = ground arith in
    let (j, q, eq, r) = carry_lem limit (k - 1) previous (omega (arith, h.size)) h.first in
    let (first, ef) = get_elem?-lt q 0 (omega (arith, r.size, h.size)) in
    let (x, ex) = get_elem?-lt previous j (omega (arith, r.place, h.size)) in
    let (raised, _) = r.raised x ex in
    let (c, ec, size, kept, filled) =
      refill_lem (k - 1 - j) j (x + 1) q raised (omega (arith, r.place, r.size, h.size)) in
    elim (Bool-cases (ltb (n - k) first)) [
      | inl last ↦ (
        none,
        rw (test_k, test_n, eq, ef, last),
        (λ d e. cc),
        λ _. ended j q first r ef (ltb→lt _ _ last),
      )
      | inr more ↦ (
        some c,
        rw (test_k, test_n, eq, ef, more, ec),
        (λ d e.
            let same : c ≡ d = some-injective _ _ e in
            rw (← same) (
              combined limit k j x previous q c h r ex size kept filled (λ y ey.
                  let is = some-injective _ _ (sym ef ∙ ey) in
                  let low = ltb→ge _ _ more in omega arith),
              (j, x, ex, kept j (omega arith) ∙ raised, λ l b. kept l (omega arith) ∙ r.kept l b),
            )),
        λ e. cc,
      )
    ]
  where
    ended :
        (j : ℕ) (q : List ℕ) (first : ℕ)
        → Raises (n - k + 1) (k - 1) previous j q
        → get_elem? q 0 ≡ some first
        → n - k < first
        → get_elem? previous 0 ≡ some (n - k)
    ended zero q first r ef high =
        let (x, ex) = get_elem?-lt previous 0 (omega (arith, h.size)) in
        let is = some-injective _ _ (sym ef ∙ (r.raised x ex).0) in
        let low = h.first x ex in let at : x ≡ n - k = omega arith in ex ∙ ap some at
    ended (suc j) q first r ef high =
        let low = h.first first (sym (r.kept 0 (omega arith)) ∙ ef) in absurd (omega arith)
