-- ===== src/Cgraph/Faster.antt =====
-- cgraph/src/lib.rs: matrices of speeds that only rise, and loops over them.
use kollaps.Prelude.{
  ℕ, zero, suc, ◌+◌, ◌≤◌, ◌<◌, ◌≡◌, refl, sym, ap, ◌∙◌, inl, inr, true, ◌&&◌, some, arith, ltb,
  ◌==◌, min, Bool-cases, ℕ_discrete,
}
use mathlib.Core.Option.{some-injective}
use kollaps.Matrix.{SymMatrix, size, index}
use kollaps.Matrix.Access.{IsValid, same_pair, index-some, index_comm}
use kollaps.Cgraph.{
  TestData, Node, ok, ok_or, panic, no_resource, ◌>>=◌, for_range, update, contains, min_speed,
  transit, update_speeds,
}
use kollaps.Cgraph.Cells.{update_lem}

-- `m` has the shape of `old`, and no speed of it is lower.
pub record Faster (old m : SymMatrix TestData) : Type 0 where
  pub same_size : m.n ≡ old.n
  pub valid : IsValid m
  pub speeds :
      (r c : ℕ)
      → r < old.n
      → c < old.n
      → (d e : TestData) → index old r c ≡ some d
      → index m r c ≡ some e
      → d.speed ≤ e.speed

pub Faster-refl : (m : SymMatrix TestData) → IsValid m → Faster m m
Faster-refl m v = record {
  same_size = refl;
  valid = v;
  speeds = λ r c hr hc d e ed ee.
      let same : d ≡ e = some-injective _ _ (sym ed ∙ ee) in
      let at : d.speed ≡ e.speed = ap (λ (x : TestData). x.speed) same in omega arith;
}

pub Faster-trans : (a b c : SymMatrix TestData) → IsValid b → Faster a b → Faster b c → Faster a c
Faster-trans a b c v f g = record {
  same_size = g.same_size ∙ f.same_size;
  valid = g.valid;
  speeds = λ r s hr hs d e ed ee.
      let inside = f.same_size in
      let (x, ex) = index-some b r s v (omega arith) (omega arith) in
      let low = f.speeds r s hr hs d x ed ex in
      let high = g.speeds r s (omega arith) (omega arith) x e ex ee in omega arith;
}

-- The cell of `i` and `j` in `t` is as fast as the way over `k` in `x`.
abbrev pub Over : SymMatrix TestData → SymMatrix TestData → ℕ → ℕ → ℕ → Type 0
Over x t i j k =
    (a b c : TestData)
    → index x i k ≡ some a
    → index x k j ≡ some b
    → index t i j ≡ some c
    → min a.speed b.speed ≤ c.speed

pub Over-Faster :
    (m x y : SymMatrix TestData) (i j k : ℕ)
    → IsValid x
    → i < x.n
    → j < x.n
    → Faster x y
    → Over m x i j k
    → Over m y i j k
Over-Faster m x y i j k v hi hj f over a b c ea eb ec =
    let (d, ed) = index-some x i j v hi hj in
    let low = over a b d ea eb ed in let high = f.speeds i j hi hj d c ed ec in omega arith

-- A loop over matrices that are no slower than `m`: what a round establishes and faster matrices
-- keep holds of each index in the end.
pub for_range-Faster :
    (m : SymMatrix TestData) (Q : ℕ → SymMatrix TestData → Type 0)
    (body : ℕ → SymMatrix TestData → kollaps.Cgraph.Result (SymMatrix TestData)) (count start : ℕ)
    (s : SymMatrix TestData)
    → ((k : ℕ) (x : SymMatrix TestData)
        → k < m.n
        → Faster m x
        → (y : SymMatrix TestData) × (body k x ≡ ok y) × Faster x y × Q k y)
    → ((k : ℕ) (x y : SymMatrix TestData) → k < m.n → Faster m x → Faster x y → Q k x → Q k y)
    → start + count ≤ m.n
    → Faster m s
    → (t : SymMatrix TestData) × (for_range count start body s ≡ ok t)
      × Faster s t
      × ((k : ℕ) → start ≤ k → k < start + count → Q k t)
unfolding for_range
for_range-Faster m Q body zero start s each keep h f =
    (s, refl, Faster-refl s f.valid, (λ k low high. absurd (omega arith)))
for_range-Faster m Q body (suc count) start s each keep h f =
    let (y, ey, fy, qy) = each start s (omega arith) f in
    let fm = Faster-trans m s y f.valid f fy in
    let (t, et, ft, qt) =
      for_range-Faster m Q body count (start + 1) y each keep (omega arith) fm in
    (
      t,
      rw ey et,
      Faster-trans s y t fy.valid fy ft,
      λ k low high. elim (ℕ_discrete start k) [
        | yes here ↦ rw (← here) (keep start y t (omega arith) fm ft qy)
        | no beyond ↦ qt k (omega arith) (omega arith)
      ],
    )

pub below_le : (a b : ℕ) → ltb a b ≡ true → a ≤ b
below_le a b h = ground arith

pub same_pair-index :
    (m : SymMatrix TestData) (r c s e : ℕ) → same_pair r c s e ≡ true → index m r c ≡ index m s e
same_pair-index m r c s e h = elim (Bool-cases (r == s && c == e)) [
  | inl here ↦ let a : r ≡ s = ground arith in let b : c ≡ e = ground arith in rw (a, b)
  | inr turned ↦
      let a : r ≡ e = ground arith in let b : c ≡ s = ground arith in rw (a, b) (index_comm m e s)
]

-- A write that does not lower the speed of its cell.
pub update-Faster :
    (m : SymMatrix TestData) (r c : ℕ) (f : TestData → TestData)
    → IsValid m
    → r < m.n
    → c < m.n
    → ((d : TestData) → index m r c ≡ some d → d.speed ≤ (f d).speed)
    → (w : SymMatrix TestData) × (update m r c f ≡ ok w)
      × Faster m w
      × ((d : TestData) → index m r c ≡ some d → index w r c ≡ some (f d))
update-Faster m r c f v hr hc up =
    let (d, w, ed, ew, size, valid, cells) = update_lem m r c f v hr hc in
    (
      w,
      ew,
      record {
        same_size = size;
        valid = valid;
        speeds = λ s t hs ht x y ex ey. elim (Bool-cases (same_pair r c s t)) [
          | inl same ↦
              let was : d ≡ x = some-injective _ _ (sym ed ∙ same_pair-index m r c s t same ∙ ex) in
              let is : f d ≡ y = some-injective _ _ (sym (cells s t hs ht ∙ rw same) ∙ ey) in
              rw (← was, ← is) (up d ed)
          | inr other ↦
              let is : x ≡ y =
                some-injective _ _ (sym ex ∙ sym (cells s t hs ht ∙ rw other) ∙ ey) in
              let at : x.speed ≡ y.speed = ap (λ (z : TestData). z.speed) is in omega arith
        ];
      },
      (λ x ex.
          let was : d ≡ x = some-injective _ _ (sym ed ∙ ex) in
          let hit : same_pair r c r c ≡ true = ground arith in cells r c hr hc ∙ rw (hit, was)),
    )
