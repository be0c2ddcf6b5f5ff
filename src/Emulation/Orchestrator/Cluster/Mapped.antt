-- ===== src/Emulation/Orchestrator/Cluster/Mapped.antt =====
-- emulation/src/orchestrator.rs: the residual graph keeps its layout, and one row for each host,
-- whatever the orchestrator is asked to do.
use kollaps.Prelude.{
  ℕ, ◌+◌, ◌-◌, ◌≡◌, refl, ◌∙◌, inl, inr, List, [], ◌∷◌, ltb, ◌==◌, get_elem?, length, length-set,
  Bool-cases,
}
use kollaps.Matrix.{SymMatrix, index, index_mut, out_to_in_index}
use kollaps.Cgraph.{Result, ok, ok_or, panic, ◌>>=◌}
use kollaps.Cgraph.Results.{bind-ok, ok-injective}
use kollaps.Netgraph.Link.{u32_max}
use kollaps.Emulation.Orchestrator.{take_bandwidth, give_bandwidth}
use kollaps.Emulation.Orchestrator.Placement.{reserve, restore, restore_app}

-- The two graphs have one layout.
abbrev pub Alike : SymMatrix ℕ → SymMatrix ℕ → Type 0
Alike m m' = (m'.n ≡ m.n) × (length m'.items ≡ length m.items)

pub Alike-trans : (a b c : SymMatrix ℕ) → Alike a b → Alike b c → Alike a c
Alike-trans a b c (n, l) (n', l') = (n' ∙ n, l' ∙ l)

write-Alike :
    (m m' : SymMatrix ℕ) (a b v : ℕ) → ok_or (index_mut m a b v) panic ≡ ok m' → Alike m m'
unfolding index_mut
write-Alike m m' a b v h =
    let i = out_to_in_index a b m.n in
    elim (Bool-cases (ltb i (length m.items))) [
      | inl inside ↦
          let wrote = ok-injective _ _ (rw inside at h) in
          rw (← wrote) (refl, length-set m.items i v)
      | inr out ↦ let no_ok = rw out at h in cc
    ]

take_bandwidth-Alike :
    (m m' : SymMatrix ℕ) (a b bw : ℕ) → take_bandwidth m a b bw ≡ ok m' → Alike m m'
unfolding take_bandwidth
take_bandwidth-Alike m m' a b bw h =
    let (x, _, rest) = bind-ok (ok_or (index m a b) panic) _ m' h in
    elim (Bool-cases (ltb x bw)) [
      | inl short ↦ let no_ok = rw short at rest in cc
      | inr room ↦ write-Alike m m' a b (x - bw) (rw room at rest)
    ]

give_bandwidth-Alike :
    (m m' : SymMatrix ℕ) (a b bw : ℕ) → give_bandwidth m a b bw ≡ ok m' → Alike m m'
unfolding give_bandwidth
give_bandwidth-Alike m m' a b bw h =
    let (x, _, rest) = bind-ok (ok_or (index m a b) panic) _ m' h in
    elim (Bool-cases (ltb u32_max (x + bw))) [
      | inl over ↦ let no_ok = rw over at rest in cc
      | inr fits ↦ write-Alike m m' a b (x + bw) (rw fits at rest)
    ]

module _ (matrix : SymMatrix ℕ) (equivalence : List ℕ) where
  pub reserve-Alike :
      (ps : List (ℕ × ℕ)) (m m' : SymMatrix ℕ)
      → reserve matrix equivalence ps m ≡ ok m'
      → Alike m m'
  unfolding reserve
  reserve-Alike [] m m' h = let same = ok-injective _ _ h in rw (← same) (refl, refl)
  reserve-Alike ((i, j) ∷ ps) m m' h =
      let (a, _, h1) = bind-ok (ok_or (get_elem? equivalence i) panic) _ m' h in
      let (b, _, h2) = bind-ok (ok_or (get_elem? equivalence j) panic) _ m' h1 in
      elim (Bool-cases (a == b)) [
        | inl same ↦ reserve-Alike ps m m' (rw same at h2)
        | inr other ↦
            let taken : Result (SymMatrix ℕ) =
              ok_or (index matrix i j) panic >>= take_bandwidth m a b in
            let (next, en, rest) =
              bind-ok taken (reserve matrix equivalence ps) m' (rw other at h2) in
            let (bw, _, et) = bind-ok (ok_or (index matrix i j) panic) _ next en in
            Alike-trans m next m' (take_bandwidth-Alike m next a b bw et)
              (reserve-Alike ps next m' rest)
      ]

  pub restore-Alike :
      (ps : List (ℕ × ℕ)) (m m' : SymMatrix ℕ)
      → restore matrix equivalence ps m ≡ ok m'
      → Alike m m'
  unfolding restore
  restore-Alike [] m m' h = let same = ok-injective _ _ h in rw (← same) (refl, refl)
  restore-Alike ((i, j) ∷ ps) m m' h =
      let (a, _, h1) = bind-ok (ok_or (get_elem? equivalence i) panic) _ m' h in
      let (b, _, h2) = bind-ok (ok_or (get_elem? equivalence j) panic) _ m' h1 in
      let (bw, _, h3) = bind-ok (ok_or (index matrix i j) panic) _ m' h2 in
      let (next, en, rest) = bind-ok (give_bandwidth m a b bw) _ m' h3 in
      Alike-trans m next m' (give_bandwidth-Alike m next a b bw en) (restore-Alike ps next m' rest)

  pub restore_app-Alike :
      (app_index i : ℕ) (m m' : SymMatrix ℕ)
      → restore_app matrix equivalence app_index i m ≡ ok m'
      → Alike m m'
  unfolding restore_app
  restore_app-Alike app_index i m m' h = elim (Bool-cases (i == app_index)) [
    | inl same ↦ let kept = ok-injective _ _ (rw same at h) in rw (← kept) (refl, refl)
    | inr other ↦
        let (a, _, h1) =
          bind-ok (ok_or (get_elem? equivalence app_index) panic) _ m' (rw other at h) in
        let (b, _, h2) = bind-ok (ok_or (get_elem? equivalence i) panic) _ m' h1 in
        let (bw, _, h3) = bind-ok (ok_or (index matrix app_index i) panic) _ m' h2 in
        give_bandwidth-Alike m m' a b bw h3
  ]
