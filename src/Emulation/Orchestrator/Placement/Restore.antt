-- ===== src/Emulation/Orchestrator/Placement/Restore.antt =====
-- emulation/src/orchestrator.rs: the bandwidth that a new emulation takes and that its stop gives
-- back, cell by cell of the residual graph.
use kollaps.Prelude.{
  ℕ, zero, suc, ◌+◌, ◌-◌, ◌≤◌, ◌<◌, ◌≡◌, ◌≢◌, refl, sym, ap, ◌∙◌, inl, inr, true, false, some, List,
  [], ◌∷◌, arith, ltb, ltb→ge, lt→ltb, ◌==◌, ne→==, get_elem?, set, length, length-set,
  lt-length_of_get, Bool-cases, ℕ_discrete,
}
use kollaps.Matrix.{SymMatrix, out_to_in_index, index, index_mut}
use kollaps.Cgraph.{ok, ok_or, panic}
use kollaps.Cgraph.Results.{bind-ok, ok_or-ok, ok-injective}
use kollaps.Netgraph.Link.{u32_max}
use kollaps.Emulation.Orchestrator.{take_bandwidth, give_bandwidth}
use kollaps.Emulation.Orchestrator.Placement.{reserve, restore}

-- The number at a place, 0 behind the end.
abbrev pub at : List ℕ → ℕ → ℕ
at [] i = 0
at (x ∷ xs) zero = x
at (x ∷ xs) (suc i) = at xs i

at-set_self : (xs : List ℕ) (i v : ℕ) → i < length xs → at (set xs i v) i ≡ v
at-set_self [] i v h = elim h [ ]
at-set_self (x ∷ xs) zero v h = refl
at-set_self (x ∷ xs) (suc i) v h = at-set_self xs i v (omega arith)

at-set_ne : (xs : List ℕ) (i j v : ℕ) → i ≢ j → at (set xs i v) j ≡ at xs j
at-set_ne [] i j v h = refl
at-set_ne (x ∷ xs) zero zero v h = absurd (h refl)
at-set_ne (x ∷ xs) zero (suc j) v h = refl
at-set_ne (x ∷ xs) (suc i) zero v h = refl
at-set_ne (x ∷ xs) (suc i) (suc j) v h = at-set_ne xs i j v (λ e. h (ap suc e))

get-at : (xs : List ℕ) (i : ℕ) → i < length xs → get_elem? xs i ≡ some (at xs i)
get-at [] i h = elim h [ ]
get-at (x ∷ xs) zero h = refl
get-at (x ∷ xs) (suc i) h = get-at xs i (omega arith)

at-get : (xs : List ℕ) (i x : ℕ) → get_elem? xs i ≡ some x → at xs i ≡ x
at-get [] i x h = cc
at-get (y ∷ xs) zero x h = cc
at-get (y ∷ xs) (suc i) x h = at-get xs i x h

pub at_ext : (xs ys : List ℕ) → length xs ≡ length ys → ((i : ℕ) → at xs i ≡ at ys i) → xs ≡ ys
at_ext [] [] l h = refl
at_ext [] (y ∷ ys) l h = absurd (omega arith)
at_ext (x ∷ xs) [] l h = absurd (omega arith)
at_ext (x ∷ xs) (y ∷ ys) l h =
    let head : x ≡ y = h 0 in
    rw head (ap (λ zs. y ∷ zs) (at_ext xs ys (omega arith) (λ i. h (suc i))))

abbrev packed : ℕ → List ℕ → SymMatrix ℕ
packed n items = record { n = n; items = items }

matrix_ext : (t m : SymMatrix ℕ) → t.n ≡ m.n → t.items ≡ m.items → t ≡ m
matrix_ext t m e f = go t.n m.n t.items m.items e f
  where
    go : (k n : ℕ) (xs ys : List ℕ) → k ≡ n → xs ≡ ys → packed k xs ≡ packed n ys
    go k n xs ys e f = rw (e, f)

-- What a step does to the cell of a pair of hosts.
record Taken (m m' : SymMatrix ℕ) (k bw : ℕ) : Type 0 where
  pub inside : k < length m.items
  pub enough : bw ≤ at m.items k
  pub result : m' ≡ record m { items = set m.items k (at m.items k - bw) }

take_bandwidth_lem :
    (m m' : SymMatrix ℕ) (a b bw : ℕ)
    → take_bandwidth m a b bw ≡ ok m'
    → Taken m m' (out_to_in_index a b m.n) bw
unfolding take_bandwidth index index_mut
take_bandwidth_lem m m' a b bw h =
    let k = out_to_in_index a b m.n in
    let (x, ex, rest) = bind-ok _ _ _ h in
    let read = ok_or-ok _ _ _ ex in
    let inside = lt-length_of_get m.items k x read in
    let is = at-get m.items k x read in
    elim (Bool-cases (ltb x bw)) [
      | inl short ↦ cc
      | inr room ↦
          let same : ok_or (index_mut m a b (x - bw)) panic ≡ ok m' = rw room at rest in
          let test : ltb k (length m.items) ≡ true = lt→ltb k (length m.items) inside in
          let le = ltb→ge _ _ room in
          let wrote : record m { items = set m.items k (x - bw) } ≡ m' =
            ok-injective _ _ (rw test at same) in
          record { inside = inside; enough = rw is le; result = rw is (sym wrote) }
    ]

give_bandwidth_lem :
    (m : SymMatrix ℕ) (a b bw : ℕ)
    → out_to_in_index a b m.n < length m.items
    → at m.items (out_to_in_index a b m.n) + bw ≤ u32_max
    → give_bandwidth m a b bw
      ≡ ok (record m {
        items = set m.items (out_to_in_index a b m.n) (at m.items (out_to_in_index a b m.n) + bw);
      })
unfolding give_bandwidth index index_mut
give_bandwidth_lem m a b bw inside fits =
    let k = out_to_in_index a b m.n in
    let room : ltb u32_max (at m.items k + bw) ≡ false = ground arith in
    let test : ltb k (length m.items) ≡ true = lt→ltb _ _ inside in
    rw (get-at m.items k inside, room, test)

-- The pairs of applications are on different hosts.
abbrev pub Apart : List ℕ → List (ℕ × ℕ) → Type 0
Apart equivalence [] = Unit
Apart equivalence ((i, j) ∷ rest) =
    ((a : ℕ) → get_elem? equivalence i ≡ some a → get_elem? equivalence j ≢ some a)
    × Apart equivalence rest

module _ (matrix : SymMatrix ℕ) (equivalence : List ℕ) where
  -- What a successful `reserve` did for the first pair.
  record Reserved (i j : ℕ) (rest : List (ℕ × ℕ)) (m m' : SymMatrix ℕ) : Type 0 where
    pub a : ℕ
    pub b : ℕ
    pub bw : ℕ
    pub next : SymMatrix ℕ
    pub is_a : get_elem? equivalence i ≡ some a
    pub is_b : get_elem? equivalence j ≡ some b
    pub is_bw : index matrix i j ≡ some bw
    pub taken : Taken m next (out_to_in_index a b m.n) bw
    pub after : reserve matrix equivalence rest next ≡ ok m'

  reserve_step :
      (i j : ℕ) (rest : List (ℕ × ℕ)) (m m' : SymMatrix ℕ)
      → ((a : ℕ) → get_elem? equivalence i ≡ some a → get_elem? equivalence j ≢ some a)
      → reserve matrix equivalence ((i, j) ∷ rest) m ≡ ok m'
      → Reserved i j rest m m'
  unfolding reserve
  reserve_step i j rest m m' apart h =
      let (a, ea, h1) = bind-ok _ _ _ h in
      let (b, eb, _) = bind-ok _ _ _ h1 in
      let is_a = ok_or-ok _ _ _ ea in
      let is_b = ok_or-ok _ _ _ eb in
      let test : (a == b) ≡ false = ne→== a b (λ e. apart a is_a (is_b ∙ ap some (sym e))) in
      let chain = rw (is_a, is_b, test) at h in
      let (next, en, h3) = bind-ok _ _ _ chain in
      let (bw, ebw, h4) = bind-ok _ _ _ en in
      record {
        a = a;
        b = b;
        bw = bw;
        next = next;
        is_a = is_a;
        is_b = is_b;
        is_bw = ok_or-ok _ _ _ ebw;
        taken = take_bandwidth_lem m next a b bw h4;
        after = h3;
      }

  -- Bandwidth is only taken.
  reserve_le :
      (ps : List (ℕ × ℕ)) (m m' : SymMatrix ℕ)
      → Apart equivalence ps
      → reserve matrix equivalence ps m ≡ ok m'
      → (m'.n ≡ m.n) × (length m'.items ≡ length m.items) × ((c : ℕ) → at m'.items c ≤ at m.items c)
  unfolding reserve
  reserve_le [] m m' apart h =
      let same : m ≡ m' = ok-injective _ _ h in rw (← same) (refl, refl, λ c. omega arith)
  reserve_le ((i, j) ∷ rest) m m' apart h =
      let s = reserve_step i j rest m m' apart.0 h in
      let k = out_to_in_index s.a s.b m.n in
      let next = record m { items = set m.items k (at m.items k - s.bw) } in
      let after : reserve matrix equivalence rest next ≡ ok m' = rw s.taken.result at s.after in
      let (sn, sl, le) = reserve_le rest next m' apart.1 after in
      (
        sn,
        sl ∙ length-set m.items k (at m.items k - s.bw),
        λ c. elim (ℕ_discrete c k) [
          | yes e ↦
              let at_k = at-set_self m.items k (at m.items k - s.bw) s.taken.inside in
              let low = le k in rw e (omega arith)
          | no ne ↦
              let at_c = at-set_ne m.items k c (at m.items k - s.bw) (λ e. ne (sym e)) in
              let low = le c in omega arith
        ],
      )

  -- What `reserve` takes from `m`, `restore` gives to any graph `t` with room for it.
  restore_lem :
      (ps : List (ℕ × ℕ)) (m m' t : SymMatrix ℕ)
      → Apart equivalence ps
      → reserve matrix equivalence ps m ≡ ok m'
      → t.n ≡ m.n
      → length t.items ≡ length m.items
      → ((c : ℕ) → at t.items c + at m.items c ≤ u32_max + at m'.items c)
      → (t' : SymMatrix ℕ) × (restore matrix equivalence ps t ≡ ok t')
        × (t'.n ≡ t.n)
        × (length t'.items ≡ length t.items)
        × ((c : ℕ) → at t'.items c + at m'.items c ≡ at t.items c + at m.items c)
  unfolding reserve restore
  restore_lem [] m m' t apart h tn tl room =
      let same : m ≡ m' = ok-injective _ _ h in (t, refl, refl, refl, λ c. rw same)
  restore_lem ((i, j) ∷ rest) m m' t apart h tn tl room =
      let s = reserve_step i j rest m m' apart.0 h in
      let k = out_to_in_index s.a s.b m.n in
      let same_k : out_to_in_index s.a s.b t.n ≡ k = ap (out_to_in_index s.a s.b) tn in
      let next = record m { items = set m.items k (at m.items k - s.bw) } in
      let after : reserve matrix equivalence rest next ≡ ok m' = rw s.taken.result at s.after in
      let lower = at-set_self m.items k (at m.items k - s.bw) s.taken.inside in
      let (_, _, le) = reserve_le rest next m' apart.1 after in
      let low = le k in
      let room_k = room k in
      let enough = s.taken.enough in
      let inside : k < length t.items = omega (arith, s.taken.inside) in
      let more = at t.items k + s.bw in
      let raised = record t { items = set t.items k more } in
      let higher = at-set_self t.items k more inside in
      let given : give_bandwidth t s.a s.b s.bw ≡ ok raised =
        rw same_k at
          (give_bandwidth_lem t s.a s.b s.bw (rw same_k inside) (rw same_k (omega arith))) in
      let (t', et, tn', tl', cells) =
        restore_lem rest next m' raised apart.1 after tn
          (length-set t.items k more ∙ tl ∙ sym (length-set m.items k (at m.items k - s.bw)))
          (λ c. elim (ℕ_discrete c k) [
            | yes e ↦ rw e (omega arith)
            | no ne ↦
                let below = at-set_ne m.items k c (at m.items k - s.bw) (λ e. ne (sym e)) in
                let above = at-set_ne t.items k c more (λ e. ne (sym e)) in
                let old = room c in omega arith
          ]) in
      (
        t',
        rw (s.is_a, s.is_b, s.is_bw, given) et,
        tn',
        tl' ∙ length-set t.items k more,
        λ c. elim (ℕ_discrete c k) [
          | yes e ↦ let new = cells k in rw e (omega arith)
          | no ne ↦
              let below = at-set_ne m.items k c (at m.items k - s.bw) (λ e. ne (sym e)) in
              let above = at-set_ne t.items k c more (λ e. ne (sym e)) in
              let new = cells c in omega arith
        ],
      )

  -- Where no two applications share a host, what was reserved and is restored at once leaves the
  -- residual graph as it was.
  pub restore-reserve :
      (ps : List (ℕ × ℕ)) (m m' : SymMatrix ℕ)
      → Apart equivalence ps
      → ((c : ℕ) → at m.items c ≤ u32_max)
      → reserve matrix equivalence ps m ≡ ok m'
      → restore matrix equivalence ps m' ≡ ok m
  restore-reserve ps m m' apart bound h =
      let (sn, sl, _) = reserve_le ps m m' apart h in
      let (t, et, tn, tl, cells) =
        restore_lem ps m m' m' apart h sn sl (λ c. let b = bound c in omega arith) in
      let items : t.items ≡ m.items =
        at_ext t.items m.items (tl ∙ sl) (λ c. let e = cells c in omega arith) in
      et ∙ ap ok (matrix_ext t m (tn ∙ sn) items)
