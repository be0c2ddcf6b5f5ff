-- ===== src/Netgraph/Search/Adjacency.antt =====
-- The graph that a network stands for, and `neighbours`.
use kollaps.Prelude.{
  ℕ, zero, suc, ◌+◌, ◌≤◌, ◌<◌, ◌≡◌, ◌≢◌, refl, sym, inl, inr, not, ◌&&◌, Option, none, some, List,
  [], ◌∷◌, arith, ◌==◌, ==→≡, ltb, Bool-cases, Option-cases, if◌then◌else◌,
}
use kollaps.Matrix.{index, size}
use kollaps.Matrix.Access.{IsValid, index-some}
use kollaps.Netgraph.Link.{Link, bandwidth}
use kollaps.Netgraph.Network.{Network, neighbours, neighbours_from}
use kollaps.Netgraph.Search.Labels.{Links, In}

module _ {T F : Type 0} (net : Network T F) where
  abbrev nodes : ℕ
  nodes = net.links.n

  cell_bandwidth : Option (Option (Link T F)) → Option ℕ
  cell_bandwidth none = none
  cell_bandwidth (some none) = none
  cell_bandwidth (some (some l)) = some (bandwidth l)

  -- The bandwidth of the link between two different nodes.
  pub link_of : Links
  unfolding cell_bandwidth
  link_of u v =
      if ltb u nodes && ltb v nodes && not (u == v)
      then cell_bandwidth (index net.links u v)
      else none

  pub link_of-some :
      (u v w : ℕ)
      → link_of u v ≡ some w
      → (l : Link T F) × (index net.links u v ≡ some (some l))
        × (bandwidth l ≡ w)
        × (u < nodes)
        × (v < nodes)
        × (u ≢ v)
  unfolding link_of
  link_of-some u v w e = elim (Option-cases (index net.links u v)) [
    | inl panic ↦ ground arith
    | inr (none, got) ↦ ground arith
    | inr (some l, got) ↦ (l, got, ground arith, ground arith, ground arith, ground arith)
  ]

  -- The loop from `i` on finds the joined nodes from `i` on.
  record Finds (u i : ℕ) (ns : List ℕ) : Type 0 where
    joined : (v : ℕ) → In v ns → (w : ℕ) × (link_of u v ≡ some w) × (v < nodes)
    all : (v w : ℕ) → i ≤ v → link_of u v ≡ some w → In v ns

  Finds-skip : {u i : ℕ} {ns : List ℕ} → Finds u (i + 1) ns → link_of u i ≡ none → Finds u i ns
  Finds-skip {u} {i} f unjoined = record {
    joined = f.joined;
    all = λ v w b e. elim (Bool-cases (i == v)) [
      | inl same ↦ let at : i ≡ v = ==→≡ i v same in absurd (cc)
      | inr off ↦ f.all v w (ground arith) e
    ];
  }

  Finds-keep :
      {u i w : ℕ} {ns : List ℕ}
      → Finds u (i + 1) ns
      → link_of u i ≡ some w
      → i < nodes
      → Finds u i (i ∷ ns)
  Finds-keep {i} {w} f k b = record {
    joined = λ v. elim [ inl e ↦ (w, rw e k, rw e b) | inr later ↦ f.joined v later ];
    all = λ v x le e. elim (Bool-cases (i == v)) [
      | inl same ↦ inl (sym (==→≡ i v same))
      | inr off ↦ inr (f.all v x (ground arith) e)
    ];
  }

  module _ (u : ℕ) (valid : IsValid net.links) (h : u < nodes) where
    neighbours_from_lem :
        (left i : ℕ)
        → i + left ≡ nodes
        → (ns : List ℕ) × (neighbours_from net.links u left i ≡ some ns) × Finds u i ns
    unfolding neighbours_from link_of
    neighbours_from_lem zero i e =
        ([], refl, record { joined = λ v nowhere. absurd nowhere; all = λ v w b k. ground arith })
    neighbours_from_lem (suc left) i e =
        let (ns, en, f) = neighbours_from_lem left (i + 1) (omega arith) in
        let (cell, ec) = index-some net.links u i valid h (omega arith) in
        elim (Option-cases (link_of u i)) [
          | inl unjoined ↦ (ns, rw (ec, en) (ground arith), Finds-skip f unjoined)
          | inr (w, k) ↦ (i ∷ ns, rw (ec, en) (ground arith), Finds-keep f k (omega arith))
        ]

    pub neighbours_lem :
        (ns : List ℕ) × (neighbours net u ≡ some ns)
        × ((v : ℕ) → In v ns → (w : ℕ) × (link_of u v ≡ some w) × (v < nodes))
        × ((v w : ℕ) → link_of u v ≡ some w → In v ns)
    unfolding neighbours size
    neighbours_lem =
        let (ns, e, f) = neighbours_from_lem nodes 0 (omega arith) in
        (ns, e, f.joined, λ v w k. f.all v w (omega arith) k)
