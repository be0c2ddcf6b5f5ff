-- ===== src/Emulation/Flows.antt =====
-- emulation/src/data.rs: the flows between the vertices of an emulated network.
use kollaps.Prelude.{ℕ, ◌≡◌, Bool, true, false, ◌&&◌, arith}
use kollaps.Netgraph.Link.{VertexEq}

pub record Flow (T : Type 0) : Type 0 where
  pub source : T
  pub destination : T
  pub authorized_bandwidth : ℕ
  pub used_bandwidth : ℕ
  pub max_allowed_bandwidth : ℕ
  pub hungry : Bool

module _ {T : Type 0} where
  unfoldable pub build_flow : T → T → ℕ → ℕ → Flow T
  build_flow source destination max_allowed_bandwidth used_bandwidth = record {
    source = source;
    destination = destination;
    authorized_bandwidth = 0;
    used_bandwidth = used_bandwidth;
    max_allowed_bandwidth = max_allowed_bandwidth;
    hungry = false;
  }

  unfoldable pub set_hungry : Flow T → Bool → Flow T
  set_hungry f val = record f { hungry = val }

  unfoldable pub flow_eq : VertexEq T → Flow T → Flow T → Bool
  flow_eq v a b = v.beq a.source b.source && v.beq a.destination b.destination

  pub flow_eq_refl : (v : VertexEq T) (a : Flow T) → flow_eq v a a ≡ true
  unfolding flow_eq
  flow_eq_refl v a = ground (arith, v.beq_refl a.source, v.beq_refl a.destination)

  pub flow_eq_sym : (v : VertexEq T) (a b : Flow T) → flow_eq v a b ≡ true → flow_eq v b a ≡ true
  unfolding flow_eq
  flow_eq_sym v a b h =
      ground (arith, v.beq_sym a.source b.source, v.beq_sym a.destination b.destination)

  pub flow_eq_trans :
      (v : VertexEq T) (a b c : Flow T)
      → flow_eq v a b ≡ true
      → flow_eq v b c ≡ true
      → flow_eq v a c ≡ true
  unfolding flow_eq
  flow_eq_trans v a b c h k = ground (
    arith,
    v.beq_trans a.source b.source c.source,
    v.beq_trans a.destination b.destination c.destination,
  )

  abbrev pub by_flow : VertexEq T → VertexEq (Flow T)
  by_flow v = record {
    beq = flow_eq v;
    beq_refl = flow_eq_refl v;
    beq_sym = flow_eq_sym v;
    beq_trans = flow_eq_trans v;
  }
