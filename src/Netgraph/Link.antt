-- ===== src/Netgraph/Link.antt =====
-- netgraph/src/lib.rs: links, their equality, hash and order, and the entries of the queue.
-- An `f32` is a value of a type `F` with the two things that the code uses: zero and addition.
use kollaps.Prelude.{ℕ, ◌/◌, ◌≡◌, Bool, true, ◌&&◌, ◌||◌, ltb, if◌then◌else◌}
use Prim.Native.Nat.{Ordering}

-- The equality that a vertex type implements: an equivalence, not always identity of values.
pub record VertexEq (T : Type 0) : Type 0 where
  pub beq : T → T → Bool
  pub beq_refl : (a : T) → beq a a ≡ true
  pub beq_sym : (a b : T) → beq a b ≡ true → beq b a ≡ true
  pub beq_trans : (a b c : T) → beq a b ≡ true → beq b c ≡ true → beq a c ≡ true

pub record Floats (F : Type 0) : Type 0 where
  pub zero_f : F
  pub add_f : F → F → F

pub data Duplex : Type 0 where
  half_duplex full_duplex : Duplex

pub record Link (T F : Type 0) : Type 0 where
  pub internal_source : ℕ
  pub internal_destination : ℕ
  pub source : T
  pub destination : T
  pub bandwidth_field : ℕ
  pub drop : F
  pub latency_jitter : F × F
  pub duplex : Duplex

-- `u32::MAX`
abbrev pub u32_max : ℕ
u32_max = 4294967295

-- The `match` of `bandwidth`.
bandwidth_of : Duplex → ℕ → ℕ
bandwidth_of full_duplex bandwidth = bandwidth
bandwidth_of half_duplex bandwidth = bandwidth / 2

module _ {T F : Type 0} where
  pub link_eq : VertexEq T → Link T F → Link T F → Bool
  link_eq v a b =
      v.beq a.source b.source && v.beq a.destination b.destination
      || v.beq a.destination b.source && v.beq a.source b.destination

  -- The pair that `Hash` feeds to the hasher.
  pub hash_key : Link T F → ℕ × ℕ
  hash_key l =
      if ltb l.internal_destination l.internal_source
      then (l.internal_destination, l.internal_source)
      else (l.internal_source, l.internal_destination)

  unfoldable pub bandwidth : Link T F → ℕ
  unfolding bandwidth_of
  bandwidth l = bandwidth_of l.duplex l.bandwidth_field

  pub link_cmp : Link T F → Link T F → Ordering
  unfolding bandwidth
  link_cmp a b =
      if ltb (bandwidth a) (bandwidth b)
      then Ordering.lt
      else if ltb (bandwidth b) (bandwidth a)
      then Ordering.gt
      else Ordering.eq

  unfoldable pub set_duplex : Link T F → Duplex → Link T F
  set_duplex l d = record l { duplex = d }

  unfoldable pub build_all : T → T → ℕ → ℕ → ℕ → F × F → F → Link T F
  build_all source destination internal_source internal_destination bw latency_jitter drop =
      record {
        internal_source = internal_source;
        internal_destination = internal_destination;
        source = source;
        destination = destination;
        bandwidth_field = bw;
        drop = drop;
        latency_jitter = latency_jitter;
        duplex = full_duplex;
      }

  unfoldable pub build : Floats F → T → T → ℕ → ℕ → ℕ → Link T F
  unfolding build_all
  build f source destination internal_source internal_destination bw = record {
    internal_source = internal_source;
    internal_destination = internal_destination;
    source = source;
    destination = destination;
    bandwidth_field = bw;
    drop = f.zero_f;
    latency_jitter = (f.zero_f, f.zero_f);
    duplex = full_duplex;
  }
