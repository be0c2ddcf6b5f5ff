-- ===== src/Tests.antt =====
-- Tests of the models on small inputs, with the data that they share.
pub mod Matrices
pub mod Networks
pub mod Clusters
pub mod Wire
pub mod Emulations
pub mod Controllers
pub mod Flows
pub mod Containers
pub mod Starts
pub mod Cores
pub mod Topologies
pub mod Managers
pub mod Hosts
use package.kollaps.Prelude.{
  ℕ, zero, suc, ◌+◌, ◌≡◌, Bool, true, false, Option, none, some, List, [], ◌∷◌, ==_refl, ==→≡, ◌==◌,
  sym, ◌∙◌, arith,
}
use package.kollaps.Matrix.{SymMatrix}
use package.kollaps.Netgraph.Link.{VertexEq, Floats, Link, Duplex}
use package.kollaps.Netgraph.Network.{
  Network, PathStrategy, widest_path_strategy, shortest_path_strategy,
}

pub ==_sym : (a b : ℕ) → (a == b) ≡ true → (b == a) ≡ true
==_sym a b h = ground arith

pub ==_trans : (a b c : ℕ) → (a == b) ≡ true → (b == c) ≡ true → (a == c) ≡ true
==_trans a b c h k = ground arith

-- Vertices and floats are numbers here.
abbrev pub by_number : VertexEq ℕ
by_number = record {
  beq = λ a b. a == b;
  beq_refl = λ a. ==_refl a;
  beq_sym = ==_sym;
  beq_trans = ==_trans;
}

abbrev pub whole : Floats ℕ
whole = record { zero_f = 0; add_f = λ a b. a + b }

-- Three vertices: a wide way over the second one, and a narrow link.
abbrev pub link : ℕ → ℕ → ℕ → ℕ → ℕ → Link ℕ ℕ
link from to i j bw = record {
  internal_source = i;
  internal_destination = j;
  source = from;
  destination = to;
  bandwidth_field = bw;
  drop = 0;
  latency_jitter = (0, 0);
  duplex = Duplex.full_duplex;
}

abbrev pub triangle : PathStrategy → Network ℕ ℕ
triangle strategy = record {
  links = record {
    items =
        none
        ∷ some (link 10 20 0 1 100)
        ∷ some (link 10 30 0 2 5)
        ∷ none
        ∷ some (link 20 30 1 2 40)
        ∷ none
        ∷ [];
    n = 3;
  };
  mapper = (10, 0) ∷ (20, 1) ∷ (30, 2) ∷ [];
  path_strategy = strategy;
}
