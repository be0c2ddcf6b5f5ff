-- ===== src/Emulation/Orchestrator.antt =====
-- emulation/src/orchestrator.rs: the state of the orchestrator, which maps the applications of an
-- emulation to the hosts of the cluster, and the bandwidth that is left between the hosts.
--
-- The errors are those of Cgraph, with `panic` for a panic. A `u32` that would go below 0 or above
-- its greatest value is a panic, as in a build with overflow checks.
pub mod Combination
pub mod Isomorphism
pub mod HostSets
pub mod Placement
pub mod Cluster
use package.kollaps.Prelude.{
  ℕ, ◌+◌, ◌-◌, Bool, Option, none, some, List, [], ◌∷◌, ltb, if◌then◌else◌, get_elem?,
}
use package.kollaps.Matrix.{SymMatrix, index, index_mut}
use package.kollaps.Cgraph.{Result, ok, err, ok_or, panic, ◌>>=◌}
use package.kollaps.Netgraph.Link.{VertexEq, u32_max}
use package.kollaps.Netgraph.Network.{get}
use package.kollaps.Emulation.Data.{ClusterNodeInfo, by_info}

pub record Orchestrator (Ip Uuid : Type 0) : Type 0 where
  pub residual_graph : SymMatrix ℕ
  pub host_mapping : List (ClusterNodeInfo Ip)
  pub attributed_emul : List (ClusterNodeInfo Ip × List Uuid)
  pub emulations : List (Uuid × (SymMatrix ℕ × List ℕ))
  pub current_load : List (ClusterNodeInfo Ip × List (Uuid × ℕ))
  pub max_load : ℕ
  pub emanagers_port : ℕ

-- `m[(row, col)] -= bw`
unfoldable pub take_bandwidth : SymMatrix ℕ → ℕ → ℕ → ℕ → Result (SymMatrix ℕ)
take_bandwidth m row col bw = do
  x ← ok_or (index m row col) panic
  if ltb x bw then err panic else ok_or (index_mut m row col (x - bw)) panic

-- `m[(row, col)] += bw`
unfoldable pub give_bandwidth : SymMatrix ℕ → ℕ → ℕ → ℕ → Result (SymMatrix ℕ)
give_bandwidth m row col bw = do
  x ← ok_or (index m row col) panic
  if ltb u32_max (x + bw) then err panic else ok_or (index_mut m row col (x + bw)) panic

unfoldable pub sum_loads : {Uuid : Type 0} → List (Uuid × ℕ) → ℕ
sum_loads [] = 0
sum_loads ((_, load) ∷ rest) = load + sum_loads rest

module _ {Ip Uuid : Type 0} (ips : VertexEq Ip) where
  unfoldable pub load_of : Option (List (Uuid × ℕ)) → ℕ
  unfolding sum_loads
  load_of none = 0
  load_of (some loads) = sum_loads loads

  unfoldable pub get_actual_load : Orchestrator Ip Uuid → ℕ → Result ℕ
  unfolding get load_of
  get_actual_load o host = do
    node ← ok_or (get_elem? o.host_mapping host) panic
    ok (load_of (get (by_info ips) node o.current_load))
