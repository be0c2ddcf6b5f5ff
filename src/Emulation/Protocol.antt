-- ===== src/Emulation/Protocol.antt =====
-- common/src/topology_message.rs and emulation/src/data.rs: the messages between the manager of the
-- cluster and the managers of the machines.
use kollaps.Prelude.{ℕ, Option}
use Prim.Native.String.{String}
use kollaps.Netgraph.Link.{VertexEq}
use kollaps.Common.EmulMessage.{EmulMessage}
use kollaps.Emulation.Data.{ClusterNodeInfo, Emulation}

-- The crate `uuid`.
pub record Ids (Key : Type 0) : Type 0 where
  pub same : VertexEq Key
  pub parse_str : String → Option Key
  pub to_string : Key → String

pub data RejectReason : Type 0 where
  too_much no_deployment_found bad_topology : RejectReason

pub data ManagerMessage (Ip : Type 0) : Type 0 where
  new_topology : String → ManagerMessage Ip
  accepted : ManagerMessage Ip
  rejected : RejectReason → ManagerMessage Ip
  abort : String → ManagerMessage Ip
  clean_stop : String → ClusterNodeInfo Ip → ℕ → ManagerMessage Ip
  emulation_ready : String → ClusterNodeInfo Ip → ManagerMessage Ip

-- The messages to the managers of the machines of the cluster.
pub data EManagerMessage (Ip F : Type 0) : Type 0 where
  emul_core_interchange : String → EmulMessage Ip F → EManagerMessage Ip F
  experiment_new : ClusterNodeInfo Ip → Emulation Ip String F → EManagerMessage Ip F
  experiment_stop : String → EManagerMessage Ip F
  experiment_ready : String → EManagerMessage Ip F
