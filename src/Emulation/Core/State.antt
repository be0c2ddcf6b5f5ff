-- ===== src/Emulation/Core/State.antt =====
-- emulation/src/emulcore.rs: what a core knows of its emulation.
--
-- `none` is a panic.
use kollaps.Prelude.{Option, some, List, [], ◌∷◌, if◌then◌else◌, ◌>>=◌}
use kollaps.Netgraph.Link.{VertexEq}
use kollaps.Netgraph.Network.{Network, vertices, insert}
use kollaps.Netgraph.Queries.{keep_vertices}
use kollaps.Common.EmulMessage.{EmulationEvent}
use kollaps.Emulation.Data.{ClusterNodeInfo, Node, Emulation, is_app, as_app, runs_on, by_info}
use kollaps.Emulation.Flows.{Flow}
use kollaps.Emulation.Sets.{add}

pub data AppStatus : Type 0 where
  not_init is_running stopped crashed : AppStatus

pub record EmulCore (Ip Text F : Type 0) : Type 0 where
  pub cluster_leader : ClusterNodeInfo Ip
  pub graph : Network (Node Ip Text) F
  pub events : List EmulationEvent
  pub other_hosts : List (ClusterNodeInfo Ip)
  pub ip_to_app : List (Ip × Node Ip Text)
  pub myself : ClusterNodeInfo Ip
  pub emul_id : Text

-- The applications of this machine, and the variables of the loop.
pub record State (Ip Text F : Type 0) : Type 0 where
  pub my_apps : List (Node Ip Text × AppStatus)
  pub active_flows : List (Flow (Node Ip Text))
  pub bw_graph : Network (Node Ip Text) F

module _ {Ip Text : Type 0} (ips : VertexEq Ip) where
  -- The hosts of the applications that run elsewhere.
  unfoldable pub hosts_of :
      ClusterNodeInfo Ip
      → List (Node Ip Text)
      → List (ClusterNodeInfo Ip)
      → Option (List (ClusterNodeInfo Ip))
  unfolding as_app runs_on add
  hosts_of myself [] acc = some acc
  hosts_of myself (node ∷ nodes) acc = do
    a ← as_app node
    here ← runs_on ips a myself
    host ← a.host
    hosts_of myself nodes (if here then acc else add (by_info ips) host acc)

  unfoldable pub addresses :
      List (Node Ip Text) → List (Ip × Node Ip Text) → Option (List (Ip × Node Ip Text))
  unfolding as_app
  addresses [] acc = some acc
  addresses (node ∷ nodes) acc = do
    a ← as_app node
    ip ← a.ip_app
    addresses nodes (insert ips ip node acc)

  unfoldable pub parse_emulation :
      {F : Type 0}
      → Emulation Ip Text F
      → ClusterNodeInfo Ip
      → Option (List (Ip × Node Ip Text) × List (ClusterNodeInfo Ip))
  unfolding hosts_of addresses keep_vertices vertices is_app
  parse_emulation emul myself = do
    let apps = keep_vertices is_app (vertices emul.graph)
    other_host ← hosts_of myself apps []
    ip_to_map ← addresses apps []
    some (ip_to_map, other_host)

  unfoldable pub new :
      {F : Type 0}
      → Emulation Ip Text F
      → ClusterNodeInfo Ip
      → ClusterNodeInfo Ip
      → Option (EmulCore Ip Text F)
  unfolding parse_emulation
  new emul myself cluster_leader = do
    parsed ← parse_emulation emul myself
    some (record {
      cluster_leader = cluster_leader;
      graph = emul.graph;
      events = emul.events;
      other_hosts = parsed.1;
      ip_to_app = parsed.0;
      myself = myself;
      emul_id = emul.uuid;
    })
