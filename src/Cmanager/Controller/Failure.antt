-- ===== src/Cmanager/Controller/Failure.antt =====
-- cmanager/src/controller.rs: a node that misses its heartbeats is removed from the cluster.
use kollaps.Prelude.{ℕ, zero, suc, ◌+◌, ◌≡◌, some, map}
use kollaps.Cgraph.{Node, Result, ok, remove_node, shift, ◌>>=◌}
use kollaps.Cgraph.Membership.{IsCGraph}
use kollaps.Netgraph.Link.{VertexEq}
use kollaps.Netgraph.Network.{get}
use kollaps.Emulation.Data.{ClusterNodeInfo, by_info}
use kollaps.Cmanager.Controller.{Uuids, Ctrl}
use kollaps.Cmanager.Controller.Reactions.{on_failure}

module _ {Ip Key Text : Type 0} (ips : VertexEq Ip) (ids : Uuids Key Text) where
  -- The controller after `count` failures of one node.
  unfoldable pub fail_times : ℕ → ClusterNodeInfo Ip → Ctrl Ip Key Text → Result (Ctrl Ip Key Text)
  unfolding on_failure
  fail_times zero info c = ok c
  fail_times (suc count) info c = do
    before ← fail_times count info c
    r ← on_failure ips ids before info
    ok r.ctrl

  -- So many heartbeats of the node were missed, and nothing else changed.
  pub record Counts (count : ℕ) (info : ClusterNodeInfo Ip) (c d : Ctrl Ip Key Text) : Type 0 where
    pub counted : get (by_info ips) info d.misses ≡ some count
    pub same_graph : d.cgraph ≡ c.cgraph
    pub same_config : d.config ≡ c.config
    pub same_listener : d.has_listener ≡ c.has_listener

  -- The node is gone from the graph, whose other nodes stay.
  pub record Removed (k : Node (ClusterNodeInfo Ip)) (c d : Ctrl Ip Key Text) : Type 0 where
    pub valid : IsCGraph d.cgraph
    pub smaller : d.cgraph.c_graph.n + 1 ≡ c.cgraph.c_graph.n
    pub others : d.cgraph.nodes ≡ map (shift k.index_of) (remove_node c.cgraph.nodes k.index_of)
