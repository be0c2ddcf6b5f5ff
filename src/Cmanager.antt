-- ===== src/Cmanager.antt =====
-- cmanager/src: the cluster manager, which keeps the graph of the cluster's nodes.
pub mod Event
pub mod Controller
