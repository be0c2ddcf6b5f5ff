-- ===== src/Emulation.antt =====
-- emulation/src: the emulation of a network on the cluster.
pub mod Data
pub mod Flows
pub mod Orchestrator
pub mod Sets
pub mod Bandwidth
pub mod Core
pub mod Xml
pub mod Topology
pub mod Protocol
pub mod Dispatch
pub mod Manager
pub mod Host
