-- ===== src/Netgraph.antt =====
-- netgraph/src/lib.rs: networks of vertices joined by undirected links, and the two strategies
-- that find paths in them.
pub mod Link
pub mod Heap
pub mod Network
pub mod Search
pub mod Queries
