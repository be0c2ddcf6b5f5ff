-- ===== src/Lib.antt =====
-- Kollaps emulates network topologies on a cluster of machines. This library models the parts of
-- it that compute: the graphs, the searches in them, and the messages between the programs.
--
-- The parts and their files:
--
-- - matrix/src/lib.rs, `SymMatrix`: Matrix. A symmetric matrix in one vector, the upper triangle
--   row by row. `out_to_in_index` and `in_to_out_index` go between a pair and its place; `new_fn`,
--   `grow_fn` and `remove_id` make matrices; `index` and `index_mut` read and write a cell.
--   Matrix/Square models the plain `Matrix`, a vector of rows.
-- - netgraph/src/lib.rs: Netgraph. A `Network` holds its links in a `SymMatrix`, and a mapper from
--   vertices to indices. Netgraph/Link models the links, Netgraph/Network the network and its
--   edits, Netgraph/Heap the order of the queue, Netgraph/Search the functions `widest_path`,
--   `shortest_path` and `path_between`, and Netgraph/Queries the functions that follow the parents
--   of a search: `bandwidth_between`, `properties_between`, `update_edges_along_path_by` and
--   `get_path_between`. Search/Labels is the interface of the two strategies: how a label extends
--   over a link, and which of two is the better one; Search/Widest and Search/Shortest fill it.
-- - cgraph/src/lib.rs: Cgraph. The graph of a cluster's nodes keeps the speeds between them in a
--   `SymMatrix`, whose rows are the indices of the nodes. Cgraph/Missing models
--   `find_missing_from_me`, the other functions are in Cgraph.
-- - common/src: Common. Subnet.antt models common/src/subnet.rs, EmulMessage.antt models
--   common/src/tc_message.rs, and Bytes.antt what the messages share.
-- - cmanager/src/data.rs: Cmanager/Event, the events of the cluster manager as bytes.
-- - emulation/src/data.rs: Emulation/Data, the vertices of an emulated network: applications and
--   bridges, equal by their identifiers. It also models common/src/cluster_node.rs.
-- - emulation/src/orchestrator.rs: Emulation/Orchestrator. An `Orchestrator` keeps the bandwidth that
--   is left between the hosts in a `SymMatrix`, and places the applications of an emulation on
--   hosts. Orchestrator/Isomorphism models the search over the orders of hosts, Orchestrator/HostSets
--   that over the sets of hosts, Orchestrator/Combination `next_comb`, Orchestrator/Placement what
--   is reserved and given back, and Orchestrator/Cluster the hosts that come and leave.
-- - emulation/src/bwsync.rs: Emulation/Bandwidth, the bandwidth of the flows on the links that they
--   share; Emulation/Sets holds the operations of a `HashSet`.
-- - emulation/src/emulcore.rs: Emulation/Core, the core of an emulation on one machine. Core/State
--   models what it knows and `parse_emulation`, Core/Messages its reaction to one message, Core/Loop
--   `flow_loop` and `drop`; Core/Run lists what it does to the outside, each of which may fail.
--   Core/Synchronize models `synchronize` on one machine, and Synchronize/Ring all the machines: a
--   step delivers one waiting message.
-- - emulation/src/xmlgraphparser.rs: the parser of a topology file, from the tree of its elements to
--   a network and a schedule. Emulation/Xml models the elements and their texts, Xml/Services the
--   services and the bridges, Emulation/Topology the links, the schedule and the whole file.
-- - emulation/src/pubapi.rs: the manager of the emulations on the leader: it parses a topology, has
--   the orchestrator place it, and tells the machines to begin and to stop. Emulation/Dispatch models
--   its state and what it sends, Emulation/Manager its reaction to each message. The messages are in
--   Emulation/Protocol.
-- - emulation/src/emanager.rs: Emulation/Host, the manager of one machine: its reaction to each
--   message, and the tasks that create and start an emulation.
-- - cmanager/src/controller.rs: Cmanager/Controller. A `Ctrl` is the state of a node's controller;
--   `on_sent` and `on_own` are its reactions to an event with and without a sender, `begin` its
--   start. What it does to the outside is a list of effects.
-- - dockhelper/src: Dockhelper. Dockhelper/Cmd models the arguments that the builders of
--   dockhelper/src/cmd.rs give to docker, Dockhelper/Helper the functions of dockhelper/src/lib.rs,
--   with what docker answers as a parameter.
-- - Prelude holds what the others share: names of the libraries, Boolean tests, lists, options.
-- - Tests holds examples: each result applied to a small input.
--
-- State is passed explicitly: an operation with `&mut self` takes a record and returns the changed
-- one. A panic is `none`, or the error `panic` where a function returns a `Result`. A function that
-- returns an `Option` and may panic returns an option of an option.
--
-- Numbers are natural numbers. The bandwidths of the source are `u32` and its labels start from
-- `u32::MAX`; the searches only take minima and maxima of them, so that no sum wraps, and the hop
-- count of `shortest_path` is a sum of ones. An `f32` is a value of a type with a zero and an
-- addition. A vertex is a value of a type with an equality, which is an equivalence.
--
-- Fuel: a round of `widest_path` raises the label of one of the n nodes or takes a pair off the
-- queue, so that n * 2 ^ 32 + 2 rounds are enough; in `shortest_path` each node is queued once, and
-- n + 2 rounds are enough. Following the parents takes at most n steps. The results about these
-- functions state that they return. The exchanges of `graph_isomorphism` over n applications have
-- n! * (n + 1) + n + 1 rounds: each of the n! permutations is met once, with at most n steps
-- between two. The loop over the combinations has a round
-- for each list of k hosts. A round of `distribute_bandwidth_across_flow` but the last takes a flow
-- away, and one of `complete_graph` tests a node that was not tested before.
--
-- A `BinaryHeap` is a list from which a greatest element is taken, a `HashMap` a list of entries,
-- and a `HashSet` a list without equal elements. Parsing an address, the UTF-8 test and
-- `serde_json` are parameters; a `Codec` states that what is written is text, not empty, and is
-- read back; for a value with floats it states this only of floats that are kept, which an infinite
-- one, for instance, is not. The conversions of serde_millis are
-- parameters that are exact up to a bound.
--
-- Not modelled: the random networks, printing and serde implementations of netgraph; the choice of
-- a leader in cgraph; the start of the reporters of an emulation; and the crates nethelper, reporter,
-- monitor, runner and client, which drive sockets, processes and the kernel.
pub mod Prelude
pub mod Matrix
pub mod Netgraph
pub mod Common
pub mod Cgraph
pub mod Cmanager
pub mod Emulation
pub mod Dockhelper
pub mod Tests
