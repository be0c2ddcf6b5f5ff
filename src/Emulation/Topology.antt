-- ===== src/Emulation/Topology.antt =====
-- emulation/src/xmlgraphparser.rs: the topology that a file describes.
pub mod Names
pub mod Vertices
pub mod Sound
use package.kollaps.Prelude.{
  ℕ, ◌+◌, ◌*◌, Bool, true, false, not, ◌&&◌, ◌||◌, Option, none, some, is_some, List, [], ◌∷◌, ◌++◌,
  map, length, if◌then◌else◌,
}
use Prim.Native.String.{String, ◌++◌ as ◌<>◌}
use text.Mathlib.Text.{◌==◌}
use package.kollaps.Netgraph.Link.{VertexEq}
use package.kollaps.Netgraph.Network.{
  Network, new, shortest_path_strategy, add_edge_with_props, get, insert,
}
use package.kollaps.Common.EmulMessage.{EmulationEvent, EventAction, join, quit, crash}
use package.kollaps.Emulation.Data.{
  Application, ApplicationKind, bare_metal, container, new_config, build, Node, app, bridge, id_of,
  by_id,
}
use package.kollaps.Emulation.Xml.{
  Xml, Texts, Parsed, parsed, bad_file, ◌>>=◌, ◌>>◌, unwrap, refuse_if, required, has_attribute,
  NodesMap,
}
use package.kollaps.Emulation.Xml.Services.{parse_services, parse_bridges}

module _ {N Ip F : Type 0} (xml : Xml N) (texts : Texts Ip F) (names : VertexEq String)
    (emul_id : String) where
  unfoldable pub parse_bandwidth : String → Parsed F
  parse_bandwidth bandwidth = do
    found ← required (texts.captures bandwidth)
    base ← unwrap (texts.float found.0)
    let mega = texts.times_1024 base
    parsed (if found.1 == "M" then mega else if found.1 == "G" then texts.times_1024 mega else base)

  -- A number that is 0 where the attribute is missing.
  unfoldable pub number_or_zero : N → String → Parsed F
  number_or_zero n a = elim (xml.attribute n a) [
    | none ↦ parsed texts.zero_f
    | some text ↦ unwrap (texts.float text)
  ]

  unfoldable pub parse_link :
      N → NodesMap Ip → Network (Node Ip String) F → Parsed (Network (Node Ip String) F)
  unfolding get number_or_zero parse_bandwidth add_edge_with_props
  parse_link link name_to_node network = do
    refuse_if (not (xml.tag_name link == "link"))
    from ← required (xml.attribute link "origin")
    to ← required (xml.attribute link "dest")
    bw ← required (xml.attribute link "bandwidth")
    source ← unwrap (get names from name_to_node)
    destination ← unwrap (get names to name_to_node)
    jitter ← number_or_zero link "jitter"
    latency ← number_or_zero link "latency"
    drop ← number_or_zero link "drop"
    bandwidth ← parse_bandwidth bw
    unwrap (
        add_edge_with_props by_id network source destination (texts.to_u32 bandwidth)
          (latency, jitter) drop)

  unfoldable pub link_loop :
      List N → NodesMap Ip → Network (Node Ip String) F → Parsed (Network (Node Ip String) F)
  unfolding parse_link
  link_loop [] name_to_node network = parsed network
  link_loop (link ∷ others) name_to_node network =
      let step = parse_link link name_to_node network >>= link_loop others name_to_node in
      let skip = link_loop others name_to_node network in if xml.is_element link then step else skip

  unfoldable pub parse_links :
      N → NodesMap Ip → Network (Node Ip String) F → Parsed (Network (Node Ip String) F)
  unfolding link_loop
  parse_links links name_to_node network = link_loop (xml.children links) name_to_node network

  unfoldable pub parse_action : String → Parsed EventAction
  parse_action text =
      let upper = texts.to_uppercase text in
      if upper == "JOIN"
      then parsed join
      else if upper == "LEAVE"
      then parsed quit
      else if upper == "CRASH"
      then parsed crash
      else bad_file

  -- An event without a name, or without an action, is an error only if it has neither of them.
  unfoldable pub parse_event : N → NodesMap Ip → Parsed EmulationEvent
  unfolding has_attribute number_or_zero parse_action get id_of
  parse_event e name_to_service = do
    refuse_if (not (xml.tag_name e == "schedule"))
    time ← number_or_zero e "time"
    refuse_if (is_some (xml.attribute e "time") && texts.is_negative time)
    refuse_if (not (has_attribute xml e "name") && not (has_attribute xml e "action"))
    node_name ← unwrap (xml.attribute e "name")
    text ← unwrap (xml.attribute e "action")
    action ← parse_action text
    node ← required (get names node_name name_to_service)
    parsed (record { app_id = id_of node; time = texts.to_u64 time; action = action })

  unfoldable pub event_loop : List N → NodesMap Ip → Parsed (List EmulationEvent)
  unfolding parse_event
  event_loop [] name_to_service = parsed []
  event_loop (e ∷ others) name_to_service =
      let step = (do
        one ← parse_event e name_to_service
        rest ← event_loop others name_to_service
        parsed (one ∷ rest)) in
      let skip = event_loop others name_to_service in if xml.is_element e then step else skip

  unfoldable pub parse_schedule : NodesMap Ip → Option N → Parsed (List EmulationEvent)
  unfolding event_loop
  parse_schedule name_to_service none = parsed []
  parse_schedule name_to_service (some dynamic_) =
      event_loop (xml.children dynamic_) name_to_service

  -- The block with a tag, of which there may be one.
  unfoldable pub one_block : String → List N → Option N → Parsed (Option N)
  one_block tag [] found = parsed found
  one_block tag (n ∷ others) found =
      let this = xml.is_element n && (xml.tag_name n == tag) in
      let next = one_block tag others (if this then some n else found) in
      if this && is_some found then bad_file else next

  unfoldable pub parse_bridges_if_any : Option N → NodesMap Ip → Parsed (NodesMap Ip)
  unfolding parse_bridges
  parse_bridges_if_any none nodes = parsed nodes
  parse_bridges_if_any (some bridges) nodes = parse_bridges xml texts names emul_id bridges nodes

  unfoldable pub parse_nodes : Option N → Option N → Parsed (NodesMap Ip)
  unfolding parse_services parse_bridges_if_any
  parse_nodes services bridges = do
    block ← required services
    nodes ← parse_services xml texts names emul_id block []
    parse_bridges_if_any bridges nodes

  unfoldable pub parse_network :
      NodesMap Ip → Option N → Option N → Parsed (Network (Node Ip String) F × List EmulationEvent)
  unfolding new parse_links parse_schedule
  parse_network nodes links dynamic_ = do
    net ← unwrap (new by_id (map (λ e. e.1) nodes) shortest_path_strategy)
    block ← required links
    linked ← parse_links block nodes net
    schedule ← parse_schedule nodes dynamic_
    parsed (linked, schedule)

  unfoldable pub parse_blocks : N → Parsed (Network (Node Ip String) F × List EmulationEvent)
  unfolding one_block parse_nodes parse_network
  parse_blocks root = do
    services ← one_block "services" (xml.children root) none
    bridges ← one_block "bridges" (xml.children root) none
    links ← one_block "links" (xml.children root) none
    dynamic_ ← one_block "dynamic" (xml.children root) none
    nodes ← parse_nodes services bridges
    parse_network nodes links dynamic_

  -- From the root of the document.
  unfoldable pub parse_topology : N → Parsed (Network (Node Ip String) F × List EmulationEvent)
  unfolding has_attribute parse_blocks
  parse_topology document = do
    root ← unwrap (xml.first_child document)
    refuse_if (not (xml.tag_name root == "experiment"))
    refuse_if (not (has_attribute xml root "boot"))
    parse_blocks root
