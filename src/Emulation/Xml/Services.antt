-- ===== src/Emulation/Xml/Services.antt =====
-- emulation/src/xmlgraphparser.rs: the services and the bridges of a topology file.
use package.kollaps.Prelude.{
  ℕ, ◌+◌, not, ◌&&◌, Option, none, some, List, [], ◌∷◌, length, if◌then◌else◌,
}
use Prim.Native.String.{String, ◌++◌ as ◌<>◌}
use text.Mathlib.Text.{◌==◌}
use package.kollaps.Netgraph.Link.{VertexEq}
use package.kollaps.Netgraph.Network.{insert}
use package.kollaps.Emulation.Data.{
  ApplicationKind, bare_metal, container, new_config, build, app, bridge,
}
use package.kollaps.Emulation.Xml.{
  Xml, Texts, Parsed, parsed, bad_file, ◌>>=◌, ◌>>◌, unwrap, refuse_if, required, has_attribute,
  NodesMap,
}

module _ {N Ip F : Type 0} (xml : Xml N) (texts : Texts Ip F) (names : VertexEq String)
    (emul_id : String) where
  unfoldable pub produce_name_for_container : ℕ → String
  produce_name_for_container node_id = "kollaps_" <> emul_id <> "_" <> texts.digits node_id

  -- The kind of a service that is a container.
  unfoldable pub container_kind : N → ℕ → Parsed (ApplicationKind String)
  unfolding has_attribute new_config produce_name_for_container
  container_kind service current_node =
      let attached =
        not (has_attribute xml service "image")
        && not (has_attribute xml service "command")
        && has_attribute xml service "name"
        && has_attribute xml service "ip" in
      let deployed = (do
        image ← unwrap (xml.attribute service "image")
        config ← unwrap (
            new_config texts.is_empty (produce_name_for_container current_node) none
              (some (image, xml.attribute service "command")))
        parsed (container config)) in
      if attached
      then bad_file
      else if has_attribute xml service "image" && has_attribute xml service "command"
      then deployed
      else bad_file

  unfoldable pub service_kind : N → ℕ → Parsed (ApplicationKind String)
  unfolding container_kind
  service_kind service current_node = do
    kind ← required (xml.attribute service "kind")
    let upper = texts.to_uppercase kind
    if upper == "CONTAINER"
        then container_kind service current_node
        else if upper == "BAREMETAL"
        then parsed bare_metal
        else bad_file

  unfoldable pub address_of : N → Parsed (Option Ip)
  address_of service = elim (xml.attribute service "ip") [
    | none ↦ parsed none
    | some text ↦ unwrap (texts.address text) >>= λ ip. parsed (some ip)
  ]

  unfoldable pub parse_service : N → ℕ → NodesMap Ip → Parsed (NodesMap Ip)
  unfolding service_kind address_of build insert
  parse_service service current_node nodes = do
    refuse_if (not (xml.tag_name service == "service"))
    kind ← service_kind service current_node
    name ← required (xml.attribute service "name")
    ip ← address_of service
    parsed (insert names name (app current_node (build ip none name kind)) nodes)

  -- The loops over the children that are elements.
  unfoldable pub service_loop : List N → ℕ → NodesMap Ip → Parsed (NodesMap Ip)
  unfolding parse_service
  service_loop [] current_node nodes = parsed nodes
  service_loop (service ∷ others) current_node nodes =
      let step =
        parse_service service current_node nodes >>= service_loop others (current_node + 1) in
      let skip = service_loop others current_node nodes in
      if xml.is_element service then step else skip

  unfoldable pub parse_services : N → NodesMap Ip → Parsed (NodesMap Ip)
  unfolding service_loop
  parse_services services nodes = service_loop (xml.children services) (length nodes) nodes

  unfoldable pub parse_bridge : N → ℕ → NodesMap Ip → Parsed (NodesMap Ip)
  unfolding insert
  parse_bridge node current_node nodes = do
    refuse_if (not (xml.tag_name node == "bridge"))
    name ← required (xml.attribute node "name")
    parsed (insert names name (bridge current_node) nodes)

  unfoldable pub bridge_loop : List N → ℕ → NodesMap Ip → Parsed (NodesMap Ip)
  unfolding parse_bridge
  bridge_loop [] current_node nodes = parsed nodes
  bridge_loop (node ∷ others) current_node nodes =
      let step = parse_bridge node current_node nodes >>= bridge_loop others (current_node + 1) in
      let skip = bridge_loop others current_node nodes in if xml.is_element node then step else skip

  unfoldable pub parse_bridges : N → NodesMap Ip → Parsed (NodesMap Ip)
  unfolding bridge_loop
  parse_bridges bridges nodes = bridge_loop (xml.children bridges) (length nodes) nodes
