-- ===== src/Emulation/Topology/Sound.antt =====
-- emulation/src/xmlgraphparser.rs: what a file that parses gives.
use kollaps.Prelude.{
  ℕ, ◌≡◌, refl, ap, sym, ◌∙◌, subst, inl, inr, not, ◌&&◌, Option, none, some, is_some, List, [],
  ◌∷◌, length, Bool-cases,
}
use Prim.Native.String.{String}
use text.Mathlib.Text.{◌==◌}
use kollaps.Netgraph.Link.{VertexEq}
use kollaps.Netgraph.Network.{Network, new, vertices, get, shortest_path_strategy}
use kollaps.Netgraph.Network.Edit.{IsNetwork}
use kollaps.Common.EmulMessage.{EmulationEvent}
use kollaps.Emulation.Data.{Node, by_id}
use kollaps.Emulation.Xml.{Xml, Texts, parsed, unwrap, refuse_if, required, has_attribute}
use kollaps.Emulation.Xml.Services.{parse_services, parse_bridges}
use kollaps.Emulation.Topology.{
  number_or_zero, parse_bandwidth, parse_link, link_loop, parse_links, parse_action, parse_event,
  event_loop, parse_schedule, parse_bridges_if_any, one_block, parse_nodes, parse_network,
  parse_blocks, parse_topology,
}
use kollaps.Emulation.Topology.Names.{
  bind-parsed, parsed-injective, Different, nodes_of, Apps, service_loop-Apps, bridge_loop-Bridges,
}
use kollaps.Emulation.Topology.Vertices.{
  HasId, AllHaveIds, keys_of, get-HasId, add_edge_with_props-IsNetwork, new-vertices,
}

unwrap-some : {A : Type 0} (o : Option A) {a : A} → unwrap o ≡ parsed a → o ≡ some a
unwrap-some none h = cc
unwrap-some (some x) h = ap some (parsed-injective h)

required-some : {A : Type 0} (o : Option A) {a : A} → required o ≡ parsed a → o ≡ some a
required-some none h = cc
required-some (some x) h = ap some (parsed-injective h)

module _ {Ip : Type 0} where
  module _ {N F : Type 0} (xml : Xml N) (texts : Texts Ip F) (names : VertexEq String)
      (emul_id : String) where
    parse_link-IsNetwork :
        (link : N) (m : List (String × Node Ip String)) (net : Network (Node Ip String) F)
        {w : Network (Node Ip String) F}
        → IsNetwork by_id net
        → parse_link xml texts names emul_id link m net ≡ parsed w
        → IsNetwork by_id w × (w.mapper ≡ net.mapper)
    unfolding parse_link
    parse_link-IsNetwork link m net h e =
        let (_, _, e1) = bind-parsed (refuse_if (not (xml.tag_name link == "link"))) _ e in
        let (from, _, e2) = bind-parsed (required (xml.attribute link "origin")) _ e1 in
        let (to, _, e3) = bind-parsed (required (xml.attribute link "dest")) _ e2 in
        let (bw, _, e4) = bind-parsed (required (xml.attribute link "bandwidth")) _ e3 in
        let (source, _, e5) = bind-parsed (unwrap (get names from m)) _ e4 in
        let (destination, _, e6) = bind-parsed (unwrap (get names to m)) _ e5 in
        let (jitter, _, e7) =
          bind-parsed (number_or_zero xml texts names emul_id link "jitter") _ e6 in
        let (latency, _, e8) =
          bind-parsed (number_or_zero xml texts names emul_id link "latency") _ e7 in
        let (drop, _, e9) = bind-parsed (number_or_zero xml texts names emul_id link "drop") _ e8 in
        let (bandwidth, _, e10) = bind-parsed (parse_bandwidth xml texts names emul_id bw) _ e9 in
        add_edge_with_props-IsNetwork net source destination (texts.to_u32 bandwidth)
          (latency, jitter) drop h (unwrap-some _ e10)

    link_loop-IsNetwork :
        (links : List N) (m : List (String × Node Ip String)) (net : Network (Node Ip String) F)
        {w : Network (Node Ip String) F}
        → IsNetwork by_id net
        → link_loop xml texts names emul_id links m net ≡ parsed w
        → IsNetwork by_id w × (w.mapper ≡ net.mapper)
    unfolding link_loop
    link_loop-IsNetwork [] m net h e =
        subst (λ w. IsNetwork by_id w × (w.mapper ≡ net.mapper)) (parsed-injective e) (h, refl)
    link_loop-IsNetwork (l ∷ others) m net h e = elim (Bool-cases (xml.is_element l)) [
      | inl t ↦
          let (one, e1, e2) =
            bind-parsed (parse_link xml texts names emul_id l m net) _ (rw t at e) in
          let (h1, same) = parse_link-IsNetwork l m net h e1 in
          let (h2, rest) = link_loop-IsNetwork others m one h1 e2 in (h2, rest ∙ same)
      | inr t ↦ link_loop-IsNetwork others m net h (rw t at e)
    ]

    parse_event-HasId :
        (e : N) (m : List (String × Node Ip String)) {one : EmulationEvent}
        → parse_event xml texts names emul_id e m ≡ parsed one
        → HasId one.app_id (nodes_of m)
    unfolding parse_event
    parse_event-HasId e m h =
        let (_, _, h1) = bind-parsed (refuse_if (not (xml.tag_name e == "schedule"))) _ h in
        let (time, _, h2) = bind-parsed (number_or_zero xml texts names emul_id e "time") _ h1 in
        let (_, _, h3) =
          bind-parsed (refuse_if (is_some (xml.attribute e "time") && texts.is_negative time)) _
            h2 in
        let (_, _, h4) =
          bind-parsed
            (refuse_if (not (has_attribute xml e "name") && not (has_attribute xml e "action"))) _
            h3 in
        let (node_name, _, h5) = bind-parsed (unwrap (xml.attribute e "name")) _ h4 in
        let (text, _, h6) = bind-parsed (unwrap (xml.attribute e "action")) _ h5 in
        let (action, _, h7) = bind-parsed (parse_action xml texts names emul_id text) _ h6 in
        let (node, en, h8) = bind-parsed (required (get names node_name m)) _ h7 in
        subst (λ o. HasId o.app_id (nodes_of m)) (parsed-injective h8)
          (get-HasId names node_name m (required-some _ en))

    event_loop-AllHaveIds :
        (events : List N) (m : List (String × Node Ip String)) {all : List EmulationEvent}
        → event_loop xml texts names emul_id events m ≡ parsed all
        → AllHaveIds all (nodes_of m)
    unfolding event_loop
    event_loop-AllHaveIds [] m h = subst (λ l. AllHaveIds l (nodes_of m)) (parsed-injective h) tt
    event_loop-AllHaveIds (e ∷ others) m h = elim (Bool-cases (xml.is_element e)) [
      | inl t ↦
          let (one, e1, h1) = bind-parsed (parse_event xml texts names emul_id e m) _ (rw t at h) in
          let (rest, e2, h2) = bind-parsed (event_loop xml texts names emul_id others m) _ h1 in
          subst (λ l. AllHaveIds l (nodes_of m)) (parsed-injective h2)
            (parse_event-HasId e m e1, event_loop-AllHaveIds others m e2)
      | inr t ↦ event_loop-AllHaveIds others m (rw t at h)
    ]

    parse_schedule-AllHaveIds :
        (m : List (String × Node Ip String)) (block : Option N) {all : List EmulationEvent}
        → parse_schedule xml texts names emul_id m block ≡ parsed all
        → AllHaveIds all (nodes_of m)
    unfolding parse_schedule
    parse_schedule-AllHaveIds m none h =
        subst (λ l. AllHaveIds l (nodes_of m)) (parsed-injective h) tt
    parse_schedule-AllHaveIds m (some block) h = event_loop-AllHaveIds (xml.children block) m h

    bridges-Different :
        (block : Option N) (m : List (String × Node Ip String))
        {next : List (String × Node Ip String)} (n : ℕ)
        → Apps xml texts names emul_id n m
        → parse_bridges_if_any xml texts names emul_id block m ≡ parsed next
        → Different (nodes_of next)
    unfolding parse_bridges_if_any parse_bridges
    bridges-Different none m n h e =
        subst (λ l. Different (nodes_of l)) (parsed-injective e) h.different
    bridges-Different (some block) m n h e =
        let (k, b) =
          bridge_loop-Bridges xml texts names emul_id (xml.children block) (length m) m
            (record { different = h.different; free = λ j le. h.no_bridge j }) e in
        b.different

    assembled :
        (nodes : List (String × Node Ip String)) (net linked : Network (Node Ip String) F) (l : N)
        (block : Option N) (all : List EmulationEvent)
        → Different (nodes_of nodes)
        → new by_id (nodes_of nodes) shortest_path_strategy ≡ some net
        → parse_links xml texts names emul_id l nodes net ≡ parsed linked
        → parse_schedule xml texts names emul_id nodes block ≡ parsed all
        → IsNetwork by_id linked × Different (vertices linked) × AllHaveIds all (vertices linked)
    unfolding parse_links vertices
    assembled nodes net linked l block all d en el ea =
        let (h, keys) = new-vertices (nodes_of nodes) d en in
        let (ok_, same) = link_loop-IsNetwork (xml.children l) nodes net h el in
        let is : nodes_of nodes ≡ keys_of linked.mapper = sym (ap keys_of same ∙ keys) in
        (
          ok_,
          subst Different is d,
          subst (AllHaveIds all) is (parse_schedule-AllHaveIds nodes block ea),
        )

    parse_nodes-Different :
        (services bridges : Option N) {nodes : List (String × Node Ip String)}
        → parse_nodes xml texts names emul_id services bridges ≡ parsed nodes
        → Different (nodes_of nodes)
    unfolding parse_nodes parse_services
    parse_nodes-Different services bridges e =
        let (s, _, e1) = bind-parsed (required services) _ e in
        let (first, ef, e2) = bind-parsed (parse_services xml texts names emul_id s []) _ e1 in
        let (k, apps) =
          service_loop-Apps xml texts names emul_id (xml.children s) 0 []
            (record { different = tt; free = λ j a le. tt; no_bridge = λ j. tt }) ef in
        bridges-Different bridges first k apps e2

    -- A well-formed network of different vertices, and events for them.
    abbrev Whole : Network (Node Ip String) F × List EmulationEvent → Type 0
    Whole (net, all) =
        IsNetwork by_id net × Different (vertices net) × AllHaveIds all (vertices net)

    parse_network-Whole :
        (nodes : List (String × Node Ip String)) (links block : Option N)
        {r : Network (Node Ip String) F × List EmulationEvent}
        → Different (nodes_of nodes)
        → parse_network xml texts names emul_id nodes links block ≡ parsed r
        → Whole r
    unfolding parse_network
    parse_network-Whole nodes links block d e =
        let (net, en, e1) =
          bind-parsed (unwrap (new by_id (nodes_of nodes) shortest_path_strategy)) _ e in
        let (l, _, e2) = bind-parsed (required links) _ e1 in
        let (linked, el, e3) = bind-parsed (parse_links xml texts names emul_id l nodes net) _ e2 in
        let (all, ea, e4) = bind-parsed (parse_schedule xml texts names emul_id nodes block) _ e3 in
        subst Whole (parsed-injective e4)
          (assembled nodes net linked l block all d (unwrap-some _ en) el ea)

    parse_blocks-Whole :
        (root : N) {r : Network (Node Ip String) F × List EmulationEvent}
        → parse_blocks xml texts names emul_id root ≡ parsed r
        → Whole r
    unfolding parse_blocks
    parse_blocks-Whole root e =
        let blocks =
          λ (tag : String). one_block xml texts names emul_id tag (xml.children root) none in
        let (services, _, e1) = bind-parsed (blocks "services") _ e in
        let (bridges, _, e2) = bind-parsed (blocks "bridges") _ e1 in
        let (links, _, e3) = bind-parsed (blocks "links") _ e2 in
        let (block, _, e4) = bind-parsed (blocks "dynamic") _ e3 in
        let (nodes, en, e5) =
          bind-parsed (parse_nodes xml texts names emul_id services bridges) _ e4 in
        parse_network-Whole nodes links block (parse_nodes-Different services bridges en) e5

    -- A file that parses gives a well-formed network, whose vertices are pairwise different whatever
    -- names the file repeats, and each event of its schedule is for the identifier of one of them.
    pub parse_topology-IsNetwork :
        (document : N) {net : Network (Node Ip String) F} {schedule : List EmulationEvent}
        → parse_topology xml texts names emul_id document ≡ parsed (net, schedule)
        → IsNetwork by_id net × Different (vertices net) × AllHaveIds schedule (vertices net)
    unfolding parse_topology
    parse_topology-IsNetwork document e =
        let (root, _, e1) = bind-parsed (unwrap (xml.first_child document)) _ e in
        let (_, _, e2) = bind-parsed (refuse_if (not (xml.tag_name root == "experiment"))) _ e1 in
        let (_, _, e3) = bind-parsed (refuse_if (not (has_attribute xml root "boot"))) _ e2 in
        parse_blocks-Whole root e3
