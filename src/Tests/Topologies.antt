-- ===== src/Tests/Topologies.antt =====
-- A file with two services, a bridge and a link between them.
use kollaps.Prelude.{ℕ, ◌≡◌, refl, true, false, Option, none, some, List, [], ◌∷◌, if◌then◌else◌}
use Prim.Native.String.{String}
use text.Mathlib.Text.{◌==◌}
use kollaps.Netgraph.Link.{full_duplex}
use kollaps.Netgraph.Network.{Network, vertices, shortest_path_strategy}
use kollaps.Netgraph.Network.Edit.{IsNetwork}
use kollaps.Common.EmulMessage.{EmulationEvent, join}
use kollaps.Emulation.Data.{Node, app, bare_metal, by_id}
use kollaps.Emulation.Xml.{Xml, Texts, parsed}
use kollaps.Emulation.Topology.{parse_topology}
use kollaps.Emulation.Topology.Names.{Different}
use kollaps.Emulation.Topology.Vertices.{AllHaveIds}
use kollaps.Emulation.Topology.Sound.{parse_topology-IsNetwork}
use kollaps.Tests.Containers.{by_text}

-- An element: its tag, its attributes, and the elements in it.
data Tree : Type 0 where
  leaf : String → List (String × String) → Tree
  three : String → List (String × String) → Tree → Tree → Tree → Tree
  whole : Tree → Tree

abbrev find : String → List (String × String) → Option String
find a [] = none
find a ((b, v) ∷ others) = let rest = find a others in if b == a then some v else rest

abbrev tag_of : Tree → String
tag_of (leaf t _) = t
tag_of (three t _ _ _ _) = t
tag_of (whole _) = ""

abbrev attributes_of : Tree → List (String × String)
attributes_of (leaf _ l) = l
attributes_of (three _ l _ _ _) = l
attributes_of (whole _) = []

abbrev parts_of : Tree → List Tree
parts_of (leaf _ _) = []
parts_of (three _ _ a b c) = a ∷ b ∷ c ∷ []
parts_of (whole t) = t ∷ []

abbrev first_of : Tree → Option Tree
first_of (whole t) = some t
first_of _ = none

abbrev trees : Xml Tree
trees = record {
  first_child = first_of;
  children = parts_of;
  is_element = λ t. true;
  tag_name = tag_of;
  attribute = λ t a. find a (attributes_of t);
}

abbrev plain : Texts String ℕ
plain = record {
  to_uppercase = λ s. s;
  digits = λ n. "0";
  is_empty = λ s. s == "";
  address = λ s. some s;
  float = λ s. some 3;
  is_negative = λ n. false;
  captures = λ s. some (s, "K");
  zero_f = 0;
  times_1024 = λ n. n;
  to_u32 = λ n. n;
  to_u64 = λ n. n;
}

abbrev service : String → Tree
service name = leaf "service" (("kind", "BAREMETAL") ∷ ("name", name) ∷ ("ip", name) ∷ [])

abbrev event_of : String → Tree
event_of name = leaf "schedule" (("name", name) ∷ ("action", "JOIN") ∷ ("time", "3") ∷ [])

abbrev link_of : String → String → Tree
link_of a b = leaf "link" (("origin", a) ∷ ("dest", b) ∷ ("bandwidth", "3K") ∷ [])

abbrev file : Tree
file = whole (
    three "experiment" (("boot", "image") ∷ [])
      (three "services" [] (service "a") (service "b") (service "a"))
      (three "links" [] (link_of "a" "b") (link_of "a" "b") (link_of "b" "a"))
      (three "dynamic" [] (event_of "a") (event_of "b") (event_of "a")))

abbrev made : ℕ → String → Node String String
made i name =
    app i (record { ip_app = some name; host = none; name = name; kind = bare_metal; index = none })

-- The second service of a name takes the place of the first one, with an identifier of its own.
abbrev net : Network (Node String String) ℕ
net = record {
  links = record {
    items =
        none
        ∷ some (record {
          internal_source = 1;
          internal_destination = 0;
          source = made 1 "b";
          destination = made 2 "a";
          bandwidth_field = 3;
          drop = 0;
          latency_jitter = (0, 0);
          duplex = full_duplex;
        })
        ∷ none
        ∷ [];
    n = 2;
  };
  mapper = (made 2 "a", 0) ∷ (made 1 "b", 1) ∷ [];
  path_strategy = shortest_path_strategy;
}

abbrev joins : ℕ → EmulationEvent
joins i = record { app_id = i; time = 3; action = join }

reads : parse_topology trees plain by_text "7" file ≡ parsed (net, joins 2 ∷ joins 1 ∷ joins 2 ∷ [])
unfolding parse_topology kollaps.Matrix.new_fn kollaps.Emulation.Data.node_eq
    kollaps.Matrix.index_mut kollaps.Netgraph.Link.build_all
reads = refl

parse_topology-IsNetwork_example :
    IsNetwork by_id net
    × Different (vertices net)
    × AllHaveIds (joins 2 ∷ joins 1 ∷ joins 2 ∷ []) (vertices net)
parse_topology-IsNetwork_example = parse_topology-IsNetwork trees plain by_text "7" file reads
