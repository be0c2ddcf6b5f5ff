-- ===== src/Emulation/Data.antt =====
-- emulation/src/data.rs and common/src/cluster_node.rs: the vertices of an emulated network, which
-- are applications and bridges, and the machines that they run on.
--
-- `none` is a panic, except in `image` and `command`, which return an `Option`.
use kollaps.Prelude.{
  ℕ, ◌≡◌, Bool, true, false, ◌&&◌, Option, none, some, List, ◌==◌, ==_refl, ==→≡, arith,
  if◌then◌else◌,
}
use kollaps.Netgraph.Link.{VertexEq}
use kollaps.Netgraph.Network.{Network}
use kollaps.Common.EmulMessage.{EmulationEvent}

pub record ClusterNodeInfo (Ip : Type 0) : Type 0 where
  pub ip_addr : Ip
  pub port : ℕ

unfoldable pub info_eq :
    {Ip : Type 0} → VertexEq Ip → ClusterNodeInfo Ip → ClusterNodeInfo Ip → Bool
info_eq v a b = v.beq a.ip_addr b.ip_addr && a.port == b.port

module _ {Ip : Type 0} (v : VertexEq Ip) where
  open v use {beq, beq_refl, beq_sym, beq_trans}

  pub info_eq_refl : (a : ClusterNodeInfo Ip) → info_eq v a a ≡ true
  unfolding info_eq
  info_eq_refl a = ground (arith, beq_refl a.ip_addr)

  pub info_eq_sym : (a b : ClusterNodeInfo Ip) → info_eq v a b ≡ true → info_eq v b a ≡ true
  unfolding info_eq
  info_eq_sym a b h = ground (arith, beq_sym a.ip_addr b.ip_addr)

  pub info_eq_trans :
      (a b c : ClusterNodeInfo Ip)
      → info_eq v a b ≡ true
      → info_eq v b c ≡ true
      → info_eq v a c ≡ true
  unfolding info_eq
  info_eq_trans a b c h k = ground (arith, beq_trans a.ip_addr b.ip_addr c.ip_addr)

  abbrev pub by_info : VertexEq (ClusterNodeInfo Ip)
  by_info = record {
    beq = info_eq v;
    beq_refl = info_eq_refl;
    beq_sym = info_eq_sym;
    beq_trans = info_eq_trans;
  }

pub record ContainerConfig (Text : Type 0) : Type 0 where
  pub name : Text
  pub id : Option Text
  pub image_command : Option (Text × Option Text)

pub data ApplicationKind (Text : Type 0) : Type 0 where
  bare_metal : ApplicationKind Text
  container : ContainerConfig Text → ApplicationKind Text

pub record Application (Ip Text : Type 0) : Type 0 where
  pub ip_app : Option Ip
  pub host : Option (ClusterNodeInfo Ip)
  pub name : Text
  pub kind : ApplicationKind Text
  pub index : Option ℕ

-- The number is the identifier.
pub data Node (Ip Text : Type 0) : Type 0 where
  app : ℕ → Application Ip Text → Node Ip Text
  bridge : ℕ → Node Ip Text

pub record Emulation (Ip Text F : Type 0) : Type 0 where
  pub uuid : Text
  pub graph : Network (Node Ip Text) F
  pub events : List EmulationEvent

module _ {Text : Type 0} where
  -- The checks of the image and its command.
  unfoldable pub accepts_image : (Text → Bool) → Option (Text × Option Text) → Bool
  accepts_image is_empty none = true
  accepts_image is_empty (some (image, none)) = if is_empty image then false else true
  accepts_image is_empty (some (image, some command)) =
      if is_empty image then false else if is_empty command then false else true

  unfoldable pub new_config :
      (Text → Bool)
      → Text
      → Option Text
      → Option (Text × Option Text)
      → Option (ContainerConfig Text)
  unfolding accepts_image
  new_config is_empty name id image_command =
      if accepts_image is_empty image_command
      then if is_empty name
        then none
        else some (record { name = name; id = id; image_command = image_command })
      else none

  unfoldable pub image_of : Option (Text × Option Text) → Option Text
  image_of none = none
  image_of (some (im, _)) = some im

  unfoldable pub command_of : Option (Text × Option Text) → Option Text
  command_of none = none
  command_of (some (_, entry)) = entry

  unfoldable pub image : ContainerConfig Text → Option Text
  unfolding image_of
  image c = image_of c.image_command

  unfoldable pub command : ContainerConfig Text → Option Text
  unfolding command_of
  command c = command_of c.image_command

module _ {Ip Text : Type 0} where
  unfoldable pub build :
      Option Ip → Option (ClusterNodeInfo Ip) → Text → ApplicationKind Text → Application Ip Text
  build ip_app host name kind = record {
    ip_app = ip_app;
    host = host;
    name = name;
    kind = kind;
    index = none;
  }

  unfoldable pub runs_on : VertexEq Ip → Application Ip Text → ClusterNodeInfo Ip → Option Bool
  unfolding info_eq
  runs_on v a node = elim a.host [ none ↦ none | some host ↦ some (info_eq v host node) ]

  unfoldable pub set_host : Application Ip Text → ClusterNodeInfo Ip → Application Ip Text
  set_host a host = record a { host = some host }

  unfoldable pub set_index : Application Ip Text → ℕ → Application Ip Text
  set_index a index = record a { index = some index }

  unfoldable pub is_app : Node Ip Text → Bool
  is_app (app _ _) = true
  is_app (bridge _) = false

  unfoldable pub as_app : Node Ip Text → Option (Application Ip Text)
  as_app (app _ a) = some a
  as_app (bridge _) = none

  -- `as_app_mut`: what the caller does to the application.
  unfoldable pub edit_app :
      (Application Ip Text → Application Ip Text) → Node Ip Text → Option (Node Ip Text)
  edit_app f (app i a) = some (app i (f a))
  edit_app f (bridge _) = none

  unfoldable pub id_of : Node Ip Text → ℕ
  id_of (app i _) = i
  id_of (bridge i) = i

  unfoldable pub is_same_by_id : Node Ip Text → ℕ → Bool
  is_same_by_id (app i _) other = other == i
  is_same_by_id (bridge i) other = other == i

  unfoldable pub node_eq : Node Ip Text → Node Ip Text → Bool
  node_eq (app i _) (app j _) = i == j
  node_eq (bridge i) (bridge j) = i == j
  node_eq _ _ = false

  -- What `Hash` feeds to the hasher.
  unfoldable pub node_hash : Node Ip Text → ℕ
  node_hash (app i _) = i
  node_hash (bridge i) = i

  pub node_eq_refl : (a : Node Ip Text) → node_eq a a ≡ true
  unfolding node_eq
  node_eq_refl (app i _) = ==_refl i
  node_eq_refl (bridge i) = ==_refl i

  pub node_eq_sym : (a b : Node Ip Text) → node_eq a b ≡ true → node_eq b a ≡ true
  unfolding node_eq
  node_eq_sym (app i _) (app j _) h = ground arith
  node_eq_sym (bridge i) (bridge j) h = ground arith
  node_eq_sym (app i _) (bridge j) h = cc
  node_eq_sym (bridge i) (app j _) h = cc

  pub node_eq_trans :
      (a b c : Node Ip Text) → node_eq a b ≡ true → node_eq b c ≡ true → node_eq a c ≡ true
  unfolding node_eq
  node_eq_trans (app i _) (app j _) (app k _) h l = ground arith
  node_eq_trans (bridge i) (bridge j) (bridge k) h l = ground arith
  node_eq_trans (app i _) (bridge j) c h l = cc
  node_eq_trans (bridge i) (app j _) c h l = cc
  node_eq_trans (app i _) (app j _) (bridge k) h l = cc
  node_eq_trans (bridge i) (bridge j) (app k _) h l = cc

  node_eq-node_hash : (a b : Node Ip Text) → node_eq a b ≡ true → node_hash a ≡ node_hash b
  unfolding node_eq node_hash
  node_eq-node_hash (app i _) (app j _) h = ==→≡ i j h
  node_eq-node_hash (bridge i) (bridge j) h = ==→≡ i j h
  node_eq-node_hash (app i _) (bridge j) h = cc
  node_eq-node_hash (bridge i) (app j _) h = cc

  -- The nodes fill the interface of the vertices of a network.
  abbrev pub by_id : VertexEq (Node Ip Text)
  by_id = record {
    beq = node_eq;
    beq_refl = node_eq_refl;
    beq_sym = node_eq_sym;
    beq_trans = node_eq_trans;
  }
