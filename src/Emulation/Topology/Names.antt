-- ===== src/Emulation/Topology/Names.antt =====
-- emulation/src/xmlgraphparser.rs: the nodes that the parser names are different vertices.
use kollaps.Prelude.{
  ℕ, ◌+◌, ◌≤◌, ◌≡◌, refl, ap, subst, inl, inr, false, not, none, List, [], ◌∷◌, map, arith,
  Bool-cases,
}
use Prim.Native.String.{String}
use text.Mathlib.Text.{◌==◌}
use kollaps.Netgraph.Link.{VertexEq}
use kollaps.Netgraph.Network.{insert}
use kollaps.Emulation.Data.{Node, app, bridge, build, node_eq}
use kollaps.Emulation.Xml.{Xml, Texts, Parsed, parsed, bad_file, panics, ◌>>=◌, refuse_if, required}
use kollaps.Emulation.Xml.Services.{
  service_kind, address_of, parse_service, service_loop, parse_bridge, bridge_loop,
}

pub bind-parsed :
    {A B : Type 0} (m : Parsed A) (f : A → Parsed B) {b : B}
    → (m >>= f) ≡ parsed b
    → (a : A) × (m ≡ parsed a) × (f a ≡ parsed b)
bind-parsed (parsed a) f h = (a, refl, h)
bind-parsed bad_file f h = cc
bind-parsed panics f h = cc

content : {A : Type 0} → A → Parsed A → A
content a (parsed x) = x
content a _ = a

pub parsed-injective : {A : Type 0} {a b : A} → Parsed.parsed a ≡ parsed b → a ≡ b
unfolding content
parsed-injective {a = a} e = ap (content a) e

module _ {Ip : Type 0} where
  -- No node of the list is equal to the vertex.
  abbrev pub Apart : Node Ip String → List (Node Ip String) → Type 0
  Apart x [] = Unit
  Apart x (y ∷ ys) = (node_eq y x ≡ false) × Apart x ys

  abbrev pub Different : List (Node Ip String) → Type 0
  Different [] = Unit
  Different (x ∷ xs) = Apart x xs × Different xs

  abbrev pub nodes_of : List (String × Node Ip String) → List (Node Ip String)
  nodes_of m = map (λ e. e.1) m

  pub node_eq-false_sym : (x y : Node Ip String) → node_eq x y ≡ false → node_eq y x ≡ false
  unfolding node_eq
  node_eq-false_sym (app i _) (app j _) h = ground arith
  node_eq-false_sym (bridge i) (bridge j) h = ground arith
  node_eq-false_sym (app i _) (bridge j) h = refl
  node_eq-false_sym (bridge i) (app j _) h = refl

  module _ (names : VertexEq String) where
    Apart-insert :
        (x y : Node Ip String) (k : String) (m : List (String × Node Ip String))
        → node_eq y x ≡ false
        → Apart x (nodes_of m)
        → Apart x (nodes_of (insert names k y m))
    unfolding insert
    Apart-insert x y k [] e h = (e, tt)
    Apart-insert x y k ((j, z) ∷ m) e (f, h) = elim (Bool-cases (names.beq j k)) [
      | inl t ↦ rw t (e, h)
      | inr t ↦ rw t (f, Apart-insert x y k m e h)
    ]

    Different-insert :
        (y : Node Ip String) (k : String) (m : List (String × Node Ip String))
        → Apart y (nodes_of m)
        → Different (nodes_of m)
        → Different (nodes_of (insert names k y m))
    unfolding insert
    Different-insert y k [] a d = (tt, tt)
    Different-insert y k ((j, z) ∷ m) (e, a) (apart, d) = elim (Bool-cases (names.beq j k)) [
      | inl t ↦ rw t (a, d)
      | inr t ↦
          rw t (Apart-insert z y k m (node_eq-false_sym z y e) apart, Different-insert y k m a d)
    ]

  -- Equal vertices are apart from the same ones.
  Apart-app :
      (i : ℕ) (a b : _) (ys : List (Node Ip String)) → Apart (app i a) ys → Apart (app i b) ys
  unfolding node_eq
  Apart-app i a b [] h = tt
  Apart-app i a b (app j c ∷ ys) (e, h) = (e, Apart-app i a b ys h)
  Apart-app i a b (bridge j ∷ ys) (e, h) = (e, Apart-app i a b ys h)

  module _ {N F : Type 0} (xml : Xml N) (texts : Texts Ip F) (names : VertexEq String)
      (emul_id : String) where
    -- The identifiers from `n` on are free for applications.
    pub record Apps (n : ℕ) (m : List (String × Node Ip String)) : Type 0 where
      pub different : Different (nodes_of m)
      pub free : (j : ℕ) (a : _) → n ≤ j → Apart (app j a) (nodes_of m)
      pub no_bridge : (j : ℕ) → Apart (bridge j) (nodes_of m)

    pub record Bridges (n : ℕ) (m : List (String × Node Ip String)) : Type 0 where
      pub different : Different (nodes_of m)
      pub free : (j : ℕ) → n ≤ j → Apart (bridge j) (nodes_of m)

    parse_service-Apps :
        (service : N) (n : ℕ) (m : List (String × Node Ip String))
        {next : List (String × Node Ip String)}
        → Apps n m
        → parse_service xml texts names emul_id service n m ≡ parsed next
        → Apps (n + 1) next
    unfolding parse_service node_eq
    parse_service-Apps service n m h e =
        let (_, _, e1) = bind-parsed (refuse_if (not (xml.tag_name service == "service"))) _ e in
        let (kind, _, e2) = bind-parsed (service_kind xml texts names emul_id service n) _ e1 in
        let (name, _, e3) = bind-parsed (required (xml.attribute service "name")) _ e2 in
        let (ip, _, e4) = bind-parsed (address_of xml texts names emul_id service) _ e3 in
        let new_app = app n (build ip none name kind) in
        subst (Apps (n + 1)) (parsed-injective e4) (record {
          different =
              Different-insert names new_app name m
                (h.free n (build ip none name kind) (omega arith)) h.different;
          free = λ j a le.
              Apart-insert names (app j a) new_app name m (ground arith) (h.free j a (omega arith));
          no_bridge = λ j. Apart-insert names (bridge j) new_app name m refl (h.no_bridge j);
        })

    pub service_loop-Apps :
        (services : List N) (n : ℕ) (m : List (String × Node Ip String))
        {next : List (String × Node Ip String)}
        → Apps n m
        → service_loop xml texts names emul_id services n m ≡ parsed next
        → (k : ℕ) × Apps k next
    unfolding service_loop
    service_loop-Apps [] n m h e = (n, subst (Apps n) (parsed-injective e) h)
    service_loop-Apps (s ∷ others) n m h e = elim (Bool-cases (xml.is_element s)) [
      | inl t ↦
          let (one, e1, e2) =
            bind-parsed (parse_service xml texts names emul_id s n m) _ (rw t at e) in
          service_loop-Apps others (n + 1) one (parse_service-Apps s n m h e1) e2
      | inr t ↦ service_loop-Apps others n m h (rw t at e)
    ]

    parse_bridge-Bridges :
        (node : N) (n : ℕ) (m : List (String × Node Ip String))
        {next : List (String × Node Ip String)}
        → Bridges n m
        → parse_bridge xml texts names emul_id node n m ≡ parsed next
        → Bridges (n + 1) next
    unfolding parse_bridge node_eq
    parse_bridge-Bridges node n m h e =
        let (_, _, e1) = bind-parsed (refuse_if (not (xml.tag_name node == "bridge"))) _ e in
        let (name, _, e2) = bind-parsed (required (xml.attribute node "name")) _ e1 in
        subst (Bridges (n + 1)) (parsed-injective e2) (record {
          different = Different-insert names (bridge n) name m (h.free n (omega arith)) h.different;
          free = λ j le.
              Apart-insert names (bridge j) (bridge n) name m (ground arith)
                (h.free j (omega arith));
        })

    pub bridge_loop-Bridges :
        (nodes : List N) (n : ℕ) (m : List (String × Node Ip String))
        {next : List (String × Node Ip String)}
        → Bridges n m
        → bridge_loop xml texts names emul_id nodes n m ≡ parsed next
        → (k : ℕ) × Bridges k next
    unfolding bridge_loop
    bridge_loop-Bridges [] n m h e = (n, subst (Bridges n) (parsed-injective e) h)
    bridge_loop-Bridges (s ∷ others) n m h e = elim (Bool-cases (xml.is_element s)) [
      | inl t ↦
          let (one, e1, e2) =
            bind-parsed (parse_bridge xml texts names emul_id s n m) _ (rw t at e) in
          bridge_loop-Bridges others (n + 1) one (parse_bridge-Bridges s n m h e1) e2
      | inr t ↦ bridge_loop-Bridges others n m h (rw t at e)
    ]
