-- ===== src/Emulation/Manager/Ready.antt =====
-- emulation/src/pubapi.rs: an emulation starts when the last of its nodes is ready.
use kollaps.Prelude.{
  ◌≡◌, refl, sym, ◌∙◌, inl, inr, Bool, true, false, ◌&&◌, none, some, List, [], ◌∷◌, ◌++◌,
  Bool-cases,
}
use Prim.Native.String.{String}
use mathlib.Core.Option.{some-injective}
use kollaps.Netgraph.Link.{VertexEq}
use kollaps.Netgraph.Network.{get, insert}
use kollaps.Netgraph.Network.Vertices.{get-insert, get_cong}
use kollaps.Emulation.Data.{ClusterNodeInfo, info_eq, by_info}
use kollaps.Emulation.Protocol.{Ids, experiment_ready}
use kollaps.Emulation.Dispatch.{Effect, answer, Manager, all_ready, send_host, send_each, reply}
use kollaps.Emulation.Manager.{start_each, on_ready}

module _ {Ip F Key : Type 0} (ips : VertexEq Ip) (ids : Ids Key) (works : Effect Ip F → Bool) where
  -- The nodes of an emulation are different, as the keys of a map are.
  abbrev pub AreNodes : List (ClusterNodeInfo Ip × Bool) → Type 0
  AreNodes [] = Unit
  AreNodes ((k, _) ∷ nodes) = (get (by_info ips) k nodes ≡ none) × AreNodes nodes

  all_ready-get :
      (other : ClusterNodeInfo Ip) (nodes : List (ClusterNodeInfo Ip × Bool))
      → get (by_info ips) other nodes ≡ some false
      → all_ready nodes ≡ false
  unfolding get all_ready
  all_ready-get other [] h = cc
  all_ready-get other ((k, ready) ∷ nodes) h = elim (Bool-cases (info_eq ips k other)) [
    | inl t ↦ rw (some-injective _ _ (rw t at h)) refl
    | inr t ↦ rw (all_ready-get other nodes (rw t at h)) (right ready)
  ]
    where
      right : (b : Bool) → (b && false) ≡ false
      right true = refl
      right false = refl

  AreNodes-insert :
      (node : ClusterNodeInfo Ip) (r : Bool) (nodes : List (ClusterNodeInfo Ip × Bool))
      → AreNodes nodes
      → AreNodes (insert (by_info ips) node r nodes)
  unfolding insert get
  AreNodes-insert node r [] h = (refl, tt)
  AreNodes-insert node r ((k, b) ∷ nodes) (new_, h) = elim (Bool-cases (info_eq ips k node)) [
    | inl t ↦ rw t (new_, h)
    | inr t ↦
        let back = not_back node k t in
        rw t
          (get-insert (by_info ips) node k r nodes ∙ rw back new_, AreNodes-insert node r nodes h)
  ]
    where
      not_back : (a b : ClusterNodeInfo Ip) → info_eq ips b a ≡ false → info_eq ips a b ≡ false
      not_back a b e = elim (Bool-cases (info_eq ips a b)) [
        | inl t ↦ let u = (by_info ips).beq_sym a b t in cc
        | inr t ↦ t
      ]

  all_ready-true :
      (nodes : List (ClusterNodeInfo Ip × Bool))
      → AreNodes nodes
      → ((k : ClusterNodeInfo Ip) (b : Bool) → get (by_info ips) k nodes ≡ some b → b ≡ true)
      → all_ready nodes ≡ true
  unfolding get all_ready
  all_ready-true [] h ready = refl
  all_ready-true ((k, b) ∷ nodes) (new_, h) ready =
      let own : b ≡ true = ready k b (rw ((by_info ips).beq_refl k) refl) in
      rw
        (
          own,
          all_ready-true nodes h (λ j c e. elim (Bool-cases (info_eq ips k j)) [
            | inl t ↦ let gone = get_cong (by_info ips) k j nodes t ∙ new_ in cc
            | inr t ↦ ready j c (rw t e)
          ]),
        )
        refl

  start_each-all :
      (id : Key) (nodes : List (ClusterNodeInfo Ip × Bool)) (m : Manager Ip Key)
      → ((e : Effect Ip F) → works e ≡ true)
      → start_each ips ids works id nodes m
        ≡ some (m, send_each ips ids works m (experiment_ready (ids.to_string id)) nodes)
  unfolding start_each send_each
  start_each-all id [] m h = refl
  start_each-all id ((node, ready) ∷ nodes) m h =
      rw
        (
          h (send_host ips ids works m node (experiment_ready (ids.to_string id))),
          start_each-all id nodes m h,
        )
        refl

  -- The manager that knows that the node is ready.
  abbrev pub marked :
      Key → ClusterNodeInfo Ip → List (ClusterNodeInfo Ip × Bool) → Manager Ip Key → Manager Ip Key
  marked id node nodes m = record m {
    emulations_and_their_nodes =
        insert ids.same id (insert (by_info ips) node true nodes) m.emulations_and_their_nodes;
  }

  -- Where a node of an emulation reports that it is ready, and everything that is sent arrives: if
  -- another node is not ready yet, the report is noted and nothing else is sent than its answer; if
  -- all the others are ready, the start signal is sent to each node of the emulation, in order.
  pub on_ready_lem :
      (text : String) (id : Key) (node : ClusterNodeInfo Ip)
      (nodes : List (ClusterNodeInfo Ip × Bool)) (was : Bool) (m : Manager Ip Key)
      → ((e : Effect Ip F) → works e ≡ true)
      → ids.parse_str text ≡ some id
      → get ids.same id m.emulations_and_their_nodes ≡ some nodes
      → get (by_info ips) node nodes ≡ some was
      → AreNodes nodes
      → ((other : ClusterNodeInfo Ip)
          → info_eq ips node other ≡ false
          → get (by_info ips) other nodes ≡ some false
          → on_ready ips ids works text node m ≡ some (marked id node nodes m, answer none ∷ []))
        × (((other : ClusterNodeInfo Ip) (b : Bool)
              → info_eq ips node other ≡ false
              → get (by_info ips) other nodes ≡ some b
              → b ≡ true)
            → on_ready ips ids works text node m
              ≡ some (
                marked id node nodes m,
                send_each ips ids works
                      (marked id node nodes m)
                      (experiment_ready (ids.to_string id))
                      (insert (by_info ips) node true nodes)
                    ++ answer none ∷ [],
              ))
  unfolding on_ready reply
  on_ready_lem text id node nodes was m arrives parses known here are =
      let after = insert (by_info ips) node true nodes in
      (
        (λ other apart unready.
            let late : all_ready after ≡ false =
              all_ready-get other after
                (get-insert (by_info ips) node other true nodes ∙ rw apart unready) in
            rw (on_ready, parses, known, here, late, arrives (answer none)) refl),
        λ others.
            let all : all_ready after ≡ true =
              all_ready-true after (AreNodes-insert node true nodes are) (λ k b e.
                elim (Bool-cases (info_eq ips node k)) [
                  | inl t ↦ sym (
                      some-injective _ _
                        (sym (get-insert (by_info ips) node k true nodes ∙ rw t refl) ∙ e))
                  | inr t ↦
                      others k b t
                        (sym (get-insert (by_info ips) node k true nodes ∙ rw t refl) ∙ e)
                ]) in
            rw
              (
                on_ready,
                parses,
                known,
                here,
                all,
                start_each-all id after (marked id node nodes m) arrives,
                arrives (answer none),
              )
              refl,
      )
