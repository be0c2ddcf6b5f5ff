-- ===== src/Cmanager/Controller/Joining.antt =====
-- cmanager/src/controller.rs: a leader adds one node at a time.
use kollaps.Prelude.{
  ◌≡◌, refl, inl, inr, Bool, true, false, Option, some, List, [], ◌∷◌, if◌then◌else◌, Bool-cases,
  Option-cases, leb, ltb, ◌==◌, ◌+◌, ℕ, none,
}
use kollaps.Cgraph.{ok, ok_or, panic, CGraph, unwrap, graph_size, remove_one_by}
use kollaps.Cgraph.Results.{bind-ok, ok-injective}
use kollaps.Netgraph.Link.{VertexEq}
use kollaps.Netgraph.Network.{get, remove}
use kollaps.Emulation.Data.{ClusterNodeInfo, info_eq, by_info}
use kollaps.Cmanager.Event.{
  cgraph_update, cgraph_get, cgraph_send, cjq_response, cjq_request, cjq_retry, cjq_abort,
  cheartbeat, cheartbeat_check, cheartbeat_reset, node_failure, pclient, pserver, accepted, wait,
  CjqResponseKind,
}
use kollaps.Cmanager.Controller.{Uuids, Ctrl, CtrlEvent, Reaction, update_remove, complete_graph}
use kollaps.Cmanager.Controller.Reactions.{
  notify, answered, on_request, on_heartbeat, on_failure, on_sent, give_up, join, on_response,
  on_own,
}

module _ {Ip Text : Type 0} where
  -- The events that end the arrival of a node.
  abbrev pub releases : CtrlEvent Ip Text → Bool
  releases (cgraph_update _) = true
  releases cjq_abort = true
  releases _ = false

  abbrev pub is_acceptance : Option (Option (CtrlEvent Ip Text)) → Bool
  is_acceptance (some (some (cjq_response (accepted _)))) = true
  is_acceptance _ = false

module _ {Ip Key Text : Type 0} where
  -- A leader to which a node is being added.
  pub record IsAdding (c : Ctrl Ip Key Text) : Type 0 where
    pub leads : c.is_leader ≡ true
    pub adds : c.adding_new_node ≡ true

  -- What a reaction keeps, and does not answer.
  record Refuses (r : Reaction Ip Key Text) : Type 0 where
    pub still : IsAdding r.ctrl
    pub refuses : is_acceptance r.answer ≡ false

  if_Refuses :
      (b : Bool) (r s : Reaction Ip Key Text) → Refuses r → Refuses s → Refuses (if b then r else s)
  if_Refuses true r s h k = h
  if_Refuses false r s h k = k

module _ {Ip Key Text : Type 0} (ips : VertexEq Ip) (ids : Uuids Key Text) where
  on_request-Refuses :
      (c : Ctrl Ip Key Text) (info : ClusterNodeInfo Ip) (r : Reaction Ip Key Text)
      → on_request ips ids c info ≡ ok r
      → IsAdding c
      → Refuses r
  unfolding on_request answered
  on_request-Refuses c info r h a =
      let same = ok-injective _ _ (rw (a.leads, a.adds) at h) in
      rw (← same) (record { still = record { leads = refl; adds = refl }; refuses = refl })

  on_heartbeat-Refuses :
      (c : Ctrl Ip Key Text) (other : Text) → IsAdding c → Refuses (on_heartbeat ips ids c other)
  unfolding on_heartbeat answered
  on_heartbeat-Refuses c other a =
      if_Refuses _ _ _ (record { still = a; refuses = refl }) (record { still = a; refuses = refl })

  on_failure-Refuses :
      (c : Ctrl Ip Key Text) (info : ClusterNodeInfo Ip) (r : Reaction Ip Key Text)
      → on_failure ips ids c info ≡ ok r
      → IsAdding c
      → Refuses r
  unfolding on_failure answered
  on_failure-Refuses c info r h a = elim (Option-cases (get (by_info ips) info c.misses)) [
    | inl first ↦
        let same = ok-injective _ _ (rw (on_failure, first) at h) in
        rw (← same) (record { still = record { leads = a.leads; adds = a.adds }; refuses = refl })
    | inr (missed, e) ↦ elim (Bool-cases (leb c.config.heartbeat_misses (missed + 1))) [
      | inr more ↦
          let same = ok-injective _ _ (rw (on_failure, e, more) at h) in
          rw (← same) (record { still = record { leads = a.leads; adds = a.adds }; refuses = refl })
      | inl last ↦
          let chain = rw (on_failure, e, last) at h in
          let (g, _, h1) =
            bind-ok (unwrap (remove_one_by c.cgraph (λ n. info_eq ips n.info info))) _ r chain in
          let (told, _, h2) =
            bind-ok
              (notify ips ids (record c { cgraph = g; misses = remove (by_info ips) info c.misses })
                (update_remove info))
              _ r h1 in
          elim (Bool-cases (graph_size g + 1 == graph_size c.cgraph)) [
            | inr wrong ↦ let no_ok = rw wrong at h2 in cc
            | inl right ↦
                let same = ok-injective _ _ (rw right at h2) in
                rw (← same)
                  (record { still = record { leads = a.leads; adds = a.adds }; refuses = refl })
          ]
    ]
  ]

  on_sent-Refuses :
      (c : Ctrl Ip Key Text) (e : CtrlEvent Ip Text) (r : Reaction Ip Key Text)
      → on_sent ips ids c e ≡ ok r
      → releases e ≡ false
      → IsAdding c
      → Refuses r
  unfolding on_sent answered
  on_sent-Refuses c cgraph_get r h n a =
      let same = ok-injective _ _ h in rw (← same) (record { still = a; refuses = refl })
  on_sent-Refuses c (cgraph_update graph) r h n a = cc
  on_sent-Refuses c (cjq_request info) r h n a = on_request-Refuses c info r h a
  on_sent-Refuses c cjq_abort r h n a = cc
  on_sent-Refuses c (cheartbeat (_, other)) r h n a =
      let same = ok-injective _ _ h in rw (← same) (on_heartbeat-Refuses c other a)
  on_sent-Refuses c (node_failure info) r h n a = on_failure-Refuses c info r h a
  on_sent-Refuses c cheartbeat_reset r h n a =
      let same = ok-injective _ _ h in
      rw (← same) (record { still = record { leads = a.leads; adds = a.adds }; refuses = refl })
  on_sent-Refuses c pclient r h n a =
      let same = ok-injective _ _ h in rw (← same) (record { still = a; refuses = refl })
  on_sent-Refuses c (cgraph_send _) r h n a =
      let same = ok-injective _ _ h in rw (← same) (record { still = a; refuses = refl })
  on_sent-Refuses c (cjq_response _) r h n a =
      let same = ok-injective _ _ h in rw (← same) (record { still = a; refuses = refl })
  on_sent-Refuses c cjq_retry r h n a =
      let same = ok-injective _ _ h in rw (← same) (record { still = a; refuses = refl })
  on_sent-Refuses c cheartbeat_check r h n a =
      let same = ok-injective _ _ h in rw (← same) (record { still = a; refuses = refl })
  on_sent-Refuses c (pserver _) r h n a =
      let same = ok-injective _ _ h in rw (← same) (record { still = a; refuses = refl })

  on_response-Refuses :
      (download : Option (CGraph (ClusterNodeInfo Ip)))
      (launch_test : ClusterNodeInfo Ip → ℕ → Option ℕ) (c : Ctrl Ip Key Text)
      (kind : CjqResponseKind (ClusterNodeInfo Ip) Text) (r : Reaction Ip Key Text)
      → on_response ips ids download launch_test c kind ≡ ok r
      → IsAdding c
      → Refuses r
  unfolding on_response give_up join
  on_response-Refuses download launch_test c (wait duration) r h a =
      let same = ok-injective _ _ h in
      rw (← same) (record { still = record { leads = a.leads; adds = a.adds }; refuses = refl })
  on_response-Refuses none launch_test c (accepted (info, cluster_id)) r h a =
      let same = ok-injective _ _ h in
      rw (← same) (record { still = record { leads = a.leads; adds = a.adds }; refuses = refl })
  on_response-Refuses (some g) launch_test c (accepted (info, cluster_id)) r h a =
      let (done, _, h1) =
        bind-ok (complete_graph ips launch_test c.config c.my_speed c.my_info g) _ r h in
      elim (Bool-cases done.1) [
        | inl complete ↦
            let (id, _, h2) =
              bind-ok (ok_or (ids.parse_str cluster_id) panic) _ r (rw complete at h1) in
            let same = ok-injective _ _ h2 in
            rw (← same)
              (record { still = record { leads = a.leads; adds = a.adds }; refuses = refl })
        | inr short ↦
            let same = ok-injective _ _ (rw short at h1) in
            rw (← same)
              (record { still = record { leads = a.leads; adds = a.adds }; refuses = refl })
      ]

  on_own-Refuses :
      (download : Option (CGraph (ClusterNodeInfo Ip)))
      (launch_test : ClusterNodeInfo Ip → ℕ → Option ℕ) (c : Ctrl Ip Key Text)
      (e : CtrlEvent Ip Text) (r : Reaction Ip Key Text)
      → on_own ips ids download launch_test c e ≡ ok r
      → IsAdding c
      → Refuses r
  unfolding on_own
  on_own-Refuses download launch_test c (cjq_response kind) r h a =
      on_response-Refuses download launch_test c kind r h a
  on_own-Refuses download launch_test c cjq_retry r h a =
      elim (Bool-cases (ltb 0 c.remaining_retries)) [
        | inl left ↦
            let same = ok-injective _ _ (rw left at h) in
            rw (← same)
              (record { still = record { leads = a.leads; adds = a.adds }; refuses = refl })
        | inr ended ↦ let no_ok = rw ended at h in cc
      ]
  on_own-Refuses download launch_test c cheartbeat_check r h a =
      let (id, _, h1) = bind-ok (ok_or c.cluster_id panic) _ r (rw a.leads at h) in
      let same = ok-injective _ _ h1 in
      rw (← same) (record { still = record { leads = refl; adds = a.adds }; refuses = refl })
  on_own-Refuses download launch_test c cgraph_get r h a =
      let same = ok-injective _ _ h in rw (← same) (record { still = a; refuses = refl })
  on_own-Refuses download launch_test c (cgraph_update _) r h a =
      let same = ok-injective _ _ h in rw (← same) (record { still = a; refuses = refl })
  on_own-Refuses download launch_test c (cgraph_send _) r h a =
      let same = ok-injective _ _ h in rw (← same) (record { still = a; refuses = refl })
  on_own-Refuses download launch_test c (cjq_request _) r h a =
      let same = ok-injective _ _ h in rw (← same) (record { still = a; refuses = refl })
  on_own-Refuses download launch_test c cjq_abort r h a =
      let same = ok-injective _ _ h in rw (← same) (record { still = a; refuses = refl })
  on_own-Refuses download launch_test c (cheartbeat _) r h a =
      let same = ok-injective _ _ h in rw (← same) (record { still = a; refuses = refl })
  on_own-Refuses download launch_test c cheartbeat_reset r h a =
      let same = ok-injective _ _ h in rw (← same) (record { still = a; refuses = refl })
  on_own-Refuses download launch_test c (node_failure _) r h a =
      let same = ok-injective _ _ h in rw (← same) (record { still = a; refuses = refl })
  on_own-Refuses download launch_test c pclient r h a =
      let same = ok-injective _ _ h in rw (← same) (record { still = a; refuses = refl })
  on_own-Refuses download launch_test c (pserver _) r h a =
      let same = ok-injective _ _ h in rw (← same) (record { still = a; refuses = refl })

  -- The controller serves events, with a sender or its own, that do not end an arrival; the list
  -- holds its answers. What comes with its own event is what `on_own` takes.
  pub data Serves
      : Ctrl Ip Key Text
        → List (Option (Option (CtrlEvent Ip Text)))
        → Ctrl Ip Key Text
        → Type 0 where
    idle : (c : Ctrl Ip Key Text) → Serves c [] c
    serve :
        (c : Ctrl Ip Key Text) (e : CtrlEvent Ip Text) (r : Reaction Ip Key Text)
        (answers : List (Option (Option (CtrlEvent Ip Text)))) (d : Ctrl Ip Key Text)
        → releases e ≡ false
        → on_sent ips ids c e ≡ ok r
        → Serves r.ctrl answers d
        → Serves c (r.answer ∷ answers) d
    serve_own :
        (download : Option (CGraph (ClusterNodeInfo Ip)))
        (launch_test : ClusterNodeInfo Ip → ℕ → Option ℕ) (c : Ctrl Ip Key Text)
        (e : CtrlEvent Ip Text) (r : Reaction Ip Key Text)
        (answers : List (Option (Option (CtrlEvent Ip Text)))) (d : Ctrl Ip Key Text)
        → on_own ips ids download launch_test c e ≡ ok r
        → Serves r.ctrl answers d
        → Serves c (r.answer ∷ answers) d

  abbrev pub NoAcceptance : List (Option (Option (CtrlEvent Ip Text))) → Type 0
  NoAcceptance [] = Unit
  NoAcceptance (a ∷ rest) = (is_acceptance a ≡ false) × NoAcceptance rest

  -- While a leader is adding a node, it accepts no other one, however many events come, with a
  -- sender or its own, as long as none of those with a sender is a new graph or an abort: it is
  -- still the leader and adding the node after them.
  pub Serves-NoAcceptance :
      (c d : Ctrl Ip Key Text) (answers : List (Option (Option (CtrlEvent Ip Text))))
      → IsAdding c
      → Serves c answers d
      → NoAcceptance answers × IsAdding d
  Serves-NoAcceptance c _ _ a (idle _) = (tt, a)
  Serves-NoAcceptance c d _ a (serve _ e r answers _ n h rest) =
      let s = on_sent-Refuses c e r h n a in
      let (none_later, last) = Serves-NoAcceptance r.ctrl d answers s.still rest in
      ((s.refuses, none_later), last)
  Serves-NoAcceptance c d _ a (serve_own download launch_test _ e r answers _ h rest) =
      let s = on_own-Refuses download launch_test c e r h a in
      let (none_later, last) = Serves-NoAcceptance r.ctrl d answers s.still rest in
      ((s.refuses, none_later), last)
