-- ===== src/Emulation/Host/Leader.antt =====
-- emulation/src/emanager.rs: the manager of the cluster that the emulations of a machine report to.
use kollaps.Prelude.{
  ◌≡◌, refl, Bool, true, false, none, some, is_some, List, [], ◌∷◌, ◌++◌, Option, arith,
  if◌then◌else◌,
}
use kollaps.Netgraph.Link.{VertexEq}
use kollaps.Netgraph.Network.{get, insert, remove}
use kollaps.Emulation.Data.{ClusterNodeInfo, Emulation}
use Prim.Native.String.{String}
use kollaps.Common.EmulMessage.{EmulMessage}
use kollaps.Emulation.Protocol.{
  Ids, EManagerMessage, emul_core_interchange, experiment_new, experiment_stop, experiment_ready,
}
use kollaps.Emulation.Host.{
  EManager, Effect, spawn_create, spawn_start, answer_if, stops, handle, receive_messages,
  on_experiment_new, on_interchange, on_experiment_stop, on_experiment_ready, known_or, answer,
  forward,
}

module _ {Ip F Key Chan : Type 0} where
  -- What is spawned reports to the manager `l`.
  abbrev pub GoesTo : ClusterNodeInfo Ip → Effect Ip F Key Chan → Type 0
  GoesTo l (spawn_create _ k) = k ≡ l
  GoesTo l (spawn_start _ k _) = k ≡ l
  GoesTo l _ = Unit

  abbrev pub AllGoTo : ClusterNodeInfo Ip → List (Effect Ip F Key Chan) → Type 0
  AllGoTo l [] = Unit
  AllGoTo l (e ∷ es) = GoesTo l e × AllGoTo l es

  AllGoTo-append :
      (l : ClusterNodeInfo Ip) (es fs : List (Effect Ip F Key Chan))
      → AllGoTo l es
      → AllGoTo l fs
      → AllGoTo l (es ++ fs)
  AllGoTo-append l [] fs a b = b
  AllGoTo-append l (e ∷ es) fs (x, a) b = (x, AllGoTo-append l es fs a b)

module _ {Ip F Key Chan : Type 0} (ips : VertexEq Ip) (ids : Ids Key)
    (works : Effect Ip F Key Chan → Bool) where
  answers :
      (l : ClusterNodeInfo Ip) (b : Bool)
      → AllGoTo {F = F} {Key = Key} {Chan = Chan} l (answer_if b)
  unfolding answer_if
  answers l true = (tt, tt)
  answers l false = tt

  stops-AllGoTo :
      (l : ClusterNodeInfo Ip) (c : Option Chan) → AllGoTo {F = F} {Key = Key} l (stops c)
  unfolding stops
  stops-AllGoTo l none = tt
  stops-AllGoTo l (some c) = (tt, tt)

  -- The text of an identifier is one.
  abbrev pub Parses : String → Type 0
  Parses text = is_some (ids.parse_str text) ≡ true

  abbrev pub IsMessage : EManagerMessage Ip F → Type 0
  IsMessage (emul_core_interchange text _) = Parses text
  IsMessage (experiment_new _ emul) = Parses emul.uuid
  IsMessage (experiment_stop text) = Parses text
  IsMessage (experiment_ready text) = Parses text

  abbrev pub AreMessages : List (EManagerMessage Ip F × (Bool × Chan)) → Type 0
  AreMessages [] = Unit
  AreMessages ((mess, _) ∷ messages) = IsMessage mess × AreMessages messages

  -- A run ends, knows the manager `l`, and what it spawned goes to it.
  abbrev pub Serves :
      ClusterNodeInfo Ip → Option (EManager Ip F Key Chan × List (Effect Ip F Key Chan)) → Type 0
  Serves l run =
      (r : EManager Ip F Key Chan × List (Effect Ip F Key Chan)) × (run ≡ some r)
      × (r.0.cluster_omanager ≡ some l)
      × AllGoTo l r.1

  parsed_as : (text : String) → Parses text → (id : Key) × (ids.parse_str text ≡ some id)
  parsed_as text p = go (ids.parse_str text) refl
    where
      go : (o : Option Key) → ids.parse_str text ≡ o → (id : Key) × (ids.parse_str text ≡ some id)
      go none e = ground (arith, rw e at p)
      go (some id) e = (id, e)

  module _ (all_work : (e : Effect Ip F Key Chan) → works e ≡ true) (l : ClusterNodeInfo Ip)
      (m : EManager Ip F Key Chan) where
    on_experiment_new-Serves :
        (k : ClusterNodeInfo Ip) (emul : Emulation Ip String F) (s : Bool)
        → Parses emul.uuid
        → known_or k m.cluster_omanager ≡ l
        → Serves l (on_experiment_new ips ids works k emul s m)
    unfolding on_experiment_new
    on_experiment_new-Serves k emul s p known =
        let (id, e) = parsed_as emul.uuid p in
        (
          (record m { cluster_omanager = some l }, spawn_create emul l ∷ answer_if s),
          rw (e, known) refl,
          refl,
          (refl, answers l s),
        )

    on_interchange-Serves :
        (text : String) (mess : EmulMessage Ip F)
        → Parses text
        → m.cluster_omanager ≡ some l
        → Serves l (on_interchange ips ids works text mess m)
    unfolding on_interchange
    on_interchange-Serves text mess p known =
        let (id, e) = parsed_as text p in rw e (go (get ids.same id m.emul_id_to_channel))
      where
        go :
            (c : Option Chan)
            → Serves l (elim c [
              | none ↦ if works answer then some (m, answer ∷ []) else none
              | some c ↦
                  if works (forward c mess)
                  then if works answer then some (m, forward c mess ∷ answer ∷ []) else none
                  else none
            ])
        go none = ((m, answer ∷ []), rw (all_work answer) refl, known, (tt, tt))
        go (some c) = (
          (m, forward c mess ∷ answer ∷ []),
          rw (all_work (forward c mess), all_work answer) refl,
          known,
          (tt, (tt, tt)),
        )

    handle-Serves :
        (mess : EManagerMessage Ip F) (s : Bool) (tx : Chan)
        → IsMessage mess
        → m.cluster_omanager ≡ some l
        → Serves l (handle ips ids works mess s tx m)
    unfolding handle on_experiment_stop on_experiment_ready
    handle-Serves (experiment_new k emul) s tx p known =
        on_experiment_new-Serves k emul s p (rw known refl)
    handle-Serves (emul_core_interchange text mess) true tx p known =
        on_interchange-Serves text mess p known
    handle-Serves (emul_core_interchange text mess) false tx p known = ((m, []), refl, known, tt)
    handle-Serves (experiment_stop text) s tx p known =
        let (id, e) = parsed_as text p in
        (
          (
            record m { emul_id_abort_chan = remove ids.same id m.emul_id_abort_chan },
            stops (get ids.same id m.emul_id_abort_chan) ++ answer_if s,
          ),
          rw e refl,
          known,
          AllGoTo-append l _ _ (stops-AllGoTo l (get ids.same id m.emul_id_abort_chan))
              (answers l s),
        )
    handle-Serves (experiment_ready text) s tx p known =
        let (id, e) = parsed_as text p in
        (
          (
            record m { emul_id_abort_chan = insert ids.same id tx m.emul_id_abort_chan },
            spawn_start id l tx ∷ answer_if s,
          ),
          rw (e, known) refl,
          known,
          (refl, answers l s),
        )

  -- From a manager of a machine that knows the manager `l`, whatever messages come with texts that
  -- are identifiers, where all that is sent arrives: it ends without a panic, and each emulation
  -- that it creates or starts reports to `l`, also where a message names another manager.
  receive_messages-Serves :
      (all_work : (e : Effect Ip F Key Chan) → works e ≡ true) (l : ClusterNodeInfo Ip)
      (messages : List (EManagerMessage Ip F × (Bool × Chan))) (m : EManager Ip F Key Chan)
      → AreMessages messages
      → m.cluster_omanager ≡ some l
      → Serves l (receive_messages ips ids works messages m)
  unfolding receive_messages
  receive_messages-Serves all_work l [] m p known = ((m, []), refl, known, tt)
  receive_messages-Serves all_work l ((mess, (s, tx)) ∷ messages) m (p, q) known =
      let (next, e, still, goes) = handle-Serves all_work l m mess s tx p known in
      let (last, f, end, rest) = receive_messages-Serves all_work l messages next.0 q still in
      ((last.0, next.1 ++ last.1), rw (e, f) refl, end, AllGoTo-append l next.1 last.1 goes rest)

  -- A machine that knows no manager of the cluster, as it is built, and gets its first emulation from
  -- the manager `l`: whatever messages follow, with texts that are identifiers and where all that is
  -- sent arrives, it ends without a panic, and each emulation that it creates or starts reports to
  -- `l`, also where a later message names another manager.
  pub first-Serves :
      (all_work : (e : Effect Ip F Key Chan) → works e ≡ true) (l : ClusterNodeInfo Ip)
      (emul : Emulation Ip String F) (s : Bool) (tx : Chan)
      (messages : List (EManagerMessage Ip F × (Bool × Chan))) (m : EManager Ip F Key Chan)
      → Parses emul.uuid
      → AreMessages messages
      → m.cluster_omanager ≡ none
      → Serves l (receive_messages ips ids works ((experiment_new l emul, (s, tx)) ∷ messages) m)
  unfolding receive_messages handle
  first-Serves all_work l emul s tx messages m p q none_yet =
      let (next, e, still, goes) =
        on_experiment_new-Serves all_work l m l emul s p (rw none_yet refl) in
      let (last, f, end, rest) = receive_messages-Serves all_work l messages next.0 q still in
      ((last.0, next.1 ++ last.1), rw (e, f) refl, end, AllGoTo-append l next.1 last.1 goes rest)
