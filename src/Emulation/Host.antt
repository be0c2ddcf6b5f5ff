-- ===== src/Emulation/Host.antt =====
-- emulation/src/emanager.rs: the manager of a machine, with the cores of its emulations.
--
-- `none` is a panic. What is spawned and sent is a list of effects, in order; `works` tells which of
-- them succeed. The channel that `channel(5)` makes comes with the message.
pub mod Leader
pub mod Stopped
use package.kollaps.Prelude.{
  Bool, true, false, Option, none, some, List, [], ◌∷◌, ◌++◌, if◌then◌else◌, ◌>>=◌,
}
use Prim.Native.String.{String}
use package.kollaps.Netgraph.Link.{VertexEq}
use package.kollaps.Netgraph.Network.{get, insert, remove}
use package.kollaps.Common.EmulMessage.{EmulMessage}
use package.kollaps.Emulation.Data.{ClusterNodeInfo, Emulation}
use package.kollaps.Emulation.Core.State.{EmulCore, new}
use package.kollaps.Emulation.Protocol.{
  Ids, EManagerMessage, emul_core_interchange, experiment_new, experiment_stop, experiment_ready,
}

-- The configuration and the helper for docker are only used to create a core.
pub record EManager (Ip F Key Chan : Type 0) : Type 0 where
  pub myself : ClusterNodeInfo Ip
  pub emul_id_to_channel : List (Key × Chan)
  pub emul_id_abort_chan : List (Key × Chan)
  pub emul_id_to_emulcore : List (Key × EmulCore Ip String F)
  pub cluster_omanager : Option (ClusterNodeInfo Ip)

-- The two tasks that are spawned, what goes into a channel, the answer to the sender of a message,
-- and what a task tells the manager of the cluster.
pub data Effect (Ip F Key Chan : Type 0) : Type 0 where
  spawn_create : Emulation Ip String F → ClusterNodeInfo Ip → Effect Ip F Key Chan
  spawn_start : Key → ClusterNodeInfo Ip → Chan → Effect Ip F Key Chan
  forward : Chan → EmulMessage Ip F → Effect Ip F Key Chan
  stop : Chan → Effect Ip F Key Chan
  answer : Effect Ip F Key Chan
  tell_ready : Key → ClusterNodeInfo Ip → ClusterNodeInfo Ip → Effect Ip F Key Chan
  tell_abort : Key → ClusterNodeInfo Ip → Effect Ip F Key Chan

-- How the race in the task of `start_emulation` ends.
pub data RaceEnd : Type 0 where
  is_over is_aborted has_failed : RaceEnd

-- The manager of the cluster that is kept: the first.
abbrev pub known_or : {A : Type 0} → A → Option A → A
known_or leader none = leader
known_or leader (some known) = known

module _ {Ip F Key Chan : Type 0} where
  -- The state of `build`.
  abbrev pub built : ClusterNodeInfo Ip → EManager Ip F Key Chan
  built myself = record {
    myself = myself;
    emul_id_to_channel = [];
    emul_id_abort_chan = [];
    emul_id_to_emulcore = [];
    cluster_omanager = none;
  }

  -- Whether the answer arrives does not matter.
  unfoldable pub answer_if : Bool → List (Effect Ip F Key Chan)
  answer_if true = answer ∷ []
  answer_if false = []

  unfoldable pub stops : Option Chan → List (Effect Ip F Key Chan)
  stops none = []
  stops (some c) = stop c ∷ []

module _ {Ip F Key Chan : Type 0} (ips : VertexEq Ip) (ids : Ids Key)
    (works : Effect Ip F Key Chan → Bool) where
  unfoldable pub on_experiment_new :
      ClusterNodeInfo Ip
      → Emulation Ip String F
      → Bool
      → EManager Ip F Key Chan
      → Option (EManager Ip F Key Chan × List (Effect Ip F Key Chan))
  unfolding answer_if
  on_experiment_new leader emul has_sender m = do
    let known = known_or leader m.cluster_omanager
    id ← ids.parse_str emul.uuid
    some
        (record m { cluster_omanager = some known }, spawn_create emul known ∷ answer_if has_sender)

  unfoldable pub on_interchange :
      String
      → EmulMessage Ip F
      → EManager Ip F Key Chan
      → Option (EManager Ip F Key Chan × List (Effect Ip F Key Chan))
  unfolding get
  on_interchange text mess m = do
    id ← ids.parse_str text
    let answered = if works answer then some (m, answer ∷ []) else none
    elim (get ids.same id m.emul_id_to_channel) [
      | none ↦ answered
      | some c ↦
          if works (forward c mess)
          then if works answer then some (m, forward c mess ∷ answer ∷ []) else none
          else none
    ]

  unfoldable pub on_experiment_stop :
      String
      → Bool
      → EManager Ip F Key Chan
      → Option (EManager Ip F Key Chan × List (Effect Ip F Key Chan))
  unfolding get remove answer_if stops
  on_experiment_stop text has_sender m = do
    id ← ids.parse_str text
    some (
      record m { emul_id_abort_chan = remove ids.same id m.emul_id_abort_chan },
      stops (get ids.same id m.emul_id_abort_chan) ++ answer_if has_sender,
    )

  unfoldable pub on_experiment_ready :
      String
      → Bool
      → Chan
      → EManager Ip F Key Chan
      → Option (EManager Ip F Key Chan × List (Effect Ip F Key Chan))
  unfolding insert answer_if
  on_experiment_ready text has_sender tx m = do
    id ← ids.parse_str text
    leader ← m.cluster_omanager
    some (
      record m { emul_id_abort_chan = insert ids.same id tx m.emul_id_abort_chan },
      spawn_start id leader tx ∷ answer_if has_sender,
    )

  unfoldable pub handle :
      EManagerMessage Ip F
      → Bool
      → Chan
      → EManager Ip F Key Chan
      → Option (EManager Ip F Key Chan × List (Effect Ip F Key Chan))
  unfolding on_experiment_new on_interchange on_experiment_stop on_experiment_ready
  handle (experiment_new leader emul) has_sender tx m = on_experiment_new leader emul has_sender m
  handle (emul_core_interchange id mess) true tx m = on_interchange id mess m
  handle (emul_core_interchange id mess) false tx m = some (m, [])
  handle (experiment_stop id) has_sender tx m = on_experiment_stop id has_sender m
  handle (experiment_ready id) has_sender tx m = on_experiment_ready id has_sender tx m

  unfoldable pub receive_messages :
      List (EManagerMessage Ip F × (Bool × Chan))
      → EManager Ip F Key Chan
      → Option (EManager Ip F Key Chan × List (Effect Ip F Key Chan))
  unfolding handle
  receive_messages [] m = some (m, [])
  receive_messages ((mess, (has_sender, tx)) ∷ messages) m = do
    next ← handle mess has_sender tx m
    rest ← receive_messages messages next.0
    some (rest.0, next.1 ++ rest.1)

  -- The task of `create_emulation`; `initialised` is how `init_emulation` ends. A task that panics
  -- leaves the manager as it is.
  unfoldable pub create_task :
      Emulation Ip String F
      → Key
      → ClusterNodeInfo Ip
      → Bool
      → EManager Ip F Key Chan
      → EManager Ip F Key Chan × List (Effect Ip F Key Chan)
  unfolding new insert
  create_task emul id leader initialised m = elim (new ips emul m.myself leader) [
    | none ↦ (m, [])
    | some core ↦
        let cores = insert ids.same id core m.emul_id_to_emulcore in
        let stored = record m { emul_id_to_emulcore = cores } in
        let told = tell_ready id m.myself leader in
        if initialised
        then if works told then (stored, told ∷ []) else (stored, told ∷ tell_abort id leader ∷ [])
        else (m, tell_abort id leader ∷ [])
  ]

  -- The task of `start_emulation`: the core that it takes, and what follows its race.
  unfoldable pub start_task :
      Key → EManager Ip F Key Chan → Option (EmulCore Ip String F × EManager Ip F Key Chan)
  unfolding get remove
  start_task id m = do
    core ← get ids.same id m.emul_id_to_emulcore
    some (core, record m { emul_id_to_emulcore = remove ids.same id m.emul_id_to_emulcore })

  unfoldable pub after_race : Key → ClusterNodeInfo Ip → RaceEnd → List (Effect Ip F Key Chan)
  after_race id leader is_over = []
  after_race id leader is_aborted = []
  after_race id leader has_failed = tell_abort id leader ∷ []
