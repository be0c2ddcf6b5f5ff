-- ===== src/Emulation/Host/Stopped.antt =====
-- emulation/src/emanager.rs: a stop that comes between the creation of an emulation and its start.
use kollaps.Prelude.{◌≡◌, refl, Bool, none, some, List, [], ◌∷◌, ◌++◌, Bool-cases, inl, inr, arith}
use Prim.Native.String.{String}
use kollaps.Netgraph.Link.{VertexEq}
use kollaps.Netgraph.Network.{get, insert, remove}
use kollaps.Emulation.Data.{ClusterNodeInfo}
use kollaps.Emulation.Core.State.{EmulCore}
use kollaps.Emulation.Protocol.{Ids, experiment_stop, experiment_ready}
use kollaps.Emulation.Host.{
  EManager, Effect, spawn_start, answer_if, stops, receive_messages, start_task,
}

remove-absent :
    {T V : Type 0} (v : VertexEq T) (k : T) (m : List (T × V)) → get v k m ≡ none → remove v k m ≡ m
unfolding get remove
remove-absent v k [] h = refl
remove-absent v k ((j, i) ∷ m) h = elim (Bool-cases (v.beq j k)) [
  | inl t ↦ ground (arith, rw t at h)
  | inr t ↦ rw (t, remove-absent v k m (rw t at h)) refl
]

module _ {Ip F Key Chan : Type 0} (ips : VertexEq Ip) (ids : Ids Key)
    (works : Effect Ip F Key Chan → Bool) where
  -- A stop that comes after the core of an emulation is stored and before the start signal is lost:
  -- nothing is told to stop, the start signal that follows spawns the emulation as if it had not
  -- come, and the task takes the same core.
  pub stop-ready :
      (text : String) (id : Key) (leader : ClusterNodeInfo Ip) (b c : Bool) (tx uy : Chan)
      (core : EmulCore Ip String F) (m : EManager Ip F Key Chan)
      → ids.parse_str text ≡ some id
      → m.cluster_omanager ≡ some leader
      → get ids.same id m.emul_id_abort_chan ≡ none
      → get ids.same id m.emul_id_to_emulcore ≡ some core
      → let started = record m {
        emul_id_abort_chan = insert ids.same id uy m.emul_id_abort_chan;
      } in
        (receive_messages ips ids works
            ((experiment_stop text, (b, tx)) ∷ (experiment_ready text, (c, uy)) ∷ [])
            m
          ≡ some (started, answer_if b ++ ((spawn_start id leader uy ∷ answer_if c) ++ [])))
        × (start_task ips ids works id started
            ≡ some (
              core,
              record started { emul_id_to_emulcore = remove ids.same id m.emul_id_to_emulcore },
            ))
  unfolding receive_messages start_task stops
  stop-ready text id leader b c tx uy core m parses known absent stored = (
    rw (parses, absent, known, remove-absent ids.same id m.emul_id_abort_chan absent) refl,
    rw stored refl,
  )
