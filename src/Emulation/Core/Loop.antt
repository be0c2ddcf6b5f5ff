-- ===== src/Emulation/Core/Loop.antt =====
-- emulation/src/emulcore.rs: `flow_loop`, and what is done when a core is dropped.
use kollaps.Prelude.{Bool, true, false, ◌&&◌, List, [], ◌∷◌, ◌++◌, if◌then◌else◌}
use kollaps.Netgraph.Link.{VertexEq, Floats}
use kollaps.Common.EmulMessage.{EmulMessage, tc_update, tc_teardown, default_conf, with_bandwidth}
use kollaps.Emulation.Data.{Node}
use kollaps.Emulation.Bandwidth.{Doubles}
use kollaps.Emulation.Core.Run.{
  Run, Effect, tell_reporter, schedule, leave_channels, done, perform, each, ◌>>=◌, ◌>>◌,
}
use kollaps.Emulation.Core.State.{AppStatus, crashed, EmulCore, State}
use kollaps.Emulation.Core.Messages.{is_mine, ip_addr, tell, on_message, stop_app_if_necessary}

abbrev pub is_crashed : AppStatus → Bool
is_crashed crashed = true
is_crashed _ = false

module _ {Ip Text F Q : Type 0} (ips : VertexEq Ip) (f : Floats F) (q : Doubles Q)
    (works : Effect Ip Text F → Bool) (core : EmulCore Ip Text F) where
  -- The updates at the end of each iteration.
  unfoldable pub send_updates : State Ip Text F → Run Ip Text F (Unit {0})
  unfolding is_mine ip_addr tell each default_conf with_bandwidth
  send_updates st =
      each
        (λ flow.
          let told = (do
            ip ← ip_addr ips f q works core flow.destination
            let conf = with_bandwidth (default_conf ip) flow.authorized_bandwidth
            tell ips f q works core st flow.source (tc_update conf)) in
          do mine ← is_mine ips f q works core flow.source; if mine then told else done tt)
        st.active_flows

  unfoldable pub all_crashed : List (Node Ip Text × AppStatus) → Bool
  all_crashed [] = true
  all_crashed ((_, status) ∷ others) = is_crashed status && all_crashed others

  unfoldable pub iteration : EmulMessage Ip F → State Ip Text F → Run Ip Text F (State Ip Text F)
  unfolding on_message send_updates
  iteration m st = do next ← on_message ips f q works core m st; send_updates next; done next

  unfoldable pub receive_all :
      List (EmulMessage Ip F) → State Ip Text F → Run Ip Text F (State Ip Text F)
  unfolding iteration all_crashed
  receive_all [] st = done st
  receive_all (m ∷ messages) st = do
    next ← iteration m st
    let rest = receive_all messages next
    if all_crashed next.my_apps then done next else rest

  -- From the applications that `init_emulation` connected to, over the messages that come.
  unfoldable pub flow_loop :
      List (Node Ip Text × AppStatus) → List (EmulMessage Ip F) → Run Ip Text F (State Ip Text F)
  unfolding receive_all perform
  flow_loop my_apps messages = do
    perform works (schedule core.events)
    last ←
        receive_all messages
          (record { my_apps = my_apps; active_flows = []; bw_graph = core.graph })
    perform works leave_channels
    done last

  -- What `drop` tries for each application; an error is ignored.
  unfoldable pub drop_apps : List (Node Ip Text × AppStatus) → List (Effect Ip Text F)
  unfolding perform stop_app_if_necessary
  drop_apps [] = []
  drop_apps ((node, status) ∷ others) =
      let torn =
        tell_reporter node tc_teardown ∷ (stop_app_if_necessary ips f q works core node).effects in
      (if is_crashed status then [] else torn) ++ drop_apps others

  unfoldable pub drop_core : State Ip Text F → List (Effect Ip Text F)
  unfolding drop_apps
  drop_core st = leave_channels ∷ drop_apps st.my_apps
