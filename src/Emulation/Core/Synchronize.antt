-- ===== src/Emulation/Core/Synchronize.antt =====
-- emulation/src/emulcore.rs, `synchronize`: the machines of an emulation agree on when it begins.
--
-- A time is an `Instant` in nanoseconds, counted from one point for all the machines. A message
-- carries milliseconds: the crate serde_millis converts a time to them and back by the clocks that it reads
-- then, so that both conversions are inputs of a round, as every reading of the clock is.
pub mod Ring
pub mod Invariant
pub mod Wave
pub mod Agreement
use package.kollaps.Prelude.{
  ℕ, zero, suc, ◌+◌, ◌-◌, ◌*◌, ◌%◌, Bool, true, false, Option, none, some, List, [], ◌∷◌, ◌++◌, map,
  ltb, ◌==◌, if◌then◌else◌, length, get_elem?,
}
use package.kollaps.Netgraph.Link.{VertexEq}
use package.kollaps.Emulation.Data.{ClusterNodeInfo}

-- `from_secs`
abbrev pub seconds : ℕ → ℕ
seconds n = n * 1000000000

-- `EmulStart` with its milliseconds.
pub data SyncMessage : Type 0 where
  emul_start : ℕ → SyncMessage
  emul_start_ok : SyncMessage

-- `time` is a variable of the leader.
pub record Sync : Type 0 where
  pub time : ℕ
  pub begin_time : ℕ

-- The readings of the clock in one round of the loop, in order, and whether a message that is sent
-- reaches the next host; and what serde_millis makes of a time that is sent, and of milliseconds that
-- are received.
pub record Turn : Type 0 where
  pub first_now : ℕ
  pub second_now : ℕ
  pub third_now : ℕ
  pub reaches : Bool
  pub to_millis : ℕ → ℕ
  pub from_millis : ℕ → ℕ

-- What a round does: wait for the next message, sleep until a time and return, or return an error.
-- The first two answer the sender of the message, and may send a message to the next host.
pub data Outcome : Type 0 where
  waits : Sync → Option SyncMessage → Outcome
  starts : ℕ → Option SyncMessage → Outcome
  fails : Outcome

-- `next_conn.send(m).await?`, and what follows it.
unfoldable pub sending : Turn → Outcome → Outcome
sending turn then_ = if turn.reaches then then_ else fails

unfoldable pub on_leader : Sync → SyncMessage → Turn → Outcome
unfolding sending
on_leader s (emul_start millis) turn =
    let begin = turn.from_millis millis in
    let round_duration = turn.first_now - s.time in
    let next_round_time = turn.second_now + (round_duration + seconds 1) in
    let adapted = turn.third_now + (round_duration * 2 + seconds 2) in
    if ltb next_round_time begin
    then sending turn (waits s (some emul_start_ok))
    else sending turn (
        waits (record { time = turn.third_now; begin_time = adapted })
          (some (emul_start (turn.to_millis adapted))))
on_leader s emul_start_ok turn =
    if ltb turn.first_now s.begin_time then starts s.begin_time none else fails

unfoldable pub on_follower : Sync → SyncMessage → Turn → Outcome
unfolding sending
on_follower s (emul_start millis) turn =
    let begin = turn.from_millis millis in
    sending turn
      (waits (record s { begin_time = begin }) (some (emul_start (turn.to_millis begin))))
on_follower s emul_start_ok turn =
    if ltb turn.first_now s.begin_time
    then sending turn (starts s.begin_time (some emul_start_ok))
    else fails

-- A message without a sender is an error.
unfoldable pub on_message : Bool → Bool → Sync → SyncMessage → Turn → Outcome
unfolding on_leader on_follower
on_message iam_leader has_sender s m turn =
    if has_sender then if iam_leader then on_leader s m turn else on_follower s m turn else fails

-- The order of `IpAddr`.
pub record IpOrder (Ip : Type 0) : Type 0 where
  pub le : Ip → Ip → Bool

module _ {Ip : Type 0} (ips : VertexEq Ip) (order : IpOrder Ip) where
  -- `sort`
  insert_sorted : Ip → List Ip → List Ip
  insert_sorted a [] = a ∷ []
  insert_sorted a (b ∷ bs) = if order.le a b then a ∷ b ∷ bs else b ∷ insert_sorted a bs

  unfoldable pub sort : List Ip → List Ip
  unfolding insert_sorted
  sort [] = []
  sort (a ∷ others) = insert_sorted a (sort others)

  unfoldable pub position : Ip → List Ip → ℕ
  position a [] = 0
  position a (b ∷ bs) = if ips.beq a b then 0 else position a bs + 1

  unfoldable pub all_hosts : List (ClusterNodeInfo Ip) → ClusterNodeInfo Ip → List Ip
  unfolding sort
  all_hosts other_hosts myself = sort (map (λ h. h.ip_addr) other_hosts ++ myself.ip_addr ∷ [])

  -- The position of this machine and the address of the next one. A machine that is alone has none.
  unfoldable pub ring_place :
      List (ClusterNodeInfo Ip) → ClusterNodeInfo Ip → Option (ℕ × Option Ip)
  unfolding all_hosts position
  ring_place other_hosts myself =
      let all = all_hosts other_hosts myself in
      let my_position = position myself.ip_addr all in
      if length all == 1
      then none
      else some (my_position, get_elem? all ((my_position + 1) % length all))

-- The state before the first message, and what the leader sends.
unfoldable pub initially : Bool → Turn → Sync × Option SyncMessage
initially true turn =
    let now = turn.first_now in
    let begin = now + seconds 5 in
    (record { time = now; begin_time = begin }, some (emul_start (turn.to_millis begin)))
initially false turn = (record { time = turn.first_now; begin_time = turn.first_now }, none)

-- How `synchronize` ends: without a time where there is nothing to agree on, or where no message
-- comes any more.
pub data Ending : Type 0 where
  returns : Option ℕ → Ending
  errs : Ending

-- The loop over the messages that come, each with whether it has a sender. The messages that were
-- sent are put behind `out`.
unfoldable pub receive_loop :
    Bool → Sync → List (Bool × (SyncMessage × Turn)) → List SyncMessage → List SyncMessage × Ending
unfolding on_message
receive_loop iam_leader s [] out = (out, returns none)
receive_loop iam_leader s ((has_sender, (m, turn)) ∷ messages) out =
    elim (on_message iam_leader has_sender s m turn) [
      | fails ↦ (out, errs)
      | starts t none ↦ (out, returns (some t))
      | starts t (some k) ↦ (out ++ k ∷ [], returns (some t))
      | waits next none ↦ receive_loop iam_leader next messages out
      | waits next (some k) ↦ receive_loop iam_leader next messages (out ++ k ∷ [])
    ]

module _ {Ip : Type 0} (ips : VertexEq Ip) (order : IpOrder Ip) where
  -- `connects` tells whether the next host can be reached, and `first` is the first turn.
  unfoldable pub synchronize :
      List (ClusterNodeInfo Ip)
      → ClusterNodeInfo Ip
      → Bool
      → Turn
      → List (Bool × (SyncMessage × Turn))
      → List SyncMessage × Ending
  unfolding ring_place initially receive_loop
  synchronize other_hosts myself connects first messages =
      elim (ring_place ips order other_hosts myself) [
        | none ↦ ([], returns none)
        | some (my_position, next_host) ↦
            let iam_leader = my_position == 0 in
            let s = (initially iam_leader first).0 in
            let out : List SyncMessage = elim (initially iam_leader first).1 [
              | none ↦ []
              | some m ↦ m ∷ []
            ] in
            let run = receive_loop iam_leader s messages out in
            if connects
            then if iam_leader then if first.reaches then run else ([], errs) else run
            else ([], errs)
      ]
