-- ===== src/Common/EmulMessage.antt =====
-- common/src/tc_message.rs: the messages of the emulation, and their bytes.
use kollaps.Prelude.{
  ℕ, ◌≡◌, ◌≢◌, refl, ◌∙◌, Bool, Option, none, some, List, [], arith, if◌then◌else◌, ◌==◌,
}
use kollaps.Common.Bytes.{
  Result, ok, err, opcode_not_recognized, Codec, PartialCodec, put_u16, deserialized,
  from_bytes_with, from_bytes-bare, from_bytes-full, deserialized-encode,
}

pub record TcConf (Ip F : Type 0) : Type 0 where
  pub dest : Ip
  pub bandwidth_kbitps : Option ℕ
  pub latency_and_jitter : Option (F × F)
  pub drop : Option F

pub record FlowConf (Ip : Type 0) : Type 0 where
  pub src : Ip
  pub dest : Ip
  pub throughput : Option ℕ

pub data EventAction : Type 0 where
  join quit crash : EventAction

pub record EmulationEvent : Type 0 where
  pub app_id : ℕ
  pub time : ℕ
  pub action : EventAction

pub data EmulMessage (Ip F : Type 0) : Type 0 where
  flow_update : FlowConf Ip → EmulMessage Ip F
  tc_init : TcConf Ip F → EmulMessage Ip F
  tc_update : TcConf Ip F → EmulMessage Ip F
  tc_disconnect tc_reconnect tc_teardown socket_ready : EmulMessage Ip F
  event : EmulationEvent → EmulMessage Ip F

module _ {Ip F : Type 0} where
  unfoldable pub default_conf : Ip → TcConf Ip F
  default_conf dest = record {
    dest = dest;
    bandwidth_kbitps = none;
    latency_and_jitter = none;
    drop = none;
  }

  unfoldable pub with_bandwidth : TcConf Ip F → ℕ → TcConf Ip F
  with_bandwidth c bw = record c { bandwidth_kbitps = some bw }

  unfoldable pub with_latency_jitter : TcConf Ip F → F → F → TcConf Ip F
  with_latency_jitter c lat jitter = record c { latency_and_jitter = some (lat, jitter) }

  unfoldable pub with_drop : TcConf Ip F → F → TcConf Ip F
  with_drop c drop = record c { drop = some drop }

  pub event_2_opcode : EmulMessage Ip F → ℕ
  event_2_opcode (flow_update _) = 0x0001
  event_2_opcode (tc_init _) = 0x0003
  event_2_opcode (tc_update _) = 0x0004
  event_2_opcode tc_disconnect = 0x0005
  event_2_opcode tc_reconnect = 0x0006
  event_2_opcode tc_teardown = 0x0007
  event_2_opcode socket_ready = 0x0008
  event_2_opcode (event _) = 0x0009

  -- Each float of a configuration is in `KeepsFloat`.
  abbrev pub KeepsFloats : (F → Type 0) → TcConf Ip F → Type 0
  KeepsFloats KeepsFloat c =
      ((latency jitter : F)
        → c.latency_and_jitter ≡ some (latency, jitter)
        → KeepsFloat latency × KeepsFloat jitter)
      × ((drop : F) → c.drop ≡ some drop → KeepsFloat drop)

  -- `KeepsFloat` is of the floats that `serde_json` reads back from the text that it writes.
  module _ {is_utf8 : List ℕ → Bool} {KeepsFloat : F → Type 0} (flows : Codec is_utf8 (FlowConf Ip))
      (confs : PartialCodec is_utf8 (TcConf Ip F) (KeepsFloats KeepsFloat))
      (events : Codec is_utf8 EmulationEvent) where
    -- An opcode with a payload that is missing falls through to the error.
    pub opcode_2_event : ℕ → Option (List ℕ) → Result (EmulMessage Ip F)
    unfolding deserialized
    opcode_2_event opcode payload =
        if opcode == 0x0001
        then deserialized flows flow_update payload
        else if opcode == 0x0003
        then deserialized confs tc_init payload
        else if opcode == 0x0004
        then deserialized confs tc_update payload
        else if opcode == 0x0005
        then ok tc_disconnect
        else if opcode == 0x0006
        then ok tc_reconnect
        else if opcode == 0x0007
        then ok tc_teardown
        else if opcode == 0x0008
        then ok socket_ready
        else if opcode == 0x0009
        then deserialized events event payload
        else err opcode_not_recognized

    -- The payload of an `event` is not written: it falls under `_ => {}`.
    payload_of : EmulMessage Ip F → List ℕ
    payload_of (flow_update a) = flows.encode a
    payload_of (tc_init a) = confs.encode a
    payload_of (tc_update a) = confs.encode a
    payload_of _ = []

    pub serialize_to_bytes : EmulMessage Ip F → List ℕ
    unfolding event_2_opcode payload_of
    serialize_to_bytes m = put_u16 (event_2_opcode m) (payload_of m)

    pub from_bytes : List ℕ → Result (EmulMessage Ip F)
    unfolding opcode_2_event
    from_bytes = from_bytes_with is_utf8 opcode_2_event

    -- The message is not an event, and `serde_json` keeps the floats that it has.
    abbrev pub IsSent : EmulMessage Ip F → Type 0
    IsSent (tc_init a) = KeepsFloats KeepsFloat a
    IsSent (tc_update a) = KeepsFloats KeepsFloat a
    IsSent m = (e : EmulationEvent) → m ≢ event e

    -- Every message but an event is read back from its bytes, if each of its floats is one that
    -- `serde_json` reads back from the text that it writes.
    pub from_bytes-serialize_message :
        (m : EmulMessage Ip F) → IsSent m → from_bytes (serialize_to_bytes m) ≡ ok m
    unfolding from_bytes serialize_to_bytes opcode_2_event
    from_bytes-serialize_message (flow_update a) h =
        from_bytes-full is_utf8 opcode_2_event flows 0x0001 a (omega arith)
        ∙ deserialized-encode flows flow_update a tt
    from_bytes-serialize_message (tc_init a) h =
        from_bytes-full is_utf8 opcode_2_event confs 0x0003 a (omega arith)
        ∙ deserialized-encode confs tc_init a h
    from_bytes-serialize_message (tc_update a) h =
        from_bytes-full is_utf8 opcode_2_event confs 0x0004 a (omega arith)
        ∙ deserialized-encode confs tc_update a h
    from_bytes-serialize_message tc_disconnect h =
        from_bytes-bare is_utf8 opcode_2_event 0x0005 (omega arith)
    from_bytes-serialize_message tc_reconnect h =
        from_bytes-bare is_utf8 opcode_2_event 0x0006 (omega arith)
    from_bytes-serialize_message tc_teardown h =
        from_bytes-bare is_utf8 opcode_2_event 0x0007 (omega arith)
    from_bytes-serialize_message socket_ready h =
        from_bytes-bare is_utf8 opcode_2_event 0x0008 (omega arith)
    from_bytes-serialize_message (event e) h = absurd (h e refl)

    -- An event is written without its payload, so that reading it back is an error.
    pub from_bytes-serialize_event :
        (e : EmulationEvent) → from_bytes (serialize_to_bytes (event e)) ≡ err opcode_not_recognized
    unfolding from_bytes serialize_to_bytes opcode_2_event deserialized
    from_bytes-serialize_event e = from_bytes-bare is_utf8 opcode_2_event 0x0009 (omega arith)
