-- ===== src/Cmanager/Event.antt =====
-- cmanager/src/data.rs: the events of the cluster manager, and their bytes.
use kollaps.Prelude.{ℕ, ◌≡◌, ◌<◌, refl, ◌∙◌, Bool, Option, List, [], arith, if◌then◌else◌, ◌==◌}
use kollaps.Common.Bytes.{
  Result, ok, err, opcode_not_recognized, Codec, put_u16, deserialized, from_bytes_with,
  from_bytes-bare, from_bytes-full, deserialized-encode,
}

-- A `Duration` is its number of milliseconds; `Uuid` is the text of an identifier.
pub data CjqResponseKind (Node Uuid : Type 0) : Type 0 where
  accepted : Node × Uuid → CjqResponseKind Node Uuid
  wait : ℕ → CjqResponseKind Node Uuid

pub data Event (Graph Node Uuid : Type 0) : Type 0 where
  cgraph_update : Graph → Event Graph Node Uuid
  cgraph_get : Event Graph Node Uuid
  cgraph_send : Graph → Event Graph Node Uuid
  cjq_response : CjqResponseKind Node Uuid → Event Graph Node Uuid
  cjq_request : Node → Event Graph Node Uuid
  cjq_retry cjq_abort : Event Graph Node Uuid
  cheartbeat : Node × Uuid → Event Graph Node Uuid
  cheartbeat_check cheartbeat_reset : Event Graph Node Uuid
  node_failure : Node → Event Graph Node Uuid
  pclient : Event Graph Node Uuid
  pserver : Node → Event Graph Node Uuid

module _ {Graph Node Uuid : Type 0} where
  pub event_2_opcode : Event Graph Node Uuid → ℕ
  event_2_opcode (cgraph_update _) = 0x0000
  event_2_opcode cgraph_get = 0x0001
  event_2_opcode (cjq_response _) = 0x0002
  event_2_opcode (cjq_request _) = 0x0003
  event_2_opcode cjq_retry = 0x0004
  event_2_opcode (cheartbeat _) = 0x0005
  event_2_opcode pclient = 0x0006
  event_2_opcode (pserver _) = 0x0007
  event_2_opcode (cgraph_send _) = 0x0009
  event_2_opcode (node_failure _) = 0x000A
  event_2_opcode cheartbeat_check = 0x000B
  event_2_opcode cheartbeat_reset = 0x000C
  event_2_opcode cjq_abort = 0x000D

  module _ {is_utf8 : List ℕ → Bool} (graphs : Codec is_utf8 Graph)
      (responses : Codec is_utf8 (CjqResponseKind Node Uuid)) (nodes : Codec is_utf8 Node)
      (beats : Codec is_utf8 (Node × Uuid)) where
    pub opcode_2_event : ℕ → Option (List ℕ) → Result (Event Graph Node Uuid)
    unfolding deserialized
    opcode_2_event opcode payload =
        if opcode == 0x0000
        then deserialized graphs cgraph_update payload
        else if opcode == 0x0001
        then ok cgraph_get
        else if opcode == 0x0002
        then deserialized responses cjq_response payload
        else if opcode == 0x0003
        then deserialized nodes cjq_request payload
        else if opcode == 0x0004
        then ok cjq_retry
        else if opcode == 0x0005
        then deserialized beats cheartbeat payload
        else if opcode == 0x0006
        then ok pclient
        else if opcode == 0x0007
        then deserialized nodes pserver payload
        else if opcode == 0x0009
        then deserialized graphs cgraph_send payload
        else if opcode == 0x000A
        then deserialized nodes node_failure payload
        else if opcode == 0x000B
        then ok cheartbeat_check
        else if opcode == 0x000C
        then ok cheartbeat_reset
        else if opcode == 0x000D
        then ok cjq_abort
        else err opcode_not_recognized

    payload_of : Event Graph Node Uuid → List ℕ
    payload_of (cgraph_update a) = graphs.encode a
    payload_of (cjq_response a) = responses.encode a
    payload_of (cjq_request a) = nodes.encode a
    payload_of (pserver a) = nodes.encode a
    payload_of (cgraph_send a) = graphs.encode a
    payload_of (node_failure a) = nodes.encode a
    payload_of (cheartbeat a) = beats.encode a
    payload_of _ = []

    pub serialize_to_bytes : Event Graph Node Uuid → List ℕ
    unfolding event_2_opcode payload_of
    serialize_to_bytes e = put_u16 (event_2_opcode e) (payload_of e)

    pub from_bytes : List ℕ → Result (Event Graph Node Uuid)
    unfolding opcode_2_event
    from_bytes = from_bytes_with is_utf8 opcode_2_event

    bare :
        (n : ℕ) {e : Event Graph Node Uuid}
        → n < 65536
        → opcode_2_event n Option.none ≡ ok e
        → from_bytes (put_u16 n []) ≡ ok e
    unfolding from_bytes
    bare n h p = from_bytes-bare is_utf8 opcode_2_event n h ∙ p

    full :
        {A : Type 0} (c : Codec is_utf8 A) (f : A → Event Graph Node Uuid) (n : ℕ) (a : A)
        → n < 65536
        → opcode_2_event n (Option.some (c.encode a)) ≡ deserialized c f (Option.some (c.encode a))
        → from_bytes (put_u16 n (c.encode a)) ≡ ok (f a)
    unfolding from_bytes
    full c f n a h p =
        from_bytes-full is_utf8 opcode_2_event c n a h ∙ p ∙ deserialized-encode c f a tt

    -- Every event is read back from its bytes.
    pub from_bytes-serialize :
        (e : Event Graph Node Uuid) → from_bytes (serialize_to_bytes e) ≡ ok e
    unfolding serialize_to_bytes opcode_2_event
    from_bytes-serialize (cgraph_update a) = full graphs cgraph_update 0x0000 a (omega arith) refl
    from_bytes-serialize cgraph_get = bare 0x0001 (omega arith) refl
    from_bytes-serialize (cgraph_send a) = full graphs cgraph_send 0x0009 a (omega arith) refl
    from_bytes-serialize (cjq_response a) = full responses cjq_response 0x0002 a (omega arith) refl
    from_bytes-serialize (cjq_request a) = full nodes cjq_request 0x0003 a (omega arith) refl
    from_bytes-serialize cjq_retry = bare 0x0004 (omega arith) refl
    from_bytes-serialize cjq_abort = bare 0x000D (omega arith) refl
    from_bytes-serialize (cheartbeat a) = full beats cheartbeat 0x0005 a (omega arith) refl
    from_bytes-serialize cheartbeat_check = bare 0x000B (omega arith) refl
    from_bytes-serialize cheartbeat_reset = bare 0x000C (omega arith) refl
    from_bytes-serialize (node_failure a) = full nodes node_failure 0x000A a (omega arith) refl
    from_bytes-serialize pclient = bare 0x0006 (omega arith) refl
    from_bytes-serialize (pserver a) = full nodes pserver 0x0007 a (omega arith) refl
