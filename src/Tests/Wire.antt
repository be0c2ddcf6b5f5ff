-- ===== src/Tests/Wire.antt =====
-- Messages, events and prefixes, with codecs that write one value as one byte.
use kollaps.Prelude.{
  ℕ, zero, suc, ◌-◌, ◌^◌, ◌<◌, ◌≡◌, ◌≢◌, refl, Bool, true, Option, none, some, List, [], ◌∷◌, arith,
}
use kollaps.Common.Subnet.{
  Subnet, subnet_from, printed_prefix, mask_value, printed_prefix-subnet_from,
}
use kollaps.Common.Bytes.{Codec, PartialCodec, ok, err, opcode_not_recognized}
use kollaps.Common.EmulMessage.{
  EmulMessage, FlowConf, TcConf, EmulationEvent, EventAction, tc_update, serialize_to_bytes,
  KeepsFloats, from_bytes, from_bytes-serialize_message, from_bytes-serialize_event,
}
use kollaps.Cmanager.Event
use kollaps.Cmanager.Event.{
  Event, CjqResponseKind, accepted, wait, cjq_response, from_bytes-serialize,
}

printed_prefix-subnet_from_example :
    (s : Subnet ℕ) × (subnet_from (λ (t : ℕ). some t) 10 23 ≡ some s)
    × (s.ip ≡ 10)
    × (printed_prefix s ≡ 23)
    × (mask_value s.mask ≡ 2 ^ 32 - 2 ^ (32 - 23))
printed_prefix-subnet_from_example =
    printed_prefix-subnet_from (λ (t : ℕ). some t) 10 23 10 refl (omega arith)

abbrev any : List ℕ → Bool
any _ = true

-- An optional number, as one or two bytes before the rest.
put_option : Option ℕ → List ℕ → List ℕ
put_option none rest = 0 ∷ rest
put_option (some n) rest = 1 ∷ n ∷ rest

put_two : Option (ℕ × ℕ) → List ℕ → List ℕ
put_two none rest = 0 ∷ rest
put_two (some (a, b)) rest = 1 ∷ a ∷ b ∷ rest

flow_encode : FlowConf ℕ → List ℕ
unfolding put_option
flow_encode f = f.src ∷ f.dest ∷ put_option f.throughput []

flow_decode : List ℕ → Option (FlowConf ℕ)
flow_decode (s ∷ d ∷ zero ∷ []) = some (record { src = s; dest = d; throughput = none })
flow_decode (s ∷ d ∷ suc _ ∷ t ∷ []) = some (record { src = s; dest = d; throughput = some t })
flow_decode _ = none

flow_fields :
    (s d : ℕ) (t : Option ℕ)
    → flow_decode (s ∷ d ∷ put_option t []) ≡ some (record { src = s; dest = d; throughput = t })
unfolding flow_decode put_option
flow_fields s d none = refl
flow_fields s d (some t) = refl

flow_lem : (f : FlowConf ℕ) → flow_decode (flow_encode f) ≡ some f
unfolding flow_encode
flow_lem f = flow_fields f.src f.dest f.throughput

flows : Codec any (FlowConf ℕ)
unfolding flow_encode
flows = record {
  encode = flow_encode;
  decode = flow_decode;
  decode-encode = λ f _. flow_lem f;
  encode-utf8 = λ _. refl;
  encode-nonempty = λ f e. cc;
}

conf_encode : TcConf ℕ ℕ → List ℕ
unfolding put_option put_two
conf_encode c =
    c.dest ∷ put_option c.bandwidth_kbitps (put_two c.latency_and_jitter (put_option c.drop []))

take_drop : ℕ → Option ℕ → Option (ℕ × ℕ) → List ℕ → Option (TcConf ℕ ℕ)
take_drop d b l (zero ∷ _) =
    some (record { dest = d; bandwidth_kbitps = b; latency_and_jitter = l; drop = none })
take_drop d b l (suc _ ∷ x ∷ _) =
    some (record { dest = d; bandwidth_kbitps = b; latency_and_jitter = l; drop = some x })
take_drop d b l _ = none

take_latency : ℕ → Option ℕ → List ℕ → Option (TcConf ℕ ℕ)
unfolding take_drop
take_latency d b (zero ∷ rest) = take_drop d b none rest
take_latency d b (suc _ ∷ x ∷ y ∷ rest) = take_drop d b (some (x, y)) rest
take_latency d b _ = none

conf_decode : List ℕ → Option (TcConf ℕ ℕ)
unfolding take_latency
conf_decode (d ∷ zero ∷ rest) = take_latency d none rest
conf_decode (d ∷ suc _ ∷ x ∷ rest) = take_latency d (some x) rest
conf_decode _ = none

conf_fields :
    (d : ℕ) (b : Option ℕ) (l : Option (ℕ × ℕ)) (x : Option ℕ)
    → conf_decode (d ∷ put_option b (put_two l (put_option x [])))
      ≡ some (record { dest = d; bandwidth_kbitps = b; latency_and_jitter = l; drop = x })
unfolding conf_decode take_latency take_drop put_option put_two
conf_fields d none none none = refl
conf_fields d none none (some x) = refl
conf_fields d none (some (j, k)) none = refl
conf_fields d none (some (j, k)) (some x) = refl
conf_fields d (some b) none none = refl
conf_fields d (some b) none (some x) = refl
conf_fields d (some b) (some (j, k)) none = refl
conf_fields d (some b) (some (j, k)) (some x) = refl

conf_lem : (c : TcConf ℕ ℕ) → conf_decode (conf_encode c) ≡ some c
unfolding conf_encode
conf_lem c = conf_fields c.dest c.bandwidth_kbitps c.latency_and_jitter c.drop

-- The floats that are kept are below 100 here.
abbrev Small : ℕ → Type 0
Small x = x < 100

confs : PartialCodec any (TcConf ℕ ℕ) (KeepsFloats Small)
unfolding conf_encode
confs = record {
  encode = conf_encode;
  decode = conf_decode;
  decode-encode = λ c _. conf_lem c;
  encode-utf8 = λ _. refl;
  encode-nonempty = λ f e. cc;
}

action_byte : EventAction → ℕ
action_byte EventAction.join = 0
action_byte EventAction.quit = 1
action_byte EventAction.crash = 2

byte_action : ℕ → EventAction
byte_action zero = EventAction.join
byte_action (suc zero) = EventAction.quit
byte_action (suc (suc _)) = EventAction.crash

action_lem : (a : EventAction) → byte_action (action_byte a) ≡ a
unfolding action_byte byte_action
action_lem EventAction.join = refl
action_lem EventAction.quit = refl
action_lem EventAction.crash = refl

event_encode : EmulationEvent → List ℕ
unfolding action_byte
event_encode e = e.app_id ∷ e.time ∷ action_byte e.action ∷ []

event_decode : List ℕ → Option EmulationEvent
unfolding byte_action
event_decode (a ∷ t ∷ x ∷ []) = some (record { app_id = a; time = t; action = byte_action x })
event_decode _ = none

event_lem : (e : EmulationEvent) → event_decode (event_encode e) ≡ some e
unfolding event_encode event_decode
event_lem e = rw (action_lem e.action) refl

emulation_events : Codec any EmulationEvent
unfolding event_encode
emulation_events = record {
  encode = event_encode;
  decode = event_decode;
  decode-encode = λ e _. event_lem e;
  encode-utf8 = λ _. refl;
  encode-nonempty = λ f e. cc;
}

abbrev conf : TcConf ℕ ℕ
conf = record { dest = 1; bandwidth_kbitps = some 5; latency_and_jitter = some (2, 3); drop = none }

abbrev leave : EmulationEvent
leave = record { app_id = 4; time = 9; action = EventAction.quit }

conf_kept : KeepsFloats Small conf
conf_kept = ((λ l j e. (ground arith, ground arith)), λ d e. cc)

from_bytes-serialize_message_example :
    from_bytes flows confs emulation_events
      (serialize_to_bytes flows confs emulation_events (tc_update conf))
    ≡ ok (tc_update conf)
from_bytes-serialize_message_example =
    from_bytes-serialize_message flows confs emulation_events (tc_update conf) conf_kept

from_bytes-serialize_event_example :
    from_bytes flows confs emulation_events
      (serialize_to_bytes flows confs emulation_events (EmulMessage.event leave))
    ≡ err opcode_not_recognized
from_bytes-serialize_event_example = from_bytes-serialize_event flows confs emulation_events leave

number_decode : List ℕ → Option ℕ
number_decode (n ∷ []) = some n
number_decode _ = none

number_lem : (n : ℕ) → number_decode (n ∷ []) ≡ some n
unfolding number_decode
number_lem n = refl

numbers : Codec any ℕ
numbers = record {
  encode = λ n. n ∷ [];
  decode = number_decode;
  decode-encode = λ x _. number_lem x;
  encode-utf8 = λ _. refl;
  encode-nonempty = λ f e. cc;
}

two_decode : List ℕ → Option (ℕ × ℕ)
two_decode (a ∷ b ∷ []) = some (a, b)
two_decode _ = none

two_lem : (p : ℕ × ℕ) → two_decode (p.0 ∷ p.1 ∷ []) ≡ some p
unfolding two_decode
two_lem p = refl

beats : Codec any (ℕ × ℕ)
beats = record {
  encode = λ p. p.0 ∷ p.1 ∷ [];
  decode = two_decode;
  decode-encode = λ x _. two_lem x;
  encode-utf8 = λ _. refl;
  encode-nonempty = λ f e. cc;
}

response_encode : CjqResponseKind ℕ ℕ → List ℕ
response_encode (accepted (a, b)) = a ∷ b ∷ []
response_encode (wait t) = t ∷ []

response_decode : List ℕ → Option (CjqResponseKind ℕ ℕ)
response_decode (a ∷ b ∷ []) = some (accepted (a, b))
response_decode (t ∷ []) = some (wait t)
response_decode _ = none

response_lem : (r : CjqResponseKind ℕ ℕ) → response_decode (response_encode r) ≡ some r
unfolding response_decode response_encode
response_lem (accepted (a, b)) = refl
response_lem (wait t) = refl

response_some_byte : (r : CjqResponseKind ℕ ℕ) → response_encode r ≢ []
unfolding response_encode
response_some_byte (accepted (a, b)) e = cc
response_some_byte (wait t) e = cc

responses : Codec any (CjqResponseKind ℕ ℕ)
responses = record {
  encode = response_encode;
  decode = response_decode;
  decode-encode = λ x _. response_lem x;
  encode-utf8 = λ _. refl;
  encode-nonempty = response_some_byte;
}

from_bytes-serialize_example :
    Event.from_bytes numbers responses numbers beats
      (Event.serialize_to_bytes numbers responses numbers beats (cjq_response (accepted (3, 4))))
    ≡ ok (cjq_response (accepted (3, 4)))
from_bytes-serialize_example =
    from_bytes-serialize numbers responses numbers beats (cjq_response (accepted (3, 4)))
