-- ===== src/PubSub/Event.antt =====
-- An event notification and the payload that carries it: the bytes that Publisher::scan_and_notify
-- of src/pubsub/publisher.cpp writes and that Subscriber::poll of src/pubsub/subscriber.cpp reads.
pub mod RoundTrip
use modbus_pp.Common.{
  ℕ, ◌*◌, ◌/◌, ◌%◌, ◌^◌, bit_or, ◌&&◌, Option, none, some, List, ◌∷◌, leb, ◌==◌, if◌then◌else◌,
  length, take, drop, hi_byte, lo_byte, register_bytes,
}
use modbus_pp.Core.Result.{Result, ◌>>=◌, map_result, ok, err, fault}
use modbus_pp.Core.Span.{read, read_word16}
use modbus_pp.Core.FunctionCodes
use modbus_pp.Core.Timestamp.{Timestamp}
use modbus_pp.Core.Pdu
use modbus_pp.Core.Pdu.{FrameHeader, default_header, Pdu, make_extended}
use modbus_pp.Client.Server.{word_pairs}

-- Without the previous values, which are not sent.
pub record EventNotification : Type 0 where
  pub subscription_id : ℕ
  pub start_address : ℕ
  pub timestamp : Timestamp
  pub current_values : List ℕ

-- `[sub_id:4][addr:2][reg_count:2][regs...]`
pub event_payload : ℕ → ℕ → List ℕ → List ℕ
event_payload sid start_address values =
    let rc = length values % 2 ^ 16 in
    sid / 2 ^ 24 % 2 ^ 8
    ∷ sid / 2 ^ 16 % 2 ^ 8
    ∷ sid / 2 ^ 8 % 2 ^ 8
    ∷ sid % 2 ^ 8
    ∷ hi_byte start_address
    ∷ lo_byte start_address
    ∷ hi_byte rc
    ∷ lo_byte rc
    ∷ register_bytes values

abbrev pub event_header : Timestamp → FrameHeader
event_header timestamp = record default_header {
  ext_function_code = FunctionCodes.event_notification;
  timestamp = some timestamp;
}

-- The bytes that are sent for a notification.
pub event_frame : EventNotification → List ℕ
event_frame notif = Pdu.serialize (
    make_extended (event_header notif.timestamp)
      (event_payload notif.subscription_id notif.start_address notif.current_values) none)

-- `(p[0] << 24) | (p[1] << 16) | (p[2] << 8) | p[3]`
pub word32 : ℕ → ℕ → ℕ → ℕ → ℕ
word32 a b c d = bit_or (bit_or (bit_or (a * 2 ^ 24) (b * 2 ^ 16)) (c * 2 ^ 8)) d

abbrev pub event_time : Timestamp → Option Timestamp → Timestamp
event_time now none = now
event_time now (some t) = t

-- The notification in the payload of an event.
pub read_event : Timestamp → List ℕ → Result EventNotification
read_event timestamp payload = do
  a ← read payload 0
  b ← read payload 1
  c ← read payload 2
  d ← read payload 3
  start_address ← read_word16 payload 4
  reg_count ← read_word16 payload 6
  ok (record {
    subscription_id = word32 a b c d;
    start_address = start_address;
    timestamp = timestamp;
    current_values = take reg_count (word_pairs (drop 8 payload));
  })

abbrev pub event_of_header :
    Timestamp → List ℕ → Option FrameHeader → Result (Option EventNotification)
event_of_header now payload none = ok none
event_of_header now payload (some hdr) =
    if hdr.ext_function_code == FunctionCodes.event_notification && leb 8 (length payload)
    then map_result some (read_event (event_time now hdr.timestamp) payload)
    else ok none

abbrev pub event_of : Timestamp → Result Pdu → Result (Option EventNotification)
event_of now (ok pdu) = event_of_header now pdu.payload pdu.ext_header
event_of now (err e) = ok none
event_of now fault = fault

-- One frame of `Subscriber::poll`; `now` stands in where the frame has no timestamp.
pub parse_event : Timestamp → List ℕ → Result (Option EventNotification)
parse_event now frame = event_of now (Pdu.deserialize frame)
