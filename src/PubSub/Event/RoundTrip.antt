-- ===== src/PubSub/Event/RoundTrip.antt =====
-- A notification arrives as it was sent.
use modbus_pp.Common.{
  ℕ, ◌+◌, ◌*◌, ◌/◌, ◌%◌, ◌^◌, ◌≤◌, ◌<◌, ◌≡◌, refl, sym, ap, ◌∙◌, ◌≢◌, true, Option, none, some,
  List, [], append-nil, arith, leb, le→leb, length, All, take-length, bit_or_field, IsByte,
  IsWord16, word16_bytes, register_bytes, length-register_bytes,
}
use modbus_pp.Core.Result.{Result, ok, err, fault}
use modbus_pp.Core.Span.{read, read_word16}
use modbus_pp.Core.Span.Bounds.{read_fault, read_word16_fault}
use modbus_pp.Core.Timestamp.{Timestamp, IsValid}
use modbus_pp.Core.Pdu
use modbus_pp.Core.Pdu.{FrameHeader, Pdu, make_extended}
use modbus_pp.Core.Pdu.Made.{IsUsable, deserialize-make_extended}
use modbus_pp.Core.Pdu.Safety.{deserialize-ne-fault}
use modbus_pp.Client.Server.Requests.{word_pairs-register_bytes}
use modbus_pp.PubSub.Event.{
  EventNotification, event_payload, event_header, event_frame, word32, event_time, read_event,
  event_of_header, event_of, parse_event,
}

word32_sum :
    (a b c d : ℕ)
    → IsByte b
    → IsByte c
    → IsByte d
    → word32 a b c d ≡ a * 2 ^ 24 + b * 2 ^ 16 + c * 2 ^ 8 + d
unfolding word32
word32_sum a b c d hb hc hd =
    let first = bit_or_field 24 a (a * 2 ^ 24) (b * 2 ^ 16) refl (omega arith) in
    let second =
      bit_or_field 16 (a * 2 ^ 8 + b) (a * 2 ^ 24 + b * 2 ^ 16) (c * 2 ^ 8) (omega arith)
        (omega arith) in
    let third =
      bit_or_field 8 (a * 2 ^ 16 + b * 2 ^ 8 + c) (a * 2 ^ 24 + b * 2 ^ 16 + c * 2 ^ 8) d
        (omega arith) hd in
    rw (first, second) third

word32_bytes :
    (v : ℕ)
    → v < 2 ^ 32
    → word32 (v / 2 ^ 24 % 2 ^ 8) (v / 2 ^ 16 % 2 ^ 8) (v / 2 ^ 8 % 2 ^ 8) (v % 2 ^ 8) ≡ v
word32_bytes v h = omega (
  arith,
  word32_sum (v / 2 ^ 24 % 2 ^ 8) (v / 2 ^ 16 % 2 ^ 8) (v / 2 ^ 8 % 2 ^ 8) (v % 2 ^ 8) (omega arith)
      (omega arith) (omega arith),
)

-- A notification that one frame can carry.
pub record IsSendable (notif : EventNotification) : Type 0 where
  pub id_fits : notif.subscription_id < 2 ^ 32
  pub address_fits : IsWord16 notif.start_address
  pub time_valid : IsValid notif.timestamp
  pub registers_fit : All IsWord16 notif.current_values
  pub few_registers : length notif.current_values ≤ 32763

read_event_payload :
    (notif : EventNotification)
    → IsSendable notif
    → read_event notif.timestamp
        (event_payload notif.subscription_id notif.start_address notif.current_values)
      ≡ ok notif
unfolding read_event event_payload read read_word16
read_event_payload notif h =
    let rc = length notif.current_values % 2 ^ 16 in
    let same : rc ≡ length notif.current_values = omega (arith, h.few_registers) in
    rw
      (
        word32_bytes notif.subscription_id h.id_fits,
        word16_bytes notif.start_address h.address_fits,
        word16_bytes rc (omega arith),
        word_pairs-register_bytes notif.current_values h.registers_fit,
        same,
        take-length notif.current_values,
      )
      refl

-- The frame that the publisher sends for a notification whose numbers fit their fields and that has
-- at most 32763 registers is read by the subscriber as this notification, whatever its clock says.
pub parse_event-event_frame :
    (notif : EventNotification) (now : Timestamp)
    → IsSendable notif
    → parse_event now (event_frame notif) ≡ ok (some notif)
unfolding parse_event event_frame
parse_event-event_frame notif now h = ap (event_of now) received ∙ seen
  where
    payload : List ℕ
    payload = event_payload notif.subscription_id notif.start_address notif.current_values

    size : length payload ≡ 8 + length (register_bytes notif.current_values)
    size = unfold event_payload in omega arith

    usable : IsUsable (event_header notif.timestamp) payload none
    usable = record {
      version_one = refl;
      flags_fit = omega arith;
      correlation_fits = omega arith;
      payload_fits =
          omega (arith, size, length-register_bytes notif.current_values, h.few_registers);
      timestamp_valid = h.time_valid;
      digest_valid = tt;
      no_stray_timestamp = λ q. cc;
      no_stray_hmac = λ q. refl;
    }

    received :
        Pdu.deserialize (Pdu.serialize (make_extended (event_header notif.timestamp) payload none))
        ≡ ok (make_extended (event_header notif.timestamp) payload none)
    received =
        ap Pdu.deserialize (sym (append-nil _))
        ∙ deserialize-make_extended (event_header notif.timestamp) payload none [] usable

    long_enough : leb 8 (length payload) ≡ true
    long_enough = le→leb _ _ (omega (arith, size))

    seen :
        event_of now (ok (make_extended (event_header notif.timestamp) payload none))
        ≡ ok (some notif)
    seen = unfold make_extended in rw (long_enough, read_event_payload notif h) refl

read_event-ne-fault :
    (timestamp : Timestamp) (payload : List ℕ)
    → 8 ≤ length payload
    → read_event timestamp payload ≢ fault
unfolding read_event
read_event-ne-fault timestamp payload h = grind (
  arith,
  read_fault payload 0,
  read_fault payload 1,
  read_fault payload 2,
  read_fault payload 3,
  read_word16_fault payload 4,
  read_word16_fault payload 6,
)

event_of_header-ne-fault :
    (now : Timestamp) (payload : List ℕ) (header : Option FrameHeader)
    → event_of_header now payload header ≢ fault
event_of_header-ne-fault now payload none = λ p. cc
event_of_header-ne-fault now payload (some hdr) =
    let inside = read_event-ne-fault (event_time now hdr.timestamp) payload in grind (arith, inside)

event_of-ne-fault : (now : Timestamp) (r : Result Pdu) → r ≢ fault → event_of now r ≢ fault
event_of-ne-fault now (ok pdu) h = event_of_header-ne-fault now pdu.payload pdu.ext_header
event_of-ne-fault now (err e) h = λ p. cc
event_of-ne-fault now fault h = λ p. h refl

-- On every frame `parse_event` reads no byte outside of it.
pub parse_event-ne-fault : (now : Timestamp) (frame : List ℕ) → parse_event now frame ≢ fault
unfolding parse_event
parse_event-ne-fault now frame =
    event_of-ne-fault now (Pdu.deserialize frame) (deserialize-ne-fault frame)
