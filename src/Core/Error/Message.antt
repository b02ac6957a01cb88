-- ===== src/Core/Error/Message.antt =====
-- src/core/error.cpp: the text of an error code. `std::to_string` is a parameter.
mod Tests
use Prim.Native.String.{String, ◌++◌ as append_text}
use text.Mathlib.Text.{starts_with}
use text.Mathlib.Text.{◌==◌ as str_eq}
use text.Mathlib.TextLemmas.{append_cancel_left, append_cancel_right, prefix-append}
use text.Mathlib.TextPositions.{starts_with_of_prefix}
use modbus_pp.Common.{
  ℕ, ◌≡◌, refl, sym, ◌≢◌, Bool, true, false, not, ◌&&◌, Option, none, some, List, [], ◌∷◌, arith,
  ◌==◌, if◌then◌else◌, ==→eq,
}
use modbus_pp.Core.Error.{
  ErrorCode, success, illegal_function, illegal_data_address, illegal_data_value,
  slave_device_failure, acknowledge, slave_device_busy, negative_acknowledge, memory_parity_error,
  gateway_path_unavailable, gateway_target_failed, authentication_failed, session_expired,
  hmac_mismatch, pipeline_overflow, subscription_limit_reached, payload_too_large,
  fragment_reassembly_failed, transport_disconnected, timeout_expired, type_codec_mismatch,
  unsupported_version, correlation_mismatch, batch_partial_failure, invalid_frame, crc_mismatch,
  deserialization_failed,
}

-- The cases of the switch, in its order.
abbrev messages : List (ErrorCode × String)
messages =
    (success, "Success")
    ∷ (illegal_function, "Illegal function")
    ∷ (illegal_data_address, "Illegal data address")
    ∷ (illegal_data_value, "Illegal data value")
    ∷ (slave_device_failure, "Slave device failure")
    ∷ (acknowledge, "Acknowledge")
    ∷ (slave_device_busy, "Slave device busy")
    ∷ (negative_acknowledge, "Negative acknowledge")
    ∷ (memory_parity_error, "Memory parity error")
    ∷ (gateway_path_unavailable, "Gateway path unavailable")
    ∷ (gateway_target_failed, "Gateway target device failed to respond")
    ∷ (authentication_failed, "Authentication failed")
    ∷ (session_expired, "Session expired")
    ∷ (hmac_mismatch, "HMAC verification failed")
    ∷ (pipeline_overflow, "Pipeline capacity exceeded")
    ∷ (subscription_limit_reached, "Subscription limit reached")
    ∷ (payload_too_large, "Payload exceeds maximum size")
    ∷ (fragment_reassembly_failed, "Fragment reassembly failed")
    ∷ (transport_disconnected, "Transport disconnected")
    ∷ (timeout_expired, "Timeout expired")
    ∷ (type_codec_mismatch, "Type codec mismatch")
    ∷ (unsupported_version, "Unsupported protocol version")
    ∷ (correlation_mismatch, "Correlation ID mismatch")
    ∷ (batch_partial_failure, "Batch operation partially failed")
    ∷ (invalid_frame, "Invalid frame format")
    ∷ (crc_mismatch, "CRC mismatch")
    ∷ (deserialization_failed, "Deserialization failed")
    ∷ []

abbrev find_message : ErrorCode → List (ErrorCode × String) → Option String
find_message ev [] = none
find_message ev ((c, s) ∷ cases) = if ev == c then some s else find_message ev cases

abbrev described : Option String → String → String
described (some s) number = s
described none number = append_text "Unknown error (" (append_text number ")")

unfoldable pub message : (ℕ → String) → ErrorCode → String
message to_string ev = described (find_message ev messages) (to_string ev)

-- A reader of the texts, for the proof.
abbrev find_code : String → List (ErrorCode × String) → Option ErrorCode
find_code s [] = none
find_code s ((c, t) ∷ cases) = if str_eq s t then some c else find_code s cases

abbrev is_code : Option ErrorCode → ErrorCode → Bool
is_code none c = false
is_code (some d) c = d == c

unfoldable is_read_back : ErrorCode × String → Bool
is_read_back (c, s) = is_code (find_code s messages) c && not (starts_with s "Unknown error (")

abbrev all_read_back : List (ErrorCode × String) → Bool
all_read_back [] = true
all_read_back (e ∷ cases) = is_read_back e && all_read_back cases

messages_read_back : all_read_back messages ≡ true
unfolding is_read_back
messages_read_back = refl

find_message-read_back :
    (ev : ErrorCode) (s : String) (cases : List (ErrorCode × String))
    → all_read_back cases ≡ true
    → find_message ev cases ≡ some s
    → is_read_back (ev, s) ≡ true
find_message-read_back ev s [] all h = cc
find_message-read_back ev s ((c, t) ∷ cases) all h =
    ground (arith, find_message-read_back ev s cases)

starts_with_unknown :
    (t : String) → starts_with (append_text "Unknown error (" t) "Unknown error (" ≡ true
starts_with_unknown t =
    starts_with_of_prefix "Unknown error (" (append_text "Unknown error (" t)
      (prefix-append "Unknown error (" t)

is_code_unique :
    (o : Option ErrorCode) (a b : ErrorCode) → is_code o a ≡ true → is_code o b ≡ true → a ≡ b
is_code_unique none a b g h = cc
is_code_unique (some d) a b g h = omega (arith, ==→eq d a g, ==→eq d b h)

same_code :
    (s : String) (a b : ErrorCode) → is_read_back (a, s) ≡ true → is_read_back (b, s) ≡ true → a ≡ b
unfolding is_read_back
same_code s a b g h = is_code_unique (find_code s messages) a b (ground arith) (ground arith)

not_unknown :
    (s : String) (a : ErrorCode)
    → is_read_back (a, s) ≡ true
    → starts_with s "Unknown error (" ≡ false
unfolding is_read_back
not_unknown s a h = ground arith

known_unknown :
    (a : ErrorCode) (s t : String)
    → find_message a messages ≡ some s
    → s ≢ append_text "Unknown error (" (append_text t ")")
known_unknown a s t g e =
    let p = not_unknown s a (find_message-read_back a s messages messages_read_back g) in
    let q = starts_with_unknown (append_text t ")") in cc

module _ (to_string : ℕ → String)
    (to_string_inj : (a b : ℕ) → to_string a ≡ to_string b → a ≡ b) where
  described-inj :
      (a b : ErrorCode) (o p : Option String)
      → find_message a messages ≡ o
      → find_message b messages ≡ p
      → described o (to_string a) ≡ described p (to_string b)
      → a ≡ b
  described-inj a b (some s) (some t) g h e =
      same_code s a b (find_message-read_back a s messages messages_read_back g)
        (find_message-read_back b s messages messages_read_back (cc))
  described-inj a b (some s) none g h e = absurd (known_unknown a s (to_string b) g e)
  described-inj a b none (some t) g h e = absurd (known_unknown b t (to_string a) h (sym e))
  described-inj a b none none g h e = to_string_inj a b (
      append_cancel_right (to_string a) (to_string b) ")" (
        append_cancel_left "Unknown error (" (append_text (to_string a) ")")
          (append_text (to_string b) ")") e))

  message-inj : (a b : ErrorCode) → message to_string a ≡ message to_string b → a ≡ b
  unfolding message
  message-inj a b e =
      described-inj a b (find_message a messages) (find_message b messages) refl refl e

  -- Two different error codes, of the table or not, have different messages, where two different
  -- numbers have different texts.
  pub message-ne : (a b : ErrorCode) → a ≢ b → message to_string a ≢ message to_string b
  message-ne a b ne e = ne (message-inj a b e)
