-- ===== src/Client/Server.antt =====
-- src/client/server.cpp: the slave. A handler may change the state of the program that registers
-- it, and is an arbitrary function. What `send` answers is not looked at, so a call returns the
-- frame that it hands over to the transport.
pub mod Requests
pub mod Loop
use modbus_pp.Common.{
  ℕ, ◌*◌, ◌%◌, ◌^◌, bit_or, Bool, true, false, not, ◌&&◌, Option, none, some, List, [], ◌∷◌, ltb,
  ◌==◌, if◌then◌else◌, length, drop, word16, register_bytes,
}
use modbus_pp.Core.Result.{Result, ◌>>=◌, ok, err, fault}
use modbus_pp.Core.Span.{subspan, read_word16}
use modbus_pp.Core.FunctionCodes
use modbus_pp.Core.Pdu.{Pdu, make_standard}
use modbus_pp.Transport.FrameCodec.{wrap_tcp, unwrap_tcp}

pub record Server (S : Type 0) : Type 0 where
  pub unit_id : ℕ
  pub read_handler : Option (S → ℕ → ℕ → Result (List ℕ) × S)
  pub write_handler : Option (S → ℕ → List ℕ → Result (Unit {0}) × S)

-- `Server(config)`: no handler is registered.
abbrev pub new_server : {S : Type 0} → ℕ → Server S
new_server unit_id = record { unit_id = unit_id; read_handler = none; write_handler = none }

-- A handler that is registered replaces the one before it.
abbrev pub on_read_holding_registers :
    {S : Type 0} → (S → ℕ → ℕ → Result (List ℕ) × S) → Server S → Server S
on_read_holding_registers handler server = record server { read_handler = some handler }

abbrev pub on_write_multiple_registers :
    {S : Type 0} → (S → ℕ → List ℕ → Result (Unit {0}) × S) → Server S → Server S
on_write_multiple_registers handler server = record server { write_handler = some handler }

-- The pairs of bytes from the front on; a single byte at the end is left.
pub word_pairs : List ℕ → List ℕ
word_pairs [] = []
word_pairs (hi ∷ []) = []
word_pairs (hi ∷ lo ∷ rest) = word16 hi lo ∷ word_pairs rest

-- `static_cast<uint8_t>(fc) | 0x80`
abbrev pub exception_code : ℕ → ℕ
exception_code fc = bit_or fc 0x80

unfoldable pub read_response : ℕ → Result (List ℕ) → Result Pdu
read_response fc (ok regs) = ok (
    make_standard FunctionCodes.read_holding_registers
      (2 * length regs % 2 ^ 8 ∷ register_bytes regs))
read_response fc (err e) = ok (make_standard (exception_code fc) (e % 2 ^ 8 ∷ []))
read_response fc fault = fault

module _ {S : Type 0} where
  -- What a branch of `handle_request` leaves: the state, and the unit that is sent if any is.
  unfoldable pub handle_read :
      (S → ℕ → ℕ → Result (List ℕ) × S) → S → ℕ → List ℕ → Result (S × Option Pdu)
  handle_read handler s fc payload = if ltb (length payload) 4 then ok (s, none) else (do
    addr ← read_word16 payload 0
    count ← read_word16 payload 2
    let (result, s') = handler s addr count
    pdu ← read_response fc result
    ok (s', some pdu))

  pub handle_write_single :
      (S → ℕ → List ℕ → Result (Unit {0}) × S) → S → List ℕ → Result (S × Option Pdu)
  handle_write_single handler s payload = if ltb (length payload) 4 then ok (s, none) else (do
    addr ← read_word16 payload 0
    val ← read_word16 payload 2
    let s' = (handler s addr (val ∷ [])).1
    resp_data ← subspan payload 0 4
    ok (s', some (make_standard FunctionCodes.write_single_register resp_data)))

  pub handle_write_multiple :
      (S → ℕ → List ℕ → Result (Unit {0}) × S) → S → List ℕ → Result (S × Option Pdu)
  handle_write_multiple handler s payload = if ltb (length payload) 5 then ok (s, none) else (do
    addr ← read_word16 payload 0
    let s' = (handler s addr (word_pairs (drop 5 payload))).1
    resp_data ← subspan payload 0 4
    ok (s', some (make_standard FunctionCodes.write_multiple_registers resp_data)))

  -- The third branch of `handle_request`, for the codes of writing.
  abbrev handle_write :
      (S → ℕ → List ℕ → Result (Unit {0}) × S) → S → ℕ → List ℕ → Result (S × Option Pdu)
  handle_write handler s fc payload =
      if fc == FunctionCodes.write_single_register
      then handle_write_single handler s payload
      else if fc == FunctionCodes.write_multiple_registers
      then handle_write_multiple handler s payload
      else ok (s, none)

  abbrev handle_writes : Server S → S → ℕ → List ℕ → Result (S × Option Pdu)
  handle_writes server s fc payload = elim server.write_handler [
    | some handler ↦ handle_write handler s fc payload
    | none ↦ ok (s, none)
  ]

  unfoldable pub handle_pdu : Server S → S → Pdu → Result (S × Option Pdu)
  handle_pdu server s request =
      if request.function_code == FunctionCodes.read_holding_registers
      then (elim server.read_handler [
        | some handler ↦ handle_read handler s request.function_code request.payload
        | none ↦ ok (s, none)
      ])
      else handle_writes server s request.function_code request.payload

  abbrev pub framed : Server S → ℕ → Option Pdu → Option (List ℕ)
  framed server txn_id none = none
  framed server txn_id (some pdu) = some (wrap_tcp server.unit_id pdu txn_id)

  unfoldable pub handle_request : Server S → S → Pdu → ℕ → Result (S × Option (List ℕ))
  handle_request server s request txn_id =
      handle_pdu server s request >>= λ r. ok (r.0, framed server txn_id r.1)

  -- What `process_one` does with the frame that was received: an error on the way leaves no trace.
  abbrev pub handled : S → Result (S × Option (List ℕ)) → Result (Bool × S × Option (List ℕ))
  handled s (ok r) = ok (true, r.0, r.1)
  handled s (err e) = ok (false, s, none)
  handled s fault = fault

  abbrev pub process_unwrapped :
      Server S → S → Result (ℕ × Pdu × ℕ) → Result (Bool × S × Option (List ℕ))
  process_unwrapped server s (ok (unit, pdu, txn_id)) =
      if not (unit == server.unit_id) && not (unit == 0)
      then ok (false, s, none)
      else handled s (handle_request server s pdu txn_id)
  process_unwrapped server s (err e) = ok (false, s, none)
  process_unwrapped server s fault = fault

  unfoldable pub process_frame : Server S → S → List ℕ → Result (Bool × S × Option (List ℕ))
  process_frame server s frame = process_unwrapped server s (unwrap_tcp frame)

  -- `process_one`, on what the transport's `receive` answers.
  unfoldable pub process_one : Server S → S → Result (List ℕ) → Result (Bool × S × Option (List ℕ))
  process_one server s (ok frame) = process_frame server s frame
  process_one server s (err e) = ok (false, s, none)
  process_one server s fault = fault
