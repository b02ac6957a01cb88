-- ===== src/Client/Master.antt =====
-- src/client/client.cpp: the master. Its state is the transaction counter, the session and the
-- connection.
pub mod Authenticate
use modbus_pp.Common.{
  ℕ, ◌+◌, ◌*◌, ◌%◌, ◌^◌, bit_and, Bool, not, Option, none, List, [], ◌∷◌, ltb, ◌==◌, if◌then◌else◌,
  length, hi_byte, lo_byte, register_bytes,
}
use modbus_pp.Core.Error.{invalid_frame}
use modbus_pp.Core.Result.{Result, of_error_code, ok, err}
use modbus_pp.Core.FunctionCodes
use modbus_pp.Core.Timestamp.{Timestamp}
use modbus_pp.Core.Pdu.{default_header, Pdu, make_standard, make_extended}
use modbus_pp.Transport.Interface.{Transport}
use modbus_pp.Transport.FrameCodec.{wrap_tcp, unwrap_tcp}
use modbus_pp.RegisterMap.Batch
use modbus_pp.RegisterMap.Batch.{BatchRequest}
use modbus_pp.RegisterMap.Batch.Response
use modbus_pp.RegisterMap.Batch.Response.{BatchResponse}
use modbus_pp.Client.Server.{word_pairs}
use modbus_pp.Security.Session.{Session}
use modbus_pp.Client.Action.{Action, ◌>>=◌, ◌>>◌, lift, return}

pub record Client (W : Type 0) : Type 0 where
  pub next_transaction_id : ℕ
  pub session : Option Session
  pub world : W

-- `Client(config)`: transaction numbers start with 1.
abbrev pub new_client : {W : Type 0} → W → Client W
new_client world = record { next_transaction_id = 1; session = none; world = world }

-- `fc & 0x80`, and the error that the payload names. A payload that names the code of success
-- stops at the assertion of `Result(std::error_code)`.
abbrev is_exception : ℕ → Bool
is_exception fc = not (bit_and fc 0x80 == 0)

abbrev exception_error : List ℕ → Result Pdu
exception_error [] = err invalid_frame
exception_error (code ∷ rest) = of_error_code code

unfoldable pub check_exception : Pdu → Result Pdu
check_exception resp_pdu =
    if is_exception resp_pdu.function_code then exception_error resp_pdu.payload else ok resp_pdu

-- The part of `read_holding_registers` that reads the answer. The count of bytes is checked
-- against the size, and the loop then runs to the end of the payload.
unfoldable pub registers_of : List ℕ → Result (List ℕ)
registers_of [] = err invalid_frame
registers_of (byte_count ∷ rest) =
    if ltb (1 + length rest) (1 + byte_count) then err invalid_frame else ok (word_pairs rest)

-- The request of `batch_read`. `now` is the reading of the clock where the configuration enables
-- timestamps.
abbrev pub batch_pdu : Option Timestamp → BatchRequest → Pdu
batch_pdu now request =
    make_extended
      (record default_header { ext_function_code = FunctionCodes.batch_read; timestamp = now })
      (Batch.serialize request) none

module _ {W : Type 0} (transport : Transport W) where
  -- `next_transaction_id_++`
  abbrev take_transaction_id : Action (Client W) ℕ
  take_transaction_id c = (
    ok c.next_transaction_id,
    record c { next_transaction_id = (c.next_transaction_id + 1) % 2 ^ 16 },
  )

  abbrev send : List ℕ → Action (Client W) (Unit {0})
  send frame c = let (r, w) = transport.send frame c.world in (r, record c { world = w })

  abbrev receive : Action (Client W) (List ℕ)
  receive c = let (r, w) = transport.receive c.world in (r, record c { world = w })

  unfoldable pub transact : ℕ → Pdu → Action (Client W) Pdu
  transact unit request = do
    txn_id ← take_transaction_id
    send (wrap_tcp unit request txn_id)
    frame ← receive
    (resp_unit, resp_pdu, resp_txn) ← lift (unwrap_tcp frame)
    lift (check_exception resp_pdu)

  unfoldable pub read_holding_registers : ℕ → ℕ → ℕ → Action (Client W) (List ℕ)
  read_holding_registers unit addr count = do
    pdu ← transact unit (
        make_standard FunctionCodes.read_holding_registers
          (hi_byte addr ∷ lo_byte addr ∷ hi_byte count ∷ lo_byte count ∷ []))
    lift (registers_of pdu.payload)

  unfoldable pub write_single_register : ℕ → ℕ → ℕ → Action (Client W) (Unit {0})
  write_single_register unit addr value = do
    pdu ← transact unit (
        make_standard FunctionCodes.write_single_register
          (hi_byte addr ∷ lo_byte addr ∷ hi_byte value ∷ lo_byte value ∷ []))
    return tt

  unfoldable pub write_multiple_registers : ℕ → ℕ → List ℕ → Action (Client W) (Unit {0})
  write_multiple_registers unit addr values =
      let count = length values % 2 ^ 16 in
      let byte_count = count * 2 % 2 ^ 8 in
      do
        pdu ← transact unit (
            make_standard FunctionCodes.write_multiple_registers (
              hi_byte addr
              ∷ lo_byte addr
              ∷ hi_byte count
              ∷ lo_byte count
              ∷ byte_count
              ∷ register_bytes values))
        return tt

  unfoldable pub batch_read : Option Timestamp → ℕ → BatchRequest → Action (Client W) BatchResponse
  batch_read now unit request = do
    pdu ← transact unit (batch_pdu now request)
    lift (Response.deserialize pdu.payload)
