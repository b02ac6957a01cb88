-- ===== src/Client/Served/Bank.antt =====
-- A slave whose state is the list of its registers, with two requests that it answers: for trying
-- the theorems.
use modbus_pp.Common.{ℕ, refl, inl, inr, some, List, [], ◌∷◌, arith, take, drop, word16}
use modbus_pp.Core.Error.{slave_device_failure}
use modbus_pp.Core.Result.{Result, ok, err}
use modbus_pp.Client.Server.{Server, read_response, handle_read, handle_pdu}
use modbus_pp.Client.Served.Run
use modbus_pp.Client.Served.Run.{Request, Answers}
use modbus_pp.Core.FunctionCodes
use modbus_pp.Core.Pdu.{Pdu, make_standard}
use modbus_pp.Core.Span.{read, read_word16}
use modbus_pp.Transport.FrameCodec.{wrap_tcp}
use modbus_pp.Client.Served.Reads.{standard-IsSendable}

abbrev pub read_bank : List ℕ → ℕ → ℕ → Result (List ℕ) × List ℕ
read_bank bank addr count = (ok (take count (drop addr bank)), bank)

-- The handler refuses a write but keeps what it was given.
abbrev pub write_bank : List ℕ → ℕ → List ℕ → Result (Unit {0}) × List ℕ
write_bank bank addr values = (err slave_device_failure, values)

abbrev pub bank_server : Server (List ℕ)
bank_server = record { unit_id = 1; read_handler = some read_bank; write_handler = some write_bank }

abbrev pub bank : List ℕ
bank = 5 ∷ 0x1234 ∷ 9 ∷ []

-- A read of the three registers, then one of the first alone, by a broadcast.
abbrev pub three_registers : Request
three_registers = record {
  unit = 1;
  txn_id = 7;
  pdu = make_standard FunctionCodes.read_holding_registers (0 ∷ 0 ∷ 0 ∷ 3 ∷ []);
}

abbrev pub first_register : Request
first_register = record {
  unit = 0;
  txn_id = 8;
  pdu = make_standard FunctionCodes.read_holding_registers (0 ∷ 0 ∷ 0 ∷ 1 ∷ []);
}

abbrev pub registers_answer : List ℕ → Pdu
registers_answer data_bytes = make_standard FunctionCodes.read_holding_registers data_bytes

pub both_answered : Answers bank_server bank (three_registers ∷ first_register ∷ []) bank (
    wrap_tcp 1 (registers_answer (6 ∷ 0 ∷ 5 ∷ 0x12 ∷ 0x34 ∷ 0 ∷ 9 ∷ [])) 7
    ∷ wrap_tcp 1 (registers_answer (2 ∷ 0 ∷ 5 ∷ [])) 8
    ∷ [])
unfolding handle_pdu handle_read read_response make_standard read_word16 read word16
both_answered =
    Run.Answers.answers_next (inl refl)
      (standard-IsSendable 3 (0 ∷ 0 ∷ 0 ∷ 3 ∷ []) refl (omega arith)) (omega arith) refl
      (Run.Answers.answers_next (inr refl)
        (standard-IsSendable 3 (0 ∷ 0 ∷ 0 ∷ 1 ∷ []) refl (omega arith)) (omega arith) refl
        (Run.Answers.answers_none bank))
