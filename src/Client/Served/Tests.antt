-- ===== src/Client/Served/Tests.antt =====
-- The exchanges at concrete inputs.
use modbus_pp.Common.{ℕ, ◌≡◌, refl, inl, inr, none, List, [], ◌∷◌, arith}
--@ modbus_pp.Core.Error.{}
use modbus_pp.Core.Result.{ok}
--@ modbus_pp.Client.Server.{}
use modbus_pp.Client.Master.{
  Client, read_holding_registers, write_single_register, write_multiple_registers,
}
use modbus_pp.Client.Served.{Pair, served, idle_pair}
use modbus_pp.Client.Served.Bank.{
  read_bank, write_bank, bank_server, bank, three_registers, first_register, registers_answer,
  both_answered,
}
use modbus_pp.Client.Served.Run.{frame_of, run, busy_pair, run-Answers}
--@ modbus_pp.Core.Pdu.{}
--@ modbus_pp.Core.Span.{}
use modbus_pp.Transport.FrameCodec.{wrap_tcp}
use modbus_pp.Client.Served.Exchange.{next_client}
use modbus_pp.Client.Served.Reads.{read_holding_registers-served}
use modbus_pp.Client.Served.Writes.{write_single_register-served, write_multiple_registers-served}

abbrev master : Client (Pair (List ℕ))
master = record { next_transaction_id = 1; session = none; world = idle_pair bank }

read_holding_registers-served_example :
    read_holding_registers (served bank_server) 1 1 2 master
    ≡ (ok (0x1234 ∷ 9 ∷ []), next_client bank_server master bank)
read_holding_registers-served_example =
    read_holding_registers-served bank_server read_bank master bank 1 1 2 refl refl (omega arith)
      (inl refl) (omega arith) (omega arith) ((omega arith, (omega arith, tt)), omega arith)

write_single_register-served_run :
    write_single_register (served bank_server) 1 0 7 master
    ≡ (ok tt, next_client bank_server master (7 ∷ []))
write_single_register-served_run =
    write_single_register-served bank_server write_bank master bank 1 0 7 refl refl (omega arith)
      (inl refl) (omega arith) (omega arith)

write_multiple_registers-served_example :
    write_multiple_registers (served bank_server) 0 3 (7 ∷ 8 ∷ []) master
    ≡ (ok tt, next_client bank_server master (7 ∷ 8 ∷ []))
write_multiple_registers-served_example =
    write_multiple_registers-served bank_server write_bank master bank 0 3 (7 ∷ 8 ∷ []) refl refl
      (omega arith) (inr refl) (omega arith) (omega arith, (omega arith, tt)) (omega arith)

run-Answers_example :
    run bank_server
      (λ p. p)
      2
      (busy_pair bank_server bank (frame_of three_registers ∷ frame_of first_register ∷ []) [])
    ≡ ok (
        busy_pair bank_server bank [] (
          wrap_tcp 1 (registers_answer (6 ∷ 0 ∷ 5 ∷ 0x12 ∷ 0x34 ∷ 0 ∷ 9 ∷ [])) 7
          ∷ wrap_tcp 1 (registers_answer (2 ∷ 0 ∷ 5 ∷ [])) 8
          ∷ []))
run-Answers_example = run-Answers bank_server [] both_answered
