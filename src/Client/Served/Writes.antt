-- ===== src/Client/Served/Writes.antt =====
-- Client::write_single_register and Client::write_multiple_registers against a slave.
use modbus_pp.Common.{
  ℕ, ◌*◌, ◌%◌, ◌^◌, ◌≤◌, ◌≡◌, refl, some, List, [], ◌∷◌, arith, length, All, IsWord16,
  register_bytes, length-register_bytes,
}
use modbus_pp.Core.Result.{Result, ok}
use modbus_pp.Core.FunctionCodes
use modbus_pp.Core.Pdu.{make_standard}
use modbus_pp.Client.Server.{Server}
use modbus_pp.Client.Server.Requests.{two_words, handle_pdu_write_single, handle_pdu_write_multiple}
use modbus_pp.Client.Master.{
  Client, check_exception, write_single_register, write_multiple_registers,
}
use modbus_pp.Client.Served.{Pair, served, idle_pair}
use modbus_pp.Client.Served.Exchange.{Accepts, next_client, transact-served}
use modbus_pp.Client.Served.Reads.{standard-IsSendable}

module _ {S : Type 0} (server : Server S) where
  -- A write of one register over an idle in-process connection, to a slave that accepts the unit
  -- number, with an address and a value of 16 bits, leaves the slave in the state that its write
  -- handler makes of that address and value. The master sees success, whatever the handler answers,
  -- and no message remains under way.
  pub write_single_register-served :
      (handler : S → ℕ → List ℕ → Result (Unit {0}) × S) (c : Client (Pair S)) (s : S)
      (unit addr value : ℕ)
      → server.write_handler ≡ some handler
      → c.world ≡ idle_pair s
      → IsWord16 c.next_transaction_id
      → Accepts server unit
      → IsWord16 addr
      → IsWord16 value
      → write_single_register (served server) unit addr value c
        ≡ (ok tt, next_client server c (handler s addr (value ∷ [])).1)
  unfolding write_single_register
  write_single_register-served handler c s unit addr value e idle k a ha hv =
      let unit_of = make_standard FunctionCodes.write_single_register (two_words addr value []) in
      let sendable =
        standard-IsSendable FunctionCodes.write_single_register (two_words addr value []) refl
          (omega arith) in
      rw
        (transact-served server c s unit unit_of idle k a sendable sendable
          (handle_pdu_write_single server s handler addr value e ha hv))
        (unfold check_exception make_standard in refl)

  -- A write of up to 32764 registers of 16 bits over an idle in-process connection, to a slave that
  -- accepts the unit number, leaves the slave in the state that its write handler makes of that
  -- address and exactly those registers: the byte count, which is cut to a byte, plays no part. The
  -- master sees success, whatever the handler answers, and no message remains under way.
  pub write_multiple_registers-served :
      (handler : S → ℕ → List ℕ → Result (Unit {0}) × S) (c : Client (Pair S)) (s : S)
      (unit addr : ℕ) (values : List ℕ)
      → server.write_handler ≡ some handler
      → c.world ≡ idle_pair s
      → IsWord16 c.next_transaction_id
      → Accepts server unit
      → IsWord16 addr
      → All IsWord16 values
      → length values ≤ 32764
      → write_multiple_registers (served server) unit addr values c
        ≡ (ok tt, next_client server c (handler s addr values).1)
  unfolding write_multiple_registers
  write_multiple_registers-served handler c s unit addr values e idle k a ha hv hl =
      let count = length values % 2 ^ 16 in
      let body = two_words addr count (count * 2 % 2 ^ 8 ∷ register_bytes values) in
      let request = make_standard FunctionCodes.write_multiple_registers body in
      rw
        (transact-served server c s unit request idle k a
          (standard-IsSendable FunctionCodes.write_multiple_registers body refl
            (omega (arith, length-register_bytes values)))
          (standard-IsSendable FunctionCodes.write_multiple_registers (two_words addr count []) refl
            (omega arith))
          (handle_pdu_write_multiple server s handler addr count (count * 2 % 2 ^ 8) values e ha
            hv))
        (unfold check_exception make_standard in refl)
