-- ===== src/Client/Served/Reads.antt =====
-- Client::read_holding_registers against a slave.
use modbus_pp.Common.{
  ℕ, suc, ◌+◌, ◌*◌, ◌%◌, ◌^◌, ◌≤◌, ◌<◌, ◌≡◌, refl, ◌≢◌, false, some, List, [], ◌∷◌, arith, ltb,
  ◌==◌, length, All, IsWord16, register_bytes, length-register_bytes,
}
use modbus_pp.Core.Error.{success}
use modbus_pp.Core.Result.{Result, ◌>>=◌, ok, err, fault}
use modbus_pp.Core.FunctionCodes
use modbus_pp.Core.Pdu.{Pdu, make_standard, is_extended_code, serialize}
use modbus_pp.Core.Pdu.Made.{deserialize-make_standard}
use modbus_pp.Client.Server.{Server, exception_code, read_response, handle_pdu}
use modbus_pp.Client.Server.Requests.{word_pairs-register_bytes, two_words, handle_pdu_read}
use modbus_pp.Client.Master.{Client, check_exception, registers_of, read_holding_registers}
use modbus_pp.Client.Served.{Pair, served, idle_pair}
use modbus_pp.Client.Served.Exchange.{IsSendable, Accepts, next_client, transact-served}

length-serialize_standard :
    (fc : ℕ) (bytes : List ℕ) → length (serialize (make_standard fc bytes)) ≡ suc (length bytes)
unfolding serialize make_standard
length-serialize_standard fc bytes = refl

pub standard-IsSendable :
    (fc : ℕ) (bytes : List ℕ)
    → is_extended_code fc ≡ false
    → 2 + length bytes < 2 ^ 16
    → IsSendable (make_standard fc bytes)
standard-IsSendable fc bytes h k = record {
  read_back = deserialize-make_standard fc bytes h;
  fits = omega (arith, length-serialize_standard fc bytes);
}

-- The answer that carries these registers is read as these registers.
registers_of-register_bytes :
    (regs : List ℕ)
    → All IsWord16 regs
    → registers_of (2 * length regs % 2 ^ 8 ∷ register_bytes regs) ≡ ok regs
unfolding registers_of
registers_of-register_bytes regs h =
    let enough : ltb (1 + length (register_bytes regs)) (1 + 2 * length regs % 2 ^ 8) ≡ false =
      ground (arith, length-register_bytes regs) in
    rw (enough, word_pairs-register_bytes regs h) refl

-- What the master sees of the answer of a read handler: its registers, or the low byte of its
-- error code.
abbrev seen_by_master : Result (List ℕ) → Result (List ℕ)
seen_by_master (ok regs) = ok regs
seen_by_master (err e) = err (e % 2 ^ 8)
seen_by_master fault = fault

-- An answer that one frame can carry: at most 32766 registers of 16 bits, or an error whose low
-- byte is not the code of success.
abbrev IsCarried : Result (List ℕ) → Type 0
IsCarried (ok regs) = All IsWord16 regs × (length regs ≤ 32766)
IsCarried (err e) = e % 2 ^ 8 ≢ success
IsCarried fault = ⊥

module _ {S : Type 0} (server : Server S) where
  -- A master that reads registers over an idle in-process connection, from a slave that accepts the
  -- unit number, at an address and with a count of 16 bits, gets what the slave's read handler
  -- answers to them: its registers, where these are at most 32766 of 16 bits, or the low byte of
  -- its error, where that is not 0. The slave's state is the one that the handler left, and no
  -- message remains under way.
  pub read_holding_registers-served :
      (handler : S → ℕ → ℕ → Result (List ℕ) × S) (c : Client (Pair S)) (s : S)
      (unit addr count : ℕ)
      → server.read_handler ≡ some handler
      → c.world ≡ idle_pair s
      → IsWord16 c.next_transaction_id
      → Accepts server unit
      → IsWord16 addr
      → IsWord16 count
      → IsCarried (handler s addr count).0
      → read_holding_registers (served server) unit addr count c
        ≡ (seen_by_master (handler s addr count).0, next_client server c (handler s addr count).1)
  unfolding read_holding_registers
  read_holding_registers-served handler c s unit addr count e idle k a ha hc carried =
      answered (handler s addr count).0 carried
        (handle_pdu_read server s handler addr count e ha hc)
    where
      request : Pdu
      request = make_standard FunctionCodes.read_holding_registers (two_words addr count [])

      s' : S
      s' = (handler s addr count).1

      answered :
          (r : Result (List ℕ))
          → IsCarried r
          → handle_pdu server s request
            ≡ (read_response FunctionCodes.read_holding_registers r >>= λ pdu. ok (s', some pdu))
          → read_holding_registers (served server) unit addr count c
            ≡ (seen_by_master r, next_client server c s')
      answered (ok regs) h p =
          let resp =
            make_standard FunctionCodes.read_holding_registers
              (2 * length regs % 2 ^ 8 ∷ register_bytes regs) in
          let sent =
            transact-served server c s unit request {s' = s'} {resp = resp} idle k a
              (standard-IsSendable _ _ refl (omega arith))
              (standard-IsSendable _ _ refl (omega (arith, length-register_bytes regs, h.1)))
              (unfold read_response in p) in
          rw sent
            (unfold check_exception make_standard in rw (registers_of-register_bytes regs h.0) refl)
      answered (err code) h p =
          let resp =
            make_standard (exception_code FunctionCodes.read_holding_registers)
              (code % 2 ^ 8 ∷ []) in
          let sent =
            transact-served server c s unit request {s' = s'} {resp = resp} idle k a
              (standard-IsSendable _ _ refl (omega arith))
              (standard-IsSendable _ _ refl (omega arith)) (unfold read_response in p) in
          let other : (code % 2 ^ 8 == success) ≡ false = ground arith in
          rw sent (unfold check_exception make_standard in rw other refl)
      answered fault h p = elim h [ ]
