-- ===== src/Client/Served/Exchange.antt =====
-- One request of a master and its answer by a slave, from Client::transact to Server::handle_request
-- and back.
use modbus_pp.Common.{
  ℕ, ◌+◌, ◌%◌, ◌^◌, ◌<◌, ◌≡◌, refl, sym, ap, ◌∙◌, ◌⊎◌, true, false, not, ◌&&◌, Option, some, [],
  append-nil, arith, ◌==◌, length, IsWord16,
}
use modbus_pp.Core.Result.{ok}
use modbus_pp.Core.Pdu.{Pdu, serialize, deserialize}
use modbus_pp.Transport.FrameCodec.{wrap_tcp, unwrap_tcp}
use modbus_pp.Transport.FrameCodec.Tcp.{received, unwrap_tcp-wrap_tcp}
use modbus_pp.Transport.Loopback
use modbus_pp.Client.Server.{Server, handle_pdu, framed, handle_request, process_frame, process_one}
use modbus_pp.Client.Master.{Client, check_exception, transact}
use modbus_pp.Client.Served.{Pair, serve, served, idle_pair}

-- A unit that is read back from its bytes, and that fits the length field of a frame.
pub record IsSendable (pdu : Pdu) : Type 0 where
  pub read_back : deserialize (serialize pdu) ≡ ok pdu
  pub fits : 1 + length (serialize pdu) < 2 ^ 16

pub unwrap_tcp_sent :
    (unit txn_id : ℕ) (pdu : Pdu)
    → IsSendable pdu
    → IsWord16 txn_id
    → unwrap_tcp (wrap_tcp unit pdu txn_id) ≡ ok (unit, pdu, txn_id)
unwrap_tcp_sent unit txn_id pdu h k =
    ap unwrap_tcp (sym (append-nil (wrap_tcp unit pdu txn_id)))
    ∙ unwrap_tcp-wrap_tcp unit txn_id pdu [] k h.fits
    ∙ ap (received unit txn_id) h.read_back

-- The unit number of a request: the slave's own, or that of a broadcast.
abbrev pub Accepts : {S : Type 0} → Server S → ℕ → Type 0
Accepts server unit = (unit ≡ server.unit_id) ⊎ (unit ≡ 0)

module _ {S : Type 0} (server : Server S) where
  pub process_one_sent :
      (s : S) (unit txn_id : ℕ) (pdu : Pdu) {s' : S} {resp : Option Pdu}
      → Accepts server unit
      → IsSendable pdu
      → IsWord16 txn_id
      → handle_pdu server s pdu ≡ ok (s', resp)
      → process_one server s (ok (wrap_tcp unit pdu txn_id))
        ≡ ok (true, s', framed server txn_id resp)
  unfolding process_one process_frame handle_request
  process_one_sent s unit txn_id pdu a h k e =
      let heard : (not (unit == server.unit_id) && not (unit == 0)) ≡ false = ground arith in
      rw (unwrap_tcp_sent unit txn_id pdu h k, heard, e) refl

  -- The counter after one transaction.
  abbrev pub next_client : Client (Pair S) → S → Client (Pair S)
  next_client c s' = record c {
    next_transaction_id = (c.next_transaction_id + 1) % 2 ^ 16;
    world = idle_pair s';
  }

  -- Where the slave answers a sendable unit with a sendable unit, over an idle connection,
  -- `transact` returns that answer, or the exception it stands for, the slave's state is the one
  -- its handler left, and no message remains under way.
  pub transact-served :
      (c : Client (Pair S)) (s : S) (unit : ℕ) (pdu : Pdu) {s' : S} {resp : Pdu}
      → c.world ≡ idle_pair s
      → IsWord16 c.next_transaction_id
      → Accepts server unit
      → IsSendable pdu
      → IsSendable resp
      → handle_pdu server s pdu ≡ ok (s', some resp)
      → transact (served server) unit pdu c ≡ (check_exception resp, next_client c s')
  unfolding transact serve Loopback.send Loopback.receive
  transact-served c s unit pdu {s'} {resp} idle k a h h' e =
      rw
        (
          idle,
          process_one_sent s unit c.next_transaction_id pdu a h k e,
          unwrap_tcp_sent server.unit_id c.next_transaction_id resp h' k,
        )
        refl
