-- ===== src/Client/Streamed.antt =====
-- Client::transact over the TCP transport: the request goes out as bytes, and the answer is cut from
-- the stream of bytes that arrives.
pub mod Batch
pub mod Slave
mod Tests
use modbus_pp.Common.{ℕ, ◌≡◌, refl, ap, true, List, ◌++◌, if_by_cases, IsWord16}
--@ modbus_pp.Core.Error.{}
use modbus_pp.Core.Result.{Result, ok}
use modbus_pp.Core.Pdu.{Pdu}
use modbus_pp.Transport.FrameCodec.{wrap_tcp, unwrap_tcp}
--@ modbus_pp.Transport.FrameCodec.Tcp.{}
use modbus_pp.Transport.Tcp.{Socket, TcpTransport, was_sent, tcp}
use modbus_pp.Transport.Tcp
use modbus_pp.Transport.Tcp.Reading.{IsStream}
use modbus_pp.Transport.Tcp.Framing.{tcp_receive-frame}
use modbus_pp.Transport.Tcp.Whole.{wrap_tcp-IsFrame}
use modbus_pp.Client.Master.{Client, check_exception, transact}
use modbus_pp.Client.Served.Exchange.{IsSendable, unwrap_tcp_sent}

module _ {K : Type 0} (socket : Socket K) (incoming : K → List ℕ)
    (s : IsStream socket incoming) where
  -- A transport that sent a frame is connected.
  sent-connected :
      (frame : List ℕ) (t : TcpTransport K)
      → (Tcp.send socket frame t).0 ≡ ok tt
      → (Tcp.send socket frame t).1.connected ≡ true
  unfolding Tcp.send
  sent-connected frame t =
      if_by_cases (λ (x : Result (Unit {0}) × TcpTransport K). x.0 ≡ ok tt → x.1.connected ≡ true)
        t.connected (λ c p. ap (was_sent socket) p) (λ c p. absurd cc)

  -- Where the request was sent, and a sendable unit stands at the front of what then arrives, in
  -- whatever pieces, `transact` returns that unit, or the exception it stands for, and leaves what is
  -- behind it. This holds of every unit number and of every transaction number of 16 bits in the
  -- answer, also of those of an earlier request: neither is compared with the request's.
  pub transact-streamed :
      (c : Client (TcpTransport K)) (unit : ℕ) (pdu : Pdu) (other_unit other_txn : ℕ) (resp : Pdu)
      (rest : List ℕ)
      → (Tcp.send socket (wrap_tcp unit pdu c.next_transaction_id) c.world).0 ≡ ok tt
      → incoming (Tcp.send socket (wrap_tcp unit pdu c.next_transaction_id) c.world).1.os
        ≡ wrap_tcp other_unit resp other_txn ++ rest
      → IsSendable resp
      → IsWord16 other_txn
      → ((transact (tcp socket) unit pdu c).0 ≡ check_exception resp)
        × (incoming (transact (tcp socket) unit pdu c).1.world.os ≡ rest)
  unfolding transact
  transact-streamed c unit pdu other_unit other_txn resp rest sent arrives h k =
      let request = wrap_tcp unit pdu c.next_transaction_id in
      let answer = wrap_tcp other_unit resp other_txn in
      let t = (Tcp.send socket request c.world).1 in
      let (got, still, left) =
        tcp_receive-frame socket incoming s answer rest t
          (wrap_tcp-IsFrame other_unit resp other_txn h.fits) (sent-connected request c.world sent)
          arrives in
      let unwraps : unwrap_tcp answer ≡ ok (other_unit, resp, other_txn) =
        unwrap_tcp_sent other_unit other_txn resp h k in
      rw (sent, got, unwraps) (refl, left)
