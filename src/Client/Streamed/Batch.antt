-- ===== src/Client/Streamed/Batch.antt =====
-- Client::batch_read over the TCP transport, from a device that answers with a BatchResponse.
mod Tests
use modbus_pp.Common.{
  ℕ, ◌+◌, ◌^◌, ◌<◌, ◌≡◌, refl, sym, ap, ◌∙◌, Option, List, [], ◌++◌, append-nil, length, All,
  IsWord16,
}
use modbus_pp.Core.Result.{ok}
use modbus_pp.Core.Timestamp.{Timestamp}
use modbus_pp.Core.Pdu
use modbus_pp.Core.Pdu.{FrameHeader, Pdu, make_extended}
use modbus_pp.Core.Pdu.Made.{IsUsable, deserialize-make_extended}
use modbus_pp.Transport.FrameCodec.{wrap_tcp}
use modbus_pp.Transport.Tcp
use modbus_pp.Transport.Tcp.{Socket, TcpTransport, tcp}
use modbus_pp.Transport.Tcp.Reading.{IsStream}
use modbus_pp.RegisterMap.Batch.{BatchRequest}
use modbus_pp.RegisterMap.Batch.Response
use modbus_pp.RegisterMap.Batch.Response.{BatchResponse}
use modbus_pp.RegisterMap.Batch.Response.Codec.{ResultFits, response_deserialize-serialize}
use modbus_pp.Client.Action.{lift, continue_ok}
use modbus_pp.Client.Master.{Client, check_exception, batch_pdu, transact, batch_read}
use modbus_pp.Client.Served.Exchange.{IsSendable}
use modbus_pp.Client.Streamed.{transact-streamed}

pub extended-IsSendable :
    (hdr : FrameHeader) (payload : List ℕ) (hmac : Option (List ℕ))
    → IsUsable hdr payload hmac
    → 1 + length (Pdu.serialize (make_extended hdr payload hmac)) < 2 ^ 16
    → IsSendable (make_extended hdr payload hmac)
extended-IsSendable hdr payload hmac u fits = record {
  read_back =
      ap Pdu.deserialize (sym (append-nil (Pdu.serialize (make_extended hdr payload hmac))))
      ∙ deserialize-make_extended hdr payload hmac [] u;
  fits = fits;
}

-- An extended unit is no exception.
check_exception-make_extended :
    (hdr : FrameHeader) (payload : List ℕ) (hmac : Option (List ℕ))
    → check_exception (make_extended hdr payload hmac) ≡ ok (make_extended hdr payload hmac)
unfolding check_exception make_extended
check_exception-make_extended hdr payload hmac = refl

module _ {K : Type 0} (socket : Socket K) (incoming : K → List ℕ)
    (s : IsStream socket incoming) where
  -- Where the batch request was sent, and the frame of an extended unit that carries the bytes of a
  -- response stands at the front of what then arrives, in whatever pieces, `batch_read` answers the
  -- results of that response and leaves what is behind the frame. The response has fewer than 65536
  -- results that fit their fields, and its unit fits a frame and has a header of version 1, whose
  -- numbers fit their fields and whose flags name no absent part; the transaction number of the answer
  -- has 16 bits. A digest in the answer may be any: it is not verified, and neither are the unit number
  -- and the transaction number compared.
  pub batch_read-streamed :
      (c : Client (TcpTransport K)) (now : Option Timestamp) (unit : ℕ) (request : BatchRequest)
      (hdr : FrameHeader) (hmac : Option (List ℕ)) (results : BatchResponse)
      (other_unit other_txn : ℕ) (rest : List ℕ)
      → let answer = make_extended hdr (Response.serialize results) hmac in
        let sent =
          Tcp.send socket (wrap_tcp unit (batch_pdu now request) c.next_transaction_id) c.world in
        let got = batch_read (tcp socket) now unit request c in
        sent.0 ≡ ok tt
        → incoming sent.1.os ≡ wrap_tcp other_unit answer other_txn ++ rest
        → IsUsable hdr (Response.serialize results) hmac
        → 1 + length (Pdu.serialize answer) < 2 ^ 16
        → IsWord16 other_txn
        → length results < 2 ^ 16
        → All ResultFits results
        → (got.0 ≡ ok results) × (incoming got.1.world.os ≡ rest)
  unfolding batch_read
  batch_read-streamed c now unit request hdr hmac results other_unit other_txn rest sent arrives u
        fits k few small =
      let payload = Response.serialize results in
      let (p, q) =
        transact-streamed socket incoming s c unit (batch_pdu now request) other_unit other_txn
          (make_extended hdr payload hmac) rest sent arrives
          (extended-IsSendable hdr payload hmac u fits) k in
      let answered = p ∙ check_exception-make_extended hdr payload hmac in
      let whole =
        continue_ok (transact (tcp socket) unit (batch_pdu now request) c)
          (λ pdu. lift (Response.deserialize pdu.payload)) (make_extended hdr payload hmac)
          answered in
      let decoded : Response.deserialize payload ≡ ok results =
        ap Response.deserialize (sym (append-nil payload))
        ∙ response_deserialize-serialize results [] few small in
      unfold make_extended in
      (ap (λ r. r.0) whole ∙ decoded, ap (λ r. incoming r.1.world.os) whole ∙ q)
