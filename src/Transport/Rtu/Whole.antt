-- ===== src/Transport/Rtu/Whole.antt =====
-- A frame of FrameCodec::wrap_rtu through the RTU transport.
use modbus_pp.Common.{
  ℕ, ◌<◌, ◌≡◌, ap, ◌∙◌, true, List, [], ◌∷◌, arith, length, length-append, AreBytes, hi_byte,
  lo_byte,
}
use modbus_pp.Core.Result.{◌>>=◌, ok}
use modbus_pp.Core.Pdu
use modbus_pp.Core.Pdu.{Pdu}
use modbus_pp.Transport.Crc.{crc16}
use modbus_pp.Transport.FrameCodec.{wrap_rtu, unwrap_rtu}
use modbus_pp.Transport.FrameCodec.Rtu.{received_rtu, unwrap_rtu-wrap_rtu}
use modbus_pp.Transport.Rtu.{Device, RtuTransport, receive}
use modbus_pp.Transport.Rtu.Reading.{IsWorking, rtu_receive-All}

wrap_rtu-pos : (unit_id : ℕ) (pdu : Pdu) → 0 < length (wrap_rtu unit_id pdu)
unfolding wrap_rtu
wrap_rtu-pos unit_id pdu =
    let crc = crc16 (unit_id ∷ Pdu.serialize pdu) in
    omega (arith, length-append (unit_id ∷ Pdu.serialize pdu) (lo_byte crc ∷ hi_byte crc ∷ []))

module _ {K : Type 0} (calls : Device K) (incoming : K → List ℕ)
    (w : IsWorking calls incoming) where
  -- A frame of bytes that `wrap_rtu` made, and that arrives on a line that works followed by a
  -- silence, is received by one call, in however many pieces the reads deliver it, and unwrapped as
  -- its unit number and the unit that `deserialize` reads of its bytes; nothing is left.
  pub rtu_receive-wrap_rtu :
      (rounds timeout unit_id : ℕ) (pdu : Pdu) (t : RtuTransport K)
      → AreBytes (unit_id ∷ Pdu.serialize pdu)
      → t.connected ≡ true
      → incoming t.os ≡ wrap_rtu unit_id pdu
      → length (wrap_rtu unit_id pdu) < rounds
      → (((receive calls rounds timeout t).0 >>= unwrap_rtu)
          ≡ received_rtu unit_id (Pdu.deserialize (Pdu.serialize pdu)))
        × (incoming (receive calls rounds timeout t).1.os ≡ [])
  rtu_receive-wrap_rtu rounds timeout unit_id pdu t bytes c e enough =
      let (p, q) =
        rtu_receive-All calls incoming w rounds timeout t c
          (omega (arith, ap length e, wrap_rtu-pos unit_id pdu)) (omega (arith, ap length e)) in
      (ap (λ r. r >>= unwrap_rtu) (p ∙ ap ok e) ∙ unwrap_rtu-wrap_rtu unit_id pdu bytes, q)
