-- ===== src/Transport/FrameCodec/Tcp.antt =====
-- FrameCodec::wrap_tcp and FrameCodec::unwrap_tcp.
use modbus_pp.Common.{
  ℕ, zero, suc, ◌+◌, ◌%◌, ◌^◌, ◌≤◌, ◌<◌, ◌≡◌, refl, ap, ◌∙◌, ◌≢◌, ◌↔◌, true, false, List, [], ◌∷◌,
  ◌++◌, arith, leb, ◌==◌, le→leb, length, drop, length-append, IsWord16, hi_byte, lo_byte,
  word16_bytes,
}
use modbus_pp.Core.Result.{Result, ◌>>=◌, ok, err, fault}
use modbus_pp.Core.Span.{read, read_word16}
use modbus_pp.Core.Span.Append.{subspan_middle}
use modbus_pp.Core.Span.Bounds.{
  read_inside, read_word16_inside, read_fault, subspan_fault, read_word16_fault,
}
use modbus_pp.Core.Pdu
use modbus_pp.Core.Error.{unsupported_version}
use modbus_pp.Core.Pdu.Unbounded
use modbus_pp.Core.Pdu.{Pdu, is_extended_code}
use modbus_pp.Core.Pdu.Safety.{deserialize-ne-fault}
use modbus_pp.Transport.FrameCodec.{wrap_tcp, unwrap_unit, unwrap_tcp}

pub length-serialize_pos : (pdu : Pdu) → 1 ≤ length (Pdu.serialize pdu)
unfolding Pdu.serialize Pdu.serialize_extended
length-serialize_pos pdu = ground arith

-- What the receiver of a frame sees of the unit that was sent.
abbrev pub received : ℕ → ℕ → Result Pdu → Result (ℕ × Pdu × ℕ)
received unit_id transaction_id (ok pdu) = ok (unit_id, pdu, transaction_id)
received unit_id transaction_id (err e) = err e
received unit_id transaction_id fault = fault

received_bind :
    (unit_id transaction_id : ℕ) (r : Result Pdu)
    → (r >>= λ pdu. ok (unit_id, pdu, transaction_id)) ≡ received unit_id transaction_id r
received_bind unit_id transaction_id (ok pdu) = refl
received_bind unit_id transaction_id (err e) = refl
received_bind unit_id transaction_id fault = refl

-- A wrapped unit that fits the length field comes back under its unit number and its 16-bit
-- transaction number, as `deserialize` reads its bytes; whatever follows the frame is left alone.
pub unwrap_tcp-wrap_tcp :
    (unit_id transaction_id : ℕ) (pdu : Pdu) (rest : List ℕ)
    → IsWord16 transaction_id
    → 1 + length (Pdu.serialize pdu) < 2 ^ 16
    → unwrap_tcp (wrap_tcp unit_id pdu transaction_id ++ rest)
      ≡ received unit_id transaction_id (Pdu.deserialize (Pdu.serialize pdu))
unfolding unwrap_tcp wrap_tcp
unwrap_tcp-wrap_tcp unit_id transaction_id pdu rest h k =
    rw (long, txn, zero_hi, zero_lo, len, room, unit, body)
      (received_bind unit_id transaction_id (Pdu.deserialize bytes))
  where
    bytes : List ℕ
    bytes = Pdu.serialize pdu

    size : ℕ
    size = (1 + length bytes) % 2 ^ 16

    head : List ℕ
    head =
        hi_byte transaction_id
        ∷ lo_byte transaction_id
        ∷ 0x00
        ∷ 0x00
        ∷ hi_byte size
        ∷ lo_byte size
        ∷ unit_id
        ∷ []

    frame : List ℕ
    frame = head ++ (bytes ++ rest)

    long : leb 8 (length frame) ≡ true
    long = le→leb _ _ (omega (arith, length-append bytes rest, length-serialize_pos pdu))

    txn : read_word16 frame 0 ≡ ok transaction_id
    txn = unfold read_word16 read in ap ok (word16_bytes transaction_id h)

    zero_hi : read frame 2 ≡ ok 0
    zero_hi = unfold read in refl

    zero_lo : read frame 3 ≡ ok 0
    zero_lo = unfold read in refl

    len : read_word16 frame 4 ≡ ok size
    len = unfold read_word16 read in ap ok (word16_bytes size (omega arith))

    room : leb (6 + size) (length frame) ≡ true
    room = le→leb _ _ (omega (arith, length-append bytes rest))

    unit : read frame 6 ≡ ok unit_id
    unit = unfold read in refl

    counted : size ≡ suc (length bytes)
    counted = omega arith

    body : unwrap_unit frame size ≡ Pdu.deserialize bytes
    body =
        ap (unwrap_unit frame) counted
        ∙ ap (λ r. r >>= Pdu.deserialize) (subspan_middle head bytes rest)

-- The length field of a frame, where the header before it is that of Modbus.
pub record HasZeroLength (frame : List ℕ) : Type 0 where
  pub long_enough : 8 ≤ length frame
  pub protocol_hi : read frame 2 ≡ ok 0x00
  pub protocol_lo : read frame 3 ≡ ok 0x00
  pub length_zero : read_word16 frame 4 ≡ ok 0

unwrap_unit-ne-fault :
    (frame : List ℕ) (n : ℕ) → 0 < n → 6 + n ≤ length frame → unwrap_unit frame n ≢ fault
unwrap_unit-ne-fault frame zero h k f = absurd (omega arith)
unwrap_unit-ne-fault frame (suc size) h k f =
    grind (arith, subspan_fault frame 7, deserialize-ne-fault)

-- Where the length field is not 0, `unwrap_tcp` stays inside of its input.
unwrap_tcp_fault_length : (frame : List ℕ) → unwrap_tcp frame ≡ fault → HasZeroLength frame
unfolding unwrap_tcp
unwrap_tcp_fault_length frame f = grind (
  arith,
  read_word16_fault frame 0,
  read_fault frame 2,
  read_fault frame 3,
  read_word16_fault frame 4,
  read_fault frame 6,
  unwrap_unit-ne-fault frame,
)

-- What `unwrap_tcp` makes of a length field of 0.
unwrap_tcp_length_zero :
    (frame : List ℕ)
    → HasZeroLength frame
    → (unit txn : ℕ) × (unwrap_tcp frame
        ≡ received unit txn (Unbounded.deserialize_unbounded (drop 7 frame)))
unfolding unwrap_tcp
unwrap_tcp_length_zero frame z =
    let (txn, first) = read_word16_inside frame 0 (omega arith) in
    let (unit, seventh) = read_inside frame 6 (omega arith) in
    (
      unit,
      txn,
      rw
          (
            le→leb 8 (length frame) z.long_enough,
            first,
            z.protocol_hi,
            z.protocol_lo,
            z.length_zero,
            le→leb (6 + 0) (length frame) (omega arith),
            seventh,
          )
          (received_bind unit txn (Unbounded.deserialize_unbounded (drop 7 frame))),
    )

read-drop : (frame : List ℕ) (n i : ℕ) → read (drop n frame) i ≡ read frame (n + i)
unfolding read
read-drop frame zero i = let same : 0 + i ≡ i = omega arith in rw same refl
read-drop [] (suc n) i = refl
read-drop (b ∷ frame) (suc n) i =
    let next : suc n + i ≡ suc (n + i) = omega arith in rw next (read-drop frame n i)

-- Of the frames whose unit starts with a standard function code, `unwrap_tcp` leaves its input on
-- exactly those that have protocol number 0 and whose length field is 0.
pub unwrap_tcp_fault :
    (frame : List ℕ) (fc : ℕ)
    → read frame 7 ≡ ok fc
    → is_extended_code fc ≡ false
    → (unwrap_tcp frame ≡ fault) ↔ HasZeroLength frame
unwrap_tcp_fault frame fc starts standard = (unwrap_tcp_fault_length frame, λ z. left z)
  where
    left : HasZeroLength frame → unwrap_tcp frame ≡ fault
    left z =
        let (unit, txn, e) = unwrap_tcp_length_zero frame z in
        let leaves : Unbounded.deserialize_unbounded (drop 7 frame) ≡ fault =
          unfold Unbounded.deserialize_unbounded in
          rw (read-drop frame 7 0, starts, standard) refl in
        e ∙ ap (received unit txn) leaves

-- An extended unit of another version behind a length field of 0 is refused: no byte outside of the
-- frame is read.
pub unwrap_tcp_length_zero_version :
    (frame : List ℕ) (fc version : ℕ)
    → HasZeroLength frame
    → read frame 7 ≡ ok fc
    → is_extended_code fc ≡ true
    → read frame 8 ≡ ok version
    → version ≢ 1
    → unwrap_tcp frame ≡ err unsupported_version
unwrap_tcp_length_zero_version frame fc version z starts extended_code versioned other =
    let (unit, txn, e) = unwrap_tcp_length_zero frame z in
    let unlike : (version == 1) ≡ false = ground (arith, other) in
    let refuses : Unbounded.deserialize_unbounded (drop 7 frame) ≡ err unsupported_version =
      unfold Unbounded.deserialize_unbounded Unbounded.extended_unbounded in
      rw (read-drop frame 7 0, starts, extended_code, read-drop frame 7 1, versioned, unlike)
        refl in
    e ∙ ap (received unit txn) refuses
