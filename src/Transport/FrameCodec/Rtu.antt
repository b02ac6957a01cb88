-- ===== src/Transport/FrameCodec/Rtu.antt =====
-- FrameCodec::wrap_rtu and FrameCodec::unwrap_rtu.
use modbus_pp.Common.{
  ℕ, zero, suc, ◌+◌, ◌-◌, ◌≤◌, ◌<◌, ◌≡◌, refl, sym, ap, subst, ◌∙◌, ◌≢◌, true, false, some, List,
  [], ◌∷◌, ◌++◌, arith, leb, ◌==◌, le→leb, eq→==, length, get_elem?, set, length-append, IsByte,
  AreBytes, hi_byte, lo_byte, word16, word16_bytes,
}
use modbus_pp.Core.Error.{crc_mismatch}
use modbus_pp.Core.Result.{Result, ◌>>=◌, ◌>>◌, guard, ok, err, fault}
use modbus_pp.Core.Span.{read, subspan}
use modbus_pp.Core.Span.Append.{read-append, subspan_front, subspan_middle}
use modbus_pp.Core.Pdu
use modbus_pp.Core.Pdu.{Pdu}
use modbus_pp.Transport.Crc.{crc16}
use modbus_pp.Transport.Crc.Laws.{crc16-IsWord16}
use modbus_pp.Transport.Crc.Detection.{crc16_one_byte}
use modbus_pp.Transport.FrameCodec.{wrap_rtu, unwrap_rtu}
use modbus_pp.Transport.FrameCodec.Tcp.{length-serialize_pos}

-- What the receiver of a frame sees of the unit that was sent.
abbrev pub received_rtu : ℕ → Result Pdu → Result (ℕ × Pdu)
received_rtu unit_id (ok pdu) = ok (unit_id, pdu)
received_rtu unit_id (err e) = err e
received_rtu unit_id fault = fault

received_rtu_bind :
    (unit_id : ℕ) (r : Result Pdu) → (r >>= λ pdu. ok (unit_id, pdu)) ≡ received_rtu unit_id r
received_rtu_bind unit_id (ok pdu) = refl
received_rtu_bind unit_id (err e) = refl
received_rtu_bind unit_id fault = refl

-- `unwrap_rtu` on a unit number, bytes and a checksum: the checksum decides.
module _ (unit_id : ℕ) (bytes : List ℕ) (lo hi : ℕ) where
  unwrap_rtu_checked :
      1 ≤ length bytes
      → unwrap_rtu ((unit_id ∷ bytes) ++ (lo ∷ hi ∷ [])) ≡ (
          guard (crc16 (unit_id ∷ bytes) == word16 hi lo) crc_mismatch
          >> received_rtu unit_id (Pdu.deserialize bytes))
  unfolding unwrap_rtu
  unwrap_rtu_checked h =
      rw (long, front, lo_read, hi_read, unit, body)
        (ap (λ k. guard (crc16 (unit_id ∷ bytes) == word16 hi lo) crc_mismatch >> k)
          (received_rtu_bind unit_id (Pdu.deserialize bytes)))
    where
      whole : List ℕ
      whole = (unit_id ∷ bytes) ++ (lo ∷ hi ∷ [])

      long : leb 4 (length whole) ≡ true
      long = le→leb _ _ (omega (arith, length-append bytes (lo ∷ hi ∷ [])))

      at_crc : length whole - 2 ≡ length (unit_id ∷ bytes)
      at_crc = omega (arith, length-append bytes (lo ∷ hi ∷ []))

      front : subspan whole 0 (length whole - 2) ≡ ok (unit_id ∷ bytes)
      front = ap (subspan whole 0) at_crc ∙ subspan_front (unit_id ∷ bytes) (lo ∷ hi ∷ [])

      lo_read : read whole (length whole - 2) ≡ ok lo
      lo_read =
          ap (read whole) (at_crc ∙ omega arith)
          ∙ read-append (unit_id ∷ bytes) (lo ∷ hi ∷ []) 0
          ∙ unfold read in refl

      hi_read : read whole (length whole - 2 + 1) ≡ ok hi
      hi_read =
          ap (read whole) (omega (arith, at_crc))
          ∙ read-append (unit_id ∷ bytes) (lo ∷ hi ∷ []) 1
          ∙ unfold read in refl

      unit : read whole 0 ≡ ok unit_id
      unit = unfold read in refl

      body : subspan whole 1 (length whole - 2 - 1) ≡ ok bytes
      body =
          ap (subspan whole 1) (omega (arith, at_crc))
          ∙ subspan_middle (unit_id ∷ []) bytes (lo ∷ hi ∷ [])

-- A wrapped unit whose unit number and content are bytes comes back under its unit number, as
-- `deserialize` reads its bytes.
pub unwrap_rtu-wrap_rtu :
    (unit_id : ℕ) (pdu : Pdu)
    → AreBytes (unit_id ∷ Pdu.serialize pdu)
    → unwrap_rtu (wrap_rtu unit_id pdu) ≡ received_rtu unit_id (Pdu.deserialize (Pdu.serialize pdu))
unfolding wrap_rtu
unwrap_rtu-wrap_rtu unit_id pdu h =
    let data_bytes = unit_id ∷ Pdu.serialize pdu in
    let crc = crc16 data_bytes in
    let same : (crc == word16 (hi_byte crc) (lo_byte crc)) ≡ true =
      eq→== _ _ (sym (word16_bytes crc (crc16-IsWord16 data_bytes h))) in
    unwrap_rtu_checked unit_id (Pdu.serialize pdu) (lo_byte crc) (hi_byte crc)
      (length-serialize_pos pdu)
    ∙ ap (λ c. guard c crc_mismatch >> received_rtu unit_id (Pdu.deserialize (Pdu.serialize pdu)))
        same

refused :
    (data_bytes : List ℕ) (lo hi : ℕ)
    → 2 ≤ length data_bytes
    → crc16 data_bytes ≢ word16 hi lo
    → unwrap_rtu (data_bytes ++ (lo ∷ hi ∷ [])) ≡ err crc_mismatch
refused [] lo hi h differ = absurd (omega arith)
refused (unit_id ∷ bytes) lo hi h differ =
    unwrap_rtu_checked unit_id bytes lo hi (omega arith)
    ∙ ap (λ c. guard c crc_mismatch >> received_rtu unit_id (Pdu.deserialize bytes)) {y = false}
        (ground (arith, differ))

-- A list taken apart at an index, and what a write there does to it and to what follows.
record SplitAt (xs ys : List ℕ) (i x y : ℕ) : Type 0 where
  front : List ℕ
  back : List ℕ
  whole : xs ≡ front ++ x ∷ back
  written : set (xs ++ ys) i y ≡ (front ++ y ∷ back) ++ ys

split_at :
    (xs ys : List ℕ) (i x y : ℕ)
    → i < length xs
    → get_elem? (xs ++ ys) i ≡ some x
    → SplitAt xs ys i x y
split_at [] ys i x y h e = absurd (omega arith)
split_at (z ∷ xs) ys zero x y h e = record {
  front = [];
  back = xs;
  whole = ground arith;
  written = refl;
}
split_at (z ∷ xs) ys (suc i) x y h e =
    let s = split_at xs ys i x y (omega arith) e in
    record {
      front = z ∷ s.front;
      back = s.back;
      whole = ap (◌∷◌ z) s.whole;
      written = ap (◌∷◌ z) s.written;
    }

-- A wrapped frame of bytes in which one byte of the unit number or of the unit has been changed to
-- another byte is refused by its checksum.
pub unwrap_rtu_corrupted :
    (unit_id : ℕ) (pdu : Pdu) (i x y : ℕ)
    → AreBytes (unit_id ∷ Pdu.serialize pdu)
    → i < 1 + length (Pdu.serialize pdu)
    → get_elem? (wrap_rtu unit_id pdu) i ≡ some x
    → IsByte y
    → x ≢ y
    → unwrap_rtu (set (wrap_rtu unit_id pdu) i y) ≡ err crc_mismatch
unfolding wrap_rtu
unwrap_rtu_corrupted unit_id pdu i x y h inside e k differ =
    let data_bytes = unit_id ∷ Pdu.serialize pdu in
    let crc = crc16 data_bytes in
    let s = split_at data_bytes (lo_byte crc ∷ hi_byte crc ∷ []) i x y (omega arith) e in
    let same_size : length (s.front ++ y ∷ s.back) ≡ length data_bytes = omega (
      arith,
      ap length s.whole,
      length-append s.front (x ∷ s.back),
      length-append s.front (y ∷ s.back),
    ) in
    let changed : crc16 (s.front ++ y ∷ s.back) ≢ word16 (hi_byte crc) (lo_byte crc) = λ same.
      crc16_one_byte s.front x y s.back (subst AreBytes s.whole h) k differ (
        ap crc16 (sym s.whole) ∙ sym (word16_bytes crc (crc16-IsWord16 data_bytes h)) ∙ sym same) in
    rw s.written (
      refused (s.front ++ y ∷ s.back) (lo_byte crc) (hi_byte crc)
        (omega (arith, same_size, length-serialize_pos pdu)) changed)
