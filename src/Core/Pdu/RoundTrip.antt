-- ===== src/Core/Pdu/RoundTrip.antt =====
-- PDU::serialize followed by PDU::deserialize.
use modbus_pp.Common.{
  ℕ, ◌+◌, ◌≤◌, ◌≡◌, refl, sym, ap, ap₂, ◌∙◌, true, Option, none, some, List, [], ◌∷◌, ◌++◌,
  append-nil, append_assoc, arith, leb, ◌==◌, le→leb, eq→==, length, length-append, IsWord16,
  hi_byte, lo_byte, word16_bytes,
}
use modbus_pp.Core.Result.{ok}
use modbus_pp.Core.Span.{read, subspan, read_word16}
use modbus_pp.Core.Span.Append.{read-append, subspan-append, subspan_middle, read_word16-append}
use modbus_pp.Core.FunctionCodes
use modbus_pp.Core.Timestamp
use modbus_pp.Core.Timestamp.{Timestamp}
use modbus_pp.Core.Timestamp.RoundTrip.{deserialize-serialize, length-serialize}
use modbus_pp.Core.Pdu.{
  FrameHeader, Pdu, has_some, optional_part, timestamp_bytes, serialize_extended, read_timestamp,
  read_hmac, read_body, deserialize_extended, deserialize,
}

-- The header names exactly the optional parts that are there, and its numbers fit their fields.
pub record IsConsistent (hdr : FrameHeader) (payload : List ℕ) (hmac : Option (List ℕ))
    : Type 0 where
  pub version_one : hdr.version ≡ 1
  pub flags_fit : IsWord16 hdr.flags
  pub correlation_fits : IsWord16 hdr.correlation_id
  pub length_fits : IsWord16 hdr.payload_length
  pub length_right : hdr.payload_length ≡ length payload
  pub timestamp_flag :
      FunctionCodes.has_flag hdr.flags FunctionCodes.has_timestamp ≡ has_some hdr.timestamp
  pub hmac_flag : FunctionCodes.has_flag hdr.flags FunctionCodes.has_hmac ≡ has_some hmac

abbrev pub IsValidTime : Option Timestamp → Type 0
IsValidTime none = Unit
IsValidTime (some t) = Timestamp.IsValid t

abbrev pub IsDigest : Option (List ℕ) → Type 0
IsDigest none = Unit
IsDigest (some digest) = length digest ≡ 32

-- What the two optional reads give where the flag says what is there.
read_timestamp_written :
    (pre : List ℕ) (ts : Option Timestamp) (rest : List ℕ) (flags : ℕ)
    → IsValidTime ts
    → FunctionCodes.has_flag flags FunctionCodes.has_timestamp ≡ has_some ts
    → let part = optional_part (has_some ts) (timestamp_bytes ts) in
      read_timestamp (pre ++ (part ++ rest)) (length pre) flags ≡ ok (ts, length (pre ++ part))
unfolding read_timestamp
read_timestamp_written pre none rest flags v e = rw (e, append-nil pre)
read_timestamp_written pre (some t) rest flags v e =
    let whole = pre ++ (Timestamp.serialize t ++ rest) in
    let bytes_read : subspan whole (length pre) 8 ≡ ok (Timestamp.serialize t) =
      rw (length-serialize t) at (subspan_middle pre (Timestamp.serialize t) rest) in
    let enough : leb (length pre + 8) (length whole) ≡ true = le→leb _ _ (
      omega (
        arith,
        length-append pre (Timestamp.serialize t ++ rest),
        length-append (Timestamp.serialize t) rest,
        length-serialize t,
      )) in
    rw (e, enough, bytes_read, deserialize-serialize t v, length-append, length-serialize t)

read_hmac_written :
    (pre : List ℕ) (hmac : Option (List ℕ)) (rest : List ℕ) (flags : ℕ)
    → IsDigest hmac
    → FunctionCodes.has_flag flags FunctionCodes.has_hmac ≡ has_some hmac
    → read_hmac (pre ++ (optional_part (has_some hmac) hmac ++ rest)) (length pre) flags ≡ ok hmac
unfolding read_hmac
read_hmac_written pre none rest flags v e = rw e
read_hmac_written pre (some digest) rest flags v e =
    let whole = pre ++ (digest ++ rest) in
    let bytes_read : subspan whole (length pre) 32 ≡ ok digest =
      rw v at (subspan_middle pre digest rest) in
    let enough : leb (length pre + 32) (length whole) ≡ true =
      le→leb _ _ (omega (arith, length-append pre (digest ++ rest), length-append digest rest)) in
    rw (e, enough, bytes_read)

-- The body of the frame from the extended function code on, behind the bytes `pre`.
read_body_written :
    (pre : List ℕ) (fc : ℕ) (hdr : FrameHeader) (rest payload : List ℕ) (hmac : Option (List ℕ))
    → IsConsistent hdr payload hmac
    → IsDigest hmac
    → (old : FrameHeader) → old.flags ≡ hdr.flags
    → read_body
        (pre
          ++ (hdr.ext_function_code
              ∷ hi_byte hdr.payload_length
              ∷ lo_byte hdr.payload_length
              ∷ (payload ++ (optional_part (has_some hmac) hmac ++ rest))))
        fc
        old
        (length pre)
      ≡ ok (record {
        function_code = fc;
        ext_header = some (record old {
          ext_function_code = hdr.ext_function_code;
          payload_length = hdr.payload_length;
        });
        payload = payload;
        hmac = hmac;
      })
unfolding read_body
read_body_written pre fc hdr rest payload hmac c d old same =
    let back = optional_part (has_some hmac) hmac ++ rest in
    let head =
      hdr.ext_function_code ∷ hi_byte hdr.payload_length ∷ lo_byte hdr.payload_length ∷ [] in
    let body = head ++ (payload ++ back) in
    let whole = pre ++ body in
    let before_hmac = pre ++ (head ++ payload) in
    let size : length whole ≡ length pre + 3 + length payload + length back =
      omega (arith, length-append pre body, length-append payload back) in
    let front : leb (length pre + 3) (length whole) ≡ true = le→leb _ _ (omega arith) in
    let code : read whole (length pre) ≡ ok hdr.ext_function_code =
      ap (read whole) (omega arith) ∙ read-append pre body 0 ∙ unfold read in refl in
    let len : read_word16 whole (length pre + 1) ≡ ok hdr.payload_length =
      read_word16-append pre body 1
      ∙ unfold read_word16 read in ap ok (word16_bytes hdr.payload_length c.length_fits) in
    let room : leb (length pre + 3 + hdr.payload_length) (length whole) ≡ true =
      le→leb _ _ (omega (arith, c.length_right)) in
    let payload_read : subspan whole (length pre + 3) hdr.payload_length ≡ ok payload =
      subspan-append pre body 3 hdr.payload_length
      ∙ ap (subspan body 3) c.length_right
      ∙ subspan_middle head payload back in
    let hmac_at : length pre + 3 + hdr.payload_length ≡ length before_hmac =
      omega (arith, c.length_right, length-append pre (head ++ payload)) in
    let hmac_read : read_hmac whole (length pre + 3 + hdr.payload_length) old.flags ≡ ok hmac =
      ap₂ (λ w k. read_hmac w k old.flags) (sym (append_assoc pre (head ++ payload) back)) hmac_at
      ∙ read_hmac_written before_hmac hmac rest old.flags d (rw same c.hmac_flag) in
    rw (front, code, len, room, payload_read, hmac_read)

-- The frame that a consistent header describes.
abbrev pub framed : FrameHeader → List ℕ → Option (List ℕ) → Pdu
framed hdr payload hmac = record {
  function_code = FunctionCodes.extended;
  ext_header = some hdr;
  payload = payload;
  hmac = hmac;
}

serialize_extended-append :
    (hdr : FrameHeader) (payload : List ℕ) (hmac : Option (List ℕ)) (rest : List ℕ)
    → IsConsistent hdr payload hmac
    → serialize_extended hdr payload hmac ++ rest
      ≡ (FunctionCodes.extended
          ∷ hdr.version
          ∷ hi_byte hdr.flags
          ∷ lo_byte hdr.flags
          ∷ hi_byte hdr.correlation_id
          ∷ lo_byte hdr.correlation_id
          ∷ [])
        ++ (optional_part (has_some hdr.timestamp) (timestamp_bytes hdr.timestamp)
            ++ (hdr.ext_function_code
                ∷ hi_byte hdr.payload_length
                ∷ lo_byte hdr.payload_length
                ∷ (payload ++ (optional_part (has_some hmac) hmac ++ rest))))
unfolding serialize_extended
serialize_extended-append hdr payload hmac rest c =
    rw (c.timestamp_flag, c.hmac_flag) (simp append_assoc)

-- Whatever follows the frame, it is read back as it was.
pub deserialize-serialize_extended :
    (hdr : FrameHeader) (payload : List ℕ) (hmac : Option (List ℕ)) (rest : List ℕ)
    → IsConsistent hdr payload hmac
    → IsValidTime hdr.timestamp
    → IsDigest hmac
    → deserialize (serialize_extended hdr payload hmac ++ rest) ≡ ok (framed hdr payload hmac)
unfolding deserialize deserialize_extended
deserialize-serialize_extended hdr payload hmac rest c v d =
    rw (serialize_extended-append hdr payload hmac rest c) (
      rw
        (
          enough 1 (omega arith),
          first,
          enough 9 (omega arith),
          version,
          one,
          flags,
          correlation,
          stamp,
        )
        (read_body_written (six ++ stamp_bytes) FunctionCodes.extended hdr rest payload hmac c d old
          refl))
  where
    old : FrameHeader
    old = record hdr { ext_function_code = 0; payload_length = 0 }

    six : List ℕ
    six =
        FunctionCodes.extended
        ∷ hdr.version
        ∷ hi_byte hdr.flags
        ∷ lo_byte hdr.flags
        ∷ hi_byte hdr.correlation_id
        ∷ lo_byte hdr.correlation_id
        ∷ []

    stamp_bytes : List ℕ
    stamp_bytes = optional_part (has_some hdr.timestamp) (timestamp_bytes hdr.timestamp)

    body : List ℕ
    body =
        hdr.ext_function_code
        ∷ hi_byte hdr.payload_length
        ∷ lo_byte hdr.payload_length
        ∷ (payload ++ (optional_part (has_some hmac) hmac ++ rest))

    whole : List ℕ
    whole = six ++ (stamp_bytes ++ body)

    enough : (n : ℕ) → n ≤ 9 → leb n (length whole) ≡ true
    enough n h = le→leb _ _ (omega (arith, length-append stamp_bytes body))

    first : read whole 0 ≡ ok FunctionCodes.extended
    first = unfold read in refl

    version : read whole 1 ≡ ok hdr.version
    version = unfold read in refl

    one : (hdr.version == 1) ≡ true
    one = eq→== _ _ c.version_one

    flags : read_word16 whole 2 ≡ ok hdr.flags
    flags = unfold read_word16 read in ap ok (word16_bytes hdr.flags c.flags_fit)

    correlation : read_word16 whole 4 ≡ ok hdr.correlation_id
    correlation =
        unfold read_word16 read in ap ok (word16_bytes hdr.correlation_id c.correlation_fits)

    stamp : read_timestamp whole 6 hdr.flags ≡ ok (hdr.timestamp, length (six ++ stamp_bytes))
    stamp = read_timestamp_written six hdr.timestamp body hdr.flags v c.timestamp_flag
