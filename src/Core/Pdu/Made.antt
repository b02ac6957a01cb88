-- ===== src/Core/Pdu/Made.antt =====
-- What PDU::make_extended and PDU::make_standard build is read back from its bytes.
use modbus_pp.Common.{
  ℕ, suc, ◌-◌, ◌%◌, ◌^◌, ◌<◌, ◌≡◌, refl, ap, ◌∙◌, false, Option, List, [], ◌∷◌, ◌++◌, append-nil,
  arith, le→leb, length, IsWord16,
}
use modbus_pp.Core.Result.{ok}
use modbus_pp.Core.Span.{read, subspan}
use modbus_pp.Core.Span.Append.{subspan_middle}
use modbus_pp.Core.FunctionCodes
use modbus_pp.Core.Pdu.{
  FrameHeader, has_some, make_standard, make_extended, is_extended_code, serialize, deserialize,
}
use modbus_pp.Core.Pdu.Flags.{
  made_flags, made_flags-IsWord16, made_flags_timestamp, made_flags_hmac,
}
use modbus_pp.Core.Pdu.RoundTrip.{
  IsConsistent, IsValidTime, IsDigest, deserialize-serialize_extended,
}

-- What a caller must give: version 1, numbers that fit their fields, and no flag for an optional
-- part that is not there.
pub record IsUsable (hdr : FrameHeader) (payload : List ℕ) (hmac : Option (List ℕ)) : Type 0 where
  pub version_one : hdr.version ≡ 1
  pub flags_fit : IsWord16 hdr.flags
  pub correlation_fits : IsWord16 hdr.correlation_id
  pub payload_fits : length payload < 2 ^ 16
  pub timestamp_valid : IsValidTime hdr.timestamp
  pub digest_valid : IsDigest hmac
  pub no_stray_timestamp :
      has_some hdr.timestamp ≡ false
      → FunctionCodes.has_flag hdr.flags FunctionCodes.has_timestamp ≡ false
  pub no_stray_hmac :
      has_some hmac ≡ false → FunctionCodes.has_flag hdr.flags FunctionCodes.has_hmac ≡ false

-- The header that `make_extended` stores.
abbrev made_header : FrameHeader → List ℕ → Option (List ℕ) → FrameHeader
made_header hdr payload hmac = record hdr {
  flags = made_flags (has_some hdr.timestamp) (has_some hmac) hdr.flags;
  payload_length = length payload % 2 ^ 16;
}

made_header-IsConsistent :
    (hdr : FrameHeader) (payload : List ℕ) (hmac : Option (List ℕ))
    → IsUsable hdr payload hmac
    → IsConsistent (made_header hdr payload hmac) payload hmac
made_header-IsConsistent hdr payload hmac u = record {
  version_one = u.version_one;
  flags_fit = made_flags-IsWord16 (has_some hdr.timestamp) (has_some hmac) hdr.flags u.flags_fit;
  correlation_fits = u.correlation_fits;
  length_fits = omega arith;
  length_right = omega (arith, u.payload_fits);
  timestamp_flag =
      made_flags_timestamp (has_some hdr.timestamp) (has_some hmac) hdr.flags u.no_stray_timestamp;
  hmac_flag = made_flags_hmac (has_some hdr.timestamp) (has_some hmac) hdr.flags u.no_stray_hmac;
}

-- A frame that `make_extended` builds from a header of version 1, whose numbers fit their fields
-- and whose flags name no absent part, is read back as it was, whatever bytes follow it.
pub deserialize-make_extended :
    (hdr : FrameHeader) (payload : List ℕ) (hmac : Option (List ℕ)) (rest : List ℕ)
    → IsUsable hdr payload hmac
    → deserialize (serialize (make_extended hdr payload hmac) ++ rest)
      ≡ ok (make_extended hdr payload hmac)
unfolding serialize make_extended
deserialize-make_extended hdr payload hmac rest u =
    deserialize-serialize_extended (made_header hdr payload hmac) payload hmac rest
      (made_header-IsConsistent hdr payload hmac u) u.timestamp_valid u.digest_valid

-- A standard unit under any code but the two extended ones is read back as it was.
pub deserialize-make_standard :
    (fc : ℕ) (bytes : List ℕ)
    → is_extended_code fc ≡ false
    → deserialize (serialize (make_standard fc bytes)) ≡ ok (make_standard fc bytes)
unfolding deserialize serialize make_standard
deserialize-make_standard fc bytes h =
    rw (le→leb 1 (suc (length bytes)) (omega arith), first, h, rest_read)
  where
    first : read (fc ∷ bytes) 0 ≡ ok fc
    first = unfold read in refl

    rest_read : subspan (fc ∷ bytes) 1 (length (fc ∷ bytes) - 1) ≡ ok bytes
    rest_read =
        ap (subspan (fc ∷ bytes) 1) (omega arith)
        ∙ rw (append-nil bytes) at (subspan_middle (fc ∷ []) bytes [])
