-- ===== src/Client/Master/Authenticate.antt =====
-- Client::authenticate of src/client/client.cpp. The nonce that is drawn and OpenSSL's HMAC are
-- arguments, and the credentials are the configuration's store, if it has one.
pub mod Handshake
pub mod Sound
pub mod Complete
mod Tests
use modbus_pp.Common.{
  ℕ, ◌≡◌, refl, ap₂, inl, inr, Bool, true, false, ◌&&◌, Option, none, some, List, [], ◌∷◌, arith,
  leb, ◌==◌, ==→eq, Bool-cases, length,
}
use modbus_pp.Core.Error.{authentication_failed, hmac_mismatch}
use modbus_pp.Core.Result.{Result, ◌>>=◌, ◌>>◌, guard, ok, err}
use modbus_pp.Core.Span.{subspan}
use modbus_pp.Core.FunctionCodes
use modbus_pp.Core.Timestamp
use modbus_pp.Core.Pdu.{default_header, Pdu, make_extended}
use modbus_pp.Security.Hmac.{Compute}
use modbus_pp.Security.Session.{Session, create, compute_auth_challenge_response}

-- `==` on arrays of bytes.
pub same_bytes : List ℕ → List ℕ → Bool
same_bytes [] [] = true
same_bytes [] (y ∷ ys) = false
same_bytes (x ∷ xs) [] = false
same_bytes (x ∷ xs) (y ∷ ys) = x == y && same_bytes xs ys

pub same_bytes→eq : (xs ys : List ℕ) → same_bytes xs ys ≡ true → xs ≡ ys
unfolding same_bytes
same_bytes→eq [] [] h = refl
same_bytes→eq [] (y ∷ ys) h = cc
same_bytes→eq (x ∷ xs) [] h = cc
same_bytes→eq (x ∷ xs) (y ∷ ys) h =
    let rest = same_bytes→eq xs ys in
    elim (Bool-cases (x == y)) [
      | inl same ↦ ap₂ ◌∷◌ (==→eq x y same) (rest (ground arith))
      | inr other ↦ ground arith
    ]

-- An extended unit under this code, `PDU::make_extended(hdr, payload)` for a fresh header.
abbrev pub extended_unit : ℕ → List ℕ → Pdu
extended_unit code payload =
    make_extended (record default_header { ext_function_code = code }) payload none

abbrev pub get_secret : Option (ℕ → Result (List ℕ)) → ℕ → Result (List ℕ)
get_secret none unit = err authentication_failed
get_secret (some get_key) unit = get_key unit

-- The device's nonce and digest, and the check of the digest.
pub check_challenge : Compute → List ℕ → List ℕ → List ℕ → Result (List ℕ)
check_challenge compute secret client_nonce payload = do
  guard (leb 48 (length payload)) authentication_failed
  server_nonce ← subspan payload 0 16
  server_hmac ← subspan payload 16 32
  let expected = compute_auth_challenge_response compute client_nonce server_nonce secret
  guard (same_bytes expected server_hmac) hmac_mismatch
  ok server_nonce

-- The session that the device's last answer confirms.
pub open_session : List ℕ → List ℕ → Result Session
open_session session_key payload = do
  guard (leb 24 (length payload)) authentication_failed
  token ← subspan payload 0 16
  expiry_bytes ← subspan payload 16 8
  ok (create token session_key (Timestamp.deserialize expiry_bytes))
