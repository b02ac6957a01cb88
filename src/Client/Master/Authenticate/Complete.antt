-- ===== src/Client/Master/Authenticate/Complete.antt =====
-- The handshake of Client::authenticate with a device that holds the secret.
use modbus_pp.Common.{
  ℕ, ◌≡◌, refl, true, Option, some, List, [], ◌∷◌, ◌++◌, arith, leb, le→leb, eq→==, length,
  length-append,
}
use modbus_pp.Core.Result.{Result, ok}
use modbus_pp.Core.Span.{subspan}
use modbus_pp.Core.Span.Append.{subspan_front, subspan_middle}
use modbus_pp.Core.FunctionCodes
use modbus_pp.Core.Timestamp
use modbus_pp.Core.Timestamp.{Timestamp, IsValid}
use modbus_pp.Core.Timestamp.RoundTrip.{deserialize-serialize, length-serialize}
use modbus_pp.Core.Pdu.{Pdu}
use modbus_pp.Transport.Interface.{Transport}
use modbus_pp.Security.Hmac.{Compute}
use modbus_pp.Security.Session.{
  create, derive_session_key, compute_auth_challenge_response, compute_auth_response,
}
--@ modbus_pp.Client.Action.{}
use modbus_pp.Client.Master.{Client, transact}
use modbus_pp.Client.Master.Authenticate.{
  same_bytes, extended_unit, get_secret, check_challenge, open_session,
}
use modbus_pp.Client.Master.Authenticate.Handshake.{authenticate}

same_bytes_refl : (xs : List ℕ) → same_bytes xs xs ≡ true
unfolding same_bytes
same_bytes_refl [] = refl
same_bytes_refl (x ∷ xs) = let same = eq→== x x refl in rw (same, same_bytes_refl xs) refl

-- The payload of a device's first answer, and of its second.
abbrev pub challenge_payload : List ℕ → List ℕ → List ℕ → List ℕ
challenge_payload server_nonce digest extra = server_nonce ++ (digest ++ extra)

abbrev pub confirmation_payload : List ℕ → Timestamp → List ℕ → List ℕ
confirmation_payload token expiry extra = token ++ (Timestamp.serialize expiry ++ extra)

check_challenge_accepts :
    (compute : Compute) (secret client_nonce server_nonce extra : List ℕ)
    → length server_nonce ≡ 16
    → length (compute_auth_challenge_response compute client_nonce server_nonce secret) ≡ 32
    → check_challenge compute secret client_nonce (
        challenge_payload server_nonce
          (compute_auth_challenge_response compute client_nonce server_nonce secret)
          extra)
      ≡ ok server_nonce
unfolding check_challenge
check_challenge_accepts compute secret client_nonce server_nonce extra h k =
    let digest = compute_auth_challenge_response compute client_nonce server_nonce secret in
    let payload = challenge_payload server_nonce digest extra in
    let long : leb 48 (length payload) ≡ true =
      le→leb _ _
        (omega (arith, length-append server_nonce (digest ++ extra), length-append digest extra)) in
    let nonce : subspan payload 0 16 ≡ ok server_nonce =
      rw h at (subspan_front server_nonce (digest ++ extra)) in
    let sent : subspan payload 16 32 ≡ ok digest =
      rw (h, k) at (subspan_middle server_nonce digest extra) in
    rw (long, nonce, sent, same_bytes_refl digest) refl

open_session_opens :
    (key token : List ℕ) (expiry : Timestamp) (extra : List ℕ)
    → length token ≡ 16
    → IsValid expiry
    → open_session key (confirmation_payload token expiry extra) ≡ ok (create token key expiry)
unfolding open_session
open_session_opens key token expiry extra h v =
    let bytes = Timestamp.serialize expiry in
    let payload = confirmation_payload token expiry extra in
    let size : length bytes ≡ 8 = length-serialize expiry in
    let long : leb 24 (length payload) ≡ true =
      le→leb _ _ (omega (arith, length-append token (bytes ++ extra), length-append bytes extra)) in
    let front : subspan payload 0 16 ≡ ok token = rw h at (subspan_front token (bytes ++ extra)) in
    let behind : subspan payload 16 8 ≡ ok bytes =
      rw (h, size) at (subspan_middle token bytes extra) in
    rw (long, front, behind, deserialize-serialize expiry v) refl

module _ {W : Type 0} (transport : Transport W) (compute : Compute) where
  -- A device that answers the challenge with a nonce of its own and the digest of both nonces under
  -- the shared secret, and the master's own digest with a token and an expiry, gets its session: the
  -- master keeps one with that token, that expiry and the key of both nonces and the secret, and
  -- answers it. Bytes behind these parts of either answer are left alone.
  pub authenticate_complete :
      (credentials : Option (ℕ → Result (List ℕ))) (unit : ℕ) (c c1 c2 : Client W)
      (secret client_nonce server_nonce token extra extra' : List ℕ) (expiry : Timestamp)
      (challenge confirmation : Pdu)
      → get_secret credentials unit ≡ ok secret
      → transact transport unit (extended_unit FunctionCodes.auth_challenge client_nonce) c
        ≡ (ok challenge, c1)
      → challenge.payload
        ≡ challenge_payload server_nonce
            (compute_auth_challenge_response compute client_nonce server_nonce secret)
            extra
      → transact transport unit
          (extended_unit FunctionCodes.auth_response
            (compute_auth_response compute client_nonce server_nonce secret))
          c1
        ≡ (ok confirmation, c2)
      → confirmation.payload ≡ confirmation_payload token expiry extra'
      → length server_nonce ≡ 16
      → length (compute_auth_challenge_response compute client_nonce server_nonce secret) ≡ 32
      → length token ≡ 16
      → IsValid expiry
      → let key = derive_session_key compute client_nonce server_nonce secret in
        let session = create token key expiry in
        authenticate transport compute credentials client_nonce unit c
        ≡ (ok session, record c2 { session = some session })
  unfolding authenticate
  authenticate_complete credentials unit c c1 c2 secret client_nonce server_nonce token extra extra'
        expiry challenge confirmation known asked first answered second nonce digest size valid =
      let key = derive_session_key compute client_nonce server_nonce secret in
      rw
        (
          known,
          asked,
          first,
          check_challenge_accepts compute secret client_nonce server_nonce extra nonce digest,
          answered,
          second,
          open_session_opens key token expiry extra' size valid,
        )
        refl
