-- ===== src/Security/Session.antt =====
-- src/security/session.cpp: a session, and the digests of the handshake. A nonce is its list of 16
-- bytes, and the clock's reading is an argument.
use modbus_pp.Common.{ℕ, Bool, true, List, ◌++◌}
use modbus_pp.Core.Timestamp.{Timestamp, before}
use modbus_pp.Security.Hmac.{Compute, verify}

pub record Session : Type 0 where
  pub token : List ℕ
  pub session_key : List ℕ
  pub expiry : Timestamp
  pub authenticated : Bool

unfoldable pub create : List ℕ → List ℕ → Timestamp → Session
create token session_key expiry = record {
  token = token;
  session_key = session_key;
  expiry = expiry;
  authenticated = true;
}

abbrev is_expired : Timestamp → Session → Bool
is_expired now session = before session.expiry now

abbrev concat_nonces : List ℕ → List ℕ → List ℕ
concat_nonces a b = a ++ b

module _ (compute : Compute) where
  abbrev sign : Session → List ℕ → List ℕ
  sign session pdu_data = compute pdu_data session.session_key

  abbrev verify_signed : Session → List ℕ → List ℕ → Bool
  verify_signed session pdu_data digest = verify compute pdu_data session.session_key digest

  unfoldable pub derive_session_key : List ℕ → List ℕ → List ℕ → List ℕ
  derive_session_key client_nonce server_nonce shared_secret =
      compute (concat_nonces client_nonce server_nonce) shared_secret

  unfoldable pub compute_auth_challenge_response : List ℕ → List ℕ → List ℕ → List ℕ
  compute_auth_challenge_response client_nonce server_nonce shared_secret =
      compute (concat_nonces client_nonce server_nonce) shared_secret

  -- The server's nonce is first.
  abbrev pub compute_auth_response : List ℕ → List ℕ → List ℕ → List ℕ
  compute_auth_response client_nonce server_nonce shared_secret =
      compute (concat_nonces server_nonce client_nonce) shared_secret
