-- ===== src/Client/Master/Authenticate/Handshake.antt =====
-- The exchanges of Client::authenticate, over the transport of the master.
use modbus_pp.Common.{ℕ, Option, some, List}
use modbus_pp.Core.Result.{Result, ok}
use modbus_pp.Core.FunctionCodes
use modbus_pp.Core.Pdu.{Pdu}
use modbus_pp.Transport.Interface.{Transport}
use modbus_pp.Security.Hmac.{Compute}
use modbus_pp.Security.Session.{Session, derive_session_key, compute_auth_response}
use modbus_pp.Client.Action.{Action, ◌>>=◌, lift}
use modbus_pp.Client.Master.{Client, transact}
use modbus_pp.Client.Master.Authenticate.{extended_unit, get_secret, check_challenge, open_session}

module _ {W : Type 0} (transport : Transport W) (compute : Compute) where
  abbrev pub store_session : Session → Action (Client W) Session
  store_session session c = (ok session, record c { session = some session })

  -- Step 4: the device confirms with the session's token.
  abbrev pub finish : List ℕ → Pdu → Action (Client W) Session
  finish session_key confirmation = do
    session ← lift (open_session session_key confirmation.payload)
    store_session session

  -- Step 3: the master's own digest.
  abbrev pub respond : ℕ → List ℕ → List ℕ → List ℕ → Action (Client W) Session
  respond unit secret client_nonce server_nonce = do
    let client_response = compute_auth_response compute client_nonce server_nonce secret
    confirmation ←
        transact transport unit (extended_unit FunctionCodes.auth_response client_response)
    finish (derive_session_key compute client_nonce server_nonce secret) confirmation

  -- Step 2: the device's nonce and digest.
  abbrev pub verify_device : ℕ → List ℕ → List ℕ → Pdu → Action (Client W) Session
  verify_device unit secret client_nonce challenge = do
    server_nonce ← lift (check_challenge compute secret client_nonce challenge.payload)
    respond unit secret client_nonce server_nonce

  -- Step 1: the master's nonce.
  abbrev pub challenge_device : ℕ → List ℕ → List ℕ → Action (Client W) Session
  challenge_device unit client_nonce secret = do
    challenge ← transact transport unit (extended_unit FunctionCodes.auth_challenge client_nonce)
    verify_device unit secret client_nonce challenge

  unfoldable pub authenticate :
      Option (ℕ → Result (List ℕ)) → List ℕ → ℕ → Action (Client W) Session
  authenticate credentials client_nonce unit = do
    secret ← lift (get_secret credentials unit)
    challenge_device unit client_nonce secret
