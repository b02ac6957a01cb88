-- ===== src/Client/Master/Authenticate/Sound.antt =====
-- What the master knows once `authenticate` has answered a session.
use modbus_pp.Common.{ℕ, ◌≡◌, sym, ap, ◌∙◌, true, Option, some, List, arith}
use modbus_pp.Core.Result.{Result, ok, err, fault}
use modbus_pp.Core.Span.{subspan}
use modbus_pp.Core.FunctionCodes
use modbus_pp.Core.Pdu.{Pdu}
use modbus_pp.Transport.Interface.{Transport}
use modbus_pp.Security.Hmac.{Compute}
use modbus_pp.Security.Session.{
  Session, create, derive_session_key, compute_auth_challenge_response, compute_auth_response,
}
use modbus_pp.Client.Action.{continue-Went, lift-Went, went}
use modbus_pp.Client.Master.{Client, transact}
use modbus_pp.Client.Master.Authenticate.{
  same_bytes→eq, extended_unit, get_secret, check_challenge, open_session,
}
use modbus_pp.Client.Master.Authenticate.Handshake.{
  store_session, finish, respond, verify_device, challenge_device, authenticate,
}

checked :
    (compute : Compute) (secret client_nonce payload server_nonce : List ℕ)
    → check_challenge compute secret client_nonce payload ≡ ok server_nonce
    → (subspan payload 0 16 ≡ ok server_nonce)
      × (subspan payload 16 32
          ≡ ok (compute_auth_challenge_response compute client_nonce server_nonce secret))
unfolding check_challenge
checked compute secret client_nonce payload server_nonce p = grind (
  arith,
  λ (nonce digest : List ℕ).
      same_bytes→eq (compute_auth_challenge_response compute client_nonce nonce secret) digest,
)

opened :
    (key payload : List ℕ) (session : Session)
    → open_session key payload ≡ ok session
    → (session.session_key ≡ key) × (session.authenticated ≡ true)
unfolding open_session create
opened key payload session p = grind arith

module _ {W : Type 0} (transport : Transport W) (compute : Compute) where
  -- The two exchanges behind a session, and what they prove of the device.
  pub record IsHandshake (credentials : Option (ℕ → Result (List ℕ))) (client_nonce : List ℕ)
      (unit : ℕ) (c : Client W) (session : Session) (c' : Client W) : Type 0 where
    pub secret : List ℕ
    pub server_nonce : List ℕ
    pub challenge : Pdu
    pub after_challenge : Client W
    pub confirmation : Pdu
    pub after_confirmation : Client W
    pub secret_known : get_secret credentials unit ≡ ok secret
    pub challenged :
        transact transport unit (extended_unit FunctionCodes.auth_challenge client_nonce) c
        ≡ (ok challenge, after_challenge)
    pub nonce_sent : subspan challenge.payload 0 16 ≡ ok server_nonce
    pub digest_sent :
        subspan challenge.payload 16 32
        ≡ ok (compute_auth_challenge_response compute client_nonce server_nonce secret)
    pub responded :
        transact transport unit
          (extended_unit FunctionCodes.auth_response
            (compute_auth_response compute client_nonce server_nonce secret))
          after_challenge
        ≡ (ok confirmation, after_confirmation)
    pub key_derived :
        session.session_key ≡ derive_session_key compute client_nonce server_nonce secret
    pub is_authenticated : session.authenticated ≡ true
    pub session_stored : c' ≡ record after_confirmation { session = some session }

  -- A session that `authenticate` answers comes from a complete handshake: the secret is that of
  -- the credentials, the device's first answer carried a nonce and the right digest of both nonces
  -- under that secret, the master's own digest was answered, and the session, which the master
  -- keeps, is authenticated and has the key that is derived from the nonces and the secret.
  pub authenticate_sound :
      (credentials : Option (ℕ → Result (List ℕ))) (client_nonce : List ℕ) (unit : ℕ) (c : Client W)
      {session : Session} {c' : Client W}
      → authenticate transport compute credentials client_nonce unit c ≡ (ok session, c')
      → IsHandshake credentials client_nonce unit c session c'
  unfolding authenticate
  authenticate_sound credentials client_nonce unit c {session} {c'} p =
      let (secret, known, p1) =
        lift-Went (get_secret credentials unit)
          (challenge_device transport compute unit client_nonce) c p in
      elim (continue-Went
        (transact transport unit (extended_unit FunctionCodes.auth_challenge client_nonce) c)
        (verify_device transport compute unit secret client_nonce) p1) [
          | went challenge c1 challenged p2 ↦
              let (server_nonce, checks, p3) =
                lift-Went (check_challenge compute secret client_nonce challenge.payload)
                  (respond transport compute unit secret client_nonce) c1 p2 in
              let key = derive_session_key compute client_nonce server_nonce secret in
              elim (continue-Went
                (transact transport unit
                  (extended_unit FunctionCodes.auth_response
                    (compute_auth_response compute client_nonce server_nonce secret))
                  c1)
                (finish transport compute key) p3) [
                  | went confirmation c2 responded p4 ↦
                      let (fresh, opens, p5) =
                        lift-Went (open_session key confirmation.payload)
                          (store_session transport compute) c2 p4 in
                      let same : fresh ≡ session =
                        ap (λ r. elim r.0 [ ok a ↦ a | err e ↦ fresh | fault ↦ fresh ]) p5 in
                      record {
                        secret = secret;
                        server_nonce = server_nonce;
                        challenge = challenge;
                        after_challenge = c1;
                        confirmation = confirmation;
                        after_confirmation = c2;
                        secret_known = known;
                        challenged = challenged;
                        nonce_sent =
                            (checked compute secret client_nonce challenge.payload server_nonce
                              checks).0;
                        digest_sent =
                            (checked compute secret client_nonce challenge.payload server_nonce
                              checks).1;
                        responded = responded;
                        key_derived =
                            ap (λ x. x.session_key) (sym same)
                            ∙ (opened key confirmation.payload fresh opens).0;
                        is_authenticated =
                            ap (λ x. x.authenticated) (sym same)
                            ∙ (opened key confirmation.payload fresh opens).1;
                        session_stored =
                            ap (λ r. r.1) (sym p5) ∙ ap (λ x. record c2 { session = some x }) same;
                      }
                ]
        ]

  -- The key of a session that `authenticate` answers is the digest that the device sent as it is in
  -- its first answer: bytes 16 to 47 of that payload.
  pub session_key_is_sent :
      (credentials : Option (ℕ → Result (List ℕ))) (client_nonce : List ℕ) (unit : ℕ) (c : Client W)
      {session : Session} {c' : Client W}
      → authenticate transport compute credentials client_nonce unit c ≡ (ok session, c')
      → (challenge : Pdu) × (c1 : Client W) × (transact transport unit
            (extended_unit FunctionCodes.auth_challenge client_nonce)
            c
          ≡ (ok challenge, c1))
        × (subspan challenge.payload 16 32 ≡ ok session.session_key)
  unfolding derive_session_key compute_auth_challenge_response
  session_key_is_sent credentials client_nonce unit c p =
      let h = authenticate_sound credentials client_nonce unit c p in
      (h.challenge, h.after_challenge, h.challenged, h.digest_sent ∙ ap ok (sym h.key_derived))
