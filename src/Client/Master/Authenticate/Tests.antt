-- ===== src/Client/Master/Authenticate/Tests.antt =====
-- The handshake at a concrete input: a device whose two answers are written down.
use modbus_pp.Common.{
  ℕ, ◌≡◌, refl, true, Option, none, some, List, [], ◌∷◌, ◌++◌, arith, replicate, word16,
}
use modbus_pp.Common.Int.{to_u64, of_u64, pos}
use modbus_pp.Core.Error.{timeout_expired}
use modbus_pp.Core.Result.{Result, ok, err}
use modbus_pp.Core.Span.{read, subspan, read_word16}
use modbus_pp.Core.FunctionCodes
use modbus_pp.Core.Timestamp
use modbus_pp.Core.Timestamp.{Timestamp, from_epoch_us}
use modbus_pp.Core.Pdu
use modbus_pp.Core.Pdu.{Pdu}
use modbus_pp.Transport.Interface.{Transport}
use modbus_pp.Transport.FrameCodec.{wrap_tcp, unwrap_tcp}
use modbus_pp.Security.Session.{
  Session, create, derive_session_key, compute_auth_challenge_response,
}
use modbus_pp.Client.Master.{Client, check_exception, transact}
use modbus_pp.Client.Master.Authenticate.{same_bytes, extended_unit, check_challenge, open_session}
use modbus_pp.Client.Master.Authenticate.Handshake.{authenticate}
use modbus_pp.Client.Master.Authenticate.Complete.{authenticate_complete}
use modbus_pp.Client.Master.Authenticate.Sound.{
  IsHandshake, authenticate_sound, session_key_is_sent,
}

-- A transport that answers from a list, whatever is sent.
abbrev answer_from : List (List ℕ) → Result (List ℕ) × List (List ℕ)
answer_from [] = (err timeout_expired, [])
answer_from (frame ∷ frames) = (ok frame, frames)

abbrev script : Transport (List (List ℕ))
script = record { send = λ frame w. (ok tt, w); receive = answer_from }

-- The message itself, which is 32 bytes here, stands in for its HMAC.
abbrev echo : List ℕ → List ℕ → List ℕ
echo message key = message

abbrev ours : List ℕ
ours = replicate 16 1

abbrev theirs : List ℕ
theirs = replicate 16 2

abbrev first_frame : List ℕ
first_frame = 0 ∷ 1 ∷ 0 ∷ 0 ∷ 0 ∷ 50 ∷ 1 ∷ 0x41 ∷ (theirs ++ (ours ++ theirs))

abbrev second_frame : List ℕ
second_frame = 0 ∷ 2 ∷ 0 ∷ 0 ∷ 0 ∷ 26 ∷ 1 ∷ 0x41 ∷ replicate 24 0

abbrev start : Client (List (List ℕ))
start = record { next_transaction_id = 1; session = none; world = first_frame ∷ second_frame ∷ [] }

abbrev opened_session : Session
opened_session = record {
  token = replicate 16 0;
  session_key = ours ++ theirs;
  expiry = from_epoch_us (pos 0);
  authenticated = true;
}

abbrev secrets : Option (ℕ → Result (List ℕ))
secrets = some (λ unit. ok (7 ∷ []))

runs : authenticate script echo secrets ours 1 start ≡ (
  ok opened_session,
  record { next_transaction_id = 3; session = some opened_session; world = [] },
)
unfolding authenticate transact wrap_tcp unwrap_tcp read read_word16 word16 subspan Pdu.deserialize
    Pdu.make_standard check_exception check_challenge open_session create same_bytes
    compute_auth_challenge_response derive_session_key Timestamp.deserialize
    Timestamp.deserialize_loop of_u64
runs = refl

authenticate_sound_example :
    IsHandshake script echo secrets ours 1 start opened_session
      (record { next_transaction_id = 3; session = some opened_session; world = [] })
authenticate_sound_example = authenticate_sound script echo secrets ours 1 start runs

session_key_is_sent_example :
    (challenge : Pdu) × (c1 : Client (List (List ℕ))) × (transact script 1
        (extended_unit FunctionCodes.auth_challenge ours)
        start
      ≡ (ok challenge, c1))
    × (subspan challenge.payload 16 32 ≡ ok opened_session.session_key)
session_key_is_sent_example = session_key_is_sent script echo secrets ours 1 start runs

abbrev after_one : Client (List (List ℕ))
after_one = record { next_transaction_id = 2; session = none; world = second_frame ∷ [] }

abbrev after_two : Client (List (List ℕ))
after_two = record { next_transaction_id = 3; session = none; world = [] }

abbrev first_answer : Pdu
first_answer = record {
  function_code = 0x41;
  ext_header = none;
  payload = theirs ++ (ours ++ theirs);
  hmac = none;
}

abbrev second_answer : Pdu
second_answer = record {
  function_code = 0x41;
  ext_header = none;
  payload = replicate 24 0;
  hmac = none;
}

asked :
    transact script 1 (extended_unit FunctionCodes.auth_challenge ours) start
    ≡ (ok first_answer, after_one)
unfolding transact wrap_tcp unwrap_tcp read read_word16 word16 subspan Pdu.deserialize
    Pdu.make_standard check_exception
asked = refl

answered :
    transact script 1 (extended_unit FunctionCodes.auth_response (theirs ++ ours)) after_one
    ≡ (ok second_answer, after_two)
unfolding transact wrap_tcp unwrap_tcp read read_word16 word16 subspan Pdu.deserialize
    Pdu.make_standard check_exception
answered = refl

authenticate_complete_example : authenticate script echo secrets ours 1 start ≡ (
  ok (
      create
        (replicate 16 0)
        (derive_session_key echo ours theirs (7 ∷ []))
        (from_epoch_us (pos 0))),
  record after_two {
    session = some (
        create
          (replicate 16 0)
          (derive_session_key echo ours theirs (7 ∷ []))
          (from_epoch_us (pos 0)));
  },
)
unfolding compute_auth_challenge_response Timestamp.serialize to_u64
authenticate_complete_example =
    authenticate_complete script echo secrets 1 start after_one after_two (7 ∷ []) ours theirs
      (replicate 16 0) [] [] (from_epoch_us (pos 0)) first_answer second_answer refl asked refl
      answered refl refl refl refl (omega arith)
