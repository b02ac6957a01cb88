-- ===== src/Transport/Loopback.antt =====
-- src/transport/loopback_transport.cpp: two endpoints joined by a queue in each direction. A wait
-- that ends with its timeout is a queue that is still empty; the random draw that `error_rate_`
-- asks for is an argument, which is false where the rate is 0.
pub mod Order
pub mod Channel
pub mod Simulation
mod Tests
use modbus_pp.Common.{ℕ, Bool, true, false, Option, none, some, List, [], ◌∷◌, ◌++◌, if◌then◌else◌}
use modbus_pp.Core.Error.{ErrorCode, transport_disconnected, timeout_expired}
use modbus_pp.Core.Result.{Result, void_of_error_code, ok, err}

pub record Endpoint : Type 0 where
  pub connected : Bool
  pub next_error : Option ErrorCode

-- The messages of one direction, the oldest first.
abbrev pub LoopbackQueue : Type 0
LoopbackQueue = List (List ℕ)

abbrev pub create_endpoint : Endpoint
create_endpoint = record { connected = false; next_error = none }

unfoldable pub connect : Endpoint → Endpoint
connect endpoint = record endpoint { connected = true }

abbrev pub disconnect : Endpoint → Endpoint
disconnect endpoint = record endpoint { connected = false }

unfoldable pub set_next_error : Endpoint → ErrorCode → Endpoint
set_next_error endpoint ec = record endpoint { next_error = some ec }

-- Behind the check of the connection: an injected error is spent, else the draw decides.
abbrev pub send_connected :
    Option ErrorCode
    → Bool
    → List ℕ
    → Endpoint
    → LoopbackQueue
    → Result (Unit {0}) × Endpoint × LoopbackQueue
send_connected (some ec) dropped frame endpoint tx =
    (void_of_error_code ec, record endpoint { next_error = none }, tx)
send_connected none true frame endpoint tx = (err transport_disconnected, endpoint, tx)
send_connected none false frame endpoint tx = (ok tt, endpoint, tx ++ (frame ∷ []))

unfoldable pub send :
    Bool → List ℕ → Endpoint → LoopbackQueue → Result (Unit {0}) × Endpoint × LoopbackQueue
send dropped frame endpoint tx =
    if endpoint.connected
    then send_connected endpoint.next_error dropped frame endpoint tx
    else (err transport_disconnected, endpoint, tx)

abbrev pub receive_connected : LoopbackQueue → Result (List ℕ) × LoopbackQueue
receive_connected [] = (err timeout_expired, [])
receive_connected (msg ∷ rx) = (ok msg, rx)

unfoldable pub receive : Endpoint → LoopbackQueue → Result (List ℕ) × LoopbackQueue
receive endpoint rx =
    if endpoint.connected then receive_connected rx else (err transport_disconnected, rx)
