-- ===== src/Transport/Loopback/Simulation.antt =====
-- The simulated latency and the error rate of a `LoopbackTransport`. Its `double`s, the draws from
-- [0, 1) and the test that compares them are parameters.
use modbus_pp.Common.{ℕ, ◌≡◌, refl, Bool, true, false, ◌&&◌, none, List, [], ◌∷◌, ◌++◌}
use modbus_pp.Common.Int.{ℤ, pos_part, pos}
use modbus_pp.Core.Error.{transport_disconnected}
use modbus_pp.Core.Result.{Result, ok, err, fault}
use modbus_pp.Transport.Loopback.{Endpoint, LoopbackQueue, create_endpoint, send}

-- Numbers as they stand in an `error_rate_`.
pub record Doubles (D : Type 0) : Type 0 where
  pub zero_rate : D
  pub less : D → D → Bool

pub record Simulated (D : Type 0) : Type 0 where
  pub endpoint : Endpoint
  pub simulated_latency : ℤ
  pub error_rate : D

module _ {D : Type 0} where
  abbrev pub set_simulated_latency : Simulated D → ℤ → Simulated D
  set_simulated_latency s latency = record s { simulated_latency = latency }

  abbrev pub set_error_rate : Simulated D → D → Simulated D
  set_error_rate s rate = record s { error_rate = rate }

  module _ (doubles : Doubles D) where
    abbrev pub create_simulated : Simulated D
    create_simulated = record {
      endpoint = create_endpoint;
      simulated_latency = pos 0;
      error_rate = doubles.zero_rate;
    }

    -- `if (error_rate_ > 0.0) { if (dist(rng) < error_rate_) ... }`
    pub dropped : D → D → Bool
    dropped rate draw = doubles.less doubles.zero_rate rate && doubles.less draw rate

    -- The microseconds slept, behind the checks that let a frame through.
    abbrev pub slept : ℤ → Result (Unit {0}) → ℕ
    slept latency (ok a) = pos_part latency
    slept latency (err e) = 0
    slept latency fault = 0

    -- `send` with one draw, and how long it sleeps.
    unfoldable pub send_simulated :
        D
        → List ℕ
        → Simulated D
        → LoopbackQueue
        → Result (Unit {0}) × ℕ × Simulated D × LoopbackQueue
    send_simulated draw frame s tx =
        let (r, endpoint, tx') = send (dropped s.error_rate draw) frame s.endpoint tx in
        (r, slept s.simulated_latency r, record s { endpoint = endpoint }, tx')

    -- Without an injected error, a rate that is not above 0 drops no frame, whatever is drawn.
    send_simulated_reliable :
        (draw : D) (frame : List ℕ) (s : Simulated D) (tx : LoopbackQueue)
        → s.endpoint.connected ≡ true
        → s.endpoint.next_error ≡ none
        → doubles.less doubles.zero_rate s.error_rate ≡ false
        → send_simulated draw frame s tx
          ≡ (ok tt, pos_part s.simulated_latency, s, tx ++ (frame ∷ []))
    unfolding send_simulated dropped send
    send_simulated_reliable draw frame s tx up clear never = rw (up, never, clear) refl

    -- A frame that is dropped by the draw does not wait, and the endpoint stays as it was.
    send_simulated_lost :
        (draw : D) (frame : List ℕ) (s : Simulated D) (tx : LoopbackQueue)
        → s.endpoint.connected ≡ true
        → s.endpoint.next_error ≡ none
        → dropped s.error_rate draw ≡ true
        → send_simulated draw frame s tx ≡ (err transport_disconnected, 0, s, tx)
    unfolding send_simulated send
    send_simulated_lost draw frame s tx up clear lost = rw (up, lost, clear) refl
