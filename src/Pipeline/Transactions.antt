-- ===== src/Pipeline/Transactions.antt =====
-- src/pipeline/pipeline.cpp. The callbacks that are invoked are listed in their order, each with
-- what it is given; the readings of the clock are arguments.
pub mod Matching
use modbus_pp.Common.{
  ℕ, ◌+◌, ◌/◌, ◌%◌, ◌^◌, Bool, false, Option, none, some, List, [], ◌∷◌, ◌++◌, ◌==◌, if◌then◌else◌,
}
use modbus_pp.Common.Int.{ℤ, to_u64, pos, negsuc}
use modbus_pp.Core.Error.{pipeline_overflow, timeout_expired}
use modbus_pp.Core.Result.{Result, ok, err, fault}
use modbus_pp.Core.FunctionCodes
use modbus_pp.Core.Timestamp.{Timestamp, elapsed}
use modbus_pp.Core.Pdu
use modbus_pp.Core.Pdu.{default_header, Pdu, make_extended}
use modbus_pp.Transport.Interface.{Transport}
use modbus_pp.Pipeline.RequestQueue.{
  PendingRequest, RequestQueue, insert, remove, remove_expired, cancel,
}

pub record Pipeline (W : Type 0) : Type 0 where
  pub world : W
  pub default_timeout : ℤ
  pub queue : RequestQueue
  pub counter : ℕ
  pub total_completed : ℕ
  pub total_latency_us : ℕ
  pub calls : List (ℕ × Result Pdu)

-- `Pipeline(transport, config)`: identifiers start with 1.
unfoldable pub create : {W : Type 0} → W → ℕ → ℤ → Pipeline W
create world max_in_flight default_timeout = record {
  world = world;
  default_timeout = default_timeout;
  queue = record { pending = []; max_size = max_in_flight };
  counter = 1;
  total_completed = 0;
  total_latency_us = 0;
  calls = [];
}

-- The extended unit that is sent for a request.
unfoldable pub tagged : ℕ → Pdu → Pdu
tagged corr_id request = elim request.ext_header [
  | some hdr ↦ make_extended (record hdr { correlation_id = corr_id }) request.payload request.hmac
  | none ↦
      make_extended
        (record default_header {
          correlation_id = corr_id;
          ext_function_code = FunctionCodes.pipeline_begin;
        })
        (Pdu.serialize request) none
]

abbrev is_zero : ℤ → Bool
is_zero (pos n) = n == 0
is_zero (negsuc n) = false

-- `if (callback) callback(result)`
abbrev pub invoke : Option ℕ → Result Pdu → List (ℕ × Result Pdu)
invoke none result = []
invoke (some callback) result = (callback, result) ∷ []

abbrev pub invoke_expired : List PendingRequest → List (ℕ × Result Pdu)
invoke_expired [] = []
invoke_expired (req ∷ expired) = invoke req.callback (err timeout_expired) ++ invoke_expired expired

-- The identifier of an answer: that of its extended header, or 0.
abbrev pub correlation_of : Pdu → ℕ
correlation_of pdu = elim pdu.ext_header [ some hdr ↦ hdr.correlation_id | none ↦ 0 ]

module _ {W : Type 0} where
  -- Behind the send: the request is tracked, or refused by a full queue.
  abbrev track : PendingRequest → Pipeline W → Result ℕ × Pipeline W
  track req p =
      let (inserted, queue) = insert req p.queue in
      (if inserted then ok req.id else err pipeline_overflow, record p { queue = queue })

  abbrev pub sent : PendingRequest → Pipeline W → Result (Unit {0}) → Result ℕ × Pipeline W
  sent req p (ok a) = track req p
  sent req p (err e) = (err e, p)
  sent req p fault = (fault, p)

  -- The request as it is sent and tracked.
  abbrev pub pending_request : Timestamp → Pdu → Option ℕ → ℤ → Pipeline W → PendingRequest
  pending_request now request callback timeout p = record {
    id = p.counter;
    request = tagged p.counter request;
    sent_at = now;
    timeout = if is_zero timeout then p.default_timeout else timeout;
    callback = callback;
  }

  unfoldable pub submit :
      Transport W → Timestamp → Pdu → Option ℕ → ℤ → Pipeline W → Result ℕ × Pipeline W
  submit transport now request callback timeout p =
      let req = pending_request now request callback timeout p in
      let (result, world) = transport.send (Pdu.serialize req.request) p.world in
      sent req (record p { counter = (p.counter + 1) % 2 ^ 16; world = world }) result

  -- The statistics, the callback of the request, and those of the requests that have expired.
  unfoldable pub complete : Timestamp → Timestamp → PendingRequest → Pdu → Pipeline W → Pipeline W
  complete now now' req pdu p =
      let (expired, queue) = remove_expired now' p.queue in
      record p {
        queue = queue;
        total_completed = (p.total_completed + 1) % 2 ^ 64;
        total_latency_us = (p.total_latency_us + to_u64 (elapsed now req.sent_at)) % 2 ^ 64;
        calls = p.calls ++ (invoke req.callback (ok pdu) ++ invoke_expired expired);
      }

  abbrev pub matched : Timestamp → Timestamp → Pdu → Option PendingRequest → Pipeline W → Pipeline W
  matched now now' pdu none p = p
  matched now now' pdu (some req) p = complete now now' req pdu p

  unfoldable pub handle_response : Timestamp → Timestamp → Pdu → Pipeline W → Pipeline W
  handle_response now now' pdu p =
      let (pending, queue) = remove (correlation_of pdu) p.queue in
      matched now now' pdu pending (record p { queue = queue })

  abbrev pub parsed : Timestamp → Timestamp → Result Pdu → Pipeline W → Result (Pipeline W)
  parsed now now' (ok pdu) p = ok (handle_response now now' pdu p)
  parsed now now' (err e) p = ok p
  parsed now now' fault p = fault

  abbrev pub polled : Timestamp → Timestamp → Result (List ℕ) → Pipeline W → Result (Pipeline W)
  polled now now' (ok frame) p = parsed now now' (Pdu.deserialize frame) p
  polled now now' (err e) p = ok p
  polled now now' fault p = fault

  abbrev pub poll : Transport W → Timestamp → Timestamp → Pipeline W → Result (Pipeline W)
  poll transport now now' p =
      let (received, world) = transport.receive p.world in
      polled now now' received (record p { world = world })

  abbrev pub cancel_request : ℕ → Pipeline W → Bool × Pipeline W
  cancel_request id p =
      let (found, queue) = cancel id p.queue in (found, record p { queue = queue })

  abbrev average_latency : Pipeline W → ℕ
  average_latency p = if p.total_completed == 0 then 0 else p.total_latency_us / p.total_completed
