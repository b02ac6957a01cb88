-- ===== src/Transport/Loopback/Order.antt =====
-- The order in which messages pass through the in-process transport.
use modbus_pp.Common.{
  ℕ, zero, suc, ◌≡◌, refl, ap, ◌∙◌, ◌≢◌, true, false, none, List, [], ◌∷◌, ◌++◌, map, append-nil,
  append_assoc, arith, ◌==◌, length,
}
use modbus_pp.Core.Error.{ErrorCode, success, timeout_expired}
use modbus_pp.Core.Result.{Result, ok, err}
use modbus_pp.Transport.Loopback.{
  Endpoint, LoopbackQueue, set_next_error, send, receive_connected, receive,
}

-- A connected endpoint without an injected error.
pub record IsReady (endpoint : Endpoint) : Type 0 where
  pub is_connected : endpoint.connected ≡ true
  pub no_error : endpoint.next_error ≡ none

send_ready :
    (endpoint : Endpoint) (frame : List ℕ) (tx : LoopbackQueue)
    → IsReady endpoint
    → send false frame endpoint tx ≡ (ok tt, endpoint, tx ++ (frame ∷ []))
unfolding send
send_ready endpoint frame tx h = rw (h.is_connected, h.no_error) refl

-- The queue after the messages were sent one after the other, whatever each call answers.
pub send_all : Endpoint → List (List ℕ) → LoopbackQueue → Endpoint × LoopbackQueue
send_all endpoint [] tx = (endpoint, tx)
send_all endpoint (frame ∷ frames) tx =
    let (r, endpoint', tx') = send false frame endpoint tx in send_all endpoint' frames tx'

-- The answers of so many calls of `receive`.
pub receive_all : ℕ → Endpoint → LoopbackQueue → List (Result (List ℕ))
receive_all zero endpoint rx = []
receive_all (suc n) endpoint rx =
    let (r, rx') = receive endpoint rx in r ∷ receive_all n endpoint rx'

send_all_ready :
    (endpoint : Endpoint) (frames : List (List ℕ)) (tx : LoopbackQueue)
    → IsReady endpoint
    → send_all endpoint frames tx ≡ (endpoint, tx ++ frames)
unfolding send_all
send_all_ready endpoint [] tx h = rw (append-nil tx) refl
send_all_ready endpoint (frame ∷ frames) tx h = rw (send_ready endpoint frame tx h) (
    send_all_ready endpoint frames (tx ++ (frame ∷ [])) h
    ∙ ap (λ q. (endpoint, q)) (append_assoc tx (frame ∷ []) frames))

receive_queued :
    (endpoint : Endpoint) (rx : LoopbackQueue)
    → endpoint.connected ≡ true
    → receive endpoint rx ≡ receive_connected rx
unfolding receive
receive_queued endpoint rx h = rw h refl

receive_all_queued :
    (endpoint : Endpoint) (frames : List (List ℕ))
    → endpoint.connected ≡ true
    → receive_all (suc (length frames)) endpoint frames
      ≡ map ok frames ++ (err timeout_expired ∷ [])
unfolding receive_all
receive_all_queued endpoint [] h = rw (receive_queued endpoint [] h) refl
receive_all_queued endpoint (frame ∷ frames) h =
    rw (receive_queued endpoint (frame ∷ frames) h)
      (ap (◌∷◌ (ok frame)) (receive_all_queued endpoint frames h))

-- Messages that a ready endpoint sends over an empty queue arrive at a connected endpoint all of
-- them, once each and in their order, and the receive after the last one times out.
pub receive_all-send_all :
    (sender receiver : Endpoint) (frames : List (List ℕ))
    → IsReady sender
    → receiver.connected ≡ true
    → receive_all (suc (length frames)) receiver (send_all sender frames []).1
      ≡ map ok frames ++ (err timeout_expired ∷ [])
receive_all-send_all sender receiver frames h k =
    rw (send_all_ready sender frames [] h) (receive_all_queued receiver frames k)

-- An error other than success that is injected into a connected endpoint is the answer of the next
-- send alone: the frame is dropped, and the same frame is then accepted.
pub send-set_next_error :
    (endpoint : Endpoint) (ec : ErrorCode) (frame : List ℕ) (tx : LoopbackQueue)
    → endpoint.connected ≡ true
    → ec ≢ success
    → let (r, endpoint', tx') = send false frame (set_next_error endpoint ec) tx in
      (r ≡ err ec)
      × (tx' ≡ tx)
      × ((send false frame endpoint' tx').0 ≡ ok tt)
      × ((send false frame endpoint' tx').2 ≡ tx ++ (frame ∷ []))
unfolding send set_next_error
send-set_next_error endpoint ec frame tx h k =
    let other : (ec == success) ≡ false = ground arith in rw (h, other) (refl, refl, refl, refl)
