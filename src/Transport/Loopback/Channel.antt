-- ===== src/Transport/Loopback/Channel.antt =====
-- Both endpoints of `LoopbackTransport::create_pair`, with their calls in any order. The lock of each
-- queue makes each call one step.
use modbus_pp.Common.{
  ℕ, ◌≡◌, refl, sym, ap, ◌∙◌, ◌≢◌, Bool, true, false, Option, none, some, List, [], ◌∷◌, ◌++◌,
  append-nil, append_assoc, arith, ◌==◌, if_by_cases, All,
}
use modbus_pp.Core.Error.{ErrorCode, success}
use modbus_pp.Core.Result.{Result, ok, err, fault}
use modbus_pp.Transport.Loopback.{
  Endpoint, LoopbackQueue, create_endpoint, connect, disconnect, set_next_error, send_connected,
  send, receive_connected, receive,
}

-- One endpoint with its outgoing queue, the frames that its `send` accepted, and those that its
-- `receive` answered, both from the first one on.
pub record Side : Type 0 where
  pub endpoint : Endpoint
  pub tx : LoopbackQueue
  pub accepted : LoopbackQueue
  pub taken : LoopbackQueue

pub record Both : Type 0 where
  pub client : Side
  pub server : Side

abbrev new_side : Side
new_side = record { endpoint = create_endpoint; tx = []; accepted = []; taken = [] }

-- `LoopbackTransport::create_pair`
abbrev pub create_pair : Both
create_pair = record { client = new_side; server = new_side }

-- The calls on one endpoint. A send comes with the draw for the simulated error.
pub data Call : Type 0 where
  connecting : Call
  disconnecting : Call
  injecting : ErrorCode → Call
  sending : Bool → List ℕ → Call
  receiving : Call

-- The frames that an answer stands for.
abbrev if_accepted : Result (Unit {0}) → List ℕ → LoopbackQueue
if_accepted (ok a) frame = frame ∷ []
if_accepted (err e) frame = []
if_accepted fault frame = []

abbrev if_taken : Result (List ℕ) → LoopbackQueue
if_taken (ok frame) = frame ∷ []
if_taken (err e) = []
if_taken fault = []

-- A call on the first of two sides, which receives from the queue of the second.
unfoldable pub perform_on : Call → Side → Side → Side × Side
perform_on connecting a b = (record a { endpoint = connect a.endpoint }, b)
perform_on disconnecting a b = (record a { endpoint = disconnect a.endpoint }, b)
perform_on (injecting ec) a b = (record a { endpoint = set_next_error a.endpoint ec }, b)
perform_on (sending dropped frame) a b =
    let (r, endpoint, tx) = send dropped frame a.endpoint a.tx in
    (record a { endpoint = endpoint; tx = tx; accepted = a.accepted ++ if_accepted r frame }, b)
perform_on receiving a b =
    let (r, rx) = receive a.endpoint b.tx in
    (record a { taken = a.taken ++ if_taken r }, record b { tx = rx })

-- A call on the client's end, or on the server's.
abbrev perform : Bool × Call → Both → Both
perform (true, call) p =
    let (a, b) = perform_on call p.client p.server in record { client = a; server = b }
perform (false, call) p =
    let (a, b) = perform_on call p.server p.client in record { client = b; server = a }

unfoldable pub perform_all : List (Bool × Call) → Both → Both
perform_all [] p = p
perform_all (call ∷ calls) p = perform_all calls (perform call p)

-- What one side accepted is what the other took, and then what is still under way.
abbrev pub IsChannel : Side → Side → Type 0
IsChannel a b = a.accepted ≡ b.taken ++ a.tx

-- An endpoint without an injected code of success, which `send` would report instead of sending.
abbrev FailsNext : Option ErrorCode → Type 0
FailsNext none = Unit
FailsNext (some ec) = ec ≢ success

abbrev pub Honest : Side → Type 0
Honest a = FailsNext a.endpoint.next_error

-- A call that injects an error, if it injects anything.
abbrev pub Fails : Bool × Call → Type 0
Fails (who, connecting) = Unit
Fails (who, disconnecting) = Unit
Fails (who, injecting ec) = ec ≢ success
Fails (who, sending dropped frame) = Unit
Fails (who, receiving) = Unit

-- What `send` leaves: the frame stands behind the others exactly where it was accepted.
abbrev Appends : List ℕ → LoopbackQueue → Result (Unit {0}) × Endpoint × LoopbackQueue → Type 0
Appends frame tx x = (x.2 ≡ tx ++ if_accepted x.0 frame) × FailsNext x.1.next_error

send_connected-Appends :
    (next_error : Option ErrorCode) (dropped : Bool) (frame : List ℕ) (endpoint : Endpoint)
    (tx : LoopbackQueue)
    → FailsNext next_error
    → endpoint.next_error ≡ next_error
    → Appends frame tx (send_connected next_error dropped frame endpoint tx)
send_connected-Appends (some ec) dropped frame endpoint tx h e =
    let other : (ec == success) ≡ false = ground (arith, h) in rw (other, append-nil tx) (refl, tt)
send_connected-Appends none true frame endpoint tx h e = rw (append-nil tx, e) (refl, tt)
send_connected-Appends none false frame endpoint tx h e = rw e (refl, tt)

send-Appends :
    (dropped : Bool) (frame : List ℕ) (endpoint : Endpoint) (tx : LoopbackQueue)
    → FailsNext endpoint.next_error
    → Appends frame tx (send dropped frame endpoint tx)
unfolding send
send-Appends dropped frame endpoint tx h =
    if_by_cases (Appends frame tx) endpoint.connected
      (λ up. send_connected-Appends endpoint.next_error dropped frame endpoint tx h refl)
      (λ down. (sym (append-nil tx), h))

-- `receive` takes the oldest message where it answers one.
receive_takes :
    (endpoint : Endpoint) (rx : LoopbackQueue)
    → let (r, rx') = receive endpoint rx in rx ≡ if_taken r ++ rx'
unfolding receive
receive_takes endpoint rx =
    if_by_cases (λ (x : Result (List ℕ) × LoopbackQueue). rx ≡ if_taken x.0 ++ x.1)
      endpoint.connected (λ up. front rx) (λ down. refl)
  where
    front : (rx : LoopbackQueue) → let (r, rx') = receive_connected rx in rx ≡ if_taken r ++ rx'
    front [] = refl
    front (msg ∷ rx) = refl

-- What the calls keep of two sides: both directions, and that no success is injected.
abbrev AreJoined : Side → Side → Type 0
AreJoined a b = IsChannel a b × IsChannel b a × Honest a × Honest b

perform_on-AreJoined :
    (who : Bool) (call : Call) (a b : Side)
    → Fails (who, call)
    → AreJoined a b
    → let (a', b') = perform_on call a b in AreJoined a' b'
unfolding perform_on connect set_next_error
perform_on-AreJoined who connecting a b f j = j
perform_on-AreJoined who disconnecting a b f j = j
perform_on-AreJoined who (injecting ec) a b f (h, k, ha, hb) = (h, k, f, hb)
perform_on-AreJoined who (sending dropped frame) a b f (h, k, ha, hb) =
    let (r, endpoint, tx) = send dropped frame a.endpoint a.tx in
    let (appended, honest) = send-Appends dropped frame a.endpoint a.tx ha in
    (
      ap (λ x. x ++ if_accepted r frame) h
          ∙ append_assoc b.taken a.tx (if_accepted r frame)
          ∙ ap (λ x. b.taken ++ x) (sym appended),
      k,
      honest,
      hb,
    )
perform_on-AreJoined who receiving a b f (h, k, ha, hb) =
    let (r, rx) = receive a.endpoint b.tx in
    (
      h,
      k
          ∙ ap (λ x. a.taken ++ x) (receive_takes a.endpoint b.tx)
          ∙ sym (append_assoc a.taken (if_taken r) rx),
      ha,
      hb,
    )

-- Whatever calls are made on the two endpoints, in whatever order and interleaving, with drawn errors
-- and with injected ones, where no code that is injected is that of success: in each direction the
-- frames that were accepted are, in this order, those that the other end took and then those that are
-- still under way, if they were at the start, as for a new pair. No frame that was accepted is lost,
-- made up, taken twice or overtaken, also across a `disconnect`.
pub perform_all-IsChannel :
    (calls : List (Bool × Call)) (p : Both)
    → All Fails calls
    → Honest p.client
    → Honest p.server
    → IsChannel p.client p.server
    → IsChannel p.server p.client
    → let q = perform_all calls p in IsChannel q.client q.server × IsChannel q.server q.client
unfolding perform_all
perform_all-IsChannel [] p f hc hs h k = (h, k)
perform_all-IsChannel ((true, call) ∷ calls) p f hc hs h k =
    let (h', k', hc', hs') = perform_on-AreJoined true call p.client p.server f.0 (h, k, hc, hs) in
    perform_all-IsChannel calls (perform (true, call) p) f.1 hc' hs' h' k'
perform_all-IsChannel ((false, call) ∷ calls) p f hc hs h k =
    let (k', h', hs', hc') = perform_on-AreJoined false call p.server p.client f.0 (k, h, hs, hc) in
    perform_all-IsChannel calls (perform (false, call) p) f.1 hc' hs' h' k'

-- A code of success that is injected: `send` reports success and the frame is nowhere.
success_loses :
    (frame : List ℕ) (tx : LoopbackQueue)
    → let (r, endpoint, tx') =
        send false frame (set_next_error (connect create_endpoint) success) tx in
      (r ≡ ok tt) × (tx' ≡ tx)
unfolding send connect set_next_error
success_loses frame tx = (refl, refl)
