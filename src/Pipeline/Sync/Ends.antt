-- ===== src/Pipeline/Sync/Ends.antt =====
-- When Pipeline::submit_sync ends, and how long it waits.
use modbus_pp.Common.{
  ℕ, zero, suc, ◌+◌, ◌≤◌, ◌<◌, ◌≡◌, refl, sym, subst, ◌≢◌, true, false, Option, none, some, List,
  [], ◌∷◌, ◌++◌, arith, leb, ◌==◌, if_by_cases, All,
}
use modbus_pp.Common.Int.{ℤ, pos_part, pos, negsuc}
use modbus_pp.Core.Error.{ErrorCode, timeout_expired}
use modbus_pp.Core.Result.{Result, ok, err, fault}
use modbus_pp.Core.Timestamp.{Timestamp}
use modbus_pp.Core.Pdu
use modbus_pp.Core.Pdu.{Pdu}
use modbus_pp.Core.Pdu.Safety.{deserialize-ne-fault}
use modbus_pp.Transport.Interface.{Transport}
use modbus_pp.Pipeline.RequestQueue.{
  PendingRequest, holds, emplace, is_full, insert, erase, remove_expired, cancel,
}
use modbus_pp.Pipeline.Transactions.{
  Pipeline, tagged, invoke, invoke_expired, sent, submit, complete, matched, handle_response,
  parsed, polled,
}
use modbus_pp.Pipeline.Sync.{
  Clock, reached, result_of, waited, after_wait, sync_loop, after_submit, submit_sync,
}

-- The steady clock does not run back over a receive, and advances over a wait; no call of the
-- transport is undefined.
pub record IsSteady {W : Type 0} (transport : Transport W) (clock : Clock W) : Type 0 where
  pub receive_keeps : (w : W) → clock.steady w ≤ clock.steady (transport.receive w).1
  pub wait_ticks : (w : W) → clock.steady w < clock.steady (clock.wait w)
  pub receive_defined : (w : W) → (transport.receive w).0 ≢ fault
  pub send_defined : (frame : List ℕ) (w : W) → (transport.send frame w).0 ≢ fault

-- No call so far ended in an undefined state.
abbrev AreDefined : List (ℕ × Result Pdu) → Type 0
AreDefined calls = All (λ c. c.1 ≢ fault) calls

module _ {W : Type 0} (transport : Transport W) (clock : Clock W)
    (s : IsSteady transport clock) where
  -- A call with a timeout of 0, over a connection that takes the request and has nothing to receive,
  -- under an identifier that is not in flight in a queue with room, answers TimeoutExpired after its
  -- first poll, whatever the default timeout, under which `submit` tracks the request; the queue is
  -- as it was.
  pub submit_sync_zero_timeout :
      (rounds callback : ℕ) (request : Pdu) (p : Pipeline W) (w : W) (e : ErrorCode)
      → transport.send (Pdu.serialize (tagged p.counter request)) p.world ≡ (ok tt, w)
      → (transport.receive w).0 ≡ err e
      → is_full p.queue ≡ false
      → holds p.counter p.queue.pending ≡ false
      → result_of callback p.calls ≡ none
      → ((submit_sync transport clock (suc rounds) callback request (pos 0) p).0
          ≡ err timeout_expired)
        × ((submit_sync transport clock (suc rounds) callback request (pos 0) p).1.queue ≡ p.queue)
  unfolding submit_sync sync_loop submit insert emplace cancel erase
  submit_sync_zero_timeout rounds callback request p w e sends nothing room fresh idle =
      let w' = (transport.receive w).1 in
      let over : leb (clock.steady w + 0) (clock.steady (clock.wait w')) ≡ true =
        ground (arith, s.receive_keeps w, s.wait_ticks w') in
      let self : (p.counter == p.counter) ≡ true = ground arith in
      rw (sends, room, fresh, nothing, idle, over, self) (refl, refl)

  reached_late :
      (start now : ℕ) (timeout : ℤ)
      → start + pos_part timeout ≤ now
      → reached start timeout now ≡ true
  reached_late start now (pos n) h = ground arith
  reached_late start now (negsuc n) h = ground arith

  result_of-defined :
      (callback : ℕ) (calls : List (ℕ × Result Pdu)) (r : Result Pdu)
      → AreDefined calls
      → result_of callback calls ≡ some r
      → r ≢ fault
  unfolding result_of
  result_of-defined callback [] r h = λ e. absurd cc
  result_of-defined callback ((c, x) ∷ calls) r h =
      if_by_cases (λ (o : Option (Result Pdu)). o ≡ some r → r ≢ fault) (c == callback)
        (λ b e f. h.0 cc) (λ b. result_of-defined callback calls r h.1)

  invoke-AreDefined :
      (callback : Option ℕ) (r : Result Pdu) → r ≢ fault → AreDefined (invoke callback r)
  invoke-AreDefined none r h = tt
  invoke-AreDefined (some c) r h = (h, tt)

  append-AreDefined :
      (xs ys : List (ℕ × Result Pdu)) → AreDefined xs → AreDefined ys → AreDefined (xs ++ ys)
  append-AreDefined [] ys h k = k
  append-AreDefined (x ∷ xs) ys h k = (h.0, append-AreDefined xs ys h.1 k)

  invoke_expired-AreDefined : (reqs : List PendingRequest) → AreDefined (invoke_expired reqs)
  invoke_expired-AreDefined [] = tt
  invoke_expired-AreDefined (req ∷ reqs) =
      append-AreDefined (invoke req.callback (err timeout_expired)) (invoke_expired reqs)
        (invoke-AreDefined req.callback (err timeout_expired) (λ e. cc))
        (invoke_expired-AreDefined reqs)

  -- What a poll leaves for the loop: the world behind one receive, and calls that are defined.
  abbrev IsPolled : Pipeline W → Result (Pipeline W) → Type 0
  IsPolled p r = (p' : Pipeline W) × (r ≡ ok p') × (p'.world ≡ p.world) × AreDefined p'.calls

  matched-IsPolled :
      (now now' : Timestamp) (pdu : Pdu) (req : Option PendingRequest) (p q : Pipeline W)
      → q.world ≡ p.world
      → AreDefined q.calls
      → IsPolled p (ok (matched now now' pdu req q))
  unfolding complete
  matched-IsPolled now now' pdu none p q e h = (q, refl, e, h)
  matched-IsPolled now now' pdu (some req) p q e h = (
    complete now now' req pdu q,
    refl,
    e,
    append-AreDefined q.calls _ h (
        append-AreDefined (invoke req.callback (ok pdu)) _
          (invoke-AreDefined req.callback (ok pdu) (λ e. cc))
          (invoke_expired-AreDefined (remove_expired now' q.queue).0)),
  )

  parsed-IsPolled :
      (now now' : Timestamp) (r : Result Pdu) (p : Pipeline W)
      → r ≢ fault
      → AreDefined p.calls
      → IsPolled p (parsed now now' r p)
  unfolding handle_response
  parsed-IsPolled now now' (ok pdu) p ne h = matched-IsPolled now now' pdu _ p _ refl h
  parsed-IsPolled now now' (err e) p ne h = (p, refl, refl, h)
  parsed-IsPolled now now' fault p ne h = absurd (ne refl)

  polled-IsPolled :
      (now now' : Timestamp) (r : Result (List ℕ)) (p : Pipeline W)
      → r ≢ fault
      → AreDefined p.calls
      → IsPolled p (polled now now' r p)
  polled-IsPolled now now' (ok frame) p ne h =
      parsed-IsPolled now now' (Pdu.deserialize frame) p (deserialize-ne-fault frame) h
  polled-IsPolled now now' (err e) p ne h = (p, refl, refl, h)
  polled-IsPolled now now' fault p ne h = absurd (ne refl)

  after_wait-ends :
      (go_on : Pipeline W → Result Pdu × Pipeline W) (start : ℕ) (timeout : ℤ) (id callback : ℕ)
      (x : Option (Result Pdu)) (p : Pipeline W)
      → ((r : Result Pdu) → x ≡ some r → r ≢ fault)
      → (reached start timeout (clock.steady p.world) ≡ false → (go_on p).0 ≢ fault)
      → (after_wait transport clock go_on start timeout id x p).0 ≢ fault
  after_wait-ends go_on start timeout id callback (some r) p f g = f r refl
  after_wait-ends go_on start timeout id callback none p f g =
      if_by_cases (λ (r : Result Pdu × Pipeline W). r.0 ≢ fault)
        (reached start timeout (clock.steady p.world)) (λ b. λ e. cc) g

  more :
      (rounds start : ℕ) (timeout : ℤ) (now : ℕ)
      → start + pos_part timeout < rounds + now
      → reached start timeout now ≡ false
      → 0 < rounds
  more zero start timeout now h b =
      let late : reached start timeout now ≡ true = reached_late start now timeout (omega arith) in
      cc
  more (suc rounds) start timeout now h b = omega arith

  sync_loop-ends :
      (rounds start : ℕ) (timeout : ℤ) (id callback : ℕ) (p : Pipeline W)
      → start + pos_part timeout < rounds + clock.steady p.world
      → 0 < rounds
      → AreDefined p.calls
      → (sync_loop transport clock rounds start timeout id callback p).0 ≢ fault
  unfolding sync_loop
  sync_loop-ends zero start timeout id callback p h some_left d = absurd (omega arith)
  sync_loop-ends (suc rounds) start timeout id callback p h some_left d =
      let w = (transport.receive p.world).1 in
      let here : clock.steady p.world < clock.steady (clock.wait w) =
        omega (arith, s.receive_keeps p.world, s.wait_ticks w) in
      let (p', e, world, defined) =
        polled-IsPolled (clock.wall w) (clock.wall w) (transport.receive p.world).0
          (record p { world = w }) (s.receive_defined p.world) d in
      let later : clock.steady p.world < clock.steady (clock.wait p'.world) =
        subst (λ x. clock.steady p.world < clock.steady (clock.wait x)) (sym world) here in
      rw e (
        after_wait-ends (sync_loop transport clock rounds start timeout id callback) start timeout
          id callback (result_of callback p'.calls) (waited transport clock p')
          (λ r. result_of-defined callback p'.calls r defined)
          (λ not_yet.
            sync_loop-ends rounds start timeout id callback (waited transport clock p')
              (omega arith)
              (more rounds start timeout (clock.steady (clock.wait p'.world)) (omega arith) not_yet)
              defined))

  sent-ends :
      (rounds callback : ℕ) (timeout : ℤ) (req : PendingRequest) (p : Pipeline W)
      (r : Result (Unit {0}))
      → pos_part timeout < rounds
      → AreDefined p.calls
      → r ≢ fault
      → (after_submit transport clock rounds timeout callback (sent req p r)).0 ≢ fault
  sent-ends rounds callback timeout req p (ok u) h d ne =
      let q = record p { queue = (insert req p.queue).1 } in
      if_by_cases
        (λ (x : Result ℕ). (after_submit transport clock rounds timeout callback (x, q)).0 ≢ fault)
        (insert req p.queue).0
        (λ b.
          sync_loop-ends rounds (clock.steady p.world) timeout req.id callback q (omega arith)
            (omega arith) d)
        (λ b e. cc)
  sent-ends rounds callback timeout req p (err e) h d ne = λ f. cc
  sent-ends rounds callback timeout req p fault h d ne = absurd (ne refl)

  -- `submit_sync` ends: with more rounds than the timeout has milliseconds it answers a unit or an
  -- error, whatever bytes and errors the connection delivers, if no earlier call ended in an undefined
  -- state. This rests on the transport and the clock: every single call of `send` and of `receive` ends
  -- with a value or an error, the steady clock does not run back over a `receive`, and it advances by
  -- at least a millisecond over each wait.
  pub submit_sync-ends :
      (rounds callback : ℕ) (request : Pdu) (timeout : ℤ) (p : Pipeline W)
      → pos_part timeout < rounds
      → AreDefined p.calls
      → (submit_sync transport clock rounds callback request timeout p).0 ≢ fault
  unfolding submit_sync submit
  submit_sync-ends rounds callback request timeout p h d =
      sent-ends rounds callback timeout _ _
        (transport.send (Pdu.serialize (tagged p.counter request)) p.world).0 h d
        (s.send_defined (Pdu.serialize (tagged p.counter request)) p.world)
