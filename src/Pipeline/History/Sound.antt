-- ===== src/Pipeline/History/Sound.antt =====
-- What every pipeline keeps that its calls can make: each callback is invoked as often as it should.
use mathlib.Core.List.{Mem, mem-cons_self, mem-cons_of_mem}
use modbus_pp.Common.{
  ℕ, ◌+◌, ◌%◌, ◌^◌, ◌≡◌, refl, sym, ap, subst, ◌∙◌, inl, inr, false, Option, none, some, List, [],
  ◌∷◌, ◌++◌, arith, ◌==◌, ==→eq, Bool-cases, All, All-join, All-map,
}
--@ modbus_pp.Common.Int.{}
use modbus_pp.Core.Error.{timeout_expired}
use modbus_pp.Core.Result.{Result, ok, err, fault}
use modbus_pp.Core.Timestamp.{Timestamp}
use modbus_pp.Core.Pdu.{Pdu}
use modbus_pp.Core.Pdu
use modbus_pp.Transport.Interface.{Transport}
use modbus_pp.Pipeline.RequestQueue.{
  PendingRequest, RequestQueue, holds, emplace, is_full, insert, find, erase, remove, has_expired,
  split_expired, remove_expired, cancel,
}
use modbus_pp.Pipeline.RequestQueue.Keys.{IsWellFormed, Step, Step-IsWellFormed}
use modbus_pp.Pipeline.Transactions.{
  Pipeline, create, invoke, invoke_expired, correlation_of, sent, pending_request, submit, complete,
  matched, handle_response, parsed, polled,
}
use modbus_pp.Pipeline.History.{Submission, accepted, dropped, withdrawn, History}
use modbus_pp.Pipeline.History.Counts.{
  count, called, held, times_accepted, held-emplace, of_found, held-erase, held-split,
  called-append, called-invoke, called-invoke_expired,
}

-- A call that a request led to: an answer came under the identifier with which the request was
-- accepted, and the only error is that of an expired request.
abbrev pub IsAnswered : List Submission → ℕ × Result Pdu → Type 0
IsAnswered log (callback, ok pdu) = Mem (correlation_of pdu, some callback) log
IsAnswered log (callback, err e) = (e ≡ timeout_expired) × (id : ℕ) × Mem (id, some callback) log
IsAnswered log (callback, fault) = ⊥

abbrev pub IsTracked : List Submission → PendingRequest → Type 0
IsTracked log req = Mem (req.id, req.callback) log

pub record IsSound (log : List Submission) (gone : List (Option ℕ)) (queue : RequestQueue)
    (calls : List (ℕ × Result Pdu)) : Type 0 where
  pub queue_fits : IsWellFormed queue
  pub conserved :
      (callback : ℕ)
      → called callback calls + held callback queue.pending + count callback gone
        ≡ times_accepted callback log
  pub tracked : All (IsTracked log) queue.pending
  pub answered : All (IsAnswered log) calls

IsAnswered-later :
    (x : Submission) (log : List Submission) (call : ℕ × Result Pdu)
    → IsAnswered log call
    → IsAnswered (x ∷ log) call
IsAnswered-later x log (callback, ok pdu) h = mem-cons_of_mem x h
IsAnswered-later x log (callback, err e) (same, id, h) = (same, id, mem-cons_of_mem x h)
IsAnswered-later x log (callback, fault) h = h

All-emplace :
    (P : PendingRequest → Type 0) (req : PendingRequest) (pending : List PendingRequest)
    → P req
    → All P pending
    → All P (emplace req pending)
unfolding emplace
All-emplace P req pending h k = elim (Bool-cases (holds req.id pending)) [
  | inl known ↦ rw known k
  | inr fresh ↦ rw fresh (h, k)
]

pub All-erase :
    (P : PendingRequest → Type 0) (id : ℕ) (pending : List PendingRequest)
    → All P pending
    → All P (erase id pending)
unfolding erase
All-erase P id [] h = tt
All-erase P id (req ∷ pending) h =
    let rest = All-erase P id pending h.1 in
    elim (Bool-cases (req.id == id)) [ inl same ↦ rw same h.1 | inr other ↦ rw other (h.0, rest) ]

-- What is found is one of the requests, under its identifier.
find-All :
    (P : PendingRequest → Type 0) (id : ℕ) (pending : List PendingRequest) (req : PendingRequest)
    → All P pending
    → find id pending ≡ some req
    → P req × (req.id ≡ id)
unfolding find
find-All P id [] req h e = absurd cc
find-All P id (other ∷ pending) req h e = elim (Bool-cases (other.id == id)) [
  | inl same ↦
      let e' = rw same at e in
      let q : other ≡ req = cc in (subst P q h.0, ap (λ r. r.id) (sym q) ∙ ==→eq other.id id same)
  | inr differs ↦ find-All P id pending req h.1 (rw differs at e)
]

All-split :
    (P : PendingRequest → Type 0) (now : Timestamp) (pending : List PendingRequest)
    → All P pending
    → All P (split_expired now pending).0 × All P (split_expired now pending).1
unfolding split_expired
All-split P now [] h = (tt, tt)
All-split P now (req ∷ pending) h =
    let (early, kept) = All-split P now pending h.1 in
    elim (Bool-cases (has_expired now req)) [
      | inl late ↦ rw late ((h.0, early), kept)
      | inr timely ↦ rw timely (early, (h.0, kept))
    ]

expired-IsAnswered :
    (log : List Submission) (expired : List PendingRequest)
    → All (IsTracked log) expired
    → All (IsAnswered log) (invoke_expired expired)
expired-IsAnswered log [] h = tt
expired-IsAnswered log (req ∷ expired) h =
    All-join (IsAnswered log) (invoke req.callback (err timeout_expired)) (invoke_expired expired)
      (late_call req.callback h.0) (expired-IsAnswered log expired h.1)
  where
    late_call :
        (callback : Option ℕ)
        → Mem (req.id, callback) log
        → All (IsAnswered log) (invoke callback (err timeout_expired))
    late_call none m = tt
    late_call (some callback) m = ((refl, req.id, m), tt)

module _ {log : List Submission} {gone : List (Option ℕ)} {calls : List (ℕ × Result Pdu)} where
  -- A request that is accepted is tracked, unless its identifier is in flight.
  emplace-IsSound :
      (req : PendingRequest) (queue : RequestQueue)
      → is_full queue ≡ false
      → IsSound log gone queue calls
      → IsSound
          ((req.id, req.callback) ∷ log)
          (dropped (ok req.id) (holds req.id queue.pending) req.callback ++ gone)
          (record queue { pending = emplace req queue.pending })
          calls
  unfolding insert count
  emplace-IsSound req queue room h = record {
    queue_fits = rw room at (Step-IsWellFormed (Step.inserted req queue) h.queue_fits);
    conserved = λ k. ground (arith, held-emplace k req queue.pending, h.conserved k);
    tracked =
        All-emplace (IsTracked ((req.id, req.callback) ∷ log)) req queue.pending mem-cons_self (
          All-map (IsTracked log) (IsTracked ((req.id, req.callback) ∷ log)) queue.pending
            (λ r m. mem-cons_of_mem (req.id, req.callback) m) h.tracked);
    answered =
        All-map (IsAnswered log) (IsAnswered ((req.id, req.callback) ∷ log)) calls
          (IsAnswered-later (req.id, req.callback) log) h.answered;
  }

count_withdrawn :
    (k : ℕ) (found : Option PendingRequest) (gone : List (Option ℕ))
    → count k (withdrawn found ++ gone) ≡ of_found k found + count k gone
unfolding count
count_withdrawn k none gone = omega arith
count_withdrawn k (some req) gone = refl

module _ {W : Type 0} {log : List Submission} {gone : List (Option ℕ)} where
  sent-IsSound :
      (req : PendingRequest) (p : Pipeline W) (result : Result (Unit {0}))
      → IsSound log gone p.queue p.calls
      → IsSound
          (accepted (sent req p result).0 req.callback ++ log)
          (dropped (sent req p result).0 (holds req.id p.queue.pending) req.callback ++ gone)
          (sent req p result).1.queue
          (sent req p result).1.calls
  unfolding insert
  sent-IsSound req p (ok a) h = elim (Bool-cases (is_full p.queue)) [
    | inl full ↦ rw full h
    | inr room ↦ rw room (emplace-IsSound req p.queue room h)
  ]
  sent-IsSound req p (err e) h = h
  sent-IsSound req p fault h = h

  matched-IsSound :
      (now now' : Timestamp) (pdu : Pdu) (p : Pipeline W) (found : Option PendingRequest)
      → find (correlation_of pdu) p.queue.pending ≡ found
      → IsSound log gone p.queue p.calls
      → let queue = (remove (correlation_of pdu) p.queue).1 in
        let q = matched now now' pdu found (record p { queue = queue }) in
        IsSound log gone q.queue q.calls
  unfolding remove
  matched-IsSound now now' pdu p none e h =
      let id = correlation_of pdu in
      record {
        queue_fits = Step-IsWellFormed (Step.removed id p.queue) h.queue_fits;
        conserved =
            λ k. omega (arith, held-erase k id p.queue.pending, ap (of_found k) e, h.conserved k);
        tracked = All-erase (IsTracked log) id p.queue.pending h.tracked;
        answered = h.answered;
      }
  matched-IsSound now now' pdu p (some req) e h =
      let id = correlation_of pdu in
      let rest = erase id p.queue.pending in
      let expired = (split_expired now' rest).0 in
      let (known, same) = find-All (IsTracked log) id p.queue.pending req h.tracked e in
      let (late, timely) =
        All-split (IsTracked log) now' rest
          (All-erase (IsTracked log) id p.queue.pending h.tracked) in
      unfold complete remove_expired in
      record {
        queue_fits =
            Step-IsWellFormed (Step.timed_out now' (remove id p.queue).1)
              (Step-IsWellFormed (Step.removed id p.queue) h.queue_fits);
        conserved = λ k. omega (
          arith,
          called-append k p.calls (invoke req.callback (ok pdu) ++ invoke_expired expired),
          called-append k (invoke req.callback (ok pdu)) (invoke_expired expired),
          called-invoke k req.callback (ok pdu),
          called-invoke_expired k expired,
          held-split k now' rest,
          held-erase k id p.queue.pending,
          ap (of_found k) e,
          h.conserved k,
        );
        tracked = timely;
        answered =
            All-join (IsAnswered log) p.calls
              (invoke req.callback (ok pdu) ++ invoke_expired expired) h.answered
              (All-join (IsAnswered log) (invoke req.callback (ok pdu)) (invoke_expired expired)
                (answer_call req.callback (subst (λ i. Mem (i, req.callback) log) same known))
                (expired-IsAnswered log expired late));
      }
    where
      answer_call :
          (callback : Option ℕ)
          → Mem (correlation_of pdu, callback) log
          → All (IsAnswered log) (invoke callback (ok pdu))
      answer_call none m = tt
      answer_call (some callback) m = (m, tt)

  parsed-IsSound :
      (now now' : Timestamp) (result : Result Pdu) (p q : Pipeline W)
      → parsed now now' result p ≡ ok q
      → IsSound log gone p.queue p.calls
      → IsSound log gone q.queue q.calls
  unfolding handle_response remove
  parsed-IsSound now now' (ok pdu) p q e h =
      let same : handle_response now now' pdu p ≡ q = cc in
      subst (λ r. IsSound log gone r.queue r.calls) same
        (matched-IsSound now now' pdu p (find (correlation_of pdu) p.queue.pending) refl h)
  parsed-IsSound now now' (err e') p q e h =
      let same : p ≡ q = cc in subst (λ r. IsSound log gone r.queue r.calls) same h
  parsed-IsSound now now' fault p q e h = absurd cc

  polled-IsSound :
      (now now' : Timestamp) (result : Result (List ℕ)) (p q : Pipeline W)
      → polled now now' result p ≡ ok q
      → IsSound log gone p.queue p.calls
      → IsSound log gone q.queue q.calls
  polled-IsSound now now' (ok frame) p q e h =
      parsed-IsSound now now' (Pdu.deserialize frame) p q e h
  polled-IsSound now now' (err e') p q e h =
      let same : p ≡ q = cc in subst (λ r. IsSound log gone r.queue r.calls) same h
  polled-IsSound now now' fault p q e h = absurd cc

  cancelled-IsSound :
      (id : ℕ) (p : Pipeline W)
      → IsSound log gone p.queue p.calls
      → IsSound log (withdrawn (find id p.queue.pending) ++ gone) (cancel id p.queue).1 p.calls
  unfolding cancel
  cancelled-IsSound id p h = record {
    queue_fits = Step-IsWellFormed (Step.cancelled id p.queue) h.queue_fits;
    conserved = λ k. omega (
      arith,
      count_withdrawn k (find id p.queue.pending) gone,
      held-erase k id p.queue.pending,
      h.conserved k,
    );
    tracked = All-erase (IsTracked log) id p.queue.pending h.tracked;
    answered = h.answered;
  }

module _ {W : Type 0} (transport : Transport W) where
  -- Whatever calls of `submit`, `poll` and `cancel` are made on a new pipeline, in whatever order and
  -- over whatever connection: a callback was invoked, is in flight, was withdrawn by `cancel`, or was
  -- dropped under an identifier in flight, each exactly as often as it was accepted in all; an answer
  -- that it was given carries an identifier under which it was accepted, and the only error that it
  -- was given is TimeoutExpired. No two requests in flight have one identifier, and their number is
  -- within the limit.
  pub History-IsSound :
      {log : List Submission} {gone : List (Option ℕ)} {p : Pipeline W}
      → History transport log gone p
      → IsSound log gone p.queue p.calls
  unfolding create count submit
  History-IsSound (History.creates world max_in_flight default_timeout) = record {
    queue_fits = record { distinct = tt; within = λ m. omega arith };
    conserved = λ k. refl;
    tracked = tt;
    answered = tt;
  }
  History-IsSound (History.submits {log} {gone} {p} past now request callback timeout) =
      let req = pending_request now request callback timeout p in
      let (result, world) = transport.send (Pdu.serialize req.request) p.world in
      sent-IsSound req (record p { counter = (p.counter + 1) % 2 ^ 16; world = world }) result
        (History-IsSound past)
  History-IsSound (History.polls {log} {gone} {p} {q} past now now' e) =
      let (received, world) = transport.receive p.world in
      polled-IsSound now now' received (record p { world = world }) q e (History-IsSound past)
  History-IsSound (History.cancels {log} {gone} {p} past id) =
      cancelled-IsSound id p (History-IsSound past)
