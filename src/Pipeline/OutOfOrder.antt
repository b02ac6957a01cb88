-- ===== src/Pipeline/OutOfOrder.antt =====
-- Answers to the requests of a pipeline in any order: as many calls of Pipeline::poll as there are
-- answers.
pub mod Ids
mod Tests
use mathlib.Core.List.{Perm, mem-cons_self}
use mathlib.Core.List.Perm
use modbus_pp.Common.{
  ℕ, zero, suc, ◌≡◌, refl, sym, ap, ap₂, subst, ◌∙◌, false, Option, none, some, List, [], ◌∷◌, ◌++◌,
  map, append-nil, append_assoc, length, All,
}
use modbus_pp.Core.Result.{Result, ◌>>=◌, ok}
use modbus_pp.Core.Timestamp.{Timestamp}
use modbus_pp.Core.Pdu.{Pdu}
use modbus_pp.Core.Pdu
use modbus_pp.Transport.Interface.{Transport}
use modbus_pp.Pipeline.RequestQueue.{
  PendingRequest, find, erase, remove, has_expired, remove_expired,
}
use modbus_pp.Pipeline.RequestQueue.Keys.{HasDistinctIds, erase-HasDistinctIds}
--@ modbus_pp.Pipeline.RequestQueue.Contents.{}
use modbus_pp.Pipeline.Transactions.{
  Pipeline, invoke, correlation_of, complete, matched, handle_response, poll,
}
use modbus_pp.Pipeline.OutOfOrder.Ids.{
  ids, mem-holds, ids-erase, split_none, called_back, answered_calls, answered_calls-erase,
  all_held, no_ids,
}
use modbus_pp.Pipeline.History.Sound.{All-erase}

module _ {W : Type 0} where
  -- One answer to a request in flight, while none has expired.
  record IsHandled (answer : Pdu) (p q : Pipeline W) : Type 0 where
    world_kept : q.world ≡ p.world
    pending_left : q.queue.pending ≡ erase (correlation_of answer) p.queue.pending
    called : q.calls ≡ p.calls ++ called_back (find (correlation_of answer) p.queue.pending) answer

  matched-IsHandled :
      (now now' : Timestamp) (answer : Pdu) (p : Pipeline W) (found : Option PendingRequest)
      → find (correlation_of answer) p.queue.pending ≡ found
      → All (λ req. has_expired now' req ≡ false) p.queue.pending
      → let queue = (remove (correlation_of answer) p.queue).1 in
        IsHandled answer p (matched now now' answer found (record p { queue = queue }))
  unfolding remove complete remove_expired
  matched-IsHandled now now' answer p none e h = record {
    world_kept = refl;
    pending_left = refl;
    called = rw e (sym (append-nil p.calls));
  }
  matched-IsHandled now now' answer p (some req) e h =
      let id = correlation_of answer in
      let rest = erase id p.queue.pending in
      let none_late =
        split_none now' rest (All-erase (λ r. has_expired now' r ≡ false) id p.queue.pending h) in
      record {
        world_kept = refl;
        pending_left = ap (λ x. x.1) none_late;
        called = rw (e, none_late, append-nil (invoke req.callback (ok answer))) refl;
      }

  handle_response-IsHandled :
      (now now' : Timestamp) (answer : Pdu) (p : Pipeline W)
      → All (λ req. has_expired now' req ≡ false) p.queue.pending
      → IsHandled answer p (handle_response now now' answer p)
  unfolding handle_response remove
  handle_response-IsHandled now now' answer p h =
      matched-IsHandled now now' answer p (find (correlation_of answer) p.queue.pending) refl h

module _ {W : Type 0} (transport : Transport W) where
  -- What arrives: frames that are read as these answers, one after the other.
  pub data Delivers : W → List Pdu → W → Type 0 where
    nothing_more : (w : W) → Delivers w [] w
    one_more :
        {w w' w'' : W} {frame : List ℕ} {answer : Pdu} {answers : List Pdu}
        → transport.receive w ≡ (ok frame, w')
        → Pdu.deserialize frame ≡ ok answer
        → Delivers w' answers w''
        → Delivers w (answer ∷ answers) w''

  -- So many calls of `poll`. The clock is read twice in each, at most.
  pub poll_times : (ℕ → Timestamp × Timestamp) → ℕ → ℕ → Pipeline W → Result (Pipeline W)
  poll_times clock n zero p = ok p
  poll_times clock n (suc count) p = do
    p' ← poll transport (clock n).0 (clock n).1 p
    poll_times clock (suc n) count p'

  poll_delivered :
      (now now' : Timestamp) (p : Pipeline W) {w : W} {frame : List ℕ} {answer : Pdu}
      → transport.receive p.world ≡ (ok frame, w)
      → Pdu.deserialize frame ≡ ok answer
      → poll transport now now' p ≡ ok (handle_response now now' answer (record p { world = w }))
  poll_delivered now now' p arrives reads = rw (arrives, reads) refl

  Answered : (ℕ → Timestamp × Timestamp) → ℕ → Pipeline W → List Pdu → W → Type 0
  Answered clock n p answers w =
      (q : Pipeline W) × (poll_times clock n (length answers) p ≡ ok q)
      × (q.queue.pending ≡ [])
      × (q.calls ≡ p.calls ++ answered_calls p.queue.pending answers)
      × (q.world ≡ w)

  answer_each :
      (clock : ℕ → Timestamp × Timestamp) (n : ℕ) (p : Pipeline W) (answers : List Pdu) (w0 w : W)
      → p.world ≡ w0
      → Delivers w0 answers w
      → HasDistinctIds p.queue.pending
      → Perm (map correlation_of answers) (ids p.queue.pending)
      → ((k : ℕ) → All (λ req. has_expired (clock k).1 req ≡ false) p.queue.pending)
      → Answered clock n p answers w
  unfolding poll_times Answered
  answer_each clock n p answers w0 w at_start (nothing_more x) distinct perm timely =
      (p, refl, no_ids p.queue.pending (Perm.nil-eq perm), sym (append-nil p.calls), at_start)
  answer_each clock n p (answer ∷ answers) w0 w at_start (one_more {w' = w'} arrives reads more)
        distinct perm timely =
      let id = correlation_of answer in
      let (now, now') = clock n in
      let p' = handle_response now now' answer (record p { world = w' }) in
      let reached = poll_delivered now now' p (ap transport.receive at_start ∙ arrives) reads in
      let h = handle_response-IsHandled now now' answer (record p { world = w' }) (timely n) in
      let held = mem-holds id p.queue.pending ((Perm.mem_iff perm).0 mem-cons_self) in
      let rest : Perm (map correlation_of answers) (ids (erase id p.queue.pending)) =
        Perm.cons_inv (Perm.trans perm (ids-erase id p.queue.pending held)) in
      let back = sym h.pending_left in
      let (q, runs, empty, called, ends) =
        answer_each clock (suc n) p' answers w' w h.world_kept more
          (subst HasDistinctIds back (erase-HasDistinctIds id p.queue.pending distinct))
          (subst (λ l. Perm (map correlation_of answers) (ids l)) back rest)
          (λ k. subst (All (λ req. has_expired (clock k).1 req ≡ false)) back (
            All-erase (λ req. has_expired (clock k).1 req ≡ false) id p.queue.pending
              (timely k))) in
      let others =
        ap (λ l. answered_calls l answers) h.pending_left
        ∙ answered_calls-erase id p.queue.pending answers distinct (
            all_held (erase id p.queue.pending) answers
              (λ x m. mem-holds x (erase id p.queue.pending) ((Perm.mem_iff rest).0 m))) in
      (
        q,
        ap (λ r. r >>= λ x. poll_times clock (suc n) (length answers) x) reached ∙ runs,
        empty,
        called
            ∙ ap₂ ◌++◌ h.called others
            ∙ append_assoc p.calls (called_back (find id p.queue.pending) answer)
                (answered_calls p.queue.pending answers),
        ends,
      )

  -- Answers to all requests in flight that arrive one after the other, in whatever order, before any
  -- request has expired: as many calls of `poll` as answers leave no request in flight, and invoke for
  -- each answer, in the order of arrival, the callback of the request that has its identifier.
  pub poll_times-answered :
      (clock : ℕ → Timestamp × Timestamp) (n : ℕ) (p : Pipeline W) (answers : List Pdu) (w : W)
      → Delivers p.world answers w
      → HasDistinctIds p.queue.pending
      → Perm (map correlation_of answers) (ids p.queue.pending)
      → ((k : ℕ) → All (λ req. has_expired (clock k).1 req ≡ false) p.queue.pending)
      → (q : Pipeline W) × (poll_times clock n (length answers) p ≡ ok q)
        × (q.queue.pending ≡ [])
        × (q.calls ≡ p.calls ++ answered_calls p.queue.pending answers)
        × (q.world ≡ w)
  unfolding Answered
  poll_times-answered clock n p answers w d distinct perm timely =
      answer_each clock n p answers p.world w refl d distinct perm timely
