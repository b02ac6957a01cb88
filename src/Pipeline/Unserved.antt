-- ===== src/Pipeline/Unserved.antt =====
-- A pipelined request at the library's own slave: `Pipeline::submit` sends the bytes of the unit as
-- they are, and `Server::process_one` takes what arrives for a frame of FrameCodec::wrap_tcp.
mod Tests
use modbus_pp.Common.{
  ℕ, zero, suc, ◌+◌, ◌-◌, ◌%◌, ◌^◌, ◌<◌, ◌≡◌, refl, inl, inr, Bool, true, false, not, ◌&&◌, Option,
  none, List, ◌∷◌, append-nil, arith, leb, ◌==◌, le→leb, Bool-cases, length, take, IsWord16,
  hi_byte, lo_byte, word16, word16_bytes,
}
use modbus_pp.Common.Int.{ℤ}
use modbus_pp.Core.Error.{ErrorCode, invalid_frame}
use modbus_pp.Core.Result.{Result, ◌>>=◌, ok, err}
use modbus_pp.Core.Span.{read, subspan, read_word16}
--@ modbus_pp.Core.Span.Append.{}
use modbus_pp.Core.Timestamp.{Timestamp}
use modbus_pp.Core.Pdu.{
  Pdu, make_standard, make_extended, serialize_extended, serialize, deserialize,
}
use modbus_pp.Core.Pdu.Made.{deserialize-make_standard}
--@ modbus_pp.Transport.Interface.{}
use modbus_pp.Transport.FrameCodec.{unwrap_unit, unwrap_tcp}
use modbus_pp.Transport.Loopback
use modbus_pp.Client.Server.{
  Server, handle_pdu, handle_request, process_unwrapped, process_frame, process_one,
}
use modbus_pp.Client.Served.{Pair, serve, served, idle_pair}
use modbus_pp.Pipeline.RequestQueue.{holds, emplace, is_full, insert}
use modbus_pp.Pipeline.Transactions.{Pipeline, tagged, pending_request, submit, poll}

-- The frame of a pipelined standard request, whose unit has fewer than 256 bytes.
abbrev pipelined : ℕ → List ℕ → List ℕ
pipelined id unit = 0x6E ∷ 1 ∷ 0 ∷ 0 ∷ hi_byte id ∷ lo_byte id ∷ 0x0A ∷ 0 ∷ length unit ∷ unit

serialize-tagged :
    (id fc : ℕ) (bytes : List ℕ)
    → length bytes < 255
    → serialize (tagged id (make_standard fc bytes)) ≡ pipelined id (fc ∷ bytes)
unfolding serialize serialize_extended tagged make_standard make_extended
serialize-tagged id fc bytes h =
    let n : ℕ = suc (length bytes) % 2 ^ 16 in
    let high : hi_byte n ≡ 0 = omega arith in
    let low : lo_byte n ≡ suc (length bytes) = omega arith in rw (high, low, append-nil bytes) refl

-- What `unwrap_tcp` may make of such a frame: an error, or a unit with function code 0.
data IsMisread : Result (ℕ × Pdu × ℕ) → Type 0 where
  refused : (e : ErrorCode) → IsMisread (err e)
  code_zero :
      (unit txn_id : ℕ) (bytes : List ℕ) → IsMisread (ok (unit, make_standard 0 bytes, txn_id))

deserialize-IsMisread :
    (n txn_id : ℕ) (raw : List ℕ)
    → IsMisread (deserialize (take n (0 ∷ raw)) >>= λ pdu. ok (0x0A, pdu, txn_id))
deserialize-IsMisread zero txn_id raw = unfold deserialize in IsMisread.refused invalid_frame
deserialize-IsMisread (suc n) txn_id raw =
    let e : deserialize (0 ∷ take n raw) ≡ ok (make_standard 0 (take n raw)) =
      unfold serialize make_standard in deserialize-make_standard 0 (take n raw) refl in
    rw e (IsMisread.code_zero 0x0A txn_id (take n raw))

body_of :
    (id : ℕ) (unit : List ℕ)
    → 0 < id
    → leb (6 + id) (length (pipelined id unit)) ≡ true
    → unwrap_unit (pipelined id unit) id ≡ deserialize (take (id - 1) (0 ∷ length unit ∷ unit))
unfolding subspan
body_of zero unit positive enough = absurd (omega arith)
body_of (suc n) unit positive enough =
    let inside : leb (7 + n) (length (pipelined (suc n) unit)) ≡ true = ground arith in
    let less : suc n - 1 ≡ n = omega arith in rw (inside, less) refl

unwrap_tcp-IsMisread :
    (id : ℕ) (unit : List ℕ) → 0 < id → IsWord16 id → IsMisread (unwrap_tcp (pipelined id unit))
unfolding unwrap_tcp read_word16 read
unwrap_tcp-IsMisread id unit positive h =
    let frame = pipelined id unit in
    let len : word16 (hi_byte id) (lo_byte id) ≡ id = word16_bytes id h in
    let long : leb 8 (length frame) ≡ true = le→leb _ _ (omega arith) in
    elim (Bool-cases (leb (6 + id) (length frame))) [
      | inl enough ↦
          let body = body_of id unit positive enough in
          rw (long, len, enough, body)
            (deserialize-IsMisread (id - 1) (word16 0x6E 1) (length unit ∷ unit))
      | inr short ↦ rw (long, len, short) (IsMisread.refused invalid_frame)
    ]

module _ {S : Type 0} (server : Server S) where
  -- A unit with function code 0 reaches no handler.
  handle_request_code_zero :
      (s : S) (bytes : List ℕ) (txn_id : ℕ)
      → handle_request server s (make_standard 0 bytes) txn_id ≡ ok (s, none)
  unfolding handle_request handle_pdu make_standard
  handle_request_code_zero s bytes txn_id = ground arith

  process_unwrapped-IsMisread :
      (s : S) (r : Result (ℕ × Pdu × ℕ))
      → IsMisread r
      → (b : Bool) × (process_unwrapped server s r ≡ ok (b, s, none))
  process_unwrapped-IsMisread s r (refused e) = (false, refl)
  process_unwrapped-IsMisread s r (code_zero unit txn_id bytes) =
      elim (Bool-cases (not (unit == server.unit_id) && not (unit == 0))) [
        | inl other ↦ (false, rw other refl)
        | inr ours ↦ (true, rw (ours, handle_request_code_zero s bytes txn_id) refl)
      ]

  process_one_pipelined :
      (s : S) (id fc : ℕ) (bytes : List ℕ)
      → 0 < id
      → IsWord16 id
      → length bytes < 255
      → (b : Bool) × (process_one server s (ok (serialize (tagged id (make_standard fc bytes))))
          ≡ ok (b, s, none))
  unfolding process_one process_frame
  process_one_pipelined s id fc bytes positive h small = rw (serialize-tagged id fc bytes small) (
      process_unwrapped-IsMisread s (unwrap_tcp (pipelined id (fc ∷ bytes)))
        (unwrap_tcp-IsMisread id (fc ∷ bytes) positive h))

  -- A standard request of fewer than 255 bytes of data that a pipeline submits, under an identifier of
  -- 16 bits other than 0 that is not in flight, in a queue that is not full, over an idle in-process
  -- connection to a slave of the library, is accepted, and then lost: the poll that follows finds the
  -- slave to have taken the frame without calling a handler or answering, whatever handlers and unit
  -- number it has. This request joins those in flight and stays there, and no callback is invoked.
  pub poll-submit_unserved :
      (s : S) (p : Pipeline (Pair S)) (now now' now'' : Timestamp) (fc : ℕ) (bytes : List ℕ)
      (callback : Option ℕ) (timeout : ℤ)
      → p.world ≡ idle_pair s
      → is_full p.queue ≡ false
      → holds p.counter p.queue.pending ≡ false
      → 0 < p.counter
      → IsWord16 p.counter
      → length bytes < 255
      → let (result, p') = submit (served server) now (make_standard fc bytes) callback timeout p in
        (result ≡ ok p.counter)
        × (p'.queue.pending
            ≡ pending_request now (make_standard fc bytes) callback timeout p ∷ p.queue.pending)
        × (poll (served server) now' now'' p' ≡ ok (record p' { world = idle_pair s }))
        × (p'.calls ≡ p.calls)
  unfolding submit insert emplace serve Loopback.send Loopback.receive
  poll-submit_unserved s p now now' now'' fc bytes callback timeout idle room fresh positive h
        small =
      let (b, taken) = process_one_pipelined s p.counter fc bytes positive h small in
      rw (idle, room, taken, fresh) (refl, refl, refl, refl)
