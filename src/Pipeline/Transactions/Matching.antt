-- ===== src/Pipeline/Transactions/Matching.antt =====
-- Requests and their answers: Pipeline::submit and Pipeline::poll.
use modbus_pp.Common.{
  ℕ, suc, ◌+◌, ◌%◌, ◌^◌, ◌<◌, ◌≡◌, refl, sym, ap, ◌∙◌, true, false, Option, none, List, [], ◌∷◌,
  ◌++◌, append-nil, arith, ◌==◌, eq→==, length, IsWord16,
}
use modbus_pp.Common.Int.{ℤ}
use modbus_pp.Core.Error.{pipeline_overflow}
use modbus_pp.Core.Result.{ok, err}
use modbus_pp.Core.FunctionCodes
use modbus_pp.Core.Timestamp.{Timestamp}
use modbus_pp.Core.Pdu.{
  FrameHeader, default_header, Pdu, make_standard, make_extended, is_extended_code, serialize,
  deserialize,
}
use modbus_pp.Core.Pdu.Made.{IsUsable, deserialize-make_extended, deserialize-make_standard}
use modbus_pp.Transport.Interface.{Transport}
use modbus_pp.Pipeline.RequestQueue.{
  PendingRequest, holds, emplace, is_full, insert, find, erase, remove, remove_expired,
}
use modbus_pp.Pipeline.Transactions.{
  Pipeline, tagged, invoke, invoke_expired, correlation_of, submit, complete, handle_response,
}

-- The unit that is sent for a standard request, under a code that is not an extended one and with
-- fewer than 65535 bytes of data, is read back as it was; it carries its 16-bit identifier, and its
-- payload is read back as the request.
pub tagged-read_back :
    (corr_id fc : ℕ) (bytes : List ℕ)
    → IsWord16 corr_id
    → is_extended_code fc ≡ false
    → length bytes + 1 < 2 ^ 16
    → let pdu = tagged corr_id (make_standard fc bytes) in
      (deserialize (serialize pdu) ≡ ok pdu)
      × (correlation_of pdu ≡ corr_id)
      × (deserialize pdu.payload ≡ ok (make_standard fc bytes))
unfolding tagged make_standard
tagged-read_back corr_id fc bytes h k l = (whole, carried, inner)
  where
    hdr : FrameHeader
    hdr = record default_header {
      correlation_id = corr_id;
      ext_function_code = FunctionCodes.pipeline_begin;
    }

    request_bytes : List ℕ
    request_bytes = serialize (make_standard fc bytes)

    size : length request_bytes ≡ suc (length bytes)
    size = unfold serialize in refl

    usable : IsUsable hdr request_bytes none
    usable = record {
      version_one = refl;
      flags_fit = omega arith;
      correlation_fits = h;
      payload_fits = omega (arith, size);
      timestamp_valid = tt;
      digest_valid = tt;
      no_stray_timestamp = λ q. refl;
      no_stray_hmac = λ q. refl;
    }

    whole :
        deserialize (serialize (make_extended hdr request_bytes none))
        ≡ ok (make_extended hdr request_bytes none)
    whole =
        ap deserialize (sym (append-nil (serialize (make_extended hdr request_bytes none))))
        ∙ deserialize-make_extended hdr request_bytes none [] usable

    carried : correlation_of (make_extended hdr request_bytes none) ≡ corr_id
    carried = unfold make_extended in refl

    inner :
        deserialize ((make_extended hdr request_bytes none).payload) ≡ ok (make_standard fc bytes)
    inner = unfold make_extended in deserialize-make_standard fc bytes k

module _ {W : Type 0} (transport : Transport W) where
  -- A request that is sent over a connection that accepts it, under an identifier that is not in
  -- flight, while the queue has room, is answered with its identifier. An answer that carries this
  -- identifier invokes the request's callback once, with that answer, before the callbacks of the
  -- requests that have expired meanwhile, and the request leaves the queue.
  pub submit-answered :
      (p : Pipeline W) (now now' now'' : Timestamp) (request answer : Pdu) (callback : Option ℕ)
      (timeout : ℤ) (w : W)
      → transport.send (serialize (tagged p.counter request)) p.world ≡ (ok tt, w)
      → is_full p.queue ≡ false
      → holds p.counter p.queue.pending ≡ false
      → correlation_of answer ≡ p.counter
      → let (result, p') = submit transport now request callback timeout p in
        let q = handle_response now' now'' answer p' in
        let (expired, queue) = remove_expired now'' p.queue in
        (result ≡ ok p.counter)
        × (q.queue ≡ queue)
        × (q.calls ≡ p.calls ++ (invoke callback (ok answer) ++ invoke_expired expired))
        × (q.total_completed ≡ (p.total_completed + 1) % 2 ^ 64)
  unfolding submit handle_response complete insert emplace remove find erase
  submit-answered p now now' now'' request answer callback timeout w sends room fresh same =
      let self : (p.counter == p.counter) ≡ true = eq→== _ _ refl in
      rw (sends, same, room, fresh, self) (refl, refl, refl, refl)

  -- Over a connection that accepts the frame, a full queue refuses a request after its frame was
  -- sent: the connection is as the send left it, and the queue as it was.
  pub submit_overflow :
      (p : Pipeline W) (now : Timestamp) (request : Pdu) (callback : Option ℕ) (timeout : ℤ) (w : W)
      → transport.send (serialize (tagged p.counter request)) p.world ≡ (ok tt, w)
      → is_full p.queue ≡ true
      → let (result, p') = submit transport now request callback timeout p in
        (result ≡ err pipeline_overflow) × (p'.world ≡ w) × (p'.queue ≡ p.queue)
  unfolding submit insert
  submit_overflow p now request callback timeout w sends full = rw (sends, full) (refl, refl, refl)

  -- Over a connection that accepts the frame, under an identifier that is in flight in a queue with
  -- room, a request is answered with that identifier but not tracked: the queue and the calls are
  -- as they were.
  pub submit_duplicate :
      (p : Pipeline W) (now : Timestamp) (request : Pdu) (callback : Option ℕ) (timeout : ℤ) (w : W)
      → transport.send (serialize (tagged p.counter request)) p.world ≡ (ok tt, w)
      → is_full p.queue ≡ false
      → holds p.counter p.queue.pending ≡ true
      → let (result, p') = submit transport now request callback timeout p in
        (result ≡ ok p.counter) × (p'.queue ≡ p.queue) × (p'.calls ≡ p.calls)
  unfolding submit insert emplace
  submit_duplicate p now request callback timeout w sends room known =
      rw (sends, room, known) (refl, refl, refl)

find-absent :
    (id : ℕ) (pending : List PendingRequest)
    → holds id pending ≡ false
    → (find id pending ≡ none) × (erase id pending ≡ pending)
unfolding find erase
find-absent id [] h = (refl, refl)
find-absent id (req ∷ pending) h =
    let other : (req.id == id) ≡ false = ground arith in
    let (missing, kept) = find-absent id pending (ground arith) in
    rw other (missing, ap (◌∷◌ req) kept)

-- An answer under an identifier that is not in flight changes nothing: no callback is invoked, and
-- no request times out.
pub handle_response-unmatched :
    {W : Type 0} (p : Pipeline W) (now now' : Timestamp) (pdu : Pdu)
    → holds (correlation_of pdu) p.queue.pending ≡ false
    → handle_response now now' pdu p ≡ p
unfolding handle_response remove
handle_response-unmatched p now now' pdu h =
    let (missing, kept) = find-absent (correlation_of pdu) p.queue.pending h in
    rw (missing, kept) refl
