-- ===== src/Client/Served/Run.antt =====
-- Server::run over the in-process transport: turn after turn, one message and one scan of the
-- publisher, until `stop` is called. A count of turns stands for the time until then.
use modbus_pp.Common.{
  ℕ, zero, suc, ◌≡◌, refl, sym, ap, ◌∙◌, some, List, [], ◌∷◌, ◌++◌, map, append-nil, append_assoc,
  length, IsWord16,
}
use modbus_pp.Core.Result.{Result, ◌>>=◌, ok}
use modbus_pp.Core.Pdu.{Pdu}
use modbus_pp.Transport.Loopback
use modbus_pp.Transport.FrameCodec.{wrap_tcp}
use modbus_pp.Client.Server.{Server, handle_pdu}
use modbus_pp.Client.Served.{Pair, serve, idle_pair}
use modbus_pp.Client.Served.Exchange.{IsSendable, Accepts, process_one_sent}

-- One request under way to the slave.
pub record Request : Type 0 where
  pub unit : ℕ
  pub txn_id : ℕ
  pub pdu : Pdu

abbrev pub frame_of : Request → List ℕ
frame_of r = wrap_tcp r.unit r.pdu r.txn_id

module _ {S : Type 0} (server : Server S) where
  -- `while (running_) { process_one(); publisher_.scan_and_notify(); }`
  unfoldable pub run : (Pair S → Pair S) → ℕ → Pair S → Result (Pair S)
  run scan zero p = ok p
  run scan (suc turns) p = do p' ← serve server p; run scan turns (scan p')

  -- From the state `s` the handlers answer these requests, one after the other, with these frames,
  -- and leave the state `s'`.
  pub data Answers : S → List Request → S → List (List ℕ) → Type 0 where
    answers_none : (s : S) → Answers s [] s []
    answers_next :
        {s s' s'' : S} {r : Request} {resp : Pdu} {rs : List Request} {frames : List (List ℕ)}
        → Accepts server r.unit
        → IsSendable r.pdu
        → IsWord16 r.txn_id
        → handle_pdu server s r.pdu ≡ ok (s', some resp)
        → Answers s' rs s'' frames
        → Answers s (r ∷ rs) s'' (wrap_tcp server.unit_id resp r.txn_id ∷ frames)

  -- The pair with messages under way.
  abbrev pub busy_pair : S → List (List ℕ) → List (List ℕ) → Pair S
  busy_pair s to_slave to_master = record (idle_pair s) {
    to_slave = to_slave;
    to_master = to_master;
  }

  serve-busy :
      (s : S) (r : Request) {s' : S} {resp : Pdu} (others before : List (List ℕ))
      → Accepts server r.unit
      → IsSendable r.pdu
      → IsWord16 r.txn_id
      → handle_pdu server s r.pdu ≡ ok (s', some resp)
      → serve server (busy_pair s (frame_of r ∷ others) before)
        ≡ ok (busy_pair s' others (before ++ (wrap_tcp server.unit_id resp r.txn_id ∷ [])))
  unfolding serve Loopback.send Loopback.receive
  serve-busy s r others before a h k e =
      rw (process_one_sent server s r.unit r.txn_id r.pdu a h k e) refl

  -- A slave whose publisher has nothing to scan serves the requests that are under way, each of which
  -- its handlers answer, as many turns as requests: the answers follow what was under way to the master, one per request and in the
  -- order of the requests, each under the transaction number of its request, and the state is the one
  -- that the handlers leave one after the other.
  pub run-Answers :
      {s s' : S} {rs : List Request} {frames : List (List ℕ)} (before : List (List ℕ))
      → Answers s rs s' frames
      → run (λ p. p) (length rs) (busy_pair s (map frame_of rs) before)
        ≡ ok (busy_pair s' [] (before ++ frames))
  unfolding run
  run-Answers before (answers_none s) = ap (λ ms. ok (busy_pair s [] ms)) (sym (append-nil before))
  run-Answers {s} {s'} {rs} {frames} before
        (answers_next {r = r} {resp = resp} {rs = rest} {frames = later} a h k e more) =
      let reply = wrap_tcp server.unit_id resp r.txn_id in
      rw (serve-busy s r (map frame_of rest) before a h k e) (
        run-Answers (before ++ (reply ∷ [])) more
        ∙ ap (λ ms. ok (busy_pair s' [] ms)) (append_assoc before (reply ∷ []) later))
