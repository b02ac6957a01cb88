-- ===== src/Client/Streamed/Slave.antt =====
-- Server::process_one over the TCP transport: requests are cut from the stream of bytes that arrives,
-- and answers go out as bytes on the same connection.
mod Tests
use modbus_pp.Common.{
  ℕ, zero, suc, ◌≡◌, refl, sym, ap, ◌∙◌, Bool, true, Option, none, some, List, [], ◌∷◌, ◌++◌, map,
  append-nil, append_assoc, length, IsWord16,
}
use modbus_pp.Core.Result.{Result, ◌>>=◌, ◌>>◌, ok}
use modbus_pp.Core.Pdu.{Pdu}
use modbus_pp.Transport.Interface.{Transport}
use modbus_pp.Transport.FrameCodec.{wrap_tcp}
use modbus_pp.Transport.Tcp.{Socket, TcpTransport, receive, send, tcp}
use modbus_pp.Transport.Tcp.Duplex.{IsDuplex, receive_keeps, send_whole}
use modbus_pp.Transport.Tcp.Framing.{tcp_receive-frame}
use modbus_pp.Transport.Tcp.Whole.{wrap_tcp-IsFrame}
use modbus_pp.Client.Server.{Server, handle_pdu, process_one}
use modbus_pp.Client.Served.Exchange.{IsSendable, Accepts, process_one_sent}
use modbus_pp.Client.Served.Run.{Request, frame_of, Answers}

module _ {S W : Type 0} (transport : Transport W) (server : Server S) where
  -- What `handle_request` sends, if it sends anything. The answer of `send` is not looked at.
  abbrev pub reply : Option (List ℕ) → W → W
  reply none w = w
  reply (some frame) w = (transport.send frame w).1

  -- `process_one` with its calls of the transport.
  pub serve_next : S × W → Result (Bool × S × W)
  serve_next (s, w) =
      let (got, w') = transport.receive w in
      do (heard, s', frame) ← process_one server s got; ok (heard, s', reply frame w')

  -- So many calls of `process_one`.
  pub serve_times : ℕ → S × W → Result (S × W)
  serve_times zero p = ok p
  serve_times (suc n) p = do (heard, s', w') ← serve_next p; serve_times n (s', w')

-- Frames on the wire, one behind the other.
pub wire : List (List ℕ) → List ℕ
wire [] = []
wire (frame ∷ frames) = frame ++ wire frames

module _ {S K : Type 0} (server : Server S) (socket : Socket K) (incoming outgoing : K → List ℕ)
    (d : IsDuplex socket incoming outgoing) where
  -- A connected transport, with these bytes to come and those sent.
  At : TcpTransport K → List ℕ → List ℕ → Type 0
  At t to_come sent = (t.connected ≡ true) × (incoming t.os ≡ to_come) × (outgoing t.os ≡ sent)

  received-At :
      (r : Request) (rest sent : List ℕ) (t : TcpTransport K)
      → IsSendable r.pdu
      → At t (frame_of r ++ rest) sent
      → ((receive socket t).0 ≡ ok (frame_of r)) × At (receive socket t).1 rest sent
  unfolding At
  received-At r rest sent t h (c, arrives, was) =
      let (got, still, left) =
        tcp_receive-frame socket incoming d.stream (frame_of r) rest t
          (wrap_tcp-IsFrame r.unit r.pdu r.txn_id h.fits) c arrives in
      (got, (still, left, receive_keeps socket incoming outgoing d t ∙ was))

  sent-At :
      (frame to_come sent : List ℕ) (t : TcpTransport K)
      → At t to_come sent
      → At (send socket frame t).1 to_come (sent ++ frame)
  unfolding At
  sent-At frame to_come sent t (c, arrives, was) =
      let (still, out, kept) = send_whole socket incoming outgoing d frame t c in
      (still, kept ∙ arrives, out ∙ ap (λ zs. zs ++ frame) was)

  serve_next-answer :
      (s : S) (r : Request) {s' : S} {resp : Pdu} (t : TcpTransport K)
      → (receive socket t).0 ≡ ok (frame_of r)
      → Accepts server r.unit
      → IsSendable r.pdu
      → IsWord16 r.txn_id
      → handle_pdu server s r.pdu ≡ ok (s', some resp)
      → serve_next (tcp socket) server (s, t)
        ≡ ok
            (true, s', (send socket (wrap_tcp server.unit_id resp r.txn_id) (receive socket t).1).1)
  unfolding serve_next
  serve_next-answer s r t got a h k e =
      rw (got, process_one_sent server s r.unit r.txn_id r.pdu a h k e) refl

  -- On a connection that holds, a slave answers the requests that stand one behind the other at the
  -- front of what arrives, each of which its handlers answer, in whatever pieces they arrive and the
  -- answers are taken: so many calls of
  -- `process_one` as there are requests send one whole answer to each, in the order of the requests
  -- and under their transaction numbers, leave the bytes behind the requests unread, and leave the
  -- state that the handlers leave one after the other.
  pub serve_times-streamed :
      {s s' : S} {rs : List Request} {frames : List (List ℕ)} (t : TcpTransport K) (rest : List ℕ)
      → Answers server s rs s' frames
      → t.connected ≡ true
      → incoming t.os ≡ wire (map frame_of rs) ++ rest
      → (t' : TcpTransport K) × (serve_times (tcp socket) server (length rs) (s, t) ≡ ok (s', t'))
        × (t'.connected ≡ true)
        × (incoming t'.os ≡ rest)
        × (outgoing t'.os ≡ outgoing t.os ++ wire frames)
  unfolding serve_times wire At
  serve_times-streamed t rest (Answers.answers_none s) c arrives =
      (t, refl, c, arrives, sym (append-nil (outgoing t.os)))
  serve_times-streamed t rest
        (Answers.answers_next {s = s} {r = r} {resp = resp} {rs = rs} {frames = later} a h k e more)
        c arrives =
      let answer = wrap_tcp server.unit_id resp r.txn_id in
      let (got, at) =
        received-At r (wire (map frame_of rs) ++ rest) (outgoing t.os) t h
          (c, arrives ∙ append_assoc (frame_of r) (wire (map frame_of rs)) rest, refl) in
      let t1 = (send socket answer (receive socket t).1).1 in
      let (still, coming, sent) =
        sent-At answer (wire (map frame_of rs) ++ rest) (outgoing t.os) (receive socket t).1 at in
      let (t', runs, up, left, out) = serve_times-streamed t1 rest more still coming in
      (
        t',
        rw (serve_next-answer s r t got a h k e) runs,
        up,
        left,
        out ∙ ap (λ zs. zs ++ wire later) sent ∙ append_assoc (outgoing t.os) answer (wire later),
      )
