-- ===== src/Transport/Tcp/Writing.antt =====
-- TCPTransport::send over a socket that takes a frame in whatever pieces it likes.
use modbus_pp.Common.{
  ℕ, zero, suc, ◌≤◌, ◌<◌, ◌≡◌, refl, sym, ap, subst, ◌∙◌, ◌⊎◌, inl, inr, true, List, [], ◌∷◌, ◌++◌,
  append-nil, append_assoc, arith, length, take, drop, take-drop, length-drop,
}
use modbus_pp.Core.Error.{transport_disconnected}
use modbus_pp.Core.Result.{Result, ok, err}
use modbus_pp.Transport.Tcp.{Socket, TcpTransport, after_write, write_loop, was_sent, send}

-- What a socket promises: `outgoing` is what it has taken so far. A write takes a front of what it
-- is given, which may be nothing.
pub record IsSink {K : Type 0} (socket : Socket K) (outgoing : K → List ℕ) : Type 0 where
  pub write_le : (bytes : List ℕ) (k : K) → (socket.write_some bytes k).0 ≤ length bytes
  pub write_front :
      (bytes : List ℕ) (k : K)
      → outgoing (socket.write_some bytes k).1
        ≡ outgoing k ++ take (socket.write_some bytes k).0 bytes

module _ {K : Type 0} (outgoing : K → List ℕ) where
  -- The two ways to end: all bytes were taken, or the connection broke behind a front of them that
  -- is not all.
  unfoldable pub Sent : Result (Unit {0}) × K → List ℕ → List ℕ → Type 0
  Sent r before bytes =
      ((r.0 ≡ ok tt) × (outgoing r.1 ≡ before ++ bytes))
      ⊎ ((front : List ℕ) × (left : List ℕ) × (r.0 ≡ err transport_disconnected)
          × (bytes ≡ front ++ left)
          × (0 < length left)
          × (outgoing r.1 ≡ before ++ front))

  Sent-behind :
      (r : Result (Unit {0}) × K) (before first rest : List ℕ)
      → Sent r (before ++ first) rest
      → Sent r before (first ++ rest)
  unfolding Sent
  Sent-behind r before first rest (inl (p, q)) = inl (p, q ∙ append_assoc before first rest)
  Sent-behind r before first rest (inr (front, left, p, q, pos, s)) = inr (
    first ++ front,
    left,
    p,
    ap (λ zs. first ++ zs) q ∙ sym (append_assoc first front left),
    pos,
    s ∙ append_assoc before first front,
  )

  module _ (socket : Socket K) (h : IsSink socket outgoing) where
    after_write-Sent :
        (go_on : List ℕ → K → Result (Unit {0}) × K) (bytes before : List ℕ) (p : ℕ × K)
        → ((rest : List ℕ) (k : K)
            → length rest < length bytes
            → Sent (go_on rest k) (outgoing k) rest)
        → 0 < length bytes
        → outgoing p.1 ≡ before ++ take p.0 bytes
        → Sent (after_write socket go_on bytes p) before bytes
    unfolding Sent
    after_write-Sent go_on bytes before (zero, k) f pos e = inr ([], bytes, refl, refl, pos, e)
    after_write-Sent go_on bytes before (suc n, k) f pos e =
        let rest = drop (suc n) bytes in
        let step : Sent (go_on rest k) (before ++ take (suc n) bytes) rest =
          subst (λ zs. Sent (go_on rest k) zs rest) e
            (f rest k (omega (arith, length-drop (suc n) bytes))) in
        subst (λ zs. Sent (go_on rest k) before zs) (take-drop (suc n) bytes)
          (Sent-behind (go_on rest k) before (take (suc n) bytes) rest step)

    pub write_loop-Sent :
        (rounds : ℕ) (bytes : List ℕ) (k : K)
        → length bytes ≤ rounds
        → Sent (write_loop socket rounds bytes k) (outgoing k) bytes
    unfolding write_loop
    write_loop-Sent rounds [] k le = unfold Sent in inl (refl, sym (append-nil (outgoing k)))
    write_loop-Sent zero (b ∷ bytes) k le = absurd (omega arith)
    write_loop-Sent (suc rounds) (b ∷ bytes) k le =
        after_write-Sent (write_loop socket rounds) (b ∷ bytes) (outgoing k)
          (socket.write_some (b ∷ bytes) k)
          (λ rest k' lt. write_loop-Sent rounds rest k' (omega arith)) (omega arith)
          (h.write_front (b ∷ bytes) k)

    -- On a connected transport `send` ends, and either answers success with every byte taken, in
    -- order and once, or breaks off with TransportDisconnected behind a front that is not all; the
    -- transport counts as connected afterwards exactly in the first case.
    pub tcp_send-Sent :
        (frame : List ℕ) (t : TcpTransport K)
        → t.connected ≡ true
        → Sent ((send socket frame t).0, (send socket frame t).1.os) (outgoing t.os) frame
          × ((send socket frame t).1.connected ≡ was_sent socket (send socket frame t).0)
    unfolding send
    tcp_send-Sent frame t c = rw c (write_loop-Sent (length frame) frame t.os (omega arith), refl)
