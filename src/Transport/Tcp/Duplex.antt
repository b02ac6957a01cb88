-- ===== src/Transport/Tcp/Duplex.antt =====
-- A TCP transport whose connection holds, in both directions: what is read does not touch what was
-- written, and the other way round.
use modbus_pp.Common.{
  ℕ, zero, suc, ◌-◌, ◌≤◌, ◌<◌, ◌≡◌, refl, ap, ◌∙◌, inl, inr, true, List, [], ◌∷◌, ◌++◌, arith,
  if_by_cases, length, drop, length-drop,
}
use modbus_pp.Core.Span.{read_word16}
use modbus_pp.Core.Result.{Result, ok, err, fault}
use modbus_pp.Transport.Posix.{Polled, poll_failed, poll_expired, poll_ready}
use modbus_pp.Transport.Tcp.{
  Socket, TcpTransport, prepend, after_read, read_loop, read_exactly, read_body, read_after_header,
  read_frame, polled, receive, after_write, write_loop, was_sent, send,
}
use modbus_pp.Transport.Tcp.Reading.{IsStream}
use modbus_pp.Transport.Tcp.Writing.{IsSink, Sent, write_loop-Sent}

-- What a connection promises while it holds: a stream in, a sink out that takes something of what it
-- is given, and neither touches the other.
pub record IsDuplex {K : Type 0} (socket : Socket K) (incoming outgoing : K → List ℕ) : Type 0 where
  pub stream : IsStream socket incoming
  pub sink : IsSink socket outgoing
  pub write_pos : (bytes : List ℕ) (k : K) → 0 < length bytes → 0 < (socket.write_some bytes k).0
  pub read_keeps : (n : ℕ) (k : K) → outgoing (socket.read_some n k).1 ≡ outgoing k
  pub poll_keeps : (k : K) → outgoing (socket.poll k).1 ≡ outgoing k
  pub write_keeps : (bytes : List ℕ) (k : K) → incoming (socket.write_some bytes k).1 ≡ incoming k

module _ {K : Type 0} (socket : Socket K) (incoming outgoing : K → List ℕ)
    (d : IsDuplex socket incoming outgoing) where
  prepend_keeps :
      (bytes : List ℕ) (r : Result (List ℕ) × K)
      → outgoing (prepend socket bytes r).1 ≡ outgoing r.1
  prepend_keeps bytes (ok rest, k) = refl
  prepend_keeps bytes (err e, k) = refl
  prepend_keeps bytes (fault, k) = refl

  after_read_keeps :
      (go_on : ℕ → K → Result (List ℕ) × K) (wanted : ℕ) (p : List ℕ × K)
      → ((less : ℕ) (k : K) → outgoing (go_on less k).1 ≡ outgoing k)
      → outgoing (after_read socket go_on wanted p).1 ≡ outgoing p.1
  after_read_keeps go_on wanted ([], k) h = refl
  after_read_keeps go_on wanted (b ∷ bytes, k) h =
      prepend_keeps (b ∷ bytes) (go_on (wanted - length (b ∷ bytes)) k)
      ∙ h (wanted - length (b ∷ bytes)) k

  read_loop_keeps :
      (rounds wanted : ℕ) (k : K) → outgoing (read_loop socket rounds wanted k).1 ≡ outgoing k
  unfolding read_loop
  read_loop_keeps rounds zero k = refl
  read_loop_keeps zero (suc wanted) k = refl
  read_loop_keeps (suc rounds) (suc wanted) k =
      after_read_keeps (read_loop socket rounds) (suc wanted) (socket.read_some (suc wanted) k)
        (read_loop_keeps rounds)
      ∙ d.read_keeps (suc wanted) k

  read_body_keeps :
      (header : List ℕ) (n : Result ℕ) (k : K)
      → outgoing (read_body socket header (n, k)).1 ≡ outgoing k
  read_body_keeps header (ok zero) k = refl
  read_body_keeps header (ok (suc remaining)) k =
      prepend_keeps header (read_exactly socket remaining k) ∙ read_loop_keeps remaining remaining k
  read_body_keeps header (err e) k = refl
  read_body_keeps header fault k = refl

  read_after_header_keeps :
      (p : Result (List ℕ) × K) → outgoing (read_after_header socket p).1 ≡ outgoing p.1
  read_after_header_keeps (ok header, k) = read_body_keeps header (read_word16 header 4) k
  read_after_header_keeps (err e, k) = refl
  read_after_header_keeps (fault, k) = refl

  polled_keeps :
      (t : TcpTransport K) (p : Polled × K) → outgoing (polled socket t p).1.os ≡ outgoing p.1
  unfolding read_frame
  polled_keeps t (poll_failed, k) = refl
  polled_keeps t (poll_expired, k) = refl
  polled_keeps t (poll_ready, k) =
      read_after_header_keeps (read_exactly socket 7 k) ∙ read_loop_keeps 7 7 k

  -- A read writes nothing.
  pub receive_keeps : (t : TcpTransport K) → outgoing (receive socket t).1.os ≡ outgoing t.os
  unfolding receive
  receive_keeps t =
      if_by_cases (λ (x : Result (List ℕ) × TcpTransport K). outgoing x.1.os ≡ outgoing t.os)
        t.connected (λ up. polled_keeps t (socket.poll t.os) ∙ d.poll_keeps t.os) (λ down. refl)

  after_write_keeps :
      (go_on : List ℕ → K → Result (Unit {0}) × K) (bytes : List ℕ) (p : ℕ × K)
      → ((rest : List ℕ) (k : K) → incoming (go_on rest k).1 ≡ incoming k)
      → incoming (after_write socket go_on bytes p).1 ≡ incoming p.1
  after_write_keeps go_on bytes (zero, k) h = refl
  after_write_keeps go_on bytes (suc sent, k) h = h (drop (suc sent) bytes) k

  write_loop_keeps :
      (rounds : ℕ) (bytes : List ℕ) (k : K)
      → incoming (write_loop socket rounds bytes k).1 ≡ incoming k
  unfolding write_loop
  write_loop_keeps rounds [] k = refl
  write_loop_keeps zero (b ∷ bytes) k = refl
  write_loop_keeps (suc rounds) (b ∷ bytes) k =
      after_write_keeps (write_loop socket rounds) (b ∷ bytes) (socket.write_some (b ∷ bytes) k)
        (write_loop_keeps rounds)
      ∙ d.write_keeps (b ∷ bytes) k

  after_write_ok :
      (go_on : List ℕ → K → Result (Unit {0}) × K) (bytes : List ℕ) (p : ℕ × K)
      → ((rest : List ℕ) (k : K) → length rest < length bytes → (go_on rest k).0 ≡ ok tt)
      → 0 < length bytes
      → 0 < p.0
      → (after_write socket go_on bytes p).0 ≡ ok tt
  after_write_ok go_on bytes (zero, k) h some_left pos = absurd (omega arith)
  after_write_ok go_on bytes (suc sent, k) h some_left pos =
      h (drop (suc sent) bytes) k (omega (arith, length-drop (suc sent) bytes))

  write_loop_ok :
      (rounds : ℕ) (bytes : List ℕ) (k : K)
      → length bytes ≤ rounds
      → (write_loop socket rounds bytes k).0 ≡ ok tt
  unfolding write_loop
  write_loop_ok rounds [] k le = refl
  write_loop_ok zero (b ∷ bytes) k le = absurd (omega arith)
  write_loop_ok (suc rounds) (b ∷ bytes) k le =
      after_write_ok (write_loop socket rounds) (b ∷ bytes) (socket.write_some (b ∷ bytes) k)
        (λ rest k' lt. write_loop_ok rounds rest k' (omega arith)) (omega arith)
        (d.write_pos (b ∷ bytes) k (omega arith))

  all_written :
      (r : Result (Unit {0}) × K) (before bytes : List ℕ)
      → r.0 ≡ ok tt
      → Sent outgoing r before bytes
      → outgoing r.1 ≡ before ++ bytes
  unfolding Sent
  all_written r before bytes e (inl (p, q)) = q
  all_written r before bytes e (inr (front, left, p, q, pos, o)) = absurd cc

  -- While the connection holds, a frame is sent whole, behind what was sent before it, and nothing
  -- that has arrived is lost by it.
  pub send_whole :
      (frame : List ℕ) (t : TcpTransport K)
      → t.connected ≡ true
      → ((send socket frame t).1.connected ≡ true)
        × (outgoing (send socket frame t).1.os ≡ outgoing t.os ++ frame)
        × (incoming (send socket frame t).1.os ≡ incoming t.os)
  unfolding send
  send_whole frame t c =
      let n = length frame in
      let done = write_loop_ok n frame t.os (omega arith) in
      let taken =
        all_written (write_loop socket n frame t.os) (outgoing t.os) frame done
          (write_loop-Sent outgoing socket d.sink n frame t.os (omega arith)) in
      rw c (ap (was_sent socket) done, taken, write_loop_keeps n frame t.os)
