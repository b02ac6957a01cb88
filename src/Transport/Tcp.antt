-- ===== src/Transport/Tcp.antt =====
-- src/transport/tcp_transport.cpp: the TCP transport over the calls of POSIX sockets. `K` is the
-- state of the operating system, and the calls are parameters. `fault` stands for a loop that has
-- not ended after as many rounds as there are bytes to move.
pub mod Reading
pub mod Writing
pub mod Duplex
pub mod OneByte
pub mod Framing
pub mod Whole
pub mod Descriptors
pub mod Balance
mod Tests
use modbus_pp.Transport.Posix.{Polled, poll_failed, poll_expired, poll_ready}
use modbus_pp.Common.{
  ℕ, zero, suc, ◌-◌, Bool, true, false, Option, List, [], ◌∷◌, ◌++◌, ◌==◌, if◌then◌else◌, length,
  drop,
}
use modbus_pp.Core.Error.{transport_disconnected, timeout_expired, invalid_frame}
use modbus_pp.Core.Result.{Result, ok, err, fault}
use modbus_pp.Core.Span.{read_word16}
use modbus_pp.Transport.Interface.{Transport}

-- `read` of at most so many bytes answers the bytes, and none for an error or the end of the stream.
-- `write` answers how many bytes it took, and 0 for an error.
pub record Socket (K : Type 0) : Type 0 where
  pub poll : K → Polled × K
  pub read_some : ℕ → K → List ℕ × K
  pub write_some : List ℕ → K → ℕ × K

pub record TcpTransport (K : Type 0) : Type 0 where
  pub os : K
  pub socket_fd : Option ℕ
  pub connected : Bool

module _ {K : Type 0} (socket : Socket K) where
  abbrev pub prepend : List ℕ → Result (List ℕ) × K → Result (List ℕ) × K
  prepend bytes (ok rest, k) = (ok (bytes ++ rest), k)
  prepend bytes (err e, k) = (err e, k)
  prepend bytes (fault, k) = (fault, k)

  -- After one `read`: the loop fails on `n <= 0`, and goes on with what is still wanted.
  abbrev pub after_read : (ℕ → K → Result (List ℕ) × K) → ℕ → List ℕ × K → Result (List ℕ) × K
  after_read go_on wanted ([], k) = (err transport_disconnected, k)
  after_read go_on wanted (b ∷ bytes, k) =
      prepend (b ∷ bytes) (go_on (wanted - length (b ∷ bytes)) k)

  -- `while (done < wanted) { n = read(...); if (n <= 0) fail; done += n; }`, with the bytes that are
  -- still wanted.
  pub read_loop : ℕ → ℕ → K → Result (List ℕ) × K
  read_loop rounds zero k = (ok [], k)
  read_loop zero (suc wanted) k = (fault, k)
  read_loop (suc rounds) (suc wanted) k =
      after_read (read_loop rounds) (suc wanted) (socket.read_some (suc wanted) k)

  abbrev pub read_exactly : ℕ → K → Result (List ℕ) × K
  read_exactly wanted k = read_loop wanted wanted k

  -- Behind the header: the rest of the frame.
  abbrev pub read_body : List ℕ → Result ℕ × K → Result (List ℕ) × K
  read_body header (ok zero, k) = (err invalid_frame, k)
  read_body header (ok (suc remaining), k) = prepend header (read_exactly remaining k)
  read_body header (err e, k) = (err e, k)
  read_body header (fault, k) = (fault, k)

  abbrev pub read_after_header : Result (List ℕ) × K → Result (List ℕ) × K
  read_after_header (ok header, k) = read_body header (read_word16 header 4, k)
  read_after_header (err e, k) = (err e, k)
  read_after_header (fault, k) = (fault, k)

  pub read_frame : K → Result (List ℕ) × K
  read_frame k = read_after_header (read_exactly 7 k)

  -- `connected_ = false` goes with every error of `read`, and not with an invalid length.
  abbrev stays_connected : Result (List ℕ) → Bool
  stays_connected (ok frame) = true
  stays_connected (err e) = e == invalid_frame
  stays_connected fault = true

  abbrev pub polled : TcpTransport K → Polled × K → Result (List ℕ) × TcpTransport K
  polled t (poll_failed, k) = (err transport_disconnected, record t { os = k; connected = false })
  polled t (poll_expired, k) = (err timeout_expired, record t { os = k })
  polled t (poll_ready, k) =
      let (frame, k') = read_frame k in
      (frame, record t { os = k'; connected = stays_connected frame })

  unfoldable pub receive : TcpTransport K → Result (List ℕ) × TcpTransport K
  receive t = if t.connected then polled t (socket.poll t.os) else (err transport_disconnected, t)

  -- After one `write`: the loop fails on `sent <= 0`, and goes on with the bytes behind.
  abbrev pub after_write :
      (List ℕ → K → Result (Unit {0}) × K) → List ℕ → ℕ × K → Result (Unit {0}) × K
  after_write go_on bytes (zero, k) = (err transport_disconnected, k)
  after_write go_on bytes (suc sent, k) = go_on (drop (suc sent) bytes) k

  -- `while (total_sent < frame.size()) { sent = write(...); if (sent <= 0) fail; total_sent += sent; }`
  unfoldable pub write_loop : ℕ → List ℕ → K → Result (Unit {0}) × K
  write_loop rounds [] k = (ok tt, k)
  write_loop zero (b ∷ bytes) k = (fault, k)
  write_loop (suc rounds) (b ∷ bytes) k =
      after_write (write_loop rounds) (b ∷ bytes) (socket.write_some (b ∷ bytes) k)

  abbrev pub was_sent : Result (Unit {0}) → Bool
  was_sent (ok a) = true
  was_sent (err e) = false
  was_sent fault = true

  unfoldable pub send : List ℕ → TcpTransport K → Result (Unit {0}) × TcpTransport K
  send frame t =
      if t.connected
      then (let (r, k) = write_loop (length frame) frame t.os in
          (r, record t { os = k; connected = was_sent r }))
      else (err transport_disconnected, t)

  -- The transport that the master and the slave take.
  abbrev pub tcp : Transport (TcpTransport K)
  tcp = record { send = send; receive = receive }
