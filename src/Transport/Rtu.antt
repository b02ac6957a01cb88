-- ===== src/Transport/Rtu.antt =====
-- src/transport/rtu_transport.cpp: the RTU transport over the calls on a serial device. `K` is the
-- state of the operating system, and the calls are parameters. The loop of `receive` has no bound in
-- the source: `fault` stands for a loop that has not ended after the given number of rounds.
pub mod Line
pub mod Reading
pub mod Whole
pub mod Settings
pub mod Consistent
mod Tests
use modbus_pp.Transport.Posix.{Polled, poll_failed, poll_expired, poll_ready}
use modbus_pp.Common.{
  ℕ, zero, suc, Bool, true, false, Option, none, some, List, [], ◌∷◌, ◌++◌, ◌==◌, if◌then◌else◌,
  length,
}
use modbus_pp.Core.Error.{transport_disconnected, timeout_expired}
use modbus_pp.Core.Result.{Result, ok, err, fault}
use modbus_pp.Transport.Rtu.Line.{Termios, RtuConfig, configure}

-- The calls on the device. `write` answers none for an error, and `read` no bytes for an error or
-- where nothing is there.
pub record Device (K : Type 0) : Type 0 where
  pub open_device : List ℕ → K → Option ℕ × K
  pub close : ℕ → K → K
  pub tcgetattr : ℕ → K → Option Termios
  pub tcsetattr : ℕ → Termios → K → Bool × K
  pub tcflush : ℕ → K → K
  pub set_blocking : ℕ → K → K
  pub write : List ℕ → K → Option ℕ × K
  pub tcdrain : K → K
  pub poll : ℕ → K → Polled × K
  pub read : ℕ → K → List ℕ × K

pub record RtuTransport (K : Type 0) : Type 0 where
  pub os : K
  pub fd : Option ℕ
  pub connected : Bool

module _ {K : Type 0} (calls : Device K) where
  abbrev pub give_up : RtuTransport K → ℕ → K → Result (Unit {0}) × RtuTransport K
  give_up t fd k = (err transport_disconnected, record t { os = calls.close fd k; fd = none })

  abbrev pub settled : RtuTransport K → ℕ → Bool × K → Result (Unit {0}) × RtuTransport K
  settled t fd (false, k) = give_up t fd k
  settled t fd (true, k) = (
    ok tt,
    record { os = calls.set_blocking fd (calls.tcflush fd k); fd = some fd; connected = true },
  )

  abbrev pub configured :
      RtuConfig → RtuTransport K → ℕ → K → Option Termios → Result (Unit {0}) × RtuTransport K
  configured config t fd k none = give_up t fd k
  configured config t fd k (some tty) = settled t fd (calls.tcsetattr fd (configure config tty) k)

  abbrev pub opened : RtuConfig → RtuTransport K → Option ℕ × K → Result (Unit {0}) × RtuTransport K
  opened config t (none, k) = (err transport_disconnected, record t { os = k; fd = none })
  opened config t (some fd, k) = configured config t fd k (calls.tcgetattr fd k)

  unfoldable pub connect : RtuConfig → RtuTransport K → Result (Unit {0}) × RtuTransport K
  connect config t =
      if t.connected then (ok tt, t) else opened config t (calls.open_device config.device t.os)

  abbrev close_device : Option ℕ → K → K
  close_device none k = k
  close_device (some fd) k = calls.close fd k

  unfoldable pub disconnect : RtuTransport K → RtuTransport K
  disconnect t = record { os = close_device t.fd t.os; fd = none; connected = false }

  -- `written < 0 || written != frame.size()`
  abbrev pub written : ℕ → RtuTransport K → Option ℕ × K → Result (Unit {0}) × RtuTransport K
  written size t (none, k) = (err transport_disconnected, record t { os = k })
  written size t (some n, k) =
      if n == size
      then (ok tt, record t { os = calls.tcdrain k })
      else (err transport_disconnected, record t { os = k })

  unfoldable pub send : List ℕ → RtuTransport K → Result (Unit {0}) × RtuTransport K
  send frame t =
      if t.connected
      then written (length frame) t (calls.write frame t.os)
      else (err transport_disconnected, t)

  -- After `poll(&pfd, 1, 5)`: on with the loop where it says that there is more.
  abbrev pub after_poll :
      (List ℕ → K → Result (List ℕ) × K) → List ℕ → Polled × K → Result (List ℕ) × K
  after_poll go_on buffer (poll_failed, k) = (ok buffer, k)
  after_poll go_on buffer (poll_expired, k) = (ok buffer, k)
  after_poll go_on buffer (poll_ready, k) = go_on buffer k

  -- `while (true) { n = read(...); if (n > 0) append; if (poll(...) <= 0) break; }`
  pub receive_loop : ℕ → List ℕ → K → Result (List ℕ) × K
  receive_loop zero buffer k = (fault, k)
  receive_loop (suc rounds) buffer k =
      after_poll (receive_loop rounds) (buffer ++ (calls.read 256 k).0)
        (calls.poll 5 (calls.read 256 k).1)

  -- `if (buffer.empty()) return ErrorCode::TimeoutExpired;`
  abbrev pub unless_empty : Result (List ℕ) → Result (List ℕ)
  unless_empty (ok []) = err timeout_expired
  unless_empty (ok (b ∷ buffer)) = ok (b ∷ buffer)
  unless_empty (err e) = err e
  unless_empty fault = fault

  abbrev pub polled : ℕ → RtuTransport K → Polled × K → Result (List ℕ) × RtuTransport K
  polled rounds t (poll_failed, k) = (err transport_disconnected, record t { os = k })
  polled rounds t (poll_expired, k) = (err timeout_expired, record t { os = k })
  polled rounds t (poll_ready, k) =
      let (r, k') = receive_loop rounds [] k in (unless_empty r, record t { os = k' })

  unfoldable pub receive : ℕ → ℕ → RtuTransport K → Result (List ℕ) × RtuTransport K
  receive rounds timeout t =
      if t.connected
      then polled rounds t (calls.poll timeout t.os)
      else (err transport_disconnected, t)
