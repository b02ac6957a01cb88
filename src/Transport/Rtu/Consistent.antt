-- ===== src/Transport/Rtu/Consistent.antt =====
-- The RTU transport counts as connected exactly while it holds a descriptor.
use modbus_pp.Common.{
  ℕ, ◌≡◌, refl, Bool, true, false, Option, none, some, List, [], ◌∷◌, ◌==◌, if_by_cases, length,
}
use modbus_pp.Core.Result.{Result}
use modbus_pp.Transport.Posix.{Polled, poll_failed, poll_expired, poll_ready}
use modbus_pp.Transport.Rtu.Line.{Termios, RtuConfig, configure}
use modbus_pp.Transport.Rtu.{
  Device, RtuTransport, settled, configured, opened, connect, disconnect, written, send, polled,
  receive,
}

abbrev is_some : Option ℕ → Bool
is_some none = false
is_some (some fd) = true

unfoldable pub IsConsistent : {K : Type 0} → RtuTransport K → Type 0
IsConsistent t = t.connected ≡ is_some t.fd

-- The operations, with what they are called with.
pub data Operation : Type 0 where
  connecting : RtuConfig → Operation
  disconnecting : Operation
  sending : List ℕ → Operation
  receiving : ℕ → ℕ → Operation

module _ {K : Type 0} (calls : Device K) where
  abbrev perform : Operation → RtuTransport K → RtuTransport K
  perform (connecting config) t = (connect calls config t).1
  perform disconnecting t = disconnect calls t
  perform (sending frame) t = (send calls frame t).1
  perform (receiving rounds timeout) t = (receive calls rounds timeout t).1

  abbrev pub perform_all : List Operation → RtuTransport K → RtuTransport K
  perform_all [] t = t
  perform_all (op ∷ ops) t = perform_all ops (perform op t)

  settled-IsConsistent :
      (t : RtuTransport K) (fd : ℕ) (p : Bool × K)
      → t.connected ≡ false
      → IsConsistent (settled calls t fd p).1
  unfolding IsConsistent
  settled-IsConsistent t fd (false, k) c = c
  settled-IsConsistent t fd (true, k) c = refl

  configured-IsConsistent :
      (config : RtuConfig) (t : RtuTransport K) (fd : ℕ) (k : K) (tty : Option Termios)
      → t.connected ≡ false
      → IsConsistent (configured calls config t fd k tty).1
  configured-IsConsistent config t fd k none c = unfold IsConsistent in c
  configured-IsConsistent config t fd k (some tty) c =
      settled-IsConsistent t fd (calls.tcsetattr fd (configure config tty) k) c

  opened-IsConsistent :
      (config : RtuConfig) (t : RtuTransport K) (p : Option ℕ × K)
      → t.connected ≡ false
      → IsConsistent (opened calls config t p).1
  opened-IsConsistent config t (none, k) c = unfold IsConsistent in c
  opened-IsConsistent config t (some fd, k) c =
      configured-IsConsistent config t fd k (calls.tcgetattr fd k) c

  written-IsConsistent :
      (size : ℕ) (t : RtuTransport K) (p : Option ℕ × K)
      → IsConsistent t
      → IsConsistent (written calls size t p).1
  unfolding IsConsistent
  written-IsConsistent size t (none, k) h = h
  written-IsConsistent size t (some n, k) h =
      if_by_cases (λ (r : Result (Unit {0}) × RtuTransport K). IsConsistent r.1) (n == size)
        (λ e. h) (λ e. h)

  polled-IsConsistent :
      (rounds : ℕ) (t : RtuTransport K) (p : Polled × K)
      → IsConsistent t
      → IsConsistent (polled calls rounds t p).1
  unfolding IsConsistent
  polled-IsConsistent rounds t (poll_failed, k) h = h
  polled-IsConsistent rounds t (poll_expired, k) h = h
  polled-IsConsistent rounds t (poll_ready, k) h = h

  perform-IsConsistent :
      (op : Operation) (t : RtuTransport K) → IsConsistent t → IsConsistent (perform op t)
  unfolding connect disconnect send receive
  perform-IsConsistent (connecting config) t h =
      if_by_cases (λ (r : Result (Unit {0}) × RtuTransport K). IsConsistent r.1) t.connected
        (λ c. h) (opened-IsConsistent config t (calls.open_device config.device t.os))
  perform-IsConsistent disconnecting t h = unfold IsConsistent in refl
  perform-IsConsistent (sending frame) t h =
      if_by_cases (λ (r : Result (Unit {0}) × RtuTransport K). IsConsistent r.1) t.connected
        (λ c. written-IsConsistent (length frame) t (calls.write frame t.os) h) (λ c. h)
  perform-IsConsistent (receiving rounds timeout) t h =
      if_by_cases (λ (r : Result (List ℕ) × RtuTransport K). IsConsistent r.1) t.connected
        (λ c. polled-IsConsistent rounds t (calls.poll timeout t.os) h) (λ c. h)

  -- Whatever calls are made on the transport, in whatever order and with whatever answers of the
  -- system, it counts as connected exactly while it holds a descriptor, if it did at the start.
  pub perform_all-IsConsistent :
      (ops : List Operation) (t : RtuTransport K)
      → IsConsistent t
      → IsConsistent (perform_all ops t)
  perform_all-IsConsistent [] t h = h
  perform_all-IsConsistent (op ∷ ops) t h =
      perform_all-IsConsistent ops (perform op t) (perform-IsConsistent op t h)
