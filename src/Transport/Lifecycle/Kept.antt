-- ===== src/Transport/Lifecycle/Kept.antt =====
-- The three transports keep the contract of the life cycle of a connection.
use modbus_pp.Common.{
  ℕ, bit_or, ◌≡◌, refl, inl, inr, Bool, true, false, Option, none, some, if_by_cases,
}
use modbus_pp.Core.Error.{ErrorCode, transport_disconnected, timeout_expired}
use modbus_pp.Core.Result.{Result}
use modbus_pp.Transport.Posix.{Polled, poll_failed, poll_expired, poll_ready}
--@ modbus_pp.Transport.Interface.{}
use modbus_pp.Transport.Loopback
--@ modbus_pp.Transport.Loopback.{}
use modbus_pp.Transport.Tcp.{TcpTransport}
use modbus_pp.Transport.Tcp.Descriptors
use modbus_pp.Transport.Tcp.Descriptors.{
  TcpConfig, Started, Connector, connected_at_once, in_progress, refused,
}
use modbus_pp.Transport.Rtu
use modbus_pp.Transport.Rtu.{Device, RtuTransport}
use modbus_pp.Transport.Rtu.Line.{Termios, RtuConfig, configure}
use modbus_pp.Transport.Lifecycle.{Ends, IsLifecycle, loopback, tcp, rtu}

loopback-IsLifecycle : IsLifecycle loopback
unfolding Loopback.connect Ends
loopback-IsLifecycle = record {
  ends = λ endpoint. inl (refl, refl);
  again = λ endpoint up. rw up refl;
  down = λ endpoint. refl;
}

module _ {K : Type 0} (calls : Connector K) (config : TcpConfig) (t : TcpTransport K) where
  TcpEnds : Result (Unit {0}) × TcpTransport K → Type 0
  TcpEnds r = Ends (tcp calls config) r

  module _ (c : t.connected ≡ false) where
    give_up-TcpEnds :
        (fd : ℕ) (e : ErrorCode) (k : K) → TcpEnds (Descriptors.give_up calls config t fd e k)
    unfolding TcpEnds Ends
    give_up-TcpEnds fd e k = inr (e, refl, c)

    checked-TcpEnds :
        (fd flags : ℕ) (p : Bool × K) → TcpEnds (Descriptors.checked calls config t fd flags p)
    unfolding TcpEnds Ends
    checked-TcpEnds fd flags (true, k) = inr (transport_disconnected, refl, c)
    checked-TcpEnds fd flags (false, k) = inl (refl, refl)

    waited-TcpEnds :
        (fd flags : ℕ) (p : Polled × K) → TcpEnds (Descriptors.waited calls config t fd flags p)
    waited-TcpEnds fd flags (poll_failed, k) = give_up-TcpEnds fd timeout_expired k
    waited-TcpEnds fd flags (poll_expired, k) = give_up-TcpEnds fd timeout_expired k
    waited-TcpEnds fd flags (poll_ready, k) = checked-TcpEnds fd flags (calls.pending_error fd k)

    started-TcpEnds :
        (fd flags : ℕ) (p : Started × K) → TcpEnds (Descriptors.started calls config t fd flags p)
    started-TcpEnds fd flags (connected_at_once, k) = checked-TcpEnds fd flags (false, k)
    started-TcpEnds fd flags (in_progress, k) =
        waited-TcpEnds fd flags (calls.poll_out fd config.connect_timeout k)
    started-TcpEnds fd flags (refused, k) = give_up-TcpEnds fd transport_disconnected k

    addressed-TcpEnds :
        (fd flags : ℕ) (k : K) (a : Option ℕ)
        → TcpEnds (Descriptors.addressed calls config t fd flags k a)
    addressed-TcpEnds fd flags k none = give_up-TcpEnds fd transport_disconnected k
    addressed-TcpEnds fd flags k (some address) =
        started-TcpEnds fd flags (calls.start_connect fd address config.port k)

    opened-TcpEnds : (p : Option ℕ × K) → TcpEnds (Descriptors.opened calls config t p)
    opened-TcpEnds (none, k) = unfold TcpEnds Ends in inr (transport_disconnected, refl, c)
    opened-TcpEnds (some fd, k) =
        let flags = calls.get_flags fd k in
        addressed-TcpEnds fd flags (calls.set_flags fd (bit_or flags calls.nonblock) k)
          (calls.inet_pton config.host)

tcp-IsLifecycle :
    {K : Type 0} (calls : Connector K) (config : TcpConfig) → IsLifecycle (tcp calls config)
unfolding Descriptors.connect Descriptors.disconnect
tcp-IsLifecycle {K} calls config = record {
  ends = λ t.
      if_by_cases (λ (r : Result (Unit {0}) × TcpTransport K). Ends (tcp calls config) r)
        t.connected (λ up. unfold Ends in inl (refl, up))
        (λ down. unfold TcpEnds in opened-TcpEnds calls config t down (calls.open_socket t.os));
  again = λ t up. rw up refl;
  down = λ t. refl;
}

module _ {K : Type 0} (calls : Device K) (config : RtuConfig) (t : RtuTransport K)
    (c : t.connected ≡ false) where
  settled-Ends : (fd : ℕ) (p : Bool × K) → Ends (rtu calls config) (Rtu.settled calls t fd p)
  unfolding Ends
  settled-Ends fd (false, k) = inr (transport_disconnected, refl, c)
  settled-Ends fd (true, k) = inl (refl, refl)

  configured-Ends :
      (fd : ℕ) (k : K) (tty : Option Termios)
      → Ends (rtu calls config) (Rtu.configured calls config t fd k tty)
  configured-Ends fd k none = unfold Ends in inr (transport_disconnected, refl, c)
  configured-Ends fd k (some tty) = settled-Ends fd (calls.tcsetattr fd (configure config tty) k)

  device_opened-Ends : (p : Option ℕ × K) → Ends (rtu calls config) (Rtu.opened calls config t p)
  device_opened-Ends (none, k) = unfold Ends in inr (transport_disconnected, refl, c)
  device_opened-Ends (some fd, k) = configured-Ends fd k (calls.tcgetattr fd k)

rtu-IsLifecycle :
    {K : Type 0} (calls : Device K) (config : RtuConfig) → IsLifecycle (rtu calls config)
unfolding Rtu.connect Rtu.disconnect
rtu-IsLifecycle {K} calls config = record {
  ends = λ t.
      if_by_cases (λ (r : Result (Unit {0}) × RtuTransport K). Ends (rtu calls config) r)
        t.connected (λ up. unfold Ends in inl (refl, up))
        (λ down. device_opened-Ends calls config t down (calls.open_device config.device t.os));
  again = λ t up. rw up refl;
  down = λ t. refl;
}

-- Each of the three transports keeps the contract, whatever the calls on the system answer: `connect`
-- ends with success and a transport that reports itself connected, or with an error and one that does
-- not; on a connected transport it answers success and changes nothing, so that no second connection
-- is opened; and after `disconnect` no transport reports itself connected.
pub each-IsLifecycle :
    {K L : Type 0} (connector : Connector K) (config : TcpConfig) (device : Device L)
    (line : RtuConfig)
    → IsLifecycle loopback × IsLifecycle (tcp connector config) × IsLifecycle (rtu device line)
each-IsLifecycle connector config device line =
    (loopback-IsLifecycle, tcp-IsLifecycle connector config, rtu-IsLifecycle device line)
