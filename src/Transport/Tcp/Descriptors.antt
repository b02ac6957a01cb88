-- ===== src/Transport/Tcp/Descriptors.antt =====
-- TCPTransport::connect and TCPTransport::disconnect, and the descriptors that they open and close.
use modbus_pp.Transport.Posix.{Polled, poll_failed, poll_expired, poll_ready}
use modbus_pp.Common.{
  ℕ, bit_or, ◌≡◌, Bool, true, false, Option, none, some, List, ◌∷◌, if◌then◌else◌,
}
use modbus_pp.Core.Error.{ErrorCode, transport_disconnected, timeout_expired}
use modbus_pp.Core.Result.{Result, ok, err}
use modbus_pp.Transport.Tcp.{TcpTransport}

pub record TcpConfig : Type 0 where
  pub host : List ℕ
  pub port : ℕ
  pub connect_timeout : ℕ
  pub read_timeout : ℕ
  pub tcp_nodelay : Bool

-- What `connect` answers on a socket that does not block.
pub data Started : Type 0 where
  connected_at_once : Started
  in_progress : Started
  refused : Started

-- The calls on descriptors. `inet_pton` answers no address for a host it cannot read, and
-- `pending_error` is `getsockopt` with SO_ERROR, compared with 0.
pub record Connector (K : Type 0) : Type 0 where
  pub open_socket : K → Option ℕ × K
  pub close : ℕ → K → K
  pub get_flags : ℕ → K → ℕ
  pub set_flags : ℕ → ℕ → K → K
  pub nonblock : ℕ
  pub inet_pton : List ℕ → Option ℕ
  pub start_connect : ℕ → ℕ → ℕ → K → Started × K
  pub poll_out : ℕ → ℕ → K → Polled × K
  pub pending_error : ℕ → K → Bool × K
  pub set_nodelay : ℕ → K → K

module _ {K : Type 0} (calls : Connector K) (config : TcpConfig) where
  -- `::close(socket_fd_); socket_fd_ = -1; return ...;`
  abbrev pub give_up : TcpTransport K → ℕ → ErrorCode → K → Result (Unit {0}) × TcpTransport K
  give_up t fd e k = (err e, record t { os = calls.close fd k; socket_fd = none })

  -- Behind the connection: back to blocking, and TCP_NODELAY where it is asked for.
  abbrev pub established : TcpTransport K → ℕ → ℕ → K → Result (Unit {0}) × TcpTransport K
  established t fd flags k =
      let k1 = calls.set_flags fd flags k in
      let k2 = if config.tcp_nodelay then calls.set_nodelay fd k1 else k1 in
      (ok tt, record t { os = k2; socket_fd = some fd; connected = true })

  abbrev pub checked : TcpTransport K → ℕ → ℕ → Bool × K → Result (Unit {0}) × TcpTransport K
  checked t fd flags (true, k) = give_up t fd transport_disconnected k
  checked t fd flags (false, k) = established t fd flags k

  abbrev pub waited : TcpTransport K → ℕ → ℕ → Polled × K → Result (Unit {0}) × TcpTransport K
  waited t fd flags (poll_failed, k) = give_up t fd timeout_expired k
  waited t fd flags (poll_expired, k) = give_up t fd timeout_expired k
  waited t fd flags (poll_ready, k) = checked t fd flags (calls.pending_error fd k)

  abbrev pub started : TcpTransport K → ℕ → ℕ → Started × K → Result (Unit {0}) × TcpTransport K
  started t fd flags (connected_at_once, k) = established t fd flags k
  started t fd flags (in_progress, k) =
      waited t fd flags (calls.poll_out fd config.connect_timeout k)
  started t fd flags (refused, k) = give_up t fd transport_disconnected k

  abbrev pub addressed : TcpTransport K → ℕ → ℕ → K → Option ℕ → Result (Unit {0}) × TcpTransport K
  addressed t fd flags k none = give_up t fd transport_disconnected k
  addressed t fd flags k (some address) =
      started t fd flags (calls.start_connect fd address config.port k)

  abbrev pub opened : TcpTransport K → Option ℕ × K → Result (Unit {0}) × TcpTransport K
  opened t (none, k) = (err transport_disconnected, record t { os = k; socket_fd = none })
  opened t (some fd, k) =
      let flags = calls.get_flags fd k in
      addressed t fd flags (calls.set_flags fd (bit_or flags calls.nonblock) k)
        (calls.inet_pton config.host)

  unfoldable pub connect : TcpTransport K → Result (Unit {0}) × TcpTransport K
  connect t = if t.connected then (ok tt, t) else opened t (calls.open_socket t.os)

module _ {K : Type 0} (calls : Connector K) where
  abbrev close_socket : Option ℕ → K → K
  close_socket none k = k
  close_socket (some fd) k = calls.close fd k

  -- The destructor runs it too.
  unfoldable pub disconnect : TcpTransport K → TcpTransport K
  disconnect t = record { os = close_socket t.socket_fd t.os; socket_fd = none; connected = false }

-- What the system promises: `open_fds` are the open descriptors, the latest first.
pub record IsDescriptors {K : Type 0} (calls : Connector K) (open_fds : K → List ℕ) : Type 0 where
  pub open_adds :
      (k : K) (fd : ℕ)
      → (calls.open_socket k).0 ≡ some fd
      → open_fds (calls.open_socket k).1 ≡ fd ∷ open_fds k
  pub open_fails :
      (k : K) → (calls.open_socket k).0 ≡ none → open_fds (calls.open_socket k).1 ≡ open_fds k
  pub close_removes :
      (k : K) (fd : ℕ) (fds : List ℕ) → open_fds k ≡ fd ∷ fds → open_fds (calls.close fd k) ≡ fds
  pub set_flags_keeps : (fd flags : ℕ) (k : K) → open_fds (calls.set_flags fd flags k) ≡ open_fds k
  pub start_connect_keeps :
      (fd address port : ℕ) (k : K)
      → open_fds (calls.start_connect fd address port k).1 ≡ open_fds k
  pub poll_out_keeps :
      (fd timeout : ℕ) (k : K) → open_fds (calls.poll_out fd timeout k).1 ≡ open_fds k
  pub pending_error_keeps : (fd : ℕ) (k : K) → open_fds (calls.pending_error fd k).1 ≡ open_fds k
  pub set_nodelay_keeps : (fd : ℕ) (k : K) → open_fds (calls.set_nodelay fd k) ≡ open_fds k
