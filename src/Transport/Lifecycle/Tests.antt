-- ===== src/Transport/Lifecycle/Tests.antt =====
-- A socket that connects at once, and a device that no program may open.
use modbus_pp.Common.{ℕ, suc, ◌-◌, true, false, none, some, []}
--@ modbus_pp.Core.Result.{}
use modbus_pp.Transport.Posix.{poll_failed, poll_expired}
--@ modbus_pp.Transport.Tcp.{}
use modbus_pp.Transport.Tcp.Descriptors.{TcpConfig, Connector, connected_at_once}
use modbus_pp.Transport.Rtu.{Device}
use modbus_pp.Transport.Rtu.Line.{RtuConfig}
use modbus_pp.Transport.Lifecycle.{IsLifecycle, loopback, tcp, rtu}
use modbus_pp.Transport.Lifecycle.Kept.{each-IsLifecycle}

-- Both count the descriptors that are open.
abbrev at_once : Connector ℕ
at_once = record {
  open_socket = λ k. (some k, suc k);
  close = λ fd k. k - 1;
  get_flags = λ fd k. 2;
  set_flags = λ fd flags k. k;
  nonblock = 4;
  inet_pton = λ host. some 1;
  start_connect = λ fd address port k. (connected_at_once, k);
  poll_out = λ fd timeout k. (poll_expired, k);
  pending_error = λ fd k. (false, k);
  set_nodelay = λ fd k. k;
}

abbrev config : TcpConfig
config = record {
  host = [];
  port = 502;
  connect_timeout = 1000;
  read_timeout = 1000;
  tcp_nodelay = true;
}

abbrev forbidden : Device ℕ
forbidden = record {
  open_device = λ path k. (none, k);
  close = λ fd k. k - 1;
  tcgetattr = λ fd k. none;
  tcsetattr = λ fd tty k. (false, k);
  tcflush = λ fd k. k;
  set_blocking = λ fd k. k;
  write = λ bytes k. (none, k);
  tcdrain = λ k. k;
  poll = λ timeout k. (poll_failed, k);
  read = λ n k. ([], k);
}

abbrev serial : RtuConfig
serial = record {
  device = [];
  baud_rate = 9600;
  data_bits = 8;
  parity = 78;
  stop_bits = 1;
  read_timeout = 100;
}

each-IsLifecycle_example :
    IsLifecycle loopback × IsLifecycle (tcp at_once config) × IsLifecycle (rtu forbidden serial)
each-IsLifecycle_example = each-IsLifecycle at_once config forbidden serial
