-- ===== src/Transport/Tcp/Tests.antt =====
-- The TCP transport on a line that moves one byte at a time.
use modbus_pp.Transport.Posix.{poll_ready}
use modbus_pp.Common.{
  ℕ, ◌≡◌, refl, ap, true, false, some, List, [], ◌∷◌, ◌++◌, arith, length, drop, word16,
}
use modbus_pp.Core.Error.{transport_disconnected}
use modbus_pp.Core.Result.{◌>>=◌, ok, err}
use modbus_pp.Core.Span.{read, read_word16}
use modbus_pp.Core.Pdu
use modbus_pp.Core.Pdu.{Pdu, make_standard}
use modbus_pp.Transport.FrameCodec.{wrap_tcp, unwrap_tcp}
use modbus_pp.Transport.FrameCodec.Tcp.{received}
use modbus_pp.Transport.Tcp.{TcpTransport, read_loop, read_frame, receive, was_sent, send}
--@ modbus_pp.Transport.Tcp.Reading.{}
use modbus_pp.Transport.Tcp.OneByte.{Line, line, line-IsStream, line-IsSink}
use modbus_pp.Transport.Tcp.Writing.{Sent, tcp_send-Sent}
use modbus_pp.Transport.Tcp.Framing.{IsFrame, tcp_receive-frame}
use modbus_pp.Transport.Tcp.Whole.{tcp_receive-IsFrame, tcp_receive-wrap_tcp}
use modbus_pp.Transport.Tcp.Descriptors.{
  TcpConfig, Connector, connect, disconnect, IsDescriptors, in_progress,
}
use modbus_pp.Transport.Tcp.Balance.{Connects, tcp_connect-Connects, disconnect-connect}

abbrev request : List ℕ
request = 0 ∷ 1 ∷ 0 ∷ 0 ∷ 0 ∷ 3 ∷ 9 ∷ 3 ∷ 7 ∷ []

request-IsFrame : IsFrame request
unfolding read_word16 read word16
request-IsFrame = record {
  header = 0 ∷ 1 ∷ 0 ∷ 0 ∷ 0 ∷ 3 ∷ 9 ∷ [];
  body = 3 ∷ 7 ∷ [];
  split = refl;
  header_size = refl;
  counted = refl;
}

abbrev arrived : TcpTransport Line
arrived = record {
  os = record { arriving = request ++ (0 ∷ 2 ∷ []); taken = []; fds = [] };
  socket_fd = some 3;
  connected = true;
}

tcp_receive-frame_run :
    ((receive line arrived).0 ≡ ok request)
    × ((receive line arrived).1.connected ≡ true)
    × ((receive line arrived).1.os.arriving ≡ 0 ∷ 2 ∷ [])
tcp_receive-frame_run =
    tcp_receive-frame line Line.arriving line-IsStream request (0 ∷ 2 ∷ []) arrived request-IsFrame
      refl refl

tcp_receive-IsFrame_example :
    IsFrame request × (arrived.os.arriving ≡ request ++ (receive line arrived).1.os.arriving)
tcp_receive-IsFrame_example =
    tcp_receive-IsFrame line Line.arriving line-IsStream arrived request refl
      tcp_receive-frame_run.0

tcp_send-Sent_example :
    Sent Line.taken ((send line request arrived).0, (send line request arrived).1.os) [] request
    × ((send line request arrived).1.connected ≡ was_sent line (send line request arrived).0)
tcp_send-Sent_example = tcp_send-Sent Line.taken line line-IsSink request arrived refl

-- The frame that follows is cut short: the connection counts as broken.
broken_frame : (receive line (receive line arrived).1).0 ≡ err transport_disconnected
unfolding receive read_frame read_loop read_word16 read word16
broken_frame = refl

-- Descriptors are numbered by how many are open.
abbrev calls : Connector Line
calls = record {
  open_socket = λ k. (some (length k.fds), record k { fds = length k.fds ∷ k.fds });
  close = λ fd k. record k { fds = drop 1 k.fds };
  get_flags = λ fd k. 2;
  set_flags = λ fd flags k. k;
  nonblock = 0x800;
  inet_pton = λ host. some 0x7F000001;
  start_connect = λ fd address port k. (in_progress, k);
  poll_out = λ fd timeout k. (poll_ready, k);
  pending_error = λ fd k. (false, k);
  set_nodelay = λ fd k. k;
}

calls-IsDescriptors : IsDescriptors calls Line.fds
calls-IsDescriptors = record {
  open_adds = λ k fd p. cc;
  open_fails = λ k p. absurd cc;
  close_removes = λ k fd fds p. ap (drop 1) p;
  set_flags_keeps = λ fd flags k. refl;
  start_connect_keeps = λ fd address port k. refl;
  poll_out_keeps = λ fd timeout k. refl;
  pending_error_keeps = λ fd k. refl;
  set_nodelay_keeps = λ fd k. refl;
}

abbrev config : TcpConfig
config = record {
  host = 49 ∷ [];
  port = 502;
  connect_timeout = 3000;
  read_timeout = 1000;
  tcp_nodelay = true;
}

-- The connection broke, and its descriptor 0 is still open.
abbrev broken : TcpTransport Line
broken = record {
  os = record { arriving = []; taken = []; fds = 0 ∷ [] };
  socket_fd = some 0;
  connected = false;
}

tcp_connect-Connects_run : Connects Line.fds (connect calls config broken) (0 ∷ [])
tcp_connect-Connects_run =
    tcp_connect-Connects Line.fds calls calls-IsDescriptors config broken refl

disconnect-connect_example : (disconnect calls (connect calls config broken).1).os.fds ≡ 0 ∷ []
disconnect-connect_example =
    disconnect-connect Line.fds calls calls-IsDescriptors config broken refl

abbrev question : Pdu
question = make_standard 3 (0 ∷ 0 ∷ 0 ∷ 1 ∷ [])

-- Behind the frame, the first byte of the next one.
abbrev asked : TcpTransport Line
asked = record {
  os = record { arriving = wrap_tcp 9 question 1 ++ (0 ∷ []); taken = []; fds = [] };
  socket_fd = some 3;
  connected = true;
}

length-question : length (Pdu.serialize question) ≡ 5
unfolding make_standard Pdu.serialize
length-question = refl

tcp_receive-wrap_tcp_example :
    (((receive line asked).0 >>= unwrap_tcp)
      ≡ received 9 1 (Pdu.deserialize (Pdu.serialize question)))
    × ((receive line asked).1.os.arriving ≡ 0 ∷ [])
tcp_receive-wrap_tcp_example =
    tcp_receive-wrap_tcp line Line.arriving line-IsStream 9 question 1 (0 ∷ []) asked
      (omega (arith, length-question)) (omega arith) refl refl
