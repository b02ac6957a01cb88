-- ===== src/Lib.antt =====
-- modbus_pp, a C++ library of the Modbus protocol with an extended frame format: a model of its
-- codecs, of the master and the slave, of requests in flight and of the authentication handshake.
--
-- The parts, from the bytes up, with the files of the repository that each stands for:
--   Core: include/modbus_pp/core and src/core. Result is `Result<T>` with a third state `fault` for
--     what C++ leaves undefined or stops by an assertion; Span is `span_t`, whose reads outside of
--     the buffer are faults; Pdu has `PDU::serialize` and `PDU::deserialize`, the latter also on the
--     view that `unwrap_tcp` builds for a length of 0; Endian has the byte orders; Error has the
--     numbers of ErrorCode, and its Message the texts of src/core/error.cpp.
--   Transport: FrameCodec and Crc are src/transport/frame_codec.cpp; Loopback is the in-process
--     transport; Interface is `class Transport`, which the clients take as an argument.
--   RegisterMap: Batch is include/modbus_pp/register_map/batch_request.hpp.
--   Security: src/security and the in-memory store of include/modbus_pp/security.
--   Client: Server is src/client/server.cpp, Master is src/client/client.cpp, and Served joins the
--     two by the in-process transport, so that one request passes through both and all of the codecs;
--     its Run is `Server::run`, for the number of turns until `stop` is called.
--   Pipeline: RequestQueue is include/modbus_pp/pipeline/request_queue.hpp, Transactions and Sync
--     are src/pipeline/pipeline.cpp.
--   Where parts meet: Client.Streamed is the master over the TCP transport, and its Slave is the slave
--     over it. PubSub.Delivered joins the scan of a publisher with the poll of a subscriber, and
--     Transport.Loopback.Channel the two ends of the in-process transport. Pipeline.Unserved joins a
--     pipeline with the slave, Pipeline.History is any sequence of calls on one pipeline, and
--     Pipeline.OutOfOrder the case of answers that arrive in any order.
--   Client.Server.Loop is the flag between Server::run and Server::stop, Transport.Lifecycle the
--     contract of connect, disconnect and is_connected, and Transport.Loopback.Simulation the latency
--     and the error rate of src/transport/loopback_transport.cpp.
--
-- Bytes, registers and codes are natural numbers. A machine integer keeps its wrap-around: `% 2 ^ 16`
-- and its like stand where the source converts. A vector is a list, a structure a record. An object
-- that changes is passed from call to call; the connection is part of that state, and an operation
-- that reads the clock takes its reading as an argument. A lock makes an operation one step. Loops
-- are recursion over the list or the count that bounds them. Where a loop of the source has no such
-- bound, it takes a number of rounds, and `fault` is a loop that has not ended after them: as many
-- rounds as bytes are wanted are enough for the loops of the TCP transport, one more than bytes
-- arrive for that of the RTU transport on a line that works, 256 for those over the units, and one
-- more than milliseconds in the timeout for that of `Pipeline::submit_sync`.
--
-- Parameters: the calls of the operating system on sockets, serial devices and descriptors, with
-- what they promise as records of laws; HMAC-SHA256 of OpenSSL, the random nonce, `std::sort`, the
-- handlers that a program registers, the conversion between a float and its bits, `std::to_string`,
-- comparisons of doubles, random draws, and whether `char` is signed. The laws that a theorem needs
-- of them stand among its hypotheses.
--
-- Not modelled: the name of the error category, and destructors. The tagged integers of
-- core/types.hpp stand alone; no other part of the library uses them.
pub mod Common
pub mod Core
pub mod Transport
pub mod RegisterMap
pub mod Security
pub mod Client
pub mod Pipeline
pub mod PubSub
pub mod Discovery
