-- ===== src/Client/Served.antt =====
-- A master and a slave joined by the in-process transport: while the master waits for its answer,
-- the slave runs `process_one` once, as `Server::run` does in its thread.
pub mod Exchange
pub mod Run
pub mod Reads
pub mod Writes
pub mod Bank
mod Tests
use modbus_pp.Common.{ℕ, Bool, true, false, Option, none, some, List, []}
use modbus_pp.Core.Result.{Result, ok, err, fault}
use modbus_pp.Transport.Interface.{Transport}
use modbus_pp.Transport.Loopback
use modbus_pp.Transport.Loopback.{Endpoint, LoopbackQueue, send, receive}
use modbus_pp.Client.Server.{Server, process_one}

pub record Pair (S : Type 0) : Type 0 where
  pub app : S
  pub master_end : Endpoint
  pub slave_end : Endpoint
  pub to_slave : LoopbackQueue
  pub to_master : LoopbackQueue

module _ {S : Type 0} (server : Server S) where
  -- The slave hands its answer to `send` and looks at nothing of what that returns.
  abbrev pub answer : Option (List ℕ) → Pair S → Pair S
  answer none p = p
  answer (some frame) p =
      let (r, slave_end, to_master) = Loopback.send false frame p.slave_end p.to_master in
      record p { slave_end = slave_end; to_master = to_master }

  abbrev after : Pair S → Result (Bool × S × Option (List ℕ)) → Result (Pair S)
  after p (ok (b, app, out)) = ok (answer out (record p { app = app }))
  after p (err e) = err e
  after p fault = fault

  unfoldable pub serve : Pair S → Result (Pair S)
  serve p =
      let (received, to_slave) = Loopback.receive p.slave_end p.to_slave in
      after (record p { to_slave = to_slave }) (process_one server p.app received)

  abbrev receive_served : Pair S → Result (Pair S) → Result (List ℕ) × Pair S
  receive_served p (ok q) =
      let (r, to_master) = Loopback.receive q.master_end q.to_master in
      (r, record q { to_master = to_master })
  receive_served p (err e) = (err e, p)
  receive_served p fault = (fault, p)

  -- The connection of the master.
  abbrev pub served : Transport (Pair S)
  served = record {
    send = λ frame p.
        let (r, master_end, to_slave) = Loopback.send false frame p.master_end p.to_slave in
        (r, record p { master_end = master_end; to_slave = to_slave });
    receive = λ p. receive_served p (serve p);
  }

-- Both ends are connected, no error is injected and no message is under way.
abbrev ready_end : Endpoint
ready_end = record { connected = true; next_error = none }

abbrev pub idle_pair : {S : Type 0} → S → Pair S
idle_pair s = record {
  app = s;
  master_end = ready_end;
  slave_end = ready_end;
  to_slave = [];
  to_master = [];
}
