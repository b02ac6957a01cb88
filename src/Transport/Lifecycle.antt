-- ===== src/Transport/Lifecycle.antt =====
-- What a connection of `class Transport` promises of `connect`, `disconnect` and `is_connected`, and
-- that the three transports of src/transport keep it.
pub mod Kept
mod Tests
use modbus_pp.Common.{◌≡◌, sym, ap, ◌∙◌, ◌⊎◌, inl, inr, Bool, true, false, List, [], ◌∷◌}
use modbus_pp.Core.Error.{ErrorCode}
use modbus_pp.Core.Result.{Result, ok, err, fault}
use modbus_pp.Transport.Interface.{Lifecycle}
use modbus_pp.Transport.Loopback
use modbus_pp.Transport.Rtu
use modbus_pp.Transport.Loopback.{Endpoint}
use modbus_pp.Transport.Tcp.{TcpTransport}
use modbus_pp.Transport.Tcp.Descriptors
use modbus_pp.Transport.Tcp.Descriptors.{TcpConfig, Connector}
use modbus_pp.Transport.Rtu.{Device, RtuTransport, connect, disconnect}
use modbus_pp.Transport.Rtu.Line.{RtuConfig}

-- A call of `connect` ends with a connection, or with an error and none.
unfoldable pub Ends : {W : Type 0} → Lifecycle W → Result (Unit {0}) × W → Type 0
Ends l r =
    ((r.0 ≡ ok tt) × (l.is_connected r.1 ≡ true))
    ⊎ ((e : ErrorCode) × (r.0 ≡ err e) × (l.is_connected r.1 ≡ false))

pub record IsLifecycle {W : Type 0} (l : Lifecycle W) : Type 0 where
  pub ends : (w : W) → Ends l (l.connect w)
  pub again : (w : W) → l.is_connected w ≡ true → l.connect w ≡ (ok tt, w)
  pub down : (w : W) → l.is_connected (l.disconnect w) ≡ false

abbrev pub loopback : Lifecycle Endpoint
loopback = record {
  connect = λ endpoint. (ok tt, Loopback.connect endpoint);
  disconnect = Loopback.disconnect;
  is_connected = λ endpoint. endpoint.connected;
  transport_name = "loopback";
}

module _ {K : Type 0} where
  abbrev pub tcp : Connector K → TcpConfig → Lifecycle (TcpTransport K)
  tcp calls config = record {
    connect = Descriptors.connect calls config;
    disconnect = Descriptors.disconnect calls;
    is_connected = λ t. t.connected;
    transport_name = "tcp";
  }

  abbrev pub rtu : Device K → RtuConfig → Lifecycle (RtuTransport K)
  rtu calls config = record {
    connect = Rtu.connect calls config;
    disconnect = Rtu.disconnect calls;
    is_connected = λ t. t.connected;
    transport_name = "rtu";
  }

abbrev pub is_ok : Result (Unit {0}) → Bool
is_ok (ok a) = true
is_ok (err e) = false
is_ok fault = false

-- A program that connects and disconnects.
pub data Call : Type 0 where
  connecting : Call
  disconnecting : Call

module _ {W : Type 0} (l : Lifecycle W) where
  -- The calls, with what the program can tell from their answers: whether it is connected.
  pub perform_all : List Call → Bool × W → Bool × W
  perform_all [] p = p
  perform_all (connecting ∷ calls) (told, w) =
      let (r, w') = l.connect w in perform_all calls (is_ok r, w')
  perform_all (disconnecting ∷ calls) (told, w) = perform_all calls (false, l.disconnect w)

  Ends-told : (r : Result (Unit {0}) × W) → Ends l r → is_ok r.0 ≡ l.is_connected r.1
  unfolding Ends
  Ends-told r (inl (p, up)) = ap is_ok p ∙ sym up
  Ends-told r (inr (e, p, down)) = ap is_ok p ∙ sym down

  -- What the program tells from the answers of `connect` is what `is_connected` reports.
  pub perform_all_told :
      (h : IsLifecycle l) (calls : List Call) (told : Bool) (w : W)
      → told ≡ l.is_connected w
      → (perform_all calls (told, w)).0 ≡ l.is_connected (perform_all calls (told, w)).1
  unfolding perform_all
  perform_all_told h [] told w e = e
  perform_all_told h (connecting ∷ calls) told w e =
      let (r, w') = l.connect w in
      perform_all_told h calls (is_ok r) w' (Ends-told (l.connect w) (h.ends w))
  perform_all_told h (disconnecting ∷ calls) told w e =
      perform_all_told h calls false (l.disconnect w) (sym (h.down w))
