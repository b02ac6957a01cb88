-- ===== src/Transport/Loopback/Tests.antt =====
-- The in-process transport at concrete inputs.
use modbus_pp.Common.{ℕ, ◌≡◌, refl, Bool, true, false, List, [], ◌∷◌, arith}
use modbus_pp.Core.Error.{timeout_expired}
use modbus_pp.Core.Result.{ok, err}
use modbus_pp.Transport.Loopback.{Endpoint, create_endpoint, connect, set_next_error, send, receive}
use modbus_pp.Transport.Loopback.Channel.{
  create_pair, Call, perform_on, perform_all, IsChannel, perform_all-IsChannel, connecting,
  disconnecting, injecting, sending, receiving,
}
use modbus_pp.Transport.Loopback.Order.{
  IsReady, send_all, receive_all, receive_all-send_all, send-set_next_error,
}

abbrev joined : Endpoint
joined = connect create_endpoint

joined-IsReady : IsReady joined
unfolding connect
joined-IsReady = record { is_connected = refl; no_error = refl }

abbrev two_frames : List (List ℕ)
two_frames = (1 ∷ []) ∷ (2 ∷ 3 ∷ []) ∷ []

receive_all-send_all_run :
    receive_all 3 joined (send_all joined two_frames []).1
    ≡ ok (1 ∷ []) ∷ ok (2 ∷ 3 ∷ []) ∷ err timeout_expired ∷ []
receive_all-send_all_run =
    receive_all-send_all joined joined two_frames joined-IsReady joined-IsReady.is_connected

send-set_next_error_run :
    let (r, endpoint', tx') = send false (7 ∷ []) (set_next_error joined 0x88) [] in
    (r ≡ err 0x88)
    × (tx' ≡ [])
    × ((send false (7 ∷ []) endpoint' tx').0 ≡ ok tt)
    × ((send false (7 ∷ []) endpoint' tx').2 ≡ (7 ∷ []) ∷ [])
send-set_next_error_run =
    send-set_next_error joined 0x88 (7 ∷ []) [] joined-IsReady.is_connected (omega arith)

-- The server sends before it is connected; of the client's two frames the first one is dropped.
abbrev talk : List (Bool × Call)
talk =
    (false, sending false (9 ∷ []))
    ∷ (true, connecting)
    ∷ (true, injecting timeout_expired)
    ∷ (true, sending false (1 ∷ []))
    ∷ (false, connecting)
    ∷ (true, sending false (2 ∷ []))
    ∷ (true, sending false (3 ∷ []))
    ∷ (true, disconnecting)
    ∷ (false, receiving)
    ∷ []

perform_all-IsChannel_example :
    IsChannel (perform_all talk create_pair).client (perform_all talk create_pair).server
    × IsChannel (perform_all talk create_pair).server (perform_all talk create_pair).client
perform_all-IsChannel_example =
    perform_all-IsChannel talk create_pair
      (tt, (tt, (omega arith, (tt, (tt, (tt, (tt, (tt, (tt, tt))))))))) tt tt refl refl

talk_taken :
    ((perform_all talk create_pair).server.taken ≡ (2 ∷ []) ∷ [])
    × ((perform_all talk create_pair).client.tx ≡ (3 ∷ []) ∷ [])
unfolding perform_all perform_on send receive connect set_next_error
talk_taken = (refl, refl)
