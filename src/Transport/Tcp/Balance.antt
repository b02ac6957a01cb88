-- ===== src/Transport/Tcp/Balance.antt =====
-- Every descriptor that `connect` opens is closed, by itself where it fails and by `disconnect`
-- where it succeeds.
use modbus_pp.Transport.Posix.{Polled, poll_failed, poll_expired, poll_ready}
use modbus_pp.Common.{
  ℕ, bit_or, ◌≡◌, refl, sym, ap, subst, ◌∙◌, ◌⊎◌, inl, inr, Bool, true, false, Option, none, some,
  List, ◌∷◌, if◌then◌else◌,
}
use modbus_pp.Core.Error.{ErrorCode, transport_disconnected, timeout_expired}
use modbus_pp.Core.Result.{Result, ok, err}
use modbus_pp.Transport.Tcp.{TcpTransport}
use modbus_pp.Transport.Tcp.Descriptors.{
  TcpConfig, Started, Connector, give_up, established, checked, waited, started, addressed, opened,
  connect, disconnect, IsDescriptors, connected_at_once, in_progress, refused,
}

module _ {K : Type 0} (open_fds : K → List ℕ) where
  -- The two ways in which `connect` ends: a connection with one more descriptor, which the transport
  -- holds, or an error, with no descriptor more and none held.
  pub Connects : Result (Unit {0}) × TcpTransport K → List ℕ → Type 0
  Connects r fds =
      ((fd : ℕ) × (r.0 ≡ ok tt)
        × (r.1.connected ≡ true)
        × (r.1.socket_fd ≡ some fd)
        × (open_fds r.1.os ≡ fd ∷ fds))
      ⊎ ((e : ErrorCode) × (r.0 ≡ err e)
          × (r.1.connected ≡ false)
          × (r.1.socket_fd ≡ none)
          × (open_fds r.1.os ≡ fds))

  module _ (calls : Connector K) (s : IsDescriptors calls open_fds) where
    module _ (config : TcpConfig) (t : TcpTransport K) (c : t.connected ≡ false)
        (fds : List ℕ) where
      give_up-Connects :
          (fd : ℕ) (e : ErrorCode) (k : K)
          → open_fds k ≡ fd ∷ fds
          → Connects (give_up calls config t fd e k) fds
      unfolding Connects
      give_up-Connects fd e k h = inr (e, refl, c, refl, s.close_removes k fd fds h)

      established-Connects :
          (fd flags : ℕ) (k : K)
          → open_fds k ≡ fd ∷ fds
          → Connects (established calls config t fd flags k) fds
      unfolding Connects
      established-Connects fd flags k h =
          let k1 = calls.set_flags fd flags k in
          let back : open_fds k1 ≡ fd ∷ fds = s.set_flags_keeps fd flags k ∙ h in
          inl (
            fd,
            refl,
            refl,
            refl,
            elim config.tcp_nodelay
                as (λ (x : Bool). open_fds (if x then calls.set_nodelay fd k1 else k1) ≡ fd ∷ fds) [
                  | true ↦ s.set_nodelay_keeps fd k1 ∙ back
                  | false ↦ back
                ],
          )

      checked-Connects :
          (fd flags : ℕ) (p : Bool × K)
          → open_fds p.1 ≡ fd ∷ fds
          → Connects (checked calls config t fd flags p) fds
      checked-Connects fd flags (true, k) h = give_up-Connects fd transport_disconnected k h
      checked-Connects fd flags (false, k) h = established-Connects fd flags k h

      waited-Connects :
          (fd flags : ℕ) (p : Polled × K)
          → open_fds p.1 ≡ fd ∷ fds
          → Connects (waited calls config t fd flags p) fds
      waited-Connects fd flags (poll_failed, k) h = give_up-Connects fd timeout_expired k h
      waited-Connects fd flags (poll_expired, k) h = give_up-Connects fd timeout_expired k h
      waited-Connects fd flags (poll_ready, k) h =
          checked-Connects fd flags (calls.pending_error fd k) (s.pending_error_keeps fd k ∙ h)

      started-Connects :
          (fd flags : ℕ) (p : Started × K)
          → open_fds p.1 ≡ fd ∷ fds
          → Connects (started calls config t fd flags p) fds
      started-Connects fd flags (connected_at_once, k) h = established-Connects fd flags k h
      started-Connects fd flags (in_progress, k) h =
          let timeout = config.connect_timeout in
          waited-Connects fd flags (calls.poll_out fd timeout k) (s.poll_out_keeps fd timeout k ∙ h)
      started-Connects fd flags (refused, k) h = give_up-Connects fd transport_disconnected k h

      addressed-Connects :
          (fd flags : ℕ) (k : K) (a : Option ℕ)
          → open_fds k ≡ fd ∷ fds
          → Connects (addressed calls config t fd flags k a) fds
      addressed-Connects fd flags k none h = give_up-Connects fd transport_disconnected k h
      addressed-Connects fd flags k (some address) h =
          started-Connects fd flags (calls.start_connect fd address config.port k)
            (s.start_connect_keeps fd address config.port k ∙ h)

      opened-Connects :
          (p : Option ℕ × K)
          → ((fd : ℕ) → p.0 ≡ some fd → open_fds p.1 ≡ fd ∷ fds)
          → (p.0 ≡ none → open_fds p.1 ≡ fds)
          → Connects (opened calls config t p) fds
      opened-Connects (none, k) f g =
          unfold Connects in inr (transport_disconnected, refl, c, refl, g refl)
      opened-Connects (some fd, k) f g =
          let flags = calls.get_flags fd k in
          let busy = bit_or flags calls.nonblock in
          addressed-Connects fd flags (calls.set_flags fd busy k) (calls.inet_pton config.host)
            (s.set_flags_keeps fd busy k ∙ f fd refl)

    -- From a transport that is not connected, `connect` ends in a connection with one more
    -- descriptor, or in an error with every descriptor that it opened closed again.
    pub tcp_connect-Connects :
        (config : TcpConfig) (t : TcpTransport K)
        → t.connected ≡ false
        → Connects (connect calls config t) (open_fds t.os)
    unfolding connect
    tcp_connect-Connects config t c =
        let opens : connect calls config t ≡ opened calls config t (calls.open_socket t.os) =
          ap
            (λ (b : Bool). if b then (ok tt, t) else opened calls config t (calls.open_socket t.os))
            c in
        subst (λ r. Connects r (open_fds t.os)) (sym opens)
          (opened-Connects config t c (open_fds t.os) (calls.open_socket t.os) (s.open_adds t.os)
            (s.open_fails t.os))

    disconnect-Connects :
        (r : Result (Unit {0}) × TcpTransport K) (fds : List ℕ)
        → Connects r fds
        → open_fds (disconnect calls r.1).os ≡ fds
    unfolding Connects disconnect
    disconnect-Connects r fds (inl (fd, p, c, q, h)) = rw q (s.close_removes r.1.os fd fds h)
    disconnect-Connects r fds (inr (e, p, c, q, h)) = rw q h

    -- `connect` and then `disconnect`, on a transport that is not connected, leave open the
    -- descriptors that were open before, however `connect` ends. A descriptor that the transport
    -- still held from a broken connection is among them: it is closed by neither.
    pub disconnect-connect :
        (config : TcpConfig) (t : TcpTransport K)
        → t.connected ≡ false
        → open_fds (disconnect calls (connect calls config t).1).os ≡ open_fds t.os
    disconnect-connect config t c =
        disconnect-Connects (connect calls config t) (open_fds t.os)
          (tcp_connect-Connects config t c)
