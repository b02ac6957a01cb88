-- ===== src/Transport/Tcp/Framing.antt =====
-- TCPTransport::receive cuts the stream into frames by the length in their headers.
use modbus_pp.Common.{
  ℕ, suc, ◌<◌, ◌≡◌, refl, sym, ap, subst, ◌∙◌, true, List, ◌++◌, append_assoc, arith, length,
  length-append,
}
use modbus_pp.Core.Result.{ok}
use modbus_pp.Core.Span.{read_word16}
use modbus_pp.Transport.Tcp.{
  Socket, TcpTransport, read_loop, read_exactly, read_body, read_frame, receive,
}
use modbus_pp.Transport.Tcp.Reading.{IsStream, Reads, prepend-Reads, read_loop-Reads}

-- Seven bytes, of which the fifth and the sixth count the seventh and what follows.
pub record IsFrame (frame : List ℕ) : Type 0 where
  pub header : List ℕ
  pub body : List ℕ
  pub split : frame ≡ header ++ body
  pub header_size : length header ≡ 7
  pub counted : read_word16 header 4 ≡ ok (suc (length body))

module _ {K : Type 0} (socket : Socket K) (incoming : K → List ℕ)
    (s : IsStream socket incoming) where
  read_body-Reads :
      (header body ys : List ℕ) (k : K)
      → incoming k ≡ body ++ ys
      → Reads socket incoming
          (read_body socket header (ok (suc (length body)), k))
          (header ++ body)
          ys
  read_body-Reads header body ys k e =
      prepend-Reads socket incoming header body ys (read_exactly socket (length body) k)
        (read_loop-Reads socket incoming s (length body) body ys k (omega arith) e)

  read_frame-Reads :
      (frame ys : List ℕ) (k : K)
      → IsFrame frame
      → incoming k ≡ frame ++ ys
      → Reads socket incoming (read_frame socket k) frame ys
  unfolding Reads read_frame
  read_frame-Reads frame ys k f e =
      let (k1, p, q) =
        read_loop-Reads socket incoming s 7 f.header (f.body ++ ys) k (omega (arith, f.header_size))
          (e ∙ ap (λ zs. zs ++ ys) f.split ∙ append_assoc f.header f.body ys) in
      let got : read_exactly socket 7 k ≡ (ok f.header, k1) =
        ap (λ n. read_loop socket 7 n k) (sym f.header_size) ∙ p in
      let whole : Reads socket incoming (read_body socket f.header (ok (suc (length f.body)), k1))
          frame ys =
        subst
          (λ zs.
            Reads socket incoming (read_body socket f.header (ok (suc (length f.body)), k1)) zs ys)
          (sym f.split) (read_body-Reads f.header f.body ys k1 q) in
      rw (got, f.counted) whole

  -- Where a whole frame is at the front of what has arrived or will arrive, `receive` answers exactly
  -- this frame and leaves what is behind it, in whatever pieces the bytes arrive, and the transport
  -- stays connected.
  pub tcp_receive-frame :
      (frame rest : List ℕ) (t : TcpTransport K)
      → IsFrame frame
      → t.connected ≡ true
      → incoming t.os ≡ frame ++ rest
      → ((receive socket t).0 ≡ ok frame)
        × ((receive socket t).1.connected ≡ true)
        × (incoming (receive socket t).1.os ≡ rest)
  unfolding receive Reads
  tcp_receive-frame frame rest t f c e =
      let k = (socket.poll t.os).1 in
      let here : 0 < length (incoming t.os) = omega (
        arith,
        ap length (e ∙ ap (λ zs. zs ++ rest) f.split),
        f.header_size,
        length-append (f.header ++ f.body) rest,
        length-append f.header f.body,
      ) in
      let (k', p, q) = read_frame-Reads frame rest k f (s.poll_front t.os ∙ e) in
      rw (c, s.poll_waiting t.os here, p) (refl, refl, q)
