-- ===== src/Transport/Tcp/Whole.antt =====
-- What TCPTransport::receive answers is a whole frame from the front of the stream.
use modbus_pp.Transport.Posix.{Polled, poll_failed, poll_expired, poll_ready}
use modbus_pp.Common.{
  ℕ, zero, suc, ◌+◌, ◌-◌, ◌%◌, ◌^◌, ◌≤◌, ◌<◌, ◌≡◌, refl, sym, ap, subst, ◌∙◌, Bool, true, List, [],
  ◌∷◌, ◌++◌, append-nil, append_assoc, arith, if◌then◌else◌, length, length-append, IsWord16,
  hi_byte, lo_byte,
}
use modbus_pp.Core.Error.{transport_disconnected}
use modbus_pp.Core.Result.{Result, ◌>>=◌, ok, err, fault}
use modbus_pp.Core.Pdu
use modbus_pp.Core.Pdu.{Pdu}
use modbus_pp.Core.Span.{read_word16}
use modbus_pp.Core.Span.Append.{read_word16_here, read_word16_front}
use modbus_pp.Transport.FrameCodec.{wrap_tcp, unwrap_tcp}
use modbus_pp.Transport.FrameCodec.Tcp.{received, unwrap_tcp-wrap_tcp}
use modbus_pp.Transport.Tcp.{
  Socket, TcpTransport, prepend, after_read, read_loop, read_exactly, read_body, read_after_header,
  read_frame, polled, receive,
}
use modbus_pp.Transport.Tcp.Reading.{IsStream}
use modbus_pp.Transport.Tcp.Framing.{IsFrame, tcp_receive-frame}

-- A frame that `wrap_tcp` makes is a frame of the stream.
pub wrap_tcp-IsFrame :
    (unit_id : ℕ) (pdu : Pdu) (transaction_id : ℕ)
    → 1 + length (Pdu.serialize pdu) < 2 ^ 16
    → IsFrame (wrap_tcp unit_id pdu transaction_id)
unfolding wrap_tcp
wrap_tcp-IsFrame unit_id pdu transaction_id h =
    let n = 1 + length (Pdu.serialize pdu) in
    let whole : n % 2 ^ 16 ≡ suc (length (Pdu.serialize pdu)) = omega arith in
    record {
      header =
          hi_byte transaction_id
          ∷ lo_byte transaction_id
          ∷ 0
          ∷ 0
          ∷ hi_byte (n % 2 ^ 16)
          ∷ lo_byte (n % 2 ^ 16)
          ∷ unit_id
          ∷ [];
      body = Pdu.serialize pdu;
      split = refl;
      header_size = refl;
      counted =
          read_word16_here (hi_byte transaction_id ∷ lo_byte transaction_id ∷ 0 ∷ 0 ∷ [])
            (hi_byte (n % 2 ^ 16) ∷ lo_byte (n % 2 ^ 16) ∷ unit_id ∷ [])
          ∙ read_word16_front (n % 2 ^ 16) (unit_id ∷ []) (omega arith)
          ∙ ap ok whole;
    }

module _ {K : Type 0} (socket : Socket K) (incoming : K → List ℕ) where
  -- What was read and what is left are what was there.
  Took : ℕ → List ℕ → Result (List ℕ) × K → Type 0
  Took n before (ok xs, k) = (length xs ≡ n) × (before ≡ xs ++ incoming k)
  Took n before (err e, k) = Unit
  Took n before (fault, k) = Unit

  prepend-Took :
      (n : ℕ) (before bytes : List ℕ) (r : Result (List ℕ) × K)
      → Took n before r
      → Took (length bytes + n) (bytes ++ before) (prepend socket bytes r)
  unfolding Took
  prepend-Took n before bytes (ok xs, k) (p, q) = (
    omega (arith, length-append bytes xs),
    ap (λ zs. bytes ++ zs) q ∙ sym (append_assoc bytes xs (incoming k)),
  )
  prepend-Took n before bytes (err e, k) h = tt
  prepend-Took n before bytes (fault, k) h = tt

  module _ (s : IsStream socket incoming) where
    after_read-Took :
        (go_on : ℕ → K → Result (List ℕ) × K) (wanted : ℕ) (before : List ℕ) (p : List ℕ × K)
        → ((less : ℕ) (k : K) → Took less (incoming k) (go_on less k))
        → length p.0 ≤ wanted
        → p.0 ++ incoming p.1 ≡ before
        → Took wanted before (after_read socket go_on wanted p)
    after_read-Took go_on wanted before ([], k) f le e = unfold Took in tt
    after_read-Took go_on wanted before (b ∷ bytes, k) f le e =
        let less = wanted - length (b ∷ bytes) in
        let sum : length (b ∷ bytes) + less ≡ wanted = omega arith in
        subst (λ n. Took n before (prepend socket (b ∷ bytes) (go_on less k))) sum
          (subst
            (λ zs. Took (length (b ∷ bytes) + less) zs (prepend socket (b ∷ bytes) (go_on less k)))
            e (prepend-Took less (incoming k) (b ∷ bytes) (go_on less k) (f less k)))

    read_loop-Took :
        (rounds wanted : ℕ) (k : K) → Took wanted (incoming k) (read_loop socket rounds wanted k)
    unfolding read_loop
    read_loop-Took rounds zero k = unfold Took in (refl, refl)
    read_loop-Took zero (suc wanted) k = unfold Took in tt
    read_loop-Took (suc rounds) (suc wanted) k =
        after_read-Took (read_loop socket rounds) (suc wanted) (incoming k)
          (socket.read_some (suc wanted) k) (read_loop-Took rounds) (s.read_le (suc wanted) k)
          (s.read_front (suc wanted) k)

    -- A whole frame was read.
    Framed : List ℕ → Result (List ℕ) × K → Type 0
    Framed before (ok xs, k) = IsFrame xs × (before ≡ xs ++ incoming k)
    Framed before (err e, k) = Unit
    Framed before (fault, k) = Unit

    Took-Framed :
        (header before : List ℕ) (n : ℕ) (r : Result (List ℕ) × K)
        → length header ≡ 7
        → read_word16 header 4 ≡ ok (suc n)
        → Took n before r
        → Framed (header ++ before) (prepend socket header r)
    unfolding Took Framed
    Took-Framed header before n (ok xs, k) l c (p, q) = (
      record {
        header = header;
        body = xs;
        split = refl;
        header_size = l;
        counted = c ∙ ap (λ m. ok (suc m)) (sym p);
      },
      ap (λ zs. header ++ zs) q ∙ sym (append_assoc header xs (incoming k)),
    )
    Took-Framed header before n (err e, k) l c h = tt
    Took-Framed header before n (fault, k) l c h = tt

    read_body-Framed :
        (header : List ℕ) (k : K) (m : Result ℕ)
        → length header ≡ 7
        → read_word16 header 4 ≡ m
        → Framed (header ++ incoming k) (read_body socket header (m, k))
    read_body-Framed header k (ok zero) l c = unfold Framed in tt
    read_body-Framed header k (ok (suc n)) l c =
        Took-Framed header (incoming k) n (read_exactly socket n k) l c (read_loop-Took n n k)
    read_body-Framed header k (err e) l c = unfold Framed in tt
    read_body-Framed header k fault l c = unfold Framed in tt

    read_after_header-Framed :
        (before : List ℕ) (r : Result (List ℕ) × K)
        → Took 7 before r
        → Framed before (read_after_header socket r)
    unfolding Took
    read_after_header-Framed before (ok header, k) (p, q) =
        subst (λ zs. Framed zs (read_after_header socket (ok header, k))) (sym q)
          (read_body-Framed header k (read_word16 header 4) p refl)
    read_after_header-Framed before (err e, k) h = unfold Framed in tt
    read_after_header-Framed before (fault, k) h = unfold Framed in tt

    -- The answer of `receive`, its bytes first, is what the stream held before.
    polled-Framed :
        (t : TcpTransport K) (before : List ℕ) (p : Polled × K)
        → incoming p.1 ≡ before
        → Framed before ((polled socket t p).0, (polled socket t p).1.os)
    unfolding read_frame
    polled-Framed t before (poll_failed, k) e = unfold Framed in tt
    polled-Framed t before (poll_expired, k) e = unfold Framed in tt
    polled-Framed t before (poll_ready, k) e =
        subst (λ zs. Framed zs (read_frame socket k)) e
          (read_after_header-Framed (incoming k) (read_exactly socket 7 k) (read_loop-Took 7 7 k))

    -- Where `receive` answers a frame, it is a whole one, and its bytes are those at the front of the
    -- stream; what was behind them is still there. No frame that is cut short is ever answered.
    pub tcp_receive-IsFrame :
        (t : TcpTransport K) (frame : List ℕ)
        → t.connected ≡ true
        → (receive socket t).0 ≡ ok frame
        → IsFrame frame × (incoming t.os ≡ frame ++ incoming (receive socket t).1.os)
    unfolding receive Framed
    tcp_receive-IsFrame t frame c e =
        let polls : receive socket t ≡ polled socket t (socket.poll t.os) =
          ap
            (λ (b : Bool).
              if b then polled socket t (socket.poll t.os) else (err transport_disconnected, t))
            c in
        let answer : Framed (incoming t.os) ((receive socket t).0, (receive socket t).1.os) =
          subst (λ r. Framed (incoming t.os) (r.0, r.1.os)) (sym polls)
            (polled-Framed t (incoming t.os) (socket.poll t.os) (s.poll_front t.os)) in
        subst (λ r. Framed (incoming t.os) (r, (receive socket t).1.os)) e answer

    -- A frame that `wrap_tcp` made of a unit that fits its length field, and that is at the front of
    -- what has arrived or will arrive, is received and unwrapped as its unit number, its 16-bit
    -- transaction number and the unit that `deserialize` reads of its bytes; what is behind it stays.
    pub tcp_receive-wrap_tcp :
        (unit_id : ℕ) (pdu : Pdu) (transaction_id : ℕ) (rest : List ℕ) (t : TcpTransport K)
        → 1 + length (Pdu.serialize pdu) < 2 ^ 16
        → IsWord16 transaction_id
        → t.connected ≡ true
        → incoming t.os ≡ wrap_tcp unit_id pdu transaction_id ++ rest
        → (((receive socket t).0 >>= unwrap_tcp)
            ≡ received unit_id transaction_id (Pdu.deserialize (Pdu.serialize pdu)))
          × (incoming (receive socket t).1.os ≡ rest)
    tcp_receive-wrap_tcp unit_id pdu transaction_id rest t fits word c e =
        let frame = wrap_tcp unit_id pdu transaction_id in
        let (p, q, r) =
          tcp_receive-frame socket incoming s frame rest t
            (wrap_tcp-IsFrame unit_id pdu transaction_id fits) c e in
        (
          ap (λ x. x >>= unwrap_tcp) p
              ∙ ap unwrap_tcp (sym (append-nil frame))
              ∙ unwrap_tcp-wrap_tcp unit_id transaction_id pdu [] word fits,
          r,
        )
