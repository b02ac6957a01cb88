-- ===== src/Transport/Rtu/Reading.antt =====
-- The reads of the RTU transport: when the loop of `receive` ends, and with what.
use modbus_pp.Common.{
  ℕ, zero, suc, ◌+◌, ◌<◌, ◌≡◌, refl, ap, ◌∙◌, ◌≢◌, Bool, true, List, [], ◌∷◌, ◌++◌, append-nil,
  append_assoc, arith, if◌then◌else◌, length, length-append,
}
use modbus_pp.Core.Error.{transport_disconnected}
use modbus_pp.Core.Result.{Result, ok, err, fault}
use modbus_pp.Transport.Posix.{Polled, poll_failed, poll_expired, poll_ready}
use modbus_pp.Transport.Rtu.{
  Device, RtuTransport, after_poll, receive_loop, unless_empty, polled, receive,
}

-- A line that works: `incoming` is what arrives before the line next falls silent. A read takes a
-- front of it, something where something is there, and `poll` says that there is more only where
-- there is.
pub record IsWorking {K : Type 0} (calls : Device K) (incoming : K → List ℕ) : Type 0 where
  pub read_pos : (k : K) → 0 < length (incoming k) → 0 < length (calls.read 256 k).0
  pub read_front : (k : K) → (calls.read 256 k).0 ++ incoming (calls.read 256 k).1 ≡ incoming k
  pub poll_front : (ms : ℕ) (k : K) → incoming (calls.poll ms k).1 ≡ incoming k
  pub poll_more : (ms : ℕ) (k : K) → (calls.poll ms k).0 ≡ poll_ready → 0 < length (incoming k)
  pub poll_quiet : (ms : ℕ) (k : K) → (calls.poll ms k).0 ≢ poll_ready → incoming k ≡ []

-- A line at whose other end nobody is any more: a read finds the end of the file, and `poll` says at
-- once that the descriptor has an event, which is the hang-up.
pub record IsHungUp {K : Type 0} (calls : Device K) : Type 0 where
  pub read_end : (k : K) → (calls.read 256 k).0 ≡ []
  pub poll_event : (ms : ℕ) (k : K) → (calls.poll ms k).0 ≡ poll_ready

module _ {K : Type 0} (calls : Device K) where
  after_poll_ready :
      (go_on : List ℕ → K → Result (List ℕ) × K) (buffer : List ℕ) (p : Polled × K)
      → p.0 ≡ poll_ready
      → after_poll calls go_on buffer p ≡ go_on buffer p.1
  after_poll_ready go_on buffer p e = rw e refl

  module _ (h : IsHungUp calls) where
    receive_loop_spins :
        (rounds : ℕ) (buffer : List ℕ) (k : K) → (receive_loop calls rounds buffer k).0 ≡ fault
    unfolding receive_loop
    receive_loop_spins zero buffer k = refl
    receive_loop_spins (suc rounds) buffer k =
        let k1 = (calls.read 256 k).1 in
        ap (λ r. r.0)
          (after_poll_ready (receive_loop calls rounds) (buffer ++ (calls.read 256 k).0)
            (calls.poll 5 k1) (h.poll_event 5 k1))
        ∙ receive_loop_spins rounds (buffer ++ (calls.read 256 k).0) (calls.poll 5 k1).1

    polled_spins :
        (rounds : ℕ) (t : RtuTransport K) (p : Polled × K)
        → p.0 ≡ poll_ready
        → (polled calls rounds t p).0 ≡ fault
    polled_spins rounds t p e = rw (e, receive_loop_spins rounds [] p.1) refl

    -- On a line that hung up `receive` never ends: no number of rounds of its loop is enough, and
    -- the timeout that it was given does not count.
    pub rtu_receive_spins :
        (rounds timeout : ℕ) (t : RtuTransport K)
        → t.connected ≡ true
        → (receive calls rounds timeout t).0 ≡ fault
    unfolding receive
    rtu_receive_spins rounds timeout t c =
        ap
          (λ (b : Bool).
            (if b
              then polled calls rounds t (calls.poll timeout t.os)
              else (err transport_disconnected, t)).0)
          c
        ∙ polled_spins rounds t (calls.poll timeout t.os) (h.poll_event timeout t.os)

  module _ (incoming : K → List ℕ) (w : IsWorking calls incoming) where
    after_poll-All :
        (go_on : List ℕ → K → Result (List ℕ) × K) (buffer : List ℕ) (p : Polled × K)
        → (p.0 ≡ poll_ready
            → (k' : K) × (go_on buffer p.1 ≡ (ok (buffer ++ incoming p.1), k'))
              × (incoming k' ≡ []))
        → (p.0 ≢ poll_ready → incoming p.1 ≡ [])
        → (k' : K) × (after_poll calls go_on buffer p ≡ (ok (buffer ++ incoming p.1), k'))
          × (incoming k' ≡ [])
    after_poll-All go_on buffer (poll_failed, k) f g =
        let e = g (λ p. cc) in (k, rw e (rw (append-nil buffer) refl), e)
    after_poll-All go_on buffer (poll_expired, k) f g =
        let e = g (λ p. cc) in (k, rw e (rw (append-nil buffer) refl), e)
    after_poll-All go_on buffer (poll_ready, k) f g = f refl

    -- One round more than bytes arrive is enough, and all of them are read.
    receive_loop-All :
        (rounds : ℕ) (buffer : List ℕ) (k : K)
        → length (incoming k) < rounds
        → (k' : K) × (receive_loop calls rounds buffer k ≡ (ok (buffer ++ incoming k), k'))
          × (incoming k' ≡ [])
    unfolding receive_loop
    receive_loop-All zero buffer k le = absurd (omega arith)
    receive_loop-All (suc rounds) buffer k le =
        let bytes = (calls.read 256 k).0 in
        let k1 = (calls.read 256 k).1 in
        let k2 = (calls.poll 5 k1).1 in
        let front : bytes ++ incoming k2 ≡ incoming k =
          ap (λ zs. bytes ++ zs) (w.poll_front 5 k1) ∙ w.read_front k in
        let sum : length bytes + length (incoming k1) ≡ length (incoming k) =
          omega (arith, length-append bytes (incoming k1), ap length (w.read_front k)) in
        let (k', p, q) =
          after_poll-All (receive_loop calls rounds) (buffer ++ bytes) (calls.poll 5 k1)
            (λ ready. receive_loop-All rounds (buffer ++ bytes) k2 (
              omega
                (arith, sum, w.poll_more 5 k1 ready, w.read_pos k, ap length (w.poll_front 5 k1))))
            (λ quiet. w.poll_front 5 k1 ∙ w.poll_quiet 5 k1 quiet) in
        (
          k',
          p
              ∙ ap (λ zs. (ok zs, k'))
                  (append_assoc buffer bytes (incoming k2) ∙ ap (λ zs. buffer ++ zs) front),
          q,
        )

    unless_empty_filled : (xs : List ℕ) → 0 < length xs → unless_empty calls (ok xs) ≡ ok xs
    unless_empty_filled [] h = absurd (omega arith)
    unless_empty_filled (x ∷ xs) h = refl

    polled-All :
        (rounds : ℕ) (t : RtuTransport K) (p : Polled × K)
        → (p.0 ≢ poll_ready → incoming p.1 ≡ [])
        → 0 < length (incoming p.1)
        → length (incoming p.1) < rounds
        → ((polled calls rounds t p).0 ≡ ok (incoming p.1))
          × (incoming (polled calls rounds t p).1.os ≡ [])
    polled-All rounds t (poll_failed, k) f pos le = absurd (omega (arith, ap length (f (λ p. cc))))
    polled-All rounds t (poll_expired, k) f pos le = absurd (omega (arith, ap length (f (λ p. cc))))
    polled-All rounds t (poll_ready, k) f pos le =
        let (k', q, s) = receive_loop-All rounds [] k le in
        rw (q, unless_empty_filled (incoming k) pos) (refl, s)

    -- What arrives on a line that works, up to the next silence, is answered by one call of `receive`,
    -- all of it, in order and once, in however many pieces the reads deliver it; the loop takes at
    -- most one round more than there are bytes.
    pub rtu_receive-All :
        (rounds timeout : ℕ) (t : RtuTransport K)
        → t.connected ≡ true
        → 0 < length (incoming t.os)
        → length (incoming t.os) < rounds
        → ((receive calls rounds timeout t).0 ≡ ok (incoming t.os))
          × (incoming (receive calls rounds timeout t).1.os ≡ [])
    unfolding receive
    rtu_receive-All rounds timeout t c pos le =
        let p = calls.poll timeout t.os in
        let same : incoming p.1 ≡ incoming t.os = w.poll_front timeout t.os in
        let (q, r) =
          polled-All rounds t p (λ quiet. same ∙ w.poll_quiet timeout t.os quiet)
            (omega (arith, ap length same)) (omega (arith, ap length same)) in
        let polls : receive calls rounds timeout t ≡ polled calls rounds t p =
          ap (λ (b : Bool). if b then polled calls rounds t p else (err transport_disconnected, t))
            c in
        rw polls (q ∙ ap ok same, r)
