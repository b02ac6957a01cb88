-- ===== src/Transport/Rtu/Tests.antt =====
-- The RTU transport on a line that delivers one byte per read, and on one that hung up.
use modbus_pp.Common.{
  ℕ, ◌<◌, ◌≡◌, refl, ◌≢◌, inl, inr, true, false, none, some, List, [], ◌∷◌, ◌++◌, arith, length,
  take, drop, AreBytes,
}
use modbus_pp.Core.Result.{◌>>=◌, ok, fault}
use modbus_pp.Core.Pdu
use modbus_pp.Core.Pdu.{Pdu, make_standard}
use modbus_pp.Transport.FrameCodec.{wrap_rtu, unwrap_rtu}
use modbus_pp.Transport.FrameCodec.Rtu.{received_rtu}
use modbus_pp.Transport.Rtu.Whole.{rtu_receive-wrap_rtu}
use modbus_pp.Transport.Posix.{Polled, poll_expired, poll_ready}
use modbus_pp.Transport.Rtu.Line.{Termios, RtuConfig, configure, b9600, cs5}
use modbus_pp.Transport.Rtu.{Device, RtuTransport, receive}
use modbus_pp.Transport.Rtu.Reading.{IsWorking, IsHungUp, rtu_receive_spins, rtu_receive-All}
use modbus_pp.Transport.Rtu.Settings.{settings_of, asked, IsSupported, settings_of-configure}
use modbus_pp.Transport.Rtu.Consistent.{
  IsConsistent, Operation, perform_all, perform_all-IsConsistent, connecting, disconnecting,
  sending, receiving,
}

-- The state is what arrives before the next silence.
abbrev more : List ℕ → Polled
more [] = poll_expired
more (x ∷ xs) = poll_ready

abbrev quiet_tty : Termios
quiet_tty = record {
  input_speed = b9600;
  output_speed = b9600;
  character_size = cs5;
  flags = λ f. true;
  vmin = 1;
  vtime = 0;
}

abbrev serial : (List ℕ → Polled) → (List ℕ → List ℕ) → Device (List ℕ)
serial poll read = record {
  open_device = λ device k. (some 3, k);
  close = λ fd k. k;
  tcgetattr = λ fd k. some quiet_tty;
  tcsetattr = λ fd tty k. (true, k);
  tcflush = λ fd k. k;
  set_blocking = λ fd k. k;
  write = λ bytes k. (some (length bytes), k);
  tcdrain = λ k. k;
  poll = λ ms k. (poll k, k);
  read = λ n k. (read k, drop 1 k);
}

abbrev slow : Device (List ℕ)
slow = serial more (take 1)

abbrev hung_up : Device (List ℕ)
hung_up = serial (λ k. poll_ready) (λ k. [])

take_one-pos : (k : List ℕ) → 0 < length k → 0 < length (take 1 k)
take_one-pos [] h = absurd (omega arith)
take_one-pos (x ∷ k) h = omega arith

take_one-front : (k : List ℕ) → take 1 k ++ drop 1 k ≡ k
take_one-front [] = refl
take_one-front (x ∷ k) = refl

more-ready : (k : List ℕ) → more k ≡ poll_ready → 0 < length k
more-ready [] h = absurd cc
more-ready (x ∷ k) h = omega arith

more-quiet : (k : List ℕ) → more k ≢ poll_ready → k ≡ []
more-quiet [] h = refl
more-quiet (x ∷ k) h = absurd (h refl)

slow-IsWorking : IsWorking slow (λ k. k)
slow-IsWorking = record {
  read_pos = take_one-pos;
  read_front = take_one-front;
  poll_front = λ ms k. refl;
  poll_more = λ ms k. more-ready k;
  poll_quiet = λ ms k. more-quiet k;
}

hung_up-IsHungUp : IsHungUp hung_up
hung_up-IsHungUp = record { read_end = λ k. refl; poll_event = λ ms k. refl }

abbrev answering : RtuTransport (List ℕ)
answering = record { os = 1 ∷ 3 ∷ 2 ∷ []; fd = some 3; connected = true }

rtu_receive-All_example :
    ((receive slow 4 1000 answering).0 ≡ ok (1 ∷ 3 ∷ 2 ∷ []))
    × ((receive slow 4 1000 answering).1.os ≡ [])
rtu_receive-All_example =
    rtu_receive-All slow (λ k. k) slow-IsWorking 4 1000 answering refl (omega arith) (omega arith)

rtu_receive_spins_example : (receive hung_up 10 1000 answering).0 ≡ fault
rtu_receive_spins_example = rtu_receive_spins hung_up hung_up-IsHungUp 10 1000 answering refl

abbrev even_parity : RtuConfig
even_parity = record {
  device = 47 ∷ [];
  baud_rate = 19200;
  data_bits = 7;
  parity = 69;
  stop_bits = 2;
  read_timeout = 1000;
}

even_parity-IsSupported : IsSupported even_parity
even_parity-IsSupported = record {
  baud_rate = inr (inl refl);
  data_bits = inl refl;
  parity = inr (inl refl);
  stop_bits = inr refl;
}

settings_of-configure_run : settings_of (configure even_parity quiet_tty) ≡ asked even_parity
settings_of-configure_run = settings_of-configure even_parity quiet_tty even_parity-IsSupported

-- A new transport, then a connection, a frame out and one in, and the end.
abbrev fresh : RtuTransport (List ℕ)
fresh = record { os = 7 ∷ []; fd = none; connected = false }

abbrev session : List Operation
session =
    connecting even_parity
    ∷ sending (1 ∷ 2 ∷ [])
    ∷ receiving 4 1000
    ∷ disconnecting
    ∷ connecting even_parity
    ∷ []

perform_all-IsConsistent_run : IsConsistent (perform_all slow session fresh)
perform_all-IsConsistent_run =
    perform_all-IsConsistent slow session fresh (unfold IsConsistent in refl)

abbrev question : Pdu
question = make_standard 3 (0 ∷ 0 ∷ 0 ∷ 1 ∷ [])

question_bytes : Pdu.serialize question ≡ 3 ∷ 0 ∷ 0 ∷ 0 ∷ 1 ∷ []
unfolding make_standard Pdu.serialize
question_bytes = refl

question-AreBytes : AreBytes (1 ∷ Pdu.serialize question)
question-AreBytes = rw question_bytes (omega arith)

length-wrapped : length (wrap_rtu 1 question) ≡ 8
unfolding make_standard Pdu.serialize wrap_rtu
length-wrapped = refl

abbrev answered_line : RtuTransport (List ℕ)
answered_line = record { os = wrap_rtu 1 question; fd = some 3; connected = true }

rtu_receive-wrap_rtu_example :
    (((receive slow 9 1000 answered_line).0 >>= unwrap_rtu)
      ≡ received_rtu 1 (Pdu.deserialize (Pdu.serialize question)))
    × ((receive slow 9 1000 answered_line).1.os ≡ [])
rtu_receive-wrap_rtu_example =
    rtu_receive-wrap_rtu slow (λ k. k) slow-IsWorking 9 1000 1 question answered_line
      question-AreBytes refl refl (omega (arith, length-wrapped))
