-- ===== src/Transport/Rtu/Settings.antt =====
-- The line that RTUTransport::connect sets up is the one that the configuration asks for.
use modbus_pp.Common.{
  ℕ, ◌≡◌, refl, ◌∙◌, ◌⊎◌, inl, inr, Bool, true, false, [], ◌∷◌, ◌==◌, if◌then◌else◌,
}
use modbus_pp.Transport.Rtu.Line.{
  Speed, CharacterSize, Flag, Termios, RtuConfig, raise, clear, speed_of, character_size_of,
  parity_flags, stop_flags, raw_flags, configure, b9600, b19200, b38400, b57600, b115200,
  other_speed, cs5, cs6, cs7, cs8, parenb, parodd, cstopb,
}

-- A line as its two ends must agree on it: speed, size of a character, parity and stop bits.
pub record Settings : Type 0 where
  pub speed : ℕ
  pub bits : ℕ
  pub parity : ℕ
  pub stop : ℕ

abbrev baud_of : Speed → ℕ
baud_of b9600 = 9600
baud_of b19200 = 19200
baud_of b38400 = 38400
baud_of b57600 = 57600
baud_of b115200 = 115200
baud_of (other_speed n) = n

abbrev bits_of : CharacterSize → ℕ
bits_of cs5 = 5
bits_of cs6 = 6
bits_of cs7 = 7
bits_of cs8 = 8

abbrev parity_of : (Flag → Bool) → ℕ
parity_of flags = if flags parenb then (if flags parodd then 79 else 69) else 78

abbrev stop_of : (Flag → Bool) → ℕ
stop_of flags = if flags cstopb then 2 else 1

-- How a device that has these `termios` talks.
abbrev pub settings_of : Termios → Settings
settings_of tty = record {
  speed = baud_of tty.input_speed;
  bits = bits_of tty.character_size;
  parity = parity_of tty.flags;
  stop = stop_of tty.flags;
}

abbrev pub asked : RtuConfig → Settings
asked config = record {
  speed = config.baud_rate;
  bits = config.data_bits;
  parity = config.parity;
  stop = config.stop_bits;
}

pub record IsSupported (config : RtuConfig) : Type 0 where
  pub baud_rate :
      (config.baud_rate ≡ 9600)
      ⊎ (config.baud_rate ≡ 19200)
      ⊎ (config.baud_rate ≡ 38400)
      ⊎ (config.baud_rate ≡ 57600)
      ⊎ (config.baud_rate ≡ 115200)
  pub data_bits : (config.data_bits ≡ 7) ⊎ (config.data_bits ≡ 8)
  pub parity : (config.parity ≡ 78) ⊎ (config.parity ≡ 69) ⊎ (config.parity ≡ 79)
  pub stop_bits : (config.stop_bits ≡ 1) ⊎ (config.stop_bits ≡ 2)

baud_of-speed_of :
    (n : ℕ)
    → (n ≡ 9600) ⊎ (n ≡ 19200) ⊎ (n ≡ 38400) ⊎ (n ≡ 57600) ⊎ (n ≡ 115200)
    → baud_of (speed_of n) ≡ n
unfolding speed_of
baud_of-speed_of n (inl p) = rw p refl
baud_of-speed_of n (inr (inl p)) = rw p refl
baud_of-speed_of n (inr (inr (inl p))) = rw p refl
baud_of-speed_of n (inr (inr (inr (inl p)))) = rw p refl
baud_of-speed_of n (inr (inr (inr (inr p)))) = rw p refl

bits_of-character_size_of : (n : ℕ) → (n ≡ 7) ⊎ (n ≡ 8) → bits_of (character_size_of n) ≡ n
unfolding character_size_of
bits_of-character_size_of n (inl p) = rw p refl
bits_of-character_size_of n (inr p) = rw p refl

-- Neither the stop bits nor the raw mode touch the flags of the parity.
parity_of-stop_flags :
    (n : ℕ) (flags : Flag → Bool) → parity_of (raw_flags (stop_flags n flags)) ≡ parity_of flags
parity_of-stop_flags n flags =
    elim (n == 2)
      as (λ (b : Bool).
        parity_of (raw_flags ((if b then raise (cstopb ∷ []) else clear (cstopb ∷ [])) flags))
        ≡ parity_of flags) [ true ↦ refl | false ↦ refl ]

parity_of-parity_flags :
    (n : ℕ) (flags : Flag → Bool)
    → (n ≡ 78) ⊎ (n ≡ 69) ⊎ (n ≡ 79)
    → parity_of (parity_flags n flags) ≡ n
parity_of-parity_flags n flags (inl p) = rw p refl
parity_of-parity_flags n flags (inr (inl p)) = rw p refl
parity_of-parity_flags n flags (inr (inr p)) = rw p refl

stop_of-stop_flags :
    (n : ℕ) (flags : Flag → Bool) → (n ≡ 1) ⊎ (n ≡ 2) → stop_of (raw_flags (stop_flags n flags)) ≡ n
stop_of-stop_flags n flags (inl p) = rw p refl
stop_of-stop_flags n flags (inr p) = rw p refl

-- Where the configuration is one that the source lists, the device talks as it asks, whatever its
-- settings were before.
pub settings_of-configure :
    (config : RtuConfig) (tty : Termios)
    → IsSupported config
    → settings_of (configure config tty) ≡ asked config
unfolding configure
settings_of-configure config tty h =
    let flags = parity_flags config.parity tty.flags in
    rw
      (
        baud_of-speed_of config.baud_rate h.baud_rate,
        bits_of-character_size_of config.data_bits h.data_bits,
        parity_of-stop_flags config.stop_bits flags
            ∙ parity_of-parity_flags config.parity tty.flags h.parity,
        stop_of-stop_flags config.stop_bits flags h.stop_bits,
      )
      refl
