-- ===== src/Transport/Rtu/Line.antt =====
-- The settings of the serial line, as RTUTransport::connect makes them. The flag words of `termios`
-- are one set of flags, and the field CSIZE stands by itself.
use modbus_pp.Common.{ℕ, Bool, true, false, List, [], ◌∷◌, ◌==◌, if◌then◌else◌}

pub data Speed : Type 0 where
  b9600 : Speed
  b19200 : Speed
  b38400 : Speed
  b57600 : Speed
  b115200 : Speed
  other_speed : ℕ → Speed

pub data CharacterSize : Type 0 where
  cs5 : CharacterSize
  cs6 : CharacterSize
  cs7 : CharacterSize
  cs8 : CharacterSize

pub data Flag : Type 0 where
  parenb : Flag
  parodd : Flag
  cstopb : Flag
  crtscts : Flag
  cread : Flag
  clocal : Flag
  icanon : Flag
  echo : Flag
  echoe : Flag
  isig : Flag
  ixon : Flag
  ixoff : Flag
  ixany : Flag
  ignbrk : Flag
  brkint : Flag
  parmrk : Flag
  istrip : Flag
  inlcr : Flag
  igncr : Flag
  icrnl : Flag
  opost : Flag

abbrev flag_number : Flag → ℕ
flag_number parenb = 0
flag_number parodd = 1
flag_number cstopb = 2
flag_number crtscts = 3
flag_number cread = 4
flag_number clocal = 5
flag_number icanon = 6
flag_number echo = 7
flag_number echoe = 8
flag_number isig = 9
flag_number ixon = 10
flag_number ixoff = 11
flag_number ixany = 12
flag_number ignbrk = 13
flag_number brkint = 14
flag_number parmrk = 15
flag_number istrip = 16
flag_number inlcr = 17
flag_number igncr = 18
flag_number icrnl = 19
flag_number opost = 20

pub record Termios : Type 0 where
  pub input_speed : Speed
  pub output_speed : Speed
  pub character_size : CharacterSize
  pub flags : Flag → Bool
  pub vmin : ℕ
  pub vtime : ℕ

-- Parity is the character 'N', 'E' or 'O'.
pub record RtuConfig : Type 0 where
  pub device : List ℕ
  pub baud_rate : ℕ
  pub data_bits : ℕ
  pub parity : ℕ
  pub stop_bits : ℕ
  pub read_timeout : ℕ

abbrev put : Flag → Bool → (Flag → Bool) → Flag → Bool
put f b flags g = if flag_number g == flag_number f then b else flags g

-- `word |= f | ...` and `word &= ~(f | ...)`
abbrev pub raise : List Flag → (Flag → Bool) → Flag → Bool
raise [] flags = flags
raise (f ∷ fs) flags = raise fs (put f true flags)

abbrev pub clear : List Flag → (Flag → Bool) → Flag → Bool
clear [] flags = flags
clear (f ∷ fs) flags = clear fs (put f false flags)

-- The first `case` that matches, or the default.
abbrev switch {ℓ} : {A : Type ℓ} → ℕ → List (ℕ × A) → A → A
switch n [] d = d
switch n ((m, a) ∷ cases) d = if n == m then a else switch n cases d

unfoldable pub speed_of : ℕ → Speed
speed_of baud_rate =
    switch baud_rate
      ((9600, b9600) ∷ (19200, b19200) ∷ (38400, b38400) ∷ (57600, b57600) ∷ (115200, b115200) ∷ [])
      b9600

unfoldable pub character_size_of : ℕ → CharacterSize
character_size_of data_bits = switch data_bits ((7, cs7) ∷ (8, cs8) ∷ []) cs8

abbrev pub parity_flags : ℕ → (Flag → Bool) → Flag → Bool
parity_flags parity =
    switch parity
      ((69, λ flags. clear (parodd ∷ []) (raise (parenb ∷ []) flags))
        ∷ (79, λ flags. raise (parodd ∷ []) (raise (parenb ∷ []) flags))
        ∷ [])
      (clear (parenb ∷ []))

abbrev pub stop_flags : ℕ → (Flag → Bool) → Flag → Bool
stop_flags stop_bits = if stop_bits == 2 then raise (cstopb ∷ []) else clear (cstopb ∷ [])

abbrev pub raw_flags : (Flag → Bool) → Flag → Bool
raw_flags flags = clear (opost ∷ []) (
    clear (ixon ∷ ixoff ∷ ixany ∷ ignbrk ∷ brkint ∷ parmrk ∷ istrip ∷ inlcr ∷ igncr ∷ icrnl ∷ []) (
      clear (icanon ∷ echo ∷ echoe ∷ isig ∷ [])
        (raise (cread ∷ clocal ∷ []) (clear (crtscts ∷ []) flags))))

unfoldable pub configure : RtuConfig → Termios → Termios
configure config tty = record {
  input_speed = speed_of config.baud_rate;
  output_speed = speed_of config.baud_rate;
  character_size = character_size_of config.data_bits;
  flags = raw_flags (stop_flags config.stop_bits (parity_flags config.parity tty.flags));
  vmin = 0;
  vtime = 1;
}
