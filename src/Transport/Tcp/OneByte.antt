-- ===== src/Transport/Tcp/OneByte.antt =====
-- A line that moves one byte at a time, on which the theorems are tried.
use modbus_pp.Common.{ℕ, zero, suc, ◌≤◌, ◌<◌, ◌≡◌, refl, List, [], ◌∷◌, ◌++◌, arith, length, take}
use modbus_pp.Transport.Posix.{Polled, poll_expired, poll_ready}
use modbus_pp.Transport.Tcp.{Socket}
use modbus_pp.Transport.Tcp.Reading.{IsStream}
use modbus_pp.Transport.Tcp.Writing.{IsSink}
use modbus_pp.Transport.Tcp.Duplex.{IsDuplex}

pub record Line : Type 0 where
  pub arriving : List ℕ
  pub taken : List ℕ
  pub fds : List ℕ

abbrev pub one_byte : ℕ → List ℕ → List ℕ
one_byte zero xs = []
one_byte (suc n) [] = []
one_byte (suc n) (x ∷ xs) = x ∷ []

abbrev pub behind_one : ℕ → List ℕ → List ℕ
behind_one zero xs = xs
behind_one (suc n) [] = []
behind_one (suc n) (x ∷ xs) = xs

abbrev pub waiting : List ℕ → Polled
waiting [] = poll_expired
waiting (x ∷ xs) = poll_ready

abbrev pub accepted : List ℕ → ℕ
accepted [] = 0
accepted (b ∷ bytes) = 1

abbrev pub line : Socket Line
line = record {
  poll = λ k. (waiting k.arriving, k);
  read_some = λ n k. (one_byte n k.arriving, record k { arriving = behind_one n k.arriving });
  write_some =
      λ bytes k. (accepted bytes, record k { taken = k.taken ++ take (accepted bytes) bytes });
}

one_byte-le : (n : ℕ) (xs : List ℕ) → length (one_byte n xs) ≤ n
one_byte-le zero xs = omega arith
one_byte-le (suc n) [] = omega arith
one_byte-le (suc n) (x ∷ xs) = omega arith

one_byte-pos : (n : ℕ) (xs : List ℕ) → 0 < n → 0 < length xs → 0 < length (one_byte n xs)
one_byte-pos zero xs h k = absurd (omega arith)
one_byte-pos (suc n) [] h k = absurd (omega arith)
one_byte-pos (suc n) (x ∷ xs) h k = omega arith

one_byte-front : (n : ℕ) (xs : List ℕ) → one_byte n xs ++ behind_one n xs ≡ xs
one_byte-front zero xs = refl
one_byte-front (suc n) [] = refl
one_byte-front (suc n) (x ∷ xs) = refl

waiting-ready : (xs : List ℕ) → 0 < length xs → waiting xs ≡ poll_ready
waiting-ready [] h = absurd (omega arith)
waiting-ready (x ∷ xs) h = refl

pub line-IsStream : IsStream line Line.arriving
line-IsStream = record {
  read_le = λ n k. one_byte-le n k.arriving;
  read_pos = λ n k. one_byte-pos n k.arriving;
  read_front = λ n k. one_byte-front n k.arriving;
  poll_front = λ k. refl;
  poll_waiting = λ k. waiting-ready k.arriving;
}

accepted-le : (bytes : List ℕ) → accepted bytes ≤ length bytes
accepted-le [] = omega arith
accepted-le (b ∷ bytes) = omega arith

pub line-IsSink : IsSink line Line.taken
line-IsSink = record { write_le = λ bytes k. accepted-le bytes; write_front = λ bytes k. refl }

accepted_pos : (bytes : List ℕ) → 0 < length bytes → 0 < accepted bytes
accepted_pos [] h = absurd (omega arith)
accepted_pos (b ∷ bytes) h = omega arith

pub line-IsDuplex : IsDuplex line Line.arriving Line.taken
line-IsDuplex = record {
  stream = line-IsStream;
  sink = line-IsSink;
  write_pos = λ bytes k. accepted_pos bytes;
  read_keeps = λ n k. refl;
  poll_keeps = λ k. refl;
  write_keeps = λ bytes k. refl;
}
