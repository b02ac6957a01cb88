-- ===== src/Transport/Tcp/Reading.antt =====
-- The reads of the TCP transport over a stream of bytes, in whatever pieces it delivers them.
use modbus_pp.Transport.Posix.{poll_ready}
use modbus_pp.Common.{
  ℕ, zero, suc, ◌-◌, ◌≤◌, ◌<◌, ◌≡◌, refl, sym, ap, subst, ◌∙◌, ◌≢◌, List, [], ◌∷◌, ◌++◌, arith,
  length, length-append,
}
use modbus_pp.Core.Result.{Result, ok, err, fault}
use modbus_pp.Transport.Tcp.{Socket, prepend, after_read, read_loop}

-- What a connected socket promises: `incoming` is what the other end has sent and was not read yet.
-- A read takes from its front, at most what was asked, and something where something is there; and
-- `poll` reports that something is there.
pub record IsStream {K : Type 0} (socket : Socket K) (incoming : K → List ℕ) : Type 0 where
  pub read_le : (n : ℕ) (k : K) → length (socket.read_some n k).0 ≤ n
  pub read_pos :
      (n : ℕ) (k : K) → 0 < n → 0 < length (incoming k) → 0 < length (socket.read_some n k).0
  pub read_front :
      (n : ℕ) (k : K) → (socket.read_some n k).0 ++ incoming (socket.read_some n k).1 ≡ incoming k
  pub poll_front : (k : K) → incoming (socket.poll k).1 ≡ incoming k
  pub poll_waiting : (k : K) → 0 < length (incoming k) → (socket.poll k).0 ≡ poll_ready

-- Where two splits of a list meet, the shorter front is a front of the longer.
split_longer :
    (bytes rest xs ys : List ℕ)
    → length bytes ≤ length xs
    → bytes ++ rest ≡ xs ++ ys
    → (more : List ℕ) × (xs ≡ bytes ++ more) × (rest ≡ more ++ ys)
split_longer [] rest xs ys h p = (xs, refl, p)
split_longer (b ∷ bytes) rest [] ys h p = absurd (omega arith)
split_longer (b ∷ bytes) rest (x ∷ xs) ys h p =
    let (more, q, r) = split_longer bytes rest xs ys (omega arith) cc in (more, cc, r)

module _ {K : Type 0} (socket : Socket K) where
  pub prepend-ne-fault :
      (bytes : List ℕ) (r : Result (List ℕ) × K) → r.0 ≢ fault → (prepend socket bytes r).0 ≢ fault
  prepend-ne-fault bytes (ok rest, k) h = λ p. cc
  prepend-ne-fault bytes (err e, k) h = λ p. cc
  prepend-ne-fault bytes (fault, k) h = h

  after_read-ne-fault :
      (go_on : ℕ → K → Result (List ℕ) × K) (wanted : ℕ) (p : List ℕ × K)
      → ((less : ℕ) (k : K) → less < wanted → (go_on less k).0 ≢ fault)
      → 0 < wanted
      → (after_read socket go_on wanted p).0 ≢ fault
  after_read-ne-fault go_on wanted ([], k) h pos = λ p. cc
  after_read-ne-fault go_on wanted (b ∷ bytes, k) h pos =
      prepend-ne-fault (b ∷ bytes) (go_on (wanted - length (b ∷ bytes)) k)
        (h (wanted - length (b ∷ bytes)) k (omega arith))

  -- As many rounds as bytes are wanted are enough, whatever the reads answer.
  pub read_loop-ne-fault :
      (rounds wanted : ℕ) (k : K) → wanted ≤ rounds → (read_loop socket rounds wanted k).0 ≢ fault
  unfolding read_loop
  read_loop-ne-fault rounds zero k h = λ p. cc
  read_loop-ne-fault zero (suc wanted) k h = absurd (omega arith)
  read_loop-ne-fault (suc rounds) (suc wanted) k h =
      after_read-ne-fault (read_loop socket rounds) (suc wanted) (socket.read_some (suc wanted) k)
        (λ less k' lt. read_loop-ne-fault rounds less k' (omega arith)) (omega arith)

  module _ (incoming : K → List ℕ) where
    -- A read of `xs` at the front of what is coming: it is read whole, and nothing behind it.
    unfoldable pub Reads : Result (List ℕ) × K → List ℕ → List ℕ → Type 0
    Reads r xs ys = (k : K) × (r ≡ (ok xs, k)) × (incoming k ≡ ys)

    pub prepend-Reads :
        (bytes xs ys : List ℕ) (r : Result (List ℕ) × K)
        → Reads r xs ys
        → Reads (prepend socket bytes r) (bytes ++ xs) ys
    unfolding Reads
    prepend-Reads bytes xs ys r (k, p, q) = (k, rw p refl, q)

    after_read-Reads :
        (go_on : ℕ → K → Result (List ℕ) × K) (xs ys : List ℕ) (p : List ℕ × K)
        → ((more : List ℕ) (k : K)
            → length more < length xs
            → incoming k ≡ more ++ ys
            → Reads (go_on (length more) k) more ys)
        → length p.0 ≤ length xs
        → 0 < length p.0
        → p.0 ++ incoming p.1 ≡ xs ++ ys
        → Reads (after_read socket go_on (length xs) p) xs ys
    after_read-Reads go_on xs ys ([], k) h le pos e = absurd (omega arith)
    after_read-Reads go_on xs ys (b ∷ bytes, k) h le pos e =
        let (more, p, q) = split_longer (b ∷ bytes) (incoming k) xs ys le e in
        let left : length xs - length (b ∷ bytes) ≡ length more =
          omega (arith, ap length p, length-append (b ∷ bytes) more) in
        let rest : Reads (go_on (length xs - length (b ∷ bytes)) k) more ys =
          rw left (h more k (omega (arith, ap length p, length-append (b ∷ bytes) more)) q) in
        subst
          (λ zs.
            Reads (prepend socket (b ∷ bytes) (go_on (length xs - length (b ∷ bytes)) k)) zs ys)
          (sym p) (prepend-Reads (b ∷ bytes) more ys _ rest)

    module _ (h : IsStream socket incoming) where
      -- Where enough is coming, the loop reads exactly that, in however many pieces it arrives.
      pub read_loop-Reads :
          (rounds : ℕ) (xs ys : List ℕ) (k : K)
          → length xs ≤ rounds
          → incoming k ≡ xs ++ ys
          → Reads (read_loop socket rounds (length xs) k) xs ys
      unfolding read_loop Reads
      read_loop-Reads rounds [] ys k le e = (k, refl, e)
      read_loop-Reads zero (x ∷ xs) ys k le e = absurd (omega arith)
      read_loop-Reads (suc rounds) (x ∷ xs) ys k le e =
          after_read-Reads (read_loop socket rounds) (x ∷ xs) ys
            (socket.read_some (length (x ∷ xs)) k)
            (λ more k' lt p. read_loop-Reads rounds more ys k' (omega arith) p)
            (h.read_le (length (x ∷ xs)) k)
            (h.read_pos (length (x ∷ xs)) k (omega arith) (omega (arith, ap length e)))
            (h.read_front (length (x ∷ xs)) k ∙ e)
