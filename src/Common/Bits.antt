-- ===== src/Common/Bits.antt =====
-- Laws of `&`, `|` and `^` on unsigned words, from the digit recursion that they stand for.
use Prim.Native.Nat.{ℕ, zero, suc, ◌+◌, ◌*◌, ◌/◌, ◌%◌, ◌^◌, ◌≤◌, ◌<◌, min, max, differ}
use Prim.Native.Nat.{bit_and, bit_or, bit_xor, digits, bitwise}
use Prim.Native.Nat.{bit_and-bitwise, bit_or-bitwise, bit_xor-bitwise}
use mathlib.Core.Logic.{◌↔◌}
use mathlib.Core.Path.{◌≡◌, refl, sym, ap, ap₂, ◌∙◌}
use native.Mathlib.Nat.{pow-suc}
use native.Mathlib.Omega.{arith}

-- More fuel than the first operand needs changes nothing.
module _ (unit : ℕ → ℕ) (op : ℕ → ℕ → ℕ) where
  digits_enough : (f g a b : ℕ) → a ≤ f → a ≤ g → digits unit op f a b ≡ digits unit op g a b
  digits_enough zero zero a b p q = refl
  digits_enough zero (suc g) zero b p q = refl
  digits_enough zero (suc g) (suc a) b p q = absurd (omega arith)
  digits_enough (suc f) zero zero b p q = refl
  digits_enough (suc f) zero (suc a) b p q = absurd (omega arith)
  digits_enough (suc f) (suc g) zero b p q = refl
  digits_enough (suc f) (suc g) (suc a) b p q =
      rw (digits_enough f g (suc a / 2) (b / 2) (omega arith) (omega arith))

  bitwise_low :
      (a b : ℕ)
      → bitwise unit op (suc a) b ≡ bitwise unit op (suc a / 2) (b / 2) * 2 + op (suc a % 2) (b % 2)
  bitwise_low a b =
      omega (arith, digits_enough a (suc a / 2) (suc a / 2) (b / 2) (omega arith) (omega arith))

-- The lowest bit of a result is that of the operands' lowest bits.
bit_and_low : (a b : ℕ) → bit_and a b ≡ bit_and (a / 2) (b / 2) * 2 + min (a % 2) (b % 2)
bit_and_low zero b = simp bit_and-bitwise (omega arith)
bit_and_low (suc a) b = simp bit_and-bitwise (bitwise_low (λ y. 0) min a b)

bit_or_low : (a b : ℕ) → bit_or a b ≡ bit_or (a / 2) (b / 2) * 2 + max (a % 2) (b % 2)
bit_or_low zero b = simp bit_or-bitwise (omega arith)
bit_or_low (suc a) b = simp bit_or-bitwise (bitwise_low (λ y. y) max a b)

digit_sum : (x y : ℕ) → x < 2 → y < 2 → differ x y ≡ (x + y) % 2
digit_sum zero y p q = omega arith
digit_sum (suc zero) zero p q = refl
digit_sum (suc zero) (suc zero) p q = refl
digit_sum (suc zero) (suc (suc y)) p q = absurd (omega arith)
digit_sum (suc (suc x)) y p q = absurd (omega arith)

bit_xor_low : (a b : ℕ) → bit_xor a b ≡ bit_xor (a / 2) (b / 2) * 2 + (a + b) % 2
bit_xor_low zero b = simp bit_xor-bitwise (omega arith)
bit_xor_low (suc a) b = omega (
  arith,
  bit_xor-bitwise (suc a) b,
  bit_xor-bitwise (suc a / 2) (b / 2),
  bitwise_low (λ y. y) differ a b,
  digit_sum (suc a % 2) (b % 2) (omega arith) (omega arith),
)

or-zero_upto : (n a : ℕ) → a ≤ n → bit_or a 0 ≡ a
or-zero_upto n zero h = refl
or-zero_upto zero (suc a) h = absurd (omega arith)
or-zero_upto (suc n) (suc a) h =
    omega (arith, bit_or_low (suc a) 0, or-zero_upto n (suc a / 2) (omega arith))

pub bit_or-zero : (a : ℕ) → bit_or a 0 ≡ a
bit_or-zero a = or-zero_upto a a (omega arith)

and-zero_upto : (n a : ℕ) → a ≤ n → bit_and a 0 ≡ 0
and-zero_upto n zero h = refl
and-zero_upto zero (suc a) h = absurd (omega arith)
and-zero_upto (suc n) (suc a) h =
    omega (arith, bit_and_low (suc a) 0, and-zero_upto n (suc a / 2) (omega arith))

bit_and-zero : (a : ℕ) → bit_and a 0 ≡ 0
bit_and-zero a = and-zero_upto a a (omega arith)

-- A single bit is read and set by arithmetic.
pub bit_and-one : (a : ℕ) → bit_and a 1 ≡ a % 2
bit_and-one a = omega (arith, bit_and_low a 1, bit_and-zero (a / 2))

pub bit_and-two : (a : ℕ) → bit_and a 2 ≡ a / 2 % 2 * 2
bit_and-two a = omega (arith, bit_and_low a 2, bit_and-one (a / 2))

pub bit_or-one : (a : ℕ) → bit_or a 1 ≡ a / 2 * 2 + 1
bit_or-one a = omega (arith, bit_or_low a 1, bit_or-zero (a / 2))

pub bit_or-two : (a : ℕ) → bit_or a 2 ≡ (a / 4 * 2 + 1) * 2 + a % 2
bit_or-two a = omega (arith, bit_or_low a 2, bit_or-one (a / 2))

-- A field that is shifted above another one is joined to it by a sum.
pub bit_or_shifted : (k q r : ℕ) → r < 2 ^ k → bit_or (q * 2 ^ k) r ≡ q * 2 ^ k + r
bit_or_shifted zero q r h = ground (arith, bit_or-zero q)
bit_or_shifted (suc k) q r h = ground (
  arith,
  ap (λ (t : ℕ). q * t) (pow-suc 2 k),
  bit_or_low (q * 2 ^ suc k) r,
  bit_or_shifted k q (r / 2) (omega arith),
)

pub bit_or_field : (k q field r : ℕ) → field ≡ q * 2 ^ k → r < 2 ^ k → bit_or field r ≡ field + r
bit_or_field k q field r e h = rw e (bit_or_shifted k q r h)

-- `^` on words of `k` bits stays within them, and undoes itself.
pub bit_xor-lt : (k a b : ℕ) → a < 2 ^ k → b < 2 ^ k → bit_xor a b < 2 ^ k
bit_xor-lt zero a b h g = ground (arith, bit_xor_low a b)
bit_xor-lt (suc k) a b h g = omega (
  arith,
  pow-suc 2 k,
  bit_xor_low a b,
  bit_xor-lt k (a / 2) (b / 2) (omega (arith, pow-suc 2 k)) (omega (arith, pow-suc 2 k)),
)

pub zero-bit_xor : (b : ℕ) → bit_xor 0 b ≡ b
zero-bit_xor b = bit_xor-bitwise 0 b

pub bit_xor_cancel_left : (k a b : ℕ) → a < 2 ^ k → b < 2 ^ k → bit_xor a (bit_xor a b) ≡ b
bit_xor_cancel_left zero a b h g =
    let a0 : a ≡ 0 = omega arith in let b0 : b ≡ 0 = omega arith in rw (a0, b0)
bit_xor_cancel_left (suc k) a b h g = omega (
  arith,
  pow-suc 2 k,
  bit_xor_low a b,
  bit_xor_low a (bit_xor a b),
  ap (bit_xor (a / 2)) {x = bit_xor a b / 2} {y = bit_xor (a / 2) (b / 2)}
      (omega (arith, bit_xor_low a b)),
  bit_xor_cancel_left k (a / 2) (b / 2) (omega (arith, pow-suc 2 k)) (omega (arith, pow-suc 2 k)),
)

pub bit_xor_comm : (k a b : ℕ) → a < 2 ^ k → b < 2 ^ k → bit_xor a b ≡ bit_xor b a
bit_xor_comm zero a b h g =
    let a0 : a ≡ 0 = omega arith in let b0 : b ≡ 0 = omega arith in rw (a0, b0)
bit_xor_comm (suc k) a b h g = omega (
  arith,
  pow-suc 2 k,
  bit_xor_low a b,
  bit_xor_low b a,
  bit_xor_comm k (a / 2) (b / 2) (omega (arith, pow-suc 2 k)) (omega (arith, pow-suc 2 k)),
)

one_field : (p : ℕ) → p * 2 ^ 0 + 0 ≡ p
one_field p = omega arith

half_field : (k p r : ℕ) → (p * 2 ^ suc k + r) / 2 ≡ p * 2 ^ k + r / 2
half_field k p r = omega (arith, ap (λ (t : ℕ). p * t) (pow-suc 2 k))

-- `^` works on the high and the low fields of its operands apart.
pub bit_xor_fields :
    (k p q r s : ℕ)
    → r < 2 ^ k
    → s < 2 ^ k
    → bit_xor (p * 2 ^ k + r) (q * 2 ^ k + s) ≡ bit_xor p q * 2 ^ k + bit_xor r s
bit_xor_fields zero p q r s h g =
    let r0 : r ≡ 0 = omega arith in
    let s0 : s ≡ 0 = omega arith in
    rw (r0, s0) (ground (arith, ap₂ bit_xor (one_field p) (one_field q)))
bit_xor_fields (suc k) p q r s h g = omega (
  arith,
  ap (λ (t : ℕ). p * t) (pow-suc 2 k),
  ap (λ (t : ℕ). q * t) (pow-suc 2 k),
  ap (λ (t : ℕ). bit_xor p q * t) (pow-suc 2 k),
  bit_xor_low (p * 2 ^ suc k + r) (q * 2 ^ suc k + s),
  bit_xor_low r s,
  ap₂ bit_xor (half_field k p r) (half_field k q s),
  bit_xor_fields k p q (r / 2) (s / 2) (omega (arith, pow-suc 2 k)) (omega (arith, pow-suc 2 k)),
)

pub bit_or-lt : (k a b : ℕ) → a < 2 ^ k → b < 2 ^ k → bit_or a b < 2 ^ k
bit_or-lt zero a b h l = ground (arith, bit_or-zero a)
bit_or-lt (suc k) a b h l =
    omega (arith, bit_or_low a b, bit_or-lt k (a / 2) (b / 2) (omega arith) (omega arith))

-- A union of bits is empty only where both sides are.
pub bit_or_empty : (k a b : ℕ) → a < 2 ^ k → b < 2 ^ k → bit_or a b ≡ 0 → (a ≡ 0) × (b ≡ 0)
bit_or_empty zero a b h l e = (omega arith, omega arith)
bit_or_empty (suc k) a b h l e =
    let (p, q) =
      bit_or_empty k (a / 2) (b / 2) (omega arith) (omega arith) (omega (arith, bit_or_low a b)) in
    (omega (arith, bit_or_low a b), omega (arith, bit_or_low a b))

-- Two words differ in some bit unless they are equal.
pub bit_xor_empty_iff : (k a b : ℕ) → a < 2 ^ k → b < 2 ^ k → (bit_xor a b ≡ 0) ↔ (a ≡ b)
bit_xor_empty_iff k a b h l = (equal, empty)
  where
    with_zero : (c : ℕ) → c < 2 ^ k → bit_xor c 0 ≡ c
    with_zero c m = bit_xor_comm k c 0 m (omega arith) ∙ zero-bit_xor c

    equal : bit_xor a b ≡ 0 → a ≡ b
    equal e = sym (with_zero a h) ∙ ap (bit_xor a) (sym e) ∙ bit_xor_cancel_left k a b h l

    empty : a ≡ b → bit_xor a b ≡ 0
    empty e =
        ap (bit_xor a) (sym e ∙ sym (with_zero a h)) ∙ bit_xor_cancel_left k a 0 h (omega arith)

-- `|` works on the high and the low fields of its operands apart.
pub bit_or_fields :
    (k p q r s : ℕ)
    → r < 2 ^ k
    → s < 2 ^ k
    → bit_or (p * 2 ^ k + r) (q * 2 ^ k + s) ≡ bit_or p q * 2 ^ k + bit_or r s
bit_or_fields zero p q r s h g =
    let r0 : r ≡ 0 = omega arith in
    let s0 : s ≡ 0 = omega arith in
    rw (r0, s0) (ground (arith, ap₂ bit_or (one_field p) (one_field q)))
bit_or_fields (suc k) p q r s h g = omega (
  arith,
  ap (λ (t : ℕ). p * t) (pow-suc 2 k),
  ap (λ (t : ℕ). q * t) (pow-suc 2 k),
  ap (λ (t : ℕ). bit_or p q * t) (pow-suc 2 k),
  bit_or_low (p * 2 ^ suc k + r) (q * 2 ^ suc k + s),
  bit_or_low r s,
  ap₂ bit_or (half_field k p r) (half_field k q s),
  bit_or_fields k p q (r / 2) (s / 2) (omega (arith, pow-suc 2 k)) (omega (arith, pow-suc 2 k)),
)

-- A word of ones swallows what it is joined with.
pub bit_or_ones : (k a ones : ℕ) → a < 2 ^ k → ones + 1 ≡ 2 ^ k → bit_or a ones ≡ ones
bit_or_ones zero a ones h e = ground (arith, bit_or-zero a)
bit_or_ones (suc k) a ones h e = omega (
  arith,
  pow-suc 2 k,
  bit_or_low a ones,
  bit_or_ones k (a / 2) (ones / 2) (omega (arith, pow-suc 2 k)) (omega (arith, pow-suc 2 k)),
)
