-- ===== src/Security/Hmac/Verify.antt =====
-- HMACAuth::verify accepts exactly the right digest.
use modbus_pp.Common.{
  ℕ, ◌%◌, ◌^◌, ◌<◌, bit_or, bit_xor, ◌≡◌, refl, sym, ap, ap₂, ◌∙◌, ◌↔◌, true, List, [], ◌∷◌, arith,
  eq→==, ==→eq, length, get_or, drop, bit_or-zero, bit_xor-lt, bit_or-lt, bit_or_empty,
  bit_xor_empty_iff, IsByte, AreBytes,
}
use modbus_pp.Security.Hmac.{Compute, IsDigest, difference, verify}

equal_tails : (c e : ℕ) (cs es : List ℕ) → ((c ∷ cs) ≡ (e ∷ es)) → (c ≡ e) × (cs ≡ es)
equal_tails c e cs es p = (ap (λ xs. get_or xs 0 0) p, ap (drop 1) p)

-- One step of the loop adds no bit exactly where the two bytes are equal.
step_iff :
    (diff c e : ℕ)
    → IsByte diff
    → IsByte c
    → IsByte e
    → (bit_or diff (bit_xor c e) % 2 ^ 8 ≡ 0) ↔ ((diff ≡ 0) × (c ≡ e))
step_iff diff c e d h k = (there, back)
  where
    small : bit_xor c e < 2 ^ 8
    small = bit_xor-lt 8 c e h k

    there : bit_or diff (bit_xor c e) % 2 ^ 8 ≡ 0 → (diff ≡ 0) × (c ≡ e)
    there p =
        let (diff_zero, bit_zero) =
          bit_or_empty 8 diff (bit_xor c e) d small
            (omega (arith, bit_or-lt 8 diff (bit_xor c e) d small)) in
        (diff_zero, (bit_xor_empty_iff 8 c e h k).0 bit_zero)

    back : (diff ≡ 0) × (c ≡ e) → bit_or diff (bit_xor c e) % 2 ^ 8 ≡ 0
    back q =
        ap (λ b. bit_or diff b % 2 ^ 8) ((bit_xor_empty_iff 8 c e h k).1 q.1)
        ∙ ap (λ b. b % 2 ^ 8) (bit_or-zero diff ∙ q.0)
        ∙ refl

difference_iff :
    (diff : ℕ) (computed expected : List ℕ)
    → IsByte diff
    → AreBytes computed
    → AreBytes expected
    → length computed ≡ length expected
    → (difference diff computed expected ≡ 0) ↔ ((diff ≡ 0) × (computed ≡ expected))
unfolding difference
difference_iff diff [] [] d h k l = ((λ p. (p, refl)), λ p. p.0)
difference_iff diff [] (e ∷ expected) d h k l = let absurd : ⊥ = omega arith in elim absurd [ ]
difference_iff diff (c ∷ computed) [] d h k l = let absurd : ⊥ = omega arith in elim absurd [ ]
difference_iff diff (c ∷ computed) (e ∷ expected) d h k l =
    let joined = bit_or diff (bit_xor c e) % 2 ^ 8 in
    let step = step_iff diff c e d h.0 k.0 in
    let rest = difference_iff joined computed expected (omega arith) h.1 k.1 (omega arith) in
    (
      λ p.
          let (joined_zero, same) = rest.0 p in
          let (diff_zero, equal) = step.0 joined_zero in (diff_zero, ap₂ ◌∷◌ equal same),
      λ q.
          let (head_same, tail_same) = equal_tails c e computed expected q.1 in
          rest.1 (step.1 (q.0, head_same), tail_same),
    )

-- Where `compute` answers a digest of 32 bytes, `verify` accepts another such digest exactly where
-- the two are equal.
pub verify_iff :
    (compute : Compute) (message key expected : List ℕ)
    → IsDigest (compute message key)
    → IsDigest expected
    → (verify compute message key expected ≡ true) ↔ (compute message key ≡ expected)
unfolding verify
verify_iff compute message key expected h k =
    let both =
      difference_iff 0 (compute message key) expected (omega arith) h.bytes k.bytes
        (h.size ∙ sym k.size) in
    (λ p. (both.0 (==→eq _ _ p)).1, λ p. eq→== _ _ (both.1 (refl, p)))
