-- ===== src/Security/Hmac.antt =====
-- src/security/hmac_auth.cpp. `compute` is OpenSSL's HMAC-SHA256, a parameter: it answers a digest
-- of 32 bytes for every message and key.
pub mod Verify
use modbus_pp.Common.{
  ℕ, ◌%◌, ◌^◌, bit_or, bit_xor, ◌≡◌, Bool, List, [], ◌∷◌, ◌==◌, length, AreBytes,
}

-- A message and a key.
abbrev pub Compute : Type 0
Compute = List ℕ → List ℕ → List ℕ

-- `std::array<byte_t, 32>`
pub record IsDigest (digest : List ℕ) : Type 0 where
  pub size : length digest ≡ 32
  pub bytes : AreBytes digest

-- `diff |= computed[i] ^ expected[i]`
pub difference : ℕ → List ℕ → List ℕ → ℕ
difference diff [] expected = diff
difference diff (c ∷ computed) [] = diff
difference diff (c ∷ computed) (e ∷ expected) =
    difference (bit_or diff (bit_xor c e) % 2 ^ 8) computed expected

pub verify : Compute → List ℕ → List ℕ → List ℕ → Bool
verify compute message key expected = difference 0 (compute message key) expected == 0
