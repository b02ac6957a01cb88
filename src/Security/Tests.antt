-- ===== src/Security/Tests.antt =====
-- The theorems on digests and credentials at concrete inputs.
use modbus_pp.Common.{ℕ, ◌≡◌, refl, ◌↔◌, true, List, [], ◌∷◌, arith, ◌==◌, if◌then◌else◌, replicate}
use modbus_pp.Core.Result.{ok}
use modbus_pp.Security.Hmac.{IsDigest, verify}
use modbus_pp.Security.Hmac.Verify.{verify_iff}
use modbus_pp.Security.Credentials.{add_credential, get_key, get_key-add_credential}

abbrev zeros : List ℕ
zeros = replicate 32 0

zeros-IsDigest : IsDigest zeros
zeros-IsDigest = record { size = refl; bytes = omega arith }

-- A digest that does not depend on its inputs stands in for HMAC-SHA256.
verify_iff_run : (verify (λ m k. zeros) (1 ∷ []) (2 ∷ []) zeros ≡ true) ↔ (zeros ≡ zeros)
verify_iff_run = verify_iff (λ m k. zeros) (1 ∷ []) (2 ∷ []) zeros zeros-IsDigest zeros-IsDigest

get_key-add_credential_example :
    get_key (add_credential 2 (9 ∷ []) ((1, 8 ∷ []) ∷ [])) 2
    ≡ (if 2 == 2 then ok (9 ∷ []) else get_key ((1, 8 ∷ []) ∷ []) 2)
get_key-add_credential_example = get_key-add_credential ((1, 8 ∷ []) ∷ []) 2 2 (9 ∷ [])
