-- ===== src/Security/Credentials.antt =====
-- include/modbus_pp/security/credential_store.hpp: the in-memory store. The hash map is an
-- association list with at most one entry under a device.
use modbus_pp.Common.{ℕ, ◌≡◌, refl, true, false, List, [], ◌∷◌, arith, ◌==◌, if◌then◌else◌}
use modbus_pp.Core.Error.{authentication_failed}
use modbus_pp.Core.Result.{Result, ok, err}

abbrev CredentialStore : Type 0
CredentialStore = List (ℕ × List ℕ)

-- `keys_[device_id] = key`
pub add_credential : ℕ → List ℕ → CredentialStore → CredentialStore
add_credential device_id key [] = (device_id, key) ∷ []
add_credential device_id key (entry ∷ keys) = elim (entry.0 == device_id) [
  | true ↦ (device_id, key) ∷ keys
  | false ↦ entry ∷ add_credential device_id key keys
]

pub get_key : CredentialStore → ℕ → Result (List ℕ)
get_key [] device_id = err authentication_failed
get_key (entry ∷ keys) device_id =
    let rest = get_key keys device_id in if entry.0 == device_id then ok entry.1 else rest

-- After a credential is added, its device has that key, and every other device what it had.
pub get_key-add_credential :
    (keys : CredentialStore) (device_id other : ℕ) (key : List ℕ)
    → get_key (add_credential device_id key keys) other
      ≡ (if device_id == other then ok key else get_key keys other)
unfolding get_key add_credential
get_key-add_credential [] device_id other key = refl
get_key-add_credential (entry ∷ keys) device_id other key =
    let rest = get_key-add_credential keys device_id other key in ground (arith, rest)
