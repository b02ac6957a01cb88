-- ===== src/Core/Result.antt =====
-- include/modbus_pp/core/result.hpp. `fault` stands for what C++ leaves undefined or stops by an
-- assertion: a read outside of a buffer, or an error result that holds the code of success.

use modbus_pp.Common.{◌≡◌, refl, Bool, true, false, ◌==◌, if◌then◌else◌}
use modbus_pp.Core.Error.{ErrorCode, success}

pub data Result {ℓ} (A : Type ℓ) : Type ℓ where
  ok : A → Result A
  err : ErrorCode → Result A
  fault : Result A

module _ {ℓ} {A : Type ℓ} where
  -- `Result(std::error_code ec)`, with its assertion.
  abbrev pub of_error_code : ErrorCode → Result A
  of_error_code ec = if ec == success then fault else err ec

  abbrev has_value : Result A → Bool
  has_value (ok a) = true
  has_value (err e) = false
  has_value fault = false

  abbrev value_or : Result A → A → A
  value_or (ok a) d = a
  value_or (err e) d = d
  value_or fault d = d

  -- The code of success where there is a value.
  abbrev error : Result A → ErrorCode
  error (ok a) = success
  error (err e) = e
  error fault = success

-- `Result<void>(std::error_code ec)`, which has no assertion: the code of success is a success.
abbrev pub void_of_error_code : ErrorCode → Result (Unit {0})
void_of_error_code ec = if ec == success then ok tt else err ec

-- `and_then`, and the checks `if (!r) return r.error();` of the callers.
infixl 5 ◌>>=◌ ◌>>◌
abbrev pub ◌>>=◌ {ℓ κ} : {A : Type ℓ} {B : Type κ} → Result A → (A → Result B) → Result B
ok a >>= f = f a
err e >>= f = err e
fault >>= f = fault

-- A chain that answers a value did so in its first call.
pub bind_ok {ℓ κ} :
    {A : Type ℓ} {B : Type κ} (r : Result A) (f : A → Result B) {b : B}
    → (r >>= f) ≡ ok b
    → (a : A) × (r ≡ ok a) × (f a ≡ ok b)
bind_ok (ok a) f p = (a, refl, p)
bind_ok (err e) f p = absurd cc
bind_ok fault f p = absurd cc

abbrev pub ◌>>◌ {ℓ} : {B : Type ℓ} → Result (Unit {0}) → Result B → Result B
m >> k = m >>= λ _. k

abbrev pub map_result {ℓ κ} : {A : Type ℓ} {B : Type κ} → (A → B) → Result A → Result B
map_result f (ok a) = ok (f a)
map_result f (err e) = err e
map_result f fault = fault

-- `if (!c) return e;`
abbrev pub guard : Bool → ErrorCode → Result (Unit {0})
guard true e = ok tt
guard false e = err e
