-- ===== src/Client/Action.antt =====
-- Calls of the master that may fail and that change its state: the transaction counter, the session
-- and the connection. An error, or a fault, ends a call where it happens.
use modbus_pp.Common.{◌≡◌, refl, ap, Bool, true, false}
use modbus_pp.Core.Error.{ErrorCode}
use modbus_pp.Core.Result.{Result, ok, err, fault}

abbrev pub Action {ℓ} : Type 0 → Type ℓ → Type ℓ
Action S A = S → Result A × S

module _ {S : Type 0} where
  -- What a call goes on with after the first one has answered.
  abbrev continue {ℓ κ} : {A : Type ℓ} {B : Type κ} → (A → Action S B) → Result A × S → Result B × S
  continue f (ok a, s) = f a s
  continue f (err e, s) = (err e, s)
  continue f (fault, s) = (fault, s)

  infixl 5 ◌>>=◌ ◌>>◌
  abbrev pub ◌>>=◌ {ℓ κ} : {A : Type ℓ} {B : Type κ} → Action S A → (A → Action S B) → Action S B
  m >>= f = λ s. continue f (m s)

  abbrev pub ◌>>◌ {κ} : {B : Type κ} → Action S (Unit {0}) → Action S B → Action S B
  m >> k = m >>= λ _. k

  abbrev pub lift {ℓ} : {A : Type ℓ} → Result A → Action S A
  lift r s = (r, s)

  abbrev pub return {ℓ} : {A : Type ℓ} → A → Action S A
  return a s = (ok a, s)

  abbrev fail {ℓ} : {A : Type ℓ} → ErrorCode → Action S A
  fail e s = (err e, s)

  -- `if (!c) return e;`
  abbrev require : Bool → ErrorCode → Action S (Unit {0})
  require true e s = (ok tt, s)
  require false e s = (err e, s)

-- A chain of calls that answers a value did so in its first call.
pub data Went {ℓ κ} {S : Type 0} {A : Type ℓ} {B : Type κ} (x : Result A × S) (f : A → Action S B)
    (b : B) (end : S) : Type (ℓ ⊔ κ) where
  went : (a : A) (s : S) → x ≡ (ok a, s) → f a s ≡ (ok b, end) → Went x f b end

module _ {ℓ κ} {S : Type 0} {A : Type ℓ} {B : Type κ} where
  pub continue-Went :
      (x : Result A × S) (f : A → Action S B) {b : B} {end : S}
      → continue f x ≡ (ok b, end)
      → Went x f b end
  continue-Went (ok a, s) f p = went a s refl p
  continue-Went (err e, s) f p = let q : err e ≡ ok _ = ap (λ r. r.0) p in cc
  continue-Went (fault, s) f p = let q : fault ≡ ok _ = ap (λ r. r.0) p in cc

  -- The same for a first call that only computes.
  pub lift-Went :
      (r : Result A) (f : A → Action S B) (s : S) {b : B} {end : S}
      → continue f (lift r s) ≡ (ok b, end)
      → (a : A) × (r ≡ ok a) × (f a s ≡ (ok b, end))
  lift-Went (ok a) f s p = (a, refl, p)
  lift-Went (err e) f s p = let q : err e ≡ ok _ = ap (λ r. r.0) p in cc
  lift-Went fault f s p = let q : fault ≡ ok _ = ap (λ r. r.0) p in cc

  -- A call that has answered a value goes on with it.
  pub continue_ok :
      (x : Result A × S) (f : A → Action S B) (a : A) → x.0 ≡ ok a → continue f x ≡ f a x.1
  continue_ok (ok b, s) f a p = let q : b ≡ a = cc in ap (λ v. f v s) q
  continue_ok (err e, s) f a p = absurd cc
  continue_ok (fault, s) f a p = absurd cc
