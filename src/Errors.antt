-- ===== src/Errors.antt =====
-- The exceptions that the stores of orchestrator/src/autonomy throw, and the results of operations
-- that may throw. What was written before an exception is not followed.
use muslimrentals.Prelude.{◌≡◌, refl, String}

pub data StoreError : Type 0 where
  invalid_record : StoreError
  unknown_id : String → StoreError
  not_pending : String → StoreError

pub data Result {ℓ} (A : Type ℓ) : Type ℓ where
  returned : A → Result A
  thrown : StoreError → Result A

infixl 5 ◌>>=◌
abbrev pub ◌>>=◌ {ℓ κ} : {A : Type ℓ} {B : Type κ} → Result A → (A → Result B) → Result B
returned a >>= next = next a
thrown e >>= next = thrown e

-- What a sequence that returned did.
pub >>=-eq-returned {ℓ κ} :
    {A : Type ℓ} {B : Type κ} (first : Result A) (next : A → Result B) {b : B}
    → (first >>= next) ≡ returned b
    → (a : A) × (first ≡ returned a) × (next a ≡ returned b)
>>=-eq-returned (returned a) next h = (a, refl, h)
>>=-eq-returned (thrown e) next h = cc
