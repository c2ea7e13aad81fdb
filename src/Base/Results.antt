-- ===== src/Base/Results.antt =====
-- Exceptions as values. A method that throws may have changed its object before, so a method
-- returns the object and a result.
use mathlib.Core.Path.{◌≡◌, refl}

-- The standard exceptions that the program throws; `undefined` is an access out of bounds, which
-- the language leaves undefined.
pub data Error : Type 0 where
  invalid_argument out_of_range runtime_error logic_error undefined : Error

pub data Result {ℓ} (T : Type ℓ) : Type ℓ where
  ok : T → Result T
  err : Error → Result T

infixl 5 ◌>>=◌
-- The rest of a method, after a part that may throw.
abbrev pub ◌>>=◌ {ℓ κ} : {T : Type ℓ} {U : Type κ} → Result T → (T → Result U) → Result U
ok t >>= rest = rest t
err thrown >>= rest = err thrown

-- If a chain does not throw, its first part did not, and the rest had its result.
pub >>=-eq-ok {ℓ κ} :
    {T : Type ℓ} {U : Type κ} (first : Result T) (rest : T → Result U) {u : U}
    → (first >>= rest) ≡ ok u
    → (t : T) × (first ≡ ok t) × (rest t ≡ ok u)
>>=-eq-ok (ok t) rest done = (t, refl, done)
>>=-eq-ok (err thrown) rest done = cc
