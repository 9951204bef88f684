-- ===== src/Result.antt =====
-- Python code that may raise: the value that it returns, or the exception.
use mathlib.Core.Path.{◌≡◌, refl}

pub data Result {ℓ} (E A : Type ℓ) : Type ℓ where
  ok : A → Result E A
  err : E → Result E A

-- `except Exception as e: raise F(e)`
abbrev pub map_err {ℓ} : {E F A : Type ℓ} → (E → F) → Result E A → Result F A
map_err f (ok a) = ok a
map_err f (err e) = err (f e)

-- A raised exception passes over the statements that are left.
infixl 10 ◌>>=◌ ◌>>◌
abbrev pub ◌>>=◌ {ℓ} :
    {Raised Found Next : Type ℓ}
    → Result Raised Found
    → (Found → Result Raised Next)
    → Result Raised Next
err raised >>= next = err raised
ok found >>= next = next found

abbrev pub ◌>>◌ {ℓ} :
    {Raised Found Next : Type ℓ} → Result Raised Found → Result Raised Next → Result Raised Next
first >> second = first >>= λ found. second

pub map_err-eq-ok {ℓ} :
    {E F A : Type ℓ} (f : E → F) (m : Result E A) {a : A} → map_err f m ≡ ok a → m ≡ ok a
map_err-eq-ok f (ok a) h = cc
map_err-eq-ok f (err e) h = cc

-- A chain that returned has run both of its parts.
pub >>=-eq-ok {ℓ} :
    {Raised Found Next : Type ℓ} (m : Result Raised Found) (f : Found → Result Raised Next)
    {b : Next}
    → (m >>= f) ≡ ok b
    → (a : Found) × (m ≡ ok a) × (f a ≡ ok b)
>>=-eq-ok (err raised) f returned = cc
>>=-eq-ok (ok found) f returned = (found, refl, returned)
