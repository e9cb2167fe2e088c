-- ===== src/Common/Results.antt =====
-- Computations that may raise: a value, or the exception that ends them.
use mathlib.Core.Path.{◌≡◌, refl}
use mathlib.Core.Bool.{Bool, true, false}

pub data Result {ℓ κ} (E : Type ℓ) (A : Type κ) : Type (ℓ ⊔ κ) where
  ok : A → Result E A
  err : E → Result E A

-- `if not condition: raise exception`
abbrev pub guard {ℓ} : {E : Type ℓ} (condition : Bool) (exception : E) → Result E (Unit {0})
guard false exception = err exception
guard true exception = ok tt

-- What a block goes on with, unless its first part raised.
infixl 5 ◌>>=◌
abbrev pub ◌>>=◌ {ℓ κ μ} :
    {E : Type ℓ} {A : Type κ} {B : Type μ} (first : Result E A) (next : A → Result E B) → Result E B
err exception >>= next = err exception
ok value >>= next = next value

infixl 5 ◌>>◌
abbrev pub ◌>>◌ {ℓ κ} :
    {E : Type ℓ} {B : Type κ} (first : Result E (Unit {0})) (next : Result E B) → Result E B
first >> next = first >>= λ done. next

-- A block that returns went through its first part, and returned from the rest.
pub >>=-eq-ok {ℓ κ μ} :
    {E : Type ℓ} {A : Type κ} {B : Type μ} (first : Result E A) (next : A → Result E B) {out : B}
    → (first >>= next) ≡ ok out
    → (value : A) × (first ≡ ok value) × (next value ≡ ok out)
>>=-eq-ok (err exception) next h = cc
>>=-eq-ok (ok value) next h = (value, refl, h)

pub guard-eq-ok {ℓ κ} :
    {E : Type ℓ} {B : Type κ} (condition : Bool) (exception : E) (next : Result E B) {out : B}
    → (guard condition exception >> next) ≡ ok out
    → (condition ≡ true) × (next ≡ ok out)
guard-eq-ok false exception next h = cc
guard-eq-ok true exception next h = (refl, h)
