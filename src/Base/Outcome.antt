-- ===== src/Base/Outcome.antt =====
-- The result of code that may raise.
use mathlib.Core.Path.{◌≡◌, refl, subst}
use mathlib.Core.Option.{some}

pub data Result {ℓ κ} (E : Type ℓ) (A : Type κ) : Type (ℓ ⊔ κ) where
  ok : A → Result E A
  err : E → Result E A

-- What follows is run only if nothing was raised.
infixl 5 ◌>>=◌ ◌>>◌
abbrev pub ◌>>=◌ {ℓ κ μ} :
    {E : Type ℓ} {A : Type κ} {B : Type μ} → Result E A → (A → Result E B) → Result E B
ok a >>= f = f a
err x >>= f = err x

abbrev pub ◌>>◌ {ℓ μ} : {E : Type ℓ} {B : Type μ} → Result E (Unit {0}) → Result E B → Result E B
m >> k = m >>= λ _. k

-- A chain gives a value only if each of its steps does.
pub ok-bind {ℓ κ μ} :
    {E : Type ℓ} {A : Type κ} {B : Type μ} (x : Result E A) (f : A → Result E B) (b : B)
    → (x >>= f) ≡ ok b
    → (a : A) × (x ≡ ok a) × (f a ≡ ok b)
ok-bind (ok a) f b h = (a, refl, h)
ok-bind (err e) f b h = cc

-- What holds of one returned value holds of any other.
pub subst-some {ℓ κ} : {A : Type ℓ} (P : A → Type κ) (a b : A) → some a ≡ some b → P a → P b
subst-some P a b h p = let same : a ≡ b = cc in subst P same p

pub ok_ne_err {ℓ κ} : {E : Type ℓ} {A : Type κ} {a : A} {x : E} → ok a ≡ err x → ⊥
ok_ne_err h = cc
