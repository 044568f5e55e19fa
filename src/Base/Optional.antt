-- ===== src/Base/Optional.antt =====
-- Chains of steps that may give nothing.
use mathlib.Core.Option.{Option, none, some}
use mathlib.Core.Path.{◌≡◌, refl, ap, ◌∙◌}

infixl 5 ◌>>=◌
abbrev pub ◌>>=◌ {ℓ κ} : {A : Type ℓ} {B : Type κ} → Option A → (A → Option B) → Option B
none >>= f = none
some a >>= f = f a

-- A chain gives a value only if each of its steps does.
pub some-bind {ℓ κ} :
    {A : Type ℓ} {B : Type κ} (o : Option A) (f : A → Option B) (b : B)
    → (o >>= f) ≡ some b
    → (a : A) × (o ≡ some a) × (f a ≡ some b)
some-bind (some a) f b h = (a, refl, h)
some-bind none f b h = cc

pub bind-some {ℓ κ} :
    {A : Type ℓ} {B : Type κ} (o : Option A) (f : A → Option B) (a : A) (b : B)
    → o ≡ some a
    → f a ≡ some b
    → (o >>= f) ≡ some b
bind-some (some x) f a b h k = let same : x ≡ a = cc in ap f same ∙ k
bind-some none f a b h k = cc
