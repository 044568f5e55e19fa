-- ===== src/Base/Int.antt =====
-- Python's integers where a sign matters, and the slice that a signed bound cuts.
use Prim.Native.Nat.{ℕ, suc, ◌+◌, ◌-◌}
use mathlib.Core.Bool.{Bool, true, false}
use mathlib.Core.List.{List}
use semantic_intent_protocol.Base.Tests.{leb, if◌then◌else◌}
use semantic_intent_protocol.Base.Lists.{take, length}

-- `negsuc n` is -(n + 1).
pub data ℤ : Type 0 where
  pos : ℕ → ℤ
  negsuc : ℕ → ℤ

abbrev pub pos_part : ℤ → ℕ
pos_part (pos n) = n
pos_part (negsuc n) = 0

abbrev pub neg_part : ℤ → ℕ
neg_part (pos n) = 0
neg_part (negsuc n) = suc n

-- `a - b`
abbrev pub ◌-ℤ◌ : ℤ → ℤ → ℤ
◌-ℤ◌ a b =
    let up = pos_part a + neg_part b in
    let down = neg_part a + pos_part b in
    if leb down up then pos (up - down) else negsuc (down - up - 1)

-- `a <= b`
abbrev pub leb_ℤ : ℤ → ℤ → Bool
leb_ℤ a b = leb (pos_part a + neg_part b) (pos_part b + neg_part a)

-- `a < 0`
abbrev pub is_negative : ℤ → Bool
is_negative (pos n) = false
is_negative (negsuc n) = true

-- `xs[:n]`: a negative bound counts from the end.
abbrev pub slice_to {ℓ} : {A : Type ℓ} → ℤ → List A → List A
slice_to (pos n) xs = take n xs
slice_to (negsuc n) xs = take (length xs - suc n) xs
