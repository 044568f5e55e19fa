-- ===== src/Base/Text.antt =====
-- Python's order on texts (code point by code point), and `in` on texts.
use Prim.Native.Char.{Char, code}
use Prim.Native.String.{String}
use mathlib.Core.Path.{◌≡◌, refl}
use mathlib.Core.Logic.{◌⊎◌, inl, inr}
use mathlib.Core.Bool.{Bool, true, false, ◌||◌}
use mathlib.Core.List.{List, [], ◌∷◌}
use Prim.Native.Nat.{ℕ}
use native.Mathlib.Omega.{arith}
use text.Mathlib.Text.{starts_with}
use text.Mathlib.TextEquality.{codes_equal}
use semantic_intent_protocol.Base.Tests.{nat_eqb, ltb, if◌then◌else◌}

-- `s <= t`
unfoldable pub text_leb : String → String → Bool
text_leb String.[] t = true
text_leb (String.◌∷◌ c s) String.[] = false
text_leb (String.◌∷◌ c s) (String.◌∷◌ d t) =
    let rest = text_leb s t in
    if ltb (code c) (code d) then true else if ltb (code d) (code c) then false else rest

-- `part in s`
unfoldable pub contains_text : String → String → Bool
contains_text String.[] part = starts_with String.[] part
contains_text (String.◌∷◌ c s) part = starts_with (String.◌∷◌ c s) part || contains_text s part

-- `s.split(sep)`, for the separator with this code.
unfoldable pub split_on : ℕ → String → List String
split_on sep String.[] = String.[] ∷ []
split_on sep (String.◌∷◌ c s) =
    let rest = split_on sep s in
    if nat_eqb (code c) sep
    then String.[] ∷ rest
    else elim rest [ [] ↦ String.◌∷◌ c String.[] ∷ [] | t ∷ ts ↦ String.◌∷◌ c t ∷ ts ]

-- `s == ""`
abbrev pub is_blank : String → Bool
is_blank String.[] = true
is_blank (String.◌∷◌ c s) = false

pub text_leb_total : (s t : String) → (text_leb s t ≡ true) ⊎ (text_leb t s ≡ true)
unfolding text_leb
text_leb_total String.[] t = inl refl
text_leb_total (String.◌∷◌ c s) String.[] = inr refl
text_leb_total (String.◌∷◌ c s) (String.◌∷◌ d t) = ground (arith, text_leb_total s t)

pub text_leb_refl : (s : String) → text_leb s s ≡ true
unfolding text_leb
text_leb_refl String.[] = refl
text_leb_refl (String.◌∷◌ c s) = ground (arith, text_leb_refl s)

pub text_leb_trans :
    (s t u : String) → text_leb s t ≡ true → text_leb t u ≡ true → text_leb s u ≡ true
unfolding text_leb
text_leb_trans String.[] t u h k = refl
text_leb_trans (String.◌∷◌ c s) String.[] u h k = cc
text_leb_trans (String.◌∷◌ c s) (String.◌∷◌ d t) String.[] h k = cc
text_leb_trans (String.◌∷◌ c s) (String.◌∷◌ d t) (String.◌∷◌ e u) h k =
    ground (arith, text_leb_trans s t u)

code-injective : (c d : Char) → code c ≡ code d → c ≡ d
code-injective c d e = codes_equal c d (ground arith)

pub text_leb_antisymm : (s t : String) → text_leb s t ≡ true → text_leb t s ≡ true → s ≡ t
unfolding text_leb
text_leb_antisymm String.[] String.[] h k = refl
text_leb_antisymm String.[] (String.◌∷◌ d t) h k = cc
text_leb_antisymm (String.◌∷◌ c s) String.[] h k = cc
text_leb_antisymm (String.◌∷◌ c s) (String.◌∷◌ d t) h k =
    ground (arith, text_leb_antisymm s t, code-injective c d)
