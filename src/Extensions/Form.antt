-- ===== src/Extensions/Form.antt =====
-- The form of an extension key, said apart from the pattern of sip/extensions.py.
pub mod Pattern
use semantic_intent_protocol.Base.{
  arith, sym, is_blank, true_ne_false, ◌↔◌, not, ◌≡◌, Bool, nat_eqb, ◌≤◌, ◌⊎◌, ◌||◌, ◌&&◌, true,
  false, inl, inr, refl, ℕ, String,
}
use semantic_intent_protocol.Extensions.{
  is_all_of, is_some_of, Char, between, code, is_letter, is_word,
}

-- A letter of ASCII or one of U+0130, U+0131, U+017F and U+212A, by its code.
abbrev pub IsLetter : ℕ → Type 0
IsLetter n =
    ((97 ≤ n) × (n ≤ 122)) ⊎ ((65 ≤ n) × (n ≤ 90)) ⊎ (n ≡ 304) ⊎ (n ≡ 305) ⊎ (n ≡ 383) ⊎ (n ≡ 8490)

-- A letter, a digit or an underscore.
abbrev pub IsWord : ℕ → Type 0
IsWord n = IsLetter n ⊎ ((48 ≤ n) × (n ≤ 57)) ⊎ (n ≡ 95)

-- A letter, a digit, an underscore or a dot.
abbrev pub IsNamePart : ℕ → Type 0
IsNamePart n = IsWord n ⊎ (n ≡ 46)

abbrev pub AllCodes : (ℕ → Type 0) → String → Type 0
AllCodes P String.[] = Unit
AllCodes P (String.◌∷◌ c s) = P (code c) × AllCodes P s

abbrev pub append : String → String → String
append String.[] t = t
append (String.◌∷◌ c s) t = String.◌∷◌ c (append s t)

-- `x_<name>`, also with a capital X.
abbrev pub IsPrivateKey : String → Type 0
IsPrivateKey s =
    (x u : Char) × (name : String) × (s ≡ String.◌∷◌ x (String.◌∷◌ u name))
    × ((code x ≡ 120) ⊎ (code x ≡ 88))
    × (code u ≡ 95)
    × (is_blank name ≡ false)
    × AllCodes IsWord name

-- `<vendor>.<name>`: the vendor begins with a letter.
abbrev pub IsVendorKey : String → Type 0
IsVendorKey s =
    (l d : Char) × (vendor name : String) × (s ≡ String.◌∷◌ l (append vendor (String.◌∷◌ d name)))
    × IsLetter (code l)
    × AllCodes IsWord vendor
    × (code d ≡ 46)
    × (is_blank name ≡ false)
    × AllCodes IsNamePart name

-- A key, or a key and a newline.
abbrev pub HasKeyForm : String → Type 0
HasKeyForm k =
    (s : String) × (IsPrivateKey s ⊎ IsVendorKey s)
    × ((k ≡ s) ⊎ ((n : Char) × (code n ≡ 10) × (k ≡ append s (String.◌∷◌ n String.[]))))

pub eqb_iff : (m n : ℕ) → (nat_eqb m n ≡ true) ↔ (m ≡ n)
eqb_iff m n = (λ h. ground arith, λ h. ground arith)

pub or_iff :
    {P Q : Type 0} (a b : Bool) → (a ≡ true) ↔ P → (b ≡ true) ↔ Q → ((a || b) ≡ true) ↔ (P ⊎ Q)
or_iff true b (f, g) k = (λ h. inl (f refl), λ h. refl)
or_iff false true f (k, l) = (λ h. inr (k refl), λ h. refl)
or_iff false false (f, g) (k, l) = (λ h. inr (k h), λ w. elim w [ inl p ↦ g p | inr q ↦ l q ])

between_iff : (low high n : ℕ) → (between low high n ≡ true) ↔ ((low ≤ n) × (n ≤ high))
between_iff low high n = (λ h. (ground arith, ground arith), λ (h, k). ground arith)

pub is_letter_iff : (n : ℕ) → (is_letter n ≡ true) ↔ IsLetter n
is_letter_iff n = or_iff _ _ (between_iff 97 122 n) (
    or_iff _ _ (between_iff 65 90 n) (
      or_iff _ _ (eqb_iff n 304)
        (or_iff _ _ (eqb_iff n 305) (or_iff _ _ (eqb_iff n 383) (eqb_iff n 8490)))))

pub is_word_iff : (n : ℕ) → (is_word n ≡ true) ↔ IsWord n
is_word_iff n = or_iff _ _ (is_letter_iff n) (or_iff _ _ (between_iff 48 57 n) (eqb_iff n 95))

pub is_part_iff : (n : ℕ) → ((is_word n || nat_eqb n 46) ≡ true) ↔ IsNamePart n
is_part_iff n = or_iff _ _ (is_word_iff n) (eqb_iff n 46)

pub both_iff :
    {P Q : Type 0} (a b : Bool) → (a ≡ true) ↔ P → (b ≡ true) ↔ Q → ((a && b) ≡ true) ↔ (P × Q)
both_iff true true (f, g) (k, l) = (λ h. (f refl, k refl), λ w. refl)
both_iff true false (f, g) (k, l) = (λ h. absurd (true_ne_false (sym h)), λ (p, q). l q)
both_iff false b (f, g) k = (λ h. absurd (true_ne_false (sym h)), λ (p, q). g p)

not_iff : (b : Bool) → (not b ≡ true) ↔ (b ≡ false)
not_iff b = (λ h. ground arith, λ h. ground arith)

all_iff :
    (p : ℕ → Bool) (P : ℕ → Type 0)
    → ((n : ℕ) → (p n ≡ true) ↔ P n)
    → (s : String) → (is_all_of p s ≡ true) ↔ AllCodes P s
all_iff p P w String.[] = (λ h. tt, λ h. refl)
all_iff p P w (String.◌∷◌ c s) = both_iff (p (code c)) _ (w (code c)) (all_iff p P w s)

pub some_iff :
    (p : ℕ → Bool) (P : ℕ → Type 0)
    → ((n : ℕ) → (p n ≡ true) ↔ P n)
    → (s : String) → (is_some_of p s ≡ true) ↔ ((is_blank s ≡ false) × AllCodes P s)
some_iff p P w s = both_iff _ _ (not_iff (is_blank s)) (all_iff p P w s)
