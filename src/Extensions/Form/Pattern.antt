-- ===== src/Extensions/Form/Pattern.antt =====
-- The pattern of sip/extensions.py, piece by piece, beside the form of a key.
use Prim.Native.Char.{Char, code}
use mathlib.Core.Path.{subst}
use semantic_intent_protocol.Base.{
  refl, ◌||◌, Bool-cases, arith, if-true, sym, ◌&&◌, ◌∙◌, ap, if-false, is_blank, nat_eqb,
  true_ne_false, ◌↔◌, ◌⊎◌, Bool, ◌≡◌, true, false, inl, inr, ℕ, String,
}
use semantic_intent_protocol.Extensions.{
  is_word, drop_newline, is_key, is_private_rest, is_vendor_rest, matches_pattern,
}
use semantic_intent_protocol.Extensions.Form.{
  is_word_iff, is_letter_iff, is_part_iff, both_iff, eqb_iff, or_iff, some_iff, HasKeyForm,
  IsVendorKey, append, AllCodes, IsNamePart, IsPrivateKey, IsWord,
}

-- A rest is a vendor's if it is words, a dot and a name.
abbrev HasDot : String → Type 0
HasDot s =
    (d : Char) × (vendor name : String) × (s ≡ append vendor (String.◌∷◌ d name))
    × AllCodes IsWord vendor
    × (code d ≡ 46)
    × (is_blank name ≡ false)
    × AllCodes IsNamePart name

id_iff : (b : Bool) → (b ≡ true) ↔ (b ≡ true)
id_iff b = (λ h. h, λ h. h)

no_dot : (n : ℕ) → IsWord n → nat_eqb n 46 ≡ false
no_dot n w = elim (Bool-cases (nat_eqb n 46)) [
  | inr h ↦ h
  | inl h ↦
      let word = subst (λ m. is_word m ≡ true) ((eqb_iff n 46).0 h) ((is_word_iff n).1 w) in
      absurd (true_ne_false (sym word))
]

is_vendor_rest-HasDot : (s : String) → is_vendor_rest s ≡ true → HasDot s
unfolding is_vendor_rest
is_vendor_rest-HasDot String.[] h = absurd (true_ne_false (sym h))
is_vendor_rest-HasDot (String.◌∷◌ c s) h = elim (Bool-cases (nat_eqb (code c) 46)) [
  | inl dot ↦
      let (filled, parts) = (some_iff _ IsNamePart is_part_iff s).0 (sym (if-true _ _ _ dot) ∙ h) in
      (c, String.[], s, refl, tt, (eqb_iff _ _).0 dot, filled, parts)
  | inr other ↦
      let (word, later) =
        (both_iff _ _ (is_word_iff (code c)) (id_iff (is_vendor_rest s))).0
          (sym (if-false _ _ _ other) ∙ h) in
      let (d, vendor, name, same, words, dot, filled, parts) = is_vendor_rest-HasDot s later in
      (d, String.◌∷◌ c vendor, name, ap (String.◌∷◌ c) same, (word, words), dot, filled, parts)
]

HasDot-is_vendor_rest :
    (d : Char) (vendor name : String)
    → AllCodes IsWord vendor
    → code d ≡ 46
    → is_blank name ≡ false
    → AllCodes IsNamePart name
    → is_vendor_rest (append vendor (String.◌∷◌ d name)) ≡ true
unfolding is_vendor_rest
HasDot-is_vendor_rest d String.[] name words dot filled parts =
    if-true (nat_eqb (code d) 46) _ _ ((eqb_iff _ _).1 dot)
    ∙ (some_iff _ IsNamePart is_part_iff name).1 (filled, parts)
HasDot-is_vendor_rest d (String.◌∷◌ c vendor) name (word, words) dot filled parts =
    if-false (nat_eqb (code c) 46) _ _ (no_dot (code c) word)
    ∙ (both_iff _ _ (is_word_iff (code c)) (id_iff _)).1
        (word, HasDot-is_vendor_rest d vendor name words dot filled parts)

is_private_rest-name :
    (s : String)
    → is_private_rest s ≡ true
    → (u : Char) × (name : String) × (s ≡ String.◌∷◌ u name)
      × (code u ≡ 95)
      × (is_blank name ≡ false)
      × AllCodes IsWord name
unfolding is_private_rest
is_private_rest-name String.[] h = absurd (true_ne_false (sym h))
is_private_rest-name (String.◌∷◌ u name) h =
    let (line, (filled, words)) =
      (both_iff _ _ (eqb_iff (code u) 95) (some_iff is_word IsWord is_word_iff name)).0 h in
    (u, name, refl, line, filled, words)

-- The pattern, without its `$`.
is_key-IsPrivateKey : (s : String) → is_key s ≡ true → IsPrivateKey s ⊎ IsVendorKey s
unfolding is_key
is_key-IsPrivateKey String.[] h = absurd (true_ne_false (sym h))
is_key-IsPrivateKey (String.◌∷◌ c s) h =
    elim ((or_iff _ _
        (both_iff _ _ (or_iff _ _ (eqb_iff (code c) 120) (eqb_iff (code c) 88))
          (id_iff (is_private_rest s)))
        (both_iff _ _ (is_letter_iff (code c)) (id_iff (is_vendor_rest s)))).0
      h) [
        | inl (x, rest) ↦
            let (u, name, same, line, filled, words) = is_private_rest-name s rest in
            inl (c, u, name, ap (String.◌∷◌ c) same, x, line, filled, words)
        | inr (letter, rest) ↦
            let (d, vendor, name, same, words, dot, filled, parts) = is_vendor_rest-HasDot s rest in
            inr (c, d, vendor, name, ap (String.◌∷◌ c) same, letter, words, dot, filled, parts)
      ]

IsPrivateKey-is_key : (s : String) → IsPrivateKey s → is_key s ≡ true
unfolding is_key is_private_rest
IsPrivateKey-is_key s (x, u, name, same, letter, line, filled, words) =
    ap is_key same
    ∙ (or_iff _ _
          (both_iff _ _ (or_iff _ _ (eqb_iff (code x) 120) (eqb_iff (code x) 88))
            (both_iff _ _ (eqb_iff (code u) 95) (some_iff is_word IsWord is_word_iff name)))
          (id_iff _)).1
        (inl (letter, (line, (filled, words))))

IsVendorKey-is_key : (s : String) → IsVendorKey s → is_key s ≡ true
unfolding is_key
IsVendorKey-is_key s (l, d, vendor, name, same, letter, words, dot, filled, parts) =
    ap is_key same
    ∙ (or_iff _ _ (id_iff _) (
          both_iff _ _ (is_letter_iff (code l))
            (id_iff (is_vendor_rest (append vendor (String.◌∷◌ d name)))))).1
        (inr (letter, HasDot-is_vendor_rest d vendor name words dot filled parts))

-- No character of a key is a newline.
abbrev IsNoNewline : ℕ → Type 0
IsNoNewline n = (n ≡ 10) → ⊥

IsNamePart-IsNoNewline : (n : ℕ) → IsNamePart n → IsNoNewline n
IsNamePart-IsNoNewline n w h =
    absurd (
      true_ne_false (sym (subst (λ m. (is_word m || nat_eqb m 46) ≡ true) h ((is_part_iff n).1 w))))

AllCodes-map : (P Q : ℕ → Type 0) (s : String) → ((n : ℕ) → P n → Q n) → AllCodes P s → AllCodes Q s
AllCodes-map P Q String.[] f w = tt
AllCodes-map P Q (String.◌∷◌ c s) f (w, ws) = (f (code c) w, AllCodes-map P Q s f ws)

AllCodes-append :
    (P : ℕ → Type 0) (s t : String) → AllCodes P s → AllCodes P t → AllCodes P (append s t)
AllCodes-append P String.[] t w z = z
AllCodes-append P (String.◌∷◌ c s) t (w, ws) z = (w, AllCodes-append P s t ws z)

drop_newline-key : (s : String) → AllCodes IsNoNewline s → drop_newline s ≡ s
unfolding drop_newline
drop_newline-key String.[] w = refl
drop_newline-key (String.◌∷◌ c s) (w, ws) =
    if-false (is_blank s && nat_eqb (code c) 10) _ _
      (elim (Bool-cases (is_blank s && nat_eqb (code c) 10)) [
        | inr h ↦ h
        | inl h ↦ absurd (w ((both_iff _ _ (id_iff (is_blank s)) (eqb_iff (code c) 10)).0 h).1)
      ])
    ∙ ap (String.◌∷◌ c) (drop_newline-key s ws)

drop_newline-append :
    (s : String) (n : Char) → code n ≡ 10 → drop_newline (append s (String.◌∷◌ n String.[])) ≡ s
unfolding drop_newline
drop_newline-append String.[] n h = if-true (nat_eqb (code n) 10) _ _ ((eqb_iff _ _).1 h)
drop_newline-append (String.◌∷◌ c String.[]) n h =
    ap (String.◌∷◌ c) (drop_newline-append String.[] n h)
drop_newline-append (String.◌∷◌ c (String.◌∷◌ e s)) n h =
    ap (String.◌∷◌ c) (drop_newline-append (String.◌∷◌ e s) n h)

drop_newline-cases :
    (k : String)
    → (k ≡ drop_newline k)
      ⊎ ((n : Char) × (code n ≡ 10) × (k ≡ append (drop_newline k) (String.◌∷◌ n String.[])))
unfolding drop_newline
drop_newline-cases String.[] = inl refl
drop_newline-cases (String.◌∷◌ c String.[]) = elim (Bool-cases (nat_eqb (code c) 10)) [
  | inl h ↦ inr (
    c,
    (eqb_iff _ _).0 h,
    ap (λ t. append t (String.◌∷◌ c String.[])) (sym (if-true (nat_eqb (code c) 10) _ _ h)),
  )
  | inr h ↦ inl (sym (if-false (nat_eqb (code c) 10) _ _ h))
]
drop_newline-cases (String.◌∷◌ c (String.◌∷◌ e s)) = elim (drop_newline-cases (String.◌∷◌ e s)) [
  | inl same ↦ inl (ap (String.◌∷◌ c) same)
  | inr (n, h, same) ↦ inr (n, h, ap (String.◌∷◌ c) same)
]

IsPrivateKey-IsNoNewline : (s : String) → IsPrivateKey s ⊎ IsVendorKey s → AllCodes IsNoNewline s
IsPrivateKey-IsNoNewline s w =
    AllCodes-map IsNamePart IsNoNewline s IsNamePart-IsNoNewline (elim w [
      | inl (x, u, name, same, letter, line, filled, words) ↦
          subst (AllCodes IsNamePart) (sym same) (
            of_x (code x) letter,
            (inl (inr (inr line)), AllCodes-map IsWord IsNamePart name (λ n v. inl v) words),
          )
      | inr (l, d, vendor, name, same, letter, words, dot, filled, parts) ↦
          subst (AllCodes IsNamePart) (sym same) (
            inl (inl letter),
            AllCodes-append IsNamePart vendor (String.◌∷◌ d name)
                (AllCodes-map IsWord IsNamePart vendor (λ n v. inl v) words) (inr dot, parts),
          )
    ])
  where
    of_x : (n : ℕ) → (n ≡ 120) ⊎ (n ≡ 88) → IsNamePart n
    of_x n (inl h) = inl (inl (inl (omega (arith, h), omega (arith, h))))
    of_x n (inr h) = inl (inl (inr (inl (omega (arith, h), omega (arith, h)))))

-- The pattern accepts exactly the keys, with or without a newline at the end.
pub matches_pattern-HasKeyForm : (k : String) → (matches_pattern k ≡ true) ↔ HasKeyForm k
unfolding matches_pattern
matches_pattern-HasKeyForm k = (
  λ h. (drop_newline k, is_key-IsPrivateKey (drop_newline k) h, drop_newline-cases k),
  λ (s, key, ends).
      ap is_key (elim ends [
        | inl same ↦ ap drop_newline same ∙ drop_newline-key s (IsPrivateKey-IsNoNewline s key)
        | inr (n, h, same) ↦ ap drop_newline same ∙ drop_newline-append s n h
      ])
      ∙ elim key [ inl w ↦ IsPrivateKey-is_key s w | inr w ↦ IsVendorKey-is_key s w ],
)
