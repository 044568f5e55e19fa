-- ===== src/Extensions/Keys.antt =====
-- Which extension keys are accepted.
use semantic_intent_protocol.Base.{
  [], ◌>>=◌, err, string_eq, sym, ap, if◌then◌else◌, not, true_ne_false, Result, arith, contains→In,
  ok-bind, ◌∙◌, Bool-cases, if-false, ◌||◌, ◌↔◌, In, List, contains, ok, Bool, Value, any, ◌≡◌,
  Dict, String, ◌∷◌, true, false, inl, inr, refl,
}
use semantic_intent_protocol.Extensions.{
  ExtensionError, reserved_core_fields, check_keys, matches_pattern, validate_extension_keys,
}
use semantic_intent_protocol.Extensions.Form.{HasKeyForm}
use semantic_intent_protocol.Extensions.Form.Pattern.{matches_pattern-HasKeyForm}

-- No reserved name has the form of an extension key.
reserved_matches : any matches_pattern reserved_core_fields ≡ false
unfolding matches_pattern
reserved_matches = refl

any-false :
    (p : String → Bool) (xs : List String) (x : String) → any p xs ≡ false → In x xs → p x ≡ false
any-false p [] x h m = absurd m
any-false p (y ∷ ys) x h (inl e) = ap p e ∙ left_false (p y) (any p ys) h
  where
    left_false : (a b : Bool) → (a || b) ≡ false → a ≡ false
    left_false a b k = ground arith
any-false p (y ∷ ys) x h (inr m) = any-false p ys x (right_false (p y) (any p ys) h) m
  where
    right_false : (a b : Bool) → (a || b) ≡ false → b ≡ false
    right_false a b k = ground arith

reserved-unmatched :
    (k : String) → matches_pattern k ≡ true → contains reserved_core_fields k ≡ false
reserved-unmatched k h = elim (Bool-cases (contains reserved_core_fields k)) [
  | inl m ↦
      let no =
        any-false matches_pattern reserved_core_fields k reserved_matches
          (contains→In reserved_core_fields k m) in
      absurd (true_ne_false (sym h ∙ no))
  | inr m ↦ m
]

AllMatch : Dict Value → Type 0
AllMatch extensions = (k : String) (v : Value) → In (k, v) extensions → matches_pattern k ≡ true

check_keys-AllMatch :
    (extensions : Dict Value) → check_keys extensions ≡ ok tt → AllMatch extensions
unfolding check_keys AllMatch
check_keys-AllMatch [] h k v m = absurd m
check_keys-AllMatch ((key, w) ∷ extensions) h k v m =
    by_key (λ rest. check_keys-AllMatch extensions rest) m
  where
    accepted :
        (a b : Bool) (e f : ExtensionError) (rest : Result ExtensionError (Unit {0}))
        → (if a then err e else if not b then err f else rest) ≡ ok tt
        → (b ≡ true) × (rest ≡ ok tt)
    accepted a b e f rest g = ground arith

    by_key :
        (check_keys extensions ≡ ok tt → AllMatch extensions)
        → In (k, v) ((key, w) ∷ extensions)
        → matches_pattern k ≡ true
    by_key later (inl e) = ap (λ x. matches_pattern x.0) e ∙ (accepted _ _ _ _ _ h).0
    by_key later (inr l) = later (accepted _ _ _ _ _ h).1 k v l

AllMatch-check_keys :
    (extensions : Dict Value) → AllMatch extensions → check_keys extensions ≡ ok tt
unfolding check_keys AllMatch
AllMatch-check_keys [] h = refl
AllMatch-check_keys ((key, w) ∷ extensions) h =
    let matched = h key w (inl refl) in
    if-false (contains reserved_core_fields key) _ _ (reserved-unmatched key matched)
    ∙ (if-false (not (matches_pattern key)) _ _ (ap not matched)
        ∙ AllMatch-check_keys extensions (λ k v m. h k v (inr m)))

validate_extension_keys-AllMatch :
    (extensions : Dict Value)
    → (validate_extension_keys extensions ≡ ok extensions)
      ↔ ((k : String) (v : Value) → In (k, v) extensions → matches_pattern k ≡ true)
unfolding validate_extension_keys AllMatch
validate_extension_keys-AllMatch extensions = (
  λ h.
      let (u, checked, same) = ok-bind (check_keys extensions) _ extensions h in
      check_keys-AllMatch extensions checked,
  λ h. ap (λ o. o >>= λ u. ok extensions) (AllMatch-check_keys extensions h),
)

-- Extensions are accepted, and returned as they are, exactly if each key has the form `x_<name>`,
-- where the x may be a capital, or `<vendor>.<name>`, or such a form and a newline after it. A name
-- is not empty; it and a vendor are letters, digits and underscores, a vendor begins with a letter,
-- and a vendor's name may have dots. A letter is one of ASCII, U+0130, U+0131, U+017F or U+212A. The
-- test for the reserved names refuses nothing beyond that.
pub validate_extension_keys-HasKeyForm :
    (extensions : Dict Value)
    → (validate_extension_keys extensions ≡ ok extensions)
      ↔ ((k : String) (v : Value) → In (k, v) extensions → HasKeyForm k)
validate_extension_keys-HasKeyForm extensions =
    let (to, from) = validate_extension_keys-AllMatch extensions in
    (
      λ h k v m. (matches_pattern-HasKeyForm k).0 (to h k v m),
      λ h. from (λ k v m. (matches_pattern-HasKeyForm k).1 (h k v m)),
    )
