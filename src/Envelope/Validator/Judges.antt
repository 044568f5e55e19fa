-- ===== src/Envelope/Validator/Judges.antt =====
-- What a check of the validator does to the result, with a rule for each way to build one.
use semantic_intent_protocol.Base.{
  ◌∙◌, String, ◌≡◌, refl, sym, inl, inr, ◌↔◌, Bool, true, false, not, ◌&&◌, List, [], ◌∷◌, ◌++◌,
  is_empty, contains, contains→In, In→contains, Bool-cases, string_eq, arith,
}
use semantic_intent_protocol.Envelope.Enums.{binding_eq, operation_eq, determinism_eq}
use semantic_intent_protocol.Envelope.Validator.{
  ValidationError, ValidationResult, reject_if, common, excess,
}
use semantic_intent_protocol.Envelope.Validator.Accepted.{IsSubset, AreDisjoint}

-- `valid` is false exactly when an error was recorded.
abbrev pub IsConsistent : ValidationResult → Type 0
IsConsistent r = r.valid ≡ is_empty r.errors

pub is_empty-snoc {ℓ} : {A : Type ℓ} (xs : List A) (x : A) → is_empty (xs ++ (x ∷ [])) ≡ false
is_empty-snoc [] x = refl
is_empty-snoc (y ∷ xs) x = refl

-- `f` records an error exactly when `P` fails, and keeps the verdict in step with the errors.
pub record Judges (P : Type 0) (f : ValidationResult → ValidationResult) : Type 0 where
  pub consistent : (r : ValidationResult) → IsConsistent r → IsConsistent (f r)
  pub sound : (r : ValidationResult) → (f r).valid ≡ true → (r.valid ≡ true) × P
  pub complete : (r : ValidationResult) → r.valid ≡ true → P → (f r).valid ≡ true

pub reject_if-IsConsistent :
    (fails : Bool) (m : ValidationError) (r : ValidationResult)
    → IsConsistent r
    → IsConsistent (reject_if fails m r)
unfolding reject_if
reject_if-IsConsistent true m r h = sym (is_empty-snoc r.errors m)
reject_if-IsConsistent false m r h = h

pub valid-reject_if :
    (fails : Bool) (m : ValidationError) (r : ValidationResult)
    → (reject_if fails m r).valid ≡ (not fails && r.valid)
unfolding reject_if
valid-reject_if true m r = refl
valid-reject_if false m r = refl

pub reject_if-Judges :
    {P : Type 0} (fails : Bool) (m : ValidationError)
    → (fails ≡ false → P)
    → (P → fails ≡ false)
    → Judges P (reject_if fails m)
reject_if-Judges fails m passed holds = record {
  consistent = reject_if-IsConsistent fails m;
  sound = λ r h.
      let e : fails ≡ false = ground (arith, valid-reject_if fails m r) in
      (ground (arith, valid-reject_if fails m r), passed e);
  complete = λ r h p. valid-reject_if fails m r ∙ rw (holds p) h;
}

pub then-Judges :
    {P Q : Type 0} {f g : ValidationResult → ValidationResult}
    → Judges P f
    → Judges Q g
    → Judges (P × Q) (λ r. g (f r))
then-Judges {f} j k = record {
  consistent = λ r h. k.consistent (f r) (j.consistent r h);
  sound = λ r h. let (v, q) = k.sound (f r) h in let (w, p) = j.sound r v in (w, (p, q));
  complete = λ r h (p, q). k.complete (f r) (j.complete r h p) q;
}

pub unchanged-Judges : Judges (Unit {0}) (λ r. r)
unchanged-Judges = record { consistent = λ r h. h; sound = λ r h. (h, tt); complete = λ r h u. h }

pub iff-Judges :
    {P Q : Type 0} {f : ValidationResult → ValidationResult} → (P ↔ Q) → Judges P f → Judges Q f
iff-Judges (to, from) j = record {
  consistent = j.consistent;
  sound = λ r h. let (v, p) = j.sound r h in (v, to p);
  complete = λ r h q. j.complete r h (from q);
}

pub excess-empty : (xs ys : List String) → (is_empty (excess xs ys) ≡ true) ↔ IsSubset xs ys
excess-empty xs ys = (all_held xs, none_beyond xs)
  where
    all_held : (xs : List String) → is_empty (excess xs ys) ≡ true → IsSubset xs ys
    all_held [] h a m = absurd m
    all_held (x ∷ xs) h a (inl e) = rw e (contains→In ys x (ground arith))
    all_held (x ∷ xs) h a (inr m) = all_held xs (ground arith) a m

    none_beyond : (xs : List String) → IsSubset xs ys → is_empty (excess xs ys) ≡ true
    none_beyond [] h = refl
    none_beyond (x ∷ xs) h =
        rw (In→contains ys x (h x (inl refl))) (none_beyond xs (λ a m. h a (inr m)))

pub common-empty : (xs ys : List String) → (is_empty (common xs ys) ≡ true) ↔ AreDisjoint xs ys
common-empty xs ys = (apart xs, none_shared xs)
  where
    apart : (xs : List String) → is_empty (common xs ys) ≡ true → AreDisjoint xs ys
    apart [] h a m k = m
    apart (x ∷ xs) h a (inl e) k = ground (arith, In→contains ys a k)
    apart (x ∷ xs) h a (inr m) k = apart xs (ground arith) a m k

    none_shared : (xs : List String) → AreDisjoint xs ys → is_empty (common xs ys) ≡ true
    none_shared [] h = refl
    none_shared (x ∷ xs) h = elim (Bool-cases (contains ys x)) [
      | inl e ↦ absurd (h x (inl refl) (contains→In ys x e))
      | inr e ↦ rw e (none_shared xs (λ a m. h a (inr m)))
    ]
