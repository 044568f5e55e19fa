-- ===== src/Base/Lists.antt =====
-- Lists: membership, Python's comprehensions and slices, and predicates on all elements.
use Prim.Native.Nat.{ℕ, zero, suc, ◌+◌, min}
use mathlib.Core.Path.{◌≡◌, refl, ap}
use mathlib.Core.Logic.{◌⊎◌, inl, inr}
use mathlib.Core.Bool.{Bool, true, false, ◌||◌}
use mathlib.Core.List.{List, [], ◌∷◌, ◌++◌, map}
use native.Mathlib.Omega.{arith}
use semantic_intent_protocol.Base.Tests.{Eq, ◌==◌, if◌then◌else◌}

module _ {ℓ} {A : Type ℓ} where
  abbrev pub length : List A → ℕ
  length [] = 0
  length (x ∷ xs) = suc (length xs)

  abbrev pub take : ℕ → List A → List A
  take zero xs = []
  take (suc n) [] = []
  take (suc n) (x ∷ xs) = x ∷ take n xs

  -- `not xs`
  abbrev pub is_empty : List A → Bool
  is_empty [] = true
  is_empty (x ∷ xs) = false

  -- `[x for x in xs if p(x)]`
  abbrev pub keep_if : (A → Bool) → List A → List A
  keep_if p [] = []
  keep_if p (x ∷ xs) = let rest = keep_if p xs in if p x then x ∷ rest else rest

  -- `any(p(x) for x in xs)`
  abbrev pub any : (A → Bool) → List A → Bool
  any p [] = false
  any p (x ∷ xs) = p x || any p xs

  abbrev pub All {κ} : (A → Type κ) → List A → Type κ
  All P [] = Unit
  All P (x ∷ xs) = P x × All P xs

  pub length-append : (xs ys : List A) → length (xs ++ ys) ≡ length xs + length ys
  length-append [] ys = omega arith
  length-append (x ∷ xs) ys = omega (arith, length-append xs ys)

  pub length-take : (n : ℕ) (xs : List A) → length (take n xs) ≡ min n (length xs)
  length-take zero xs = omega arith
  length-take (suc n) [] = omega arith
  length-take (suc n) (x ∷ xs) = omega (arith, length-take n xs)

module _ {A : Type 0} where
  -- `a` is an element of `xs`.
  abbrev pub In : A → List A → Type 0
  In a [] = ⊥
  In a (x ∷ xs) = (a ≡ x) ⊎ In a xs

  pub In-take : (a : A) (n : ℕ) (xs : List A) → In a (take n xs) → In a xs
  In-take a zero xs h = absurd h
  In-take a (suc n) [] h = absurd h
  In-take a (suc n) (x ∷ xs) (inl e) = inl e
  In-take a (suc n) (x ∷ xs) (inr h) = inr (In-take a n xs h)

  pub In-append_left : (a : A) (xs ys : List A) → In a xs → In a (xs ++ ys)
  In-append_left a [] ys h = absurd h
  In-append_left a (x ∷ xs) ys (inl e) = inl e
  In-append_left a (x ∷ xs) ys (inr h) = inr (In-append_left a xs ys h)

  pub In-append_right : (a : A) (xs ys : List A) → In a ys → In a (xs ++ ys)
  In-append_right a [] ys h = h
  In-append_right a (x ∷ xs) ys h = inr (In-append_right a xs ys h)

  pub In-append : (a : A) (xs ys : List A) → In a (xs ++ ys) → In a xs ⊎ In a ys
  In-append a [] ys h = inr h
  In-append a (x ∷ xs) ys (inl e) = inl (inl e)
  In-append a (x ∷ xs) ys (inr h) = elim (In-append a xs ys h) [
    | inl l ↦ inl (inr l)
    | inr r ↦ inr r
  ]

  pub In-keep_if :
      (p : A → Bool) (a : A) (xs : List A) → In a (keep_if p xs) → In a xs × (p a ≡ true)
  In-keep_if p a [] h = absurd h
  In-keep_if p a (x ∷ xs) h = ground (arith, In-keep_if p a xs)

  pub keep_if-In : (p : A → Bool) (a : A) (xs : List A) → In a xs → p a ≡ true → In a (keep_if p xs)
  keep_if-In p a [] h t = absurd h
  keep_if-In p a (x ∷ xs) h t = ground (arith, keep_if-In p a xs)

  pub All-In {κ} : (P : A → Type κ) (xs : List A) → All P xs → (a : A) → In a xs → P a
  All-In P (x ∷ xs) (p, ps) a (inl e) = rw e p
  All-In P (x ∷ xs) (p, ps) a (inr h) = All-In P xs ps a h
  All-In P [] ps a h = absurd h

  pub In-All {κ} : (P : A → Type κ) (xs : List A) → ((a : A) → In a xs → P a) → All P xs
  In-All P [] h = tt
  In-All P (x ∷ xs) h = (h x (inl refl), In-All P xs (λ a m. h a (inr m)))

module _ {A : Type 0} ⦃e : Eq A⦄ where
  -- `a in xs`
  abbrev pub contains : List A → A → Bool
  contains [] a = false
  contains (x ∷ xs) a = a == x || contains xs a

  pub contains→In : (xs : List A) (a : A) → contains xs a ≡ true → In a xs
  contains→In [] a h = cc
  contains→In (x ∷ xs) a h = ground (arith, e.beq_iff a x, contains→In xs a)

  pub In→contains : (xs : List A) (a : A) → In a xs → contains xs a ≡ true
  In→contains [] a h = absurd h
  In→contains (x ∷ xs) a h = ground (arith, e.beq_iff a x, In→contains xs a)

module _ {A B : Type 0} where
  pub In-map : (f : A → B) (a : A) (xs : List A) → In a xs → In (f a) (map f xs)
  In-map f a [] h = absurd h
  In-map f a (x ∷ xs) (inl e) = inl (ap f e)
  In-map f a (x ∷ xs) (inr h) = inr (In-map f a xs h)

  pub In-map_inv :
      (f : A → B) (b : B) (xs : List A) → In b (map f xs) → (a : A) × In a xs × (b ≡ f a)
  In-map_inv f b [] h = absurd h
  In-map_inv f b (x ∷ xs) (inl e) = (x, inl refl, e)
  In-map_inv f b (x ∷ xs) (inr h) = let (a, m, e) = In-map_inv f b xs h in (a, inr m, e)
