-- ===== src/Base/Sort.antt =====
-- Python's `sorted`: the stable sort by a total preorder, here as insertion.
use mathlib.Core.Path.{◌≡◌, refl}
use mathlib.Core.Logic.{◌⊎◌, inl, inr}
use mathlib.Core.Bool.{Bool, true, false}
use mathlib.Core.List.{List, [], ◌∷◌}
use Prim.Native.Nat.{suc}
use native.Mathlib.Omega.{arith}
use semantic_intent_protocol.Base.Tests.{if◌then◌else◌, Bool-cases}
use semantic_intent_protocol.Base.Lists.{All, All-In, In, In-All, length}

module _ {A : Type 0} (le : A → A → Bool) where
  unfoldable pub insert_sorted : A → List A → List A
  insert_sorted x [] = x ∷ []
  insert_sorted x (y ∷ ys) = if le x y then x ∷ y ∷ ys else y ∷ insert_sorted x ys

  unfoldable pub sorted : List A → List A
  unfolding insert_sorted
  sorted [] = []
  sorted (x ∷ xs) = insert_sorted x (sorted xs)

  -- Each element is below all that follow it.
  abbrev pub IsSorted : List A → Type 0
  IsSorted [] = Unit
  IsSorted (x ∷ xs) = All (λ y. le x y ≡ true) xs × IsSorted xs

  In-insert_sorted : (a x : A) (xs : List A) → In a (insert_sorted x xs) → (a ≡ x) ⊎ In a xs
  unfolding insert_sorted
  In-insert_sorted a x [] h = h
  In-insert_sorted a x (y ∷ ys) h = ground (arith, In-insert_sorted a x ys)

  insert_sorted-In : (a x : A) (xs : List A) → (a ≡ x) ⊎ In a xs → In a (insert_sorted x xs)
  unfolding insert_sorted
  insert_sorted-In a x [] h = h
  insert_sorted-In a x (y ∷ ys) h = ground (arith, insert_sorted-In a x ys)

  pub In-sorted : (a : A) (xs : List A) → In a (sorted xs) → In a xs
  unfolding sorted
  In-sorted a [] h = h
  In-sorted a (x ∷ xs) h = elim (In-insert_sorted a x (sorted xs) h) [
    | inl e ↦ inl e
    | inr m ↦ inr (In-sorted a xs m)
  ]

  pub sorted-In : (a : A) (xs : List A) → In a xs → In a (sorted xs)
  unfolding sorted
  sorted-In a [] h = h
  sorted-In a (x ∷ xs) (inl e) = insert_sorted-In a x (sorted xs) (inl e)
  sorted-In a (x ∷ xs) (inr m) = insert_sorted-In a x (sorted xs) (inr (sorted-In a xs m))

  length-insert_sorted : (x : A) (xs : List A) → length (insert_sorted x xs) ≡ suc (length xs)
  unfolding insert_sorted
  length-insert_sorted x [] = refl
  length-insert_sorted x (y ∷ ys) = ground (arith, length-insert_sorted x ys)

  pub length-sorted : (xs : List A) → length (sorted xs) ≡ length xs
  unfolding sorted
  length-sorted [] = refl
  length-sorted (x ∷ xs) = omega (arith, length-insert_sorted x (sorted xs), length-sorted xs)

-- The order is a total preorder.
pub record IsPreorder {A : Type 0} (le : A → A → Bool) : Type 0 where
  pub total : (a b : A) → (le a b ≡ true) ⊎ (le b a ≡ true)
  pub trans : (a b c : A) → le a b ≡ true → le b c ≡ true → le a c ≡ true

module _ {A : Type 0} (le : A → A → Bool) (o : IsPreorder le) where
  insert_sorted-IsSorted :
      (x : A) (xs : List A) → IsSorted le xs → IsSorted le (insert_sorted le x xs)
  unfolding insert_sorted
  insert_sorted-IsSorted x [] h = (tt, tt)
  insert_sorted-IsSorted x (y ∷ ys) (below, rest) = elim (Bool-cases (le x y)) [
    | inl e ↦
        rw e ((e, In-All _ ys (λ a m. o.trans x y a e (All-In _ ys below a m))), (below, rest))
    | inr e ↦ rw e (
      In-All _ (insert_sorted le x ys) (λ a m. elim (In-insert_sorted le a x ys m) [
        | inl same ↦ rw same (y_below_x e)
        | inr old ↦ All-In _ ys below a old
      ]),
      insert_sorted-IsSorted x ys rest,
    )
  ]
    where
      y_below_x : le x y ≡ false → le y x ≡ true
      y_below_x e = elim (o.total x y) [ inl h ↦ cc | inr h ↦ h ]

  pub sorted-IsSorted : (xs : List A) → IsSorted le (sorted le xs)
  unfolding sorted
  sorted-IsSorted [] = tt
  sorted-IsSorted (x ∷ xs) = insert_sorted-IsSorted x (sorted le xs) (sorted-IsSorted xs)
