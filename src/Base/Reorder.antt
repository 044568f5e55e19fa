-- ===== src/Base/Reorder.antt =====
-- Lists that hold the same elements in another order.
use mathlib.Core.Path.{◌≡◌, refl, ◌∙◌}
use mathlib.Core.Logic.{inl, inr}
use mathlib.Core.Bool.{Bool, true, false}
use mathlib.Core.List.{List, ◌∷◌}
use native.Mathlib.Omega.{arith}
use semantic_intent_protocol.Base.Tests.{if◌then◌else◌}
use semantic_intent_protocol.Base.Lists.{In, keep_if, length, is_empty}

module _ {A : Type 0} where
  pub data IsReordering : List A → List A → Type 0 where
    same : (xs : List A) → IsReordering xs xs
    swap : (x y : A) (xs : List A) → IsReordering (x ∷ y ∷ xs) (y ∷ x ∷ xs)
    under : (x : A) {xs ys : List A} → IsReordering xs ys → IsReordering (x ∷ xs) (x ∷ ys)
    chain : {xs ys zs : List A} → IsReordering xs ys → IsReordering ys zs → IsReordering xs zs

  pub IsReordering-sym : {xs ys : List A} → IsReordering xs ys → IsReordering ys xs
  IsReordering-sym (same xs) = same xs
  IsReordering-sym (swap x y xs) = swap y x xs
  IsReordering-sym (under x r) = under x (IsReordering-sym r)
  IsReordering-sym (chain r t) = chain (IsReordering-sym t) (IsReordering-sym r)

  pub In-IsReordering : (a : A) {xs ys : List A} → IsReordering xs ys → In a xs → In a ys
  In-IsReordering a (same xs) m = m
  In-IsReordering a (swap x y xs) (inl e) = inr (inl e)
  In-IsReordering a (swap x y xs) (inr (inl e)) = inl e
  In-IsReordering a (swap x y xs) (inr (inr m)) = inr (inr m)
  In-IsReordering a (under x r) (inl e) = inl e
  In-IsReordering a (under x r) (inr m) = inr (In-IsReordering a r m)
  In-IsReordering a (chain r t) m = In-IsReordering a t (In-IsReordering a r m)

  pub length-IsReordering : {xs ys : List A} → IsReordering xs ys → length xs ≡ length ys
  length-IsReordering (same xs) = refl
  length-IsReordering (swap x y xs) = refl
  length-IsReordering (under x r) = omega (arith, length-IsReordering r)
  length-IsReordering (chain r t) = omega (arith, length-IsReordering r, length-IsReordering t)

  keep_if-swap :
      (p : A → Bool) (x y : A) (xs : List A)
      → IsReordering (keep_if p (x ∷ y ∷ xs)) (keep_if p (y ∷ x ∷ xs))
  keep_if-swap p x y xs = cases (p x) (p y)
    where
      cases :
          (b c : Bool)
          → IsReordering
              (if b
                then x ∷ (if c then y ∷ keep_if p xs else keep_if p xs)
                else (if c then y ∷ keep_if p xs else keep_if p xs))
              (if c
                then y ∷ (if b then x ∷ keep_if p xs else keep_if p xs)
                else (if b then x ∷ keep_if p xs else keep_if p xs))
      cases true true = swap x y (keep_if p xs)
      cases true false = same (x ∷ keep_if p xs)
      cases false true = same (y ∷ keep_if p xs)
      cases false false = same (keep_if p xs)

  keep_if-under :
      (p : A → Bool) (x : A) (xs ys : List A)
      → IsReordering (keep_if p xs) (keep_if p ys)
      → IsReordering (keep_if p (x ∷ xs)) (keep_if p (x ∷ ys))
  keep_if-under p x xs ys r = cases (p x)
    where
      cases :
          (b : Bool)
          → IsReordering
              (if b then x ∷ keep_if p xs else keep_if p xs)
              (if b then x ∷ keep_if p ys else keep_if p ys)
      cases true = under x r
      cases false = r

  pub keep_if-IsReordering :
      (p : A → Bool) {xs ys : List A}
      → IsReordering xs ys
      → IsReordering (keep_if p xs) (keep_if p ys)
  keep_if-IsReordering p (same xs) = same (keep_if p xs)
  keep_if-IsReordering p (swap x y xs) = keep_if-swap p x y xs
  keep_if-IsReordering p (under x {xs} {ys} r) = keep_if-under p x xs ys (keep_if-IsReordering p r)
  keep_if-IsReordering p (chain r t) = chain (keep_if-IsReordering p r) (keep_if-IsReordering p t)

  pub is_empty-IsReordering : {xs ys : List A} → IsReordering xs ys → is_empty xs ≡ is_empty ys
  is_empty-IsReordering (same xs) = refl
  is_empty-IsReordering (swap x y xs) = refl
  is_empty-IsReordering (under x r) = refl
  is_empty-IsReordering (chain r t) = is_empty-IsReordering r ∙ is_empty-IsReordering t
