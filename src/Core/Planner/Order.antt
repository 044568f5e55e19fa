-- ===== src/Core/Planner/Order.antt =====
-- The planner and the order of its candidates.
use mathlib.Core.Path.{subst}
use semantic_intent_protocol.Base.{
  refl, [], keep_if-IsReordering, In-keep_if, keep_if, map, contains, All-In, Bool, sorted-In,
  In-sorted, length-IsReordering, length, length-sorted, sorted-IsSorted, ap, is_empty-IsReordering,
  ◌∙◌, sym, true_ne_false, is_empty, IsReordering-sym, In-IsReordering, IsSorted, In, IsPreorder,
  IsReordering, ok, sorted, List, ◌∷◌, inl, inr, text_leb_antisymm, text_leb_trans, true,
  text_leb_total, eq_iff, arith, string_eq, ◌⊎◌, ◌≡◌, text_leb, ◌==◌, if◌then◌else◌, String,
}
use semantic_intent_protocol.Core.Intent.{NormalizedIntent}
use semantic_intent_protocol.Core.Planner.{
  eligible_of, first_eligible, plan_normalized, no_eligible, key_leb, select_eligible,
}
use semantic_intent_protocol.Policy.Interface.{PolicyResult}
use semantic_intent_protocol.Registry.Models.{CapabilityDescriptor}

module _ (p q u s t v : String) where
  key_leb_total :
      ((if p == q then text_leb s t else text_leb p q) ≡ true)
      ⊎ ((if q == p then text_leb t s else text_leb q p) ≡ true)
  key_leb_total = ground (arith, eq_iff p q, eq_iff q p, text_leb_total s t, text_leb_total p q)

  key_leb_antisymm :
      (if p == q then text_leb s t else text_leb p q) ≡ true
      → (if q == p then text_leb t s else text_leb q p) ≡ true
      → (p ≡ q) × (s ≡ t)
  key_leb_antisymm h k =
      ground (arith, eq_iff p q, eq_iff q p, text_leb_antisymm p q, text_leb_antisymm s t)

  key_leb_trans :
      (if p == q then text_leb s t else text_leb p q) ≡ true
      → (if q == u then text_leb t v else text_leb q u) ≡ true
      → (if p == u then text_leb s v else text_leb p u) ≡ true
  key_leb_trans h k = ground (
    arith,
    eq_iff p q,
    eq_iff q u,
    eq_iff p u,
    text_leb_trans s t v,
    text_leb_trans p q u,
    text_leb_antisymm p q,
  )

key_leb-IsPreorder : IsPreorder key_leb
unfolding key_leb
key_leb-IsPreorder = record {
  total = λ a b.
      key_leb_total a.provider.provider_id b.provider.provider_id "" a.capability_id b.capability_id
        "";
  trans = λ a b c.
      key_leb_trans a.provider.provider_id b.provider.provider_id c.provider.provider_id
        a.capability_id b.capability_id c.capability_id;
}

key_leb_refl : (a : CapabilityDescriptor) → key_leb a a ≡ true
key_leb_refl a = elim (key_leb-IsPreorder.total a a) [ inl h ↦ h | inr h ↦ h ]

-- Two candidates with the same provider and the same id are the same.
abbrev pub HasUniqueKeys : List CapabilityDescriptor → Type 0
HasUniqueKeys cs =
    (a b : CapabilityDescriptor)
    → In a cs
    → In b cs
    → a.provider.provider_id ≡ b.provider.provider_id
    → a.capability_id ≡ b.capability_id
    → a ≡ b

abbrev pub IsLeast : CapabilityDescriptor → List CapabilityDescriptor → Type 0
IsLeast c xs = In c xs × ((a : CapabilityDescriptor) → In a xs → key_leb c a ≡ true)

IsLeast-sorted :
    (xs ys : List CapabilityDescriptor) (c : CapabilityDescriptor)
    → sorted key_leb xs ≡ (c ∷ ys)
    → IsLeast c xs
IsLeast-sorted xs ys c e =
    let sorted_list : IsSorted key_leb (c ∷ ys) =
      subst (IsSorted key_leb) e (sorted-IsSorted key_leb key_leb-IsPreorder xs) in
    (
      In-sorted key_leb c xs (subst (In c) (sym e) (inl refl)),
      λ a m. elim (subst (In a) e (sorted-In key_leb a xs m)) [
        | inl same ↦ subst (λ b. key_leb c b ≡ true) (sym same) (key_leb_refl c)
        | inr later ↦ All-In _ ys sorted_list.0 a later
      ],
    )

IsLeast-unique :
    (xs : List CapabilityDescriptor) (a b : CapabilityDescriptor)
    → HasUniqueKeys xs
    → IsLeast a xs
    → IsLeast b xs
    → a ≡ b
unfolding key_leb
IsLeast-unique xs a b u (ma, la) (mb, lb) =
    let (p, q) =
      key_leb_antisymm a.provider.provider_id b.provider.provider_id "" a.capability_id
        b.capability_id "" (la b mb) (lb a ma) in
    u a b ma mb p q

pub IsLeast-IsReordering :
    {xs ys : List CapabilityDescriptor} (c : CapabilityDescriptor)
    → IsReordering xs ys
    → IsLeast c xs
    → IsLeast c ys
IsLeast-IsReordering {xs} {ys} c r (m, l) =
    (In-IsReordering c r m, λ a k. l a (In-IsReordering a (IsReordering-sym r) k))

no_elements : (zs : List CapabilityDescriptor) → length zs ≡ 0 → is_empty zs ≡ true
no_elements [] h = refl
no_elements (z ∷ zs) h = ground (arith, h)

module _ (xs : List CapabilityDescriptor) where
  abbrev pub SelectsLeast : Type 0
  SelectsLeast =
      ((is_empty xs ≡ true) × (select_eligible xs ≡ no_eligible))
      ⊎ ((c : CapabilityDescriptor) × IsLeast c xs × (select_eligible xs ≡ ok c))

  pub select_eligible_lem : SelectsLeast
  unfolding select_eligible
  select_eligible_lem = by_sorted (sorted key_leb xs) refl
    where
      by_sorted : (ys : List CapabilityDescriptor) → sorted key_leb xs ≡ ys → SelectsLeast
      by_sorted [] e =
          inl (no_elements xs (sym (length-sorted key_leb xs) ∙ ap length e), ap first_eligible e)
      by_sorted (c ∷ ys) e = inr (c, IsLeast-sorted xs ys c e, ap first_eligible e)

select_eligible-IsReordering :
    (xs ys : List CapabilityDescriptor)
    → HasUniqueKeys xs
    → IsReordering xs ys
    → select_eligible xs ≡ select_eligible ys
select_eligible-IsReordering xs ys u r = elim (select_eligible_lem xs) [
  | inl (e, h) ↦ elim (select_eligible_lem ys) [
    | inl (k, g) ↦ h ∙ sym g
    | inr (c, (m, l), g) ↦ absurd (empty_In ys c (sym (is_empty-IsReordering r) ∙ e) m)
  ]
  | inr (c, (m, l), h) ↦ elim (select_eligible_lem ys) [
    | inl (k, g) ↦ absurd (empty_In xs c (is_empty-IsReordering r ∙ k) m)
    | inr (d, least, g) ↦
        h
        ∙ (ap ok
              (IsLeast-unique xs c d u (m, l) (IsLeast-IsReordering d (IsReordering-sym r) least))
            ∙ sym g)
  ]
]
  where
    empty_In :
        (zs : List CapabilityDescriptor) (c : CapabilityDescriptor)
        → is_empty zs ≡ true
        → In c zs
        → ⊥
    empty_In [] c e m = m
    empty_In (z ∷ zs) c e m = true_ne_false (sym e)

fallback-IsReordering :
    (allowed kept others : List CapabilityDescriptor)
    → HasUniqueKeys kept
    → IsReordering kept others
    → (select_eligible (if is_empty kept then allowed else kept)
        ≡ select_eligible (if is_empty others then allowed else others))
      × (length (if is_empty kept then allowed else kept)
          ≡ length (if is_empty others then allowed else others))
fallback-IsReordering allowed [] [] u r = (refl, refl)
fallback-IsReordering allowed (x ∷ xs) (y ∷ ys) u r =
    (select_eligible-IsReordering (x ∷ xs) (y ∷ ys) u r, length-IsReordering r)
fallback-IsReordering allowed [] (y ∷ ys) u r = absurd (true_ne_false (is_empty-IsReordering r))
fallback-IsReordering allowed (x ∷ xs) [] u r =
    absurd (true_ne_false (sym (is_empty-IsReordering r)))

-- For candidates of which no two differ and share both provider and id, the plan for an intent and
-- a policy decision, or the denial, is the same in whatever order the candidates are given.
pub plan_normalized-IsReordering :
    (plan_id span_id : String) (i : NormalizedIntent) (r : PolicyResult)
    (cs others : List CapabilityDescriptor)
    → HasUniqueKeys cs
    → IsReordering cs others
    → plan_normalized plan_id span_id i r cs ≡ plan_normalized plan_id span_id i r others
unfolding plan_normalized eligible_of
plan_normalized-IsReordering plan_id span_id i r cs others u o =
    let is_listed : CapabilityDescriptor → Bool =
      λ c. contains (map (λ a. a.capability_id) r.allowed_capabilities) c.capability_id in
    let (chosen, counted) =
      fallback-IsReordering r.allowed_capabilities (keep_if is_listed cs) (keep_if is_listed others)
        (λ a b m k. u a b (In-keep_if is_listed a cs m).0 (In-keep_if is_listed b cs k).0)
        (keep_if-IsReordering is_listed o) in
    rw chosen (rw counted refl)
