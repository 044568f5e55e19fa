-- ===== src/Registry/Bootstrap/Seeded.antt =====
-- A registry that `seed_registry` (sip/registry/bootstrap.py) has filled, and a broker over it.
use semantic_intent_protocol.Base.{
  refl, some, inl, All-In, arith, leb→le, true_ne_false, ◌||◌, is_empty, leb, not, ◌&&◌, true, In,
  sym, All, ap, ◌≤◌, insert, string_eq, ◌∙◌, ◌==◌, if◌then◌else◌, ◌≡◌, Bool, Option, false, none,
  String, List, [], ◌∷◌,
}
use semantic_intent_protocol.Broker.Handlers.{process_intent, Draws}
use semantic_intent_protocol.Broker.Handlers.Approval.{process_intent-approval_table}
use semantic_intent_protocol.Broker.Handlers.Laws.{process_intent-IsAuthorised}
use semantic_intent_protocol.Envelope.Enums.{OperationClass, TrustLevel, trust_order}
use semantic_intent_protocol.Envelope.Models.{IntentEnvelope}
use semantic_intent_protocol.Negotiation.Planner.{ExecutionPlan}
use semantic_intent_protocol.Policy.Rules.{in_approval_combinations}
use semantic_intent_protocol.Registry.Bootstrap.{
  seed_capabilities, build_seeded_registry, register_all, seed_registry,
}
use semantic_intent_protocol.Registry.Models.{CapabilityDescriptor}
use semantic_intent_protocol.Registry.Storage.{get, put, CapabilityStore, list_all}
use semantic_intent_protocol.Registry.Storage.Laws.{get-put, put-IsValid, IsValid}

-- The last of the descriptors with this id.
abbrev pub last_of : String → List CapabilityDescriptor → Option CapabilityDescriptor
last_of k [] = none
last_of k (c ∷ cs) =
    let rest = last_of k cs in
    elim rest [ some found ↦ some found | none ↦ if c.capability_id == k then some c else none ]

abbrev pub or_else :
    Option CapabilityDescriptor → Option CapabilityDescriptor → Option CapabilityDescriptor
or_else none old = old
or_else (some c) old = some c

or_else_if :
    (b : Bool) (c : CapabilityDescriptor) (o old : Option CapabilityDescriptor)
    → or_else o (if b then some c else old)
      ≡ or_else (elim o [ some found ↦ some found | none ↦ if b then some c else none ]) old
or_else_if b c (some found) old = refl
or_else_if true c none old = refl
or_else_if false c none old = refl

get-register_all :
    (k : String) (cs : List CapabilityDescriptor) (s : CapabilityStore)
    → get k (register_all cs s) ≡ or_else (last_of k cs) (get k s)
unfolding register_all
get-register_all k [] s = refl
get-register_all k (c ∷ cs) s =
    get-register_all k cs (put c s)
    ∙ ap (or_else (last_of k cs)) (get-put c s k)
    ∙ or_else_if (c.capability_id == k) c (last_of k cs) (get k s)

register_all-IsValid :
    (cs : List CapabilityDescriptor) (s : CapabilityStore) → IsValid s → IsValid (register_all cs s)
unfolding register_all
register_all-IsValid [] s v = v
register_all-IsValid (c ∷ cs) s v = register_all-IsValid cs (put c s) (put-IsValid c s v)

or_else_twice : (o old : Option CapabilityDescriptor) → or_else o (or_else o old) ≡ or_else o old
or_else_twice none old = refl
or_else_twice (some c) old = refl

-- Seeding a valid store leaves it valid, puts each seed under its id, leaves what stands under other
-- ids, and does no more when it is done twice.
pub seed_registry_lem :
    (s : CapabilityStore) (k : String)
    → IsValid s
    → IsValid (seed_registry s)
      × (get k (seed_registry s) ≡ or_else (last_of k seed_capabilities) (get k s))
      × (get k (seed_registry (seed_registry s)) ≡ get k (seed_registry s))
unfolding seed_registry
seed_registry_lem s k v = (
  register_all-IsValid seed_capabilities s v,
  get-register_all k seed_capabilities s,
  get-register_all k seed_capabilities (seed_registry s)
      ∙ ap (or_else (last_of k seed_capabilities)) (get-register_all k seed_capabilities s)
      ∙ or_else_twice (last_of k seed_capabilities) (get k s)
      ∙ sym (get-register_all k seed_capabilities s),
)

-- The trust level that an operation of a seed asks for at least.
abbrev pub floor_of : OperationClass → TrustLevel
floor_of OperationClass.delegate = TrustLevel.privileged
floor_of op = TrustLevel.internal

-- What all seeds have in common.
record IsOrdinary (c : CapabilityDescriptor) : Type 0 where
  unapproved : in_approval_combinations c.risk_level c.operation_class ≡ false
  unforced : c.constraints.requires_human_approval ≡ false
  reached : trust_order (floor_of c.operation_class) ≤ trust_order c.minimum_trust_tier
  scoped : (scope : String) × In scope c.required_scopes

abbrev is_ordinary : CapabilityDescriptor → Bool
is_ordinary c =
    not (in_approval_combinations c.risk_level c.operation_class)
    && not c.constraints.requires_human_approval
    && leb (trust_order (floor_of c.operation_class)) (trust_order c.minimum_trust_tier)
    && not (is_empty c.required_scopes)

some_member : (xs : List String) → is_empty xs ≡ false → (a : String) × In a xs
some_member [] h = absurd (true_ne_false h)
some_member (a ∷ xs) h = (a, inl refl)

and_all :
    (a b l n : Bool)
    → (not a && not b && l && not n) ≡ true
    → (a ≡ false) × (b ≡ false) × (l ≡ true) × (n ≡ false)
and_all a b l n h = ground arith

ordinary : (c : CapabilityDescriptor) → is_ordinary c ≡ true → IsOrdinary c
ordinary c h =
    let (unapproved, unforced, reached, filled) =
      and_all (in_approval_combinations c.risk_level c.operation_class)
        c.constraints.requires_human_approval
        (leb (trust_order (floor_of c.operation_class)) (trust_order c.minimum_trust_tier))
        (is_empty c.required_scopes) h in
    record {
      unapproved = unapproved;
      unforced = unforced;
      reached =
          leb→le (trust_order (floor_of c.operation_class)) (trust_order c.minimum_trust_tier)
            reached;
      scoped = some_member c.required_scopes filled;
    }

seeds-IsOrdinary : All IsOrdinary (list_all build_seeded_registry)
unfolding build_seeded_registry list_all put insert
seeds-IsOrdinary = (
  ordinary _ refl,
  (
    ordinary _ refl,
    (
      ordinary _ refl,
      (
        ordinary _ refl,
        (
          ordinary _ refl,
          (ordinary _ refl, (ordinary _ refl, (ordinary _ refl, (ordinary _ refl, tt)))),
        ),
      ),
    ),
  ),
)

-- What a plan over the seeds comes with.
pub record IsSeedPlan (e : IntentEnvelope) (p : ExecutionPlan) : Type 0 where
  pub seed : In p.selected_capability (list_all build_seeded_registry)
  pub approval : p.approval_required ≡ false
  pub trusted :
      trust_order (floor_of p.selected_capability.operation_class) ≤ trust_order e.actor.trust_level
  pub scope :
      (scope : String) × In scope p.selected_capability.required_scopes × In scope e.actor.scopes

unapproved_plan :
    (enforce combined forced waits : Bool)
    → waits ≡ ((enforce && combined) || forced)
    → combined ≡ false
    → forced ≡ false
    → waits ≡ false
unapproved_plan enforce combined forced waits h c f = ground arith

-- Over the seeded registry, a plan that `process_intent` returns is for a seed, never waits for
-- approval, whether or not the approval policy is enforced, and its actor holds a scope that the
-- seed requires and has at least the internal level, or the privileged one to delegate.
pub process_intent-IsSeedPlan :
    (lower : String → String) (enforce : Bool) (d : Draws) (e : IntentEnvelope) (p : ExecutionPlan)
    → (process_intent lower enforce build_seeded_registry d e).execution_plan ≡ some p
    → IsSeedPlan e p
process_intent-IsSeedPlan lower enforce d e p h =
    let authorised = process_intent-IsAuthorised lower enforce build_seeded_registry d e p h in
    let c = p.selected_capability in
    let seed = authorised.selection.registered in
    let common_traits =
      All-In IsOrdinary (list_all build_seeded_registry) seeds-IsOrdinary c seed in
    let (scope, required) = common_traits.scoped in
    let reached : trust_order c.minimum_trust_tier ≤ trust_order e.actor.trust_level =
      authorised.selection.candidate.trusted in
    record {
      seed = seed;
      approval =
          unapproved_plan enforce (in_approval_combinations c.risk_level c.operation_class)
            c.constraints.requires_human_approval p.approval_required
            (process_intent-approval_table lower enforce build_seeded_registry d e p h)
            common_traits.unapproved common_traits.unforced;
      trusted = omega (arith, common_traits.reached, reached);
      scope = (scope, required, authorised.permitted.scopes scope required);
    }
