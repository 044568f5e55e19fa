-- ===== src/Broker/Service/Log.antt =====
-- What `BrokerService` records and translates.
use semantic_intent_protocol.Base.{
  [], refl, ◌∙◌, lookup, sym, map, ap, Dict, ◌++◌, ◌≡◌, List, Option, String, ◌∷◌, none, some,
}
use semantic_intent_protocol.Broker.Handlers.{process_intent, Draws, BrokerAudit}
use semantic_intent_protocol.Broker.Handlers.Laws.{process_intent-IsAuthorised, IsAuthorised}
use semantic_intent_protocol.Broker.Service.{BrokerService, handle, handle_all, translate}
use semantic_intent_protocol.Envelope.Enums.{binding_type_value}
use semantic_intent_protocol.Envelope.Models.{IntentEnvelope}
use semantic_intent_protocol.Negotiation.Planner.{ExecutionPlan}

append_assoc : (l m n : List BrokerAudit) → ((l ++ m) ++ n) ≡ (l ++ (m ++ n))
append_assoc [] m n = refl
append_assoc (a ∷ l) m n = ap (λ k. a ∷ k) (append_assoc l m n)

-- The audit record of a request, for the registry and the settings of `b`.
abbrev pub record_of : (String → String) → BrokerService → Draws × IntentEnvelope → BrokerAudit
record_of lower b r = (process_intent lower b.enforce_approval b.registry r.0 r.1).audit_record

append_nil : (l : List BrokerAudit) → (l ++ []) ≡ l
append_nil [] = refl
append_nil (a ∷ l) = ap (λ k. a ∷ k) (append_nil l)

-- The broker keeps every record it has, appends exactly one for each request, in the order of the
-- requests, and changes neither its registry nor its settings.
pub handle_all-audit_log :
    (lower : String → String) (requests : List (Draws × IntentEnvelope)) (b : BrokerService)
    → ((handle_all lower requests b).audit_log ≡ (b.audit_log ++ map (record_of lower b) requests))
      × ((handle_all lower requests b).registry ≡ b.registry)
      × ((handle_all lower requests b).enforce_approval ≡ b.enforce_approval)
unfolding handle_all handle
handle_all-audit_log lower [] b = (sym (append_nil b.audit_log), refl, refl)
handle_all-audit_log lower ((d, e) ∷ requests) b =
    let (log, store, setting) = handle_all-audit_log lower requests (handle lower d e b).1 in
    (
      log
          ∙ append_assoc b.audit_log (record_of lower b (d, e) ∷ [])
              (map (record_of lower b) requests),
      store,
      setting,
    )

module _ {Translation : Type 0} (adapters : Dict (ExecutionPlan → Option Translation)) where
  -- The adapter that is registered for the plan's binding made `t` of it.
  abbrev pub IsTranslated : ExecutionPlan → Translation → Type 0
  IsTranslated p t =
      (adapter : ExecutionPlan → Option Translation) × (lookup
          (binding_type_value p.selected_binding) adapters
        ≡ some adapter)
      × (adapter p ≡ some t)

  dispatch_some :
      (o : Option (ExecutionPlan → Option Translation)) (p : ExecutionPlan) (t : Translation)
      → (elim o [ none ↦ none | some adapter ↦ adapter p ]) ≡ some t
      → (adapter : ExecutionPlan → Option Translation) × (o ≡ some adapter) × (adapter p ≡ some t)
  dispatch_some none p t h = absurd (none_ne h)
    where
      none_ne : ◌≡◌ {A = Option Translation} none (some t) → ⊥
      none_ne h = cc
  dispatch_some (some adapter) p t h = (adapter, refl, h)

  IsTranslated-some :
      (o : Option ExecutionPlan) (t : Translation)
      → (elim o [
        | none ↦ none
        | some p ↦ elim (lookup (binding_type_value p.selected_binding) adapters) [
          | none ↦ none
          | some adapter ↦ adapter p
        ]
      ])
        ≡ some t
      → (p : ExecutionPlan) × (o ≡ some p) × IsTranslated p t
  IsTranslated-some none t h = absurd (none_ne h)
    where
      none_ne : ◌≡◌ {A = Option Translation} none (some t) → ⊥
      none_ne h = cc
  IsTranslated-some (some p) t h =
      (p, refl, dispatch_some (lookup (binding_type_value p.selected_binding) adapters) p t h)

  -- A translation comes from an authorised plan, by the adapter registered for the plan's binding.
  pub translate-IsAuthorised :
      (lower : String → String) (d : Draws) (e : IntentEnvelope) (b : BrokerService)
      (t : Translation)
      → (translate lower adapters d e b).0 ≡ some t
      → (p : ExecutionPlan) × IsAuthorised lower b.registry d e p × IsTranslated p t
  unfolding translate handle
  translate-IsAuthorised lower d e b t h =
      let result = process_intent lower b.enforce_approval b.registry d e in
      let (p, returned, translated) = IsTranslated-some result.execution_plan t h in
      (
        p,
        process_intent-IsAuthorised lower b.enforce_approval b.registry d e p returned,
        translated,
      )
