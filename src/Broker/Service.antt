-- ===== src/Broker/Service.antt =====
-- `BrokerService` and the status codes of `submit_intent` (sip/broker/service.py). The adapters are
-- a parameter: what one of them makes of a plan, or nothing if it raises.
pub mod Log
pub mod Status
pub mod Cases
use semantic_intent_protocol.Base.{
  [], false, ◌||◌, if◌then◌else◌, some, true, lookup, ◌++◌, Option, is_empty, not, Bool, Dict, List,
  ℕ, String, ◌∷◌, none,
}
use semantic_intent_protocol.Broker.Handlers.{process_intent, BrokerAudit, Draws, BrokerResult}
use semantic_intent_protocol.Envelope.Enums.{binding_type_value}
use semantic_intent_protocol.Envelope.Models.{IntentEnvelope}
use semantic_intent_protocol.Negotiation.Planner.{ExecutionPlan}
use semantic_intent_protocol.Observability.Audit.{OutcomeSummary}
use semantic_intent_protocol.Registry.Storage.{CapabilityStore}

-- The state that `handle` reads and writes.
pub record BrokerService : Type 0 where
  pub registry : CapabilityStore
  pub enforce_approval : Bool
  pub audit_log : List BrokerAudit

module _ (lower : String → String) where
  unfoldable pub handle : Draws → IntentEnvelope → BrokerService → BrokerResult × BrokerService
  handle d e b =
      let result = process_intent lower b.enforce_approval b.registry d e in
      (
        result,
        record {
          registry = b.registry;
          enforce_approval = b.enforce_approval;
          audit_log = b.audit_log ++ (result.audit_record ∷ []);
        },
      )

  -- A client's requests, in the order in which the broker takes them.
  unfoldable pub handle_all : List (Draws × IntentEnvelope) → BrokerService → BrokerService
  handle_all [] b = b
  handle_all ((d, e) ∷ requests) b = handle_all requests (handle d e b).1

  module _ {Translation : Type 0} where
    unfoldable pub translate :
        Dict (ExecutionPlan → Option Translation)
        → Draws
        → IntentEnvelope
        → BrokerService
        → Option Translation × BrokerService
    translate adapters d e b =
        let (result, after) = handle d e b in
        (
          elim result.execution_plan [
            | none ↦ none
            | some p ↦ elim (lookup (binding_type_value p.selected_binding) adapters) [
              | none ↦ none
              | some adapter ↦ adapter p
            ]
          ],
          after,
        )

-- `if result.validation_errors`
abbrev pub has_validation_errors : BrokerResult → Bool
has_validation_errors r = elim r.validation_errors [
  | none ↦ false
  | some errors ↦ not (is_empty errors)
]

unfoldable pub status_code : BrokerResult → ℕ
status_code r =
    if is_denied r.audit_record.outcome_summary || not r.audit_record.policy_allowed
    then if has_validation_errors r then 400 else 403
    else elim r.audit_record.outcome_summary [
      | OutcomeSummary.pending_approval ↦ 202
      | OutcomeSummary.error ↦ if has_validation_errors r then 400 else 200
      | OutcomeSummary.needs_clarification ↦ if has_validation_errors r then 400 else 200
      | _ ↦ 200
    ]
  where
    is_denied : OutcomeSummary → Bool
    is_denied OutcomeSummary.denied = true
    is_denied _ = false
