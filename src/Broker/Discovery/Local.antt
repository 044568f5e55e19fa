-- ===== src/Broker/Discovery/Local.antt =====
-- `_discover_local` (sip/broker/discovery.py).
use Prim.Native.Nat.{◌*◌}
use semantic_intent_protocol.Base.{
  pos, [], values, sorted, insert, take, ◌&&◌, is_blank, lookup, ltb, map, if◌then◌else◌, ◌∷◌, none,
  some, true, ℕ, Bool, String, List, Option, Dict,
}
use semantic_intent_protocol.Broker.Discovery.Models.{DiscoveryRequest}
use semantic_intent_protocol.Envelope.Enums.{operation_classes, OperationClass}
use semantic_intent_protocol.Negotiation.Matcher.{first}
use semantic_intent_protocol.Registry.Service.{scores_above, MatchQuery, find_matches, Scored}
use semantic_intent_protocol.Registry.Storage.{list_all, CapabilityStore}

-- `text or other`
abbrev pub text_or : String → Option String → String
text_or other none = other
text_or other (some t) = if is_blank t then other else t

abbrev pub hints_of : List String → Option (List String)
hints_of [] = none
hints_of (c ∷ cs) = some (c ∷ cs)

-- The arguments of `find_matches`, for an operation class.
abbrev pub query_for : DiscoveryRequest → OperationClass → MatchQuery
query_for r oc = record {
  intent_name = text_or "." r.intent_name;
  intent_domain = text_or "." r.intent_domain;
  operation_class = oc;
  actor_trust = r.trust_level;
  preferred_binding = first r.preferred_bindings;
  candidate_ids = hints_of r.candidate_capabilities;
  max_results = pos (r.max_results * 2);
}

-- `existing is None or score > existing[1]`
abbrev pub improves : ℕ → Option Scored → Bool
improves n none = true
improves n (some (c, m)) = ltb m n

-- The inner loop, on the matches of one operation class.
unfoldable pub keep_best : List Scored → Dict Scored → Dict Scored
keep_best [] best = best
keep_best ((c, n) ∷ ms) best =
    keep_best ms (
      if improves n (lookup c.capability_id best) then insert c.capability_id (c, n) best else best)

module _ (lower : String → String) (s : CapabilityStore) (r : DiscoveryRequest) where
  -- The outer loop, on the operation classes.
  unfoldable pub best_of : List OperationClass → Dict Scored → Dict Scored
  unfolding keep_best
  best_of [] best = best
  best_of (oc ∷ ocs) best = best_of ocs (keep_best (find_matches lower s (query_for r oc)) best)

  abbrev pub has_no_signal : Bool
  has_no_signal = is_blank (text_or "" r.intent_name) && is_blank (text_or "" r.intent_domain)

  unfoldable pub match_local : Option OperationClass → List Scored
  unfolding best_of
  match_local none =
      take (r.max_results * 2) (sorted scores_above (values (best_of operation_classes [])))
  match_local (some oc) = find_matches lower s (query_for r oc)

  unfoldable pub discover_local : List Scored
  unfolding match_local
  discover_local =
      if has_no_signal then map (λ c. (c, 0)) (list_all s) else match_local r.operation_class
