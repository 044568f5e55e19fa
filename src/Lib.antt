-- ===== src/Lib.antt =====
-- A model of the Semantic Intent Protocol broker (sip/): what happens to an intent envelope from
-- its validation to the execution plan and the audit record, and the registry that it is matched
-- against.
--
-- The parts, in the order in which `process_intent` calls them:
--   Envelope/Enums, Envelope/Models   the enumerations and models of sip/envelope/models.py
--   Envelope/Validator                `validate_envelope` of sip/envelope/validator.py, a function
--                                     per check; Validator/Accepted states the rules apart from it
--   Registry/Models                   sip/registry/models.py
--   Registry/Storage                  `InMemoryCapabilityStore` of sip/registry/storage.py
--   Registry/JsonFile                 `JsonFileCapabilityStore` of sip/registry/storage.py
--   Registry/Service                  `CapabilityRegistryService` of sip/registry/service.py
--   Registry/Bootstrap                sip/registry/bootstrap.py; Bootstrap/Seeded is on a broker over it
--   Negotiation/Results               sip/negotiation/results.py
--   Negotiation/Matcher               `CapabilityMatcher` of sip/negotiation/matcher.py
--   Policy/Rules                      sip/policy/scopes.py and sip/policy/risk.py
--   Policy/Engine                     `PolicyEngine` of sip/policy/engine.py, a function per step
--   Policy/Approvals                  sip/policy/approvals.py
--   Negotiation/Planner               `ExecutionPlanner` of sip/negotiation/planner.py
--   Observability/Audit               sip/observability/audit.py
--   Broker/Handlers                   `process_intent` of sip/broker/handlers.py
--   Broker/Service                    `BrokerService` and the status codes of `submit_intent`, of
--                                     sip/broker/service.py
--   Broker/Identity                   sip/broker/identity.py
--   Wire                              JSON and Pydantic, as the endpoints and the SDK use them
--   Broker/Responses, Broker/Submission  the endpoint `submit_intent` of sip/broker/service.py, with
--                                     its response body
--   Broker/Endpoints                  the other endpoints of sip/broker/service.py
--   Translator                        the adapters of sip/translator, a file each or several
--   Broker/Federation                 sip/broker/federation.py
--   Broker/Discovery                  `DiscoveryService` of sip/broker/discovery.py: Local, Remote,
--                                     Candidates and Service are its parts, in that order
-- and, apart from that path, the newer core:
--   Core/Intent                       `from_envelope` of sip/core/normalized_intent.py
--   Core/Policy                       `CanonicalPolicyEngine` of sip/core/policy_engine.py, and
--                                     `PolicyResult` of sip/policy/interface.py in
--                                     Policy/Interface
--   Core/FailClosed                   the checks of sip/core/fail_closed.py
--   Core/Planner                      `DeterministicPlanner` of sip/core/deterministic_planner.py
--   Core/Bundle, Core/Pipeline        `DecisionBundle` of sip/core/decision_bundle.py, and
--                                     `SIPPipeline` of sip/core/pipeline.py, a function per branch;
--                                     Pipeline/Branches has a case for each
--   Extensions                        the extension keys of sip/extensions.py
-- and, on the caller's side:
--   Sdk/Errors, Sdk/Serialization     sip/sdk/errors.py and sip/sdk/serialization.py
--   Sdk/Client                        what the two clients of sip/sdk/clients.py share; Client/Exchange
--                                     joins them to the endpoints
--   Sdk/BrokerClient, Sdk/DiscoveryClient  their methods
--   Sdk/Arguments, Sdk/Builders       sip/sdk/builders.py
--   Sdk/Helpers                       sip/sdk/helpers.py
-- Shared:
--   Base                              numbers, texts, lists, dicts and sorting; no code of sip/
--   Tests                             concrete requests, on which the model is run
--
-- State is passed: a method that changes a store, a file or the audit log returns the new one. A
-- dict is an association list in insertion order. A model is a record with the source's fields, in
-- the source's order; the checks that Pydantic runs when it builds one are not repeated,
-- except for what a peer sends in a discovery and for what the builders of the SDK check.
--
-- Parameters stand for what is not code of the repository:
--   `lower`      Python's `str.lower`
--   `Codec`      JSON and Pydantic's `model_dump` and `model_validate`; the law that the file store
--                relies on is that what was written is read back
--   `Json`, `Schema`  the same for the endpoints and the SDK, where an exception gives its text; the
--                theorems ask that the values at hand are read back (`IsRead`, `IsDumped`, `IsWritten`)
--   `Draws`, `PipelineDraws`  the clock and the identifiers that `uuid4` draws for one request
--   `text_of`, `model_dump`  Python's `str` of a value, and the dump of an envelope, in Core/Intent;
--   `text_of` also in Translator/Rag
--   `Httpx`      the HTTP requests of the SDK, on a state; a theorem that joins a client to the broker
--                asks that httpx answers with the response of the endpoint for that URL
--   `body_value`, `detail_text`  the JSON of a response body, and the text of a discovery's exception
--   `show`, `isoformat`  Python's `str` of a number and the text of a time
--   `EnvelopeDraws`  the identifiers and the time that a new envelope draws
--   `strip`, `capitalize`  Python's `str.strip` and `str.capitalize`
--   the adapters of `translate`, each a function from a plan to a translation or to nothing;
--   Translator/Adapters has the broker's own
--   `ask`        what a peer answers to a discovery request, or that the call raises
--   `Scores`     the floats of discovery: their order, and `float` of a value
--   whether the file system serves a read (a Boolean) or a write (`WriteOutcome`)
--
-- A score of `find_matches` is counted in halves of a point, so that 3.0 is 6 and the gap of 1.0 is
-- 2; all scores of the source are multiples of a half. An error message, a policy note or a part of
-- a rationale is a value with what the source writes into the text. A time is a count of
-- microseconds. No definition needs fuel: each loop of the source is a recursion on the list.
--
-- Not modelled: logging, the FastAPI application with its routing, and the client in Go (sdk/go).
pub mod Base
pub mod Extensions
pub mod Envelope
pub mod Registry
pub mod Policy
pub mod Negotiation
pub mod Observability
pub mod Wire
pub mod Broker
pub mod Core
pub mod Translator
pub mod Sdk
mod Tests
