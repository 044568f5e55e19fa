-- ===== src/Registry/Bootstrap.antt =====
-- The seed data of the registry (sip/registry/bootstrap.py).
pub mod Providers
pub mod Knowledge
pub mod Operations
pub mod Seeded
use semantic_intent_protocol.Base.{[], ◌∷◌, List}
use semantic_intent_protocol.Registry.Bootstrap.Knowledge.{
  retrieve_document, search_knowledge_base, summarize_document, reserve_table,
}
use semantic_intent_protocol.Registry.Bootstrap.Operations.{
  diagnose_network_issue, query_customer_data, collect_device_telemetry, summarize_for_customer,
  delegate_agent_task,
}
use semantic_intent_protocol.Registry.Models.{CapabilityDescriptor}
use semantic_intent_protocol.Registry.Storage.{CapabilityStore, empty_store, put}

abbrev pub seed_capabilities : List CapabilityDescriptor
seed_capabilities =
    retrieve_document ∷ search_knowledge_base ∷ summarize_document ∷ reserve_table
    ∷ diagnose_network_issue ∷ query_customer_data ∷ collect_device_telemetry
    ∷ summarize_for_customer ∷ delegate_agent_task ∷ []

-- `for cap in caps: registry.register(cap)`
unfoldable pub register_all : List CapabilityDescriptor → CapabilityStore → CapabilityStore
register_all [] s = s
register_all (c ∷ cs) s = register_all cs (put c s)

unfoldable pub seed_registry : CapabilityStore → CapabilityStore
unfolding register_all
seed_registry s = register_all seed_capabilities s

unfoldable pub build_seeded_registry : CapabilityStore
unfolding seed_registry
build_seeded_registry = seed_registry empty_store
