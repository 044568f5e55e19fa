-- ===== src/Registry/Storage.antt =====
-- `InMemoryCapabilityStore` (sip/registry/storage.py): the dict that it wraps, and its methods. A
-- method that changes the store returns the new one, beside its result.
pub mod Laws
pub mod Map
use semantic_intent_protocol.Base.{
  [], erase, insert, is_some, lookup, values, if◌then◌else◌, length, String, Bool, true, false,
  Option, List, Dict, ℕ,
}
use semantic_intent_protocol.Registry.Models.{CapabilityDescriptor}

abbrev pub CapabilityStore : Type 0
CapabilityStore = Dict CapabilityDescriptor

abbrev pub empty_store : CapabilityStore
empty_store = []

unfoldable pub put : CapabilityDescriptor → CapabilityStore → CapabilityStore
put c s = insert c.capability_id c s

unfoldable pub get : String → CapabilityStore → Option CapabilityDescriptor
get k s = lookup k s

unfoldable pub delete : String → CapabilityStore → CapabilityStore × Bool
delete k s = if is_some (lookup k s) then (erase k s, true) else (s, false)

unfoldable pub list_all : CapabilityStore → List CapabilityDescriptor
list_all s = values s

unfoldable pub count : CapabilityStore → ℕ
count s = length s

unfoldable pub clear : CapabilityStore → CapabilityStore
clear s = []
