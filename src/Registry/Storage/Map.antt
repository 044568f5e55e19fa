-- ===== src/Registry/Storage/Map.antt =====
-- The store (sip/registry/storage.py) as a finite map.
use semantic_intent_protocol.Base.{
  some, refl, string_eq, length, ◌↔◌, In, sym, is_some, ◌==◌, if◌then◌else◌, ◌≡◌, lookup, none,
  String,
}
use semantic_intent_protocol.Registry.Models.{CapabilityDescriptor}
use semantic_intent_protocol.Registry.Storage.{
  count, list_all, delete, put, get, CapabilityStore, clear,
}
use semantic_intent_protocol.Registry.Storage.Laws.{
  length-list_all, In-list_all, get-delete, get-put, clear-IsValid, delete-IsValid, put-IsValid,
  IsValid,
}

-- What the operations give of a store, for one descriptor and two ids.
pub record IsMapped (s : CapabilityStore) (c : CapabilityDescriptor) (k j : String) : Type 0 where
  pub put_valid : IsValid (put c s)
  pub delete_valid : IsValid (delete k s).0
  pub clear_valid : IsValid (clear s)
  pub get_put : get j (put c s) ≡ (if c.capability_id == j then some c else get j s)
  pub delete_reports : (delete k s).1 ≡ is_some (get k s)
  pub get_delete : get j (delete k s).0 ≡ (if k == j then none else get j s)
  pub get_clear : get j (clear s) ≡ none
  pub listed : In c (list_all s) ↔ (get c.capability_id s ≡ some c)
  pub counted : count s ≡ length (list_all s)

-- A valid store, with no id twice and each descriptor under its own, is a map from ids: every
-- operation leaves it valid, `put`, `delete` and `clear` change what is found under the ids that
-- they concern and under no other, and the listing holds exactly what `get` finds.
pub store-IsMapped :
    (s : CapabilityStore) (c : CapabilityDescriptor) (k j : String) → IsValid s → IsMapped s c k j
unfolding clear get lookup
store-IsMapped s c k j v = record {
  put_valid = put-IsValid c s v;
  delete_valid = delete-IsValid k s v;
  clear_valid = clear-IsValid s;
  get_put = get-put c s j;
  delete_reports = (get-delete k s j v).0;
  get_delete = (get-delete k s j v).1;
  get_clear = refl;
  listed = In-list_all c s v;
  counted = sym (length-list_all s);
}
