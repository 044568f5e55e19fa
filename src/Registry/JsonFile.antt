-- ===== src/Registry/JsonFile.antt =====
-- `JsonFileCapabilityStore` (sip/registry/storage.py): the store with the file behind it. JSON and
-- Pydantic are not code of this repository: they are the `Codec`. Whether the file system serves a
-- read or a write is an argument of each method that asks for it.
pub mod Persistence
use semantic_intent_protocol.Base.{
  some, [], ◌∷◌, none, if◌then◌else◌, map, ◌≡◌, String, Bool, true, false, Option, List, ℕ,
}
use semantic_intent_protocol.Registry.Models.{CapabilityDescriptor}
use semantic_intent_protocol.Registry.Storage.{
  list_all, put, CapabilityStore, clear, delete, empty_store,
}

-- `json.dumps`, `json.loads`, `model_dump(mode="json")` and `model_validate`; `none` is an
-- exception.
pub record Codec : Type 1 where
  pub Text : Type 0
  pub Json : Type 0
  pub dumps : List Json → Text
  pub loads : Text → Option (List Json)
  pub model_dump : CapabilityDescriptor → Json
  pub model_validate : Json → Option CapabilityDescriptor

-- What the code relies on: what was written is read back.
pub record IsLawful (C : Codec) : Type 0 where
  pub loads-dumps : (js : List C.Json) → C.loads (C.dumps js) ≡ some js
  pub validate-dump : (c : CapabilityDescriptor) → C.model_validate (C.model_dump c) ≡ some c

module _ (C : Codec) where
  pub record JsonFileStore : Type 0 where
    pub memory : CapabilityStore
    pub file : Option C.Text

  -- A write puts the new text in place, or fails and leaves what the file system left.
  pub data WriteOutcome : Type 0 where
    written : WriteOutcome
    failed : Option C.Text → WriteOutcome

  -- The loop of `_load`: the first record that is refused ends it, and what was loaded stays.
  load_records : List C.Json → CapabilityStore → CapabilityStore
  load_records [] s = s
  load_records (j ∷ js) s = elim (C.model_validate j) [
    | none ↦ s
    | some c ↦ load_records js (put c s)
  ]

  load_text : C.Text → CapabilityStore → CapabilityStore
  unfolding load_records
  load_text t s = elim (C.loads t) [ none ↦ s | some js ↦ load_records js s ]

  -- `_load`
  load : Bool → JsonFileStore → JsonFileStore
  unfolding load_text
  load readable st = elim st.file [
    | none ↦ st
    | some t ↦ if readable then record st { memory = load_text t st.memory } else st
  ]

  -- `_save`
  unfoldable pub save : WriteOutcome → JsonFileStore → JsonFileStore
  save WriteOutcome.written st = record st {
    file = some (C.dumps (map C.model_dump (list_all st.memory)));
  }
  save (WriteOutcome.failed left) st = record st { file = left }

  -- `__init__`
  unfoldable pub open_file : Bool → Option C.Text → JsonFileStore
  unfolding load
  open_file readable file = load readable (record { memory = empty_store; file = file })

  unfoldable pub put_file : WriteOutcome → CapabilityDescriptor → JsonFileStore → JsonFileStore
  put_file w c st = save w (record st { memory = put c st.memory })

  unfoldable pub delete_file : WriteOutcome → String → JsonFileStore → JsonFileStore × Bool
  delete_file w k st =
      let (memory, removed) = delete k st.memory in
      let st' = record st { memory = memory } in (if removed then save w st' else st', removed)

  unfoldable pub clear_file : WriteOutcome → JsonFileStore → JsonFileStore
  clear_file w st = save w (record st { memory = clear st.memory })

  unfoldable pub reload : Bool → JsonFileStore → JsonFileStore
  unfolding load
  reload readable st = load readable (record st { memory = empty_store })
