-- ===== src/Registry/JsonFile/Persistence.antt =====
-- A store that was written to its file comes back from it.
use mathlib.Core.List.{List, append-nil, append_assoc}
use semantic_intent_protocol.Base.{
  inr, [], ap, Bool-cases, ◌∙◌, ◌⊎◌, true, false, inl, sym, values, NodupKeys, eq_iff, arith, map,
  ◌++◌, insert, lookup, ◌∷◌, none, some, String, ◌≡◌, refl,
}
use semantic_intent_protocol.Registry.JsonFile.{
  load_text, WriteOutcome, CapabilityDescriptor, save, CapabilityStore, JsonFileStore, clear_file,
  delete_file, load_records, put_file, reload, IsLawful, Codec,
}
use semantic_intent_protocol.Registry.Storage.{empty_store, delete, list_all, put}
use semantic_intent_protocol.Registry.Storage.Laws.{
  clear-IsValid, delete-IsValid, delete-cases, put-IsValid, IsKeyed, IsValid,
}

module _ (C : Codec) (lawful : IsLawful C) where
  -- The file holds what the memory holds.
  abbrev pub IsFlushed : JsonFileStore C → Type 0
  IsFlushed st = st.file ≡ some (C.dumps (map C.model_dump (list_all st.memory)))

  -- Each id of the first store is absent from the second.
  abbrev AreApart : CapabilityStore → CapabilityStore → Type 0
  AreApart [] t = Unit
  AreApart ((k, c) ∷ s) t = (lookup k t ≡ none) × AreApart s t

  lookup-append :
      (k : String) (s t : CapabilityStore)
      → lookup k s ≡ none
      → lookup k t ≡ none
      → lookup k (s ++ t) ≡ none
  unfolding lookup
  lookup-append k [] t h e = e
  lookup-append k ((j, c) ∷ s) t h e = ground (arith, lookup-append k s t)

  AreApart-snoc :
      (k : String) (c : CapabilityDescriptor) (s t : CapabilityStore)
      → lookup k s ≡ none
      → AreApart s t
      → AreApart s (t ++ ((k, c) ∷ []))
  unfolding lookup
  AreApart-snoc k c [] t h a = tt
  AreApart-snoc k c ((j, d) ∷ s) t h (fresh, a) = (
    lookup-append j t ((k, c) ∷ []) fresh (ground (arith, eq_iff k j, eq_iff j k)),
    AreApart-snoc k c s t (ground arith) a,
  )

  insert_fresh :
      (k : String) (c : CapabilityDescriptor) (t : CapabilityStore)
      → lookup k t ≡ none
      → insert k c t ≡ t ++ ((k, c) ∷ [])
  unfolding insert lookup
  insert_fresh k c [] h = refl
  insert_fresh k c ((j, d) ∷ t) h = ground (arith, insert_fresh k c t)

  put_fresh :
      (j : String) (c : CapabilityDescriptor) (t : CapabilityStore)
      → c.capability_id ≡ j
      → lookup j t ≡ none
      → put c t ≡ t ++ ((j, c) ∷ [])
  unfolding put
  put_fresh j c t same fresh = ap (λ i. insert i c t) same ∙ insert_fresh j c t fresh

  load_records-cons :
      (c : CapabilityDescriptor) (js : List C.Json) (t : CapabilityStore)
      → load_records C (C.model_dump c ∷ js) t ≡ load_records C js (put c t)
  unfolding load_records
  load_records-cons c js t = rw (lawful.validate-dump c, load_records)

  load_records-values :
      (s t : CapabilityStore)
      → NodupKeys s
      → IsKeyed s
      → AreApart s t
      → load_records C (map C.model_dump (values s)) t ≡ t ++ s
  unfolding load_records
  load_records-values [] t u k a = sym (append-nil t)
  load_records-values ((j, c) ∷ s) t (fresh, u) (same, k) (apart, a) =
      load_records-cons c (map C.model_dump (values s)) t
      ∙ ap (load_records C (map C.model_dump (values s))) (put_fresh j c t same apart)
      ∙ load_records-values s (t ++ ((j, c) ∷ [])) u k (AreApart-snoc j c s t fresh a)
      ∙ append_assoc t ((j, c) ∷ []) s

  AreApart-nil : (s : CapabilityStore) → AreApart s []
  unfolding lookup
  AreApart-nil [] = tt
  AreApart-nil ((k, c) ∷ s) = (refl, AreApart-nil s)

  load_text-dumps :
      (s : CapabilityStore)
      → IsValid s
      → load_text C (C.dumps (map C.model_dump (list_all s))) empty_store ≡ s
  unfolding load_text list_all
  load_text-dumps s v =
      rw (lawful.loads-dumps (map C.model_dump (values s)), load_text)
        (load_records-values s [] v.nodup v.keyed (AreApart-nil s))

  -- A valid store whose file is in step is read back whole, in the same order.
  pub reload-IsFlushed :
      (st : JsonFileStore C) → IsValid st.memory → IsFlushed st → reload C true st ≡ st
  unfolding reload
  reload-IsFlushed st v f = ground (arith, load_text-dumps st.memory v)

  -- The methods that change the store, as requests.
  pub data Request : Type 0 where
    to_put : CapabilityDescriptor → Request
    to_delete : String → Request
    to_clear : Request

  pub serve : Request → JsonFileStore C → JsonFileStore C
  serve (Request.to_put c) st = put_file C WriteOutcome.written c st
  serve (Request.to_delete k) st = (delete_file C WriteOutcome.written k st).0
  serve Request.to_clear st = clear_file C WriteOutcome.written st

  pub serve_all : List Request → JsonFileStore C → JsonFileStore C
  serve_all [] st = st
  serve_all (r ∷ rs) st = serve_all rs (serve r st)

  serve-IsFlushed : (r : Request) (st : JsonFileStore C) → IsFlushed st → IsFlushed (serve r st)
  unfolding serve put_file delete_file clear_file save
  serve-IsFlushed (Request.to_put c) st f = refl
  serve-IsFlushed (Request.to_delete k) st f = unchanged (delete-cases k st.memory)
    where
      unchanged :
          ((delete k st.memory).1 ≡ true) ⊎ (delete k st.memory ≡ (st.memory, false))
          → IsFlushed (serve (Request.to_delete k) st)
      unchanged (inl e) = rw e
      unchanged (inr e) = rw e f
  serve-IsFlushed Request.to_clear st f = refl

  serve-IsValid :
      (r : Request) (st : JsonFileStore C) → IsValid st.memory → IsValid (serve r st).memory
  unfolding serve put_file delete_file clear_file save
  serve-IsValid (Request.to_put c) st v = put-IsValid c st.memory v
  serve-IsValid (Request.to_delete k) st v = elim (Bool-cases (delete k st.memory).1) [
    | inl e ↦ rw e (delete-IsValid k st.memory v)
    | inr e ↦ rw e (delete-IsValid k st.memory v)
  ]
  serve-IsValid Request.to_clear st v = clear-IsValid st.memory

  -- With a lawful codec and a file system that serves every read and write: from a valid store
  -- whose file holds what its memory holds, after any sequence of puts, deletes and clears a reload
  -- gives the same store back.
  pub reload-serve_all :
      (rs : List Request) (st : JsonFileStore C)
      → IsValid st.memory
      → IsFlushed st
      → reload C true (serve_all rs st) ≡ serve_all rs st
  unfolding serve_all
  reload-serve_all [] st v f = reload-IsFlushed st v f
  reload-serve_all (r ∷ rs) st v f =
      reload-serve_all rs (serve r st) (serve-IsValid r st v) (serve-IsFlushed r st f)
