-- ===== src/Translator/Rag.antt =====
-- `RagAdapter` (sip/translator/rag_adapter.py). `text_of` is Python's `str` of a value.
use semantic_intent_protocol.Base.{
  pos, [], string_eq, is_container, ◌&&◌, contains, not, keep_if, lookup, values, ◌<>◌, ◌∷◌, none,
  some, true, String, List, Option, Dict, Value,
}
use semantic_intent_protocol.Envelope.Enums.{BindingType}
use semantic_intent_protocol.Negotiation.Planner.{ExecutionPlan}
use semantic_intent_protocol.Translator.Rest.{dashed}
use semantic_intent_protocol.Translator.Results.{
  origin_of, payload_trace, Payload, TranslationResult, for_binding,
}

-- `" ".join(parts)`
join_words : List String → String
join_words [] = ""
join_words (t ∷ []) = t
join_words (t ∷ u ∷ ts) = t <> (" " <> join_words (u ∷ ts))

-- `[v for v in params.values() if isinstance(v, str)]`
text_values : List Value → List String
text_values [] = []
text_values (Value.str t ∷ vs) = t ∷ text_values vs
text_values (_ ∷ vs) = text_values vs

-- `params.get(key, default)`
abbrev get_or : String → Value → Dict Value → Value
get_or key default params = elim (lookup key params) [ none ↦ default | some v ↦ v ]

-- `_default_collection`
abbrev default_collection : String → String
default_collection id = dashed id <> "-store"

-- The value of the first of the keys that is there.
first_of : List String → Dict Value → Option Value
first_of [] params = none
first_of (key ∷ keys) params = elim (lookup key params) [
  | none ↦ first_of keys params
  | some v ↦ some v
]

abbrev joined_or_general : List String → String
joined_or_general [] = "general retrieval"
joined_or_general (t ∷ ts) = join_words (t ∷ ts)

-- The filters: no container, and none of the four keys that are read apart.
abbrev pub filters_of : Dict Value → Dict Value
filters_of params =
    keep_if
      (λ x.
        not (contains {A = String} ("collection" ∷ "source" ∷ "query" ∷ "text" ∷ []) x.0)
        && not (is_container x.1))
      params

module _ (text_of : Value → String) where
  -- `_build_retrieval_query`; `str` of a text is the text.
  pub build_retrieval_query : Dict Value → String
  unfolding first_of text_values join_words
  build_retrieval_query params = elim (first_of ("query" ∷ "text" ∷ "topic" ∷ []) params) [
    | none ↦ joined_or_general (text_values (values params))
    | some v ↦ text_of v
  ]

  unfoldable pub rag_translate : ExecutionPlan → Option TranslationResult
  unfolding for_binding build_retrieval_query dashed
  rag_translate p =
      let c = p.selected_capability in
      let params = p.grounded_parameters in
      for_binding BindingType.rag p
        (Payload.rag_payload (record {
          collection =
              get_or "collection"
                (get_or "source" (Value.str (default_collection c.capability_id)) params) params;
          retrieval_query = build_retrieval_query params;
          filters = filters_of params;
          result_contract = record {
            output_format = get_or "output_format" (Value.str "json") params;
            max_results = get_or "max_results" (Value.int (pos 10)) params;
            include_metadata = get_or "include_metadata" (Value.bool true) params;
            output_schema = c.output_schema.description;
          };
          trace = payload_trace p;
        }))
        (origin_of p)
