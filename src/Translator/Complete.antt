-- ===== src/Translator/Complete.antt =====
-- The broker's own adapters translate every plan.
use mathlib.Core.Path.{subst}
use semantic_intent_protocol.Base.{
  [], ◌∷◌, string_eq, contains→In, Bool-cases, In→contains, keep_if-In, true_ne_false, In-keep_if,
  contains, List, is_container, arith, ◌↔◌, In, ◌&&◌, ◌∙◌, Option, sym, ap, ◌==◌, not, if-false,
  if◌then◌else◌, lookup, Bool, Dict, ◌≡◌, Value, String, none, some, true, false, inl, inr, refl,
}
use semantic_intent_protocol.Broker.Handlers.{Draws}
use semantic_intent_protocol.Broker.Service.{handle, BrokerService, translate}
use semantic_intent_protocol.Envelope.Enums.{
  OperationClass, binding_type_value, BindingType, binding_eq,
}
use semantic_intent_protocol.Envelope.Models.{IntentEnvelope}
use semantic_intent_protocol.Negotiation.Planner.{ExecutionPlan}
use semantic_intent_protocol.Translator.Adapters.{default_adapters}
use semantic_intent_protocol.Translator.Calls.{a2a_translate, mcp_translate, grpc_translate}
use semantic_intent_protocol.Translator.Rag.{rag_translate, filters_of}
use semantic_intent_protocol.Translator.Rest.{http_method, sends_body, rest_translate, rest_request}
use semantic_intent_protocol.Translator.Results.{
  RestPayload, plain_items, Payload, TranslationResult, for_binding,
}

-- The filters of a retrieval: what is no container and has no key that is read apart.
abbrev pub AreFilters : Dict Value → Dict Value → Type 0
AreFilters params filters =
    (k : String) (v : Value)
    → In (k, v) filters ↔ (
        In (k, v) params
        × (is_container v ≡ false)
        × (In k ("collection" ∷ "source" ∷ "query" ∷ "text" ∷ []) → ⊥))

-- A GET without a body, whose query has the parameters that are no container.
pub record IsQuery (params : Dict Value) (r : RestPayload) : Type 0 where
  pub method : r.method ≡ "GET"
  pub body : r.body ≡ []
  pub query :
      (k : String) (v : Value)
      → In (k, v) r.query_params ↔ (In (k, v) params × (is_container v ≡ false))

-- A POST without a query, whose body is the parameters.
pub record IsPost (params : Dict Value) (r : RestPayload) : Type 0 where
  pub method : r.method ≡ "POST"
  pub body : r.body ≡ params
  pub query : r.query_params ≡ []

-- The form of a request, by its class of operation.
abbrev pub IsRequestFor : OperationClass → Dict Value → RestPayload → Type 0
IsRequestFor OperationClass.read = IsQuery
IsRequestFor OperationClass.retrieve = IsQuery
IsRequestFor OperationClass.analyze = IsQuery
IsRequestFor OperationClass.write = IsPost
IsRequestFor OperationClass.execute = IsPost
IsRequestFor OperationClass.delegate = IsPost

-- The payload carries the parameters of the plan.
abbrev pub SendsParameters : ExecutionPlan → Payload → Type 0
SendsParameters p (Payload.rest_payload r) =
    IsRequestFor p.selected_capability.operation_class p.grounded_parameters r
SendsParameters p (Payload.grpc_payload g) = g.request_message ≡ p.grounded_parameters
SendsParameters p (Payload.mcp_payload m) = m.tool_arguments ≡ p.grounded_parameters
SendsParameters p (Payload.a2a_payload a) = a.task_payload.parameters ≡ p.grounded_parameters
SendsParameters p (Payload.rag_payload r) = AreFilters p.grounded_parameters r.filters

-- A translation for the plan's binding, with the plan's parameters.
pub record IsTranslationOf (p : ExecutionPlan) (x : TranslationResult) : Type 0 where
  pub binding : x.binding_type ≡ p.selected_binding
  pub parameters : SendsParameters p x.payload

for_binding-IsTranslationOf :
    (b : BindingType) (p : ExecutionPlan) (payload : Payload) (metadata : Dict String)
    → p.selected_binding ≡ b
    → SendsParameters p payload
    → (x : TranslationResult) × (for_binding b p payload metadata ≡ some x) × IsTranslationOf p x
unfolding for_binding
for_binding-IsTranslationOf b p payload metadata h sends = (
  record { binding_type = b; payload = payload; metadata = metadata },
  if-false (not (p.selected_binding == b)) _ _
      (ap not ((binding_eq.beq_iff p.selected_binding b).1 h)),
  record { binding = sym h; parameters = sends },
)

plain_items-In :
    (params : Dict Value) (k : String) (v : Value)
    → In (k, v) (plain_items params) ↔ (In (k, v) params × (is_container v ≡ false))
unfolding plain_items
plain_items-In params k v = (
  λ m.
      let (listed, kept) = In-keep_if (λ x. not (is_container x.1)) (k, v) params m in
      (listed, ground (arith, kept)),
  λ (listed, kept). keep_if-In (λ x. not (is_container x.1)) (k, v) params listed (ap not kept),
)

filters_of-AreFilters : (params : Dict Value) → AreFilters params (filters_of params)
filters_of-AreFilters params k v =
    let apart : List String = "collection" ∷ "source" ∷ "query" ∷ "text" ∷ [] in
    let kept : String × Value → Bool = λ x. not (contains apart x.0) && not (is_container x.1) in
    (
      λ m.
          let (listed, h) = In-keep_if kept (k, v) params m in
          let (outside, plain) = both (contains apart k) (is_container v) h in
          (listed, plain, λ l. absurd (true_ne_false (sym (In→contains apart k l) ∙ outside))),
      λ (listed, plain, outside).
          keep_if-In kept (k, v) params listed
            (neither (contains apart k) (is_container v)
              (elim (Bool-cases (contains apart k)) [
                | inl h ↦ absurd (outside (contains→In apart k h))
                | inr h ↦ h
              ])
              plain),
    )
  where
    both : (a b : Bool) → (not a && not b) ≡ true → (a ≡ false) × (b ≡ false)
    both a b h = (ground arith, ground arith)

    neither : (a b : Bool) → a ≡ false → b ≡ false → (not a && not b) ≡ true
    neither a b h k = ground arith

module _ (p : ExecutionPlan) where
  rest_request-IsQuery :
      http_method p.selected_capability.operation_class ≡ "GET"
      → IsQuery p.grounded_parameters (rest_request p)
  unfolding rest_request
  rest_request-IsQuery h = record {
    method = h;
    body = ap (λ m. if sends_body m then p.grounded_parameters else []) h;
    query =
        subst
          (λ (q : Dict Value).
            (k : String) (v : Value)
            → In (k, v) q ↔ (In (k, v) p.grounded_parameters × (is_container v ≡ false)))
          (sym (ap (λ m. if sends_body m then [] else plain_items p.grounded_parameters) h))
          (plain_items-In p.grounded_parameters);
  }

  rest_request-IsPost :
      http_method p.selected_capability.operation_class ≡ "POST"
      → IsPost p.grounded_parameters (rest_request p)
  unfolding rest_request
  rest_request-IsPost h = record {
    method = h;
    body = ap (λ m. if sends_body m then p.grounded_parameters else []) h;
    query = ap (λ m. if sends_body m then [] else plain_items p.grounded_parameters) h;
  }

  rest_request-sends :
      (op : OperationClass)
      → p.selected_capability.operation_class ≡ op
      → IsRequestFor op p.grounded_parameters (rest_request p)
  rest_request-sends OperationClass.read h = rest_request-IsQuery (ap http_method h)
  rest_request-sends OperationClass.retrieve h = rest_request-IsQuery (ap http_method h)
  rest_request-sends OperationClass.analyze h = rest_request-IsQuery (ap http_method h)
  rest_request-sends OperationClass.write h = rest_request-IsPost (ap http_method h)
  rest_request-sends OperationClass.execute h = rest_request-IsPost (ap http_method h)
  rest_request-sends OperationClass.delegate h = rest_request-IsPost (ap http_method h)

module _ (capitalize : String → String) (text_of : Value → String) where
  -- What the adapter of a binding makes of a plan with that binding.
  adapted :
      (p : ExecutionPlan) (b : BindingType)
      → p.selected_binding ≡ b
      → (x : TranslationResult) × (elim (lookup
            (binding_type_value b)
            (default_adapters capitalize text_of)) [ none ↦ none | some adapter ↦ adapter p ]
          ≡ some x)
        × IsTranslationOf p x
  unfolding default_adapters lookup rest_translate grpc_translate mcp_translate a2a_translate
      rag_translate
  adapted p BindingType.rest h =
      for_binding-IsTranslationOf BindingType.rest p _ _ h
        (rest_request-sends p p.selected_capability.operation_class refl)
  adapted p BindingType.grpc h = for_binding-IsTranslationOf BindingType.grpc p _ _ h refl
  adapted p BindingType.mcp h = for_binding-IsTranslationOf BindingType.mcp p _ _ h refl
  adapted p BindingType.a2a h = for_binding-IsTranslationOf BindingType.a2a p _ _ h refl
  adapted p BindingType.rag h =
      for_binding-IsTranslationOf BindingType.rag p _ _ h
        (filters_of-AreFilters p.grounded_parameters)

  -- The broker's own adapters translate every plan that an envelope gets, for the binding of the
  -- plan and with its parameters. Over REST a write, an execution or a delegation is a POST with the
  -- parameters as its body; a read, a retrieval or an analysis is a GET whose query has those that
  -- are no container. A RAG retrieval filters by the same ones, less `collection`, `source`, `query`
  -- and `text`.
  pub translate-default_adapters :
      (lower : String → String) (d : Draws) (e : IntentEnvelope) (b : BrokerService)
      (p : ExecutionPlan)
      → (handle lower d e b).0.execution_plan ≡ some p
      → (x : TranslationResult) × ((translate lower (default_adapters capitalize text_of) d e b).0
          ≡ some x)
        × IsTranslationOf p x
  unfolding translate
  translate-default_adapters lower d e b p h =
      let (x, k, w) = adapted p p.selected_binding refl in
      let translated : Option ExecutionPlan → Option TranslationResult = λ o. elim o [
        | none ↦ none
        | some q ↦
            elim (lookup (binding_type_value q.selected_binding)
              (default_adapters capitalize text_of)) [ none ↦ none | some adapter ↦ adapter q ]
      ] in
      (x, ap translated h ∙ k, w)
