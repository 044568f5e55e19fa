-- ===== src/Translator/Calls.antt =====
-- `GrpcAdapter`, `McpAdapter` and `A2aAdapter` (sip/translator/grpc_adapter.py, mcp_adapter.py and
-- a2a_adapter.py). Python's `str.capitalize` is a parameter.
use semantic_intent_protocol.Base.{[], ◌∷◌, split_on, map, ◌<>◌, String, List, Option}
use semantic_intent_protocol.Envelope.Enums.{BindingType}
use semantic_intent_protocol.Negotiation.Planner.{ExecutionPlan}
use semantic_intent_protocol.Translator.Results.{
  origin_of, payload_trace, Payload, TranslationResult, for_binding,
}

-- `"".join(parts)`
pub concat_texts : List String → String
concat_texts [] = ""
concat_texts (t ∷ ts) = t <> concat_texts ts

module _ (capitalize : String → String) where
  -- `_build_method_name`: the code of an underscore is 95.
  pub build_method_name : String → String
  unfolding split_on concat_texts
  build_method_name id = concat_texts (map capitalize (split_on 95 id))

  -- `_build_service_name`
  pub build_service_name : String → String → String
  unfolding build_method_name
  build_service_name provider id =
      "sip." <> (provider <> ("." <> (build_method_name id <> "Service")))

  unfoldable pub grpc_translate : ExecutionPlan → Option TranslationResult
  unfolding for_binding build_service_name
  grpc_translate p =
      let c = p.selected_capability in
      for_binding BindingType.grpc p
        (Payload.grpc_payload (record {
          service_name = build_service_name c.provider.provider_id c.capability_id;
          method_name = build_method_name c.capability_id;
          request_message = p.grounded_parameters;
          grpc_metadata =
              ("x-sip-trace-id", p.trace.trace_id)
              ∷ ("x-sip-span-id", p.trace.span_id)
              ∷ ("x-sip-intent-id", p.intent_id)
              ∷ [];
        }))
        (origin_of p)

unfoldable pub mcp_translate : ExecutionPlan → Option TranslationResult
unfolding for_binding
mcp_translate p =
    let c = p.selected_capability in
    for_binding BindingType.mcp p
      (Payload.mcp_payload (record {
        tool_name = c.capability_id;
        tool_arguments = p.grounded_parameters;
        execution_contract = record {
          input_schema = record {
            properties = c.input_schema.properties;
            required = c.input_schema.required_fields;
          };
          output_schema = record {
            description = c.output_schema.description;
            properties = c.output_schema.properties;
          };
          idempotent = c.execution.idempotent;
          supports_dry_run = c.execution.supports_dry_run;
        };
        trace = payload_trace p;
      }))
      (origin_of p)

unfoldable pub a2a_translate : ExecutionPlan → Option TranslationResult
unfolding for_binding
a2a_translate p =
    let c = p.selected_capability in
    for_binding BindingType.a2a p
      (Payload.a2a_payload (record {
        agent_task_type = c.capability_id;
        target_agent = c.provider.provider_id;
        task_payload = record {
          task_type = c.capability_id;
          parameters = p.grounded_parameters;
          capability_id = c.capability_id;
          desired_output = c.output_schema.description;
        };
        delegation_context = record {
          trace_id = p.trace.trace_id;
          span_id = p.trace.span_id;
          intent_id = p.intent_id;
          delegating_plan_id = p.plan_id;
          approval_required = p.approval_required;
        };
      }))
      (origin_of p)
