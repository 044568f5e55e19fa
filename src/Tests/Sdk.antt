-- ===== src/Tests/Sdk.antt =====
-- The theorems on the SDK, on a broker that its requests reach.
use mathlib.Core.Path.{sym, subst}
use semantic_intent_protocol.Base.{
  inr, inl, Fields, In, insert_sorted, sorted, contains_text, text_leb, insert, string_eq, Result,
  ◌==◌, Float, if◌then◌else◌, ◌≡◌, lookup, pos, String, none, some, ok, err, [], ℕ, refl,
}
use semantic_intent_protocol.Broker.Discovery.Models.{DiscoveryRequest, DiscoveryResponse}
use semantic_intent_protocol.Broker.Discovery.Service.{discover}
use semantic_intent_protocol.Broker.Endpoints.{
  sip_discover_capabilities, discovered_or_failed, sip_get_capability, sip_list_capabilities,
}
use semantic_intent_protocol.Broker.Handlers.{process_intent}
use semantic_intent_protocol.Broker.Identity.{is_trusted_identity_enabled, map_identity_headers}
use semantic_intent_protocol.Broker.Responses.{response_body, content_value, JsonResponse}
use semantic_intent_protocol.Broker.Service.{BrokerService, handle}
use semantic_intent_protocol.Envelope.Validator.{validate_envelope}
use semantic_intent_protocol.Negotiation.Matcher.{match}
use semantic_intent_protocol.Negotiation.Planner.{binding_to_execution_type, fill_required, plan}
use semantic_intent_protocol.Policy.Engine.{evaluate}
use semantic_intent_protocol.Registry.Models.{CapabilityDescriptor}
use semantic_intent_protocol.Registry.Service.{find_matches}
use semantic_intent_protocol.Registry.Storage.{get, list_all}
use semantic_intent_protocol.Sdk.BrokerClient.Submission.{
  submit_intent-IsAnswered, received_envelope, IsAnswered,
}
use semantic_intent_protocol.Sdk.Client.{
  post_path, HttpResponse, get_path, Client, Httpx, new_client,
}
use semantic_intent_protocol.Sdk.Client.Exchange.{delivered}
use semantic_intent_protocol.Sdk.Client.Judged.{
  get_path-IsJudged, post_answer, get_answer, IsJudged,
}
use semantic_intent_protocol.Sdk.Client.Raised.{RaisesOnly}
use semantic_intent_protocol.Sdk.DiscoveryClient.{
  list_capabilities, query_dict, discover_capabilities, get_capability, query_request, request_of,
}
use semantic_intent_protocol.Sdk.DiscoveryClient.Answered.{
  discover_capabilities-IsRelayed, IsRelayed, IsResponseDumped,
}
use semantic_intent_protocol.Sdk.DiscoveryClient.Raised.{sent_body, get_capability-RaisesOnly}
use semantic_intent_protocol.Sdk.DiscoveryClient.Registered.{
  list_capabilities-list_all, get_capability-IsFetched, IsFetched,
}
use semantic_intent_protocol.Tests.{draws, get_article, library, request, same_text}
use semantic_intent_protocol.Tests.Discovery.{
  discovered, federation, ask_east, half_points, found, article_search,
}
use semantic_intent_protocol.Tests.Requests.{broker}
use semantic_intent_protocol.Tests.Wire.{
  answer_value, capabilities, schema_of, envelopes, no_detail, wire,
}
use semantic_intent_protocol.Wire.{IsRead, IsWritten, IsDumped, Schema}
use semantic_intent_protocol.Broker.Submission
use semantic_intent_protocol.Sdk.BrokerClient

abbrev searches : Schema DiscoveryRequest
searches =
    schema_of "request" (λ r. "search") (λ t. if t == "search" then some article_search else none)

abbrev responses : Schema (DiscoveryResponse ℕ)
responses = schema_of "response" (λ r. "found") (λ t. if t == "found" then some found else none)

-- The number of a status is not written out.
abbrev unwritten : ℕ → String
unwritten n = ""

abbrev deliver : BrokerService → String → JsonResponse → Result String HttpResponse
deliver b url r = ok (delivered wire (content_value no_detail answer_value) url r)

abbrev reached : Httpx BrokerService
reached = record {
  http_get = λ url headers timeout b.
      if url == "http://broker/sip/capabilities"
      then (deliver b url (sip_list_capabilities capabilities b), b)
      else if url == "http://broker/sip/capabilities/get_article"
      then (deliver b url (sip_get_capability capabilities "get_article" b), b)
      else (err "no route", b);
  http_post = λ url body headers timeout b.
      if url == "http://broker/sip/intents"
      then (let (r, after) =
            Submission.submit_intent wire envelopes same_text same_text none [] draws body b in
          (deliver b url r, after))
      else if url == "http://broker/sip/capabilities/discover"
      then (
        deliver b url (
            sip_discover_capabilities half_points ask_east same_text wire searches responses
              (some federation) body b),
        b,
      )
      else (err "no route", b);
}

abbrev client : Client
client = record {
  base_url = "http://broker";
  timeout = Float.finite (pos 30) (pos 0);
  headers = [];
}

-- A trailing slash is dropped from the URL that a client is given.
client_made : (new_client "http://broker/" none none).base_url ≡ "http://broker"
unfolding new_client
client_made = refl

article-IsDumped :
    (c : CapabilityDescriptor) → get "get_article" library ≡ some c → IsDumped capabilities c
unfolding get lookup
article-IsDumped c h =
    let same : get_article ≡ c = cc in
    subst (IsDumped capabilities) same (record { dump-dict = (_, refl); validate-dump = refl })

get_capability-IsFetched_example :
    IsFetched
      (get "get_article" library)
      (get_capability wire capabilities unwritten (some reached) client "get_article" broker).0
    × ((get_capability wire capabilities unwritten (some reached) client "get_article" broker).1
        ≡ broker)
unfolding sip_get_capability get lookup
get_capability-IsFetched_example =
    get_capability-IsFetched wire no_detail answer_value capabilities unwritten reached client
      broker "get_article" article-IsDumped refl refl

request-IsDumped : IsDumped envelopes request
unfolding lookup
request-IsDumped = record { dump-dict = (_, refl); validate-dump = refl }

request-IsWritten : IsWritten wire envelopes request
unfolding lookup
request-IsWritten indent = refl

answer-IsRead : IsRead wire (
    answer_value (
      response_body
        (handle same_text draws
          (received_envelope wire envelopes no_detail answer_value unwritten same_text same_text
            none [] request)
          broker).0))
unfolding handle process_intent validate_envelope match evaluate plan find_matches list_all
    fill_required lookup insert text_leb contains_text sorted insert_sorted
    binding_to_execution_type map_identity_headers is_trusted_identity_enabled response_body
answer-IsRead = refl

submit_intent-IsAnswered_example :
    IsAnswered wire envelopes no_detail answer_value unwritten same_text same_text broker draws
      (received_envelope wire envelopes no_detail answer_value unwritten same_text same_text none []
        request)
      (BrokerClient.submit_intent wire unwritten envelopes (some reached) client request broker).0
    × ((BrokerClient.submit_intent wire unwritten envelopes (some reached) client request broker).1
        ≡ (handle same_text draws
            (received_envelope wire envelopes no_detail answer_value unwritten same_text same_text
              none [] request)
            broker).1)
submit_intent-IsAnswered_example =
    submit_intent-IsAnswered wire envelopes no_detail answer_value unwritten same_text same_text
      reached client broker draws request none [] request-IsDumped request-IsWritten answer-IsRead
      refl

found-IsDumped :
    IsResponseDumped wire no_detail answer_value searches responses unwritten
      (discover half_points ask_east same_text library (some federation) none article_search)
found-IsDumped =
    subst (IsResponseDumped wire no_detail answer_value searches responses unwritten)
      (sym discovered) (record { dump-dict = (_, refl); validate-dump = refl })

found-IsRead : IsRead wire (
    content_value no_detail answer_value
      (discovered_or_failed responses (
        discover half_points ask_east same_text library
          (some federation)
          none
          article_search)).content)
unfolding discovered_or_failed lookup
found-IsRead =
    subst
      (λ o.
        IsRead wire
          (content_value no_detail answer_value (discovered_or_failed responses o).content))
      (sym discovered) refl

search-IsDumped : IsDumped searches article_search
search-IsDumped = record { dump-dict = (_, refl); validate-dump = refl }

search-IsWritten : IsWritten wire searches article_search
unfolding lookup
search-IsWritten indent = refl

search-request_of : request_of searches (query_request article_search) ≡ ok article_search
unfolding request_of
search-request_of = refl

discover_capabilities-IsRelayed_example :
    IsRelayed wire no_detail answer_value searches responses unwritten
      (discover half_points ask_east same_text library (some federation) none article_search)
      (discover_capabilities wire responses searches unwritten
        (some reached)
        client
        (query_request article_search)
        broker).0
    × ((discover_capabilities wire responses searches unwritten
          (some reached)
          client
          (query_request article_search)
          broker).1
        ≡ broker)
discover_capabilities-IsRelayed_example =
    discover_capabilities-IsRelayed wire no_detail answer_value searches responses unwritten
      half_points ask_east same_text reached client (some federation) broker
      (query_request article_search) article_search search-request_of search-IsDumped
      search-IsWritten found-IsDumped found-IsRead refl

library-IsDumped : (c : CapabilityDescriptor) → In c (list_all library) → IsDumped capabilities c
unfolding list_all lookup
library-IsDumped c (inl h) =
    subst (IsDumped capabilities) (sym h) (record { dump-dict = (_, refl); validate-dump = refl })
library-IsDumped c (inr (inl h)) =
    subst (IsDumped capabilities) (sym h) (record { dump-dict = (_, refl); validate-dump = refl })
library-IsDumped c (inr (inr h)) = absurd h

list_capabilities-list_all_example :
    list_capabilities wire capabilities unwritten (some reached) client broker
    ≡ (ok (list_all broker.registry), broker)
unfolding sip_list_capabilities list_all lookup
list_capabilities-list_all_example =
    list_capabilities-list_all wire no_detail answer_value capabilities unwritten reached client
      broker library-IsDumped refl refl

-- A query that is no request, and a capability that is not there.
get_capability-RaisesOnly_example :
    RaisesOnly
      (get_answer unwritten client broker (some reached) "/sip/capabilities/no_article")
      (get_capability wire capabilities unwritten (some reached) client "no_article" broker).0
    × RaisesOnly
        (get_answer unwritten client broker (some reached) "/sip/capabilities")
        (list_capabilities wire capabilities unwritten (some reached) client broker).0
    × RaisesOnly
        (post_answer unwritten client broker
          (some reached)
          "/sip/capabilities/discover"
          (sent_body searches (request_of searches (query_dict Fields.end_fields))))
        (discover_capabilities wire responses searches unwritten
          (some reached)
          client
          (query_dict Fields.end_fields)
          broker).0
get_capability-RaisesOnly_example =
    get_capability-RaisesOnly wire responses searches unwritten (some reached) client broker
      capabilities "no_article" (query_dict Fields.end_fields)

get_path-IsJudged_example :
    IsJudged
      (get_answer unwritten client broker (some reached) "/sip/capabilities")
      (get_path unwritten (some reached) client "/sip/capabilities" broker).0
    × IsJudged
        (post_answer unwritten client broker (some reached) "/sip/capabilities" "search")
        (post_path unwritten (some reached) client "/sip/capabilities" "search" broker).0
get_path-IsJudged_example =
    get_path-IsJudged unwritten client broker (some reached) "/sip/capabilities" "search"
