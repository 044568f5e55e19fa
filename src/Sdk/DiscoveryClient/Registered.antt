-- ===== src/Sdk/DiscoveryClient/Registered.antt =====
-- What `CapabilityDiscoveryClient` (sip/sdk/clients.py) gets of the registry of a broker that its
-- requests reach.
use mathlib.Core.Path.{sym, subst}
use semantic_intent_protocol.Base.{
  refl, some, inl, In, inr, map, ◌∙◌, ◌>>=◌, ap, ◌<>◌, ◌≡◌, ℕ, String, Option, Value, Result, ok,
  err, none, List, [], ◌∷◌,
}
use semantic_intent_protocol.Broker.Discovery.Models.{DiscoveryError}
use semantic_intent_protocol.Broker.Endpoints.{
  sip_list_capabilities, found_or_missing, sip_get_capability,
}
use semantic_intent_protocol.Broker.Responses.{content_value, ResponseBody, items_of, Content}
use semantic_intent_protocol.Broker.Service.{BrokerService}
use semantic_intent_protocol.Registry.Models.{CapabilityDescriptor}
use semantic_intent_protocol.Registry.Storage.{list_all, get}
use semantic_intent_protocol.Sdk.Client.{reading, Client, Httpx, raise_for_status}
use semantic_intent_protocol.Sdk.Client.Exchange.{
  json_of-delivered, get_path-answered, delivered, IsHttpError,
}
use semantic_intent_protocol.Sdk.DiscoveryClient.{
  elements_of, parse_elements, parse_list, list_capabilities, list_of, parse_items, parse_one,
  get_capability,
}
use semantic_intent_protocol.Sdk.Errors.{SipError}
use semantic_intent_protocol.Sdk.Serialization.{parse_capability_descriptor}
use semantic_intent_protocol.Sdk.Serialization.Laws.{parse-dump}
use semantic_intent_protocol.Wire.{IsRead, IsDumped, Schema, Json}

-- A capability that was found is given, and one that is missing raises the error for 404.
abbrev pub IsFetched : Option CapabilityDescriptor → Result SipError CapabilityDescriptor → Type 0
IsFetched none answer = (x : SipError) × IsHttpError 404 x × (answer ≡ err x)
IsFetched (some c) answer = answer ≡ ok c

list_of-items_of : (vs : List Value) → list_of (items_of vs) ≡ vs
list_of-items_of [] = refl
list_of-items_of (v ∷ vs) = ap (λ ws. v ∷ ws) (list_of-items_of vs)

module _ (J : Json) (detail_text : DiscoveryError → String) (body_value : ResponseBody → Value)
    (S : Schema CapabilityDescriptor) (show : ℕ → String) where
  abbrev value_of : Content → Value
  value_of = content_value detail_text body_value

  -- What `get_capability` makes of the endpoint's answer.
  abbrev fetched :
      String → String → Option CapabilityDescriptor → Result SipError CapabilityDescriptor
  fetched url k o =
      raise_for_status show (delivered J value_of url (found_or_missing S k o)) >>= parse_one J S

  fetched-IsFetched :
      (url k : String) (o : Option CapabilityDescriptor)
      → ((c : CapabilityDescriptor) → o ≡ some c → IsDumped S c)
      → IsRead J (value_of (found_or_missing S k o).content)
      → IsFetched o (fetched url k o)
  unfolding found_or_missing parse_one raise_for_status
  fetched-IsFetched url k none dumped readable = (_, (_, _, refl), refl)
  fetched-IsFetched url k (some c) dumped readable =
      ap (λ v. v >>= parse_capability_descriptor J S)
        (json_of-delivered J value_of url (found_or_missing S k (some c)) readable)
      ∙ parse-dump J S "CapabilityDescriptor" c (dumped c refl)

  -- If its request reaches the endpoint and what is delivered is read back, `get_capability` returns
  -- the capability that is registered under the id, and raises the error for status 404 if there is
  -- none. The broker's state is left as it is.
  pub get_capability-IsFetched :
      (x : Httpx BrokerService) (c : Client) (b : BrokerService) (k : String)
      → ((found : CapabilityDescriptor) → get k b.registry ≡ some found → IsDumped S found)
      → IsRead J (value_of (sip_get_capability S k b).content)
      → x.http_get (c.base_url <> ("/sip/capabilities/" <> k)) c.headers c.timeout b ≡ (
        ok (
            delivered J value_of
              (c.base_url <> ("/sip/capabilities/" <> k))
              (sip_get_capability S k b)),
        b,
      )
      → IsFetched (get k b.registry) (get_capability J S show (some x) c k b).0
        × ((get_capability J S show (some x) c k b).1 ≡ b)
  unfolding get_capability sip_get_capability
  get_capability-IsFetched x c b k dumped readable h =
      let path = "/sip/capabilities/" <> k in
      let url = c.base_url <> path in
      let answer = delivered J value_of url (sip_get_capability S k b) in
      let exchange = get_path-answered show x c b b answer path h in
      (
        subst (λ p. IsFetched (get k b.registry) (reading (parse_one J S) p).0) (sym exchange)
            (fetched-IsFetched url k (get k b.registry) dumped readable),
        ap (λ p. p.1) exchange,
      )

  parse_items-map :
      (cs : List CapabilityDescriptor)
      → ((c : CapabilityDescriptor) → In c cs → IsDumped S c)
      → parse_items J S (map S.model_dump cs) ≡ ok cs
  unfolding parse_items
  parse_items-map [] dumped = refl
  parse_items-map (c ∷ cs) dumped =
      ap (λ r. r >>= λ d. parse_items J S (map S.model_dump cs) >>= λ ds. ok (d ∷ ds))
        (parse-dump J S "CapabilityDescriptor" c (dumped c (inl refl)))
      ∙ ap (λ r. r >>= λ ds. ok (c ∷ ds)) (parse_items-map cs (λ d m. dumped d (inr m)))

  listed :
      (url : String) (b : BrokerService)
      → ((c : CapabilityDescriptor) → In c (list_all b.registry) → IsDumped S c)
      → IsRead J (value_of (sip_list_capabilities S b).content)
      → (raise_for_status show (delivered J value_of url (sip_list_capabilities S b))
          >>= parse_list J S)
        ≡ ok (list_all b.registry)
  unfolding sip_list_capabilities parse_list parse_elements elements_of raise_for_status
  listed url b dumped readable =
      ap (λ v. v >>= λ w. parse_elements J S (elements_of w))
        (json_of-delivered J value_of url (sip_list_capabilities S b) readable)
      ∙ ap (parse_items J S) (list_of-items_of (map S.model_dump (list_all b.registry)))
      ∙ parse_items-map (list_all b.registry) dumped

  -- If its request reaches the endpoint and what is delivered is read back, `list_capabilities`
  -- returns all registered capabilities, in the registry's order, and leaves the broker's state as
  -- it is.
  pub list_capabilities-list_all :
      (x : Httpx BrokerService) (c : Client) (b : BrokerService)
      → ((registered : CapabilityDescriptor)
          → In registered (list_all b.registry)
          → IsDumped S registered)
      → IsRead J (value_of (sip_list_capabilities S b).content)
      → x.http_get (c.base_url <> "/sip/capabilities") c.headers c.timeout b ≡ (
        ok (delivered J value_of (c.base_url <> "/sip/capabilities") (sip_list_capabilities S b)),
        b,
      )
      → list_capabilities J S show (some x) c b ≡ (ok (list_all b.registry), b)
  unfolding list_capabilities
  list_capabilities-list_all x c b dumped readable h =
      let url = c.base_url <> "/sip/capabilities" in
      let answer = delivered J value_of url (sip_list_capabilities S b) in
      ap (reading (parse_list J S)) (get_path-answered show x c b b answer "/sip/capabilities" h)
      ∙ ap (λ r. (r, b)) (listed url b dumped readable)
