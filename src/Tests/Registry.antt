-- ===== src/Tests/Registry.antt =====
-- The theorems on one registry: the store, its file and its search.
use semantic_intent_protocol.Registry.Storage.Map.{store-IsMapped, IsMapped}
use semantic_intent_protocol.Base.{
  refl, [], none, string_eq, arith, insert_sorted, ◌≤◌, ◌⊎◌, sorted, text_leb, ◌≡◌, In, List,
  contains_text, lookup, ℕ, ◌∷◌, pos, inl, inr, some, true,
}
use semantic_intent_protocol.Envelope.Enums.{TrustLevel, OperationClass}
use semantic_intent_protocol.Registry.JsonFile.{Codec, IsLawful, JsonFileStore, reload}
use semantic_intent_protocol.Registry.JsonFile.Persistence.{
  reload-IsFlushed, reload-serve_all, IsFlushed, Request, serve_all,
}
use semantic_intent_protocol.Registry.Models.{CapabilityDescriptor}
use semantic_intent_protocol.Registry.Service.{score_capability, MatchQuery, find_matches}
use semantic_intent_protocol.Registry.Service.Candidate.{IsCandidate}
use semantic_intent_protocol.Registry.Service.Ranking.{find_matches_best}
use semantic_intent_protocol.Registry.Storage.{list_all}
use semantic_intent_protocol.Registry.Storage.Laws.{IsValid}
use semantic_intent_protocol.Tests.{same_text, get_article, library, list_articles}

library-IsValid : IsValid library
unfolding lookup
library-IsValid = record { nodup = (refl, (refl, tt)); keyed = (refl, (refl, tt)) }

abbrev write_article : CapabilityDescriptor
write_article = record get_article { capability_id = "write_article" }

store-IsMapped_example : IsMapped library write_article "get_article" "list_articles"
store-IsMapped_example =
    store-IsMapped library write_article "get_article" "list_articles" library-IsValid

-- Records that are kept as they are: a text is the list of them.
abbrev plain : Codec
plain = record {
  Text = List CapabilityDescriptor;
  Json = CapabilityDescriptor;
  dumps = λ js. js;
  loads = λ t. some t;
  model_dump = λ c. c;
  model_validate = λ j. some j;
}

plain-IsLawful : IsLawful plain
plain-IsLawful = record { loads-dumps = λ js. refl; validate-dump = λ c. refl }

abbrev file_store : JsonFileStore plain
file_store = record { memory = library; file = some (list_articles ∷ get_article ∷ []) }

file_store-IsFlushed : IsFlushed plain plain-IsLawful file_store
unfolding list_all
file_store-IsFlushed = refl

abbrev updates : List (Request plain plain-IsLawful)
updates =
    Request.to_put write_article
    ∷ Request.to_delete "get_article"
    ∷ Request.to_delete "missing"
    ∷ []

reload-serve_all_example :
    reload plain true (serve_all plain plain-IsLawful updates file_store)
    ≡ serve_all plain plain-IsLawful updates file_store
reload-serve_all_example =
    reload-serve_all plain plain-IsLawful updates file_store library-IsValid file_store-IsFlushed

reload-IsFlushed_example : reload plain true file_store ≡ file_store
reload-IsFlushed_example =
    reload-IsFlushed plain plain-IsLawful file_store library-IsValid file_store-IsFlushed

abbrev query : MatchQuery
query = record {
  intent_name = "article";
  intent_domain = "knowledge";
  operation_class = OperationClass.retrieve;
  actor_trust = TrustLevel.internal;
  preferred_binding = none;
  candidate_ids = some ("get_article" ∷ []);
  max_results = pos 1;
}

query_finds : In (get_article, 13) (find_matches same_text library query)
unfolding find_matches list_all text_leb contains_text sorted insert_sorted
query_finds = inl refl

list_articles-IsCandidate : IsCandidate same_text query list_articles
unfolding contains_text
list_articles-IsCandidate = record { trusted = ground arith; signal = inr (inl refl) }

list_articles_listed : In list_articles (list_all library)
unfolding list_all
list_articles_listed = inl refl

find_matches_best_example :
    (t : ℕ) × (score_capability same_text query list_articles ≡ some t)
    × (In (list_articles, t) (find_matches same_text library query) ⊎ (t ≤ 13))
find_matches_best_example =
    find_matches_best same_text query library 1 get_article list_articles 13 refl query_finds
      list_articles_listed list_articles-IsCandidate
