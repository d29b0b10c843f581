-- ===== src/Tests/Routes.antt =====
-- Routing of services/routing_service.py over two providers that fail or serve.
use llmops_gateway.Prelude.{◌≡◌, String, some, List, [], ◌∷◌, refl, All}
use llmops_gateway.Domain.ModelIdentifier.{ModelIdentifier, parse, partition}
use llmops_gateway.Errors.{timeout, all_exhausted, ok, err}
use llmops_gateway.Providers.Breaker.{new, record_failure, record_success, allow_request}
use llmops_gateway.Providers.Resilient.{Provider}
use llmops_gateway.Providers.Resilient
use llmops_gateway.Providers.Registry.{Settings, find_supporting, try_get}
use llmops_gateway.Routing.{resolve_attempts, complete_attempts, stream_attempts, attempt_request}
use llmops_gateway.Routing.Plan.{Distinct, names_of, Planned, resolve_attempts-Planned}
use llmops_gateway.Routing.Fallback.{
  Falls, here, next, Served, OneProvider, complete-exhausted, complete-Served, stream-OneProvider,
}
use llmops_gateway.Tests.Providers.{Upstream, idle, hello, greeting, steady, flaky}

abbrev chain : Settings
chain = record {
  openai_api_key = some "k";
  anthropic_api_key = some "k";
  provider_fallback_chain = "anthropic" ∷ "openai" ∷ [];
  provider_model_fallback_map = [];
}

abbrev both : List (Provider Upstream)
both = flaky "openai" 4 ∷ flaky "anthropic" 4 ∷ []

abbrev planned_both : List (Provider Upstream × String)
planned_both = (flaky "openai" 4, "gpt-4o") ∷ (flaky "anthropic" 4, "gpt-4o") ∷ []

resolved : resolve_attempts chain both hello ≡ ok planned_both
unfolding resolve_attempts find_supporting try_get
resolved = refl

resolve_attempts-Planned_example :
    Distinct (names_of chain both planned_both) × All (Planned chain both hello) planned_both
resolve_attempts-Planned_example = resolve_attempts-Planned chain both hello refl resolved

-- What is left after the first provider used up its attempts.
abbrev after_first : Upstream
after_first = (Resilient.complete steady (flaky "openai" 9) (attempt_request hello "gpt-4o") idle).1

abbrev down : List (Provider Upstream × String)
down = (flaky "openai" 9, "gpt-4o") ∷ []

down-Falls : Falls steady hello down idle [] after_first (("openai", timeout) ∷ [])
unfolding Resilient.complete new attempt_request allow_request record_failure
down-Falls = next {p = flaky "openai" 9} {model = "gpt-4o"} {w = idle} {e = timeout} refl here

complete-exhausted_example :
    complete_attempts steady hello down [] idle
    ≡ (err (all_exhausted (("openai", timeout) ∷ [])), after_first)
complete-exhausted_example = complete-exhausted steady hello [] down-Falls

abbrev served_at : Upstream
served_at = (complete_attempts steady hello planned_both [] idle).1

both_serve : complete_attempts steady hello planned_both [] idle ≡ (ok greeting, served_at)
unfolding complete_attempts Resilient.complete new attempt_request allow_request record_failure
    record_success
both_serve = refl

complete-Served_example : Served steady hello planned_both idle greeting served_at
complete-Served_example = complete-Served steady hello planned_both [] idle both_serve

stream-OneProvider_example :
    OneProvider steady hello [] planned_both idle
      (stream_attempts steady hello planned_both [] idle)
stream-OneProvider_example = stream-OneProvider steady hello planned_both [] idle

abbrev gpt : ModelIdentifier
gpt = record { provider = "openai"; model = "gpt-4o" }

gpt_parses : parse "openai:gpt-4o" ≡ some gpt
unfolding parse partition
gpt_parses = refl
