-- ===== src/Routing.antt =====
-- `RoutingService` of services/routing_service.py. A stream's `selected` is what the callback
-- `on_provider_selected` was told, which happens once, before the first chunk.
pub mod Plan
pub mod Fallback
use llmops_gateway.Prelude.{
  String, Bool, true, false, Option, none, some, List, [], ◌∷◌, ◌++◌, ◌==◌, string_eq, truthy,
  contains, if◌then◌else◌,
}
use llmops_gateway.Domain.Chat.{ChatRequest, ChatResponse}
use llmops_gateway.Errors.{
  ProviderError, Exn, provider, all_exhausted, Result, ok, err, Exec, value_error,
}
use llmops_gateway.Providers.Resilient.{Provider, Runtime, Streamed}
use llmops_gateway.Providers.Resilient
use llmops_gateway.Providers.Registry
use llmops_gateway.Providers.Registry.{Settings}

-- `if name not in ordered_names: ordered_names.append(name)`, along the chain.
unfoldable pub append_missing : List String → List String → List String
append_missing ordered [] = ordered
append_missing ordered (name ∷ chain) =
    append_missing (if contains name ordered then ordered else ordered ++ (name ∷ [])) chain

-- What a loop collects whose body may raise: the first exception ends it.
unfoldable pub append_results : {A : Type 0} → Result (List A) → Result (List A) → Result (List A)
append_results (err e) rest = err e
append_results (ok found) (err e) = err e
append_results (ok found) (ok rest) = ok (found ++ rest)

-- The request with another model.
unfoldable pub attempt_request : ChatRequest → String → ChatRequest
attempt_request request model =
    if model == request.model then request else record request { model = model }

module _ {W : Type 0} (settings : Settings) (providers : List (Provider W)) where
  unfoldable pub ordered_names : ChatRequest → List String
  unfolding append_missing
  ordered_names request = elim (Registry.find_supporting providers request.model) [
    | none ↦ append_missing [] settings.provider_fallback_chain
    | some primary ↦ append_missing (primary.name ∷ []) settings.provider_fallback_chain
  ]

  -- What the loop body appends for one name.
  unfoldable pub attempt_for : ChatRequest → String → Result (List (Provider W × String))
  attempt_for request name = elim (Registry.try_get providers name) [
    | none ↦ ok []
    | some p ↦
        if p.supports_model request.model
        then ok ((p, request.model) ∷ [])
        else elim (Registry.resolve_equivalent_model settings providers request.model name) [
          | err e ↦ err e
          | ok none ↦ ok []
          | ok (some model) ↦ ok ((p, model) ∷ [])
        ]
  ]

  unfoldable pub attempts_for : ChatRequest → List String → Result (List (Provider W × String))
  unfolding attempt_for append_results
  attempts_for request [] = ok []
  attempts_for request (name ∷ names) =
      append_results (attempt_for request name) (attempts_for request names)

  unfoldable pub resolve_attempts : ChatRequest → Result (List (Provider W × String))
  unfolding ordered_names attempts_for
  resolve_attempts request = elim request.provider_override [
    | none ↦ attempts_for request (ordered_names request)
    | some override ↦
        if truthy (some override)
        then elim (Registry.get providers override) [
          | err e ↦ err e
          | ok p ↦ ok ((p, request.model) ∷ [])
        ]
        else attempts_for request (ordered_names request)
  ]

module _ {W : Type 0} (rt : Runtime W) where
  -- The loop of `complete`: what an attempt's outcome leads to.
  unfoldable pub complete_next :
      String
      → List (String × ProviderError)
      → (List (String × ProviderError) → Exec W ChatResponse)
      → Result ChatResponse
      → Exec W ChatResponse
  complete_next name errors rest (ok response) w = (ok response, w)
  complete_next name errors rest (err (provider e)) w = rest (errors ++ ((name, e) ∷ [])) w
  complete_next name errors rest (err e) w = (err e, w)

  unfoldable pub complete_attempts :
      ChatRequest → List (Provider W × String) → List (String × ProviderError) → Exec W ChatResponse
  unfolding complete_next
  complete_attempts request [] errors w = (err (all_exhausted errors), w)
  complete_attempts request ((p, model) ∷ attempts) errors w =
      let (r, w') = Resilient.complete rt p (attempt_request request model) w in
      complete_next p.name errors (complete_attempts request attempts) r w'

  unfoldable pub complete : Settings → List (Provider W) → ChatRequest → Exec W ChatResponse
  unfolding complete_attempts
  complete settings providers request w = elim (resolve_attempts settings providers request) [
    | err e ↦ (err e, w)
    | ok attempts ↦ complete_attempts request attempts [] w
  ]

-- A routed stream, with the provider and request that were selected.
pub record Routed (W : Type 0) : Type 0 where
  pub streamed : Streamed
  pub selected : Option (Provider W × ChatRequest)

module _ {W : Type 0} (rt : Runtime W) where
  -- The callback is made before the first chunk, so never for a stream that had none.
  unfoldable pub selection :
      Provider W → ChatRequest → List String → Option (Provider W × ChatRequest)
  selection p request [] = none
  selection p request (chunk ∷ chunks) = some (p, request)

  unfoldable pub stream_next :
      Provider W
      → ChatRequest
      → List (String × ProviderError)
      → (List (String × ProviderError) → W → Routed W × W)
      → List String
      → Option Exn
      → W
      → Routed W × W
  unfolding selection
  stream_next p request errors rest chunks none w = (
    record {
      streamed = record { chunks = chunks; ended = none };
      selected = selection p request chunks;
    },
    w,
  )
  stream_next p request errors rest [] (some (provider e)) w = rest (errors ++ ((p.name, e) ∷ [])) w
  stream_next p request errors rest chunks (some e) w = (
    record {
      streamed = record { chunks = chunks; ended = some e };
      selected = selection p request chunks;
    },
    w,
  )

  unfoldable pub stream_attempts :
      ChatRequest → List (Provider W × String) → List (String × ProviderError) → W → Routed W × W
  unfolding stream_next
  stream_attempts request [] errors w = (
    record {
      streamed = record { chunks = []; ended = some (all_exhausted errors) };
      selected = none;
    },
    w,
  )
  stream_attempts request ((p, model) ∷ attempts) errors w =
      let (s, w') = Resilient.stream rt p (attempt_request request model) w in
      stream_next p (attempt_request request model) errors (stream_attempts request attempts)
        s.chunks s.ended w'

  unfoldable pub stream : Settings → List (Provider W) → ChatRequest → W → Routed W × W
  unfolding stream_attempts
  stream settings providers request w = elim (resolve_attempts settings providers request) [
    | err e ↦ (record { streamed = record { chunks = []; ended = some e }; selected = none }, w)
    | ok attempts ↦ stream_attempts request attempts [] w
  ]
