-- ===== src/Gateway.antt =====
-- `GatewayService.handle_chat_completion` of services/gateway_service.py with its helpers. Tasks
-- that it creates are added to the world by `spawn`; what they do is in Tasks.
pub mod Hits
pub mod Bypass
pub mod Misses
pub mod Streams
pub mod Tasks
use Prim.Native.String.{◌++◌}
use llmops_gateway.Prelude.{
  ℕ, ◌-◌, String, Bool, true, false, ◌&&◌, Option, none, some, List, [], ◌∷◌, truthy, if◌then◌else◌,
}
use llmops_gateway.Domain.Chat.{
  ChatRequest, ChatResponse, CacheStatus, miss, exact_hit, semantic_hit, bypassed, canonical_prompt,
}
use llmops_gateway.Domain.ModelIdentifier.{ModelIdentifier}
use llmops_gateway.Errors.{Exn, Result, ok, err, Exec, ◌>>=◌, ◌>>◌, pure, gets, modify}
use llmops_gateway.Persistence.AdapterRoutes.{AdapterRoute, resolve_with_canary}
use llmops_gateway.Providers.Resilient.{Provider, Runtime}
use llmops_gateway.Providers.Registry.{Settings}
use llmops_gateway.Routing
use llmops_gateway.CacheService.{
  CacheLayers, lookup, acquire_coalescing_lock, release_coalescing_lock, wait_for_coalesced_result,
}
use llmops_gateway.Cost.{CostConfig, calculate_cost_usd}
use llmops_gateway.Tracing.{TraceSpan, Tracer, span}

-- The tasks: `_schedule_backfill`, `TracingService.flush`, and with background jobs the call
-- `run_trace_flush`.
pub data Task : Type 0 where
  backfill : ChatRequest → ChatResponse → String → Task
  flush trace_flush : ChatRequest → ChatResponse → String → Option String → List TraceSpan → Task

-- The routing service: what reaches the upstream providers.
pub record Upstream (W : Type 0) : Type 0 where
  pub runtime : Runtime W
  pub settings : Settings
  pub providers : List (Provider W)

-- The rest of the object. `parse_uuid` is `none` for a `ValueError`, and else the normal form;
-- `outage` is the exception that opening a session raises now, if any.
pub record Services (W : Type 0) : Type 0 where
  pub cost : CostConfig W
  pub tracer : Tracer W
  pub has_database : Bool
  pub parse_uuid : String → Option String
  pub routes : W → List AdapterRoute
  pub outage : W → Option Exn
  pub digest : String → ℕ
  pub has_background_jobs : Bool
  pub record_request_metrics : String → String → ChatResponse → W → W
  pub spawn : Task → W → W
  pub clock : W → ℕ
  pub print_cost : ℕ → String

-- What the caller passes beside the request.
pub record Call : Type 0 where
  pub trace_id : String
  pub tenant_id : String
  pub api_key_id : Option String

abbrev pub status_text : CacheStatus → String
status_text miss = "MISS"
status_text exact_hit = "EXACT_HIT"
status_text semantic_hit = "SEMANTIC_HIT"
status_text bypassed = "BYPASSED"

abbrev pub is_bypassed : CacheStatus → Bool
is_bypassed miss = false
is_bypassed exact_hit = false
is_bypassed semantic_hit = false
is_bypassed bypassed = true

abbrev pub stamped_cost : CacheStatus → ℕ → ℕ
stamped_cost exact_hit cost = 0
stamped_cost semantic_hit cost = 0
stamped_cost miss cost = cost
stamped_cost bypassed cost = cost

-- `try: m` with `finally: k`; an exception of `k` replaces the outcome.
unfoldable pub finally : {W A : Type 0} → Exec W A → Exec W (Unit {0}) → Exec W A
finally m k w =
    let (r, w1) = m w in let (r2, w2) = k w1 in elim r2 [ ok _ ↦ (r, w2) | err e ↦ (err e, w2) ]

-- The update of the request with the row that was found.
abbrev pub with_route : ChatRequest → Option AdapterRoute → ChatRequest
with_route request none = request
with_route request (some row) = record request {
  model_alias = some request.model;
  model = row.base_model;
  adapter_id = some row.adapter_id;
  adapter_stage = some row.stage;
}

abbrev pub lookup_metadata :
    ChatRequest → Option ChatResponse × CacheStatus → List (String × String)
lookup_metadata request (cached, status) =
    ("cache_status", status_text status) ∷ elim request.adapter_id [
      | none ↦ []
      | some adapter_id ↦ if truthy (some adapter_id) then ("adapter_id", adapter_id) ∷ [] else []
    ]

module _ {W : Type 0} (s : Services W) where
  unfoldable pub route_for : ChatRequest → String → String → W → ChatRequest
  route_for request tenant_id tenant_uuid w = elim (s.outage w) [
    | some e ↦ request
    | none ↦ with_route request (
        resolve_with_canary s.digest tenant_uuid request.model
          (tenant_id ++ (":" ++ (request.model ++ (":" ++ canonical_prompt request))))
          request.adapter_stage (s.routes w))
  ]

  unfoldable pub apply_adapter_route : ChatRequest → String → W → ChatRequest
  unfolding route_for
  apply_adapter_route request tenant_id w =
      if truthy request.adapter_id && truthy request.model_alias
      then request
      else if s.has_database
      then elim (s.parse_uuid tenant_id) [
        | none ↦ request
        | some tenant_uuid ↦ route_for request tenant_id tenant_uuid w
      ]
      else request

  unfoldable pub stamp : ChatResponse → String → CacheStatus → ℕ → ChatRequest → W → ChatResponse
  stamp response trace_id status started_at request w = record response {
    trace_id = trace_id;
    cache_status = status;
    latency_ms = s.clock w - started_at;
    cost_usd = stamped_cost status response.cost_usd;
    adapter_id = request.adapter_id;
    model_alias = request.model_alias;
    adapter_stage = request.adapter_stage;
  }

  -- Metrics, then the task that persists and exports the trace.
  unfoldable pub finalize : String → ChatRequest → ChatResponse → String → Option String → W → W
  finalize route request response tenant_id api_key_id w =
      let w' = s.record_request_metrics route tenant_id response w in
      s.spawn
        (if s.has_background_jobs
          then trace_flush request response tenant_id api_key_id (s.tracer.spans w')
          else flush request response tenant_id api_key_id (s.tracer.spans w'))
        w'

  unfoldable pub spawn_backfill :
      CacheStatus → ChatRequest → ChatResponse → String → Exec W (Unit {0})
  spawn_backfill status request response tenant_id =
      if is_bypassed status then pure tt else modify (s.spawn (backfill request response tenant_id))

  unfoldable pub finish : Call → ℕ → ChatRequest → ChatResponse → CacheStatus → Exec W ChatResponse
  unfolding stamp finalize
  finish call started_at request response status w =
      let result = stamp response call.trace_id status started_at request w in
      (ok result, finalize "chat_completions" request result call.tenant_id call.api_key_id w)

  module _ (c : CacheLayers W) (u : Upstream W) where
    -- From the upstream call on.
    unfoldable pub call_upstream : Call → ℕ → ChatRequest → CacheStatus → Bool → Exec W ChatResponse
    unfolding finally finish spawn_backfill
    call_upstream call started_at request status won_lock = do
      response ←
          finally
            (span s.tracer call.trace_id "upstream_call"
              (λ r. ("provider", r.provider) ∷ ("model", r.model) ∷ [])
              (Routing.complete u.runtime u.settings u.providers request))
            (if won_lock then release_coalescing_lock c request call.tenant_id else pure tt)
      cost ←
          span s.tracer call.trace_id "cost_calculation"
            (λ cost. ("cost_usd", s.print_cost cost) ∷ [])
            (calculate_cost_usd s.cost
              (record { provider = response.provider; model = response.model }) response.usage)
      let priced = record response { cost_usd = cost }
      spawn_backfill status request priced call.tenant_id
      finish call started_at request priced status

    unfoldable pub after_wait :
        Call → ℕ → ChatRequest → CacheStatus → Option ChatResponse → Exec W ChatResponse
    unfolding call_upstream
    after_wait call started_at request status (some coalesced) =
        finish call started_at request coalesced exact_hit
    after_wait call started_at request status none =
        call_upstream call started_at request status false

    unfoldable pub after_lock : Call → ℕ → ChatRequest → CacheStatus → Bool → Exec W ChatResponse
    unfolding after_wait
    after_lock call started_at request status true =
        call_upstream call started_at request status true
    after_lock call started_at request status false = do
      coalesced ← wait_for_coalesced_result c request call.tenant_id
      after_wait call started_at request status coalesced

    unfoldable pub after_lookup :
        Call → ℕ → ChatRequest → Option ChatResponse × CacheStatus → Exec W ChatResponse
    unfolding after_lock
    after_lookup call started_at request (some cached, status) =
        finish call started_at request cached status
    after_lookup call started_at request (none, status) =
        if is_bypassed status then call_upstream call started_at request status false else (do
          won_lock ← acquire_coalescing_lock c request call.tenant_id
          after_lock call started_at request status won_lock)

    unfoldable pub handle_chat_completion : Call → ChatRequest → Exec W ChatResponse
    unfolding after_lookup apply_adapter_route
    handle_chat_completion call request = do
      started_at ← gets s.clock
      modify (s.tracer.set_spans [])
      routed ← gets (apply_adapter_route request call.tenant_id)
      found ←
          span s.tracer call.trace_id "cache_lookup" (lookup_metadata routed)
            (lookup c routed call.tenant_id)
      after_lookup call started_at routed found
