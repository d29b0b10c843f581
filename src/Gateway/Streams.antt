-- ===== src/Gateway/Streams.antt =====
-- `GatewayService.handle_chat_completion_stream` of services/gateway_service.py, for a consumer
-- that reads the stream to its end. `uuid` and `join_chunks` are parameters: the id of the
-- response, and `"".join`.
pub mod Delivery
use llmops_gateway.Prelude.{ℕ, ◌-◌, String, Bool, Option, none, some, List, [], ◌∷◌, if◌then◌else◌}
use llmops_gateway.Domain.Chat.{
  ChatRequest, ChatResponse, ChatMessage, CacheStatus, TokenUsage, assistant,
}
use llmops_gateway.Errors.{Exn, Result, ok, err, Exec, ◌>>=◌, ◌>>◌, pure, gets, modify}
use llmops_gateway.Providers.Resilient.{Provider}
use llmops_gateway.Routing
use llmops_gateway.Routing.{Routed}
use llmops_gateway.CacheService.{CacheLayers, lookup}
use llmops_gateway.Cost.{calculate_cost_usd}
use llmops_gateway.Tracing.{span}
use llmops_gateway.Gateway.{
  Call, Upstream, Services, backfill, is_bypassed, lookup_metadata, apply_adapter_route, stamp,
  finalize,
}

-- What the consumer receives: the texts, the `StreamMetadata` if one came, and the exception that
-- ended the generator, if any.
pub record ChatStream : Type 0 where
  pub chunks : List String
  pub metadata : Option ChatResponse
  pub ended : Option Exn

-- `str(uuid.uuid4())` and `"".join(chunks)`.
pub record StreamTools (W : Type 0) : Type 0 where
  pub uuid : W → String × W
  pub join_chunks : List String → String
  pub created_at : W → ℕ

abbrev pub stream_route : String
stream_route = "chat_completions_stream"

abbrev pub selected_name : {W : Type 0} → Option (Provider W × ChatRequest) → String
selected_name none = "unknown"
selected_name (some (p, request)) = p.name

abbrev pub stream_metadata : {W : Type 0} → Routed W → List (String × String)
stream_metadata r = elim r.streamed.ended [
  | none ↦ ("provider", selected_name r.selected) ∷ []
  | some e ↦ []
]

module _ {W : Type 0} (s : Services W) (tools : StreamTools W) where
  -- A stored answer comes as one chunk.
  unfoldable pub stream_hit :
      Call → ℕ → ChatRequest → ChatResponse → CacheStatus → W → ChatStream × W
  unfolding stamp finalize
  stream_hit call started_at request cached status w =
      let result = stamp s cached call.trace_id status started_at request w in
      (
        record { chunks = cached.message.content ∷ []; metadata = some result; ended = none },
        finalize s stream_route request result call.tenant_id call.api_key_id w,
      )

  unfoldable pub count_usage :
      ChatRequest → Option (Provider W × ChatRequest) → String → Exec W TokenUsage
  count_usage request none full_text = pure (record { input_tokens = 0; output_tokens = 0 })
  count_usage request (some (p, attempt_request)) full_text =
      p.count_tokens attempt_request full_text

  -- The response that the metadata item carries; its write-back is scheduled.
  unfoldable pub stream_response :
      Call
      → ℕ
      → ChatRequest
      → CacheStatus
      → List String
      → Option (Provider W × ChatRequest)
      → Exec W ChatResponse
  unfolding count_usage
  stream_response call started_at request status chunks selected = do
    let full_text = tools.join_chunks chunks
    usage ← count_usage request selected full_text
    cost ←
        span s.tracer call.trace_id "cost_calculation"
          (λ cost. ("cost_usd", s.print_cost cost) ∷ [])
          (calculate_cost_usd s.cost
            (record { provider = selected_name selected; model = request.model }) usage)
    id ← (λ w. let (drawn, w') = tools.uuid w in (ok drawn, w'))
    created_at ← gets tools.created_at
    stopped_at ← gets s.clock
    let response : ChatResponse = record {
      id = id;
      model = request.model;
      provider = selected_name selected;
      message = record { role = assistant; content = full_text };
      usage = usage;
      cost_usd = cost;
      cache_status = status;
      trace_id = call.trace_id;
      created_at = created_at;
      latency_ms = stopped_at - started_at;
      adapter_id = request.adapter_id;
      model_alias = request.model_alias;
      adapter_stage = request.adapter_stage;
    }
    modify (s.spawn (backfill request response call.tenant_id))
    pure response

  -- The metadata item and the trace, or the exception that kept them from coming.
  unfoldable pub with_metadata :
      Call → ChatRequest → List String → Result ChatResponse → W → ChatStream × W
  unfolding finalize
  with_metadata call request chunks (err e) w =
      (record { chunks = chunks; metadata = none; ended = some e }, w)
  with_metadata call request chunks (ok response) w = (
    record { chunks = chunks; metadata = some response; ended = none },
    finalize s stream_route request response call.tenant_id call.api_key_id w,
  )

  -- What follows the chunks of the upstream.
  unfoldable pub after_chunks :
      Call
      → ℕ
      → ChatRequest
      → CacheStatus
      → List String
      → Option Exn
      → Option (Provider W × ChatRequest)
      → W
      → ChatStream × W
  unfolding stream_response with_metadata
  after_chunks call started_at request status chunks (some e) selected w =
      (record { chunks = chunks; metadata = none; ended = some e }, w)
  after_chunks call started_at request status chunks none selected w =
      if is_bypassed status
      then (record { chunks = chunks; metadata = none; ended = none }, w)
      else (let (r, w') = stream_response call started_at request status chunks selected w in
          with_metadata call request chunks r w')

  module _ (c : CacheLayers W) (u : Upstream W) where
    -- The upstream's stream within its span.
    unfoldable pub routed_stream : Call → ChatRequest → Exec W (Routed W)
    routed_stream call request =
        span s.tracer call.trace_id "upstream_call" stream_metadata (λ w.
          let (r, w') = Routing.stream u.runtime u.settings u.providers request w in (ok r, w'))

    unfoldable pub stream_upstream : Call → ℕ → ChatRequest → CacheStatus → W → ChatStream × W
    unfolding after_chunks
    stream_upstream call started_at request status w =
        let (x, w') = routed_stream call request w in
        elim x [
          | err e ↦ (record { chunks = []; metadata = none; ended = some e }, w')
          | ok r ↦
              after_chunks call started_at request status r.streamed.chunks r.streamed.ended
                r.selected w'
        ]

    unfoldable pub stream_found :
        Call → ℕ → ChatRequest → Result (Option ChatResponse × CacheStatus) → W → ChatStream × W
    unfolding stream_upstream stream_hit
    stream_found call started_at request (err e) w =
        (record { chunks = []; metadata = none; ended = some e }, w)
    stream_found call started_at request (ok (some cached, status)) w =
        stream_hit call started_at request cached status w
    stream_found call started_at request (ok (none, status)) w =
        stream_upstream call started_at request status w

    unfoldable pub handle_chat_completion_stream : Call → ChatRequest → W → ChatStream × W
    unfolding stream_found apply_adapter_route
    handle_chat_completion_stream call request w =
        let w0 = s.tracer.set_spans [] w in
        let routed = apply_adapter_route s request call.tenant_id w0 in
        let (found, w1) =
          span s.tracer call.trace_id "cache_lookup" (lookup_metadata routed)
            (lookup c routed call.tenant_id) w0 in
        stream_found call (s.clock w) routed found w1
