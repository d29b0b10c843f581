-- ===== src/Gateway/Hits.antt =====
-- How `GatewayService.handle_chat_completion` of services/gateway_service.py answers a cache hit.
use llmops_gateway.Prelude.{
  ℕ, ◌-◌, String, ◌≡◌, refl, ap, ◌∙◌, true, false, ◌&&◌, Option, none, some, [], truthy,
  if◌then◌else◌, arith, Bool, Bool-cases, Option-cases, inl, inr, ◌⊎◌,
}
use llmops_gateway.Domain.Chat.{
  ChatRequest, ChatResponse, CacheStatus, exact_hit, semantic_hit, bypassed,
}
use llmops_gateway.Errors.{Result, ok, ◌>>=◌, pure}
use llmops_gateway.Persistence.AdapterRoutes.{AdapterRoute}
use llmops_gateway.Errors.Inversion.{>>=-eq-ok}
use llmops_gateway.CacheService.{CacheLayers, lookup, after_exact, after_semantic}
use llmops_gateway.Tracing.{span}
use llmops_gateway.Gateway.{
  Upstream, Services, Call, flush, trace_flush, with_route, lookup_metadata, route_for,
  apply_adapter_route, stamp, finalize, after_lookup, handle_chat_completion,
}

-- What the caller sees of a response.
abbrev pub answer : Call → ChatRequest → CacheStatus → ℕ → ℕ → ChatResponse → ChatResponse
answer call request status latency_ms cost_usd response = record {
  id = response.id;
  model = response.model;
  provider = response.provider;
  message = response.message;
  usage = response.usage;
  cost_usd = cost_usd;
  cache_status = status;
  trace_id = call.trace_id;
  created_at = response.created_at;
  latency_ms = latency_ms;
  adapter_id = request.adapter_id;
  model_alias = request.model_alias;
  adapter_stage = request.adapter_stage;
}

module _ {W : Type 0} (s : Services W) where
  with_route-cache_bypass :
      (request : ChatRequest) (row : Option AdapterRoute)
      → (with_route request row).cache_bypass ≡ request.cache_bypass
  with_route-cache_bypass request none = refl
  with_route-cache_bypass request (some row) = refl

  route_for-cache_bypass :
      (request : ChatRequest) (tenant_id uuid : String) (w : W)
      → (route_for s request tenant_id uuid w).cache_bypass ≡ request.cache_bypass
  unfolding route_for
  route_for-cache_bypass request tenant_id uuid w = elim (Option-cases (s.outage w)) [
    | inl up ↦ rw (up, route_for) (with_route-cache_bypass request _)
    | inr (e, down) ↦ rw (down, route_for)
  ]

  -- Routing to an adapter keeps the bypass flag.
  pub apply_adapter_route-cache_bypass :
      (request : ChatRequest) (tenant_id : String) (w : W)
      → (apply_adapter_route s request tenant_id w).cache_bypass ≡ request.cache_bypass
  unfolding apply_adapter_route
  apply_adapter_route-cache_bypass request tenant_id w =
      elim (Bool-cases (truthy request.adapter_id && truthy request.model_alias)) [
        | inl given ↦ rw given
        | inr open_ ↦ elim (Bool-cases s.has_database) [
          | inr absent ↦ rw (open_, absent)
          | inl there ↦ elim (Option-cases (s.parse_uuid tenant_id)) [
            | inl malformed ↦ rw (open_, there, malformed)
            | inr (uuid, parsed) ↦
                rw (open_, there, parsed) (route_for-cache_bypass request tenant_id uuid w)
          ]
        ]
      ]

  -- The world once the spans are reset, and the request as it goes on.
  abbrev pub begun : W → W
  begun w = s.tracer.set_spans [] w

  abbrev pub routed : Call → ChatRequest → W → ChatRequest
  routed call request w = apply_adapter_route s request call.tenant_id (begun w)

  -- The lookup within its span.
  abbrev pub looked_up :
      CacheLayers W → Call → ChatRequest → W → Result (Option ChatResponse × CacheStatus) × W
  looked_up c call request w =
      span s.tracer call.trace_id "cache_lookup" (lookup_metadata (routed call request w))
        (lookup c (routed call request w) call.tenant_id) (begun w)

  pub handle_run :
      (c : CacheLayers W) (u : Upstream W) (call : Call) (request : ChatRequest) (w w' : W)
      (found : Option ChatResponse × CacheStatus)
      → looked_up c call request w ≡ (ok found, w')
      → handle_chat_completion s c u call request w
        ≡ after_lookup s c u call (s.clock w) (routed call request w) found w'
  unfolding handle_chat_completion
  handle_run c u call request w w' found h = ground arith

  after_exact_hit :
      (c : CacheLayers W) (request : ChatRequest) (tenant_id : String) (found : Option ChatResponse)
      (w : W) {cached : ChatResponse} {status : CacheStatus} {v : W}
      → after_exact c request tenant_id found w ≡ (ok (some cached, status), v)
      → (status ≡ exact_hit) ⊎ (status ≡ semantic_hit)
  unfolding after_exact after_semantic
  after_exact_hit c request tenant_id (some hit) w h = inl cc
  after_exact_hit c request tenant_id none w h =
      let (similar, v, e, k) =
        >>=-eq-ok (c.semantic.get request tenant_id) (after_semantic c request tenant_id) w h in
      after_semantic_hit similar v k
    where
      after_semantic_hit :
          (similar : Option ChatResponse) (v : W) {cached : ChatResponse} {status : CacheStatus}
          {v' : W}
          → after_semantic c request tenant_id similar v ≡ (ok (some cached, status), v')
          → (status ≡ exact_hit) ⊎ (status ≡ semantic_hit)
      after_semantic_hit none v k = cc
      after_semantic_hit (some hit) v k = inr cc

  lookup_hit :
      (c : CacheLayers W) (request : ChatRequest) (tenant_id : String) (w : W)
      {cached : ChatResponse} {status : CacheStatus} {v : W}
      → lookup c request tenant_id w ≡ (ok (some cached, status), v)
      → (status ≡ exact_hit) ⊎ (status ≡ semantic_hit)
  unfolding lookup
  lookup_hit c request tenant_id w {cached} {status} {v} h = asked request.cache_bypass h
    where
      asked :
          (skipped : Bool)
          → (if skipped then pure (none, bypassed) else (do
            found ← c.exact.get request tenant_id
            after_exact c request tenant_id found))
              w
            ≡ (ok (some cached, status), v)
          → (status ≡ exact_hit) ⊎ (status ≡ semantic_hit)
      asked true h = cc
      asked false h =
          let (found, v, e, k) =
            >>=-eq-ok (c.exact.get request tenant_id) (after_exact c request tenant_id) w h in
          after_exact_hit c request tenant_id found v k

  looked_up_hit :
      (c : CacheLayers W) (call : Call) (request : ChatRequest) (w w' : W) (cached : ChatResponse)
      (status : CacheStatus)
      → looked_up c call request w ≡ (ok (some cached, status), w')
      → (status ≡ exact_hit) ⊎ (status ≡ semantic_hit)
  unfolding span
  looked_up_hit c call request w w' cached status h =
      let found = lookup c (routed call request w) call.tenant_id (begun w) in
      lookup_hit c (routed call request w) call.tenant_id (begun w)
        (ap (λ (x : Result (Option ChatResponse × CacheStatus) × W). (x.0, found.1)) h)

  -- The world after a call: the metrics of the request, and the one task that keeps its trace.
  abbrev pub recorded : Call → ChatRequest → ChatResponse → W → W
  recorded call request response w =
      let v = s.record_request_metrics "chat_completions" call.tenant_id response w in
      s.spawn
        (if s.has_background_jobs
          then trace_flush request response call.tenant_id call.api_key_id (s.tracer.spans v)
          else flush request response call.tenant_id call.api_key_id (s.tracer.spans v))
        v

  -- A response that the lookup found is a hit of one of the two layers. It is answered under the
  -- trace of the call, with that status, the time since the call began, no cost and the adapter of
  -- the routed request, and is otherwise the stored one. Only the metrics and the task for its
  -- trace follow the lookup, whatever upstream there is: no provider is called, nothing is priced,
  -- locked or written back.
  pub hit_answers :
      (c : CacheLayers W) (u : Upstream W) (call : Call) (request : ChatRequest) (w w' : W)
      (cached : ChatResponse) (status : CacheStatus)
      → looked_up c call request w ≡ (ok (some cached, status), w')
      → ((status ≡ exact_hit) ⊎ (status ≡ semantic_hit))
        × (let result =
              answer call (routed call request w) status (s.clock w' - s.clock w) 0 cached in
            handle_chat_completion s c u call request w
            ≡ (ok result, recorded call (routed call request w) result w'))
  unfolding after_lookup stamp finalize
  hit_answers c u call request w w' cached status h =
      let hit = looked_up_hit c call request w w' cached status h in
      (
        hit,
        handle_run c u call request w w' (some cached, status) h
            ∙ elim hit [ inl e ↦ rw e | inr e ↦ rw e ],
      )
