-- ===== src/Gateway/Bypass.antt =====
-- How `GatewayService.handle_chat_completion` of services/gateway_service.py treats a request that
-- bypasses the cache.
use llmops_gateway.Prelude.{
  ℕ, String, ◌≡◌, refl, ap, sym, ◌∙◌, true, false, Option, none, [], ◌∷◌, Bool-cases, inl, inr,
}
use llmops_gateway.Domain.Chat.{ChatRequest, ChatResponse, CacheStatus, bypassed}
use llmops_gateway.Errors.{Result, ◌>>=◌, pure}
use llmops_gateway.CacheService.{CacheLayers, lookup}
use llmops_gateway.Cost.{calculate_cost_usd}
use llmops_gateway.Routing
use llmops_gateway.Tracing.{span}
use llmops_gateway.Gateway.{
  Upstream, Services, Call, backfill, flush, trace_flush, lookup_metadata, apply_adapter_route,
  finish, finally, call_upstream, after_lookup, handle_chat_completion,
}
use llmops_gateway.Gateway.Hits.{
  apply_adapter_route-cache_bypass, begun, routed, looked_up, handle_run,
}

module _ {W : Type 0} (s : Services W) where
  lookup_bypassed :
      (c : CacheLayers W) (request : ChatRequest) (tenant_id : String)
      → request.cache_bypass ≡ true
      → lookup c request tenant_id ≡ pure (none, bypassed)
  unfolding lookup
  lookup_bypassed c request tenant_id h = rw h

  -- The lookup within its span, of a request that bypasses the cache.
  abbrev pub bypassed_lookup :
      Call → ChatRequest → W → Result (Option ChatResponse × CacheStatus) × W
  bypassed_lookup call request w =
      span s.tracer call.trace_id "cache_lookup" (lookup_metadata (routed s call request w))
        (pure (none, bypassed)) (begun s w)

  pub looked_up_bypassed :
      (c : CacheLayers W) (call : Call) (request : ChatRequest) (w : W)
      → request.cache_bypass ≡ true
      → looked_up s c call request w ≡ bypassed_lookup call request w
  looked_up_bypassed c call request w h =
      ap
        (λ m.
          span s.tracer call.trace_id "cache_lookup" (lookup_metadata (routed s call request w)) m
            (begun s w))
        (lookup_bypassed c (routed s call request w) call.tenant_id
          (apply_adapter_route-cache_bypass s request call.tenant_id (begun s w) ∙ h))

  bypass_run :
      (c : CacheLayers W) (u : Upstream W) (call : Call) (request : ChatRequest) (w : W)
      → request.cache_bypass ≡ true
      → handle_chat_completion s c u call request w
        ≡ call_upstream s c u call
            (s.clock w)
            (routed s call request w)
            bypassed
            false
            (bypassed_lookup call request w).1
  unfolding after_lookup span
  bypass_run c u call request w h =
      handle_run s c u call request w (bypassed_lookup call request w).1 (none, bypassed)
        (looked_up_bypassed c call request w h)

-- The gateway in which a write-back that is scheduled is dropped.
abbrev pub without_backfill : {W : Type 0} → Services W → Services W
without_backfill s = record s {
  spawn = λ t w. elim t [
    | backfill request response tenant_id ↦ w
    | flush request response tenant_id key spans ↦
        s.spawn (flush request response tenant_id key spans) w
    | trace_flush request response tenant_id key spans ↦
        s.spawn (trace_flush request response tenant_id key spans) w
  ];
}

module _ {W : Type 0} (s : Services W) where
  routed-without_backfill :
      (call : Call) (request : ChatRequest) (w : W)
      → routed (without_backfill s) call request w ≡ routed s call request w
  unfolding apply_adapter_route
  routed-without_backfill call request w = refl

  finish-without_backfill :
      (call : Call) (started_at : ℕ) (request : ChatRequest) (response : ChatResponse)
      (status : CacheStatus) (w : W)
      → finish (without_backfill s) call started_at request response status w
        ≡ finish s call started_at request response status w
  unfolding finish
  finish-without_backfill call started_at request response status w =
      elim (Bool-cases s.has_background_jobs) [ inl e ↦ rw e | inr e ↦ rw e ]

  call-without_backfill :
      (c c' : CacheLayers W) (u : Upstream W) (call : Call) (started_at : ℕ) (request : ChatRequest)
      (w : W)
      → call_upstream (without_backfill s) c' u call started_at request bypassed false w
        ≡ call_upstream s c u call started_at request bypassed false w
  unfolding call_upstream
  call-without_backfill c c' u call started_at request w = λ i.
      (do
        response ←
            finally
              (span s.tracer call.trace_id "upstream_call"
                (λ r. ("provider", r.provider) ∷ ("model", r.model) ∷ [])
                (Routing.complete u.runtime u.settings u.providers request))
              (pure tt)
        cost ←
            span s.tracer call.trace_id "cost_calculation"
              (λ cost. ("cost_usd", s.print_cost cost) ∷ [])
              (calculate_cost_usd s.cost
                (record { provider = response.provider; model = response.model }) response.usage)
        let priced = record response { cost_usd = cost }
        (λ v. finish-without_backfill call started_at request priced bypassed v i))
        w

  -- A request that bypasses the cache has the same outcome whatever the cache layers are, and
  -- whether or not scheduled write-backs are dropped: neither the layers nor the coalescing lock are
  -- read or written, and no write-back to them is scheduled.
  pub bypass_ignores_caches :
      (c c' : CacheLayers W) (u : Upstream W) (call : Call) (request : ChatRequest) (w : W)
      → request.cache_bypass ≡ true
      → handle_chat_completion s c u call request w
        ≡ handle_chat_completion (without_backfill s) c' u call request w
  bypass_ignores_caches c c' u call request w h =
      bypass_run s c u call request w h
      ∙ sym (bypass_run (without_backfill s) c' u call request w h ∙ same)
    where
      same :
          call_upstream
            (without_backfill s)
            c'
            u
            call
            (s.clock w)
            (routed (without_backfill s) call request w)
            bypassed
            false
            (bypassed_lookup (without_backfill s) call request w).1
          ≡ call_upstream s c u call
              (s.clock w)
              (routed s call request w)
              bypassed
              false
              (bypassed_lookup s call request w).1
      same = rw (routed-without_backfill call request w) (
          call-without_backfill c c' u call (s.clock w) (routed s call request w)
            (bypassed_lookup s call request w).1)
