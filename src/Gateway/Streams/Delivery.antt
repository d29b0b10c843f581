-- ===== src/Gateway/Streams/Delivery.antt =====
-- What the consumer of `GatewayService.handle_chat_completion_stream` of
-- services/gateway_service.py receives.
use llmops_gateway.Prelude.{
  ℕ, String, ◌≡◌, refl, ap, ◌∙◌, true, false, Option, none, some, List, [], ◌∷◌, ◌⊎◌, inl, inr,
  Bool-cases,
}
use llmops_gateway.Domain.Chat.{ChatRequest, ChatResponse, CacheStatus, exact_hit, semantic_hit}
use llmops_gateway.Errors.{Exn, Result, ok, err}
use llmops_gateway.Providers.Resilient.{Provider}
use llmops_gateway.Routing
use llmops_gateway.Routing.{Routed}
use llmops_gateway.CacheService.{CacheLayers}
use llmops_gateway.Tracing.{span}
use llmops_gateway.Gateway.{Call, Upstream, Services, is_bypassed, stamp, finalize}
use llmops_gateway.Gateway.Hits.{routed, looked_up}
use llmops_gateway.Gateway.Streams.{
  ChatStream, StreamTools, stream_route, stream_response, with_metadata, after_chunks,
  routed_stream, stream_found, handle_chat_completion_stream,
}

module _ {W : Type 0} (s : Services W) (tools : StreamTools W) where
  -- The end of a metered stream: the metadata item, or an exception in its place.
  abbrev pub Closed : ChatStream → Type 0
  Closed x =
      ((response : ChatResponse) × (x.metadata ≡ some response) × (x.ended ≡ none))
      ⊎ ((e : Exn) × (x.metadata ≡ none) × (x.ended ≡ some e))

  -- The texts are those of the upstream. If it raised, so does the stream, with no metadata; if
  -- the request bypasses the cache, the stream just ends; and else it is closed.
  abbrev pub Delivered : CacheStatus → Routed W → ChatStream → Type 0
  Delivered status r x =
      (x.chunks ≡ r.streamed.chunks)
      × (((e : Exn) × (r.streamed.ended ≡ some e) × (x.ended ≡ some e) × (x.metadata ≡ none))
          ⊎ (((r.streamed.ended ≡ none)
                × (is_bypassed status ≡ true)
                × (x.ended ≡ none)
                × (x.metadata ≡ none))
              ⊎ ((r.streamed.ended ≡ none) × (is_bypassed status ≡ false) × Closed x)))

  with_metadata-Closed :
      (call : Call) (request : ChatRequest) (chunks : List String) (r : Result ChatResponse) (w : W)
      → ((with_metadata s tools call request chunks r w).0.chunks ≡ chunks)
        × Closed (with_metadata s tools call request chunks r w).0
  unfolding with_metadata
  with_metadata-Closed call request chunks (ok response) w = (refl, inl (response, refl, refl))
  with_metadata-Closed call request chunks (err e) w = (refl, inr (e, refl, refl))

  after_chunks-Delivered :
      (call : Call) (started_at : ℕ) (request : ChatRequest) (status : CacheStatus)
      (chunks : List String) (ended : Option Exn) (selected : Option (Provider W × ChatRequest))
      (w : W)
      → Delivered status
          (record { streamed = record { chunks = chunks; ended = ended }; selected = selected })
          (after_chunks s tools call started_at request status chunks ended selected w).0
  unfolding after_chunks
  after_chunks-Delivered call started_at request status chunks (some e) selected w =
      (refl, inl (e, refl, refl, refl))
  after_chunks-Delivered call started_at request status chunks none selected w =
      elim (Bool-cases (is_bypassed status)) [
        | inl bypass ↦ rw bypass (refl, inr (inl (refl, refl, refl, refl)))
        | inr metered ↦
            let x = stream_response s tools call started_at request status chunks selected w in
            let (same, closed) = with_metadata-Closed call request chunks x.0 x.1 in
            rw metered (same, inr (inr (refl, refl, closed)))
      ]

  module _ (c : CacheLayers W) (u : Upstream W) (call : Call) (request : ChatRequest) where
    stream_run :
        (w w1 : W) (found : Option ChatResponse × CacheStatus)
        → looked_up s c call request w ≡ (ok found, w1)
        → handle_chat_completion_stream s tools c u call request w
          ≡ stream_found s tools c u call (s.clock w) (routed s call request w) (ok found) w1
    unfolding handle_chat_completion_stream
    stream_run w w1 found h =
        ap
          (λ (x : Result (Option ChatResponse × CacheStatus) × W).
            stream_found s tools c u call (s.clock w) (routed s call request w) x.0 x.1)
          h

    -- On a miss or a bypass, the consumer receives exactly the texts that routing streamed. If
    -- routing raised, the stream raises the same and has no metadata; if the request bypasses the
    -- cache, the stream ends without metadata; and else it ends with one metadata item, or with an
    -- exception in its place.
    pub stream-Delivered :
        (w w1 : W) (status : CacheStatus)
        → looked_up s c call request w ≡ (ok (none, status), w1)
        → Delivered status
            (Routing.stream u.runtime u.settings u.providers (routed s call request w) w1).0
            (handle_chat_completion_stream s tools c u call request w).0
    unfolding stream_found routed_stream span
    stream-Delivered w w1 status h = rw (stream_run w w1 (none, status) h) (
        after_chunks-Delivered call (s.clock w) (routed s call request w) status
          (Routing.stream u.runtime u.settings u.providers (routed s call request w)
            w1).0.streamed.chunks
          (Routing.stream u.runtime u.settings u.providers (routed s call request w)
            w1).0.streamed.ended
          (Routing.stream u.runtime u.settings u.providers (routed s call request w) w1).0.selected
          _)

    -- A cache hit is streamed as one text and a metadata item at no cost, whatever upstream there
    -- is: no provider is called.
    pub stream_hit_answers :
        (w w1 : W) (cached : ChatResponse) (status : CacheStatus)
        → looked_up s c call request w ≡ (ok (some cached, status), w1)
        → (status ≡ exact_hit) ⊎ (status ≡ semantic_hit)
        → let result =
            record (stamp s cached call.trace_id status (s.clock w) (routed s call request w) w1) {
              cost_usd = 0;
            } in
          handle_chat_completion_stream s tools c u call request w ≡ (
            record { chunks = cached.message.content ∷ []; metadata = some result; ended = none },
            finalize s stream_route
                (routed s call request w)
                result
                call.tenant_id
                call.api_key_id
                w1,
          )
    unfolding stream_found stamp
    stream_hit_answers w w1 cached status h hit =
        stream_run w w1 (some cached, status) h ∙ elim hit [ inl e ↦ rw e | inr e ↦ rw e ]
