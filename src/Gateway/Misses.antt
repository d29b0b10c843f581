-- ===== src/Gateway/Misses.antt =====
-- What `GatewayService.handle_chat_completion` of services/gateway_service.py does on a cache miss
-- for which it won the coalescing lock.
use llmops_gateway.Prelude.{ℕ, ◌-◌, ◌≡◌, refl, ap, sym, ◌∙◌, true, none, [], ◌∷◌, arith}
use llmops_gateway.Domain.Chat.{ChatRequest, ChatResponse, miss}
use llmops_gateway.Errors.{Exn, Result, ok, err, Exec, ◌>>=◌, ◌>>◌}
use llmops_gateway.Errors.Inversion.{>>=-eq-ok}
use llmops_gateway.Routing
use llmops_gateway.CacheService.{CacheLayers, acquire_coalescing_lock, release_coalescing_lock}
use llmops_gateway.Cost.{calculate_cost_usd}
use llmops_gateway.Tracing.{span}
use llmops_gateway.Gateway.{
  Upstream, Services, Call, backfill, stamp, finalize, finally, finish, spawn_backfill,
  call_upstream, after_lookup, handle_chat_completion,
}
use llmops_gateway.Gateway.Hits.{routed, looked_up, handle_run, answer, recorded}

module _ {W : Type 0} (s : Services W) (c : CacheLayers W) (u : Upstream W) (call : Call)
    (request : ChatRequest) where
  -- The upstream call within its span.
  abbrev pub called : ChatRequest → W → Result ChatResponse × W
  called request' w =
      span s.tracer call.trace_id "upstream_call"
        (λ r. ("provider", r.provider) ∷ ("model", r.model) ∷ [])
        (Routing.complete u.runtime u.settings u.providers request') w

  -- The cost within its span.
  abbrev pub priced : ChatResponse → W → Result ℕ × W
  priced response w =
      span s.tracer call.trace_id "cost_calculation" (λ cost. ("cost_usd", s.print_cost cost) ∷ [])
        (calculate_cost_usd s.cost (record { provider = response.provider; model = response.model })
          response.usage)
        w

  miss_run :
      (w w1 w2 : W)
      → looked_up s c call request w ≡ (ok (none, miss), w1)
      → acquire_coalescing_lock c (routed s call request w) call.tenant_id w1 ≡ (ok true, w2)
      → handle_chat_completion s c u call request w
        ≡ call_upstream s c u call (s.clock w) (routed s call request w) miss true w2
  unfolding after_lookup
  miss_run w w1 w2 h lock = handle_run s c u call request w w1 (none, miss) h ∙ ground (arith, lock)

  finally-eq-ok :
      {A : Type 0} (m : Exec W A) (k : Exec W (Unit {0})) (w : W) {a : A} {v : W}
      → finally m k w ≡ (ok a, v)
      → (v' : W) × (m w ≡ (ok a, v')) × (k v' ≡ (ok tt, v))
  unfolding finally
  finally-eq-ok {A} m k w {a} {v} h =
      settled (m w).0 (m w).1 (k (m w).1).0 (k (m w).1).1 refl refl h
    where
      settled :
          (r : Result A) (x : W) (r2 : Result (Unit {0})) (y : W)
          → m w ≡ (r, x)
          → k x ≡ (r2, y)
          → ◌≡◌ {A = Result A × W} (elim r2 [ ok _ ↦ (r, y) | err e ↦ (err e, y) ]) (ok a, v)
          → (v' : W) × (m w ≡ (ok a, v')) × (k v' ≡ (ok tt, v))
      settled (ok b) x (ok tt) y first second h = (x, first ∙ cc, second ∙ cc)
      settled (err e) x (ok tt) y first second h = cc
      settled r x (err e) y first second h = cc

  -- What follows the answer of the upstream call, and its price.
  abbrev after_price : ℕ → ChatRequest → ChatResponse → ℕ → Exec W ChatResponse
  after_price started_at request' response cost =
      let stored = record response { cost_usd = cost } in
      spawn_backfill s miss request' stored call.tenant_id
      >> finish s call started_at request' stored miss

  abbrev after_answer : ℕ → ChatRequest → ChatResponse → Exec W ChatResponse
  after_answer started_at request' response =
      priced response >>= λ cost. after_price started_at request' response cost

  both :
      {a b : ChatResponse} {x y : W}
      → ◌≡◌ {A = Result ChatResponse × W} (ok a, x) (ok b, y)
      → (a ≡ b) × (x ≡ y)
  both h = (cc, cc)

  -- On a miss with the lock won, where routing raises and the release of the lock does not: the
  -- call raises what routing raised, in the world that the release left. The lock was released,
  -- and nothing was priced, scheduled or metered.
  pub miss_raises :
      (w w1 w2 w3 w4 : W) (e : Exn)
      → looked_up s c call request w ≡ (ok (none, miss), w1)
      → acquire_coalescing_lock c (routed s call request w) call.tenant_id w1 ≡ (ok true, w2)
      → called (routed s call request w) w2 ≡ (err e, w3)
      → release_coalescing_lock c (routed s call request w) call.tenant_id w3 ≡ (ok tt, w4)
      → handle_chat_completion s c u call request w ≡ (err e, w4)
  unfolding call_upstream
  miss_raises w w1 w2 w3 w4 e h lock failed released =
      miss_run w w1 w2 h lock ∙ ground (arith, failed, released)

  -- A response on a miss with the lock won came about in one way. Routing answered; the lock was
  -- released after that; what routing answered was priced after that; the write-back of the priced
  -- response was scheduled, and then the metrics and the task for the trace. The answer is that
  -- response with its cost, under the trace of the call, as a miss, with the time since the call
  -- began and the adapter of the routed request, and it is otherwise what routing answered.
  pub miss_serves :
      (w w1 w2 w' : W) (result : ChatResponse)
      → looked_up s c call request w ≡ (ok (none, miss), w1)
      → acquire_coalescing_lock c (routed s call request w) call.tenant_id w1 ≡ (ok true, w2)
      → handle_chat_completion s c u call request w ≡ (ok result, w')
      → (response : ChatResponse) × (cost : ℕ) × (w3 w4 w5 : W) × (called
            (routed s call request w)
            w2
          ≡ (ok response, w3))
        × (release_coalescing_lock c (routed s call request w) call.tenant_id w3 ≡ (ok tt, w4))
        × (priced response w4 ≡ (ok cost, w5))
        × (let stored = record response { cost_usd = cost } in
            let w6 = s.spawn (backfill (routed s call request w) stored call.tenant_id) w5 in
            (result
              ≡ answer call (routed s call request w) miss (s.clock w6 - s.clock w) cost response)
            × (w' ≡ recorded s call (routed s call request w) result w6))
  unfolding call_upstream stamp finalize
  miss_serves w w1 w2 w' result h lock served =
      let run = sym (miss_run w w1 w2 h lock) ∙ served in
      let (response, w4, ran, k) =
        >>=-eq-ok
          (finally (called (routed s call request w))
            (release_coalescing_lock c (routed s call request w) call.tenant_id))
          (after_answer (s.clock w) (routed s call request w)) w2 run in
      let (w3, answered, released) =
        finally-eq-ok (called (routed s call request w))
          (release_coalescing_lock c (routed s call request w) call.tenant_id) w2 ran in
      let (cost, w5, paid, l) =
        >>=-eq-ok (priced response)
          (λ cost. after_price (s.clock w) (routed s call request w) response cost) w4 k in
      let (same, world) = both l in
      let scheduled : ChatResponse → ℕ → W → W = λ response cost v.
        s.spawn
          (backfill (routed s call request w) (record response { cost_usd = cost }) call.tenant_id)
          v in
      (
        response,
        cost,
        w3,
        w4,
        w5,
        answered,
        released,
        paid,
        (
          sym same,
          sym world
              ∙ ap (λ r. recorded s call (routed s call request w) r (scheduled response cost w5))
                  same,
        ),
      )
