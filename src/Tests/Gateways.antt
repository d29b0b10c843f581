-- ===== src/Tests/Gateways.antt =====
-- A gateway with an empty cache and one provider, and one whose cache has every answer.
use llmops_gateway.Prelude.{
  ℕ, suc, ◌+◌, ◌-◌, ◌⊎◌, ◌≡◌, refl, true, false, Option, none, some, List, [], ◌∷◌, arith,
}
use llmops_gateway.Domain.Chat.{
  ChatRequest, ChatResponse, TokenUsage, miss, exact_hit, semantic_hit,
}
use llmops_gateway.Domain.ModelIdentifier.{ModelIdentifier, to_string}
use llmops_gateway.Errors.{Exn, timeout, provider, all_exhausted, Result, ok, err}
use llmops_gateway.Clients.{Redis}
use llmops_gateway.Persistence.Pricing.{get_active_price}
use llmops_gateway.Providers.Breaker.{
  CircuitBreaker, new, allow_request, record_success, record_failure,
}
use llmops_gateway.Providers.Resilient.{Provider, Runtime}
use llmops_gateway.Providers.Resilient
use llmops_gateway.Providers.Registry.{find_supporting, try_get}
use llmops_gateway.Routing
use llmops_gateway.Caching.ExactCache.{CacheStore, recover}
use llmops_gateway.CacheService.{
  CacheLayers, lookup, wait_loop, wait_for_coalesced_result, acquire_coalescing_lock,
  release_coalescing_lock,
}
use llmops_gateway.CacheService.Waiting.{Advances, wait_for_coalesced_result_enough}
use llmops_gateway.Cost.{CostConfig, calculate_cost_usd}
use llmops_gateway.Cost.Total.{OnlyRedisErrors, calculate_cost_usd_total}
use llmops_gateway.Tracing.{TraceSpan, span}
use llmops_gateway.Gateway.{
  Task, backfill, Upstream, Services, Call, apply_adapter_route, handle_chat_completion,
}
use llmops_gateway.Gateway.Hits.{routed, looked_up, answer, recorded, hit_answers}
use llmops_gateway.Gateway.Bypass.{without_backfill, bypass_ignores_caches}
use llmops_gateway.Gateway.Misses.{called, priced, miss_raises, miss_serves}
use llmops_gateway.Tests.Providers.{hello, greeting}

pub record Desk : Type 0 where
  pub clock : ℕ
  pub spans : List TraceSpan
  pub tasks : List Task
  pub breaker : CircuitBreaker

abbrev pub quiet : Desk
quiet = record { clock = 1000; spans = []; tasks = []; breaker = new 5 30000 }

abbrev tick : Desk → Desk
tick w = record w { clock = suc w.clock }

-- A Redis without entries.
abbrev empty_redis : Redis Desk
empty_redis = record {
  get = λ k w. (ok none, w);
  set = λ k v ttl w. (ok tt, w);
  set_nx = λ k v ttl w. (ok true, w);
  delete = λ k w. (ok tt, w);
}

abbrev answering : Option ChatResponse → CacheStore Desk
answering response = record { get = λ r t w. (ok response, w); set = λ r a t w. (ok tt, w) }

abbrev pub layers : Option ChatResponse → CacheLayers Desk
layers response = record {
  exact = answering response;
  semantic = answering none;
  redis = empty_redis;
  is_redis_error = λ e. true;
  sha256 = λ s. "abcd";
  printer = record { print_int = λ n. "None"; print_list = λ l. "None" };
  lock_ttl_seconds = 10;
  wait = 2000;
  poll_interval = 50;
  clock = λ w. w.clock;
  sleep = λ d w. record w { clock = w.clock + d };
  spawn_exact_set = λ q r t w. w;
}

layers-Advances : Advances (layers none)
layers-Advances = record { slept = λ w. omega arith; read = λ q t w. omega arith }

wait_for_coalesced_result_enough_example :
    wait_loop (layers none) (2000 + 7) (quiet.clock + 2000) hello "t1" quiet
    ≡ wait_for_coalesced_result (layers none) hello "t1" quiet
wait_for_coalesced_result_enough_example =
    wait_for_coalesced_result_enough (layers none) layers-Advances 7 hello "t1" quiet

abbrev prices : CostConfig Desk
prices = record {
  redis = empty_redis;
  is_redis_error = λ e. true;
  ttl_seconds = 300;
  rows = λ w. [];
  outage = λ w. none;
  now = λ w. w.clock;
  print_price = λ n. "1";
  parse_price = λ s. some 1;
}

prices-OnlyRedisErrors : OnlyRedisErrors prices
prices-OnlyRedisErrors = record { get = λ k w. tt; set = λ k v ttl w. tt }

abbrev gpt : ModelIdentifier
gpt = record { provider = "openai"; model = "gpt-4o" }

abbrev two_tokens : TokenUsage
two_tokens = record { input_tokens = 1; output_tokens = 1 }

calculate_cost_usd_total_example :
    (cost : ℕ) × (w' : Desk) × (calculate_cost_usd prices gpt two_tokens quiet ≡ (ok cost, w'))
calculate_cost_usd_total_example =
    calculate_cost_usd_total prices prices-OnlyRedisErrors gpt two_tokens quiet

nothing_cached :
    (recover prices.is_redis_error none (empty_redis.get (to_string gpt)) quiet).0 ≡ ok none
unfolding recover
nothing_cached = refl

abbrev pub services : Services Desk
services = record {
  cost = prices;
  tracer = record {
    spans = λ w. w.spans;
    set_spans = λ spans w. record w { spans = spans };
    clock = λ w. w.clock;
    print_length = λ n. "n";
  };
  has_database = false;
  parse_uuid = λ s. none;
  routes = λ w. [];
  outage = λ w. none;
  digest = λ s. 0;
  has_background_jobs = false;
  record_request_metrics = λ route t r w. w;
  spawn = λ task w. record w { tasks = task ∷ w.tasks };
  clock = λ w. w.clock;
  print_cost = λ n. "0";
}

-- A provider that gives this outcome.
abbrev giving : Result ChatResponse → Provider Desk
giving outcome = record {
  name = "openai";
  max_retries = 0;
  supports_model = λ m. true;
  complete_impl = λ r w. (outcome, tick w);
  stream_impl = λ r w. (record { chunks = []; ended = none }, w);
  count_tokens = λ r t w. (ok two_tokens, w);
  circuit = λ w. w.breaker;
  set_circuit = λ b w. record w { breaker = b };
}

abbrev pub upstream : Result ChatResponse → Upstream Desk
upstream outcome = record {
  runtime = record {
    now = λ w. w.clock;
    sleep = λ d w. record w { clock = w.clock + d };
    uniform = λ n w. (0, w);
  };
  settings = record {
    openai_api_key = some "k";
    anthropic_api_key = none;
    provider_fallback_chain = "openai" ∷ [];
    provider_model_fallback_map = [];
  };
  providers = giving outcome ∷ [];
}

abbrev pub first_call : Call
first_call = record { trace_id = "t"; tenant_id = "t1"; api_key_id = none }

pub hello_cached : looked_up services (layers (some greeting)) first_call hello quiet ≡ (
  ok (some greeting, exact_hit),
  (looked_up services (layers (some greeting)) first_call hello quiet).1,
)
unfolding apply_adapter_route span lookup
hello_cached = refl

abbrev pub after_hit : Desk
after_hit = (looked_up services (layers (some greeting)) first_call hello quiet).1

abbrev pub hello_routed : ChatRequest
hello_routed = routed services first_call hello quiet

abbrev given_hit : ChatResponse
given_hit =
    answer first_call hello_routed exact_hit (services.clock after_hit - services.clock quiet) 0
      greeting

hit_answers_example :
    ((exact_hit ≡ exact_hit) ⊎ (exact_hit ≡ semantic_hit))
    × (handle_chat_completion services
          (layers (some greeting))
          (upstream (ok greeting))
          first_call
          hello
          quiet
        ≡ (ok given_hit, recorded services first_call hello_routed given_hit after_hit))
hit_answers_example =
    hit_answers services (layers (some greeting)) (upstream (ok greeting)) first_call hello quiet
      after_hit greeting exact_hit hello_cached

abbrev pub bypassing : ChatRequest
bypassing = record hello { cache_bypass = true }

bypass_ignores_caches_example :
    handle_chat_completion services
      (layers none)
      (upstream (ok greeting))
      first_call
      bypassing
      quiet
    ≡ handle_chat_completion
        (without_backfill services)
        (layers (some greeting))
        (upstream (ok greeting))
        first_call
        bypassing
        quiet
bypass_ignores_caches_example =
    bypass_ignores_caches services (layers none) (layers (some greeting)) (upstream (ok greeting))
      first_call bypassing quiet refl

-- The worlds along a miss.
abbrev pub missed : Desk
missed = (looked_up services (layers none) first_call hello quiet).1

abbrev answered : Result ChatResponse → Desk
answered outcome =
    (called services (layers none) (upstream outcome) first_call hello hello_routed missed).1

pub hello-missed :
    looked_up services (layers none) first_call hello quiet ≡ (ok (none, miss), missed)
unfolding apply_adapter_route span lookup
hello-missed = refl

lock_won : acquire_coalescing_lock (layers none) hello_routed "t1" missed ≡ (ok true, missed)
unfolding acquire_coalescing_lock
lock_won = refl

lock_released : (w : Desk) → release_coalescing_lock (layers none) hello_routed "t1" w ≡ (ok tt, w)
unfolding release_coalescing_lock
lock_released w = refl

abbrev down : Exn
down = all_exhausted (("openai", timeout) ∷ [])

upstream-down :
    called services
      (layers none)
      (upstream (err (provider timeout)))
      first_call
      hello
      hello_routed
      missed
    ≡ (err down, answered (err (provider timeout)))
unfolding span Routing.complete Resilient.complete apply_adapter_route Routing.resolve_attempts
    find_supporting try_get new allow_request record_failure Routing.attempt_request lookup
upstream-down = refl

miss_raises_example :
    handle_chat_completion services
      (layers none)
      (upstream (err (provider timeout)))
      first_call
      hello
      quiet
    ≡ (err down, answered (err (provider timeout)))
miss_raises_example =
    miss_raises services (layers none) (upstream (err (provider timeout))) first_call hello quiet
      missed missed (answered (err (provider timeout))) (answered (err (provider timeout))) down
      hello-missed lock_won upstream-down (lock_released (answered (err (provider timeout))))

upstream_up :
    called services (layers none) (upstream (ok greeting)) first_call hello hello_routed missed
    ≡ (ok greeting, answered (ok greeting))
unfolding span Routing.complete Resilient.complete apply_adapter_route Routing.resolve_attempts
    find_supporting try_get new allow_request record_success Routing.attempt_request lookup
upstream_up = refl

abbrev paid : Desk
paid =
    (priced services (layers none) (upstream (ok greeting)) first_call hello greeting
      (answered (ok greeting))).1

greeting-priced :
    priced services
      (layers none)
      (upstream (ok greeting))
      first_call
      hello
      greeting
      (answered (ok greeting))
    ≡ (ok 0, paid)
unfolding span calculate_cost_usd get_active_price
greeting-priced = refl

abbrev served : Desk
served = services.spawn (backfill hello_routed (record greeting { cost_usd = 0 }) "t1") paid

abbrev given : ChatResponse
given =
    answer first_call hello_routed miss (services.clock served - services.clock quiet) 0 greeting

abbrev finished : Desk
finished = recorded services first_call hello_routed given served

hello_served :
    handle_chat_completion services (layers none) (upstream (ok greeting)) first_call hello quiet
    ≡ (ok given, finished)
unfolding handle_chat_completion span Routing.complete Resilient.complete apply_adapter_route
    Routing.resolve_attempts find_supporting try_get new allow_request record_success
    Routing.attempt_request lookup acquire_coalescing_lock release_coalescing_lock
    calculate_cost_usd get_active_price
hello_served = refl

miss_serves_example :
    (response : ChatResponse) × (cost : ℕ) × (w3 w4 w5 : Desk) × (called services
        (layers none)
        (upstream (ok greeting))
        first_call
        hello
        hello_routed
        missed
      ≡ (ok response, w3))
    × (release_coalescing_lock (layers none) hello_routed "t1" w3 ≡ (ok tt, w4))
    × (priced services (layers none) (upstream (ok greeting)) first_call hello response w4
        ≡ (ok cost, w5))
    × (let stored = record response { cost_usd = cost } in
        let w6 = services.spawn (backfill hello_routed stored "t1") w5 in
        (given
          ≡ answer first_call hello_routed miss
              (services.clock w6 - services.clock quiet)
              cost
              response)
        × (finished ≡ recorded services first_call hello_routed given w6))
miss_serves_example =
    miss_serves services (layers none) (upstream (ok greeting)) first_call hello quiet missed missed
      finished given hello-missed lock_won hello_served
