-- ===== src/Tests/Providers.antt =====
-- A provider whose upstream times out until its third call.
use llmops_gateway.Prelude.{
  ℕ, ◌+◌, ◌≡◌, String, true, false, none, some, [], ◌∷◌, refl, ltb, if◌then◌else◌,
}
use llmops_gateway.Domain.Chat.{ChatRequest, ChatResponse, user, assistant, miss}
use llmops_gateway.Errors.{timeout, provider, ok, err}
use llmops_gateway.Providers.Breaker.{CircuitBreaker, new, allow_request}
use llmops_gateway.Providers.Resilient.{Provider, Runtime, allowed, complete, stream}
use llmops_gateway.Providers.Resilient.Attempts.{Counts, Accounted, complete-Accounted}
use llmops_gateway.Providers.Resilient.Chunks.{stream-OneAttempt}

pub record Upstream : Type 0 where
  pub calls : ℕ
  pub clock : ℕ
  pub breaker : CircuitBreaker

abbrev pub idle : Upstream
idle = record { calls = 0; clock = 100; breaker = new 5 30000 }

abbrev pub hello : ChatRequest
hello = record {
  model = "gpt-4o";
  messages = record { role = user; content = "hello" } ∷ [];
  temperature = record { repr = "1.0" };
  max_tokens = none;
  top_p = record { repr = "1.0" };
  stream = false;
  stop = none;
  cache_bypass = false;
  provider_override = none;
  adapter_id = none;
  model_alias = none;
  adapter_stage = none;
}

abbrev pub greeting : ChatResponse
greeting = record {
  id = "r1";
  model = "gpt-4o";
  provider = "openai";
  message = record { role = assistant; content = "hi" };
  usage = record { input_tokens = 1; output_tokens = 1 };
  cost_usd = 0;
  cache_status = miss;
  trace_id = "t1";
  created_at = 0;
  latency_ms = 0;
  adapter_id = none;
  model_alias = none;
  adapter_stage = none;
}

abbrev pub steady : Runtime Upstream
steady = record {
  now = λ w. w.clock;
  sleep = λ d w. record w { clock = w.clock + d };
  uniform = λ bound w. (0, w);
}

abbrev pub called : Upstream → Upstream
called w = record w { calls = w.calls + 1 }

-- A provider of this name whose first `n` calls time out.
abbrev pub flaky : String → ℕ → Provider Upstream
flaky name n = record {
  name = name;
  max_retries = 2;
  supports_model = λ m. true;
  complete_impl = λ r w. (if ltb w.calls n then err (provider timeout) else ok greeting, called w);
  stream_impl = λ r w. (
    if ltb w.calls n
        then record { chunks = []; ended = some (provider timeout) }
        else record { chunks = "h" ∷ "i" ∷ []; ended = none },
    called w,
  );
  count_tokens = λ r t w. (ok (record { input_tokens = 1; output_tokens = 1 }), w);
  circuit = λ w. w.breaker;
  set_circuit = λ b w. record w { breaker = b };
}

flaky-Counts : Counts steady (flaky "openai" 2) (λ w. w.calls)
flaky-Counts = record {
  impl = λ r w. refl;
  set_circuit = λ b w. refl;
  sleep = λ d w. refl;
  uniform = λ bound w. refl;
}

complete-Accounted_example :
    Accounted steady
      (flaky "openai" 2)
      (λ w. w.calls)
      flaky-Counts
      (allowed steady (flaky "openai" 2) idle)
      idle
      (complete steady (flaky "openai" 2) hello idle)
complete-Accounted_example =
    complete-Accounted steady (flaky "openai" 2) (λ w. w.calls) flaky-Counts hello idle

flaky-allowed : allowed steady (flaky "openai" 2) idle ≡ true
unfolding allowed allow_request new
flaky-allowed = refl

stream-OneAttempt_example :
    (w : Upstream) × ((stream steady (flaky "openai" 2) hello idle).0
      ≡ ((flaky "openai" 2).stream_impl hello w).0)
stream-OneAttempt_example = stream-OneAttempt steady (flaky "openai" 2) hello idle flaky-allowed
