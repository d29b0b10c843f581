-- ===== src/Tests/Breakers.antt =====
-- The circuit breaker of providers/base.py on concrete calls.
use llmops_gateway.Prelude.{◌≡◌, List, [], ◌∷◌, some, arith}
use llmops_gateway.Providers.Breaker.{CircuitBreaker, opened, new}
use llmops_gateway.Providers.Breaker.Trace.{
  Event, asked, success, failure, run, breaker_of, streak, fresh, run-new,
}

abbrev calls : List Event
calls = asked 5 ∷ failure 10 ∷ success 20 ∷ failure 30 ∷ failure 40 ∷ []

run-new_example : run (new 2 1000) calls ≡ breaker_of 2 1000 (streak fresh calls)
run-new_example = run-new 2 1000 calls (omega arith)

abbrev open_breaker : CircuitBreaker
open_breaker = record {
  failure_threshold = 2;
  cooldown = 1000;
  consecutive_failures = 2;
  state = opened;
  opened_at = some 40;
}
