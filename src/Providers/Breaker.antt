-- ===== src/Providers/Breaker.antt =====
-- `CircuitBreaker` of providers/base.py. `time.monotonic()` is an argument, in milliseconds; it
-- never falls, so the truncated difference is exact. The `asyncio.Lock` makes each method atomic.
pub mod Trace
use llmops_gateway.Prelude.{
  ℕ, zero, suc, ◌+◌, ◌-◌, Bool, true, false, not, ◌&&◌, Option, none, some, leb, if◌then◌else◌,
}

-- `opened` is `CircuitState.OPEN`.
pub data CircuitState : Type 0 where
  closed opened half_open : CircuitState

abbrev pub is_opened : CircuitState → Bool
is_opened closed = false
is_opened opened = true
is_opened half_open = false

abbrev pub is_half_open : CircuitState → Bool
is_half_open closed = false
is_half_open opened = false
is_half_open half_open = true

pub record CircuitBreaker : Type 0 where
  pub failure_threshold : ℕ
  pub cooldown : ℕ
  pub consecutive_failures : ℕ
  pub state : CircuitState
  pub opened_at : Option ℕ

unfoldable pub new : ℕ → ℕ → CircuitBreaker
new failure_threshold cooldown = record {
  failure_threshold = failure_threshold;
  cooldown = cooldown;
  consecutive_failures = 0;
  state = closed;
  opened_at = none;
}

-- The cooldown test, false where `_opened_at` is `None`.
abbrev pub cooled_down : ℕ → ℕ → Option ℕ → Bool
cooled_down now cooldown none = false
cooled_down now cooldown (some at) = leb cooldown (now - at)

unfoldable pub effective_state : ℕ → CircuitBreaker → CircuitState
effective_state now b =
    if is_opened b.state && cooled_down now b.cooldown b.opened_at then half_open else b.state

-- The breaker comes back too: the method only reads it.
unfoldable pub allow_request : ℕ → CircuitBreaker → Bool × CircuitBreaker
unfolding effective_state
allow_request now b = (not (is_opened (effective_state now b)), b)

unfoldable pub record_success : CircuitBreaker → CircuitBreaker
record_success b = record b { consecutive_failures = 0; state = closed; opened_at = none }

unfoldable pub record_failure : ℕ → CircuitBreaker → CircuitBreaker
unfolding effective_state
record_failure now b =
    let counted = record b { consecutive_failures = b.consecutive_failures + 1 } in
    if is_half_open (effective_state now counted)
    then record counted { state = opened; opened_at = some now }
    else if leb counted.failure_threshold counted.consecutive_failures
    then record counted { state = opened; opened_at = some now }
    else counted
