-- ===== src/Providers/Breaker/Trace.antt =====
-- The circuit breaker of providers/base.py over any interleaving of the calls that tasks make on
-- it, against a description by the failures since the last success.
use llmops_gateway.Prelude.{
  ℕ, ◌+◌, ◌≤◌, ◌<◌, ◌≡◌, refl, Bool, true, not, ◌&&◌, Option, none, some, List, [], ◌∷◌, leb, arith,
  if◌then◌else◌, ap, ◌∙◌, All,
}
use llmops_gateway.Providers.Breaker.{
  closed, opened, CircuitBreaker, new, cooled_down, allow_request, record_success, record_failure,
}

-- One call by some task, with the clock at that moment.
pub data Event : Type 0 where
  asked success failure : ℕ → Event

pub step : CircuitBreaker → Event → CircuitBreaker
unfolding allow_request record_success record_failure
step b (asked now) = (allow_request now b).1
step b (success now) = record_success b
step b (failure now) = record_failure now b

pub run : CircuitBreaker → List Event → CircuitBreaker
run b [] = b
run b (e ∷ es) = run (step b e) es

-- What matters of a history: the failures since the last success, and when the last one was.
pub record Streak : Type 0 where
  pub failures : ℕ
  pub last : Option ℕ

abbrev pub fresh : Streak
fresh = record { failures = 0; last = none }

abbrev pub note : Streak → Event → Streak
note s (asked now) = s
note s (success now) = fresh
note s (failure now) = record { failures = s.failures + 1; last = some now }

abbrev pub streak : Streak → List Event → Streak
streak s [] = s
streak s (e ∷ es) = streak (note s e) es

-- The breaker that a streak stands for.
abbrev pub breaker_of : ℕ → ℕ → Streak → CircuitBreaker
breaker_of threshold cooldown s =
    let tripped = leb threshold s.failures in
    record {
      failure_threshold = threshold;
      cooldown = cooldown;
      consecutive_failures = s.failures;
      state = if tripped then opened else closed;
      opened_at = if tripped then s.last else none;
    }

step-breaker_of :
    (threshold cooldown : ℕ) (s : Streak) (e : Event)
    → 0 < threshold
    → step (breaker_of threshold cooldown s) e ≡ breaker_of threshold cooldown (note s e)
unfolding step
step-breaker_of threshold cooldown s (asked now) h = refl
step-breaker_of threshold cooldown s (success now) h = ground arith
step-breaker_of threshold cooldown s (failure now) h = ground arith

run-breaker_of :
    (threshold cooldown : ℕ) (s : Streak) (es : List Event)
    → 0 < threshold
    → run (breaker_of threshold cooldown s) es ≡ breaker_of threshold cooldown (streak s es)
unfolding run
run-breaker_of threshold cooldown s [] h = refl
run-breaker_of threshold cooldown s (e ∷ es) h =
    ap (λ b. run b es) (step-breaker_of threshold cooldown s e h)
    ∙ run-breaker_of threshold cooldown (note s e) es h

-- With a positive threshold, after any calls in any order the breaker is the one that the
-- failures since the last success determine: it is open exactly when they reach the threshold,
-- and it was opened at the last of them.
pub run-new :
    (threshold cooldown : ℕ) (es : List Event)
    → 0 < threshold
    → run (new threshold cooldown) es ≡ breaker_of threshold cooldown (streak fresh es)
run-new threshold cooldown es h =
    let start : new threshold cooldown ≡ breaker_of threshold cooldown fresh =
      unfold new in ground arith in
    ap (λ b. run b es) start ∙ run-breaker_of threshold cooldown fresh es h

-- With a positive threshold, a request is refused exactly when the failures since the last
-- success reach the threshold and the last of them is less than the cooldown ago.
pub allow_request_exact :
    (threshold cooldown now : ℕ) (es : List Event)
    → 0 < threshold
    → (allow_request now (run (new threshold cooldown) es)).0
      ≡ not (
          leb threshold (streak fresh es).failures
          && not (cooled_down now cooldown (streak fresh es).last))
unfolding allow_request
allow_request_exact threshold cooldown now es h =
    rw (run-new threshold cooldown es h) (ground arith)

-- The answers to requests that ask one after the other, with no outcome recorded in between.
pub admissions : CircuitBreaker → List ℕ → List Bool
admissions b [] = []
admissions b (now ∷ times) =
    let (allowed, b') = allow_request now b in allowed ∷ admissions b' times

-- Of an open breaker, every request that asks after the cooldown is admitted, however many ask
-- before the first outcome is recorded.
pub half_open_admits-All :
    (b : CircuitBreaker) (t : ℕ) (times : List ℕ)
    → b.state ≡ opened
    → b.opened_at ≡ some t
    → All (λ now. t + b.cooldown ≤ now) times
    → All (λ allowed. allowed ≡ true) (admissions b times)
unfolding admissions allow_request
half_open_admits-All b t [] o at late = tt
half_open_admits-All b t (now ∷ times) o at late =
    (ground arith, half_open_admits-All b t times o at late.1)
