-- ===== src/Providers/Resilient.antt =====
-- `compute_backoff_delay` and `BaseLLMProvider` of providers/base.py over a world `W`: everything
-- that the process and its environment hold. `complete_impl` and `stream_impl` may change any of
-- it, so whatever other tasks do while a call waits is covered.
--
-- A stream is the chunks that its consumer received and how it ended. `retries_left` is
-- `max_retries - attempt`, so the test `attempt >= self._max_retries` is that it is zero.
-- Times are milliseconds.
pub mod Attempts
pub mod Chunks
use llmops_gateway.Prelude.{
  ℕ, zero, suc, ◌+◌, ◌*◌, ◌^◌, min, String, Bool, true, false, not, ◌||◌, Option, none, some, List,
  [], ◌∷◌, ◌++◌, if◌then◌else◌,
}
use llmops_gateway.Prelude.Int.{ℤ, pos_part}
use llmops_gateway.Domain.Chat.{ChatRequest, ChatResponse, TokenUsage}
use llmops_gateway.Errors.{
  ProviderError, unavailable, retryable, retry_after, Exn, provider, Result, ok, err, Exec,
}
use llmops_gateway.Providers.Breaker.{CircuitBreaker, allow_request, record_success, record_failure}

-- The constants DEFAULT_BACKOFF_BASE_SECONDS, DEFAULT_BACKOFF_MAX_SECONDS and
-- DEFAULT_BACKOFF_JITTER_SECONDS.
abbrev pub backoff_base : ℕ
backoff_base = 500

abbrev pub backoff_max : ℕ
backoff_max = 20000

abbrev pub backoff_jitter : ℕ
backoff_jitter = 500

-- `drawn` is the result of `random.uniform`.
unfoldable pub compute_backoff_delay : ℕ → Option ℤ → ℕ → ℕ
compute_backoff_delay attempt none drawn = min backoff_max (backoff_base * 2 ^ attempt) + drawn
compute_backoff_delay attempt (some after) drawn = pos_part after

-- What a consumer of an async generator sees: the chunks, and the exception that ended it, if any.
pub record Streamed : Type 0 where
  pub chunks : List String
  pub ended : Option Exn

-- A provider adapter with its circuit breaker, which lives in the world.
pub record Provider (W : Type 0) : Type 0 where
  pub name : String
  pub max_retries : ℕ
  pub supports_model : String → Bool
  pub complete_impl : ChatRequest → Exec W ChatResponse
  pub stream_impl : ChatRequest → W → Streamed × W
  pub count_tokens : ChatRequest → String → Exec W TokenUsage
  pub circuit : W → CircuitBreaker
  pub set_circuit : CircuitBreaker → W → W

-- The clock, the random source and `asyncio.sleep`.
pub record Runtime (W : Type 0) : Type 0 where
  pub now : W → ℕ
  pub sleep : ℕ → W → W
  pub uniform : ℕ → W → ℕ × W

module _ {W : Type 0} (rt : Runtime W) (p : Provider W) where
  unfoldable pub allowed : W → Bool
  allowed w = (allow_request (rt.now w) (p.circuit w)).0

  unfoldable pub succeeded : W → W
  succeeded w = p.set_circuit (record_success (p.circuit w)) w

  unfoldable pub failed : W → W
  failed w = p.set_circuit (record_failure (rt.now w) (p.circuit w)) w

  -- A number is drawn only where the upstream gives no wait.
  abbrev pub wait : ℕ → Option ℤ → W → W
  wait attempt (some after) w = rt.sleep (compute_backoff_delay attempt (some after) 0) w
  wait attempt none w =
      let (drawn, w') = rt.uniform backoff_jitter w in
      rt.sleep (compute_backoff_delay attempt none drawn) w'

  -- The wait before another attempt.
  unfoldable pub back_off : ℕ → ProviderError → W → W
  back_off attempt e w = wait attempt (retry_after e) w

  -- The outcome of one attempt; `again` is the rest of the loop.
  unfoldable pub settle :
      Bool
      → (ProviderError → W → Result ChatResponse × W)
      → Result ChatResponse
      → W
      → Result ChatResponse × W
  unfolding failed succeeded
  settle last again (ok response) w = (ok response, succeeded w)
  settle last again (err (provider e)) w =
      if not (retryable e) || last then (err (provider e), failed w) else again e (failed w)
  settle last again (err e) w = (err e, w)

  unfoldable pub complete_loop : ℕ → ℕ → ChatRequest → Exec W ChatResponse
  unfolding settle back_off
  complete_loop zero attempt request w =
      let (r, w') = p.complete_impl request w in settle true (λ e w''. (err (provider e), w'')) r w'
  complete_loop (suc retries_left) attempt request w =
      let (r, w') = p.complete_impl request w in
      settle false
        (λ e w''. complete_loop retries_left (attempt + 1) request (back_off attempt e w'')) r w'

  unfoldable pub complete : ChatRequest → Exec W ChatResponse
  unfolding complete_loop allowed
  complete request w =
      if allowed w
      then complete_loop p.max_retries 0 request w
      else (err (provider (unavailable p.name)), w)

  abbrev pub yielded_any : List String → Bool
  yielded_any [] = false
  yielded_any (chunk ∷ chunks) = true

  -- The chunks of an attempt stand before those of the attempts after it.
  abbrev pub after_chunks : List String → Streamed × W → Streamed × W
  after_chunks chunks (s, w) = (record { chunks = chunks ++ s.chunks; ended = s.ended }, w)

  unfoldable pub settle_stream :
      Bool → (ProviderError → W → Streamed × W) → List String → Option Exn → W → Streamed × W
  unfolding failed succeeded
  settle_stream last again chunks none w = (record { chunks = chunks; ended = none }, succeeded w)
  settle_stream last again chunks (some (provider e)) w =
      if yielded_any chunks || not (retryable e) || last
      then (record { chunks = chunks; ended = some (provider e) }, failed w)
      else after_chunks chunks (again e (failed w))
  settle_stream last again chunks (some e) w = (record { chunks = chunks; ended = some e }, w)

  unfoldable pub stream_loop : ℕ → ℕ → ChatRequest → W → Streamed × W
  unfolding settle_stream back_off
  stream_loop zero attempt request w =
      let (s, w') = p.stream_impl request w in
      settle_stream true (λ e w''. (record { chunks = []; ended = some (provider e) }, w''))
        s.chunks s.ended w'
  stream_loop (suc retries_left) attempt request w =
      let (s, w') = p.stream_impl request w in
      settle_stream false
        (λ e w''. stream_loop retries_left (attempt + 1) request (back_off attempt e w'')) s.chunks
        s.ended w'

  unfoldable pub stream : ChatRequest → W → Streamed × W
  unfolding stream_loop allowed
  stream request w =
      if allowed w
      then stream_loop p.max_retries 0 request w
      else (record { chunks = []; ended = some (provider (unavailable p.name)) }, w)
