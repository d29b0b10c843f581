-- ===== src/Providers/Resilient/Chunks.antt =====
-- What the consumer of `BaseLLMProvider.stream` of providers/base.py receives.
use llmops_gateway.Prelude.{
  ℕ, zero, suc, ◌+◌, ◌≡◌, refl, Bool, true, false, Option, none, some, List, [], ◌∷◌, String,
  Bool-cases, inl, inr,
}
use llmops_gateway.Domain.Chat.{ChatRequest}
use llmops_gateway.Errors.{ProviderError, retryable, provider, Exn}
use llmops_gateway.Providers.Resilient.{
  Streamed, Provider, Runtime, allowed, failed, settle_stream, stream_loop, stream, back_off,
}

module _ {W : Type 0} (rt : Runtime W) (p : Provider W) where
  -- The consumer saw exactly one attempt, from its first chunk to its end.
  abbrev OneAttempt : ChatRequest → Streamed × W → Type 0
  OneAttempt request x = (w : W) × (x.0 ≡ (p.stream_impl request w).0)

  settle_stream-OneAttempt :
      (request : ChatRequest) (last : Bool) (again : ProviderError → W → Streamed × W) (w w' : W)
      (chunks : List String) (ended : Option Exn)
      → record { chunks = chunks; ended = ended } ≡ (p.stream_impl request w).0
      → ((e : ProviderError) (w'' : W) → last ≡ false → OneAttempt request (again e w''))
      → OneAttempt request (settle_stream rt p last again chunks ended w')
  unfolding settle_stream
  settle_stream-OneAttempt request last again w w' chunks none s more = (w, s)
  settle_stream-OneAttempt request last again w w' (c ∷ cs) (some (provider e)) s more = (w, s)
  settle_stream-OneAttempt request true again w w' [] (some (provider e)) s more =
      elim (Bool-cases (retryable e)) [
        | inl transient ↦ rw transient (w, s)
        | inr fatal ↦ rw fatal (w, s)
      ]
  settle_stream-OneAttempt request false again w w' [] (some (provider e)) s more =
      elim (Bool-cases (retryable e)) [
        | inl transient ↦ rw transient (more e (failed rt p w') refl)
        | inr fatal ↦ rw fatal (w, s)
      ]
  settle_stream-OneAttempt request last again w w' chunks (some x) s more = (w, s)

  stream_loop-OneAttempt :
      (left attempt : ℕ) (request : ChatRequest) (w : W)
      → OneAttempt request (stream_loop rt p left attempt request w)
  unfolding stream_loop
  stream_loop-OneAttempt zero attempt request w =
      settle_stream-OneAttempt request true
        (λ e w''. (record { chunks = []; ended = some (provider e) }, w'')) w
        (p.stream_impl request w).1 (p.stream_impl request w).0.chunks
        (p.stream_impl request w).0.ended refl (λ e w'' h. cc)
  stream_loop-OneAttempt (suc left) attempt request w =
      settle_stream-OneAttempt request false
        (λ e w''. stream_loop rt p left (attempt + 1) request (back_off rt p attempt e w'')) w
        (p.stream_impl request w).1 (p.stream_impl request w).0.chunks
        (p.stream_impl request w).0.ended refl
        (λ e w'' h. stream_loop-OneAttempt left (attempt + 1) request (back_off rt p attempt e w''))

  -- Of a stream that the circuit breaker admits, the consumer receives exactly the chunks and the
  -- end of one single attempt: no retry repeats or mixes output.
  pub stream-OneAttempt :
      (request : ChatRequest) (w : W)
      → allowed rt p w ≡ true
      → (w' : W) × ((stream rt p request w).0 ≡ (p.stream_impl request w').0)
  unfolding stream
  stream-OneAttempt request w h = rw h (stream_loop-OneAttempt p.max_retries 0 request w)
