-- ===== src/Adapters/Provided.antt =====
-- The OpenAI adapter as a provider behind the circuit breaker and the retries of
-- `BaseLLMProvider`, whose `stream` calls `_stream_impl` of the adapter.
use llmops_gateway.Prelude.{ℕ, zero, suc, ◌≡◌, String, true, Option, none, some, List, ◌++◌, All}
use llmops_gateway.Domain.Chat.{ChatRequest}
use llmops_gateway.Errors.{pure}
use llmops_gateway.Json.{Json}
use llmops_gateway.Providers.Breaker.{CircuitBreaker}
use llmops_gateway.Providers.Resilient.{
  Provider, Runtime, allowed, succeeded, settle_stream, stream_loop, stream,
}
use llmops_gateway.Adapters.Http.{Client, HttpFailure, HttpResponse, opened}
use llmops_gateway.Adapters.Sse.{ClientLaws}
use llmops_gateway.Adapters.OpenAi
use llmops_gateway.Adapters.OpenAi.Frames.{
  Sent, frames_of, texts_of, IsSent, tail_lines, stream_impl-frames_of,
}

-- The breaker of the provider and where it lives, and how many tokens a text has for a model.
pub record Setup (W : Type 0) : Type 0 where
  pub client : Client W
  pub max_retries : ℕ
  pub encode : String → String → ℕ
  pub circuit : W → CircuitBreaker
  pub set_circuit : CircuitBreaker → W → W

abbrev pub open_ai_provider : {W : Type 0} → Setup W → Provider W
open_ai_provider s = record {
  name = "openai";
  max_retries = s.max_retries;
  supports_model = OpenAi.supports_model;
  complete_impl = OpenAi.complete_impl s.client;
  stream_impl = OpenAi.stream_impl s.client;
  count_tokens =
      λ request completion_text. pure (OpenAi.count_tokens s.encode request completion_text);
  circuit = s.circuit;
  set_circuit = s.set_circuit;
}

module _ {W : Type 0} (rt : Runtime W) (p : Provider W) where
  -- An attempt that ends without an exception is the last.
  stream_loop_ended :
      (n attempt : ℕ) (request : ChatRequest) (w w' : W) (chunks : List String)
      → p.stream_impl request w ≡ (record { chunks = chunks; ended = none }, w')
      → stream_loop rt p n attempt request w
        ≡ (record { chunks = chunks; ended = none }, succeeded rt p w')
  unfolding stream_loop settle_stream
  stream_loop_ended zero attempt request w w' chunks h = rw h
  stream_loop_ended (suc n) attempt request w w' chunks h = rw h

module _ {W : Type 0} (rt : Runtime W) (s : Setup W) (dumps : Json → String) where
  -- Where the breaker lets a call through and the server answers 200, sends in any order events that
  -- carry a text or no content, events with the empty list of choices or without choices, blank
  -- lines, lines of data that are no JSON and other lines, with the JSON read back as it was written,
  -- and then the mark of the end: `stream` of the provider yields exactly the texts that the events
  -- carry that are not empty, in their order. It makes one attempt, whatever
  -- follows the mark, and the breaker records a success.
  pub stream-frames_of :
      (laws : ClientLaws s.client) (request : ChatRequest) (w w' : W) (head : HttpResponse)
      (sent : List Sent) (rest : List String) (cut_off : Option HttpFailure)
      → allowed rt (open_ai_provider s) w ≡ true
      → head.status_code ≡ 200
      → All (IsSent s.client dumps) sent
      → s.client.stream "/chat/completions" (OpenAi.build_payload request true) w ≡ (
        opened (record {
          head = head;
          lines = frames_of dumps sent ++ tail_lines (some rest);
          cut_off = cut_off;
        }),
        w',
      )
      → stream rt (open_ai_provider s) request w
        ≡ (record { chunks = texts_of sent; ended = none }, succeeded rt (open_ai_provider s) w')
  unfolding stream
  stream-frames_of laws request w w' head sent rest cut_off lets status all answer = rw lets (
      stream_loop_ended rt (open_ai_provider s) s.max_retries 0 request w w' (texts_of sent) (
        stream_impl-frames_of s.client dumps laws request w w' head sent (some rest) cut_off status
          all answer))
