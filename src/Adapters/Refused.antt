-- ===== src/Adapters/Refused.antt =====
-- How the adapters answer when the upstream server does not.
use llmops_gateway.Prelude.{
  true, false, ◌||◌, ◌≡◌, some, ◌==◌, nat_eq, leb, ◌≤◌, le→leb, arith, [], if◌then◌else◌,
}
use llmops_gateway.Domain.Chat.{ChatRequest}
use llmops_gateway.Errors.{ProviderError, rate_limited, response, retryable, provider, err}
use llmops_gateway.Adapters.Http.{
  Client, HttpResponse, HttpLines, answered, opened, post, status_error, raise_for_status,
  retry_after_from_headers,
}
use llmops_gateway.Adapters.Lines.{read_stream, read_outcome}
use llmops_gateway.Adapters.OpenAi
use llmops_gateway.Adapters.Anthropic

-- The error for a status that no adapter accepts.
abbrev pub error_of : {W : Type 0} → Client W → HttpResponse → ProviderError
error_of c r =
    if r.status_code == 429
    then rate_limited (retry_after_from_headers c r.retry_after)
    else response r.status_code

module _ {W : Type 0} (c : Client W) where
  status_error-error_of :
      (r : HttpResponse) → 400 ≤ r.status_code → status_error c r ≡ some (error_of c r)
  unfolding status_error
  status_error-error_of r h = rw (le→leb 400 r.status_code h) (ground arith)

  error_of-retryable :
      (r : HttpResponse)
      → retryable (error_of c r) ≡ (r.status_code == 429 || leb 500 r.status_code)
  error_of-retryable r = ground arith

  raise_for_status-refused :
      (r : HttpResponse)
      → 400 ≤ r.status_code
      → raise_for_status c r ≡ err (provider (error_of c r))
  unfolding raise_for_status
  raise_for_status-refused r h = rw (status_error-error_of r h)

  -- Where the server answers with a status from 400 on, both adapters raise the same error, the
  -- body is not read and no id is drawn, and the error is worth another attempt exactly when the
  -- status is 429 or from 500 on.
  pub complete_impl-refused :
      (request : ChatRequest) (w w' w'' : W) (r : HttpResponse)
      → 400 ≤ r.status_code
      → c.post "/chat/completions" (OpenAi.build_payload request false) w ≡ (answered r, w')
      → c.post "/messages" (Anthropic.build_payload request false) w ≡ (answered r, w'')
      → (OpenAi.complete_impl c request w ≡ (err (provider (error_of c r)), w'))
        × (Anthropic.complete_impl c request w ≡ (err (provider (error_of c r)), w''))
        × (retryable (error_of c r) ≡ (r.status_code == 429 || leb 500 r.status_code))
  unfolding OpenAi.complete_impl OpenAi.read_answer OpenAi.finish Anthropic.complete_impl
      Anthropic.read_response post
  complete_impl-refused request w w' w'' r s o a = (
    rw (o, raise_for_status-refused r s),
    rw (a, raise_for_status-refused r s),
    error_of-retryable r,
  )

  -- The same of a stream: nothing is yielded.
  pub stream_impl-refused :
      (request : ChatRequest) (w w' w'' : W) (r : HttpLines)
      → 400 ≤ r.head.status_code
      → c.stream "/chat/completions" (OpenAi.build_payload request true) w ≡ (opened r, w')
      → c.stream "/messages" (Anthropic.build_payload request true) w ≡ (opened r, w'')
      → (OpenAi.stream_impl c request w
          ≡ (record { chunks = []; ended = some (provider (error_of c r.head)) }, w'))
        × (Anthropic.stream_impl c request w
            ≡ (record { chunks = []; ended = some (provider (error_of c r.head)) }, w''))
  unfolding OpenAi.stream_impl Anthropic.stream_impl read_outcome read_stream
  stream_impl-refused request w w' w'' r s o a =
      let n : (r.head.status_code == 200) ≡ false = ground arith in
      (rw (o, n, raise_for_status-refused r.head s), rw (a, n, raise_for_status-refused r.head s))
