-- ===== src/Api/Chat.antt =====
-- api/v1/chat.py over the gateway's service. `StreamingResponse` is its headers and the texts that
-- `_sse` yields, with the exception that ended it, if any.
pub mod Relay
use Prim.Native.String.{◌++◌ as append_text}
use llmops_gateway.Prelude.{
  ℕ, String, Bool, true, false, Option, none, some, or_else, truthy, List, [], ◌∷◌, ◌++◌,
  if◌then◌else◌, map,
}
use llmops_gateway.Prelude.Int.{pos}
use llmops_gateway.Domain.Chat.{ChatRequest, ChatResponse, Float}
use llmops_gateway.Errors.{Exn, Result, ok, err, Exec, ◌>>=◌, pure}
use llmops_gateway.Json.{Json, null, int, float, text, obj, arr, Fields, fields, items}
use llmops_gateway.Middleware.Access.{Request, default_tenant_id}
use llmops_gateway.CacheService.{CacheLayers}
use llmops_gateway.Gateway.{Call, Upstream, Services, handle_chat_completion, status_text}
use llmops_gateway.Gateway.Streams.{ChatStream, StreamTools, handle_chat_completion_stream}

-- `f"{cost:.6f}"`, the JSON number of a cost, and `json.dumps`.
pub record Writer : Type 0 where
  pub print_cost : ℕ → String
  pub cost_number : ℕ → Float
  pub dumps : Json → String

unfoldable pub resolve_trace_id : Request → String
resolve_trace_id request = or_else request.trace_id ""

unfoldable pub resolve_tenant_id : Request → String
resolve_tenant_id request =
    if truthy request.tenant_id then or_else request.tenant_id "" else default_tenant_id

unfoldable pub resolve_api_key_id : Request → Option String
resolve_api_key_id request = request.api_key_id

unfoldable pub call_of : Request → Call
unfolding resolve_trace_id resolve_tenant_id resolve_api_key_id
call_of request = record {
  trace_id = resolve_trace_id request;
  tenant_id = resolve_tenant_id request;
  api_key_id = resolve_api_key_id request;
}

pub record Streaming : Type 0 where
  pub headers : List (String × String)
  pub frames : List String
  pub ended : Option Exn

pub data Reply : Type 0 where
  completion : List (String × String) → ChatResponse → Reply
  streaming : Streaming → Reply

-- `if value: headers[name] = value`
abbrev pub header_if : String → Option String → List (String × String)
header_if name value = if truthy value then (name, or_else value "") ∷ [] else []

abbrev pub alias_headers : ChatResponse → List (String × String)
alias_headers result =
    if truthy result.model_alias
    then ("X-Model-Alias", or_else result.model_alias "") ∷ ("X-Base-Model", result.model) ∷ []
    else []

unfoldable pub headers_of : Writer → ChatResponse → List (String × String)
headers_of writer result =
    ("X-Trace-Id", result.trace_id)
    ∷ ("X-Cache-Status", status_text result.cache_status)
    ∷ ("X-Request-Cost", writer.print_cost result.cost_usd)
    ∷ (header_if "X-Adapter-Id" result.adapter_id
        ++ (alias_headers result ++ header_if "X-Adapter-Stage" result.adapter_stage))

abbrev pub optional_text : Option String → Json
optional_text none = null
optional_text (some s) = text s

-- The event of the `StreamMetadata`.
abbrev pub metadata_fields : Writer → ChatResponse → Fields
metadata_fields writer r = fields (
    (
      "usage",
      obj (
          fields (
            ("input_tokens", int (pos r.usage.input_tokens))
            ∷ ("output_tokens", int (pos r.usage.output_tokens))
            ∷ [])),
    )
    ∷ ("cost_usd", float (writer.cost_number r.cost_usd))
    ∷ ("cache_status", text (status_text r.cache_status))
    ∷ ("adapter_id", optional_text r.adapter_id)
    ∷ ("model_alias", optional_text r.model_alias)
    ∷ ("base_model", text r.model)
    ∷ [])

abbrev pub content_event : String → Json
content_event item = obj (
    fields (
      (
        "choices",
        arr (
            items (obj (fields (("delta", obj (fields (("content", text item) ∷ []))) ∷ [])) ∷ [])),
      )
      ∷ []))

-- `f"data: {s}\n\n"`
abbrev pub frame : String → String
frame s = append_text "data: " (append_text s "\n\n")

abbrev pub metadata_frames : Writer → Option ChatResponse → List String
metadata_frames writer none = []
metadata_frames writer (some r) = frame (writer.dumps (obj (metadata_fields writer r))) ∷ []

-- The mark of the end, if the generator gets there.
abbrev pub done_frames : Option Exn → List String
done_frames none = frame "[DONE]" ∷ []
done_frames (some e) = []

unfoldable pub sse : Writer → ChatStream → List String
sse writer s =
    map (λ item. frame (writer.dumps (content_event item))) s.chunks
    ++ (metadata_frames writer s.metadata ++ done_frames s.ended)

module _ {W : Type 0} (s : Services W) (tools : StreamTools W) (c : CacheLayers W) (u : Upstream W)
    (writer : Writer) where
  unfoldable pub completed : Request → ChatRequest → Exec W Reply
  unfolding headers_of call_of
  completed request payload = do
    result ← handle_chat_completion s c u (call_of request) payload
    pure (completion (headers_of writer result) result)

  unfoldable pub streamed : Request → ChatRequest → Exec W Reply
  unfolding sse call_of
  streamed request payload w =
      let (stream, w') = handle_chat_completion_stream s tools c u (call_of request) payload w in
      (
        ok (
            streaming (record {
              headers = ("X-Trace-Id", resolve_trace_id request) ∷ [];
              frames = sse writer stream;
              ended = stream.ended;
            })),
        w',
      )

  unfoldable pub create_chat_completion : Request → ChatRequest → Exec W Reply
  unfolding completed streamed
  create_chat_completion request payload =
      if payload.stream then streamed request payload else completed request payload
