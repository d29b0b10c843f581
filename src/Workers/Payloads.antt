-- ===== src/Workers/Payloads.antt =====
-- workers/payloads.py. A value that the source takes as it is, whatever its type, goes through a
-- parameter that leaves a text, a number or a dictionary of texts alone.
use llmops_gateway.Prelude.{
  ℕ, String, Bool, true, false, ◌≡◌, Option, none, some, List, [], ◌∷◌, is_empty, if◌then◌else◌,
}
use llmops_gateway.Prelude.Int.{pos}
use llmops_gateway.Domain.Chat.{ChatRequest, ChatResponse}
use llmops_gateway.Errors.{Result, ok, err, other}
use llmops_gateway.Errors.Fallible.{◌>>=◌}
use llmops_gateway.Json.{
  Json, Items, null, int, text, obj, arr, nil, cons, end, field, fields, get, item, is_truthy,
  default_to,
}
use llmops_gateway.Tracing.{TraceSpan}
use llmops_gateway.Traces.{Trace}

pub record Codec : Type 0 where
  pub isoformat : ℕ → String
  pub fromisoformat : Json → Result ℕ
  pub as_text : Json → String
  pub as_number : Json → ℕ
  pub as_metadata : Json → List (String × String)
  pub dump_request : ChatRequest → Json
  pub validate_request : Json → Result ChatRequest
  pub dump_response : ChatResponse → Json
  pub validate_response : Json → Result ChatResponse

abbrev pub text_values : List (String × String) → List (String × Json)
text_values [] = []
text_values ((k, v) ∷ rest) = (k, text v) ∷ text_values rest

-- What Pydantic validates is what it dumped.
abbrev pub IsValidated : Codec → Trace → Type 0
IsValidated c t =
    (c.validate_request (c.dump_request t.request) ≡ ok t.request)
    × (c.validate_response (c.dump_response t.response) ≡ ok t.response)

-- What is read is what was written.
pub record CodecLaws (c : Codec) : Type 0 where
  pub time : (t : ℕ) → c.fromisoformat (text (c.isoformat t)) ≡ ok t
  pub time_not_empty : (t : ℕ) → is_empty (c.isoformat t) ≡ false
  pub text_lem : (s : String) → c.as_text (text s) ≡ s
  pub number : (n : ℕ) → c.as_number (int (pos n)) ≡ n
  pub metadata : (m : List (String × String)) → c.as_metadata (obj (fields (text_values m))) ≡ m

abbrev pub optional_text : Option String → Json
optional_text none = null
optional_text (some s) = text s

-- `None`, also where the key is missing.
abbrev pub is_absent : Option Json → Bool
is_absent none = true
is_absent (some null) = true
is_absent (some (text s)) = false
is_absent (some (obj fs)) = false
is_absent (some (arr xs)) = false
is_absent (some (int n)) = false
is_absent (some (Json.bool b)) = false
is_absent (some (Json.float f)) = false

module _ (c : Codec) where
  abbrev pub optional_of : Option Json → Option String
  optional_of v = if is_absent v then none else some (c.as_text (default_to null v))

  abbrev pub time_of : Option ℕ → Json
  time_of none = null
  time_of (some t) = text (c.isoformat t)

  unfoldable pub span_to_payload : TraceSpan → Json
  span_to_payload span = obj (
      fields (
        ("trace_id", text span.trace_id)
        ∷ ("span_id", text span.span_id)
        ∷ ("span_name", text span.span_name)
        ∷ ("parent_span_id", optional_text span.parent_span_id)
        ∷ ("started_at", text (c.isoformat span.started_at))
        ∷ ("ended_at", time_of span.ended_at)
        ∷ ("metadata", obj (fields (text_values span.metadata)))
        ∷ []))

  abbrev pub span_items : List TraceSpan → Items
  span_items [] = nil
  span_items (span ∷ spans) = cons (span_to_payload span) (span_items spans)

  unfoldable pub spans_to_payload : List TraceSpan → Json
  unfolding span_to_payload
  spans_to_payload spans = arr (span_items spans)

  -- `if item.get("ended_at"): …`
  abbrev pub ended_of : Json → Result (Option ℕ)
  ended_of v =
      let parsed : Result (Option ℕ) = c.fromisoformat v >>= λ t. ok (some t) in
      if is_truthy v then parsed else ok none

  unfoldable pub span_from_payload : Json → Result TraceSpan
  span_from_payload payload = do
    trace_id ← item "trace_id" payload
    span_id ← item "span_id" payload
    span_name ← item "span_name" payload
    parent ← get "parent_span_id" payload
    started ← item "started_at" payload
    started_at ← c.fromisoformat started
    metadata ← get "metadata" payload
    ended ← get "ended_at" payload
    ended_at ← ended_of (default_to null ended)
    ok (record {
      trace_id = c.as_text trace_id;
      span_id = c.as_text span_id;
      span_name = c.as_text span_name;
      parent_span_id = optional_of parent;
      started_at = started_at;
      ended_at = ended_at;
      metadata = c.as_metadata (default_to (obj end) metadata);
    })

  abbrev pub items_from_payload : Items → Result (List TraceSpan)
  items_from_payload nil = ok []
  items_from_payload (cons payload rest) =
      let later = items_from_payload rest in
      do span ← span_from_payload payload; spans ← later; ok (span ∷ spans)

  -- `for item in payload` reads the characters of a text and the keys of a dictionary, which are
  -- no dictionaries.
  unfoldable pub spans_from_payload : Json → Result (List TraceSpan)
  unfolding span_from_payload
  spans_from_payload (arr xs) = items_from_payload xs
  spans_from_payload null = err (other "TypeError")
  spans_from_payload (int n) = err (other "TypeError")
  spans_from_payload (text s) = if is_empty s then ok [] else err (other "TypeError")
  spans_from_payload (obj end) = ok []
  spans_from_payload (obj (field k v rest)) = err (other "TypeError")
  spans_from_payload (Json.bool b) = err (other "TypeError")
  spans_from_payload (Json.float f) = err (other "TypeError")

  unfoldable pub build_trace_job_payload : Trace → Json
  unfolding spans_to_payload
  build_trace_job_payload t = obj (
      fields (
        ("trace_id", text t.trace_id)
        ∷ ("tenant_id", text t.tenant_id)
        ∷ ("api_key_id", optional_text t.api_key_id)
        ∷ ("http_status", int (pos t.http_status))
        ∷ ("request", c.dump_request t.request)
        ∷ ("response", c.dump_response t.response)
        ∷ ("spans", spans_to_payload t.spans)
        ∷ []))

  unfoldable pub parse_trace_job_payload : Json → Result Trace
  unfolding spans_from_payload
  parse_trace_job_payload payload = do
    trace_id ← item "trace_id" payload
    tenant_id ← item "tenant_id" payload
    api_key_id ← get "api_key_id" payload
    http_status ← item "http_status" payload
    request_payload ← item "request" payload
    request ← c.validate_request request_payload
    response_payload ← item "response" payload
    response ← c.validate_response response_payload
    spans_payload ← item "spans" payload
    spans ← spans_from_payload spans_payload
    ok (record {
      trace_id = c.as_text trace_id;
      tenant_id = c.as_text tenant_id;
      api_key_id = optional_of api_key_id;
      http_status = c.as_number http_status;
      request = request;
      response = response;
      spans = spans;
    })
