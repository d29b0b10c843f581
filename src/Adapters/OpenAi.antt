-- ===== src/Adapters/OpenAi.antt =====
-- `OpenAIProvider` of providers/openai_provider.py. tiktoken is a parameter.
pub mod Frames
use llmops_gateway.Prelude.{
  ℕ, zero, suc, ◌+◌, String, Bool, true, false, not, ◌||◌, Option, none, some, List, [], ◌∷◌, ◌++◌,
  ◌==◌, string_eq, if◌then◌else◌, map, is_empty, length,
}
use Prim.Native.String.{◌++◌ as append_text}
use llmops_gateway.Prelude.Texts.{starts_with}
use llmops_gateway.Domain.Chat.{
  ChatMessage, ChatRequest, ChatResponse, TokenUsage, Float, Role, assistant, role_text,
  message_line, CacheStatus, miss,
}
use llmops_gateway.Prelude.Int.{ℤ}
use llmops_gateway.Errors.{Exn, Result, ok, err, Exec}
use llmops_gateway.Errors.Fallible.{◌>>=◌, ◌>>◌}
use llmops_gateway.Json.{
  Json, null, bool, int, float, text, arr, obj, nil, fields, items, is_truthy, get, item,
  first_item, default_to, or_json, end,
}
use llmops_gateway.Providers.Resilient.{Streamed}
use llmops_gateway.Adapters.Http.{
  Client, HttpResponse, raise_for_status, post, decoded, validated, text_or, count_or_zero,
}
use llmops_gateway.Adapters.Lines.{Line, skip, stop, emit, fail, value_of, read_outcome}

abbrev pub any_prefix : String → List String → Bool
any_prefix s [] = false
any_prefix s (p ∷ rest) = starts_with s p || any_prefix s rest

unfoldable pub supports_model : String → Bool
supports_model model = any_prefix model ("gpt-" ∷ "o1" ∷ "o3" ∷ "o4" ∷ "chatgpt-" ∷ [])

-- `{"role": m.role, "content": m.content}`
abbrev pub wire_message : ChatMessage → Json
wire_message m = obj (fields (("role", text (role_text m.role)) ∷ ("content", text m.content) ∷ []))

abbrev pub limit_fields : Option ℤ → List (String × Json)
limit_fields none = []
limit_fields (some n) = ("max_tokens", int n) ∷ []

-- `if request.stop: payload[key] = request.stop`
abbrev pub stop_fields : String → Option (List String) → List (String × Json)
stop_fields key none = []
stop_fields key (some []) = []
stop_fields key (some (s ∷ rest)) = (key, arr (items (map text (s ∷ rest)))) ∷ []

abbrev pub stream_fields : Bool → List (String × Json)
stream_fields true = ("stream_options", obj (fields (("include_usage", bool true) ∷ []))) ∷ []
stream_fields false = []

unfoldable pub build_payload : ChatRequest → Bool → Json
build_payload request stream = obj (
    fields (
      ("model", text request.model)
      ∷ ("messages", arr (items (map wire_message request.messages)))
      ∷ ("temperature", float request.temperature)
      ∷ ("top_p", float request.top_p)
      ∷ ("stream", bool stream)
      ∷ (limit_fields request.max_tokens
          ++ (stop_fields "stop" request.stop ++ stream_fields stream))))

-- What `_complete_impl` reads of the body, up to the fields of the response.
pub record Answer : Type 0 where
  pub data_raw : Json
  pub choice : Json
  pub usage : TokenUsage

-- `choices[0].get("delta", {}).get("content")`, yielded if it is true.
unfoldable pub delta_content : Json → Result (Option Json)
delta_content choices = do
  choice ← first_item choices
  delta ← get "delta" choice
  get "content" (default_to (obj end) delta)

abbrev pub yield_content : (Json → String) → Result (Option Json) → Line
yield_content as_chunk (err e) = fail e
yield_content as_chunk (ok none) = skip
yield_content as_chunk (ok (some content)) =
    if is_truthy content then emit (as_chunk content) else skip

unfoldable pub read_choices : (Json → String) → Result (Option Json) → Line
unfolding delta_content
read_choices as_chunk (err e) = fail e
read_choices as_chunk (ok found) =
    let choices = or_json (arr nil) found in
    if is_truthy choices then yield_content as_chunk (delta_content choices) else skip

module _ {W : Type 0} (c : Client W) where
  unfoldable pub read_usage : Json → Result TokenUsage
  read_usage usage_raw = do
    prompt ← get "prompt_tokens" usage_raw
    completion ← get "completion_tokens" usage_raw
    input_tokens ← count_or_zero c prompt
    output_tokens ← count_or_zero c completion
    ok (record { input_tokens = input_tokens; output_tokens = output_tokens })

  unfoldable pub read_answer : HttpResponse → Result Answer
  unfolding read_usage raise_for_status
  read_answer response = do
    raise_for_status c response
    data_raw ← decoded c response
    choices ← item "choices" data_raw
    choice ← first_item choices
    found ← get "usage" data_raw
    usage ← read_usage (or_json (obj end) found)
    ok (record { data_raw = data_raw; choice = choice; usage = usage })

  unfoldable pub read_response : ChatRequest → String → ℕ → Answer → Result ChatResponse
  read_response request uuid now a = do
    id ← get "id" a.data_raw
    model ← get "model" a.data_raw
    message ← item "message" a.choice
    content ← item "content" message
    content_text ← validated c (c.as_text (if is_truthy content then content else text ""))
    id_text ← text_or c uuid id
    model_text ← text_or c request.model model
    ok (record {
      id = id_text;
      model = model_text;
      provider = "openai";
      message = record { role = assistant; content = content_text };
      usage = a.usage;
      cost_usd = 0;
      cache_status = miss;
      trace_id = "";
      created_at = now;
      latency_ms = 0;
      adapter_id = none;
      model_alias = none;
      adapter_stage = none;
    })

  -- The id is drawn whether or not the body has one.
  unfoldable pub finish : ChatRequest → Result Answer → Exec W ChatResponse
  unfolding read_response
  finish request (err e) w = (err e, w)
  finish request (ok a) w =
      let (uuid, w') = c.uuid w in (read_response request uuid (c.now w') a, w')

  abbrev pub after_post : ChatRequest → Result HttpResponse → Exec W ChatResponse
  after_post request (err e) w = (err e, w)
  after_post request (ok response) w = finish request (read_answer response) w

  unfoldable pub complete_impl : ChatRequest → Exec W ChatResponse
  unfolding post finish read_answer
  complete_impl request w =
      let (r, w') = post c "/chat/completions" (build_payload request false) w in
      after_post request r w'

  -- One round of the loop over the lines.
  unfoldable pub step : ℕ → Unit {0} → String → Unit {0} × Line
  unfolding value_of read_choices
  step status_code s line =
      if is_empty line || not (starts_with line "data:")
      then (tt, skip)
      else if value_of "data:" line == "[DONE]"
      then (tt, stop)
      else elim (c.loads (value_of "data:" line)) [
        | none ↦ (tt, skip)
        | some event ↦ (tt, read_choices c.as_chunk (get "choices" event))
      ]

  unfoldable pub stream_impl : ChatRequest → W → Streamed × W
  unfolding build_payload step read_outcome
  stream_impl request w =
      let (outcome, w') = c.stream "/chat/completions" (build_payload request true) w in
      (read_outcome c step tt outcome, w')

-- `encode` counts the tokens that tiktoken makes of a text for the model.
abbrev pub prompt_tokens : (String → ℕ) → List ChatMessage → ℕ
prompt_tokens encode [] = 0
prompt_tokens encode (m ∷ rest) = encode (message_line m) + prompt_tokens encode rest

unfoldable pub count_tokens : (String → String → ℕ) → ChatRequest → String → TokenUsage
count_tokens encode request completion_text = record {
  input_tokens = prompt_tokens (encode request.model) request.messages;
  output_tokens = encode request.model completion_text;
}
