-- ===== src/Adapters/Anthropic.antt =====
-- `AnthropicProvider` of providers/anthropic_provider.py. The JSON key of a text block and the
-- names of the events are the literals of the source.
pub mod Blocks
use Prim.Native.String.{String as Text}
use llmops_gateway.Prelude.{
  ℕ, ◌+◌, ◌/◌, max, String, Bool, true, false, ◌||◌, Option, none, some, List, [], ◌∷◌, ◌++◌, ◌==◌,
  string_eq, not, if◌then◌else◌, map, is_empty, select, join,
}
use llmops_gateway.Prelude.Int.{ℤ, pos, nonzero}
use llmops_gateway.Prelude.Texts.{starts_with, text_length, concat}
use llmops_gateway.Domain.Chat.{
  ChatMessage, ChatRequest, ChatResponse, TokenUsage, Role, system, user, assistant, tool,
  CacheStatus, miss,
}
use llmops_gateway.Errors.{Exn, provider, response, other, Result, ok, err, Exec}
use llmops_gateway.Errors.Fallible.{◌>>=◌, ◌>>◌}
use llmops_gateway.Json.{
  Json, null, bool, int, float, text, arr, obj, Items, Fields, end, field, nil, fields, items,
  to_list, is_truthy, get, default_to, or_json,
}
use llmops_gateway.Providers.Resilient.{Streamed}
use llmops_gateway.Adapters.Http.{
  Client, HttpResponse, raise_for_status, post, decoded, text_or, count_or_zero,
}
use llmops_gateway.Adapters.Lines.{Line, skip, stop, emit, fail, value_of, read_outcome}
use llmops_gateway.Adapters.OpenAi.{wire_message, stop_fields, yield_content}

unfoldable pub supports_model : String → Bool
supports_model model = starts_with model "claude-"

abbrev pub is_system : ChatMessage → Bool
is_system m = elim m.role [ system ↦ true | user ↦ false | assistant ↦ false | tool ↦ false ]

abbrev pub is_spoken : ChatMessage → Bool
is_spoken m = elim m.role [ system ↦ false | user ↦ true | assistant ↦ true | tool ↦ false ]

abbrev pub content_of : ChatMessage → String
content_of m = m.content

-- `request.max_tokens or DEFAULT_MAX_TOKENS`
abbrev pub max_tokens_of : Option ℤ → ℤ
max_tokens_of none = pos 4096
max_tokens_of (some n) = if nonzero n then n else pos 4096

abbrev pub system_fields : List String → List (String × Json)
system_fields [] = []
system_fields (part ∷ parts) = ("system", text (join "\n" (part ∷ parts))) ∷ []

unfoldable pub build_payload : ChatRequest → Bool → Json
build_payload request stream = obj (
    fields (
      ("model", text request.model)
      ∷ ("messages", arr (items (map wire_message (select is_spoken request.messages))))
      ∷ ("max_tokens", int (max_tokens_of request.max_tokens))
      ∷ ("temperature", float request.temperature)
      ∷ ("top_p", float request.top_p)
      ∷ ("stream", bool stream)
      ∷ (system_fields (map content_of (select is_system request.messages))
          ++ stop_fields "stop_sequences" request.stop)))

-- What `for block in x` goes through.
abbrev pub chars : String → List Json
chars Text.[] = []
chars (Text.◌∷◌ c s) = text (Text.◌∷◌ c "") ∷ chars s

abbrev pub keys : Fields → List Json
keys end = []
keys (field k v rest) = text k ∷ keys rest

abbrev pub iterated : Json → Result (List Json)
iterated (arr xs) = ok (to_list xs)
iterated (text s) = ok (chars s)
iterated (obj fs) = ok (keys fs)
iterated null = err (other "TypeError")
iterated (bool b) = err (other "TypeError")
iterated (int n) = err (other "TypeError")
iterated (float f) = err (other "TypeError")

abbrev pub is_text : Option Json → Bool
is_text none = false
is_text (some (text s)) = s == "text"
is_text (some null) = false
is_text (some (bool b)) = false
is_text (some (int n)) = false
is_text (some (float f)) = false
is_text (some (arr xs)) = false
is_text (some (obj fs)) = false

-- The values that the generator passes to `"".join`.
unfoldable pub text_parts : List Json → Result (List Json)
text_parts [] = ok []
text_parts (block ∷ blocks) =
    let later = text_parts blocks in
    do
      kind ← get "type" block
      part ← get "text" block
      parts ← later
      ok (if is_text kind then default_to (text "") part ∷ parts else parts)

unfoldable pub join_texts : List Json → Result String
join_texts [] = ok ""
join_texts (text s ∷ rest) = join_texts rest >>= λ later. ok (concat (s ∷ later ∷ []))
join_texts (null ∷ rest) = err (other "TypeError")
join_texts (bool b ∷ rest) = err (other "TypeError")
join_texts (int n ∷ rest) = err (other "TypeError")
join_texts (float f ∷ rest) = err (other "TypeError")
join_texts (arr xs ∷ rest) = err (other "TypeError")
join_texts (obj fs ∷ rest) = err (other "TypeError")

-- `event_data.get("delta", {}).get("text")`
unfoldable pub delta_text : Json → Result (Option Json)
delta_text event_data = do delta ← get "delta" event_data; get "text" (default_to (obj end) delta)

unfoldable pub stream_error : ℕ → Json → Exn
stream_error status_code event_data =
    let message : Result (Option Json) = do
      error ← get "error" event_data
      get "message" (default_to (obj end) error)
    in elim message [ ok _ ↦ provider (response status_code) | err e ↦ e ]

abbrev pub event_is : Option String → String → Bool
event_is none name = false
event_is (some current_event) name = current_event == name

unfoldable pub on_event : (Json → String) → ℕ → Option String → Json → Line
unfolding delta_text stream_error
on_event as_chunk status_code current_event event_data =
    if event_is current_event "content_block_delta"
    then yield_content as_chunk (delta_text event_data)
    else if event_is current_event "error"
    then fail (stream_error status_code event_data)
    else if event_is current_event "message_stop"
    then stop
    else skip

module _ {W : Type 0} (c : Client W) where
  unfoldable pub read_usage : Json → Result TokenUsage
  read_usage usage_raw = do
    prompt ← get "input_tokens" usage_raw
    completion ← get "output_tokens" usage_raw
    input_tokens ← count_or_zero c prompt
    output_tokens ← count_or_zero c completion
    ok (record { input_tokens = input_tokens; output_tokens = output_tokens })

  unfoldable pub read_response : ChatRequest → ℕ → HttpResponse → Result ChatResponse
  unfolding read_usage raise_for_status text_parts join_texts
  read_response request now r = do
    raise_for_status c r
    data_raw ← decoded c r
    found ← get "content" data_raw
    blocks ← iterated (default_to (arr nil) found)
    parts ← text_parts blocks
    content ← join_texts parts
    usage_raw ← get "usage" data_raw
    usage ← read_usage (or_json (obj end) usage_raw)
    id ← get "id" data_raw
    model ← get "model" data_raw
    id_text ← text_or c "" id
    model_text ← text_or c request.model model
    ok (record {
      id = id_text;
      model = model_text;
      provider = "anthropic";
      message = record { role = assistant; content = content };
      usage = usage;
      cost_usd = 0;
      cache_status = miss;
      trace_id = "";
      created_at = now;
      latency_ms = 0;
      adapter_id = none;
      model_alias = none;
      adapter_stage = none;
    })

  abbrev pub after_post : ChatRequest → Result HttpResponse → Exec W ChatResponse
  after_post request (err e) w = (err e, w)
  after_post request (ok r) w = (read_response request (c.now w) r, w)

  unfoldable pub complete_impl : ChatRequest → Exec W ChatResponse
  unfolding post read_response
  complete_impl request w =
      let (r, w') = post c "/messages" (build_payload request false) w in after_post request r w'

  -- One round of the loop over the lines; the state is `current_event`.
  unfoldable pub step : ℕ → Option String → String → Option String × Line
  unfolding value_of on_event
  step status_code current_event line =
      if is_empty line
      then (current_event, skip)
      else if starts_with line "event:"
      then (some (value_of "event:" line), skip)
      else if not (starts_with line "data:")
      then (current_event, skip)
      else elim (c.loads (value_of "data:" line)) [
        | none ↦ (current_event, skip)
        | some event_data ↦
            (current_event, on_event c.as_chunk status_code current_event event_data)
      ]

  unfoldable pub stream_impl : ChatRequest → W → Streamed × W
  unfolding build_payload step read_outcome
  stream_impl request w =
      let (outcome, w') = c.stream "/messages" (build_payload request true) w in
      (read_outcome c step none outcome, w')

abbrev pub total_chars : List ChatMessage → ℕ
total_chars [] = 0
total_chars (m ∷ rest) = text_length m.content + total_chars rest

unfoldable pub count_tokens : ChatRequest → String → TokenUsage
count_tokens request completion_text = record {
  input_tokens = max 1 (total_chars request.messages / 4);
  output_tokens = max 1 (text_length completion_text / 4);
}
