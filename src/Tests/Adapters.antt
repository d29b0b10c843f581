-- ===== src/Tests/Adapters.antt =====
-- The adapters and the gateway's own stream, with a small client.
use Prim.Native.String.{◌++◌ as append_text}
use llmops_gateway.Prelude.{
  ℕ, ◌≡◌, refl, String, true, false, none, some, List, [], ◌∷◌, ◌++◌, ◌==◌, string_eq,
  if◌then◌else◌, arith, ◌||◌, nat_eq, leb, map, All, inr,
}
use llmops_gateway.Caching.Hashing.{lstrip, rstrip}
use llmops_gateway.Domain.Chat.{ChatRequest, tool}
use llmops_gateway.Errors.{provider, retryable, other, ok, err}
use llmops_gateway.Json.{
  Json, Fields, null, int, text, arr, obj, nil, cons, end, field, fields, items, get,
}
use llmops_gateway.Prelude.Int.{pos}
use llmops_gateway.Adapters.Http.{Client, HttpResponse, answered, opened, transport}
use llmops_gateway.Adapters.Sse.{Reads, ClientLaws, field_line}
use llmops_gateway.Adapters.OpenAi
use llmops_gateway.Adapters.OpenAi.{wire_message}
use llmops_gateway.Adapters.OpenAi.Frames
use llmops_gateway.Adapters.OpenAi.Frames.{stream_impl-frames_of}
use llmops_gateway.Adapters.Anthropic
use llmops_gateway.Adapters.Anthropic.Blocks
use llmops_gateway.Adapters.Anthropic.Blocks.{stream_impl-lines_of}
use llmops_gateway.Adapters.Refused.{error_of, complete_impl-refused}
use llmops_gateway.Adapters.Payloads.{untooled, build_payload-untooled}
use llmops_gateway.Gateway.Streams.{ChatStream}
use llmops_gateway.Api.Chat.{Writer, sse, content_event, metadata_fields, frame}
use llmops_gateway.Api.Chat.Relay.{lines_of, sse-stream_impl}
use llmops_gateway.Api.Health.{Probes}
use llmops_gateway.Providers.Breaker.{new, allow_request}
use llmops_gateway.Providers.Resilient.{Runtime, allowed, succeeded, stream}
use llmops_gateway.Adapters.Provided.{Setup, open_ai_provider, stream-frames_of}
use llmops_gateway.Tests.Providers.{hello, greeting}

-- The text of this gateway's chunks, in braces, and a name for the events below that carry a text;
-- an empty object for all else.
abbrev dumps : Json → String
dumps (obj (field k (arr (cons (obj (field d (obj (field c (text s) end)) end)) nil)) end)) =
    append_text "{" (append_text s "}")
dumps (obj (field k (text i) (field l (arr xs) rest))) = "{hi}"
dumps (obj (field k (text i) (field l (int n) rest))) = "{hi}"
dumps v = "{}"

abbrev head : HttpResponse
head = record { status_code = 200; retry_after = none; body = "" }

abbrev busy : HttpResponse
busy = record { status_code = 503; retry_after = none; body = "" }

-- A client that answers `busy` and streams `lines`; `{hi}` reads as one value, `{}` as another.
abbrev client : Json → Json → List String → Client ℕ
client hi rest lines = record {
  post = λ path payload w. (answered busy, w);
  stream = λ path payload w.
      (opened (record { head = head; lines = lines; cut_off = some transport }), w);
  loads = λ s. if s == "{hi}" then some hi else if s == "{}" then some rest else none;
  parse_float = λ s. none;
  as_count = λ v. none;
  as_text = λ v. none;
  as_chunk = λ v. elim v [ text s ↦ s | _ ↦ "" ];
  now = λ w. w;
  uuid = λ w. ("u", w);
}

client-laws : (hi rest : Json) (lines : List String) → ClientLaws (client hi rest lines)
client-laws hi rest lines = record { loads_done = refl; as_chunk-text = λ s. refl }

hi-Reads :
    (hi rest : Json) (lines : List String)
    → dumps hi ≡ "{hi}"
    → Reads (client hi rest lines) dumps hi
unfolding lstrip rstrip
hi-Reads hi rest lines h = record { loads-dumps = rw h; lstrip-dumps = rw h; rstrip-dumps = rw h }

rest-Reads :
    (hi rest : Json) (lines : List String)
    → dumps rest ≡ "{}"
    → Reads (client hi rest lines) dumps rest
unfolding lstrip rstrip
rest-Reads hi rest lines h = record { loads-dumps = rw h; lstrip-dumps = rw h; rstrip-dumps = rw h }

abbrev hi_delta : Fields
hi_delta = fields (("content", text "hi") ∷ [])

abbrev hi_choice : Fields
hi_choice = fields (("index", int (pos 0)) ∷ ("delta", obj hi_delta) ∷ [])

-- A chunk as the API sends it, with an id and an index.
abbrev hi_chunk : Fields
hi_chunk = fields (("id", text "c1") ∷ ("choices", arr (items (obj hi_choice ∷ []))) ∷ [])

abbrev role_delta : Fields
role_delta = fields (("role", text "assistant") ∷ ("content", null) ∷ [])

abbrev role_choice : Fields
role_choice = fields (("delta", obj role_delta) ∷ [])

abbrev role_chunk : Fields
role_chunk = fields (("choices", arr (items (obj role_choice ∷ []))) ∷ [])

abbrev sent : List Frames.Sent
sent =
    Frames.no_content role_chunk role_choice nil role_delta
    ∷ Frames.blank
    ∷ Frames.delta_of hi_chunk hi_choice nil hi_delta "hi"
    ∷ []

abbrev chunk_lines : List String
chunk_lines = Frames.frames_of dumps sent ++ Frames.tail_lines (some ("" ∷ []))

abbrev open_ai : Client ℕ
open_ai = client (obj hi_chunk) (obj role_chunk) chunk_lines

sent-IsSent : All (Frames.IsSent open_ai dumps) sent
sent-IsSent = (
  ((refl, refl), inr refl, rest-Reads (obj hi_chunk) (obj role_chunk) chunk_lines refl),
  (tt, (((refl, refl), refl, hi-Reads (obj hi_chunk) (obj role_chunk) chunk_lines refl), tt)),
)

stream_impl-frames_of_example :
    OpenAi.stream_impl open_ai hello 3 ≡ (record { chunks = "hi" ∷ []; ended = none }, 3)
stream_impl-frames_of_example =
    stream_impl-frames_of open_ai dumps (client-laws (obj hi_chunk) (obj role_chunk) chunk_lines)
      hello 3 3 head sent (some ("" ∷ [])) (some transport) refl sent-IsSent refl

abbrev text_delta : Fields
text_delta = fields (("type", text "text_delta") ∷ ("text", text "hi") ∷ [])

abbrev delta_event : Fields
delta_event =
    fields (
      ("type", text "content_block_delta")
      ∷ ("index", int (pos 0))
      ∷ ("delta", obj text_delta)
      ∷ [])

abbrev blocks : List Blocks.Sent
blocks = Blocks.named "ping" (obj end) ∷ Blocks.delta delta_event text_delta "hi" ∷ []

abbrev block_lines : List String
block_lines = Blocks.lines_of dumps blocks ++ Blocks.tail_lines dumps (Blocks.error (obj end) [])

abbrev anthropic : Client ℕ
anthropic = client (obj delta_event) (obj end) block_lines

ping-Other : Blocks.IsOther "ping"
unfolding lstrip rstrip
ping-Other = (refl, refl, refl, refl)

stream_impl-lines_of_example :
    Anthropic.stream_impl anthropic hello 3
    ≡ (record { chunks = "hi" ∷ []; ended = some (Anthropic.stream_error 200 (obj end)) }, 3)
stream_impl-lines_of_example =
    stream_impl-lines_of anthropic dumps (client-laws (obj delta_event) (obj end) block_lines) hello
      3 3 head blocks (Blocks.error (obj end) []) (some transport) refl
      (
        (ping-Other, rest-Reads (obj delta_event) (obj end) block_lines refl),
        ((refl, refl, hi-Reads (obj delta_event) (obj end) block_lines refl), tt),
      )
      (rest-Reads (obj delta_event) (obj end) block_lines refl) refl

complete_impl-refused_example :
    (OpenAi.complete_impl open_ai hello 3 ≡ (err (provider (error_of open_ai busy)), 3))
    × (Anthropic.complete_impl open_ai hello 3 ≡ (err (provider (error_of open_ai busy)), 3))
    × (retryable (error_of open_ai busy) ≡ (busy.status_code == 429 || leb 500 busy.status_code))
complete_impl-refused_example =
    complete_impl-refused open_ai hello 3 3 3 busy (omega arith) refl refl

abbrev with_tool : ChatRequest
with_tool = record hello { messages = record { role = tool; content = "42" } ∷ [] }

build_payload-untooled_example :
    (Anthropic.build_payload (untooled with_tool) true ≡ Anthropic.build_payload with_tool true)
    × (get "messages" (OpenAi.build_payload with_tool true)
        ≡ ok (some (arr (items (map wire_message with_tool.messages)))))
build_payload-untooled_example = build_payload-untooled with_tool true

abbrev writer : Writer
writer = record {
  print_cost = λ n. "0.000000";
  cost_number = λ n. record { repr = "0.0" };
  dumps = dumps;
}

-- The two frames that the stream below has, and the last.
abbrev split_lines : String → List String
split_lines f =
    if f == frame "{hi}"
    then field_line "data:" "{hi}" ∷ "" ∷ []
    else if f == frame "{}"
    then field_line "data:" "{}" ∷ "" ∷ []
    else field_line "data:" "[DONE]" ∷ "" ∷ []

abbrev relayed : ChatStream
relayed = record { chunks = "hi" ∷ []; metadata = some greeting; ended = none }

abbrev metadata : Json
metadata = obj (metadata_fields writer greeting)

abbrev relayed_lines : List String
relayed_lines = lines_of split_lines (sse writer relayed)

abbrev gateway_client : Client ℕ
gateway_client = client (content_event "hi") metadata relayed_lines

sse-stream_impl_example :
    OpenAi.stream_impl gateway_client hello 3 ≡ (record { chunks = "hi" ∷ []; ended = none }, 3)
sse-stream_impl_example =
    sse-stream_impl gateway_client writer split_lines
      (client-laws (content_event "hi") metadata relayed_lines) relayed hello 3 3 head
      (some transport) refl ((hi-Reads (content_event "hi") metadata relayed_lines refl, refl), tt)
      (rest-Reads (content_event "hi") metadata relayed_lines refl, refl) refl refl

abbrev probes : Probes
probes = record {
  postgres = ok tt;
  redis = ok false;
  qdrant = err (other "down");
  show = λ e. "down";
}

abbrev setup : Setup ℕ
setup = record {
  client = open_ai;
  max_retries = 2;
  encode = λ model s. 1;
  circuit = λ w. new 5 30000;
  set_circuit = λ b w. w;
}

abbrev runtime : Runtime ℕ
runtime = record { now = λ w. w; sleep = λ d w. w; uniform = λ n w. (0, w) }

lets_through : allowed runtime (open_ai_provider setup) 3 ≡ true
unfolding allowed allow_request new
lets_through = refl

stream-frames_of_example :
    stream runtime (open_ai_provider setup) hello 3
    ≡ (record { chunks = "hi" ∷ []; ended = none }, succeeded runtime (open_ai_provider setup) 3)
stream-frames_of_example =
    stream-frames_of runtime setup dumps (client-laws (obj hi_chunk) (obj role_chunk) chunk_lines)
      hello 3 3 head sent ("" ∷ []) (some transport) lets_through refl sent-IsSent refl
