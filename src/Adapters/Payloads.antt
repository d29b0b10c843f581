-- ===== src/Adapters/Payloads.antt =====
-- What the bodies that the two adapters send keep of a conversation.
use llmops_gateway.Prelude.{
  Bool, true, false, not, ◌≡◌, refl, some, List, [], ◌∷◌, map, select, arith,
}
use llmops_gateway.Domain.Chat.{ChatMessage, ChatRequest, system, user, assistant, tool}
use llmops_gateway.Errors.{ok}
use llmops_gateway.Json.{arr, items, get}
use llmops_gateway.Adapters.OpenAi
use llmops_gateway.Adapters.OpenAi.{wire_message}
use llmops_gateway.Adapters.Anthropic
use llmops_gateway.Adapters.Anthropic.{is_spoken, is_system, content_of}

abbrev pub is_tool : ChatMessage → Bool
is_tool m = elim m.role [ system ↦ false | user ↦ false | assistant ↦ false | tool ↦ true ]

abbrev pub untooled : ChatRequest → ChatRequest
untooled r = record r { messages = select (λ m. not (is_tool m)) r.messages }

spoken_untooled :
    (ms : List ChatMessage)
    → select is_spoken (select (λ m. not (is_tool m)) ms) ≡ select is_spoken ms
spoken_untooled [] = refl
spoken_untooled (m ∷ ms) = ground (arith, spoken_untooled ms)

system_untooled :
    (ms : List ChatMessage)
    → select is_system (select (λ m. not (is_tool m)) ms) ≡ select is_system ms
system_untooled [] = refl
system_untooled (m ∷ ms) = ground (arith, system_untooled ms)

-- The Anthropic adapter sends the same body with the messages of the role `tool` and without them,
-- while the OpenAI adapter sends every message in its place.
pub build_payload-untooled :
    (request : ChatRequest) (stream : Bool)
    → (Anthropic.build_payload (untooled request) stream ≡ Anthropic.build_payload request stream)
      × (get "messages" (OpenAi.build_payload request stream)
          ≡ ok (some (arr (items (map wire_message request.messages)))))
unfolding Anthropic.build_payload OpenAi.build_payload
build_payload-untooled request stream =
    (rw (spoken_untooled request.messages, system_untooled request.messages), refl)
