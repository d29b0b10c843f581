-- ===== src/Domain/Chat.antt =====
-- domain/entities/chat_request.py and domain/entities/chat_response.py, with
-- domain/value_objects/cache_status.py.
--
-- A float that the program only prints and forwards is its printed form. Times are milliseconds.
-- Costs are exact: a cost is a number of thousandths of the unit in which prices are stored.
use Prim.Native.String.{◌++◌}
use llmops_gateway.Prelude.{ℕ, ◌+◌, String, Bool, Option, or_else, List, map, join}
use llmops_gateway.Prelude.Int.{ℤ}

pub data Role : Type 0 where
  system user assistant tool : Role

-- The literal that the role is on the wire.
abbrev pub role_text : Role → String
role_text system = "system"
role_text user = "user"
role_text assistant = "assistant"
role_text tool = "tool"

pub record ChatMessage : Type 0 where
  pub role : Role
  pub content : String

pub record Float : Type 0 where
  pub repr : String

pub record ChatRequest : Type 0 where
  pub model : String
  pub messages : List ChatMessage
  pub temperature : Float
  pub max_tokens : Option ℤ
  pub top_p : Float
  pub stream : Bool
  pub stop : Option (List String)
  pub cache_bypass : Bool
  pub provider_override : Option String
  pub adapter_id : Option String
  pub model_alias : Option String
  pub adapter_stage : Option String

abbrev pub message_line : ChatMessage → String
message_line m = role_text m.role ++ (":" ++ m.content)

unfoldable pub canonical_prompt : ChatRequest → String
canonical_prompt r = join "\n" (map message_line r.messages)

-- How Python prints `max_tokens` and `stop` in an f-string.
pub record Printer : Type 0 where
  pub print_int : Option ℤ → String
  pub print_list : Option (List String) → String

unfoldable pub params_fingerprint : Printer → ChatRequest → String
params_fingerprint p r =
    r.model
    ++ ("|"
        ++ (or_else r.adapter_id ""
            ++ ("|"
                ++ (r.temperature.repr
                    ++ ("|"
                        ++ (p.print_int r.max_tokens
                            ++ ("|" ++ (r.top_p.repr ++ ("|" ++ p.print_list r.stop)))))))))

pub data CacheStatus : Type 0 where
  miss exact_hit semantic_hit bypassed : CacheStatus

pub record TokenUsage : Type 0 where
  pub input_tokens : ℕ
  pub output_tokens : ℕ

abbrev pub total_tokens : TokenUsage → ℕ
total_tokens u = u.input_tokens + u.output_tokens

pub record ChatResponse : Type 0 where
  pub id : String
  pub model : String
  pub provider : String
  pub message : ChatMessage
  pub usage : TokenUsage
  pub cost_usd : ℕ
  pub cache_status : CacheStatus
  pub trace_id : String
  pub created_at : ℕ
  pub latency_ms : ℕ
  pub adapter_id : Option String
  pub model_alias : Option String
  pub adapter_stage : Option String
