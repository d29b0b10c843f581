-- ===== src/Traces.antt =====
-- services/trace_persistence_service.py and `flush` of services/tracing_service.py over the rows of
-- `requests`, `request_spans` and `token_usage`, with the repositories of persistence/repositories.
-- What the database refuses, such as an unknown tenant or a text too long, is a parameter.
pub mod Persisted
pub mod Races
pub mod Flushed
use llmops_gateway.Prelude.{
  ℕ, zero, suc, String, Bool, Option, none, some, truthy, or_else, List, [], ◌∷◌, ◌++◌, ◌==◌,
  string_eq, select, ltb, if◌then◌else◌,
}
use llmops_gateway.Prelude.Int.{ℤ, pos, negsuc}
use llmops_gateway.Domain.Chat.{ChatRequest, ChatResponse, TokenUsage, total_tokens}
use llmops_gateway.Errors.{
  Exn, value_error, other, Result, ok, err, Exec, ◌>>=◌, ◌>>◌, pure, raise, modify, or_default,
}
use llmops_gateway.Tracing.{TraceSpan}
use llmops_gateway.Gateway.{status_text}

pub record RequestRow : Type 0 where
  pub id : String
  pub trace_id : String
  pub tenant_id : String
  pub api_key_id : Option String
  pub provider : String
  pub model_requested : String
  pub model_used : String
  pub status : String
  pub cache_status : String
  pub http_status : ℕ
  pub is_stream : Bool
  pub total_latency_ms : ℕ
  pub completed_at : ℕ

pub record SpanRow : Type 0 where
  pub request_id : String
  pub span_name : String
  pub parent_span_id : Option String
  pub started_at : ℕ
  pub ended_at : Option ℕ
  pub duration_ms : Option ℤ
  pub span_metadata : List (String × String)

pub record UsageRow : Type 0 where
  pub request_id : String
  pub input_tokens : ℕ
  pub output_tokens : ℕ
  pub total_tokens : ℕ
  pub cost_usd : ℕ
  pub pricing_id : Option String

pub record TraceTables : Type 0 where
  pub requests : List RequestRow
  pub request_spans : List SpanRow
  pub token_usage : List UsageRow

-- The refusals are of an insert into each table. `new_id` draws the key of a row.
pub record TraceStore (W : Type 0) : Type 0 where
  pub tables : W → TraceTables
  pub set_tables : TraceTables → W → W
  pub outage : W → Option Exn
  pub refuses_request : RequestRow → W → Option Exn
  pub refuses_spans : List SpanRow → W → Option Exn
  pub refuses_usage : UsageRow → W → Option Exn
  pub parse_uuid : String → Option String
  pub new_id : W → String × W

-- What `persist` and `flush` are given.
pub record Trace : Type 0 where
  pub trace_id : String
  pub tenant_id : String
  pub api_key_id : Option String
  pub http_status : ℕ
  pub request : ChatRequest
  pub response : ChatResponse
  pub spans : List TraceSpan

-- `m - n`
abbrev pub difference : ℕ → ℕ → ℤ
difference m zero = pos m
difference zero (suc n) = negsuc n
difference (suc m) (suc n) = difference m n

abbrev pub duration_ms : TraceSpan → Option ℤ
duration_ms span = elim span.ended_at [
  | none ↦ none
  | some ended_at ↦ some (difference ended_at span.started_at)
]

-- `scalar_one_or_none`
abbrev pub one_or_none : List RequestRow → Result (Option RequestRow)
one_or_none [] = ok none
one_or_none (row ∷ []) = ok (some row)
one_or_none (row ∷ next ∷ rows) = err (other "MultipleResultsFound")

unfoldable pub get_by_trace_id : String → TraceTables → Result (Option RequestRow)
get_by_trace_id trace_id t = one_or_none (select (λ row. row.trace_id == trace_id) t.requests)

abbrev pub request_row : String → String → Option String → Trace → RequestRow
request_row id tenant_uuid api_key_uuid t = record {
  id = id;
  trace_id = t.trace_id;
  tenant_id = tenant_uuid;
  api_key_id = api_key_uuid;
  provider = t.response.provider;
  model_requested = t.request.model;
  model_used = t.response.model;
  status = if ltb t.http_status 400 then "ok" else "error";
  cache_status = status_text t.response.cache_status;
  http_status = t.http_status;
  is_stream = t.request.stream;
  total_latency_ms = t.response.latency_ms;
  completed_at = t.response.created_at;
}

abbrev pub span_row : String → TraceSpan → SpanRow
span_row request_id span = record {
  request_id = request_id;
  span_name = span.span_name;
  parent_span_id = span.parent_span_id;
  started_at = span.started_at;
  ended_at = span.ended_at;
  duration_ms = duration_ms span;
  span_metadata = span.metadata;
}

abbrev pub span_rows : String → List TraceSpan → List SpanRow
span_rows request_id [] = []
span_rows request_id (span ∷ spans) = span_row request_id span ∷ span_rows request_id spans

abbrev pub usage_row : String → TokenUsage → ℕ → UsageRow
usage_row request_id usage cost_usd = record {
  request_id = request_id;
  input_tokens = usage.input_tokens;
  output_tokens = usage.output_tokens;
  total_tokens = total_tokens usage;
  cost_usd = cost_usd;
  pricing_id = none;
}

-- `for exporter in exporters`, each behind its own `except Exception`.
abbrev pub export_all :
    {W : Type 0} → List (List TraceSpan → Exec W (Unit {0})) → List TraceSpan → Exec W (Unit {0})
export_all [] spans = pure tt
export_all (exporter ∷ exporters) spans =
    or_default (exporter spans) tt >> export_all exporters spans

module _ {W : Type 0} (s : TraceStore W) where
  -- A row that is added and flushed, or the exception of the database.
  abbrev pub flushed : Option Exn → (TraceTables → TraceTables) → Exec W (Unit {0})
  flushed none change w = (ok tt, s.set_tables (change (s.tables w)) w)
  flushed (some e) change w = (err e, w)

  abbrev pub create_request : RequestRow → Exec W (Unit {0})
  create_request row w =
      flushed (s.refuses_request row w) (λ t. record t { requests = t.requests ++ (row ∷ []) }) w

  abbrev pub add_spans : List SpanRow → Exec W (Unit {0})
  add_spans rows w =
      flushed (s.refuses_spans rows w) (λ t. record t { request_spans = t.request_spans ++ rows }) w

  abbrev pub bulk_create : String → List TraceSpan → Exec W (Unit {0})
  bulk_create request_id [] = pure tt
  bulk_create request_id (span ∷ spans) = add_spans (span_rows request_id (span ∷ spans))

  abbrev pub create_usage : UsageRow → Exec W (Unit {0})
  create_usage row w =
      flushed (s.refuses_usage row w) (λ t. record t { token_usage = t.token_usage ++ (row ∷ []) })
        w

  abbrev pub parsed : String → Option String → Exec W (Option String)
  parsed text none = raise (value_error text)
  parsed text (some id) = pure (some id)

  -- `uuid.UUID(api_key_id) if api_key_id else None`
  abbrev pub key_uuid : Option String → Exec W (Option String)
  key_uuid api_key_id =
      let text = or_else api_key_id "" in
      if truthy api_key_id then parsed text (s.parse_uuid text) else pure none

  abbrev pub draw_id : Exec W String
  draw_id w = let (id, w') = s.new_id w in (ok id, w')

  abbrev pub insert_rows : String → Trace → Option String → String → Exec W (Unit {0})
  insert_rows tenant_uuid t api_key_uuid id = do
    create_request (request_row id tenant_uuid api_key_uuid t)
    bulk_create id t.spans
    create_usage (usage_row id t.response.usage t.response.cost_usd)

  abbrev pub insert : String → Trace → Option String → Exec W (Unit {0})
  insert tenant_uuid t api_key_uuid = do id ← draw_id; insert_rows tenant_uuid t api_key_uuid id

  -- The rows of a trace that is not there yet.
  unfoldable pub write : String → Trace → Exec W (Unit {0})
  write tenant_uuid t = do api_key_uuid ← key_uuid t.api_key_id; insert tenant_uuid t api_key_uuid

  abbrev pub write_new : String → Trace → Result (Option RequestRow) → Exec W (Unit {0})
  write_new tenant_uuid t (err e) = raise e
  write_new tenant_uuid t (ok (some existing)) = pure tt
  write_new tenant_uuid t (ok none) = write tenant_uuid t

  unfoldable pub look_and_write : String → Trace → Exec W (Unit {0})
  look_and_write tenant_uuid t w =
      write_new tenant_uuid t (get_by_trace_id t.trace_id (s.tables w)) w

  abbrev pub closed : W → Result (Unit {0}) × W → Result (Unit {0}) × W
  closed w (ok a, w') = (ok a, w')
  closed w (err e, w') = (err e, s.set_tables (s.tables w) w')

  abbrev pub opened : Option Exn → Exec W (Unit {0}) → Exec W (Unit {0})
  opened (some e) m w = (err e, w)
  opened none m w = closed w (m w)

  -- `async with database.session()`. A commit that fails is not modelled.
  unfoldable pub in_session : Exec W (Unit {0}) → Exec W (Unit {0})
  in_session m w = opened (s.outage w) m w

  abbrev pub persist_for : Trace → Option String → Exec W (Unit {0})
  persist_for t none = pure tt
  persist_for t (some tenant_uuid) = in_session (look_and_write tenant_uuid t)

  -- A tenant whose id is no UUID has no trace.
  unfoldable pub persist : Trace → Exec W (Unit {0})
  unfolding look_and_write in_session
  persist t = persist_for t (s.parse_uuid t.tenant_id)

  -- `_persist`: without a database nothing is written.
  abbrev pub persist_if : Bool → Trace → Exec W (Unit {0})
  persist_if has_database t = if has_database then persist t else pure tt

  unfoldable pub flush :
      Bool → List (List TraceSpan → Exec W (Unit {0})) → Trace → Exec W (Unit {0})
  unfolding persist
  flush has_database exporters t =
      or_default (persist_if has_database t) tt >> export_all exporters t.spans
