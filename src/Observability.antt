-- ===== src/Observability.antt =====
-- observability/: the metrics of a request, and the two exporters of spans. The clients of
-- Prometheus, OpenTelemetry and Langfuse are parameters or the list of what they are handed.
pub mod Counted
pub mod Parents
use llmops_gateway.Prelude.{
  ℕ, zero, suc, ◌+◌, ◌*◌, String, Bool, true, false, ◌&&◌, Option, none, some, or_else, truthy,
  List, [], ◌∷◌, ◌++◌, ◌==◌, string_eq, nat_eq, if◌then◌else◌,
}
use llmops_gateway.Json.{Json, null, text, obj, fields}
use llmops_gateway.Errors.{Exn, Result, ok, err, Exec}
use llmops_gateway.Tracing.{TraceSpan}
use llmops_gateway.Workers.Payloads.{optional_text, text_values}

-- The samples of the histogram and the counters, by their labels. Costs and times are in the units
-- of Domain/Chat.
pub record Metrics : Type 0 where
  pub request_latency : String → String → List ℕ
  pub cache_lookups_total : String → String → ℕ
  pub provider_requests_total : String → String → String → ℕ
  pub request_cost_usd_total : String → String → String → ℕ

abbrev pub add_at2 : String → String → ℕ → (String → String → ℕ) → String → String → ℕ
add_at2 a b n counter x y = if (x == a) && (y == b) then counter x y + n else counter x y

abbrev pub add_at3 :
    String → String → String → ℕ → (String → String → String → ℕ) → String → String → String → ℕ
add_at3 a b c n counter x y z =
    if (x == a) && (y == b) && (z == c) then counter x y z + n else counter x y z

abbrev pub observe_at : String → String → ℕ → (String → String → List ℕ) → String → String → List ℕ
observe_at a b n histogram x y =
    if (x == a) && (y == b) then histogram x y ++ (n ∷ []) else histogram x y

pub record Observed : Type 0 where
  pub route : String
  pub tenant_id : String
  pub provider : String
  pub model : String
  pub cache_status : String
  pub latency_ms : ℕ
  pub cost_usd : ℕ

unfoldable pub record_request_metrics : Observed → Metrics → Metrics
record_request_metrics o m = record {
  request_latency = observe_at o.route o.cache_status o.latency_ms m.request_latency;
  cache_lookups_total = add_at2 "combined" o.cache_status 1 m.cache_lookups_total;
  provider_requests_total = add_at3 o.provider o.model "success" 1 m.provider_requests_total;
  request_cost_usd_total =
      if o.cost_usd == 0
      then m.request_cost_usd_total
      else add_at3 o.tenant_id o.provider o.model o.cost_usd m.request_cost_usd_total;
}

-- A span that the tracer was handed; a parent is the place of an earlier one.
pub record OtelSpan : Type 0 where
  pub name : String
  pub parent : Option ℕ
  pub start_time : ℕ
  pub end_time : ℕ
  pub attributes : List (String × String)

abbrev pub to_epoch_nanos : ℕ → ℕ
to_epoch_nanos moment = moment * 1000000

unfoldable pub start_span : TraceSpan → Option ℕ → OtelSpan
start_span span parent_context = record {
  name = span.span_name;
  parent = parent_context;
  start_time = to_epoch_nanos span.started_at;
  end_time = to_epoch_nanos (or_else span.ended_at span.started_at);
  attributes = ("llmops.trace_id", span.trace_id) ∷ span.metadata;
}

-- `contexts.get(id)`: the last entry made for the id.
abbrev pub context_of : String → List (String × ℕ) → Option ℕ
context_of id [] = none
context_of id ((j, n) ∷ contexts) = if j == id then some n else context_of id contexts

abbrev pub parent_context : List (String × ℕ) → Option String → Option ℕ
parent_context contexts parent_span_id =
    if truthy parent_span_id then context_of (or_else parent_span_id "") contexts else none

-- The loop of `OtelTraceExporter.export`, at its `n`-th round.
unfoldable pub export_from : ℕ → List (String × ℕ) → List TraceSpan → List OtelSpan
export_from n contexts [] = []
export_from n contexts (span ∷ spans) =
    start_span span (parent_context contexts span.parent_span_id)
    ∷ export_from (suc n) ((span.span_id, n) ∷ contexts) spans

unfoldable pub otel_export : List TraceSpan → List OtelSpan
unfolding export_from
otel_export spans = export_from 0 [] spans

-- How `datetime` prints a time, and the ids that `uuid4` draws.
pub record EventTools : Type 0 where
  pub isoformat : ℕ → String
  pub uuid : ℕ → String

abbrev pub end_time : EventTools → Option ℕ → Json
end_time tools none = null
end_time tools (some t) = text (tools.isoformat t)

abbrev pub span_event : EventTools → String → ℕ → TraceSpan → Json
span_event tools now_iso n span = obj (
    fields (
      ("id", text (tools.uuid n))
      ∷ ("timestamp", text now_iso)
      ∷ ("type", text "span-create")
      ∷ (
        "body",
        obj (
            fields (
              ("id", text span.span_id)
              ∷ ("traceId", text span.trace_id)
              ∷ ("parentObservationId", optional_text span.parent_span_id)
              ∷ ("name", text span.span_name)
              ∷ ("startTime", text (tools.isoformat span.started_at))
              ∷ ("endTime", end_time tools span.ended_at)
              ∷ ("metadata", obj (fields (text_values span.metadata)))
              ∷ [])),
      )
      ∷ []))

abbrev pub span_events : EventTools → String → ℕ → List TraceSpan → List Json
span_events tools now_iso n [] = []
span_events tools now_iso n (span ∷ spans) =
    span_event tools now_iso n span ∷ span_events tools now_iso (suc n) spans

abbrev pub trace_event : EventTools → String → String → Json
trace_event tools now_iso trace_id = obj (
    fields (
      ("id", text (tools.uuid 0))
      ∷ ("timestamp", text now_iso)
      ∷ ("type", text "trace-create")
      ∷ (
        "body",
        obj (
            fields (
              ("id", text trace_id)
              ∷ ("name", text "chat_completion")
              ∷ ("timestamp", text now_iso)
              ∷ [])),
      )
      ∷ []))

-- `_build_events`, of the spans of an export, the first of them apart.
unfoldable pub build_events : EventTools → ℕ → TraceSpan → List TraceSpan → List Json
build_events tools now first spans =
    let now_iso = tools.isoformat now in
    trace_event tools now_iso first.trace_id ∷ span_events tools now_iso 1 (first ∷ spans)

-- `post` sends the batch: a status is only logged, and of the exceptions `is_http_error` says which
-- are caught.
pub record Ingestion (W : Type 0) : Type 0 where
  pub post : List Json → Exec W ℕ
  pub is_http_error : Exn → Bool
  pub now : W → ℕ
  pub tools : EventTools

module _ {W : Type 0} (i : Ingestion W) where
  abbrev pub settled : Result ℕ × W → Result (Unit {0}) × W
  settled (ok status_code, w) = (ok tt, w)
  settled (err e, w) = (if i.is_http_error e then ok tt else err e, w)

  unfoldable pub langfuse_export : List TraceSpan → Exec W (Unit {0})
  unfolding build_events
  langfuse_export [] w = (ok tt, w)
  langfuse_export (first ∷ spans) w =
      settled (i.post (build_events i.tools (i.now w) first spans) w)

-- The exporters that the settings ask for.
pub record ExporterSettings : Type 0 where
  pub tracing_enabled : Bool
  pub langfuse_enabled : Bool
  pub langfuse_public_key : Option String
  pub langfuse_secret_key : Option String

unfoldable pub build_trace_exporters : {A : Type 0} → ExporterSettings → A → A → List A
build_trace_exporters settings otel langfuse =
    (if settings.tracing_enabled then otel ∷ [] else [])
    ++ (if settings.langfuse_enabled
          && truthy settings.langfuse_public_key
          && truthy settings.langfuse_secret_key
        then langfuse ∷ []
        else [])
