-- ===== src/Workers/RoundTrip.antt =====
-- A job of workers/tasks/ does with a payload of workers/payloads.py what the gateway would do
-- itself.
use llmops_gateway.Prelude.{ℕ, String, ◌≡◌, refl, Option, none, some, List, [], ◌∷◌}
use llmops_gateway.Errors.{ok, Exec}
use llmops_gateway.Tracing.{TraceSpan}
use llmops_gateway.Traces.{TraceStore, Trace, persist, export_all}
use llmops_gateway.Workers.Payloads.{
  Codec, CodecLaws, IsValidated, optional_text, optional_of, time_of, ended_of, span_to_payload,
  span_items, spans_to_payload, span_from_payload, items_from_payload, spans_from_payload,
  build_trace_job_payload, parse_trace_job_payload,
}
use llmops_gateway.Workers.Tasks.{persist_trace, export_otel_spans}

module _ (c : Codec) (laws : CodecLaws c) where
  optional_back : (o : Option String) → optional_of c (some (optional_text o)) ≡ o
  optional_back none = refl
  optional_back (some s) = rw (laws.text_lem s)

  ended_back : (o : Option ℕ) → ended_of c (time_of c o) ≡ ok o
  ended_back none = refl
  ended_back (some t) = rw (laws.time_not_empty t, laws.time t)

  span_back : (span : TraceSpan) → span_from_payload c (span_to_payload c span) ≡ ok span
  unfolding span_from_payload span_to_payload
  span_back span = rw (
    laws.time span.started_at,
    ended_back span.ended_at,
    laws.text_lem span.trace_id,
    laws.text_lem span.span_id,
    laws.text_lem span.span_name,
    optional_back span.parent_span_id,
    laws.metadata span.metadata,
  )

  items_back : (spans : List TraceSpan) → items_from_payload c (span_items c spans) ≡ ok spans
  items_back [] = refl
  items_back (span ∷ spans) = rw (span_back span, items_back spans)

  spans_back : (spans : List TraceSpan) → spans_from_payload c (spans_to_payload c spans) ≡ ok spans
  unfolding spans_from_payload spans_to_payload
  spans_back spans = items_back spans

  -- Where a request and a response validate as what was dumped, the payload of a job reads back as
  -- the trace that it was built of, its spans included.
  pub parse-build :
      (t : Trace) → IsValidated c t → parse_trace_job_payload c (build_trace_job_payload c t) ≡ ok t
  unfolding parse_trace_job_payload build_trace_job_payload
  parse-build t valid = rw (
    valid.0,
    valid.1,
    spans_back t.spans,
    laws.text_lem t.trace_id,
    laws.text_lem t.tenant_id,
    optional_back t.api_key_id,
    laws.number t.http_status,
  )

  -- Where a request and a response validate as what was dumped, the two jobs that are handed the
  -- payload of a trace do what `persist` and the exporters do with
  -- the trace itself, on every world and with the same outcome.
  pub jobs-build :
      {W : Type 0} (s : TraceStore W) (exporters : List (List TraceSpan → Exec W (Unit {0})))
      (t : Trace) (w : W)
      → IsValidated c t
      → (persist_trace c s (build_trace_job_payload c t) w ≡ persist s t w)
        × (export_otel_spans c exporters (build_trace_job_payload c t) w
            ≡ export_all exporters t.spans w)
  unfolding persist_trace export_otel_spans build_trace_job_payload
  jobs-build s exporters t w valid = (rw (parse-build t valid), rw (spans_back t.spans))
