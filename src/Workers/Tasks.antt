-- ===== src/Workers/Tasks.antt =====
-- workers/tasks/. A job that raises is one that arq runs again.
use llmops_gateway.Prelude.{String, List}
use llmops_gateway.Errors.{Exec, ◌>>=◌, pure}
use llmops_gateway.Errors.Fallible.{lift}
use llmops_gateway.Json.{Json, item}
use llmops_gateway.Tracing.{TraceSpan}
use llmops_gateway.Traces.{TraceStore, persist, export_all}
use llmops_gateway.CacheService.{CacheLayers, backfill}
use llmops_gateway.Workers.Payloads.{Codec, parse_trace_job_payload, spans_from_payload}

module _ {W : Type 0} (c : Codec) where
  unfoldable pub persist_trace : TraceStore W → Json → Exec W (Unit {0})
  persist_trace s payload = do t ← lift (parse_trace_job_payload c payload); persist s t

  unfoldable pub backfill_cache : CacheLayers W → Json → Json → String → Exec W (Unit {0})
  backfill_cache layers request_payload response_payload tenant_id = do
    request ← lift (c.validate_request request_payload)
    response ← lift (c.validate_response response_payload)
    backfill layers request response tenant_id

  -- `exporters` is empty where the context has none. The trace id is read for the log alone.
  unfoldable pub export_otel_spans :
      List (List TraceSpan → Exec W (Unit {0})) → Json → Exec W (Unit {0})
  export_otel_spans exporters trace_payload = do
    spans_payload ← lift (item "spans" trace_payload)
    spans ← lift (spans_from_payload c spans_payload)
    export_all exporters spans

unfoldable pub gc_expired_cache_entries : {W : Type 0} → Exec W (Unit {0})
gc_expired_cache_entries = pure tt
