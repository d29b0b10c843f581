-- ===== src/Gateway/Tasks.antt =====
-- The tasks that services/gateway_service.py creates: what `_finalize` starts, and
-- `_schedule_backfill`, with the jobs of workers/ that take their place.
use llmops_gateway.Prelude.{String, ◌≡◌, ap, ◌∙◌, Bool, true, false, Option, none, some, List}
use llmops_gateway.Domain.Chat.{ChatRequest, ChatResponse}
use llmops_gateway.Errors.{Result, ok, err, Exec, ◌>>◌, pure, or_default}
use llmops_gateway.Errors.Inversion.{bind_run}
use llmops_gateway.Json.{Json}
use llmops_gateway.Tracing.{TraceSpan}
use llmops_gateway.Traces.{TraceStore, Trace, persist_if, export_all, flush}
use llmops_gateway.CacheService.{CacheLayers, backfill}
use llmops_gateway.Jobs.{JobService, try_enqueue, run_backfill, after_persist, run_trace_flush}
use llmops_gateway.Workers.Payloads.{Codec, CodecLaws, IsValidated, build_trace_job_payload}
use llmops_gateway.Workers.Tasks.{persist_trace, export_otel_spans}
use llmops_gateway.Workers.RoundTrip.{jobs-build}

-- The arguments of `enqueue_job` after the name of the job.
pub data Arguments : Type 0 where
  trace_payload : Json → Arguments
  backfill_payloads : Json → Json → String → Arguments

-- What the tasks use of the gateway; `jobs` is `_background_jobs`.
pub record Background (W : Type 0) : Type 0 where
  pub codec : Codec
  pub store : TraceStore W
  pub has_database : Bool
  pub exporters : List (List TraceSpan → Exec W (Unit {0}))
  pub layers : CacheLayers W
  pub jobs : Option (JobService W Arguments)

module _ {W : Type 0} (g : Background W) where
  -- The coroutines `persist` and `export` of `_finalize` are those of `flush`.
  abbrev pub flush_with : Option (JobService W Arguments) → Trace → Exec W (Unit {0})
  flush_with none t = flush g.store g.has_database g.exporters t
  flush_with (some j) t =
      let payload = trace_payload (build_trace_job_payload g.codec t) in
      run_trace_flush j (persist_if g.store g.has_database t) (export_all g.exporters t.spans)
        payload payload

  unfoldable pub run_flush : Trace → Exec W (Unit {0})
  run_flush t = flush_with g.jobs t

  abbrev pub backfill_with :
      Option (JobService W Arguments) → ChatRequest → ChatResponse → String → Exec W (Unit {0})
  backfill_with none request response tenant_id = backfill g.layers request response tenant_id
  backfill_with (some j) request response tenant_id =
      run_backfill j (backfill g.layers request response tenant_id) (
        backfill_payloads (g.codec.dump_request request) (g.codec.dump_response response) tenant_id)

  unfoldable pub schedule_backfill : ChatRequest → ChatResponse → String → Exec W (Unit {0})
  schedule_backfill request response tenant_id = backfill_with g.jobs request response tenant_id

module _ {W : Type 0} (g : Background W) (laws : CodecLaws g.codec) where
  taken :
      (j : JobService W Arguments) (name : String) (payload : Arguments) (w : W) {v : W}
      → j.use_arq ≡ true
      → j.connected w ≡ true
      → j.enqueue_job name payload w ≡ (ok tt, v)
      → try_enqueue j name payload w ≡ (ok true, v)
  unfolding try_enqueue
  taken j name payload w arq on enqueued =
      rw (arq, on)
        (ap
          (λ (x : Result (Unit {0}) × W). elim x.0 as (λ r. Result Bool × W) [
            | ok _ ↦ (ok true, x.1)
            | err e ↦ (ok false, x.1)
          ])
          enqueued)

  -- Where the pool is connected and takes both jobs of a trace, the task leaves what the two
  -- calls of the pool leave; and where the request and the response validate as what was dumped,
  -- the jobs with that payload, the persistence first and its exception dropped, do on every world
  -- what `flush` does in a gateway with the database and the exporters of the worker.
  pub run_flush-flush :
      (j : JobService W Arguments) (t : Trace) (w : W) {w1 w2 : W} (v : W)
      → g.jobs ≡ some j
      → j.use_arq ≡ true
      → j.connected w ≡ true
      → j.enqueue_job "persist_trace" (trace_payload (build_trace_job_payload g.codec t)) w
        ≡ (ok tt, w1)
      → j.connected w1 ≡ true
      → j.enqueue_job "export_otel_spans" (trace_payload (build_trace_job_payload g.codec t)) w1
        ≡ (ok tt, w2)
      → IsValidated g.codec t
      → (run_flush g t w ≡ (ok tt, w2))
        × ((or_default (persist_trace g.codec g.store (build_trace_job_payload g.codec t)) tt
                >> export_otel_spans g.codec g.exporters (build_trace_job_payload g.codec t))
              v
            ≡ flush g.store true g.exporters t v)
  unfolding run_flush run_trace_flush after_persist flush
  run_flush-flush j t w {w1} v some_jobs arq on persisted on1 exported valid =
      let payload = trace_payload (build_trace_job_payload g.codec t) in
      (
        rw some_jobs (
            bind_run (try_enqueue j "persist_trace" payload)
              (after_persist j (persist_if g.store g.has_database t)
                (export_all g.exporters t.spans) payload)
              w (taken j "persist_trace" payload w arq on persisted)
            ∙ bind_run (try_enqueue j "export_otel_spans" payload) (λ b. pure tt) w1
                (taken j "export_otel_spans" payload w1 arq on1 exported)),
        (λ i.
            (or_default (λ u. (jobs-build g.codec laws g.store g.exporters t u valid).0 i) tt
                >> (λ u. (jobs-build g.codec laws g.store g.exporters t u valid).1 i))
              v),
      )
