-- ===== src/Tests/Queues.antt =====
-- A pool that keeps the names of the jobs it takes, beside the tables of traces.
use llmops_gateway.Prelude.{String, ◌≡◌, refl, true, none, some, List, [], ◌∷◌}
use llmops_gateway.Clients.{Redis}
use llmops_gateway.Caching.ExactCache.{CacheStore}
use llmops_gateway.CacheService.{CacheLayers}
use llmops_gateway.Errors.{ok, ◌>>◌, or_default}
use llmops_gateway.Jobs.{JobService}
use llmops_gateway.Traces.{TraceTables, TraceStore, flush}
use llmops_gateway.Workers.Payloads.{build_trace_job_payload}
use llmops_gateway.Workers.Tasks.{persist_trace, export_otel_spans}
use llmops_gateway.Gateway.Tasks.{Arguments, Background, run_flush, run_flush-flush}
use llmops_gateway.Tests.Traces.{empty, trace, codec, codec-laws}

record Queue : Type 0 where
  tables : TraceTables
  jobs : List String

abbrev store : TraceStore Queue
store = record {
  tables = λ w. w.tables;
  set_tables = λ t w. record w { tables = t };
  outage = λ w. none;
  refuses_request = λ row w. none;
  refuses_spans = λ rows w. none;
  refuses_usage = λ row w. none;
  parse_uuid = λ s. some s;
  new_id = λ w. ("id", w);
}

abbrev redis : Redis Queue
redis = record {
  get = λ k w. (ok none, w);
  set = λ k v ttl w. (ok tt, w);
  set_nx = λ k v ttl w. (ok true, w);
  delete = λ k w. (ok tt, w);
}

abbrev cache : CacheStore Queue
cache = record { get = λ r t w. (ok none, w); set = λ r a t w. (ok tt, w) }

abbrev layers : CacheLayers Queue
layers = record {
  exact = cache;
  semantic = cache;
  redis = redis;
  is_redis_error = λ e. true;
  sha256 = λ s. s;
  printer = record { print_int = λ n. "None"; print_list = λ l. "None" };
  lock_ttl_seconds = 10;
  wait = 5;
  poll_interval = 1;
  clock = λ w. 0;
  sleep = λ n w. w;
  spawn_exact_set = λ r a t w. w;
}

abbrev pool : JobService Queue Arguments
pool = record {
  use_arq = true;
  connected = λ w. true;
  create_pool = λ w. (ok tt, w);
  close_pool = λ w. (ok tt, w);
  forget_pool = λ w. w;
  enqueue_job = λ name payload w. (ok tt, record w { jobs = name ∷ w.jobs });
  start = λ coroutine w. w;
}

abbrev background : Background Queue
background = record {
  codec = codec;
  store = store;
  has_database = true;
  exporters = (λ spans w. (ok tt, w)) ∷ [];
  layers = layers;
  jobs = some pool;
}

abbrev holding : List String → Queue
holding jobs = record { tables = empty; jobs = jobs }

run_flush-flush_example :
    (run_flush background trace (holding [])
      ≡ (ok tt, holding ("export_otel_spans" ∷ "persist_trace" ∷ [])))
    × ((or_default (persist_trace codec store (build_trace_job_payload codec trace)) tt
            >> export_otel_spans codec background.exporters (build_trace_job_payload codec trace))
          (holding [])
        ≡ flush store true background.exporters trace (holding []))
run_flush-flush_example =
    run_flush-flush background codec-laws pool trace (holding []) (holding []) refl refl refl refl
      refl refl (refl, refl)
