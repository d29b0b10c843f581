-- ===== src/Jobs.antt =====
-- `BackgroundJobService` of services/background_job_service.py. The pool of arq is a parameter; a
-- coroutine that is handed over is a call on the world, and `start` adds a task that runs one.
pub mod Handover
use llmops_gateway.Prelude.{
  ℕ, String, Bool, true, false, not, ◌||◌, Option, none, some, if◌then◌else◌,
}
use llmops_gateway.Errors.{Exn, Result, ok, err, Exec, ◌>>=◌, ◌>>◌, pure, modify, or_default}

-- The object: `P` is the type of what a job is given. `connected` says that `_pool` is set,
-- `create_pool` makes a pool and sets it, and `forget_pool` sets it to `None`.
pub record JobService (W P : Type 0) : Type 0 where
  pub use_arq : Bool
  pub connected : W → Bool
  pub create_pool : Exec W (Unit {0})
  pub close_pool : Exec W (Unit {0})
  pub forget_pool : W → W
  pub enqueue_job : String → P → Exec W (Unit {0})
  pub start : Exec W (Unit {0}) → W → W

module _ {W P : Type 0} (j : JobService W P) where
  unfoldable pub connect : Exec W (Unit {0})
  connect = if j.use_arq then j.create_pool else pure tt

  unfoldable pub close : Exec W (Unit {0})
  close w = if j.connected w then (j.close_pool >> modify j.forget_pool) w else (ok tt, w)

  -- `_safe_run`: a coroutine that never raises.
  unfoldable pub safe_run : Exec W (Unit {0}) → Exec W (Unit {0})
  safe_run coroutine = or_default coroutine tt

  unfoldable pub try_enqueue : String → P → Exec W Bool
  try_enqueue job_name payload w =
      if not j.use_arq || not (j.connected w)
      then (ok false, w)
      else (let (r, w') = j.enqueue_job job_name payload w in
          elim r [ ok _ ↦ (ok true, w') | err e ↦ (ok false, w') ])

  unfoldable pub run_backfill : Exec W (Unit {0}) → P → Exec W (Unit {0})
  unfolding try_enqueue safe_run
  run_backfill coroutine payload = do
    enqueued ← try_enqueue "backfill_cache" payload
    if enqueued then pure tt else modify (j.start (safe_run coroutine))

  -- What follows the attempt to enqueue the persistence of a trace.
  unfoldable pub after_persist :
      Exec W (Unit {0}) → Exec W (Unit {0}) → P → Bool → Exec W (Unit {0})
  unfolding try_enqueue safe_run
  after_persist persist export export_payload true = do
    try_enqueue "export_otel_spans" export_payload
    pure tt
  after_persist persist export export_payload false = do
    modify (j.start (safe_run persist))
    modify (j.start (safe_run export))

  unfoldable pub run_trace_flush : Exec W (Unit {0}) → Exec W (Unit {0}) → P → P → Exec W (Unit {0})
  unfolding after_persist
  run_trace_flush persist export persist_payload export_payload = do
    enqueued ← try_enqueue "persist_trace" persist_payload
    after_persist persist export export_payload enqueued
