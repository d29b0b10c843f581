-- ===== src/Jobs/Handover.antt =====
-- Where the work ends up that is handed to services/background_job_service.py.
use llmops_gateway.Prelude.{
  String, ◌≡◌, refl, ◌∙◌, Bool, true, false, not, ◌||◌, ◌⊎◌, inl, inr, arith, Bool-cases,
  if◌then◌else◌,
}
use llmops_gateway.Errors.{Exn, Result, ok, err, Exec, ◌>>◌, pure, modify}
use llmops_gateway.Errors.Inversion.{bind_run}
use llmops_gateway.Jobs.{
  JobService, connect, close, safe_run, try_enqueue, run_backfill, after_persist, run_trace_flush,
}

module _ {W P : Type 0} (j : JobService W P) where
  -- An attempt to enqueue either enqueued the job, or it left the world that no call or a failed
  -- call of the pool leaves; it never raises.
  abbrev pub Tried : String → P → W → Bool → W → Type 0
  Tried job_name payload w true w' = j.enqueue_job job_name payload w ≡ (ok tt, w')
  Tried job_name payload w false w' =
      (w' ≡ w) ⊎ ((e : Exn) × (j.enqueue_job job_name payload w ≡ (err e, w')))

  try_enqueue_cases :
      (job_name : String) (payload : P) (w : W)
      → (b : Bool) × (w' : W) × (try_enqueue j job_name payload w ≡ (ok b, w'))
        × Tried job_name payload w b w'
  unfolding try_enqueue
  try_enqueue_cases job_name payload w = elim (Bool-cases (not j.use_arq || not (j.connected w))) [
    | inl off ↦ (false, w, ground arith, inl refl)
    | inr on ↦
        rw on
          (called (j.enqueue_job job_name payload w).0 (j.enqueue_job job_name payload w).1 refl)
  ]
    where
      called :
          (r : Result (Unit {0})) (v : W)
          → j.enqueue_job job_name payload w ≡ (r, v)
          → (b : Bool) × (w' : W) × (◌≡◌ {A = Result Bool × W}
              (elim r [ ok _ ↦ (ok true, v) | err e ↦ (ok false, v) ])
              (ok b, w'))
            × Tried job_name payload w b w'
      called (ok tt) v eq = (true, v, refl, eq)
      called (err e) v eq = (false, v, refl, inr (e, eq))

  -- A write-back that is handed over is never lost and never raises: either the pool took the job,
  -- or the local task was started, in the world that the attempt to enqueue left.
  pub run_backfill_handed :
      (coroutine : Exec W (Unit {0})) (payload : P) (w : W)
      → (b : Bool) × (w' : W) × Tried "backfill_cache" payload w b w'
        × (run_backfill j coroutine payload w
            ≡ (ok tt, if b then w' else j.start (safe_run j coroutine) w'))
  unfolding run_backfill
  run_backfill_handed coroutine payload w =
      let (b, w', e, tried) = try_enqueue_cases "backfill_cache" payload w in
      (
        b,
        w',
        tried,
        bind_run (try_enqueue j "backfill_cache" payload)
              (λ b. if b then pure tt else modify (j.start (safe_run j coroutine))) w e
            ∙ elim (Bool-cases b) [ inl taken ↦ rw taken | inr left ↦ rw left ],
      )

  -- What becomes of a trace once its persistence has been tried.
  abbrev pub Flushed : Exec W (Unit {0}) → Exec W (Unit {0}) → P → Bool → W → W → Type 0
  Flushed persist export export_payload true w' v =
      (b : Bool) × Tried "export_otel_spans" export_payload w' b v
  Flushed persist export export_payload false w' v =
      v ≡ j.start (safe_run j export) (j.start (safe_run j persist) w')

  after_persist-Flushed :
      (persist export : Exec W (Unit {0})) (export_payload : P) (b : Bool) (w' : W)
      → (v : W) × (after_persist j persist export export_payload b w' ≡ (ok tt, v))
        × Flushed persist export export_payload b w' v
  unfolding after_persist
  after_persist-Flushed persist export export_payload true w' =
      let (b, v, e, tried) = try_enqueue_cases "export_otel_spans" export_payload w' in
      (
        v,
        bind_run (try_enqueue j "export_otel_spans" export_payload) (λ b. pure tt) w' e,
        (b, tried),
      )
  after_persist-Flushed persist export export_payload false w' = (_, refl, refl)

  -- A trace is never lost between the pool and the local tasks, and handing it over never raises:
  -- if the pool took the persistence job, the export job was tried on it as well; and else both
  -- local tasks were started, the persistence first.
  pub run_trace_flush_handed :
      (persist export : Exec W (Unit {0})) (persist_payload export_payload : P) (w : W)
      → (b : Bool) × (w' : W) × (v : W) × Tried "persist_trace" persist_payload w b w'
        × (run_trace_flush j persist export persist_payload export_payload w ≡ (ok tt, v))
        × Flushed persist export export_payload b w' v
  unfolding run_trace_flush
  run_trace_flush_handed persist export persist_payload export_payload w =
      let (b, w', e, tried) = try_enqueue_cases "persist_trace" persist_payload w in
      let (v, e', flushed) = after_persist-Flushed persist export export_payload b w' in
      (
        b,
        w',
        v,
        tried,
        bind_run (try_enqueue j "persist_trace" persist_payload)
              (after_persist j persist export export_payload) w e
            ∙ e',
        flushed,
      )

  -- A service without arq never makes a pool, so it enqueues nothing: whatever is handed to it is
  -- run by the local tasks, before `connect` and after it.
  pub connect-try_enqueue :
      (job_name : String) (payload : P) (w : W)
      → j.use_arq ≡ false
      → (connect j >> try_enqueue j job_name payload) w ≡ (ok false, w)
  unfolding connect try_enqueue
  connect-try_enqueue job_name payload w off = rw off

  close_run :
      (w : W) {v : W}
      → j.connected w ≡ true
      → j.close_pool w ≡ (ok tt, v)
      → close j w ≡ (ok tt, j.forget_pool v)
  unfolding close
  close_run w on closed = rw on (bind_run j.close_pool (λ _. modify j.forget_pool) w closed)

  -- Where closing the pool succeeds and it is set to `None` after that, nothing can be enqueued
  -- any more.
  pub close-try_enqueue :
      (job_name : String) (payload : P) (w : W) {v : W}
      → j.connected w ≡ true
      → j.close_pool w ≡ (ok tt, v)
      → j.connected (j.forget_pool v) ≡ false
      → (close j >> try_enqueue j job_name payload) w ≡ (ok false, j.forget_pool v)
  unfolding close try_enqueue
  close-try_enqueue job_name payload w {v} on closed forgotten =
      bind_run (close j) (λ _. try_enqueue j job_name payload) w (close_run w on closed)
      ∙ rw forgotten (elim (Bool-cases j.use_arq) [ inl arq ↦ rw arq | inr off ↦ rw off ])
