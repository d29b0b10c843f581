-- ===== src/Traces/Flushed.antt =====
-- `TracingService.flush` of services/tracing_service.py.
use llmops_gateway.Prelude.{◌≡◌, refl, ◌∙◌, Bool, List, [], ◌∷◌}
use llmops_gateway.Errors.{Result, ok, err, Exec, or_default}
use llmops_gateway.Errors.Inversion.{bind_run}
use llmops_gateway.Tracing.{TraceSpan}
use llmops_gateway.Traces.{TraceStore, Trace, export_all, persist_if, flush}

-- The world after the exporters, each called on what the one before it left, raise or not.
abbrev pub exported :
    {W : Type 0} → List (List TraceSpan → Exec W (Unit {0})) → List TraceSpan → W → W
exported [] spans w = w
exported (exporter ∷ exporters) spans w = exported exporters spans (exporter spans w).1

settled :
    {W : Type 0} (r : Result (Unit {0})) (w : W)
    → ◌≡◌ {A = Result (Unit {0}) × W} (elim r [ ok a ↦ (ok a, w) | err e ↦ (ok tt, w) ]) (ok tt, w)
settled (ok a) w = refl
settled (err e) w = refl

defaulted : {W : Type 0} (m : Exec W (Unit {0})) (w : W) → or_default m tt w ≡ (ok tt, (m w).1)
defaulted m w = settled (m w).0 (m w).1

export_all_total :
    {W : Type 0} (exporters : List (List TraceSpan → Exec W (Unit {0}))) (spans : List TraceSpan)
    (w : W)
    → export_all exporters spans w ≡ (ok tt, exported exporters spans w)
export_all_total [] spans w = refl
export_all_total (exporter ∷ exporters) spans w =
    bind_run (or_default (exporter spans) tt) (λ _. export_all exporters spans) w
      (defaulted (exporter spans) w)
    ∙ export_all_total exporters spans (exporter spans w).1

module _ {W : Type 0} (s : TraceStore W) where
  -- `flush` never raises: it leaves what the attempt to persist left, after each exporter has been
  -- called with all the spans in its turn, whatever the attempt and the exporters before it raised.
  pub flush_total :
      (has_database : Bool) (exporters : List (List TraceSpan → Exec W (Unit {0}))) (t : Trace)
      (w : W)
      → flush s has_database exporters t w
        ≡ (ok tt, exported exporters t.spans (persist_if s has_database t w).1)
  unfolding flush
  flush_total has_database exporters t w =
      bind_run (or_default (persist_if s has_database t) tt) (λ _. export_all exporters t.spans) w
        (defaulted (persist_if s has_database t) w)
      ∙ export_all_total exporters t.spans (persist_if s has_database t w).1
