-- ===== src/Observability/Counted.antt =====
-- What the metrics of observability/metrics.py count.
use llmops_gateway.Prelude.{
  ◌+◌, String, true, false, ◌≡◌, refl, ◌==◌, string_eq, nat_eq, eq_iff, arith,
}
use llmops_gateway.Observability.{Metrics, Observed, record_request_metrics}

-- Whatever the status of the cache, an answer from it included, a request counts as one successful
-- call of the provider, and no call with another outcome is ever counted.
pub record_request_metrics-success :
    (o : Observed) (m : Metrics) (provider model outcome : String)
    → (outcome == "success") ≡ false
    → ((record_request_metrics o m).provider_requests_total o.provider o.model "success"
        ≡ m.provider_requests_total o.provider o.model "success" + 1)
      × ((record_request_metrics o m).provider_requests_total provider model outcome
          ≡ m.provider_requests_total provider model outcome)
unfolding record_request_metrics
record_request_metrics-success o m provider model outcome other =
    let p : (o.provider == o.provider) ≡ true = (eq_iff o.provider o.provider).1 refl in
    let q : (o.model == o.model) ≡ true = (eq_iff o.model o.model).1 refl in
    (rw (p, q), ground arith)
