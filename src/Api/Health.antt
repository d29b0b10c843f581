-- ===== src/Api/Health.antt =====
-- services/health_service.py and api/v1/health.py. A probe is what its client answers within the
-- timeout, where running out of time is an exception as any other; the three touch no state of one
-- another, so that they run at once makes no difference. `str(exc)` is a parameter.
pub mod Readiness
use llmops_gateway.Prelude.{
  ℕ, String, Bool, true, false, ◌&&◌, Option, none, some, List, [], ◌∷◌, ◌==◌, string_eq,
  if◌then◌else◌,
}
use llmops_gateway.Errors.{Exn, Result, ok, err}

pub record DependencyStatus : Type 0 where
  pub name : String
  pub status : String
  pub detail : Option String

pub record ReadinessReport : Type 0 where
  pub status : String
  pub dependencies : List DependencyStatus

-- What `SELECT 1`, `PING` and `get_collections` give.
pub record Probes : Type 0 where
  pub postgres : Result (Unit {0})
  pub redis : Result Bool
  pub qdrant : Result (Unit {0})
  pub show : Exn → String

abbrev pub up : String → DependencyStatus
up name = record { name = name; status = "ok"; detail = none }

abbrev pub down : String → String → DependencyStatus
down name detail = record { name = name; status = "error"; detail = some detail }

abbrev pub answer_of : (Exn → String) → String → Result (Unit {0}) → DependencyStatus
answer_of show name (ok _) = up name
answer_of show name (err e) = down name (show e)

abbrev pub pong_of : (Exn → String) → Result Bool → DependencyStatus
pong_of show (ok pong) = if pong then up "redis" else down "redis" "PING returned falsy"
pong_of show (err e) = down "redis" (show e)

unfoldable pub check_postgres : Probes → DependencyStatus
check_postgres p = answer_of p.show "postgres" p.postgres

unfoldable pub check_redis : Probes → DependencyStatus
check_redis p = pong_of p.show p.redis

unfoldable pub check_qdrant : Probes → DependencyStatus
check_qdrant p = answer_of p.show "qdrant" p.qdrant

abbrev pub all_ok : List DependencyStatus → Bool
all_ok [] = true
all_ok (d ∷ rest) = (d.status == "ok") && all_ok rest

abbrev pub report_of : List DependencyStatus → ReadinessReport
report_of dependencies = record {
  status = if all_ok dependencies then "ok" else "degraded";
  dependencies = dependencies;
}

-- No check raises, so `gather` gives the three in this order.
unfoldable pub check_readiness : Probes → ReadinessReport
unfolding check_postgres check_redis check_qdrant
check_readiness p = report_of (check_postgres p ∷ check_redis p ∷ check_qdrant p ∷ [])

abbrev pub is_ready : ReadinessReport → Bool
is_ready r = r.status == "ok"

pub record JsonResponse : Type 0 where
  pub status_code : ℕ
  pub content : ReadinessReport

unfoldable pub readiness : Probes → JsonResponse
unfolding check_readiness
readiness p = record {
  status_code = if is_ready (check_readiness p) then 200 else 503;
  content = check_readiness p;
}
