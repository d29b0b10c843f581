-- ===== src/Api/Health/Readiness.antt =====
-- What `/health/ready` of api/v1/health.py says.
use llmops_gateway.Prelude.{
  String, Bool, true, false, ◌≡◌, ◌≢◌, refl, ◌↔◌, [], ◌∷◌, map, arith, ◌==◌, string_eq, ◌&&◌,
  if◌then◌else◌,
}
use llmops_gateway.Errors.{Exn, Result, ok, err, is_ok}
use llmops_gateway.Api.Health.{
  DependencyStatus, Probes, readiness, check_postgres, check_redis, check_qdrant, check_readiness,
  answer_of, pong_of, is_ready,
}

abbrev name_of : DependencyStatus → String
name_of d = d.name

abbrev answered : Result Bool → Bool
answered (ok pong) = pong
answered (err e) = false

answer_status :
    (show : Exn → String) (name : String) (r : Result (Unit {0}))
    → ((answer_of show name r).status == "ok") ≡ is_ok r
answer_status show name (ok _) = refl
answer_status show name (err e) = refl

answer_name :
    (show : Exn → String) (name : String) (r : Result (Unit {0}))
    → (answer_of show name r).name ≡ name
answer_name show name (ok _) = refl
answer_name show name (err e) = refl

pong_status :
    (show : Exn → String) (r : Result Bool) → ((pong_of show r).status == "ok") ≡ answered r
pong_status show (ok true) = refl
pong_status show (ok false) = refl
pong_status show (err e) = refl

pong_name : (show : Exn → String) (r : Result Bool) → (pong_of show r).name ≡ "redis"
pong_name show (ok true) = refl
pong_name show (ok false) = refl
pong_name show (err e) = refl

ready_iff :
    (b : Bool)
    → is_ready (record { status = if b then "ok" else "degraded"; dependencies = [] }) ≡ b
ready_iff true = refl
ready_iff false = refl

abbrev all_up : Probes → Bool
all_up p = is_ok p.postgres && (answered p.redis && (is_ok p.qdrant && true))

status_code_lem : (p : Probes) → (readiness p).status_code ≡ (if all_up p then 200 else 503)
unfolding readiness check_readiness check_postgres check_redis check_qdrant
status_code_lem p = rw (
  answer_status p.show "postgres" p.postgres,
  pong_status p.show p.redis,
  answer_status p.show "qdrant" p.qdrant,
  ready_iff (all_up p),
)

all_up_iff :
    (a : Result (Unit {0})) (b : Result Bool) (d : Result (Unit {0}))
    → ((is_ok a && (answered b && (is_ok d && true))) ≡ true)
      ↔ ((a ≡ ok tt) × (b ≡ ok true) × (d ≡ ok tt))
all_up_iff a b d = ground arith

-- The route answers 200 exactly where Postgres and Qdrant answer without an exception and Redis
-- answers `PING` with a true value, and 503 in every other case. Either way it names the three.
pub readiness_exact :
    (p : Probes)
    → (((readiness p).status_code ≡ 200)
        ↔ ((p.postgres ≡ ok tt) × (p.redis ≡ ok true) × (p.qdrant ≡ ok tt)))
      × (((readiness p).status_code ≡ 503) ↔ ((readiness p).status_code ≢ 200))
      × (map name_of (readiness p).content.dependencies ≡ "postgres" ∷ "redis" ∷ "qdrant" ∷ [])
unfolding readiness check_readiness check_postgres check_redis check_qdrant
readiness_exact p =
    let code = status_code_lem p in
    let up = all_up_iff p.postgres p.redis p.qdrant in
    (
      ground arith,
      ground arith,
      rw (
        answer_name p.show "postgres" p.postgres,
        pong_name p.show p.redis,
        answer_name p.show "qdrant" p.qdrant,
      ),
    )
