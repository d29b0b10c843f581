-- ===== src/Tests/Buckets.antt =====
-- The token bucket of services/rate_limit_service.py over a store that is a function.
use llmops_gateway.Prelude.{
  ℕ, ◌+◌, ◌-◌, ◌*◌, ◌≡◌, ◌≤◌, String, true, Option, none, some, List, [], ◌∷◌, refl, arith, leb,
  ◌==◌, string_eq, if◌then◌else◌,
}
use llmops_gateway.Errors.{Fraction, ok}
use llmops_gateway.RateLimit.{token, BucketState, BucketStore, Verdict, limited, consume_token}
use llmops_gateway.RateLimit.Bucket.{
  fields, take, serve, Serial, is_allowed, serve_budget, retry_after_exact, consume_token-take,
}

abbrev full : BucketState
full = record { tokens = 120000; last_refill_ms = 0 }

abbrev arrivals : List ℕ
arrivals = 0 ∷ 10 ∷ 20 ∷ 40000 ∷ []

serve_budget_example :
    (serve 2 token full arrivals).0 * token
      + (serve 2 token full arrivals).1.tokens
      + full.last_refill_ms * 2
    ≤ full.tokens + (serve 2 token full arrivals).1.last_refill_ms * 2
serve_budget_example =
    serve_budget 2 token full arrivals
      (omega arith, (omega arith, (omega arith, (omega arith, tt))))

abbrev drained : BucketState
drained = record { tokens = 100; last_refill_ms = 0 }

abbrev Buckets : Type 0
Buckets = String → Option BucketState

abbrev written_at : String → BucketState → Buckets → Buckets
written_at k b w j = if k == j then some b else w j

abbrev own_store : BucketStore Buckets
own_store = record {
  watch = λ k w. (ok tt, w);
  unwatch = λ w. (ok tt, w);
  hmget = λ k w. (ok (fields (w k)), w);
  execute = λ k b ttl w. (ok true, written_at k b w);
  hset = λ k b w. (ok tt, written_at k b w);
  pexpire = λ k ttl w. (ok tt, w);
}

own_store-Serial : Serial own_store (λ w. w)
own_store-Serial = record {
  watch = λ k w. (w, refl, refl);
  unwatch = λ w. (w, refl, refl);
  hmget = λ k w. (w, refl, refl);
  execute = λ k b ttl w. (written_at k b w, refl, λ j. refl);
  hset = λ k b w. (written_at k b w, refl, λ j. refl);
  pexpire = λ k ttl w. (w, refl, refl);
}

abbrev one_drained : Buckets
one_drained k = if "ratelimit:tenant:a" == k then some drained else none

consume_token-take_example :
    (v : Verdict) × (w' : Buckets) × (consume_token own_store 5 "ratelimit:tenant:a" 2 10 token
        one_drained
      ≡ (ok v, w'))
    × (is_allowed v ≡ (take 2 token 10 (one_drained "ratelimit:tenant:a")).0)
    × ((j : String)
        → w' j ≡ (
            if "ratelimit:tenant:a" == j
            then some (take 2 token 10 (one_drained "ratelimit:tenant:a")).1
            else one_drained j))
consume_token-take_example =
    consume_token-take own_store (λ w. w) own_store-Serial 4 "ratelimit:tenant:a" 2 10 token
      one_drained

-- What is missing of a token, at two tokens a minute.
abbrev wait : Fraction
wait = record { num = token - 120; den = 2 }

abbrev after_refusal : Buckets
after_refusal =
    written_at "ratelimit:tenant:a" (record { tokens = 120; last_refill_ms = 10 }) one_drained

drained_refuses :
    consume_token own_store 5 "ratelimit:tenant:a" 2 10 token one_drained
    ≡ (ok (limited wait), after_refusal)
unfolding consume_token
drained_refuses = refl

retry_after_exact_example :
    (v : Verdict) × (w' : Buckets) × (consume_token own_store 5 "ratelimit:tenant:a" 2 30000 token
        after_refusal
      ≡ (ok v, w'))
    × (is_allowed v ≡ leb wait.num ((30000 - 10) * wait.den))
retry_after_exact_example =
    retry_after_exact own_store (λ w. w) own_store-Serial 4 "ratelimit:tenant:a" 2 10 30000 token
      drained wait one_drained after_refusal refl (omega arith) (omega arith) drained_refuses
