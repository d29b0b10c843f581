-- ===== src/RateLimit.antt =====
-- `RateLimitService` of services/rate_limit_service.py.
--
-- The arithmetic is exact: tokens are counted in 60000ths, so that a limit of n per minute refills
-- n units each millisecond; durations are fractions of milliseconds. The Redis client is a
-- parameter; a bucket's fields come back from it as the numbers that were written.
pub mod Bucket
use llmops_gateway.Prelude.{
  ℕ, zero, suc, ◌+◌, ◌-◌, ◌*◌, min, max, String, Bool, true, false, Option, none, some, or_else,
  ltb, if◌then◌else◌, ◌==◌, nat_eq,
}
use Prim.Native.String.{◌++◌}
use llmops_gateway.Prelude.Int.{ℤ, pos_part, nonzero}
use llmops_gateway.Errors.{
  Fraction, Exn, rate_limit_exceeded, Result, ok, err, Exec, ◌>>=◌, ◌>>◌, pure, raise,
}

abbrev pub prefix : String
prefix = "ratelimit:tenant:"

-- The units of one token.
abbrev pub token : ℕ
token = 60000

pub record BucketState : Type 0 where
  pub tokens : ℕ
  pub last_refill_ms : ℕ

-- The calls on the Redis client and on its pipeline. `execute` runs the queued `hset` and
-- `pexpire`, and answers `false` for a `WatchError`.
pub record BucketStore (W : Type 0) : Type 0 where
  pub watch : String → Exec W (Unit {0})
  pub unwatch : Exec W (Unit {0})
  pub hmget : String → Exec W (Option ℕ × Option ℕ)
  pub execute : String → BucketState → ℕ → Exec W Bool
  pub hset : String → BucketState → Exec W (Unit {0})
  pub pexpire : String → ℕ → Exec W (Unit {0})

pub data Verdict : Type 0 where
  allowed : Verdict
  limited : Fraction → Verdict

-- The tokens at `now_ms`, before any is taken. The truncated difference is the `max(0.0, …)`.
unfoldable pub refilled : ℕ → ℕ → Option ℕ × Option ℕ → ℕ
refilled limit now_ms (tokens, last_refill_ms) =
    min (limit * token)
      (or_else tokens (limit * token) + (now_ms - or_else last_refill_ms now_ms) * limit)

-- `max(int((capacity / refill_rate) * 2000), 1000)`: the capacity refills in 60 seconds.
abbrev pub ttl_ms : ℕ
ttl_ms = max (60 * 2000) 1000

-- The constructor's arguments.
pub record Config : Type 0 where
  pub default_limit_per_minute : ℤ
  pub enabled : Bool
  pub fail_open : Bool

-- `limit_per_minute or self._default_limit_per_minute`
abbrev pub effective_limit : Config → Option ℤ → ℤ
effective_limit c none = c.default_limit_per_minute
effective_limit c (some n) = if nonzero n then n else c.default_limit_per_minute

-- `max(retry_after, 0.001)`, in seconds.
abbrev pub at_least_1ms : Fraction → Fraction
at_least_1ms f = record f { num = max f.num f.den }

module _ {W : Type 0} (redis : BucketStore W) where
  unfoldable pub persist_bucket : String → BucketState → Exec W (Unit {0})
  persist_bucket key b = do redis.hset key b; redis.pexpire key ttl_ms

  -- One round of the loop; `again` is the rounds after it.
  unfoldable pub consume_round : String → ℕ → ℕ → ℕ → Exec W Verdict → Exec W Verdict
  unfolding refilled persist_bucket
  consume_round key limit now_ms cost again = do
    redis.watch key
    raw ← redis.hmget key
    let tokens = refilled limit now_ms raw
    if ltb tokens cost
        then (do
          redis.unwatch
          persist_bucket key (record { tokens = tokens; last_refill_ms = now_ms })
          pure (limited (record { num = cost - tokens; den = limit })))
        else (do
          done ←
              redis.execute key (record { tokens = tokens - cost; last_refill_ms = now_ms }) ttl_ms
          if done then pure allowed else again)

  -- After the last round: contention counts as limited, for the time of one token.
  unfoldable pub consume_token : ℕ → String → ℕ → ℕ → ℕ → Exec W Verdict
  unfolding consume_round
  consume_token zero key limit now_ms cost = pure (limited (record { num = token; den = limit }))
  consume_token (suc rounds) key limit now_ms cost =
      consume_round key limit now_ms cost (consume_token rounds key limit now_ms cost)

  -- The answer of the bucket, or the exception of the client, as the caller sees it.
  unfoldable pub conclude : Config → Result Verdict → Exec W (Unit {0})
  conclude c (ok allowed) = pure tt
  conclude c (ok (limited after)) = raise (rate_limit_exceeded (at_least_1ms after))
  conclude c (err e) = if c.fail_open then pure tt else raise e

  -- `now_ms` is `int(time.time() * 1000)`.
  unfoldable pub check_and_increment : Config → ℕ → String → Option ℤ → ℕ → Exec W (Unit {0})
  unfolding consume_token conclude
  check_and_increment c now_ms tenant_id limit_per_minute cost w =
      if c.enabled
      then (let limit = pos_part (effective_limit c limit_per_minute) in
          if limit == 0
          then (ok tt, w)
          else (let (answer, w') = consume_token 5 (prefix ++ tenant_id) limit now_ms cost w in
              conclude c answer w'))
      else (ok tt, w)
