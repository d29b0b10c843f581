-- ===== src/CacheService.antt =====
-- `CacheService` of services/cache_service.py over two cache layers. Tasks that it creates are
-- added to the world by `spawn_exact_set`. Times are milliseconds.
pub mod Waiting
use Prim.Native.String.{◌++◌}
use llmops_gateway.Prelude.{
  ℕ, zero, suc, ◌+◌, String, Bool, true, Option, none, some, ltb, if◌then◌else◌,
}
use llmops_gateway.Domain.Chat.{
  ChatRequest, ChatResponse, CacheStatus, miss, exact_hit, semantic_hit, bypassed, Printer,
}
use llmops_gateway.Errors.{Exn, Result, ok, err, Exec, ◌>>=◌, ◌>>◌, pure, modify, or_default}
use llmops_gateway.Clients.{Redis}
use llmops_gateway.Caching.Hashing.{exact_cache_key}
use llmops_gateway.Caching.ExactCache.{CacheStore, recover}

-- The object, with the clock and the sleep of the event loop. `is_redis_error` says of an
-- exception that it is a `RedisError`; `lock_ttl_seconds` is already cut to an integer.
pub record CacheLayers (W : Type 0) : Type 0 where
  pub exact : CacheStore W
  pub semantic : CacheStore W
  pub redis : Redis W
  pub is_redis_error : Exn → Bool
  pub sha256 : String → String
  pub printer : Printer
  pub lock_ttl_seconds : ℕ
  pub wait : ℕ
  pub poll_interval : ℕ
  pub clock : W → ℕ
  pub sleep : ℕ → W → W
  pub spawn_exact_set : ChatRequest → ChatResponse → String → W → W

module _ {W : Type 0} (c : CacheLayers W) where
  unfoldable pub after_semantic :
      ChatRequest → String → Option ChatResponse → Exec W (Option ChatResponse × CacheStatus)
  after_semantic request tenant_id none = pure (none, miss)
  after_semantic request tenant_id (some hit) = do
    modify (c.spawn_exact_set request hit tenant_id)
    pure (some hit, semantic_hit)

  unfoldable pub after_exact :
      ChatRequest → String → Option ChatResponse → Exec W (Option ChatResponse × CacheStatus)
  unfolding after_semantic
  after_exact request tenant_id (some hit) = pure (some hit, exact_hit)
  after_exact request tenant_id none = do
    found ← c.semantic.get request tenant_id
    after_semantic request tenant_id found

  unfoldable pub lookup : ChatRequest → String → Exec W (Option ChatResponse × CacheStatus)
  unfolding after_exact
  lookup request tenant_id =
      if request.cache_bypass
      then pure (none, bypassed)
      else (do found ← c.exact.get request tenant_id; after_exact request tenant_id found)

  -- `asyncio.gather` with `return_exceptions`, one write after the other: neither stops the other.
  unfoldable pub backfill : ChatRequest → ChatResponse → String → Exec W (Unit {0})
  backfill request response tenant_id = do
    or_default (c.exact.set request response tenant_id) tt
    or_default (c.semantic.set request response tenant_id) tt

  unfoldable pub lock_key : ChatRequest → String → String
  unfolding exact_cache_key
  lock_key request tenant_id =
      "lock:" ++ (exact_cache_key c.sha256 c.printer request ++ (":tenant:" ++ tenant_id))

  unfoldable pub acquire_coalescing_lock : ChatRequest → String → Exec W Bool
  unfolding lock_key recover
  acquire_coalescing_lock request tenant_id =
      recover c.is_redis_error true
        (c.redis.set_nx (lock_key request tenant_id) "1" c.lock_ttl_seconds)

  unfoldable pub release_coalescing_lock : ChatRequest → String → Exec W (Unit {0})
  unfolding lock_key recover
  release_coalescing_lock request tenant_id =
      recover c.is_redis_error tt (c.redis.delete (lock_key request tenant_id))

  -- What a poll leads to: a hit ends the loop.
  unfoldable pub after_poll :
      Exec W (Option ChatResponse) → Option ChatResponse → Exec W (Option ChatResponse)
  after_poll again (some hit) = pure (some hit)
  after_poll again none = again

  -- The loop `while time.monotonic() < deadline`, on fuel.
  unfoldable pub wait_loop : ℕ → ℕ → ChatRequest → String → Exec W (Option ChatResponse)
  unfolding after_poll
  wait_loop zero deadline request tenant_id w = (ok none, w)
  wait_loop (suc rounds) deadline request tenant_id w =
      if ltb (c.clock w) deadline
      then (c.exact.get request tenant_id
            >>= after_poll (wait_loop rounds deadline request tenant_id))
          (c.sleep c.poll_interval w)
      else (ok none, w)

  -- As many rounds as the wait has milliseconds.
  unfoldable pub wait_for_coalesced_result : ChatRequest → String → Exec W (Option ChatResponse)
  unfolding wait_loop
  wait_for_coalesced_result request tenant_id w =
      wait_loop c.wait (c.clock w + c.wait) request tenant_id w
