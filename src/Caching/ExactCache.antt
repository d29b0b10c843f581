-- ===== src/Caching/ExactCache.antt =====
-- caching/redis_exact_cache.py, and the port of domain/interfaces/cache_store.py.
pub mod Tenants
use Prim.Native.String.{◌++◌}
use llmops_gateway.Prelude.{ℕ, String, Bool, Option, none, some, if◌then◌else◌}
use llmops_gateway.Domain.Chat.{ChatRequest, ChatResponse, Printer, exact_hit}
use llmops_gateway.Errors.{Exn, ok, err, Exec, ◌>>=◌, pure}
use llmops_gateway.Clients.{Redis}
use llmops_gateway.Caching.Hashing.{exact_cache_key}

-- A cache layer.
pub record CacheStore (W : Type 0) : Type 0 where
  pub get : ChatRequest → String → Exec W (Option ChatResponse)
  pub set : ChatRequest → ChatResponse → String → Exec W (Unit {0})

-- `except` clauses that end in a value: exceptions that `caught` accepts become `d`.
unfoldable pub recover : {W A : Type 0} → (Exn → Bool) → A → Exec W A → Exec W A
recover caught d m w =
    let (r, w') = m w in
    elim r [ ok a ↦ (ok a, w') | err e ↦ if caught e then (ok d, w') else (err e, w') ]

unfoldable pub key : (String → String) → Printer → ChatRequest → String → String
unfolding exact_cache_key
key sha256 p r tenant_id = exact_cache_key sha256 p r ++ (":tenant:" ++ tenant_id)

-- `decode` is `none` for a `ValueError`; `is_redis_error` says of an exception that it is a
-- `TimeoutError` or a `RedisError`. The client's calls include their timeouts.
pub record ExactConfig (W : Type 0) : Type 0 where
  pub redis : Redis W
  pub sha256 : String → String
  pub printer : Printer
  pub ttl_seconds : ℕ
  pub encode : ChatResponse → String
  pub decode : String → Option ChatResponse
  pub is_redis_error : Exn → Bool

module _ {W : Type 0} (c : ExactConfig W) where
  abbrev pub decoded : Option String → Option ChatResponse
  decoded none = none
  decoded (some raw) = elim (c.decode raw) [
    | none ↦ none
    | some response ↦ some (record response { cache_status = exact_hit })
  ]

  unfoldable pub get : ChatRequest → String → Exec W (Option ChatResponse)
  unfolding recover key
  get request tenant_id = do
    raw ← recover c.is_redis_error none (c.redis.get (key c.sha256 c.printer request tenant_id))
    pure (decoded raw)

  unfoldable pub set : ChatRequest → ChatResponse → String → Exec W (Unit {0})
  unfolding recover key
  set request response tenant_id =
      recover c.is_redis_error tt
        (c.redis.set (key c.sha256 c.printer request tenant_id) (c.encode response) c.ttl_seconds)

  -- The layer as the cache service takes it.
  abbrev pub store : CacheStore W
  store = record { get = get; set = set }
