-- ===== src/Lib.antt =====
-- Verification of the LLMOps gateway: an asynchronous gateway in front of LLM providers, with
-- authentication, rate limiting, two cache layers, provider fallback, cost and tracing. Paths are
-- those of the repository's package, src/llmops_gateway/.
--
-- How the parts interact. A request passes the middleware (Middleware/Access: request context, then
-- auth, then rate limit, as main.py registers them). Auth asks AuthService (Auth), which reads the
-- tables behind ApiKeyRepository (Persistence/ApiKeys) through a Redis cache; the rate limit asks
-- RateLimitService (RateLimit). GatewayService (Gateway) maps the model by an adapter route
-- (Persistence/AdapterRoutes), asks CacheService (CacheService) for a stored answer in the exact
-- layer (Caching/ExactCache) and the semantic layer (Caching/SemanticCache), and on a miss takes the
-- coalescing lock and calls RoutingService (Routing), which tries providers of the registry
-- (Providers/Registry) one after the other. A provider call runs behind a circuit breaker with
-- retries (Providers/Breaker, Providers/Resilient). CostService (Cost) prices the answer with
-- Persistence/Pricing, Tracing records spans around the steps, and BackgroundJobService (Jobs) hands
-- write-backs and traces to a pool of workers or to local tasks; Gateway/Tasks is what those tasks do.
--
-- How code becomes definitions. A method is a function `Exec W A`, from a world `W` to a result or
-- an exception and the world after it (Errors). The world is abstract: Redis, Qdrant, the database
-- session, clocks, random numbers, sleeping, SHA-256, the reading and writing of JSON texts and the HTTP client are
-- record parameters over it, and what a theorem relies on is a record of named laws. An `await` is a
-- step of the world, so what other tasks do meanwhile is inside the parameters' steps. Tasks that
-- the code creates are added to the world by a `spawn` parameter. A method keeps its Python name,
-- less a leading underscore; helpers named after what follows (`after_lookup`, `settle`) are the
-- rest of a method's body after a call.
--
-- Numbers. Times are milliseconds, token buckets are counted in 60000ths of a token and durations
-- they report are fractions, prices are exact numbers of their stored unit and costs thousandths of
-- it; floats that are only printed (temperature, top_p) are their printed form.
--
-- Bounds and fuel. The retry loops recurse on the retries left, the bucket's loop on its five
-- rounds, routing on the planned attempts. The polling loop of CacheService has as many rounds of
-- fuel as the wait has milliseconds, and CacheService/Waiting shows what that needs to be enough. Tasks that run at once in
-- Embeddings and overlapping calls in Traces/Races are explicit sequences of steps.
--
-- The provider adapters (Adapters: Http and Lines hold what the two share, OpenAi and Anthropic the
-- rest) build the bodies of requests as JSON values (Json) and read responses and lines of
-- server-sent events. The routes are Api/Chat, Api/Health and Admin, whose Keys, Tables and Routes
-- follow api/v1/admin.py. Traces holds the persistence of a trace and `flush`, Workers the payloads
-- and the tasks of the arq workers. Observability holds the metrics and the exporters, Embeddings the
-- loading of the local model, Config what the settings compute.
--
-- Files. Prelude holds shared names, tests, lists, texts and integers; Errors the exceptions, the
-- monad and, in Errors/Fallible, blocks of steps that touch no state; Domain the data of requests and
-- responses; Clients the Redis parameter; the rest is named above. A child module of a part holds its
-- theorems. Tests holds small concrete worlds and each theorem applied in one.
--
-- Not modelled: a consumer that abandons a stream before its end, the computation of embeddings, the
-- set-up of OpenTelemetry and logging, the application's start-up and shutdown, and the
-- constructors of HTTP clients. Failing commits, a clock that goes back inside a circuit breaker, rounding of floats
-- and Unicode case are outside the model. The text of an error message is not kept.
pub mod Prelude
pub mod Domain
pub mod Errors
pub mod Providers
pub mod Routing
pub mod RateLimit
pub mod Clients
pub mod Security
pub mod Persistence
pub mod Auth
pub mod Middleware
pub mod Caching
pub mod CacheService
pub mod Cost
pub mod Tracing
pub mod Gateway
pub mod Jobs
pub mod Json
pub mod Adapters
pub mod Admin
pub mod Api
pub mod Traces
pub mod Workers
pub mod Observability
pub mod Embeddings
pub mod Config
pub mod Tests
