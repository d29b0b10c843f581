-- ===== src/Clients.antt =====
-- The Redis client that the services share (clients/redis_client.py creates it). It is a
-- parameter: each call may raise, and may change the world.
use llmops_gateway.Prelude.{ℕ, String, Bool, Option}
use llmops_gateway.Errors.{Exec}

pub record Redis (W : Type 0) : Type 0 where
  pub get : String → Exec W (Option String)
  pub set : String → String → ℕ → Exec W (Unit {0})
  pub set_nx : String → String → ℕ → Exec W Bool
  pub delete : String → Exec W (Unit {0})
