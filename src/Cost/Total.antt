-- ===== src/Cost/Total.antt =====
-- What `CostService.calculate_cost_usd` of services/cost_service.py answers where Redis or the
-- database fails.
use Prim.Native.String.{◌++◌}
use llmops_gateway.Prelude.{
  ℕ, ◌≡◌, refl, sym, ap, ◌∙◌, String, true, Option, none, some, arith, if◌then◌else◌,
}
use llmops_gateway.Domain.Chat.{TokenUsage}
use llmops_gateway.Domain.ModelIdentifier.{ModelIdentifier, to_string}
use llmops_gateway.Errors.{Result, ok, err, Exec}
use llmops_gateway.Caching.ExactCache.{recover}
use llmops_gateway.Cost.{
  CostConfig, cache_value, cost_of, load_from_database, after_cached, calculate_cost_usd,
}

-- What the client raises on a read or a write is a `RedisError`.
abbrev pub Raised : {W A : Type 0} → CostConfig W → Result A → Type 0
Raised c (ok a) = Unit
Raised c (err e) = c.is_redis_error e ≡ true

pub record OnlyRedisErrors {W : Type 0} (c : CostConfig W) : Type 0 where
  pub get : (k : String) (w : W) → Raised c (c.redis.get k w).0
  pub set : (k v : String) (ttl : ℕ) (w : W) → Raised c (c.redis.set k v ttl w).0

unwrap_ok : {A : Type 0} {a b : A} → ok a ≡ ok b → a ≡ b
unwrap_ok h = cc

module _ {W : Type 0} (c : CostConfig W) where
  recovered :
      {A : Type 0} (d : A) (m : Exec W A) (w : W)
      → Raised c (m w).0
      → (a : A) × (recover c.is_redis_error d m w ≡ (ok a, (m w).1))
  unfolding recover
  recovered {A = A} d m w h = settled (m w).0 (m w).1 h
    where
      settled :
          (r : Result A) (v : W)
          → Raised c r
          → (a : A) × (◌≡◌ {A = Result A × W}
              (elim r [
                | ok a ↦ (ok a, v)
                | err e ↦ if c.is_redis_error e then (ok d, v) else (err e, v)
              ])
              (ok a, v))
      settled (ok a) v k = (a, refl)
      settled (err e) v k = (d, rw k)

  after_cached-none :
      (model : ModelIdentifier) (w : W)
      → OnlyRedisErrors c
      → (w' : W) × (after_cached c model none w ≡ (ok (load_from_database c model w), w'))
  unfolding after_cached
  after_cached-none model w l =
      let p : Option (ℕ × ℕ) = load_from_database c model w in
      let k : String = "pricing:" ++ to_string model in
      let write : Exec W (Unit {0}) = c.redis.set k (cache_value c p) c.ttl_seconds in
      let (_, e) = recovered tt write w (l.set k (cache_value c p) c.ttl_seconds w) in
      ((write w).1, ground (arith, e))

  after_cached_total :
      (model : ModelIdentifier) (cached : Option String) (w : W)
      → OnlyRedisErrors c
      → (p : Option (ℕ × ℕ)) × (w' : W) × (after_cached c model cached w ≡ (ok p, w'))
  unfolding after_cached
  after_cached_total model (some cached) w l = (_, w, refl)
  after_cached_total model none w l =
      let (w', e) = after_cached-none model w l in (load_from_database c model w, w', e)

  -- Where Redis raises nothing but `RedisError`s, a cost is always computed: an outage of Redis,
  -- an outage of the database, a missing price and a corrupt entry raise nothing.
  pub calculate_cost_usd_total :
      (l : OnlyRedisErrors c) (model : ModelIdentifier) (usage : TokenUsage) (w : W)
      → (cost : ℕ) × (w' : W) × (calculate_cost_usd c model usage w ≡ (ok cost, w'))
  unfolding calculate_cost_usd
  calculate_cost_usd_total l model usage w =
      let read : Exec W (Option String) = c.redis.get ("pricing:" ++ to_string model) in
      let (cached, e) = recovered none read w (l.get ("pricing:" ++ to_string model) w) in
      let (p, w', e') = after_cached_total model cached (read w).1 l in
      (cost_of c usage p, w', ground (arith, e, e'))

  -- Where Redis raises nothing but `RedisError`s and its read gives no entry, by a miss or by an
  -- exception, the cost is that of the price in force in the database, and 0 where it gives none.
  pub calculate_cost_usd_uncached :
      (l : OnlyRedisErrors c) (model : ModelIdentifier) (usage : TokenUsage) (w : W)
      → (recover c.is_redis_error none (c.redis.get ("pricing:" ++ to_string model)) w).0 ≡ ok none
      → (calculate_cost_usd c model usage w).0
        ≡ ok (
            cost_of c usage
              (load_from_database c model (c.redis.get ("pricing:" ++ to_string model) w).1))
  unfolding calculate_cost_usd
  calculate_cost_usd_uncached l model usage w h =
      let read : Exec W (Option String) = c.redis.get ("pricing:" ++ to_string model) in
      let (cached, e) = recovered none read w (l.get ("pricing:" ++ to_string model) w) in
      let missed : cached ≡ none =
        unwrap_ok (sym (ap (λ (x : Result (Option String) × W). x.0) e) ∙ h) in
      let (w', e') = after_cached-none model (read w).1 l in ground (arith, e, e', missed)
