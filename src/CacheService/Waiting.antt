-- ===== src/CacheService/Waiting.antt =====
-- The loop of `CacheService.wait_for_coalesced_result` of services/cache_service.py ends.
use llmops_gateway.Prelude.{
  ℕ, zero, suc, ◌+◌, ◌≤◌, ◌<◌, ◌≡◌, refl, String, Option, none, some, ltb, arith, Bool-cases, inl,
  inr,
}
use llmops_gateway.Domain.Chat.{ChatRequest, ChatResponse}
use llmops_gateway.Errors.{Result, ok, err, Exec}
use llmops_gateway.CacheService.{CacheLayers, after_poll, wait_loop, wait_for_coalesced_result}

-- Sleeping takes at least a millisecond, and the clock does not go back while the cache is read.
pub record Advances {W : Type 0} (c : CacheLayers W) : Type 0 where
  pub slept : (w : W) → c.clock w < c.clock (c.sleep c.poll_interval w)
  pub read :
      (request : ChatRequest) (tenant_id : String) (w : W)
      → c.clock w ≤ c.clock (c.exact.get request tenant_id w).1

module _ {W : Type 0} (c : CacheLayers W) (advances : Advances c) where
  same_next :
      (again again' : Exec W (Option ChatResponse)) (x : Result (Option ChatResponse)) (w : W)
      → again w ≡ again' w
      → ◌≡◌ {A = Result (Option ChatResponse) × W}
          (elim x [ ok a ↦ after_poll c again a w | err e ↦ (err e, w) ])
          (elim x [ ok a ↦ after_poll c again' a w | err e ↦ (err e, w) ])
  unfolding after_poll
  same_next again again' (err e) w h = refl
  same_next again again' (ok none) w h = h
  same_next again again' (ok (some hit)) w h = refl

  -- Fuel for every millisecond that is left is enough: more changes nothing.
  wait_loop_fuel :
      (rounds more deadline : ℕ) (request : ChatRequest) (tenant_id : String) (w : W)
      → deadline ≤ c.clock w + rounds
      → wait_loop c (rounds + more) deadline request tenant_id w
        ≡ wait_loop c rounds deadline request tenant_id w
  unfolding wait_loop
  wait_loop_fuel zero zero deadline request tenant_id w h = refl
  wait_loop_fuel zero (suc more) deadline request tenant_id w h = ground arith
  wait_loop_fuel (suc rounds) more deadline request tenant_id w h =
      let w1 : W = c.sleep c.poll_interval w in
      let w2 : W = (c.exact.get request tenant_id w1).1 in
      let shift : suc rounds + more ≡ suc (rounds + more) = omega arith in
      elim (Bool-cases (ltb (c.clock w) deadline)) [
        | inr late ↦ rw (shift, late)
        | inl early ↦
            rw (shift, early)
              (same_next (wait_loop c (rounds + more) deadline request tenant_id)
                (wait_loop c rounds deadline request tenant_id) (c.exact.get request tenant_id w1).0
                w2
                (wait_loop_fuel rounds more deadline request tenant_id w2
                  (omega (arith, advances.slept w, advances.read request tenant_id w1))))
      ]

  -- Where each sleep takes at least a millisecond and the clock does not go back, the rounds that
  -- the model gives the loop never run out: any more rounds give the same result and world.
  pub wait_for_coalesced_result_enough :
      (more : ℕ) (request : ChatRequest) (tenant_id : String) (w : W)
      → wait_loop c (c.wait + more) (c.clock w + c.wait) request tenant_id w
        ≡ wait_for_coalesced_result c request tenant_id w
  unfolding wait_for_coalesced_result
  wait_for_coalesced_result_enough more request tenant_id w =
      wait_loop_fuel c.wait more (c.clock w + c.wait) request tenant_id w (omega arith)
