-- ===== src/Providers/Resilient/Attempts.antt =====
-- How often `BaseLLMProvider.complete` of providers/base.py calls the upstream, and what its
-- errors mean.
use native.Mathlib.Nat.{pow-suc}
use llmops_gateway.Prelude.{
  Option, ℕ, zero, suc, ◌+◌, ◌^◌, ◌≤◌, ◌<◌, ◌≡◌, refl, Bool, true, false, none, some, ◌⊎◌, inl, inr,
  arith, Bool-cases, subst, ◌∙◌,
}
use llmops_gateway.Prelude.Int.{ℤ, pos_part}
use llmops_gateway.Domain.Chat.{ChatRequest, ChatResponse}
use llmops_gateway.Errors.{
  ProviderError, unavailable, retryable, retry_after, provider, Result, ok, err,
}
use llmops_gateway.Providers.Breaker.{CircuitBreaker}
use llmops_gateway.Providers.Resilient.{
  backoff_jitter, compute_backoff_delay, Provider, Runtime, allowed, succeeded, failed, wait,
  back_off, settle, complete_loop, complete,
}

one-le-pow : (n : ℕ) → 1 ≤ 2 ^ n
one-le-pow zero = omega arith
one-le-pow (suc n) = rw pow-suc (omega (arith, one-le-pow n))

-- Without a `Retry-After`, and with a draw within the jitter, the delay is at least half a second
-- and at most 20.5 seconds, whatever the attempt; with one it is that value, or 0 if negative.
pub compute_backoff_delay_bounds :
    (attempt drawn : ℕ) (after : ℤ)
    → drawn ≤ backoff_jitter
    → (500 ≤ compute_backoff_delay attempt none drawn)
      × (compute_backoff_delay attempt none drawn ≤ 20500)
      × (compute_backoff_delay attempt (some after) drawn ≡ pos_part after)
unfolding compute_backoff_delay
compute_backoff_delay_bounds attempt drawn after h =
    (omega (arith, one-le-pow attempt), omega arith, refl)

-- A count of upstream calls that only `complete_impl` moves, by one.
pub record Counts {W : Type 0} (rt : Runtime W) (p : Provider W) (calls : W → ℕ) : Type 0 where
  pub impl : (request : ChatRequest) (w : W) → calls (p.complete_impl request w).1 ≡ calls w + 1
  pub set_circuit : (b : CircuitBreaker) (w : W) → calls (p.set_circuit b w) ≡ calls w
  pub sleep : (delay : ℕ) (w : W) → calls (rt.sleep delay w) ≡ calls w
  pub uniform : (bound : ℕ) (w : W) → calls (rt.uniform bound w).1 ≡ calls w

module _ {W : Type 0} (rt : Runtime W) (p : Provider W) (calls : W → ℕ)
    (c : Counts rt p calls) where
  calls-failed : (w : W) → calls (failed rt p w) ≡ calls w
  unfolding failed
  calls-failed w = c.set_circuit _ w

  calls-succeeded : (w : W) → calls (succeeded rt p w) ≡ calls w
  unfolding succeeded
  calls-succeeded w = c.set_circuit _ w

  calls-wait :
      (attempt : ℕ) (after : Option ℤ) (w : W) → calls (wait rt p attempt after w) ≡ calls w
  calls-wait attempt (some after) w = omega (arith, c.sleep)
  calls-wait attempt none w = omega (arith, c.sleep, c.uniform backoff_jitter w)

  calls-back_off :
      (attempt : ℕ) (e : ProviderError) (w : W) → calls (back_off rt p attempt e w) ≡ calls w
  unfolding back_off
  calls-back_off attempt e w = calls-wait attempt (retry_after e) w

  -- What a loop that began with `before` calls made and `left` retries left has done.
  abbrev pub Spent : ℕ → ℕ → Result ChatResponse × W → Type 0
  Spent before left (ok response, w) = (before < calls w) × (calls w ≤ before + left + 1)
  Spent before left (err (provider e), w) =
      (before < calls w)
      × (calls w ≤ before + left + 1)
      × ((retryable e ≡ false) ⊎ (calls w ≡ before + left + 1))
  Spent before left (err e, w) = (before < calls w) × (calls w ≤ before + left + 1)

  -- One attempt more was made before.
  Spent-more :
      (before left : ℕ) (x : Result ChatResponse × W)
      → Spent (before + 1) left x
      → Spent before (suc left) x
  Spent-more before left (ok response, w) h = omega arith
  Spent-more before left (err (provider e), w) h =
      (omega arith, omega arith, elim h.2 [ inl fatal ↦ inl fatal | inr all ↦ inr (omega arith) ])
  Spent-more before left (err x, w) h = omega arith

  all_spent :
      (before : ℕ) {n : ℕ} {A : Type 0}
      → n ≡ before + 1
      → (before < n) × (n ≤ before + 0 + 1) × (A ⊎ (n ≡ before + 0 + 1))
  all_spent before h = (omega arith, omega arith, inr (omega arith))

  settle_last-Spent :
      (before : ℕ) (again : ProviderError → W → Result ChatResponse × W) (r : Result ChatResponse)
      (w : W)
      → calls w ≡ before + 1
      → Spent before 0 (settle rt p true again r w)
  unfolding settle
  settle_last-Spent before again (ok response) w h = omega (arith, calls-succeeded w)
  settle_last-Spent before again (err (provider e)) w h = elim (Bool-cases (retryable e)) [
    | inl again_ok ↦ rw again_ok (all_spent before (calls-failed w ∙ h))
    | inr fatal ↦ rw fatal (all_spent before (calls-failed w ∙ h))
  ]
  settle_last-Spent before again (err x) w h = omega arith

  settle_more-Spent :
      (before left : ℕ) (again : ProviderError → W → Result ChatResponse × W)
      (r : Result ChatResponse) (w : W)
      → calls w ≡ before + 1
      → ((e : ProviderError) (w' : W)
          → calls w' ≡ before + 1
          → Spent (before + 1) left (again e w'))
      → Spent before (suc left) (settle rt p false again r w)
  unfolding settle
  settle_more-Spent before left again (ok response) w h more = omega (arith, calls-succeeded w)
  settle_more-Spent before left again (err (provider e)) w h more =
      elim (Bool-cases (retryable e)) [
        | inl again_ok ↦ rw again_ok (
            Spent-more before left (again e (failed rt p w))
              (more e (failed rt p w) (omega (arith, calls-failed w))))
        | inr fatal ↦
            rw fatal (omega (arith, calls-failed w), omega (arith, calls-failed w), inl fatal)
      ]
  settle_more-Spent before left again (err x) w h more = omega arith

  complete_loop-Spent :
      (left attempt : ℕ) (request : ChatRequest) (w : W)
      → Spent (calls w) left (complete_loop rt p left attempt request w)
  unfolding complete_loop
  complete_loop-Spent zero attempt request w =
      settle_last-Spent (calls w) (λ e w'. (err (provider e), w')) (p.complete_impl request w).0
        (p.complete_impl request w).1 (c.impl request w)
  complete_loop-Spent (suc left) attempt request w =
      settle_more-Spent (calls w) left
        (λ e w'. complete_loop rt p left (attempt + 1) request (back_off rt p attempt e w'))
        (p.complete_impl request w).0 (p.complete_impl request w).1 (c.impl request w)
        λ e w' h.
          subst
            (λ n.
              Spent n left
                (complete_loop rt p left (attempt + 1) request (back_off rt p attempt e w')))
            (calls-back_off attempt e w' ∙ h)
            (complete_loop-Spent left (attempt + 1) request (back_off rt p attempt e w'))

  abbrev pub Accounted : Bool → W → Result ChatResponse × W → Type 0
  Accounted false w x = x ≡ (err (provider (unavailable p.name)), w)
  Accounted true w x = Spent (calls w) p.max_retries x

  -- Where only `complete_impl` moves the count of upstream calls: a call that the circuit breaker
  -- refuses makes none and raises that the provider is unavailable; any other makes at least one
  -- and at most `max_retries + 1`, and exactly that many if it ends in a retryable error.
  pub complete-Accounted :
      (request : ChatRequest) (w : W) → Accounted (allowed rt p w) w (complete rt p request w)
  unfolding complete
  complete-Accounted request w = elim (Bool-cases (allowed rt p w)) [
    | inl admitted ↦ rw admitted (complete_loop-Spent p.max_retries 0 request w)
    | inr refused ↦ rw refused
  ]
