-- ===== src/RateLimit/Bucket.antt =====
-- The token bucket of services/rate_limit_service.py as a sequence of requests, and the loop of
-- `_consume_token` against it where no other client writes the key in between.
use llmops_gateway.Prelude.{
  ℕ, suc, ◌+◌, ◌-◌, ◌*◌, ◌≤◌, ◌≡◌, refl, ◌∙◌, ap, String, Bool, true, false, Option, none, some,
  List, [], ◌∷◌, ltb, leb, arith, ◌==◌, string_eq, eq_iff, sym, subst, if◌then◌else◌, Bool-cases,
  inl, inr,
}
use llmops_gateway.Errors.{Fraction, Result, ok}
use llmops_gateway.RateLimit.{
  token, BucketState, BucketStore, Verdict, allowed, limited, refilled, ttl_ms, consume_token,
}

abbrev pub fields : Option BucketState → Option ℕ × Option ℕ
fields none = (none, none)
fields (some b) = (some b.tokens, some b.last_refill_ms)

-- What one request does to the bucket, and whether it is admitted.
unfoldable pub take : ℕ → ℕ → ℕ → Option BucketState → Bool × BucketState
unfolding refilled
take limit cost now_ms b =
    let tokens = refilled limit now_ms (fields b) in
    if ltb tokens cost
    then (false, record { tokens = tokens; last_refill_ms = now_ms })
    else (true, record { tokens = tokens - cost; last_refill_ms = now_ms })

abbrev count_if : Bool → ℕ → ℕ
count_if true n = suc n
count_if false n = n

-- The number of requests admitted at the given times, and the bucket left.
pub serve : ℕ → ℕ → BucketState → List ℕ → ℕ × BucketState
serve limit cost b [] = (0, b)
serve limit cost b (now ∷ times) =
    let (admitted, b') = take limit cost now (some b) in
    let (more, last) = serve limit cost b' times in (count_if admitted more, last)

-- The clock does not go back.
abbrev pub Ordered : ℕ → List ℕ → Type 0
Ordered at [] = Unit
Ordered at (now ∷ times) = (at ≤ now) × Ordered now times

sub_mul : (a b c : ℕ) → b ≤ a → (a - b) * c + b * c ≡ a * c
sub_mul a b c h = grind arith

count_if_mul :
    (admitted : Bool) (n cost : ℕ)
    → count_if admitted n * cost ≡ count_if admitted 0 * cost + n * cost
count_if_mul true n cost = omega arith
count_if_mul false n cost = omega arith

take_budget :
    (limit cost now : ℕ) (b : BucketState)
    → b.last_refill_ms ≤ now
    → count_if (take limit cost now (some b)).0 0 * cost
        + (take limit cost now (some b)).1.tokens
        + b.last_refill_ms * limit
      ≤ b.tokens + (take limit cost now (some b)).1.last_refill_ms * limit
unfolding take
take_budget limit cost now b h = ground (arith, sub_mul now b.last_refill_ms limit h)

take_last :
    (limit cost now : ℕ) (b : BucketState) → (take limit cost now (some b)).1.last_refill_ms ≡ now
unfolding take
take_last limit cost now b = ground arith

-- While the clock does not go back, the cost of all admitted requests and the tokens left are at
-- most the tokens at the start and the refill over the time that passed.
pub serve_budget :
    (limit cost : ℕ) (b : BucketState) (times : List ℕ)
    → Ordered b.last_refill_ms times
    → (serve limit cost b times).0 * cost
        + (serve limit cost b times).1.tokens
        + b.last_refill_ms * limit
      ≤ b.tokens + (serve limit cost b times).1.last_refill_ms * limit
unfolding serve
serve_budget limit cost b [] h = omega arith
serve_budget limit cost b (now ∷ times) h = omega (
  arith,
  take_budget limit cost now b h.0,
  count_if_mul (take limit cost now (some b)).0
      (serve limit cost (take limit cost now (some b)).1 times).0 cost,
  serve_budget limit cost (take limit cost now (some b)).1 times
      (subst (λ at. Ordered at times) (sym (take_last limit cost now b)) h.1),
)

-- A refused request that costs no more than the capacity is admitted at a later time exactly when
-- the refill since then makes up for the missing tokens.
take_later :
    (limit cost now later : ℕ) (b : BucketState)
    → cost ≤ limit * token
    → (take limit cost now (some b)).0 ≡ false
    → now ≤ later
    → let left = (take limit cost now (some b)).1 in
      (take limit cost later (some left)).0 ≡ leb (cost - left.tokens) ((later - now) * limit)
unfolding take
take_later limit cost now later b h refused k = ground arith

-- A Redis in which nobody else writes the key: reads see `view`, writes change it, and no
-- transaction meets a `WatchError`.
pub record Serial {W : Type 0} (redis : BucketStore W) (view : W → String → Option BucketState)
    : Type 0 where
  pub watch : (k : String) (w : W) → (w' : W) × (redis.watch k w ≡ (ok tt, w')) × (view w' ≡ view w)
  pub unwatch : (w : W) → (w' : W) × (redis.unwatch w ≡ (ok tt, w')) × (view w' ≡ view w)
  pub hmget :
      (k : String) (w : W)
      → (w' : W) × (redis.hmget k w ≡ (ok (fields (view w k)), w')) × (view w' ≡ view w)
  pub execute :
      (k : String) (b : BucketState) (ttl : ℕ) (w : W)
      → (w' : W) × (redis.execute k b ttl w ≡ (ok true, w'))
        × ((j : String) → view w' j ≡ (if k == j then some b else view w j))
  pub hset :
      (k : String) (b : BucketState) (w : W)
      → (w' : W) × (redis.hset k b w ≡ (ok tt, w'))
        × ((j : String) → view w' j ≡ (if k == j then some b else view w j))
  pub pexpire :
      (k : String) (ttl : ℕ) (w : W)
      → (w' : W) × (redis.pexpire k ttl w ≡ (ok tt, w')) × (view w' ≡ view w)

abbrev pub is_allowed : Verdict → Bool
is_allowed allowed = true
is_allowed (limited after) = false

module _ {W : Type 0} (redis : BucketStore W) (view : W → String → Option BucketState)
    (serial : Serial redis view) where
  -- What the bucket answers: how long to wait where it refuses, in tokens per limit.
  abbrev verdict_of : ℕ → ℕ → Bool × BucketState → Verdict
  verdict_of limit cost (true, left) = allowed
  verdict_of limit cost (false, left) = limited (record { num = cost - left.tokens; den = limit })

  consume_token_run :
      (rounds : ℕ) (key : String) (limit now cost : ℕ) (w : W)
      → (w' : W) × (consume_token redis (suc rounds) key limit now cost w
          ≡ (ok (verdict_of limit cost (take limit cost now (view w key))), w'))
        × ((j : String)
            → view w' j
              ≡ (if key == j then some (take limit cost now (view w key)).1 else view w j))
  unfolding consume_token take
  consume_token_run rounds key limit now cost w =
      let (w1, e1, v1) = serial.watch key w in
      let (w2, e2, v2) = serial.hmget key w1 in
      let read : redis.hmget key w1 ≡ (ok (fields (view w key)), w2) = rw v1 at e2 in
      elim (Bool-cases (ltb (refilled limit now (fields (view w key))) cost)) [
        | inl short ↦
            let (w3, e3, v3) = serial.unwatch w2 in
            let b : BucketState = record {
              tokens = refilled limit now (fields (view w key));
              last_refill_ms = now;
            } in
            let (w4, e4, v4) = serial.hset key b w3 in
            let (w5, e5, v5) = serial.pexpire key ttl_ms w4 in
            (w5, ground arith, λ j. rw (v5, v4 j, v3, v2, v1, short, take))
        | inr enough ↦
            let b : BucketState = record {
              tokens = refilled limit now (fields (view w key)) - cost;
              last_refill_ms = now;
            } in
            let (w3, e3, v3) = serial.execute key b ttl_ms w2 in
            (w3, ground arith, λ j. rw (v3 j, v2, v1, enough, take))
      ]

  is_allowed-verdict_of :
      (limit cost : ℕ) (r : Bool × BucketState) → is_allowed (verdict_of limit cost r) ≡ r.0
  is_allowed-verdict_of limit cost (true, left) = refl
  is_allowed-verdict_of limit cost (false, left) = refl

  -- Where Redis answers and nobody else writes the key in between, the first round settles it: the
  -- answer is that of the bucket, which is written back, and no other key changes.
  pub consume_token-take :
      (rounds : ℕ) (key : String) (limit now cost : ℕ) (w : W)
      → (v : Verdict) × (w' : W) × (consume_token redis (suc rounds) key limit now cost w
          ≡ (ok v, w'))
        × (is_allowed v ≡ (take limit cost now (view w key)).0)
        × ((j : String)
            → view w' j
              ≡ (if key == j then some (take limit cost now (view w key)).1 else view w j))
  consume_token-take rounds key limit now cost w =
      let (w', e, written) = consume_token_run rounds key limit now cost w in
      (
        verdict_of limit cost (take limit cost now (view w key)),
        w',
        e,
        is_allowed-verdict_of limit cost (take limit cost now (view w key)),
        written,
      )

  told :
      (limit cost : ℕ) (r : Bool × BucketState) (f : Fraction)
      → verdict_of limit cost r ≡ limited f
      → (r.0 ≡ false) × (f ≡ record { num = cost - r.1.tokens; den = limit })
  told limit cost (true, left) f h = cc
  told limit cost (false, left) f h = (refl, cc)

  same_answer :
      {u v : Verdict} {x y : W}
      → ◌≡◌ {A = Result Verdict × W} (ok u, x) (ok v, y)
      → (u ≡ v) × (x ≡ y)
  same_answer h = (cc, cc)

  -- Where Redis answers and nobody else writes the key: a request that was told to wait, and that
  -- costs no more than the capacity, is admitted on a later call exactly when the time since the
  -- refusal is at least the fraction `num / den` that it was told.
  pub retry_after_exact :
      (rounds : ℕ) (key : String) (limit now later cost : ℕ) (b : BucketState) (f : Fraction)
      (w w' : W)
      → view w key ≡ some b
      → cost ≤ limit * token
      → now ≤ later
      → consume_token redis (suc rounds) key limit now cost w ≡ (ok (limited f), w')
      → (v : Verdict) × (w'' : W) × (consume_token redis (suc rounds) key limit later cost w'
          ≡ (ok v, w''))
        × (is_allowed v ≡ leb f.num ((later - now) * f.den))
  retry_after_exact rounds key limit now later cost b f w w' there fits ordered refused =
      let (w1, e1, written) = consume_token_run rounds key limit now cost w in
      let (answer, same) = same_answer (sym e1 ∙ refused) in
      let (short, wait) = told limit cost (take limit cost now (view w key)) f answer in
      let left = (take limit cost now (some b)).1 in
      let kept : view w' key ≡ some left =
        ap (λ v. view v key) (sym same) ∙ written key ∙ ground (arith, eq_iff key key, there) in
      let (w2, e2, _) = consume_token_run rounds key limit later cost w' in
      (
        verdict_of limit cost (take limit cost later (view w' key)),
        w2,
        e2,
        is_allowed-verdict_of limit cost (take limit cost later (view w' key))
            ∙ rw kept (
                take_later limit cost now later b fits (rw there at short) ordered
                ∙ rw (wait, there)),
      )
