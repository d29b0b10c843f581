-- ===== src/Caching/ExactCache/Tenants.antt =====
-- What a read of caching/redis_exact_cache.py finds after a write.
use Prim.Native.String.{count}
use llmops_gateway.Prelude.{
  ℕ, String, ◌≡◌, ◌≢◌, refl, ap, ◌∙◌, Bool, false, Option, none, some, ◌==◌, string_eq, eq_iff,
  if◌then◌else◌, Bool-cases, inl, inr,
}
use llmops_gateway.Domain.Chat.{ChatRequest, ChatResponse, exact_hit}
use llmops_gateway.Errors.{Exn, Result, ok, err, Exec, pure}
use llmops_gateway.Errors.Inversion.{bind_run}
use llmops_gateway.Caching.ExactCache.{ExactConfig, key, get, set, decoded, recover}
use llmops_gateway.Caching.Keys.{key_tenant}

-- A Redis that answers, whose contents are `view`.
pub record Answering {W : Type 0} (c : ExactConfig W) (view : W → String → Option String)
    : Type 0 where
  pub get : (k : String) (w : W) → c.redis.get k w ≡ (ok (view w k), w)
  pub set :
      (k v : String) (ttl : ℕ) (w : W)
      → (w' : W) × (c.redis.set k v ttl w ≡ (ok tt, w'))
        × ((j : String) → view w' j ≡ (if k == j then some v else view w j))

recover_run :
    {W A : Type 0} (caught : Exn → Bool) (d : A) (m : Exec W A) (w : W) {a : A} {w' : W}
    → m w ≡ (ok a, w')
    → recover caught d m w ≡ (ok a, w')
unfolding recover
recover_run {W} {A} caught d m w h =
    ap
      (λ (x : Result A × W). elim x.0 as (λ r. Result A × W) [
        | ok a ↦ (ok a, x.1)
        | err e ↦ if caught e then (ok d, x.1) else (err e, x.1)
      ])
      h

module _ {W : Type 0} (c : ExactConfig W) (view : W → String → Option String)
    (answering : Answering c view) where
  get_run :
      (request : ChatRequest) (tenant_id : String) (w : W)
      → get c request tenant_id w
        ≡ (ok (decoded c (view w (key c.sha256 c.printer request tenant_id))), w)
  unfolding get
  get_run request tenant_id w =
      let k = key c.sha256 c.printer request tenant_id in
      bind_run (recover c.is_redis_error none (c.redis.get k)) (λ raw. pure (decoded c raw)) w
        (recover_run c.is_redis_error none (c.redis.get k) w (answering.get k w))

  set_run :
      (request : ChatRequest) (response : ChatResponse) (tenant_id : String) (w : W)
      → (j : String)
      → view (set c request response tenant_id w).1 j ≡ (
          if key c.sha256 c.printer request tenant_id == j
          then some (c.encode response)
          else view w j)
  unfolding set
  set_run request response tenant_id w j =
      let k = key c.sha256 c.printer request tenant_id in
      let (w', e, written) = answering.set k (c.encode response) c.ttl_seconds w in
      let ran =
        recover_run c.is_redis_error tt (c.redis.set k (c.encode response) c.ttl_seconds) w e in
      ap (λ r. view r.1 j) ran ∙ written j

  -- Where Redis answers, digests have one length and the stored response decodes as it was: after a
  -- response is stored for a request and a tenant, the same request of that tenant is answered with
  -- it, marked as an exact hit, and every request of any other tenant gets what it got before.
  pub set-get_tenants :
      (n : ℕ) (request request' : ChatRequest) (response : ChatResponse)
      (tenant_id tenant_id' : String) (w : W)
      → ((text : String) → count (c.sha256 text) ≡ n)
      → c.decode (c.encode response) ≡ some response
      → tenant_id ≢ tenant_id'
      → ((get c request tenant_id (set c request response tenant_id w).1).0
          ≡ ok (some (record response { cache_status = exact_hit })))
        × ((get c request' tenant_id' (set c request response tenant_id w).1).0
            ≡ (get c request' tenant_id' w).0)
  set-get_tenants n request request' response tenant_id tenant_id' w sized back other =
      let own = key c.sha256 c.printer request tenant_id in
      let theirs = key c.sha256 c.printer request' tenant_id' in
      let after = (set c request response tenant_id w).1 in
      let apart : (own == theirs) ≡ false = elim (Bool-cases (own == theirs)) [
        | inl same ↦
            elim (other
              (key_tenant c.sha256 c.printer request request' tenant_id tenant_id' n sized
                ((eq_iff own theirs).0 same)).0) [ ]
        | inr e ↦ e
      ] in
      (
        rw (get_run request tenant_id after, set_run request response tenant_id w own)
            (rw ((eq_iff own own).1 refl, back)),
        rw (
          get_run request' tenant_id' after,
          get_run request' tenant_id' w,
          set_run request response tenant_id w theirs,
          apart,
        ),
      )
