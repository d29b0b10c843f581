-- ===== src/Auth/Revocation.antt =====
-- `AuthService.revoke_api_key` of services/auth_service.py, and what `authenticate` says after it.
use llmops_gateway.Prelude.{
  String, ◌≡◌, ◌≢◌, refl, ap, sym, subst, ◌∙◌, List, [], ◌∷◌, true, false, Option, none, some, ◌==◌,
  string_eq, eq_iff, arith, Bool-cases, inl, inr,
}
use llmops_gateway.Errors.{ok}
use llmops_gateway.Security.{hash_api_key, is_valid_api_key_format}
use llmops_gateway.Persistence.ApiKeys
use llmops_gateway.Persistence.ApiKeys.{KeyTables, ApiKeyRow, get_active_by_key_hash, get_by_id}
use llmops_gateway.Persistence.ApiKeys.Revoked.{
  OnlyRow, OtherRow, get_active-revoke_self, get_active-revoke_other,
}
use llmops_gateway.Auth.{Backend, cache_key, authenticate, revoke_api_key}
use llmops_gateway.Auth.Transparent.{
  Lawful, Coherent, Agrees, Agrees-none, db_principal, authenticate-Right,
}

-- The world after authenticating with some keys, one after the other.
abbrev pub authenticated : {W : Type 0} → Backend W → List String → W → W
authenticated s [] v = v
authenticated s (raw_key ∷ raw_keys) v = authenticated s raw_keys (authenticate s raw_key v).1

module _ {W : Type 0} (s : Backend W) (view : W → String → Option String) (l : Lawful s view)
    (i : String) (w : W) (k : ApiKeyRow) where
  abbrev after : KeyTables
  after = (ApiKeys.revoke (s.now w) i (s.db w)).1

  revoke_run :
      (w' : W)
      → s.outage w ≡ none
      → get_by_id (s.db w) i ≡ some k
      → (ApiKeys.revoke (s.now w) i (s.db w)).0 ≡ true
      → s.redis.delete (cache_key s k.key_hash) (s.set_db after w) ≡ (ok tt, w')
      → revoke_api_key s i w ≡ (ok true, w')
  unfolding revoke_api_key
  revoke_run w' up found done gone = ground arith

  malformed_kept :
      (raw_key : String) (v : W)
      → is_valid_api_key_format raw_key ≡ false
      → (authenticate s raw_key v).1 ≡ v
  unfolding authenticate
  malformed_kept raw_key v malformed = rw malformed

  authenticated_kept :
      (raw_keys : List String) (db : KeyTables) (v : W)
      → ((x : W) → s.outage x ≡ none)
      → s.db v ≡ db
      → Coherent s view (view v) db
      → (s.db (authenticated s raw_keys v) ≡ db)
        × Coherent s view (view (authenticated s raw_keys v)) db
  authenticated_kept [] db v up d c = (d, c)
  authenticated_kept (raw_key ∷ raw_keys) db v up d c =
      elim (Bool-cases (is_valid_api_key_format raw_key)) [
        | inl valid ↦
            let (_, d', c') =
              authenticate-Right s view l raw_key v valid up
                (subst (Coherent s view (view v)) (sym d) c) in
            authenticated_kept raw_keys db (authenticate s raw_key v).1 up (d' ∙ d)
              (subst (Coherent s view (view (authenticate s raw_key v).1)) d c')
        | inr malformed ↦
            let same = sym (malformed_kept raw_key v malformed) in
            authenticated_kept raw_keys db (authenticate s raw_key v).1 up
              (subst (λ x. s.db x ≡ db) same d) (subst (λ x. Coherent s view (view x) db) same c)
      ]

  -- Where Redis answers and the database is reachable, the cache is coherent, ids and key hashes
  -- are unique, and the row is there and not yet revoked: `revoke_api_key` succeeds, it leaves the
  -- cache coherent, and a key of that hash is refused after any authentications that follow it one
  -- after the other. What runs at the same time as the revocation is not covered.
  pub revoke_api_key-refuses :
      (raw_key : String) (raw_keys : List String)
      → ((v : W) → s.outage v ≡ none)
      → Coherent s view (view w) (s.db w)
      → get_by_id (s.db w) i ≡ some k
      → (ApiKeys.revoke (s.now w) i (s.db w)).0 ≡ true
      → OnlyRow k.key_hash i (s.db w).api_keys
      → ((h : String) → h ≢ k.key_hash → OtherRow h i (s.db w).api_keys)
      → is_valid_api_key_format raw_key ≡ true
      → hash_api_key s.sha256 s.pepper raw_key ≡ k.key_hash
      → (w' : W) × (revoke_api_key s i w ≡ (ok true, w'))
        × Coherent s view (view w') (s.db w')
        × ((authenticate s raw_key (authenticated s raw_keys w')).0 ≡ ok none)
  revoke_api_key-refuses raw_key raw_keys up c found done only others valid same_hash =
      let (w', e, d, v) = l.delete (cache_key s k.key_hash) (s.set_db after w) in
      let db' : s.db w' ≡ after = d ∙ l.db_set after w in
      let gone : db_principal s view (s.db w') k.key_hash ≡ none =
        rw (db', get_active-revoke_self (s.now w) i (s.db w) done k.key_hash only) in
      let c' : Coherent s view (view w') (s.db w') = λ h payload p hit decoded.
        elim (Bool-cases (cache_key s k.key_hash == cache_key s h)) [
          | inl same ↦ cc (hit, rw same at (v (cache_key s h)))
          | inr other ↦
              rw
                (
                  db',
                  get_active-revoke_other (s.now w) i (s.db w) done h (
                      others h (λ q. cc (
                        other,
                        (eq_iff (cache_key s k.key_hash) (cache_key s h)).1
                            (ap (cache_key s) (sym q)),
                      ))),
                )
                (c h payload p
                  (ap (λ f. f (cache_key s h)) (sym (l.view_set_db after w))
                    ∙ sym (rw other at (v (cache_key s h)))
                    ∙ hit)
                  decoded)
        ] in
      let v' = authenticated s raw_keys w' in
      let (kept, c'') = authenticated_kept raw_keys (s.db w') w' up refl c' in
      let ((o, answered, agrees), _, _) =
        authenticate-Right s view l raw_key v' valid up
          (subst (Coherent s view (view v')) (sym kept) c'') in
      let refused : db_principal s view (s.db v') (hash_api_key s.sha256 s.pepper raw_key) ≡ none =
        rw (kept, same_hash) gone in
      (
        w',
        revoke_run w' (up w) found done e,
        c',
        answered ∙ ap ok (Agrees-none o (subst (Agrees o) refused agrees)),
      )
