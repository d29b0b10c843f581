-- ===== src/Admin/Issued.antt =====
-- What a key that `create_api_key` of api/v1/admin.py issues is good for.
use llmops_gateway.Prelude.{
  ℕ, String, true, ◌≡◌, refl, ap, ◌∙◌, none, some, List, [], ◌∷◌, ◌++◌, ◌==◌, string_eq, eq_iff,
  select, select-append, first, arith, Option-cases, inl, inr,
}
use llmops_gateway.Errors.{ok, pure}
use llmops_gateway.Errors.Inversion.{bind_run}
use llmops_gateway.Security.{hash_api_key, generate_api_key}
use llmops_gateway.Auth
use llmops_gateway.Auth.{Backend, AuthenticatedPrincipal, in_session}
use llmops_gateway.Persistence.ApiKeys
use llmops_gateway.Persistence.ApiKeys.{
  ApiKeyRow, ApiKeyRecord, TenantRow, KeyTables, first_joined, is_active, joined,
  get_active_by_key_hash,
}
use llmops_gateway.Middleware.Access.{Request}
use llmops_gateway.Admin.{Office, OfficeLaws, get_authenticated_principal, principal_of, between}
use llmops_gateway.Admin.Keys.{
  CreateApiKeyRequest, CreateApiKeyResponse, default_scopes, issue_key, create_api_key,
}

first_joined-append :
    (ts : List TenantRow) (xs ys : List ApiKeyRow)
    → first_joined ts xs ≡ none
    → first_joined ts (xs ++ ys) ≡ first_joined ts ys
first_joined-append ts [] ys h = refl
first_joined-append ts (x ∷ xs) ys h = elim (Option-cases (joined ts x)) [
  | inl e ↦ rw e (first_joined-append ts xs ys (rw e at h))
  | inr (r, e) ↦ cc (rw e at h)
]

-- The record that a lookup of the new key gives.
abbrev pub issued : String → String → List String → TenantRow → ApiKeyRecord
issued id tenant_id scopes t = record {
  id = id;
  tenant_id = tenant_id;
  scopes = scopes;
  tenant_status = t.status;
  revoked_at = none;
}

get_active-create :
    (now : ℕ) (id tenant_id key_hash name : String) (scopes : List String) (db : KeyTables)
    (t : TenantRow)
    → get_active_by_key_hash db key_hash ≡ none
    → first (λ x. x.id == tenant_id) db.tenants ≡ some t
    → get_active_by_key_hash (ApiKeys.create now id tenant_id key_hash name scopes db) key_hash
      ≡ some (issued id tenant_id scopes t)
unfolding get_active_by_key_hash ApiKeys.create
get_active-create now id tenant_id key_hash name scopes db t unused found =
    let k : ApiKeyRow = record {
      id = id;
      tenant_id = tenant_id;
      key_hash = key_hash;
      name = name;
      scopes = scopes;
      revoked_at = none;
      last_used_at = none;
      created_at = now;
    } in
    let own : (key_hash == key_hash) ≡ true = (eq_iff key_hash key_hash).1 refl in
    rw (
      select-append (is_active key_hash) db.api_keys (k ∷ []),
      first_joined-append db.tenants (select (is_active key_hash) db.api_keys)
          (select (is_active key_hash) (k ∷ [])) unused,
      own,
      found,
    )

create-run :
    {W : Type 0} (s : Backend W) (id tenant_id key_hash name : String) (scopes : List String)
    (w : W)
    → s.outage w ≡ none
    → Auth.create_api_key s id tenant_id key_hash name scopes w
      ≡ (ok id, s.set_db (ApiKeys.create (s.now w) id tenant_id key_hash name scopes (s.db w)) w)
unfolding Auth.create_api_key in_session
create-run s id tenant_id key_hash name scopes w up = ground arith

-- The hash that is stored is that of the key.
key_hash_lem :
    {W : Type 0} (s : Backend W) (token : String)
    → hash_api_key s.sha256 s.pepper (generate_api_key s.sha256 s.pepper token).0
      ≡ (generate_api_key s.sha256 s.pepper token).1
unfolding generate_api_key
key_hash_lem s token = refl

module _ {W : Type 0} (o : Office W) where
  abbrev pub drawn : W → String × String
  drawn w = generate_api_key o.backend.sha256 o.backend.pepper (o.token w).0

  abbrev tables_after : Request → CreateApiKeyRequest → String → W → KeyTables
  tables_after request payload t w =
      let v = (o.new_id (o.token w).1).1 in
      ApiKeys.create (o.backend.now v) (o.new_id (o.token w).1).0 t (drawn w).1 payload.name
        (default_scopes payload.scopes) (o.backend.db v)

  abbrev response_of : CreateApiKeyRequest → W → CreateApiKeyResponse
  response_of payload w = record {
    api_key_id = (o.new_id (o.token w).1).0;
    raw_key = (drawn w).0;
    scopes = default_scopes payload.scopes;
  }

module _ {W : Type 0} (o : Office W) (laws : OfficeLaws o) where
  issue :
      (request : Request) (payload : CreateApiKeyRequest) (p : AuthenticatedPrincipal) (w : W)
      (t : String)
      → get_authenticated_principal request ≡ ok p
      → between 1 255 payload.name ≡ true
      → o.parse_uuid p.tenant_id ≡ some t
      → ((v : W) → o.backend.outage v ≡ none)
      → create_api_key o request payload w ≡ (
        ok (response_of o payload w),
        o.backend.set_db (tables_after o request payload t w) (o.new_id (o.token w).1).1,
      )
  unfolding create_api_key
  issue request payload p w t auth named parsed up =
      let v = (o.new_id (o.token w).1).1 in
      let id = (o.new_id (o.token w).1).0 in
      let stored =
        bind_run
          (Auth.create_api_key o.backend id t (drawn o w).1 payload.name
            (default_scopes payload.scopes))
          (λ api_key_id. pure (record (response_of o payload w) { api_key_id = api_key_id })) v
          (create-run o.backend id t (drawn o w).1 payload.name (default_scopes payload.scopes) v
            (up v)) in
      bind_run (principal_of o request) (issue_key o payload) w (ap (λ r. (r, w)) auth)
      ∙ rw (named, parsed) stored

  -- Where the database can be reached, the name is from 1 to 255 long, the tenant of the principal
  -- is there and the hash of the key drawn is not in use, a key is issued. The lookup by the hash of
  -- the key that was returned finds it, under the id returned and for the tenant of the principal,
  -- with exactly the scopes that the body asked for, or the wildcard where it asked for none,
  -- whatever scopes the principal has.
  pub create_api_key-get_active :
      (request : Request) (payload : CreateApiKeyRequest) (p : AuthenticatedPrincipal) (w : W)
      (t : String) (tenant : TenantRow)
      → get_authenticated_principal request ≡ ok p
      → between 1 255 payload.name ≡ true
      → o.parse_uuid p.tenant_id ≡ some t
      → first (λ x. x.id == t) (o.backend.db w).tenants ≡ some tenant
      → ((v : W) → o.backend.outage v ≡ none)
      → get_active_by_key_hash (o.backend.db w) (drawn o w).1 ≡ none
      → (response : CreateApiKeyResponse) × (w' : W) × (create_api_key o request payload w
          ≡ (ok response, w'))
        × (response.scopes ≡ default_scopes payload.scopes)
        × (get_active_by_key_hash
              (o.backend.db w')
              (hash_api_key o.backend.sha256 o.backend.pepper response.raw_key)
            ≡ some (issued response.api_key_id t response.scopes tenant))
  create_api_key-get_active request payload p w t tenant auth named parsed there up unused =
      let v = (o.new_id (o.token w).1).1 in
      let same : o.backend.db v ≡ o.backend.db w = laws.db_id (o.token w).1 ∙ laws.db_token w in
      let found =
        get_active-create (o.backend.now v) (o.new_id (o.token w).1).0 t (drawn o w).1 payload.name
          (default_scopes payload.scopes) (o.backend.db v) tenant (rw same unused)
          (rw same there) in
      (
        response_of o payload w,
        o.backend.set_db (tables_after o request payload t w) v,
        issue request payload p w t auth named parsed up,
        refl,
        rw (laws.db_db (tables_after o request payload t w) v, key_hash_lem o.backend (o.token w).0)
            found,
      )
