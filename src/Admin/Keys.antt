-- ===== src/Admin/Keys.antt =====
-- The handlers for API keys of api/v1/admin.py.
use llmops_gateway.Prelude.{
  ℕ, String, not, Option, none, some, List, [], ◌∷◌, ◌==◌, string_eq, map, if◌then◌else◌,
}
use llmops_gateway.Errors.{ok, http, Exec, ◌>>=◌, ◌>>◌, pure, gets, raise}
use llmops_gateway.Security.{generate_api_key}
use llmops_gateway.Auth
use llmops_gateway.Auth.{Backend, AuthenticatedPrincipal, in_session}
use llmops_gateway.Persistence.ApiKeys
use llmops_gateway.Persistence.ApiKeys.{ApiKeyRow}
use llmops_gateway.Middleware.Access.{Request}
use llmops_gateway.Admin.{Office, between, principal_of, checked, uuid_of, draw_id, with_session}

pub record CreateApiKeyRequest : Type 0 where
  pub name : String
  pub scopes : Option (List String)

pub record CreateApiKeyResponse : Type 0 where
  pub api_key_id : String
  pub raw_key : String
  pub scopes : List String

pub record ApiKeySummary : Type 0 where
  pub id : String
  pub name : String
  pub scopes : List String
  pub revoked_at : Option ℕ
  pub created_at : ℕ

abbrev pub key_summary : ApiKeyRow → ApiKeySummary
key_summary key = record {
  id = key.id;
  name = key.name;
  scopes = key.scopes;
  revoked_at = key.revoked_at;
  created_at = key.created_at;
}

-- A body without scopes asks for all.
abbrev pub default_scopes : Option (List String) → List String
default_scopes none = "*" ∷ []
default_scopes (some scopes) = scopes

module _ {W : Type 0} (o : Office W) where
  abbrev pub draw_key : Exec W (String × String)
  draw_key w =
      let (token, w') = o.token w in
      (ok (generate_api_key o.backend.sha256 o.backend.pepper token), w')

  abbrev pub store_key :
      CreateApiKeyRequest → String × String → String → String → Exec W CreateApiKeyResponse
  store_key payload (raw_key, key_hash) tenant_id id = do
    let scopes = default_scopes payload.scopes
    api_key_id ← Auth.create_api_key o.backend id tenant_id key_hash payload.name scopes
    pure (record { api_key_id = api_key_id; raw_key = raw_key; scopes = scopes })

  abbrev pub issue_key : CreateApiKeyRequest → AuthenticatedPrincipal → Exec W CreateApiKeyResponse
  issue_key payload principal = do
    checked o (between 1 255 payload.name)
    key ← draw_key
    tenant_id ← uuid_of o principal.tenant_id
    id ← draw_id o
    store_key payload key tenant_id id

  unfoldable pub create_api_key : Request → CreateApiKeyRequest → Exec W CreateApiKeyResponse
  create_api_key request payload = do
    principal ← principal_of o request
    issue_key payload principal

  unfoldable pub list_api_keys : Request → Exec W (List ApiKeySummary)
  unfolding with_session
  list_api_keys request = do
    principal ← principal_of o request
    with_session o (do
      tenant_id ← uuid_of o principal.tenant_id
      keys ← gets (λ w. ApiKeys.list_by_tenant tenant_id (o.backend.db w))
      pure (map key_summary keys))

  -- The first session of `revoke_api_key`: a key of another tenant counts as missing.
  abbrev pub owned : String → Option ApiKeyRow → Exec W (Unit {0})
  owned tenant_id none = raise (http 404)
  owned tenant_id (some key) =
      if not (key.tenant_id == tenant_id) then raise (http 404) else pure tt

  unfoldable pub find_owned : String → String → Exec W (Unit {0})
  find_owned tenant_id api_key_id =
      in_session o.backend (do
        found ← gets (λ w. ApiKeys.get_by_id (o.backend.db w) api_key_id)
        owned tenant_id found)

  abbrev pub revoke_found : String → Exec W (Unit {0})
  revoke_found api_key_id = do
    revoked ← Auth.revoke_api_key o.backend api_key_id
    if revoked then pure tt else raise (http 404)

  unfoldable pub revoke_api_key : Request → String → Exec W (Unit {0})
  unfolding find_owned
  revoke_api_key request api_key_id = do
    principal ← principal_of o request
    find_owned principal.tenant_id api_key_id
    revoke_found api_key_id
