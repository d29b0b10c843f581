-- ===== src/Auth.antt =====
-- services/auth_service.py with domain/entities/auth_context.py and the transaction of
-- persistence/database.py, over a world `W`. The reading and writing of JSON texts by orjson,
-- SHA-256 and the Redis client are parameters. A set of scopes is a list of which only membership
-- matters.
pub mod Transparent
pub mod Revocation
use Prim.Native.String.{◌++◌}
use llmops_gateway.Prelude.{
  ℕ, String, Bool, true, false, Option, none, some, List, [], ◌∷◌, map, contains, ◌||◌, ◌==◌,
  string_eq, if◌then◌else◌,
}
use llmops_gateway.Prelude.Int.{ℤ}
use llmops_gateway.Json.{Json, null, int, text, arr, obj, items, fields, item, get}
use llmops_gateway.Errors.Fallible.{◌>>=◌ as ◌>>?◌}
use llmops_gateway.Errors.{
  other, Exn, Result, ok, err, Exec, ◌>>=◌, ◌>>◌, pure, gets, modify, or_default,
}
use llmops_gateway.Clients.{Redis}
use llmops_gateway.Security.{hash_api_key, is_valid_api_key_format}
use llmops_gateway.Persistence.ApiKeys
use llmops_gateway.Persistence.ApiKeys.{KeyTables, ApiKeyRecord}

pub record AuthenticatedPrincipal : Type 0 where
  pub tenant_id : String
  pub api_key_id : String
  pub tenant_status : String
  pub scopes : List String
  pub rate_limit_per_minute : Option ℤ

unfoldable pub has_scope : AuthenticatedPrincipal → String → Bool
has_scope p required = contains "*" p.scopes || contains required p.scopes

abbrev pub auth_cache_prefix : String
auth_cache_prefix = "auth:v1:"

-- What the service is given, and what it reaches. `outage` is the exception that opening a session
-- raises now, if any; `spawn_touch` starts the task `_touch_last_used`. `loads` is `none` for a
-- `JSONDecodeError`; `as_text` and `as_number` are for values that the source takes as they are;
-- `frozenset` is `none` for a `TypeError`; `text_before` is the order of texts.
pub record Backend (W : Type 0) : Type 0 where
  pub redis : Redis W
  pub sha256 : String → String
  pub pepper : String
  pub cache_ttl_seconds : ℕ
  pub dumps : Json → String
  pub loads : String → Option Json
  pub as_text : Json → String
  pub as_number : Json → ℤ
  pub frozenset : Json → Option (List String)
  pub text_before : String → String → Bool
  pub db : W → KeyTables
  pub set_db : KeyTables → W → W
  pub outage : W → Option Exn
  pub now : W → ℕ
  pub spawn_touch : String → W → W

-- `sorted` of a set: each of its texts once.
abbrev pub insert_once : (String → String → Bool) → String → List String → List String
insert_once before x [] = x ∷ []
insert_once before x (y ∷ ys) =
    let rest = insert_once before x ys in
    if x == y then y ∷ ys else if before x y then x ∷ y ∷ ys else y ∷ rest

abbrev pub sorted : (String → String → Bool) → List String → List String
sorted before [] = []
sorted before (x ∷ xs) = insert_once before x (sorted before xs)

abbrev pub limit_value : Option ℤ → Json
limit_value none = null
limit_value (some n) = int n

-- The dictionary of a principal, with its scopes in the order given.
abbrev pub payload_with : AuthenticatedPrincipal → List String → Json
payload_with p scopes = obj (
    fields (
      ("tenant_id", text p.tenant_id)
      ∷ ("api_key_id", text p.api_key_id)
      ∷ ("tenant_status", text p.tenant_status)
      ∷ ("scopes", arr (items (map text scopes)))
      ∷ ("rate_limit_per_minute", limit_value p.rate_limit_per_minute)
      ∷ []))

module _ {W : Type 0} (s : Backend W) where
  abbrev pub encode : AuthenticatedPrincipal → String
  encode p = s.dumps (payload_with p (sorted s.text_before p.scopes))

  abbrev pub limit_of : Option Json → Option ℤ
  limit_of none = none
  limit_of (some null) = none
  limit_of (some (int n)) = some (s.as_number (int n))
  limit_of (some (text t)) = some (s.as_number (text t))
  limit_of (some (arr xs)) = some (s.as_number (arr xs))
  limit_of (some (obj fs)) = some (s.as_number (obj fs))
  limit_of (some (Json.bool b)) = some (s.as_number (Json.bool b))
  limit_of (some (Json.float f)) = some (s.as_number (Json.float f))

  abbrev pub set_of : Option (List String) → Result (List String)
  set_of none = err (other "TypeError")
  set_of (some scopes) = ok scopes

  unfoldable pub principal_from : Json → Result AuthenticatedPrincipal
  principal_from data_ = item "tenant_id" data_ >>? λ tenant_id.
      item "api_key_id" data_ >>? λ api_key_id. item "tenant_status" data_ >>? λ tenant_status.
      item "scopes" data_ >>? λ listed. set_of (s.frozenset listed) >>? λ scopes.
      get "rate_limit_per_minute" data_ >>? λ limit. ok (record {
        tenant_id = s.as_text tenant_id;
        api_key_id = s.as_text api_key_id;
        tenant_status = s.as_text tenant_status;
        scopes = scopes;
        rate_limit_per_minute = limit_of limit;
      })

  abbrev pub caught : Result AuthenticatedPrincipal → Option AuthenticatedPrincipal
  caught (ok p) = some p
  caught (err e) = none

  abbrev pub read : Option Json → Option AuthenticatedPrincipal
  read none = none
  read (some data_) = caught (principal_from data_)

  -- `none` where one of the exceptions is raised that `_get_cached` catches.
  unfoldable pub decode : String → Option AuthenticatedPrincipal
  unfolding principal_from
  decode payload = read (s.loads payload)

  abbrev pub cache_key : String → String
  cache_key key_hash = auth_cache_prefix ++ key_hash

  -- `async with self._database.session()`: commit, or roll back on an exception.
  -- A commit that fails is not modelled.
  unfoldable pub in_session : {A : Type 0} → Exec W A → Exec W A
  in_session m w = elim (s.outage w) [
    | some e ↦ (err e, w)
    | none ↦
        let (r, w') = m w in elim r [ ok a ↦ (ok a, w') | err e ↦ (err e, s.set_db (s.db w) w') ]
  ]

  -- An entry that does not decode is deleted; that deletion may raise.
  unfoldable pub decode_cached : String → Option String → Exec W (Option AuthenticatedPrincipal)
  unfolding decode
  decode_cached key_hash none = pure none
  decode_cached key_hash (some payload) = elim (decode payload) [
    | some p ↦ pure (some p)
    | none ↦ (do s.redis.delete (cache_key key_hash); pure none)
  ]

  unfoldable pub get_cached : String → Exec W (Option AuthenticatedPrincipal)
  unfolding decode_cached
  get_cached key_hash = do
    payload ← or_default (s.redis.get (cache_key key_hash)) none
    decode_cached key_hash payload

  unfoldable pub set_cached : String → AuthenticatedPrincipal → Exec W (Unit {0})
  set_cached key_hash p =
      or_default (s.redis.set (cache_key key_hash) (encode p) s.cache_ttl_seconds) tt

  abbrev pub principal_of : ApiKeyRecord → AuthenticatedPrincipal
  principal_of r = record {
    tenant_id = r.tenant_id;
    api_key_id = r.id;
    tenant_status = r.tenant_status;
    scopes = r.scopes;
    rate_limit_per_minute = none;
  }

  abbrev pub found_principal : Option ApiKeyRecord → Option AuthenticatedPrincipal
  found_principal none = none
  found_principal (some r) = some (principal_of r)

  unfoldable pub load_from_database : String → Exec W (Option AuthenticatedPrincipal)
  unfolding in_session
  load_from_database key_hash =
      in_session (gets (λ w. found_principal (ApiKeys.get_active_by_key_hash (s.db w) key_hash)))

  -- What follows a miss in the cache.
  unfoldable pub admit_loaded :
      String → Option AuthenticatedPrincipal → Exec W (Option AuthenticatedPrincipal)
  unfolding set_cached
  admit_loaded key_hash none = pure none
  admit_loaded key_hash (some p) = do
    set_cached key_hash p
    modify (s.spawn_touch p.api_key_id)
    pure (some p)

  unfoldable pub after_cache :
      String → Option AuthenticatedPrincipal → Exec W (Option AuthenticatedPrincipal)
  unfolding load_from_database admit_loaded
  after_cache key_hash (some p) = pure (some p)
  after_cache key_hash none = do loaded ← load_from_database key_hash; admit_loaded key_hash loaded

  unfoldable pub authenticate : String → Exec W (Option AuthenticatedPrincipal)
  unfolding get_cached after_cache
  authenticate raw_key =
      if is_valid_api_key_format raw_key
      then (do
        let key_hash = hash_api_key s.sha256 s.pepper raw_key
        cached ← get_cached key_hash
        after_cache key_hash cached)
      else pure none

  unfoldable pub create_api_key : String → String → String → String → List String → Exec W String
  unfolding in_session
  create_api_key id tenant_id key_hash name scopes = in_session (do
    modify (λ w. s.set_db (ApiKeys.create (s.now w) id tenant_id key_hash name scopes (s.db w)) w)
    pure id)

  unfoldable pub invalidate_cache_by_hash : String → Exec W (Unit {0})
  invalidate_cache_by_hash key_hash = s.redis.delete (cache_key key_hash)

  unfoldable pub revoke_row : String → Exec W Bool
  revoke_row api_key_id w =
      let (revoked, db) = ApiKeys.revoke (s.now w) api_key_id (s.db w) in
      (ok revoked, s.set_db db w)

  unfoldable pub revoke_found : String → Option ApiKeys.ApiKeyRow → Exec W Bool
  unfolding revoke_row invalidate_cache_by_hash
  revoke_found api_key_id none = pure false
  revoke_found api_key_id (some k) = do
    revoked ← revoke_row api_key_id
    if revoked then (do invalidate_cache_by_hash k.key_hash; pure true) else pure false

  unfoldable pub revoke_api_key : String → Exec W Bool
  unfolding in_session revoke_found
  revoke_api_key api_key_id =
      in_session (do
        found ← gets (λ w. ApiKeys.get_by_id (s.db w) api_key_id)
        revoke_found api_key_id found)

  -- The task behind `spawn_touch`: it never raises.
  unfoldable pub touch_last_used : String → Exec W (Unit {0})
  unfolding in_session
  touch_last_used api_key_id =
      or_default
        (in_session
          (modify (λ w. s.set_db (ApiKeys.touch_last_used (s.now w) api_key_id (s.db w)) w)))
        tt
