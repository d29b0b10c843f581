-- ===== src/Tests/Caches.antt =====
-- Authentication and the semantic cache in worlds whose Redis is a function.
use llmops_gateway.Prelude.{
  ◌≡◌, ◌≢◌, refl, sym, eq_iff, Bool-cases, String, true, false, Option, none, some, [], ◌∷◌, ◌==◌,
  string_eq, inl, inr, if◌then◌else◌,
}
use llmops_gateway.Errors.{authentication, other, ok, err}
use llmops_gateway.Clients.{Redis}
use llmops_gateway.Security.{hash_api_key, is_valid_api_key_format}
use llmops_gateway.Persistence.ApiKeys.{
  KeyTables, ApiKeyRow, get_by_id, get_active_by_key_hash, revoke,
}
use llmops_gateway.Auth.{AuthenticatedPrincipal, Backend, authenticate, revoke_api_key}
use llmops_gateway.Auth.Transparent.{Lawful, Coherent, Right, authenticate-Right}
use llmops_gateway.Auth.Revocation.{authenticated, revoke_api_key-refuses}
use llmops_gateway.Middleware.Scopes.{
  is_exempt_path, required_scopes_for_request, principal_has_any_scope,
}
use llmops_gateway.Middleware.Responses.{Response}
use llmops_gateway.Middleware.Refusals.{Refusal, auth_middleware_dispatch-Refusal}
use llmops_gateway.Middleware.Access.{
  auth_middleware_dispatch, Request, AccessSettings, admit, attach_principal,
}
use llmops_gateway.Middleware.Admission.{Passed, admit-Passed}
use llmops_gateway.Tests.Codec.{
  dumps, loads, loads-dumps, as_text, as_number, frozenset, frozenset-texts,
}

pub record World : Type 0 where
  pub tables : KeyTables
  pub cache : String → Option String

abbrev write : String → Option String → World → World
write k v w = record w { cache = λ j. if k == j then v else w.cache j }

abbrev function_redis : Redis World
function_redis = record {
  get = λ k w. (ok (w.cache k), w);
  set = λ k v ttl w. (ok tt, write k (some v) w);
  set_nx = λ k v ttl w. (ok true, write k (some v) w);
  delete = λ k w. (ok tt, write k none w);
}

abbrev pub service : Backend World
service = record {
  redis = function_redis;
  sha256 = λ s. s;
  pepper = "";
  cache_ttl_seconds = 60;
  dumps = dumps;
  loads = loads;
  as_text = as_text;
  as_number = as_number;
  frozenset = frozenset;
  text_before = λ a b. false;
  db = λ w. w.tables;
  set_db = λ d w. record w { tables = d };
  outage = λ w. none;
  now = λ w. 7;
  spawn_touch = λ i w. w;
}

service-Lawful : Lawful service (λ w. w.cache)
service-Lawful = record {
  get = λ k w. refl;
  set = λ k v ttl w. (write k (some v) w, refl, refl, λ j. refl);
  delete = λ k w. (write k none w, refl, refl, λ j. refl);
  loads_dumps = loads-dumps;
  as_text = λ t. refl;
  as_number = λ n. refl;
  frozenset = frozenset-texts;
  db_set = λ d w. refl;
  view_set_db = λ d w. refl;
  db_touch = λ i w. refl;
  view_touch = λ i w. refl;
}

abbrev alice : ApiKeyRow
alice = record {
  id = "k1";
  tenant_id = "t1";
  key_hash = "llmops_alice";
  name = "alice";
  scopes = "chat:write" ∷ [];
  revoked_at = none;
  last_used_at = none;
  created_at = 0;
}

abbrev pub start : World
start = record {
  tables = record {
    api_keys = alice ∷ [];
    tenants = record { id = "t1"; name = "T"; slug = "t"; status = "active" } ∷ [];
  };
  cache = λ k. none;
}

start-Coherent : Coherent service (λ w. w.cache) start.cache start.tables
start-Coherent h payload p hit decoded = cc

valid_format : is_valid_api_key_format "llmops_alice" ≡ true
unfolding is_valid_api_key_format
valid_format = refl

same_hash : hash_api_key service.sha256 service.pepper "llmops_alice" ≡ alice.key_hash
unfolding hash_api_key
same_hash = refl

authenticate-Right_example :
    Right service
      (λ w. w.cache)
      service-Lawful
      start
      (hash_api_key service.sha256 service.pepper "llmops_alice")
      (authenticate service "llmops_alice" start)
authenticate-Right_example =
    authenticate-Right service (λ w. w.cache) service-Lawful "llmops_alice" start valid_format
      (λ v. refl) start-Coherent

alice_found : get_by_id start.tables "k1" ≡ some alice
unfolding get_by_id
alice_found = refl

alice_revoked : (revoke 7 "k1" start.tables).0 ≡ true
unfolding revoke
alice_revoked = refl

-- Another key hash than alice's is not in her row.
others_apart : (a h : String) → h ≢ a → (a == h) ≡ false
others_apart a h ne = elim (Bool-cases (a == h)) [
  | inl same ↦ elim (ne (sym ((eq_iff a h).0 same))) [ ]
  | inr apart ↦ apart
]

revoke_api_key-refuses_example :
    (w' : World) × (revoke_api_key service "k1" start ≡ (ok true, w'))
    × Coherent service (λ w. w.cache) w'.cache w'.tables
    × ((authenticate service "llmops_alice"
          (authenticated service ("llmops_alice" ∷ "x" ∷ []) w')).0
        ≡ ok none)
revoke_api_key-refuses_example =
    revoke_api_key-refuses service (λ w. w.cache) service-Lawful "k1" start alice "llmops_alice"
      ("llmops_alice" ∷ "x" ∷ []) (λ v. refl) start-Coherent alice_found alice_revoked
      (inr refl, tt) (λ h ne. (inr (others_apart "llmops_alice" h ne), tt)) valid_format same_hash

abbrev strict : AccessSettings
strict = record { auth_require_api_key = true; api_key_header_name = "X-API-Key"; upper = λ m. m }

abbrev chat_call : Request
chat_call = record {
  path = "/v1/chat/completions";
  method = "POST";
  api_key = some "llmops_alice";
  trace_id_header = none;
  trace_id = none;
  auth = none;
  tenant_id = none;
  api_key_id = none;
  scopes = none;
}

abbrev alice_principal : AuthenticatedPrincipal
alice_principal = record {
  tenant_id = "t1";
  api_key_id = "k1";
  tenant_status = "active";
  scopes = "chat:write" ∷ [];
  rate_limit_per_minute = none;
}

abbrev after_call : World
after_call = (admit strict service chat_call start).1

chat_admitted :
    admit strict service chat_call start
    ≡ (ok (attach_principal alice_principal chat_call), after_call)
unfolding admit authenticate is_valid_api_key_format hash_api_key is_exempt_path
    get_active_by_key_hash required_scopes_for_request principal_has_any_scope
chat_admitted = refl

admit-Passed_example :
    Passed strict service chat_call start (attach_principal alice_principal chat_call)
admit-Passed_example =
    admit-Passed strict service chat_call start after_call
      (attach_principal alice_principal chat_call) chat_admitted

abbrev keyless : Request
keyless = record chat_call { api_key = none }

keyless_refused :
    admit strict service keyless start ≡ (err (authentication "Missing X-API-Key header"), start)
unfolding admit is_exempt_path
keyless_refused = refl

auth_middleware_dispatch-Refusal_example :
    (response : Response) × Refusal none response
    × (auth_middleware_dispatch strict service keyless (λ r w. (err (other "reached"), w)) start
        ≡ (ok response, start))
auth_middleware_dispatch-Refusal_example =
    auth_middleware_dispatch-Refusal strict service keyless (λ r w. (err (other "reached"), w))
      start start (authentication "Missing X-API-Key header") keyless_refused refl
