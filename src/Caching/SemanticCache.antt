-- ===== src/Caching/SemanticCache.antt =====
-- caching/qdrant_semantic_cache.py. The Qdrant client and the embedding provider are parameters;
-- `V` is the type of their vectors. A call's timeout is one of the exceptions that it may raise.
pub mod Isolation
use Prim.Native.Char.{Char, code}
use Prim.Native.String.{◌++◌}
use Prim.Native.String
use llmops_gateway.Prelude.{
  ℕ, zero, suc, String, Bool, true, false, ◌||◌, Option, none, some, List, [], ◌∷◌, ◌==◌, nat_eq,
  if◌then◌else◌,
}
use llmops_gateway.Domain.Chat.{ChatRequest, ChatResponse, Printer, canonical_prompt, semantic_hit}
use llmops_gateway.Errors.{Exn, Result, ok, err, Exec, ◌>>=◌, ◌>>◌, pure, gets, modify, or_default}
use llmops_gateway.Caching.Hashing.{normalize_prompt, params_hash}
use llmops_gateway.Caching.ExactCache.{CacheStore}

abbrev pub max_stored_prompt_chars : ℕ
max_stored_prompt_chars = 2000

abbrev pub filtered_payload_fields : List String
filtered_payload_fields = "tenant_id" ∷ "model_family" ∷ "params_hash" ∷ []

-- The `replace` calls: dots, colons and dashes become underscores.
abbrev pub safe_char : Char → Char
safe_char c = if code c == b'.' || code c == b':' || code c == b'-' then "_" else c

abbrev pub safe_text : String → String
safe_text String.[] = ""
safe_text (String.◌∷◌ c s) = String.◌∷◌ (safe_char c) (safe_text s)

unfoldable pub collection_name : String → String
collection_name embedding_model_id = "semantic_cache__" ++ safe_text embedding_model_id

-- `text[:n]`
abbrev pub take_chars : ℕ → String → String
take_chars zero s = ""
take_chars (suc n) String.[] = ""
take_chars (suc n) (String.◌∷◌ c s) = String.◌∷◌ c (take_chars n s)

pub record Filter : Type 0 where
  pub tenant_id : String
  pub model_family : String
  pub params_hash : String

pub record Payload : Type 0 where
  pub tenant_id : String
  pub model_family : String
  pub params_hash : String
  pub prompt_text : String
  pub response : Option String
  pub created_at : ℕ
  pub hit_count : ℕ

pub record Point : Type 0 where
  pub id : String
  pub score : ℕ
  pub payload : Payload

pub record Qdrant (W V : Type 0) : Type 0 where
  pub collection_exists : String → Exec W Bool
  pub create_collection : String → ℕ → Exec W (Unit {0})
  pub create_payload_index : String → String → Exec W (Unit {0})
  pub query_points : String → V → Filter → ℕ → ℕ → Exec W (List Point)
  pub upsert : String → String → V → Payload → Exec W (Unit {0})
  pub set_last_hit : String → ℕ → String → Exec W (Unit {0})

-- The cache object. Scores are scaled to numbers; `decode` is `none` for a `ValueError`;
-- `spawn_record_hit` starts the task `_record_hit`.
pub record SemanticConfig (W V : Type 0) : Type 0 where
  pub qdrant : Qdrant W V
  pub embed : String → Exec W V
  pub model_id : String
  pub dimension : ℕ
  pub sha256 : String → String
  pub printer : Printer
  pub similarity_threshold : ℕ
  pub encode : ChatResponse → String
  pub decode : String → Option ChatResponse
  pub now : W → ℕ
  pub uuid : W → String × W
  pub bootstrapped : W → Bool
  pub set_bootstrapped : Bool → W → W
  pub spawn_record_hit : String → W → W

module _ {W V : Type 0} (c : SemanticConfig W V) where
  abbrev pub collection : String
  collection = collection_name c.model_id

  unfoldable pub create_indexes : List String → Exec W (Unit {0})
  create_indexes [] = pure tt
  create_indexes (field_name ∷ names) = do
    c.qdrant.create_payload_index collection field_name
    create_indexes names

  unfoldable pub create_if_missing : Bool → Exec W (Unit {0})
  unfolding create_indexes
  create_if_missing true = pure tt
  create_if_missing false = do
    c.qdrant.create_collection collection c.dimension
    create_indexes filtered_payload_fields

  -- The lock makes the body atomic, so the second test of the flag repeats the first.
  unfoldable pub ensure_collection : Exec W (Unit {0})
  unfolding create_if_missing
  ensure_collection w =
      if c.bootstrapped w
      then (ok tt, w)
      else (do
        exists ← c.qdrant.collection_exists collection
        create_if_missing exists
        modify (c.set_bootstrapped true))
          w

  abbrev pub build_filter : ChatRequest → String → Filter
  build_filter request tenant_id = record {
    tenant_id = tenant_id;
    model_family = request.model;
    params_hash = params_hash c.sha256 c.printer request;
  }

  -- The response of the best point, if it has one that decodes.
  unfoldable pub hit_of : List Point → Exec W (Option ChatResponse)
  hit_of [] = pure none
  hit_of (best ∷ points) = elim best.payload.response [
    | none ↦ pure none
    | some response_data ↦ elim (c.decode response_data) [
      | none ↦ pure none
      | some response ↦ (do
        modify (c.spawn_record_hit best.id)
        pure (some (record response { cache_status = semantic_hit })))
    ]
  ]

  unfoldable pub get_impl : ChatRequest → String → Exec W (Option ChatResponse)
  unfolding ensure_collection hit_of
  get_impl request tenant_id = do
    ensure_collection
    vector ← c.embed (normalize_prompt (canonical_prompt request))
    points ←
        c.qdrant.query_points collection vector (build_filter request tenant_id) 1
          c.similarity_threshold
    hit_of points

  unfoldable pub get : ChatRequest → String → Exec W (Option ChatResponse)
  unfolding get_impl
  get request tenant_id = or_default (get_impl request tenant_id) none

  unfoldable pub set_impl : ChatRequest → ChatResponse → String → Exec W (Unit {0})
  unfolding ensure_collection
  set_impl request response tenant_id = do
    ensure_collection
    let prompt = normalize_prompt (canonical_prompt request)
    vector ← c.embed prompt
    now ← gets c.now
    point_id ← (λ w. let (drawn, w') = c.uuid w in (ok drawn, w'))
    c.qdrant.upsert collection point_id vector (record {
      tenant_id = tenant_id;
      model_family = request.model;
      params_hash = params_hash c.sha256 c.printer request;
      prompt_text = take_chars max_stored_prompt_chars prompt;
      response = some (c.encode response);
      created_at = now;
      hit_count = 0;
    })

  unfoldable pub set : ChatRequest → ChatResponse → String → Exec W (Unit {0})
  unfolding set_impl
  set request response tenant_id = or_default (set_impl request response tenant_id) tt

  -- The task behind `spawn_record_hit`.
  unfoldable pub record_hit : String → Exec W (Unit {0})
  record_hit point_id =
      or_default (do now ← gets c.now; c.qdrant.set_last_hit collection now point_id) tt

  abbrev pub store : CacheStore W
  store = record { get = get; set = set }
