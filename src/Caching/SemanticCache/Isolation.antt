-- ===== src/Caching/SemanticCache/Isolation.antt =====
-- What a hit of caching/qdrant_semantic_cache.py rests on.
use llmops_gateway.Prelude.{
  ℕ, ◌≤◌, String, ◌≡◌, refl, subst, Option, some, List, [], ◌∷◌, All, arith, Option-cases, inl, inr,
}
use llmops_gateway.Domain.Chat.{ChatRequest, ChatResponse, semantic_hit, canonical_prompt}
use llmops_gateway.Errors.{ok, Exec, ◌>>=◌, pure}
use llmops_gateway.Errors.Inversion.{>>=-eq-ok, or_default-eq-some}
use llmops_gateway.Caching.Hashing.{normalize_prompt, params_hash}
use llmops_gateway.Caching.SemanticCache.{
  Filter, Point, Qdrant, SemanticConfig, build_filter, hit_of, get_impl, get, ensure_collection,
  collection,
}

-- A point that a search with this filter and threshold may return.
pub record Fits (f : Filter) (threshold : ℕ) (p : Point) : Type 0 where
  pub tenant : p.payload.tenant_id ≡ f.tenant_id
  pub model : p.payload.model_family ≡ f.model_family
  pub params : p.payload.params_hash ≡ f.params_hash
  pub score : threshold ≤ p.score

-- Documented behaviour of the search: every point that it returns meets all conditions of the
-- filter and the score threshold.
abbrev pub Filtering : {W V : Type 0} → Qdrant W V → Type 0
Filtering {W} {V} q =
    (collection : String) (vector : V) (f : Filter) (limit threshold : ℕ) (w : W)
    (points : List Point) (w' : W)
    → q.query_points collection vector f limit threshold w ≡ (ok points, w')
    → All (Fits f threshold) points

module _ {W V : Type 0} (c : SemanticConfig W V) (search : Filtering c.qdrant) where
  abbrev Stored : Point → ChatResponse → Type 0
  Stored p response =
      (data_ : String) × (stored : ChatResponse) × (p.payload.response ≡ some data_)
      × (c.decode data_ ≡ some stored)
      × (response ≡ record stored { cache_status = semantic_hit })

  -- A hit for a request and tenant is the stored response of the best point of a search, marked as
  -- a semantic hit. The search is one with the embedding of the prompt, and the point is of the same
  -- tenant, model and parameter hash with a score that clears the threshold.
  abbrev pub Justified : ChatRequest → String → ChatResponse → Type 0
  Justified request tenant_id response =
      (vector : V) × (u v y : W) × (p : Point) × (points : List Point) × (c.embed
          (normalize_prompt (canonical_prompt request)) u
        ≡ (ok vector, v))
      × (c.qdrant.query_points (collection c) vector
            (record {
              tenant_id = tenant_id;
              model_family = request.model;
              params_hash = params_hash c.sha256 c.printer request;
            })
            1 c.similarity_threshold v
          ≡ (ok (p ∷ points), y))
      × Fits (build_filter c request tenant_id) c.similarity_threshold p
      × Stored p response

  hit_of-Stored :
      (points : List Point) (w : W) {response : ChatResponse} {w' : W}
      → hit_of c points w ≡ (ok (some response), w')
      → (best : Point) × (rest : List Point) × (points ≡ best ∷ rest) × Stored best response
  unfolding hit_of
  hit_of-Stored [] w h = cc
  hit_of-Stored (best ∷ points) w h = elim (Option-cases best.payload.response) [
    | inl blank ↦ cc (rw (blank, hit_of, pure) at h)
    | inr (data_, e) ↦ elim (Option-cases (c.decode data_)) [
      | inl corrupt ↦ cc (rw (e, corrupt, hit_of, pure) at h)
      | inr (stored, d) ↦ (best, points, refl, (data_, stored, e, d, ground arith))
    ]
  ]

  -- The later parts of `get_impl`.
  abbrev prompt_of : ChatRequest → String
  prompt_of request = normalize_prompt (canonical_prompt request)

  abbrev found_for : ChatRequest → String → V → Exec W (Option ChatResponse)
  found_for request tenant_id vector = do
    points ←
        c.qdrant.query_points (collection c) vector (build_filter c request tenant_id) 1
          c.similarity_threshold
    hit_of c points

  abbrev search_for : ChatRequest → String → Exec W (Option ChatResponse)
  search_for request tenant_id = do
    vector ← c.embed (prompt_of request)
    found_for request tenant_id vector

  -- Where the search filters as documented: a hit for a request and tenant is the stored response
  -- of the first point that a search with the embedding of the prompt, the threshold and the filter
  -- on tenant, model and parameter hash returned, marked as a semantic hit; the point is of that
  -- tenant, model and parameter hash, and its score clears the threshold.
  pub get-Justified :
      (request : ChatRequest) (tenant_id : String) (w w' : W) (response : ChatResponse)
      → get c request tenant_id w ≡ (ok (some response), w')
      → Justified request tenant_id response
  unfolding get
  get-Justified request tenant_id w w' response h =
      let run = or_default-eq-some (get_impl c request tenant_id) w h in
      let (_, w1, ensured, h1) =
        >>=-eq-ok (ensure_collection c) (λ _. search_for request tenant_id) w run in
      let (vector, w2, embedded, h2) =
        >>=-eq-ok (c.embed (prompt_of request)) (λ vector. found_for request tenant_id vector) w1
          h1 in
      let (points, w3, queried, h3) =
        >>=-eq-ok
          (c.qdrant.query_points (collection c) vector (build_filter c request tenant_id) 1
            c.similarity_threshold)
          (λ points. hit_of c points) w2 h2 in
      let (best, rest, first, stored) = hit_of-Stored points w3 h3 in
      let found =
        subst
          (λ (found : List Point).
            c.qdrant.query_points (collection c) vector (build_filter c request tenant_id) 1
              c.similarity_threshold w2
            ≡ (ok found, w3))
          first queried in
      (
        vector,
        w1,
        w2,
        w3,
        best,
        rest,
        embedded,
        found,
        (search (collection c) vector (build_filter c request tenant_id) 1 c.similarity_threshold w2
            (best ∷ rest) w3 found).0,
        stored,
      )
