-- ===== src/Tests/Keys.antt =====
-- Cache keys and semantic hits of concrete requests.
use llmops_gateway.Prelude.{
  ℕ, ◌≡◌, ◌≢◌, refl, ap, String, true, false, Option, none, some, List, [], ◌∷◌, All, arith, subst,
  ◌==◌, string_eq, if◌then◌else◌,
}
use llmops_gateway.Domain.Chat.{Printer, exact_hit, semantic_hit}
use llmops_gateway.Errors.{Result, ok}
use llmops_gateway.Caching.ExactCache
use llmops_gateway.Caching.ExactCache.{ExactConfig}
use llmops_gateway.Caching.ExactCache.Tenants.{Answering, set-get_tenants}
use llmops_gateway.Caching.SemanticCache.{Filter, Point, Qdrant, SemanticConfig, get}
use llmops_gateway.Caching.SemanticCache.Isolation.{Fits, Filtering, Justified, get-Justified}
use llmops_gateway.Tests.Providers.{hello, greeting}

abbrev printer : Printer
printer = record { print_int = λ n. "None"; print_list = λ l. "None" }

-- A digest of four characters.
abbrev digest : String → String
digest text = "abcd"

-- An exact cache over a Redis that is a function.
abbrev Entries : Type 0
Entries = String → Option String

abbrev exact : ExactConfig Entries
exact = record {
  redis = record {
    get = λ k w. (ok (w k), w);
    set = λ k v ttl w. (ok tt, λ j. if k == j then some v else w j);
    set_nx = λ k v ttl w. (ok true, w);
    delete = λ k w. (ok tt, w);
  };
  sha256 = digest;
  printer = printer;
  ttl_seconds = 60;
  encode = λ r. "greeting";
  decode = λ s. some greeting;
  is_redis_error = λ e. true;
}

exact-Answering : Answering exact (λ w. w)
exact-Answering = record {
  get = λ k w. refl;
  set = λ k v ttl w. ((λ j. if k == j then some v else w j), refl, λ j. refl);
}

abbrev no_entries : Entries
no_entries k = none

-- The first tenant differs from the second in its text.
two_tenants : (◌≢◌ {A = String} "t1" "t2")
two_tenants h = let e : true ≡ false = ap (λ (s : String). s == "t1") h in cc

set-get_tenants_example :
    ((ExactCache.get exact hello "t1" (ExactCache.set exact hello greeting "t1" no_entries).1).0
      ≡ ok (some (record greeting { cache_status = exact_hit })))
    × ((ExactCache.get exact hello "t2" (ExactCache.set exact hello greeting "t1" no_entries).1).0
        ≡ (ExactCache.get exact hello "t2" no_entries).0)
set-get_tenants_example =
    set-get_tenants exact (λ w. w) exact-Answering 4 hello hello greeting "t1" "t2" no_entries
      (λ text. refl) refl two_tenants

-- The point that a search with this filter finds.
abbrev found_point : Filter → ℕ → Point
found_point f threshold = record {
  id = "p";
  score = threshold;
  payload = record {
    tenant_id = f.tenant_id;
    model_family = f.model_family;
    params_hash = f.params_hash;
    prompt_text = "hello";
    response = some "greeting";
    created_at = 0;
    hit_count = 0;
  };
}

abbrev one_point : Qdrant ℕ ℕ
one_point = record {
  collection_exists = λ c w. (ok true, w);
  create_collection = λ c n w. (ok tt, w);
  create_payload_index = λ c f w. (ok tt, w);
  query_points = λ c v f limit threshold w. (ok (found_point f threshold ∷ []), w);
  upsert = λ c i v p w. (ok tt, w);
  set_last_hit = λ c n i w. (ok tt, w);
}

same_points :
    {a b : List Point} {v w : ℕ} → ◌≡◌ {A = Result (List Point) × ℕ} (ok a, v) (ok b, w) → a ≡ b
same_points h = cc

one_point-Filtering : Filtering one_point
one_point-Filtering c v f limit threshold w points w' h =
    subst (All (Fits f threshold)) (same_points h)
      (record { tenant = refl; model = refl; params = refl; score = omega arith }, tt)

abbrev semantic : SemanticConfig ℕ ℕ
semantic = record {
  qdrant = one_point;
  embed = λ text w. (ok 5, w);
  model_id = "m";
  dimension = 1;
  sha256 = digest;
  printer = printer;
  similarity_threshold = 90;
  encode = λ r. "greeting";
  decode = λ s. some greeting;
  now = λ w. w;
  uuid = λ w. ("u", w);
  bootstrapped = λ w. true;
  set_bootstrapped = λ b w. w;
  spawn_record_hit = λ i w. w;
}

hello_hits :
    get semantic hello "t1" 0 ≡ (ok (some (record greeting { cache_status = semantic_hit })), 0)
unfolding get
hello_hits = refl

get-Justified_example :
    Justified semantic one_point-Filtering hello "t1"
      (record greeting { cache_status = semantic_hit })
get-Justified_example =
    get-Justified semantic one_point-Filtering hello "t1" 0 0
      (record greeting { cache_status = semantic_hit }) hello_hits
