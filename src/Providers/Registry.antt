-- ===== src/Providers/Registry.antt =====
-- `ProviderRegistry` of providers/registry.py. The dict `_providers` is the list of its values in
-- insertion order: each is stored under its own `name`.
use llmops_gateway.Prelude.{
  String, Option, none, some, List, [], ◌∷◌, ◌++◌, ◌==◌, string_eq, truthy, or_else, first,
  if◌then◌else◌,
}
use llmops_gateway.Domain.ModelIdentifier.{to_string, parse}
use llmops_gateway.Errors.{Result, ok, err, value_error, Exec, ◌>>◌, pure}
use llmops_gateway.Providers.Resilient.{Provider}

-- The part of `Settings` that routing reads.
pub record Settings : Type 0 where
  pub openai_api_key : Option String
  pub anthropic_api_key : Option String
  pub provider_fallback_chain : List String
  pub provider_model_fallback_map : List (String × String)

abbrev pub map_get : String → List (String × String) → Option String
map_get k [] = none
map_get k ((j, v) ∷ m) = if j == k then some v else map_get k m

-- `err` is the `ValueError` of a malformed value in the map.
unfoldable pub equivalent_of : Option String → String → Result (Option String)
equivalent_of none target_provider = ok none
equivalent_of (some mapped) target_provider = elim (parse mapped) [
  | none ↦ err (value_error mapped)
  | some m ↦ ok (if m.provider == target_provider then some m.model else none)
]

module _ {W : Type 0} where
  -- The constructor: a provider is there if its key is set.
  unfoldable pub new : Settings → Provider W → Provider W → List (Provider W)
  new settings openai anthropic =
      (if truthy settings.openai_api_key then openai ∷ [] else [])
      ++ (if truthy settings.anthropic_api_key then anthropic ∷ [] else [])

  unfoldable pub try_get : List (Provider W) → String → Option (Provider W)
  try_get providers name = first (λ p. p.name == name) providers

  unfoldable pub get : List (Provider W) → String → Result (Provider W)
  unfolding try_get
  get providers name = elim (try_get providers name) [
    | some p ↦ ok p
    | none ↦ err (value_error name)
  ]

  unfoldable pub find_supporting : List (Provider W) → String → Option (Provider W)
  find_supporting providers model = first (λ p. p.supports_model model) providers

  unfoldable pub resolve_equivalent_model :
      Settings → List (Provider W) → String → String → Result (Option String)
  unfolding find_supporting equivalent_of
  resolve_equivalent_model settings providers model target_provider =
      elim (find_supporting providers model) [
        | none ↦ ok none
        | some source ↦
            equivalent_of
              (map_get (to_string (record { provider = source.name; model = model }))
                settings.provider_model_fallback_map)
              target_provider
      ]

  -- The names of the chain that no provider is registered under are passed over.
  abbrev pub registered : List (Provider W) → List String → List (Provider W)
  registered providers [] = []
  registered providers (name ∷ names) =
      let rest = registered providers names in
      elim (try_get providers name) [ some p ↦ p ∷ rest | none ↦ rest ]

  unfoldable pub fallback_chain :
      Settings → List (Provider W) → Option String → Result (List (Provider W))
  unfolding get
  fallback_chain settings providers override =
      if truthy override
      then elim (get providers (or_else override "")) [ ok p ↦ ok (p ∷ []) | err e ↦ err e ]
      else ok (registered providers settings.provider_fallback_chain)

  -- `aclose` is the method of a provider; one that raises leaves those after it open.
  unfoldable pub aclose_all :
      (Provider W → Exec W (Unit {0})) → List (Provider W) → Exec W (Unit {0})
  aclose_all aclose [] = pure tt
  aclose_all aclose (p ∷ providers) = aclose p >> aclose_all aclose providers
