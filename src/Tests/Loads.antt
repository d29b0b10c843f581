-- ===== src/Tests/Loads.antt =====
-- Three tasks that load a model, and keys as the settings read them.
use llmops_gateway.Prelude.{ℕ, ◌≤◌, ◌≡◌, ◌⊎◌, refl, true, false, is_some, List, [], ◌∷◌}
use llmops_gateway.Json.{null, text}
use llmops_gateway.Embeddings.{
  Event, check, acquire, failed, loaded, advance, turn, run, starting, unloaded,
}
use llmops_gateway.Embeddings.Loading.{loading_count, returned_count, run_loads_once}
use llmops_gateway.Config.{normalize_optional_api_key}

-- The first load fails, the second succeeds while a task waits for the lock.
abbrev schedule : List (ℕ × Event)
schedule =
    (0, check)
    ∷ (1, check)
    ∷ (2, check)
    ∷ (0, acquire)
    ∷ (1, acquire)
    ∷ (0, failed)
    ∷ (1, acquire)
    ∷ (1, loaded 384)
    ∷ (2, acquire)
    ∷ []

loads_at_end : (run schedule (starting 3, unloaded)).1.loads ≡ 1
unfolding run turn advance
loads_at_end = refl

run_loads_once_example :
    (loading_count (run schedule (starting 3, unloaded)).0 ≤ 1)
    × ((run schedule (starting 3, unloaded)).1.loads ≤ 1)
    × ((is_some (run schedule (starting 3, unloaded)).1.model ≡ false)
        ⊎ (loading_count (run schedule (starting 3, unloaded)).0 ≡ 0))
    × ((is_some (run schedule (starting 3, unloaded)).1.model ≡ true)
        ⊎ (returned_count (run schedule (starting 3, unloaded)).0 ≡ 0))
run_loads_once_example = run_loads_once 3 schedule

quoted_key : normalize_optional_api_key (text " \"sk-1\" ") ≡ text "sk-1"
unfolding normalize_optional_api_key
quoted_key = refl

blank_key : normalize_optional_api_key (text "''") ≡ null
unfolding normalize_optional_api_key
blank_key = refl
