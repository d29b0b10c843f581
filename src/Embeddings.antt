-- ===== src/Embeddings.antt =====
-- embeddings/: the timeout of base.py, and the loading of the model in local_provider.py, where any
-- number of tasks run `_ensure_model_loaded` at once. A task stands before its first test, waits for
-- the lock, holds it while the model loads in a thread, or has returned or raised; a schedule says
-- which task goes on next and how. Between these points a task is not interrupted. The library
-- sentence-transformers is a parameter: how a load ends is part of the schedule.
pub mod Loading
use Prim.Native.String.{◌++◌}
use llmops_gateway.Prelude.{
  ℕ, zero, suc, ◌+◌, String, Bool, true, false, Option, none, some, List, [], ◌∷◌, ◌==◌, string_eq,
  if◌then◌else◌,
}
use llmops_gateway.Errors.{Exn, other, Result, ok, err, Exec}

pub data Phase : Type 0 where
  checking waiting loading returned raised : Phase

-- What the tasks share: the lock, the model by its dimension, and how many loads have succeeded.
pub record Shared : Type 0 where
  pub held : Bool
  pub model : Option ℕ
  pub loads : ℕ

pub data Event : Type 0 where
  check acquire failed : Event
  loaded : ℕ → Event

-- `if self._model is not None: return`
abbrev pub first_check : Option ℕ → Phase
first_check none = waiting
first_check (some dimension) = returned

-- The lock is free: the second test, and either the return or the start of the load.
abbrev pub locked : Shared → Option ℕ → Phase × Shared
locked s none = (loading, record s { held = true })
locked s (some dimension) = (returned, s)

-- What an event makes of a task. One that the task does not wait for changes nothing.
unfoldable pub advance : Event → Phase → Shared → Phase × Shared
advance check checking s = (first_check s.model, s)
advance check waiting s = (waiting, s)
advance check loading s = (loading, s)
advance check returned s = (returned, s)
advance check raised s = (raised, s)
advance acquire waiting s = if s.held then (waiting, s) else locked s s.model
advance acquire checking s = (checking, s)
advance acquire loading s = (loading, s)
advance acquire returned s = (returned, s)
advance acquire raised s = (raised, s)
advance (loaded dimension) loading s =
    (returned, record { held = false; model = some dimension; loads = suc s.loads })
advance (loaded dimension) checking s = (checking, s)
advance (loaded dimension) waiting s = (waiting, s)
advance (loaded dimension) returned s = (returned, s)
advance (loaded dimension) raised s = (raised, s)
advance failed loading s = (raised, record s { held = false })
advance failed checking s = (checking, s)
advance failed waiting s = (waiting, s)
advance failed returned s = (returned, s)
advance failed raised s = (raised, s)

-- The event of the task at a place.
unfoldable pub turn : Event → ℕ → List Phase → Shared → List Phase × Shared
turn e i [] s = ([], s)
turn e zero (p ∷ ps) s = let (p', s') = advance e p s in (p' ∷ ps, s')
turn e (suc i) (p ∷ ps) s = let (ps', s') = turn e i ps s in (p ∷ ps', s')

unfoldable pub run : List (ℕ × Event) → List Phase × Shared → List Phase × Shared
run [] (ps, s) = (ps, s)
run ((i, e) ∷ schedule) (ps, s) = run schedule (turn e i ps s)

-- The tasks at their start, before anything was loaded.
abbrev pub starting : ℕ → List Phase
starting zero = []
starting (suc n) = checking ∷ starting n

abbrev pub unloaded : Shared
unloaded = record { held = false; model = none; loads = 0 }

abbrev pub local_model_id : String → String
local_model_id model_name = "local-" ++ model_name

abbrev pub api_model_id : String → String
api_model_id model_name = "api-" ++ model_name

-- The dimension before the model is loaded.
abbrev pub known_dimension : String → ℕ
known_dimension model_name = if model_name == "all-mpnet-base-v2" then 768 else 384

abbrev pub api_dimension : String → ℕ
api_dimension model_name = if model_name == "text-embedding-3-large" then 3072 else 1536

abbrev pub dimension : String → Shared → ℕ
dimension model_name s = elim s.model [ none ↦ known_dimension model_name | some d ↦ d ]

-- `asyncio.wait_for`: what the implementation did within the time, or `none` where it ran out.
abbrev pub in_time : {A : Type 0} → Option (Result A) → Result A
in_time none = err (other "EmbeddingTimeoutError")
in_time (some r) = r

-- `BaseEmbeddingProvider.embed`
unfoldable pub embed : {W A : Type 0} → (String → W → Option (Result A) × W) → String → Exec W A
embed wait_for text w = let (r, w') = wait_for text w in (in_time r, w')
