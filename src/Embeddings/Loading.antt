-- ===== src/Embeddings/Loading.antt =====
-- The tasks of embeddings/local_provider.py that load the model at once.
use llmops_gateway.Prelude.{
  ℕ, zero, suc, ◌+◌, ◌≤◌, Bool, true, false, ◌≡◌, ◌⊎◌, refl, is_some, List, [], ◌∷◌, arith, inr,
}
use llmops_gateway.Embeddings.{
  Phase, checking, waiting, loading, returned, raised, Shared, Event, check, acquire, failed,
  loaded, advance, turn, run, starting, unloaded,
}

abbrev pub one_if : Bool → ℕ
one_if true = 1
one_if false = 0

abbrev pub is_loading : Phase → Bool
is_loading p = elim p [
  | checking ↦ false
  | waiting ↦ false
  | loading ↦ true
  | returned ↦ false
  | raised ↦ false
]

abbrev pub is_returned : Phase → Bool
is_returned p = elim p [
  | checking ↦ false
  | waiting ↦ false
  | loading ↦ false
  | returned ↦ true
  | raised ↦ false
]

-- The tasks that wait for a load, and those that have returned.
abbrev pub loading_count : List Phase → ℕ
loading_count [] = 0
loading_count (p ∷ ps) = one_if (is_loading p) + loading_count ps

abbrev pub returned_count : List Phase → ℕ
returned_count [] = 0
returned_count (p ∷ ps) = one_if (is_returned p) + returned_count ps

-- With `l` tasks that load and `r` that have returned: the lock is held exactly by the one that
-- loads, the loads that succeeded are as many as there are models, nobody loads where there is one,
-- and nobody has returned where there is none.
abbrev Sound : ℕ → ℕ → Shared → Type 0
Sound l r s =
    (l ≡ one_if s.held)
    × (s.loads ≡ one_if (is_some s.model))
    × (one_if s.held + one_if (is_some s.model) ≤ 1)
    × ((is_some s.model ≡ true) ⊎ (r ≡ 0))

advance-Sound :
    (e : Event) (p : Phase) (s : Shared) (l r : ℕ)
    → Sound (l + one_if (is_loading p)) (r + one_if (is_returned p)) s
    → Sound
        (l + one_if (is_loading (advance e p s).0))
        (r + one_if (is_returned (advance e p s).0))
        (advance e p s).1
unfolding advance
advance-Sound check checking s l r h = ground arith
advance-Sound check waiting s l r h = h
advance-Sound check loading s l r h = h
advance-Sound check returned s l r h = h
advance-Sound check raised s l r h = h
advance-Sound acquire checking s l r h = h
advance-Sound acquire waiting s l r h = ground arith
advance-Sound acquire loading s l r h = h
advance-Sound acquire returned s l r h = h
advance-Sound acquire raised s l r h = h
advance-Sound (loaded d) checking s l r h = h
advance-Sound (loaded d) waiting s l r h = h
advance-Sound (loaded d) loading s l r h = ground arith
advance-Sound (loaded d) returned s l r h = h
advance-Sound (loaded d) raised s l r h = h
advance-Sound failed checking s l r h = h
advance-Sound failed waiting s l r h = h
advance-Sound failed loading s l r h = ground arith
advance-Sound failed returned s l r h = h
advance-Sound failed raised s l r h = h

regroup :
    (l a b r c d : ℕ) (s : Shared)
    → Sound (l + (a + b)) (r + (c + d)) s
    → Sound ((l + b) + a) ((r + d) + c) s
regroup l a b r c d s h = ground arith

ungroup :
    (l a b r c d : ℕ) (s : Shared)
    → Sound ((l + b) + a) ((r + d) + c) s
    → Sound (l + (a + b)) (r + (c + d)) s
ungroup l a b r c d s h = ground arith

inner :
    (l a b r c d : ℕ) (s : Shared)
    → Sound (l + (a + b)) (r + (c + d)) s
    → Sound ((l + a) + b) ((r + c) + d) s
inner l a b r c d s h = ground arith

outer :
    (l a b r c d : ℕ) (s : Shared)
    → Sound ((l + a) + b) ((r + c) + d) s
    → Sound (l + (a + b)) (r + (c + d)) s
outer l a b r c d s h = ground arith

turn-Sound :
    (e : Event) (i : ℕ) (ps : List Phase) (s : Shared) (l r : ℕ)
    → Sound (l + loading_count ps) (r + returned_count ps) s
    → Sound
        (l + loading_count (turn e i ps s).0)
        (r + returned_count (turn e i ps s).0)
        (turn e i ps s).1
unfolding turn
turn-Sound e i [] s l r h = h
turn-Sound e zero (p ∷ ps) s l r h =
    let q = (advance e p s).0 in
    ungroup l (one_if (is_loading q)) (loading_count ps) r (one_if (is_returned q))
      (returned_count ps) (advance e p s).1
      (advance-Sound e p s (l + loading_count ps) (r + returned_count ps) (
        regroup l (one_if (is_loading p)) (loading_count ps) r (one_if (is_returned p))
          (returned_count ps) s h))
turn-Sound e (suc i) (p ∷ ps) s l r h =
    let a = one_if (is_loading p) in
    let c = one_if (is_returned p) in
    let (qs, s') = turn e i ps s in
    outer l a (loading_count qs) r c (returned_count qs) s' (
      turn-Sound e i ps s (l + a) (r + c)
        (inner l a (loading_count ps) r c (returned_count ps) s h))

to_zero : (l r : ℕ) (s : Shared) → Sound l r s → Sound (0 + l) (0 + r) s
to_zero l r s h = ground arith

from_zero : (l r : ℕ) (s : Shared) → Sound (0 + l) (0 + r) s → Sound l r s
from_zero l r s h = ground arith

conclude :
    (l r : ℕ) (s : Shared)
    → Sound l r s
    → (l ≤ 1)
      × (s.loads ≤ 1)
      × ((is_some s.model ≡ false) ⊎ (l ≡ 0))
      × ((is_some s.model ≡ true) ⊎ (r ≡ 0))
conclude l r s h = ground arith

run-Sound :
    (schedule : List (ℕ × Event)) (ps : List Phase) (s : Shared)
    → Sound (loading_count ps) (returned_count ps) s
    → Sound
        (loading_count (run schedule (ps, s)).0)
        (returned_count (run schedule (ps, s)).0)
        (run schedule (ps, s)).1
unfolding run
run-Sound [] ps s h = h
run-Sound ((i, e) ∷ schedule) ps s h = run-Sound schedule (turn e i ps s).0 (turn e i ps s).1 (
    from_zero (loading_count (turn e i ps s).0) (returned_count (turn e i ps s).0) (turn e i ps s).1
      (turn-Sound e i ps s 0 0 (to_zero (loading_count ps) (returned_count ps) s h)))

no_loading : (n : ℕ) → loading_count (starting n) ≡ 0
no_loading zero = refl
no_loading (suc n) = omega (arith, no_loading n)

no_returned : (n : ℕ) → returned_count (starting n) ≡ 0
no_returned zero = refl
no_returned (suc n) = omega (arith, no_returned n)

-- However the tasks that start at once are scheduled and however their loads end, at most one waits
-- for a load at a time, at most one load succeeds, none runs once there is a model, and no task has
-- returned where there is none.
pub run_loads_once :
    (n : ℕ) (schedule : List (ℕ × Event))
    → (loading_count (run schedule (starting n, unloaded)).0 ≤ 1)
      × ((run schedule (starting n, unloaded)).1.loads ≤ 1)
      × ((is_some (run schedule (starting n, unloaded)).1.model ≡ false)
          ⊎ (loading_count (run schedule (starting n, unloaded)).0 ≡ 0))
      × ((is_some (run schedule (starting n, unloaded)).1.model ≡ true)
          ⊎ (returned_count (run schedule (starting n, unloaded)).0 ≡ 0))
run_loads_once n schedule =
    let (ps, s) = run schedule (starting n, unloaded) in
    conclude (loading_count ps) (returned_count ps) s (
      run-Sound schedule (starting n) unloaded
        (no_loading n, refl, omega arith, inr (no_returned n)))
