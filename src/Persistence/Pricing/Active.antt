-- ===== src/Persistence/Pricing/Active.antt =====
-- Which row `PricingRepository.get_active_price` of
-- persistence/repositories/pricing_repository.py returns.
use llmops_gateway.Prelude.{
  ℕ, ◌≤◌, String, ◌≡◌, refl, Bool, true, none, some, List, [], ◌∷◌, All, arith, ltb, ltb→lt, select,
  Bool-cases, inl, inr, ◌⊎◌,
}
use llmops_gateway.Persistence.Pricing.{PricingRow, covers, latest, get_active_price}

abbrev pub NotLater : ℕ → List PricingRow → Type 0
NotLater from = All (λ row. row.effective_from ≤ from)

latest-some :
    (test : PricingRow → Bool) (best : PricingRow) (rows : List PricingRow)
    → test best ≡ true
    → All (λ row. test row ≡ true) rows
    → (r : PricingRow) × (latest (some best) rows ≡ some r)
      × (test r ≡ true)
      × (best.effective_from ≤ r.effective_from)
      × NotLater r.effective_from rows
latest-some test best [] b h = (best, refl, b, omega arith, tt)
latest-some test best (row ∷ rows) b h =
    elim (Bool-cases (ltb best.effective_from row.effective_from)) [
      | inl later ↦
          let (r, e, t, le, all) = latest-some test row rows h.0 h.1 in
          (
            r,
            rw later e,
            t,
            omega (arith, ltb→lt best.effective_from row.effective_from later),
            (le, all),
          )
      | inr earlier ↦
          let (r, e, t, le, all) = latest-some test best rows b h.1 in
          (r, rw earlier e, t, le, (ground arith, all))
    ]

All-select :
    (test : PricingRow → Bool) (rows : List PricingRow)
    → All (λ row. test row ≡ true) (select test rows)
All-select test [] = tt
All-select test (row ∷ rows) = elim (Bool-cases (test row)) [
  | inl keep ↦ rw keep (keep, All-select test rows)
  | inr drop ↦ rw drop (All-select test rows)
]

latest_cases :
    (test : PricingRow → Bool) (rows : List PricingRow)
    → All (λ row. test row ≡ true) rows
    → ((latest none rows ≡ none) × (rows ≡ []))
      ⊎ ((r : PricingRow) × (latest none rows ≡ some r)
          × (test r ≡ true)
          × NotLater r.effective_from rows)
latest_cases test [] h = inl (refl, refl)
latest_cases test (row ∷ rows) h =
    let (r, e, t, le, all) = latest-some test row rows h.0 h.1 in inr (r, e, t, (le, all))

-- The price in force is a row of the provider and model whose window covers the moment, of which
-- none began later; and there is none only if no row covers the moment.
pub get_active_price_latest :
    (provider model : String) (at : ℕ) (rows : List PricingRow)
    → ((get_active_price provider model at rows ≡ none)
        × (select (covers provider model at) rows ≡ []))
      ⊎ ((r : PricingRow) × (get_active_price provider model at rows ≡ some r)
          × (covers provider model at r ≡ true)
          × NotLater r.effective_from (select (covers provider model at) rows))
unfolding get_active_price
get_active_price_latest provider model at rows =
    latest_cases (covers provider model at) (select (covers provider model at) rows)
      (All-select (covers provider model at) rows)
