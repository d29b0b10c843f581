-- ===== src/Middleware/Admission.antt =====
-- Who gets past the middleware of middleware/auth.py, and what those who do not are told.
use llmops_gateway.Prelude.{
  String, ◌≡◌, refl, ap, ◌∙◌, true, false, Option, none, some, ◌⊎◌, inl, inr, ◌==◌, string_eq,
  eq_iff, arith, Bool-cases, Option-cases, truthy, List,
}
use llmops_gateway.Errors.{Result, ok, err, ◌>>=◌, raise}
use llmops_gateway.Auth
use llmops_gateway.Auth.{AuthenticatedPrincipal, Backend}
use llmops_gateway.Middleware.Scopes.{
  is_exempt_path, required_scopes_for_request, principal_has_any_scope,
}
use llmops_gateway.Middleware.Access.{
  Request, AccessSettings, attach_principal, attach_anonymous_principal, authorize, admit,
}

module _ {W : Type 0} (settings : AccessSettings) (s : Backend W) (r : Request) where
  -- The principal may call the route.
  abbrev pub InScope : AuthenticatedPrincipal → Type 0
  InScope p =
      (required_scopes_for_request settings.upper r.path r.method ≡ none)
      ⊎ ((required : List String) × (required_scopes_for_request settings.upper r.path r.method
            ≡ some required)
          × (principal_has_any_scope p.scopes required ≡ true))

  -- The key in the header authenticates, in this world, an active tenant's principal in scope, who
  -- is attached to the request.
  abbrev pub ByKey : W → Request → Type 0
  ByKey w r' =
      (raw_key : String) × (p : AuthenticatedPrincipal) × (r.api_key ≡ some raw_key)
      × ((Auth.authenticate s raw_key w).0 ≡ ok (some p))
      × (p.tenant_status ≡ "active")
      × InScope p
      × (r' ≡ attach_principal p r)

  authorize_cases :
      (o : Option AuthenticatedPrincipal) (w : W) {r' : Request} {w' : W}
      → authorize settings s r o w ≡ (ok r', w')
      → (p : AuthenticatedPrincipal) × (o ≡ some p)
        × (p.tenant_status ≡ "active")
        × InScope p
        × (r' ≡ attach_principal p r)
  unfolding authorize
  authorize_cases none w h = cc
  authorize_cases (some p) w h = elim (Bool-cases (p.tenant_status == "active")) [
    | inr inactive ↦ cc (rw (inactive, raise) at h)
    | inl active ↦
        elim (Option-cases (required_scopes_for_request settings.upper r.path r.method)) [
          | inl free ↦ (p, refl, (eq_iff p.tenant_status "active").0 active, inl free, ground arith)
          | inr (required, e) ↦ elim (Bool-cases (principal_has_any_scope p.scopes required)) [
            | inr lacking ↦ ground arith
            | inl enough ↦ (
              p,
              refl,
              (eq_iff p.tenant_status "active").0 active,
              inr (required, e, enough),
              ground arith,
            )
          ]
        ]
  ]

  by_key :
      (w : W) (raw_key : String) {r' : Request} {w' : W}
      → r.api_key ≡ some raw_key
      → (Auth.authenticate s raw_key >>= authorize settings s r) w ≡ (ok r', w')
      → ByKey w r'
  by_key w raw_key {r'} {w'} header h =
      authenticated (Auth.authenticate s raw_key w).0 (Auth.authenticate s raw_key w).1 refl h
    where
      authenticated :
          (x : Result (Option AuthenticatedPrincipal)) (v : W)
          → (Auth.authenticate s raw_key w).0 ≡ x
          → elim x [ ok a ↦ authorize settings s r a v | err e ↦ (err e, v) ] ≡ (ok r', w')
          → ByKey w r'
      authenticated (err e) v eq k = cc
      authenticated (ok o) v eq k =
          let (p, found, active, scope, attached) = authorize_cases o v k in
          (raw_key, p, header, eq ∙ ap ok found, active, scope, attached)

  -- What a request that goes on was: exempt, let in by a gateway that asks for no key, or the
  -- holder of a key.
  abbrev pub Passed : W → Request → Type 0
  Passed w r' =
      ((is_exempt_path r.path ≡ true) × (r' ≡ r))
      ⊎ ((settings.auth_require_api_key ≡ false) × (r' ≡ attach_anonymous_principal r))
      ⊎ ByKey w r'

  -- A request goes on past the auth middleware only if its path is exempt, or no key is asked for,
  -- or its key authenticates a principal of an active tenant with a scope that the route asks for,
  -- if it asks for any; and then that principal is attached to it.
  pub admit-Passed : (w w' : W) (r' : Request) → admit settings s r w ≡ (ok r', w') → Passed w r'
  unfolding admit
  admit-Passed w w' r' h = elim (Bool-cases (is_exempt_path r.path)) [
    | inl exempt ↦ inl (exempt, ground arith)
    | inr guarded ↦ elim (Bool-cases settings.auth_require_api_key) [
      | inr free ↦ inr (inl (free, ground arith))
      | inl asked ↦ elim (Option-cases r.api_key) [
        | inl missing ↦ cc (rw (guarded, asked, missing, admit, raise) at h)
        | inr (raw_key, header) ↦ elim (Bool-cases (truthy (some raw_key))) [
          | inr empty ↦ cc (rw (guarded, asked, header, empty, admit, raise) at h)
          | inl given ↦
              inr (inr (by_key w raw_key header (rw (guarded, asked, header, given, admit) at h)))
        ]
      ]
    ]
  ]
