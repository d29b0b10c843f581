-- ===== src/Auth/Transparent.antt =====
-- The Redis cache of services/auth_service.py is transparent: where Redis answers, what the
-- service says of a key is what the database says, and that is kept by its operations.
use package.text.Mathlib.TextLemmas.{append_cancel_left}
use llmops_gateway.Prelude.{
  ℕ, String, ◌≡◌, refl, ap, sym, subst, ◌∙◌, true, Option, none, some, ◌⊎◌, ◌==◌, string_eq, eq_iff,
  arith, Bool-cases, Option-cases, inl, inr, if◌then◌else◌, Bool, List, [], ◌∷◌, map, contains,
  ◌||◌,
}
use llmops_gateway.Prelude.Int.{ℤ}
use llmops_gateway.Errors.{Result, ok}
use llmops_gateway.Json.{int, text, arr, items}
use llmops_gateway.Security.{hash_api_key, is_valid_api_key_format}
use llmops_gateway.Persistence.ApiKeys.{KeyTables, get_active_by_key_hash}
use llmops_gateway.Auth.{
  AuthenticatedPrincipal, insert_once, sorted, limit_value, payload_with, Backend, limit_of,
  principal_from, read, encode, decode, auth_cache_prefix, cache_key, get_cached, found_principal,
  load_from_database, admit_loaded, after_cache, authenticate,
}

-- Redis answers, its contents are `view`, what is read of a JSON text is what was written, and the cache and the
-- database are separate parts of the world.
pub record Lawful {W : Type 0} (s : Backend W) (view : W → String → Option String) : Type 0 where
  pub get : (k : String) (w : W) → s.redis.get k w ≡ (ok (view w k), w)
  pub set :
      (k v : String) (ttl : ℕ) (w : W)
      → (w' : W) × (s.redis.set k v ttl w ≡ (ok tt, w'))
        × (s.db w' ≡ s.db w)
        × ((j : String) → view w' j ≡ (if k == j then some v else view w j))
  pub delete :
      (k : String) (w : W)
      → (w' : W) × (s.redis.delete k w ≡ (ok tt, w'))
        × (s.db w' ≡ s.db w)
        × ((j : String) → view w' j ≡ (if k == j then none else view w j))
  pub loads_dumps :
      (p : AuthenticatedPrincipal) (scopes : List String)
      → s.loads (s.dumps (payload_with p scopes)) ≡ some (payload_with p scopes)
  pub as_text : (t : String) → s.as_text (text t) ≡ t
  pub as_number : (n : ℤ) → s.as_number (int n) ≡ n
  pub frozenset : (scopes : List String) → s.frozenset (arr (items (map text scopes))) ≡ some scopes
  pub db_set : (d : KeyTables) (w : W) → s.db (s.set_db d w) ≡ d
  pub view_set_db : (d : KeyTables) (w : W) → view (s.set_db d w) ≡ view w
  pub db_touch : (i : String) (w : W) → s.db (s.spawn_touch i w) ≡ s.db w
  pub view_touch : (i : String) (w : W) → view (s.spawn_touch i w) ≡ view w

-- The same principal: its scopes are the same set.
abbrev pub Same : AuthenticatedPrincipal → AuthenticatedPrincipal → Type 0
Same p q =
    (p.tenant_id ≡ q.tenant_id)
    × (p.api_key_id ≡ q.api_key_id)
    × (p.tenant_status ≡ q.tenant_status)
    × (p.rate_limit_per_minute ≡ q.rate_limit_per_minute)
    × ((scope : String) → contains scope p.scopes ≡ contains scope q.scopes)

Same-refl : (p : AuthenticatedPrincipal) → Same p p
Same-refl p = (refl, refl, refl, refl, λ scope. refl)

abbrev pub Agrees : Option AuthenticatedPrincipal → Option AuthenticatedPrincipal → Type 0
Agrees none none = Unit
Agrees (some p) (some q) = Same p q
Agrees none (some q) = ⊥
Agrees (some p) none = ⊥

pub Agrees-none : (o : Option AuthenticatedPrincipal) → Agrees o none → o ≡ none
Agrees-none none a = refl
Agrees-none (some p) a = elim a [ ]

contains-insert_once :
    (before : String → String → Bool) (scope x : String) (ys : List String)
    → contains scope (insert_once before x ys) ≡ (x == scope || contains scope ys)
contains-insert_once before scope x [] = refl
contains-insert_once before scope x (y ∷ ys) =
    let later = contains-insert_once before scope x ys in
    elim (Bool-cases (x == y)) [
      | inl same ↦ ground (arith, eq_iff x y, same)
      | inr other ↦ elim (Bool-cases (before x y)) [
        | inl e ↦ rw (other, e)
        | inr e ↦ rw (other, e, later) (ground arith)
      ]
    ]

contains-sorted :
    (before : String → String → Bool) (scope : String) (xs : List String)
    → contains scope (sorted before xs) ≡ contains scope xs
contains-sorted before scope [] = refl
contains-sorted before scope (x ∷ xs) =
    contains-insert_once before scope x (sorted before xs)
    ∙ ap (λ b. x == scope || b) (contains-sorted before scope xs)

some_inj : {a b : AuthenticatedPrincipal} → some a ≡ some b → a ≡ b
some_inj h = cc

unwrap : {a b : String} → some a ≡ some b → a ≡ b
unwrap h = cc

module _ {W : Type 0} (s : Backend W) (view : W → String → Option String) where
  -- What the database says of a key hash.
  abbrev pub db_principal : KeyTables → String → Option AuthenticatedPrincipal
  db_principal db h = found_principal s (get_active_by_key_hash db h)

  -- Every principal in the cache is what the database says of its key hash.
  abbrev pub Coherent : (String → Option String) → KeyTables → Type 0
  Coherent cache db =
      (h payload : String) (p : AuthenticatedPrincipal)
      → cache (cache_key s h) ≡ some payload
      → decode s payload ≡ some p
      → Agrees (some p) (db_principal db h)

  module _ (l : Lawful s view) where
    limit_back : (o : Option ℤ) → limit_of s (some (limit_value o)) ≡ o
    limit_back none = refl
    limit_back (some n) = rw (l.as_number n)

    -- What the cache gives back is the principal with its scopes in order.
    decode-encode :
        (p : AuthenticatedPrincipal)
        → decode s (encode s p) ≡ some (record p { scopes = sorted s.text_before p.scopes })
    unfolding decode principal_from
    decode-encode p =
        ap (read s) (l.loads_dumps p (sorted s.text_before p.scopes))
        ∙ rw (
          l.frozenset (sorted s.text_before p.scopes),
          limit_back p.rate_limit_per_minute,
          l.as_text p.tenant_id,
          l.as_text p.api_key_id,
          l.as_text p.tenant_status,
        )

    decoded-Same : (p q : AuthenticatedPrincipal) → decode s (encode s q) ≡ some p → Same p q
    decoded-Same p q h =
        subst (λ x. Same x q) (some_inj (sym (decode-encode q) ∙ h))
          (refl, refl, refl, refl, λ scope. contains-sorted s.text_before scope q.scopes)

    -- A write of what the database says keeps the cache coherent.
    Coherent-write :
        (cache cache' : String → Option String) (db : KeyTables) (k : String)
        (q : AuthenticatedPrincipal)
        → Coherent cache db
        → db_principal db k ≡ some q
        → ((j : String) → cache' j ≡ (if cache_key s k == j then some (encode s q) else cache j))
        → Coherent cache' db
    Coherent-write cache cache' db k q c known written h payload p hit decoded =
        elim (Bool-cases (cache_key s k == cache_key s h)) [
          | inl same ↦
              let kh : k ≡ h =
                append_cancel_left auth_cache_prefix k h
                  ((eq_iff (cache_key s k) (cache_key s h)).0 same) in
              let stored : some (encode s q) ≡ some payload =
                sym (rw same at (written (cache_key s h))) ∙ hit in
              subst (λ j. Agrees (some p) (db_principal db j)) kh
                (subst (Agrees (some p)) (sym known)
                  (decoded-Same p q (ap (decode s) (unwrap stored) ∙ decoded)))
          | inr other ↦ c h payload p (sym (rw other at (written (cache_key s h))) ∙ hit) decoded
        ]

    Coherent-delete :
        (cache cache' : String → Option String) (db : KeyTables) (k : String)
        → Coherent cache db
        → ((j : String) → cache' j ≡ (if cache_key s k == j then none else cache j))
        → Coherent cache' db
    Coherent-delete cache cache' db k c written h payload p hit decoded =
        elim (Bool-cases (cache_key s k == cache_key s h)) [
          | inl same ↦ cc (hit, rw same at (written (cache_key s h)))
          | inr other ↦ c h payload p (sym (rw other at (written (cache_key s h))) ∙ hit) decoded
        ]

    -- The result and the world that `authenticate` leaves.
    abbrev pub Right : W → String → Result (Option AuthenticatedPrincipal) × W → Type 0
    Right w h x =
        ((o : Option AuthenticatedPrincipal) × (x.0 ≡ ok o) × Agrees o (db_principal (s.db w) h))
        × (s.db x.1 ≡ s.db w)
        × Coherent (view x.1) (s.db w)

    admit_loaded_run :
        (w w' : W) (h : String) (p : AuthenticatedPrincipal)
        → s.redis.set (cache_key s h) (encode s p) s.cache_ttl_seconds w ≡ (ok tt, w')
        → admit_loaded s h (some p) w ≡ (ok (some p), s.spawn_touch p.api_key_id w')
    unfolding admit_loaded
    admit_loaded_run w w' h p e = ground arith

    admit_loaded-Right :
        (w : W) (h : String) (o : Option AuthenticatedPrincipal)
        → db_principal (s.db w) h ≡ o
        → Coherent (view w) (s.db w)
        → Right w h (admit_loaded s h o w)
    admit_loaded-Right w h none known c =
        unfold admit_loaded in ((none, refl, subst (Agrees none) (sym known) tt), refl, c)
    admit_loaded-Right w h (some p) known c =
        let (w1, e1, d1, v1) = l.set (cache_key s h) (encode s p) s.cache_ttl_seconds w in
        rw (admit_loaded_run w w1 h p e1) (
          (some p, refl, subst (Agrees (some p)) (sym known) (Same-refl p)),
          l.db_touch p.api_key_id w1 ∙ d1,
          rw (l.view_touch p.api_key_id w1)
              (Coherent-write (view w) (view w1) (s.db w) h p c known v1),
        )

    -- The cache answers with what the database says, or it has no answer.
    get_cached_cases :
        (w : W) (h : String)
        → Coherent (view w) (s.db w)
        → ((p : AuthenticatedPrincipal) × (get_cached s h w ≡ (ok (some p), w))
            × Agrees (some p) (db_principal (s.db w) h))
          ⊎ ((w' : W) × (get_cached s h w ≡ (ok none, w'))
              × (s.db w' ≡ s.db w)
              × Coherent (view w') (s.db w))
    unfolding get_cached
    get_cached_cases w h c = elim (Option-cases (view w (cache_key s h))) [
      | inl empty ↦ inr (w, ground (arith, l.get (cache_key s h) w), refl, c)
      | inr (payload, hit) ↦ elim (Option-cases (decode s payload)) [
        | inr (p, decoded) ↦
            inl (p, ground (arith, l.get (cache_key s h) w), c h payload p hit decoded)
        | inl corrupt ↦
            let (w1, e1, d1, v1) = l.delete (cache_key s h) w in
            inr (
              w1,
              ground (arith, l.get (cache_key s h) w, e1),
              d1,
              Coherent-delete (view w) (view w1) (s.db w) h c v1,
            )
      ]
    ]

    after_cache_run :
        (w : W) (h : String)
        → s.outage w ≡ none
        → after_cache s h none w ≡ admit_loaded s h (db_principal (s.db w) h) w
    unfolding after_cache load_from_database
    after_cache_run w h up = ground arith

    authenticate_run :
        (raw_key : String) (w w' : W) (o : Option AuthenticatedPrincipal)
        → is_valid_api_key_format raw_key ≡ true
        → get_cached s (hash_api_key s.sha256 s.pepper raw_key) w ≡ (ok o, w')
        → authenticate s raw_key w ≡ after_cache s (hash_api_key s.sha256 s.pepper raw_key) o w'
    unfolding authenticate
    authenticate_run raw_key w w' o valid e = ground arith

    -- Where Redis answers, the database is reachable and the cache is coherent: of a key of valid
    -- format, `authenticate` says what the database says of its hash, with the same set of scopes,
    -- whatever the cache holds; it leaves the database alone and the cache coherent.
    pub authenticate-Right :
        (raw_key : String) (w : W)
        → is_valid_api_key_format raw_key ≡ true
        → ((v : W) → s.outage v ≡ none)
        → Coherent (view w) (s.db w)
        → Right w (hash_api_key s.sha256 s.pepper raw_key) (authenticate s raw_key w)
    authenticate-Right raw_key w valid up c =
        let h = hash_api_key s.sha256 s.pepper raw_key in
        elim (get_cached_cases w h c) [
          | inl (p, e, known) ↦
              rw (authenticate_run raw_key w w (some p) valid e)
                (unfold after_cache in ((some p, refl, known), refl, c))
          | inr (w', e, d, c') ↦
              rw (authenticate_run raw_key w w' none valid e, after_cache_run w' h (up w'))
                (subst
                  (λ db.
                    ((o : Option AuthenticatedPrincipal) × ((admit_loaded s h
                          (db_principal (s.db w') h) w').0
                        ≡ ok o)
                      × Agrees o (db_principal db h))
                    × (s.db (admit_loaded s h (db_principal (s.db w') h) w').1 ≡ db)
                    × Coherent (view (admit_loaded s h (db_principal (s.db w') h) w').1) db)
                  d
                  (admit_loaded-Right w' h (db_principal (s.db w') h) refl
                    (subst (Coherent (view w')) (sym d) c')))
        ]
