-- ===== src/Auth/Refusal.antt =====
-- A request whose key is not admitted reaches neither the backend nor the records.
use cage.Common.{
  String, ◌≡◌, ◌≢◌, refl, ◌∙◌, ◌⊎◌, inl, inr, Bool, true, false, Bool-cases, arith, str_eq,
}
use cage.Common.Exec.{Error, Result, ok, err}
use cage.Store.{validate_api_key}
use cage.World.{World}
use cage.Api.{Handler, Response, serve}
use cage.Auth.{validate_with_cache, auth_middleware, trim_prefix, admitted}

module _ {B : Type 0} where
  abbrev pub Spared : World B → World B → Type 0
  Spared w w' = (w'.backend ≡ w.backend) × (w'.db.sandboxes ≡ w.db.sandboxes)

  pub validate-Spared : (hash : String) (w : World B) → Spared w (validate_with_cache hash w).1
  unfolding validate_with_cache validate_api_key
  validate-Spared hash w = ground arith

  module _ (hash_key : String → String) where
    admitted-Spared :
        (r : Result Error Bool) (next : Handler B Response) (w : World B)
        → r ≢ ok true
        → let (answer, w') = serve (admitted r next) w in
          ((answer.status ≡ 401) ⊎ (answer.status ≡ 500)) × Spared w w'
    admitted-Spared (err e) next w q = (inr refl, (refl, refl))
    admitted-Spared (ok false) next w q = (inl refl, (refl, refl))
    admitted-Spared (ok true) next w q = absurd (q refl)

    -- Whatever handler stands behind it, AuthMiddleware answers a request whose key is not admitted,
    -- or could not be validated, with 401 or 500, and leaves the backend and the records as they
    -- were.
    pub auth_middleware_refuses :
        (auth_header : String) (next : Handler B Response) (w : World B)
        → (validate_with_cache (hash_key (trim_prefix auth_header "Bearer ")) w).0 ≢ ok true
        → let (r, w') = serve (auth_middleware hash_key auth_header next) w in
          ((r.status ≡ 401) ⊎ (r.status ≡ 500))
          × (w'.backend ≡ w.backend)
          × (w'.db.sandboxes ≡ w.db.sandboxes)
    unfolding auth_middleware
    auth_middleware_refuses auth_header next w q = elim (Bool-cases (str_eq auth_header "")) [
      | inl missing ↦ rw missing (inl refl, refl, refl)
      | inr given ↦
          let hash = hash_key (trim_prefix auth_header "Bearer ") in
          let (status, (backend, rows)) =
            admitted-Spared (validate_with_cache hash w).0 next (validate_with_cache hash w).1 q in
          let (backend', rows') = validate-Spared hash w in
          rw given (status, backend ∙ backend', rows ∙ rows')
    ]
