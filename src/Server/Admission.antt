-- ===== src/Server/Admission.antt =====
-- Nothing below /sandboxes is reached without a valid key and a token.
use cage.Common.{
  ℕ, String, List, ◌∷◌, Bool, true, false, ◌≡◌, ◌⊎◌, inl, inr, refl, ◌∙◌, arith, str_eq,
  if◌then◌else◌, Bool-cases,
}
use cage.Common.Exec.{Exec, Error, Result, ok, err}
use cage.Api.{Api, Handler, Response, response_of, serve}
use cage.Auth.{validate_with_cache, trim_prefix, admitted}
use cage.RateLimit.{Buckets, Limiter, allow, decided, rate_limit_middleware}
use cage.Auth.Refusal.{validate-Spared}
use cage.Server.{Request, sandbox_route, route, limited}
use cage.World.{World}

module _ {B : Type 0} (api : Api B) (uuid_parse : String → Bool) (hash_key : String → String)
    (limiter : Limiter) (metrics_token : String) (exposition : Handler B Response)
    (unrouted : Request → Response) where
  -- The hash of the request's key.
  abbrev pub key_of : Request → String
  key_of req = hash_key (trim_prefix req.authorization "Bearer ")

  abbrev is_yes : Result Error Bool → Bool
  is_yes (ok b) = b
  is_yes (err e) = false

  abbrev is_no : Result Error (Bool × ℕ) → Bool
  is_no (ok (b, left)) = if b then false else true
  is_no (err e) = false

  -- Whether the key is admitted, and whether its bucket is empty.
  abbrev pub is_admitted : Request → World B → Bool
  is_admitted req w = is_yes (validate_with_cache (key_of req) w).0

  abbrev pub is_refused : Request → Buckets → Bool
  is_refused req l = is_no (allow limiter (key_of req) req.received_at l).0

  abbrev Guarded : World B → Result Response Response × (Buckets × World B) → Type 0
  Guarded w (r, s) =
      (((response_of r).status ≡ 401)
        ⊎ (((response_of r).status ≡ 429) ⊎ ((response_of r).status ≡ 500)))
      × (s.1.backend ≡ w.backend)
      × (s.1.db.sandboxes ≡ w.db.sandboxes)

  decided-Guarded :
      (r : Result Error (Bool × ℕ)) (handler : World B → Response × World B) (l : Buckets)
      (w : World B)
      → is_no r ≡ true
      → Guarded w (let (answer, w') = decided r handler w in (ok answer.response, (l, w')))
  decided-Guarded (err e) handler l w h = absurd (ground arith)
  decided-Guarded (ok (true, left)) handler l w h = absurd (ground arith)
  decided-Guarded (ok (false, left)) handler l w h = (inr (inl refl), refl, refl)

  abbrev guarded_by : Request → Handler B Response → Exec Response (Buckets × World B) Response
  guarded_by = limited api uuid_parse hash_key limiter metrics_token exposition unrouted

  limited-Guarded :
      (req : Request) (handler : Handler B Response) (l : Buckets) (w : World B)
      → is_refused req l ≡ true
      → Guarded w (guarded_by req handler (l, w))
  unfolding rate_limit_middleware
  limited-Guarded req handler l w h =
      decided-Guarded (allow limiter (key_of req) req.received_at l).0 (serve handler)
        (allow limiter (key_of req) req.received_at l).1 w h

  admitted-Guarded :
      (r : Result Error Bool) (req : Request) (handler : Handler B Response) (l : Buckets)
      (w : World B)
      → (is_yes r ≡ false) ⊎ (is_refused req l ≡ true)
      → Guarded w (admitted r (guarded_by req handler) (l, w))
  admitted-Guarded (err e) req handler l w h = (inr (inr refl), refl, refl)
  admitted-Guarded (ok false) req handler l w h = (inl refl, refl, refl)
  admitted-Guarded (ok true) req handler l w (inl h) = absurd (ground arith)
  admitted-Guarded (ok true) req handler l w (inr h) = limited-Guarded req handler l w h

  checked-Guarded :
      (req : Request) (handler : Handler B Response) (l : Buckets) (w : World B)
      → (is_admitted req w ≡ false) ⊎ (is_refused req l ≡ true)
      → Guarded w (
          admitted
            (validate_with_cache (key_of req) w).0
            (guarded_by req handler)
            (l, (validate_with_cache (key_of req) w).1))
  checked-Guarded req handler l w h =
      let (status, backend, rows) =
        admitted-Guarded (validate_with_cache (key_of req) w).0 req handler l
          (validate_with_cache (key_of req) w).1 h in
      let (backend', rows') = validate-Spared (key_of req) w in
      (status, backend ∙ backend', rows ∙ rows')

  -- A request below /sandboxes, of any method and to any path, whose key is not admitted or whose
  -- bucket is empty is answered with 401, 429 or 500, and leaves the backend and the records as
  -- they were.
  pub route_guards :
      (req : Request) (rest : List String) (l : Buckets) (w : World B)
      → (is_admitted req w ≡ false) ⊎ (is_refused req l ≡ true)
      → let (r, s) =
          route api uuid_parse hash_key limiter metrics_token exposition unrouted req
            ("sandboxes" ∷ rest)
            (l, w) in
        (((response_of r).status ≡ 401)
          ⊎ (((response_of r).status ≡ 429) ⊎ ((response_of r).status ≡ 500)))
        × (s.1.backend ≡ w.backend)
        × (s.1.db.sandboxes ≡ w.db.sandboxes)
  unfolding route
  route_guards req rest l w h = elim (Bool-cases (str_eq req.authorization "")) [
    | inl missing ↦ rw missing (inl refl, refl, refl)
    | inr given ↦ rw given (
        checked-Guarded req
          (sandbox_route api uuid_parse hash_key limiter metrics_token exposition unrouted rest req)
          l w h)
  ]
