-- ===== src/Auth.antt =====
-- internal/cache/cache.go, and the guards of internal/api: middleware.go, auth_middleware.go,
-- metrics_auth.go. The clock of the cache is Redis's, in milliseconds.
pub mod Revocation
pub mod Refusal
pub mod Keys
pub mod Issue
use Prim.Native.String.{len, slice}
use cage.Common.{
  ℕ, ◌*◌, String, Option, none, some, Bool, true, false, concat, str_eq, if◌then◌else◌,
}
use cage.Common.Exec.{Exec, Error, Result, ok, err, pure, attempt, modify, ◌>>=◌, ◌>>◌}
use cage.Redis
use cage.Redis.{Redis, command}
use cage.Store.{validate_api_key}
use cage.World.{World, on_db, on_redis}
use cage.Api.{Handler, Response, respond, text}

-- Cache.Get: a missing key is the empty string with no error.
abbrev pub value_or_empty : Option String → String
value_or_empty none = ""
value_or_empty (some v) = v

abbrev pub cache_get : String → Exec Error Redis String
cache_get key = command (λ r. (value_or_empty (Redis.get key r), r))

abbrev pub cache_set : String → String → ℕ → Exec Error Redis (Unit {0})
cache_set key value ttl = command (λ r. (tt, Redis.set key value ttl r))

abbrev pub cache_delete : String → Exec Error Redis (Unit {0})
cache_delete key = command (λ r. (tt, Redis.del key r))

-- apiKeyCacheTTL, in milliseconds.
abbrev pub api_key_cache_ttl : ℕ
api_key_cache_ttl = 5 * 60 * 1000

abbrev pub cache_key : String → String
cache_key key_hash = concat "apikey:" key_hash

-- A value that the cache gives, unless it fails or gives the empty string.
abbrev pub cached_value : Result Error String → Option String
cached_value (err e) = none
cached_value (ok v) = if str_eq v "" then none else some v

abbrev pub verdict : Bool → String
verdict valid = if valid then "valid" else "invalid"

module _ {B : Type 0} where
  -- The store is asked and its answer cached; `others` is what the rest of the world does between
  -- these two calls.
  abbrev pub ask_store_amid : (World B → World B) → String → Exec Error (World B) Bool
  ask_store_amid others key_hash = do
    valid ← on_db (validate_api_key key_hash)
    modify others
    attempt (on_redis (cache_set (cache_key key_hash) (verdict valid) api_key_cache_ttl))
    pure valid

  abbrev pub from_cache_amid :
      (World B → World B) → (World B → World B) → String → Option String → Exec Error (World B) Bool
  from_cache_amid first others key_hash none = modify first >> ask_store_amid others key_hash
  from_cache_amid first others key_hash (some v) = pure (str_eq v "valid")

  -- validateWithCache; `first` is what the rest of the world does after the cache's answer, before
  -- the store is asked.
  unfoldable pub validate_amid :
      (World B → World B) → (World B → World B) → String → Exec Error (World B) Bool
  validate_amid first others key_hash = do
    cached ← attempt (on_redis (cache_get (cache_key key_hash)))
    from_cache_amid first others key_hash (cached_value cached)

  abbrev pub ask_store : String → Exec Error (World B) Bool
  ask_store = ask_store_amid (λ w. w)

  abbrev pub from_cache : String → Option String → Exec Error (World B) Bool
  from_cache = from_cache_amid (λ w. w) (λ w. w)

  -- With no one else at work meanwhile.
  unfoldable pub validate_with_cache : String → Exec Error (World B) Bool
  unfolding validate_amid
  validate_with_cache = validate_amid (λ w. w) (λ w. w)

-- strings.TrimPrefix.
abbrev pub trim_prefix : String → String → String
trim_prefix s prefix =
    if str_eq (slice s 0 (len prefix)) prefix then slice s (len prefix) (len s) else s

module _ {S : Type 0} where
  abbrev pub admitted : Result Error Bool → Exec Response S Response → Exec Response S Response
  admitted (err e) next = pure (respond 500 (text "failed to validate api key"))
  admitted (ok false) next = pure (respond 401 (text "invalid or revoked api key"))
  admitted (ok true) next = next

  abbrev pub checked : Exec Error S Bool → Exec Response S Response → Exec Response S Response
  checked validate next s = let (valid, s') = validate s in admitted valid next s'

  -- AuthMiddleware over the state S of a server, for the value of the Authorization header, "" where
  -- there is none; `validate` checks a raw key.
  abbrev pub authenticated :
      (String → Exec Error S Bool) → String → Exec Response S Response → Exec Response S Response
  authenticated validate auth_header next =
      if str_eq auth_header ""
      then pure (respond 401 (text "missing Authorization header"))
      else checked (validate (trim_prefix auth_header "Bearer ")) next

unfoldable pub auth_middleware :
    {B : Type 0} → (String → String) → String → Handler B Response → Handler B Response
auth_middleware hash_key auth_header next =
    authenticated (λ raw_key. validate_with_cache (hash_key raw_key)) auth_header next

-- MetricsAuthMiddleware, for the configured token and the value of the Authorization header.
unfoldable pub metrics_auth_middleware :
    {B : Type 0} → String → String → Handler B Response → Handler B Response
metrics_auth_middleware token provided next =
    if str_eq token ""
    then pure (respond 404 (text "metrics endpoint is disabled (METRICS_TOKEN not set)"))
    else if str_eq provided (concat "Bearer " token)
    then next
    else pure (respond 401 (text "unauthorized"))
