-- ===== src/RateLimit.antt =====
-- internal/ratelimit/ratelimit.go and internal/api/ratelimit_middleware.go. Times are nanoseconds and
-- tokens are counted in units of 10^-18, so that a refill rate, in units per nanosecond, is a natural
-- number for every rate of whole nano-tokens per second; the floats of the source are not rounded.
pub mod Budget
use cage.Common.{
  ℕ, suc, ◌+◌, ◌-◌, ◌*◌, ◌^◌, String, List, [], ◌∷◌, Option, none, some, Bool, true, false, ltb,
  leb, concat, if◌then◌else◌,
}
use cage.Common.Dict.{Dict, lookup, insert}
use cage.Common.Exec.{Exec, Error, Result, ok, err, or_wrap}
use cage.Api.{Response, respond, text}
use cage.Auth.{trim_prefix}

-- The hash of a bucket's key, and when the key expires on Redis's clock.
pub record Bucket : Type 0 where
  pub tokens : ℕ
  pub last_refill : ℕ
  pub expires : ℕ

-- Redis, as far as the script uses it; the n-th run of the script may fail, and then changes nothing.
pub record Buckets : Type 0 where
  pub buckets : Dict Bucket
  pub now : ℕ
  pub outage : ℕ → Option Error
  pub runs : ℕ

pub record Limiter : Type 0 where
  pub capacity : ℕ
  pub refill : ℕ

abbrev pub one_token : ℕ
one_token = 10 ^ 18

abbrev pub one_hour : ℕ
one_hour = 3600 * 10 ^ 9

abbrev pub min : ℕ → ℕ → ℕ
min m n = if leb m n then m else n

abbrev pub live : ℕ → Option Bucket → Option Bucket
live now none = none
live now (some b) = if ltb now b.expires then some b else none

-- tokens and last_refill of a bucket, and the tokens after the refill.
abbrev pub refilled : Limiter → ℕ → Option Bucket → ℕ
refilled l now none = min l.capacity (l.capacity + (now - now) * l.refill)
refilled l now (some b) = min l.capacity (b.tokens + (now - b.last_refill) * l.refill)

-- tokenBucketScript for the client's time `now`: whether the request is allowed, and what remains.
abbrev pub token_bucket_script : Limiter → String → ℕ → Buckets → (Bool × ℕ) × Buckets
token_bucket_script l key now r =
    let tokens = refilled l now (live r.now (lookup key r.buckets)) in
    let allowed = leb one_token tokens in
    let left = if allowed then tokens - one_token else tokens in
    (
      (allowed, left),
      record r {
        buckets =
            insert key (record { tokens = left; last_refill = now; expires = r.now + one_hour })
              r.buckets;
      },
    )

abbrev script_run :
    Option Error → (Bool × ℕ) × Buckets → Buckets → Result Error (Bool × ℕ) × Buckets
script_run none (x, after) r = (ok x, record after { runs = suc r.runs })
script_run (some e) x r = (err e, record r { runs = suc r.runs })

-- Limiter.Allow. The script's result always has the shape that Allow expects of it.
unfoldable pub allow : Limiter → String → ℕ → Exec Error Buckets (Bool × ℕ)
allow l key now =
    or_wrap "rate limit check failed"
      (λ r. script_run (r.outage r.runs) (token_bucket_script l (concat "ratelimit:" key) now r) r)

-- A response with the headers X-RateLimit-Remaining, in units, and Retry-After, where they are set.
pub record Limited : Type 0 where
  pub remaining : Option ℕ
  pub retry_after : Option ℕ
  pub response : Response

module _ {S : Type 0} where
  abbrev pub decided : Result Error (Bool × ℕ) → (S → Response × S) → S → Limited × S
  decided (err e) next s =
      let (r, s') = next s in (record { remaining = none; retry_after = none; response = r }, s')
  decided (ok (true, left)) next s =
      let (r, s') = next s in
      (record { remaining = some left; retry_after = none; response = r }, s')
  decided (ok (false, left)) next s = (
    record {
      remaining = some left;
      retry_after = some 1;
      response = respond 429 (text "rate limit exceeded");
    },
    s,
  )

  -- RateLimitMiddleware over the state S of the rest of the server, at the host's time `now`.
  unfoldable pub rate_limit_middleware :
      (String → String)
      → Limiter
      → String
      → ℕ
      → (S → Response × S)
      → Buckets × S
      → Limited × (Buckets × S)
  rate_limit_middleware hash_key limiter auth_header now next (r, s) =
      let (allowed, r') = allow limiter (hash_key (trim_prefix auth_header "Bearer ")) now r in
      let (answer, s') = decided allowed next s in (answer, (r', s'))
