-- ===== src/Config/Validity.antt =====
-- What a configuration that loads promises, and when it loads.
use cage.Common.{
  String, ◌≡◌, ◌≢◌, refl, ◌⊎◌, Bool, true, false, arith, str_eq, str_eq_iff, if◌then◌else◌,
}
use cage.Common.Dict.{Dict}
use cage.Common.Exec.{Error, Result, ok, err, with_context, ◌>>=?◌}
use cage.Config.{Config, get_env, is_backend, require, load_config}

-- The six steps of the loading, each of which succeeds if the whole does.
steps_ok :
    {T N C : Type 0} (known named : Bool) (e1 e2 : Error) (s3 s4 s5 s6 : String)
    (reaper sandbox : Result Error T) (size : Result Error N) (paused : Result Error T)
    (f : T → T → N → T → C) (c : C)
    → (require known e1 >>=? λ _. require named e2 >>=? λ _. with_context s3 reaper >>=? λ x.
        with_context s4 sandbox >>=? λ y.
        with_context s5 size >>=? λ n. with_context s6 paused >>=? λ z. ok (f x y n z))
      ≡ ok c
    → (known ≡ true)
      × (named ≡ true)
      × ((x : T) × (y : T) × (n : N) × (z : T) × (reaper ≡ ok x)
          × (sandbox ≡ ok y)
          × (size ≡ ok n)
          × (paused ≡ ok z)
          × (f x y n z ≡ c))
steps_ok true true e1 e2 s3 s4 s5 s6 (ok x) (ok y) (ok n) (ok z) f c h =
    (refl, refl, (x, y, n, z, refl, refl, refl, refl, cc h))
steps_ok false named e1 e2 s3 s4 s5 s6 reaper sandbox size paused f c h = cc
steps_ok true false e1 e2 s3 s4 s5 s6 reaper sandbox size paused f c h = cc
steps_ok true true e1 e2 s3 s4 s5 s6 (err e) sandbox size paused f c h = cc
steps_ok true true e1 e2 s3 s4 s5 s6 (ok x) (err e) size paused f c h = cc
steps_ok true true e1 e2 s3 s4 s5 s6 (ok x) (ok y) (err e) paused f c h = cc
steps_ok true true e1 e2 s3 s4 s5 s6 (ok x) (ok y) (ok n) (err e) f c h = cc

backend_cases : (b : String) → is_backend b ≡ true → (b ≡ "docker") ⊎ (b ≡ "firecracker")
backend_cases b h = ground (arith, str_eq_iff b "docker", str_eq_iff b "firecracker")

not_empty : (s : String) → (if str_eq s "" then false else true) ≡ true → s ≢ ""
not_empty s h e = ground (arith, str_eq_iff s "")

module _ {T N : Type 0} (duration : String → Result Error T) (atoi : String → Result Error N)
    (env : Dict String) where
  -- A configuration that loads names one of the two backends and a database, and its durations and
  -- its pool size are what the parsers make of the variables, or of the defaults of those not set.
  pub load_config-fields :
      (cfg : Config T N)
      → load_config duration atoi env ≡ ok cfg
      → ((cfg.isolation_backend ≡ "docker") ⊎ (cfg.isolation_backend ≡ "firecracker"))
        × (cfg.database_url ≢ "")
        × (duration (get_env env "REAPER_INTERVAL" "30s") ≡ ok cfg.reaper_interval)
        × (duration (get_env env "SANDBOX_TTL" "1h") ≡ ok cfg.sandbox_ttl)
        × (duration (get_env env "PAUSED_SANDBOX_TTL" "24h") ≡ ok cfg.paused_ttl)
        × (atoi (get_env env "WARM_POOL_SIZE" "2") ≡ ok cfg.warm_pool_size)
  unfolding load_config
  load_config-fields cfg h =
      let (known, named, (x, y, n, z, e3, e4, e5, e6, same)) =
        steps_ok (is_backend (get_env env "ISOLATION_BACKEND" "docker")) _ _ _ _ _ _ _
          (duration (get_env env "REAPER_INTERVAL" "30s"))
          (duration (get_env env "SANDBOX_TTL" "1h")) (atoi (get_env env "WARM_POOL_SIZE" "2"))
          (duration (get_env env "PAUSED_SANDBOX_TTL" "24h")) _ cfg h in
      rw (← same) (backend_cases _ known, not_empty _ named, e3, e4, e6, e5)
