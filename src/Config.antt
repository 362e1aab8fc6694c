-- ===== src/Config.antt =====
-- internal/config/config.go. The environment is a map; `duration` is time.ParseDuration after
-- strings.TrimSpace, and `atoi` is strconv.Atoi, with values of types T and N.
pub mod Validity
use cage.Common.{String, Option, none, some, Bool, true, false, ◌||◌, concat, str_eq, if◌then◌else◌}
use cage.Common.Dict.{Dict, lookup}
use cage.Common.Exec.{Error, Result, ok, err, msg, with_context, ◌>>=?◌}

pub record Config (T N : Type 0) : Type 0 where
  pub port : String
  pub database_url : String
  pub redis_url : String
  pub reaper_interval : T
  pub sandbox_ttl : T
  pub paused_ttl : T
  pub warm_pool_size : N
  pub log_level : String
  pub metrics_token : String
  pub isolation_backend : String
  pub firecracker_bin : String
  pub firecracker_kernel : String
  pub firecracker_rootfs_dir : String
  pub firecracker_run_dir : String
  pub firecracker_network_enabled : Bool
  pub firecracker_bridge_cidr : String
  pub firecracker_subnet_cidr : String
  pub firecracker_dns_server : String

abbrev pub value_or : Option String → String → String
value_or none fallback = fallback
value_or (some v) fallback = v

-- A variable that is set to "" is not replaced by its default.
unfoldable pub get_env : Dict String → String → String → String
get_env env key fallback = value_or (lookup key env) fallback

abbrev pub is_backend : String → Bool
is_backend b = str_eq b "docker" || str_eq b "firecracker"

abbrev require : Bool → Error → Result Error (Unit {0})
require true e = ok tt
require false e = err e

module _ {T N : Type 0} (duration : String → Result Error T) (atoi : String → Result Error N)
    (env : Dict String) where
  abbrev get : String → String → String
  get key fallback = get_env env key fallback

  -- godotenv.Load has put the variables of a .env file into the environment.
  unfoldable pub load_config : Result Error (Config T N)
  load_config =
      let backend = get "ISOLATION_BACKEND" "docker" in
      let url = get "DATABASE_URL" "" in
      require (is_backend backend)
        (msg (concat "ISOLATION_BACKEND must be 'docker' or 'firecracker',  got " backend))
      >>=? λ _.
          require (if str_eq url "" then false else true) (msg "DATABASE_URL is required") >>=? λ _.
          with_context "invalid REAPER_INTERVAL" (duration (get "REAPER_INTERVAL" "30s"))
          >>=? λ reaper_interval.
              with_context "invalid SANDBOX_TTL" (duration (get "SANDBOX_TTL" "1h"))
              >>=? λ sandbox_ttl.
                  with_context "invalid WARM_POOL_SIZE" (atoi (get "WARM_POOL_SIZE" "2"))
                  >>=? λ warm_pool_size.
                      with_context "invalid PAUSED_SANDBOX_TTL"
                        (duration (get "PAUSED_SANDBOX_TTL" "24h"))
                      >>=? λ paused_ttl. ok (record {
                        port = get "PORT" "8080";
                        database_url = url;
                        redis_url = get "REDIS_URL" "redis://localhost:6379";
                        reaper_interval = reaper_interval;
                        sandbox_ttl = sandbox_ttl;
                        paused_ttl = paused_ttl;
                        warm_pool_size = warm_pool_size;
                        log_level = get "LOG_LEVEL" "info";
                        metrics_token = get "METRICS_TOKEN" "";
                        isolation_backend = backend;
                        firecracker_bin = get "FIRECRACKER_BIN" "/usr/local/bin/firecracker";
                        firecracker_kernel = get "FIRECRACKER_KERNEL" "/var/lib/cage/vmlinux.bin";
                        firecracker_rootfs_dir =
                            get "FIRECRACKER_ROOTFS_DIR" "/var/lib/cage/rootfs-base";
                        firecracker_run_dir = get "FIRECRACKER_RUN_DIR" "/var/lib/cage/fc-run";
                        firecracker_network_enabled =
                            str_eq (get "FIRECRACKER_NETWORK_ENABLED" "false") "true";
                        firecracker_bridge_cidr = get "FIRECRACKER_BRIDGE_CIDR" "172.16.0.1/24";
                        firecracker_subnet_cidr = get "FIRECRACKER_SUBNET_CIDR" "172.16.0.0/24";
                        firecracker_dns_server = get "FIRECRACKER_DNS_SERVER" "8.8.8.8";
                      })
