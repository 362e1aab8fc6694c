-- ===== src/Examples/Guards.antt =====
-- The theorems on keys, on the shell's frames and on guest addresses, at concrete inputs.
use cage.Common.{
  ℕ, zero, suc, ◌+◌, ◌*◌, ◌^◌, String, List, [], ◌∷◌, ◌≡◌, ◌≢◌, refl, ap, false, ◌≤◌, none, some,
  true, arith, All, length,
}
use cage.Common.Dict
use cage.Common.Dict.{lookup}
use cage.Common.Exec.{Error, Result, ok}
use cage.Redis
use cage.Store
use cage.Store.{ApiKey, validate_api_key}
use cage.Auth.{validate_amid, validate_with_cache, trim_prefix}
use cage.Auth.Revocation.{Recent, Visit, visit, visits, visit-Recent}
use cage.Firecracker.Frames.{Writer}
use cage.Firecracker.Frames.Sessions.{Input, types, resizes, send, send-handle_shell_conn}
use cage.RateLimit.{Limiter, Buckets}
use cage.RateLimit.Budget.{requests, requests_bounded}
use cage.Config.{Config, load_config, get_env}
use cage.Guest.{handle_shell_conn}
use cage.Firecracker.Network.{Ip, NetworkManager, allocate_ip}
use cage.Firecracker.Network.Addresses.{
  Leased, fresh, allocated, allocate_ip_new, allocate_ip_exhausted,
}
use cage.Examples.Worlds.{world}

abbrev key : ApiKey
key = record { key_hash = "h1"; name = "ci"; revoked_at = none }

abbrev tables : ℕ → List ApiKey
tables t = key ∷ []

-- A check of the database, and a second one while the cache holds its answer.
abbrev asked : Visit "h1" tables 50
asked = record { wait = 1000; first = 3; later = 40 }

abbrev soon : Visit "h1" tables 50
soon = record { wait = 2000; first = 5; later = 50 }

admitted : (visit "h1" tables 50 soon (visits "h1" tables 50 (asked ∷ []) world)).0 ≡ ok true
unfolding validate_amid validate_api_key Store.has_live_key Redis.get Redis.set lookup Dict.insert
    Dict.remove
admitted = refl

visit-Recent_example :
    Recent "h1" tables 50
      (visit "h1" tables 50 soon (visits "h1" tables 50 (asked ∷ []) world)).1.redis.now
unfolding lookup
visit-Recent_example =
    visit-Recent "h1" tables 50 (asked ∷ []) soon world (omega arith, tt) (omega arith) refl
      admitted

abbrev hash_key : String → String
hash_key raw = raw

not_admitted :
    (validate_with_cache (hash_key (trim_prefix "Bearer nobody" "Bearer ")) world).0 ≢ ok true
unfolding validate_with_cache validate_api_key Store.has_live_key Redis.get Redis.set lookup
    Dict.insert Dict.remove
not_admitted = λ e. cc

abbrev session : List Input
session = resizes 80 24 ∷ types (108 ∷ 115 ∷ []) ∷ resizes 132 50 ∷ types (10 ∷ []) ∷ []

abbrev connection : Writer
connection = record { bytes = []; outage = λ n. none; writes = 0 }

send-handle_shell_conn_example :
    ((send session connection).0 ≡ ok tt)
    × (handle_shell_conn (record { bytes = (send session connection).1.bytes; failure = none })
        ≡ some (record { input = 108 ∷ 115 ∷ 10 ∷ []; size = some (132, 50) }))
send-handle_shell_conn_example =
    send-handle_shell_conn session connection none
      ((omega arith, omega arith), (omega arith, ((omega arith, omega arith), (omega arith, tt))))
      (λ n. refl) refl

abbrev base : Ip
base = record { a = 172; b = 16; c = 0; d = 0 }

abbrev bridge : NetworkManager (Unit {0})
bridge = record { host = tt; next_ip = 2; released = [] }

allocate_ip_new_example :
    All
      (λ ip. ip ≢ (allocate_ip base (allocate_ip base bridge).1).0)
      ((allocate_ip base bridge).0 ∷ [])
allocate_ip_new_example =
    allocate_ip_new base (allocate_ip base bridge).1 ((allocate_ip base bridge).0 ∷ [])
      (omega arith) (allocated bridge [] (fresh bridge refl refl) (omega arith)) (omega arith)

-- The first n guests.
abbrev guests : ℕ → NetworkManager (Unit {0}) × List Ip
guests zero = (bridge, [])
guests (suc n) =
    let (nm, held) = guests n in ((allocate_ip base nm).1, (allocate_ip base nm).0 ∷ held)

length-guests : (n : ℕ) → length (guests n).1 ≡ n
length-guests zero = refl
length-guests (suc n) = ap suc (length-guests n)

guests-Leased : (n : ℕ) → n ≤ 254 → Leased base (guests n).0 (guests n).1
guests-Leased zero h = fresh bridge refl refl
guests-Leased (suc n) h =
    allocated (guests n).0 (guests n).1 (guests-Leased n (omega arith))
      (omega (arith, length-guests n))

allocate_ip_exhausted_example : (allocate_ip base (guests 254).0).0 ≡ base
allocate_ip_exhausted_example =
    allocate_ip_exhausted base (guests 254).0 (guests 254).1 (omega arith)
      (guests-Leased 254 (omega arith)) (length-guests 254)

abbrev limiter : Limiter
limiter = record { capacity = 3 * 10 ^ 18; refill = 10 ^ 9 }

abbrev no_buckets : Buckets
no_buckets = record { buckets = []; now = 5; outage = λ n. none; runs = 0 }

requests_bounded_example :
    (requests limiter "h1" (0 ∷ 1 ∷ 1 ∷ 7 ∷ []) no_buckets).0 * 10 ^ 18 ≤ 3 * 10 ^ 18 + 9 * 10 ^ 9
unfolding lookup
requests_bounded_example =
    requests_bounded limiter "h1" (0 ∷ 1 ∷ 1 ∷ 7 ∷ []) no_buckets refl (omega arith)

abbrev environment : Dict.Dict String
environment = ("DATABASE_URL", "postgres://db") ∷ ("SANDBOX_TTL", "2h") ∷ []

abbrev duration : String → Result Error String
duration s = ok s

abbrev loaded : Config String String
loaded = record {
  port = "8080";
  database_url = "postgres://db";
  redis_url = "redis://localhost:6379";
  reaper_interval = "30s";
  sandbox_ttl = "2h";
  paused_ttl = "24h";
  warm_pool_size = "2";
  log_level = "info";
  metrics_token = "";
  isolation_backend = "docker";
  firecracker_bin = "/usr/local/bin/firecracker";
  firecracker_kernel = "/var/lib/cage/vmlinux.bin";
  firecracker_rootfs_dir = "/var/lib/cage/rootfs-base";
  firecracker_run_dir = "/var/lib/cage/fc-run";
  firecracker_network_enabled = false;
  firecracker_bridge_cidr = "172.16.0.1/24";
  firecracker_subnet_cidr = "172.16.0.0/24";
  firecracker_dns_server = "8.8.8.8";
}

loads : load_config duration duration environment ≡ ok loaded
unfolding load_config get_env lookup
loads = refl
