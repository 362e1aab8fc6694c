-- ===== src/Server/Start.antt =====
-- cmd/cage/main.go: run, from the configuration to the end of the server, and main. What only logs is
-- left out. `N` is a network manager.
use cage.Common.{ℕ, ◌*◌, ◌^◌, String, Bool, true, false, Option, none, some, str_eq, if◌then◌else◌}
use cage.Common.Exec.{Exec, Error, Result, ok, err, pure, attempt, ◌>>=◌, ◌>>◌}
use cage.Api.{Api}
use cage.Backend.{SandboxBackend}
use cage.Config.{Config}
use cage.Firecracker.Network.{NetworkConfig}
use cage.Lock
use cage.Lock.{DistributedLock}
use cage.RateLimit.{Limiter}
use cage.Reconcile.{reconcile}
use cage.Server.{make_pool}
use cage.World.{World, new_uuid}

-- What run returns: an error, or nil.
abbrev pub Exit : Type 0
Exit = Option Error

-- What NewFirecrackerManager is given beside the network.
pub record FirecrackerOptions : Type 0 where
  pub firecracker_bin : String
  pub kernel_path : String
  pub rootfs_base_dir : String
  pub run_dir : String
  pub vcpu_count : ℕ
  pub mem_size_mib : ℕ

-- What run's select receives: the server's own end, or a signal.
pub data Stop : Type 0 where
  died : Exit → Stop
  signalled : Stop

-- What run hands to the HTTP server and to the reaper's goroutine.
pub record Service (B : Type 0) : Type 0 where
  pub api : Api B
  pub limiter : Limiter
  pub metrics_token : String
  pub reaper_interval : ℕ
  pub reaper_lock : DistributedLock
  pub port : String

-- What run calls: the libraries that connect and serve, and what makes the backends.
pub record Machinery (B N : Type 0) : Type 0 where
  pub load_config : Result Error (Config ℕ ℕ)
  pub run_migrations : String → Exec Error (World B) (Unit {0})
  pub new_store : String → Exec Error (World B) (Unit {0})
  pub new_cache : String → Exec Error (World B) (Unit {0})
  pub close_cache : Exec Error (World B) (Unit {0})
  pub new_network_manager : NetworkConfig → Exec Error (World B) N
  pub new_firecracker_manager : FirecrackerOptions → N → Exec Error (World B) (SandboxBackend B)
  pub new_docker_backend : Exec Error (World B) (SandboxBackend B)
  pub serve : Service B → World B → Stop × World B
  pub shutdown : Exec Error (World B) (Unit {0})
  pub close : Exec Error (World B) (Unit {0})

-- How run ended: before the server listened, or after.
pub data Ending : Type 0 where
  refused served : Exit → Ending

abbrev pub exit_of : Ending → Exit
exit_of (refused e) = e
exit_of (served e) = e

abbrev pub status_of : Exit → ℕ
status_of none = 0
status_of (some e) = 1

abbrev pub seconds : ℕ → ℕ
seconds n = n * 10 ^ 9

module _ {T N : Type 0} (cfg : Config T N) where
  abbrev pub network_config : NetworkConfig
  network_config = record {
    enabled = cfg.firecracker_network_enabled;
    bridge_name = "cage0";
    bridge_cidr = cfg.firecracker_bridge_cidr;
    subnet_cidr = cfg.firecracker_subnet_cidr;
    dns_server = cfg.firecracker_dns_server;
  }

  abbrev pub firecracker_options : FirecrackerOptions
  firecracker_options = record {
    firecracker_bin = cfg.firecracker_bin;
    kernel_path = cfg.firecracker_kernel;
    rootfs_base_dir = cfg.firecracker_rootfs_dir;
    run_dir = cfg.firecracker_run_dir;
    vcpu_count = 1;
    mem_size_mib = 128;
  }

  abbrev pub is_firecracker : Bool
  is_firecracker = str_eq cfg.isolation_backend "firecracker"

module _ {B N : Type 0} (m : Machinery B N) where
  abbrev reported : {A : Type 0} → Result Error A → Result Exit A
  reported (ok a) = ok a
  reported (err e) = err (some e)

  abbrev unreported : {A : Type 0} → Result Error A → Result Exit A
  unreported (ok a) = ok a
  unreported (err e) = err none

  -- if err != nil { return err }
  abbrev pub must : {A : Type 0} → Exec Error (World B) A → Exec Exit (World B) A
  must f w = let (r, w') = f w in (reported r, w')

  -- The two returns of the firecracker case: nil, and the `err` of a call that has succeeded.
  abbrev pub silently : {A : Type 0} → Exec Error (World B) A → Exec Exit (World B) A
  silently f w = let (r, w') = f w in (unreported r, w')

  unfoldable pub connect : Config ℕ ℕ → Exec Exit (World B) (Unit {0})
  connect cfg = do
    must (m.run_migrations cfg.database_url)
    must (m.new_store cfg.database_url)
    must (m.new_cache cfg.redis_url)

  -- The switch on the isolation backend; only Docker has a warm pool.
  unfoldable pub make_backend : Config ℕ ℕ → Exec Exit (World B) (SandboxBackend B)
  make_backend cfg =
      if is_firecracker cfg
      then (do
        net ← silently (m.new_network_manager (network_config cfg))
        silently (m.new_firecracker_manager (firecracker_options cfg) net))
      else (do
        sb ← must m.new_docker_backend
        must (make_pool cfg.isolation_backend cfg.warm_pool_size)
        pure sb)

  abbrev pub api_of : Config ℕ ℕ → SandboxBackend B → Api B
  api_of cfg sb = record {
    sb = sb;
    sandbox_ttl = cfg.sandbox_ttl;
    paused_ttl = cfg.paused_ttl;
    has_pool = if is_firecracker cfg then false else true;
    isolation_backend = cfg.isolation_backend;
  }

  -- From the backend to the server's parts; an error of the reconciliation does not end it.
  unfoldable pub assemble : Config ℕ ℕ → Exec Exit (World B) (Service B)
  assemble cfg = do
    sb ← make_backend cfg
    reaper_token ← new_uuid
    reconcile_token ← new_uuid
    _ ← must (attempt (reconcile sb (Lock.new "reconcile" reconcile_token (seconds 60))))
    pure (record {
      api = api_of cfg sb;
      limiter = record { capacity = 20; refill = 5 };
      metrics_token = cfg.metrics_token;
      reaper_interval = cfg.reaper_interval;
      reaper_lock = Lock.new "reaper" reaper_token (seconds 30);
      port = cfg.port;
    })

  abbrev result_error : Result Error (Unit {0}) → Exit
  result_error (ok _) = none
  result_error (err e) = some e

  abbrev after_shutdown : Result Error (Unit {0}) → World B → Exit × World B
  after_shutdown (ok _) w = (none, w)
  after_shutdown (err e) w = let (r, w') = m.close w in (result_error r, w')

  unfoldable pub finish : Stop → World B → Exit × World B
  finish (died e) w = (e, w)
  finish signalled w = let (r, w') = m.shutdown w in after_shutdown r w'

  -- From the assembled server to its end, and the cache's deferred Close.
  abbrev pub after_assembly : Result Exit (Service B) → World B → Ending × World B
  after_assembly (err e) w = (refused e, (m.close_cache w).1)
  after_assembly (ok service) w =
      let (stop, w) = m.serve service w in
      let (e, w) = finish stop w in (served e, (m.close_cache w).1)

  abbrev pub after_connection : Config ℕ ℕ → Result Exit (Unit {0}) → World B → Ending × World B
  after_connection cfg (err e) w = (refused e, w)
  after_connection cfg (ok _) w = let (r, w') = assemble cfg w in after_assembly r w'

  abbrev pub after_config : Result Error (Config ℕ ℕ) → World B → Ending × World B
  after_config (err e) w = (refused (some e), w)
  after_config (ok cfg) w = let (r, w') = connect cfg w in after_connection cfg r w'

  unfoldable pub run : World B → Ending × World B
  run w = after_config m.load_config w

  -- The process's exit status.
  unfoldable pub main : World B → ℕ
  main w = status_of (exit_of (run w).0)
