-- ===== src/Examples/Startup.antt =====
-- The theorems on the server's start, over connections that succeed and a server that is stopped by a
-- signal.
use cage.Common.{ℕ, String, ◌≡◌, refl, none, true}
use cage.Common.Exec.{msg, ok, err, pure}
use cage.Config.{Config}
use cage.Docker.Adapter.{Adapter}
use cage.Server.Start.{Machinery, refused, signalled, connect, run, main}
use cage.Server.Exits.{main_silent}
use cage.World.{World}
use cage.Examples.Daemon.{Daemon}
use cage.Examples.Worlds.{world, api}

abbrev W : Type 0
W = World (Adapter Daemon)

abbrev pub settings : String → Config ℕ ℕ
settings backend = record {
  port = "8080";
  database_url = "postgres://db";
  redis_url = "redis://localhost:6379";
  reaper_interval = 30;
  sandbox_ttl = 3600;
  paused_ttl = 86400;
  warm_pool_size = 2;
  log_level = "info";
  metrics_token = "";
  isolation_backend = backend;
  firecracker_bin = "/usr/local/bin/firecracker";
  firecracker_kernel = "/var/lib/cage/vmlinux.bin";
  firecracker_rootfs_dir = "/var/lib/cage/rootfs-base";
  firecracker_run_dir = "/var/lib/cage/fc-run";
  firecracker_network_enabled = true;
  firecracker_bridge_cidr = "172.16.0.1/24";
  firecracker_subnet_cidr = "172.16.0.0/24";
  firecracker_dns_server = "8.8.8.8";
}

-- A machine on which the firecracker network cannot be set up.
abbrev machine : String → Machinery (Adapter Daemon) ℕ
machine backend = record {
  load_config = ok (settings backend);
  run_migrations = λ url. pure tt;
  new_store = λ url. pure tt;
  new_cache = λ url. pure tt;
  close_cache = pure tt;
  new_network_manager = λ cfg w. (err (msg "root required"), w);
  new_firecracker_manager = λ options net w. (err (msg "no run dir"), w);
  new_docker_backend = pure api.sb;
  serve = λ service w. (signalled, w);
  shutdown = pure tt;
  close = pure tt;
}

connects : connect (machine "firecracker") (settings "firecracker") world ≡ (ok tt, world)
unfolding connect
connects = refl

main_silent_example :
    (main (machine "firecracker") world ≡ 0)
    × (run (machine "firecracker") world ≡ (refused none, world))
main_silent_example =
    main_silent (machine "firecracker") (settings "firecracker") world world world
      (msg "root required") refl refl connects refl
