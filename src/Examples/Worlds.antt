-- ===== src/Examples/Worlds.antt =====
-- Rows, tables, and states of the server over the daemon of Examples.Daemon.
use cage.Common.{String, [], ◌∷◌, none, some, Bool, true, str_eq}
use cage.Common.Exec.{ok}
use cage.Backend.{SandboxBackend}
use cage.Docker.Adapter
use cage.Docker.Adapter.{Adapter}
use cage.Store.{Sandbox, running, paused, Template, Db}
use cage.Redis.{Redis}
use cage.World.{World, TemplateConfig}
use cage.Pool.{no_pool}
use cage.Api.{Api}
use cage.Examples.Daemon.{Daemon, docker, tar}

-- A daemon with one container, and an adapter that maps a sandbox to it.
abbrev pub busy_daemon : Daemon
busy_daemon = record { held = λ c. str_eq c "c1"; next = "c2" }

abbrev pub adapter : Adapter Daemon
adapter = record { daemon = busy_daemon; containers = ("u1", "c1") ∷ [] }

abbrev pub running_row : Sandbox
running_row = record {
  id = "u1";
  container_id = "u1";
  status = running;
  created_at = 5;
  expires_at = 50;
  template_slug = "base";
  paused_image_id = none;
}

abbrev pub paused_row : Sandbox
paused_row = record {
  id = "u2";
  container_id = "u2";
  status = paused;
  created_at = 7;
  expires_at = 500;
  template_slug = "base";
  paused_image_id = some "image";
}

abbrev pub base : Template
base = record {
  id = "t1";
  slug = "base";
  image = "alpine";
  firecracker_rootfs_slug = none;
  description = "";
}

abbrev pub db : Db
db = record {
  sandboxes = running_row ∷ paused_row ∷ [];
  templates = base ∷ [];
  api_keys = [];
  outage = λ n. none;
  clock = λ n. 100;
  statements = 0;
}

abbrev pub redis : Redis
redis = record { keys = []; now = 0; outage = λ n. none; commands = 0 }

abbrev pub config : TemplateConfig
config = record { slug = "base"; template_ref = "alpine"; size = 2 }

abbrev pub world : World (Adapter Daemon)
world = record {
  backend = adapter;
  db = db;
  redis = redis;
  pool = no_pool;
  pool_hits = 0;
  pool_misses = 0;
  sandboxes_reaped = 0;
  time = λ n. n;
  readings = 10;
  uuid = λ n. "u3";
  issued = 0;
  cleanups = [];
}

abbrev pub api : Api (Adapter Daemon)
api = record {
  sb = Adapter.backend docker tar;
  sandbox_ttl = 30;
  paused_ttl = 60;
  has_pool = true;
  isolation_backend = "docker";
}

-- Every string is a UUID here.
abbrev pub uuid_parse : String → Bool
uuid_parse id = true

-- A backend on which nothing fails.
abbrev pub healthy : SandboxBackend (Adapter Daemon)
healthy = record {
  create_sandbox = λ id ref b. (ok tt, b);
  kill_sandbox = λ id b. (ok tt, b);
  exec_command = λ id cmd b. (ok (record { stdout = []; stderr = []; exit_code = 0 }), b);
  write_file = λ id path content b. (ok tt, b);
  read_file = λ id path b. (ok "", b);
  is_running = λ id b. (ok true, b);
  pausable =
      some
        (record { pause_sandbox = λ id b. (ok "ref", b); resume_sandbox = λ id ref b. (ok tt, b) });
  image_cleaner = some (record { remove_image = λ image b. (ok tt, b) });
  warm_adopter = none;
  interactive = none;
}

abbrev pub healthy_api : Api (Adapter Daemon)
healthy_api = record api { sb = healthy }
