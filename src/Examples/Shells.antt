-- ===== src/Examples/Shells.antt =====
-- The theorems on the guest agent, on shells and on the server's routes, at concrete inputs.
use Prim.Native.String.{len, slice}
use cage.Common.{
  ℕ, suc, ◌-◌, String, List, [], ◌∷◌, ◌++◌, ◌≡◌, ◌⊎◌, ap, subst, inl, refl, none, some, arith, true,
  false, ◌==◌, if◌then◌else◌,
}
use cage.Common.Dict.{lookup, insert, remove}
use cage.Common.Exec.{Error, Result, ok, err, msg}
use cage.Backend.{Shell, Interactive}
use cage.Redis
use cage.Store
use cage.Store.{validate_api_key}
use cage.World.{World}
use cage.Api.{Api, Response, respond, text, serve, response_of}
use cage.Api.Shell.{Event, arrives, disconnects, outputs, binary, open_shell_session}
use cage.Api.Shell.Keystrokes.{IsAttentive}
use cage.Api.Shell.Closing.{IsOpen, IsCounted, open_shell_session_closes}
use cage.Auth.{validate_with_cache}
use cage.Firecracker.Host.{Codec, Host}
use cage.Firecracker.Vsock.{AgentRequest, AgentResponse, read_file_request, accepted, send}
use cage.Guest.Control.{GuestOs, exited, empty_response, handle, handle_conn, do_read_file}
use cage.Guest.Exchange.{IsRelayed, IsCarried, send_handles}
use cage.RateLimit.{Buckets, Limiter}
use cage.Server.{Request, route}
use cage.Server.Admission.{is_admitted, route_guards}
use cage.Examples.Vms.{host}
use cage.Examples.Worlds.{world, api, uuid_parse, redis, db}
use cage.Pool.{no_pool}

-- A connection on which the proxy's answer comes first and the agent's second.
abbrev wired : Host ℕ
wired = record host {
  write = λ conn text h. (ok tt, suc h);
  read_line = λ conn h. (ok (if h == 1 then "OK 52000\n" else "hello\n"), h);
}

-- A guest in which every file says hello.
abbrev friendly : GuestOs ℕ
friendly = record {
  run = λ name args g. (exited "" "" 0, g);
  write_file = λ path content g. (ok tt, g);
  read_file = λ path g. (ok "hello", g);
  describe = λ e. "failed";
}

abbrev requests : Codec AgentRequest
requests = record { marshal = λ r. r.path; unmarshal = λ p. ok (read_file_request p) }

abbrev responses : Codec AgentResponse
responses = record {
  marshal = λ r. r.content;
  unmarshal = λ s. ok (record empty_response { content = slice s 0 (len s - 1) });
}

abbrev no_guest : ℕ → ℕ
no_guest h = 0

relayed :
    IsRelayed wired friendly no_guest requests responses "u1.vsock"
      (read_file_request "/etc/motd")
      0
unfolding handle_conn handle do_read_file
relayed = record {
  conn = 1;
  opened = 0;
  timed = 0;
  asked = 1;
  greeted = 1;
  sent = 2;
  received = 2;
  greeting = "OK 52000\n";
  line = "hello\n";
  dials = refl;
  times = refl;
  connects = refl;
  greets = refl;
  accepts = refl;
  sends = refl;
  receives = refl;
  serves = refl;
}

carried :
    IsCarried wired friendly no_guest requests responses "u1.vsock"
      (read_file_request "/etc/motd")
      0
unfolding handle do_read_file
carried = record { request_read = refl; response_read = refl; fits = omega arith }

send_handles_example :
    ((send wired requests responses "u1.vsock" (read_file_request "/etc/motd") 0).0
      ≡ accepted wired (handle friendly (read_file_request "/etc/motd") 0).0)
    × (no_guest (send wired requests responses "u1.vsock" (read_file_request "/etc/motd") 0).1
        ≡ (handle friendly (read_file_request "/etc/motd") 0).1)
send_handles_example =
    send_handles wired friendly no_guest requests responses "u1.vsock"
      (read_file_request "/etc/motd") 0 relayed carried

-- A shell whose state is what it has been given.
abbrev recorder : Shell (List ℕ)
recorder = record {
  read = λ n b. (([], none), b);
  write = λ bytes b. (ok tt, b ++ bytes);
  resize = λ cols rows b. (ok tt, b);
  close = λ b. (ok tt, b);
}

abbrev attentive : IsAttentive recorder
attentive = record {
  input = λ b. b;
  writes = λ bytes b. refl;
  resizes = λ cols rows b. refl;
  reads = λ n b. refl;
}

abbrev strokes : List Event
strokes =
    arrives (binary (108 ∷ [])) ∷ outputs true ∷ arrives (binary (115 ∷ [])) ∷ disconnects ∷ []

-- A backend that counts its open shells.
abbrev counted_shell : Shell ℕ
counted_shell = record {
  read = λ n b. (([], none), b);
  write = λ bytes b. (ok tt, b);
  resize = λ cols rows b. (ok tt, b);
  close = λ b. (ok tt, b - 1);
}

abbrev shells : Interactive ℕ
shells = record { open_shell = λ id b. (ok counted_shell, suc b) }

abbrev shell_or : Result Error (Shell ℕ) → Shell ℕ
shell_or (ok shell) = shell
shell_or (err e) = counted_shell

counted_shell-IsOpen : IsOpen (λ b. b) counted_shell
counted_shell-IsOpen = record {
  closes = λ b. refl;
  reads = λ n b. refl;
  writes = λ bytes b. refl;
  resizes = λ cols rows b. refl;
}

abbrev counted : IsCounted shells
counted = record {
  shells = λ b. b;
  opens = λ id shell b h. (refl, subst (IsOpen (λ b. b)) (ap shell_or h) counted_shell-IsOpen);
  fails = λ id e b h. absurd (cc h);
}

abbrev shell_api : Api ℕ
shell_api = record {
  sb = record {
    create_sandbox = λ id ref b. (ok tt, b);
    kill_sandbox = λ id b. (ok tt, b);
    exec_command = λ id cmd b. (err (msg "busy"), b);
    write_file = λ id path content b. (ok tt, b);
    read_file = λ id path b. (ok "", b);
    is_running = λ id b. (ok true, b);
    pausable = none;
    image_cleaner = none;
    warm_adopter = none;
    interactive = some shells;
  };
  sandbox_ttl = 30;
  paused_ttl = 60;
  has_pool = false;
  isolation_backend = "docker";
}

abbrev shell_world : World ℕ
shell_world = record {
  backend = 0;
  db = db;
  redis = redis;
  pool = no_pool;
  pool_hits = 0;
  pool_misses = 0;
  sandboxes_reaped = 0;
  time = λ n. n;
  readings = 10;
  uuid = λ n. "u3";
  issued = 0;
  cleanups = [];
}

open_shell_session_closes_example :
    (serve (open_shell_session shell_api uuid_parse "u1" (ok tt) strokes) shell_world).1.backend ≡ 0
open_shell_session_closes_example =
    open_shell_session_closes shell_api uuid_parse shells refl counted "u1" (ok tt) strokes
      shell_world

-- A request with a key that nobody has.
abbrev intruder : Request
intruder = record {
  method = "DELETE";
  path = "sandboxes" ∷ "u1" ∷ [];
  authorization = "Bearer nobody";
  received_at = 0;
  template = "";
  exec_body = none;
  write_body = none;
  file_path = "";
  upgrade = ok tt;
  events = [];
}

abbrev buckets : Buckets
buckets = record { buckets = []; now = 0; outage = λ n. none; runs = 0 }

abbrev limiter : Limiter
limiter = record { capacity = 20; refill = 5 }

abbrev plain : String → String
plain raw = raw

not_found : Request → Response
not_found req = respond 404 (text "404 page not found")

intruder_refused :
    is_admitted api uuid_parse plain limiter ""
      (λ w. (err (respond 404 (text "")), w))
      not_found
      intruder
      world
    ≡ false
unfolding validate_with_cache validate_api_key Store.has_live_key Redis.get Redis.set lookup insert
    remove
intruder_refused = refl

route_guards_example :
    let (r, s) =
      route api uuid_parse plain limiter ""
        (λ w. (err (respond 404 (text "")), w))
        not_found
        intruder
        ("sandboxes" ∷ "u1" ∷ [])
        (buckets, world) in
    (((response_of r).status ≡ 401)
      ⊎ (((response_of r).status ≡ 429) ⊎ ((response_of r).status ≡ 500)))
    × (s.1.backend ≡ world.backend)
    × (s.1.db.sandboxes ≡ world.db.sandboxes)
route_guards_example =
    route_guards api uuid_parse plain limiter "" (λ w. (err (respond 404 (text "")), w)) not_found
      intruder ("u1" ∷ []) buckets world (inl intruder_refused)
