-- ===== src/Examples/Vms.antt =====
-- The theorems on microVMs, at a machine on which what is asked for works.
use cage.Common.{if◌then◌else◌, ℕ, ◌+◌, List, [], ◌∷◌, ◌≡◌, refl, some, arith, true, false}
use cage.Common.Dict.{lookup}
use cage.Common.Exec.{Error, ok, err, msg}
use cage.Firecracker.Client
use cage.Firecracker.Host.{Host}
use cage.Firecracker.Manager.{FirecrackerConfig, FirecrackerManager, Machine, wait_for_socket}
use cage.Firecracker.Manager.Boot.{launch}
use cage.Firecracker.Manager.Calls.{kill_sandbox}
use cage.Firecracker.Manager.Follows.{is_ok, table}
use cage.Firecracker.Manager.Keys.{IsKeyed, run-IsKeyed}
use cage.Firecracker.Manager.Ledger.{
  ledger, has_socket, returned, launch_returns, resume-kill_loses,
}
use cage.Firecracker.Manager.Pauses.{restore, resume_sandbox}
use cage.Firecracker.Manager.Spec.{Call, Steps, create, pause, resume, kill, exit, check, shell}
use cage.Firecracker.Manager.Tracking.{run, run_refines}
use cage.Firecracker.Network.{Ip, NetworkConfig}
use cage.Firecracker.Polling.{poll, poll_for, IsClock, poll_for-enough}
use cage.Firecracker.Vsock.{read_file_request, send, wait_ready}
use cage.Guest.Control.{empty_response}

-- The machine's state is its clock.
abbrev pub host : Host ℕ
host = record {
  run = λ cmd h. (ok tt, h);
  spawn = λ bin socket h. (ok 7, h);
  kill = λ p h. (ok tt, h);
  exchange = λ socket req h. (ok (record { status_code = 204; body = "" }), h);
  stat = λ path h. (ok tt, h);
  open_file = λ path h. (ok tt, h);
  create = λ path h. (ok tt, h);
  copy = λ dest src h. (ok tt, h);
  mkdir_all = λ path h. (ok tt, h);
  remove = λ path h. (ok tt, h);
  remove_all = λ path h. (ok tt, h);
  read_file = λ path h. (ok "u1.ext4", h);
  write_file = λ path bytes h. (ok tt, h);
  is_not_exist = λ e. false;
  parse_cidr = λ s. some (record { a = 172; b = 16; c = 0; d = 1 });
  dial = λ path h. (ok 1, h);
  set_deadline = λ conn ms h. (ok tt, h);
  write = λ conn text h. (ok tt, h);
  read_line = λ conn h. (ok "OK 52000", h);
  close = λ conn h. h;
  now = λ h. h;
  sleep = λ ms h. h + ms;
}

abbrev machine : Machine ℕ
machine = record {
  os = host;
  requests = record { marshal = λ r. r.path; unmarshal = λ p. ok (read_file_request p) };
  responses = record { marshal = λ r. r.content; unmarshal = λ s. ok empty_response };
  manifests = record {
    marshal = λ m. m.rootfs_path;
    unmarshal = λ s. ok (record { rootfs_path = s; snapshot_path = ""; mem_file_path = "" });
  };
}

abbrev bridge : NetworkConfig
bridge = record {
  enabled = true;
  bridge_name = "cage0";
  bridge_cidr = "172.16.0.1/24";
  subnet_cidr = "172.16.0.0/24";
  dns_server = "8.8.8.8";
}

abbrev base_ip : Ip
base_ip = record { a = 172; b = 16; c = 0; d = 0 }

abbrev config : FirecrackerConfig
config = record {
  firecracker_bin = "firecracker";
  kernel_path = "vmlinux";
  run_dir = "/run/cage";
  rootfs = record { base_dir = "/images"; work_dir = "/run/cage/rootfs" };
  vcpu_count = 1;
  mem_size_mib = 128;
  boot_timeout = 10000;
  network = some (bridge, base_ip);
}

abbrev idle : FirecrackerManager ℕ
idle = record { net = record { host = 0; next_ip = 2; released = [] }; running = [] }

abbrev a_day : List Call
a_day =
    create "u1" "base"
    ∷ pause "u1"
    ∷ resume "u1" "/run/cage/pauses/u1"
    ∷ check "u1"
    ∷ shell "u1"
    ∷ exit "u1" 7
    ∷ kill "u1"
    ∷ []

run_refines_example :
    Steps
      (table idle)
      a_day
      (run machine config a_day idle).0
      (table (run machine config a_day idle).1)
run_refines_example = run_refines machine config a_day idle

idle-IsKeyed : IsKeyed []
unfolding lookup
idle-IsKeyed = λ id vm h. absurd (cc h)

run-IsKeyed_example : IsKeyed (run machine config a_day idle).1.running
run-IsKeyed_example = run-IsKeyed machine config a_day idle idle-IsKeyed

-- A machine on which no process starts.
abbrev barren : Machine ℕ
barren = record machine { os = record host { spawn = λ bin socket h. (err (msg "no memory"), h) } }

launch_returns_example :
    ledger (launch barren config "u1" "u1.ext4" (some ("cg-u1", base_ip)) idle).1 ≡ (
      if is_ok (launch barren config "u1" "u1.ext4" (some ("cg-u1", base_ip)) idle).0
      then ledger idle
      else if has_socket barren config "u1" idle
      then returned config.network (some base_ip) (ledger idle)
      else ledger idle)
launch_returns_example = launch_returns barren config "u1" "u1.ext4" (some ("cg-u1", base_ip)) idle

resumes : (resume_sandbox machine config "u1" "/run/cage/pauses/u1" idle).0 ≡ ok tt
unfolding resume_sandbox restore wait_for_socket poll wait_ready send Client.put
resumes = refl

resume-kill_loses_example :
    ledger
      (kill_sandbox machine config "u1"
        (resume_sandbox machine config "u1" "/run/cage/pauses/u1" idle).1).1
    ≡ ledger idle
resume-kill_loses_example = resume-kill_loses machine config "u1" "/run/cage/pauses/u1" idle resumes

abbrev same : Error → Error
same e = e

host-IsClock : IsClock host 50 same (host.stat "u1.api.sock")
host-IsClock = record { slept = λ s. omega arith; tried = λ s. omega arith }

poll_for-enough_example :
    poll host 50 same (host.stat "u1.api.sock") 100 (9 + 3000) (msg "timed out") 9
    ≡ poll_for host 50 same (host.stat "u1.api.sock") 3000 (msg "timed out") 9
poll_for-enough_example =
    poll_for-enough host 50 same (host.stat "u1.api.sock") host-IsClock (omega arith) 100 3000
      (msg "timed out") 9 (omega arith)
