-- ===== src/Examples/Daemon.antt =====
-- A Docker daemon that keeps the laws: it holds a set of containers and knows its next ID.
use cage.Common.{
  some, String, [], ◌≡◌, refl, none, Bool, true, Bool-cases, inl, inr, concat, if◌then◌else◌,
}
use cage.Common.Io.{Reader}
use cage.Common.Exec.{Error, Result, ok, err, msg}
use cage.Docker.Client.{DockerClient, not_found, Tar}
use cage.Docker.Manager.Laws.{DockerLaws, with_new, without, IsFresh}

pub record Daemon : Type 0 where
  pub held : String → Bool
  pub next : String

abbrev no_bytes : Reader
no_bytes = record { bytes = []; failure = none }

abbrev create : Daemon → Result Error String × Daemon
create d =
    if d.held d.next
    then (err (msg "conflict"), d)
    else (ok d.next, record { held = with_new d.held (ok d.next); next = concat d.next "x" })

abbrev remove : String → Daemon → Result Error (Unit {0}) × Daemon
remove id d =
    if d.held id
    then (ok tt, record d { held = without {X = Unit {0}} d.held id (ok tt) })
    else (err (msg "no such container"), d)

abbrev stop : String → Daemon → Result Error (Unit {0}) × Daemon
stop id d = if d.held id then (ok tt, d) else (err (msg "no such container"), d)

abbrev pub docker : DockerClient Daemon String
docker = record {
  image_pull = λ ref d. (ok no_bytes, d);
  drain = λ r d. (ok tt, d);
  container_create = λ c d. create d;
  container_start = λ id d. (ok tt, d);
  container_stop = λ id t d. stop id d;
  container_remove = λ id force d. remove id d;
  exec_create = λ id o d. (ok "exec", d);
  exec_attach = λ id tty d. (ok no_bytes, d);
  exec_inspect = λ id d. (ok 0, d);
  container_inspect = λ id d. if d.held id then (ok true, d) else (err not_found, d);
  copy_to_container = λ id path x d. (ok tt, d);
  copy_from_container = λ id path d. (ok "archive", d);
  container_commit = λ id d. (ok "image", d);
  time_now = λ d. 0;
  image_remove = λ id force d. (ok tt, d);
  exec_resize = λ id height width d. (ok tt, d);
  conn_read = λ id n d. (([], some (msg "closed")), d);
  conn_write = λ id bytes d. (ok tt, d);
  conn_close = λ id d. d;
}

abbrev pub tar : Tar String
tar = record {
  new_writer = "";
  write_header = λ h a. ok a;
  write = λ content a. ok content;
  close = λ a. ok a;
  next = λ a. ok a;
  read_all = λ a. ok a;
}

pub create-IsFresh : (d : Daemon) → IsFresh d.held (create d).0
create-IsFresh d = elim (Bool-cases (d.held d.next)) [ inl e ↦ rw e tt | inr e ↦ rw e e ]

pub create_adds : (d : Daemon) → (create d).1.held ≡ with_new d.held (create d).0
create_adds d = elim (Bool-cases (d.held d.next)) [ inl e ↦ rw e refl | inr e ↦ rw e refl ]

pub remove_removes :
    (id : String) (d : Daemon) → (remove id d).1.held ≡ without d.held id (remove id d).0
remove_removes id d = elim (Bool-cases (d.held id)) [ inl e ↦ rw e refl | inr e ↦ rw e refl ]

pub stop_keeps : (id : String) (d : Daemon) → (stop id d).1.held ≡ d.held
stop_keeps id d = elim (Bool-cases (d.held id)) [ inl e ↦ rw e refl | inr e ↦ rw e refl ]

pub inspect_keeps : (id : String) (d : Daemon) → (docker.container_inspect id d).1.held ≡ d.held
inspect_keeps id d = elim (Bool-cases (d.held id)) [ inl e ↦ rw e refl | inr e ↦ rw e refl ]

abbrev pub laws : DockerLaws docker
laws = record {
  holds = λ d. d.held;
  create_fresh = λ c d. create-IsFresh d;
  create_adds = λ c d. create_adds d;
  remove_removes = λ id force d. remove_removes id d;
  pull_keeps = λ ref d. refl;
  drain_keeps = λ r d. refl;
  start_keeps = λ id d. refl;
  stop_keeps = λ id t d. stop_keeps id d;
  commit_keeps = λ id d. refl;
  exec_create_keeps = λ id o d. refl;
  exec_attach_keeps = λ id tty d. refl;
  exec_inspect_keeps = λ id d. refl;
  inspect_keeps = inspect_keeps;
  copy_to_keeps = λ id path x d. refl;
  copy_from_keeps = λ id path d. refl;
  image_remove_keeps = λ id force d. refl;
}
