-- ===== src/Docker/Manager/Laws.antt =====
-- What the Docker daemon is documented to do with containers, as far as the backend relies on it:
-- `holds` is the set of containers that exist, running or not.
use cage.Common.{String, ℕ, Bool, true, false, ◌≡◌, if◌then◌else◌, str_eq}
use cage.Common.Io.{Reader}
use cage.Common.Exec.{Error, Result, ok, err}
use cage.Docker.Client.{DockerClient, ContainerConfig, ExecOptions}

abbrev pub with_new : (String → Bool) → Result Error String → String → Bool
with_new held (ok id) j = if str_eq id j then true else held j
with_new held (err e) j = held j

abbrev pub without : {X : Type 0} → (String → Bool) → String → Result Error X → String → Bool
without held id (ok x) j = if str_eq id j then false else held j
without held id (err e) j = held j

abbrev pub IsFresh : (String → Bool) → Result Error String → Type 0
IsFresh held (ok id) = held id ≡ false
IsFresh held (err e) = Unit {0}

pub record DockerLaws {D A : Type 0} (docker : DockerClient D A) : Type 0 where
  pub holds : D → String → Bool
  -- A container is created under a new ID; nothing is created on an error.
  pub create_fresh :
      (c : ContainerConfig) (d : D) → IsFresh (holds d) (docker.container_create c d).0
  pub create_adds :
      (c : ContainerConfig) (d : D)
      → holds (docker.container_create c d).1 ≡ with_new (holds d) (docker.container_create c d).0
  -- A removal that succeeds removes its container and no other; one that fails removes nothing.
  pub remove_removes :
      (id : String) (force : Bool) (d : D)
      → holds (docker.container_remove id force d).1
        ≡ without (holds d) id (docker.container_remove id force d).0
  pub pull_keeps : (ref : String) (d : D) → holds (docker.image_pull ref d).1 ≡ holds d
  pub drain_keeps : (r : Reader) (d : D) → holds (docker.drain r d).1 ≡ holds d
  pub start_keeps : (id : String) (d : D) → holds (docker.container_start id d).1 ≡ holds d
  pub stop_keeps : (id : String) (t : ℕ) (d : D) → holds (docker.container_stop id t d).1 ≡ holds d
  pub commit_keeps : (id : String) (d : D) → holds (docker.container_commit id d).1 ≡ holds d
  pub exec_create_keeps :
      (id : String) (o : ExecOptions) (d : D) → holds (docker.exec_create id o d).1 ≡ holds d
  pub exec_attach_keeps :
      (id : String) (tty : Bool) (d : D) → holds (docker.exec_attach id tty d).1 ≡ holds d
  pub exec_inspect_keeps : (id : String) (d : D) → holds (docker.exec_inspect id d).1 ≡ holds d
  pub inspect_keeps : (id : String) (d : D) → holds (docker.container_inspect id d).1 ≡ holds d
  pub copy_to_keeps :
      (id path : String) (x : A) (d : D) → holds (docker.copy_to_container id path x d).1 ≡ holds d
  pub copy_from_keeps :
      (id path : String) (d : D) → holds (docker.copy_from_container id path d).1 ≡ holds d
  pub image_remove_keeps :
      (id : String) (force : Bool) (d : D) → holds (docker.image_remove id force d).1 ≡ holds d
