-- ===== src/Docker/Client.antt =====
-- internal/sandbox/docker_client.go: the Docker SDK as an interface over the daemon's state `D`,
-- and the archive/tar calls of sandbox.go over archives `A`.
use cage.Common.{String, List, Bool, ℕ, Option}
use cage.Common.Io.{Reader}
use cage.Common.Exec.{Exec, Error, Result}

pub record ContainerConfig : Type 0 where
  pub image : String
  pub cmd : List String
  pub tty : Bool

pub record ExecOptions : Type 0 where
  pub cmd : List String
  pub attach_stdin : Bool
  pub attach_stdout : Bool
  pub attach_stderr : Bool
  pub tty : Bool

-- An error of ContainerInspect, as cerrdefs.IsNotFound tells it apart.
pub data InspectError : Type 0 where
  not_found : InspectError
  failed : Error → InspectError

pub record DockerClient (D A : Type 0) : Type 0 where
  pub image_pull : String → Exec Error D Reader
  -- io.Copy(io.Discard, reader): the daemon pulls while the client reads.
  pub drain : Reader → Exec Error D (Unit {0})
  pub container_create : ContainerConfig → Exec Error D String
  pub container_start : String → Exec Error D (Unit {0})
  pub container_stop : String → ℕ → Exec Error D (Unit {0})
  pub container_remove : String → Bool → Exec Error D (Unit {0})
  pub exec_create : String → ExecOptions → Exec Error D String
  pub exec_attach : String → Bool → Exec Error D Reader
  pub exec_inspect : String → Exec Error D ℕ
  pub container_inspect : String → Exec InspectError D Bool
  pub copy_to_container : String → String → A → Exec Error D (Unit {0})
  pub copy_from_container : String → String → Exec Error D A
  pub container_commit : String → Exec Error D String
  -- time.Now, which sandbox.go reads for a tar header.
  pub time_now : D → ℕ
  pub image_remove : String → Bool → Exec Error D (Unit {0})
  -- The hijacked connection of an attached exec, by the exec's ID.
  pub exec_resize : String → ℕ → ℕ → Exec Error D (Unit {0})
  pub conn_read : String → ℕ → D → (List ℕ × Option Error) × D
  pub conn_write : String → List ℕ → Exec Error D (Unit {0})
  pub conn_close : String → D → D

pub record TarHeader : Type 0 where
  pub name : String
  pub mode : ℕ
  pub size : ℕ
  pub mod_time : ℕ

pub record Tar (A : Type 0) : Type 0 where
  pub new_writer : A
  pub write_header : TarHeader → A → Result Error A
  pub write : String → A → Result Error A
  pub close : A → Result Error A
  -- tr.Next, then io.ReadAll on the entry.
  pub next : A → Result Error A
  pub read_all : A → Result Error String
