-- ===== src/Docker/Manager.antt =====
-- internal/sandbox/sandbox.go: SandboxManager, over the Docker client.
pub mod Laws
pub mod Containers
use Prim.Native.String.{len}
use cage.Common.{ℕ, String, List, [], ◌∷◌, Bool, true, false, Option, none, some}
use cage.Common.Io.{ReadError, eof, unexpected_eof, broken}
use cage.Common.Exec.{
  Exec, Error, Result, ok, err, msg, wrap, pure, gets, ◌>>=◌, ◌>>◌, attempt, or_wrap, with_context,
  from_result, ◌>>=?◌,
}
use cage.Docker.Client.{DockerClient, ContainerConfig, InspectError, not_found, failed, Tar}
use cage.Docker.Stream.{Output, demux_output}

abbrev pub stop_timeout : ℕ
stop_timeout = 5

-- The error value of a failed read.
abbrev read_error : ReadError → Error
read_error eof = msg "EOF"
read_error unexpected_eof = msg "unexpected EOF"
read_error (broken e) = e

-- `none` is not reached: the fuel of demux_output is enough for every stream.
abbrev demux_result : Option (Result ReadError Output) → Result Error Output
demux_result none = err (msg "demux: no fuel")
demux_result (some (ok o)) = ok o
demux_result (some (err e)) = err (wrap "failed to read exec output" (read_error e))

pub record ExecResult : Type 0 where
  pub stdout : List ℕ
  pub stderr : List ℕ
  pub exit_code : ℕ

-- A missing container is reported as not running; other errors of the inspection are returned.
abbrev running_of : Result InspectError Bool → Result Error Bool
running_of (ok running) = ok running
running_of (err not_found) = ok false
running_of (err (failed e)) = err e

module _ {D A : Type 0} (docker : DockerClient D A) where
  abbrev sleeping : String → ContainerConfig
  sleeping image = record { image = image; cmd = "sleep" ∷ "infinity" ∷ []; tty = false }

  -- ContainerCreate and ContainerStart, the steps that CreateSandbox and ResumeSandbox share.
  unfoldable pub launch : String → String → String → Exec Error D String
  launch not_created not_started image = do
    id ← or_wrap not_created (docker.container_create (sleeping image))
    or_wrap not_started (docker.container_start id)
    pure id

  unfoldable pub create_sandbox : String → Exec Error D String
  create_sandbox image_ref = do
    reader ← or_wrap "failed to pull image" (docker.image_pull image_ref)
    attempt (docker.drain reader)
    launch "failed to create container" "failed to start container" image_ref

  unfoldable pub kill_sandbox : String → Exec Error D (Unit {0})
  kill_sandbox id = do
    or_wrap "failed to stop container" (docker.container_stop id stop_timeout)
    or_wrap "failed to remove container" (docker.container_remove id true)

  unfoldable pub exec_command : String → List String → Exec Error D ExecResult
  exec_command container cmd = do
    exec ← or_wrap "failed to create exec" (
        docker.exec_create container (record {
          cmd = cmd;
          attach_stdin = false;
          attach_stdout = true;
          attach_stderr = true;
          tty = false;
        }))
    reader ← or_wrap "failed to attach exec" (docker.exec_attach exec false)
    out ← from_result (demux_result (demux_output reader))
    exit_code ← or_wrap "failed to inspect exec" (docker.exec_inspect exec)
    pure (record { stdout = out.stdout; stderr = out.stderr; exit_code = exit_code })

  unfoldable pub is_running : String → Exec Error D Bool
  is_running container d = let (r, d') = docker.container_inspect container d in (running_of r, d')

  unfoldable pub pause_sandbox : String → Exec Error D String
  pause_sandbox container = do
    image ← or_wrap "failed to commit container" (docker.container_commit container)
    or_wrap "failed to stop container" (docker.container_stop container stop_timeout)
    or_wrap "failed to remove container" (docker.container_remove container true)
    pure image

  unfoldable pub resume_sandbox : String → Exec Error D String
  resume_sandbox =
      launch "failed to create container from paused image" "failed to start resumed container"

  unfoldable pub remove_image : String → Exec Error D (Unit {0})
  remove_image image = or_wrap "failed to remove image" (docker.image_remove image true)

module _ {D A : Type 0} (docker : DockerClient D A) (tar : Tar A) where
  abbrev tar_of : ℕ → String → String → Result Error A
  tar_of now path content =
      with_context "failed to `write tar header" (
        tar.write_header (record { name = path; mode = 0o644; size = len content; mod_time = now })
          tar.new_writer)
      >>=? λ opened.
          with_context "failed to write tar content" (tar.write content opened) >>=? λ written.
          with_context "failed to close tar writer" (tar.close written)

  unfoldable pub write_file : String → String → String → Exec Error D (Unit {0})
  write_file container path content = do
    now ← gets docker.time_now
    archive ← from_result (tar_of now path content)
    or_wrap "failed to copy file to container" (docker.copy_to_container container "/" archive)

  unfoldable pub read_file : String → String → Exec Error D String
  read_file container path = do
    archive ←
        or_wrap "failed to copy file from container" (docker.copy_from_container container path)
    entry ← from_result (with_context "failed to read tar entry" (tar.next archive))
    from_result (with_context "failed to read file content" (tar.read_all entry))
