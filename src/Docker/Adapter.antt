-- ===== src/Docker/Adapter.antt =====
-- internal/sandbox/adapter.go: BackendAdapter keeps the map from sandbox IDs to container IDs and
-- offers SandboxManager as a backend. Its lock makes each access to the map one step.
pub mod Mapping
pub mod Histories
use cage.Common.{String, List, [], Bool, false, Option, none, some, concat}
use cage.Common.Dict.{Dict, lookup, insert, remove}
use cage.Common.Exec.{
  Exec, Error, Result, ok, err, msg, pure, fail, gets, modify, from_result, ◌>>=◌, ◌>>◌,
}
use cage.Backend.{
  SandboxBackend, Pausable, ImageCleaner, WarmAdopter, Interactive, ExecOutput, Shell,
}
use cage.Docker.Client.{DockerClient, Tar}
use cage.Docker.Manager
use cage.Docker.Shell as Shells

pub record Adapter (D : Type 0) : Type 0 where
  pub daemon : D
  pub containers : Dict String

abbrev pub no_container : String → Error
no_container id = msg (concat "no container mapped for sandbox " id)

abbrev found : String → Option String → Result Error String
found id none = err (no_container id)
found id (some container) = ok container

module _ {D : Type 0} where
  abbrev pub new_adapter : D → Adapter D
  new_adapter d = record { daemon = d; containers = [] }

  -- A call of the SandboxManager.
  abbrev pub on_daemon : {A : Type 0} → Exec Error D A → Exec Error (Adapter D) A
  on_daemon m a = let (r, d) = m a.daemon in (r, record a { daemon = d })

  unfoldable pub container_for : String → Exec Error (Adapter D) String
  container_for id a = (found id (lookup id a.containers), a)

  unfoldable pub register : String → String → Exec Error (Adapter D) (Unit {0})
  register id container = modify (λ a. record a { containers = insert id container a.containers })

  unfoldable pub unregister : String → Exec Error (Adapter D) (Unit {0})
  unregister id = modify (λ a. record a { containers = remove id a.containers })

module _ {D A : Type 0} (docker : DockerClient D A) where
  unfoldable pub create_sandbox : String → String → Exec Error (Adapter D) (Unit {0})
  create_sandbox id image = do
    container ← on_daemon (Manager.create_sandbox docker image)
    register id container

  unfoldable pub kill_sandbox : String → Exec Error (Adapter D) (Unit {0})
  kill_sandbox id = do
    container ← container_for id
    unregister id
    on_daemon (Manager.kill_sandbox docker container)

  unfoldable pub exec_command : String → List String → Exec Error (Adapter D) ExecOutput
  exec_command id cmd = do
    container ← container_for id
    result ← on_daemon (Manager.exec_command docker container cmd)
    pure (record { stdout = result.stdout; stderr = result.stderr; exit_code = result.exit_code })

  unfoldable pub is_running : String → Exec Error (Adapter D) Bool
  is_running id a = elim (lookup id a.containers) [
    | none ↦ (ok false, a)
    | some container ↦ on_daemon (Manager.is_running docker container) a
  ]

  unfoldable pub pause_sandbox : String → Exec Error (Adapter D) String
  pause_sandbox id = do
    container ← container_for id
    image ← on_daemon (Manager.pause_sandbox docker container)
    unregister id
    pure image

  unfoldable pub resume_sandbox : String → String → Exec Error (Adapter D) (Unit {0})
  resume_sandbox id image = do
    container ← on_daemon (Manager.resume_sandbox docker image)
    register id container

  unfoldable pub remove_image : String → Exec Error (Adapter D) (Unit {0})
  remove_image image = on_daemon (Manager.remove_image docker image)

  -- The container's shell, on the daemon that the adapter keeps.
  abbrev pub adapted : Shell D → Shell (Adapter D)
  adapted shell = record {
    read = λ n a. let (r, d) = shell.read n a.daemon in (r, record a { daemon = d });
    write = λ bytes. on_daemon (shell.write bytes);
    resize = λ cols rows. on_daemon (shell.resize cols rows);
    close = on_daemon shell.close;
  }

  unfoldable pub open_shell : String → Exec Error (Adapter D) (Shell (Adapter D))
  open_shell id = do
    container ← container_for id
    shell ← on_daemon (Shells.open_shell docker container)
    pure (adapted shell)

  unfoldable pub adopt_warm_resource : String → String → Exec Error (Adapter D) (Unit {0})
  adopt_warm_resource id container = register id container

module _ {D A : Type 0} (docker : DockerClient D A) (tar : Tar A) where
  unfoldable pub write_file : String → String → String → Exec Error (Adapter D) (Unit {0})
  write_file id path content = do
    container ← container_for id
    on_daemon (Manager.write_file docker tar container path content)

  unfoldable pub read_file : String → String → Exec Error (Adapter D) String
  read_file id path = do
    container ← container_for id
    on_daemon (Manager.read_file docker tar container path)

  -- The adapter as a backend: it can pause, clean images, adopt warm resources and open shells.
  abbrev pub backend : SandboxBackend (Adapter D)
  backend = record {
    create_sandbox = create_sandbox docker;
    kill_sandbox = kill_sandbox docker;
    exec_command = exec_command docker;
    write_file = write_file;
    read_file = read_file;
    is_running = is_running docker;
    pausable =
        some
          (record { pause_sandbox = pause_sandbox docker; resume_sandbox = resume_sandbox docker });
    image_cleaner = some (record { remove_image = remove_image docker });
    warm_adopter = some (record { adopt_warm_resource = adopt_warm_resource docker });
    interactive = some (record { open_shell = open_shell docker });
  }
