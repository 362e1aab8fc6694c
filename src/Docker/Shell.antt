-- ===== src/Docker/Shell.antt =====
-- internal/sandbox/shell.go: interactive shells in containers.
use cage.Common.{String, [], ◌∷◌, Bool, true, false, ◌==◌, if◌then◌else◌}
use cage.Common.Exec.{Exec, Error, Result, ok, err, pure, attempt, modify, or_wrap, ◌>>=◌}
use cage.Backend.{Shell}
use cage.Docker.Client.{DockerClient, ExecOptions}
use cage.Docker.Manager
use cage.Docker.Manager.{ExecResult}

module _ {D A : Type 0} (docker : DockerClient D A) where
  abbrev exited_zero : Result Error ExecResult → Bool
  exited_zero (ok result) = result.exit_code == 0
  exited_zero (err e) = false

  abbrev has_bash : String → Exec Error D Bool
  has_bash container = do
    result ← attempt (Manager.exec_command docker container ("which" ∷ "bash" ∷ []))
    pure (exited_zero result)

  -- The shell with its exec's ID.
  abbrev pub docker_shell : String → Shell D
  docker_shell exec_id = record {
    read = docker.conn_read exec_id;
    write = docker.conn_write exec_id;
    resize = λ cols rows. docker.exec_resize exec_id rows cols;
    close = modify (docker.conn_close exec_id);
  }

  abbrev pub shell_options : Bool → ExecOptions
  shell_options bash = record {
    cmd = (if bash then "/bin/bash" else "/bin/sh") ∷ [];
    attach_stdin = true;
    attach_stdout = true;
    attach_stderr = true;
    tty = true;
  }

  unfoldable pub open_shell : String → Exec Error D (Shell D)
  open_shell container = do
    bash ← has_bash container
    exec_id ←
        or_wrap "failed to create shell exec" (docker.exec_create container (shell_options bash))
    _ ← or_wrap "failed to attach shell exec" (docker.exec_attach exec_id true)
    pure (docker_shell exec_id)
