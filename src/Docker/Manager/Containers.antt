-- ===== src/Docker/Manager/Containers.antt =====
-- Which containers exist after each operation of SandboxManager, on every branch.
use cage.Common.{String, List, Bool, true, false, ◌≡◌, ◌⊎◌, arith}
use cage.Common.Exec.{Error, Result, ok, err}
use cage.Docker.Client.{DockerClient, Tar}
use cage.Docker.Manager.{
  launch, create_sandbox, kill_sandbox, pause_sandbox, resume_sandbox, exec_command, is_running,
  remove_image, write_file, read_file,
}
use cage.Docker.Manager.Laws.{DockerLaws, with_new, without}

-- A launch that succeeds adds one container under a new ID. One that fails adds none, or leaves
-- behind the container that did not start.
abbrev pub Launched : (String → Bool) → (String → Bool) → Result Error String → Type 0
Launched before after (ok id) = (before id ≡ false) × (after ≡ with_new before (ok id))
Launched before after (err e) =
    (after ≡ before) ⊎ ((id : String) × (before id ≡ false) × (after ≡ with_new before (ok id)))

module _ {D A : Type 0} (docker : DockerClient D A) (laws : DockerLaws docker) where
  open laws use {holds}

  -- For a daemon that keeps the laws, a kill that succeeds removes its container and no other; one
  -- that fails, at whichever of its calls, removes nothing.
  pub kill_sandbox-holds :
      (id : String) (d : D)
      → holds (kill_sandbox docker id d).1 ≡ without (holds d) id (kill_sandbox docker id d).0
  unfolding kill_sandbox
  kill_sandbox-holds id d = grind (arith, laws.remove_removes, laws.stop_keeps)

  -- For a daemon that keeps the laws, a pause that succeeds, having committed an image, removes its
  -- container and no other; one that fails, at whichever of its calls, removes nothing.
  pub pause_sandbox-holds :
      (id : String) (d : D)
      → holds (pause_sandbox docker id d).1 ≡ without (holds d) id (pause_sandbox docker id d).0
  unfolding pause_sandbox
  pause_sandbox-holds id d = grind (arith, laws.remove_removes, laws.stop_keeps, laws.commit_keeps)

  pub launch-Launched :
      (t u image : String) (d : D)
      → Launched (holds d) (holds (launch docker t u image d).1) (launch docker t u image d).0
  unfolding launch
  launch-Launched t u image d = grind (arith, laws.create_fresh, laws.create_adds, laws.start_keeps)

  -- For a daemon that keeps the laws, a creation that succeeds returns the ID of the one container
  -- that it added, under a new ID; one that fails adds nothing, or leaves behind one new container
  -- that did not start.
  pub create_sandbox-Launched :
      (image : String) (d : D)
      → Launched
          (holds d)
          (holds (create_sandbox docker image d).1)
          (create_sandbox docker image d).0
  unfolding create_sandbox
  create_sandbox-Launched image d =
      grind (arith, laws.pull_keeps, laws.drain_keeps, launch-Launched)

  -- For a daemon that keeps the laws, a resume that succeeds returns the ID of the one container that
  -- it added, under a new ID; one that fails adds nothing, or leaves behind one new container that
  -- did not start.
  pub resume_sandbox-Launched :
      (image : String) (d : D)
      → Launched
          (holds d)
          (holds (resume_sandbox docker image d).1)
          (resume_sandbox docker image d).0
  unfolding resume_sandbox
  resume_sandbox-Launched = launch-Launched _ _

  pub exec_command-holds :
      (id : String) (cmd : List String) (d : D) → holds (exec_command docker id cmd d).1 ≡ holds d
  unfolding exec_command
  exec_command-holds id cmd d =
      grind (arith, laws.exec_create_keeps, laws.exec_attach_keeps, laws.exec_inspect_keeps)

  pub is_running-holds : (id : String) (d : D) → holds (is_running docker id d).1 ≡ holds d
  unfolding is_running
  is_running-holds id d = laws.inspect_keeps id d

  pub remove_image-holds :
      (image : String) (d : D) → holds (remove_image docker image d).1 ≡ holds d
  unfolding remove_image
  remove_image-holds image d = laws.image_remove_keeps image true d

  pub write_file-holds :
      (tar : Tar A) (id path content : String) (d : D)
      → holds (write_file docker tar id path content d).1 ≡ holds d
  unfolding write_file
  write_file-holds tar id path content d = grind (arith, laws.copy_to_keeps)

  pub read_file-holds :
      (tar : Tar A) (id path : String) (d : D) → holds (read_file docker tar id path d).1 ≡ holds d
  unfolding read_file
  read_file-holds tar id path d = grind (arith, laws.copy_from_keeps)
