-- ===== src/Docker/Adapter/Histories.antt =====
-- Sequences of backend calls on the Docker adapter.
use cage.Common.{String, List, [], ◌∷◌, ◌≡◌, refl, inl, inr, Option-cases, false, arith}
use cage.Common.Dict.{lookup, lookup-insert_self, lookup-remove_self}
use cage.Common.Exec.{Error, Result, ok, err, Exec, pure, and_then, ◌>>=◌}
use cage.Docker.Client.{DockerClient, Tar}
use cage.Docker.Manager
use cage.Docker.Manager.Laws.{DockerLaws}
use cage.Docker.Manager.Containers.{
  exec_command-holds, is_running-holds, remove_image-holds, write_file-holds, read_file-holds,
}
use cage.Docker.Adapter.{
  Adapter, no_container, found, container_for, register, unregister, create_sandbox, kill_sandbox,
  pause_sandbox, resume_sandbox, adopt_warm_resource, exec_command, on_daemon, write_file,
  read_file, is_running, remove_image, open_shell,
}
use cage.Docker.Shell as Shells
use cage.Docker.Adapter.Mapping.{
  IsSound, create_sandbox-IsSound, resume_sandbox-IsSound, kill_sandbox-IsSound,
  pause_sandbox-IsSound, grown,
}

-- A call of the backend, but for the adoption of warm resources.
pub data Call : Type 0 where
  create resume read : String → String → Call
  kill check pause clean shell : String → Call
  exec : String → List String → Call
  write : String → String → String → Call

module _ {D A : Type 0} (docker : DockerClient D A) (tar : Tar A) where
  -- The state after one call.
  abbrev pub call : Call → Adapter D → Adapter D
  call (create id image) a = (create_sandbox docker id image a).1
  call (kill id) a = (kill_sandbox docker id a).1
  call (exec id cmd) a = (exec_command docker id cmd a).1
  call (check id) a = (is_running docker id a).1
  call (pause id) a = (pause_sandbox docker id a).1
  call (resume id image) a = (resume_sandbox docker id image a).1
  call (clean image) a = (remove_image docker image a).1
  call (write id path content) a = (write_file docker tar id path content a).1
  call (read id path) a = (read_file docker tar id path a).1
  call (shell id) a = (open_shell docker id a).1

  abbrev pub calls : List Call → Adapter D → Adapter D
  calls [] a = a
  calls (c ∷ rest) a = calls rest (call c a)

module _ {D A : Type 0} (docker : DockerClient D A) (tar : Tar A) (laws : DockerLaws docker) where
  open laws use {holds}

  same-IsSound :
      (a : Adapter D) (d : D)
      → IsSound laws a
      → holds d ≡ holds a.daemon
      → IsSound laws (record a { daemon = d })
  same-IsSound a d s e = grown laws a d s (λ c h. rw e h)

  last-IsSound :
      {X Y : Type 0} (r : Result Error X) (k : X → Exec Error (Adapter D) Y) (a : Adapter D)
      → ((x : X) (b : Adapter D) → (k x b).1 ≡ b)
      → IsSound laws a
      → IsSound laws (and_then r k a).1
  last-IsSound (ok x) k a last s = rw (last x a) s
  last-IsSound (err e) k a last s = s

  -- A call that reaches the daemon under the sandbox's container.
  through-IsSound :
      {X Y : Type 0} (id : String) (m : String → Exec Error D X) (k : X → Exec Error (Adapter D) Y)
      (a : Adapter D)
      → ((c : String) (d : D) → holds (m c d).1 ≡ holds d)
      → ((x : X) (b : Adapter D) → (k x b).1 ≡ b)
      → IsSound laws a
      → IsSound laws ((container_for id >>= λ c. on_daemon (m c) >>= k) a).1
  unfolding container_for
  through-IsSound id m k a keeps last s = elim (Option-cases (lookup id a.containers)) [
    | inl e ↦ rw (e, found) s
    | inr (c, e) ↦
        rw (e, found)
          (last-IsSound (m c a.daemon).0 k _ last (same-IsSound a _ s (keeps c a.daemon)))
  ]

  exec_command-IsSound :
      (id : String) (cmd : List String) (a : Adapter D)
      → IsSound laws a
      → IsSound laws (exec_command docker id cmd a).1
  unfolding exec_command
  exec_command-IsSound id cmd a =
      through-IsSound id (λ c. Manager.exec_command docker c cmd) _ a
        (λ c d. exec_command-holds docker laws c cmd d) (λ x b. refl)

  write_file-IsSound :
      (id path content : String) (a : Adapter D)
      → IsSound laws a
      → IsSound laws (write_file docker tar id path content a).1
  unfolding write_file container_for
  write_file-IsSound id path content a s = elim (Option-cases (lookup id a.containers)) [
    | inl e ↦ rw (e, found) s
    | inr (c, e) ↦
        rw (e, found)
          (same-IsSound a _ s (write_file-holds docker laws tar c path content a.daemon))
  ]

  read_file-IsSound :
      (id path : String) (a : Adapter D)
      → IsSound laws a
      → IsSound laws (read_file docker tar id path a).1
  unfolding read_file container_for
  read_file-IsSound id path a s = elim (Option-cases (lookup id a.containers)) [
    | inl e ↦ rw (e, found) s
    | inr (c, e) ↦
        rw (e, found) (same-IsSound a _ s (read_file-holds docker laws tar c path a.daemon))
  ]

  is_running-IsSound :
      (id : String) (a : Adapter D) → IsSound laws a → IsSound laws (is_running docker id a).1
  unfolding is_running
  is_running-IsSound id a s = elim (Option-cases (lookup id a.containers)) [
    | inl e ↦ rw (e, is_running) s
    | inr (c, e) ↦ rw (e, is_running) (same-IsSound a _ s (is_running-holds docker laws c a.daemon))
  ]

  shell-holds : (c : String) (d : D) → holds (Shells.open_shell docker c d).1 ≡ holds d
  unfolding Shells.open_shell
  shell-holds c d =
      grind (arith, exec_command-holds docker laws, laws.exec_create_keeps, laws.exec_attach_keeps)

  open_shell-IsSound :
      (id : String) (a : Adapter D) → IsSound laws a → IsSound laws (open_shell docker id a).1
  unfolding open_shell
  open_shell-IsSound id a =
      through-IsSound id (Shells.open_shell docker) _ a shell-holds (λ x b. refl)

  call-IsSound : (c : Call) (a : Adapter D) → IsSound laws a → IsSound laws (call docker tar c a)
  unfolding remove_image
  call-IsSound (create id image) a = create_sandbox-IsSound laws id image a
  call-IsSound (kill id) a = kill_sandbox-IsSound laws id a
  call-IsSound (exec id cmd) a = exec_command-IsSound id cmd a
  call-IsSound (check id) a = is_running-IsSound id a
  call-IsSound (pause id) a = pause_sandbox-IsSound laws id a
  call-IsSound (resume id image) a = resume_sandbox-IsSound laws id image a
  call-IsSound (clean image) a =
      λ s. same-IsSound a _ s (remove_image-holds docker laws image a.daemon)
  call-IsSound (write id path content) a = write_file-IsSound id path content a
  call-IsSound (read id path) a = read_file-IsSound id path a
  call-IsSound (shell id) a = open_shell-IsSound id a

  -- For a daemon that keeps the laws, no sequence of backend calls other than adoptions, with
  -- whatever failures of the daemon, maps a sandbox to a container that does not exist or maps two
  -- sandboxes to one container.
  pub calls-IsSound :
      (cs : List Call) (a : Adapter D) → IsSound laws a → IsSound laws (calls docker tar cs a)
  calls-IsSound [] a s = s
  calls-IsSound (c ∷ rest) a s = calls-IsSound rest (call docker tar c a) (call-IsSound c a s)

module _ {D A : Type 0} (docker : DockerClient D A) where
  -- However the daemon answers, a kill of a sandbox forgets its container: a second kill fails for
  -- want of a container, changes nothing, and makes no call of the daemon.
  pub kill_sandbox_again :
      (id : String) (a : Adapter D)
      → let b = (kill_sandbox docker id a).1 in
        kill_sandbox docker id b ≡ (err (no_container id), b)
  unfolding kill_sandbox container_for unregister
  kill_sandbox_again id a = elim (Option-cases (lookup id a.containers)) [
    | inl e ↦ rw (e, found) (rw (e, found))
    | inr (c, e) ↦ rw (e, found) (rw (lookup-remove_self id a.containers, found))
  ]

  -- A warm resource is adopted under its placeholder ID, which is not looked up in the map: the
  -- commands of the sandbox reach the daemon under the placeholder, whatever container the
  -- placeholder was created with.
  pub adopt_calls_placeholder :
      (id placeholder : String) (cmd : List String) (a : Adapter D)
      → let b = (adopt_warm_resource docker id placeholder a).1 in
        exec_command docker id cmd b
        ≡ (on_daemon (Manager.exec_command docker placeholder cmd) >>= λ r.
              pure (record { stdout = r.stdout; stderr = r.stderr; exit_code = r.exit_code }))
            b
  unfolding exec_command adopt_warm_resource register container_for
  adopt_calls_placeholder id placeholder cmd a =
      rw (lookup-insert_self id placeholder a.containers, found)

module _ {D A : Type 0} {docker : DockerClient D A} (laws : DockerLaws docker) where
  -- Adopting a placeholder that names no container leaves a map that is not sound.
  pub adopt-not-IsSound :
      (id placeholder : String) (a : Adapter D)
      → laws.holds a.daemon placeholder ≡ false
      → ¬ IsSound laws (adopt_warm_resource docker id placeholder a).1
  unfolding adopt_warm_resource register
  adopt-not-IsSound id placeholder a none_such s =
      cc (s.exists id placeholder (lookup-insert_self id placeholder a.containers), none_such)
