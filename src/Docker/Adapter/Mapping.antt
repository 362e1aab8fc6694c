-- ===== src/Docker/Adapter/Mapping.antt =====
-- The adapter's map against the containers that the daemon holds.
use cage.Common.{
  String, true, false, ◌≡◌, inl, inr, some, Option-cases, arith, if◌then◌else◌, str_eq, str_eq_iff,
  str_eq_self,
}
use cage.Common.Dict.{lookup, insert, remove, lookup-insert, lookup-remove}
use cage.Common.Exec.{Error, Result, ok, err, and_then, pure, ◌>>◌}
use cage.Docker.Client.{DockerClient}
use cage.Docker.Manager
use cage.Docker.Manager.Laws.{DockerLaws, with_new, without}
use cage.Docker.Manager.Containers.{
  Launched, kill_sandbox-holds, pause_sandbox-holds, create_sandbox-Launched,
  resume_sandbox-Launched,
}
use cage.Docker.Adapter.{
  Adapter, found, container_for, register, unregister, create_sandbox, kill_sandbox, pause_sandbox,
  resume_sandbox,
}

module _ {D A : Type 0} (docker : DockerClient D A) where
  pub lookup-create :
      (id image j : String) (a : Adapter D)
      → lookup j (create_sandbox docker id image a).1.containers
        ≡ elim (Manager.create_sandbox docker image a.daemon).0 [
          | ok c ↦ if str_eq id j then some c else lookup j a.containers
          | err e ↦ lookup j a.containers
        ]
  unfolding create_sandbox register
  lookup-create id image j a = grind (arith, lookup-insert)

-- Every sandbox is mapped to a container that exists, and no two to the same.
pub record IsSound {D A : Type 0} {docker : DockerClient D A} (laws : DockerLaws docker)
    (a : Adapter D) : Type 0 where
  pub exists : (id c : String) → lookup id a.containers ≡ some c → laws.holds a.daemon c ≡ true
  pub distinct :
      (id j c : String)
      → lookup id a.containers ≡ some c
      → lookup j a.containers ≡ some c
      → str_eq id j ≡ true

module _ {D A : Type 0} {docker : DockerClient D A} (laws : DockerLaws docker) where
  open laws use {holds}

  register_new :
      (id c : String) (a : Adapter D) (d : D)
      → IsSound laws a
      → holds a.daemon c ≡ false
      → holds d ≡ with_new (holds a.daemon) (ok c)
      → IsSound laws (record { daemon = d; containers = insert id c a.containers })
  register_new id c a d s fresh now = record {
    exists = λ j x.
        rw (lookup-insert id j c a.containers, now)
          (ground (arith, s.exists j x, str_eq_self c, str_eq_iff c x));
    distinct = λ j k x. simp lookup-insert (
        ground (
          arith,
          s.exists j x,
          s.exists k x,
          s.distinct j k x,
          str_eq_iff id j,
          str_eq_iff id k,
          str_eq_iff j k,
        ));
  }

  pub grown :
      (a : Adapter D) (d : D)
      → IsSound laws a
      → ((c : String) → holds a.daemon c ≡ true → holds d c ≡ true)
      → IsSound laws (record a { daemon = d })
  grown a d s more = record {
    exists = λ j x h. more x (s.exists j x h);
    distinct = λ j k x h h'. s.distinct j k x h h';
  }

  shrunk :
      {X : Type 0} (id c : String) (a : Adapter D) (d : D) (r : Result Error X)
      → IsSound laws a
      → lookup id a.containers ≡ some c
      → holds d ≡ without (holds a.daemon) c r
      → IsSound laws (record { daemon = d; containers = remove id a.containers })
  shrunk id c a d r s here now = record {
    exists = λ j x.
        rw (lookup-remove id j a.containers, now)
          (ground (arith, s.exists j x, s.distinct id j c here, str_eq_iff c x));
    distinct = λ j k x. simp lookup-remove (ground (arith, s.distinct j k x));
  }

  Launched-IsSound :
      (id : String) (a : Adapter D) (r : Result Error String) (d : D)
      → IsSound laws a
      → Launched (holds a.daemon) (holds d) r
      → IsSound laws (and_then r (register id) (record a { daemon = d })).1
  unfolding register
  Launched-IsSound id a (ok c) d s l = register_new id c a d s l.0 l.1
  Launched-IsSound id a (err e) d s (inl same) = grown a d s (λ c h. rw same h)
  Launched-IsSound id a (err e) d s (inr (c, fresh, now)) =
      grown a d s (λ x h. rw now (ground arith))

  pub create_sandbox-IsSound :
      (id image : String) (a : Adapter D)
      → IsSound laws a
      → IsSound laws (create_sandbox docker id image a).1
  unfolding create_sandbox
  create_sandbox-IsSound id image a s =
      Launched-IsSound id a _ _ s (create_sandbox-Launched docker laws image a.daemon)

  pub resume_sandbox-IsSound :
      (id image : String) (a : Adapter D)
      → IsSound laws a
      → IsSound laws (resume_sandbox docker id image a).1
  unfolding resume_sandbox
  resume_sandbox-IsSound id image a s =
      Launched-IsSound id a _ _ s (resume_sandbox-Launched docker laws image a.daemon)

  pub kill_sandbox-IsSound :
      (id : String) (a : Adapter D) → IsSound laws a → IsSound laws (kill_sandbox docker id a).1
  unfolding kill_sandbox container_for unregister
  kill_sandbox-IsSound id a s = elim (Option-cases (lookup id a.containers)) [
    | inl e ↦ rw (e, found) s
    | inr (c, e) ↦ rw (e, found) (shrunk id c a _ _ s e (kill_sandbox-holds docker laws c a.daemon))
  ]

  paused-IsSound :
      (id c : String) (a : Adapter D) (r : Result Error String) (d : D)
      → IsSound laws a
      → lookup id a.containers ≡ some c
      → holds d ≡ without (holds a.daemon) c r
      → IsSound laws (and_then r (λ image. unregister id >> pure image) (record a { daemon = d })).1
  unfolding unregister
  paused-IsSound id c a (ok image) d s e now = shrunk id c a d (ok image) s e now
  paused-IsSound id c a (err x) d s e now = grown a d s (λ j h. rw now h)

  pub pause_sandbox-IsSound :
      (id : String) (a : Adapter D) → IsSound laws a → IsSound laws (pause_sandbox docker id a).1
  unfolding pause_sandbox container_for
  pause_sandbox-IsSound id a s = elim (Option-cases (lookup id a.containers)) [
    | inl e ↦ rw (e, found) s
    | inr (c, e) ↦
        rw (e, found) (paused-IsSound id c a _ _ s e (pause_sandbox-holds docker laws c a.daemon))
  ]
