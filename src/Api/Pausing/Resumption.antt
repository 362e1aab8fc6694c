-- ===== src/Api/Pausing/Resumption.antt =====
-- A pause followed by a resume, and a paused sandbox of the Docker backend.
use cage.Common.{
  ℕ, suc, ◌+◌, String, ◌≡◌, refl, ap, ◌∙◌, none, some, Bool, true, arith, str_eq, str_eq_self,
  if◌then◌else◌,
}
use cage.Common.Dict.{lookup, lookup-remove_self}
use cage.Common.Exec.{Error, Result, ok, err}
use cage.Backend.{Pausable, as_pausable}
use cage.Docker.Client.{DockerClient, Tar}
use cage.Docker.Adapter
use cage.Docker.Adapter.{Adapter, no_container}
use cage.Store
use cage.Store.{Sandbox, running, paused, row_of, answer}
use cage.Store.Rows.{row_of-upsert, row_of-id}
use cage.World
use cage.World.{World}
use cage.Api.{Api, respond, sandbox, failure, serve}
use cage.Api.Sandboxes.{delete_sandbox}
use cage.Api.Sandboxes.Deletion.{delete_sandbox-row_of, deletion_answer, is_killed}
use cage.Api.Commands.Guards.{load_found}
use cage.Api.Pausing.{pause_sandbox, resume_sandbox, start_cleanup}

abbrev pub paused_row : Sandbox → String → ℕ → Sandbox
paused_row row ref expires = record row {
  status = paused;
  paused_image_id = some ref;
  expires_at = expires;
}

abbrev pub resumed_row : Sandbox → ℕ → Sandbox
resumed_row row expires = record row {
  status = running;
  paused_image_id = none;
  expires_at = expires;
}

module _ {B : Type 0} (api : Api B) (uuid_parse : String → Bool) (id : String) where
  -- Where the database answers, pausing a running sandbox on a backend that can pause hands its ID
  -- to the backend, and the record is then paused with the backend's reference and the paused time
  -- to live.
  pub pause_sandbox-row_of :
      (row : Sandbox) (p : Pausable B) (ref : String) (w : World B)
      → uuid_parse id ≡ true
      → ((n : ℕ) → w.db.outage n ≡ none)
      → row_of id w.db.sandboxes ≡ some row
      → row.status ≡ running
      → as_pausable api.sb ≡ some p
      → (p.pause_sandbox id w.backend).0 ≡ ok ref
      → let (r, w') = serve (pause_sandbox api uuid_parse id) w in
        let row' = paused_row row ref (w.time w.readings + api.paused_ttl) in
        (r ≡ respond 200 (sandbox row'))
        × (row_of id w'.db.sandboxes ≡ some row')
        × (w'.backend ≡ (p.pause_sandbox id w.backend).1)
        × (w'.db.outage ≡ w.db.outage)
        × (w'.time ≡ w.time)
        × (w'.readings ≡ suc w.readings)
  unfolding pause_sandbox Store.save World.time_now
  pause_sandbox-row_of row p ref w good up here active can done =
      let same = row_of-id id w.db.sandboxes row here in
      rw
        (
          load_found uuid_parse id w row good (up w.db.statements) here,
          active,
          can,
          same,
          done,
          up (suc w.db.statements),
        )
        (ground (
          arith,
          row_of-upsert id (paused_row row ref (w.time w.readings + api.paused_ttl)) w.db.sandboxes,
          str_eq_self id,
        ))

  -- Where the database answers, resuming a paused sandbox hands the backend its ID and the pause
  -- reference of its record, which is then running with no reference and the full time to live.
  pub resume_sandbox-row_of :
      (row : Sandbox) (p : Pausable B) (ref : String) (w : World B)
      → uuid_parse id ≡ true
      → ((n : ℕ) → w.db.outage n ≡ none)
      → row_of id w.db.sandboxes ≡ some row
      → row.status ≡ paused
      → row.paused_image_id ≡ some ref
      → as_pausable api.sb ≡ some p
      → (p.resume_sandbox id ref w.backend).0 ≡ ok tt
      → let (r, w') = serve (resume_sandbox api uuid_parse id) w in
        let row' = resumed_row row (w.time w.readings + api.sandbox_ttl) in
        (r ≡ respond 200 (sandbox row')) × (row_of id w'.db.sandboxes ≡ some row')
  unfolding resume_sandbox Store.save World.time_now start_cleanup
  resume_sandbox-row_of row p ref w good up here asleep reference can done =
      let same = row_of-id id w.db.sandboxes row here in
      rw
        (
          load_found uuid_parse id w row good (up w.db.statements) here,
          asleep,
          reference,
          can,
          same,
          done,
          up (suc w.db.statements),
        )
        (ground (
          arith,
          row_of-upsert id (resumed_row row (w.time w.readings + api.sandbox_ttl)) w.db.sandboxes,
          str_eq_self id,
        ))

  -- A sandbox that is paused and then resumed, both with success, has the record that it had, but
  -- for the expiry: the backend gets back the reference that it gave.
  pub pause_then_resume :
      (row : Sandbox) (p : Pausable B) (ref : String) (w : World B)
      → uuid_parse id ≡ true
      → ((n : ℕ) → w.db.outage n ≡ none)
      → row_of id w.db.sandboxes ≡ some row
      → row.status ≡ running
      → row.paused_image_id ≡ none
      → as_pausable api.sb ≡ some p
      → (p.pause_sandbox id w.backend).0 ≡ ok ref
      → (p.resume_sandbox id ref (p.pause_sandbox id w.backend).1).0 ≡ ok tt
      → let (r, w') = serve (pause_sandbox api uuid_parse id) w in
        let (r', w'') = serve (resume_sandbox api uuid_parse id) w' in
        let row' = record row { expires_at = w.time (suc w.readings) + api.sandbox_ttl } in
        (r.status ≡ 200)
        × (r' ≡ respond 200 (sandbox row'))
        × (row_of id w''.db.sandboxes ≡ some row')
  pause_then_resume row p ref w good up here active no_ref can pauses resumes =
      let (first, here', backend, outage, time, readings) =
        pause_sandbox-row_of row p ref w good up here active can pauses in
      let w' = (serve (pause_sandbox api uuid_parse id) w).1 in
      let row' = paused_row row ref (w.time w.readings + api.paused_ttl) in
      let (second, here'') =
        resume_sandbox-row_of row' p ref w' good (λ n. rw outage (up n)) here' refl refl can
          (rw backend resumes) in
      let same : resumed_row row' (w'.time w'.readings + api.sandbox_ttl)
          ≡ record row { expires_at = w.time (suc w.readings) + api.sandbox_ttl } =
        rw (time, readings, active, no_ref) refl in
      (
        rw first refl,
        second ∙ ap (λ (x : Sandbox). respond 200 (sandbox x)) same,
        here'' ∙ ap some same,
      )

module _ {D A : Type 0} (docker : DockerClient D A) (tar : Tar A) where
  pause_unmaps :
      (id ref : String) (a : Adapter D)
      → (Adapter.pause_sandbox docker id a).0 ≡ ok ref
      → lookup id (Adapter.pause_sandbox docker id a).1.containers ≡ none
  unfolding Adapter.pause_sandbox Adapter.container_for Adapter.unregister
  pause_unmaps id ref a h = ground (arith, lookup-remove_self id a.containers)

  kill_unmapped :
      (id : String) (a : Adapter D)
      → lookup id a.containers ≡ none
      → Adapter.kill_sandbox docker id a ≡ (err (no_container id), a)
  unfolding Adapter.kill_sandbox Adapter.container_for
  kill_unmapped id a h = ground arith

  abbrev pub on_docker : Api (Adapter D) → Api (Adapter D)
  on_docker api = record api { sb = Adapter.backend docker tar }

  -- On the Docker backend a paused sandbox cannot be deleted. Its pause has forgotten its container,
  -- so the kill fails: the answer is 500, and the record stays, paused as it was.
  pub delete_paused :
      (base : Api (Adapter D)) (uuid_parse : String → Bool) (id : String) (row : Sandbox)
      (ref : String) (w : World (Adapter D))
      → uuid_parse id ≡ true
      → ((n : ℕ) → w.db.outage n ≡ none)
      → row_of id w.db.sandboxes ≡ some row
      → row.status ≡ running
      → (Adapter.pause_sandbox docker id w.backend).0 ≡ ok ref
      → let api = on_docker base in
        let (r, w') = serve (pause_sandbox api uuid_parse id) w in
        let (r', w'') = serve (delete_sandbox api uuid_parse id) w' in
        (r.status ≡ 200)
        × (r' ≡ respond 500 (failure (no_container id)))
        × (row_of id w''.db.sandboxes
            ≡ some (paused_row row ref (w.time w.readings + base.paused_ttl)))
  delete_paused base uuid_parse id row ref w good up here active pauses =
      let api = on_docker base in
      let (first, here', backend, outage, time, readings) =
        pause_sandbox-row_of api uuid_parse id row _ ref w good up here active refl pauses in
      let w' = (serve (pause_sandbox api uuid_parse id) w).1 in
      let unmapped : lookup id w'.backend.containers ≡ none =
        ap (λ (a : Adapter D). lookup id a.containers) backend
        ∙ pause_unmaps id ref w.backend pauses in
      let killed = kill_unmapped id w'.backend unmapped in
      let (second, _, rows) =
        delete_sandbox-row_of api uuid_parse id id _ w' good (rw outage (up _)) (rw outage (up _))
          here' in
      (
        rw first refl,
        second ∙ ap (λ (x : Result Error (Unit {0}) × Adapter D). deletion_answer x.0) killed,
        rows
            ∙ ap
                (λ (x : Result Error (Unit {0}) × Adapter D).
                  if is_killed x.0
                  then (if str_eq id id then none else row_of id w'.db.sandboxes)
                  else row_of id w'.db.sandboxes)
                killed
            ∙ here',
      )
