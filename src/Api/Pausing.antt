-- ===== src/Api/Pausing.antt =====
-- internal/api/handlers.go: PauseSandbox and ResumeSandbox.
pub mod Consistency
pub mod Resumption
use cage.Common.{ℕ, ◌+◌, String, List, [], ◌∷◌, ◌++◌, Option, none, some, Bool, true, false}
use cage.Common.Exec.{Exec, Error, Result, ok, err, pure, modify, ◌>>=◌, ◌>>◌}
use cage.Backend.{SandboxBackend, Pausable, ImageCleaner, as_pausable, as_image_cleaner}
use cage.Store
use cage.Store.{Sandbox, running, paused}
use cage.World.{World, on_backend, on_db, time_now}
use cage.Api.{
  Api, Handler, Response, respond, text, empty, not_allowed, sandbox, or_500, or_else, require,
  load,
}

abbrev pub not_implemented : Response
not_implemented = respond 501 (text "pause/resume is not supported on the active isolation backend")

abbrev pub no_reference : Response
no_reference =
    respond 500 (text "sandbox is paused but has no pause reference recorded — inconsistent state")

-- The goroutine that removes the pause resource is started if the backend can clean images; it
-- runs later, as `clean_up`.
abbrev started : {B : Type 0} → Option (ImageCleaner B) → String → World B → World B
started none ref w = w
started (some cleaner) ref w = record w { cleanups = w.cleanups ++ ref ∷ [] }

unfoldable pub start_cleanup :
    {B : Type 0} → Option (ImageCleaner B) → String → Handler B (Unit {0})
start_cleanup cleaner ref = modify (started cleaner ref)

module _ {B : Type 0} (api : Api B) (uuid_parse : String → Bool) where
  unfoldable pub pause_sandbox : String → Handler B Response
  pause_sandbox id = do
    row ← load uuid_parse id
    require (Store.is_running row.status)
        (respond 409 (not_allowed "cannot pause sandbox in status %q" row.status))
    pausable ← or_else (as_pausable api.sb) not_implemented
    pause_ref ← or_500 (on_backend (pausable.pause_sandbox row.id))
    now ← time_now
    let row' = record row {
      status = paused;
      paused_image_id = some pause_ref;
      expires_at = now + api.paused_ttl;
    }
    or_500 (on_db (Store.save row'))
    pure (respond 200 (sandbox row'))

  unfoldable pub resume_sandbox : String → Handler B Response
  resume_sandbox id = do
    row ← load uuid_parse id
    require (Store.is_paused row.status)
        (respond 409 (not_allowed "cannot resume sandbox in status %q" row.status))
    pause_ref ← or_else row.paused_image_id no_reference
    pausable ← or_else (as_pausable api.sb) not_implemented
    or_500 (on_backend (pausable.resume_sandbox row.id pause_ref))
    now ← time_now
    let row' = record row {
      status = running;
      paused_image_id = none;
      expires_at = now + api.sandbox_ttl;
    }
    or_500 (on_db (Store.save row'))
    start_cleanup (as_image_cleaner api.sb) pause_ref
    pure (respond 200 (sandbox row'))

  abbrev run_cleanup : Option (ImageCleaner B) → List String → World B → World B
  run_cleanup none refs w = w
  run_cleanup (some cleaner) [] w = w
  run_cleanup (some cleaner) (ref ∷ refs) w =
      (on_backend (cleaner.remove_image ref) (record w { cleanups = refs })).1

  -- The oldest goroutine removes its pause resource; an error is logged.
  unfoldable pub clean_up : World B → World B
  clean_up w = run_cleanup (as_image_cleaner api.sb) w.cleanups w
