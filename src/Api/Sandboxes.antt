-- ===== src/Api/Sandboxes.antt =====
-- internal/api/handlers.go: CreateSandbox, GetSandbox, ListSandboxes, DeleteSandbox, ListTemplates.
pub mod Creation
pub mod Deletion
use cage.Common.{
  ℕ, ◌+◌, String, List, Option, none, some, Bool, true, false, concat, str_eq, if◌then◌else◌,
}
use cage.Common.Exec.{Exec, Error, Result, ok, err, pure, fail, gets, from_result, ◌>>=◌, ◌>>◌}
use cage.Backend.{SandboxBackend, WarmAdopter, as_warm_adopter}
use cage.Store
use cage.Store.{Sandbox, running, Template, resolve_ref}
use cage.Pool
use cage.World.{World, on_backend, on_db, time_now, new_uuid}
use cage.Api.{
  Api, Handler, Response, respond, text, empty, sandbox, sandboxes, templates, internal, or_500,
  or_else, load,
}

-- The adoption of what the pool gave; a failure is logged, and the sandbox is created cold.
abbrev adopted : Result Error (Unit {0}) → Bool
adopted (ok _) = true
adopted (err e) = false

abbrev pub adopt : {B : Type 0} → WarmAdopter B → String → Option String → World B → Bool × World B
adopt adopter id none w = (false, w)
adopt adopter id (some native) w =
    let (r, w') = on_backend (adopter.adopt_warm_resource id native) w in (adopted r, w')

abbrev pub template_or_base : String → String
template_or_base t = if str_eq t "" then "base" else t

module _ {B : Type 0} (api : Api B) where
  abbrev pub warm_start : Bool → Option (WarmAdopter B) → String → String → World B → Bool × World B
  warm_start true (some adopter) id slug w =
      let (native, w') = Pool.take api.sb slug w in adopt adopter id native w'
  warm_start true none id slug w = (false, w)
  warm_start false adopter id slug w = (false, w)

  unfoldable pub from_pool : String → String → Handler B Bool
  from_pool id slug w =
      let (b, w') = warm_start api.has_pool (as_warm_adopter api.sb) id slug w in (ok b, w')

  abbrev pub create_cold : Bool → String → String → Handler B (Unit {0})
  create_cold true id ref = pure tt
  create_cold false id ref = or_500 (on_backend (api.sb.create_sandbox id ref))

  abbrev pub new_row : String → String → ℕ → ℕ → Sandbox
  new_row id slug created now = record {
    id = id;
    container_id = id;
    status = running;
    created_at = created;
    expires_at = now + api.sandbox_ttl;
    template_slug = slug;
    paused_image_id = none;
  }

  -- The template is resolved, and a UUID is drawn for the sandbox.
  unfoldable pub resolve : String → Handler B (Template × String)
  resolve name = do
    found ← or_500 (on_db (Store.get_template_by_slug name))
    tmpl ← or_else found (respond 400 (text (concat "unknown template: " name)))
    ref ← from_result (internal (resolve_ref tmpl api.isolation_backend))
    pure (tmpl, ref)

  -- The argument is the template that the body names, "" where it names none or does not decode.
  unfoldable pub create_sandbox : String → Handler B Response
  create_sandbox template = do
    (tmpl, ref) ← resolve (template_or_base template)
    id ← new_uuid
    warm ← from_pool id tmpl.slug
    create_cold warm id ref
    created ← time_now
    now ← time_now
    let row = new_row id tmpl.slug created now
    or_500 (on_db (Store.save row))
    pure (record { status = 201; body = sandbox row; warm_start = some warm })

  unfoldable pub get_sandbox : (String → Bool) → String → Handler B Response
  get_sandbox uuid_parse id = do row ← load uuid_parse id; pure (respond 200 (sandbox row))

  unfoldable pub list_sandboxes : Handler B Response
  list_sandboxes = do rows ← or_500 (on_db Store.list); pure (respond 200 (sandboxes rows))

  unfoldable pub delete_sandbox : (String → Bool) → String → Handler B Response
  delete_sandbox uuid_parse id = do
    row ← load uuid_parse id
    or_500 (on_backend (api.sb.kill_sandbox row.id))
    or_500 (on_db (Store.delete id))
    pure (respond 204 empty)

  unfoldable pub list_templates : Handler B Response
  list_templates = do ts ← or_500 (on_db Store.list_template); pure (respond 200 (templates ts))
