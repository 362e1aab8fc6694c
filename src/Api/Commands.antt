-- ===== src/Api/Commands.antt =====
-- internal/api/handlers.go: ExecCommand, WriteFile and ReadFile.
pub mod Guards
use cage.Common.{
  ℕ, String, List, [], ◌∷◌, Option, none, some, Bool, true, false, str_eq, if◌then◌else◌,
}
use cage.Common.Exec.{Exec, Error, Result, ok, err, pure, ◌>>=◌, ◌>>◌}
use cage.Store
use cage.World.{World, on_backend}
use cage.Api.{
  Api, Handler, Response, respond, text, empty, not_allowed, output, content, or_500, or_else,
  require, load,
}

abbrev pub is_empty : {A : Type 0} → List A → Bool
is_empty [] = true
is_empty (x ∷ xs) = false

-- A decoded WriteFileRequest.
pub record WriteFileRequest : Type 0 where
  pub path : String
  pub content : String

module _ {B : Type 0} (api : Api B) (uuid_parse : String → Bool) where
  -- A body that does not decode is `none`.
  unfoldable pub exec_command : String → Option (List String) → Handler B Response
  exec_command id body = do
    row ← load uuid_parse id
    require (Store.is_running row.status)
        (respond 409 (not_allowed "sandbox is %q, not running" row.status))
    cmd ← or_else body (respond 400 (text "invalid request body"))
    require (if is_empty cmd then false else true) (respond 400 (text "cmd is required"))
    out ← or_500 (on_backend (api.sb.exec_command row.id cmd))
    pure (respond 200 (output out))

  unfoldable pub write_file : String → Option WriteFileRequest → Handler B Response
  write_file id body = do
    row ← load uuid_parse id
    require (Store.is_running row.status)
        (respond 409 (not_allowed "sandbox is %q, not running" row.status))
    req ← or_else body (respond 400 (text "invalid request body"))
    require (if str_eq req.path "" then false else true) (respond 400 (text "path is required"))
    or_500 (on_backend (api.sb.write_file row.id req.path req.content))
    pure (respond 204 empty)

  unfoldable pub read_file : String → String → Handler B Response
  read_file id path = do
    row ← load uuid_parse id
    require (Store.is_running row.status)
        (respond 409 (not_allowed "sandbox is %q, not running" row.status))
    require (if str_eq path "" then false else true)
        (respond 400 (text "path query param is required"))
    read ← or_500 (on_backend (api.sb.read_file row.id path))
    pure (respond 200 (content read))
