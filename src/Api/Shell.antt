-- ===== src/Api/Shell.antt =====
-- internal/api/shell.go: OpenShellSession and the two loops that bridge a websocket and a shell. The
-- loops are interleaved steps: an event is what the next step of either finds.
pub mod Keystrokes
pub mod Closing
use cage.Common.{
  ℕ, suc, ◌*◌, String, List, [], ◌∷◌, ◌++◌, Option, none, some, Bool, true, false, ltb, str_eq,
  length, if◌then◌else◌,
}
use cage.Common.Exec.{Exec, Error, Result, ok, err, pure, ◌>>=◌, ◌>>◌}
use cage.Backend.{SandboxBackend, Shell, Interactive, as_interactive}
use cage.Store
use cage.World.{World, on_backend}
use cage.Api.{
  Api, Handler, Response, respond, text, empty, not_allowed, or_500, or_else, require, load,
}

pub record ResizeMessage : Type 0 where
  pub type : String
  pub cols : ℕ
  pub rows : ℕ

-- A frame from the client; of a text frame, what json.Unmarshal makes of it.
pub data Message : Type 0 where
  binary : List ℕ → Message
  control : Option ResizeMessage → Message

-- A frame arrives, the client's side ends, or the shell has output, which the client may or may not
-- take.
pub data Event : Type 0 where
  arrives : Message → Event
  disconnects : Event
  outputs : Bool → Event

-- `sent` are the binary frames that the client got.
pub record Session (B : Type 0) : Type 0 where
  pub backend : B
  pub sent : List (List ℕ)

-- The size of the output pump's buffer, as it is written in the source.
abbrev pub buffer_size : ℕ
buffer_size = 32 * 1034

module _ {B : Type 0} (shell : Shell B) where
  abbrev pub is_ok : Result Error (Unit {0}) → Bool
  is_ok (ok _) = true
  is_ok (err _) = false

  abbrev pub on_control : Option ResizeMessage → B → B
  on_control none b = b
  on_control (some m) b = if str_eq m.type "resize" then (shell.resize m.cols m.rows b).1 else b

  -- A step of the main loop, and whether it goes on.
  abbrev pub on_message : Message → Session B → Bool × Session B
  on_message (binary bytes) s =
      let (r, b) = shell.write bytes s.backend in (is_ok r, record s { backend = b })
  on_message (control m) s = (true, record s { backend = on_control m s.backend })

  abbrev pub sent_on : Bool → List ℕ → List (List ℕ) → List (List ℕ)
  sent_on taken [] sent = sent
  sent_on taken (x ∷ xs) sent = if taken then sent ++ (x ∷ xs) ∷ [] else sent

  abbrev pub goes_on : Bool → List ℕ → Option Error → Bool
  goes_on taken bytes (some e) = false
  goes_on taken [] none = true
  goes_on taken (x ∷ xs) none = taken

  -- A step of the output pump; when it ends, it cancels the main loop.
  abbrev pub on_output : Bool → Session B → Bool × Session B
  on_output taken s =
      let ((bytes, e), b) = shell.read buffer_size s.backend in
      (goes_on taken bytes e, record s { backend = b; sent = sent_on taken bytes s.sent })

  abbrev pub step : Event → Session B → Bool × Session B
  step (arrives m) s = on_message m s
  step disconnects s = (false, s)
  step (outputs taken) s = on_output taken s

  -- Until the session ends, or the events do.
  unfoldable pub bridge : List Event → Session B → Session B
  bridge [] s = s
  bridge (e ∷ es) s = let (on, s') = step e s in let rest = bridge es s' in if on then rest else s'

-- What happens on the shell: `upgrade` is how websocket.Accept ends, with the response that it
-- writes when it fails. The deferred Close runs either way, and its error is logged only.
abbrev pub session : {B : Type 0} → Result Response (Unit {0}) → List Event → Shell B → B → B
session (ok _) events shell b =
    (shell.close (bridge shell events (record { backend = b; sent = [] })).backend).1
session (err r) events shell b = (shell.close b).1

module _ {B : Type 0} where
  abbrev pub ran : Result Response (Unit {0}) → List Event → Shell B → Handler B Response
  ran (ok _) events shell w =
      (ok (respond 101 empty), record w { backend = session (ok tt) events shell w.backend })
  ran (err r) events shell w = (ok r, record w { backend = session (err r) events shell w.backend })

  -- OpenShellSession once the sandbox is known to run.
  unfoldable pub with_shell :
      Interactive B → String → Result Response (Unit {0}) → List Event → Handler B Response
  with_shell interactive id upgrade events = do
    shell ← or_500 (on_backend (interactive.open_shell id))
    ran upgrade events shell

module _ {B : Type 0} (api : Api B) (uuid_parse : String → Bool) where
  unfoldable pub open_shell_session :
      String → Result Response (Unit {0}) → List Event → Handler B Response
  open_shell_session id upgrade events = do
    interactive ← or_else (as_interactive api.sb) (
        respond 501
          (text "interactive shell sessions are not supported on the active isolation backend"))
    row ← load uuid_parse id
    require (Store.is_running row.status)
        (respond 409 (not_allowed "sandbox is %q, not running" row.status))
    with_shell interactive row.id upgrade events
