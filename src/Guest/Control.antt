-- ===== src/Guest/Control.antt =====
-- guest-agent/main.go: the control protocol, one JSON request and one JSON response per line. `G` is
-- the state of the guest.
use Prim.Native.String.{len}
use cage.Common.{ℕ, String, List, [], ◌∷◌, ◌*◌, concat, str_eq, ltb, if◌then◌else◌}
use cage.Common.Exec.{Exec, Error, Result, ok, err}
use cage.Firecracker.Host.{Codec}
use cage.Firecracker.Vsock.{AgentRequest, AgentResponse}

-- How cmd.Run ends: an exit status with what the command wrote, or no run at all.
pub data Run : Type 0 where
  exited : String → String → ℕ → Run
  not_run : Error → Run

-- What the agent uses of the guest; `describe` is the text of an error.
pub record GuestOs (G : Type 0) : Type 0 where
  pub run : String → List String → G → Run × G
  pub write_file : String → String → Exec Error G (Unit {0})
  pub read_file : String → Exec Error G String
  pub describe : Error → String

abbrev pub empty_response : AgentResponse
empty_response = record { stdout = ""; stderr = ""; exit_code = 0; content = ""; error = "" }

abbrev pub error_response : String → AgentResponse
error_response text = record empty_response { error = text }

-- A scanner takes no line that its buffer, with the line's end, cannot hold.
abbrev pub max_line : ℕ
max_line = 10 * 1024 * 1024

module _ {G : Type 0} (os : GuestOs G) where
  abbrev run_response : Run → AgentResponse
  run_response (exited out errors code) = record empty_response {
    stdout = out;
    stderr = errors;
    exit_code = code;
  }
  run_response (not_run e) = error_response (os.describe e)

  unfoldable pub do_exec : List String → G → AgentResponse × G
  do_exec [] g = (error_response "cmd is required", g)
  do_exec (name ∷ args) g = let (r, g') = os.run name args g in (run_response r, g')

  abbrev write_response : Result Error (Unit {0}) → AgentResponse
  write_response (ok _) = empty_response
  write_response (err e) = error_response (os.describe e)

  unfoldable pub do_write_file : String → String → G → AgentResponse × G
  do_write_file path content g =
      let (r, g') = os.write_file path content g in (write_response r, g')

  abbrev read_response : Result Error String → AgentResponse
  read_response (ok bytes) = record empty_response { content = bytes }
  read_response (err e) = error_response (os.describe e)

  unfoldable pub do_read_file : String → G → AgentResponse × G
  do_read_file path g = let (r, g') = os.read_file path g in (read_response r, g')

  unfoldable pub handle : AgentRequest → G → AgentResponse × G
  handle req g =
      if str_eq req.type "exec"
      then do_exec req.cmd g
      else if str_eq req.type "write_file"
      then do_write_file req.path req.content g
      else if str_eq req.type "read_file"
      then do_read_file req.path g
      else (error_response (concat "unknown request type: " req.type), g)

  module _ (requests : Codec AgentRequest) (responses : Codec AgentResponse) where
    abbrev pub answered : Result Error AgentRequest → G → AgentResponse × G
    answered (ok req) g = handle req g
    answered (err e) g = (error_response (concat "invalid request: " (os.describe e)), g)

    -- handleConn on the lines that arrive: what it writes, line by line, until the end of the input
    -- or a line that is too long.
    unfoldable pub handle_conn : List String → G → List String × G
    handle_conn [] g = ([], g)
    handle_conn (line ∷ lines) g =
        let (resp, g') = answered (requests.unmarshal line) g in
        let (out, g'') = handle_conn lines g' in
        if ltb (len line) max_line
        then (concat (responses.marshal resp) "\n" ∷ out, g'')
        else ([], g)
