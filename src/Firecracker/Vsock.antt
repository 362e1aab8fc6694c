-- ===== src/Firecracker/Vsock.antt =====
-- internal/firecracker/vsock.go: the host's side of the guest agent's protocol.
use text.Mathlib.Text.{starts_with}
use cage.Common.{ℕ, String, List, [], ◌∷◌, concat, str_eq, if◌then◌else◌}
use cage.Common.Text.{concat_all, decimal}
use cage.Common.Exec.{
  Exec, Error, Result, ok, err, msg, wrap, pure, fail, modify, attempt, from_result, with_context,
  or_wrap, ◌>>=◌, ◌>>◌,
}
use cage.Firecracker.Host.{Codec, Host}
use cage.Firecracker.Polling.{poll_for}

-- Strings hold any bytes in Go; on this channel they are texts, which JSON carries unchanged.
pub record AgentRequest : Type 0 where
  pub type : String
  pub cmd : List String
  pub path : String
  pub content : String

pub record AgentResponse : Type 0 where
  pub stdout : String
  pub stderr : String
  pub exit_code : ℕ
  pub content : String
  pub error : String

abbrev pub exec_request : List String → AgentRequest
exec_request cmd = record { type = "exec"; cmd = cmd; path = ""; content = "" }

abbrev pub write_file_request : String → String → AgentRequest
write_file_request path content = record {
  type = "write_file";
  cmd = [];
  path = path;
  content = content;
}

abbrev pub read_file_request : String → AgentRequest
read_file_request path = record { type = "read_file"; cmd = []; path = path; content = "" }

abbrev pub guest_agent_port : ℕ
guest_agent_port = 52000

abbrev pub shell_vsock_port : ℕ
shell_vsock_port = 52001

module _ {H : Type 0} (os : Host H) where
  -- `defer conn.Close()`
  abbrev pub closing : {A : Type 0} → ℕ → Exec Error H A → Exec Error H A
  closing conn m s = let (r, s') = m s in (r, os.close conn s')

  -- The CONNECT handshake with firecracker's proxy, which both ports share. Its error keeps the
  -- white space that the source trims.
  abbrev pub handshake : ℕ → ℕ → Exec Error H (Unit {0})
  handshake conn port = do
    or_wrap "failed to send vsock connect"
        (os.write conn (concat_all ("CONNECT " ∷ decimal port ∷ "\n" ∷ [])))
    line ← or_wrap "failed to read vsock handshake" (os.read_line conn)
    greeted line
    where
      greeted : String → Exec Error H (Unit {0})
      greeted line =
          if starts_with line "OK"
          then pure tt
          else fail (msg (concat "vsock handshake failed: " line))

  -- A response that carries the guest's error is an error here.
  abbrev pub accepted : AgentResponse → Result Error AgentResponse
  accepted resp =
      if str_eq resp.error "" then ok resp else err (msg (concat "guest agent error: " resp.error))

  module _ (requests : Codec AgentRequest) (responses : Codec AgentResponse)
      (uds_path : String) where
    -- What send does on the connection.
    abbrev pub round_trip : AgentRequest → ℕ → Exec Error H AgentResponse
    round_trip req conn = do
      or_wrap "failed to set vsock deadline" (os.set_deadline conn 15000)
      handshake conn guest_agent_port
      or_wrap "failed to write agent request" (os.write conn (concat (requests.marshal req) "\n"))
      line ← or_wrap "failed to read agent response" (os.read_line conn)
      resp ← from_result (with_context "failed to parse agent response" (responses.unmarshal line))
      from_result (accepted resp)

    unfoldable pub send : AgentRequest → Exec Error H AgentResponse
    send req = do
      conn ← or_wrap "failed to dial vsock uds" (os.dial uds_path)
      closing conn (round_trip req conn)

    -- The last attempt's error is the one reported.
    abbrev not_ready : Error → Error
    not_ready = wrap "guest agent did not become ready"

    unfoldable pub wait_ready : ℕ → Exec Error H (Unit {0})
    wait_ready timeout =
        poll_for os 200 not_ready (send (exec_request ("true" ∷ []))) timeout (msg "%!w(<nil>)")

  -- dialShellConn: the connection is closed when the handshake fails, and kept otherwise.
  unfoldable pub dial_shell_conn : String → Exec Error H ℕ
  dial_shell_conn uds_path = do
    conn ← or_wrap "failed to dial vsock uds" (os.dial uds_path)
    done ← attempt (handshake conn shell_vsock_port)
    kept conn done
    where
      kept : ℕ → Result Error (Unit {0}) → Exec Error H ℕ
      kept conn (ok _) = pure conn
      kept conn (err e) = modify (os.close conn) >> fail e
