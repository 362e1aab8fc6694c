-- ===== src/Cli/Commands.antt =====
-- cli/cmd: the commands over the SDK (client.go, sandbox.go, exec.go, files.go) and how the program
-- ends with them (root.go). `N` is the state of the network, `P` that of the machine.
use cage.Common.{ℕ, String, List, [], ◌∷◌, concat, str_eq, if◌then◌else◌}
use cage.Common.Text.{concat_all}
use cage.Common.Exec.{Exec, Error, Result, ok, err, wrap, pure, ◌>>=◌}
use cage.Sdk
use cage.Sdk.{Client, ClientError, Sandbox, Transport, other}

-- What a command writes, and the status that it exits with.
pub record Printed : Type 0 where
  pub stdout : String
  pub stderr : String
  pub exit_code : ℕ

abbrev pub line : List String → Printed
line parts = record { stdout = concat (concat_all parts) "\n"; stderr = ""; exit_code = 0 }

-- How a command's function ends: with an error that it returns, or with os.Exit in newClient.
pub data Failure : Type 0 where
  returned : ClientError → Failure
  no_api_key : Failure

-- os.ReadFile and os.WriteFile.
pub record Files (P : Type 0) : Type 0 where
  pub read_file : String → Exec Error P String
  pub write_file : String → String → Exec Error P (Unit {0})

-- The text of an error, what time.Format makes of a timestamp, and text/tabwriter.
pub record Texts : Type 0 where
  pub describe : ClientError → String
  pub rfc3339 : String → String
  pub tabulate : List (List String) → String

module _ {N P : Type 0} (net : Transport N) (files : Files P) (texts : Texts)
    (server_url api_key : String) where
  -- The network, and the machine.
  abbrev pub State : Type 0
  State = N × P

  abbrev pub Command : Type 0
  Command = Exec Failure State Printed

  abbrev client : Client
  client = record { base_url = server_url; api_key = api_key }

  abbrev failed : {A : Type 0} → Result ClientError A → Result Failure A
  failed (ok a) = ok a
  failed (err e) = err (returned e)

  abbrev unreadable : {A : Type 0} → String → Result Error A → Result Failure A
  unreadable text (ok a) = ok a
  unreadable text (err e) = err (returned (other (wrap text e)))

  -- newClient, and then the call.
  abbrev pub asking : {A : Type 0} → (Client → Exec ClientError N A) → Exec Failure State A
  asking call (n, p) =
      let (r, n') = call client n in
      if str_eq api_key "" then (err no_api_key, (n, p)) else (failed r, (n', p))

  abbrev pub on_machine : {A : Type 0} → String → Exec Error P A → Exec Failure State A
  on_machine text m (n, p) = let (r, p') = m p in (unreadable text r, (n, p'))

  unfoldable pub sandbox_create : String → Command
  sandbox_create template = do
    sb ← asking λ c. Sdk.create_sandbox net c template
    pure (
        line (
          "Created sandbox " ∷ sb.id ∷ " (template: " ∷ sb.template_slug ∷ ", status: " ∷ sb.status
          ∷ ")" ∷ []))

  abbrev row : Sandbox → List String
  row sb = sb.id ∷ sb.template_slug ∷ sb.status ∷ texts.rfc3339 sb.expires_at ∷ []

  abbrev rows : List Sandbox → List (List String)
  rows [] = []
  rows (sb ∷ sbs) = row sb ∷ rows sbs

  abbrev table : List Sandbox → Printed
  table [] = line ("No sandboxes." ∷ [])
  table (sb ∷ sbs) = record {
    stdout = texts.tabulate (("ID" ∷ "TEMPLATE" ∷ "STATUS" ∷ "EXPIRES" ∷ []) ∷ rows (sb ∷ sbs));
    stderr = "";
    exit_code = 0;
  }

  unfoldable pub sandbox_list : Command
  sandbox_list = do sbs ← asking λ c. Sdk.list_sandboxes net c; pure (table sbs)

  unfoldable pub sandbox_get : String → Command
  sandbox_get id = do
    sb ← asking λ c. Sdk.get_sandbox net c id
    pure (
        line (
          "ID:      "
          ∷ sb.id
          ∷ "\nTemplate: "
          ∷ sb.template_slug
          ∷ "\nStatus:  "
          ∷ sb.status
          ∷ "\nCreated:  "
          ∷ texts.rfc3339 sb.created_at
          ∷ "\nExpires:  "
          ∷ texts.rfc3339 sb.expires_at
          ∷ []))

  unfoldable pub sandbox_rm : String → Command
  sandbox_rm id = do _ ← asking λ c. Sdk.delete_sandbox net c id; pure (line ("Deleted." ∷ []))

  abbrev is_now : Sandbox → Printed
  is_now sb = line ("Sandbox " ∷ sb.id ∷ " is now " ∷ sb.status ∷ [])

  unfoldable pub sandbox_pause : String → Command
  sandbox_pause id = do sb ← asking λ c. Sdk.pause_sandbox net c id; pure (is_now sb)

  unfoldable pub sandbox_resume : String → Command
  sandbox_resume id = do sb ← asking λ c. Sdk.resume_sandbox net c id; pure (is_now sb)

  unfoldable pub exec : String → List String → Command
  exec id command = do
    result ← asking λ c. Sdk.exec net c id command
    pure (record { stdout = result.stdout; stderr = result.stderr; exit_code = result.exit_code })

  -- The local file is read before the client is made.
  unfoldable pub file_push : String → String → String → Command
  file_push id local remote = do
    content ← on_machine "failed to read local file" (files.read_file local)
    _ ← asking λ c. Sdk.write_file net c id remote content
    pure (line ("Uploaded " ∷ local ∷ " to " ∷ id ∷ ":" ∷ remote ∷ []))

  unfoldable pub file_pull : String → String → String → Command
  file_pull id remote local = do
    content ← asking λ c. Sdk.read_file net c id remote
    _ ← on_machine "failed to write local file" (files.write_file local content)
    pure (line ("Downloaded " ∷ id ∷ ":" ∷ remote ∷ " to " ∷ local ∷ []))

  -- Execute: an error is written to stderr, after what cobra writes of it, and exits with 1.
  abbrev pub ending : Result Failure Printed → Printed
  ending (ok printed) = printed
  ending (err no_api_key) = record {
    stdout = "";
    stderr =
        "Error: no API key provided. Set --api-key of the CAGE_API_KEY environment variable.\n";
    exit_code = 1;
  }
  ending (err (returned e)) = record {
    stdout = "";
    stderr = concat_all ("Error:  " ∷ texts.describe e ∷ "\n" ∷ []);
    exit_code = 1;
  }

  unfoldable pub execute : Command → State → Printed × State
  execute command s = let (r, s') = command s in (ending r, s')
