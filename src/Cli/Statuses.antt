-- ===== src/Cli/Statuses.antt =====
-- cli/cmd/exec.go and files.go: what the exit status and the local files tell of the sandbox.
use cage.Common.{String, List, ◌≡◌, inl, inr, arith}
use cage.Common.Exec.{ok, err, Result-cases}
use cage.Sdk
use cage.Sdk.{Client, ClientError, ExecResult, Transport}
use cage.Cli.Commands.{Files, Texts, execute, exec, file_pull}

module _ {N P : Type 0} (net : Transport N) (files : Files P) (texts : Texts)
    (server_url api_key : String) where
  abbrev client : Client
  client = record { base_url = server_url; api_key = api_key }

  -- Where exec ends with status 0, the server has answered with the command's result, and the exit
  -- code in it is 0.
  pub exec-status :
      (id : String) (command : List String) (s : N × P)
      → (execute net files texts server_url api_key
          (exec net files texts server_url api_key id command)
          s).0.exit_code
        ≡ 0
      → (r : ExecResult) × ((Sdk.exec net client id command s.0).0 ≡ ok r) × (r.exit_code ≡ 0)
  unfolding execute exec
  exec-status id command s h = elim (Result-cases (Sdk.exec net client id command s.0).0) [
    | inl (r, answered) ↦ (r, answered, ground arith)
    | inr (e, refused) ↦ absurd (ground arith)
  ]

  -- A download that the server refuses leaves the local files as they are, and exits with 1.
  pub file_pull_refused :
      (id remote local : String) (n : N) (p : P) (e : ClientError)
      → (Sdk.read_file net client id remote n).0 ≡ err e
      → ((execute net files texts server_url api_key
            (file_pull net files texts server_url api_key id remote local)
            (n, p)).1.1
          ≡ p)
        × ((execute net files texts server_url api_key
              (file_pull net files texts server_url api_key id remote local)
              (n, p)).0.exit_code
            ≡ 1)
  unfolding execute file_pull
  file_pull_refused id remote local n p e h = ground arith
