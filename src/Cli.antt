-- ===== src/Cli.antt =====
-- cli/cmd: the credentials of the command line client (root.go, config.go, login.go, client.go).
pub mod Login
pub mod Commands
pub mod Statuses
pub mod Shell
pub mod Typing
pub mod Remote
use cage.Common.{String, Option, none, some, Bool, true, false, ◌||◌, str_eq, if◌then◌else◌}
use cage.Common.Dict.{Dict}
use cage.Common.Exec.{Exec, Error, Result, ok, err, msg, pure, fail, from_result, ◌>>=◌, ◌>>◌}
use cage.Common.Text.{join_path}
use cage.Config.{get_env}
use cage.Firecracker.Host.{Codec}

pub record CliConfig : Type 0 where
  pub server : String
  pub api_key : String

-- What the commands use of the machine; `P` is its state. A file that does not exist is `none`.
pub record Machine (P : Type 0) : Type 0 where
  pub home_dir : Result Error String
  pub read_file : String → Exec Error P (Option String)
  pub mkdir_all : String → Exec Error P (Unit {0})
  pub write_file : String → String → Exec Error P (Unit {0})

module _ {P : Type 0} (os : Machine P) (json : Codec CliConfig) where
  abbrev config_dir : Exec Error P String
  config_dir = do home ← from_result os.home_dir; pure (join_path home ".cage")

  abbrev parsed : Option String → Result Error CliConfig
  parsed none = ok (record { server = ""; api_key = "" })
  parsed (some bytes) = json.unmarshal bytes

  unfoldable pub load_config : Exec Error P CliConfig
  load_config = do
    dir ← config_dir
    bytes ← os.read_file (join_path dir "config.json")
    from_result (parsed bytes)

  unfoldable pub save_config : CliConfig → Exec Error P (Unit {0})
  save_config cfg = do
    dir ← config_dir
    os.mkdir_all dir
    os.write_file (join_path dir "config.json") (json.marshal cfg)

  abbrev first_set : String → String → String
  first_set given other = if str_eq given "" then other else given

  abbrev from_file : CliConfig → Result Error CliConfig → CliConfig
  from_file c (ok saved) = record {
    server = first_set c.server saved.server;
    api_key = first_set c.api_key saved.api_key;
  }
  from_file c (err e) = c

  -- The file is read only where something is missing, and an error of it counts as no file.
  abbrev filled : CliConfig → P → CliConfig × P
  filled c s =
      let (saved, s') = load_config s in
      if str_eq c.api_key "" || str_eq c.server "" then (from_file c saved, s') else (c, s)

  abbrev with_default : CliConfig → CliConfig
  with_default c = record c { server = first_set c.server "http://localhost:8080" }

  -- From the flags, "" where they are not given, and the environment.
  unfoldable pub resolve_credentials : Dict String → CliConfig → P → CliConfig × P
  resolve_credentials env flags s =
      let (c, s') =
        filled
          (record {
            server = first_set flags.server (get_env env "CAGE_SERVER" "");
            api_key = first_set flags.api_key (get_env env "CAGE_API_KEY" "");
          })
          s in
      (with_default c, s')

  -- The login command, on the credentials that are resolved before it.
  unfoldable pub login : CliConfig → Exec Error P (Unit {0})
  login c = if str_eq c.api_key "" then fail (msg "provide --api-key to save") else save_config c
