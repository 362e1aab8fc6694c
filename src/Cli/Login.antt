-- ===== src/Cli/Login.antt =====
-- What login saves is what later commands use.
use cage.Common.{String, some, ◌≡◌, ◌≢◌, Bool-cases, inl, inr, refl, str_eq, str_eq_ne, []}
use cage.Common.Dict.{lookup}
use cage.Common.Text.{join_path}
use cage.Common.Exec.{Error, Result, ok, err, and_then, Result-cases}
use cage.Config.{get_env}
use cage.Firecracker.Host.{Codec}
use cage.Cli.{CliConfig, Machine, load_config, save_config, resolve_credentials, login}

module _ {P : Type 0} (os : Machine P) (json : Codec CliConfig) where
  -- A file that is written can be read back, and JSON carries the credentials.
  pub record IsKept (c : CliConfig) : Type 0 where
    pub file_read :
        (path bytes : String) (s s' : P)
        → os.write_file path bytes s ≡ (ok tt, s')
        → (os.read_file path s').0 ≡ ok (some bytes)
    pub parsed : json.unmarshal (json.marshal c) ≡ ok c

  written :
      (c : CliConfig)
      → IsKept c
      → (path : String) (r : Result Error (Unit {0})) (s s' : P)
      → and_then r (λ _. os.write_file path (json.marshal c)) s ≡ (ok tt, s')
      → (os.read_file path s').0 ≡ ok (some (json.marshal c))
  written c kept path (ok _) s s' h = kept.file_read path (json.marshal c) s s' h
  written c kept path (err e) s s' h = absurd (cc h)

  saved-read :
      (c : CliConfig)
      → IsKept c
      → (s s' : P) → save_config os json c s ≡ (ok tt, s')
      → (load_config os json s').0 ≡ ok c
  unfolding save_config load_config
  saved-read c kept s s' h = elim (Result-cases os.home_dir) [
    | inl (home, e) ↦
        let read =
          written c kept (join_path (join_path home ".cage") "config.json")
            (os.mkdir_all (join_path home ".cage") s).0 (os.mkdir_all (join_path home ".cage") s).1
            s' (rw e at h) in
        rw (e, read) kept.parsed
    | inr (x, e) ↦ absurd (cc (rw e at h))
  ]

  -- After a login that succeeds, a command without flags and without the environment's variables
  -- uses the key and the server that were saved.
  pub login-resolve :
      (c : CliConfig)
      → IsKept c
      → c.server ≢ ""
      → (s s' : P) → login os json c s ≡ (ok tt, s')
      → (resolve_credentials os json [] (record { server = ""; api_key = "" }) s').0 ≡ c
  unfolding login resolve_credentials save_config load_config get_env lookup
  login-resolve c kept named s s' h = elim (Bool-cases (str_eq c.api_key "")) [
    | inl empty ↦ absurd (cc (rw empty at h))
    | inr given ↦ rw (saved-read c kept s s' (rw given at h), str_eq_ne c.server "" named) refl
  ]
