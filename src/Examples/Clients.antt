-- ===== src/Examples/Clients.antt =====
-- The theorems on the command line client and the terminal interface, at concrete inputs.
use cage.Common.{String, List, [], ◌∷◌, ◌≡◌, ◌≢◌, sym, ap, refl, none, some, true, false, Option}
use cage.Common.Exec.{ok}
use cage.Cli.{CliConfig, resolve_credentials, login}
use cage.Cli
use cage.Cli.Login.{IsKept, login-resolve}
use cage.Firecracker.Host.{Codec}
use cage.Sdk.{Sandbox, api_error}
use cage.Tui.{listing, InputWidget, ListWidget}
use cage.Tui.Model.{Model, update}
use cage.Tui.Errors

-- A home directory with one file.
abbrev laptop : Cli.Machine (Option String)
laptop = record {
  home_dir = ok "/home/ci";
  read_file = λ path file. (ok file, file);
  mkdir_all = λ path file. (ok tt, file);
  write_file = λ path bytes file. (ok tt, some bytes);
}

abbrev one_key : Codec CliConfig
one_key = record {
  marshal = λ c. c.api_key;
  unmarshal = λ s. ok (record { server = "http://cage"; api_key = s });
}

abbrev saved : CliConfig
saved = record { server = "http://cage"; api_key = "cage_1" }

named : saved.server ≢ ""
named = λ e. cc

saved-IsKept : IsKept laptop one_key saved
saved-IsKept = record {
  file_read = λ path bytes s s' h. ap (λ file. ok file) (sym (ap (λ p. p.1) h));
  parsed = refl;
}

logs_in : login laptop one_key saved none ≡ (ok tt, some "cage_1")
unfolding login Cli.save_config
logs_in = refl

login-resolve_example :
    (resolve_credentials laptop one_key [] (record { server = ""; api_key = "" }) (some "cage_1")).0
    ≡ saved
login-resolve_example =
    login-resolve laptop one_key saved saved-IsKept named none (some "cage_1") logs_in

-- A list whose first row is selected, and a line of input.
abbrev rows : ListWidget (List Sandbox)
rows = record {
  selected = λ l. elim l [ [] ↦ none | sb ∷ l ↦ some sb ];
  set_items = λ items l. items;
  set_size = λ width height l. l;
  update = λ m l. l;
}

abbrev line : InputWidget String
line = record { empty = ""; value = λ s. s; cleared = λ s. ""; update = λ m s. s }

abbrev sandbox : Sandbox
sandbox = record {
  id = "u1";
  status = "running";
  created_at = "";
  expires_at = "";
  template_slug = "base";
}

abbrev asking : Model (List Sandbox) String
asking = record {
  items = sandbox ∷ [];
  view = listing;
  loading = false;
  busy = false;
  failure = none;
  toast = "";
  confirm = true;
  detail = none;
  width = 80;
  height = 24;
  splash_cols = 60;
  splash_done = true;
}

abbrev failing : Model (List Sandbox) String
failing = record asking { failure = some (api_error 500 "down"); confirm = false }
