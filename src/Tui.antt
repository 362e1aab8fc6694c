-- ===== src/Tui.antt =====
-- cli/tui: the messages and the commands of the terminal interface (model.go, list.go), and what the
-- commands do. The widgets are the library's.
pub mod Detail
pub mod Model
pub mod Screen
pub mod Errors
pub mod Ticks
pub mod Confirmation
use cage.Common.{
  ℕ, ◌+◌, String, List, [], ◌∷◌, Option, none, some, Bool, true, false, ◌||◌, ◌&&◌, leb, str_eq,
  concat, if◌then◌else◌,
}
use cage.Common.Exec.{Exec, Error, Result, ok, err}
use cage.Sdk
use cage.Sdk.{Client, ClientError, ExecResult, Sandbox, Transport}

pub data View : Type 0 where
  splash : View
  listing : View
  detail : View

pub data Msg : Type 0 where
  window_size : ℕ → ℕ → Msg
  key : String → Msg
  action_result : Result ClientError String → Msg
  refresh : Result ClientError (List Sandbox) → Msg
  tick : Msg
  spinner_tick : Msg
  splash_tick : Msg
  exec_result : Result ClientError ExecResult → Msg
  other_msg : Msg

pub data Cmd : Type 0 where
  no_cmd : Cmd
  quit : Cmd
  fetch : Cmd
  create : Cmd
  toggle : Sandbox → Cmd
  delete : String → Cmd
  exec : String → String → Cmd
  next_tick : Cmd
  next_splash_tick : Cmd
  -- A command of a widget's.
  widget : Cmd
  batch : Cmd → Cmd → Cmd

-- bubbles/textinput.
pub record InputWidget (I : Type 0) : Type 0 where
  pub empty : I
  pub value : I → String
  pub cleared : I → I
  pub update : Msg → I → I

-- bubbles/list: what the model uses of it.
pub record ListWidget (L : Type 0) : Type 0 where
  pub selected : L → Option Sandbox
  pub set_items : List Sandbox → L → L
  pub set_size : ℕ → ℕ → L → L
  pub update : Msg → L → L

-- What the commands of the model run; `fields` is strings.Fields.
module _ {N : Type 0} (net : Transport N) (c : Client) (fields : String → List String) where
  abbrev said : {A : Type 0} → (A → String) → Result ClientError A → Msg
  said text (ok a) = action_result (ok (text a))
  said text (err e) = action_result (err e)

  unfoldable pub run_create : N → Msg × N
  run_create s =
      let (r, s') = Sdk.create_sandbox net c "base" s in
      (said (λ sb. concat "created sandbox " sb.id) r, s')

  -- The sandbox as the list had it decides between pausing and resuming.
  unfoldable pub run_toggle : Sandbox → N → Msg × N
  run_toggle sb s =
      let (paused, s') = Sdk.pause_sandbox net c sb.id s in
      let (resumed, s'') = Sdk.resume_sandbox net c sb.id s in
      if str_eq sb.status "running"
      then (said (λ _. concat "paused " sb.id) paused, s')
      else (said (λ _. concat "resumed " sb.id) resumed, s'')

  unfoldable pub run_delete : String → N → Msg × N
  run_delete id s =
      let (r, s') = Sdk.delete_sandbox net c id s in (said (λ _. concat "deleted " id) r, s')

  unfoldable pub run_fetch : N → Msg × N
  run_fetch s = let (r, s') = Sdk.list_sandboxes net c s in (refresh r, s')

  unfoldable pub run_exec : String → String → N → Msg × N
  run_exec id raw s = let (r, s') = Sdk.exec net c id (fields raw) s in (exec_result r, s')
