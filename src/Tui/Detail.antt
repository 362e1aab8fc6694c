-- ===== src/Tui/Detail.antt =====
-- cli/tui/detail.go: the view of one sandbox, and the commands that run in it.
use cage.Common.{Option, none, some, Bool, true, false, ◌&&◌, str_eq, if◌then◌else◌}
use cage.Common.Exec.{Result, ok, err}
use cage.Sdk.{ClientError, ExecResult, Sandbox}
use cage.Tui.{Msg, key, exec_result, spinner_tick, Cmd, no_cmd, exec, widget, batch, InputWidget}

pub record DetailModel (I : Type 0) : Type 0 where
  pub sandbox : Sandbox
  pub input : I
  pub running : Bool
  pub output : Option ExecResult
  pub failure : Option ClientError

module _ {I : Type 0} (w : InputWidget I) where
  unfoldable pub new_detail_model : Sandbox → DetailModel I
  new_detail_model sb = record {
    sandbox = sb;
    input = w.empty;
    running = false;
    output = none;
    failure = none;
  }

  abbrev not : Bool → Bool
  not true = false
  not false = true

  abbrev to_input : Msg → DetailModel I → DetailModel I × Cmd
  to_input msg m = (record m { input = w.update msg m.input }, widget)

  abbrev shown : Result ClientError ExecResult → DetailModel I → DetailModel I
  shown (ok result) m = record m { running = false; output = some result }
  shown (err e) m = record m { running = false; failure = some e }

  -- One command at a time; the result on the screen is the last one's that came in.
  unfoldable pub update : Msg → DetailModel I → DetailModel I × Cmd
  update (key k) m =
      if str_eq k "enter" && (not m.running && not (str_eq (w.value m.input) ""))
      then (
        record m { running = true; failure = none; input = w.cleared m.input },
        batch (exec m.sandbox.id (w.value m.input)) widget,
      )
      else to_input (key k) m
  update (exec_result r) m = (shown r m, no_cmd)
  update spinner_tick m = (m, if m.running then widget else no_cmd)
  update msg m = to_input msg m
