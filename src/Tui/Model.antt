-- ===== src/Tui/Model.antt =====
-- cli/tui/model.go: Model and its Update. `banner_width` is the width of the banner's font, and the
-- spinner's own state is left out. A list in a window smaller than the frame gets size 0, where the
-- source gives a negative one.
use cage.Common.{
  ℕ, ◌+◌, ◌-◌, String, List, Option, none, some, Bool, true, false, leb, str_eq, ◌||◌,
  if◌then◌else◌,
}
use cage.Common.Exec.{Result, ok, err}
use cage.Sdk.{ClientError, Sandbox}
use cage.Tui.{
  View, splash, listing, detail, Msg, window_size, key, action_result, refresh, tick, spinner_tick,
  splash_tick, Cmd, no_cmd, quit, fetch, create, toggle, delete, next_tick, next_splash_tick,
  widget, batch, InputWidget, ListWidget,
}
use cage.Tui.Detail
use cage.Tui.Detail.{DetailModel, new_detail_model}

pub record Model (L I : Type 0) : Type 0 where
  pub items : L
  pub view : View
  pub loading : Bool
  pub busy : Bool
  pub failure : Option ClientError
  pub toast : String
  pub confirm : Bool
  -- Absent until a sandbox has been opened.
  pub detail : Option (DetailModel I)
  pub width : ℕ
  pub height : ℕ
  pub splash_cols : ℕ
  pub splash_done : Bool

abbrev pub reveal_cols : ℕ
reveal_cols = 3

-- Init: the spinner, the refreshes and the banner.
abbrev pub init : Cmd
init = batch widget (batch next_tick next_splash_tick)

module _ {L I : Type 0} (lists : ListWidget L) (inputs : InputWidget I) (banner_width : ℕ) where
  unfoldable pub new : L → Model L I
  new items = record {
    items = items;
    view = splash;
    loading = true;
    busy = false;
    failure = none;
    toast = "";
    confirm = false;
    detail = none;
    width = 0;
    height = 0;
    splash_cols = 0;
    splash_done = false;
  }

  abbrev pub selected_sandbox : Model L I → Option Sandbox
  selected_sandbox m = lists.selected m.items

  -- The end of Update, which hands the message on.
  abbrev detail_updated : Msg → Option (DetailModel I) → Model L I → Model L I × Cmd
  detail_updated msg none m = (m, no_cmd)
  detail_updated msg (some d) m =
      let (d', cmd) = Detail.update inputs msg d in (record m { detail = some d' }, cmd)

  abbrev pub handed_on : View → Msg → Model L I → Model L I × Cmd
  handed_on detail msg m = detail_updated msg m.detail m
  handed_on _ msg m = (record m { items = lists.update msg m.items }, widget)

  abbrev splash_key : Model L I → Model L I × Cmd
  splash_key m =
      if m.splash_done
      then (record m { view = listing }, fetch)
      else (record m { splash_cols = banner_width; splash_done = true }, no_cmd)

  abbrev deleting : Option Sandbox → Model L I → Model L I × Cmd
  deleting none m = (m, no_cmd)
  deleting (some sb) m = (record m { busy = true }, delete sb.id)

  abbrev pub confirm_key : String → Model L I → Model L I × Cmd
  confirm_key k m =
      let m' = record m { confirm = false } in
      if str_eq k "y"
      then deleting (selected_sandbox m) m'
      else (record m' { toast = "delete cancelled" }, no_cmd)

  abbrev pub detail_key : String → Model L I → Model L I × Cmd
  detail_key k m =
      if str_eq k "q"
      then (record m { view = listing }, fetch)
      else detail_updated (key k) m.detail m

  -- A key of the list that needs a sandbox falls through without one.
  abbrev pub opened : Option Sandbox → String → Model L I → Model L I × Cmd
  opened none k m = handed_on m.view (key k) m
  opened (some sb) k m =
      (record m { view = detail; detail = some (new_detail_model inputs sb) }, widget)

  abbrev pub toggled : Option Sandbox → String → Model L I → Model L I × Cmd
  toggled none k m = handed_on m.view (key k) m
  toggled (some sb) k m = (record m { busy = true }, toggle sb)

  abbrev pub asked : Option Sandbox → Model L I → Model L I × Cmd
  asked none m = (m, no_cmd)
  asked (some sb) m = (record m { confirm = true }, no_cmd)

  abbrev pub list_key : String → Model L I → Model L I × Cmd
  list_key k m =
      if str_eq k "ctrl+c" || str_eq k "q"
      then (m, quit)
      else if str_eq k "enter"
      then opened (selected_sandbox m) k m
      else if str_eq k "r"
      then (record m { loading = true }, fetch)
      else if str_eq k "n"
      then (record m { busy = true; toast = "" }, create)
      else if str_eq k "p"
      then toggled (selected_sandbox m) k m
      else if str_eq k "d"
      then asked (selected_sandbox m) m
      else handed_on m.view (key k) m

  abbrev pub main_key : View → String → Model L I → Model L I × Cmd
  main_key detail k m = detail_key k m
  main_key _ k m = list_key k m

  abbrev pub on_key : View → String → Model L I → Model L I × Cmd
  on_key splash k m = splash_key m
  on_key v k m = if m.confirm then confirm_key k m else main_key v k m

  abbrev on_refresh : Result ClientError (List Sandbox) → Model L I → Model L I
  on_refresh (ok sandboxes) m = record m {
    loading = false;
    items = lists.set_items sandboxes m.items;
  }
  on_refresh (err e) m = record m { loading = false; failure = some e }

  abbrev on_action : Result ClientError String → Model L I → Model L I
  on_action (ok text) m = record m { busy = false; failure = none; toast = text }
  on_action (err e) m = record m { busy = false; failure = some e; toast = "" }

  abbrev on_tick : View → Bool → Cmd
  on_tick listing false = batch fetch next_tick
  on_tick _ _ = next_tick

  abbrev revealed : Model L I → Model L I × Cmd
  revealed m =
      let cols = m.splash_cols + reveal_cols in
      if leb banner_width cols
      then (record m { splash_cols = banner_width; splash_done = true }, no_cmd)
      else (record m { splash_cols = cols }, next_splash_tick)

  abbrev on_splash_tick : View → Bool → Model L I → Model L I × Cmd
  on_splash_tick splash false m = revealed m
  on_splash_tick _ _ m = (m, no_cmd)

  unfoldable pub update : Msg → Model L I → Model L I × Cmd
  update (window_size width height) m = (
    record m {
      width = width;
      height = height;
      items = lists.set_size (width - 4) (height - 9) m.items;
    },
    no_cmd,
  )
  update (key k) m = on_key m.view k m
  update (action_result r) m = (on_action r m, fetch)
  update (refresh r) m = (on_refresh r m, no_cmd)
  update tick m = (m, on_tick m.view m.busy)
  update spinner_tick m = (m, widget)
  update splash_tick m = on_splash_tick m.view m.splash_done m
  update msg m = handed_on m.view msg m
