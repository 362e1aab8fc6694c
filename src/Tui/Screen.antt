-- ===== src/Tui/Screen.antt =====
-- cli/tui/model.go: View, as far as what it chooses to draw.
use cage.Common.{String, Option, none, some, str_eq, if◌then◌else◌}
use cage.Sdk.{ClientError, Sandbox}
use cage.Tui.{View, splash, listing, detail, InputWidget, ListWidget}
use cage.Tui.Model.{Model}

-- What stands below the list.
pub data Footer : Type 0 where
  plain working : Footer
  success : String → Footer

pub data Screen : Type 0 where
  splash_screen detail_screen : Screen
  -- The error in place of the list.
  error_screen : ClientError → Screen
  -- The list, with the question whether to delete the sandbox of an ID.
  question : String → Screen
  list_screen : Footer → Screen
  -- View reads the ID of a sandbox that is nil.
  panics : Screen

module _ {L I : Type 0} (lists : ListWidget L) (inputs : InputWidget I) where
  abbrev footer : Model L I → Footer
  footer m = if m.busy then working else (if str_eq m.toast "" then plain else success m.toast)

  abbrev pub question_on : Option Sandbox → Screen
  question_on none = panics
  question_on (some sb) = question sb.id

  abbrev pub body : Option ClientError → Model L I → Screen
  body (some e) m = error_screen e
  body none m = if m.confirm then question_on (lists.selected m.items) else list_screen (footer m)

  abbrev pub on_view : View → Model L I → Screen
  on_view splash m = splash_screen
  on_view detail m = detail_screen
  on_view listing m = body m.failure m

  unfoldable pub screen : Model L I → Screen
  screen m = on_view m.view m
