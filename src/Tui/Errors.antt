-- ===== src/Tui/Errors.antt =====
-- An error on the screen.
use cage.Common.{ℕ, List, [], ◌∷◌, Option, none, some, Bool, true, false}
use cage.Common.Exec.{ok}
use cage.Tui.{Msg, action_result, InputWidget, ListWidget}
use cage.Tui.Model.{Model, update}
use cage.Tui.Screen.{Screen, question, list_screen, panics}

abbrev pub is_success : Msg → Bool
is_success (action_result (ok _)) = true
is_success _ = false

abbrev pub is_set : {A : Type 0} → Option A → Bool
is_set none = false
is_set (some _) = true

abbrev pub shows_list : Screen → Bool
shows_list (question id) = true
shows_list (list_screen footer) = true
shows_list panics = true
shows_list _ = false

module _ {L I : Type 0} (lists : ListWidget L) (inputs : InputWidget I) (banner_width : ℕ) where
  unfoldable pub run : List Msg → Model L I → Model L I
  run [] m = m
  run (msg ∷ msgs) m = run msgs (update lists inputs banner_width msg m).0
