-- ===== src/Tui/Confirmation.antt =====
-- What the interface deletes.
use cage.Common.{ℕ, ◌⊎◌, String, Option, none, some, Bool, true, false, if◌then◌else◌, ◌≡◌}
use cage.Sdk.{Sandbox}
use cage.Tui.{Msg, key, Cmd, delete, batch, InputWidget, ListWidget}
use cage.Tui.Detail
use cage.Tui.Screen.{Screen, splash_screen, detail_screen, error_screen, question}
use cage.Tui.Model.{Model}

abbrev first : Option String → Option String → Option String
first none b = b
first (some a) b = some a

-- The sandbox that a command deletes.
abbrev pub deleted : Cmd → Option String
deleted (delete id) = some id
deleted (batch a b) = first (deleted a) (deleted b)
deleted _ = none

abbrev pub key_of : Msg → String
key_of (key k) = k
key_of _ = ""

abbrev pub id_of : Option Sandbox → Option String
id_of none = none
id_of (some sb) = some sb.id

abbrev pub hides : Screen → Bool
hides splash_screen = true
hides detail_screen = true
hides (error_screen e) = true
hides _ = false

module _ {L I : Type 0} (lists : ListWidget L) (inputs : InputWidget I) (banner_width : ℕ) where
  if-deleted :
      (b : Bool) (p q : Model L I × Cmd)
      → deleted p.1 ≡ none
      → deleted q.1 ≡ none
      → deleted (if b then p else q).1 ≡ none
  if-deleted true p q hp hq = hp
  if-deleted false p q hp hq = hq

  abbrev Confirmed : String → Model L I → String → Type 0
  Confirmed k m id = (m.confirm ≡ true) × (k ≡ "y") × (id_of (lists.selected m.items) ≡ some id)

  abbrev Shows : String → Screen → Type 0
  Shows id s = (s ≡ question id) ⊎ (hides s ≡ true)
