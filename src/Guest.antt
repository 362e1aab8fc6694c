-- ===== src/Guest.antt =====
-- guest-agent/main.go: the shell's side of the frames. readFrame is the host's, byte for byte.
pub mod Control
pub mod Exchange
pub mod Output
pub mod Screen
use cage.Common.{ℕ, zero, suc, List, [], ◌∷◌, ◌++◌, Option, none, some, ◌==◌, if◌then◌else◌, length}
use cage.Common.Bytes.{uint16}
use cage.Common.Io.{Reader}
use cage.Common.Exec.{ok, err}
use cage.Firecracker.Frames.{frame_data, frame_resize, read_frame}

-- The PTY: what has been written to it, and its size where it was set.
pub record Pty : Type 0 where
  pub input : List ℕ
  pub size : Option (ℕ × ℕ)

-- A resize frame whose payload is not four bytes is ignored.
abbrev pub set_size : List ℕ → Pty → Pty
set_size (a ∷ b ∷ c ∷ d ∷ []) p = record p { size = some (uint16 a b, uint16 c d) }
set_size _ p = p

-- The switch on a frame's type.
abbrev pub on_frame : ℕ → List ℕ → Pty → Pty
on_frame typ payload p =
    if typ == frame_data
    then record p { input = p.input ++ payload }
    else if typ == frame_resize
    then set_size payload p
    else p

-- The loop of handleShellConn from the connection to the PTY, on fuel; it ends with the stream.
unfoldable pub shell_loop : ℕ → Pty → Reader → Option Pty
shell_loop zero p r = none
shell_loop (suc fuel) p r = elim (read_frame r) [
  | err e ↦ some p
  | ok ((typ, payload), rest) ↦ shell_loop fuel (on_frame typ payload p) rest
]

unfoldable pub handle_shell_conn : Reader → Option Pty
handle_shell_conn r = shell_loop (suc (length r.bytes)) (record { input = []; size = none }) r
