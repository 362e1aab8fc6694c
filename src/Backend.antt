-- ===== src/Backend.antt =====
-- internal/backend/backend.go: the contract of an isolation backend. `B` is the state that the
-- backend keeps; an optional interface is a field that may be absent, which a type assertion reads.
use cage.Common.{String, List, Option, Bool, ℕ}
use cage.Common.Exec.{Exec, Error}

-- stdout and stderr are Go strings, which hold any bytes.
pub record ExecOutput : Type 0 where
  pub stdout : List ℕ
  pub stderr : List ℕ
  pub exit_code : ℕ

pub record Pausable (B : Type 0) : Type 0 where
  pub pause_sandbox : String → Exec Error B String
  pub resume_sandbox : String → String → Exec Error B (Unit {0})

pub record ImageCleaner (B : Type 0) : Type 0 where
  pub remove_image : String → Exec Error B (Unit {0})

pub record WarmAdopter (B : Type 0) : Type 0 where
  pub adopt_warm_resource : String → String → Exec Error B (Unit {0})

-- A live stream. `read` takes the buffer's size; it may give bytes beside an error, as io.Reader may.
pub record Shell (B : Type 0) : Type 0 where
  pub read : ℕ → B → (List ℕ × Option Error) × B
  pub write : List ℕ → Exec Error B (Unit {0})
  pub resize : ℕ → ℕ → Exec Error B (Unit {0})
  pub close : Exec Error B (Unit {0})

pub record Interactive (B : Type 0) : Type 0 where
  pub open_shell : String → Exec Error B (Shell B)

pub record SandboxBackend (B : Type 0) : Type 0 where
  pub create_sandbox : String → String → Exec Error B (Unit {0})
  pub kill_sandbox : String → Exec Error B (Unit {0})
  pub exec_command : String → List String → Exec Error B ExecOutput
  pub write_file : String → String → String → Exec Error B (Unit {0})
  pub read_file : String → String → Exec Error B String
  pub is_running : String → Exec Error B Bool
  pub pausable : Option (Pausable B)
  pub image_cleaner : Option (ImageCleaner B)
  pub warm_adopter : Option (WarmAdopter B)
  pub interactive : Option (Interactive B)

module _ {B : Type 0} where
  abbrev pub as_pausable : SandboxBackend B → Option (Pausable B)
  as_pausable b = b.pausable

  abbrev pub as_image_cleaner : SandboxBackend B → Option (ImageCleaner B)
  as_image_cleaner b = b.image_cleaner

  abbrev pub as_warm_adopter : SandboxBackend B → Option (WarmAdopter B)
  as_warm_adopter b = b.warm_adopter

  abbrev pub as_interactive : SandboxBackend B → Option (Interactive B)
  as_interactive b = b.interactive
