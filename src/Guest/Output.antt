-- ===== src/Guest/Output.antt =====
-- guest-agent/main.go: the loop of handleShellConn from the PTY to the connection, and writeFrame.
use cage.Common.{ℕ, List, [], ◌∷◌, Option, none, some}
use cage.Common.Exec.{Exec, Error, Result, ok, err, pure, ◌>>◌}
use cage.Firecracker.Frames.{Writer, write, header, frame_data}

-- What a Read of the PTY gives: bytes, and beside them an error, as io.Reader may.
abbrev pub PtyRead : Type 0
PtyRead = List ℕ × Option Error

abbrev pub write_payload : List ℕ → Exec Error Writer (Unit {0})
write_payload [] = pure tt
write_payload (b ∷ bs) = write (b ∷ bs)

unfoldable pub write_frame : ℕ → List ℕ → Exec Error Writer (Unit {0})
write_frame typ payload = write (header typ payload) >> write_payload payload

-- if n > 0 { … }
abbrev pub put_output : List ℕ → Exec Error Writer (Unit {0})
put_output [] = pure tt
put_output (b ∷ bs) = write_frame frame_data (b ∷ bs)

-- A failed write ends the loop, and so does a failed read once its bytes are written.
abbrev pub goes_on : Result Error (Unit {0}) → Option Error → Writer → Writer → Writer
goes_on (err e) failure stopped later = stopped
goes_on (ok _) (some e) stopped later = stopped
goes_on (ok _) none stopped later = later

-- The loop over the results of the PTY's reads.
unfoldable pub pump : List PtyRead → Writer → Writer
pump [] w = w
pump ((bytes, e) ∷ reads) w =
    let (done, w') = put_output bytes w in let later = pump reads w' in goes_on done e w' later
