-- ===== src/Firecracker/Shell.antt =====
-- internal/firecracker/shell.go: FirecrackerShell as a live stream of the backend's.
use cage.Common.{ℕ, suc, List, [], length, Option, none, some}
use cage.Common.Io.{Reader, ReadError, eof, unexpected_eof, broken}
use cage.Common.Exec.{Exec, Error, Result, ok, err, msg, pure, ◌>>◌}
use cage.Backend.{Shell}
use cage.Firecracker.Frames
use cage.Firecracker.Frames.{Writer, write_input, resize}

-- The connection to the guest's shell: what has been written to it, and what it still gives.
pub record Link : Type 0 where
  pub writer : Writer
  pub reader : Reader

abbrev pub on_writer : {A : Type 0} → Exec Error Writer A → Exec Error Link A
on_writer m l = let (r, w) = m l.writer in (r, record l { writer = w })

abbrev error_of : ReadError → Error
error_of eof = msg "EOF"
error_of unexpected_eof = msg "unexpected EOF"
error_of (broken e) = e

-- The fuel of Read is above the bytes that are left, so its `none` does not occur.
abbrev pub given :
    Option (Result ReadError (List ℕ × Reader)) → Link → (List ℕ × Option Error) × Link
given none l = (([], none), l)
given (some (err e)) l = (([], some (error_of e)), l)
given (some (ok (bytes, rest))) l = ((bytes, none), record l { reader = rest })

abbrev pub firecracker_shell : Exec Error Link (Unit {0}) → Shell Link
firecracker_shell close = record {
  read = λ n l. given (Frames.read (suc (length l.reader.bytes)) n l.reader) l;
  write = λ bytes. on_writer (write_input bytes >> pure tt);
  resize = λ cols rows. on_writer (resize cols rows);
  close = close;
}
