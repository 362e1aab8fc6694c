-- ===== src/Firecracker/Frames.antt =====
-- internal/firecracker/shell.go: frames of [type, size as four bytes, payload] on the connection to
-- the guest agent, and FirecrackerShell over them.
pub mod Sessions
pub mod Ends
use cage.Common.{
  ℕ, zero, suc, List, [], ◌∷◌, ◌++◌, Option, none, some, Bool, true, false, ◌==◌, ltb,
  if◌then◌else◌, length, take,
}
use cage.Common.Bytes.{uint32, put_uint32, put_uint16}
use cage.Common.Io.{Reader, ReadError, read_full}
use cage.Common.Exec.{Exec, Error, Result, ok, err, pure, or_wrap, ◌>>=◌, ◌>>◌}

-- An io.Writer: the bytes that it has taken; the n-th Write may fail after some of its bytes.
pub record Writer : Type 0 where
  pub bytes : List ℕ
  pub outage : ℕ → Option (ℕ × Error)
  pub writes : ℕ

abbrev pub wrote : List ℕ → Option (ℕ × Error) → Writer → Result Error (Unit {0}) × Writer
wrote bs none w = (ok tt, record w { bytes = w.bytes ++ bs; writes = suc w.writes })
wrote bs (some (n, e)) w = (err e, record w { bytes = w.bytes ++ take n bs; writes = suc w.writes })

abbrev pub write : List ℕ → Exec Error Writer (Unit {0})
write bs w = wrote bs (w.outage w.writes) w

abbrev pub frame_data : ℕ
frame_data = 1

abbrev pub frame_resize : ℕ
frame_resize = 2

abbrev pub header : ℕ → List ℕ → List ℕ
header typ payload = typ ∷ put_uint32 (length payload)

abbrev pub write_payload : List ℕ → Exec Error Writer (Unit {0})
write_payload [] = pure tt
write_payload (b ∷ bs) = or_wrap "failed to write frame payload" (write (b ∷ bs))

unfoldable pub write_frame : ℕ → List ℕ → Exec Error Writer (Unit {0})
write_frame typ payload = do
  or_wrap "failed to write frame header" (write (header typ payload))
  write_payload payload

abbrev pub payload_length : List ℕ → ℕ
payload_length (typ ∷ a ∷ b ∷ c ∷ d ∷ []) = uint32 a b c d
payload_length _ = 0

abbrev pub frame_type : List ℕ → ℕ
frame_type [] = 0
frame_type (typ ∷ header) = typ

abbrev pub read_payload : ℕ → Reader → Result ReadError (List ℕ × Reader)
read_payload n r = if ltb 0 n then read_full n r else ok ([], r)

abbrev pub with_type :
    ℕ → Result ReadError (List ℕ × Reader) → Result ReadError ((ℕ × List ℕ) × Reader)
with_type typ (err e) = err e
with_type typ (ok (payload, rest)) = ok ((typ, payload), rest)

abbrev pub after_header :
    Result ReadError (List ℕ × Reader) → Result ReadError ((ℕ × List ℕ) × Reader)
after_header (err e) = err e
after_header (ok (header, rest)) =
    with_type (frame_type header) (read_payload (payload_length header) rest)

unfoldable pub read_frame : Reader → Result ReadError ((ℕ × List ℕ) × Reader)
read_frame r = after_header (read_full 5 r)

-- FirecrackerShell.Read into a buffer of `n` bytes, on fuel: each round takes at least a header.
-- What a frame holds beyond the buffer is lost.
unfoldable pub read : ℕ → ℕ → Reader → Option (Result ReadError (List ℕ × Reader))
read zero n r = none
read (suc fuel) n r = elim (read_frame r) [
  | err e ↦ some (err e)
  | ok ((typ, payload), rest) ↦
      let later = read fuel n rest in
      if typ == frame_data then some (ok (take n payload, rest)) else later
]

-- FirecrackerShell.Write and Resize.
unfoldable pub write_input : List ℕ → Exec Error Writer ℕ
write_input p = do write_frame frame_data p; pure (length p)

unfoldable pub resize : ℕ → ℕ → Exec Error Writer (Unit {0})
resize cols rows = write_frame frame_resize (put_uint16 cols ++ put_uint16 rows)
