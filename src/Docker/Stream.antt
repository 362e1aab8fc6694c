-- ===== src/Docker/Stream.antt =====
-- internal/sandbox/stream.go: demuxOutput splits Docker's multiplexed stream of frames, each
-- [type, 0, 0, 0, size as four bytes, payload], into stdout and stderr.
pub mod Demux
use cage.Common.{
  ℕ, zero, suc, ◌+◌, ◌*◌, ◌^◌, List, [], ◌∷◌, ◌++◌, Option, none, some, length, ◌==◌, if◌then◌else◌,
}
use cage.Common.Bytes.{uint32}
use cage.Common.Io.{Reader, ReadError, eof, unexpected_eof, broken, read_full}
use cage.Common.Exec.{Result, ok, err}

pub record Output : Type 0 where
  pub stdout : List ℕ
  pub stderr : List ℕ

-- header[0] and the size in header[4:8] of a header of eight bytes.
abbrev pub stream_type : List ℕ → ℕ
stream_type (t ∷ header) = t
stream_type [] = 0

abbrev pub payload_size : List ℕ → ℕ
payload_size (t ∷ x ∷ y ∷ z ∷ a ∷ b ∷ c ∷ d ∷ []) = uint32 a b c d
payload_size _ = 0

-- The switch on the stream's type; any other type is dropped.
abbrev pub deliver : ℕ → List ℕ → Output → Output
deliver t payload o =
    if t == 1
    then record o { stdout = o.stdout ++ payload }
    else if t == 2
    then record o { stderr = o.stderr ++ payload }
    else o

-- One round: the output so far and the rest of the stream, or the end of the loop.
pub data Round : Type 0 where
  next : Output → Reader → Round
  done : Result ReadError Output → Round

abbrev after_payload : List ℕ → Output → Result ReadError (List ℕ × Reader) → Round
after_payload header o (err e) = done (err e)
after_payload header o (ok (payload, rest)) = next (deliver (stream_type header) payload o) rest

abbrev after_header : Output → Result ReadError (List ℕ × Reader) → Round
after_header o (err eof) = done (ok o)
after_header o (err unexpected_eof) = done (err unexpected_eof)
after_header o (err (broken e)) = done (err (broken e))
after_header o (ok (header, rest)) = after_payload header o (read_full (payload_size header) rest)

unfoldable pub round : Output → Reader → Round
round o r = after_header o (read_full 8 r)

-- The loop on fuel: each round takes at least the eight bytes of a header.
unfoldable pub demux_loop : ℕ → Output → Reader → Option (Result ReadError Output)
demux_loop zero o r = none
demux_loop (suc fuel) o r = elim (round o r) [
  | done result ↦ some result
  | next o' rest ↦ demux_loop fuel o' rest
]

unfoldable pub demux_output : Reader → Option (Result ReadError Output)
unfolding demux_loop round read_full
demux_output r = demux_loop (suc (length r.bytes)) (record { stdout = []; stderr = [] }) r
