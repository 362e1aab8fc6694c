-- ===== src/Cli/Shell.antt =====
-- cli/cmd/shell.go and shell_resize_unix.go: the shell command. Its goroutines are interleaved steps:
-- a local event is what the next step of one of them finds.
use Prim.Native.String.{len}
use text.Mathlib.Text.{find?, get?}
use cage.Common.{
  ℕ, suc, ◌+◌, String, List, [], ◌∷◌, ◌++◌, Option, none, some, Bool, true, false, ◌&&◌, ◌==◌, leb,
  if◌then◌else◌,
}
use cage.Common.Text.{concat_all}
use cage.Common.Exec.{Exec, Error, Result, ok, err, msg, wrap}
use cage.Api.Shell.{Message, binary, control}

abbrev part : String → ℕ → ℕ → String
part s i j = elim (get? s i j) [ none ↦ "" | some p ↦ p ]

-- strings.Replace(s, old, new, 1).
unfoldable pub replace_first : String → String → String → String
replace_first s old new = elim (find? s old) [
  | none ↦ s
  | some i ↦ concat_all (part s 0 i ∷ new ∷ part s (i + len old) (len s) ∷ [])
]

unfoldable pub shell_url : String → String → String
shell_url server_url id = concat_all (
    replace_first (replace_first server_url "http://" "ws://") "https://" "wss://"
    ∷ "/sandboxes/"
    ∷ id
    ∷ "/shell"
    ∷ [])

-- The connection: the frames that have been written to it; the n-th Write may fail.
pub record Socket : Type 0 where
  pub sent : List Message
  pub outage : ℕ → Option Error
  pub writes : ℕ

abbrev pub wrote : Message → Option Error → Socket → Result Error (Unit {0}) × Socket
wrote m none c = (ok tt, record c { sent = c.sent ++ m ∷ []; writes = suc c.writes })
wrote m (some e) c = (err e, record c { writes = suc c.writes })

abbrev pub write : Message → Exec Error Socket (Unit {0})
write m c = wrote m (c.outage c.writes) c

-- The frame of a size as the server reads it, which keeps sizes in 16 bits.
abbrev pub resize_message : ℕ → ℕ → Message
resize_message cols rows = control (
    if leb cols 65535 && leb rows 65535
    then some (record { type = "resize"; cols = cols; rows = rows })
    else none)

unfoldable pub write_resize_message : ℕ → ℕ → Socket → Socket
write_resize_message cols rows c = (write (resize_message cols rows) c).1

-- sendResize on what term.GetSize gives.
abbrev pub send_resize : Result Error (ℕ × ℕ) → Socket → Socket
send_resize (err e) c = c
send_resize (ok (cols, rows)) c = write_resize_message cols rows c

-- A Read of stdin gives bytes, and an error beside them or instead; or the window changes its size.
pub data Local : Type 0 where
  stdin : List ℕ → Option Error → Local
  resized : Result Error (ℕ × ℕ) → Local

abbrev pub put_input : List ℕ → Exec Error Socket (Unit {0})
put_input [] c = (ok tt, c)
put_input (b ∷ bs) c = write (binary (b ∷ bs)) c

-- Whether the session goes on after a Read of stdin: a failure of either side cancels it.
abbrev pub goes_on : Result Error (Unit {0}) → Option Error → Bool
goes_on (err e) failure = false
goes_on (ok _) (some e) = false
goes_on (ok _) none = true

abbrev pub step : Local → Socket → Bool × Socket
step (stdin bytes e) c = let (done, c') = put_input bytes c in (goes_on done e, c')
step (resized size) c = (true, send_resize size c)

unfoldable pub play : List Local → Socket → Socket
play [] c = c
play (l ∷ ls) c = let (on, c') = step l c in let later = play ls c' in if on then later else c'

-- The session after the connection: the size first.
unfoldable pub session : Result Error (ℕ × ℕ) → List Local → Socket → Socket
session size ls c = play ls (send_resize size c)

abbrev shown : Message → List ℕ
shown (binary bytes) = bytes
shown (control m) = []

abbrev with_output : List ℕ → List ℕ × Result Error (Unit {0}) → List ℕ × Result Error (Unit {0})
with_output bytes (more, r) = (bytes ++ more, r)

-- The loop over the server's frames: what is written to stdout, and how runShell returns. An error
-- with a flag is io.EOF, or comes once the context is cancelled.
unfoldable pub receive : List (Result (Error × Bool) Message) → List ℕ × Result Error (Unit {0})
receive [] = ([], ok tt)
receive (err (e, true) ∷ frames) = ([], ok tt)
receive (err (e, false) ∷ frames) = ([], err (wrap "shell session ended" e))
receive (ok m ∷ frames) = with_output (shown m) (receive frames)

abbrev refused : Option ℕ → Error → Error
refused none e = wrap "failed to connect" e
refused (some status) e =
    if status == 501
    then msg "interactive shells are not supported on this sandbox's isolation backend"
    else wrap "failed to connect" e

-- How websocket.Dial ends, with the response's status, if there is one, beside an error; and how
-- MakeRaw does.
unfoldable pub start :
    Result (Option ℕ × Error) (Unit {0}) → Result Error (Unit {0}) → Result Error (Unit {0})
start (err (status, e)) raw = err (refused status e)
start (ok _) (err e) = err (wrap "failed to set raw terminal mode" e)
start (ok _) (ok _) = ok tt
