-- ===== src/Cli/Remote.antt =====
-- cli/cmd/shell.go, internal/api/shell.go, internal/firecracker/shell.go and guest-agent/main.go: a
-- shell session from the terminal to the PTY in the microVM.
use mathlib.Core.List.{append-nil, append_assoc}
use cage.Common.{
  ℕ, suc, ◌^◌, ◌≤◌, ◌<◌, List, [], ◌∷◌, ◌++◌, Option, none, some, true, ◌&&◌, ◌≡◌, refl, sym, ap,
  ◌∙◌, arith, All, leb, length, str_eq, if◌then◌else◌, Bool-cases, inl, inr,
}
use cage.Common.Io.{Reader, ReadError, until}
use cage.Common.Exec.{Exec, Error, Result, ok, err}
use cage.Api.Shell.{
  Message, binary, control, Event, arrives, disconnects, outputs, Session, bridge, step,
  buffer_size, ResizeMessage,
}
use cage.Cli.Shell.{
  Socket, Local, stdin, resized, write, resize_message, write_resize_message, play, session,
}
use cage.Cli.Typing.{IsUp, frames, entered}
use cage.Firecracker.Frames
use cage.Firecracker.Frames.{Writer, write_input, resize}
use cage.Firecracker.Frames.Sessions.{
  Input, types, resizes, Fits, send, send_one, send_one-Sent, typed, last_size,
  send-handle_shell_conn,
}
use cage.Firecracker.Frames.Sessions
use cage.Firecracker.Shell.{Link, given, firecracker_shell}
use cage.Guest.{handle_shell_conn}

-- The frames that the client sends.
abbrev chunk : List ℕ → List Message → List Message
chunk [] ms = ms
chunk (b ∷ bs) ms = binary (b ∷ bs) ∷ ms

abbrev sized : Result Error (ℕ × ℕ) → List Message → List Message
sized (err e) ms = ms
sized (ok (cols, rows)) ms = resize_message cols rows ∷ ms

abbrev messages : List Local → List Message
messages [] = []
messages (stdin bytes e ∷ ls) = chunk bytes (until e (messages ls))
messages (resized size ∷ ls) = sized size (messages ls)

write-sent :
    (m : Message) (ls : List Local) (c : Socket)
    → IsUp c
    → ((c' : Socket) → IsUp c' → (play ls c').sent ≡ c'.sent ++ messages ls)
    → (play ls (write m c).1).sent ≡ c.sent ++ m ∷ messages ls
write-sent m ls c up later =
    rw (up c.writes) (later _ up ∙ append_assoc c.sent (m ∷ []) (messages ls))

play-sent : (ls : List Local) (c : Socket) → IsUp c → (play ls c).sent ≡ c.sent ++ messages ls
unfolding play write_resize_message
play-sent [] c up = sym (append-nil _)
play-sent (stdin [] (some e) ∷ ls) c up = sym (append-nil _)
play-sent (stdin [] none ∷ ls) c up = play-sent ls c up
play-sent (stdin (b ∷ bs) (some e) ∷ ls) c up = rw (up c.writes) refl
play-sent (stdin (b ∷ bs) none ∷ ls) c up =
    rw (up c.writes) (play-sent ls _ up ∙ append_assoc c.sent (binary (b ∷ bs) ∷ []) (messages ls))
play-sent (resized (err e) ∷ ls) c up = play-sent ls c up
play-sent (resized (ok (cols, rows)) ∷ ls) c up =
    write-sent (resize_message cols rows) ls c up (play-sent ls)

-- What the server makes of a frame.
abbrev resizing : Option ResizeMessage → List Input → List Input
resizing none is = is
resizing (some m) is = if str_eq m.type "resize" then resizes m.cols m.rows ∷ is else is

abbrev with_message : Message → List Input → List Input
with_message (binary bytes) is = types bytes ∷ is
with_message (control m) is = resizing m is

abbrev inputs : List Message → List Input
inputs [] = []
inputs (m ∷ ms) = with_message m (inputs ms)

-- A Read of the client is into 4096 bytes.
abbrev pub IsSmall : Local → Type 0
IsSmall (stdin bytes e) = length bytes ≤ 4096
IsSmall (resized size) = Unit {0}

-- The size of the window where the server can read it: in 16 bits.
abbrev pub shown_size : ℕ → ℕ → Option (ℕ × ℕ) → Option (ℕ × ℕ)
shown_size cols rows before = if leb cols 65535 && leb rows 65535 then some (cols, rows) else before

-- The size that is sent last, up to stdin's first error.
abbrev pub window : Option (ℕ × ℕ) → List Local → Option (ℕ × ℕ)
window before [] = before
window before (stdin bytes (some e) ∷ ls) = before
window before (stdin bytes none ∷ ls) = window before ls
window before (resized (err e) ∷ ls) = window before ls
window before (resized (ok (cols, rows)) ∷ ls) = window (shown_size cols rows before) ls

-- What a session sends, as what it types, shows and keeps within bounds.
unfoldable Told : List Local → Option (ℕ × ℕ) → List Input → Type 0
Told ls before is = (typed is ≡ entered ls) × (last_size before is ≡ window before ls) × All Fits is

resized-Told :
    (cols rows : ℕ) (ls : List Local) (before : Option (ℕ × ℕ)) (is : List Input)
    → Told ls (shown_size cols rows before) is
    → Told (resized (ok (cols, rows)) ∷ ls) before (with_message (resize_message cols rows) is)
unfolding Told
resized-Told cols rows ls before is h = elim (Bool-cases (leb cols 65535 && leb rows 65535)) [
  | inl fits ↦
      let bounds : (cols < 2 ^ 16) × (rows < 2 ^ 16) = ground arith in
      let (same, size, fit) = h in rw fits (same, (rw fits at size), (bounds, fit))
  | inr large ↦ rw large (rw large at h)
]

inputs-Told :
    (ls : List Local) (before : Option (ℕ × ℕ))
    → All IsSmall ls
    → Told ls before (inputs (messages ls))
unfolding Told
inputs-Told [] before small = (refl, refl, tt)
inputs-Told (stdin [] (some e) ∷ ls) before small = (refl, refl, tt)
inputs-Told (stdin [] none ∷ ls) before small = inputs-Told ls before small.1
inputs-Told (stdin (b ∷ bs) (some e) ∷ ls) before small = (refl, refl, (omega arith, tt))
inputs-Told (stdin (b ∷ bs) none ∷ ls) before small =
    let (same, size, fit) = inputs-Told ls before small.1 in
    (ap (λ xs. (b ∷ bs) ++ xs) same, size, (omega arith, fit))
inputs-Told (resized (err e) ∷ ls) before small = inputs-Told ls before small.1
inputs-Told (resized (ok (cols, rows)) ∷ ls) before small =
    resized-Told cols rows ls before _ (inputs-Told ls (shown_size cols rows before) small.1)

given-writer :
    (r : Option (Result ReadError (List ℕ × Reader))) (l : Link) → (given r l).1.writer ≡ l.writer
given-writer none l = refl
given-writer (some (err e)) l = refl
given-writer (some (ok (bytes, rest))) l = refl

module _ (close : Exec Error Link (Unit {0})) where
  -- No step ends the session.
  abbrev pub GoesOn : List Event → Session Link → Type 0
  GoesOn [] s = Unit {0}
  GoesOn (e ∷ es) s =
      ((step (firecracker_shell close) e s).0 ≡ true)
      × GoesOn es (step (firecracker_shell close) e s).1

  read-writer : (n : ℕ) (l : Link) → ((firecracker_shell close).read n l).1.writer ≡ l.writer
  read-writer n l = given-writer (Frames.read (suc (length l.reader.bytes)) n l.reader) l

  bridge-writer :
      (es : List Event) (s : Session Link)
      → Sessions.IsUp s.backend.writer
      → GoesOn es s
      → (bridge (firecracker_shell close) es s).backend.writer
        ≡ (send (inputs (frames es)) s.backend.writer).1
  unfolding bridge
  bridge-writer [] s up on = refl
  bridge-writer (arrives (binary bytes) ∷ es) s up (on, more) =
      let (done, bytes', same) = send_one-Sent (types bytes) s.backend.writer up in
      rw (on, done) (bridge-writer es _ (λ n. rw same (up n)) more)
  bridge-writer (arrives (control none) ∷ es) s up (on, more) = bridge-writer es _ up more
  bridge-writer (arrives (control (some m)) ∷ es) s up (on, more) =
      elim (Bool-cases (str_eq m.type "resize")) [
        | inl sizes ↦
            let (done, bytes', same) = send_one-Sent (resizes m.cols m.rows) s.backend.writer up in
            rw sizes (rw done (bridge-writer es _ (λ n. rw same (up n)) (rw sizes at more)))
        | inr other ↦ rw other (bridge-writer es s up (rw other at more))
      ]
  bridge-writer (disconnects ∷ es) s up (on, more) = absurd (ground arith)
  bridge-writer (outputs taken ∷ es) s up (on, more) =
      let same = read-writer buffer_size s.backend in
      rw on (
        bridge-writer es _ (λ n. rw same (up n)) more
        ∙ ap (λ w. (send (inputs (frames es)) w).1) same)

  -- A shell session from the terminal of the command line client to the microVM. The frames of the
  -- session are what arrives at the server, between any outputs of the shell, and no step ends the
  -- session. Where the client's and the server's writes succeed and the Reads of stdin are of 4096
  -- bytes at most, the guest agent, which reads what the server has written until the connection
  -- ends or breaks, has given the PTY the bytes of stdin, in order and each once, up to stdin's first
  -- error, and has set the last of the window's sizes that 16 bits hold.
  pub session-handle_shell_conn :
      (size : Result Error (ℕ × ℕ)) (ls : List Local) (c : Socket) (es : List Event)
      (s : Session Link) (e : Option Error)
      → All IsSmall ls
      → IsUp c
      → c.sent ≡ []
      → Sessions.IsUp s.backend.writer
      → s.backend.writer.bytes ≡ []
      → frames es ≡ (session size ls c).sent
      → GoesOn es s
      → handle_shell_conn (record {
        bytes = (bridge (firecracker_shell close) es s).backend.writer.bytes;
        failure = e;
      })
        ≡ some (record { input = entered ls; size = window none (resized size ∷ ls) })
  unfolding session Told play
  session-handle_shell_conn size ls c es s e small up fresh wup empty delivered on =
      let sent : frames es ≡ messages (resized size ∷ ls) =
        delivered
        ∙ play-sent (resized size ∷ ls) c up
        ∙ ap (λ ms. ms ++ messages (resized size ∷ ls)) fresh in
      let (same, last, fit) = inputs-Told (resized size ∷ ls) none (tt, small) in
      let (done, received) =
        send-handle_shell_conn (inputs (messages (resized size ∷ ls))) s.backend.writer e fit wup
          empty in
      ap (λ w. handle_shell_conn (record { bytes = w.bytes; failure = e }))
        (bridge-writer es s wup on ∙ ap (λ ms. (send (inputs ms) s.backend.writer).1) sent)
      ∙ received
      ∙ rw (same, last) refl
