-- ===== src/Cli/Typing.antt =====
-- cli/cmd/shell.go against the bridge of internal/api/shell.go: what is typed at the terminal.
use mathlib.Core.List.{append-nil, append_assoc}
use cage.Common.{
  ℕ, List, [], ◌∷◌, ◌++◌, none, some, true, false, ◌≡◌, refl, sym, ap, ◌∙◌, arith, All,
}
use cage.Common.Io.{until}
use cage.Common.Exec.{Error, Result, ok, err}
use cage.Backend.{Shell}
use cage.Api.Shell.{
  Message, binary, control, Event, arrives, disconnects, outputs, Session, bridge, step, goes_on,
  buffer_size,
}
use cage.Api.Shell.Keystrokes.{IsAttentive, control-input}
use cage.Cli.Shell.{
  Socket, Local, stdin, resized, resize_message, write_resize_message, send_resize, put_input, play,
  session,
}

-- The frames among what the server's loops find.
abbrev pub frames : List Event → List Message
frames [] = []
frames (arrives m ∷ es) = m ∷ frames es
frames (disconnects ∷ es) = frames es
frames (outputs taken ∷ es) = frames es

-- The client stays, and takes what it is sent.
abbrev pub Stays : Event → Type 0
Stays (arrives m) = Unit {0}
Stays disconnects = true ≡ false
Stays (outputs taken) = taken ≡ true

-- What is typed, up to stdin's first error.
abbrev pub entered : List Local → List ℕ
entered [] = []
entered (stdin bytes e ∷ ls) = bytes ++ until e (entered ls)
entered (resized size ∷ ls) = entered ls

abbrev carried : List Message → List ℕ
carried [] = []
carried (binary bytes ∷ ms) = bytes ++ carried ms
carried (control m ∷ ms) = carried ms

-- Every Write of the connection succeeds.
abbrev pub IsUp : Socket → Type 0
IsUp c = (n : ℕ) → c.outage n ≡ none

carried-append : (ms ns : List Message) → carried (ms ++ ns) ≡ carried ms ++ carried ns
carried-append [] ns = refl
carried-append (binary bytes ∷ ms) ns =
    ap (λ bs. bytes ++ bs) (carried-append ms ns)
    ∙ sym (append_assoc bytes (carried ms) (carried ns))
carried-append (control m ∷ ms) ns = carried-append ms ns

abbrev Carries : List ℕ → Socket → Socket → Type 0
Carries bs c c' = (carried c'.sent ≡ carried c.sent ++ bs) × (c'.outage ≡ c.outage)

send_resize-Carries :
    (size : Result Error (ℕ × ℕ)) (c : Socket) → IsUp c → Carries [] c (send_resize size c)
unfolding write_resize_message
send_resize-Carries (err e) c up = (sym (append-nil _), refl)
send_resize-Carries (ok (cols, rows)) c up = ground (
  arith,
  up c.writes,
  carried-append c.sent (resize_message cols rows ∷ []),
  append-nil (carried c.sent),
)

put_input-Carries :
    (bytes : List ℕ) (c : Socket)
    → IsUp c
    → ((put_input bytes c).0 ≡ ok tt) × Carries bytes c (put_input bytes c).1
put_input-Carries [] c up = (refl, (sym (append-nil _), refl))
put_input-Carries (b ∷ bs) c up = rw (up c.writes) (
  refl,
  (
    carried-append c.sent (binary (b ∷ bs) ∷ [])
        ∙ ap (λ xs. carried c.sent ++ xs) (append-nil (b ∷ bs)),
    refl,
  ),
)

play-carried :
    (ls : List Local) (c : Socket)
    → IsUp c
    → carried (play ls c).sent ≡ carried c.sent ++ entered ls
unfolding play
play-carried [] c up = sym (append-nil _)
play-carried (stdin bytes (some e) ∷ ls) c up =
    let (done, (same, kept)) = put_input-Carries bytes c up in
    rw done (same ∙ ap (λ bs. carried c.sent ++ bs) (sym (append-nil bytes)))
play-carried (stdin bytes none ∷ ls) c up =
    let (done, (same, kept)) = put_input-Carries bytes c up in
    rw done (
      play-carried ls (put_input bytes c).1 (λ n. rw kept (up n))
      ∙ rw same (append_assoc (carried c.sent) bytes (entered ls)))
play-carried (resized size ∷ ls) c up =
    let (same, kept) = send_resize-Carries size c up in
    play-carried ls (send_resize size c) (λ n. rw kept (up n))
    ∙ ap (λ bs. bs ++ entered ls) (same ∙ append-nil (carried c.sent))

module _ {B : Type 0} (shell : Shell B) (h : IsAttentive shell)
    (accepts : (bytes : List ℕ) (b : B) → (shell.write bytes b).0 ≡ ok tt)
    (streams : (n : ℕ) (b : B) → (shell.read n b).0.1 ≡ none) where
  output_goes_on : (bytes : List ℕ) → goes_on shell true bytes none ≡ true
  output_goes_on [] = refl
  output_goes_on (x ∷ xs) = refl

  step_goes_on : (e : Event) (s : Session B) → Stays e → (step shell e s).0 ≡ true
  step_goes_on (arrives (binary bytes)) s stays = rw (accepts bytes s.backend) refl
  step_goes_on (arrives (control m)) s stays = refl
  step_goes_on disconnects s stays = absurd (ground arith)
  step_goes_on (outputs taken) s stays =
      rw (stays, streams buffer_size s.backend)
        (output_goes_on (shell.read buffer_size s.backend).0.0)

  bridge-carried :
      (es : List Event) (s : Session B)
      → All Stays es
      → h.input (bridge shell es s).backend ≡ h.input s.backend ++ carried (frames es)
  unfolding bridge
  bridge-carried [] s stay = sym (append-nil _)
  bridge-carried (arrives (binary bytes) ∷ es) s stay =
      rw (step_goes_on (arrives (binary bytes)) s stay.0) (
        bridge-carried es (step shell (arrives (binary bytes)) s).1 stay.1
        ∙ rw (h.writes bytes s.backend)
            (append_assoc (h.input s.backend) bytes (carried (frames es))))
  bridge-carried (arrives (control m) ∷ es) s stay =
      bridge-carried es (step shell (arrives (control m)) s).1 stay.1
      ∙ ap (λ bs. bs ++ carried (frames es)) (control-input shell h m s.backend)
  bridge-carried (disconnects ∷ es) s stay = absurd (ground arith)
  bridge-carried (outputs taken ∷ es) s stay = rw (step_goes_on (outputs taken) s stay.0) (
      bridge-carried es (step shell (outputs taken) s).1 stay.1
      ∙ ap (λ bs. bs ++ carried (frames es)) (h.reads buffer_size s.backend))

  -- What is typed at the terminal of the command line client reaches the sandbox's shell. The frames
  -- of the session are what arrives at the server, between any outputs of the shell. Where every
  -- write to the connection succeeds, the shell takes every byte and its output does not end, and
  -- the client stays and takes that output, the shell has been given the bytes of stdin, in order and
  -- each once, up to stdin's first error.
  pub session-input :
      (size : Result Error (ℕ × ℕ)) (ls : List Local) (c : Socket) (es : List Event) (s : Session B)
      → IsUp c
      → c.sent ≡ []
      → All Stays es
      → frames es ≡ (session size ls c).sent
      → h.input (bridge shell es s).backend ≡ h.input s.backend ++ entered ls
  unfolding session
  session-input size ls c es s up fresh stay delivered =
      let (same, kept) = send_resize-Carries size c up in
      let empty : carried c.sent ++ [] ≡ [] = rw fresh refl in
      bridge-carried es s stay
      ∙ ap (λ ms. h.input s.backend ++ carried ms) delivered
      ∙ ap (λ bs. h.input s.backend ++ bs)
          (play-carried ls (send_resize size c) (λ n. rw kept (up n))
            ∙ ap (λ bs. bs ++ entered ls) (same ∙ empty))
