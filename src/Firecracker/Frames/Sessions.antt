-- ===== src/Firecracker/Frames/Sessions.antt =====
-- What the two ends of a shell connection tell each other.
use mathlib.Core.List.{append_assoc, append-nil}
use cage.Common.{
  ℕ, zero, suc, ◌^◌, ◌<◌, List, [], ◌∷◌, ◌++◌, ◌≡◌, refl, sym, ap, ◌∙◌, Option, none, some, false,
  ◌==◌, arith, length, length-append, take, All,
}
use cage.Common.Bytes.{put_uint16, uint32-put_uint32, uint16-put_uint16}
use cage.Common.Io.{read_full-append, read_full_short, short_read}
use cage.Common.Exec.{Exec, Error, Result, ok, err, pure, ◌>>◌}
use cage.Firecracker.Frames.{
  Writer, write, write_frame, write_input, resize, read_frame, read, frame_data, frame_resize,
  header, payload_length, read_payload,
}
use cage.Guest.{Pty, on_frame, shell_loop, handle_shell_conn}

-- Keystrokes and resizes of the host.
pub data Input : Type 0 where
  types : List ℕ → Input
  resizes : ℕ → ℕ → Input

abbrev pub Fits : Input → Type 0
Fits (types p) = length p < 2 ^ 32
Fits (resizes cols rows) = (cols < 2 ^ 16) × (rows < 2 ^ 16)

abbrev pub send_one : Input → Exec Error Writer (Unit {0})
send_one (types p) = write_input p >> pure tt
send_one (resizes cols rows) = resize cols rows

-- The host's calls, up to the first that fails.
abbrev pub send : List Input → Exec Error Writer (Unit {0})
send [] = pure tt
send (i ∷ is) = send_one i >> send is

-- What was typed, and the size that was set last.
abbrev pub typed : List Input → List ℕ
typed [] = []
typed (types p ∷ is) = p ++ typed is
typed (resizes cols rows ∷ is) = typed is

abbrev pub last_size : Option (ℕ × ℕ) → List Input → Option (ℕ × ℕ)
last_size s [] = s
last_size s (types p ∷ is) = last_size s is
last_size s (resizes cols rows ∷ is) = last_size (some (cols, rows)) is

abbrev pub frame : ℕ → List ℕ → List ℕ
frame typ payload = header typ payload ++ payload

abbrev pub frame_of : Input → List ℕ
frame_of (types p) = frame frame_data p
frame_of (resizes cols rows) = frame frame_resize (put_uint16 cols ++ put_uint16 rows)

abbrev frames : List Input → List ℕ
frames [] = []
frames (i ∷ is) = frame_of i ++ frames is

read_payload-append :
    (payload rest : List ℕ) (e : Option Error)
    → read_payload (length payload) (record { bytes = payload ++ rest; failure = e })
      ≡ ok (payload, record { bytes = rest; failure = e })
read_payload-append [] rest e = refl
read_payload-append (b ∷ bs) rest e =
    ground (arith, read_full-append (length (b ∷ bs)) (b ∷ bs) rest e refl)

-- readFrame takes off a stream the frame that writeFrame has put in front of it.
read_frame-frame :
    (typ : ℕ) (payload rest : List ℕ) (e : Option Error)
    → length payload < 2 ^ 32
    → read_frame (record { bytes = frame typ payload ++ rest; failure = e })
      ≡ ok ((typ, payload), record { bytes = rest; failure = e })
unfolding read_frame
read_frame-frame typ payload rest e fits =
    let size : payload_length (header typ payload) ≡ length payload =
      omega (arith, uint32-put_uint32 (length payload)) in
    rw
      (
        append_assoc (header typ payload) payload rest,
        read_full-append 5 (header typ payload) (payload ++ rest) e refl,
        size,
        read_payload-append payload rest e,
      )
      refl

-- Every Write of the connection succeeds.
abbrev pub IsUp : Writer → Type 0
IsUp w = (n : ℕ) → w.outage n ≡ none

abbrev pub Sent : List ℕ → Writer → Result Error (Unit {0}) × Writer → Type 0
Sent bs w (r, w') = (r ≡ ok tt) × (w'.bytes ≡ w.bytes ++ bs) × (w'.outage ≡ w.outage)

write_frame-Sent :
    (typ : ℕ) (payload : List ℕ) (w : Writer)
    → IsUp w
    → Sent (frame typ payload) w (write_frame typ payload w)
unfolding write_frame
write_frame-Sent typ [] w up =
    rw (up w.writes, write) (refl, ap (λ bs. w.bytes ++ bs) (append-nil (header typ [])), refl)
write_frame-Sent typ (b ∷ bs) w up =
    rw (up w.writes, write)
      (rw (up (suc w.writes)) (refl, append_assoc w.bytes (header typ (b ∷ bs)) (b ∷ bs), refl))

pub send_one-Sent : (i : Input) (w : Writer) → IsUp w → Sent (frame_of i) w (send_one i w)
unfolding write_input resize
send_one-Sent (types p) w up =
    let (done, bytes, same) = write_frame-Sent frame_data p w up in rw done (refl, bytes, same)
send_one-Sent (resizes cols rows) w up =
    write_frame-Sent frame_resize (put_uint16 cols ++ put_uint16 rows) w up

send-bytes :
    (is : List Input) (w : Writer)
    → IsUp w
    → ((send is w).0 ≡ ok tt) × ((send is w).1.bytes ≡ w.bytes ++ frames is)
send-bytes [] w up = (refl, sym (append-nil w.bytes))
send-bytes (i ∷ is) w up =
    let (done, bytes, same) = send_one-Sent i w up in
    let (rest, after) = send-bytes is (send_one i w).1 (λ n. rw same (up n)) in
    rw done (rest, after ∙ rw bytes (append_assoc w.bytes (frame_of i) (frames is)))

on_frame-resize :
    (cols rows : ℕ) (p : Pty)
    → cols < 2 ^ 16
    → rows < 2 ^ 16
    → on_frame frame_resize (put_uint16 cols ++ put_uint16 rows) p
      ≡ record p { size = some (cols, rows) }
on_frame-resize cols rows p c r = rw (uint16-put_uint16 cols c, uint16-put_uint16 rows r) refl

pub end_of_stream :
    (e : Option Error) → read_frame (record { bytes = []; failure = e }) ≡ err (short_read [] e)
unfolding read_frame
end_of_stream e = rw (read_full_short 5 (record { bytes = []; failure = e }) (omega arith)) refl

-- The guest takes frame by frame off the stream, and stops with it.
shell_loop-frames :
    (fuel : ℕ) (is : List Input) (p : Pty) (e : Option Error)
    → All Fits is
    → length (frames is) < fuel
    → shell_loop fuel p (record { bytes = frames is; failure = e })
      ≡ some (record { input = p.input ++ typed is; size = last_size p.size is })
unfolding shell_loop
shell_loop-frames zero is p e fits enough = absurd (omega arith)
shell_loop-frames (suc fuel) [] p e fits enough =
    rw (end_of_stream e, shell_loop, append-nil p.input) refl
shell_loop-frames (suc fuel) (types k ∷ is) p e fits enough =
    rw (read_frame-frame frame_data k (frames is) e fits.0, shell_loop)
      (shell_loop-frames fuel is (on_frame frame_data k p) e fits.1
          (omega (arith, length-append (header frame_data k ++ k) (frames is)))
        ∙ rw (append_assoc p.input k (typed is)) refl)
shell_loop-frames (suc fuel) (resizes cols rows ∷ is) p e fits enough =
    rw
      (
        read_frame-frame frame_resize (put_uint16 cols ++ put_uint16 rows) (frames is) e
            (omega arith),
        on_frame-resize cols rows p fits.0.0 fits.0.1,
        shell_loop,
      )
      (shell_loop-frames fuel is (record p { size = some (cols, rows) }) e fits.1
        (omega (arith, length-append (frame_of (resizes cols rows)) (frames is))))

-- What the host sends in a session is what the guest's shell is given: on a connection whose writes
-- succeed, with inputs shorter than 2^32 bytes and sizes below 2^16, every call of the host
-- succeeds, and the guest, which reads these bytes until the connection ends or breaks, has written
-- everything typed to its PTY, in order, and has set the size that was sent last.
pub send-handle_shell_conn :
    (is : List Input) (w : Writer) (e : Option Error)
    → All Fits is
    → IsUp w
    → w.bytes ≡ []
    → ((send is w).0 ≡ ok tt)
      × (handle_shell_conn (record { bytes = (send is w).1.bytes; failure = e })
          ≡ some (record { input = typed is; size = last_size none is }))
unfolding handle_shell_conn
send-handle_shell_conn is w e fits up fresh =
    let (done, bytes) = send-bytes is w up in
    (
      done,
      rw (bytes, fresh)
          (shell_loop-frames (suc (length (frames is))) is (record { input = []; size = none }) e
            fits (omega arith)),
    )

-- Frames of other types than data, as the guest may send them.
abbrev pub junk : List (ℕ × List ℕ) → List ℕ
junk [] = []
junk ((typ, payload) ∷ fs) = frame typ payload ++ junk fs

abbrev pub IsJunk : ℕ × List ℕ → Type 0
IsJunk (typ, payload) = (typ == frame_data ≡ false) × (length payload < 2 ^ 32)

-- Read skips every frame in front of a data frame, and returns the part of its payload that fits
-- the buffer; whatever of the payload does not fit is taken off the connection and lost. A fuel
-- above the number of skipped frames is enough.
pub read-junk :
    (fuel n : ℕ) (fs : List (ℕ × List ℕ)) (payload rest : List ℕ) (e : Option Error)
    → All IsJunk fs
    → length payload < 2 ^ 32
    → length fs < fuel
    → read fuel n (record { bytes = junk fs ++ (frame frame_data payload ++ rest); failure = e })
      ≡ some (ok (take n payload, record { bytes = rest; failure = e }))
unfolding read
read-junk zero n fs payload rest e skip fits enough = absurd (omega arith)
read-junk (suc fuel) n [] payload rest e skip fits enough =
    rw (read_frame-frame frame_data payload rest e fits, read) refl
read-junk (suc fuel) n ((typ, p) ∷ fs) payload rest e skip fits enough =
    rw
      (
        append_assoc p (junk fs) (frame frame_data payload ++ rest),
        read_frame-frame typ p (junk fs ++ (frame frame_data payload ++ rest)) e skip.0.1,
        read,
        skip.0.0,
      )
      (read-junk fuel n fs payload rest e skip.1 fits (omega arith))
