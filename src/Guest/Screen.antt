-- ===== src/Guest/Screen.antt =====
-- guest-agent/main.go and internal/firecracker/shell.go: what the guest's PTY writes is what the
-- host's FirecrackerShell reads.
use mathlib.Core.List.{append_assoc, append-nil}
use cage.Common.{
  ℕ, zero, suc, ◌<◌, ◌≤◌, List, [], ◌∷◌, ◌++◌, ◌≡◌, refl, sym, ap, ◌∙◌, Option, none, some, arith,
  length, take, All,
}
use cage.Common.Io.{Reader, ReadError, short_read, until}
use cage.Common.Exec.{Error, Result, ok, err}
use cage.Firecracker.Frames.{Writer, write, header, frame_data, read}
use cage.Firecracker.Frames.Sessions.{IsUp, Sent, frame, end_of_stream, read-junk}
use cage.Guest.Output.{PtyRead, write_frame, put_output, pump}

abbrev on_screen : List ℕ → Option (List ℕ) → Option (List ℕ)
on_screen bytes none = none
on_screen bytes (some more) = some (bytes ++ more)

abbrev after_read :
    Option (Result ReadError (List ℕ × Reader)) → (Reader → Option (List ℕ)) → Option (List ℕ)
after_read none more = none
after_read (some (err e)) more = some []
after_read (some (ok (bytes, rest))) more = on_screen bytes (more rest)

-- The host's reads, each into a buffer of `n` bytes, until one fails; on fuel.
unfoldable pub read_all : ℕ → ℕ → Reader → Option (List ℕ)
read_all zero n r = none
read_all (suc fuel) n r = after_read (read (suc (length r.bytes)) n r) (read_all fuel n)

-- What the PTY gave, up to its first error.
abbrev pub output : List PtyRead → List ℕ
output [] = []
output ((bytes, e) ∷ reads) = bytes ++ until e (output reads)

-- A Read of the agent is into 4096 bytes.
abbrev pub Fits : PtyRead → Type 0
Fits (bytes, e) = length bytes ≤ 4096

abbrev chunk : List ℕ → List ℕ
chunk [] = []
chunk (b ∷ bs) = frame frame_data (b ∷ bs)

abbrev shown : List PtyRead → List ℕ
shown [] = []
shown ((bytes, e) ∷ reads) = chunk bytes ++ until e (shown reads)

put_output-Sent : (bytes : List ℕ) (w : Writer) → IsUp w → Sent (chunk bytes) w (put_output bytes w)
unfolding write_frame
put_output-Sent [] w up = (refl, sym (append-nil w.bytes), refl)
put_output-Sent (b ∷ bs) w up =
    rw (up w.writes, write)
      (rw (up (suc w.writes))
        (refl, append_assoc w.bytes (header frame_data (b ∷ bs)) (b ∷ bs), refl))

pump-bytes :
    (reads : List PtyRead) (w : Writer) → IsUp w → (pump reads w).bytes ≡ w.bytes ++ shown reads
unfolding pump
pump-bytes [] w up = sym (append-nil w.bytes)
pump-bytes ((bytes, some e) ∷ reads) w up =
    let (done, same, _) = put_output-Sent bytes w up in
    rw done (same ∙ ap (λ bs. w.bytes ++ bs) (sym (append-nil (chunk bytes))))
pump-bytes ((bytes, none) ∷ reads) w up =
    let (done, same, kept) = put_output-Sent bytes w up in
    rw done (
      pump-bytes reads (put_output bytes w).1 (λ n. rw kept (up n))
      ∙ rw same (append_assoc w.bytes (chunk bytes) (shown reads)))

abbrev stream : List ℕ → Option Error → Reader
stream bytes e = record { bytes = bytes; failure = e }

take_all : (n : ℕ) (xs : List ℕ) → length xs ≤ n → take n xs ≡ xs
take_all zero [] h = refl
take_all (suc n) [] h = refl
take_all zero (x ∷ xs) h = absurd (omega arith)
take_all (suc n) (x ∷ xs) h = ap (λ ys. x ∷ ys) (take_all n xs (omega arith))

-- A Read takes one frame, and all that it holds.
read_all-frame :
    (fuel n : ℕ) (bytes rest : List ℕ) (e : Option Error)
    → length bytes ≤ 4096
    → 4096 ≤ n
    → read_all (suc fuel) n (stream (frame frame_data bytes ++ rest) e)
      ≡ on_screen bytes (read_all fuel n (stream rest e))
unfolding read_all
read_all-frame fuel n bytes rest e fits room =
    ap (λ r. after_read r (read_all fuel n))
      (read-junk (suc (length (frame frame_data bytes ++ rest))) n [] bytes rest e tt (omega arith)
        (omega arith))
    ∙ ap (λ bs. on_screen bs (read_all fuel n (stream rest e))) (take_all n bytes (omega arith))

read_end : (n : ℕ) (e : Option Error) → read 1 n (stream [] e) ≡ some (err (short_read [] e))
unfolding read
read_end n e = rw (end_of_stream e, read) refl

read_all-end : (fuel n : ℕ) (e : Option Error) → read_all (suc fuel) n (stream [] e) ≡ some []
unfolding read_all
read_all-end fuel n e = ap (λ r. after_read r (read_all fuel n)) (read_end n e)

read_all-shown :
    (fuel n : ℕ) (reads : List PtyRead) (e : Option Error)
    → All Fits reads
    → 4096 ≤ n
    → length reads < fuel
    → read_all fuel n (stream (shown reads) e) ≡ some (output reads)
read_all-shown zero n reads e fits room enough = absurd (omega arith)
read_all-shown (suc fuel) n [] e fits room enough = read_all-end fuel n e
read_all-shown (suc fuel) n (([], some x) ∷ reads) e fits room enough = read_all-end fuel n e
read_all-shown (suc fuel) n (([], none) ∷ reads) e fits room enough =
    read_all-shown (suc fuel) n reads e fits.1 room (omega arith)
read_all-shown (suc zero) n ((b ∷ bs, x) ∷ reads) e fits room enough = absurd (omega arith)
read_all-shown (suc (suc fuel)) n ((b ∷ bs, some x) ∷ reads) e fits room enough =
    read_all-frame (suc fuel) n (b ∷ bs) [] e fits.0 room ∙ rw (read_all-end fuel n e) refl
read_all-shown (suc (suc fuel)) n ((b ∷ bs, none) ∷ reads) e fits room enough =
    read_all-frame (suc fuel) n (b ∷ bs) (shown reads) e fits.0 room
    ∙ rw (read_all-shown (suc fuel) n reads e fits.1 room (omega arith)) refl

-- What the guest's PTY gives is what the host reads: on a connection whose writes succeed, with reads
-- of the PTY of 4096 bytes at most and a buffer of the host that is no smaller, the host's Reads,
-- until the connection ends or breaks, give every byte up to the PTY's first error, in order; more
-- Reads than the PTY's are never needed, beside the one that meets the end.
pub pump-read_all :
    (fuel n : ℕ) (reads : List PtyRead) (w : Writer) (e : Option Error)
    → All Fits reads
    → 4096 ≤ n
    → IsUp w
    → w.bytes ≡ []
    → length reads < fuel
    → read_all fuel n (record { bytes = (pump reads w).bytes; failure = e }) ≡ some (output reads)
pump-read_all fuel n reads w e fits room up fresh enough =
    rw (pump-bytes reads w up, fresh) (read_all-shown fuel n reads e fits room enough)
