-- ===== src/Docker/Stream/Demux.antt =====
-- demuxOutput against Docker's documented stream format.
use cage.Common.{
  ℕ, zero, suc, ◌^◌, ◌<◌, ◌≤◌, ◌≡◌, refl, ap, ◌∙◌, List, [], ◌∷◌, ◌++◌, Option, none, some, arith,
  length, length-append, All, ◌⊎◌, inl, inr, ◌==◌, if◌then◌else◌,
}
use mathlib.Core.List.{append_assoc, append-nil}
use cage.Common.Bytes.{put_uint32, uint32-put_uint32}
use cage.Common.Io.{
  Reader, ReadError, eof, unexpected_eof, broken, read_full, read_full-append, read_full_short,
  read_full_takes,
}
use cage.Common.Exec.{Error, Result, ok, err}
use cage.Docker.Stream.{
  Output, deliver, Round, next, done, round, after_payload, after_header, demux_loop, demux_output,
  payload_size,
}

pub record Frame : Type 0 where
  pub stream : ℕ
  pub payload : List ℕ

abbrev pub Fits : Frame → Type 0
Fits f = length f.payload < 2 ^ 32

abbrev pub header_of : Frame → List ℕ
header_of f = f.stream ∷ 0 ∷ 0 ∷ 0 ∷ put_uint32 (length f.payload)

-- The bytes that the daemon writes for a list of frames.
abbrev pub encode : List Frame → List ℕ
encode [] = []
encode (f ∷ fs) = header_of f ++ f.payload ++ encode fs

-- What was written to one of the streams.
abbrev pub written : ℕ → List Frame → List ℕ
written t [] = []
written t (f ∷ fs) = if f.stream == t then f.payload ++ written t fs else written t fs

abbrev deliver_all : List Frame → Output → Output
deliver_all [] o = o
deliver_all (f ∷ fs) o = deliver_all fs (deliver f.stream f.payload o)

deliver_all-written :
    (fs : List Frame) (o : Output)
    → deliver_all fs o
      ≡ record { stdout = o.stdout ++ written 1 fs; stderr = o.stderr ++ written 2 fs }
deliver_all-written [] o = ground (arith, append-nil o.stdout, append-nil o.stderr)
deliver_all-written (f ∷ fs) o = ground (
  arith,
  deliver_all-written fs (deliver f.stream f.payload o),
  append_assoc o.stdout f.payload (written 1 fs),
  append_assoc o.stderr f.payload (written 2 fs),
)

round-frame :
    (f : Frame) (rest : List ℕ) (e : Option Error) (o : Output)
    → Fits f
    → round o (record { bytes = header_of f ++ f.payload ++ rest; failure = e })
      ≡ next (deliver f.stream f.payload o) (record { bytes = rest; failure = e })
unfolding round
round-frame f rest e o h = ground (
  arith,
  read_full-append 8 (header_of f) (f.payload ++ rest) e refl,
  read_full-append (payload_size (header_of f)) f.payload rest e,
  uint32-put_uint32 (length f.payload),
)

-- The frames in front of a stream are taken off it, with fuel left for the rest.
demux_loop-encode :
    (fuel : ℕ) (fs : List Frame) (rest : List ℕ) (e : Option Error) (o : Output)
    → All Fits fs
    → length (encode fs ++ rest) < fuel
    → (fuel' : ℕ) × (length rest < fuel')
      × (demux_loop fuel o (record { bytes = encode fs ++ rest; failure = e })
          ≡ demux_loop fuel' (deliver_all fs o) (record { bytes = rest; failure = e }))
unfolding demux_loop
demux_loop-encode fuel [] rest e o h enough = (fuel, enough, refl)
demux_loop-encode zero (f ∷ fs) rest e o h enough = absurd (omega arith)
demux_loop-encode (suc fuel) (f ∷ fs) rest e o h enough =
    let inner = append_assoc f.payload (encode fs) rest in
    let shorter : length (encode fs ++ rest) < fuel =
      omega (arith, ap (length {A = ℕ}) inner, length-append f.payload (encode fs ++ rest)) in
    let (fuel', left, same) =
      demux_loop-encode fuel fs rest e (deliver f.stream f.payload o) h.1 shorter in
    (fuel', left, rw (inner, round-frame f (encode fs ++ rest) e o h.0, demux_loop) same)

end_of_stream : (o : Output) → round o (record { bytes = []; failure = none }) ≡ done (ok o)
unfolding round
end_of_stream o =
    rw (read_full_short 8 (record { bytes = []; failure = none }) (omega arith), round)

cut_header :
    (o : Output) (b : ℕ) (bs : List ℕ)
    → length (b ∷ bs) < 8
    → round o (record { bytes = b ∷ bs; failure = none }) ≡ done (err unexpected_eof)
unfolding round
cut_header o b bs h = rw (read_full_short 8 (record { bytes = b ∷ bs; failure = none }) h, round)

failed_stream :
    (o : Output) (bs : List ℕ) (e : Error)
    → length bs < 8
    → round o (record { bytes = bs; failure = some e }) ≡ done (err (broken e))
unfolding round
failed_stream o bs e h = rw (read_full_short 8 (record { bytes = bs; failure = some e }) h, round)

demux_loop-done :
    (fuel : ℕ) (o : Output) (r : Reader) (result : Result ReadError Output)
    → 0 < fuel
    → round o r ≡ done result
    → demux_loop fuel o r ≡ some result
unfolding demux_loop
demux_loop-done zero o r result h e = absurd (omega arith)
demux_loop-done (suc fuel) o r result h e = rw (e, demux_loop)

abbrev no_output : Output
no_output = record { stdout = []; stderr = [] }

-- How a stream ends after its frames decides what the loop returns.
demux_output-ends :
    (fs : List Frame) (rest : List ℕ) (e : Option Error) (result : Result ReadError Output)
    → All Fits fs
    → round (deliver_all fs no_output) (record { bytes = rest; failure = e }) ≡ done result
    → demux_output (record { bytes = encode fs ++ rest; failure = e }) ≡ some result
unfolding demux_output
demux_output-ends fs rest e result h ends =
    let (fuel, left, same) =
      demux_loop-encode (suc (length (encode fs ++ rest))) fs rest e no_output h (omega arith) in
    same ∙ demux_loop-done fuel _ _ result (omega arith) ends

-- For frames whose payloads are shorter than 2^32 bytes, a stream that ends with them is split into
-- the payloads of type 1 and those of type 2, in order, and frames of other types are dropped.
pub demux_output-encode :
    (fs : List Frame)
    → All Fits fs
    → demux_output (record { bytes = encode fs; failure = none })
      ≡ some (ok (record { stdout = written 1 fs; stderr = written 2 fs }))
demux_output-encode fs h =
    rw (← append-nil (encode fs))
      (demux_output-ends fs [] none _ h (rw (end_of_stream, deliver_all-written fs no_output)))

-- After whole frames, a stream that ends inside the next header is an unexpected end of file, and
-- one that breaks there is the error of the stream: no output of the frames is returned.
pub demux_output_cut :
    (fs : List Frame) (b : ℕ) (bs : List ℕ) (e : Error)
    → All Fits fs
    → length (b ∷ bs) < 8
    → (demux_output (record { bytes = encode fs ++ b ∷ bs; failure = none })
        ≡ some (err unexpected_eof))
      × (demux_output (record { bytes = encode fs ++ b ∷ bs; failure = some e })
          ≡ some (err (broken e)))
demux_output_cut fs b bs e h short = (
  demux_output-ends fs (b ∷ bs) none _ h (cut_header _ b bs short),
  demux_output-ends fs (b ∷ bs) (some e) _ h (failed_stream _ (b ∷ bs) e short),
)

Round-cases :
    (x : Round)
    → ((result : Result ReadError Output) × (x ≡ done result))
      ⊎ ((o : Output) × (r : Reader) × (x ≡ next o r))
Round-cases (done result) = inl (result, refl)
Round-cases (next o r) = inr (o, r, refl)

-- A round takes at least its header.
after_payload_shrinks :
    (header : List ℕ) (o o' : Output) (r r' : Reader) (n : ℕ)
    (read : Result ReadError (List ℕ × Reader))
    → read_full n r ≡ read
    → after_payload header o read ≡ next o' r'
    → length r'.bytes ≤ length r.bytes
after_payload_shrinks header o o' r r' n (err x) e h = cc
after_payload_shrinks header o o' r r' n (ok (payload, rest)) e h =
    ground (arith, read_full_takes n r rest payload e)

after_header_shrinks :
    (o o' : Output) (r r' : Reader) (read : Result ReadError (List ℕ × Reader))
    → read_full 8 r ≡ read
    → after_header o read ≡ next o' r'
    → length r'.bytes < length r.bytes
after_header_shrinks o o' r r' (err eof) e h = cc
after_header_shrinks o o' r r' (err unexpected_eof) e h = cc
after_header_shrinks o o' r r' (err (broken x)) e h = cc
after_header_shrinks o o' r r' (ok (header, rest)) e h = omega (
  arith,
  read_full_takes 8 r rest header e,
  after_payload_shrinks header o o' rest r' (payload_size header) _ refl h,
)

round_shrinks :
    (o o' : Output) (r r' : Reader) → round o r ≡ next o' r' → length r'.bytes < length r.bytes
unfolding round
round_shrinks o o' r r' e = after_header_shrinks o o' r r' (read_full 8 r) refl e

demux_loop_total :
    (fuel : ℕ) (o : Output) (r : Reader)
    → length r.bytes < fuel
    → (result : Result ReadError Output) × (demux_loop fuel o r ≡ some result)
unfolding demux_loop
demux_loop_total zero o r h = absurd (omega arith)
demux_loop_total (suc fuel) o r h = elim (Round-cases (round o r)) [
  | inl (result, e) ↦ (result, rw (e, demux_loop))
  | inr (o', r', e) ↦
      let (result, same) = demux_loop_total fuel o' r' (omega (arith, round_shrinks o o' r r' e)) in
      (result, rw (e, demux_loop) same)
]

-- Every stream is read to a result: the fuel of the model never runs out.
pub demux_output_total :
    (r : Reader) → (result : Result ReadError Output) × (demux_output r ≡ some result)
unfolding demux_output
demux_output_total r = demux_loop_total (suc (length r.bytes)) no_output r (omega arith)
