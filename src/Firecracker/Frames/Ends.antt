-- ===== src/Firecracker/Frames/Ends.antt =====
-- The loops over frames end: each round takes a header off the stream.
use cage.Common.{
  ℕ, zero, suc, ◌≤◌, ◌<◌, List, ◌≡◌, refl, some, Bool-cases, inl, inr, arith, length, take, ltb,
  ◌==◌,
}
use cage.Common.Io.{Reader, ReadError, read_full, read_full_takes}
use cage.Common.Exec.{Result, ok, err, Result-cases}
use cage.Firecracker.Frames.{
  read_frame, read, frame_data, after_header, read_payload, with_type, frame_type, payload_length,
}
use cage.Guest.{Pty, on_frame, shell_loop, handle_shell_conn}

payload_takes :
    (n : ℕ) (r rest : Reader) (xs : List ℕ)
    → read_payload n r ≡ ok (xs, rest)
    → length rest.bytes ≤ length r.bytes
payload_takes n r rest xs h = elim (Bool-cases (ltb 0 n)) [
  | inl some_bytes ↦ omega (arith, read_full_takes n r rest xs (rw some_bytes at h))
  | inr empty ↦ ground (arith, rw empty at h)
]

with_type_takes :
    (typ t n : ℕ) (p : List ℕ) (r rest : Reader) (read : Result ReadError (List ℕ × Reader))
    → read_payload n r ≡ read
    → with_type typ read ≡ ok ((t, p), rest)
    → length rest.bytes ≤ length r.bytes
with_type_takes typ t n p r rest (err e) h g = cc
with_type_takes typ t n p r rest (ok (xs, s)) h g = ground (arith, payload_takes n r s xs h)

after_header_takes :
    (t : ℕ) (p : List ℕ) (r rest : Reader) (read : Result ReadError (List ℕ × Reader))
    → read_full 5 r ≡ read
    → after_header read ≡ ok ((t, p), rest)
    → length rest.bytes < length r.bytes
after_header_takes t p r rest (err e) h g = cc
after_header_takes t p r rest (ok (xs, s)) h g = omega (
  arith,
  read_full_takes 5 r s xs h,
  with_type_takes (frame_type xs) t (payload_length xs) p s rest _ refl g,
)

read_frame_takes :
    (t : ℕ) (p : List ℕ) (r rest : Reader)
    → read_frame r ≡ ok ((t, p), rest)
    → length rest.bytes < length r.bytes
unfolding read_frame
read_frame_takes t p r rest h = after_header_takes t p r rest (read_full 5 r) refl h

shell_loop_total :
    (fuel : ℕ) (p : Pty) (r : Reader)
    → length r.bytes < fuel
    → (p' : Pty) × (shell_loop fuel p r ≡ some p')
unfolding shell_loop
shell_loop_total zero p r h = absurd (omega arith)
shell_loop_total (suc fuel) p r h = elim (Result-cases (read_frame r)) [
  | inr (e, stop) ↦ (p, rw (stop, shell_loop) refl)
  | inl (((t, bs), rest), go) ↦
      let (p', same) =
        shell_loop_total fuel (on_frame t bs p) rest
          (omega (arith, read_frame_takes t bs r rest go)) in
      (p', rw (go, shell_loop) same)
]

-- The guest's loop ends on every stream: its fuel never runs out.
pub handle_shell_conn_total : (r : Reader) → (p : Pty) × (handle_shell_conn r ≡ some p)
unfolding handle_shell_conn
handle_shell_conn_total r = shell_loop_total (suc (length r.bytes)) _ r (omega arith)

-- Read returns on every stream that ends, with fuel above the bytes that are left.
pub read_total :
    (fuel n : ℕ) (r : Reader)
    → length r.bytes < fuel
    → (x : Result ReadError (List ℕ × Reader)) × (read fuel n r ≡ some x)
unfolding read
read_total zero n r h = absurd (omega arith)
read_total (suc fuel) n r h = elim (Result-cases (read_frame r)) [
  | inr (e, stop) ↦ (err e, rw (stop, read) refl)
  | inl (((t, bs), rest), go) ↦
      let (x, same) = read_total fuel n rest (omega (arith, read_frame_takes t bs r rest go)) in
      elim (Bool-cases (t == frame_data)) [
        | inl data_frame ↦ (ok (take n bs, rest), rw (go, read, data_frame) refl)
        | inr other ↦ (x, rw (go, read, other) same)
      ]
]
