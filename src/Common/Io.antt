-- ===== src/Common/Io.antt =====
-- Go's io.Reader as the bytes that it still gives and the error, if any, that comes instead of
-- the end of the stream; and io.ReadFull over it.
use Prim.Native.Nat.{ℕ, zero, suc, ◌+◌, ◌<◌}
use mathlib.Core.Path.{◌≡◌, refl, ap}
use mathlib.Core.Option.{Option, none, some}
use mathlib.Core.List.{List, [], ◌∷◌, ◌++◌}
use native.Mathlib.Omega.{arith}
use cage.Common.Tests.{leb, if◌then◌else◌}
use cage.Common.Lists.{length, take, drop, length-append, length-drop}
use cage.Common.Exec.{Error, Result, ok, err}

pub record Reader : Type 0 where
  pub bytes : List ℕ
  pub failure : Option Error

-- What follows a Read: nothing, where it gave an error.
abbrev pub until {ℓ} : {A : Type ℓ} → Option Error → List A → List A
until none more = more
until (some e) more = []

-- io.EOF, io.ErrUnexpectedEOF, and any other error of the stream.
pub data ReadError : Type 0 where
  eof unexpected_eof : ReadError
  broken : Error → ReadError

abbrev pub short_read : List ℕ → Option Error → ReadError
short_read bytes (some e) = broken e
short_read [] none = eof
short_read (b ∷ bytes) none = unexpected_eof

-- io.ReadFull into a buffer of n bytes.
unfoldable pub read_full : ℕ → Reader → Result ReadError (List ℕ × Reader)
read_full n r =
    if leb n (length r.bytes)
    then ok (take n r.bytes, record r { bytes = drop n r.bytes })
    else err (short_read r.bytes r.failure)

pub take-append : {n : ℕ} (xs ys : List ℕ) → length xs ≡ n → take n (xs ++ ys) ≡ xs
take-append {n = zero} [] ys h = refl
take-append {n = suc n} [] ys h = absurd (omega arith)
take-append {n = zero} (x ∷ xs) ys h = absurd (omega arith)
take-append {n = suc n} (x ∷ xs) ys h = ap (◌∷◌ x) (take-append {n = n} xs ys (omega arith))

pub drop-append : {n : ℕ} (xs ys : List ℕ) → length xs ≡ n → drop n (xs ++ ys) ≡ ys
drop-append {n = zero} [] ys h = refl
drop-append {n = suc n} [] ys h = absurd (omega arith)
drop-append {n = zero} (x ∷ xs) ys h = absurd (omega arith)
drop-append {n = suc n} (x ∷ xs) ys h = drop-append {n = n} xs ys (omega arith)

-- A full read of what stands in front of a stream.
pub read_full-append :
    (n : ℕ) (xs ys : List ℕ) (f : Option Error)
    → length xs ≡ n
    → read_full n (record { bytes = xs ++ ys; failure = f })
      ≡ ok (xs, record { bytes = ys; failure = f })
unfolding read_full
read_full-append n xs ys f h =
    ground (arith, length-append xs ys, take-append xs ys h, drop-append xs ys h)

-- A read past the end reports how the stream ended.
pub read_full_short :
    (n : ℕ) (r : Reader) → length r.bytes < n → read_full n r ≡ err (short_read r.bytes r.failure)
unfolding read_full
read_full_short n r h = ground arith

-- A read that succeeds takes exactly the bytes that it returns.
pub read_full_takes :
    (n : ℕ) (r rest : Reader) (xs : List ℕ)
    → read_full n r ≡ ok (xs, rest)
    → length rest.bytes + n ≡ length r.bytes
unfolding read_full
read_full_takes n r rest xs h = ground (arith, length-drop n r.bytes)
