-- ===== src/Common/Bytes.antt =====
-- encoding/binary's big-endian words as lists of bytes.
use Prim.Native.Nat.{ℕ, ◌+◌, ◌*◌, ◌/◌, ◌%◌, ◌^◌, ◌<◌}
use mathlib.Core.Path.{◌≡◌}
use mathlib.Core.List.{List, [], ◌∷◌}
use native.Mathlib.Omega.{arith}

-- binary.BigEndian.Uint32.
abbrev pub uint32 : ℕ → ℕ → ℕ → ℕ → ℕ
uint32 a b c d = a * 2 ^ 24 + b * 2 ^ 16 + c * 2 ^ 8 + d

-- binary.BigEndian.PutUint32 of uint32(n): each byte keeps the low eight bits.
abbrev pub put_uint32 : ℕ → List ℕ
put_uint32 n = (n / 2 ^ 24 % 256) ∷ (n / 2 ^ 16 % 256) ∷ (n / 2 ^ 8 % 256) ∷ (n % 256) ∷ []

-- binary.BigEndian.Uint16.
abbrev pub uint16 : ℕ → ℕ → ℕ
uint16 a b = a * 2 ^ 8 + b

-- binary.BigEndian.PutUint16.
abbrev pub put_uint16 : ℕ → List ℕ
put_uint16 n = (n / 2 ^ 8 % 256) ∷ (n % 256) ∷ []

pub uint32-put_uint32 :
    (n : ℕ) → uint32 (n / 2 ^ 24 % 256) (n / 2 ^ 16 % 256) (n / 2 ^ 8 % 256) (n % 256) ≡ n % 2 ^ 32
uint32-put_uint32 n = omega arith

pub uint16-put_uint16 : (n : ℕ) → n < 2 ^ 16 → uint16 (n / 2 ^ 8 % 256) (n % 256) ≡ n
uint16-put_uint16 n h = omega arith
