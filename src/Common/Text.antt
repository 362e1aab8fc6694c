-- ===== src/Common/Text.antt =====
-- Texts as fmt and path/filepath build them.
use Prim.Native.Nat.{ℕ, zero, suc, ◌/◌, ◌%◌}
use Prim.Native.String.{String, slice}
use mathlib.Core.List.{List, [], ◌∷◌}
use cage.Common.Tests.{concat, ltb, if◌then◌else◌}

abbrev pub concat_all : List String → String
concat_all [] = ""
concat_all (s ∷ ss) = concat s (concat_all ss)

abbrev digit : ℕ → String
digit n = slice "0123456789" n (suc n)

abbrev digits : ℕ → ℕ → String
digits zero n = ""
digits (suc fuel) n =
    let front = digits fuel (n / 10) in if ltb n 10 then digit n else concat front (digit (n % 10))

-- %d of a number of at most 20 digits, as 64-bit numbers are.
abbrev pub decimal : ℕ → String
decimal n = digits 20 n

-- filepath.Join of a directory and a name, both clean and not empty.
abbrev pub join_path : String → String → String
join_path dir name = concat_all (dir ∷ "/" ∷ name ∷ [])
