-- ===== src/Auth/Keys.antt =====
-- internal/auth/auth.go and cmd/genkey/main.go: API keys. `sha256` is crypto/sha256's sum and
-- `random` fills the 32 bytes of crypto/rand's Read.
use Prim.Native.String.{slice}
use cage.Common.{ℕ, suc, ◌/◌, ◌%◌, String, List, [], ◌∷◌, concat}
use cage.Common.Text.{concat_all}
use cage.Common.Exec.{Exec, Error, Result, or_wrap, pure, from_result, ◌>>=◌, ◌>>◌}
use cage.Config.{Config}
use cage.Store.{Db, create_api_key}

abbrev hex_digit : ℕ → String
hex_digit n = slice "0123456789abcdef" n (suc n)

-- hex.EncodeToString.
unfoldable pub encode_to_string : List ℕ → String
encode_to_string [] = ""
encode_to_string (b ∷ bs) =
    concat_all (hex_digit (b / 16) ∷ hex_digit (b % 16) ∷ encode_to_string bs ∷ [])

unfoldable pub hash_key : (String → List ℕ) → String → String
hash_key sha256 raw_key = encode_to_string (sha256 raw_key)

module _ {R : Type 0} (sha256 : String → List ℕ) (random : Exec Error R (List ℕ)) where
  -- The raw key, and its hash.
  unfoldable pub generate_api_key : Exec Error R (String × String)
  generate_api_key = do
    bytes ← or_wrap "failed to generate random key" random
    let raw_key = concat "cage_" (encode_to_string bytes) in pure (raw_key, hash_key sha256 raw_key)

  abbrev pub announcement : String → String → String
  announcement name raw_key = concat_all (
      "API key created for '" ∷ name ∷ "':\n" ∷ raw_key
      ∷ "\n\nSave this now — it will not be shown again.\n" ∷ [])

  abbrev on_random : {A : Type 0} → Exec Error R A → Exec Error (Db × R) A
  on_random m (db, r) = let (a, r') = m r in (a, (db, r'))

  abbrev on_tables : {A : Type 0} → Exec Error Db A → Exec Error (Db × R) A
  on_tables m (db, r) = let (a, db') = m db in (a, (db', r))

  -- The program: what it prints, or the error that it ends with. `new_store` is NewStore's
  -- connection.
  unfoldable pub genkey :
      {T N : Type 0}
      → Result Error (Config T N)
      → (String → Result Error (Unit {0}))
      → String
      → Exec Error (Db × R) String
  genkey config new_store name = do
    cfg ← from_result config
    from_result (new_store cfg.database_url)
    (raw_key, key_hash) ← on_random generate_api_key
    on_tables (create_api_key name key_hash)
    pure (announcement name raw_key)
