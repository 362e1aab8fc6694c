-- ===== src/Auth/Issue.antt =====
-- A key that genkey prints opens the guarded routes.
use Prim.Native.String.{len, slice}
use text.Mathlib.TextPositions.{len-append, slice-append_left, slice-append_right}
use cage.Common.{
  ℕ, ◌+◌, String, List, Option, none, some, true, false, ◌≡◌, refl, sym, ap, ◌∙◌, arith, concat,
  str_eq, str_eq_self, str_eq_ne,
}
use cage.Common.Exec.{Exec, Error, Result, ok}
use cage.Config.{Config}
use cage.Redis
use cage.Store.{Db, create_api_key, validate_api_key, has_live_key}
use cage.World.{World}
use cage.Api.{Handler, Response}
use cage.Auth.{
  auth_middleware, validate_with_cache, trim_prefix, cache_key, cache_get, cached_value,
  value_or_empty, ask_store,
}
use cage.Auth.Keys.{hash_key, generate_api_key, genkey, announcement}

create-has_live_key :
    (name hash : String) (db : Db)
    → (create_api_key name hash db).0 ≡ ok tt
    → has_live_key hash (create_api_key name hash db).1.api_keys ≡ true
unfolding create_api_key has_live_key
create-has_live_key name hash db h = ground (arith, str_eq_self hash)

trim_prefix-concat : (prefix s : String) → trim_prefix (concat prefix s) prefix ≡ s
trim_prefix-concat prefix s =
    rw (slice-append_left prefix s, str_eq_self prefix)
      (ap (λ n. slice (concat prefix s) (len prefix) n) (len-append prefix s)
        ∙ slice-append_right prefix s)

bearer_set : (raw : String) → str_eq (concat "Bearer " raw) "" ≡ false
bearer_set raw = str_eq_ne (concat "Bearer " raw) "" λ e.
    let none_left : len "Bearer " + len raw ≡ len "" = sym (len-append "Bearer " raw) ∙ ap len e in
    omega arith

cached-answer :
    (o : Option Error) (v : Option String) (after r : Redis.Redis)
    → v ≡ none
    → cached_value (Redis.answer o (value_or_empty v, after) r).0 ≡ none
cached-answer none v after r h = rw h refl
cached-answer (some e) v after r h = refl

cached_none :
    (key : String) (r : Redis.Redis)
    → Redis.get key r ≡ none
    → cached_value (cache_get key r).0 ≡ none
unfolding Redis.get
cached_none key r empty = cached-answer (r.outage r.commands) _ _ _ empty

ask_store-live :
    {B : Type 0} (hash : String) (w : World B)
    → has_live_key hash w.db.api_keys ≡ true
    → w.db.outage w.db.statements ≡ none
    → (ask_store hash w).0 ≡ ok true
unfolding validate_api_key
ask_store-live hash w live up = rw (up, live) refl

validate-live :
    {B : Type 0} (hash : String) (w : World B)
    → has_live_key hash w.db.api_keys ≡ true
    → w.db.outage w.db.statements ≡ none
    → Redis.get (cache_key hash) w.redis ≡ none
    → (validate_with_cache hash w).0 ≡ ok true
unfolding validate_with_cache
validate-live hash w live up empty =
    rw (cached_none (cache_key hash) w.redis empty)
      (ask_store-live hash (record w { redis = (cache_get (cache_key hash) w.redis).1 }) live up)

module _ {R : Type 0} (sha256 : String → List ℕ) (random : Exec Error R (List ℕ)) {T N : Type 0}
    (config : Result Error (Config T N)) (new_store : String → Result Error (Unit {0})) where
  generate-hash :
      (r r' : R) (raw hash : String)
      → generate_api_key sha256 random r ≡ (ok (raw, hash), r')
      → hash ≡ hash_key sha256 raw
  unfolding generate_api_key
  generate-hash r r' raw hash made = ground arith

  genkey-created :
      (name text raw hash : String) (db : Db) (r r' : R)
      → generate_api_key sha256 random r ≡ (ok (raw, hash), r')
      → (genkey sha256 random config new_store name (db, r)).0 ≡ ok text
      → ((create_api_key name hash db).0 ≡ ok tt)
        × ((genkey sha256 random config new_store name (db, r)).1.0
            ≡ (create_api_key name hash db).1)
        × (text ≡ announcement sha256 random name raw)
  unfolding genkey
  genkey-created name text raw hash db r r' made done = ground arith

  admitted-next :
      {B : Type 0} (raw hash : String) (w : World B) (next : Handler B Response)
      → hash ≡ hash_key sha256 raw
      → (validate_with_cache hash w).0 ≡ ok true
      → auth_middleware (hash_key sha256) (concat "Bearer " raw) next w
        ≡ next (validate_with_cache hash w).1
  unfolding auth_middleware
  admitted-next raw hash w next same live =
      rw (bearer_set raw, trim_prefix-concat "Bearer " raw, sym same, live) refl

  -- When genkey ends without an error, it has printed the key that GenerateAPIKey gave, and on the
  -- tables that it leaves AuthMiddleware hands a request that bears this key on to the handler behind
  -- it, where the statement succeeds and the cache holds no verdict on the key's hash.
  pub genkey-auth_middleware :
      {B : Type 0} (name text raw hash : String) (db : Db) (r r' : R) (w : World B)
      (next : Handler B Response)
      → generate_api_key sha256 random r ≡ (ok (raw, hash), r')
      → (genkey sha256 random config new_store name (db, r)).0 ≡ ok text
      → w.db ≡ (genkey sha256 random config new_store name (db, r)).1.0
      → w.db.outage w.db.statements ≡ none
      → Redis.get (cache_key hash) w.redis ≡ none
      → (text ≡ announcement sha256 random name raw)
        × (auth_middleware (hash_key sha256) (concat "Bearer " raw) next w
            ≡ next (validate_with_cache hash w).1)
  genkey-auth_middleware name text raw hash db r r' w next made done tables up empty =
      let (created, left, said) = genkey-created name text raw hash db r r' made done in
      let live : has_live_key hash w.db.api_keys ≡ true =
        ap (λ db. has_live_key hash db.api_keys) (tables ∙ left)
        ∙ create-has_live_key name hash db created in
      (
        said,
        admitted-next raw hash w next (generate-hash r r' raw hash made)
            (validate-live hash w live up empty),
      )
