-- ===== src/Store.antt =====
-- internal/store: the Postgres tables, and each SQL statement as a function on them. A statement
-- that fails changes nothing; `outage n` is the error, if any, of the n-th statement, and `clock n`
-- what now() gives in it.
pub mod Rows
pub mod Queries
use Prim.Native.Nat.{Ordering}
use Prim.Native.String
use cage.Common.{
  ℕ, suc, String, List, [], ◌∷◌, ◌++◌, Option, none, some, Bool, true, false, ◌&&◌, ◌||◌, ltb,
  str_eq, concat, keep, map, if◌then◌else◌,
}
use cage.Common.Exec.{Exec, Error, Result, ok, err, msg, wrap}

pub data SandboxStatus : Type 0 where
  running stopped paused : SandboxStatus

abbrev pub is_running : SandboxStatus → Bool
is_running running = true
is_running stopped = false
is_running paused = false

abbrev pub is_paused : SandboxStatus → Bool
is_paused running = false
is_paused stopped = false
is_paused paused = true

pub record Sandbox : Type 0 where
  pub id : String
  pub container_id : String
  pub status : SandboxStatus
  pub created_at : ℕ
  pub expires_at : ℕ
  pub template_slug : String
  pub paused_image_id : Option String

pub record Template : Type 0 where
  pub id : String
  pub slug : String
  pub image : String
  pub firecracker_rootfs_slug : Option String
  pub description : String

pub record ApiKey : Type 0 where
  pub key_hash : String
  pub name : String
  pub revoked_at : Option ℕ

pub record Db : Type 0 where
  pub sandboxes : List Sandbox
  pub templates : List Template
  pub api_keys : List ApiKey
  pub outage : ℕ → Option Error
  pub clock : ℕ → ℕ
  pub statements : ℕ

abbrev pub answer : {A : Type 0} → String → Option Error → A × Db → Db → Result Error A × Db
answer text none (a, after) db = (ok a, after)
answer text (some e) r db = (err (wrap text e), db)

-- One statement: it fails and is counted, or it gives its rows and the tables after it.
abbrev pub statement : {A : Type 0} → String → (Db → A × Db) → Exec Error Db A
statement text sql db =
    let counted = record db { statements = suc db.statements } in
    answer text (db.outage db.statements) (sql counted) counted

-- INSERT … ON CONFLICT (id) DO UPDATE.
unfoldable pub upsert : Sandbox → List Sandbox → List Sandbox
upsert sb [] = sb ∷ []
upsert sb (row ∷ rows) = if str_eq row.id sb.id then sb ∷ rows else row ∷ upsert sb rows

-- SELECT … WHERE id = $1.
unfoldable pub row_of : String → List Sandbox → Option Sandbox
row_of id [] = none
row_of id (row ∷ rows) = if str_eq row.id id then some row else row_of id rows

-- DELETE … WHERE id = $1.
unfoldable pub delete_row : String → List Sandbox → List Sandbox
delete_row id = keep (λ row. if str_eq row.id id then false else true)

unfoldable pub save : Sandbox → Exec Error Db (Unit {0})
save sb =
    statement "failed to save sandbox" λ db. (tt, record db { sandboxes = upsert sb db.sandboxes })

-- No row is nil with no error.
unfoldable pub get : String → Exec Error Db (Option Sandbox)
get id = statement "faled to get sandboxes" λ db. (row_of id db.sandboxes, db)

unfoldable pub delete : String → Exec Error Db (Unit {0})
delete id =
    statement "failed to delete sandbox"
      λ db. (tt, record db { sandboxes = delete_row id db.sandboxes })

-- ORDER BY created_at DESC.
unfoldable pub by_created : Sandbox → List Sandbox → List Sandbox
by_created sb [] = sb ∷ []
by_created sb (row ∷ rows) =
    if ltb sb.created_at row.created_at then row ∷ by_created sb rows else sb ∷ row ∷ rows

unfoldable pub newest_first : List Sandbox → List Sandbox
newest_first [] = []
newest_first (row ∷ rows) = by_created row (newest_first rows)

-- The statement of List does not select paused_image_id, which stays nil.
abbrev pub forget_image : Sandbox → Sandbox
forget_image row = record row { paused_image_id = none }

abbrev pub without_image : List Sandbox → List Sandbox
without_image = map forget_image

unfoldable pub list : Exec Error Db (List Sandbox)
unfolding newest_first by_created
list = statement "failed to list sandboxes" λ db. (without_image (newest_first db.sandboxes), db)

-- WHERE expires_at < now() AND status IN ('running', 'paused').
abbrev pub is_expired : ℕ → Sandbox → Bool
is_expired now sb = ltb sb.expires_at now && (is_running sb.status || is_paused sb.status)

unfoldable pub list_expired : Exec Error Db (List Sandbox)
list_expired db =
    statement "failed to list expired sandboxes"
      (λ t. (keep (is_expired (db.clock db.statements)) t.sandboxes, t)) db

unfoldable pub has_key : String → List ApiKey → Bool
has_key hash [] = false
has_key hash (key ∷ keys) = if str_eq key.key_hash hash then true else has_key hash keys

-- key_hash is UNIQUE, so a second key with the same hash is an error.
unfoldable pub create_api_key : String → String → Exec Error Db (Unit {0})
create_api_key name hash db =
    let counted = record db { statements = suc db.statements } in
    let text : String = "failed to create api key" in
    if has_key hash db.api_keys
    then (err (wrap text (msg "duplicate key value")), counted)
    else answer text (db.outage db.statements)
        (
          tt,
          record counted {
            api_keys = record { key_hash = hash; name = name; revoked_at = none } ∷ db.api_keys;
          },
        )
        counted

abbrev pub is_live : ApiKey → Bool
is_live key = elim key.revoked_at [ none ↦ true | some t ↦ false ]

-- SELECT EXISTS(… key_hash = $1 AND revoked_at IS NULL).
unfoldable pub has_live_key : String → List ApiKey → Bool
has_live_key hash [] = false
has_live_key hash (key ∷ keys) =
    if str_eq key.key_hash hash && is_live key then true else has_live_key hash keys

unfoldable pub validate_api_key : String → Exec Error Db Bool
validate_api_key hash =
    statement "failed to validate api key" λ db. (has_live_key hash db.api_keys, db)

unfoldable pub template_of : String → List Template → Option Template
template_of slug [] = none
template_of slug (t ∷ ts) = if str_eq t.slug slug then some t else template_of slug ts

unfoldable pub get_template_by_slug : String → Exec Error Db (Option Template)
get_template_by_slug slug =
    statement "failed to get template" λ db. (template_of slug db.templates, db)

-- ORDER BY slug.
abbrev pub slug_before : String → String → Bool
slug_before s t = elim (String.compare s t) [ Ordering.gt ↦ false | _ ↦ true ]

unfoldable pub by_slug : Template → List Template → List Template
by_slug t [] = t ∷ []
by_slug t (x ∷ xs) = if slug_before t.slug x.slug then t ∷ x ∷ xs else x ∷ by_slug t xs

unfoldable pub slug_order : List Template → List Template
slug_order [] = []
slug_order (t ∷ ts) = by_slug t (slug_order ts)

unfoldable pub list_template : Exec Error Db (List Template)
list_template = statement "failed to list templates" λ db. (slug_order db.templates, db)

abbrev pub no_rootfs : Template → Error
no_rootfs t =
    msg (concat "template \"" (concat t.slug "\" has no firecracker_rootfs_slug configured"))

abbrev pub no_image : Template → Error
no_image t = msg (concat "template \"" (concat t.slug "\" has no docker image configured"))

-- Template.ResolveRef.
unfoldable pub resolve_ref : Template → String → Result Error String
resolve_ref t isolation_backend =
    if str_eq isolation_backend "firecracker"
    then elim t.firecracker_rootfs_slug [
      | none ↦ err (no_rootfs t)
      | some slug ↦ if str_eq slug "" then err (no_rootfs t) else ok slug
    ]
    else if str_eq t.image ""
    then err (no_image t)
    else ok t.image
