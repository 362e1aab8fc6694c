-- ===== src/Api.antt =====
-- internal/api/handlers.go: the server's state and what the handlers share. A handler is an action
-- whose early return is its response.
pub mod Sandboxes
pub mod Commands
pub mod Pausing
pub mod Shell
use cage.Common.{ℕ, String, List, Option, none, some, Bool, true, false, concat, if◌then◌else◌}
use cage.Common.Exec.{Exec, Error, Result, ok, err, msg, wrap, pure, fail, ◌>>=◌, ◌>>◌}
use cage.Backend.{SandboxBackend, ExecOutput}
use cage.Store
use cage.Store.{Sandbox, SandboxStatus, running, stopped, paused, Template}
use cage.World.{World, on_db}

-- http.Error bodies: a text, an error's text, or a text with a status in it.
pub data Body : Type 0 where
  empty : Body
  text : String → Body
  failure : Error → Body
  not_allowed : String → SandboxStatus → Body
  sandbox : Sandbox → Body
  sandboxes : List Sandbox → Body
  templates : List Template → Body
  output : ExecOutput → Body
  content : String → Body

pub record Response : Type 0 where
  pub status : ℕ
  pub body : Body
  -- The header X-Sandbox-Warm-Start, where it is set.
  pub warm_start : Option Bool

abbrev pub respond : ℕ → Body → Response
respond code body = record { status = code; body = body; warm_start = none }

-- API's fields that do not change; the pool itself, where there is one, is in the World.
pub record Api (B : Type 0) : Type 0 where
  pub sb : SandboxBackend B
  pub sandbox_ttl : ℕ
  pub paused_ttl : ℕ
  pub has_pool : Bool
  pub isolation_backend : String

abbrev pub Handler : Type 0 → Type 0 → Type 0
Handler B A = Exec Response (World B) A

-- The response that a handler has written when it returns.
abbrev pub response_of : Result Response Response → Response
response_of (ok r) = r
response_of (err r) = r

abbrev pub serve : {B : Type 0} → Handler B Response → World B → Response × World B
serve m w = let (r, w') = m w in (response_of r, w')

abbrev pub internal : {A : Type 0} → Result Error A → Result Response A
internal (ok a) = ok a
internal (err e) = err (respond 500 (failure e))

-- if err != nil { http.Error(w, err.Error(), http.StatusInternalServerError); return }
abbrev pub or_500 : {B A : Type 0} → Exec Error (World B) A → Handler B A
or_500 m w = let (r, w') = m w in (internal r, w')

abbrev pub or_else : {B A : Type 0} → Option A → Response → Handler B A
or_else none r = fail r
or_else (some a) r = pure a

abbrev pub require : {B : Type 0} → Bool → Response → Handler B (Unit {0})
require true r = pure tt
require false r = fail r

abbrev pub not_found : Response
not_found = respond 404 (text "sandbox not found")

-- parseUUID, then the record of the sandbox: each handler of /sandboxes/{id} begins so.
-- `uuid_parse` is google/uuid's Parse.
unfoldable pub load : {B : Type 0} → (String → Bool) → String → Handler B Sandbox
load uuid_parse id = do
  require (uuid_parse id) not_found
  found ← or_500 (on_db (Store.get id))
  or_else found not_found
