-- ===== src/Server.antt =====
-- cmd/cage/main.go: how the server is put together, its routes and its start.
pub mod Admission
pub mod Start
pub mod Exits
use cage.Common.{
  ℕ, String, List, [], ◌∷◌, Bool, true, false, Option, none, some, str_eq, if◌then◌else◌,
}
use cage.Common.Exec.{Exec, Error, Result, ok, err, pure, gets, modify, attempt, ◌>>=◌, ◌>>◌}
use cage.Api.{Api, Handler, Response, respond, serve, text}
use cage.Api.Commands
use cage.Api.Commands.{WriteFileRequest}
use cage.Api.Pausing
use cage.Api.Sandboxes
use cage.Api.Shell
use cage.Api.Shell.{Event}
use cage.Auth.{authenticated, metrics_auth_middleware, validate_with_cache}
use cage.RateLimit.{Buckets, Limited, Limiter, rate_limit_middleware}
use cage.Pool
use cage.Pool.{no_pool}
use cage.Store
use cage.Store.{Template, resolve_ref}
use cage.World.{World, TemplateConfig, on_db}

-- A request: its path's segments, the Authorization header, the host's time, and what the handlers
-- read of its body and its query.
pub record Request : Type 0 where
  pub method : String
  pub path : List String
  pub authorization : String
  pub received_at : ℕ
  pub template : String
  pub exec_body : Option (List String)
  pub write_body : Option WriteFileRequest
  pub file_path : String
  pub upgrade : Result Response (Unit {0})
  pub events : List Event

-- What the router answers where no route matches, and promhttp's handler, are chi's and
-- Prometheus's.
module _ {B : Type 0} (api : Api B) (uuid_parse : String → Bool) (hash_key : String → String)
    (limiter : Limiter) (metrics_token : String) (exposition : Handler B Response)
    (unrouted : Request → Response) where
  abbrev no_route : Request → Handler B Response
  no_route req = pure (unrouted req)

  abbrev when : String → Request → Handler B Response → Handler B Response → Handler B Response
  when method req handler other = if str_eq req.method method then handler else other

  -- The routes below /sandboxes.
  unfoldable pub sandbox_route : List String → Request → Handler B Response
  sandbox_route [] req =
      when "POST" req (Sandboxes.create_sandbox api req.template)
        (when "GET" req (Sandboxes.list_sandboxes api) (no_route req))
  sandbox_route (id ∷ []) req =
      if str_eq id ""
      then when "POST" req (Sandboxes.create_sandbox api req.template)
          (when "GET" req (Sandboxes.list_sandboxes api) (no_route req))
      else when "GET" req (Sandboxes.get_sandbox api uuid_parse id)
          (when "DELETE" req (Sandboxes.delete_sandbox api uuid_parse id) (no_route req))
  sandbox_route (id ∷ action ∷ []) req =
      if str_eq action "exec"
      then when "POST" req (Commands.exec_command api uuid_parse id req.exec_body) (no_route req)
      else if str_eq action "files"
      then when "POST" req (Commands.write_file api uuid_parse id req.write_body)
          (when "GET" req (Commands.read_file api uuid_parse id req.file_path) (no_route req))
      else if str_eq action "pause"
      then when "POST" req (Pausing.pause_sandbox api uuid_parse id) (no_route req)
      else if str_eq action "resume"
      then when "POST" req (Pausing.resume_sandbox api uuid_parse id) (no_route req)
      else if str_eq action "shell"
      then when "GET" req (Shell.open_shell_session api uuid_parse id req.upgrade req.events)
          (no_route req)
      else no_route req
  sandbox_route _ req = no_route req

  -- The server's state beside the buckets, which the limiter keeps.
  abbrev pub State : Type 0
  State = Buckets × World B

  abbrev pub on_world : {E A : Type 0} → Exec E (World B) A → Exec E State A
  on_world m (l, w) = let (r, w') = m w in (r, (l, w'))

  abbrev pub limited : Request → Handler B Response → Exec Response State Response
  limited req handler s =
      let (answer, s') =
        rate_limit_middleware hash_key limiter req.authorization req.received_at (serve handler)
          s in
      (ok answer.response, s')

  abbrev pub validate : String → Exec Error State Bool
  validate raw_key = on_world (validate_with_cache (hash_key raw_key))

  -- The routes outside the guards of /sandboxes.
  abbrev pub open_route : String → List String → Request → Handler B Response
  open_route part [] req =
      if str_eq part "metrics"
      then metrics_auth_middleware metrics_token req.authorization exposition
      else if str_eq part "health"
      then when "GET" req (pure (respond 200 (text "ok"))) (no_route req)
      else if str_eq part "templates"
      then when "GET" req (Sandboxes.list_templates api) (no_route req)
      else no_route req
  open_route part (_ ∷ _) req = no_route req

  unfoldable pub route : Request → List String → Exec Response State Response
  route req (part ∷ rest) =
      if str_eq part "sandboxes"
      then authenticated validate req.authorization (limited req (sandbox_route rest req))
      else on_world (open_route part rest req)
  route req [] = on_world (no_route req)

-- The error is logged, and the template is not skipped.
abbrev ref_or_empty : Result Error String → String
ref_or_empty (ok ref) = ref
ref_or_empty (err e) = ""

unfoldable pub pool_configs : String → ℕ → List Template → List TemplateConfig
pool_configs isolation_backend size [] = []
pool_configs isolation_backend size (t ∷ ts) =
    record {
      slug = t.slug;
      template_ref = ref_or_empty (resolve_ref t isolation_backend);
      size = size;
    }
    ∷ pool_configs isolation_backend size ts

-- The branch of the switch that makes the Docker backend's warm pool.
unfoldable pub make_pool : {B : Type 0} → String → ℕ → Exec Error (World B) (Unit {0})
make_pool isolation_backend size = do
  templates ← on_db Store.list_template
  modify λ w. record w { pool = Pool.new (pool_configs isolation_backend size templates) no_pool }
