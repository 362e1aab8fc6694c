-- ===== src/Examples/Service.antt =====
-- The theorems on the pool and on the handlers, at small worlds.
use cage.Common.{◌≤◌, String, List, [], ◌∷◌, ◌≡◌, ◌≢◌, refl, none, some, arith, All}
use cage.Common.Dict
use cage.Common.Dict.{lookup}
use cage.Common.Exec.{ok, err, msg}
use cage.Backend.{SandboxBackend}
use cage.Docker.Adapter
use cage.Docker.Adapter.{Adapter, no_container}
use cage.Docker.Manager
use cage.Store
use cage.Store.{Sandbox, Template, running, paused, row_of}
use cage.World
use cage.World.{World, TemplateConfig}
use cage.Pool
use cage.Pool.{no_pool, queue_of, take, top_up}
use cage.Pool.Bounds.{Event, takes, spawns, parks}
use cage.Pool.Take.{Taken, take-Taken}
use cage.Pool.Refill.{depth, top_up_fills}
use cage.Api.{respond, empty, serve, sandbox, not_allowed, failure}
use cage.Api.Sandboxes
use cage.Api.Sandboxes.{create_sandbox, delete_sandbox}
use cage.Api.Sandboxes.Creation.{create_sandbox-row_of, create_sandbox_refused}
use cage.Api.Sandboxes.Deletion.{delete_sandbox-row_of, deletion_answer}
use cage.Api.Commands.Guards.{handle, handle_conflict, execs, pauses, resumes, deletes, counted}
use cage.Api.Pausing.{pause_sandbox, resume_sandbox}
use cage.Api.Pausing.Consistency.{other_status, AllConsistent, Referenced}
use cage.Api.Pausing.Consistency.Handlers.{
  Call, calls, creates, lists, opens, answers, answers-Referenced,
}
use cage.Api.Pausing.Resumption.{
  pause_sandbox-row_of, resume_sandbox-row_of, pause_then_resume, delete_paused, on_docker,
}
use cage.Api.Pausing.Resumption
use cage.Examples.Daemon.{Daemon, docker, tar}
use cage.Examples.Worlds.{
  adapter, running_row, paused_row, db, world, api, healthy, healthy_api, config, uuid_parse,
}

abbrev full : World (Adapter Daemon)
full = record world { pool = Pool.new (config ∷ []) no_pool }

abbrev rush : List (Event (Adapter Daemon))
rush = spawns "base" "alpine" ∷ takes "base" ∷ parks "base" "warm-9" ∷ []

take-Taken_example :
    Taken healthy "base" (queue_of (lookup "base" full.pool.warm)) full (take healthy "base" full)
take-Taken_example = take-Taken healthy "base" full

top_up_fills_example :
    (w' : World (Adapter Daemon)) × (top_up healthy 3 "base" config full ≡ some w')
    × (2 ≤ depth healthy "base" w')
unfolding lookup Dict.insert Dict.remove Pool.new
top_up_fills_example =
    top_up_fills healthy "base" config 2 3 full (record { queue = []; cap = 2 }) (λ id ref b. refl)
      refl refl (omega arith) (omega arith)

-- A backend that creates nothing.
abbrev broken : SandboxBackend (Adapter Daemon)
broken = record healthy { create_sandbox = λ id ref b. (err (msg "no capacity"), b) }

handle_conflict_example :
    serve (handle api uuid_parse "u2" (execs (some ("ls" ∷ [])))) world
    ≡ (respond 409 (not_allowed "sandbox is %q, not running" paused), counted world)
unfolding row_of
handle_conflict_example =
    handle_conflict api uuid_parse "u2" (execs (some ("ls" ∷ []))) paused_row world refl refl refl
      refl

created : (serve (create_sandbox healthy_api "") world).0.status ≡ 201
unfolding create_sandbox Sandboxes.resolve Sandboxes.from_pool Pool.take Store.get_template_by_slug
    Store.template_of Store.resolve_ref Store.save World.time_now World.new_uuid lookup
created = refl

create_sandbox-row_of_example :
    let (r, w') = serve (create_sandbox healthy_api "") world in
    (row : Sandbox) × (r.body ≡ sandbox row)
    × (row.id ≡ "u3")
    × (row.status ≡ running)
    × (row.paused_image_id ≡ none)
    × (row.created_at ≡ 10)
    × (row.expires_at ≡ 41)
    × (row_of row.id w'.db.sandboxes ≡ some row)
create_sandbox-row_of_example = create_sandbox-row_of healthy_api "" world created

refused : (serve (create_sandbox healthy_api "python") world).0.status ≢ 201
unfolding create_sandbox Sandboxes.resolve Store.get_template_by_slug Store.template_of
refused = λ e. omega arith

create_sandbox_refused_example :
    (serve (create_sandbox healthy_api "python") world).1.db.sandboxes ≡ db.sandboxes
create_sandbox_refused_example = create_sandbox_refused healthy_api "python" world refused

delete_sandbox-row_of_example :
    let killed = (healthy.kill_sandbox "u1" adapter).0 in
    let (r, w') = serve (delete_sandbox healthy_api uuid_parse "u1") world in
    (r ≡ deletion_answer killed) × (w'.backend ≡ adapter) × (row_of "u1" w'.db.sandboxes ≡ none)
unfolding row_of
delete_sandbox-row_of_example =
    delete_sandbox-row_of healthy_api uuid_parse "u1" "u1" running_row world refl refl refl refl

abbrev day : List Call
day =
    creates ""
    ∷ lists
    ∷ calls "u1" pauses
    ∷ calls "u1" resumes
    ∷ opens "u1" (err (respond 426 empty)) []
    ∷ calls "u2" deletes
    ∷ []

answers-Referenced_example :
    AllConsistent (answers healthy_api uuid_parse day world).1
    × All Referenced (answers healthy_api uuid_parse day world).0
answers-Referenced_example =
    answers-Referenced healthy_api uuid_parse day world
      (tt, (tt, (tt, (tt, (other_status _ refl, (tt, tt)))))) (refl, (refl, tt))

pause_then_resume_example :
    let (r, w') = serve (pause_sandbox healthy_api uuid_parse "u1") world in
    let (r', w'') = serve (resume_sandbox healthy_api uuid_parse "u1") w' in
    let row' = record running_row { expires_at = 41 } in
    (r.status ≡ 200)
    × (r' ≡ respond 200 (sandbox row'))
    × (row_of "u1" w''.db.sandboxes ≡ some row')
unfolding row_of
pause_then_resume_example =
    pause_then_resume healthy_api uuid_parse "u1" running_row _ "ref" world refl (λ n. refl) refl
      refl refl refl refl refl

pauses_u1 : (ref : String) × ((Adapter.pause_sandbox docker "u1" adapter).0 ≡ ok ref)
unfolding Adapter.pause_sandbox Adapter.container_for Adapter.unregister Manager.pause_sandbox
    lookup
pauses_u1 = (_, refl)

delete_paused_example :
    let (r, w') = serve (pause_sandbox (on_docker docker tar api) uuid_parse "u1") world in
    let (r', w'') = serve (delete_sandbox (on_docker docker tar api) uuid_parse "u1") w' in
    (r.status ≡ 200)
    × (r' ≡ respond 500 (failure (no_container "u1")))
    × (row_of "u1" w''.db.sandboxes ≡ some (Resumption.paused_row running_row pauses_u1.0 70))
unfolding row_of
delete_paused_example =
    delete_paused docker tar api uuid_parse "u1" running_row pauses_u1.0 world refl (λ n. refl) refl
      refl pauses_u1.1
